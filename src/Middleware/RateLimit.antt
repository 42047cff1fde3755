-- ===== src/Middleware/RateLimit.antt =====
-- The rate limiter of the logins (internal/middleware/ratelimit.go). An entry's mutex and the map's
-- own make every call one step, at an instant that is an argument. Tokens are float64, whose
-- arithmetic is a parameter.
pub mod Worth
pub mod Burst
mod Tests
use inf_api.Common.{
  ℕ, ◌-◌, ◌*◌, ◌+◌, Bool, true, false, ◌==◌, Option, none, some, List, [], ◌∷◌, leb, ltb,
  if◌then◌else◌, is_empty,
}
use inf_api.Common.Map.{lookup, insert}
use inf_api.Common.Text.{Text, key_dec, trim_space}
use inf_api.Common.Time.{max_duration, sub_time}
use inf_api.Common.Int.{ℤ, pos, take_one}

-- float64, as far as the limiter computes with it: `seconds` is `Duration.Seconds`.
pub record Floats (F : Type 0) : Type 0 where
  pub of_int : ℤ → F
  pub seconds : ℕ → F
  pub plus : F → F → F
  pub sub : F → F → F
  pub mul : F → F → F
  pub div : F → F → F
  pub above : F → F → Bool
  pub at_least : F → F → Bool

pub record LimiterEntry (F : Type 0) : Type 0 where
  pub tokens : F
  pub last_visit : ℕ

pub record RateLimiter (F : Type 0) : Type 0 where
  pub entries : List (Text × LimiterEntry F)
  pub max_attempts : ℕ
  pub window : ℕ

-- `NewRateLimiter`
abbrev pub new_rate_limiter : {F : Type 0} → ℕ → ℕ → RateLimiter F
new_rate_limiter max_attempts window = record {
  entries = [];
  max_attempts = max_attempts;
  window = window;
}

module _ {F : Type 0} (floats : Floats F) where
  -- the tokens and those of some time at the limiter's rate
  abbrev pub refilled : ℕ → ℕ → ℕ → F → F
  refilled max_attempts window elapsed tokens =
      let rate_per_sec = floats.div (floats.of_int (pos max_attempts)) (floats.seconds window) in
      floats.plus tokens (floats.mul (floats.seconds elapsed) rate_per_sec)

  -- the tokens of an entry after the time since its last visit, at most those of all attempts
  unfoldable pub replenish : ℕ → ℕ → ℕ → LimiterEntry F → F
  replenish max_attempts window now entry =
      let tokens = refilled max_attempts window (sub_time now entry.last_visit) entry.tokens in
      let most = floats.of_int (pos max_attempts) in
      if floats.above tokens most then most else tokens

  -- `processExistingEntry`
  unfoldable pub process_existing_entry : ℕ → ℕ → ℕ → LimiterEntry F → Bool × LimiterEntry F
  unfolding replenish
  process_existing_entry max_attempts window now entry =
      let tokens = replenish max_attempts window now entry in
      let one = floats.of_int (pos 1) in
      if floats.at_least tokens one
      then (true, record { tokens = floats.sub tokens one; last_visit = now })
      else (false, record { tokens = tokens; last_visit = now })

  -- the entry of the first attempt, which has taken its token
  abbrev pub first_entry : ℕ → ℕ → LimiterEntry F
  first_entry max_attempts now = record {
    tokens = floats.of_int (take_one (pos max_attempts));
    last_visit = now;
  }

  -- `Allow` on the entry that is stored under the address, if there is one. The code looks twice,
  -- the second time together with the storing; either look that finds an entry uses it.
  unfoldable pub allow_entry : ℕ → ℕ → ℕ → Option (LimiterEntry F) → Bool × LimiterEntry F
  unfolding process_existing_entry
  allow_entry max_attempts window now none = (true, first_entry max_attempts now)
  allow_entry max_attempts window now (some entry) =
      process_existing_entry max_attempts window now entry

  -- `Allow`
  unfoldable pub allow : Text → ℕ → RateLimiter F → Bool × RateLimiter F
  unfolding allow_entry lookup insert
  allow ip now rl =
      let answer = allow_entry rl.max_attempts rl.window now (lookup key_dec ip rl.entries) in
      (answer.0, record rl { entries = insert key_dec ip answer.1 rl.entries })

module _ {F : Type 0} where
  -- `now.Sub(lastVisit) > ttl`. A window above half of the longest duration makes `rl.window * 2`
  -- negative.
  unfoldable pub outlived : ℕ → ℕ → LimiterEntry F → Bool
  outlived window now entry =
      if leb (window * 2) max_duration
      then ltb (window * 2) (sub_time now entry.last_visit)
      else true

  unfoldable pub sweep_entries : ℕ → ℕ → List (Text × LimiterEntry F) → List (Text × LimiterEntry F)
  unfolding outlived
  sweep_entries window now [] = []
  sweep_entries window now ((ip, entry) ∷ rest) =
      let kept = sweep_entries window now rest in
      if outlived window now entry then kept else (ip, entry) ∷ kept

  -- `cleanup`
  unfoldable pub cleanup_limiter : ℕ → RateLimiter F → RateLimiter F
  unfolding sweep_entries
  cleanup_limiter now rl = record rl { entries = sweep_entries rl.window now rl.entries }

-- `xff[:idx]` for the first comma, and all of it where there is none
unfoldable pub before_comma : Text → Text
before_comma [] = []
before_comma (c ∷ s) = if c == b',' then [] else c ∷ before_comma s

unfoldable pub has_comma : Text → Bool
has_comma [] = false
has_comma (c ∷ s) = if c == b',' then true else has_comma s

-- The address that X-Forwarded-For names first, with no spaces around it.
unfoldable pub forwarded_for : Text → Text
unfolding before_comma has_comma trim_space
forwarded_for header =
    let xff = trim_space header in if has_comma xff then trim_space (before_comma xff) else xff

-- `ExtractIP`, where `split_host_port` is the host that `net.SplitHostPort` finds.
unfoldable pub extract_ip : (Text → Option Text) → Text → Text → Text → Text
unfolding forwarded_for trim_space
extract_ip split_host_port remote_addr x_forwarded_for x_real_ip =
    let xff = forwarded_for x_forwarded_for in
    let xri = trim_space x_real_ip in
    if is_empty xff
    then (if is_empty xri
        then elim (split_host_port remote_addr) [ none ↦ remote_addr | some host ↦ host ]
        else xri)
    else xff
