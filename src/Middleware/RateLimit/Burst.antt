-- ===== src/Middleware/RateLimit/Burst.antt =====
-- How many attempts the rate limiter allows (internal/middleware/ratelimit.go).
use inf_api.Common.{ℕ, ◌+◌, ◌*◌, ◌≤◌, Bool, List, [], ◌∷◌, if◌then◌else◌}
use inf_api.Common.Map.{lookup}
use inf_api.Common.Text.{Text, key_dec, text_eq}
use inf_api.Common.Time.{max_duration}
use inf_api.Middleware.RateLimit.{
  Floats, LimiterEntry, RateLimiter, allow_entry, allow, cleanup_limiter,
}
use inf_api.Middleware.RateLimit.Worth.{Rounds, worth}

-- What reaches a limiter: an attempt of an address, or the cleanup, each some time after what was
-- before it.
pub data Visit : Type 0 where
  attempt : Text → ℕ → Visit
  swept : ℕ → Visit

module _ {F : Type 0} (floats : Floats F) where
  -- The limiter at a visit and after it, at the instant of the visit; `attempt` keeps its answer.
  abbrev pub visit : ℕ → Visit → RateLimiter F → RateLimiter F
  visit now (attempt ip d) rl = (allow floats ip (now + d) rl).1
  visit now (swept d) rl = cleanup_limiter (now + d) rl

  -- how many attempts of an address are allowed among the visits
  abbrev pub granted : Text → ℕ → Visit → RateLimiter F → ℕ
  granted ip now (attempt j d) rl =
      if text_eq j ip then (if (allow floats j (now + d) rl).0 then 1 else 0) else 0
  granted ip now (swept d) rl = 0

abbrev pub later : Visit → ℕ
later (attempt ip d) = d
later (swept d) = d

unfoldable pub allowed : {F : Type 0} → Floats F → Text → ℕ → List Visit → RateLimiter F → ℕ
allowed floats ip now [] rl = 0
allowed floats ip now (v ∷ visits) rl =
    granted floats ip now v rl + allowed floats ip (now + later v) visits (visit floats now v rl)

unfoldable pub span : List Visit → ℕ
span [] = 0
span (v ∷ visits) = later v + span visits

module _ {F : Type 0} (floats : Floats F) (m w error : ℕ) (parts : F → ℕ)
    (rounds : Rounds floats m w error parts) (ip : Text) (some_attempt : 1 ≤ m)
    (fits : w * 2 ≤ max_duration) where
  abbrev limiter : List (Text × LimiterEntry F) → RateLimiter F
  limiter l = record { entries = l; max_attempts = m; window = w }

  -- what the invariant is about: an address's parts
  abbrev parts_of : ℕ → List (Text × LimiterEntry F) → ℕ
  parts_of now l = worth floats m w error parts rounds now (lookup key_dec ip l)

  abbrev answer_to : Text → ℕ → List (Text × LimiterEntry F) → Bool × LimiterEntry F
  answer_to j now l = allow_entry floats m w now (lookup key_dec j l)
