-- ===== src/Middleware/Concurrency.antt =====
-- The concurrency limiter (internal/middleware/concurrency.go): its statistics and the time that a
-- request waits for a slot. `time.Now()` is an argument, durations are nanoseconds and latencies
-- milliseconds. The semaphore is a third-party package and is left out. `float64(p95)*1.5` and
-- `float64(n)*0.95` are rounded down to integers by the code; for the values that occur (latencies
-- below 2^51, at most 100 samples) that is the rounded quotient written here. `sort.Slice` is
-- taken to sort.
pub mod Waiting
mod Tests
use inf_api.Common.{
  ℕ, zero, suc, ◌+◌, ◌-◌, ◌*◌, ◌/◌, ◌%◌, Bool, true, false, ◌&&◌, ◌||◌, Option, none, some, List,
  [], ◌∷◌, length, keep, leb, ltb, if◌then◌else◌,
}
use inf_api.Common.Int.{ℤ, pos, negsuc}
use inf_api.Common.Time.{second, millisecond, sub_time}

pub record ConcurrencyLimiter : Type 0 where
  pub max_concurrent : ℕ
  pub timeout : ℕ
  pub adaptive : Bool
  pub cached_p95 : ℕ
  pub latency_window : List ℕ
  pub window_idx : ℕ
  pub window_size : ℕ
  pub last_p95_update : ℕ

unfoldable pub zeros : ℕ → List ℕ
zeros zero = []
zeros (suc n) = 0 ∷ zeros n

unfoldable pub positive_or : ℤ → ℕ → ℕ
positive_or (pos n) other = if ltb 0 n then n else other
positive_or (negsuc n) other = other

-- `NewConcurrencyLimiter`
unfoldable pub new_concurrency_limiter : ℤ → ℤ → Bool → ConcurrencyLimiter
unfolding positive_or
new_concurrency_limiter max_concurrent timeout adaptive = record {
  max_concurrent = positive_or max_concurrent 100;
  timeout = positive_or timeout (120 * second);
  adaptive = adaptive;
  cached_p95 = 0;
  latency_window = zeros 100;
  window_idx = 0;
  window_size = 100;
  last_p95_update = 0;
}

-- the time that follows from the percentile, within 5 and 60 seconds
unfoldable pub adaptive_wait : ℕ → ℕ
adaptive_wait p95 =
    let calc_wait = p95 * 3 / 2 * millisecond in
    if ltb calc_wait (5 * second)
    then 5 * second
    else if ltb (60 * second) calc_wait
    then 60 * second
    else calc_wait

-- `waitTimeout` in `Limit`
unfoldable pub wait_timeout : ConcurrencyLimiter → ℕ
unfolding adaptive_wait
wait_timeout cl =
    let wait =
      if cl.adaptive && ltb 0 cl.cached_p95 then adaptive_wait cl.cached_p95 else 60 * second in
    if ltb cl.timeout wait then cl.timeout else wait

unfoldable pub set_at : ℕ → ℕ → List ℕ → List ℕ
set_at i v [] = []
set_at zero v (x ∷ xs) = v ∷ xs
set_at (suc i) v (x ∷ xs) = x ∷ set_at i v xs

unfoldable pub sort_insert : ℕ → List ℕ → List ℕ
sort_insert x [] = x ∷ []
sort_insert x (y ∷ ys) = let rest = sort_insert x ys in if leb x y then x ∷ y ∷ ys else y ∷ rest

unfoldable pub sort : List ℕ → List ℕ
unfolding sort_insert
sort [] = []
sort (x ∷ xs) = sort_insert x (sort xs)

unfoldable pub sample_at : List ℕ → ℕ → ℕ
sample_at [] i = 0
sample_at (x ∷ xs) zero = x
sample_at (x ∷ xs) (suc i) = sample_at xs i

unfoldable pub percentile_index : ℕ → ℕ
percentile_index n = let idx = n * 95 / 100 in if leb n idx then n - 1 else idx

-- `recalcP95`
unfoldable pub recalc_p95 : ℕ → ConcurrencyLimiter → ConcurrencyLimiter
unfolding sort sample_at percentile_index
recalc_p95 now cl =
    let valid = keep (λ v. ltb 0 v) cl.latency_window in
    if leb (sub_time now cl.last_p95_update) second
    then cl
    else if ltb (length valid) 10
    then record cl { last_p95_update = now }
    else record cl {
      last_p95_update = now;
      cached_p95 = sample_at (sort valid) (percentile_index (length valid));
    }

-- `UpdateStats`, with the readings of the clock before and in `recalcP95`
unfoldable pub update_stats : ℕ → ℕ → ℕ → ConcurrencyLimiter → ConcurrencyLimiter
unfolding recalc_p95 set_at
update_stats now later d cl =
    let stored = record cl {
      latency_window = set_at cl.window_idx (d / millisecond) cl.latency_window;
      window_idx = (cl.window_idx + 1) % cl.window_size;
    } in
    if ltb second (sub_time now cl.last_p95_update) then recalc_p95 later stored else stored

-- `GetP95`
abbrev pub get_p95 : ConcurrencyLimiter → ℕ
get_p95 cl = cl.cached_p95
