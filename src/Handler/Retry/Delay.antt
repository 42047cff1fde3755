-- ===== src/Handler/Retry/Delay.antt =====
-- The delay before a request is sent again (internal/handler/handler_helpers.go). A duration is a
-- 64-bit number of nanoseconds with a sign.
use inf_api.Common.{
  ℕ, zero, suc, ◌-◌, ◌*◌, ◌^◌, ◌≤◌, ◌<◌, ◌≡◌, refl, Bool, true, false, ◌&&◌, arith, ltb, ◌==◌,
  if◌then◌else◌, ◌⊎◌, inl, inr,
}
use inf_api.Common.Int.{ℤ, pos, negsuc, to_int64}
use inf_api.Common.Time.{second}
use inf_api.Errors.Classify.{Category, model_unavailable, timeout, network, server, unknown}
use inf_api.Handler.Retry.Messages.{is_rate_limit}

-- `attempt`, at least 1 and at most 4
abbrev pub clamp_attempt : ℕ → ℕ
clamp_attempt n = if ltb n 1 then 1 else if ltb 4 n then 4 else n

-- the least delay for a rate limit, and the largest delay
unfoldable pub clamp_delay : Bool → ℤ → ℤ
clamp_delay limited (pos n) =
    let raised = if limited && ltb n (2 * second) then 2 * second else n in
    pos (if ltb (30 * second) raised then 30 * second else raised)
clamp_delay limited (negsuc n) = if limited then pos (2 * second) else negsuc n

-- `computeRetryDelay`, for a base and an attempt that are not negative
unfoldable pub compute_retry_delay : ℕ → ℕ → Category → ℤ
unfolding to_int64 clamp_delay
compute_retry_delay base attempt category =
    if base == 0
    then pos 0
    else clamp_delay (is_rate_limit category) (to_int64 (base * 2 ^ (clamp_attempt attempt - 1)))

-- `shouldRetryCurrentAccountWhenNoAlternative`
abbrev pub should_retry_current_account : Category → Bool
should_retry_current_account network = true
should_retry_current_account timeout = true
should_retry_current_account server = true
should_retry_current_account model_unavailable = true
should_retry_current_account unknown = true
should_retry_current_account _ = false

-- the delay doubles with the attempts, up to eight times the base
power-cases :
    (n : ℕ)
    → let p = 2 ^ (clamp_attempt n - 1) in
      ((n ≤ 1) × (p ≡ 1)) ⊎ (((n ≡ 2) × (p ≡ 2)) ⊎ (((n ≡ 3) × (p ≡ 4)) ⊎ ((4 ≤ n) × (p ≡ 8))))
power-cases zero = inl (omega arith, refl)
power-cases (suc zero) = inl (omega arith, refl)
power-cases (suc (suc zero)) = inr (inl (refl, refl))
power-cases (suc (suc (suc zero))) = inr (inr (inl (refl, refl)))
power-cases (suc (suc (suc (suc n)))) = inr (inr (inr (omega arith, ground arith)))

to_int64_small : (n : ℕ) → n < 2 ^ 63 → to_int64 n ≡ pos n
unfolding to_int64
to_int64_small n h = ground (arith, h)

-- what the delay is before its bounds
abbrev pub times : ℕ → ℕ
times n = if ltb n 2 then 1 else if n == 2 then 2 else if n == 3 then 4 else 8

times-power : (n : ℕ) → 2 ^ (clamp_attempt n - 1) ≡ times n
times-power n = ground (arith, power-cases n)

-- the bounds of the delay
abbrev pub bounded : Bool → ℕ → ℕ
bounded limited n =
    let raised = if limited && ltb n (2 * second) then 2 * second else n in
    if ltb (30 * second) raised then 30 * second else raised

times-le : (m n : ℕ) → m ≤ n → (times m ≤ times n) × (times n ≤ 8) × (1 ≤ times m)
times-le m n h = ground (arith, h)

bounded-le : (limited : Bool) (m n : ℕ) → m ≤ n → bounded limited m ≤ bounded limited n
bounded-le true m n h = ground (arith, h)
bounded-le false m n h = ground (arith, h)

compute_retry_delay-bounded :
    (base attempt : ℕ) (category : Category)
    → 0 < base
    → base < 2 ^ 60
    → compute_retry_delay base attempt category
      ≡ pos (bounded (is_rate_limit category) (base * times attempt))
unfolding compute_retry_delay clamp_delay
compute_retry_delay-bounded base attempt category p h =
    let small : base * times attempt < 2 ^ 63 = ground (arith, h) in
    let nonzero : (base == 0) ≡ false = ground (arith, p) in
    rw (times-power attempt, nonzero, to_int64_small (base * times attempt) small) refl

-- what is said of two delays, the second after no fewer attempts
pub record DelaysGrow (base : ℕ) (category : Category) (first later : ℤ) : Type 0 where
  pub short : ℕ
  pub long : ℕ
  pub first_is : first ≡ pos short
  pub later_is : later ≡ pos long
  pub grows : short ≤ long
  pub at_most : long ≤ 30 * second
  pub at_least : (if ltb (30 * second) base then 30 * second else base) ≤ short
  pub for_rate_limit : (if is_rate_limit category then 2 * second else 0) ≤ short

-- For a base of more than nothing and less than 2^60 nanoseconds, the delay before another
-- attempt never shrinks as the attempts go on, is at most 30 seconds, is at least the base or 30
-- seconds, and for a rate limit it is at least 2 seconds.
pub compute_retry_delay_grows :
    (base m n : ℕ) (category : Category)
    → 0 < base
    → base < 2 ^ 60
    → m ≤ n
    → DelaysGrow base category
        (compute_retry_delay base m category)
        (compute_retry_delay base n category)
compute_retry_delay_grows base m n category p h le = record {
  short = bounded (is_rate_limit category) (base * times m);
  long = bounded (is_rate_limit category) (base * times n);
  first_is = compute_retry_delay-bounded base m category p h;
  later_is = compute_retry_delay-bounded base n category p h;
  grows =
      bounded-le (is_rate_limit category) (base * times m) (base * times n) (ground (arith, le));
  at_most = ground arith;
  at_least = ground (arith, times-le m n le);
  for_rate_limit = ground arith;
}
