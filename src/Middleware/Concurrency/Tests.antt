-- ===== src/Middleware/Concurrency/Tests.antt =====
-- Runs of the concurrency limiter (internal/middleware/concurrency.go).
use inf_api.Common.{◌*◌, ◌≡◌, refl, true}
use inf_api.Common.Int.{pos}
use inf_api.Common.Time.{second}
use inf_api.Middleware.Concurrency.{
  ConcurrencyLimiter, new_concurrency_limiter, wait_timeout, adaptive_wait,
}

-- no latencies are known, and the timeout is 3 seconds
abbrev limiter : ConcurrencyLimiter
limiter = new_concurrency_limiter (pos 4) (pos 3000000000) true

waits_timeout : wait_timeout limiter ≡ 3 * second
unfolding wait_timeout adaptive_wait new_concurrency_limiter
waits_timeout = refl
