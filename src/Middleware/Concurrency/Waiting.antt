-- ===== src/Middleware/Concurrency/Waiting.antt =====
-- The statistics of the concurrency limiter (internal/middleware/concurrency.go) and what follows
-- from them for a waiting request.
use inf_api.Common.{
  ℕ, zero, suc, ◌+◌, ◌*◌, ◌%◌, ◌/◌, ◌≤◌, ◌<◌, ◌≡◌, ◌⊎◌, inl, inr, refl, ap, ◌∙◌, Bool, List, [],
  ◌∷◌, length, arith, ltb, Bool-cases,
}
use inf_api.Common.Int.{ℤ}
use inf_api.Common.Time.{second, millisecond, sub_time}
use inf_api.Middleware.Concurrency.{
  ConcurrencyLimiter, new_concurrency_limiter, adaptive_wait, wait_timeout, zeros, set_at,
  recalc_p95, update_stats,
}

adaptive_wait-bounds : (p : ℕ) → (5 * second ≤ adaptive_wait p) × (adaptive_wait p ≤ 60 * second)
unfolding adaptive_wait
adaptive_wait-bounds p = ground arith

-- The time that a waiting request is given is at most the timeout and 60 seconds, and, where the
-- timeout allows it, not less than 5 seconds.
pub wait_timeout-bounds :
    (cl : ConcurrencyLimiter)
    → (wait_timeout cl ≤ cl.timeout)
      × (wait_timeout cl ≤ 60 * second)
      × ((wait_timeout cl ≡ cl.timeout) ⊎ (5 * second ≤ wait_timeout cl))
unfolding wait_timeout
wait_timeout-bounds cl = ground (arith, adaptive_wait-bounds cl.cached_p95)

-- the ring of the last latencies: the index stays within it
abbrev IsRing : ConcurrencyLimiter → Type 0
IsRing cl = (length cl.latency_window ≡ 100) × (cl.window_size ≡ 100) × (cl.window_idx < 100)

length-set_at : (i v : ℕ) (xs : List ℕ) → length (set_at i v xs) ≡ length xs
unfolding set_at
length-set_at i v [] = refl
length-set_at zero v (x ∷ xs) = refl
length-set_at (suc i) v (x ∷ xs) = ap suc (length-set_at i v xs)

recalc_p95-IsRing : (now : ℕ) (cl : ConcurrencyLimiter) → IsRing cl → IsRing (recalc_p95 now cl)
unfolding recalc_p95
recalc_p95-IsRing now cl ring = ground (arith, ring)

update_stats-IsRing :
    (now later d : ℕ) (cl : ConcurrencyLimiter) → IsRing cl → IsRing (update_stats now later d cl)
unfolding update_stats
update_stats-IsRing now later d cl ring =
    let stored : ConcurrencyLimiter = record cl {
      latency_window = set_at cl.window_idx (d / millisecond) cl.latency_window;
      window_idx = (cl.window_idx + 1) % cl.window_size;
    } in
    let kept : IsRing stored = (
      length-set_at cl.window_idx (d / millisecond) cl.latency_window ∙ ring.0,
      ring.1,
      rw (ring.1) (omega arith),
    ) in
    elim (Bool-cases (ltb second (sub_time now cl.last_p95_update))) [
      | inl e ↦ rw e (recalc_p95-IsRing later stored kept)
      | inr e ↦ rw e kept
    ]

-- the requests that ended: two readings of the clock and the duration
pub ended : List (ℕ × ℕ × ℕ) → ConcurrencyLimiter → ConcurrencyLimiter
ended [] cl = cl
ended ((now, later, d) ∷ rest) cl = ended rest (update_stats now later d cl)

ended-IsRing : (rs : List (ℕ × ℕ × ℕ)) (cl : ConcurrencyLimiter) → IsRing cl → IsRing (ended rs cl)
unfolding ended
ended-IsRing [] cl ring = ring
ended-IsRing ((now, later, d) ∷ rest) cl ring =
    ended-IsRing rest (update_stats now later d cl) (update_stats-IsRing now later d cl ring)

new-IsRing : (n t : ℤ) (a : Bool) → IsRing (new_concurrency_limiter n t a)
unfolding new_concurrency_limiter zeros
new-IsRing n t a = (refl, refl, omega arith)

-- However many requests have ended since a limiter was made, its window has 100 places and the
-- next index lies within it.
ended_ring :
    (n t : ℤ) (a : Bool) (rs : List (ℕ × ℕ × ℕ))
    → let cl = ended rs (new_concurrency_limiter n t a) in
      (length cl.latency_window ≡ 100) × (cl.window_idx < 100)
ended_ring n t a rs =
    let ring = ended-IsRing rs (new_concurrency_limiter n t a) (new-IsRing n t a) in
    (ring.0, ring.2)
