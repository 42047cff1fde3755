-- ===== src/Codebuff/Waiting.antt =====
-- A call of the session cache returns (internal/codebuff/session.go), and what it returns as a
-- cached session is of the model that was asked for.
use inf_api.Common.{
  ℕ, zero, suc, ◌+◌, ◌≤◌, ◌<◌, ◌≡◌, refl, true, false, Option, some, arith, ◌-◌, ◌*◌, by_test,
  by_option,
}
use inf_api.Common.Int.{ℤ, pos, negsuc}
use inf_api.Common.Text.{Text, text_eq_iff}
use inf_api.Common.Time.{before, millisecond}
use inf_api.Codebuff.{
  SessionCacheConfig, Session, SessionCache, Ensured, failed, reused, created, Services, or_default,
  new_session_cache_with, is_fresh_session, load_session, session_key, lock_key, poll,
  create_locked, acquire_and_create, ensure_session, is_usable, CreateResult, refused, accepted,
  create_with_retry, finish_creation, lock_timeout, context_done, redis_lock_error,
}

-- What a waiter relies on: its timer waits for as long as it is asked to, and the clock does not
-- go back during a read from Redis.
pub record IsClock {W : Type 0} (services : Services W) : Type 0 where
  pub wait_forward :
      (d : ℕ) (w : W)
      → (services.wait d w).0 ≡ false
      → services.now w + d ≤ services.now (services.wait d w).1
  pub get_forward : (key : Text) (w : W) → services.now w ≤ services.now (services.get key w).1

-- a reused session is fresh and of the model
pub record IsReusable (fresh_ms : ℕ) (model : Text) (s : Session) : Type 0 where
  pub fresh : is_fresh_session fresh_ms s ≡ true
  pub same_model : s.model ≡ model

abbrev pub IsSound : ℕ → Text → Ensured → Type 0
IsSound fresh_ms model (reused s) = IsReusable fresh_ms model s
IsSound fresh_ms model (failed e) = Unit
IsSound fresh_ms model (created s raw) = Unit

module _ {W : Type 0} (services : Services W) (sc : SessionCache) where
  -- the call returns, and what it returns is sound
  pub record Returns (model : Text) (o : Option (Ensured × W)) : Type 0 where
    pub result : Ensured × W
    pub returned : o ≡ some result
    pub sound : IsSound sc.fresh_ms model result.0

  is_usable-IsReusable :
      (model : Text) (s : Session)
      → is_usable services sc model s ≡ true
      → IsReusable sc.fresh_ms model s
  is_usable-IsReusable model s h = record {
    fresh = ground (arith, h);
    same_model = (text_eq_iff s.model model).0 (ground (arith, h));
  }

  module _ (clock : IsClock services) (delay : 1 ≤ sc.poll_delay) where
    -- a waiter's loop ends, since every turn takes one delay at least
    poll-Returns :
        (n : ℕ) (key model : Text) (deadline : ℕ) (w : W)
        → deadline - services.now w < n
        → Returns model (poll services sc n key model deadline w)
    unfolding poll load_session
    poll-Returns zero key model deadline w h = let never : ⊥ = omega (arith, h) in elim never [ ]
    poll-Returns (suc n) key model deadline w h =
        let waited = services.wait sc.poll_delay w in
        let loaded = load_session services sc key waited.1 in
        by_test (Returns model) (before (services.now w) deadline) _ _
          (λ early.
            by_test (Returns model) waited.0 _ _
              (λ done. record {
                result = (failed context_done, waited.1);
                returned = refl;
                sound = tt;
              })
              (λ go_on.
                let passed = clock.wait_forward sc.poll_delay w go_on in
                let kept = clock.get_forward key waited.1 in
                let rest =
                  poll-Returns n key model deadline loaded.1
                    (ground (arith, early, passed, kept, h, delay)) in
                by_option (Returns model) loaded.0 _ _ (λ missing. rest)
                  (λ s found.
                    by_test (Returns model) (is_usable services sc model s) _ _
                      (λ fits. record {
                        result = (reused s, loaded.1);
                        returned = refl;
                        sound = is_usable-IsReusable model s fits;
                      })
                      (λ other. rest))))
          (λ late. record { result = (failed lock_timeout, w); returned = refl; sound = tt })

    create_locked-IsSound :
        (key model : Text) (w : W)
        → IsSound sc.fresh_ms model (create_locked services sc key model w).0
    unfolding create_locked
    create_locked-IsSound key model w = go (create_with_retry services sc key model w)
      where
        go :
            (made : CreateResult × W)
            → IsSound sc.fresh_ms model (finish_creation services sc key made).0
        go (refused e, v) = tt
        go (accepted s raw, v) = tt

    acquire_and_create-Returns :
        (fuel : ℕ) (token model : Text) (w : W)
        → sc.poll_timeout < fuel
        → Returns model (acquire_and_create services sc fuel token model w)
    unfolding acquire_and_create
    acquire_and_create-Returns fuel token model w h =
        let asked = services.set_nx (lock_key services sc token model) sc.lock_ttl w in
        let key = session_key services sc token model in
        let deadline = services.now asked.1 + sc.poll_timeout in
        let made = create_locked services sc key model asked.1 in
        by_option (Returns model) asked.0 _ _
          (λ error. record {
            result = (failed redis_lock_error, asked.1);
            returned = refl;
            sound = tt;
          })
          (λ locked answer.
            by_test (Returns model) locked _ _
              (λ held. record {
                result = (made.0, services.del (lock_key services sc token model) made.1);
                returned = refl;
                sound = create_locked-IsSound key model asked.1;
              })
              (λ busy. poll-Returns fuel key model deadline asked.1 (omega (arith, h))))

    pub ensure_session-Returns :
        (fuel : ℕ) (token model : Text) (w : W)
        → sc.poll_timeout < fuel
        → Returns model (ensure_session services sc fuel token model w)
    unfolding ensure_session
    ensure_session-Returns fuel token model w h =
        let key = session_key services sc token model in
        let loaded = load_session services sc key w in
        let create : (v : W) → Returns model (acquire_and_create services sc fuel token model v) =
          λ v. acquire_and_create-Returns fuel token model v h in
        by_option (Returns model) loaded.0 _ _ (λ missing. create loaded.1)
          (λ s found.
            by_test (Returns model) (is_usable services sc model s) _ _
              (λ fits. record {
                result = (reused s, loaded.1);
                returned = refl;
                sound = is_usable-IsReusable model s fits;
              })
              (λ other.
                by_test (Returns model) (is_fresh_session sc.fresh_ms s) _ _
                  (λ fresh. create (services.del key loaded.1)) (λ stale. create loaded.1)))

or_default-pos : (d : ℕ) (z : ℤ) → 1 ≤ d → 1 ≤ or_default d z
or_default-pos d (pos n) h = ground (arith, h)
or_default-pos d (negsuc n) h = h

-- `EnsureSession` of a cache with any configuration returns, whoever holds the lock, where timers
-- wait for as long as they are asked to: a waiter's loop needs at most one turn for each
-- nanosecond of the poll timeout and one more. A session that it returns as reused is of the
-- model that was asked for, and is fresh by the configured threshold.
pub ensure_session_total :
    {W : Type 0} (services : Services W) (prefix : Text) (cfg : SessionCacheConfig) (fuel : ℕ)
    (token model : Text) (w : W)
    → IsClock services
    → (new_session_cache_with prefix cfg).poll_timeout < fuel
    → Returns services
        (new_session_cache_with prefix cfg)
        model
        (ensure_session services (new_session_cache_with prefix cfg) fuel token model w)
unfolding new_session_cache_with
ensure_session_total services prefix cfg fuel token model w clock h =
    ensure_session-Returns services (new_session_cache_with prefix cfg) clock
      (or_default-pos (250 * millisecond) cfg.poll_delay (omega arith)) fuel token model w h
