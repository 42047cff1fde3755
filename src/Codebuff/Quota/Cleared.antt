-- ===== src/Codebuff/Quota/Cleared.antt =====
-- What the removals leave in Redis (internal/codebuff/quotastore.go).
use inf_api.Common.{
  ℕ, ◌≡◌, ◌≢◌, ◌∙◌, refl, sym, ap, Bool, true, false, not, ◌&&◌, Option, none, some, [], ◌∷◌, ◌++◌,
  arith, keep, if◌then◌else◌, append_assoc, Option-cases, inl, inr, by_test,
}
use inf_api.Common.Int.{ℤ}
use inf_api.Common.Text.{Text, bytes, has_prefix, is_listed, has_prefix-cancel}
use inf_api.Codebuff.Quota.{QuotaStore, QuotaServices, block_key, streak_key, quota_session_key}
use inf_api.Codebuff.Quota.Records.{is_blocked}
use inf_api.Codebuff.Quota.Clearing.{delete_all, clear_quota_reset_data}
use inf_api.Codebuff.Quota.Deletes.{IsRedis, is_plain_pattern, is_listed-keep, stored-delete_all}

-- the keys that the reset at 07:00 removes
abbrev pub is_reset_key : QuotaStore → Text → Bool
is_reset_key qs key =
    has_prefix key (qs.prefix ++ bytes ":quota:")
    && not (has_prefix key (qs.prefix ++ bytes ":quota:streak:"))

pub is_plain_pattern-append :
    (s t : Text)
    → is_plain_pattern s ≡ true
    → is_plain_pattern t ≡ true
    → is_plain_pattern (s ++ t) ≡ true
is_plain_pattern-append [] t h k = k
is_plain_pattern-append (c ∷ s) t h k = ground (arith, is_plain_pattern-append s t, h, k)

choice_comm :
    {A : Type 0} (b c : Bool) (x y : A) → (if b && c then x else y) ≡ (if c && b then x else y)
choice_comm true true x y = refl
choice_comm true false x y = refl
choice_comm false true x y = refl
choice_comm false false x y = refl

module _ {W F : Type 0} (services : QuotaServices W F) (stored : W → Text → Option Text)
    (answers : W → Text → Bool) (redis : IsRedis services stored answers) where
  -- A scan for a beginning that ends without an error finds exactly the stored keys that have it.
  scan_finds :
      (p key : Text) (w : W)
      → is_plain_pattern p ≡ true
      → (services.redis_scan (p ++ bytes "*") w).0.1 ≡ true
      → (b : Bool)
      → (if b && is_listed key (services.redis_scan (p ++ bytes "*") w).0.0
          then none
          else stored w key)
        ≡ (if b && has_prefix key p then none else stored w key)
  scan_finds p key w plain scanned b = elim (Option-cases (stored w key)) [
    | inl missing ↦ ground (arith, missing)
    | inr (v, found) ↦
        ground
          (arith, redis.scan_all p key v w plain, redis.scan_prefix p key w plain, found, scanned)
  ]

  -- Deleting what passes a test of what a scan for a beginning has found.
  stored-delete_found :
      (keeps : Text → Bool) (p pattern key : Text) (w : W)
      → pattern ≡ p ++ bytes "*"
      → is_plain_pattern p ≡ true
      → (services.redis_scan pattern w).0.1 ≡ true
      → (delete_all services
          (keep keeps (services.redis_scan pattern w).0.0)
          (services.redis_scan pattern w).1).0
        ≡ none
      → stored
          (delete_all services
            (keep keeps (services.redis_scan pattern w).0.0)
            (services.redis_scan pattern w).1).1
          key
        ≡ (if keeps key && has_prefix key p then none else stored w key)
  stored-delete_found keeps p pattern key w e plain ended done =
      let all = ap (λ t. (services.redis_scan t w).0.1) (sym e) ∙ ended in
      let scanned = services.redis_scan pattern w in
      stored-delete_all services stored answers redis (keep keeps scanned.0.0) key scanned.1 done
      ∙ rw (e, is_listed-keep, redis.scan_keeps) (scan_finds p key w plain all (keeps key))

  is_none : (o : Option ℕ) → (elim o [ none ↦ true | some i ↦ false ]) ≡ true → o ≡ none
  is_none none h = refl
  is_none (some i) h = cc

  -- The reset removes everything of the quotas but the streaks, and nothing else.
  stored-clear_quota_reset_data :
      (qs : QuotaStore) (key : Text) (w : W)
      → is_plain_pattern qs.prefix ≡ true
      → (clear_quota_reset_data services (some qs) w).0 ≡ true
      → stored (clear_quota_reset_data services (some qs) w).1 key
        ≡ (if is_reset_key qs key then none else stored w key)
  unfolding clear_quota_reset_data
  stored-clear_quota_reset_data qs key w plain =
      let keeps : Text → Bool = λ k. not (has_prefix k (qs.prefix ++ bytes ":quota:streak:")) in
      let p = qs.prefix ++ bytes ":quota:" in
      let pattern = qs.prefix ++ bytes ":quota:*" in
      let split : pattern ≡ p ++ bytes "*" =
        sym (append_assoc qs.prefix (bytes ":quota:") (bytes "*")) in
      let is_plain = is_plain_pattern-append qs.prefix (bytes ":quota:") plain refl in
      by_test
        (λ (o : Bool × W).
          o.0 ≡ true → stored o.1 key ≡ (if is_reset_key qs key then none else stored w key))
        (services.redis_scan pattern w).0.1 _ _
        (λ scanned done.
          stored-delete_found keeps p pattern key w split is_plain scanned (is_none _ done)
          ∙ choice_comm (keeps key) (has_prefix key p) none (stored w key))
        (λ failed done. cc)

-- Behind the prefix of the store, the rest of a key decides.
is_reset_key-append :
    (qs : QuotaStore) (s : Text)
    → is_reset_key qs (qs.prefix ++ s)
      ≡ (has_prefix s (bytes ":quota:") && not (has_prefix s (bytes ":quota:streak:")))
is_reset_key-append qs s = ground (
  arith,
  has_prefix-cancel qs.prefix s (bytes ":quota:"),
  has_prefix-cancel qs.prefix s (bytes ":quota:streak:"),
)

module _ {W F : Type 0} (services : QuotaServices W F) (qs : QuotaStore) (id : ℤ) where
  block_key-is_reset_key : (model : Text) → is_reset_key qs (block_key services qs id model) ≡ true
  unfolding block_key has_prefix
  block_key-is_reset_key model = is_reset_key-append qs _

  session_key-is_reset_key : is_reset_key qs (quota_session_key services qs id) ≡ true
  unfolding quota_session_key has_prefix
  session_key-is_reset_key = is_reset_key-append qs _

  streak_key-is_reset_key : is_reset_key qs (streak_key services qs id) ≡ false
  unfolding streak_key has_prefix
  streak_key-is_reset_key = is_reset_key-append qs _

  is_blocked_absent :
      (stored : W → Text → Option Text) (answers : W → Text → Bool) (model : Text) (w : W)
      → IsRedis services stored answers
      → stored w (block_key services qs id model) ≡ none
      → (is_blocked services (some qs) id model w).0 ≢ some true
  unfolding is_blocked
  is_blocked_absent stored answers model w redis h =
      elim (Option-cases (services.redis_exists (block_key services qs id model) w).0) [
        | inl error ↦ λ yes. ground (arith, error, yes)
        | inr (n, found) ↦
            let absent = redis.exists_reads (block_key services qs id model) n w found h in
            λ yes. ground (arith, found, absent, yes)
      ]

if_true : {A : Type 0} {b : Bool} {x : A} (y : A) → b ≡ true → (if b then x else y) ≡ x
if_true y h = rw h refl

if_false : {A : Type 0} {b : Bool} {y : A} (x : A) → b ≡ false → (if b then x else y) ≡ y
if_false x h = rw h refl

-- what a reset leaves of a world w in a world v
pub record IsCleared {W F : Type 0} (services : QuotaServices W F) (stored : W → Text → Option Text)
    (qs : QuotaStore) (w v : W) : Type 0 where
  pub keys : (key : Text) → stored v key ≡ (if is_reset_key qs key then none else stored w key)
  pub blocks : (id : ℤ) (model : Text) → (is_blocked services (some qs) id model v).0 ≢ some true
  pub sessions : (id : ℤ) → stored v (quota_session_key services qs id) ≡ none
  pub streaks :
      (id : ℤ) → stored v (streak_key services qs id) ≡ stored w (streak_key services qs id)

-- A reset that returns no error, of a store whose prefix has no sign of a glob pattern: everything
-- of the quotas but the streaks is removed from Redis and all else is kept. So no model of any
-- account is blocked, no account has a session's limits, and every account has the streak it had.
pub clear_quota_reset_data_lem :
    {W F : Type 0} (services : QuotaServices W F) (stored : W → Text → Option Text)
    (answers : W → Text → Bool) (qs : QuotaStore) (w : W)
    → IsRedis services stored answers
    → is_plain_pattern qs.prefix ≡ true
    → (clear_quota_reset_data services (some qs) w).0 ≡ true
    → IsCleared services stored qs w (clear_quota_reset_data services (some qs) w).1
clear_quota_reset_data_lem services stored answers qs w redis plain done =
    let v = (clear_quota_reset_data services (some qs) w).1 in
    let kept : (key : Text) → stored v key ≡ (if is_reset_key qs key then none else stored w key) =
      λ key. stored-clear_quota_reset_data services stored answers redis qs key w plain done in
    record {
      keys = kept;
      blocks = λ id model. is_blocked_absent services qs id stored answers model v redis (
          kept (block_key services qs id model)
          ∙ if_true _ (block_key-is_reset_key services qs id model));
      sessions = λ id.
          kept (quota_session_key services qs id)
          ∙ if_true _ (session_key-is_reset_key services qs id);
      streaks = λ id.
          kept (streak_key services qs id) ∙ if_false _ (streak_key-is_reset_key services qs id);
    }
