-- ===== src/Codebuff/Quota/Pool/Rows.antt =====
-- The rows of the pool, which are those of codebuff's accounts (internal/codebuff/quotastore.go).
use inf_api.Common.{◌≡◌, true, Option, none, some, List, [], ◌∷◌, by_test, All}
use inf_api.Common.Int.{ℤ}
use inf_api.Common.Text.{Text, bytes, equal_fold}
use inf_api.Codebuff.Quota.{SessionQuotaInfo, QuotaStore, QuotaServices, quota_session_key}
use inf_api.Codebuff.Quota.Status.{
  PoolAccount, AccountPoolStatus, session_info, pool_row, pool_rows,
}

module _ {W F : Type 0} (services : QuotaServices W F) where
  -- the session of an account that is read
  abbrev pub stored_session : QuotaStore → ℤ → W → Option (SessionQuotaInfo F)
  stored_session qs id w =
      session_info services (services.redis_get (quota_session_key services qs id) w).0

  module _ (zero_count : F) (all_models : List Text) (qs : QuotaStore) where
    pub pool_rows-All :
        (P : AccountPoolStatus F → Type 0)
        → ((acc : PoolAccount) (w : W)
            → equal_fold acc.account_type (bytes "codebuff") ≡ true
            → P (pool_row services zero_count all_models qs acc w).0)
        → (accounts : List (Option PoolAccount)) (w : W)
        → All P (pool_rows services zero_count all_models qs accounts w).0
    unfolding pool_rows
    pool_rows-All P h [] w = tt
    pool_rows-All P h (none ∷ accounts) w = pool_rows-All P h accounts w
    pool_rows-All P h (some acc ∷ accounts) w =
        by_test (λ (r : List (AccountPoolStatus F) × W). All P r.0)
          (equal_fold acc.account_type (bytes "codebuff")) _ _
          (λ codebuff. (h acc w codebuff, pool_rows-All P h accounts _))
          (λ other. pool_rows-All P h accounts w)
