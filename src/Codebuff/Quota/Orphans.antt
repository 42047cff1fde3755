-- ===== src/Codebuff/Quota/Orphans.antt =====
-- The removal of stale limits of sessions (internal/codebuff/quotastore.go).
use inf_api.Common.{ℕ, ◌-◌, Bool, false, Option, none, some, List, ◌++◌}
use inf_api.Common.Text.{Text, bytes}
use inf_api.Codebuff.Quota.{QuotaStore, QuotaServices}
use inf_api.Codebuff.Quota.Clearing.{is_stale_quota}

-- the beginning of the keys of sessions
abbrev pub session_prefix : QuotaStore → Text
session_prefix qs = qs.prefix ++ bytes ":quota:session:"

module _ {W F : Type 0} (services : QuotaServices W F) where
  -- a key's value is stale
  abbrev pub is_stale_value : ℕ → Option Text → Bool
  is_stale_value cutoff none = false
  is_stale_value cutoff (some raw) = is_stale_quota services cutoff raw

  -- the instant before which a value is stale, after the scan
  abbrev pub cutoff_after_scan : Text → ℕ → W → ℕ
  cutoff_after_scan prefix max_age w =
      services.now_utc (services.redis_scan (prefix ++ bytes "*") w).1 - max_age
