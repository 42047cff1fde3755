-- ===== src/Codebuff/Quota.antt =====
-- What codebuff keeps in Redis about the quotas of accounts (internal/codebuff/quotastore.go): the
-- blocks that follow a 429, the limits of a session, and the streaks. Redis, the clock, `%d` and the
-- JSON of the values are parameters, on a state of the world that the calls pass on. A scan gives
-- the keys that its iterator yields and whether it ended without an error. F is float64, of which
-- the store makes no arithmetic.
pub mod Records
pub mod Status
pub mod Clearing
pub mod Cleared
pub mod Deletes
pub mod Orphans
pub mod Pool
pub mod Resets
mod Tests
use inf_api.Common.{
  ℕ, zero, Bool, true, false, Option, none, some, List, [], ◌∷◌, ◌++◌, ltb, if◌then◌else◌, is_empty,
}
use inf_api.Common.Int.{ℤ, pos, negsuc}
use inf_api.Common.Text.{Text, bytes}

pub record ModelBlock (F : Type 0) : Type 0 where
  pub model : Text
  pub limit : ℤ
  pub recent_count : F
  pub reset_at : ℕ
  pub blocked_at : ℕ
  pub retry_after_ms : ℤ

pub record ModelRateLimit (F : Type 0) : Type 0 where
  pub limit : ℤ
  pub has_remaining : Bool
  pub remaining : Option ℤ
  pub recent_count : F
  pub reset_at : ℕ
  pub quota_window : Text

pub record StreakInfo : Type 0 where
  pub streak_days : ℤ
  pub synced_at : ℕ

pub record SessionQuotaInfo (F : Type 0) : Type 0 where
  pub rate_limits_by_model : List (Text × ModelRateLimit F)
  pub synced_at : ℕ

pub record QuotaStore : Type 0 where
  pub prefix : Text

-- A write and a deletion answer whether they succeeded; a value is none where it is missing, cannot
-- be read or is not decoded.
pub record QuotaServices (W F : Type 0) : Type 0 where
  pub redis_get : Text → W → Option Text × W
  pub redis_exists : Text → W → Option ℕ × W
  pub redis_set : Text → Text → ℤ → W → Bool × W
  pub redis_del : List Text → W → Bool × W
  pub redis_scan : Text → W → (List Text × Bool) × W
  pub now_utc : W → ℕ
  pub format_int : ℤ → Text
  pub encode_block : ModelBlock F → Option Text
  pub decode_block : Text → Option (ModelBlock F)
  pub encode_streak : StreakInfo → Option Text
  pub decode_streak : Text → Option StreakInfo
  pub encode_quotas : SessionQuotaInfo F → Option Text
  pub decode_quotas : Text → Option (SessionQuotaInfo F)

-- `NewQuotaStore`
abbrev pub new_quota_store : Text → QuotaStore
new_quota_store prefix = record { prefix = if is_empty prefix then bytes "codebuff" else prefix }

module _ {W F : Type 0} (services : QuotaServices W F) (qs : QuotaStore) where
  unfoldable pub block_key : ℤ → Text → Text
  block_key account_id model =
      qs.prefix
      ++ (bytes ":quota:block:" ++ (services.format_int account_id ++ (bytes ":" ++ model)))

  unfoldable pub streak_key : ℤ → Text
  streak_key account_id = qs.prefix ++ (bytes ":quota:streak:" ++ services.format_int account_id)

  unfoldable pub quota_session_key : ℤ → Text
  quota_session_key account_id =
      qs.prefix ++ (bytes ":quota:session:" ++ services.format_int account_id)
