-- ===== src/Codebuff/Quota/Records.antt =====
-- Writing the quotas, and the test of a block (internal/codebuff/quotastore.go).
use inf_api.Common.{
  ℕ, ◌+◌, ◌-◌, ◌*◌, ◌%◌, Bool, true, false, not, Option, none, some, List, ltb, ◌==◌, if◌then◌else◌,
  is_empty,
}
use inf_api.Common.Int.{ℤ, pos, to_int64}
use inf_api.Common.Text.{Text}
use inf_api.Common.Time.{minute, hour, sub_time, is_zero, before}
use inf_api.Codebuff.Quota.{
  ModelBlock, ModelRateLimit, StreakInfo, QuotaStore, QuotaServices, block_key, streak_key,
  quota_session_key,
}

-- `blockTTL`. The sum wraps around for a reset that is 292 years away.
unfoldable pub block_ttl : ℕ → ℕ → ℤ
unfolding to_int64
block_ttl reset_at now =
    if is_zero reset_at
    then pos (24 * hour)
    else let d = sub_time reset_at now in if d == 0 then pos minute else to_int64 (d + minute)

-- 07:05 of the day of an instant; the zero time is a midnight
unfoldable pub reset_of_day : ℕ → ℕ
reset_of_day now = now - now % (24 * hour) + (7 * hour + 5 * minute)

-- the next 07:05 after an instant
unfoldable pub next_reset : ℕ → ℕ
unfolding reset_of_day
next_reset now =
    let next = reset_of_day now in if not (before now next) then next + 24 * hour else next

-- `nextResetTTL`
unfoldable pub next_reset_ttl : ℕ → ℕ
unfolding next_reset
next_reset_ttl now = let d = sub_time (next_reset now) now in if ltb d minute then minute else d

module _ {W F : Type 0} (services : QuotaServices W F) where
  -- a write of an encoded value; an encoding that fails is an error
  abbrev pub write_encoded : Text → Option Text → ℤ → W → Bool × W
  write_encoded key none ttl w = (false, w)
  write_encoded key (some raw) ttl w = services.redis_set key raw ttl w

  -- `IsBlocked`; none is an error
  unfoldable pub is_blocked : Option QuotaStore → ℤ → Text → W → Option Bool × W
  unfolding block_key
  is_blocked none account_id model w = (some false, w)
  is_blocked (some qs) account_id model w =
      let answer = services.redis_exists (block_key services qs account_id model) w in
      (elim answer.0 [ none ↦ none | some n ↦ some (ltb 0 n) ], answer.1)

  -- `RecordBlock`
  unfoldable pub record_block : Option QuotaStore → ℤ → Option (ModelBlock F) → W → Bool × W
  unfolding block_key block_ttl
  record_block none account_id block w = (true, w)
  record_block (some qs) account_id none w = (true, w)
  record_block (some qs) account_id (some block) w =
      write_encoded (block_key services qs account_id block.model) (services.encode_block block)
        (block_ttl block.reset_at (services.now_utc w)) w

  -- `RecordStreak`
  unfoldable pub record_streak : Option QuotaStore → ℤ → Option StreakInfo → W → Bool × W
  unfolding streak_key
  record_streak none account_id streak w = (true, w)
  record_streak (some qs) account_id none w = (true, w)
  record_streak (some qs) account_id (some streak) w =
      write_encoded (streak_key services qs account_id) (services.encode_streak streak)
        (pos (7 * (24 * hour))) w

  -- `RecordSessionQuotas`
  unfoldable pub record_session_quotas :
      Option QuotaStore → ℤ → List (Text × ModelRateLimit F) → W → Bool × W
  unfolding quota_session_key next_reset_ttl
  record_session_quotas none account_id limits w = (true, w)
  record_session_quotas (some qs) account_id limits w =
      if is_empty limits
      then (true, w)
      else write_encoded (quota_session_key services qs account_id)
          (services.encode_quotas
            (record { rate_limits_by_model = limits; synced_at = services.now_utc w }))
          (pos (next_reset_ttl (services.now_utc w))) w
