-- ===== src/Codebuff/Quota/Resets.antt =====
-- How long the limits of a session and a block are kept (internal/codebuff/quotastore.go).
use inf_api.Common.{ℕ, ◌+◌, ◌-◌, ◌*◌, ◌≤◌, ◌<◌, ◌≡◌, arith, ltb, if◌then◌else◌}
use inf_api.Common.Time.{minute, hour}
use inf_api.Codebuff.Quota.Records.{next_reset_ttl, next_reset, reset_of_day}

-- 07:05 of a day
abbrev pub next_reset_at : ℕ → ℕ
next_reset_at day = day * (24 * hour) + (7 * hour + 5 * minute)

-- The limits of a session are kept until the first 07:05 that is later than now, however late on
-- its day that is, and for a minute where less than one is left. So they are kept for a minute at
-- least and for a day at most. The day is any whose 07:05 is later than now, by a day at most.
pub next_reset_ttl_lem :
    (now day : ℕ)
    → now < next_reset_at day
    → next_reset_at day ≤ now + 24 * hour
    → (next_reset_ttl now
        ≡ (if ltb (next_reset_at day - now) minute then minute else next_reset_at day - now))
      × (minute ≤ next_reset_ttl now)
      × (next_reset_ttl now ≤ 24 * hour)
unfolding next_reset_ttl next_reset reset_of_day
next_reset_ttl_lem now day h near = ground arith
