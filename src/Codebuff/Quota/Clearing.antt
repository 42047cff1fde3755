-- ===== src/Codebuff/Quota/Clearing.antt =====
-- The removals of stored quotas (internal/codebuff/quotastore.go).
use inf_api.Common.{
  ℕ, zero, suc, ◌+◌, ◌-◌, Bool, true, false, not, Option, none, some, List, [], ◌∷◌, ◌++◌,
  if◌then◌else◌, length, take, drop, keep,
}
use inf_api.Common.Int.{pos}
use inf_api.Common.Text.{Text, bytes, has_prefix, has_suffix}
use inf_api.Common.Time.{before}
use inf_api.Codebuff.Quota.{QuotaStore, QuotaServices, quota_session_key}

-- The keys in batches of 100, with a unit of fuel for each key.
unfoldable pub batches : ℕ → List Text → List (List Text)
batches zero keys = []
batches (suc fuel) [] = []
batches (suc fuel) (key ∷ keys) = take 100 (key ∷ keys) ∷ batches fuel (drop 100 (key ∷ keys))

-- `strings.TrimSuffix`
unfoldable pub trim_suffix : Text → Text → Text
unfolding has_suffix
trim_suffix s suffix = if has_suffix s suffix then take (length s - length suffix) s else s

module _ {W F : Type 0} (services : QuotaServices W F) where
  -- The deletion of the batches. It ends at the first one that fails, with the number of the keys
  -- before it.
  unfoldable pub delete_batches : ℕ → List (List Text) → W → Option ℕ × W
  delete_batches i [] w = (none, w)
  delete_batches i (keys ∷ rest) w =
      let deleted = services.redis_del keys w in
      let others = delete_batches (i + 100) rest deleted.1 in
      if deleted.0 then others else (some i, deleted.1)

  -- the deletion of keys in batches, with what is returned without and with an error
  abbrev pub delete_all : List Text → W → Option ℕ × W
  delete_all keys w = delete_batches 0 (batches (length keys) keys) w

  -- `ClearQuotaResetData`
  unfoldable pub clear_quota_reset_data : Option QuotaStore → W → Bool × W
  unfolding delete_batches batches has_prefix
  clear_quota_reset_data none w = (true, w)
  clear_quota_reset_data (some qs) w =
      let scanned = services.redis_scan (qs.prefix ++ bytes ":quota:*") w in
      let streak_prefix = qs.prefix ++ bytes ":quota:streak:" in
      let keys = keep (λ key. not (has_prefix key streak_prefix)) scanned.0.0 in
      let deleted = delete_all keys scanned.1 in
      if scanned.0.1
      then (elim deleted.0 [ none ↦ true | some i ↦ false ], deleted.1)
      else (false, scanned.1)

  -- whether a value is garbage or was written before an instant
  unfoldable pub is_stale_quota : ℕ → Text → Bool
  is_stale_quota cutoff raw = elim (services.decode_quotas raw) [
    | none ↦ true
    | some info ↦ before info.synced_at cutoff
  ]

  -- those of the scanned keys whose values are stale; a key that cannot be read is passed over
  unfoldable pub stale_keys : ℕ → List Text → W → List Text × W
  unfolding is_stale_quota
  stale_keys cutoff [] w = ([], w)
  stale_keys cutoff (key ∷ keys) w =
      let answer = services.redis_get key w in
      let rest = stale_keys cutoff keys answer.1 in
      elim answer.0 [
        | none ↦ rest
        | some raw ↦ if is_stale_quota cutoff raw then (key ∷ rest.0, rest.1) else rest
      ]

  -- the removal of what is stale under a beginning
  unfoldable pub clear_stale : Text → ℕ → W → (ℕ × Bool) × W
  unfolding stale_keys delete_batches batches
  clear_stale prefix max_age w =
      let scanned = services.redis_scan (prefix ++ bytes "*") w in
      let stale = stale_keys (services.now_utc scanned.1 - max_age) scanned.0.0 scanned.1 in
      let deleted = delete_all stale.0 stale.1 in
      if scanned.0.1
      then (elim deleted.0 [ none ↦ (length stale.0, true) | some i ↦ (i, false) ], deleted.1)
      else ((0, false), stale.1)

  -- `ClearOrphanSessionQuotas`: the number that it returns, and whether there was no error. An
  -- instant before the zero time stands as the zero time.
  unfoldable pub clear_orphan_session_quotas : Option QuotaStore → ℕ → W → (ℕ × Bool) × W
  unfolding quota_session_key trim_suffix clear_stale
  clear_orphan_session_quotas none max_age w = ((0, true), w)
  clear_orphan_session_quotas (some qs) max_age w =
      clear_stale (trim_suffix (quota_session_key services qs (pos 0)) (bytes "0")) max_age w
