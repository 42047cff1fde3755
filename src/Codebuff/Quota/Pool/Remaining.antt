-- ===== src/Codebuff/Quota/Pool/Remaining.antt =====
-- The remaining counts, which the pool does not show (internal/codebuff/quotastore.go).
use inf_api.Common.{
  ℕ, ◌≡◌, refl, Bool, true, false, Option, none, some, List, [], ◌∷◌, arith, All, if◌then◌else◌,
}
use inf_api.Common.Map.{lookup}
use inf_api.Common.Int.{ℤ}
use inf_api.Common.Text.{is_listed, Text, bytes, key_dec}
use inf_api.Codebuff.Quota.{
  ModelBlock, ModelRateLimit, SessionQuotaInfo, QuotaStore, QuotaServices, block_key,
  quota_session_key,
}
use inf_api.Codebuff.Quota.Status.{
  ModelPoolStatus, PoolAccount, AccountPoolStatus, limit_of, pool_cell, blocks_by_model,
  limited_cell, blocked_cell, with_limit, with_block, read_blocks, session_info, pool_row,
  get_pool_status,
}
use inf_api.Codebuff.Quota.Pool.{lookup-pool_cells}
use inf_api.Codebuff.Quota.Pool.Rows.{pool_rows-All, stored_session}

-- the remaining count of a cell, if there is a cell, and whether it has one
abbrev pub shown_remaining : {F : Type 0} → Option (ModelPoolStatus F) → Option ℤ
shown_remaining none = none
shown_remaining (some cell) = cell.remaining

abbrev pub shows_remaining : {F : Type 0} → Option (ModelPoolStatus F) → Bool
shows_remaining none = false
shows_remaining (some cell) = cell.has_remaining

-- the cells of a row have no remaining count
abbrev pub ShowsNoRemaining : {F : Type 0} → AccountPoolStatus F → Type 0
ShowsNoRemaining row =
    (model : Text)
    → (shows_remaining (lookup key_dec model row.models) ≡ false)
      × (shown_remaining (lookup key_dec model row.models) ≡ none)

-- `json:"-"` of the field HasRemaining: a decoded value does not have it set
abbrev pub LosesHasRemaining : {W F : Type 0} → QuotaServices W F → Type 0
LosesHasRemaining services =
    (raw model : Text) (info : _) (rl : _)
    → services.decode_quotas raw ≡ some info
    → lookup key_dec model info.rate_limits_by_model ≡ some rl
    → rl.has_remaining ≡ false

module _ {W F : Type 0} (services : QuotaServices W F) (zero_count : F) where
  limited_cell-remaining :
      (now : ℕ) (block : Option (ModelBlock F)) (limit : Option (ModelRateLimit F × ℕ))
      → ((rl : ModelRateLimit F) (at : ℕ) → limit ≡ some (rl, at) → rl.has_remaining ≡ false)
      → ((blocked_cell block (limited_cell zero_count now limit)).has_remaining ≡ false)
        × ((blocked_cell block (limited_cell zero_count now limit)).remaining ≡ none)
  unfolding limited_cell blocked_cell with_limit with_block
  limited_cell-remaining now none none h = (refl, refl)
  limited_cell-remaining now (some b) none h = (refl, refl)
  limited_cell-remaining now none (some (rl, at)) h = rw (h rl at refl) (refl, refl)
  limited_cell-remaining now (some b) (some (rl, at)) h = rw (h rl at refl) (refl, refl)

  stored_session-loses :
      LosesHasRemaining services
      → (o : Option Text) (session : Option (SessionQuotaInfo F)) (model : Text)
        (rl : ModelRateLimit F) (at : ℕ)
      → session_info services o ≡ session
      → limit_of model session ≡ some (rl, at)
      → rl.has_remaining ≡ false
  stored_session-loses loses o none model rl at e h = cc
  stored_session-loses loses none (some info) model rl at e h = cc
  stored_session-loses loses (some []) (some info) model rl at e h = cc
  stored_session-loses loses (some (c ∷ raw)) (some info) model rl at e h =
      let found : lookup key_dec model info.rate_limits_by_model ≡ some rl = ground (arith, h) in
      loses (c ∷ raw) model info rl e found

  listed_cell :
      (b : Bool) (cell : ModelPoolStatus F) (o : Option (ModelPoolStatus F))
      → o ≡ (if b then some cell else none)
      → (cell.has_remaining ≡ false) × (cell.remaining ≡ none)
      → (shows_remaining o ≡ false) × (shown_remaining o ≡ none)
  listed_cell true cell o e h = rw e h
  listed_cell false cell o e h = rw e (refl, refl)

  pool_cell-remaining :
      LosesHasRemaining services
      → (now : ℕ) (o : Option Text) (blocks : List (Text × ModelBlock F)) (model : Text)
      → ((pool_cell zero_count now (session_info services o) blocks model).has_remaining ≡ false)
        × ((pool_cell zero_count now (session_info services o) blocks model).remaining ≡ none)
  unfolding pool_cell
  pool_cell-remaining loses now o blocks model =
      limited_cell-remaining now (lookup key_dec model blocks)
        (limit_of model (session_info services o))
        (λ rl at h. stored_session-loses loses o (session_info services o) model rl at refl h)

  module _ (all_models : List Text) (qs : QuotaStore) where
    pool_row-ShowsNoRemaining :
        LosesHasRemaining services
        → (acc : PoolAccount) (w : W)
        → ShowsNoRemaining (pool_row services zero_count all_models qs acc w).0
    unfolding pool_row lookup
    pool_row-ShowsNoRemaining loses acc w model =
        let asked = services.redis_get (quota_session_key services qs acc.id) w in
        let scanned = services.redis_scan (block_key services qs acc.id (bytes "*")) asked.1 in
        let blocks = read_blocks services scanned.0.0 scanned.1 in
        let now = services.now_utc blocks.1 in
        let cell_of =
          pool_cell zero_count now (stored_session services qs acc.id w)
            (blocks_by_model blocks.0 []) in
        listed_cell (is_listed model all_models) (cell_of model) _
          (lookup-pool_cells cell_of model all_models [])
          (pool_cell-remaining loses now asked.0 (blocks_by_model blocks.0 []) model)

-- The field HasRemaining is left out of the JSON in Redis, so no cell of the pool shows a remaining
-- count, whatever upstream has sent.
pub get_pool_status-remaining :
    {W F : Type 0} (services : QuotaServices W F) (zero_count : F) (all_models : List Text)
    (qs : QuotaStore) (accounts : List (Option PoolAccount)) (w : W)
    → LosesHasRemaining services
    → All ShowsNoRemaining
        (get_pool_status services zero_count all_models (some qs) accounts w).0.accounts
unfolding get_pool_status
get_pool_status-remaining services zero_count all_models qs accounts w loses =
    pool_rows-All services zero_count all_models qs ShowsNoRemaining
      (λ acc v codebuff. pool_row-ShowsNoRemaining services zero_count all_models qs loses acc v)
      accounts w
