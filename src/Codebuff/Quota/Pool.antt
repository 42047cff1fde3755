-- ===== src/Codebuff/Quota/Pool.antt =====
-- The cells of the pool (internal/codebuff/quotastore.go).
pub mod Rows
pub mod Reads
pub mod Shown
pub mod Remaining
use inf_api.Common.{
  ℕ, ◌≡◌, ◌≢◌, ◌↔◌, refl, sym, Bool, true, false, not, ◌&&◌, Option, none, some, List, [], ◌∷◌,
  arith, if◌then◌else◌, Option-cases, All,
}
use inf_api.Common.Int.{is_above_zero, ℤ}
use inf_api.Common.Map.{lookup, insert, lookup-insert, lookup-insert_self, lookup-insert_ne}
use inf_api.Common.Text.{is_listed, Text, key_dec, text_eq, text_eq_iff}
use inf_api.Codebuff.Quota.{ModelBlock, ModelRateLimit, QuotaStore, QuotaServices}
use inf_api.Codebuff.Quota.Status.{
  ModelPoolStatus, PoolAccount, AccountPoolStatus, PoolStatus, empty_cell, pool_cells, is_none_left,
  read_blocks, pool_row, get_pool_status,
}

abbrev pub is_some : {A : Type 0} → Option A → Bool
is_some none = false
is_some (some a) = true

module _ {F : Type 0} where
  -- the last of the blocks that name a model
  unfoldable pub last_block : Text → List (ModelBlock F) → Option (ModelBlock F)
  last_block model [] = none
  last_block model (block ∷ blocks) = elim (last_block model blocks) [
    | none ↦ if text_eq block.model model then some block else none
    | some later ↦ some later
  ]

  abbrev or_found : Option (ModelBlock F) → Option (ModelBlock F) → Option (ModelBlock F)
  or_found none other = other
  or_found (some block) other = some block

  lookup-pool_cells :
      (cell : Text → ModelPoolStatus F) (model : Text) (models : List Text)
      (cells : List (Text × ModelPoolStatus F))
      → lookup key_dec model (pool_cells cell models cells)
        ≡ (if is_listed model models then some (cell model) else lookup key_dec model cells)
  unfolding pool_cells
  lookup-pool_cells cell model [] cells = refl
  lookup-pool_cells cell model (other ∷ models) cells = ground (
    arith,
    lookup-pool_cells cell model models (insert key_dec other (cell other) cells),
    lookup-insert key_dec model other (cell other) cells,
    text_eq_iff other model,
  )

  -- the count that a cell shows: that of the block, or else that of the limit
  abbrev pub shown_count : F → Option (ModelBlock F) → Option (ModelRateLimit F × ℕ) → F
  shown_count zero_count (some block) limit = block.recent_count
  shown_count zero_count none none = zero_count
  shown_count zero_count none (some found) = found.0.recent_count

  abbrev pub blocked_since : Option (ModelBlock F) → Option ℕ
  blocked_since none = none
  blocked_since (some block) = some block.blocked_at

  -- what a cell shows of a block and a limit
  pub record Shows (zero_count : F) (block : Option (ModelBlock F))
      (limit : Option (ModelRateLimit F × ℕ)) (cell : ModelPoolStatus F) : Type 0 where
    pub blocked_iff : cell.blocked ≡ is_some block
    pub recent : cell.recent_count ≡ shown_count zero_count block limit
    pub since : cell.blocked_at ≡ blocked_since block
