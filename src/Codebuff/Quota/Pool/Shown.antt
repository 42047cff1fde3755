-- ===== src/Codebuff/Quota/Pool/Shown.antt =====
-- What the pool shows of the blocks and limits in Redis (internal/codebuff/quotastore.go).
use inf_api.Common.{
  ◌≡◌, true, false, ◌&&◌, Option, none, some, List, [], ◌∷◌, ◌++◌, ◌⊎◌, if◌then◌else◌,
}
use inf_api.Common.Int.{ℤ}
use inf_api.Common.Map.{lookup}
use inf_api.Common.Text.{is_listed, Text, bytes, key_dec, equal_fold, has_prefix}
use inf_api.Codebuff.Quota.{
  ModelBlock, SessionQuotaInfo, QuotaStore, QuotaServices, quota_session_key,
}
use inf_api.Codebuff.Quota.Status.{
  ModelPoolStatus, PoolAccount, AccountPoolStatus, limit_of, session_info,
}
use inf_api.Codebuff.Quota.Pool.Reads.{names, Reads}
use inf_api.Codebuff.Quota.Pool.{shown_count}

-- the accounts whose type is codebuff
pub codebuff_accounts : List (Option PoolAccount) → List PoolAccount
codebuff_accounts [] = []
codebuff_accounts (none ∷ accounts) = codebuff_accounts accounts
codebuff_accounts (some acc ∷ accounts) =
    let rest = codebuff_accounts accounts in
    if equal_fold acc.account_type (bytes "codebuff") then acc ∷ rest else rest

module _ {W F : Type 0} (services : QuotaServices W F) where
  -- the beginning of the keys of an account's blocks
  abbrev pub block_prefix : QuotaStore → ℤ → Text
  block_prefix qs id = qs.prefix ++ (bytes ":quota:block:" ++ (services.format_int id ++ bytes ":"))

module _ {W F : Type 0} (services : QuotaServices W F) (stored : W → Text → Option Text)
    (zero_count : F) where
  -- A cell that shows a block in Redis: its key has the beginning, and it names the model.
  pub record ShowsBlock (p model : Text) (w : W) (cell : ModelPoolStatus F) : Type 0 where
    pub key : Text
    pub raw : Text
    pub block : ModelBlock F
    pub starts : has_prefix key p ≡ true
    pub found : stored w key ≡ some raw
    pub decodes : services.decode_block raw ≡ some block
    pub same_model : block.model ≡ model
    pub blocked : cell.blocked ≡ true
    pub recent : cell.recent_count ≡ block.recent_count
    pub since : cell.blocked_at ≡ some block.blocked_at

  -- A cell that is not blocked, where no such block is in Redis: it has the count of the limits.
  pub record ShowsLimit (p model : Text) (w : W) (session : Option (SessionQuotaInfo F))
      (cell : ModelPoolStatus F) : Type 0 where
    pub no_block : (key : Text) → (has_prefix key p && names services model (stored w key)) ≡ false
    pub free : cell.blocked ≡ false
    pub recent : cell.recent_count ≡ shown_count zero_count none (limit_of model session)
    pub since : cell.blocked_at ≡ none

  -- a row, with a cell for every model of the table
  pub record RowShows (all_models : List Text) (qs : QuotaStore) (w : W) (acc : PoolAccount)
      (row : AccountPoolStatus F) : Type 0 where
    pub same_id : row.account_id ≡ acc.id
    pub same_name : row.name ≡ acc.name
    pub cell : Text → ModelPoolStatus F
    pub cells :
        (model : Text)
        → lookup key_dec model row.models
          ≡ (if is_listed model all_models then some (cell model) else none)
    pub shows :
        (model : Text)
        → let p = block_prefix services qs acc.id in
          let session = session_info services (stored w (quota_session_key services qs acc.id)) in
          ShowsBlock p model w (cell model) ⊎ ShowsLimit p model w session (cell model)

  -- the rows are those of the accounts, in their order
  abbrev pub RowsShow :
      List Text → QuotaStore → W → List PoolAccount → List (AccountPoolStatus F) → Type 0
  RowsShow all_models qs w [] rows = rows ≡ []
  RowsShow all_models qs w (acc ∷ accounts) rows =
      (row : AccountPoolStatus F) × (rest : List (AccountPoolStatus F)) × (rows ≡ row ∷ rest)
      × RowShows all_models qs w acc row
      × RowsShow all_models qs w accounts rest
