-- ===== src/Codebuff/Quota/Status.antt =====
-- What the quotas of an account and of the pool look like (internal/codebuff/quotastore.go). The
-- table of the models is an argument.
use inf_api.Common.{
  ℕ, Bool, true, false, not, ◌&&◌, Option, none, some, List, [], ◌∷◌, if◌then◌else◌, is_empty, ◌==◌,
}
use inf_api.Common.Int.{is_above_zero, ℤ, pos, negsuc}
use inf_api.Common.Map.{lookup, insert}
use inf_api.Common.Text.{Text, bytes, key_dec, equal_fold}
use inf_api.Common.Time.{is_zero, before}
use inf_api.Codebuff.Quota.{
  ModelBlock, ModelRateLimit, StreakInfo, SessionQuotaInfo, QuotaStore, QuotaServices, block_key,
  streak_key, quota_session_key,
}

pub record AccountQuotaStatus (F : Type 0) : Type 0 where
  pub account_id : ℤ
  pub name : Text
  pub streak : Option StreakInfo
  pub session : Option (SessionQuotaInfo F)
  pub blocks : List (ModelBlock F)

pub record ModelPoolStatus (F : Type 0) : Type 0 where
  pub blocked : Bool
  pub limit : ℤ
  pub recent_count : F
  pub has_remaining : Bool
  pub remaining : Option ℤ
  pub quota_window : Text
  pub reset_at : ℕ
  pub blocked_at : Option ℕ
  pub synced_at : ℕ

pub record AccountPoolStatus (F : Type 0) : Type 0 where
  pub account_id : ℤ
  pub name : Text
  pub models : List (Text × ModelPoolStatus F)

pub record PoolStatus (F : Type 0) : Type 0 where
  pub accounts : List (AccountPoolStatus F)
  pub all_models : List Text

-- an account of the store, as far as the pool reads it
pub record PoolAccount : Type 0 where
  pub id : ℤ
  pub name : Text
  pub account_type : Text

-- a count of 0
abbrev pub is_none_left : Option ℤ → Bool
is_none_left (some (pos n)) = n == 0
is_none_left (some (negsuc n)) = false
is_none_left none = false

module _ {F : Type 0} where
  -- the cell of a model without a limit and without a block, where `zero_count` is 0.0
  abbrev pub empty_cell : F → ModelPoolStatus F
  empty_cell zero_count = record {
    blocked = false;
    limit = pos 0;
    recent_count = zero_count;
    has_remaining = false;
    remaining = none;
    quota_window = [];
    reset_at = 0;
    blocked_at = none;
    synced_at = 0;
  }

  -- The limits of the session in a cell. A limit that has a remaining count has it behind its
  -- pointer, where another one would make the code panic.
  unfoldable pub with_limit : ℕ → ℕ → ModelRateLimit F → ModelPoolStatus F → ModelPoolStatus F
  with_limit now synced_at rl cell =
      let remaining = if rl.has_remaining then rl.remaining else cell.remaining in
      let has_remaining = if rl.has_remaining then true else cell.has_remaining in
      let is_recovered =
        has_remaining
        && is_none_left remaining
        && not (is_zero rl.reset_at)
        && before rl.reset_at now in
      record cell {
        limit = rl.limit;
        recent_count = rl.recent_count;
        has_remaining = has_remaining;
        remaining = if is_recovered then some rl.limit else remaining;
        quota_window = rl.quota_window;
        reset_at = rl.reset_at;
        synced_at = synced_at;
      }

  -- the block in a cell
  unfoldable pub with_block : ModelBlock F → ModelPoolStatus F → ModelPoolStatus F
  with_block block cell = record cell {
    blocked = true;
    recent_count = block.recent_count;
    limit = if is_above_zero block.limit then block.limit else cell.limit;
    reset_at = if is_zero cell.reset_at then block.reset_at else cell.reset_at;
    blocked_at = some block.blocked_at;
  }

  abbrev pub limit_of : Text → Option (SessionQuotaInfo F) → Option (ModelRateLimit F × ℕ)
  limit_of model none = none
  limit_of model (some info) = elim (lookup key_dec model info.rate_limits_by_model) [
    | none ↦ none
    | some rl ↦ some (rl, info.synced_at)
  ]

  unfoldable pub limited_cell : F → ℕ → Option (ModelRateLimit F × ℕ) → ModelPoolStatus F
  unfolding with_limit
  limited_cell zero_count now none = empty_cell zero_count
  limited_cell zero_count now (some found) = with_limit now found.1 found.0 (empty_cell zero_count)

  unfoldable pub blocked_cell : Option (ModelBlock F) → ModelPoolStatus F → ModelPoolStatus F
  unfolding with_block
  blocked_cell none cell = cell
  blocked_cell (some block) cell = with_block block cell

  -- the cell of a model
  unfoldable pub pool_cell :
      F → ℕ → Option (SessionQuotaInfo F) → List (Text × ModelBlock F) → Text → ModelPoolStatus F
  unfolding limited_cell blocked_cell lookup
  pool_cell zero_count now session blocks model =
      blocked_cell (lookup key_dec model blocks)
        (limited_cell zero_count now (limit_of model session))

  -- `accountStatus.Models`
  unfoldable pub pool_cells :
      (Text → ModelPoolStatus F)
      → List Text
      → List (Text × ModelPoolStatus F)
      → List (Text × ModelPoolStatus F)
  unfolding insert
  pool_cells cell [] cells = cells
  pool_cells cell (model ∷ models) cells =
      pool_cells cell models (insert key_dec model (cell model) cells)

  -- the blocks under the models that they name
  unfoldable pub blocks_by_model :
      List (ModelBlock F) → List (Text × ModelBlock F) → List (Text × ModelBlock F)
  unfolding insert
  blocks_by_model [] found = found
  blocks_by_model (block ∷ blocks) found =
      blocks_by_model blocks (insert key_dec block.model block found)

module _ {W F : Type 0} (services : QuotaServices W F) where
  -- the blocks under scanned keys; what cannot be read or decoded is passed over
  unfoldable pub read_blocks : List Text → W → List (ModelBlock F) × W
  read_blocks [] w = ([], w)
  read_blocks (key ∷ keys) w =
      let answer = services.redis_get key w in
      let rest = read_blocks keys answer.1 in
      elim answer.0 [
        | none ↦ rest
        | some raw ↦ elim (services.decode_block raw) [
          | none ↦ rest
          | some block ↦ (block ∷ rest.0, rest.1)
        ]
      ]

  abbrev pub decoded : {A : Type 0} → (Text → Option A) → Option Text → Option A
  decoded decode none = none
  decoded decode (some raw) = decode raw

  -- `GetAccountStatus`; none is the error of the iterator
  unfoldable pub get_account_status :
      Option QuotaStore → ℤ → Text → W → Option (AccountQuotaStatus F) × W
  unfolding streak_key quota_session_key block_key read_blocks
  get_account_status none account_id name w = (
    some (record {
      account_id = account_id;
      name = name;
      streak = none;
      session = none;
      blocks = [];
    }),
    w,
  )
  get_account_status (some qs) account_id name w =
      let streak_data = services.redis_get (streak_key services qs account_id) w in
      let sess_data = services.redis_get (quota_session_key services qs account_id) streak_data.1 in
      let scanned =
        services.redis_scan (block_key services qs account_id (bytes "*")) sess_data.1 in
      let blocks = read_blocks scanned.0.0 scanned.1 in
      if scanned.0.1
      then (
        some (record {
          account_id = account_id;
          name = name;
          streak = decoded services.decode_streak streak_data.0;
          session = decoded services.decode_quotas sess_data.0;
          blocks = blocks.0;
        }),
        blocks.1,
      )
      else (none, blocks.1)

  -- `sessionInfo`; an empty value counts as a missing one
  abbrev pub session_info : Option Text → Option (SessionQuotaInfo F)
  session_info none = none
  session_info (some raw) = if is_empty raw then none else services.decode_quotas raw

  -- The row of one account. The clock is read once, where the code reads it for each cell.
  unfoldable pub pool_row : F → List Text → QuotaStore → PoolAccount → W → AccountPoolStatus F × W
  unfolding quota_session_key block_key read_blocks pool_cells pool_cell blocks_by_model
  pool_row zero_count all_models qs acc w =
      let session_data = services.redis_get (quota_session_key services qs acc.id) w in
      let scanned = services.redis_scan (block_key services qs acc.id (bytes "*")) session_data.1 in
      let blocks = read_blocks scanned.0.0 scanned.1 in
      let cell =
        pool_cell zero_count (services.now_utc blocks.1) (session_info session_data.0)
          (blocks_by_model blocks.0 []) in
      (
        record { account_id = acc.id; name = acc.name; models = pool_cells cell all_models [] },
        blocks.1,
      )

  unfoldable pub pool_rows :
      F → List Text → QuotaStore → List (Option PoolAccount) → W → List (AccountPoolStatus F) × W
  unfolding pool_row equal_fold
  pool_rows zero_count all_models qs [] w = ([], w)
  pool_rows zero_count all_models qs (none ∷ accounts) w =
      pool_rows zero_count all_models qs accounts w
  pool_rows zero_count all_models qs (some acc ∷ accounts) w =
      let row = pool_row zero_count all_models qs acc w in
      let skipped = pool_rows zero_count all_models qs accounts w in
      let rest = pool_rows zero_count all_models qs accounts row.1 in
      if equal_fold acc.account_type (bytes "codebuff") then (row.0 ∷ rest.0, rest.1) else skipped

  -- `GetPoolStatus`, which returns no error
  unfoldable pub get_pool_status :
      F → List Text → Option QuotaStore → List (Option PoolAccount) → W → PoolStatus F × W
  unfolding pool_rows
  get_pool_status zero_count all_models none accounts w =
      (record { accounts = []; all_models = all_models }, w)
  get_pool_status zero_count all_models (some qs) accounts w =
      let rows = pool_rows zero_count all_models qs accounts w in
      (record { accounts = rows.0; all_models = all_models }, rows.1)
