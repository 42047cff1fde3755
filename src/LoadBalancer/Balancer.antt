-- ===== src/LoadBalancer/Balancer.antt =====
-- The choice of the next account (internal/loadbalancer/loadbalancer.go): the cached account list,
-- the filter loop and the selection. The store's answer is an argument, `none` for an error. Each
-- account is tested at the time that `clock` gives for it. `counts` and `draw` are those of
-- LoadBalancer.Select.
pub mod Next
mod Tests
use inf_api.Common.{
  ℕ, ◌+◌, Bool, true, false, not, ◌&&◌, ◌||◌, Option, none, some, List, [], ◌∷◌, ◌++◌, ◌==◌,
  if◌then◌else◌, is_empty,
}
use inf_api.Common.Text.{Text, bytes, text_eq, trim_space, equal_fold}
use inf_api.Common.Time.{before}
use inf_api.LoadBalancer.Status.{Account, LoadBalancer, is_account_available}
use inf_api.LoadBalancer.Select.{select_account, passes}

pub data Outcome : Type 0 where
  chosen : Account → Outcome
  store_failed none_available all_limited : Outcome

-- `getEnabledAccounts`; one call of the store serves all who wait for it
pub get_enabled_accounts :
    ℕ → ℕ → Option (List Account) → LoadBalancer → LoadBalancer × Option (List Account)
get_enabled_accounts now later fetched lb =
    if not (is_empty lb.cached_accounts) && before now lb.cache_expires
    then (lb, some lb.cached_accounts)
    else elim fetched [
      | none ↦ (lb, none)
      | some accounts ↦ (
        record lb { cached_accounts = accounts; cache_expires = later + lb.cache_ttl },
        some accounts,
      )
    ]

-- `excludeSet[id]`
unfoldable pub is_excluded : List ℕ → ℕ → Bool
is_excluded [] id = false
is_excluded (x ∷ rest) id = x == id || is_excluded rest id

-- whether an account is of a channel; every account is of the empty channel
pub in_channel : Text → Account → Bool
in_channel channel acc =
    text_eq channel [] || equal_fold acc.account_type channel || equal_fold acc.agent_mode channel

-- a request for an account: `excludeIDs`, `channel` and `filter`
pub record Query : Type 0 where
  pub exclude : List ℕ
  pub channel : Text
  pub filter : Option (Account → Bool)

-- the variables of the filter loop
pub record Filtered : Type 0 where
  pub lb : LoadBalancer
  pub kept : List Account
  pub matched : ℕ
  pub limited : ℕ

pub is_limited : Account → Bool
is_limited acc = text_eq (trim_space acc.status_code) (bytes "429")

pub filter_step : (Account → ℕ) → Query → Account → Filtered → Filtered
filter_step clock q acc st =
    let (available, lb, seen) = is_account_available (clock acc) acc st.lb in
    let counted = record st { matched = st.matched + 1 } in
    if is_excluded q.exclude acc.id
    then st
    else if not (in_channel q.channel acc)
    then st
    else if not (passes q.filter acc)
    then st
    else if available
    then record counted { lb = lb; kept = st.kept ++ seen ∷ [] }
    else if is_limited acc && equal_fold q.channel (bytes "codebuff")
    then record counted { kept = st.kept ++ acc ∷ [] }
    else if is_limited acc
    then record counted { limited = st.limited + 1 }
    else counted

pub filter_loop : (Account → ℕ) → Query → List Account → Filtered → Filtered
filter_loop clock q [] st = st
filter_loop clock q (acc ∷ rest) st = filter_loop clock q rest (filter_step clock q acc st)

-- the end of `GetNextAccountExcludingByChannelWithTrackerFilter`, once the loop is done
pub conclude : (ℕ → ℕ) → ℕ → Query → Filtered → Outcome
conclude counts draw q st = elim (select_account counts draw st.kept) [
  | some acc ↦ chosen acc
  | none ↦
      if not (text_eq q.channel []) && not (st.matched == 0) && st.limited == st.matched
      then all_limited
      else none_available
]

pub get_next_account :
    ℕ
    → ℕ
    → (Account → ℕ)
    → Option (List Account)
    → (ℕ → ℕ)
    → ℕ
    → Query
    → LoadBalancer
    → LoadBalancer × Outcome
get_next_account now later clock fetched counts draw q lb =
    let (lb', found) = get_enabled_accounts now later fetched lb in
    elim found [
      | none ↦ (lb', store_failed)
      | some accounts ↦
          let st =
            filter_loop clock q accounts
              (record { lb = lb'; kept = []; matched = 0; limited = 0 }) in
          (st.lb, conclude counts draw q st)
    ]
