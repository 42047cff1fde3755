-- ===== src/LoadBalancer/Status.antt =====
-- The status of an account and its cooldown (internal/loadbalancer/loadbalancer.go). Of the account
-- (internal/store/store.go) the record has the fields that the balancer reads or writes. Writing an
-- account back to the store is an effect: `written` lists the accounts handed to `UpdateAccount`,
-- latest first; its error is only logged.
pub mod Cooldown
mod Tests
use inf_api.Common.{
  ℕ, ◌*◌, Bool, true, false, not, ◌&&◌, ◌||◌, Option, none, some, List, [], ◌∷◌, leb, ◌==◌,
  if◌then◌else◌,
}
use inf_api.Common.Int.{ℤ}
use inf_api.Common.Text.{Text, bytes, text_eq, trim_space}
use inf_api.Common.Time.{minute, hour, sub_time, is_zero, before}

pub record Account : Type 0 where
  pub id : ℕ
  pub account_type : Text
  pub agent_mode : Text
  pub subscription : Text
  pub weight : ℤ
  pub status_code : Text
  pub last_attempt : ℕ
  pub quota_reset_at : ℕ

pub record LoadBalancer : Type 0 where
  pub has_store : Bool
  pub cached_accounts : List Account
  pub cache_expires : ℕ
  pub cache_ttl : ℕ
  pub written : List Account

abbrev pub default_cache_ttl : ℕ
default_cache_ttl = 5000000000

abbrev pub retry_401_default : ℕ
retry_401_default = 5 * minute

abbrev pub retry_402_default : ℕ
retry_402_default = 24 * hour

abbrev pub retry_429_default : ℕ
retry_429_default = 1 * minute

abbrev pub retry_403_default : ℕ
retry_403_default = 24 * hour

-- `NewWithCacheTTL`
pub new_with_cache_ttl : Bool → ℕ → LoadBalancer
new_with_cache_ttl has_store ttl = record {
  has_store = has_store;
  cached_accounts = [];
  cache_expires = 0;
  cache_ttl = if ttl == 0 then default_cache_ttl else ttl;
  written = [];
}

-- what `clearAccountStatus` writes to an account
abbrev pub cleared : Account → Account
cleared acc = record acc { status_code = []; last_attempt = 0; quota_reset_at = 0 }

-- the loop over the cached accounts, which stops at the first with the ID
unfoldable pub update_first : ℕ → (Account → Account) → List Account → List Account
update_first id f [] = []
update_first id f (a ∷ rest) = if a.id == id then f a ∷ rest else a ∷ update_first id f rest

-- `persistAccountStatus`
pub persist_status : Account → LoadBalancer → LoadBalancer
persist_status acc lb = if lb.has_store then record lb { written = acc ∷ lb.written } else lb

pub clear_account_status : Account → LoadBalancer → LoadBalancer × Account
unfolding persist_status
clear_account_status acc lb = (
  persist_status (cleared acc)
      (record lb { cached_accounts = update_first acc.id cleared lb.cached_accounts }),
  cleared acc,
)

-- the guard of the `switch` of `isAccountAvailable`: whether the cooldown of a status is over
pub has_cooled : Text → ℕ → Account → Bool
has_cooled status now acc =
    let attempted = not (is_zero acc.last_attempt) in
    let waited = sub_time now acc.last_attempt in
    let reset = not (is_zero acc.quota_reset_at) in
    let reset_passed = not (before now acc.quota_reset_at) in
    if text_eq status (bytes "401")
    then attempted && leb retry_401_default waited
    else if text_eq status (bytes "429")
    then attempted && (if reset then reset_passed else leb retry_429_default waited)
    else if text_eq status (bytes "402")
    then (if reset then reset_passed else attempted && leb retry_402_default waited)
    else if text_eq status (bytes "403") || text_eq status (bytes "404")
    then attempted && leb retry_403_default waited
    else attempted && leb retry_401_default waited

-- `isAccountAvailable`: the answer, the balancer, and the account as the caller sees it afterwards
pub is_account_available : ℕ → Account → LoadBalancer → Bool × LoadBalancer × Account
unfolding has_cooled clear_account_status
is_account_available now acc lb =
    let status = trim_space acc.status_code in
    let (after, acc') = clear_account_status acc lb in
    if text_eq status []
    then (true, lb, acc)
    else if has_cooled status now acc
    then (true, after, acc')
    else (false, lb, acc)

-- what `MarkAccountStatus` writes to an account
pub marked : Text → ℕ → ℕ → Account → Account
marked status reset_at now acc = record acc {
  status_code = status;
  last_attempt = now;
  quota_reset_at = if text_eq status (bytes "429") && not (is_zero reset_at) then reset_at else 0;
}

-- `MarkAccountStatus`, with the zero time for a reset time that is not given
pub mark_account_status : Text → ℕ → ℕ → Account → LoadBalancer → LoadBalancer × Account
unfolding marked persist_status
mark_account_status status reset_at now acc lb =
    let acc' = marked status reset_at now acc in
    if not lb.has_store || text_eq status [] then (lb, acc) else (
      persist_status acc' (record lb {
        cached_accounts = update_first acc.id (marked status reset_at now) lb.cached_accounts;
      }),
      acc',
    )
