-- ===== src/Handler/Selection.antt =====
-- The account of a request (internal/handler/handler_helpers.go): the quota filter, the account that
-- has a session for the model already, and the choice of the load balancer. Redis is that of
-- Codebuff.Quota; what it has does not change during a selection, so every read of it is of one
-- state w of the world. SHA-256 is a parameter.
pub mod Unblocked
mod Tests
use inf_api.Common.{
  ℕ, Bool, true, false, not, ◌&&◌, ◌||◌, Option, none, some, List, [], ◌∷◌, ◌++◌, ltb, take,
  is_empty, if◌then◌else◌,
}
use inf_api.Common.Int.{pos}
use inf_api.Common.Text.{Text, bytes, equal_fold}
use inf_api.Codebuff.{key_of}
use inf_api.Codebuff.Quota.{QuotaStore, QuotaServices}
use inf_api.Codebuff.Quota.Records.{is_blocked}
use inf_api.Codebuff.Quota.Clearing.{trim_suffix}
use inf_api.LoadBalancer.Status.{Account, LoadBalancer}
use inf_api.LoadBalancer.Balancer.{
  Outcome, chosen, store_failed, none_available, all_limited, Query, is_excluded, get_next_account,
}

-- an account of the store's list, whether it is enabled, and what codebuff.ResolveAuthToken finds
pub record ListedAccount : Type 0 where
  pub account : Account
  pub enabled : Bool
  pub auth_token : Text

-- what a selection is made for
pub record Wanted : Type 0 where
  pub model_id : Text
  pub target_channel : Text
  pub failed_ids : List ℕ

-- `client`, `account` and the error of `selectAccount`
pub data SelectedClient : Type 0 where
  of_account : Account → SelectedClient
  default_client : SelectedClient
  no_account : Outcome → SelectedClient
  no_client : SelectedClient

-- the prefix of the keys of sessions
abbrev pub affinity_prefix : Text → Text
affinity_prefix redis_prefix =
    if is_empty redis_prefix
    then bytes "codebuff"
    else trim_suffix redis_prefix (bytes ":") ++ bytes ":codebuff"

module _ {W F : Type 0} (services : QuotaServices W F) (digest : Text → Text)
    (quota_store : Option QuotaStore) (w : W) where
  -- `quotaFilter`
  unfoldable pub quota_filter : Wanted → Account → Bool
  quota_filter wanted acc =
      if is_empty wanted.model_id
      then true
      else if not (equal_fold wanted.target_channel (bytes "codebuff"))
      then true
      else elim (is_blocked services quota_store (pos acc.id) wanted.model_id w).0 [
        | none ↦ true
        | some blocked ↦ not blocked
      ]

  -- a session of an account for the model is stored; an error counts as none
  unfoldable pub has_session : Text → Text → Text → Bool
  has_session redis_prefix token model =
      elim (services.redis_exists
        (key_of (affinity_prefix redis_prefix) (bytes "session") (take 16 (digest token)) model)
        w).0 [ none ↦ false | some n ↦ ltb 0 n ]

  -- whether the walk over the candidates takes an account
  unfoldable pub is_taken : Text → Wanted → ListedAccount → Bool
  is_taken redis_prefix wanted listed =
      equal_fold listed.account.account_type (bytes "codebuff")
      && (not (is_empty listed.auth_token)
          && (has_session redis_prefix listed.auth_token wanted.model_id
              && (not (is_excluded wanted.failed_ids listed.account.id)
                  && (listed.enabled && quota_filter wanted listed.account))))

  -- the loop of `trySessionAffinity`
  unfoldable pub affinity_loop : Text → Wanted → List (Option ListedAccount) → Option Account
  affinity_loop redis_prefix wanted [] = none
  affinity_loop redis_prefix wanted (none ∷ all) = affinity_loop redis_prefix wanted all
  affinity_loop redis_prefix wanted (some listed ∷ all) =
      let rest = affinity_loop redis_prefix wanted all in
      if is_taken redis_prefix wanted listed then some listed.account else rest

  -- `trySessionAffinity`, where `all` is none for an error of ListAccounts or without Redis
  unfoldable pub try_session_affinity :
      Text → Wanted → Option (List (Option ListedAccount)) → Option Account
  try_session_affinity redis_prefix wanted none = none
  try_session_affinity redis_prefix wanted (some all) = affinity_loop redis_prefix wanted all

  module _ (redis_prefix : Text) (all : Option (List (Option ListedAccount))) (now later : ℕ)
      (clock : Account → ℕ) (fetched : Option (List Account)) (counts : ℕ → ℕ) (draw : ℕ)
      (wanted : Wanted) where
    -- the load balancer's choice, with the quota filter
    unfoldable pub choose_next : LoadBalancer → LoadBalancer × Outcome
    choose_next lb =
        get_next_account now later clock fetched counts draw
          (record {
            exclude = wanted.failed_ids;
            channel = wanted.target_channel;
            filter = some (quota_filter wanted);
          })
          lb

    unfoldable pub or_next : Option Account → LoadBalancer → LoadBalancer × Outcome
    or_next (some acc) lb = (lb, chosen acc)
    or_next none lb = choose_next lb

    -- `selectAccountRecordWithOptions`
    unfoldable pub select_account_record : LoadBalancer → LoadBalancer × Outcome
    select_account_record lb =
        if not (is_empty wanted.model_id) && equal_fold wanted.target_channel (bytes "codebuff")
        then or_next (try_session_affinity redis_prefix wanted all) lb
        else choose_next lb

    -- `selectAccountWithOptions`: the handler has a default client or not, and
    -- `getOrCreateAccountClient` gives one for an account or not
    unfoldable pub select_client :
        Bool → Bool → (Account → Bool) → Option LoadBalancer → SelectedClient
    select_client channel_required has_client makes_client none =
        if has_client then default_client else no_client
    select_client channel_required has_client makes_client (some lb) =
        elim (select_account_record lb).1 [
          | chosen acc ↦ if makes_client acc then of_account acc else no_client
          | store_failed ↦
              if not channel_required && has_client then default_client else no_account store_failed
          | none_available ↦
              if not channel_required && has_client
              then default_client
              else no_account none_available
          | all_limited ↦
              if not channel_required && has_client then default_client else no_account all_limited
        ]
