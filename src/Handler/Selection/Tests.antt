-- ===== src/Handler/Selection/Tests.antt =====
-- Runs of the selection of an account (internal/handler/handler_helpers.go).
use inf_api.Common.{
  ℕ, ◌≡◌, refl, true, false, not, ◌&&◌, Option, none, some, List, [], ◌∷◌, is_empty, dec_of,
}
use inf_api.Common.Int.{pos, negsuc}
use inf_api.Common.Map.{lookup, insert}
use inf_api.Common.Text.{Text, bytes, key_dec, text_eq, equal_fold, to_lower, lower_byte}
use inf_api.Codebuff.{key_of}
use inf_api.Codebuff.Quota.{QuotaServices, new_quota_store, block_key}
use inf_api.Codebuff.Quota.Records.{is_blocked}
use inf_api.LoadBalancer.Status.{Account, LoadBalancer}
use inf_api.LoadBalancer.Balancer.{is_excluded}
use inf_api.Handler.Selection.{
  ListedAccount, Wanted, select_client, select_account_record, or_next, try_session_affinity,
  affinity_loop, is_taken, has_session, quota_filter,
}
use inf_api.Handler.Selection.Unblocked.{says_blocked, select_client-IsUnblocked}

abbrev World : Type 0
World = List (Text × Text)

abbrev demo : QuotaServices World ℕ
demo = record {
  redis_get = λ k w. (lookup key_dec k w, w);
  redis_exists = λ k w. (elim (lookup key_dec k w) [ none ↦ some 0 | some v ↦ some 1 ], w);
  redis_set = λ k v ttl w. (true, insert key_dec k v w);
  redis_del = λ keys w. (false, w);
  redis_scan = λ pattern w. (([], false), w);
  now_utc = λ w. 0;
  format_int = λ i. elim i [ pos n ↦ n ∷ [] | negsuc n ↦ 45 ∷ n ∷ [] ];
  encode_block = λ block. none;
  decode_block = λ raw. none;
  encode_streak = λ streak. none;
  decode_streak = λ raw. none;
  encode_quotas = λ info. none;
  decode_quotas = λ raw. none;
}

abbrev account : ℕ → Account
account id = record {
  id = id;
  account_type = bytes "codebuff";
  agent_mode = [];
  subscription = [];
  weight = pos 1;
  status_code = [];
  last_attempt = 0;
  quota_reset_at = 0;
}

abbrev entry_of : ℕ → Option ListedAccount
entry_of id = some (record { account = account id; enabled = true; auth_token = id ∷ [] })

abbrev wanted : Wanted
wanted = record { model_id = bytes "k"; target_channel = bytes "codebuff"; failed_ids = 1 ∷ [] }

-- three accounts have a session for the model; the first has failed, the second is blocked
abbrev sessions : World
sessions =
    (key_of (bytes "codebuff") (bytes "session") (1 ∷ []) (bytes "k"), [])
    ∷ (key_of (bytes "codebuff") (bytes "session") (2 ∷ []) (bytes "k"), [])
    ∷ (key_of (bytes "codebuff") (bytes "session") (3 ∷ []) (bytes "k"), [])
    ∷ (block_key demo (new_quota_store []) (pos 2) (bytes "k"), [])
    ∷ []

abbrev lb : LoadBalancer
lb = record {
  has_store = true;
  cached_accounts = [];
  cache_expires = 0;
  cache_ttl = 5;
  written = [];
}

select_client-IsUnblocked_example :
    (is_excluded wanted.failed_ids 3 ≡ false)
    × ((not (is_empty wanted.model_id)
          && (equal_fold wanted.target_channel (bytes "codebuff")
              && says_blocked
                  (is_blocked demo (some (new_quota_store [])) (pos 3) wanted.model_id sessions).0))
        ≡ false)
unfolding select_client select_account_record or_next try_session_affinity affinity_loop is_taken
    has_session quota_filter is_blocked key_of block_key lookup key_dec text_eq dec_of equal_fold
    to_lower lower_byte is_excluded
select_client-IsUnblocked_example =
    select_client-IsUnblocked demo (λ t. t) (some (new_quota_store [])) sessions []
      (some (entry_of 1 ∷ none ∷ entry_of 2 ∷ entry_of 3 ∷ [])) 1 2 (λ a. 1) none (λ id. 0) 0 wanted
      lb (account 3) true false (λ a. true) refl
