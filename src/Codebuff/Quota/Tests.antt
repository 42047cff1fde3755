-- ===== src/Codebuff/Quota/Tests.antt =====
-- Runs of the quota store (internal/codebuff/quotastore.go) with a Redis that is a map and a clock
-- that stands still.
use inf_api.Common.{
  ℕ, ◌+◌, ◌-◌, ◌*◌, ◌%◌, ◌≤◌, ◌≡◌, ◌∙◌, refl, ap, Bool, true, false, Option, none, some, List, [],
  ◌∷◌, ◌++◌, arith, ltb, keep, if◌then◌else◌, All, dec_of,
}
use inf_api.Common.Int.{pos, negsuc}
use inf_api.Common.Map.{lookup, insert, delete, lookup-delete}
use inf_api.Common.Text.{Text, bytes, key_dec, text_eq, text_eq_iff, has_prefix, is_listed}
use inf_api.Common.Time.{minute, hour}
use inf_api.Codebuff.Quota.{
  ModelBlock, ModelRateLimit, SessionQuotaInfo, QuotaStore, QuotaServices, new_quota_store,
  block_key, streak_key, quota_session_key,
}
use inf_api.Codebuff.Quota.Records.{next_reset_ttl}
use inf_api.Codebuff.Quota.Resets.{next_reset_at, next_reset_ttl_lem}
use inf_api.Codebuff.Quota.Status.{PoolAccount, get_pool_status}
use inf_api.Codebuff.Quota.Clearing.{batches, delete_batches, clear_quota_reset_data}
use inf_api.Codebuff.Quota.Deletes.{IsRedis, is_listed-keep}
use inf_api.Codebuff.Quota.Cleared.{IsCleared, clear_quota_reset_data_lem}
use inf_api.Codebuff.Quota.Pool.Remaining.{
  ShowsNoRemaining, LosesHasRemaining, get_pool_status-remaining,
}

abbrev World : Type 0
World = List (Text × Text)

unfoldable delete_keys : List Text → World → World
unfolding delete
delete_keys [] w = w
delete_keys (k ∷ keys) w = delete_keys keys (delete key_dec k w)

unfoldable before_last : Text → Text
before_last [] = []
before_last (c ∷ s) = elim s [ [] ↦ [] | d ∷ r ↦ c ∷ before_last s ]

unfoldable keys_of : World → List Text
keys_of [] = []
keys_of ((k, v) ∷ w) = k ∷ keys_of w

abbrev a_limit : ModelRateLimit ℕ
a_limit = record {
  limit = pos 5;
  has_remaining = false;
  remaining = none;
  recent_count = 4;
  reset_at = 0;
  quota_window = [];
}

abbrev decode_info : Text → Option (SessionQuotaInfo ℕ)
decode_info [] = none
decode_info (c ∷ model) =
    some (record { rate_limits_by_model = (model, a_limit) ∷ []; synced_at = c })

abbrev decode_a_block : Text → Option (ModelBlock ℕ)
decode_a_block raw = some (record {
  model = raw;
  limit = pos 5;
  recent_count = 5;
  reset_at = 0;
  blocked_at = 7;
  retry_after_ms = pos 0;
})

abbrev demo : QuotaServices World ℕ
demo = record {
  redis_get = λ k w. (lookup key_dec k w, w);
  redis_exists = λ k w. (elim (lookup key_dec k w) [ none ↦ some 0 | some v ↦ some 1 ], w);
  redis_set = λ k v ttl w. (true, insert key_dec k v w);
  redis_del = λ keys w. (true, delete_keys keys w);
  redis_scan = λ pattern w. ((keep (λ k. has_prefix k (before_last pattern)) (keys_of w), true), w);
  now_utc = λ w. 100;
  format_int = λ i. elim i [ pos n ↦ (48 + n % 10) ∷ [] | negsuc n ↦ 45 ∷ (49 + n % 9) ∷ [] ];
  encode_block = λ block. some block.model;
  decode_block = decode_a_block;
  encode_streak = λ streak. none;
  decode_streak = λ raw. none;
  encode_quotas = λ info. none;
  decode_quotas = decode_info;
}

abbrev stored : World → Text → Option Text
stored w k = lookup key_dec k w

before_last-append : (p : Text) (c : ℕ) → before_last (p ++ (c ∷ [])) ≡ p
unfolding before_last
before_last-append [] c = refl
before_last-append (d ∷ []) c = refl
before_last-append (d ∷ e ∷ p) c = ap (λ t. d ∷ t) (before_last-append (e ∷ p) c)

lookup-delete_keys :
    (keys : List Text) (k : Text) (w : World)
    → lookup key_dec k (delete_keys keys w)
      ≡ (if is_listed k keys then none else lookup key_dec k w)
unfolding delete_keys
lookup-delete_keys [] k w = refl
lookup-delete_keys (j ∷ keys) k w = ground (
  arith,
  lookup-delete_keys keys k (delete key_dec j w),
  lookup-delete key_dec k j w,
  text_eq_iff j k,
)

lookup-keys_of :
    (k v : Text) (w : World) → lookup key_dec k w ≡ some v → is_listed k (keys_of w) ≡ true
unfolding keys_of lookup
lookup-keys_of k v [] h = cc
lookup-keys_of k v ((j, u) ∷ w) h = ground (arith, lookup-keys_of k v w, text_eq_iff j k, h)

abbrev answers : World → Text → Bool
answers w k = true

demo-IsRedis : IsRedis demo stored answers
demo-IsRedis = record {
  get_reads = λ k w. refl;
  get_keeps = λ k j w. refl;
  exists_reads = λ k n w h missing. ground (arith, h, missing);
  scan_all = λ p k v w plain starts found ended. rw (before_last-append) (
      is_listed-keep (λ j. has_prefix j p) k (keys_of w)
      ∙ ground (arith, starts, lookup-keys_of k v w found));
  scan_prefix = λ p k w plain.
      rw (before_last-append)
        (λ listed. ground (arith, is_listed-keep (λ j. has_prefix j p) k (keys_of w), listed));
  scan_keeps = λ p j w. refl;
  del_removes = λ keys k w done listed. ground (arith, listed, lookup-delete_keys keys k w);
  del_keeps = λ keys k w listed. ground (arith, listed, lookup-delete_keys keys k w);
}

abbrev qs : QuotaStore
qs = new_quota_store []

-- a block of the model k, limits of a session for it that were written at 75, and a streak
abbrev some_keys : World
some_keys =
    (block_key demo qs (pos 1) (bytes "k"), bytes "k")
    ∷ (quota_session_key demo qs (pos 1), bytes "Kk")
    ∷ (streak_key demo qs (pos 1), bytes "3")
    ∷ []

abbrev after_reset : World
after_reset = (clear_quota_reset_data demo (some qs) some_keys).1

clear_quota_reset_data_lem_example : IsCleared demo stored qs some_keys after_reset
unfolding clear_quota_reset_data delete_batches batches block_key streak_key quota_session_key
    has_prefix keys_of before_last
clear_quota_reset_data_lem_example =
    clear_quota_reset_data_lem demo stored answers qs some_keys demo-IsRedis refl refl

after_reset_keys : after_reset ≡ (streak_key demo qs (pos 1), bytes "3") ∷ []
unfolding clear_quota_reset_data delete_batches batches block_key streak_key quota_session_key
    has_prefix keys_of before_last delete_keys delete key_dec text_eq dec_of
after_reset_keys = refl

abbrev an_account : PoolAccount
an_account = record { id = pos 1; name = bytes "one"; account_type = bytes "CodeBuff" }

demo-LosesHasRemaining : LosesHasRemaining demo
unfolding lookup
demo-LosesHasRemaining [] model info rl h found = cc
demo-LosesHasRemaining (c ∷ raw) model info rl h found = ground (arith, h, found)

get_pool_status-remaining_example :
    All ShowsNoRemaining
      (get_pool_status demo 0
        (bytes "k" ∷ bytes "m" ∷ [])
        (some qs)
        (some an_account ∷ none ∷ [])
        some_keys).0.accounts
get_pool_status-remaining_example =
    get_pool_status-remaining demo 0 (bytes "k" ∷ bytes "m" ∷ []) qs (some an_account ∷ none ∷ [])
      some_keys demo-LosesHasRemaining

-- at 08:00 of the first day the reset of the second day is 23 hours and 5 minutes away
next_reset_ttl_lem_example :
    (next_reset_ttl (8 * hour)
      ≡ (if ltb (next_reset_at 1 - 8 * hour) minute then minute else next_reset_at 1 - 8 * hour))
    × (minute ≤ next_reset_ttl (8 * hour))
    × (next_reset_ttl (8 * hour) ≤ 24 * hour)
next_reset_ttl_lem_example = next_reset_ttl_lem (8 * hour) 1 (omega arith) (omega arith)
