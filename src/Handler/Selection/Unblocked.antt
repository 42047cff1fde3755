-- ===== src/Handler/Selection/Unblocked.antt =====
-- The account that is selected has no block and has not failed before
-- (internal/handler/handler_helpers.go, internal/codebuff/quotastore.go and
-- internal/loadbalancer/loadbalancer.go).
use inf_api.Common.{
  ℕ, ◌≡◌, sym, ap, Bool, true, false, not, ◌&&◌, Option, none, some, List, [], ◌∷◌, arith, by_test,
  is_empty, Bool-cases, inl, inr,
}
use inf_api.Common.Int.{pos}
use inf_api.Common.Text.{Text, bytes, equal_fold}
use inf_api.Codebuff.Quota.{QuotaStore, QuotaServices}
use inf_api.Codebuff.Quota.Records.{is_blocked}
use inf_api.LoadBalancer.Status.{Account, LoadBalancer}
use inf_api.LoadBalancer.Balancer.{Outcome, chosen, Query, is_excluded}
use inf_api.LoadBalancer.Balancer.Next.{get_next_account-IsChosen}
use inf_api.LoadBalancer.Select.{passes}
use inf_api.Handler.Selection.{
  ListedAccount, Wanted, of_account, quota_filter, is_taken, affinity_loop, try_session_affinity,
  choose_next, or_next, select_account_record, select_client,
}

module _ {W F : Type 0} (services : QuotaServices W F) (digest : Text → Text)
    (quota_store : Option QuotaStore) (w : W) where
  -- an account that a selection may return
  pub record IsUnblocked (wanted : Wanted) (a : Account) : Type 0 where
    pub not_failed : is_excluded wanted.failed_ids a.id ≡ false
    pub unblocked : quota_filter services digest quota_store w wanted a ≡ true

  affinity_loop-IsUnblocked :
      (redis_prefix : Text) (wanted : Wanted) (all : List (Option ListedAccount)) (a : Account)
      → affinity_loop services digest quota_store w redis_prefix wanted all ≡ some a
      → IsUnblocked wanted a
  unfolding affinity_loop is_taken
  affinity_loop-IsUnblocked redis_prefix wanted [] a h = cc
  affinity_loop-IsUnblocked redis_prefix wanted (none ∷ all) a h =
      affinity_loop-IsUnblocked redis_prefix wanted all a h
  affinity_loop-IsUnblocked redis_prefix wanted (some listed ∷ all) a h =
      elim (Bool-cases (is_taken services digest quota_store w redis_prefix wanted listed)) [
        | inl taken ↦
            let same : listed.account ≡ a = ground (arith, taken, h) in
            rw (sym same)
              (record { not_failed = ground (arith, taken); unblocked = ground (arith, taken) })
        | inr passed ↦
            affinity_loop-IsUnblocked redis_prefix wanted all a (ground (arith, passed, h))
      ]

  module _ (redis_prefix : Text) (all : Option (List (Option ListedAccount))) (now later : ℕ)
      (clock : Account → ℕ) (fetched : Option (List Account)) (counts : ℕ → ℕ) (draw : ℕ)
      (wanted : Wanted) (lb : LoadBalancer) (a : Account) where
    choose_next-IsUnblocked :
        (choose_next services digest quota_store w redis_prefix all now later clock fetched counts
            draw wanted lb).1
          ≡ chosen a
        → IsUnblocked wanted a
    unfolding choose_next passes quota_filter
    choose_next-IsUnblocked h =
        let query : Query = record {
          exclude = wanted.failed_ids;
          channel = wanted.target_channel;
          filter = some (quota_filter services digest quota_store w wanted);
        } in
        let c = get_next_account-IsChosen clock query counts draw now later fetched lb a h in
        let fresh : is_excluded wanted.failed_ids c.tested.id ≡ false =
          ground (arith, c.qualified) in
        let passed : quota_filter services digest quota_store w wanted c.tested ≡ true =
          ground (arith, c.qualified) in
        rw (sym c.seen) (
          by_test (IsUnblocked wanted) _ _ _
            (λ over. record { not_failed = fresh; unblocked = passed })
            (λ other. record { not_failed = fresh; unblocked = passed }))

    or_next-IsUnblocked :
        (o : Option Account)
        → ((b : Account) → o ≡ some b → IsUnblocked wanted b)
        → (or_next services digest quota_store w redis_prefix all now later clock fetched counts
            draw wanted o lb).1
          ≡ chosen a
        → IsUnblocked wanted a
    unfolding or_next
    or_next-IsUnblocked none f h = choose_next-IsUnblocked h
    or_next-IsUnblocked (some b) f h = let same : b ≡ a = cc in f a (ap some same)

    try_session_affinity-IsUnblocked :
        (listed : Option (List (Option ListedAccount))) (b : Account)
        → try_session_affinity services digest quota_store w redis_prefix wanted listed ≡ some b
        → IsUnblocked wanted b
    unfolding try_session_affinity
    try_session_affinity-IsUnblocked none b h = cc
    try_session_affinity-IsUnblocked (some l) b h =
        affinity_loop-IsUnblocked redis_prefix wanted l b h

    select_account_record-IsUnblocked :
        (select_account_record services digest quota_store w redis_prefix all now later clock
            fetched counts draw wanted lb).1
          ≡ chosen a
        → IsUnblocked wanted a
    unfolding select_account_record
    select_account_record-IsUnblocked =
        by_test (λ (o : LoadBalancer × Outcome). o.1 ≡ chosen a → IsUnblocked wanted a)
          (not (is_empty wanted.model_id) && equal_fold wanted.target_channel (bytes "codebuff")) _
          _ (λ affine. or_next-IsUnblocked _ (try_session_affinity-IsUnblocked all))
          (λ plain. choose_next-IsUnblocked)

    select_client-chosen :
        (channel_required has_client : Bool) (makes_client : Account → Bool)
        → select_client services digest quota_store w redis_prefix all now later clock fetched
            counts draw wanted channel_required has_client makes_client
            (some lb)
          ≡ of_account a
        → (select_account_record services digest quota_store w redis_prefix all now later clock
            fetched counts draw wanted lb).1
          ≡ chosen a
    unfolding select_client
    select_client-chosen required has makes h = ground (arith, h)

-- the answer that a model is blocked
abbrev pub says_blocked : Option Bool → Bool
says_blocked none = false
says_blocked (some blocked) = blocked

-- The client that is selected for a request belongs to an account only if the account has not
-- failed for the request before and, where a model of codebuff is wanted, Redis does not say that
-- the model is blocked for the account, whether the account has a session for the model already or
-- is the load balancer's choice.
pub select_client-IsUnblocked :
    {W F : Type 0} (services : QuotaServices W F) (digest : Text → Text)
    (quota_store : Option QuotaStore) (w : W) (redis_prefix : Text)
    (all : Option (List (Option ListedAccount))) (now later : ℕ) (clock : Account → ℕ)
    (fetched : Option (List Account)) (counts : ℕ → ℕ) (draw : ℕ) (wanted : Wanted)
    (lb : LoadBalancer) (a : Account) (channel_required has_client : Bool)
    (makes_client : Account → Bool)
    → select_client services digest quota_store w redis_prefix all now later clock fetched counts
        draw wanted channel_required has_client makes_client
        (some lb)
      ≡ of_account a
    → (is_excluded wanted.failed_ids a.id ≡ false)
      × ((not (is_empty wanted.model_id)
            && (equal_fold wanted.target_channel (bytes "codebuff")
                && says_blocked (is_blocked services quota_store (pos a.id) wanted.model_id w).0))
          ≡ false)
unfolding quota_filter
select_client-IsUnblocked services digest quota_store w redis_prefix all now later clock fetched
      counts draw wanted lb a required has makes h =
    let u =
      select_account_record-IsUnblocked services digest quota_store w redis_prefix all now later
        clock fetched counts draw wanted lb a
        (select_client-chosen services digest quota_store w redis_prefix all now later clock fetched
          counts draw wanted lb a required has makes h) in
    (u.not_failed, ground (arith, u.unblocked))
