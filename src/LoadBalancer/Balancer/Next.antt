-- ===== src/LoadBalancer/Balancer/Next.antt =====
-- Which accounts `GetNextAccountExcludingByChannelWithTrackerFilter` considers, and which it
-- returns (internal/loadbalancer/loadbalancer.go).
use inf_api.Common.{
  ℕ, ◌≡◌, ◌≢◌, sym, ◌∙◌, ap, ◌⊎◌, inl, inr, Bool, not, ◌&&◌, ◌||◌, Option, some, List, [], ◌∷◌,
  ◌++◌, if◌then◌else◌, keep, map, arith, Bool-cases, true, Option-cases, by_test, is_empty,
  is_empty_iff,
}
use mathlib.Core.List.{append-nil, append_assoc}
use inf_api.Common.Text.{bytes, text_eq, trim_space, equal_fold}
use inf_api.LoadBalancer.Status.{Account, LoadBalancer, cleared}
use inf_api.LoadBalancer.Status.Cooldown.{ready_at, reached, available_iff, available-seen}
use inf_api.LoadBalancer.Select.{select_account, passes}
use inf_api.LoadBalancer.Select.Least.{Member, IsLeast, select_nothing, select_account-IsLeast}
use inf_api.LoadBalancer.Balancer.{
  chosen, none_available, all_limited, store_failed, Query, Filtered, is_excluded, in_channel,
  is_limited, filter_step, filter_loop, conclude, get_enabled_accounts, get_next_account,
}

module _ (counts : ℕ → ℕ) (draw : ℕ) (q : Query) (st : Filtered) where
  conclude_empty :
      st.kept ≡ []
      → (conclude counts draw q st ≡ none_available) ⊎ (conclude counts draw q st ≡ all_limited)
  unfolding conclude
  conclude_empty e = ground (arith, ap (select_account counts draw) e, select_nothing counts draw)

  conclude_found :
      (a : Account)
      → select_account counts draw st.kept ≡ some a
      → conclude counts draw q st ≡ chosen a
  unfolding conclude
  conclude_found a e = rw (e, conclude)

module _ (clock : Account → ℕ) (q : Query) where
  -- what the query itself asks of an account
  abbrev pub is_wanted : Account → Bool
  is_wanted a = not (is_excluded q.exclude a.id) && in_channel q.channel a && passes q.filter a

  abbrev pub is_ready : Account → Bool
  is_ready a = reached (ready_at a) (clock a)

  -- An account that is wanted, and ready or else a rate-limited one of the codebuff channel.
  abbrev pub qualifies : Account → Bool
  qualifies a =
      is_wanted a && (is_ready a || (is_limited a && equal_fold q.channel (bytes "codebuff")))

  -- An account as it is after the test: a status whose cooldown is over is cleared.
  abbrev pub as_seen : Account → Account
  as_seen a = if is_ready a && not (text_eq (trim_space a.status_code) []) then cleared a else a

  filter_step-kept :
      (a : Account) (st : Filtered)
      → (filter_step clock q a st).kept
        ≡ (if qualifies a then st.kept ++ as_seen a ∷ [] else st.kept)
  unfolding filter_step
  filter_step-kept a st =
      ground (arith, available_iff (clock a) a st.lb, available-seen (clock a) a st.lb)

  filter_loop-kept :
      (accounts : List Account) (st : Filtered)
      → (filter_loop clock q accounts st).kept ≡ st.kept ++ map as_seen (keep qualifies accounts)
  unfolding filter_loop
  filter_loop-kept [] st = sym (append-nil _)
  filter_loop-kept (a ∷ rest) st = elim (Bool-cases (qualifies a)) [
    | inl e ↦
        rw
          (filter_loop-kept rest (filter_step clock q a st), filter_step-kept a st, e, append_assoc)
    | inr e ↦ rw (filter_loop-kept rest (filter_step clock q a st), filter_step-kept a st, e)
  ]

  -- the accounts among which the choice is made
  abbrev pub candidates : List Account → List Account
  candidates accounts = map as_seen (keep qualifies accounts)

  module _ (counts : ℕ → ℕ) (draw : ℕ) (now later : ℕ) (fetched : Option (List Account))
      (lb : LoadBalancer) where
    outcome_of :
        (accounts : List Account)
        → (get_enabled_accounts now later fetched lb).1 ≡ some accounts
        → (st : Filtered) × (st.kept ≡ candidates accounts)
          × ((get_next_account now later clock fetched counts draw q lb).1
              ≡ conclude counts draw q st)
    unfolding get_next_account
    outcome_of accounts h = (
      filter_loop clock q accounts (record {
        lb = (get_enabled_accounts now later fetched lb).0;
        kept = [];
        matched = 0;
        limited = 0;
      }),
      filter_loop-kept accounts _,
      rw (h, get_next_account),
    )

    -- If the account list is at hand, the answer is an error exactly if no account qualifies.
    -- Otherwise it is an account that qualifies, with its status cleared if its cooldown is over,
    -- and none that qualifies has fewer connections for its weight.
    pub get_next_account_lem :
        (accounts : List Account)
        → (get_enabled_accounts now later fetched lb).1 ≡ some accounts
        → let out = (get_next_account now later clock fetched counts draw q lb).1 in
          (candidates accounts ≡ [] → (out ≡ none_available) ⊎ (out ≡ all_limited))
          × (candidates accounts ≢ []
              → (a : Account) × (out ≡ chosen a)
                × Member a (candidates accounts)
                × IsLeast counts a (candidates accounts))
    get_next_account_lem accounts h =
        let (st, kept, out) = outcome_of accounts h in
        (
          λ none_left. rw out (conclude_empty counts draw q st (kept ∙ none_left)),
          λ some_left.
              let (a, found, member, least) =
                select_account-IsLeast counts draw (candidates accounts) some_left in
              (
                a,
                out
                    ∙ conclude_found counts draw q st a
                        (ap (select_account counts draw) kept ∙ found),
                member,
                least,
              ),
        )

-- A chosen account is one of the list that qualifies, as it is after the test.
pub record IsChosen (clock : Account → ℕ) (q : Query) (a : Account) : Type 0 where
  pub tested : Account
  pub qualified : qualifies clock q tested ≡ true
  pub seen : as_seen clock q tested ≡ a

Member-IsChosen :
    (clock : Account → ℕ) (q : Query) (a : Account) (accounts : List Account)
    → Member a (candidates clock q accounts)
    → IsChosen clock q a
Member-IsChosen clock q a [] h = elim h [ ]
Member-IsChosen clock q a (b ∷ accounts) h =
    by_test (λ (pool : List Account). Member a (map (as_seen clock q) pool) → IsChosen clock q a)
      (qualifies clock q b) _ _
      (λ ok member. elim member [
        | inl here ↦ record { tested = b; qualified = ok; seen = here }
        | inr later ↦ Member-IsChosen clock q a accounts later
      ])
      (λ no. Member-IsChosen clock q a accounts) h

module _ (clock : Account → ℕ) (q : Query) (counts : ℕ → ℕ) (draw : ℕ) (now later : ℕ)
    (fetched : Option (List Account)) (lb : LoadBalancer) (a : Account) where
  chosen-IsChosen :
      (accounts : List Account)
      → (get_enabled_accounts now later fetched lb).1 ≡ some accounts
      → (get_next_account now later clock fetched counts draw q lb).1 ≡ chosen a
      → IsChosen clock q a
  chosen-IsChosen accounts found h =
      let l = get_next_account_lem clock q counts draw now later fetched lb accounts found in
      elim (Bool-cases (is_empty (candidates clock q accounts))) [
        | inl empty ↦ elim (l.0 ((is_empty_iff (candidates clock q accounts)).0 empty)) [
          | inl e ↦ cc
          | inr e ↦ cc
        ]
        | inr some_left ↦
            let (b, out, member, least) = l.1 (λ e. ground (arith, e, some_left)) in
            let same : b ≡ a = cc in rw (sym same) (Member-IsChosen clock q b accounts member)
      ]

  pub get_next_account-IsChosen :
      (get_next_account now later clock fetched counts draw q lb).1 ≡ chosen a → IsChosen clock q a
  unfolding get_next_account
  get_next_account-IsChosen h = elim (Option-cases (get_enabled_accounts now later fetched lb).1) [
    | inl failed ↦
        let out : (get_next_account now later clock fetched counts draw q lb).1 ≡ store_failed =
          rw (failed, get_next_account) in
        let never : store_failed ≡ chosen a = sym out ∙ h in cc
    | inr (accounts, found) ↦ chosen-IsChosen accounts found h
  ]
