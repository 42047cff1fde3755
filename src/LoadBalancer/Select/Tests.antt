-- ===== src/LoadBalancer/Select/Tests.antt =====
-- The selection (internal/loadbalancer/loadbalancer.go, internal/loadbalancer/tier.go) at concrete
-- accounts.
use inf_api.Common.{ℕ, ◌≡◌, refl, none, some, List, [], ◌∷◌}
use inf_api.Common.Int.{ℤ, pos, negsuc}
use inf_api.Common.Text.{Text, bytes, text_eq, trim_space, to_lower}
use inf_api.LoadBalancer.Status.{Account}
use inf_api.LoadBalancer.Select.{
  select_account, select_by_tier, passes, tier_of, best_loop, score_of, positive_weight, nth,
}
use inf_api.LoadBalancer.Select.Least.{Member, IsLeast, select_account-IsLeast}
use inf_api.LoadBalancer.Select.Tiers.{of_tier, or_else, select_by_tier_lem}

abbrev account : ℕ → Text → ℤ → Account
account id plan weight = record {
  id = id;
  account_type = bytes "puter";
  agent_mode = [];
  subscription = plan;
  weight = weight;
  status_code = [];
  last_attempt = 0;
  quota_reset_at = 0;
}

abbrev accounts : List Account
accounts =
    account 1 (bytes "Free") (pos 2)
    ∷ account 2 (bytes "pro") (negsuc 0)
    ∷ account 3 [] (pos 4)
    ∷ []

-- six connections on each account
abbrev counts : ℕ → ℕ
counts id = 6

picks_heaviest : select_account counts 5 accounts ≡ some (account 3 [] (pos 4))
unfolding select_account best_loop score_of positive_weight nth
picks_heaviest = refl

free_is_last : tier_of (account 1 (bytes " FREE ") (pos 2)) ≡ 3
unfolding tier_of text_eq trim_space to_lower
free_is_last = refl

select_account-IsLeast_example :
    (a : Account) × (select_account counts 5 accounts ≡ some a)
    × Member a accounts
    × IsLeast counts a accounts
select_account-IsLeast_example = select_account-IsLeast counts 5 accounts (λ p. cc)

select_by_tier_lem_example :
    select_by_tier counts 5 none accounts
    ≡ or_else
        (select_account counts 5 (of_tier (passes none) 2 accounts))
        (select_account counts 5 (of_tier (passes none) 3 accounts))
select_by_tier_lem_example = select_by_tier_lem counts 5 none accounts
