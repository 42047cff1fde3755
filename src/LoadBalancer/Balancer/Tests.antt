-- ===== src/LoadBalancer/Balancer/Tests.antt =====
-- The next account (internal/loadbalancer/loadbalancer.go) for a concrete query.
use inf_api.Common.{◌≡◌, ◌≢◌, refl, ◌⊎◌, true, none, some, [], ◌∷◌}
use inf_api.Common.Int.{pos}
use inf_api.Common.Text.{bytes}
use inf_api.LoadBalancer.Status.{Account, LoadBalancer}
use inf_api.LoadBalancer.Select.Least.{Member, IsLeast}
use inf_api.LoadBalancer.Balancer.{
  Query, get_next_account, get_enabled_accounts, chosen, none_available, all_limited,
}
use inf_api.LoadBalancer.Balancer.Next.{candidates, get_next_account_lem}

abbrev acc : Account
acc = record {
  id = 7;
  account_type = bytes "puter";
  agent_mode = [];
  subscription = [];
  weight = pos 2;
  status_code = [];
  last_attempt = 0;
  quota_reset_at = 0;
}

abbrev lb : LoadBalancer
lb = record {
  has_store = true;
  cached_accounts = [];
  cache_expires = 0;
  cache_ttl = 5;
  written = [];
}

abbrev query : Query
query = record { exclude = 8 ∷ []; channel = bytes "Puter"; filter = none }

get_next_account_lem_example :
    let out = (get_next_account 1 2 (λ a. 1) (some (acc ∷ [])) (λ id. 0) 0 query lb).1 in
    let pool = candidates (λ a. 1) query (acc ∷ []) in
    (pool ≡ [] → (out ≡ none_available) ⊎ (out ≡ all_limited))
    × (pool ≢ [] → (a : Account) × (out ≡ chosen a) × Member a pool × IsLeast (λ id. 0) a pool)
get_next_account_lem_example =
    get_next_account_lem (λ a. 1) query (λ id. 0) 0 1 2 (some (acc ∷ [])) lb (acc ∷ [])
      (unfold get_enabled_accounts in refl)
