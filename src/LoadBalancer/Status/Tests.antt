-- ===== src/LoadBalancer/Status/Tests.antt =====
-- Cooldowns (internal/loadbalancer/loadbalancer.go) at concrete accounts.
use inf_api.Common.{◌*◌, ◌≡◌, refl, true, false, [], ◌∷◌, arith}
use inf_api.Common.Int.{pos}
use inf_api.Common.Text.{bytes, text_eq, trim_space}
use inf_api.Common.Time.{minute}
use inf_api.LoadBalancer.Status.{
  Account, LoadBalancer, is_account_available, has_cooled, clear_account_status, persist_status,
  update_first, mark_account_status, marked,
}
use inf_api.LoadBalancer.Status.Cooldown.{available_iff, available_after_mark, ready_at, reached}

abbrev acc : Account
acc = record {
  id = 7;
  account_type = bytes "puter";
  agent_mode = [];
  subscription = bytes " Free ";
  weight = pos 2;
  status_code = bytes " 402 ";
  last_attempt = 10 * minute;
  quota_reset_at = 30 * minute;
}

abbrev lb : LoadBalancer
lb = record {
  has_store = true;
  cached_accounts = acc ∷ [];
  cache_expires = 0;
  cache_ttl = 5;
  written = [];
}

program : Unit {0}
unfolding is_account_available has_cooled clear_account_status persist_status update_first
    mark_account_status marked trim_space text_eq
program = tt

waits_for_reset : (is_account_available (29 * minute) acc lb).0 ≡ false
unfolding program
waits_for_reset = refl

recovers : (is_account_available (30 * minute) acc lb).2.status_code ≡ []
unfolding program
recovers = refl

available_iff_example :
    (is_account_available (31 * minute) acc lb).0 ≡ reached (ready_at acc) (31 * minute)
available_iff_example = available_iff (31 * minute) acc lb

available_after_mark_example :
    (is_account_available
      (6 * minute)
      (mark_account_status (bytes "401") 0 minute acc lb).1
      (mark_account_status (bytes "401") 0 minute acc lb).0).0
    ≡ true
unfolding text_eq
available_after_mark_example =
    available_after_mark (bytes "401") 0 minute (6 * minute) acc lb (omega arith) (λ p. cc)
      (unfold trim_space in refl) refl
