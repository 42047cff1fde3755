-- ===== src/LoadBalancer/Registry/Tests.antt =====
-- Runs of the session registry (internal/loadbalancer/session_registry.go).
use text.Mathlib.Text.{◌==◌ as str_eq}
use inf_api.Common.{
  ℕ, zero, suc, ◌≤◌, ◌≡◌, refl, String, List, [], ◌∷◌, none, some, length, if◌then◌else◌, ltb,
  false, arith,
}
use inf_api.Common.Int.{pos}
use inf_api.Common.Time.{sub_time}
use inf_api.LoadBalancer.Registry.{
  SessionRegistryConfig, new_session_registry, lookup_entry, record_model,
}
use inf_api.LoadBalancer.Registry.Bounded.{
  RegistryCall, note, look, mark, call_all, lookup-record_model, registry_bounded,
}

-- texts that differ for the accounts 0 and 1, and are not empty
abbrev colon_key : ℕ → String → String
colon_key zero model = "0:m"
colon_key (suc id) model = "1:m"

colon_key_printed : (id : ℕ) (model : String) → str_eq (colon_key id model) "" ≡ false
colon_key_printed zero model = refl
colon_key_printed (suc id) model = refl

abbrev two_entries : SessionRegistryConfig
two_entries = record { max_entries = 1; entry_ttl = pos 100 }

abbrev three_calls : List RegistryCall
three_calls = note 10 1 "m" ∷ mark 20 0 "m" ∷ look 30 1 "m" ∷ []

registry_bounded_example :
    length (call_all colon_key three_calls (new_session_registry two_entries)).entries ≤ 1
registry_bounded_example =
    registry_bounded colon_key colon_key_printed two_entries three_calls (omega arith)

lookup-record_model_example :
    (lookup_entry colon_key 50 1 "m"
      (record_model colon_key 10 1 "m" (new_session_registry two_entries))).0
    ≡ (if ltb (new_session_registry two_entries).ttl (sub_time 50 10) then none else some "m")
lookup-record_model_example =
    lookup-record_model colon_key 10 50 1 "m" (new_session_registry two_entries)
