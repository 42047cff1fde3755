-- ===== src/LoadBalancer/Registry.antt =====
-- The session registry (internal/loadbalancer/session_registry.go). `now()` is an argument, and so
-- is `fmt.Sprintf("%d:%s", …)`, as a function of the account and the model. A limit that is not
-- positive is written 0.
pub mod Bounded
mod Tests
use text.Mathlib.Text.{◌==◌ as str_eq}
use inf_api.Common.{
  ℕ, ◌*◌, String, Bool, true, false, Option, none, some, List, [], ◌∷◌, if◌then◌else◌, ltb,
  text_dec,
}
use inf_api.Common.Int.{ℤ, pos, negsuc}
use inf_api.Common.Map.{lookup, insert, delete}
use inf_api.Common.Time.{sub_time, minute}
use inf_api.Eviction.{make_room}

pub record SessionEntry : Type 0 where
  pub account_id : ℕ
  pub model : String
  pub created_at : ℕ

pub record SessionRegistryConfig : Type 0 where
  pub max_entries : ℕ
  pub entry_ttl : ℤ

pub record SessionRegistry : Type 0 where
  pub entries : List (String × SessionEntry)
  pub ttl : ℕ
  pub max_size : ℕ

abbrev pub creation_time : SessionEntry → ℕ
creation_time e = e.created_at

-- `withDefaults`
unfoldable pub with_default_ttl : ℤ → ℕ
with_default_ttl (pos n) = if ltb 0 n then n else 5 * minute
with_default_ttl (negsuc n) = 5 * minute

-- `NewSessionRegistry`
unfoldable pub new_session_registry : SessionRegistryConfig → SessionRegistry
unfolding with_default_ttl
new_session_registry cfg = record {
  entries = [];
  ttl = with_default_ttl cfg.entry_ttl;
  max_size = cfg.max_entries;
}

abbrev pub conflict_marker : String
conflict_marker = "\0conflict\0"

module _ (sprintf : ℕ → String → String) where
  -- `Lookup`: the model, if there is one, and the registry behind the removal
  unfoldable pub lookup_entry : ℕ → ℕ → String → SessionRegistry → Option String × SessionRegistry
  lookup_entry now account_id model r =
      let key = sprintf account_id model in
      elim (lookup text_dec key r.entries) [
        | none ↦ (none, r)
        | some e ↦
            if ltb r.ttl (sub_time now e.created_at)
            then (none, record r { entries = delete text_dec key r.entries })
            else (some e.model, r)
      ]

  -- `record`
  unfoldable pub record_observed : ℕ → ℕ → String → String → SessionRegistry → SessionRegistry
  record_observed now account_id model observed_model r =
      let entry : SessionEntry = record {
        account_id = account_id;
        model = observed_model;
        created_at = now;
      } in
      record r {
        entries =
            insert text_dec (sprintf account_id model) entry
              (make_room creation_time r.max_size r.entries);
      }

  -- `Record`
  unfoldable pub record_model : ℕ → ℕ → String → SessionRegistry → SessionRegistry
  record_model now account_id model r =
      let entry : SessionEntry = record {
        account_id = account_id;
        model = model;
        created_at = now;
      } in
      record r {
        entries =
            insert text_dec (sprintf account_id model) entry
              (make_room creation_time r.max_size r.entries);
      }

  -- `Forget`
  unfoldable pub forget : ℕ → String → SessionRegistry → SessionRegistry
  forget account_id model r = record r {
    entries = delete text_dec (sprintf account_id model) r.entries;
  }

  -- `IsReportedModelConflict`
  unfoldable pub is_reported_model_conflict :
      ℕ → ℕ → String → SessionRegistry → Bool × SessionRegistry
  unfolding lookup_entry
  is_reported_model_conflict now account_id model r =
      let found = lookup_entry now account_id model r in (is_marker found.0, found.1)
    where
      is_marker : Option String → Bool
      is_marker none = false
      is_marker (some m) = str_eq m conflict_marker

  -- `MarkModelConflict`
  unfoldable pub mark_model_conflict : ℕ → ℕ → String → SessionRegistry → SessionRegistry
  unfolding record_observed
  mark_model_conflict now account_id model r =
      record_observed now account_id model conflict_marker r
