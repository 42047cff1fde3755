-- ===== src/LoadBalancer/Registry/Bounded.antt =====
-- The limit and the freshness of the session registry's entries
-- (internal/loadbalancer/session_registry.go).
use text.Mathlib.Text.{◌==◌ as str_eq}
use inf_api.Common.{
  ℕ, ◌≤◌, ◌<◌, ◌≡◌, refl, String, false, none, some, List, [], ◌∷◌, arith, length, text_dec,
  Option-cases, inl, inr, ltb, Bool-cases, if◌then◌else◌,
}
use inf_api.Common.Map.{lookup, insert, delete, lookup-insert_self}
use inf_api.Common.Time.{sub_time}
use inf_api.Eviction.{make_room}
use inf_api.Eviction.Room.{IsBounded, insert-make_room-IsBounded, delete-IsBounded}
use inf_api.LoadBalancer.Registry.{
  SessionEntry, SessionRegistryConfig, SessionRegistry, creation_time, new_session_registry,
  lookup_entry, record_observed, record_model, forget, is_reported_model_conflict,
  mark_model_conflict,
}

-- a call of a method, with the time at which it runs
pub data RegistryCall : Type 0 where
  look : ℕ → ℕ → String → RegistryCall
  note : ℕ → ℕ → String → RegistryCall
  mark : ℕ → ℕ → String → RegistryCall
  ask : ℕ → ℕ → String → RegistryCall
  drop_entry : ℕ → String → RegistryCall

module _ (sprintf : ℕ → String → String) where
  pub call : RegistryCall → SessionRegistry → SessionRegistry
  call (look now id model) r = (lookup_entry sprintf now id model r).1
  call (note now id model) r = record_model sprintf now id model r
  call (mark now id model) r = mark_model_conflict sprintf now id model r
  call (ask now id model) r = (is_reported_model_conflict sprintf now id model r).1
  call (drop_entry id model) r = forget sprintf id model r

  pub call_all : List RegistryCall → SessionRegistry → SessionRegistry
  call_all [] r = r
  call_all (c ∷ cs) r = call_all cs (call c r)

  module _ (now id : ℕ) (model : String) (r : SessionRegistry) where
    lookup_absent :
        lookup text_dec (sprintf id model) r.entries ≡ none
        → lookup_entry sprintf now id model r ≡ (none, r)
    unfolding lookup_entry
    lookup_absent h = rw (h, lookup_entry) refl

    lookup_found :
        (e : SessionEntry)
        → lookup text_dec (sprintf id model) r.entries ≡ some e
        → lookup_entry sprintf now id model r ≡ (
            if ltb r.ttl (sub_time now e.created_at)
            then (none, record r { entries = delete text_dec (sprintf id model) r.entries })
            else (some e.model, r))
    unfolding lookup_entry
    lookup_found e h = rw (h, lookup_entry) refl

  lookup-record_entry :
      (now later id : ℕ) (model : String) (r : SessionRegistry)
      → lookup text_dec (sprintf id model) (record_model sprintf now id model r).entries
        ≡ some (record { account_id = id; model = model; created_at = now })
  unfolding record_model
  lookup-record_entry now later id model r =
      lookup-insert_self text_dec (sprintf id model) _
        (make_room creation_time r.max_size r.entries)

  record_ttl :
      (now id : ℕ) (model : String) (r : SessionRegistry)
      → (record_model sprintf now id model r).ttl ≡ r.ttl
  unfolding record_model
  record_ttl now id model r = refl

  -- After Record, Lookup gives the recorded model as long as the time to live has not passed, and
  -- nothing from then on, whatever entry was evicted.
  pub lookup-record_model :
      (now later id : ℕ) (model : String) (r : SessionRegistry)
      → (lookup_entry sprintf later id model (record_model sprintf now id model r)).0
        ≡ (if ltb r.ttl (sub_time later now) then none else some model)
  lookup-record_model now later id model r =
      let after = record_model sprintf now id model r in
      let found = lookup_found later id model after _ (lookup-record_entry now later id model r) in
      let ttl = record_ttl now id model r in
      elim (Bool-cases (ltb r.ttl (sub_time later now))) [
        | inl e ↦ rw (found, ttl, e) refl
        | inr e ↦ rw (found, ttl, e) refl
      ]

  abbrev IsValid : ℕ → SessionRegistry → Type 0
  IsValid max_size r = (r.max_size ≡ max_size) × IsBounded creation_time max_size r.entries

  delete-IsValid :
      (max_size : ℕ) (key : String) (r : SessionRegistry)
      → IsValid max_size r
      → IsValid max_size (record r { entries = delete text_dec key r.entries })
  delete-IsValid max_size key r v = (v.0, delete-IsBounded creation_time max_size key r.entries v.1)

  lookup-IsValid :
      (max_size now id : ℕ) (model : String) (r : SessionRegistry)
      → IsValid max_size r
      → IsValid max_size (lookup_entry sprintf now id model r).1
  lookup-IsValid max_size now id model r v =
      elim (Option-cases (lookup text_dec (sprintf id model) r.entries)) [
        | inl e ↦ rw (lookup_absent now id model r e) v
        | inr (x, e) ↦ elim (Bool-cases (ltb r.ttl (sub_time now x.created_at))) [
          | inl h ↦
              rw (lookup_found now id model r x e, h)
                (delete-IsValid max_size (sprintf id model) r v)
          | inr h ↦ rw (lookup_found now id model r x e, h) v
        ]
      ]

  -- the keys that `fmt.Sprintf` prints have the colon in them
  module _ (printed : (id : ℕ) (model : String) → str_eq (sprintf id model) "" ≡ false) where
    insert-IsValid :
        (max_size id : ℕ) (model : String) (e : SessionEntry) (r : SessionRegistry)
        → IsValid max_size r
        → IsBounded creation_time max_size
            (insert text_dec (sprintf id model) e (make_room creation_time r.max_size r.entries))
    insert-IsValid max_size id model e r v =
        let far = printed id model in
        rw v.0
          (insert-make_room-IsBounded creation_time max_size (sprintf id model) e r.entries far v.1)

    call-IsValid :
        (max_size : ℕ) (c : RegistryCall) (r : SessionRegistry)
        → IsValid max_size r
        → IsValid max_size (call c r)
    unfolding call record_model mark_model_conflict record_observed forget
        is_reported_model_conflict
    call-IsValid max_size (look now id model) r v = lookup-IsValid max_size now id model r v
    call-IsValid max_size (note now id model) r v = (v.0, insert-IsValid max_size id model _ r v)
    call-IsValid max_size (mark now id model) r v = (v.0, insert-IsValid max_size id model _ r v)
    call-IsValid max_size (ask now id model) r v = lookup-IsValid max_size now id model r v
    call-IsValid max_size (drop_entry id model) r v = delete-IsValid max_size (sprintf id model) r v

    call_all-IsValid :
        (max_size : ℕ) (cs : List RegistryCall) (r : SessionRegistry)
        → IsValid max_size r
        → IsValid max_size (call_all cs r)
    unfolding call_all
    call_all-IsValid max_size [] r v = v
    call_all-IsValid max_size (c ∷ cs) r v =
        call_all-IsValid max_size cs (call c r) (call-IsValid max_size c r v)

    new-IsValid : (cfg : SessionRegistryConfig) → IsValid cfg.max_entries (new_session_registry cfg)
    unfolding new_session_registry
    new-IsValid cfg = (refl, record { named = tt; distinct = tt; bounded = λ lt. omega arith })

    -- If keys are printed as texts that are not empty, every sequence of calls on a new registry
    -- with a limit keeps the limit.
    pub registry_bounded :
        (cfg : SessionRegistryConfig) (cs : List RegistryCall)
        → 0 < cfg.max_entries
        → length (call_all cs (new_session_registry cfg)).entries ≤ cfg.max_entries
    registry_bounded cfg cs h =
        (call_all-IsValid cfg.max_entries cs (new_session_registry cfg) (new-IsValid cfg)).1.bounded
          h
