-- ===== src/Handler/Sessions/Bounded.antt =====
-- Every sequence of the session store's methods (internal/handler/session_store.go) keeps its
-- limit.
use text.Mathlib.Text.{◌==◌ as str_eq}
use inf_api.Common.{
  ℕ, ◌≤◌, ◌<◌, ◌≡◌, refl, String, false, none, some, List, [], ◌∷◌, arith, length, text_dec,
  Option-cases, inl, inr,
}
use inf_api.Common.Map.{lookup, insert, Distinct, lookup-insert_self}
use inf_api.Eviction.{make_room}
use inf_api.Eviction.Oldest.{Named}
use inf_api.Eviction.Room.{
  IsBounded, insert-make_room-IsBounded, insert_present-IsBounded, delete-IsBounded,
}
use inf_api.Handler.Sessions.{
  MemorySession, MemorySessionStore, new_memory_session_store, access_time, empty_session,
  get_or_create, set_workdir, set_conv_id, write_session, delete_session, touch, cleanup_loop,
  cleanup,
}

-- a call of a method that changes the store
pub data SessionCall : Type 0 where
  set_dir : ℕ → String → String → SessionCall
  set_conversation : ℕ → String → String → SessionCall
  delete_one : String → SessionCall
  touch_one : ℕ → String → SessionCall
  clean_up : ℕ → SessionCall

pub call : SessionCall → MemorySessionStore → MemorySessionStore
call (set_dir now key dir) s = set_workdir now key dir s
call (set_conversation now key id) s = set_conv_id now key id s
call (delete_one key) s = delete_session key s
call (touch_one now key) s = touch now key s
call (clean_up now) s = cleanup now s

pub call_all : List SessionCall → MemorySessionStore → MemorySessionStore
call_all [] s = s
call_all (c ∷ cs) s = call_all cs (call c s)

-- the calls that set something name a session by a key that is not empty
abbrev pub IsNamed : SessionCall → Type 0
IsNamed (set_dir now key dir) = str_eq key "" ≡ false
IsNamed (set_conversation now key id) = str_eq key "" ≡ false
IsNamed (delete_one key) = Unit
IsNamed (touch_one now key) = str_eq key "" ≡ false
IsNamed (clean_up now) = Unit

abbrev pub AllNamed : List SessionCall → Type 0
AllNamed [] = Unit
AllNamed (c ∷ cs) = IsNamed c × AllNamed cs

abbrev IsValid : ℕ → MemorySessionStore → Type 0
IsValid max_size s = (s.max_size ≡ max_size) × IsBounded access_time max_size s.sessions

module _ (key : String) (s : MemorySessionStore) where
  pub get_or_create_found :
      (sess : MemorySession)
      → lookup text_dec key s.sessions ≡ some sess
      → get_or_create key s ≡ (sess, s)
  unfolding get_or_create
  get_or_create_found sess h = rw (h, get_or_create) refl

  pub get_or_create_missing :
      lookup text_dec key s.sessions ≡ none
      → get_or_create key s ≡ (
        empty_session,
        record s {
          sessions =
              insert text_dec key empty_session (make_room access_time s.max_size s.sessions);
        },
      )
  unfolding get_or_create
  get_or_create_missing h = rw (h, get_or_create) refl

-- what `getOrCreate` leaves: the session stands in a store that is within the limit
pub record Created (max_size : ℕ) (key : String) (r : MemorySession × MemorySessionStore)
    : Type 0 where
  pub valid : IsValid max_size r.1
  pub present : lookup text_dec key r.1.sessions ≡ some r.0

get_or_create-Created :
    (max_size : ℕ) (key : String) (s : MemorySessionStore)
    → str_eq key "" ≡ false
    → IsValid max_size s
    → Created max_size key (get_or_create key s)
get_or_create-Created max_size key s far v = elim (Option-cases (lookup text_dec key s.sessions)) [
  | inl e ↦
      let room = make_room access_time s.max_size s.sessions in
      let bounded =
        insert-make_room-IsBounded access_time max_size key empty_session s.sessions far v.1 in
      rw (get_or_create_missing key s e) (record {
        valid = (v.0, rw v.0 bounded);
        present = lookup-insert_self text_dec key empty_session room;
      })
  | inr (sess, e) ↦ rw (get_or_create_found key s sess e) (record { valid = v; present = e })
]

write_session-IsValid :
    (max_size : ℕ) (key : String) (sess old : MemorySession) (s : MemorySessionStore)
    → str_eq key "" ≡ false
    → lookup text_dec key s.sessions ≡ some old
    → IsValid max_size s
    → IsValid max_size (write_session key sess s)
unfolding write_session
write_session-IsValid max_size key sess old s far found v =
    (v.0, insert_present-IsBounded access_time max_size key sess old s.sessions far found v.1)

module _ (now ttl : ℕ) where
  cleanup-Named :
      (m : List (String × MemorySession))
      → Named access_time m
      → Named access_time (cleanup_loop now ttl m)
  unfolding cleanup_loop
  cleanup-Named [] n = n
  cleanup-Named ((k, v) ∷ m) n = ground (arith, cleanup-Named m n.1, n.0)

  cleanup-absent :
      (key : String) (m : List (String × MemorySession))
      → lookup text_dec key m ≡ none
      → lookup text_dec key (cleanup_loop now ttl m) ≡ none
  unfolding cleanup_loop lookup
  cleanup-absent key [] h = h
  cleanup-absent key ((k, v) ∷ m) h = ground (arith, cleanup-absent key m)

  cleanup-Distinct :
      (m : List (String × MemorySession))
      → Distinct text_dec m
      → Distinct text_dec (cleanup_loop now ttl m)
  unfolding cleanup_loop
  cleanup-Distinct [] d = d
  cleanup-Distinct ((k, v) ∷ m) d = ground (arith, cleanup-Distinct m d.1, cleanup-absent k m d.0)

  length-cleanup-le :
      (m : List (String × MemorySession)) → length (cleanup_loop now ttl m) ≤ length m
  unfolding cleanup_loop
  length-cleanup-le [] = omega arith
  length-cleanup-le ((k, v) ∷ m) = ground (arith, length-cleanup-le m)

call-IsValid :
    (max_size : ℕ) (c : SessionCall) (s : MemorySessionStore)
    → IsNamed c
    → IsValid max_size s
    → IsValid max_size (call c s)
unfolding call set_workdir set_conv_id delete_session touch cleanup
call-IsValid max_size (set_dir now key dir) s far v =
    let made = get_or_create-Created max_size key s far v in
    write_session-IsValid max_size key _ _ (get_or_create key s).1 far made.present made.valid
call-IsValid max_size (set_conversation now key id) s far v =
    let made = get_or_create-Created max_size key s far v in
    write_session-IsValid max_size key _ _ (get_or_create key s).1 far made.present made.valid
call-IsValid max_size (delete_one key) s far v =
    (v.0, delete-IsBounded access_time max_size key s.sessions v.1)
call-IsValid max_size (touch_one now key) s far v =
    elim (Option-cases (lookup text_dec key s.sessions)) [
      | inl e ↦ rw (e, touch) v
      | inr (sess, e) ↦ rw (e, touch) (write_session-IsValid max_size key _ sess s far e v)
    ]
call-IsValid max_size (clean_up now) s far v = (
  v.0,
  record {
    named = cleanup-Named now s.ttl s.sessions v.1.named;
    distinct = cleanup-Distinct now s.ttl s.sessions v.1.distinct;
    bounded = λ h. omega (arith, v.1.bounded h, length-cleanup-le now s.ttl s.sessions);
  },
)

call_all-IsValid :
    (max_size : ℕ) (cs : List SessionCall) (s : MemorySessionStore)
    → AllNamed cs
    → IsValid max_size s
    → IsValid max_size (call_all cs s)
unfolding call_all
call_all-IsValid max_size [] s named v = v
call_all-IsValid max_size (c ∷ cs) s named v =
    call_all-IsValid max_size cs (call c s) named.1 (call-IsValid max_size c s named.0 v)

new-IsValid : (ttl max_size : ℕ) → IsValid max_size (new_memory_session_store ttl max_size)
unfolding new_memory_session_store
new-IsValid ttl max_size = (refl, record { named = tt; distinct = tt; bounded = λ lt. omega arith })

-- From a new store with a limit, every sequence of calls that sets sessions under keys that are
-- not empty leads to a store within the limit.
pub call_all_bounded :
    (ttl max_size : ℕ) (cs : List SessionCall)
    → 0 < max_size
    → AllNamed cs
    → length (call_all cs (new_memory_session_store ttl max_size)).sessions ≤ max_size
call_all_bounded ttl max_size cs h named =
    (call_all-IsValid max_size cs (new_memory_session_store ttl max_size) named
        (new-IsValid ttl max_size)).1.bounded
      h
