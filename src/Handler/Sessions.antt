-- ===== src/Handler/Sessions.antt =====
-- The session store in memory (internal/handler/session_store.go). `time.Now()` is an argument. A
-- limit that is not positive is written 0. The sessions are shared by pointer, but only methods
-- that hold the lock read or write one, so they stand in the map by value.
pub mod Bounded
pub mod Fields
mod Tests
use text.Mathlib.Text.{◌==◌ as str_eq}
use inf_api.Common.{
  ℕ, String, Bool, true, false, Option, none, some, List, [], ◌∷◌, if◌then◌else◌, ltb, text_dec,
}
use inf_api.Common.Map.{lookup, insert, delete}
use inf_api.Common.Time.{sub_time}
use inf_api.Eviction.{make_room}

pub record MemorySession : Type 0 where
  pub workdir : String
  pub conv_id : String
  pub last_access : ℕ

pub record MemorySessionStore : Type 0 where
  pub sessions : List (String × MemorySession)
  pub ttl : ℕ
  pub max_size : ℕ

abbrev pub access_time : MemorySession → ℕ
access_time sess = sess.last_access

-- `NewMemorySessionStore`
pub new_memory_session_store : ℕ → ℕ → MemorySessionStore
new_memory_session_store ttl max_size = record { sessions = []; ttl = ttl; max_size = max_size }

abbrev pub empty_session : MemorySession
empty_session = record { workdir = ""; conv_id = ""; last_access = 0 }

-- `getOrCreate`
unfoldable pub get_or_create : String → MemorySessionStore → MemorySession × MemorySessionStore
unfolding make_room
get_or_create key s = elim (lookup text_dec key s.sessions) [
  | some sess ↦ (sess, s)
  | none ↦ (
    empty_session,
    record s {
      sessions = insert text_dec key empty_session (make_room access_time s.max_size s.sessions);
    },
  )
]

-- `GetWorkdir`
unfoldable pub get_workdir : String → MemorySessionStore → Option String
get_workdir key s = elim (lookup text_dec key s.sessions) [
  | none ↦ none
  | some sess ↦ if str_eq sess.workdir "" then none else some sess.workdir
]

-- `GetConvID`
unfoldable pub get_conv_id : String → MemorySessionStore → Option String
get_conv_id key s = elim (lookup text_dec key s.sessions) [
  | none ↦ none
  | some sess ↦ if str_eq sess.conv_id "" then none else some sess.conv_id
]

-- the session is written through its pointer
unfoldable pub write_session : String → MemorySession → MemorySessionStore → MemorySessionStore
write_session key sess s = record s { sessions = insert text_dec key sess s.sessions }

-- `SetWorkdir`
unfoldable pub set_workdir : ℕ → String → String → MemorySessionStore → MemorySessionStore
unfolding get_or_create write_session
set_workdir now key workdir s =
    let r = get_or_create key s in
    write_session key (record r.0 { workdir = workdir; last_access = now }) r.1

-- `SetConvID`
unfoldable pub set_conv_id : ℕ → String → String → MemorySessionStore → MemorySessionStore
unfolding get_or_create write_session
set_conv_id now key conv_id s =
    let r = get_or_create key s in
    write_session key (record r.0 { conv_id = conv_id; last_access = now }) r.1

-- `DeleteSession`
unfoldable pub delete_session : String → MemorySessionStore → MemorySessionStore
delete_session key s = record s { sessions = delete text_dec key s.sessions }

-- `Touch`
unfoldable pub touch : ℕ → String → MemorySessionStore → MemorySessionStore
unfolding write_session
touch now key s = elim (lookup text_dec key s.sessions) [
  | none ↦ s
  | some sess ↦ write_session key (record sess { last_access = now }) s
]

-- the loop of `Cleanup`
unfoldable pub cleanup_loop : ℕ → ℕ → List (String × MemorySession) → List (String × MemorySession)
cleanup_loop now ttl [] = []
cleanup_loop now ttl ((k, sess) ∷ m) =
    let rest = cleanup_loop now ttl m in
    if ltb ttl (sub_time now sess.last_access) then rest else (k, sess) ∷ rest

-- `Cleanup`
unfoldable pub cleanup : ℕ → MemorySessionStore → MemorySessionStore
unfolding cleanup_loop
cleanup now s = record s { sessions = cleanup_loop now s.ttl s.sessions }
