-- ===== src/Handler/Sessions/Fields.antt =====
-- The two fields of a session in the store (internal/handler/session_store.go).
use text.Mathlib.Text.{◌==◌ as str_eq}
use inf_api.Common.{
  ℕ, ◌≡◌, refl, sym, ◌∙◌, String, false, Option, none, some, text_dec, Option-cases, inl, inr, ap,
  if◌then◌else◌,
}
use inf_api.Common.Map.{lookup, lookup-insert_self}
use inf_api.Handler.Sessions.{
  MemorySession, MemorySessionStore, get_or_create, set_workdir, write_session, get_workdir,
  get_conv_id,
}
use inf_api.Handler.Sessions.Bounded.{get_or_create_found, get_or_create_missing}

-- what the session under a key says of a conversation
conv_of : Option MemorySession → Option String
conv_of none = none
conv_of (some sess) = if str_eq sess.conv_id "" then none else some sess.conv_id

dir_of : Option MemorySession → Option String
dir_of none = none
dir_of (some sess) = if str_eq sess.workdir "" then none else some sess.workdir

get_conv_id-conv_of :
    (key : String) (s : MemorySessionStore)
    → get_conv_id key s ≡ conv_of (lookup text_dec key s.sessions)
unfolding get_conv_id conv_of
get_conv_id-conv_of key s = elim (Option-cases (lookup text_dec key s.sessions)) [
  | inl e ↦ rw (e, get_conv_id) refl
  | inr (sess, e) ↦ rw (e, get_conv_id) refl
]

get_workdir-dir_of :
    (key : String) (s : MemorySessionStore)
    → get_workdir key s ≡ dir_of (lookup text_dec key s.sessions)
unfolding get_workdir dir_of
get_workdir-dir_of key s = elim (Option-cases (lookup text_dec key s.sessions)) [
  | inl e ↦ rw (e, get_workdir) refl
  | inr (sess, e) ↦ rw (e, get_workdir) refl
]

lookup-set_workdir :
    (now : ℕ) (key dir : String) (s : MemorySessionStore)
    → lookup text_dec key (set_workdir now key dir s).sessions
      ≡ some (record (get_or_create key s).0 { workdir = dir; last_access = now })
unfolding set_workdir write_session
lookup-set_workdir now key dir s =
    lookup-insert_self text_dec key _ (get_or_create key s).1.sessions

created-conv_of :
    (key : String) (s : MemorySessionStore)
    → conv_of (some (get_or_create key s).0) ≡ conv_of (lookup text_dec key s.sessions)
created-conv_of key s = elim (Option-cases (lookup text_dec key s.sessions)) [
  | inl e ↦ rw (get_or_create_missing key s e, e) (unfold conv_of in refl)
  | inr (sess, e) ↦ rw (get_or_create_found key s sess e, e) refl
]

conv_of_written :
    (sess : MemorySession) (dir : String) (now : ℕ)
    → conv_of (some (record sess { workdir = dir; last_access = now })) ≡ conv_of (some sess)
unfolding conv_of
conv_of_written sess dir now = refl

dir_of_written :
    (sess : MemorySession) (dir : String) (now : ℕ)
    → str_eq dir "" ≡ false
    → dir_of (some (record sess { workdir = dir; last_access = now })) ≡ some dir
unfolding dir_of
dir_of_written sess dir now h = rw h refl

-- SetWorkdir with a directory that is not empty makes GetWorkdir return it and leaves what
-- GetConvID returns for the session, whether or not the session was there.
get-set_workdir :
    (now : ℕ) (key dir : String) (s : MemorySessionStore)
    → str_eq dir "" ≡ false
    → (get_workdir key (set_workdir now key dir s) ≡ some dir)
      × (get_conv_id key (set_workdir now key dir s) ≡ get_conv_id key s)
get-set_workdir now key dir s h =
    let after = set_workdir now key dir s in
    let found = lookup-set_workdir now key dir s in
    let sess = (get_or_create key s).0 in
    (
      get_workdir-dir_of key after ∙ ap dir_of found ∙ dir_of_written sess dir now h,
      get_conv_id-conv_of key after
          ∙ ap conv_of found
          ∙ conv_of_written sess dir now
          ∙ created-conv_of key s
          ∙ sym (get_conv_id-conv_of key s),
    )
