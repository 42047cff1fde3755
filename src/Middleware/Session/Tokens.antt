-- ===== src/Middleware/Session/Tokens.antt =====
-- The life of a session token while others come and go (internal/auth/auth.go).
use inf_api.Common.{
  ℕ, ◌+◌, ◌≤◌, ◌≡◌, ◌≢◌, ◌<◌, ◌⊎◌, Option-cases, refl, sym, ◌∙◌, true, some, List, [], ◌∷◌, arith,
  ltb, Bool-cases, inl, inr,
}
use inf_api.Common.Map.{lookup, delete, lookup-insert_self, lookup-insert_ne, lookup-delete_ne}
use inf_api.Common.Text.{Text, key_dec}
use inf_api.Middleware.Session.{
  SessionStore, validate_session_token, cleanup_expired_sessions, generate_session_token,
  invalidate_session_token, encode_hex, session_ttl,
}

-- what is done with the global store, in the order of the locks; `logged_in` draws random bytes
pub data AuthEvent : Type 0 where
  logged_in : ℕ → List ℕ → AuthEvent
  checked : ℕ → Text → AuthEvent
  logged_out : Text → AuthEvent
  cleaned : ℕ → AuthEvent

pub react : AuthEvent → SessionStore → SessionStore
react (logged_in now bs) m = (generate_session_token now (some bs) m).1
react (checked now token) m = (validate_session_token now token m).1
react (logged_out token) m = invalidate_session_token token m
react (cleaned now) m = cleanup_expired_sessions now m

pub react_all : List AuthEvent → SessionStore → SessionStore
react_all [] m = m
react_all (e ∷ es) m = react_all es (react e m)

-- the event neither draws this token again nor logs it out, and is not later than an instant
abbrev pub Spares : Text → ℕ → AuthEvent → Type 0
Spares token until (logged_in now bs) = encode_hex bs ≢ token
Spares token until (checked now t) = now ≤ until
Spares token until (logged_out t) = t ≢ token
Spares token until (cleaned now) = now ≤ until

abbrev pub AllSpare : Text → ℕ → List AuthEvent → Type 0
AllSpare token until [] = Unit
AllSpare token until (e ∷ es) = Spares token until e × AllSpare token until es

cleanup_keeps :
    (now : ℕ) (token : Text) (expiry : ℕ) (m : SessionStore)
    → now ≤ expiry
    → lookup key_dec token m ≡ some expiry
    → lookup key_dec token (cleanup_expired_sessions now m) ≡ some expiry
unfolding lookup cleanup_expired_sessions
cleanup_keeps now token expiry [] le h = h
cleanup_keeps now token expiry ((t, at) ∷ m) le h = ground (arith, cleanup_keeps now token expiry m)

validate_state :
    (now : ℕ) (t : Text) (m : SessionStore)
    → ((validate_session_token now t m).1 ≡ m)
      ⊎ ((e : ℕ) × (lookup key_dec t m ≡ some e)
          × (e < now)
          × ((validate_session_token now t m).1 ≡ delete key_dec t m))
unfolding validate_session_token
validate_state now t m = elim (Option-cases (lookup key_dec t m)) [
  | inl h ↦ inl (rw (h, validate_session_token) refl)
  | inr (e, h) ↦ elim (Bool-cases (ltb e now)) [
    | inl old ↦ inr (e, h, ground (arith, old), ground (arith, h, old))
    | inr new ↦ inl (ground (arith, h, new))
  ]
]

validate_keeps :
    (now : ℕ) (t token : Text) (expiry : ℕ) (m : SessionStore)
    → now ≤ expiry
    → lookup key_dec token m ≡ some expiry
    → lookup key_dec token (validate_session_token now t m).1 ≡ some expiry
validate_keeps now t token expiry m le h = elim (validate_state now t m) [
  | inl same ↦ rw same h
  | inr (e, found, old, gone) ↦
      let other : token ≢ t = λ p. ground (arith, p, found, h, old, le) in
      rw gone (lookup-delete_ne key_dec token t m other ∙ h)
]

react_keeps :
    (ev : AuthEvent) (token : Text) (expiry until : ℕ) (m : SessionStore)
    → until ≤ expiry
    → Spares token until ev
    → lookup key_dec token m ≡ some expiry
    → lookup key_dec token (react ev m) ≡ some expiry
unfolding react generate_session_token invalidate_session_token
react_keeps (logged_in now bs) token expiry until m le spares h =
    lookup-insert_ne key_dec token (encode_hex bs) _ m (λ e. spares (sym e)) ∙ h
react_keeps (checked now t) token expiry until m le spares h =
    validate_keeps now t token expiry m (omega (arith, le, spares)) h
react_keeps (logged_out t) token expiry until m le spares h =
    lookup-delete_ne key_dec token t m (λ e. spares (sym e)) ∙ h
react_keeps (cleaned now) token expiry until m le spares h =
    cleanup_keeps now token expiry m (omega (arith, le, spares)) h

react_all_keeps :
    (es : List AuthEvent) (token : Text) (expiry until : ℕ) (m : SessionStore)
    → until ≤ expiry
    → AllSpare token until es
    → lookup key_dec token m ≡ some expiry
    → lookup key_dec token (react_all es m) ≡ some expiry
unfolding react_all
react_all_keeps [] token expiry until m le spares h = h
react_all_keeps (e ∷ es) token expiry until m le spares h =
    react_all_keeps es token expiry until (react e m) le spares.1
      (react_keeps e token expiry until m le spares.0 h)

valid_while :
    (now : ℕ) (token : Text) (expiry : ℕ) (m : SessionStore)
    → now ≤ expiry
    → lookup key_dec token m ≡ some expiry
    → (validate_session_token now token m).0 ≡ true
unfolding validate_session_token
valid_while now token expiry m le h = ground (arith, h)

-- A token that was drawn stays valid for its time to live: until then it validates after all
-- log-ins, checks, log-outs and clean-ups that neither draw it again nor log it out, if the checks
-- and clean-ups among them are not later.
pub token_stays_valid :
    (now later : ℕ) (bs : List ℕ) (es : List AuthEvent) (m : SessionStore)
    → later ≤ now + session_ttl
    → AllSpare (encode_hex bs) later es
    → (validate_session_token later
        (encode_hex bs)
        (react_all es (generate_session_token now (some bs) m).1)).0
      ≡ true
unfolding generate_session_token
token_stays_valid now later bs es m le spares =
    valid_while later (encode_hex bs) (now + session_ttl) _ le (
      react_all_keeps es (encode_hex bs) (now + session_ttl) later _ le spares
        (lookup-insert_self key_dec (encode_hex bs) (now + session_ttl) m))
