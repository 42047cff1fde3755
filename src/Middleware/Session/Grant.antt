-- ===== src/Middleware/Session/Grant.antt =====
-- Which requests the authentication lets through (internal/middleware/session.go,
-- internal/auth/auth.go).
use inf_api.Common.{
  ℕ, ◌≤◌, ◌≡◌, ◌≢◌, ◌⊎◌, ◌↔◌, inl, inr, refl, sym, true, false, Option, none, some, List, [], ◌∷◌,
  ◌++◌, arith, Option-cases, is_empty_iff,
}
use inf_api.Common.Map.{lookup}
use inf_api.Common.Text.{key_dec, Text, trim_space, text_eq_iff}
use inf_api.Middleware.Session.{
  SessionStore, HttpRequest, pass_on, validate_session_token, check_cookie, header_matches,
  query_loop, basic_matches, session_auth, bearer_prefix, bearer_token, public_key_auth,
}

-- what a request presents that may equal a secret
abbrev pub Presents : HttpRequest → Text → Type 0
Presents r secret =
    (r.authorization ≡ bearer_prefix ++ secret)
    ⊎ (r.authorization ≡ secret)
    ⊎ (r.admin_token_header ≡ secret)
    ⊎ (trim_space r.app_key ≡ secret)
    ⊎ (trim_space r.public_key ≡ secret)

-- the request carries a session token that the store holds and that has not expired
abbrev pub HasSession : ℕ → SessionStore → HttpRequest → Type 0
HasSession now m r =
    (token : Text) × (at : ℕ) × (r.cookie ≡ some token)
    × (lookup key_dec token m ≡ some at)
    × (now ≤ at)

validate_iff :
    (now : ℕ) (token : Text) (m : SessionStore)
    → ((validate_session_token now token m).0 ≡ true)
      ↔ ((at : ℕ) × (lookup key_dec token m ≡ some at) × (now ≤ at))
unfolding validate_session_token
validate_iff now token m = elim (Option-cases (lookup key_dec token m)) [
  | inl e ↦ rw e ((λ h. cc), λ (at, h, le). cc)
  | inr (expiry, e) ↦ ground (arith, e)
]

no_cookie : (now : ℕ) (m : SessionStore) → (check_cookie now none m).0 ≡ false
unfolding check_cookie
no_cookie now m = refl

one_cookie :
    (now : ℕ) (token : Text) (m : SessionStore)
    → check_cookie now (some token) m ≡ validate_session_token now token m
unfolding check_cookie
one_cookie now token m = refl

check_cookie_iff :
    (now : ℕ) (r : HttpRequest) (m : SessionStore)
    → ((check_cookie now r.cookie m).0 ≡ true) ↔ HasSession now m r
check_cookie_iff now r m = elim (Option-cases r.cookie) [
  | inl e ↦
      (λ h. absurd (cc (h, e, no_cookie now m)), λ (other, at, h, found, le). absurd (cc (h, e)))
  | inr (token, e) ↦ (
    λ h.
        let (at, found, le) =
          (validate_iff now token m).0 (rw (sym (one_cookie now token m), sym e) h) in
        (token, at, e, found, le),
    λ (other, at, h, found, le).
        rw (h, one_cookie now other m) ((validate_iff now other m).1 (at, found, le)),
  )
]

headers_iff :
    (r : HttpRequest) (secret : Text)
    → (header_matches r secret ≡ true) ↔ (
        (secret ≢ [])
        × ((r.authorization ≡ bearer_prefix ++ secret)
            ⊎ (r.authorization ≡ secret)
            ⊎ (r.admin_token_header ≡ secret)))
unfolding header_matches
headers_iff r secret = ground (
  arith,
  text_eq_iff r.authorization (bearer_prefix ++ secret),
  text_eq_iff r.authorization secret,
  text_eq_iff r.admin_token_header secret,
  is_empty_iff secret,
)

query_one_iff :
    (key token pass : Text) (keys : List Text)
    → (query_loop (key ∷ keys) token pass ≡ true) ↔ (
        ((key ≢ []) × (key ≡ token))
        ⊎ ((key ≢ []) × (key ≡ pass))
        ⊎ (query_loop keys token pass ≡ true))
unfolding query_loop
query_one_iff key token pass keys = ground (
  arith,
  text_eq_iff key token,
  text_eq_iff key pass,
  is_empty_iff key,
  is_empty_iff token,
  is_empty_iff pass,
)

query_none : (token pass : Text) → query_loop [] token pass ≡ false
unfolding query_loop
query_none token pass = refl

basic_iff : (o : Option Text) (pass : Text) → (basic_matches o pass ≡ true) ↔ (o ≡ some pass)
unfolding basic_matches
basic_iff none pass = ((λ h. cc), λ h. cc)
basic_iff (some p) pass = ground (arith, text_eq_iff p pass)

module _ (now : ℕ) (token pass : Text) (r : HttpRequest) (m : SessionStore) where
  tests_iff : ((session_auth now pass token r m).0 ≡ pass_on) ↔ (
      ((check_cookie now r.cookie m).0 ≡ true)
      ⊎ (header_matches r token ≡ true)
      ⊎ (header_matches r pass ≡ true)
      ⊎ (query_loop (trim_space r.app_key ∷ trim_space r.public_key ∷ []) token pass ≡ true)
      ⊎ (basic_matches r.basic_password pass ≡ true))
  unfolding session_auth
  tests_iff = ground arith

  query_iff :
      (query_loop (trim_space r.app_key ∷ trim_space r.public_key ∷ []) token pass ≡ true) ↔ (
        ((trim_space r.app_key ≢ [])
          × ((trim_space r.app_key ≡ token) ⊎ (trim_space r.app_key ≡ pass)))
        ⊎ ((trim_space r.public_key ≢ [])
            × ((trim_space r.public_key ≡ token) ⊎ (trim_space r.public_key ≡ pass))))
  query_iff = ground (
    arith,
    query_one_iff (trim_space r.app_key) token pass (trim_space r.public_key ∷ []),
    query_one_iff (trim_space r.public_key) token pass [],
    query_none token pass,
  )

  -- one of the comparisons with the secrets succeeds
  abbrev Matches : Type 0
  Matches =
      (header_matches r token ≡ true)
      ⊎ (header_matches r pass ≡ true)
      ⊎ (query_loop (trim_space r.app_key ∷ trim_space r.public_key ∷ []) token pass ≡ true)

  abbrev Accepted : Type 0
  Accepted =
      (secret : Text) × (secret ≢ []) × ((secret ≡ token) ⊎ (secret ≡ pass)) × Presents r secret

  from_headers :
      (secret : Text)
      → (secret ≡ token) ⊎ (secret ≡ pass)
      → header_matches r secret ≡ true
      → Accepted
  from_headers secret which h =
      let (ne, which_header) = (headers_iff r secret).0 h in
      (secret, ne, which, ground (arith, which_header))

  matches-Accepted : Matches → Accepted
  matches-Accepted (inl h) = from_headers token (inl refl) h
  matches-Accepted (inr (inl h)) = from_headers pass (inr refl) h
  matches-Accepted (inr (inr h)) = elim (query_iff.0 h) [
    | inl (ne, which) ↦ (trim_space r.app_key, ne, which, inr (inr (inr (inl refl))))
    | inr (ne, which) ↦ (trim_space r.public_key, ne, which, inr (inr (inr (inr refl))))
  ]

  to_headers :
      (secret : Text)
      → (secret ≡ token) ⊎ (secret ≡ pass)
      → header_matches r secret ≡ true
      → Matches
  to_headers secret (inl e) h = inl (rw (sym e) h)
  to_headers secret (inr e) h = inr (inl (rw (sym e) h))

  accepted-Matches :
      (secret : Text)
      → secret ≢ []
      → (secret ≡ token) ⊎ (secret ≡ pass)
      → Presents r secret
      → Matches
  accepted-Matches secret ne which (inl e) =
      to_headers secret which ((headers_iff r secret).1 (ne, inl e))
  accepted-Matches secret ne which (inr (inl e)) =
      to_headers secret which ((headers_iff r secret).1 (ne, inr (inl e)))
  accepted-Matches secret ne which (inr (inr (inl e))) =
      to_headers secret which ((headers_iff r secret).1 (ne, inr (inr e)))
  accepted-Matches secret ne which (inr (inr (inr (inl e)))) =
      inr (inr (query_iff.1 (inl (rw e (ne, which)))))
  accepted-Matches secret ne which (inr (inr (inr (inr e)))) =
      inr (inr (query_iff.1 (inr (rw e (ne, which)))))

  -- The admin's handlers run exactly for a request that has a live session, or presents an admin
  -- secret that is not empty, or whose basic password is the admin password, empty or not.
  pub session_auth_iff : ((session_auth now pass token r m).0 ≡ pass_on) ↔ (
      HasSession now m r
      ⊎ ((secret : Text) × (secret ≢ []) × ((secret ≡ token) ⊎ (secret ≡ pass)) × Presents r secret)
      ⊎ (r.basic_password ≡ some pass))
  session_auth_iff = (
    λ h. elim (tests_iff.0 h) [
      | inl c ↦ inl ((check_cookie_iff now r m).0 c)
      | inr (inl c) ↦ inr (inl (matches-Accepted (inl c)))
      | inr (inr (inl c)) ↦ inr (inl (matches-Accepted (inr (inl c))))
      | inr (inr (inr (inl c))) ↦ inr (inl (matches-Accepted (inr (inr c))))
      | inr (inr (inr (inr c))) ↦ inr (inr ((basic_iff r.basic_password pass).0 c))
    ],
    λ h. tests_iff.1 (elim h [
      | inl c ↦ inl ((check_cookie_iff now r m).1 c)
      | inr (inl (secret, ne, which, p)) ↦ from_matches (accepted-Matches secret ne which p)
      | inr (inr c) ↦ inr (inr (inr (inr ((basic_iff r.basic_password pass).1 c))))
    ]),
  )
    where
      from_matches :
          Matches
          → ((check_cookie now r.cookie m).0 ≡ true)
            ⊎ (header_matches r token ≡ true)
            ⊎ (header_matches r pass ≡ true)
            ⊎ (query_loop (trim_space r.app_key ∷ trim_space r.public_key ∷ []) token pass ≡ true)
            ⊎ (basic_matches r.basic_password pass ≡ true)
      from_matches (inl c) = inr (inl c)
      from_matches (inr (inl c)) = inr (inr (inl c))
      from_matches (inr (inr c)) = inr (inr (inr (inl c)))

-- The public handlers run exactly where no key is set, or the bearer token of the request is the
-- key.
public_key_auth_iff :
    (public_key : Text) (r : HttpRequest)
    → (public_key_auth public_key r ≡ pass_on)
      ↔ ((trim_space public_key ≡ []) ⊎ (bearer_token r ≡ trim_space public_key))
unfolding public_key_auth
public_key_auth_iff public_key r = ground (
  arith,
  is_empty_iff (trim_space public_key),
  is_empty_iff (bearer_token r),
  text_eq_iff (bearer_token r) (trim_space public_key),
)
