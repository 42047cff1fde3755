-- ===== src/Errors/Classify/Wrapped.antt =====
-- What an error's text keeps when further text is put around it, as `fmt.Errorf` does
-- (internal/errors/classify.go).
use inf_api.Common.{
  ◌≡◌, ◌⊎◌, ◌↔◌, inl, inr, refl, ap, ◌∙◌, true, false, List, [], ◌∷◌, ◌++◌, is_empty, arith,
  Bool-cases,
}
use inf_api.Common.Text.{Text, bytes, trim_space, to_lower, lower_byte, has_prefix, contains}
use inf_api.Errors.Classify.{
  contains_any, status_patterns, has_explicit_http_status, mentions, not_found_phrases, phrases_401,
  account_status, classify_account_status,
}

has_prefix-append : (s q t : Text) → has_prefix s t ≡ true → has_prefix (s ++ q) t ≡ true
unfolding has_prefix
has_prefix-append s q [] h = refl
has_prefix-append [] q (b ∷ t) h = cc
has_prefix-append (a ∷ s) q (b ∷ t) h = ground (arith, has_prefix-append s q t)

contains_nothing : (s : Text) → contains s [] ≡ true
unfolding contains has_prefix
contains_nothing [] = refl
contains_nothing (a ∷ s) = refl

contains-append : (s q t : Text) → contains s t ≡ true → contains (s ++ q) t ≡ true
unfolding contains
contains-append [] q [] h = contains_nothing q
contains-append [] q (b ∷ t) h = absurd (unfold has_prefix in cc (h))
contains-append (a ∷ s) q t h = ground (arith, contains-append s q t, has_prefix-append (a ∷ s) q t)

contains-wrap : (p s q t : Text) → contains s t ≡ true → contains (p ++ s ++ q) t ≡ true
unfolding contains
contains-wrap [] s q t h = contains-append s q t h
contains-wrap (a ∷ p) s q t h = ground (arith, contains-wrap p s q t h)

contains_any-wrap :
    (p s q : Text) (ts : List Text)
    → contains_any s ts ≡ true
    → contains_any (p ++ s ++ q) ts ≡ true
unfolding contains_any
contains_any-wrap p s q [] h = h
contains_any-wrap p s q (t ∷ ts) h =
    ground (arith, contains-wrap p s q t, contains_any-wrap p s q ts)

is_empty-wrap : (p s q : Text) → is_empty s ≡ false → is_empty (p ++ s ++ q) ≡ false
is_empty-wrap [] [] q h = cc
is_empty-wrap [] (a ∷ s) q h = refl
is_empty-wrap (b ∷ p) s q h = refl

has_explicit-wrap :
    (p s q code : Text)
    → has_explicit_http_status s code ≡ true
    → has_explicit_http_status (p ++ s ++ q) code ≡ true
unfolding has_explicit_http_status
has_explicit-wrap p s q code h =
    ground
      (arith, h, is_empty-wrap p s q, contains_any-wrap p s q (status_patterns (trim_space code)))

mentions-wrap :
    (p s q : Text) (codes phrases : List Text)
    → mentions s codes phrases ≡ true
    → mentions (p ++ s ++ q) codes phrases ≡ true
unfolding mentions
mentions-wrap p s q [] phrases h = contains_any-wrap p s q phrases h
mentions-wrap p s q (code ∷ codes) phrases h =
    ground (arith, has_explicit-wrap p s q code, mentions-wrap p s q codes phrases)

to_lower-append : (s t : Text) → to_lower (s ++ t) ≡ to_lower s ++ to_lower t
unfolding to_lower lower_byte
to_lower-append [] t = refl
to_lower-append (c ∷ s) t = rw (to_lower-append s t) refl

to_lower-wrap : (p s q : Text) → to_lower (p ++ s ++ q) ≡ to_lower p ++ to_lower s ++ to_lower q
to_lower-wrap p s q = to_lower-append (p ++ s) q ∙ ap (λ r. r ++ to_lower q) (to_lower-append p s)

status_401_iff :
    (lower : Text)
    → (account_status lower ≡ bytes "401") ↔ (
        (contains_any lower not_found_phrases ≡ false)
        × (mentions lower (bytes "401" ∷ []) phrases_401 ≡ true))
unfolding account_status
status_401_iff lower = ground arith

status_not_found :
    (lower : Text) → contains_any lower not_found_phrases ≡ true → account_status lower ≡ []
unfolding account_status
status_not_found lower h = rw h refl

lower_wrapped :
    (p lower q : Text)
    → account_status lower ≡ bytes "401"
    → (account_status (p ++ lower ++ q) ≡ bytes "401")
      ⊎ ((contains_any (p ++ lower ++ q) not_found_phrases ≡ true)
          × (account_status (p ++ lower ++ q) ≡ []))
lower_wrapped p lower q h = elim (Bool-cases (contains_any (p ++ lower ++ q) not_found_phrases)) [
  | inl e ↦ inr (e, status_not_found (p ++ lower ++ q) e)
  | inr e ↦
      let found = ((status_401_iff lower).0 h).1 in
      inl (
        (status_401_iff (p ++ lower ++ q)).1
          (e, mentions-wrap p lower q (bytes "401" ∷ []) phrases_401 found))
]

-- An error that means status 401 keeps that status whatever text is put around it, unless the
-- whole then names a model that was not found, and it has no status.
pub classify-wrap :
    (p err q : Text)
    → classify_account_status err ≡ bytes "401"
    → (classify_account_status (p ++ err ++ q) ≡ bytes "401")
      ⊎ ((contains_any (to_lower (p ++ err ++ q)) not_found_phrases ≡ true)
          × (classify_account_status (p ++ err ++ q) ≡ []))
unfolding classify_account_status
classify-wrap p err q h =
    rw (to_lower-wrap p err q) (lower_wrapped (to_lower p) (to_lower err) (to_lower q) h)
