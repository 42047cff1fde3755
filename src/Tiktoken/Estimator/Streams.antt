-- ===== src/Tiktoken/Estimator/Streams.antt =====
-- Texts that arrive in pieces, and as bytes (internal/tiktoken/tokenizer.go).
use inf_api.Common.{
  ℕ, zero, suc, ◌+◌, ◌*◌, ◌/◌, ◌≤◌, ◌≡◌, refl, sym, Bool-cases, inl, inr, ap, ◌∙◌, true, false,
  List, [], ◌∷◌, ◌++◌, length, drop, arith, ltb, if◌then◌else◌,
}
use inf_api.Tiktoken.Estimator.{
  Estimator, new_estimator, add_rune, add_runes, add, runes, add_bytes_loop, add_bytes, count,
  estimate_text_tokens,
}

add_runes-append :
    (s t : List ℕ) (e : Estimator) → add_runes (s ++ t) e ≡ add_runes t (add_runes s e)
unfolding add_runes
add_runes-append [] t e = refl
add_runes-append (r ∷ s) t e = add_runes-append s t (add_rune r e)

-- one rune leaves the flag `hasText`
add_rune-has_text : (r : ℕ) (e : Estimator) → (add_rune r e).has_text ≡ e.has_text
unfolding add_rune
add_rune-has_text r e = ground arith

add_runes-has_text : (s : List ℕ) (e : Estimator) → (add_runes s e).has_text ≡ e.has_text
unfolding add_runes
add_runes-has_text [] e = refl
add_runes-has_text (r ∷ s) e = add_runes-has_text s (add_rune r e) ∙ add_rune-has_text r e

flag_again : (e : Estimator) → e.has_text ≡ true → record e { has_text = true } ≡ e
flag_again e h = rw (sym h) refl

-- Adding two texts one after the other is adding them as one.
add-append : (s t : List ℕ) (e : Estimator) → add t (add s e) ≡ add (s ++ t) e
unfolding add
add-append [] t e = refl
add-append (r ∷ s) [] e = sym (add_runes-append s [] (add_rune r (record e { has_text = true })))
add-append (r ∷ s) (q ∷ t) e =
    let f : Estimator = record e { has_text = true } in
    ap (add_runes (q ∷ t)) (
      flag_again (add_runes (r ∷ s) f)
        (add_runes-has_text s (add_rune r f) ∙ add_rune-has_text r f))
    ∙ sym (add_runes-append (r ∷ s) (q ∷ t) f)

-- the halves never exceeds one and a half per rune
halves-le :
    (s : List ℕ) (e : Estimator)
    → let out = add_runes s e in
      out.halves + (if out.in_word then 2 else 0)
      ≤ e.halves + (if e.in_word then 2 else 0) + 3 * length s
unfolding add_runes add_rune
halves-le [] e = omega arith
halves-le (r ∷ s) e = ground (arith, halves-le s (add_rune r e))

half-le : (a n : ℕ) → a ≤ 3 * n → (a + 1) / 2 ≤ (3 * n + 1) / 2
half-le a n h = omega (arith, h)

module _ (decode : ℕ → List ℕ → ℕ × ℕ) where
  -- What the documentation of `utf8.DecodeRune` says: a byte below 128 is its own rune and has
  -- size 1, and what starts with another byte is a rune from 128 on.
  pub record IsDecoder : Type 0 where
    pub ascii : (b : ℕ) (bs : List ℕ) → ltb b 128 ≡ true → decode b bs ≡ (b, 0)
    pub wide : (b : ℕ) (bs : List ℕ) → ltb b 128 ≡ false → ltb (decode b bs).0 128 ≡ false

  runes_ascii :
      (n b : ℕ) (bs : List ℕ)
      → IsDecoder
      → ltb b 128 ≡ true
      → runes decode (suc n) (b ∷ bs) ≡ b ∷ runes decode n bs
  unfolding runes
  runes_ascii n b bs d h = rw (d.ascii b bs h) refl

  loop_ascii :
      (n b : ℕ) (bs : List ℕ) (e : Estimator)
      → ltb b 128 ≡ true
      → add_bytes_loop decode (suc n) (b ∷ bs) e ≡ add_bytes_loop decode n bs (add_rune b e)
  unfolding add_bytes_loop add_rune
  loop_ascii n b bs e h = ground (arith, h)

  loop_wide :
      (n b r : ℕ) (bs : List ℕ) (e : Estimator)
      → ltb b 128 ≡ false
      → ltb r 128 ≡ false
      → add_bytes_loop decode (suc n) (b ∷ bs) e
        ≡ add_bytes_loop decode n (drop (decode b bs).1 bs) (add_rune r e)
  unfolding add_bytes_loop add_rune
  loop_wide n b r bs e h k = ground (arith, h, k)

  loop-runes :
      (n : ℕ) (bs : List ℕ) (e : Estimator)
      → IsDecoder
      → add_bytes_loop decode n bs e ≡ add_runes (runes decode n bs) e
  unfolding add_runes runes
  loop-runes zero bs e d = unfold add_bytes_loop in refl
  loop-runes (suc n) [] e d = unfold add_bytes_loop in refl
  loop-runes (suc n) (b ∷ bs) e d = elim (Bool-cases (ltb b 128)) [
    | inl h ↦
        loop_ascii n b bs e h
        ∙ loop-runes n bs (add_rune b e) d
        ∙ ap (λ rs. add_runes rs e) (sym (runes_ascii n b bs d h))
    | inr h ↦
        let rest = drop (decode b bs).1 bs in
        loop_wide n b (decode b bs).0 bs e h (d.wide b bs h)
        ∙ loop-runes n rest (add_rune (decode b bs).0 e) d
  ]

  length-drop : (n : ℕ) (bs : List ℕ) → length (drop n bs) ≤ length bs
  length-drop zero bs = omega arith
  length-drop (suc n) [] = omega arith
  length-drop (suc n) (b ∷ bs) = omega (arith, length-drop n bs)

  runes_enough :
      (n k : ℕ) (bs : List ℕ)
      → length bs ≤ n
      → length bs ≤ k
      → runes decode n bs ≡ runes decode k bs
  unfolding runes
  runes_enough zero zero bs h l = refl
  runes_enough zero (suc k) [] h l = refl
  runes_enough (suc n) zero [] h l = refl
  runes_enough (suc n) (suc k) [] h l = refl
  runes_enough zero (suc k) (b ∷ bs) h l = absurd (omega (arith, h))
  runes_enough (suc n) zero (b ∷ bs) h l = absurd (omega (arith, l))
  runes_enough (suc n) (suc k) (b ∷ bs) h l =
      let shorter = length-drop (decode b bs).1 bs in
      ap (λ rest. (decode b bs).0 ∷ rest)
        (runes_enough n k (drop (decode b bs).1 bs) (omega (arith, h, shorter))
          (omega (arith, l, shorter)))

  add_bytes-runes :
      (bs : List ℕ) (e : Estimator)
      → IsDecoder
      → add_bytes decode bs e ≡ add (runes decode (length bs) bs) e
  unfolding add_bytes add
  add_bytes-runes [] e d = unfold runes in refl
  add_bytes-runes (b ∷ bs) e d =
      loop-runes (length (b ∷ bs)) (b ∷ bs) (record e { has_text = true }) d
      ∙ (unfold runes in refl)

  -- With a decoder of UTF-8, AddBytes of the bytes leaves the estimator that Add of their runes
  -- leaves, with as many steps of decoding as there are bytes or more.
  pub add_bytes_lem :
      (n : ℕ) (bs : List ℕ) (e : Estimator)
      → IsDecoder
      → length bs ≤ n
      → add_bytes decode bs e ≡ add (runes decode n bs) e
  add_bytes_lem n bs e d h =
      add_bytes-runes bs e d ∙ ap (λ rs. add rs e) (runes_enough (length bs) n bs (omega arith) h)

-- The estimate of a text is at most one and a half per rune, a half rounded up.
estimate-le : (s : List ℕ) → estimate_text_tokens s ≤ (3 * length s + 1) / 2
unfolding estimate_text_tokens add count
estimate-le [] = omega arith
estimate-le (r ∷ s) =
    let bound = halves-le (r ∷ s) (record new_estimator { has_text = true }) in
    half-le _ (length (r ∷ s)) (omega (arith, bound))
