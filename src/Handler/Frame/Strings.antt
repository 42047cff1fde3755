-- ===== src/Handler/Frame/Strings.antt =====
-- The JSON strings that the frames of a response hold (internal/handler/sse_frame.go) are read back
-- as they were.
use inf_api.Common.{
  ℕ, zero, suc, ◌≡◌, refl, sym, ap, ◌∙◌, Bool, true, false, Option, some, List, [], ◌∷◌, ◌++◌, ltb,
  ◌==◌, if◌then◌else◌, arith, by_test, Bool-cases, inl, inr, drop, append_assoc,
}
use inf_api.Common.Text.{Text}
use inf_api.Handler.Frame.{
  is_plain, escape_byte, escape_separator, is_separator, is_malformed, can_append_loop,
  can_append_json_raw_string, append_loop, append_json_bytes,
}
use inf_api.Handler.Frame.Reader.{
  in_text, read, prepend, unquote, read_plain, read_high, read-escape_byte, read-escape_separator,
}

-- so many bytes come first that are not below 128
abbrev pub High : ℕ → List ℕ → Type 0
High zero bs = Unit
High (suc k) [] = ⊥
High (suc k) (b ∷ bs) = (ltb b 128 ≡ false) × High k bs

module _ (decode : ℕ → List ℕ → ℕ × ℕ) where
  -- What the documentation of UTF-8 says of a decoder: a rune that is not a byte below 128 is
  -- made of bytes that are not below 128, and the two separators have the encodings that they
  -- have.
  pub record IsUtf8 : Type 0 where
    pub wide :
        (b : ℕ) (bs : List ℕ)
        → ltb b 128 ≡ false
        → is_malformed (decode b bs) ≡ false
        → High (decode b bs).1 bs
    pub separator :
        (b : ℕ) (bs : List ℕ)
        → is_separator (decode b bs) ≡ true
        → b ∷ bs
          ≡ 226 ∷ 128 ∷ (if (decode b bs).0 == 8232 then 168 else 169) ∷ drop (decode b bs).1 bs

  -- no part of a text is malformed
  unfoldable pub well_formed : List ℕ → ℕ → Bool
  well_formed [] skip = true
  well_formed (b ∷ bs) (suc k) = well_formed bs k
  well_formed (b ∷ bs) zero =
      let rest = well_formed bs in
      let d = decode b bs in
      if ltb b 128 then rest 0 else if is_malformed d then false else rest d.1

  -- what the loop writes behind the text and the segment is read as the bytes that remain
  record Reads (dst seg : Text) (value : List ℕ) (o : Option Text) : Type 0 where
    body : Text
    written : o ≡ some (dst ++ (seg ++ body))
    reads : read body in_text ≡ some value

  abbrev left : Bool → ℕ → List ℕ → List ℕ
  left true k bs = bs
  left false k bs = drop k bs

  left_zero : (keep : Bool) (bs : List ℕ) → left keep 0 bs ≡ bs
  left_zero true bs = refl
  left_zero false bs = refl

  left_empty : (keep : Bool) (k : ℕ) → left keep k [] ≡ []
  left_empty true k = refl
  left_empty false zero = refl
  left_empty false (suc k) = refl

  read_end : read (34 ∷ []) in_text ≡ some []
  unfolding read
  read_end = refl

  Reads-byte :
      (b : ℕ) (dst seg : Text) (bs : List ℕ) (o : Option Text)
      → ((s : Text) → read (b ∷ s) in_text ≡ prepend (b ∷ []) (read s in_text))
      → Reads dst (seg ++ b ∷ []) bs o
      → Reads dst seg (b ∷ bs) o
  Reads-byte b dst seg bs o one r = record {
    body = b ∷ r.body;
    written = r.written ∙ ap (λ t. some (dst ++ t)) (append_assoc seg (b ∷ []) r.body);
    reads = one r.body ∙ ap (prepend (b ∷ [])) r.reads;
  }

  Reads-escape :
      (esc chars dst seg : Text) (bs : List ℕ) (o : Option Text)
      → ((s : Text) → read (esc ++ s) in_text ≡ prepend chars (read s in_text))
      → Reads (dst ++ (seg ++ esc)) [] bs o
      → Reads dst seg (chars ++ bs) o
  Reads-escape esc chars dst seg bs o many r = record {
    body = esc ++ r.body;
    written =
        r.written
        ∙ ap some (
            append_assoc dst (seg ++ esc) r.body
            ∙ ap (λ t. dst ++ t) (append_assoc seg esc r.body));
    reads = many r.body ∙ ap (prepend chars) r.reads;
  }

  module _ (utf8 : IsUtf8) where
    append_loop-Reads :
        (bs : List ℕ) (keep : Bool) (skip : ℕ) (dst seg : Text)
        → High skip bs
        → well_formed bs skip ≡ true
        → Reads dst seg (left keep skip bs) (append_loop decode bs keep skip dst seg)
    unfolding append_loop well_formed
    append_loop-Reads [] keep skip dst seg high ok = record {
      body = 34 ∷ [];
      written = refl;
      reads = read_end ∙ ap some (sym (left_empty keep skip));
    }
    append_loop-Reads (b ∷ bs) true (suc k) dst seg high ok =
        Reads-byte b dst seg bs _ (λ s. read_high b s high.0)
          (append_loop-Reads bs true k dst (seg ++ b ∷ []) high.1 ok)
    append_loop-Reads (b ∷ bs) false (suc k) dst seg high ok =
        append_loop-Reads bs false k dst seg high.1 ok
    append_loop-Reads (b ∷ bs) keep zero dst seg high ok =
        let d = decode b bs in
        rw (left_zero keep (b ∷ bs)) (
          by_test (Reads dst seg (b ∷ bs)) (ltb b 128) _ _
            (λ low.
              let ok' : well_formed bs 0 ≡ true = ground (arith, ok, low) in
              by_test (Reads dst seg (b ∷ bs)) (is_plain b) _ _
                (λ plain.
                  Reads-byte b dst seg bs _ (λ s. read_plain b s plain)
                    (append_loop-Reads bs true 0 dst (seg ++ b ∷ []) tt ok'))
                (λ odd.
                  Reads-escape (escape_byte b) (b ∷ []) dst seg bs _
                    (λ s. read-escape_byte b s low odd)
                    (append_loop-Reads bs true 0 (dst ++ (seg ++ escape_byte b)) [] tt ok')))
            (λ high_byte.
              by_test (Reads dst seg (b ∷ bs)) (is_malformed d) _ _
                (λ bad. let never : false ≡ true = ground (arith, ok, high_byte, bad) in cc)
                (λ fine.
                  let ok' : well_formed bs d.1 ≡ true = ground (arith, ok, high_byte, fine) in
                  let tail = utf8.wide b bs high_byte fine in
                  by_test (Reads dst seg (b ∷ bs)) (is_separator d) _ _
                    (λ sep. rw (utf8.separator b bs sep) (
                      Reads-escape (escape_separator d)
                        (226 ∷ 128 ∷ (if d.0 == 8232 then 168 else 169) ∷ []) dst seg (drop d.1 bs)
                        _ (λ s. read-escape_separator d s sep)
                        (append_loop-Reads bs false d.1 (dst ++ (seg ++ escape_separator d)) [] tail
                          ok')))
                    (λ other.
                      Reads-byte b dst seg bs _ (λ s. read_high b s high_byte)
                        (append_loop-Reads bs true d.1 dst (seg ++ b ∷ []) tail ok')))))

    -- a value that is written as it stands
    read_raw :
        (bs : List ℕ) (skip : ℕ)
        → High skip bs
        → well_formed bs skip ≡ true
        → can_append_loop decode bs skip ≡ true
        → read (bs ++ 34 ∷ []) in_text ≡ some bs
    unfolding can_append_loop well_formed
    read_raw [] skip high ok raw = read_end
    read_raw (b ∷ bs) (suc k) high ok raw =
        read_high b (bs ++ 34 ∷ []) high.0 ∙ ap (prepend (b ∷ [])) (read_raw bs k high.1 ok raw)
    read_raw (b ∷ bs) zero high ok raw =
        let d = decode b bs in
        elim (Bool-cases (ltb b 128)) [
          | inl low ↦
              let plain : is_plain b ≡ true = ground (arith, raw, low) in
              let rest =
                read_raw bs 0 tt (ground (arith, ok, low)) (ground (arith, raw, low, plain)) in
              read_plain b (bs ++ 34 ∷ []) plain ∙ ap (prepend (b ∷ [])) rest
          | inr wide ↦
              let fine : is_malformed d ≡ false = ground (arith, ok, wide) in
              let rest =
                read_raw bs d.1 (utf8.wide b bs wide fine) (ground (arith, ok, wide, fine))
                  (ground (arith, raw, wide, fine)) in
              read_high b (bs ++ 34 ∷ []) wide ∙ ap (prepend (b ∷ [])) rest
        ]

-- The string that appendJSONBytes appends for a well-formed text is read back as that text,
-- whichever of its bytes are escaped, and json.Marshal is not needed for it.
pub append_json_bytes-unquote :
    (decode : ℕ → List ℕ → ℕ × ℕ) (marshal : Text → Option Text) (dst value : Text)
    → IsUtf8 decode
    → well_formed decode value 0 ≡ true
    → (q : Text) × (append_json_bytes decode marshal dst value ≡ some (dst ++ q))
      × (unquote q ≡ some value)
unfolding append_json_bytes can_append_json_raw_string unquote
append_json_bytes-unquote decode marshal dst value utf8 ok =
    let r = append_loop-Reads decode utf8 value true 0 (dst ++ 34 ∷ []) [] tt ok in
    elim (Bool-cases (can_append_loop decode value 0)) [
      | inl raw ↦ (34 ∷ (value ++ 34 ∷ []), rw raw refl, read_raw decode utf8 value 0 tt ok raw)
      | inr odd ↦
          (34 ∷ r.body, rw (odd, r.written) (ap some (append_assoc dst (34 ∷ []) r.body)), r.reads)
    ]
