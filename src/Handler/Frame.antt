-- ===== src/Handler/Frame.antt =====
-- The JSON strings in the frames of a streamed response (internal/handler/sse_frame.go). Texts are
-- lists of bytes. `utf8.DecodeRune` is a parameter, which gives a rune and one less than its size,
-- and so is `json.Marshal`, which the code falls back to.
pub mod Payloads
pub mod Reader
pub mod Strings
mod Tests
use inf_api.Common.{
  ℕ, zero, suc, ◌+◌, ◌/◌, ◌%◌, Bool, true, false, not, ◌&&◌, ◌||◌, Option, none, some, List, [],
  ◌∷◌, ◌++◌, ltb, ◌==◌, if◌then◌else◌,
}
use inf_api.Common.Text.{Text, bytes}

-- the bytes below 128 that stand for themselves
unfoldable pub is_plain : ℕ → Bool
is_plain b =
    not (ltb b 32)
    && (not (b == 92) && (not (b == 34) && (not (b == 60) && (not (b == 62) && not (b == 38)))))

-- `jsonHexDigits[d]`
unfoldable pub json_hex_digit : ℕ → ℕ
json_hex_digit d = if ltb d 10 then d + 48 else d + 87

-- the bytes that stand for another byte below 128
unfoldable pub escape_byte : ℕ → Text
unfolding json_hex_digit
escape_byte b =
    if b == 92 || b == 34
    then 92 ∷ b ∷ []
    else if b == 8
    then 92 ∷ 98 ∷ []
    else if b == 12
    then 92 ∷ 102 ∷ []
    else if b == 10
    then 92 ∷ 110 ∷ []
    else if b == 13
    then 92 ∷ 114 ∷ []
    else if b == 9
    then 92 ∷ 116 ∷ []
    else 92 ∷ 117 ∷ 48 ∷ 48 ∷ json_hex_digit (b / 16) ∷ json_hex_digit (b % 16) ∷ []

-- `r == utf8.RuneError && size == 1`
abbrev pub is_malformed : ℕ × ℕ → Bool
is_malformed d = d.0 == 65533 && d.1 == 0

-- `\u2028` or `\u2029`
abbrev pub is_separator : ℕ × ℕ → Bool
is_separator d = d.0 == 8232 || d.0 == 8233

unfoldable pub escape_separator : ℕ × ℕ → Text
escape_separator d = 92 ∷ 117 ∷ 50 ∷ 48 ∷ 50 ∷ (if d.0 == 8232 then 56 else 57) ∷ []

module _ (decode : ℕ → List ℕ → ℕ × ℕ) where
  -- the loop of `canAppendJSONRawString`, with the bytes to skip
  unfoldable pub can_append_loop : List ℕ → ℕ → Bool
  unfolding is_plain
  can_append_loop [] skip = true
  can_append_loop (b ∷ bs) (suc k) = can_append_loop bs k
  can_append_loop (b ∷ bs) zero =
      let rest = can_append_loop bs in
      let d = decode b bs in
      if ltb b 128
      then (if is_plain b then rest 0 else false)
      else if is_malformed d
      then false
      else if is_separator d
      then false
      else rest d.1

  -- `canAppendJSONRawString`
  unfoldable pub can_append_json_raw_string : Text → Bool
  unfolding can_append_loop
  can_append_json_raw_string value = can_append_loop value 0

  -- The loop of `appendJSONBytes`: the bytes to skip, which stay in the segment or not, the text so
  -- far, and the segment of the value that is not written yet. It gives none for a malformed value.
  unfoldable pub append_loop : List ℕ → Bool → ℕ → Text → Text → Option Text
  unfolding is_plain escape_byte escape_separator
  append_loop [] keep skip dst seg = some (dst ++ (seg ++ 34 ∷ []))
  append_loop (b ∷ bs) keep (suc k) dst seg =
      append_loop bs keep k dst (if keep then seg ++ b ∷ [] else seg)
  append_loop (b ∷ bs) keep zero dst seg =
      let rest = append_loop bs in
      let d = decode b bs in
      if ltb b 128
      then (if is_plain b
          then rest true 0 dst (seg ++ b ∷ [])
          else rest true 0 (dst ++ (seg ++ escape_byte b)) [])
      else if is_malformed d
      then none
      else if is_separator d
      then rest false d.1 (dst ++ (seg ++ escape_separator d)) []
      else rest true d.1 dst (seg ++ b ∷ [])

  -- `appendJSONBytes`
  unfoldable pub append_json_bytes : (Text → Option Text) → Text → Text → Option Text
  unfolding can_append_json_raw_string append_loop
  append_json_bytes marshal dst value =
      let quoted : Option Text = elim (marshal value) [ none ↦ none | some q ↦ some (dst ++ q) ] in
      if can_append_json_raw_string value
      then some (dst ++ (34 ∷ (value ++ 34 ∷ [])))
      else elim (append_loop value true 0 (dst ++ 34 ∷ []) []) [
        | none ↦ quoted
        | some out ↦ some out
      ]
