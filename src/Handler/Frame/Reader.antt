-- ===== src/Handler/Frame/Reader.antt =====
-- A reader of JSON strings, and what it reads from the strings that are written
-- (internal/handler/sse_frame.go).
use inf_api.Common.{
  ℕ, zero, suc, ◌+◌, ◌-◌, ◌*◌, ◌/◌, ◌%◌, ◌≡◌, Bool, true, false, ◌||◌, ◌&&◌, Option, none, some, [],
  ◌∷◌, ◌++◌, ltb, leb, ◌==◌, if◌then◌else◌, is_empty, arith,
}
use inf_api.Common.Text.{Text}
use inf_api.Handler.Frame.{is_plain, json_hex_digit, escape_byte, escape_separator, is_separator}

-- what a reader is in: the text, an escape, or the digits of one
pub data Reading : Type 0 where
  in_text : Reading
  in_escape : Reading
  in_digits : ℕ → ℕ → Reading

-- the digits of an escape, as they are written
abbrev pub is_hex : ℕ → Bool
is_hex c = (leb 48 c && leb c 57) || (leb 97 c && leb c 102)

abbrev pub hex_value : ℕ → ℕ
hex_value c = if leb 97 c then c - 87 else c - 48

-- the bytes of a rune below 2^16
abbrev pub encode_rune : ℕ → Text
encode_rune r =
    if ltb r 128
    then r ∷ []
    else if ltb r 2048
    then (192 + r / 64) ∷ (128 + r % 64) ∷ []
    else (224 + r / 4096) ∷ (128 + r / 64 % 64) ∷ (128 + r % 64) ∷ []

abbrev pub short_escape : ℕ → Option ℕ
short_escape c =
    if c == 92 || (c == 34 || c == 47)
    then some c
    else if c == 98
    then some 8
    else if c == 102
    then some 12
    else if c == 110
    then some 10
    else if c == 114
    then some 13
    else if c == 116
    then some 9
    else none

abbrev pub prepend : Text → Option Text → Option Text
prepend s none = none
prepend s (some t) = some (s ++ t)

-- the value of a string behind its first quote
unfoldable pub read : Text → Reading → Option Text
read [] r = none
read (c ∷ s) in_text =
    let rest = read s in
    if c == 34
    then (if is_empty s then some [] else none)
    else if c == 92
    then rest in_escape
    else if ltb c 32
    then none
    else prepend (c ∷ []) (rest in_text)
read (c ∷ s) in_escape =
    let rest = read s in
    if c == 117
    then rest (in_digits 3 0)
    else elim (short_escape c) [ none ↦ none | some b ↦ prepend (b ∷ []) (rest in_text) ]
read (c ∷ s) (in_digits zero v) =
    let rest = read s in_text in
    if is_hex c then prepend (encode_rune (16 * v + hex_value c)) rest else none
read (c ∷ s) (in_digits (suc n) v) =
    let rest = read s (in_digits n (16 * v + hex_value c)) in if is_hex c then rest else none

-- the value of a JSON string
unfoldable pub unquote : Text → Option Text
unfolding read
unquote [] = none
unquote (c ∷ s) = if c == 34 then read s in_text else none

pub read_plain :
    (b : ℕ) (s : Text)
    → is_plain b ≡ true
    → read (b ∷ s) in_text ≡ prepend (b ∷ []) (read s in_text)
unfolding read is_plain
read_plain b s h = ground (arith, h)

pub read_high :
    (b : ℕ) (s : Text)
    → ltb b 128 ≡ false
    → read (b ∷ s) in_text ≡ prepend (b ∷ []) (read s in_text)
unfolding read
read_high b s h = ground (arith, h)

pub read-escape_byte :
    (b : ℕ) (s : Text)
    → ltb b 128 ≡ true
    → is_plain b ≡ false
    → read (escape_byte b ++ s) in_text ≡ prepend (b ∷ []) (read s in_text)
unfolding read is_plain escape_byte json_hex_digit
read-escape_byte b s low h = ground (arith, low, h)

pub read-escape_separator :
    (d : ℕ × ℕ) (s : Text)
    → is_separator d ≡ true
    → read (escape_separator d ++ s) in_text
      ≡ prepend (226 ∷ 128 ∷ (if d.0 == 8232 then 168 else 169) ∷ []) (read s in_text)
unfolding read escape_separator
read-escape_separator d s h = ground (arith, h)
