-- ===== src/Adapter/OpenAi/Scan.antt =====
-- What the search for markers makes of a JSON string (internal/adapter/openai_sse.go): it takes no
-- part of the string for a marker, and it finds the end of the string.
use inf_api.Common.{
  ℕ, zero, suc, ◌+◌, ◌*◌, ◌≡◌, ◌≢◌, refl, sym, Bool, true, false, not, ◌&&◌, Option, none, some, [],
  ◌∷◌, ◌++◌, ◌==◌, arith, Bool-cases, Option-cases, inl, inr, All,
}
use inf_api.Common.Text.{Text, has_prefix, contains}
use inf_api.Handler.Frame.Reader.{Reading, in_text, in_escape, in_digits, read, unquote, hex_value}
use inf_api.Adapter.OpenAi.{behind_marker, scan_string, quoted_string, skip_blank}

abbrev is_escaped : Reading → Bool
is_escaped in_text = false
is_escaped in_escape = true
is_escaped (in_digits n v) = false

-- What the reader does with a byte of a string: it is the end, or it goes on.
data Step (c : ℕ) (s : Text) (r : Reading) : Type 0 where
  ends : c ≡ 34 → s ≡ [] → is_escaped r ≡ false → Step c s r
  goes :
      (next : Reading) (value : Text)
      → read s next ≡ some value
      → is_escaped next ≡ (not (is_escaped r) && c == 92)
      → (c ≡ 34 → is_escaped r ≡ true)
      → Step c s r

goes_text :
    (c : ℕ) (s : Text) (r : Reading)
    → read s in_text ≢ none
    → (not (is_escaped r) && c == 92) ≡ false
    → (c ≡ 34 → is_escaped r ≡ true)
    → Step c s r
goes_text c s r some_value next quote = elim (Option-cases (read s in_text)) [
  | inl missing ↦ absurd (some_value missing)
  | inr (v, found) ↦ goes in_text v found (sym next) quote
]

read-Step : (c : ℕ) (s v : Text) (r : Reading) → read (c ∷ s) r ≡ some v → Step c s r
unfolding read
read-Step c s v in_text h = elim (Bool-cases (c == 34)) [
  | inl quote ↦ ends (ground (arith, quote)) (ground (arith, quote, h)) refl
  | inr other ↦ elim (Bool-cases (c == 92)) [
    | inl slash ↦
        goes in_escape v (ground (arith, other, slash, h)) (ground (arith, slash))
          (λ e. ground (arith, e, other))
    | inr plain ↦
        goes_text c s in_text (λ missing. ground (arith, h, missing, other, plain)) plain
          (λ e. ground (arith, e, other))
  ]
]
read-Step c s v in_escape h = elim (Bool-cases (c == 117)) [
  | inl hex ↦ goes (in_digits 3 0) v (ground (arith, hex, h)) refl (λ e. refl)
  | inr other ↦
      goes_text c s in_escape (λ missing. ground (arith, h, missing, other)) refl (λ e. refl)
]
read-Step c s v (in_digits zero n) h =
    goes_text c s (in_digits zero n) (λ missing. ground (arith, h, missing)) (ground (arith, h))
      (λ e. ground (arith, e, h))
read-Step c s v (in_digits (suc k) n) h =
    goes (in_digits k (16 * n + hex_value c)) v (ground (arith, h)) (ground (arith, h))
      (λ e. ground (arith, e, h))

read_nothing : (r : Reading) {v : Text} → read [] r ≢ some v
unfolding read
read_nothing r h = ground (arith, h)

scan_byte :
    (c : ℕ) (t s : Text) (next now : Bool)
    → next ≡ (not now && c == 92)
    → (c ≡ 34 → now ≡ true)
    → scan_string t next ≡ some s
    → scan_string (c ∷ t) now ≡ some (c ∷ s)
unfolding scan_string
scan_byte c t s false true after quote tail = rw tail refl
scan_byte c t s true true after quote tail = cc
scan_byte c t s next false after quote tail = ground (arith, after, quote, tail)

-- The scan ends where the string does.
scan_string-read :
    (s rest v : Text) (r : Reading)
    → read s r ≡ some v
    → scan_string (s ++ rest) (is_escaped r) ≡ some s
unfolding scan_string
scan_string-read [] rest v r h = absurd (read_nothing r h)
scan_string-read (c ∷ s) rest v r h = elim (read-Step c s v r h) [
  | ends quote last bare ↦ rw (bare, quote, last) refl
  | goes next w found after quote ↦
      let tail = scan_string-read s rest w next found in
      scan_byte c (s ++ rest) s (is_escaped next) (is_escaped r) after quote tail
]

-- the bytes of a marker between its quotes
abbrev pub IsWord : Text → Type 0
IsWord w = All (λ c. (c ≢ 34) × (c ≢ 92)) w

abbrev pub is_word : Text → Bool
is_word [] = true
is_word (c ∷ w) = not (c == 34) && (not (c == 92) && is_word w)

pub is_word-IsWord : (w : Text) → is_word w ≡ true → IsWord w
is_word-IsWord [] h = tt
is_word-IsWord (c ∷ w) h =
    ((ground (arith, h), ground (arith, h)), is_word-IsWord w (ground (arith, h)))

-- No part of a string that is not behind a backslash is a marker, which has a colon behind its
-- second quote, where the string does not have one behind its end.
no_marker :
    (s w rest m v : Text) (e : ℕ) (r : Reading)
    → read s r ≡ some v
    → is_escaped r ≡ false
    → IsWord w
    → e ≢ 58
    → has_prefix (s ++ (e ∷ rest)) (w ++ (34 ∷ 58 ∷ m)) ≡ false
unfolding has_prefix
no_marker [] w rest m v e r h bare word colon = absurd (read_nothing r h)
no_marker (c ∷ s) [] rest m v e r h bare word colon = elim (read-Step c s v r h) [
  | ends quote last _ ↦ rw last (ground (arith, colon))
  | goes next u found after quote ↦ ground (arith, quote, bare)
]
no_marker (c ∷ s) (d ∷ w) rest m v e r h bare word colon = elim (read-Step c s v r h) [
  | ends quote last _ ↦ ground (arith, quote, word.0.0)
  | goes next u found after quote ↦ elim (Bool-cases (c == d)) [
    | inl same ↦
        let still : is_escaped next ≡ false = ground (arith, same, word.0.1, after) in
        ground (arith, no_marker s w rest m u e next found still word.1 colon)
    | inr other ↦ ground (arith, other)
  ]
]

-- A marker is not found in what has no quote.
pub behind_marker-unquoted :
    (n rest m : Text)
    → All (λ c. c ≢ 34) n
    → behind_marker (n ++ rest) (34 ∷ m) ≡ behind_marker rest (34 ∷ m)
unfolding behind_marker has_prefix
behind_marker-unquoted [] rest m h = refl
behind_marker-unquoted (c ∷ n) rest m h = ground (arith, h.0, behind_marker-unquoted n rest m h.1)

abbrev pub is_found : Option Text → Bool
is_found none = false
is_found (some t) = true

pub contains_iff :
    (payload marker : Text) → contains payload marker ≡ is_found (behind_marker payload marker)
unfolding contains behind_marker
contains_iff [] marker = ground arith
contains_iff (c ∷ payload) marker = ground (arith, contains_iff payload marker)

module _ (d : ℕ) (w m : Text) (word : IsWord (d ∷ w)) where
  abbrev pub marker_of : Text
  marker_of = 34 ∷ d ∷ (w ++ (34 ∷ 58 ∷ m))

  behind_marker-read :
      (s rest v : Text) (e : ℕ) (r : Reading)
      → read s r ≡ some v
      → e ≢ 58
      → e ≢ d
      → behind_marker (s ++ (e ∷ rest)) marker_of ≡ behind_marker (e ∷ rest) marker_of
  unfolding behind_marker has_prefix
  behind_marker-read [] rest v e r h colon other = absurd (read_nothing r h)
  behind_marker-read (c ∷ s) rest v e r h colon other = elim (read-Step c s v r h) [
    | ends quote last _ ↦ rw last (ground (arith, other))
    | goes next u found after quote ↦
        let tail = behind_marker-read s rest u e next found colon other in
        elim (Bool-cases (c == 34)) [
          | inl is_quote ↦
              let bare : is_escaped next ≡ false = ground (arith, after, quote, is_quote) in
              ground (arith, tail, no_marker s (d ∷ w) rest m u e next found bare word colon)
          | inr plain ↦ ground (arith, tail, plain)
        ]
  ]

  -- A marker is not found in a string, where what is behind the string does not go on with a colon
  -- or the marker's first letter.
  pub behind_marker-quoted :
      (q rest v : Text) (e : ℕ)
      → unquote q ≡ some v
      → e ≢ 58
      → e ≢ d
      → behind_marker (q ++ (e ∷ rest)) marker_of ≡ behind_marker (e ∷ rest) marker_of
  unfolding behind_marker has_prefix unquote
  behind_marker-quoted [] rest v e h colon other = cc
  behind_marker-quoted (c ∷ s) rest v e h colon other =
      let start : c ≡ 34 = ground (arith, h) in
      let found : read s in_text ≡ some v = ground (arith, h) in
      ground (
        arith,
        start,
        behind_marker-read s rest v e in_text found colon other,
        no_marker s (d ∷ w) rest m v e in_text found refl word colon,
      )

-- The string that stands at the beginning is taken out as it is.
pub quoted_string-unquote :
    (q rest v : Text) → unquote q ≡ some v → quoted_string (skip_blank (q ++ rest)) ≡ some q
unfolding quoted_string skip_blank unquote
quoted_string-unquote [] rest v h = cc
quoted_string-unquote (c ∷ s) rest v h =
    let start : c ≡ 34 = ground (arith, h) in
    let found : read s in_text ≡ some v = ground (arith, h) in
    ground (arith, start, scan_string-read s rest v in_text found)
