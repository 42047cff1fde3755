-- ===== src/Tiktoken/Estimator.antt =====
-- The token estimator (internal/tiktoken/tokenizer.go). The float `tokens` only takes multiples of
-- one half, which floats hold exactly below 2^52: `halves` counts them. `utf8.DecodeRune` and
-- `range` over a string decode the same way; the decoder is a parameter, which gives the rune at
-- the front and the number of bytes behind its first one.
pub mod Streams
mod Tests
use inf_api.Common.{
  ℕ, zero, suc, drop, ◌+◌, ◌/◌, Bool, true, false, not, ◌&&◌, ◌||◌, List, [], ◌∷◌, leb, ltb, ◌==◌,
  is_empty, length, if◌then◌else◌,
}

pub record Estimator : Type 0 where
  pub halves : ℕ
  pub in_word : Bool
  pub has_text : Bool

abbrev pub new_estimator : Estimator
new_estimator = record { halves = 0; in_word = false; has_text = false }

-- `isASCIIWordRune`, `isASCIIWordByte`
unfoldable pub is_ascii_word : ℕ → Bool
is_ascii_word r = (leb 97 r && leb r 122) || (leb 65 r && leb r 90) || (leb 48 r && leb r 57)

-- the space, the tab and the line breaks
unfoldable pub is_blank : ℕ → Bool
is_blank r = r == 32 || (r == 9 || (r == 10 || r == 13))

-- one round of the loop of `Add`
unfoldable pub add_rune : ℕ → Estimator → Estimator
add_rune r e =
    if ltb r 128
    then if is_ascii_word r then record e { in_word = true } else record e {
      halves = e.halves + (if e.in_word then 2 else 0) + (if is_blank r then 0 else 2);
      in_word = false;
    }
    else record e { halves = e.halves + (if e.in_word then 2 else 0) + 3; in_word = false }

unfoldable pub add_runes : List ℕ → Estimator → Estimator
add_runes [] e = e
add_runes (r ∷ rs) e = add_runes rs (add_rune r e)

-- `Add`, of the runes of the text
unfoldable pub add : List ℕ → Estimator → Estimator
unfolding add_runes
add [] e = e
add (r ∷ rs) e = add_runes (r ∷ rs) (record e { has_text = true })

module _ (decode : ℕ → List ℕ → ℕ × ℕ) where
  -- `for _, r := range text`
  unfoldable pub runes : ℕ → List ℕ → List ℕ
  runes zero bs = []
  runes (suc fuel) [] = []
  runes (suc fuel) (b ∷ bs) = let (r, more) = decode b bs in r ∷ runes fuel (drop more bs)

  -- the loop of `AddBytes`
  unfoldable pub add_bytes_loop : ℕ → List ℕ → Estimator → Estimator
  add_bytes_loop zero bs e = e
  add_bytes_loop (suc fuel) [] e = e
  add_bytes_loop (suc fuel) (b ∷ bs) e =
      if ltb b 128
      then add_bytes_loop fuel bs (
          if is_ascii_word b then record e { in_word = true } else record e {
            halves = e.halves + (if e.in_word then 2 else 0) + (if is_blank b then 0 else 2);
            in_word = false;
          })
      else add_bytes_loop fuel (drop (decode b bs).1 bs)
          (record e { halves = e.halves + (if e.in_word then 2 else 0) + 3; in_word = false })

  -- `AddBytes`
  unfoldable pub add_bytes : List ℕ → Estimator → Estimator
  add_bytes [] e = e
  add_bytes (b ∷ bs) e = add_bytes_loop (length (b ∷ bs)) (b ∷ bs) (record e { has_text = true })

-- `Count`: `math.Round` rounds a half up
unfoldable pub count : Estimator → ℕ
count e = (e.halves + (if e.in_word then 2 else 0) + 1) / 2

-- `Reset`
unfoldable pub reset : Estimator → Estimator
reset e = record { halves = 0; in_word = false; has_text = false }

-- `EstimateTextTokens`, of the runes of the text
unfoldable pub estimate_text_tokens : List ℕ → ℕ
unfolding add count
estimate_text_tokens [] = 0
estimate_text_tokens (r ∷ rs) = count (add (r ∷ rs) new_estimator)
