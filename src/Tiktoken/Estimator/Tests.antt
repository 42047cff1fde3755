-- ===== src/Tiktoken/Estimator/Tests.antt =====
-- Runs of the token estimator (internal/tiktoken/tokenizer.go).
use inf_api.Common.{ℕ, ◌≡◌, refl, List, [], ◌∷◌, ◌++◌, if◌then◌else◌, ltb, arith}
use inf_api.Common.Text.{bytes}
use inf_api.Tiktoken.Estimator.{
  new_estimator, add, add_bytes, runes, estimate_text_tokens, add_rune, is_ascii_word, is_blank,
}
use inf_api.Tiktoken.Estimator.Streams.{IsDecoder, add_bytes_lem}

-- every wide rune read as one of three bytes
abbrev three_bytes : ℕ → List ℕ → ℕ × ℕ
three_bytes b bs = if ltb b 128 then (b, 0) else (20013, 2)

three_bytes-IsDecoder : IsDecoder three_bytes
three_bytes-IsDecoder = record {
  ascii = λ b bs h. rw (h, ltb) refl;
  wide = λ b bs h. ground (arith, h);
}

abbrev mixed : List ℕ
mixed = bytes "hi " ++ (228 ∷ 184 ∷ 173 ∷ [])

add_bytes_lem_example :
    add_bytes three_bytes mixed new_estimator ≡ add (runes three_bytes 8 mixed) new_estimator
add_bytes_lem_example =
    add_bytes_lem three_bytes 8 mixed new_estimator three_bytes-IsDecoder (omega arith)

four_tokens : estimate_text_tokens (bytes "hello, world!") ≡ 4
unfolding estimate_text_tokens add_rune is_ascii_word is_blank
four_tokens = refl
