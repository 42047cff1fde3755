-- ===== src/Handler/Frame/Tests.antt =====
-- Runs of the JSON strings (internal/handler/sse_frame.go), with a decoder that knows one
-- separator.
use inf_api.Common.{
  ℕ, ◌≡◌, refl, true, false, ◌&&◌, none, some, List, [], ◌∷◌, ◌++◌, ltb, ◌==◌, if◌then◌else◌, arith,
  drop,
}
use inf_api.Common.Text.{Text, bytes}
use inf_api.Handler.Frame.{append_json_bytes, is_malformed, is_separator}
use inf_api.Handler.Frame.Reader.{unquote}
use inf_api.Handler.Frame.Strings.{IsUtf8, High, well_formed, append_json_bytes-unquote}

abbrev demo_decode : ℕ → List ℕ → ℕ × ℕ
demo_decode b [] = if ltb b 128 then (b, 0) else (65533, 0)
demo_decode b (c ∷ []) = if ltb b 128 then (b, 0) else (65533, 0)
demo_decode b (c ∷ d ∷ bs) =
    if b == 226 && (c == 128 && d == 168)
    then (8232, 2)
    else if ltb b 128
    then (b, 0)
    else (65533, 0)

demo-wide :
    (b : ℕ) (bs : List ℕ)
    → ltb b 128 ≡ false
    → is_malformed (demo_decode b bs) ≡ false
    → High (demo_decode b bs).1 bs
demo-wide b [] h m = ground (arith, h, m)
demo-wide b (c ∷ []) h m = ground (arith, h, m)
demo-wide b (c ∷ d ∷ bs) h m = ground (arith, h, m)

demo-separator :
    (b : ℕ) (bs : List ℕ)
    → is_separator (demo_decode b bs) ≡ true
    → b ∷ bs
      ≡ 226
        ∷ 128
        ∷ (if (demo_decode b bs).0 == 8232 then 168 else 169)
        ∷ drop (demo_decode b bs).1 bs
demo-separator b [] h = ground (arith, h)
demo-separator b (c ∷ []) h = ground (arith, h)
demo-separator b (c ∷ d ∷ bs) h = ground (arith, h)

demo-IsUtf8 : IsUtf8 demo_decode
demo-IsUtf8 = record { wide = demo-wide; separator = demo-separator }

abbrev odd_text : Text
odd_text = bytes "say \"x<y\"" ++ 10 ∷ 7 ∷ 226 ∷ 128 ∷ 168 ∷ 122 ∷ []

append_json_bytes-unquote_example :
    (q : Text) × (append_json_bytes demo_decode (λ t. none) (bytes "{") odd_text
      ≡ some (bytes "{" ++ q))
    × (unquote q ≡ some odd_text)
unfolding well_formed
append_json_bytes-unquote_example =
    append_json_bytes-unquote demo_decode (λ t. none) (bytes "{") odd_text demo-IsUtf8 refl
