-- ===== src/Adapter/OpenAi/Tests.antt =====
-- Runs of the chunks (internal/adapter/openai_sse.go), with a decoder that knows no rune but the
-- bytes below 128.
use inf_api.Common.{ℕ, ◌+◌, ◌%◌, ◌≡◌, refl, none, some, List, [], ◌∷◌, ◌++◌, ltb, if◌then◌else◌}
use inf_api.Common.Int.{pos}
use inf_api.Common.Text.{Text, bytes, contains, has_prefix, text_eq}
use inf_api.Handler.Frame.{
  append_json_bytes, can_append_json_raw_string, can_append_loop, append_loop, is_plain,
  escape_byte,
}
use inf_api.Handler.Frame.Payloads.{append_sse_content_block_delta_text}
use inf_api.Adapter.OpenAi.{
  append_open_ai_chunk_fast, fast_block_delta, extract_json_string_value_after, behind_marker,
  skip_blank, quoted_string, scan_string, append_open_ai_chunk_prefix, append_open_ai_json_string,
  is_plain_value,
}
use inf_api.Adapter.OpenAi.Carries.{SseEvent, delta_text, json_of}

abbrev ascii : ℕ → List ℕ → ℕ × ℕ
ascii b bs = if ltb b 128 then (b, 0) else (65533, 0)

-- the last digit
abbrev digit : ℕ → Text
digit n = (48 + n % 10) ∷ []

-- a text that looks like JSON
abbrev tricky : SseEvent
tricky = delta_text 1 (bytes "\",\"text\":\"no")

abbrev tricky_json : Text
tricky_json =
    bytes
      "{\"type\":\"content_block_delta\",\"index\":1,\"delta\":{\"type\":\"text_delta\",\"text\":"
    ++ bytes "\"\\\",\\\"text\\\":\\\"no\"}}"

tricky_written : json_of ascii (λ t. none) digit tricky ≡ some tricky_json
unfolding append_sse_content_block_delta_text append_json_bytes can_append_json_raw_string
    can_append_loop append_loop is_plain escape_byte
tricky_written = refl

tricky_chunk :
    append_open_ai_chunk_fast
      (λ t. none)
      digit
      []
      (bytes "m")
      7
      tricky_json
      (bytes "\"k\"")
      (pos 0)
      (bytes "content_block_delta")
    ≡ some (
        bytes "{\"id\":\"m\",\"object\":\"chat.completion.chunk\",\"created\":7,\"model\":\"k\","
        ++ bytes
            "\"choices\":[{\"index\":0,\"delta\":{\"content\":\"\\\",\\\"text\\\":\\\"no\"}}]}")
unfolding append_open_ai_chunk_fast fast_block_delta extract_json_string_value_after behind_marker
    skip_blank quoted_string scan_string append_open_ai_chunk_prefix append_open_ai_json_string
    is_plain_value contains has_prefix text_eq
tricky_chunk = refl
