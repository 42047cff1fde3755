-- ===== src/Adapter/OpenAi/Fast.antt =====
-- What the fast path makes of the strings that it finds (internal/adapter/openai_sse.go).
use inf_api.Common.{ℕ, ◌≡◌, ◌∙◌, refl, ap, true, false, Option, none, some, ◌++◌, arith}
use inf_api.Common.Int.{ℤ}
use inf_api.Common.Text.{Text, bytes, contains}
use inf_api.Handler.Frame.Reader.{unquote}
use inf_api.Adapter.OpenAi.{
  behind_marker, extract_json_string_value_after, fast_block_delta, append_open_ai_chunk_text,
  append_open_ai_chunk_tool_args, append_open_ai_chunk_thinking, append_open_ai_chunk_tool_start,
  append_open_ai_chunk_message_start, fast_block_start, fast_text_start,
  append_open_ai_chunk_message_delta, fast_message_start, fast_message_delta,
  normalize_open_ai_stop_reason_quoted,
}
use inf_api.Adapter.OpenAi.Scan.{quoted_string-unquote, contains_iff, is_found}

pub extract_found :
    (payload marker q rest v : Text)
    → behind_marker payload marker ≡ some (q ++ rest)
    → unquote q ≡ some v
    → extract_json_string_value_after payload marker ≡ some q
unfolding extract_json_string_value_after
extract_found payload marker q rest v found string =
    ground (arith, found, quoted_string-unquote q rest v string)

pub contains_found :
    (payload marker rest : Text)
    → behind_marker payload marker ≡ some rest
    → contains payload marker ≡ true
contains_found payload marker rest found = contains_iff payload marker ∙ ap is_found found

pub contains_missing :
    (payload marker : Text) → behind_marker payload marker ≡ none → contains payload marker ≡ false
contains_missing payload marker missing = contains_iff payload marker ∙ ap is_found missing

module _ (marshal : Text → Option Text) (format_int : ℕ → Text) (dst msg_id : Text) (created : ℕ)
    (payload model : Text) (tool_index : ℤ) where
  pub fast_text :
      (q : Text)
      → contains payload (bytes "\"type\":\"text_delta\"") ≡ true
      → extract_json_string_value_after payload (bytes "\"text\":") ≡ some q
      → fast_block_delta marshal format_int dst msg_id created payload model tool_index
        ≡ append_open_ai_chunk_text marshal format_int dst msg_id created q model
  unfolding fast_block_delta
  fast_text q kind string = rw (kind, string) refl

  pub fast_tool_args :
      (q : Text)
      → contains payload (bytes "\"type\":\"text_delta\"") ≡ false
      → contains payload (bytes "\"type\":\"input_json_delta\"") ≡ true
      → extract_json_string_value_after payload (bytes "\"partial_json\":") ≡ some q
      → fast_block_delta marshal format_int dst msg_id created payload model tool_index
        ≡ append_open_ai_chunk_tool_args marshal format_int dst msg_id created q model tool_index
  unfolding fast_block_delta
  fast_tool_args q no_text kind string = rw (no_text, kind, string) refl

  pub fast_thinking :
      (q : Text)
      → contains payload (bytes "\"type\":\"text_delta\"") ≡ false
      → contains payload (bytes "\"type\":\"input_json_delta\"") ≡ false
      → contains payload (bytes "\"type\":\"thinking_delta\"") ≡ true
      → extract_json_string_value_after payload (bytes "\"thinking\":") ≡ some q
      → fast_block_delta marshal format_int dst msg_id created payload model tool_index
        ≡ append_open_ai_chunk_thinking marshal format_int dst msg_id created q model
  unfolding fast_block_delta
  fast_thinking q no_text no_json kind string = rw (no_text, no_json, kind, string) refl

  pub fast_tool_start :
      (q r : Text)
      → contains payload (bytes "\"type\":\"tool_use\"") ≡ true
      → extract_json_string_value_after payload (bytes "\"id\":") ≡ some q
      → extract_json_string_value_after payload (bytes "\"name\":") ≡ some r
      → fast_block_start marshal format_int dst msg_id created payload model tool_index
        ≡ append_open_ai_chunk_tool_start marshal format_int dst msg_id created q r model tool_index
  unfolding fast_block_start
  fast_tool_start q r kind id name = rw (kind, id, name) refl

  -- a block of text or thinking that starts empty has no chunk
  pub fast_empty_text :
      contains payload (bytes "\"type\":\"tool_use\"") ≡ false
      → extract_json_string_value_after payload (bytes "\"text\":") ≡ some (bytes "\"\"")
      → fast_block_start marshal format_int dst msg_id created payload model tool_index ≡ none
  unfolding fast_block_start fast_text_start
  fast_empty_text no_tool string = ground (arith, no_tool, string)

  pub fast_thinking_start :
      contains payload (bytes "\"type\":\"tool_use\"") ≡ false
      → contains payload (bytes "\"type\":\"text\"") ≡ false
      → fast_block_start marshal format_int dst msg_id created payload model tool_index ≡ none
  unfolding fast_block_start fast_text_start
  fast_thinking_start no_tool no_text = rw (no_tool, no_text) refl

  pub fast_start :
      (q : Text)
      → extract_json_string_value_after payload (bytes "\"model\":") ≡ some q
      → fast_message_start marshal format_int dst msg_id created payload model tool_index
        ≡ append_open_ai_chunk_message_start marshal format_int dst msg_id created q
  unfolding fast_message_start
  fast_start q string = rw string refl

  pub fast_reason :
      (q : Text)
      → extract_json_string_value_after payload (bytes "\"stop_reason\":") ≡ some q
      → fast_message_delta marshal format_int dst msg_id created payload model tool_index
        ≡ append_open_ai_chunk_message_delta marshal format_int dst msg_id created
            (normalize_open_ai_stop_reason_quoted q)
            model
  unfolding fast_message_delta
  fast_reason q string = rw string refl
