-- ===== src/Adapter/OpenAi/Carries.antt =====
-- What the chunks of OpenAI's format carry of the events of a response (internal/handler/sse_frame.go
-- and internal/adapter/openai_sse.go).
use inf_api.Common.{ℕ, ◌≡◌, ◌∙◌, ap, true, Option, none, some, List, [], ◌∷◌, ◌++◌, append_assoc}
use inf_api.Common.Int.{ℤ}
use inf_api.Common.Text.{Text, bytes}
use inf_api.Handler.Frame.Payloads.{
  around, and_around, around_two, append_sse_content_block_delta_text,
  append_sse_content_block_delta_thinking, append_sse_content_block_delta_input_json,
  append_sse_content_block_start_tool_use, append_sse_content_block_start_text,
  append_sse_content_block_start_thinking, append_sse_content_block_stop, append_sse_message_start,
  append_sse_message_start_no_usage, append_sse_message_delta,
}
use inf_api.Handler.Frame.Reader.{unquote}
use inf_api.Handler.Frame.Strings.{IsUtf8, well_formed, append_json_bytes-unquote}
use inf_api.Adapter.OpenAi.{
  append_open_ai_chunk_fast, append_open_ai_chunk_text, append_open_ai_chunk_tool_args,
  append_open_ai_chunk_thinking, append_open_ai_chunk_tool_start,
  append_open_ai_chunk_message_start, append_open_ai_chunk_message_delta,
  normalize_open_ai_stop_reason_quoted,
}

-- the events that a handler writes
pub data SseEvent : Type 0 where
  message_start : Text → Text → ℕ → ℕ → SseEvent
  message_start_no_usage : Text → Text → SseEvent
  text_start : ℕ → SseEvent
  thinking_start : ℕ → Text → SseEvent
  tool_use_start : ℕ → Text → Text → SseEvent
  delta_text : ℕ → Text → SseEvent
  delta_thinking : ℕ → Text → SseEvent
  delta_input_json : ℕ → Text → SseEvent
  block_stop : ℕ → SseEvent
  message_delta : Text → ℕ → SseEvent

-- the name of an event
abbrev pub name_of : SseEvent → Text
name_of (message_start id model input output) = bytes "message_start"
name_of (message_start_no_usage id model) = bytes "message_start"
name_of (text_start i) = bytes "content_block_start"
name_of (thinking_start i s) = bytes "content_block_start"
name_of (tool_use_start i id name) = bytes "content_block_start"
name_of (delta_text i t) = bytes "content_block_delta"
name_of (delta_thinking i t) = bytes "content_block_delta"
name_of (delta_input_json i t) = bytes "content_block_delta"
name_of (block_stop i) = bytes "content_block_stop"
name_of (message_delta reason n) = bytes "message_delta"

module _ (decode : ℕ → List ℕ → ℕ × ℕ) (marshal : Text → Option Text) (format_int : ℕ → Text) where
  -- the JSON of an event
  abbrev pub json_of : SseEvent → Option Text
  json_of (message_start id model input output) =
      append_sse_message_start decode marshal format_int [] id model input output
  json_of (message_start_no_usage id model) =
      append_sse_message_start_no_usage decode marshal format_int [] id model
  json_of (text_start i) = append_sse_content_block_start_text decode marshal format_int [] i
  json_of (thinking_start i s) =
      append_sse_content_block_start_thinking decode marshal format_int [] i s
  json_of (tool_use_start i id name) =
      append_sse_content_block_start_tool_use decode marshal format_int [] i id name
  json_of (delta_text i t) = append_sse_content_block_delta_text decode marshal format_int [] i t
  json_of (delta_thinking i t) =
      append_sse_content_block_delta_thinking decode marshal format_int [] i t
  json_of (delta_input_json i t) =
      append_sse_content_block_delta_input_json decode marshal format_int [] i t
  json_of (block_stop i) = append_sse_content_block_stop decode marshal format_int [] i
  json_of (message_delta reason n) = append_sse_message_delta decode marshal format_int [] reason n

  -- the strings of an event
  abbrev pub strings_of : SseEvent → List Text
  strings_of (message_start id model input output) = id ∷ model ∷ []
  strings_of (message_start_no_usage id model) = id ∷ model ∷ []
  strings_of (text_start i) = []
  strings_of (thinking_start i s) = s ∷ []
  strings_of (tool_use_start i id name) = id ∷ name ∷ []
  strings_of (delta_text i t) = t ∷ []
  strings_of (delta_thinking i t) = t ∷ []
  strings_of (delta_input_json i t) = t ∷ []
  strings_of (block_stop i) = []
  strings_of (message_delta reason n) = reason ∷ []

  -- the JSON of a string between two texts, when it is written
  pub around_written :
      (utf8 : IsUtf8 decode) (before value after : Text)
      → well_formed decode value 0 ≡ true
      → (q : Text) × (around decode marshal format_int before value after
          ≡ some (before ++ (q ++ after)))
        × (unquote q ≡ some value)
  around_written utf8 before value after ok =
      let (q, written, reads) = append_json_bytes-unquote decode marshal before value utf8 ok in
      (q, rw written (ap some (append_assoc before q after)), reads)

  pub written_behind :
      (utf8 : IsUtf8 decode) (head field value after : Text) (i : ℕ)
      → well_formed decode value 0 ≡ true
      → (q : Text) × (around decode marshal format_int (head ++ (format_int i ++ field)) value after
          ≡ some (head ++ (format_int i ++ (field ++ (q ++ after)))))
        × (unquote q ≡ some value)
  written_behind utf8 head field value after i ok =
      let (q, written, reads) =
        around_written utf8 (head ++ (format_int i ++ field)) value after ok in
      (
        q,
        written
            ∙ ap some (
                append_assoc head (format_int i ++ field) (q ++ after)
                ∙ ap (λ t. head ++ t) (append_assoc (format_int i) field (q ++ after))),
        reads,
      )

  pub around_two_written :
      (utf8 : IsUtf8 decode) (before first between second after : Text)
      → well_formed decode first 0 ≡ true
      → well_formed decode second 0 ≡ true
      → (q r : Text) × (around_two decode marshal format_int before first between second after
          ≡ some (before ++ (q ++ (between ++ (r ++ after)))))
        × (unquote q ≡ some first)
        × (unquote r ≡ some second)
  around_two_written utf8 before first between second after ok ok2 =
      let (q, written, reads) = around_written utf8 before first between ok in
      let (r, written2, reads2) = around_written utf8 (before ++ (q ++ between)) second after ok2 in
      (
        q,
        r,
        ap (λ o. and_around decode marshal format_int o second after) written
            ∙ (written2
                ∙ ap some (
                    append_assoc before (q ++ between) (r ++ after)
                    ∙ ap (λ t. before ++ t) (append_assoc q between (r ++ after)))),
        reads,
        reads2,
      )

  module _ (dst msg_id : Text) (created : ℕ) (model : Text) (tool_index : ℤ) where
    -- What the fast path makes of an event: a chunk with its strings, or none where the event has
    -- nothing to show.
    abbrev pub Carries : SseEvent → Option Text → Type 0
    Carries (message_start id m input output) o =
        (r : Text) × (o
          ≡ append_open_ai_chunk_message_start marshal format_int dst msg_id created r)
        × (unquote r ≡ some m)
    Carries (message_start_no_usage id m) o =
        (r : Text) × (o
          ≡ append_open_ai_chunk_message_start marshal format_int dst msg_id created r)
        × (unquote r ≡ some m)
    Carries (text_start i) o = o ≡ none
    Carries (thinking_start i s) o = o ≡ none
    Carries (tool_use_start i id name) o =
        (q r : Text) × (o
          ≡ append_open_ai_chunk_tool_start marshal format_int dst msg_id created q r model
              tool_index)
        × (unquote q ≡ some id)
        × (unquote r ≡ some name)
    Carries (delta_text i t) o =
        (q : Text) × (o ≡ append_open_ai_chunk_text marshal format_int dst msg_id created q model)
        × (unquote q ≡ some t)
    Carries (delta_thinking i t) o =
        (q : Text) × (o
          ≡ append_open_ai_chunk_thinking marshal format_int dst msg_id created q model)
        × (unquote q ≡ some t)
    Carries (delta_input_json i t) o =
        (q : Text) × (o
          ≡ append_open_ai_chunk_tool_args marshal format_int dst msg_id created q model tool_index)
        × (unquote q ≡ some t)
    Carries (block_stop i) o = o ≡ none
    Carries (message_delta reason n) o =
        (q : Text) × (o
          ≡ append_open_ai_chunk_message_delta marshal format_int dst msg_id created
              (normalize_open_ai_stop_reason_quoted q) model)
        × (unquote q ≡ some reason)

    -- an event is written as JSON, of which the fast path makes a chunk
    pub record Chunked (event : SseEvent) : Type 0 where
      pub json : Text
      pub written : json_of event ≡ some json
      pub chunk : Carries event (
          append_open_ai_chunk_fast marshal format_int dst msg_id created json model tool_index
            (name_of event))
