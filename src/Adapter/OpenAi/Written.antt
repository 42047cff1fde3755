-- ===== src/Adapter/OpenAi/Written.antt =====
-- The chunks of OpenAI's format, byte for byte (internal/adapter/openai_sse.go).
use inf_api.Common.{ℕ, ◌≡◌, ◌≢◌, ◌≤◌, ◌<◌, Option, none, some, List, [], ◌∷◌, ◌++◌, if◌then◌else◌}
use inf_api.Common.Int.{ℤ, at_least_zero}
use inf_api.Common.Text.{Text, bytes, text_eq}
use inf_api.Handler.Frame.Reader.{unquote}
use inf_api.Adapter.OpenAi.{append_open_ai_chunk_fast}
use inf_api.Adapter.OpenAi.Carries.{
  SseEvent, message_start, message_start_no_usage, text_start, thinking_start, tool_use_start,
  delta_text, delta_thinking, delta_input_json, block_stop, message_delta, Carries, json_of,
  name_of,
}

-- a byte that stands for itself in a JSON string
abbrev pub IsPlainByte : ℕ → Type 0
IsPlainByte c = (32 ≤ c) × (c < 128) × (c ≢ 34) × (c ≢ 92)

-- a model that is not known is an empty string
abbrev pub model_or_empty : Text → Text
model_or_empty [] = bytes "\"\""
model_or_empty (c ∷ model) = c ∷ model

-- OpenAI's words for the reasons of the end
abbrev finish_reasons : List (Text × Text)
finish_reasons =
    ([], bytes "\"stop\"")
    ∷ (bytes "\"\"", bytes "\"stop\"")
    ∷ (bytes "\"stop\"", bytes "\"stop\"")
    ∷ (bytes "\"end_turn\"", bytes "\"stop\"")
    ∷ (bytes "\"tool_use\"", bytes "\"tool_calls\"")
    ∷ (bytes "\"max_tokens\"", bytes "\"length\"")
    ∷ (bytes "\"refusal\"", bytes "\"content_filter\"")
    ∷ []

abbrev word_of : List (Text × Text) → Text → Text
word_of [] q = q
word_of ((reason, word) ∷ words) q = if text_eq q reason then word else word_of words q

abbrev pub finish_reason : Text → Text
finish_reason q = word_of finish_reasons q

module _ (marshal : Text → Option Text) (format_int : ℕ → Text) (dst msg_id : Text)
    (created : ℕ) where
  -- a chunk of a model with a choice
  abbrev pub chunk_with : Text → Text → Text
  chunk_with model choice =
      dst
      ++ (bytes "{\"id\":\""
          ++ (msg_id
              ++ (bytes "\",\"object\":\"chat.completion.chunk\",\"created\":"
                  ++ (format_int created
                      ++ (bytes ",\"model\":"
                          ++ (model_or_empty model
                              ++ (bytes ",\"choices\":[{\"index\":0," ++ choice)))))))

module _ (decode : ℕ → List ℕ → ℕ × ℕ) (marshal : Text → Option Text) (format_int : ℕ → Text)
    (dst msg_id : Text) (created : ℕ) (model : Text) (tool_index : ℤ) where
  abbrev pub with_choice : Text → Text → Text
  with_choice = chunk_with marshal format_int dst msg_id created

  -- the place of a tool call in a choice, before its fields
  abbrev pub tool_choice : Text → Text
  tool_choice fields =
      bytes "\"delta\":{\"tool_calls\":[{\"index\":"
      ++ (format_int (at_least_zero tool_index) ++ fields)

  -- the chunk of an event, or none where the event has nothing to show
  abbrev pub Shows : SseEvent → Option Text → Type 0
  Shows (message_start id m input output) o =
      (r : Text) × (o ≡ some (with_choice r (bytes "\"delta\":{\"role\":\"assistant\"}}]}")))
      × (unquote r ≡ some m)
  Shows (message_start_no_usage id m) o =
      (r : Text) × (o ≡ some (with_choice r (bytes "\"delta\":{\"role\":\"assistant\"}}]}")))
      × (unquote r ≡ some m)
  Shows (text_start i) o = o ≡ none
  Shows (thinking_start i s) o = o ≡ none
  Shows (tool_use_start i id name) o =
      (q r : Text) × (o
        ≡ some (
            with_choice model (
              tool_choice (
                bytes ",\"id\":"
                ++ (q
                    ++ (bytes ",\"type\":\"function\",\"function\":{\"name\":"
                        ++ (r ++ bytes ",\"arguments\":\"\"}}]}}]}")))))))
      × (unquote q ≡ some id)
      × (unquote r ≡ some name)
  Shows (delta_text i t) o =
      (q : Text) × (o
        ≡ some (with_choice model (bytes "\"delta\":{\"content\":" ++ (q ++ bytes "}}]}"))))
      × (unquote q ≡ some t)
  Shows (delta_thinking i t) o =
      (q : Text) × (o
        ≡ some
            (with_choice model (bytes "\"delta\":{\"reasoning_content\":" ++ (q ++ bytes "}}]}"))))
      × (unquote q ≡ some t)
  Shows (delta_input_json i t) o =
      (q : Text) × (o
        ≡ some (
            with_choice model
              (tool_choice (bytes ",\"function\":{\"arguments\":" ++ (q ++ bytes "}}]}}]}")))))
      × (unquote q ≡ some t)
  Shows (block_stop i) o = o ≡ none
  Shows (message_delta reason n) o =
      (q : Text) × (o
        ≡ some (
            with_choice model
              (bytes "\"delta\":{},\"finish_reason\":" ++ (finish_reason q ++ bytes "}]}"))))
      × (unquote q ≡ some reason)

  -- an event is written as JSON, of which the fast path makes its chunk
  pub record IsShown (event : SseEvent) : Type 0 where
    pub json : Text
    pub written : json_of decode marshal format_int event ≡ some json
    pub chunk : Shows event (
        append_open_ai_chunk_fast marshal format_int dst msg_id created json model tool_index
          (name_of event))
