-- ===== src/Adapter/OpenAi/Chunks.antt =====
-- Every event of a response becomes a chunk of OpenAI's format with the event's strings
-- (internal/handler/sse_frame.go and internal/adapter/openai_sse.go).
use inf_api.Common.{ℕ, ◌≡◌, ◌≢◌, ◌∙◌, refl, ap, true, Option, some, List, ◌++◌, All, append_assoc}
use inf_api.Common.Int.{ℤ}
use inf_api.Common.Text.{Text, bytes, text_eq}
use inf_api.Handler.Frame.Payloads.{
  append_sse_content_block_start_tool_use, append_sse_content_block_start_text,
  append_sse_content_block_stop, append_sse_message_start, append_sse_message_start_no_usage,
  append_sse_message_delta,
}
use inf_api.Handler.Frame.Strings.{IsUtf8, well_formed}
use inf_api.Adapter.OpenAi.{append_open_ai_chunk_fast, fast_message_start, fast_message_delta}
use inf_api.Adapter.OpenAi.Carries.{
  SseEvent, message_start, message_start_no_usage, text_start, thinking_start, tool_use_start,
  delta_text, delta_thinking, delta_input_json, block_stop, message_delta, Chunked, strings_of,
  around_written, around_two_written,
}
use inf_api.Adapter.OpenAi.Places.{
  start_json, tool_field, empty_text_field, message_json, reason_json, tool-id, tool-kind,
  tool-name, reason-string, message-model, empty_text-no_tool, empty_text-string,
}
use inf_api.Adapter.OpenAi.Fast.{fast_tool_start, fast_empty_text, fast_start, fast_reason}
use inf_api.Adapter.OpenAi.Deltas.{
  IsChunked, delta_text-IsChunked, delta_thinking-IsChunked, delta_input_json-IsChunked,
  thinking_start-IsChunked,
}

module _ (decode : ℕ → List ℕ → ℕ × ℕ) (marshal : Text → Option Text) (format_int : ℕ → Text)
    (utf8 : IsUtf8 decode) (numbers : (n : ℕ) → All (λ c. c ≢ 34) (format_int n))
    (dst msg_id : Text) (created : ℕ) (model : Text) (tool_index : ℤ) where
  text_start-IsChunked :
      (i : ℕ)
      → IsChunked decode marshal format_int utf8 numbers dst msg_id created model tool_index
          (text_start i)
  unfolding append_open_ai_chunk_fast text_eq append_sse_content_block_start_text
  text_start-IsChunked i =
      let json = start_json format_int i empty_text_field in
      record {
        json = json;
        written = refl;
        chunk =
            fast_empty_text marshal format_int dst msg_id created json model tool_index
              (empty_text-no_tool format_int numbers i) (empty_text-string format_int numbers i);
      }

  block_stop-IsChunked :
      (i : ℕ)
      → IsChunked decode marshal format_int utf8 numbers dst msg_id created model tool_index
          (block_stop i)
  unfolding append_open_ai_chunk_fast text_eq append_sse_content_block_stop
  block_stop-IsChunked i = record { json = _; written = refl; chunk = refl }

  tool_use_start-IsChunked :
      (i : ℕ) (id name : Text)
      → well_formed decode id 0 ≡ true
      → well_formed decode name 0 ≡ true
      → IsChunked decode marshal format_int utf8 numbers dst msg_id created model tool_index
          (tool_use_start i id name)
  unfolding append_open_ai_chunk_fast text_eq append_sse_content_block_start_tool_use
  tool_use_start-IsChunked i id name ok ok2 =
      let head = bytes "{\"type\":\"content_block_start\",\"index\":" in
      let field = bytes ",\"content_block\":{\"type\":\"tool_use\",\"id\":" in
      let (q, r, written, reads, reads2) =
        around_two_written decode marshal format_int utf8 (head ++ (format_int i ++ field)) id
          (bytes ",\"name\":") name (bytes ",\"input\":{}}}") ok ok2 in
      let json = start_json format_int i (tool_field q r) in
      record {
        json = json;
        written = written ∙ ap (λ t. some (head ++ t)) (append_assoc (format_int i) field _);
        chunk = (
          q,
          r,
          fast_tool_start marshal format_int dst msg_id created json model tool_index q r
              (tool-kind format_int numbers i q id reads r name reads2)
              (tool-id format_int numbers i q id reads r)
              (tool-name format_int numbers i q id reads r name reads2),
          reads,
          reads2,
        );
      }

  message_start-IsChunked :
      (id m : Text) (input output : ℕ)
      → well_formed decode id 0 ≡ true
      → well_formed decode m 0 ≡ true
      → IsChunked decode marshal format_int utf8 numbers dst msg_id created model tool_index
          (message_start id m input output)
  unfolding append_open_ai_chunk_fast text_eq append_sse_message_start fast_message_start
  message_start-IsChunked id m input output ok ok2 =
      let (q, r, written, reads, reads2) =
        around_two_written decode marshal format_int utf8
          (bytes "{\"type\":\"message_start\",\"message\":{\"id\":") id
          (bytes ",\"type\":\"message\",\"role\":\"assistant\",\"content\":[],\"model\":") m
          (bytes ",\"usage\":{\"input_tokens\":"
            ++ (format_int input
                ++ (bytes ",\"output_tokens\":" ++ (format_int output ++ bytes "}}}"))))
          ok ok2 in
      let json = message_json q r (
        bytes ",\"usage\":{\"input_tokens\":"
        ++ (format_int input
            ++ (bytes ",\"output_tokens\":" ++ (format_int output ++ bytes "}}}")))) in
      record {
        json = json;
        written = written;
        chunk = (
          r,
          fast_start marshal format_int dst msg_id created json model tool_index r (
              message-model format_int numbers 0 q id reads r m reads2 (
                bytes ",\"usage\":{\"input_tokens\":"
                ++ (format_int input
                    ++ (bytes ",\"output_tokens\":" ++ (format_int output ++ bytes "}}}"))))),
          reads2,
        );
      }

  message_start_no_usage-IsChunked :
      (id m : Text)
      → well_formed decode id 0 ≡ true
      → well_formed decode m 0 ≡ true
      → IsChunked decode marshal format_int utf8 numbers dst msg_id created model tool_index
          (message_start_no_usage id m)
  unfolding append_open_ai_chunk_fast text_eq append_sse_message_start_no_usage fast_message_start
  message_start_no_usage-IsChunked id m ok ok2 =
      let (q, r, written, reads, reads2) =
        around_two_written decode marshal format_int utf8
          (bytes "{\"type\":\"message_start\",\"message\":{\"id\":") id
          (bytes ",\"type\":\"message\",\"role\":\"assistant\",\"content\":[],\"model\":") m
          (bytes "}}") ok ok2 in
      let json = message_json q r (bytes "}}") in
      record {
        json = json;
        written = written;
        chunk = (
          r,
          fast_start marshal format_int dst msg_id created json model tool_index r
              (message-model format_int numbers 0 q id reads r m reads2 (bytes "}}")),
          reads2,
        );
      }

  message_delta-IsChunked :
      (reason : Text) (n : ℕ)
      → well_formed decode reason 0 ≡ true
      → IsChunked decode marshal format_int utf8 numbers dst msg_id created model tool_index
          (message_delta reason n)
  unfolding append_open_ai_chunk_fast text_eq append_sse_message_delta fast_message_delta
  message_delta-IsChunked reason n ok =
      let (q, written, reads) =
        around_written decode marshal format_int utf8
          (bytes "{\"type\":\"message_delta\",\"delta\":{\"stop_reason\":") reason
          (bytes "},\"usage\":{\"output_tokens\":" ++ (format_int n ++ bytes "}}")) ok in
      let json =
        reason_json q (bytes "},\"usage\":{\"output_tokens\":" ++ (format_int n ++ bytes "}}")) in
      record {
        json = json;
        written = written;
        chunk = (
          q,
          fast_reason marshal format_int dst msg_id created json model tool_index q (
              reason-string format_int numbers 0 q reason reads
                (bytes "},\"usage\":{\"output_tokens\":" ++ (format_int n ++ bytes "}}"))),
          reads,
        );
      }

-- Every event whose strings are well-formed is written as JSON, and the strings that the fast path
-- cuts out of it are the event's own.
pub event-Chunked :
    (decode : ℕ → List ℕ → ℕ × ℕ) (marshal : Text → Option Text) (format_int : ℕ → Text)
    (dst msg_id : Text) (created : ℕ) (model : Text) (tool_index : ℤ) (event : SseEvent)
    → IsUtf8 decode
    → ((n : ℕ) → All (λ c. c ≢ 34) (format_int n))
    → All (λ s. well_formed decode s 0 ≡ true) (strings_of decode marshal format_int event)
    → Chunked decode marshal format_int dst msg_id created model tool_index event
event-Chunked decode marshal format_int dst msg_id created model tool_index
      (message_start id m input output) utf8 numbers ok =
    message_start-IsChunked decode marshal format_int utf8 numbers dst msg_id created model
      tool_index id m input output ok.0 ok.1.0
event-Chunked decode marshal format_int dst msg_id created model tool_index
      (message_start_no_usage id m) utf8 numbers ok =
    message_start_no_usage-IsChunked decode marshal format_int utf8 numbers dst msg_id created model
      tool_index id m ok.0 ok.1.0
event-Chunked decode marshal format_int dst msg_id created model tool_index (text_start i) utf8
      numbers ok =
    text_start-IsChunked decode marshal format_int utf8 numbers dst msg_id created model tool_index
      i
event-Chunked decode marshal format_int dst msg_id created model tool_index (thinking_start i t)
      utf8 numbers ok =
    thinking_start-IsChunked decode marshal format_int utf8 numbers dst msg_id created model
      tool_index i t ok.0
event-Chunked decode marshal format_int dst msg_id created model tool_index
      (tool_use_start i id name) utf8 numbers ok =
    tool_use_start-IsChunked decode marshal format_int utf8 numbers dst msg_id created model
      tool_index i id name ok.0 ok.1.0
event-Chunked decode marshal format_int dst msg_id created model tool_index (delta_text i t) utf8
      numbers ok =
    delta_text-IsChunked decode marshal format_int utf8 numbers dst msg_id created model tool_index
      i t ok.0
event-Chunked decode marshal format_int dst msg_id created model tool_index (delta_thinking i t)
      utf8 numbers ok =
    delta_thinking-IsChunked decode marshal format_int utf8 numbers dst msg_id created model
      tool_index i t ok.0
event-Chunked decode marshal format_int dst msg_id created model tool_index (delta_input_json i t)
      utf8 numbers ok =
    delta_input_json-IsChunked decode marshal format_int utf8 numbers dst msg_id created model
      tool_index i t ok.0
event-Chunked decode marshal format_int dst msg_id created model tool_index (block_stop i) utf8
      numbers ok =
    block_stop-IsChunked decode marshal format_int utf8 numbers dst msg_id created model tool_index
      i
event-Chunked decode marshal format_int dst msg_id created model tool_index (message_delta reason n)
      utf8 numbers ok =
    message_delta-IsChunked decode marshal format_int utf8 numbers dst msg_id created model
      tool_index reason n ok.0
