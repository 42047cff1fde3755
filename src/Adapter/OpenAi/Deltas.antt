-- ===== src/Adapter/OpenAi/Deltas.antt =====
-- The events with an index and one string, as chunks of OpenAI's format
-- (internal/handler/sse_frame.go and internal/adapter/openai_sse.go).
use inf_api.Common.{ℕ, ◌≡◌, ◌≢◌, true, Option, List, All}
use inf_api.Common.Int.{ℤ}
use inf_api.Common.Text.{Text, bytes, text_eq}
use inf_api.Handler.Frame.Payloads.{
  append_sse_content_block_delta_text, append_sse_content_block_delta_thinking,
  append_sse_content_block_delta_input_json, append_sse_content_block_start_thinking,
}
use inf_api.Handler.Frame.Strings.{IsUtf8, well_formed}
use inf_api.Adapter.OpenAi.{append_open_ai_chunk_fast}
use inf_api.Adapter.OpenAi.Carries.{
  SseEvent, thinking_start, delta_text, delta_thinking, delta_input_json, Chunked, written_behind,
}
use inf_api.Adapter.OpenAi.Places.{
  delta_json, start_json, text_field, thinking_field, input_field, signature_field, text-kind,
  text-string, input-no_text, input-kind, input-string, thinking-no_text, thinking-no_input,
  thinking-kind, thinking-string, signature-no_tool, signature-no_text,
}
use inf_api.Adapter.OpenAi.Fast.{fast_text, fast_tool_args, fast_thinking, fast_thinking_start}

module _ (decode : ℕ → List ℕ → ℕ × ℕ) (marshal : Text → Option Text) (format_int : ℕ → Text)
    (utf8 : IsUtf8 decode) (numbers : (n : ℕ) → All (λ c. c ≢ 34) (format_int n))
    (dst msg_id : Text) (created : ℕ) (model : Text) (tool_index : ℤ) where
  abbrev pub IsChunked : SseEvent → Type 0
  IsChunked event = Chunked decode marshal format_int dst msg_id created model tool_index event

  pub delta_text-IsChunked :
      (i : ℕ) (t : Text) → well_formed decode t 0 ≡ true → IsChunked (delta_text i t)
  unfolding append_open_ai_chunk_fast text_eq append_sse_content_block_delta_text
  delta_text-IsChunked i t ok =
      let (q, written, reads) =
        written_behind decode marshal format_int utf8
          (bytes "{\"type\":\"content_block_delta\",\"index\":")
          (bytes ",\"delta\":{\"type\":\"text_delta\",\"text\":") t (bytes "}}") i ok in
      let json = delta_json format_int i (text_field q) in
      record {
        json = json;
        written = written;
        chunk = (
          q,
          fast_text marshal format_int dst msg_id created json model tool_index q
              (text-kind format_int numbers i q t reads)
              (text-string format_int numbers i q t reads),
          reads,
        );
      }

  pub delta_thinking-IsChunked :
      (i : ℕ) (t : Text) → well_formed decode t 0 ≡ true → IsChunked (delta_thinking i t)
  unfolding append_open_ai_chunk_fast text_eq append_sse_content_block_delta_thinking
  delta_thinking-IsChunked i t ok =
      let (q, written, reads) =
        written_behind decode marshal format_int utf8
          (bytes "{\"type\":\"content_block_delta\",\"index\":")
          (bytes ",\"delta\":{\"type\":\"thinking_delta\",\"thinking\":") t (bytes "}}") i ok in
      let json = delta_json format_int i (thinking_field q) in
      record {
        json = json;
        written = written;
        chunk = (
          q,
          fast_thinking marshal format_int dst msg_id created json model tool_index q
              (thinking-no_text format_int numbers i q t reads)
              (thinking-no_input format_int numbers i q t reads)
              (thinking-kind format_int numbers i q t reads)
              (thinking-string format_int numbers i q t reads),
          reads,
        );
      }

  pub delta_input_json-IsChunked :
      (i : ℕ) (t : Text) → well_formed decode t 0 ≡ true → IsChunked (delta_input_json i t)
  unfolding append_open_ai_chunk_fast text_eq append_sse_content_block_delta_input_json
  delta_input_json-IsChunked i t ok =
      let (q, written, reads) =
        written_behind decode marshal format_int utf8
          (bytes "{\"type\":\"content_block_delta\",\"index\":")
          (bytes ",\"delta\":{\"type\":\"input_json_delta\",\"partial_json\":") t (bytes "}}") i
          ok in
      let json = delta_json format_int i (input_field q) in
      record {
        json = json;
        written = written;
        chunk = (
          q,
          fast_tool_args marshal format_int dst msg_id created json model tool_index q
              (input-no_text format_int numbers i q t reads)
              (input-kind format_int numbers i q t reads)
              (input-string format_int numbers i q t reads),
          reads,
        );
      }

  pub thinking_start-IsChunked :
      (i : ℕ) (t : Text) → well_formed decode t 0 ≡ true → IsChunked (thinking_start i t)
  unfolding append_open_ai_chunk_fast text_eq append_sse_content_block_start_thinking
  thinking_start-IsChunked i t ok =
      let (q, written, reads) =
        written_behind decode marshal format_int utf8
          (bytes "{\"type\":\"content_block_start\",\"index\":")
          (bytes ",\"content_block\":{\"type\":\"thinking\",\"thinking\":\"\",\"signature\":") t
          (bytes "}}") i ok in
      let json = start_json format_int i (signature_field q) in
      record {
        json = json;
        written = written;
        chunk =
            fast_thinking_start marshal format_int dst msg_id created json model tool_index
              (signature-no_tool format_int numbers i q t reads)
              (signature-no_text format_int numbers i q t reads);
      }
