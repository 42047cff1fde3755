-- ===== src/Handler/Frame/Payloads.antt =====
-- The JSON of the events of a streamed response (internal/handler/sse_frame.go). `strconv.AppendInt`
-- is a parameter, as `utf8.DecodeRune` and `json.Marshal` are. Indices and counts are not negative.
use inf_api.Common.{ℕ, Option, none, some, List, ◌++◌}
use inf_api.Common.Text.{Text, bytes}
use inf_api.Handler.Frame.{append_json_bytes}

-- an append behind one that may have failed
abbrev pub append_to : Text → Option Text → Option Text
append_to s none = none
append_to s (some dst) = some (dst ++ s)

module _ (decode : ℕ → List ℕ → ℕ × ℕ) (marshal : Text → Option Text) (format_int : ℕ → Text) where
  -- a string between two texts
  abbrev pub around : Text → Text → Text → Option Text
  around before value after = append_to after (append_json_bytes decode marshal before value)

  -- another string behind what may have failed
  abbrev pub and_around : Option Text → Text → Text → Option Text
  and_around none value after = none
  and_around (some dst) value after = around dst value after

  -- two strings
  abbrev pub around_two : Text → Text → Text → Text → Text → Option Text
  around_two before first between second after =
      and_around (around before first between) second after

  -- `appendSSEContentBlockStartToolUse`
  unfoldable pub append_sse_content_block_start_tool_use : Text → ℕ → Text → Text → Option Text
  append_sse_content_block_start_tool_use dst index id name =
      around_two
        (dst
          ++ (bytes "{\"type\":\"content_block_start\",\"index\":"
              ++ (format_int index ++ bytes ",\"content_block\":{\"type\":\"tool_use\",\"id\":")))
        id (bytes ",\"name\":") name (bytes ",\"input\":{}}}")

  -- `appendSSEMessageStart`
  unfoldable pub append_sse_message_start : Text → Text → Text → ℕ → ℕ → Option Text
  append_sse_message_start dst msg_id model input_tokens output_tokens =
      around_two (dst ++ bytes "{\"type\":\"message_start\",\"message\":{\"id\":") msg_id
        (bytes ",\"type\":\"message\",\"role\":\"assistant\",\"content\":[],\"model\":") model
        (bytes ",\"usage\":{\"input_tokens\":"
          ++ (format_int input_tokens
              ++ (bytes ",\"output_tokens\":" ++ (format_int output_tokens ++ bytes "}}}"))))

  -- `appendSSEMessageStartNoUsage`
  unfoldable pub append_sse_message_start_no_usage : Text → Text → Text → Option Text
  append_sse_message_start_no_usage dst msg_id model =
      around_two (dst ++ bytes "{\"type\":\"message_start\",\"message\":{\"id\":") msg_id
        (bytes ",\"type\":\"message\",\"role\":\"assistant\",\"content\":[],\"model\":") model
        (bytes "}}")

  -- `appendSSEContentBlockStartText`
  unfoldable pub append_sse_content_block_start_text : Text → ℕ → Option Text
  append_sse_content_block_start_text dst index = some (
      dst
      ++ (bytes "{\"type\":\"content_block_start\",\"index\":"
          ++ (format_int index ++ bytes ",\"content_block\":{\"type\":\"text\",\"text\":\"\"}}")))

  -- `appendSSEContentBlockStartThinking`
  unfoldable pub append_sse_content_block_start_thinking : Text → ℕ → Text → Option Text
  append_sse_content_block_start_thinking dst index signature =
      around
        (dst
          ++ (bytes "{\"type\":\"content_block_start\",\"index\":"
              ++ (format_int index
                  ++ bytes
                      ",\"content_block\":{\"type\":\"thinking\",\"thinking\":\"\",\"signature\":")))
        signature (bytes "}}")

  -- the beginning of the JSON of a delta, up to its string
  abbrev pub delta_before : Text → ℕ → Text → Text
  delta_before dst index field =
      dst ++ (bytes "{\"type\":\"content_block_delta\",\"index\":" ++ (format_int index ++ field))

  -- `appendSSEContentBlockDeltaInputJSON`
  unfoldable pub append_sse_content_block_delta_input_json : Text → ℕ → Text → Option Text
  append_sse_content_block_delta_input_json dst index partial_json =
      around
        (delta_before dst index
          (bytes ",\"delta\":{\"type\":\"input_json_delta\",\"partial_json\":"))
        partial_json (bytes "}}")

  -- `appendSSEContentBlockDeltaText`
  unfoldable pub append_sse_content_block_delta_text : Text → ℕ → Text → Option Text
  append_sse_content_block_delta_text dst index text =
      around (delta_before dst index (bytes ",\"delta\":{\"type\":\"text_delta\",\"text\":")) text
        (bytes "}}")

  -- `appendSSEContentBlockDeltaThinking`
  unfoldable pub append_sse_content_block_delta_thinking : Text → ℕ → Text → Option Text
  append_sse_content_block_delta_thinking dst index thinking =
      around
        (delta_before dst index (bytes ",\"delta\":{\"type\":\"thinking_delta\",\"thinking\":"))
        thinking (bytes "}}")

  -- `appendSSEContentBlockStop`
  unfoldable pub append_sse_content_block_stop : Text → ℕ → Option Text
  append_sse_content_block_stop dst index = some (
      dst
      ++ (bytes "{\"type\":\"content_block_stop\",\"index\":" ++ (format_int index ++ bytes "}")))

  -- `appendSSEMessageDelta`
  unfoldable pub append_sse_message_delta : Text → Text → ℕ → Option Text
  append_sse_message_delta dst stop_reason output_tokens =
      around (dst ++ bytes "{\"type\":\"message_delta\",\"delta\":{\"stop_reason\":") stop_reason
        (bytes "},\"usage\":{\"output_tokens\":" ++ (format_int output_tokens ++ bytes "}}"))
