-- ===== src/Adapter/OpenAi.antt =====
-- The chunks of OpenAI's format that are cut out of the JSON of an event
-- (internal/adapter/openai_sse.go, the fast path). `json.Marshal` and `strconv.AppendInt` are
-- parameters. What only reserves memory is left out: ensureOpenAIChunkCapacity and the lengths for
-- it.
pub mod Scan
pub mod Fast
pub mod Places
pub mod Carries
pub mod Deltas
pub mod Chunks
pub mod Written
mod Tests
use inf_api.Common.{
  ℕ, Bool, true, false, not, ◌&&◌, ◌||◌, Option, none, some, List, [], ◌∷◌, ◌++◌, ltb, leb, ◌==◌,
  if◌then◌else◌, length, drop, is_empty,
}
use inf_api.Common.Int.{ℤ, at_least_zero}
use inf_api.Common.Text.{Text, bytes, text_eq, has_prefix, contains}

-- the bytes that `appendOpenAIJSONString` writes as they stand
unfoldable pub is_plain_value : Text → Bool
is_plain_value [] = true
is_plain_value (b ∷ value) =
    not (ltb b 32 || (b == 92 || (b == 34 || leb 128 b))) && is_plain_value value

-- `appendOpenAIJSONString`
unfoldable pub append_open_ai_json_string : (Text → Option Text) → Text → Text → Option Text
unfolding is_plain_value
append_open_ai_json_string marshal dst value =
    if is_plain_value value
    then some (dst ++ (34 ∷ (value ++ 34 ∷ [])))
    else elim (marshal value) [ none ↦ none | some quoted ↦ some (dst ++ quoted) ]

-- `normalizeOpenAIStopReasonQuoted`
unfoldable pub normalize_open_ai_stop_reason_quoted : Text → Text
unfolding text_eq
normalize_open_ai_stop_reason_quoted quoted =
    if is_empty quoted
      || (text_eq quoted (bytes "\"\"")
          || (text_eq quoted (bytes "\"stop\"") || text_eq quoted (bytes "\"end_turn\"")))
    then bytes "\"stop\""
    else if text_eq quoted (bytes "\"tool_use\"")
    then bytes "\"tool_calls\""
    else if text_eq quoted (bytes "\"max_tokens\"")
    then bytes "\"length\""
    else if text_eq quoted (bytes "\"refusal\"")
    then bytes "\"content_filter\""
    else quoted

-- what stands behind the first place of a marker
unfoldable pub behind_marker : Text → Text → Option Text
unfolding has_prefix
behind_marker [] marker = if has_prefix [] marker then some [] else none
behind_marker (c ∷ payload) marker =
    let rest = behind_marker payload marker in
    if has_prefix (c ∷ payload) marker then some (drop (length marker) (c ∷ payload)) else rest

unfoldable pub skip_blank : Text → Text
skip_blank [] = []
skip_blank (c ∷ payload) =
    if c == 32 || (c == 9 || (c == 10 || c == 13)) then skip_blank payload else c ∷ payload

abbrev pub cons_to : ℕ → Option Text → Option Text
cons_to c none = none
cons_to c (some s) = some (c ∷ s)

-- the rest of a string up to its quote, and whether a byte is escaped
unfoldable pub scan_string : Text → Bool → Option Text
scan_string [] escaped = none
scan_string (c ∷ payload) true = cons_to c (scan_string payload false)
scan_string (c ∷ payload) false =
    let rest = scan_string payload in
    if c == 92
    then cons_to c (rest true)
    else if c == 34
    then some (c ∷ [])
    else cons_to c (rest false)

unfoldable pub quoted_string : Text → Option Text
unfolding scan_string
quoted_string [] = none
quoted_string (c ∷ payload) = if c == 34 then cons_to c (scan_string payload false) else none

-- `extractJSONStringValueAfter`
unfoldable pub extract_json_string_value_after : Text → Text → Option Text
unfolding behind_marker skip_blank quoted_string
extract_json_string_value_after payload marker = elim (behind_marker payload marker) [
  | none ↦ none
  | some rest ↦ quoted_string (skip_blank rest)
]

-- what is made of a string, if there is one
abbrev pub chunk_of : Option Text → (Text → Option Text) → Option Text
chunk_of none chunk = none
chunk_of (some quoted) chunk = chunk quoted

module _ (marshal : Text → Option Text) (format_int : ℕ → Text) where
  -- `appendOpenAIChunkPrefix`
  unfoldable pub append_open_ai_chunk_prefix : Text → Text → ℕ → Text → Option Text
  unfolding append_open_ai_json_string
  append_open_ai_chunk_prefix dst msg_id created quoted_model =
      elim (append_open_ai_json_string marshal (dst ++ bytes "{\"id\":") msg_id) [
        | none ↦ none
        | some out ↦ some (
            out
            ++ (bytes ",\"object\":\"chat.completion.chunk\",\"created\":"
                ++ (format_int created
                    ++ (bytes ",\"model\":"
                        ++ ((if is_empty quoted_model then bytes "\"\"" else quoted_model)
                            ++ bytes ",\"choices\":[{\"index\":0,")))))
      ]

  -- what the appendOpenAIChunk… functions append behind the prefix
  abbrev pub with_prefix : Text → Text → ℕ → Text → Text → Option Text
  with_prefix dst msg_id created quoted_model s =
      elim (append_open_ai_chunk_prefix dst msg_id created quoted_model) [
        | none ↦ none
        | some out ↦ some (out ++ s)
      ]

  -- `appendOpenAIChunkMessageStart`
  abbrev pub append_open_ai_chunk_message_start : Text → Text → ℕ → Text → Option Text
  append_open_ai_chunk_message_start dst msg_id created quoted_model =
      with_prefix dst msg_id created quoted_model (bytes "\"delta\":{\"role\":\"assistant\"}}]}")

  -- `appendOpenAIChunkTextWithModel`
  abbrev pub append_open_ai_chunk_text : Text → Text → ℕ → Text → Text → Option Text
  append_open_ai_chunk_text dst msg_id created quoted_text quoted_model =
      with_prefix dst msg_id created quoted_model
        (bytes "\"delta\":{\"content\":" ++ (quoted_text ++ bytes "}}]}"))

  -- `appendOpenAIChunkThinkingWithModel`
  abbrev pub append_open_ai_chunk_thinking : Text → Text → ℕ → Text → Text → Option Text
  append_open_ai_chunk_thinking dst msg_id created quoted_thinking quoted_model =
      with_prefix dst msg_id created quoted_model
        (bytes "\"delta\":{\"reasoning_content\":" ++ (quoted_thinking ++ bytes "}}]}"))

  -- `appendOpenAIChunkToolArgsWithModel`
  abbrev pub append_open_ai_chunk_tool_args : Text → Text → ℕ → Text → Text → ℤ → Option Text
  append_open_ai_chunk_tool_args dst msg_id created quoted_args quoted_model tool_index =
      with_prefix dst msg_id created quoted_model (
        bytes "\"delta\":{\"tool_calls\":[{\"index\":"
        ++ (format_int (at_least_zero tool_index)
            ++ (bytes ",\"function\":{\"arguments\":" ++ (quoted_args ++ bytes "}}]}}]}"))))

  -- `appendOpenAIChunkToolStartWithModel`
  abbrev pub append_open_ai_chunk_tool_start :
      Text → Text → ℕ → Text → Text → Text → ℤ → Option Text
  append_open_ai_chunk_tool_start dst msg_id created quoted_id quoted_name quoted_model tool_index =
      with_prefix dst msg_id created quoted_model (
        bytes "\"delta\":{\"tool_calls\":[{\"index\":"
        ++ (format_int (at_least_zero tool_index)
            ++ (bytes ",\"id\":"
                ++ (quoted_id
                    ++ (bytes ",\"type\":\"function\",\"function\":{\"name\":"
                        ++ (quoted_name ++ bytes ",\"arguments\":\"\"}}]}}]}"))))))

  -- `appendOpenAIChunkMessageDeltaWithModel`
  abbrev pub append_open_ai_chunk_message_delta : Text → Text → ℕ → Text → Text → Option Text
  append_open_ai_chunk_message_delta dst msg_id created quoted_stop_reason quoted_model =
      with_prefix dst msg_id created quoted_model
        (bytes "\"delta\":{},\"finish_reason\":" ++ (quoted_stop_reason ++ bytes "}]}"))

  module _ (dst msg_id : Text) (created : ℕ) (payload quoted_model : Text) (tool_index : ℤ) where
    unfoldable pub fast_message_start : Option Text
    fast_message_start =
        chunk_of (extract_json_string_value_after payload (bytes "\"model\":"))
          (append_open_ai_chunk_message_start dst msg_id created)

    -- a block of text that starts with some
    unfoldable pub fast_text_start : Option Text
    fast_text_start =
        if contains payload (bytes "\"type\":\"text\"")
        then chunk_of (extract_json_string_value_after payload (bytes "\"text\":")) (λ quoted.
          if ltb 2 (length quoted)
          then append_open_ai_chunk_text dst msg_id created quoted quoted_model
          else none)
        else none

    unfoldable pub fast_block_start : Option Text
    fast_block_start =
        if contains payload (bytes "\"type\":\"tool_use\"")
        then elim (extract_json_string_value_after payload (bytes "\"id\":")) [
          | none ↦ fast_text_start
          | some quoted_id ↦ elim (extract_json_string_value_after payload (bytes "\"name\":")) [
            | none ↦ fast_text_start
            | some quoted_name ↦
                append_open_ai_chunk_tool_start dst msg_id created quoted_id quoted_name
                  quoted_model tool_index
          ]
        ]
        else fast_text_start

    unfoldable pub fast_block_delta : Option Text
    fast_block_delta =
        if contains payload (bytes "\"type\":\"text_delta\"")
        then chunk_of (extract_json_string_value_after payload (bytes "\"text\":"))
            (λ quoted. append_open_ai_chunk_text dst msg_id created quoted quoted_model)
        else if contains payload (bytes "\"type\":\"input_json_delta\"")
        then chunk_of (extract_json_string_value_after payload (bytes "\"partial_json\":"))
            (λ quoted.
              append_open_ai_chunk_tool_args dst msg_id created quoted quoted_model tool_index)
        else if contains payload (bytes "\"type\":\"thinking_delta\"")
        then chunk_of (extract_json_string_value_after payload (bytes "\"thinking\":"))
            (λ quoted. append_open_ai_chunk_thinking dst msg_id created quoted quoted_model)
        else none

    unfoldable pub fast_message_delta : Option Text
    fast_message_delta =
        chunk_of (extract_json_string_value_after payload (bytes "\"stop_reason\":")) (λ quoted.
          append_open_ai_chunk_message_delta dst msg_id created
            (normalize_open_ai_stop_reason_quoted quoted) quoted_model)

    -- `appendOpenAIChunkFastWithHint`; none has the caller take the slow path
    unfoldable pub append_open_ai_chunk_fast : Text → Option Text
    append_open_ai_chunk_fast event =
        if text_eq event (bytes "message_start")
        then fast_message_start
        else if text_eq event (bytes "content_block_start")
        then fast_block_start
        else if text_eq event (bytes "content_block_delta")
        then fast_block_delta
        else if text_eq event (bytes "message_delta")
        then fast_message_delta
        else none
