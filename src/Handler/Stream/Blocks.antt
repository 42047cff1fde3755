-- ===== src/Handler/Stream/Blocks.antt =====
-- The content blocks of a streamed response (internal/handler/stream_handler.go).
use inf_api.Common.{
  ℕ, zero, suc, ◌+◌, Bool, true, false, ◌||◌, Option, none, some, List, [], ◌∷◌, ◌++◌, is_empty,
  length, if◌then◌else◌,
}
use inf_api.Common.Text.{Text, bytes, text_eq, trim_space}
use inf_api.Handler.Stream.{
  thinking_kind, text_kind, tool_kind, DeltaKind, thinking_delta, text_delta, input_json_delta,
  content_block_start, content_block_delta, content_block_stop, ActiveBlock, no_block, in_thinking,
  in_text, ToolCall, ContentBlock, thinking_content, text_content, tool_content, StreamHandler,
  write_sse, write_mode, add_output_tokens,
}

-- `closeActiveBlockLocked`
abbrev pub close_block : ActiveBlock → StreamHandler → StreamHandler
close_block no_block h = h
close_block (in_thinking i j) h = write_sse (content_block_stop i) (record h { active = no_block })
close_block (in_text i j) h = write_sse (content_block_stop i) (record h { active = no_block })

unfoldable pub close_active_block : StreamHandler → StreamHandler
close_active_block h = close_block h.active h

-- the new block of `ensureBlock("thinking")`
unfoldable pub start_thinking : StreamHandler → Option ℕ × StreamHandler
start_thinking h =
    let i = h.next_index in
    let sig = h.pending_thinking_sig in
    (
      some i,
      write_sse (content_block_start i (thinking_kind sig)) (record h {
        next_index = suc i;
        active = in_thinking i (length h.content_blocks);
        pending_thinking_sig = [];
        content_blocks = h.content_blocks ++ thinking_content sig [] ∷ [];
      }),
    )

-- the new block of `ensureBlock("text")`
unfoldable pub start_text : StreamHandler → Option ℕ × StreamHandler
start_text h =
    let i = h.next_index in
    (
      some i,
      write_sse (content_block_start i text_kind) (record h {
        next_index = suc i;
        active = in_text i (length h.content_blocks);
        content_blocks = h.content_blocks ++ text_content [] ∷ [];
      }),
    )

-- `ensureBlock("thinking")`, which suppresses the block or not; none stands for -1
abbrev pub thinking_from : ActiveBlock → StreamHandler → Option ℕ × StreamHandler
thinking_from no_block h = start_thinking h
thinking_from (in_thinking i j) h = (some i, h)
thinking_from (in_text i j) h = start_thinking (close_active_block h)

unfoldable pub ensure_thinking : StreamHandler → Option ℕ × StreamHandler
unfolding start_thinking close_active_block
ensure_thinking h = if h.suppress_thinking then (none, h) else thinking_from h.active h

-- `ensureBlock("text")`
abbrev pub text_from : ActiveBlock → StreamHandler → Option ℕ × StreamHandler
text_from no_block h = start_text h
text_from (in_thinking i j) h = start_text (close_active_block h)
text_from (in_text i j) h = (some i, h)

unfoldable pub ensure_text : StreamHandler → Option ℕ × StreamHandler
unfolding start_text close_active_block
ensure_text h = text_from h.active h

-- `builder.WriteString(delta)` for the builder of an entry
abbrev pub extend : Text → ContentBlock → ContentBlock
extend delta (thinking_content sig text) = thinking_content sig (text ++ delta)
extend delta (text_content text) = text_content (text ++ delta)
extend delta (tool_content id name input) = tool_content id name input

unfoldable pub extend_at : ℕ → Text → List ContentBlock → List ContentBlock
extend_at i delta [] = []
extend_at zero delta (b ∷ bs) = extend delta b ∷ bs
extend_at (suc i) delta (b ∷ bs) = b ∷ extend_at i delta bs

unfoldable pub mark_text_output : StreamHandler → StreamHandler
mark_text_output h = record h { has_text_output = true }

-- a delta of a block: its tokens, its builder and its event
unfoldable pub delta_to_block : DeltaKind → ℕ → ℕ → Text → StreamHandler → StreamHandler
unfolding extend_at
delta_to_block kind i j delta h =
    let counted = add_output_tokens delta h in
    write_sse (content_block_delta i kind delta)
      (record counted { content_blocks = extend_at j delta counted.content_blocks })

-- the delta goes to the open block, if it is of the right kind
abbrev pub text_to_block : ActiveBlock → Text → StreamHandler → StreamHandler
text_to_block no_block delta h = h
text_to_block (in_thinking i j) delta h = h
text_to_block (in_text i j) delta h = delta_to_block text_delta i j delta h

abbrev pub thinking_to_block : ActiveBlock → Text → StreamHandler → StreamHandler
thinking_to_block no_block delta h = h
thinking_to_block (in_text i j) delta h = h
thinking_to_block (in_thinking i j) delta h = delta_to_block thinking_delta i j delta h

-- `emitTextDelta`
unfoldable pub emit_text_delta : Text → StreamHandler → StreamHandler
unfolding mark_text_output ensure_text delta_to_block
emit_text_delta [] h = h
emit_text_delta (c ∷ delta) h =
    let ready = (ensure_text (mark_text_output h)).1 in text_to_block ready.active (c ∷ delta) ready

-- `emitThinkingDelta`
unfoldable pub emit_thinking_delta : Text → StreamHandler → StreamHandler
unfolding ensure_thinking delta_to_block
emit_thinking_delta [] h = h
emit_thinking_delta (c ∷ delta) h =
    let ready = (ensure_thinking h).1 in
    if h.suppress_thinking then h else thinking_to_block ready.active (c ∷ delta) ready

-- `emitTextBlockWithMode`
unfoldable pub emit_text_block : Text → Bool → StreamHandler → StreamHandler
emit_text_block text final h =
    let i = h.next_index in
    let opened = record h { has_text_output = true; next_index = suc i } in
    if not_sent h
    then h
    else write_mode final (content_block_stop i) (
        write_mode final (content_block_delta i text_delta text)
          (write_mode final (content_block_start i text_kind) opened))
  where
    not_sent : StreamHandler → Bool
    not_sent g = is_empty text || (if g.is_stream then false else true)

-- `strings.TrimSpace(input)`, or "{}" where that is empty
abbrev pub input_json : Text → Text
input_json input = let t = trim_space input in if is_empty t then bytes "{}" else t

-- the three events of a tool's block
unfoldable pub write_tool_block : Bool → ToolCall → StreamHandler → StreamHandler
write_tool_block final call h =
    let i = h.next_index in
    write_mode final (content_block_stop i) (
      write_mode final (content_block_delta i input_json_delta (input_json call.call_input)) (
        write_mode final (content_block_start i (tool_kind call.call_id call.call_name))
          (record h { next_index = suc i })))

-- `emitToolCallStream` with the index -1, which asks for a new one
unfoldable pub emit_tool_call_stream : ToolCall → Bool → StreamHandler → StreamHandler
unfolding write_tool_block
emit_tool_call_stream call final h =
    if is_empty call.call_id
    then h
    else write_tool_block final call
        (add_output_tokens call.call_input (add_output_tokens call.call_name h))

-- `emitToolCallNonStream`; the JSON of the input is kept as it stands, and one that json.Unmarshal
-- does not decode is an empty object
unfoldable pub emit_tool_call_non_stream : ToolCall → StreamHandler → StreamHandler
emit_tool_call_non_stream call h =
    let counted = add_output_tokens call.call_input (add_output_tokens call.call_name h) in
    record counted {
      content_blocks =
          counted.content_blocks
          ++ tool_content call.call_id call.call_name
              (if call.is_json then input_json call.call_input else bytes "{}")
            ∷ [];
    }

abbrev pub member : Text → List Text → Bool
member t [] = false
member t (u ∷ us) = text_eq t u || member t us

-- `emitToolUseFromInput`
unfoldable pub emit_tool_use_from_input : ToolCall → StreamHandler → StreamHandler
unfolding write_tool_block
emit_tool_use_from_input call h =
    let known = record h { tool_call_emitted = call.call_id ∷ h.tool_call_emitted } in
    let counted = add_output_tokens call.call_name known in
    if is_empty call.call_id || is_empty call.call_name
    then h
    else if member call.call_id h.tool_call_emitted
    then h
    else write_tool_block false call
        (record counted { tool_call_count = counted.tool_call_count + 1 })

-- `handleToolCallAfterChecks`
unfoldable pub handle_tool_call_after_checks : ToolCall → StreamHandler → StreamHandler
handle_tool_call_after_checks call h = record h {
  pending_tool_calls = h.pending_tool_calls ++ call ∷ [];
  tool_call_count = h.tool_call_count + 1;
}

-- the write of a chunk to `writeChunkBuffer`
unfoldable pub buffer_chunk : Text → StreamHandler → StreamHandler
buffer_chunk text h = record h { write_chunk_buffer = h.write_chunk_buffer ++ text }

-- `InjectErrorText`, behind the marking of the output and `ensureBlock("text")`
unfoldable pub error_to_text : ℕ → ℕ → Text → StreamHandler → StreamHandler
unfolding extend_at
error_to_text i j message h =
    if h.is_stream
    then write_sse (content_block_delta i text_delta message) h
    else record h { content_blocks = extend_at j message h.content_blocks }

abbrev pub error_to_block : ActiveBlock → Text → StreamHandler → StreamHandler
error_to_block no_block message h = h
error_to_block (in_thinking i j) message h = h
error_to_block (in_text i j) message h = error_to_text i j message h

-- `InjectErrorText`
unfoldable pub inject_error_text : Text → StreamHandler → StreamHandler
unfolding mark_text_output ensure_text error_to_text
inject_error_text message h =
    let ready = (ensure_text (mark_text_output h)).1 in error_to_block ready.active message ready
