-- ===== src/Handler/Stream/Finish.antt =====
-- The end of a streamed response, and the start of another round
-- (internal/handler/stream_handler.go).
use inf_api.Common.{
  Bool, true, false, not, ◌&&◌, ◌||◌, List, [], ◌∷◌, ◌++◌, is_empty, ltb, if◌then◌else◌,
}
use inf_api.Common.Text.{Text, bytes, text_eq}
use inf_api.Tiktoken.Estimator.{reset}
use inf_api.Handler.Stream.{
  content_block_stop, message_delta, message_stop, ActiveBlock, no_block, in_thinking, in_text,
  ToolCall, text_content, StreamHandler, write_final_sse, finalize_output_tokens,
}
use inf_api.Handler.Stream.Blocks.{
  close_active_block, emit_text_block, emit_tool_call_stream, emit_tool_call_non_stream,
}

-- `hasToolCalls`
unfoldable pub has_tool_calls : StreamHandler → Bool
has_tool_calls h =
    ltb 0 h.tool_call_count
    || (not (is_empty h.pending_tool_calls) || not (is_empty h.tool_call_emitted))

-- `emitWriteChunkFallbackIfNeeded`
unfoldable pub emit_write_chunk_fallback : StreamHandler → StreamHandler
unfolding emit_text_block
emit_write_chunk_fallback h =
    let marked = record h { has_text_output = true } in
    if h.has_text_output || is_empty h.write_chunk_buffer
    then h
    else if h.is_stream
    then emit_text_block h.write_chunk_buffer true marked
    else record marked {
      content_blocks = h.content_blocks ++ text_content h.write_chunk_buffer ∷ [];
    }

-- the loop of `flushPendingToolCalls`
unfoldable pub flush_calls : List ToolCall → StreamHandler → StreamHandler
unfolding emit_tool_call_stream emit_tool_call_non_stream
flush_calls [] h = h
flush_calls (call ∷ calls) h =
    let rest = flush_calls calls in
    if h.is_stream
    then rest (emit_tool_call_stream call true h)
    else rest (emit_tool_call_non_stream call h)

-- `flushPendingToolCalls`
unfoldable pub flush_pending_tool_calls : StreamHandler → StreamHandler
unfolding flush_calls
flush_pending_tool_calls h = flush_calls h.pending_tool_calls (record h { pending_tool_calls = [] })

-- the stop event of the open block, in `finishResponse`
abbrev pub stop_block : ActiveBlock → StreamHandler → StreamHandler
stop_block no_block h = h
stop_block (in_thinking i j) h =
    write_final_sse (content_block_stop i) (record h { active = no_block })
stop_block (in_text i j) h = write_final_sse (content_block_stop i) (record h { active = no_block })

unfoldable pub stop_active_block : StreamHandler → StreamHandler
stop_active_block h = stop_block h.active h

-- what is left in the buffers is written
unfoldable pub flush_buffers : Text → StreamHandler → StreamHandler
unfolding emit_write_chunk_fallback flush_pending_tool_calls
flush_buffers reason h =
    let written = if text_eq reason (bytes "tool_use") then h else emit_write_chunk_fallback h in
    finalize_output_tokens (flush_pending_tool_calls written)

-- the stop reason that `finishResponse` settles on
unfoldable pub settled_reason : Text → StreamHandler → Text
unfolding has_tool_calls
settled_reason reason h =
    if text_eq reason (bytes "tool_use") && not (has_tool_calls h) then bytes "end_turn" else reason

-- the last two events
unfoldable pub write_message_end : Text → StreamHandler → StreamHandler
write_message_end reason h =
    write_final_sse message_stop (write_final_sse (message_delta reason h.output_tokens) h)

-- `finishResponse`
unfoldable pub finish_response : Text → StreamHandler → StreamHandler
unfolding settled_reason stop_active_block flush_buffers write_message_end
finish_response reason h =
    let settled = settled_reason reason h in
    let returned = record h { has_return = true; final_stop_reason = settled } in
    if h.has_return
    then h
    else if h.is_stream
    then write_message_end settled (flush_buffers settled (stop_active_block returned))
    else flush_buffers settled returned

-- `forceFinishIfMissing`
unfoldable pub force_finish_if_missing : StreamHandler → StreamHandler
unfolding finish_response has_tool_calls
force_finish_if_missing h =
    if h.has_return
    then h
    else finish_response (if has_tool_calls h then bytes "tool_use" else bytes "end_turn") h

-- `hasAnyOutput`
unfoldable pub has_any_output : StreamHandler → Bool
has_any_output h =
    (h.has_text_output || (ltb 0 h.tool_call_count || not (is_empty h.pending_tool_calls)))
    || ((not (is_empty h.tool_call_emitted) || not (is_empty h.content_blocks))
        || (not (is_empty h.response_text)
            || (not (is_empty h.write_chunk_buffer) || h.output_estimator.has_text)))

-- `resetRoundState`
unfoldable pub reset_round_state : StreamHandler → StreamHandler
unfolding close_active_block
reset_round_state h =
    let closed = close_active_block h in
    record closed {
      active = no_block;
      has_return = false;
      response_text = [];
      content_blocks = [];
      pending_tool_calls = [];
      tool_call_emitted = [];
      tool_call_count = 0;
      output_tokens = 0;
      thinking_tokens = 0;
      output_estimator = reset closed.output_estimator;
      write_chunk_buffer = [];
      use_upstream_usage = false;
      final_stop_reason = [];
      has_text_output = false;
    }
