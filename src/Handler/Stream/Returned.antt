-- ===== src/Handler/Stream/Returned.antt =====
-- A response that is finished has returned (internal/handler/stream_handler.go).
use inf_api.Common.{
  ◌≡◌, refl, ap, ◌∙◌, Bool, true, false, ◌||◌, List, [], ◌∷◌, if◌then◌else◌, inl, inr, Bool-cases,
  is_empty, by_test,
}
use inf_api.Common.Text.{Text, bytes, text_eq}
use inf_api.Handler.Stream.{
  Event, ActiveBlock, no_block, in_thinking, in_text, StreamHandler, ToolCall, mark_write_error,
  write_frame, write_final_sse, write_mode, add_output_tokens, finalize_output_tokens,
  content_block_stop, message_stop, message_delta,
}
use inf_api.Handler.Stream.Blocks.{
  emit_text_block, write_tool_block, emit_tool_call_stream, emit_tool_call_non_stream,
}
use inf_api.Handler.Stream.Finish.{
  emit_write_chunk_fallback, flush_calls, flush_pending_tool_calls, stop_block, stop_active_block,
  flush_buffers, settled_reason, write_message_end, finish_response, force_finish_if_missing,
  has_tool_calls,
}
use inf_api.Handler.Stream.Monitor.{
  lifetime-cases, write_final_sse_on, write_final_sse_off, write_frame_free, write_frame_lost,
  write_frame_left,
}
use inf_api.Handler.Stream.Brackets.{add_output_tokens-SameView}
use inf_api.Handler.Stream.Finished.{
  finish_response_again, finish_response_stream, finish_response_flat, ending, returned,
}

abbrev pub IsDone : StreamHandler → Type 0
IsDone h = h.has_return ≡ true

if-IsDone : (b : Bool) (g h : StreamHandler) → IsDone g → IsDone h → IsDone (if b then g else h)
if-IsDone true g h s t = s
if-IsDone false g h s t = t

mark_write_error-IsDone : (h : StreamHandler) → IsDone h → IsDone (mark_write_error h)
unfolding mark_write_error
mark_write_error-IsDone h t = if-IsDone h.has_return _ _ t refl

write_frame-IsDone : (e : Event) (h : StreamHandler) → IsDone h → IsDone (write_frame e h)
write_frame-IsDone e h t = elim (lifetime-cases h.lifetime) [
  | inl free ↦ rw (write_frame_free e h free) t
  | inr limited ↦ elim limited [
    | inl lost ↦ rw (write_frame_lost e h lost) (mark_write_error-IsDone h t)
    | inr (n, left) ↦ rw (write_frame_left e h n left) t
  ]
]

write_final_sse-IsDone : (e : Event) (h : StreamHandler) → IsDone h → IsDone (write_final_sse e h)
write_final_sse-IsDone e h t = elim (Bool-cases h.is_stream) [
  | inl on ↦ rw (write_final_sse_on e h on) (write_frame-IsDone e h t)
  | inr off ↦ rw (write_final_sse_off e h off) t
]

add_output_tokens-IsDone :
    (s : Text) (h : StreamHandler) → IsDone h → IsDone (add_output_tokens s h)
add_output_tokens-IsDone s h t = ap (λ x. x.3) (add_output_tokens-SameView s h).0 ∙ t

emit_text_block-IsDone :
    (s : Text) (h : StreamHandler) → IsDone h → IsDone (emit_text_block s true h)
unfolding emit_text_block write_mode
emit_text_block-IsDone s h t =
    if-IsDone (is_empty s || (if h.is_stream then false else true)) _ _ t
      (write_final_sse-IsDone _ _ (write_final_sse-IsDone _ _ (write_final_sse-IsDone _ _ t)))

emit_write_chunk_fallback-IsDone :
    (h : StreamHandler) → IsDone h → IsDone (emit_write_chunk_fallback h)
unfolding emit_write_chunk_fallback
emit_write_chunk_fallback-IsDone h t =
    let marked : StreamHandler = record h { has_text_output = true } in
    if-IsDone (h.has_text_output || is_empty h.write_chunk_buffer) _ _ t
      (if-IsDone h.is_stream _ _ (emit_text_block-IsDone h.write_chunk_buffer marked t) t)

write_tool_block-IsDone :
    (c : ToolCall) (h : StreamHandler) → IsDone h → IsDone (write_tool_block true c h)
unfolding write_tool_block write_mode
write_tool_block-IsDone c h t =
    write_final_sse-IsDone _ _ (write_final_sse-IsDone _ _ (write_final_sse-IsDone _ _ t))

counted-IsDone :
    (c : ToolCall) (h : StreamHandler)
    → IsDone h
    → IsDone (add_output_tokens c.call_input (add_output_tokens c.call_name h))
counted-IsDone c h t =
    add_output_tokens-IsDone c.call_input (add_output_tokens c.call_name h)
      (add_output_tokens-IsDone c.call_name h t)

flush_calls-IsDone :
    (calls : List ToolCall) (h : StreamHandler) → IsDone h → IsDone (flush_calls calls h)
unfolding flush_calls emit_tool_call_stream emit_tool_call_non_stream
flush_calls-IsDone [] h t = t
flush_calls-IsDone (c ∷ calls) h t =
    let counted = add_output_tokens c.call_input (add_output_tokens c.call_name h) in
    let kept = counted-IsDone c h t in
    if-IsDone h.is_stream _ _
      (flush_calls-IsDone calls (emit_tool_call_stream c true h)
        (if-IsDone (is_empty c.call_id) _ _ t (write_tool_block-IsDone c counted kept)))
      (flush_calls-IsDone calls (emit_tool_call_non_stream c h) kept)

flush_buffers-IsDone :
    (reason : Text) (h : StreamHandler) → IsDone h → IsDone (flush_buffers reason h)
unfolding flush_buffers flush_pending_tool_calls finalize_output_tokens
flush_buffers-IsDone reason h t =
    let written = if text_eq reason (bytes "tool_use") then h else emit_write_chunk_fallback h in
    let flushed = flush_pending_tool_calls written in
    let kept =
      flush_calls-IsDone written.pending_tool_calls (record written { pending_tool_calls = [] })
        (if-IsDone (text_eq reason (bytes "tool_use")) _ _ t
          (emit_write_chunk_fallback-IsDone h t)) in
    if-IsDone flushed.use_upstream_usage _ _ kept kept

stop_block-IsDone : (a : ActiveBlock) (h : StreamHandler) → IsDone h → IsDone (stop_block a h)
stop_block-IsDone no_block h t = t
stop_block-IsDone (in_thinking i j) h t =
    write_final_sse-IsDone (content_block_stop i) (record h { active = no_block }) t
stop_block-IsDone (in_text i j) h t =
    write_final_sse-IsDone (content_block_stop i) (record h { active = no_block }) t

ending-IsDone : (settled : Text) (h : StreamHandler) → IsDone (ending settled h)
unfolding stop_active_block
ending-IsDone settled h =
    flush_buffers-IsDone settled (stop_block h.active (returned settled h))
      (stop_block-IsDone h.active (returned settled h) refl)

write_message_end-IsDone :
    (reason : Text) (h : StreamHandler) → IsDone h → IsDone (write_message_end reason h)
unfolding write_message_end
write_message_end-IsDone reason h t =
    write_final_sse-IsDone message_stop _
      (write_final_sse-IsDone (message_delta reason h.output_tokens) h t)

pub finish_response-IsDone : (reason : Text) (h : StreamHandler) → IsDone (finish_response reason h)
finish_response-IsDone reason h =
    let settled = settled_reason reason h in
    elim (Bool-cases h.has_return) [
      | inl done ↦ rw (finish_response_again reason h done) done
      | inr live ↦ elim (Bool-cases h.is_stream) [
        | inl on ↦
            rw (finish_response_stream reason h live on)
              (write_message_end-IsDone settled (ending settled h) (ending-IsDone settled h))
        | inr off ↦
            rw (finish_response_flat reason h live off)
              (flush_buffers-IsDone settled (returned settled h) refl)
      ]
    ]

pub force_finish_if_missing-IsDone : (h : StreamHandler) → IsDone (force_finish_if_missing h)
unfolding force_finish_if_missing
force_finish_if_missing-IsDone h =
    let reason = if has_tool_calls h then bytes "tool_use" else bytes "end_turn" in
    by_test IsDone h.has_return _ _ (λ done. done) (λ live. finish_response-IsDone reason h)
