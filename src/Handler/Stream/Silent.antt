-- ===== src/Handler/Stream/Silent.antt =====
-- A response that has returned (internal/handler/stream_handler.go): the calls that come after it.
use inf_api.Common.{
  ℕ, ◌+◌, ◌≡◌, ap, ◌∙◌, Bool, true, false, Option, none, List, [], ◌∷◌, if◌then◌else◌, is_empty,
  ◌||◌,
}
use inf_api.Common.Text.{Text, bytes}
use inf_api.Handler.Stream.{
  Event, DeltaKind, content_block_delta, content_block_stop, message_start, keep_alive, ActiveBlock,
  no_block, in_thinking, in_text, StreamHandler, ToolCall, write_sse, write_sse_message_start,
  write_keep_alive, add_thinking_tokens, add_output_tokens, set_usage_tokens, write_mode,
  text_delta, thinking_delta,
}
use inf_api.Handler.Stream.Blocks.{
  close_active_block, close_block, start_text, start_thinking, text_from, thinking_from,
  ensure_text, ensure_thinking, delta_to_block, text_to_block, thinking_to_block, error_to_block,
  error_to_text, emit_text_delta, emit_thinking_delta, emit_tool_use_from_input, write_tool_block,
  handle_tool_call_after_checks, buffer_chunk, inject_error_text, mark_text_output, member,
}
use inf_api.Handler.Stream.Finish.{finish_response, force_finish_if_missing, has_tool_calls}
use inf_api.Handler.Stream.Monitor.{write_sse_returned}
use inf_api.Handler.Stream.Brackets.{add_output_tokens-SameView}
use inf_api.Handler.Stream.Finished.{finish_response_again}
use inf_api.Handler.Stream.Calls.{
  Call, start, alive, count_thinking, usage, thinking, text, chunk, tool_use, tool_call, error_text,
  close_open, finish_with, force_finish, next_round, call, run,
}

-- the response has returned, and these are the events that were sent
pub record Still (es : List Event) (done : Bool) (out : List Event) : Type 0 where
  pub returned : done ≡ true
  pub same : out ≡ es

module _ (es : List Event) where
  abbrev IsStill : StreamHandler → Type 0
  IsStill h = Still es h.has_return h.sent

  if-IsStill :
      (b : Bool) (g h : StreamHandler) → IsStill g → IsStill h → IsStill (if b then g else h)
  if-IsStill true g h s t = s
  if-IsStill false g h s t = t

  write_sse-IsStill : (e : Event) (h : StreamHandler) → IsStill h → IsStill (write_sse e h)
  write_sse-IsStill e h t = rw (write_sse_returned e h t.returned) t

  add_output_tokens-IsStill :
      (s : Text) (h : StreamHandler) → IsStill h → IsStill (add_output_tokens s h)
  add_output_tokens-IsStill s h t =
      let l = (add_output_tokens-SameView s h).0 in
      record { returned = ap (λ x. x.3) l ∙ t.returned; same = ap (λ x. x.2) l ∙ t.same }

  add_thinking_tokens-IsStill :
      (s : Text) (h : StreamHandler) → IsStill h → IsStill (add_thinking_tokens s h)
  unfolding add_thinking_tokens
  add_thinking_tokens-IsStill [] h t = t
  add_thinking_tokens-IsStill (c ∷ s) h t = if-IsStill h.use_upstream_usage _ _ t t

  close_block-IsStill :
      (a : ActiveBlock) (h : StreamHandler) → IsStill h → IsStill (close_block a h)
  close_block-IsStill no_block h t = t
  close_block-IsStill (in_thinking i j) h t =
      write_sse-IsStill (content_block_stop i) (record h { active = no_block }) t
  close_block-IsStill (in_text i j) h t =
      write_sse-IsStill (content_block_stop i) (record h { active = no_block }) t

  text_from-IsStill : (a : ActiveBlock) (h : StreamHandler) → IsStill h → IsStill (text_from a h).1
  unfolding start_text close_active_block
  text_from-IsStill no_block h t = write_sse-IsStill _ _ t
  text_from-IsStill (in_thinking i j) h t = write_sse-IsStill _ _ (close_block-IsStill h.active h t)
  text_from-IsStill (in_text i j) h t = t

  thinking_from-IsStill :
      (a : ActiveBlock) (h : StreamHandler) → IsStill h → IsStill (thinking_from a h).1
  unfolding start_thinking close_active_block
  thinking_from-IsStill no_block h t = write_sse-IsStill _ _ t
  thinking_from-IsStill (in_text i j) h t = write_sse-IsStill _ _ (close_block-IsStill h.active h t)
  thinking_from-IsStill (in_thinking i j) h t = t

  ensure_thinking-IsStill : (h : StreamHandler) → IsStill h → IsStill (ensure_thinking h).1
  unfolding ensure_thinking
  ensure_thinking-IsStill h t = go h.suppress_thinking
    where
      go :
          (b : Bool)
          → IsStill
              (if◌then◌else◌ {A = Option ℕ × StreamHandler} b
                (none, h)
                (thinking_from h.active h)).1
      go true = t
      go false = thinking_from-IsStill h.active h t

  delta_to_block-IsStill :
      (kind : DeltaKind) (i j : ℕ) (delta : Text) (h : StreamHandler)
      → IsStill h
      → IsStill (delta_to_block kind i j delta h)
  unfolding delta_to_block
  delta_to_block-IsStill kind i j delta h t =
      write_sse-IsStill _ _ (add_output_tokens-IsStill delta h t)

  text_to_block-IsStill :
      (a : ActiveBlock) (delta : Text) (h : StreamHandler)
      → IsStill h
      → IsStill (text_to_block a delta h)
  text_to_block-IsStill no_block delta h t = t
  text_to_block-IsStill (in_thinking i j) delta h t = t
  text_to_block-IsStill (in_text i j) delta h t = delta_to_block-IsStill text_delta i j delta h t

  thinking_to_block-IsStill :
      (a : ActiveBlock) (delta : Text) (h : StreamHandler)
      → IsStill h
      → IsStill (thinking_to_block a delta h)
  thinking_to_block-IsStill no_block delta h t = t
  thinking_to_block-IsStill (in_text i j) delta h t = t
  thinking_to_block-IsStill (in_thinking i j) delta h t =
      delta_to_block-IsStill thinking_delta i j delta h t

  error_to_block-IsStill :
      (a : ActiveBlock) (message : Text) (h : StreamHandler)
      → IsStill h
      → IsStill (error_to_block a message h)
  unfolding error_to_text
  error_to_block-IsStill no_block message h t = t
  error_to_block-IsStill (in_thinking i j) message h t = t
  error_to_block-IsStill (in_text i j) message h t =
      if-IsStill h.is_stream _ _ (write_sse-IsStill (content_block_delta i text_delta message) h t)
        t

  write_tool_block-IsStill :
      (c : ToolCall) (h : StreamHandler) → IsStill h → IsStill (write_tool_block false c h)
  unfolding write_tool_block write_mode
  write_tool_block-IsStill c h t =
      write_sse-IsStill _ _ (write_sse-IsStill _ _ (write_sse-IsStill _ _ t))

  emit_tool_use_from_input-IsStill :
      (c : ToolCall) (h : StreamHandler) → IsStill h → IsStill (emit_tool_use_from_input c h)
  unfolding emit_tool_use_from_input
  emit_tool_use_from_input-IsStill c h t =
      let known : StreamHandler = record h {
        tool_call_emitted = c.call_id ∷ h.tool_call_emitted;
      } in
      let counted = add_output_tokens c.call_name known in
      let ready : StreamHandler = record counted {
        tool_call_count = counted.tool_call_count + 1;
      } in
      if-IsStill (is_empty c.call_id || is_empty c.call_name) _ _ t (
        if-IsStill (member c.call_id h.tool_call_emitted) _ _ t
          (write_tool_block-IsStill c ready (add_output_tokens-IsStill c.call_name known t)))

  emit_text_delta-IsStill :
      (s : Text) (h : StreamHandler) → IsStill h → IsStill (emit_text_delta s h)
  unfolding emit_text_delta mark_text_output ensure_text
  emit_text_delta-IsStill [] h t = t
  emit_text_delta-IsStill (c ∷ s) h t =
      let ready = (ensure_text (mark_text_output h)).1 in
      text_to_block-IsStill ready.active (c ∷ s) ready
        (text_from-IsStill h.active (mark_text_output h) t)

  emit_thinking_delta-IsStill :
      (s : Text) (h : StreamHandler) → IsStill h → IsStill (emit_thinking_delta s h)
  unfolding emit_thinking_delta
  emit_thinking_delta-IsStill [] h t = t
  emit_thinking_delta-IsStill (c ∷ s) h t =
      let ready = (ensure_thinking h).1 in
      if-IsStill h.suppress_thinking _ _ t
        (thinking_to_block-IsStill ready.active (c ∷ s) ready (ensure_thinking-IsStill h t))

  inject_error_text-IsStill :
      (s : Text) (h : StreamHandler) → IsStill h → IsStill (inject_error_text s h)
  unfolding inject_error_text mark_text_output ensure_text
  inject_error_text-IsStill s h t =
      let ready = (ensure_text (mark_text_output h)).1 in
      error_to_block-IsStill ready.active s ready
        (text_from-IsStill h.active (mark_text_output h) t)

  finish_response-IsStill :
      (reason : Text) (h : StreamHandler) → IsStill h → IsStill (finish_response reason h)
  finish_response-IsStill reason h t = rw (finish_response_again reason h t.returned) t

-- a call of the round that runs, not the start of another
abbrev pub is_of_round : Call → Bool
is_of_round next_round = false
is_of_round _ = true

abbrev pub SameRound : List Call → Type 0
SameRound [] = Unit
SameRound (c ∷ cs) = (is_of_round c ≡ true) × SameRound cs

call-IsStill :
    (es : List Event) (c : Call) (h : StreamHandler)
    → is_of_round c ≡ true
    → IsStill es h
    → IsStill es (call c h)
unfolding call write_sse_message_start write_keep_alive set_usage_tokens buffer_chunk
    handle_tool_call_after_checks force_finish_if_missing close_active_block
call-IsStill es (start model input output) h r t =
    write_sse-IsStill es (message_start model input output) h t
call-IsStill es alive h r t = write_sse-IsStill es keep_alive h t
call-IsStill es (count_thinking s) h r t = add_thinking_tokens-IsStill es s h t
call-IsStill es (usage input output) h r t = record { returned = t.returned; same = t.same }
call-IsStill es (thinking s) h r t = emit_thinking_delta-IsStill es s h t
call-IsStill es (text s) h r t = emit_text_delta-IsStill es s h t
call-IsStill es (chunk s) h r t = record { returned = t.returned; same = t.same }
call-IsStill es (tool_use c) h r t = emit_tool_use_from_input-IsStill es c h t
call-IsStill es (tool_call c) h r t = record { returned = t.returned; same = t.same }
call-IsStill es (error_text s) h r t = inject_error_text-IsStill es s h t
call-IsStill es close_open h r t = close_block-IsStill es h.active h t
call-IsStill es (finish_with reason) h r t = finish_response-IsStill es reason h t
call-IsStill es force_finish h r t = if-IsStill es h.has_return _ _ t (
    finish_response-IsStill es (if has_tool_calls h then bytes "tool_use" else bytes "end_turn") h
      t)
call-IsStill es next_round h r t = cc

pub run-IsStill :
    (es : List Event) (cs : List Call) (h : StreamHandler)
    → SameRound cs
    → IsStill es h
    → IsStill es (run cs h)
unfolding run
run-IsStill es [] h r t = t
run-IsStill es (c ∷ cs) h r t = run-IsStill es cs (call c h) r.1 (call-IsStill es c h r.0 t)
