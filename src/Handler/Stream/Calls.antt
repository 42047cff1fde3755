-- ===== src/Handler/Stream/Calls.antt =====
-- Every sequence of calls of the methods with which a stream handler writes the events itself
-- (internal/handler/stream_handler.go), the start of another round among them. Events of an upstream
-- that are forwarded as they are, under the upstream's own index, are no calls here: those of
-- writeUpstreamEventSSE, WriteDirectSSE, FinishDirectSSE and handleDirectFinalSSEEvent.
use inf_api.Common.{
  ℕ, ◌≡◌, refl, ◌∙◌, Bool, true, false, Option, some, List, [], ◌∷◌, arith, inl, inr,
}
use inf_api.Common.Text.{Text}
use inf_api.Handler.Stream.{
  Event, message_start, keep_alive, no_block, StreamHandler, ToolCall, new_stream_handler,
  write_sse, write_sse_message_start, write_keep_alive, add_thinking_tokens, set_usage_tokens,
}
use inf_api.Handler.Stream.Blocks.{
  close_active_block, emit_text_delta, emit_thinking_delta, emit_tool_use_from_input,
  handle_tool_call_after_checks, buffer_chunk, inject_error_text,
}
use inf_api.Handler.Stream.Finish.{finish_response, force_finish_if_missing, reset_round_state}
use inf_api.Handler.Stream.Monitor.{Tracks, monitor, observe, Link, link}
use inf_api.Handler.Stream.Open.{IsTidy, expected, block_of, if-IsTidy, write_sse-IsTidy}
use inf_api.Handler.Stream.Brackets.{close_active_block-IsTidy, close_active_block-closed, Tidy-at}
use inf_api.Handler.Stream.Deltas.{
  emit_text_delta-IsTidy, emit_thinking_delta-IsTidy, emit_tool_use_from_input-IsTidy,
  inject_error_text-IsTidy,
}
use inf_api.Handler.Stream.Finished.{finish_response-IsTidy, force_finish_if_missing-IsTidy}

-- a call of a method with which the handler writes events itself
pub data Call : Type 0 where
  start : Text → ℕ → ℕ → Call
  alive : Call
  count_thinking : Text → Call
  usage : Option ℕ → Option ℕ → Call
  thinking : Text → Call
  text : Text → Call
  chunk : Text → Call
  tool_use : ToolCall → Call
  tool_call : ToolCall → Call
  error_text : Text → Call
  close_open : Call
  finish_with : Text → Call
  force_finish : Call
  next_round : Call

unfoldable pub call : Call → StreamHandler → StreamHandler
call (start model input output) h = write_sse_message_start model input output h
call alive h = write_keep_alive h
call (count_thinking t) h = add_thinking_tokens t h
call (usage input output) h = set_usage_tokens input output h
call (thinking t) h = emit_thinking_delta t h
call (text t) h = emit_text_delta t h
call (chunk t) h = buffer_chunk t h
call (tool_use c) h = emit_tool_use_from_input c h
call (tool_call c) h = handle_tool_call_after_checks c h
call (error_text t) h = inject_error_text t h
call close_open h = close_active_block h
call (finish_with reason) h = finish_response reason h
call force_finish h = force_finish_if_missing h
call next_round h = reset_round_state h

unfoldable pub run : List Call → StreamHandler → StreamHandler
run [] h = h
run (c ∷ cs) h = run cs (call c h)

plain_event-IsTidy :
    (e : Event) (h : StreamHandler)
    → ((b : ℕ × List ℕ) → observe e b ≡ some b)
    → IsTidy h
    → IsTidy (write_sse e h)
plain_event-IsTidy e h plain t =
    write_sse-IsTidy e (block_of h.active) h.next_index h
      (omega arith, λ n le. (n, le, plain (n, block_of h.active))) t

add_thinking_tokens-IsTidy :
    (t : Text) (h : StreamHandler) → IsTidy h → IsTidy (add_thinking_tokens t h)
unfolding add_thinking_tokens
add_thinking_tokens-IsTidy [] h x = x
add_thinking_tokens-IsTidy (c ∷ t) h x = if-IsTidy h.use_upstream_usage _ _ x x

fresh-Tracks :
    (b : Bool) (k : ℕ) (l : Link)
    → Tracks b (expected b []) k l
    → Tracks false [] k (l.0, l.1, l.2, false)
fresh-Tracks b k l t = record {
  seen = t.seen;
  held = t.held;
  below = t.below;
  so_far = t.so_far;
  exact = elim t.exact [ inl q ↦ inl q | inr x ↦ inr (refl, x.1 ∙ none_expected b) ];
}
  where
    none_expected : (c : Bool) → expected c [] ≡ []
    none_expected true = refl
    none_expected false = refl

-- a round that starts has no open block, also where the last one has returned
pub reset_round_state-IsTidy : (h : StreamHandler) → IsTidy h → IsTidy (reset_round_state h)
unfolding reset_round_state
reset_round_state-IsTidy h t =
    let closed = close_active_block h in
    let out =
      Tidy-at closed no_block (close_active_block-closed h) (close_active_block-IsTidy h t) in
    record {
      flag = false;
      tracks = fresh-Tracks out.flag closed.next_index (link closed) out.tracks;
    }

call-IsTidy : (c : Call) (h : StreamHandler) → IsTidy h → IsTidy (call c h)
unfolding call write_sse_message_start write_keep_alive set_usage_tokens buffer_chunk
    handle_tool_call_after_checks observe
call-IsTidy (start model input output) h t =
    plain_event-IsTidy (message_start model input output) h (λ b. refl) t
call-IsTidy alive h t = plain_event-IsTidy keep_alive h (λ b. refl) t
call-IsTidy (count_thinking x) h t = add_thinking_tokens-IsTidy x h t
call-IsTidy (usage input output) h t = t
call-IsTidy (thinking x) h t = emit_thinking_delta-IsTidy x h t
call-IsTidy (text x) h t = emit_text_delta-IsTidy x h t
call-IsTidy (chunk x) h t = t
call-IsTidy (tool_use c) h t = emit_tool_use_from_input-IsTidy c h t
call-IsTidy (tool_call c) h t = t
call-IsTidy (error_text x) h t = inject_error_text-IsTidy x h t
call-IsTidy close_open h t = close_active_block-IsTidy h t
call-IsTidy (finish_with reason) h t = finish_response-IsTidy reason h t
call-IsTidy force_finish h t = force_finish_if_missing-IsTidy h t
call-IsTidy next_round h t = reset_round_state-IsTidy h t

pub run-IsTidy : (cs : List Call) (h : StreamHandler) → IsTidy h → IsTidy (run cs h)
unfolding run
run-IsTidy [] h t = t
run-IsTidy (c ∷ cs) h t = run-IsTidy cs (call c h) (call-IsTidy c h t)

pub new_stream_handler-IsTidy :
    (suppress_thinking is_stream : Bool) (lifetime : Option ℕ)
    → IsTidy (new_stream_handler suppress_thinking is_stream lifetime)
unfolding new_stream_handler monitor
new_stream_handler-IsTidy suppress_thinking is_stream lifetime = record {
  flag = false;
  tracks = record {
    seen = 0;
    held = [];
    below = omega arith;
    so_far = refl;
    exact = inr (refl, refl);
  };
}
