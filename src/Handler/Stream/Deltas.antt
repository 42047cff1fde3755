-- ===== src/Handler/Stream/Deltas.antt =====
-- The operations that write deltas, error texts and tools (internal/handler/stream_handler.go) keep
-- the handler's view of the open blocks equal to the client's.
use inf_api.Common.{ℕ, ◌+◌, ◌≡◌, refl, ap, ◌∙◌, ◌||◌, [], ◌∷◌, is_empty}
use inf_api.Common.Text.{Text}
use inf_api.Handler.Stream.{
  DeltaKind, content_block_delta, ActiveBlock, no_block, in_thinking, in_text, StreamHandler,
  ToolCall, write_sse, add_output_tokens, thinking_delta, text_delta, tool_kind, input_json_delta,
}
use inf_api.Handler.Stream.Blocks.{
  ensure_thinking, ensure_text, mark_text_output, text_to_block, thinking_to_block, delta_to_block,
  error_to_text, emit_text_delta, emit_thinking_delta, write_tool_block, emit_tool_use_from_input,
  error_to_block, inject_error_text, member, extend_at, input_json,
}
use inf_api.Handler.Stream.Monitor.{Leads}
use inf_api.Handler.Stream.Open.{block_of, IsTidy, Leads-delta, write_sse-IsTidy, if-IsTidy}
use inf_api.Handler.Stream.Brackets.{
  SameView-IsTidy, add_output_tokens-SameView, whole_block-IsTidy, ensure_text-IsTidy,
  ensure_thinking-IsTidy,
}

-- a delta of the open block
write_delta-IsTidy :
    (kind : DeltaKind) (i : ℕ) (delta : Text) (h : StreamHandler)
    → block_of h.active ≡ i ∷ []
    → IsTidy h
    → IsTidy (write_sse (content_block_delta i kind delta) h)
write_delta-IsTidy kind i delta h p t =
    let leads : Leads (content_block_delta i kind delta) (block_of h.active) (block_of h.active)
        h.next_index h.next_index =
      rw p (Leads-delta i h.next_index kind delta []) in
    write_sse-IsTidy (content_block_delta i kind delta) (block_of h.active) h.next_index h leads t

delta_to_block-IsTidy :
    (kind : DeltaKind) (i j : ℕ) (delta : Text) (h : StreamHandler)
    → block_of h.active ≡ i ∷ []
    → IsTidy h
    → IsTidy (delta_to_block kind i j delta h)
unfolding delta_to_block
delta_to_block-IsTidy kind i j delta h p t =
    let counted = add_output_tokens delta h in
    let same = add_output_tokens-SameView delta h in
    let filled : StreamHandler = record counted {
      content_blocks = extend_at j delta counted.content_blocks;
    } in
    write_delta-IsTidy kind i delta filled (ap block_of same.1 ∙ p)
      (SameView-IsTidy counted h same t)

error_to_text-IsTidy :
    (i j : ℕ) (message : Text) (h : StreamHandler)
    → block_of h.active ≡ i ∷ []
    → IsTidy h
    → IsTidy (error_to_text i j message h)
unfolding error_to_text
error_to_text-IsTidy i j message h p t =
    if-IsTidy h.is_stream _ _ (write_delta-IsTidy text_delta i message h p t) t

text_to_block-IsTidy :
    (a : ActiveBlock) (delta : Text) (h : StreamHandler)
    → h.active ≡ a
    → IsTidy h
    → IsTidy (text_to_block a delta h)
text_to_block-IsTidy no_block delta h p t = t
text_to_block-IsTidy (in_thinking i j) delta h p t = t
text_to_block-IsTidy (in_text i j) delta h p t =
    delta_to_block-IsTidy text_delta i j delta h (ap block_of p) t

thinking_to_block-IsTidy :
    (a : ActiveBlock) (delta : Text) (h : StreamHandler)
    → h.active ≡ a
    → IsTidy h
    → IsTidy (thinking_to_block a delta h)
thinking_to_block-IsTidy no_block delta h p t = t
thinking_to_block-IsTidy (in_text i j) delta h p t = t
thinking_to_block-IsTidy (in_thinking i j) delta h p t =
    delta_to_block-IsTidy thinking_delta i j delta h (ap block_of p) t

error_to_block-IsTidy :
    (a : ActiveBlock) (message : Text) (h : StreamHandler)
    → h.active ≡ a
    → IsTidy h
    → IsTidy (error_to_block a message h)
error_to_block-IsTidy no_block message h p t = t
error_to_block-IsTidy (in_thinking i j) message h p t = t
error_to_block-IsTidy (in_text i j) message h p t =
    error_to_text-IsTidy i j message h (ap block_of p) t

pub emit_text_delta-IsTidy :
    (delta : Text) (h : StreamHandler) → IsTidy h → IsTidy (emit_text_delta delta h)
unfolding emit_text_delta mark_text_output
emit_text_delta-IsTidy [] h t = t
emit_text_delta-IsTidy (c ∷ delta) h t =
    text_to_block-IsTidy _ (c ∷ delta) (ensure_text (mark_text_output h)).1 refl
      (ensure_text-IsTidy (mark_text_output h) t)

pub emit_thinking_delta-IsTidy :
    (delta : Text) (h : StreamHandler) → IsTidy h → IsTidy (emit_thinking_delta delta h)
unfolding emit_thinking_delta
emit_thinking_delta-IsTidy [] h t = t
emit_thinking_delta-IsTidy (c ∷ delta) h t =
    if-IsTidy h.suppress_thinking _ _ t (
      thinking_to_block-IsTidy _ (c ∷ delta) (ensure_thinking h).1 refl
        (ensure_thinking-IsTidy h t))

pub inject_error_text-IsTidy :
    (message : Text) (h : StreamHandler) → IsTidy h → IsTidy (inject_error_text message h)
unfolding inject_error_text mark_text_output
inject_error_text-IsTidy message h t =
    error_to_block-IsTidy _ message (ensure_text (mark_text_output h)).1 refl
      (ensure_text-IsTidy (mark_text_output h) t)

pub emit_tool_use_from_input-IsTidy :
    (call : ToolCall) (h : StreamHandler) → IsTidy h → IsTidy (emit_tool_use_from_input call h)
unfolding emit_tool_use_from_input write_tool_block
emit_tool_use_from_input-IsTidy call h t =
    let known : StreamHandler = record h {
      tool_call_emitted = call.call_id ∷ h.tool_call_emitted;
    } in
    let counted = add_output_tokens call.call_name known in
    let clean = SameView-IsTidy counted known (add_output_tokens-SameView call.call_name known) t in
    let started : StreamHandler = record counted {
      tool_call_count = counted.tool_call_count + 1;
    } in
    let written =
      whole_block-IsTidy (tool_kind call.call_id call.call_name) input_json_delta
        (input_json call.call_input) started clean in
    if-IsTidy (is_empty call.call_id || is_empty call.call_name) _ _ t
      (if-IsTidy (member call.call_id h.tool_call_emitted) _ _ t written)
