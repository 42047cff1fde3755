-- ===== src/Handler/Stream/Ended.antt =====
-- The end of a streamed response (internal/handler/stream_handler.go): the blocks that finishing it
-- writes and closes.
use inf_api.Common.{
  ℕ, suc, ◌≡◌, refl, sym, ap, ◌∙◌, Bool, true, false, ◌||◌, none, List, [], ◌∷◌, arith,
  if◌then◌else◌, inl, inr, is_empty,
}
use inf_api.Common.Text.{Text, bytes, text_eq}
use inf_api.Handler.Stream.{
  Event, BlockKind, DeltaKind, content_block_start, content_block_delta, content_block_stop,
  message_delta, message_stop, ActiveBlock, no_block, in_thinking, in_text, StreamHandler, ToolCall,
  write_final_sse, write_mode, add_output_tokens, finalize_output_tokens, text_kind, text_delta,
  tool_kind, input_json_delta,
}
use inf_api.Handler.Stream.Blocks.{
  emit_text_block, write_tool_block, emit_tool_call_stream, emit_tool_call_non_stream, input_json,
}
use inf_api.Handler.Stream.Finish.{
  emit_write_chunk_fallback, flush_calls, flush_pending_tool_calls, stop_block, flush_buffers,
  write_message_end,
}
use inf_api.Handler.Stream.Monitor.{
  Leads, Tracks, Link, link, observe, write_final_sse_on, write_frame_free,
}
use inf_api.Handler.Stream.Tracking.{Tracks-write_final_sse}
use inf_api.Handler.Stream.Open.{block_of, expected, Tidy, Leads-stop, write_mode-SameBlocks}
use inf_api.Handler.Stream.Brackets.{
  SameView, add_output_tokens-SameView, whole_block, whole_block-Carries, whole_block-SameBlocks,
}

-- a streamed response on a connection that takes every frame
abbrev pub IsFree : Link → Type 0
IsFree l = (l.0 ≡ true) × (l.1 ≡ none)

-- a response that has returned and has no open block; free says that its connection takes every
-- frame
pub record Over (free : Bool) (k : ℕ) (l : Link) : Type 0 where
  pub tracks : Tracks true [] k l
  pub free_still : free ≡ true → IsFree l

abbrev pub IsOver : Bool → StreamHandler → Type 0
IsOver free h = Over free h.next_index (link h)

pub write_final_sse_free :
    (e : Event) (h : StreamHandler)
    → IsFree (link h)
    → write_final_sse e h ≡ record h { sent = e ∷ h.sent }
write_final_sse_free e h free = write_final_sse_on e h free.0 ∙ write_frame_free e h free.1

write_final_sse-IsFree :
    (e : Event) (h : StreamHandler) → IsFree (link h) → IsFree (link (write_final_sse e h))
write_final_sse-IsFree e h free = rw (write_final_sse_free e h free) free

Leads-message_stop : (k : ℕ) → Leads message_stop [] [] k k
unfolding observe
Leads-message_stop k = (omega arith, λ n le. (n, le, refl))

Leads-message_delta : (reason : Text) (output k : ℕ) → Leads (message_delta reason output) [] [] k k
unfolding observe
Leads-message_delta reason output k = (omega arith, λ n le. (n, le, refl))

module _ (free : Bool) where
  if-IsOver :
      (b : Bool) (g h : StreamHandler)
      → IsOver free g
      → IsOver free h
      → IsOver free (if b then g else h)
  if-IsOver true g h s t = s
  if-IsOver false g h s t = t

  SameView-IsOver : (g h : StreamHandler) → SameView g h → IsOver free h → IsOver free g
  SameView-IsOver g h s t = rw (s.0, s.2) t

  whole_block-IsOver :
      (kind : BlockKind) (delta : DeltaKind) (text : Text) (h : StreamHandler)
      → IsOver free h
      → IsOver free (
          whole_block true h.next_index kind delta text
            (record h { next_index = suc h.next_index }))
  unfolding write_mode
  whole_block-IsOver kind delta text h t =
      let i = h.next_index in
      let opened : StreamHandler = record h { next_index = suc i } in
      let started = write_final_sse (content_block_start i kind) opened in
      let filled = write_final_sse (content_block_delta i delta text) started in
      let same = whole_block-SameBlocks true i kind delta text opened in
      rw same.1 (record {
        tracks = whole_block-Carries true i kind delta text opened [] t.tracks;
        free_still = λ f. write_final_sse-IsFree (content_block_stop i) filled (
            write_final_sse-IsFree (content_block_delta i delta text) started
              (write_final_sse-IsFree (content_block_start i kind) opened (t.free_still f)));
      })

  emit_text_block-IsOver :
      (text : Text) (h : StreamHandler) → IsOver free h → IsOver free (emit_text_block text true h)
  unfolding emit_text_block
  emit_text_block-IsOver text h t =
      if-IsOver (is_empty text || (if h.is_stream then false else true)) _ _ t
        (whole_block-IsOver text_kind text_delta text (record h { has_text_output = true }) t)

  emit_write_chunk_fallback-IsOver :
      (h : StreamHandler) → IsOver free h → IsOver free (emit_write_chunk_fallback h)
  unfolding emit_write_chunk_fallback
  emit_write_chunk_fallback-IsOver h t =
      let marked : StreamHandler = record h { has_text_output = true } in
      if-IsOver (h.has_text_output || is_empty h.write_chunk_buffer) _ _ t
        (if-IsOver h.is_stream _ _ (emit_text_block-IsOver h.write_chunk_buffer marked t) t)

  counted-IsOver :
      (call : ToolCall) (h : StreamHandler)
      → IsOver free h
      → IsOver free (add_output_tokens call.call_input (add_output_tokens call.call_name h))
  counted-IsOver call h t =
      let named = add_output_tokens call.call_name h in
      let given = add_output_tokens call.call_input named in
      SameView-IsOver given named (add_output_tokens-SameView call.call_input named)
        (SameView-IsOver named h (add_output_tokens-SameView call.call_name h) t)

  emit_tool_call_stream-IsOver :
      (call : ToolCall) (h : StreamHandler)
      → IsOver free h
      → IsOver free (emit_tool_call_stream call true h)
  unfolding emit_tool_call_stream write_tool_block
  emit_tool_call_stream-IsOver call h t = if-IsOver (is_empty call.call_id) _ _ t (
      whole_block-IsOver (tool_kind call.call_id call.call_name) input_json_delta
        (input_json call.call_input) _ (counted-IsOver call h t))

  flush_calls-IsOver :
      (calls : List ToolCall) (h : StreamHandler)
      → IsOver free h
      → IsOver free (flush_calls calls h)
  unfolding flush_calls emit_tool_call_non_stream
  flush_calls-IsOver [] h t = t
  flush_calls-IsOver (call ∷ calls) h t =
      if-IsOver h.is_stream _ _
        (flush_calls-IsOver calls (emit_tool_call_stream call true h)
          (emit_tool_call_stream-IsOver call h t))
        (flush_calls-IsOver calls (emit_tool_call_non_stream call h) (counted-IsOver call h t))

  finalize_output_tokens-IsOver :
      (h : StreamHandler) → IsOver free h → IsOver free (finalize_output_tokens h)
  unfolding finalize_output_tokens
  finalize_output_tokens-IsOver h t = if-IsOver h.use_upstream_usage _ _ t t

  pub flush_buffers-IsOver :
      (reason : Text) (h : StreamHandler) → IsOver free h → IsOver free (flush_buffers reason h)
  unfolding flush_buffers flush_pending_tool_calls
  flush_buffers-IsOver reason h t =
      let written = if text_eq reason (bytes "tool_use") then h else emit_write_chunk_fallback h in
      let ready =
        if-IsOver (text_eq reason (bytes "tool_use")) _ _ t
          (emit_write_chunk_fallback-IsOver h t) in
      finalize_output_tokens-IsOver _ (
        flush_calls-IsOver written.pending_tool_calls (record written { pending_tool_calls = [] })
          ready)

  stop_event-IsOver :
      (i : ℕ) (h : StreamHandler)
      → Tracks true (i ∷ []) h.next_index (link h)
      → (free ≡ true → IsFree (link h))
      → IsOver free (write_final_sse (content_block_stop i) h)
  unfolding write_mode
  stop_event-IsOver i h t f =
      let e = content_block_stop i in
      let k = h.next_index in
      rw ((write_mode-SameBlocks true e h).1) (record {
        tracks = Tracks-write_final_sse true e (i ∷ []) [] k k (Leads-stop i k []) h t;
        free_still = λ x. write_final_sse-IsFree e h (f x);
      })

  final_event-IsOver :
      (e : Event) (h : StreamHandler)
      → Leads e [] [] h.next_index h.next_index
      → IsOver free h
      → IsOver free (write_final_sse e h)
  unfolding write_mode
  final_event-IsOver e h leads t =
      let k = h.next_index in
      rw ((write_mode-SameBlocks true e h).1) (record {
        tracks = Tracks-write_final_sse true e [] [] k k leads h t.tracks;
        free_still = λ x. write_final_sse-IsFree e h (t.free_still x);
      })

  pub stop_block-IsOver :
      (a : ActiveBlock) (h : StreamHandler)
      → Tracks true (block_of a) h.next_index (link h)
      → (free ≡ true → IsFree (link h))
      → IsOver free (stop_block a h)
  stop_block-IsOver no_block h t f = record { tracks = t; free_still = f }
  stop_block-IsOver (in_thinking i j) h t f =
      stop_event-IsOver i (record h { active = no_block }) t f
  stop_block-IsOver (in_text i j) h t f = stop_event-IsOver i (record h { active = no_block }) t f

  pub write_message_end-IsOver :
      (reason : Text) (h : StreamHandler) → IsOver free h → IsOver free (write_message_end reason h)
  unfolding write_message_end
  write_message_end-IsOver reason h t =
      final_event-IsOver message_stop (write_final_sse (message_delta reason h.output_tokens) h)
        (Leads-message_stop _)
        (final_event-IsOver (message_delta reason h.output_tokens) h
          (Leads-message_delta reason h.output_tokens _) t)

-- a response that has just returned is left with the block that was open
pub returned-Tracks :
    (o : List ℕ) (k : ℕ) (l : Link)
    → l.3 ≡ false
    → Tidy o k l
    → Tracks true o k (l.0, l.1, l.2, true)
returned-Tracks o k l live t = go t.flag t.tracks
  where
    go : (b : Bool) → Tracks b (expected b o) k l → Tracks true o k (l.0, l.1, l.2, true)
    go b x = record {
      seen = x.seen;
      held = x.held;
      below = x.below;
      so_far = x.so_far;
      exact = elim x.exact [
        | inl q ↦ inl q
        | inr y ↦ inr (refl, y.1 ∙ ap (λ c. expected c o) (sym y.0 ∙ live))
      ];
    }
