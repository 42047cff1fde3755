-- ===== src/Handler/Stream/Finished.antt =====
-- `finishResponse` and `forceFinishIfMissing` (internal/handler/stream_handler.go) keep the
-- handler's view of the open blocks equal to the client's.
use inf_api.Common.{
  ◌≡◌, refl, ap, ◌∙◌, Bool, true, false, [], arith, if◌then◌else◌, inl, inr, Bool-cases,
}
use inf_api.Common.Text.{Text, bytes}
use inf_api.Handler.Stream.{StreamHandler}
use inf_api.Handler.Stream.Finish.{
  stop_active_block, flush_buffers, settled_reason, write_message_end, finish_response,
  has_tool_calls, force_finish_if_missing,
}
use inf_api.Handler.Stream.Monitor.{Tracks-quiet, link}
use inf_api.Handler.Stream.Open.{block_of, IsTidy, if-IsTidy}
use inf_api.Handler.Stream.Ended.{
  IsFree, IsOver, flush_buffers-IsOver, stop_block-IsOver, write_message_end-IsOver,
  returned-Tracks,
}

-- `finishResponse` of a response that has not returned, at its start
abbrev pub returned : Text → StreamHandler → StreamHandler
returned settled h = record h { has_return = true; final_stop_reason = settled }

-- `finishResponse` of a streamed response, before its last two events
abbrev pub ending : Text → StreamHandler → StreamHandler
ending settled h = flush_buffers settled (stop_active_block (returned settled h))

pub ending-IsOver :
    (free : Bool) (settled : Text) (h : StreamHandler)
    → h.has_return ≡ false
    → IsTidy h
    → (free ≡ true → IsFree (link h))
    → IsOver free (ending settled h)
unfolding stop_active_block
ending-IsOver free settled h live t f = flush_buffers-IsOver free settled _ (
    stop_block-IsOver free h.active (returned settled h)
      (returned-Tracks (block_of h.active) h.next_index (link h) live t) f)

-- the branches of `finishResponse`
module _ (reason : Text) (h : StreamHandler) where
  abbrev settled : Text
  settled = settled_reason reason h

  by_tests : Bool → Bool → StreamHandler
  by_tests done streamed =
      if done
      then h
      else if streamed
      then write_message_end settled (ending settled h)
      else flush_buffers settled (returned settled h)

  finish_response-by_tests : finish_response reason h ≡ by_tests h.has_return h.is_stream
  unfolding finish_response by_tests
  finish_response-by_tests = refl

  pub finish_response_again : h.has_return ≡ true → finish_response reason h ≡ h
  unfolding by_tests
  finish_response_again p = finish_response-by_tests ∙ ap (λ b. by_tests b h.is_stream) p

  pub finish_response_stream :
      h.has_return ≡ false
      → h.is_stream ≡ true
      → finish_response reason h ≡ write_message_end settled (ending settled h)
  unfolding by_tests
  finish_response_stream p q =
      finish_response-by_tests ∙ ap (λ b. by_tests b h.is_stream) p ∙ ap (by_tests false) q

  pub finish_response_flat :
      h.has_return ≡ false
      → h.is_stream ≡ false
      → finish_response reason h ≡ flush_buffers settled (returned settled h)
  unfolding by_tests
  finish_response_flat p q =
      finish_response-by_tests ∙ ap (λ b. by_tests b h.is_stream) p ∙ ap (by_tests false) q

  IsOver-IsTidy : (g : StreamHandler) → IsOver false g → IsTidy g
  IsOver-IsTidy g t = record { flag = true; tracks = t.tracks }

  flat-IsTidy :
      h.has_return ≡ false
      → h.is_stream ≡ false
      → IsTidy h
      → IsTidy (flush_buffers settled (returned settled h))
  flat-IsTidy live q t = IsOver-IsTidy (flush_buffers settled (returned settled h)) (
      flush_buffers-IsOver false settled (returned settled h) (record {
        tracks =
            Tracks-quiet true true (block_of h.active) [] h.next_index h.next_index _ (inl q)
              (omega arith) (returned-Tracks (block_of h.active) h.next_index (link h) live t);
        free_still = λ x. cc;
      }))

  pub finish_response-IsTidy : IsTidy h → IsTidy (finish_response reason h)
  finish_response-IsTidy t = elim (Bool-cases h.has_return) [
    | inl done ↦ rw (finish_response_again done) t
    | inr live ↦ elim (Bool-cases h.is_stream) [
      | inl on ↦ rw (finish_response_stream live on) (
          IsOver-IsTidy (write_message_end settled (ending settled h)) (
            write_message_end-IsOver false settled (ending settled h)
              (ending-IsOver false settled h live t (λ x. cc))))
      | inr off ↦ rw (finish_response_flat live off) (flat-IsTidy live off t)
    ]
  ]

pub force_finish_if_missing-IsTidy :
    (h : StreamHandler) → IsTidy h → IsTidy (force_finish_if_missing h)
unfolding force_finish_if_missing
force_finish_if_missing-IsTidy h t =
    if-IsTidy h.has_return _ _ t
      (finish_response-IsTidy (if has_tool_calls h then bytes "tool_use" else bytes "end_turn") h t)
