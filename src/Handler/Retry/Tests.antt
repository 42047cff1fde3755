-- ===== src/Handler/Retry/Tests.antt =====
-- Runs of the retries of a message (internal/handler/handler.go).
use inf_api.Common.{
  ℕ, ◌+◌, ◌≡◌, refl, true, false, none, some, List, [], ◌∷◌, ◌==◌, if◌then◌else◌, arith,
}
use inf_api.Common.Int.{to_int64, pos}
use inf_api.Common.Map.{lookup}
use inf_api.Common.Text.{
  bytes, contains, to_lower, trim_space, has_prefix, text_eq, lower_byte, trim_left, trim_right,
  is_space,
}
use inf_api.Common.Time.{second}
use inf_api.Errors.Classify.{
  rate_limit, classify_upstream_error, contains_any, mentions, has_explicit_http_status,
  is_warp_model_unavailable_error, upstream_class, classify_account_status, account_status,
}
use inf_api.LoadBalancer.Tracker.{get_count}
use inf_api.Handler.Stream.{
  new_stream_handler, write_sse, write_frame, write_sse_message_start, write_final_sse,
  add_output_tokens, finalize_output_tokens,
}
use inf_api.Handler.Stream.Calls.{Call, text, start, run, call}
use inf_api.Handler.Retry.{
  Actions, RetryConfig, selected, Turn, finished, again, release_tracked_account, Round, turn,
  after_error, change_account, mark_failure, leave_account, take_account, acquire_tracked_account,
}
use inf_api.Handler.Retry.Delay.{
  DelaysGrow, compute_retry_delay, compute_retry_delay_grows, clamp_delay,
}
use inf_api.Handler.Retry.Billing.{MayRetry, turn-again}
use inf_api.Handler.Retry.Loop.{last_round, retry_loop-connections, first_round}
use inf_api.Handler.Stream.Finish.{
  has_any_output, reset_round_state, force_finish_if_missing, finish_response,
}
use inf_api.Tiktoken.Estimator.{reset}
use inf_api.Handler.Stream.Blocks.{
  close_active_block, emit_text_delta, ensure_text, mark_text_output, delta_to_block, start_text,
  extend_at,
}

-- an upstream that fails once, without output, and then answers; another account is there
abbrev flaky : Actions ℕ
flaky = record {
  send = λ client attempt w.
      if attempt == 1 then ([], some (bytes "timeout"), w) else (text (bytes "Hi") ∷ [], none, w);
  context_over = λ w. false;
  mark_account = λ id status err w. w;
  pick_account = λ failed w. (selected 2 (some 6), w);
  sleep = λ d w. (true, w);
}

abbrev plain : RetryConfig
plain = record { is_codebuff = false; retry_delay = 100 }

abbrev opening : List Call
opening = start (bytes "m") 3 0 ∷ []

compute_retry_delay_grows_example :
    DelaysGrow second rate_limit
      (compute_retry_delay second 1 rate_limit)
      (compute_retry_delay second 3 rate_limit)
compute_retry_delay_grows_example =
    compute_retry_delay_grows second 1 3 rate_limit (omega arith) (omega arith) (omega arith)

retry_loop-connections_example :
    let out = last_round flaky plain 2 1 (some 5) [] 0 false true none opening in
    get_count 5 (release_tracked_account out.tracked out.tracker) ≡ pos 0
unfolding get_count lookup
retry_loop-connections_example =
    retry_loop-connections flaky plain 2 1 (some 5) [] 0 false true none opening 5 0 refl

abbrev round_of : Turn ℕ → Round ℕ
round_of (finished r) = r
round_of (again r) = r

abbrev first : Round ℕ
first = first_round (run opening (new_stream_handler false true none)) 0 1 (some 5) []

turn-again_example :
    let sent = flaky.send first.client (first.attempt + 1) first.world in
    MayRetry 2 sent.1 (run sent.0 (reset_round_state first.handler))
unfolding first_round has_any_output run call reset_round_state reset classify_upstream_error
    contains_any contains to_lower mentions has_explicit_http_status trim_space
    is_warp_model_unavailable_error compute_retry_delay force_finish_if_missing write_sse
    write_frame write_sse_message_start close_active_block emit_text_delta ensure_text
    mark_text_output delta_to_block start_text finish_response new_stream_handler write_final_sse
    add_output_tokens extend_at has_prefix text_eq upstream_class classify_account_status
    account_status lower_byte turn after_error change_account mark_failure leave_account
    take_account acquire_tracked_account to_int64 clamp_delay trim_left trim_right is_space
    finalize_output_tokens
turn-again_example = turn-again flaky plain 2 first (round_of (turn flaky plain 2 first)) refl
