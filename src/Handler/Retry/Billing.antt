-- ===== src/Handler/Retry/Billing.antt =====
-- When a request is sent again (internal/handler/handler.go).
use inf_api.Common.{
  ℕ, ◌+◌, ◌≤◌, ◌≡◌, refl, true, false, not, Option, some, arith, ◌==◌, by_test, by_option,
}
use inf_api.Common.Text.{Text}
use inf_api.Errors.Classify.{classify_upstream_error}
use inf_api.Handler.Stream.{StreamHandler}
use inf_api.Handler.Stream.Finish.{force_finish_if_missing, reset_round_state, has_any_output}
use inf_api.Handler.Stream.Calls.{run}
use inf_api.Handler.Retry.{
  Actions, RetryConfig, Round, Turn, finished, again, mark_failure, after_error, turn,
}

-- the reasons for another request, after calls that left the handler as it is
pub record MayRetry (remaining : ℕ) (answer : Option Text) (h : StreamHandler) : Type 0 where
  pub error : Text
  pub failed : answer ≡ some error
  pub silent : has_any_output h ≡ false
  pub retryable : (classify_upstream_error error).retryable ≡ true
  pub some_left : 1 ≤ remaining

module _ {W : Type 0} (actions : Actions W) (cfg : RetryConfig) (remaining : ℕ) where
  abbrev OnlyIf : Type 0 → Turn W → Type 0
  OnlyIf P t = (next : Round W) → t ≡ again next → P

  after_error-OnlyIf :
      (err : Text) (r : Round W)
      → OnlyIf (MayRetry remaining (some err) r.handler) (after_error actions cfg remaining err r)
  unfolding after_error
  after_error-OnlyIf err r =
      let class = classify_upstream_error err in
      let marked = mark_failure actions cfg err class r in
      let P = OnlyIf (MayRetry remaining (some err) r.handler) in
      by_test P (has_any_output r.handler) _ _ (λ output next h. cc)
        (λ quiet.
          by_test P (not class.retryable) _ _ (λ refused next h. cc)
            (λ worth.
              by_test P (actions.context_over marked.world) _ _ (λ left next h. cc)
                (λ waiting.
                  by_test P (remaining == 0) _ _ (λ last next h. cc)
                    (λ more next h. record {
                      error = err;
                      failed = refl;
                      silent = quiet;
                      retryable = ground (arith, worth);
                      some_left = ground (arith, more);
                    }))))

  -- The loop goes on after a request only if the request failed with an error that is worth
  -- another, retries remained, and nothing of what the request made the handler do counts as
  -- output.
  pub turn-again :
      (r next : Round W)
      → turn actions cfg remaining r ≡ again next
      → let sent = actions.send r.client (r.attempt + 1) r.world in
        MayRetry remaining sent.1 (run sent.0 (reset_round_state r.handler))
  unfolding turn
  turn-again r next h =
      let sent = actions.send r.client (r.attempt + 1) r.world in
      let handler = run sent.0 (reset_round_state r.handler) in
      let got : Round W = record r { handler = handler; world = sent.2 } in
      by_option (OnlyIf (MayRetry remaining sent.1 handler)) sent.1
        (finished (record got { handler = force_finish_if_missing handler }))
        (λ err. after_error actions cfg remaining err got) (λ fine next h. cc)
        (λ err failed next h.
          let m = after_error-OnlyIf err got next h in
          record {
            error = err;
            failed = failed;
            silent = m.silent;
            retryable = ground (arith, m.retryable, m.failed);
            some_left = m.some_left;
          })
        next h
