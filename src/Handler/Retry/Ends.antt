-- ===== src/Handler/Retry/Ends.antt =====
-- However its requests go, a message's response ends (internal/handler/handler.go).
use inf_api.Common.{
  ℕ, zero, suc, ◌+◌, ◌≤◌, ◌≡◌, ap, not, Option, some, arith, ◌==◌, by_test, by_option,
}
use inf_api.Common.Int.{ℤ, pos, negsuc}
use inf_api.Common.Text.{Text, bytes}
use inf_api.Errors.Classify.{classify_upstream_error, UpstreamErrorClass, Category}
use inf_api.LoadBalancer.Tracker.{MemoryConnTracker}
use inf_api.Handler.Stream.{StreamHandler}
use inf_api.Handler.Stream.Finish.{reset_round_state, has_any_output}
use inf_api.Handler.Stream.Open.{IsTidy}
use inf_api.Handler.Stream.Finished.{finish_response-IsTidy, force_finish_if_missing-IsTidy}
use inf_api.Handler.Stream.Calls.{run, run-IsTidy, reset_round_state-IsTidy}
use inf_api.Handler.Stream.Returned.{finish_response-IsDone, force_finish_if_missing-IsDone}
use inf_api.Handler.Retry.Messages.{inject_upstream_error, inject_no_available_account_error}
use inf_api.Handler.Retry.Delay.{compute_retry_delay, should_retry_current_account}
use inf_api.Handler.Retry.{
  Selection, selected, no_account, Actions, RetryConfig, Round, Turn, finished, again, end_with,
  unchanged, mark_failure, leave_account, take_account, take_selected, change_account, pause_for,
  pause, count_attempt, give_up, exhausted, after_error, turn,
}
use inf_api.Handler.Retry.Holds.{
  Fits, PartFits, TurnFits, get_count-acquire_tracked, get_count-release_tracked,
  inject_upstream_error-IsTidy, inject_no_available_account_error-IsTidy, give_up-IsTidy,
  exhausted-IsTidy, leave_account-free,
}

module _ {W : Type 0} (actions : Actions W) (cfg : RetryConfig) (base : MemoryConnTracker)
    (n : ℕ) where
  end_with-PartFits :
      (inject : StreamHandler → StreamHandler) (r : Round W)
      → ((h : StreamHandler) → IsTidy h → IsTidy (inject h))
      → Fits base n r
      → PartFits base n (end_with actions cfg inject r)
  end_with-PartFits inject r keeps f = (
    record {
      tidy = finish_response-IsTidy (bytes "end_turn") (inject r.handler) (keeps r.handler f.tidy);
      held = f.held;
      counted = f.counted;
    },
    finish_response-IsDone (bytes "end_turn") (inject r.handler),
  )

  mark_failure-Fits :
      (err : Text) (class : UpstreamErrorClass) (r : Round W)
      → Fits base n r
      → Fits base n (mark_failure actions cfg err class r)
  unfolding mark_failure
  mark_failure-Fits err class r f = record { tidy = f.tidy; held = f.held; counted = f.counted }

  take_account-Fits :
      (client : ℕ) (account : Option ℕ) (r : Round W)
      → Fits base n r
      → r.tracked ≡ 0
      → Fits base n (take_account actions cfg client account r)
  unfolding take_account
  take_account-Fits client account r f none_held = record {
    tidy = f.tidy;
    held =
        get_count-acquire_tracked base r.tracker account
          (λ id k c. ground (arith, f.held id k c, none_held));
    counted = f.counted;
  }

  leave_account-Fits :
      (id : ℕ) (r : Round W) → Fits base n r → Fits base n (leave_account actions cfg id r)
  unfolding leave_account
  leave_account-Fits id r f = record {
    tidy = f.tidy;
    held = λ j k c. ground (arith, get_count-release_tracked base r.tracker r.tracked f.held j k c);
    counted = f.counted;
  }

  take_selected-PartFits :
      (err : Text) (class : UpstreamErrorClass) (id client : ℕ) (r : Round W) (answer : Selection)
      → Fits base n r
      → r.tracked ≡ 0
      → PartFits base n (take_selected actions cfg err class id client r answer)
  take_selected-PartFits err class id client r (selected next account) f z =
      take_account-Fits next account r f z
  take_selected-PartFits err class id client r (no_account selector) f z =
      by_test (PartFits base n) (should_retry_current_account class.category) _ _
        (λ same. take_account-Fits client (some id) r f z)
        (λ stop.
          end_with-PartFits (inject_no_available_account_error err selector) r
            (inject_no_available_account_error-IsTidy err selector) f)

  change_account-PartFits :
      (err : Text) (class : UpstreamErrorClass) (r : Round W)
      → Fits base n r
      → PartFits base n (change_account actions cfg err class r)
  unfolding change_account
  change_account-PartFits err class r f =
      by_option (PartFits base n) r.account _ _ (λ missing. f)
        (λ id found.
          let left = leave_account actions cfg id r in
          let answer = actions.pick_account left.failed_accounts left.world in
          let asked : Round W = record left { world = answer.1 } in
          by_test (PartFits base n) class.switch_account _ _
            (λ switch.
              take_selected-PartFits err class id r.client asked answer.0
                (leave_account-Fits id r f) (leave_account-free actions cfg id r))
            (λ stay. f))

  pause_for-PartFits :
      (d : ℤ) (r : Round W) → Fits base n r → PartFits base n (pause_for actions cfg d r)
  pause_for-PartFits (negsuc d) r f = f
  pause_for-PartFits (pos zero) r f = f
  pause_for-PartFits (pos (suc d)) r f =
      let slept = actions.sleep (suc d) r.world in
      let woken : Round W = record r { world = slept.1 } in
      by_test (PartFits base n) slept.0 _ _ (λ done. f)
        (λ ended. end_with-PartFits (unchanged actions cfg) woken (λ h t. t) f)

  pause-PartFits :
      (category : Category) (t : Turn W)
      → PartFits base n t
      → PartFits base n (pause actions cfg category t)
  pause-PartFits category (finished r) f = f
  pause-PartFits category (again r) f =
      pause_for-PartFits (compute_retry_delay cfg.retry_delay (r.attempt + 1) category) r f

  count_attempt-TurnFits :
      (remaining : ℕ) (t : Turn W)
      → 1 ≤ remaining
      → PartFits base n t
      → TurnFits base remaining n (count_attempt actions cfg t)
  count_attempt-TurnFits remaining (finished r) le f = f
  count_attempt-TurnFits remaining (again r) le f =
      (record { tidy = f.tidy; held = f.held; counted = ap (λ x. x + 1) f.counted }, le)

  ended-TurnFits :
      (remaining : ℕ) (inject : StreamHandler → StreamHandler) (r : Round W)
      → ((h : StreamHandler) → IsTidy h → IsTidy (inject h))
      → Fits base n r
      → TurnFits base remaining n (end_with actions cfg inject r)
  ended-TurnFits remaining inject r keeps f = end_with-PartFits inject r keeps f

  after_error-TurnFits :
      (remaining : ℕ) (err : Text) (r : Round W)
      → Fits base n r
      → TurnFits base remaining n (after_error actions cfg remaining err r)
  unfolding after_error
  after_error-TurnFits remaining err r f =
      let class = classify_upstream_error err in
      let marked = mark_failure actions cfg err class r in
      let m = mark_failure-Fits err class r f in
      by_test (TurnFits base remaining n) (has_any_output r.handler) _ _
        (λ output.
          ended-TurnFits remaining (inject_upstream_error err) r (inject_upstream_error-IsTidy err)
            f)
        (λ silent.
          by_test (TurnFits base remaining n) (not class.retryable) _ _
            (λ refused.
              ended-TurnFits remaining (give_up actions cfg err class) marked
                (give_up-IsTidy actions cfg err class) m)
            (λ retryable.
              by_test (TurnFits base remaining n) (actions.context_over marked.world) _ _
                (λ left. ended-TurnFits remaining (unchanged actions cfg) marked (λ h t. t) m)
                (λ waiting.
                  by_test (TurnFits base remaining n) (remaining == 0) _ _
                    (λ last.
                      ended-TurnFits remaining (exhausted actions cfg err class) marked
                        (exhausted-IsTidy actions cfg err class) m)
                    (λ more. count_attempt-TurnFits remaining _ (ground (arith, more)) (
                      pause-PartFits class.category _
                        (change_account-PartFits err class marked m))))))

  pub turn-TurnFits :
      (remaining : ℕ) (r : Round W)
      → Fits base n r
      → TurnFits base remaining n (turn actions cfg remaining r)
  unfolding turn
  turn-TurnFits remaining r f =
      let sent = actions.send r.client (r.attempt + 1) r.world in
      let handler = run sent.0 (reset_round_state r.handler) in
      let tidy =
        run-IsTidy sent.0 (reset_round_state r.handler)
          (reset_round_state-IsTidy r.handler f.tidy) in
      let got : Round W = record r { handler = handler; world = sent.2 } in
      by_option (TurnFits base remaining n) sent.1 _ _
        (λ fine. (
          record {
            tidy = force_finish_if_missing-IsTidy handler tidy;
            held = f.held;
            counted = f.counted;
          },
          force_finish_if_missing-IsDone handler,
        ))
        (λ err failed.
          after_error-TurnFits remaining err got
            (record { tidy = tidy; held = f.held; counted = f.counted }))
