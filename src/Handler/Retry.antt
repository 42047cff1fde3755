-- ===== src/Handler/Retry.antt =====
-- The requests that a message makes to its upstream, with their retries
-- (internal/handler/handler.go, the loop of `HandleMessages`; the connections from
-- internal/handler/handler_helpers.go). The upstream, the selection of an account, the mark of an
-- account, the context and the timer are parameters, on a state of the world. A request makes
-- calls of the methods with which the response's handler writes the events itself; events of the
-- upstream that are forwarded as they are do not occur. Other requests at the same time are left out, and so are the
-- log lines. There is a load balancer and a connection tracker.
pub mod Messages
pub mod Delay
pub mod Holds
pub mod Ends
pub mod Loop
pub mod Billing
mod Tests
use inf_api.Common.{
  ℕ, zero, suc, ◌+◌, Bool, true, false, not, ◌&&◌, ◌||◌, Option, none, some, List, [], ◌∷◌, ◌++◌,
  is_empty, ltb, ◌==◌, if◌then◌else◌, ◌⊎◌, inl, inr,
}
use inf_api.Common.Int.{ℤ, pos, negsuc}
use inf_api.Common.Text.{Text, bytes, text_eq}
use inf_api.Errors.Classify.{
  classify_upstream_error, classify_account_status, UpstreamErrorClass, Category, auth,
  auth_blocked, canceled,
}
use inf_api.LoadBalancer.Tracker.{MemoryConnTracker, acquire, release}
use inf_api.Handler.Stream.{StreamHandler}
use inf_api.Handler.Stream.Finish.{
  finish_response, force_finish_if_missing, reset_round_state, has_any_output,
}
use inf_api.Handler.Stream.Calls.{Call, run}
use inf_api.Handler.Retry.Messages.{
  inject_auth_error, inject_retry_exhausted_error, inject_upstream_error,
  inject_no_available_account_error,
}
use inf_api.Handler.Retry.Delay.{compute_retry_delay, should_retry_current_account}

-- what the selection of an account returns: a client, with its account if it has one, or an error
pub data Selection : Type 0 where
  selected : ℕ → Option ℕ → Selection
  no_account : Text → Selection

-- the calls that the loop makes; an upstream is named by a number
pub record Actions (W : Type 0) : Type 0 where
  pub send : ℕ → ℕ → W → List Call × Option Text × W
  pub context_over : W → Bool
  pub mark_account : ℕ → Text → Text → W → W
  pub pick_account : List ℕ → W → Selection × W
  pub sleep : ℕ → W → Bool × W

pub record RetryConfig : Type 0 where
  pub is_codebuff : Bool
  pub retry_delay : ℕ

-- the variables of the loop
pub record Round (W : Type 0) : Type 0 where
  pub handler : StreamHandler
  pub world : W
  pub client : ℕ
  pub account : Option ℕ
  pub tracker : MemoryConnTracker
  pub tracked : ℕ
  pub failed_accounts : List ℕ
  pub attempt : ℕ

-- a turn of the loop returns, or goes on
pub data Turn (W : Type 0) : Type 0 where
  finished : Round W → Turn W
  again : Round W → Turn W

-- `acquireTrackedAccount`: the connections, and the account that is tracked from now on
unfoldable pub acquire_tracked_account : Option ℕ → MemoryConnTracker → ℕ × MemoryConnTracker
acquire_tracked_account none t = (0, t)
acquire_tracked_account (some id) t = if id == 0 then (0, t) else (id, acquire id t)

-- `releaseTrackedAccount`
unfoldable pub release_tracked_account : ℕ → MemoryConnTracker → MemoryConnTracker
release_tracked_account id t = if id == 0 then t else release id t

abbrev pub is_auth : Category → Bool
is_auth auth = true
is_auth auth_blocked = true
is_auth _ = false

abbrev pub is_canceled : Category → Bool
is_canceled canceled = true
is_canceled _ = false

abbrev pub listed : ℕ → List ℕ → Bool
listed id [] = false
listed id (j ∷ js) = j == id || listed id js

module _ {W : Type 0} (actions : Actions W) (cfg : RetryConfig) where
  -- an error text, and the end of the response
  abbrev pub end_with : (StreamHandler → StreamHandler) → Round W → Turn W
  end_with inject r =
      finished (record r { handler = finish_response (bytes "end_turn") (inject r.handler) })

  abbrev pub unchanged : StreamHandler → StreamHandler
  unchanged h = h

  -- the status that the error gives the account
  unfoldable pub mark_failure : Text → UpstreamErrorClass → Round W → Round W
  mark_failure err class r =
      let status = classify_account_status err in
      let severe =
        (not class.retryable || is_auth class.category)
        || (text_eq status (bytes "403")
            || (text_eq status (bytes "429") || text_eq status (bytes "402"))) in
      let skipped = text_eq status (bytes "429") && cfg.is_codebuff in
      record r {
        world = elim r.account [
          | none ↦ r.world
          | some id ↦
              if is_empty status
              then r.world
              else if severe && not skipped
              then actions.mark_account id status err r.world
              else r.world
        ];
      }

  -- the account that failed is left, and its connection is released
  unfoldable pub leave_account : ℕ → Round W → Round W
  unfolding release_tracked_account
  leave_account id r = record r {
    failed_accounts =
        if listed id r.failed_accounts then r.failed_accounts else r.failed_accounts ++ id ∷ [];
    tracker = release_tracked_account r.tracked r.tracker;
    tracked = 0;
  }

  -- an account is taken, and its connection is acquired
  unfoldable pub take_account : ℕ → Option ℕ → Round W → Round W
  unfolding acquire_tracked_account
  take_account client account r =
      let acquired = acquire_tracked_account account r.tracker in
      record r { client = client; account = account; tracked = acquired.0; tracker = acquired.1 }

  -- what the selection of another account leads to
  abbrev pub take_selected : Text → UpstreamErrorClass → ℕ → ℕ → Round W → Selection → Turn W
  take_selected err class id client r (selected next account) = again (take_account next account r)
  take_selected err class id client r (no_account selector) =
      if should_retry_current_account class.category
      then again (take_account client (some id) r)
      else end_with (inject_no_available_account_error err selector) r

  -- the change of the account, where the error asks for one
  unfoldable pub change_account : Text → UpstreamErrorClass → Round W → Turn W
  unfolding leave_account take_account
  change_account err class r = elim r.account [
    | none ↦ again r
    | some id ↦
        let left = leave_account id r in
        let answer = actions.pick_account left.failed_accounts left.world in
        if class.switch_account
        then take_selected err class id r.client (record left { world = answer.1 }) answer.0
        else again r
  ]

  -- the pause before the next attempt
  abbrev pub pause_for : ℤ → Round W → Turn W
  pause_for (negsuc n) r = again r
  pause_for (pos zero) r = again r
  pause_for (pos (suc n)) r =
      let slept = actions.sleep (suc n) r.world in
      if slept.0
      then again (record r { world = slept.1 })
      else end_with unchanged (record r { world = slept.1 })

  abbrev pub pause : Category → Turn W → Turn W
  pause category (finished r) = finished r
  pause category (again r) =
      pause_for (compute_retry_delay cfg.retry_delay (r.attempt + 1) category) r

  abbrev pub count_attempt : Turn W → Turn W
  count_attempt (finished r) = finished r
  count_attempt (again r) = again (record r { attempt = r.attempt + 1 })

  -- the response to an error that is not retried
  abbrev pub give_up : Text → UpstreamErrorClass → StreamHandler → StreamHandler
  give_up err class h =
      if is_auth class.category
      then inject_auth_error err h
      else if is_canceled class.category
      then h
      else inject_upstream_error err h

  abbrev pub exhausted : Text → UpstreamErrorClass → StreamHandler → StreamHandler
  exhausted err class h =
      if is_auth class.category then inject_auth_error err h else inject_retry_exhausted_error err h

  -- a request that failed, with the number of retries that remain
  unfoldable pub after_error : ℕ → Text → Round W → Turn W
  unfolding mark_failure change_account
  after_error remaining err r =
      let class = classify_upstream_error err in
      let marked = mark_failure err class r in
      if has_any_output r.handler
      then end_with (inject_upstream_error err) r
      else if not class.retryable
      then end_with (give_up err class) marked
      else if actions.context_over marked.world
      then end_with unchanged marked
      else if remaining == 0
      then end_with (exhausted err class) marked
      else count_attempt (pause class.category (change_account err class marked))

  -- a request, and what comes after it
  unfoldable pub turn : ℕ → Round W → Turn W
  unfolding after_error
  turn remaining r =
      let sent = actions.send r.client (r.attempt + 1) r.world in
      let got = record r { handler = run sent.0 (reset_round_state r.handler); world = sent.2 } in
      elim sent.1 [
        | none ↦ finished (record got { handler = force_finish_if_missing got.handler })
        | some err ↦ after_error remaining err got
      ]

  -- the loop; without retries that remain, a turn returns
  unfoldable pub retry_loop : ℕ → Round W → Round W
  unfolding turn
  retry_loop zero r = elim (turn 0 r) [ finished out ↦ out | again out ↦ out ]
  retry_loop (suc n) r = elim (turn (suc n) r) [
    | finished out ↦ out
    | again next ↦ retry_loop n next
  ]
