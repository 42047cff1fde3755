-- ===== src/Handler/Retry/Loop.antt =====
-- The loop over the requests of a message (internal/handler/handler.go): how often it asks, how it
-- leaves the response and the connections.
use inf_api.Common.{ℕ, zero, suc, ◌+◌, ◌≤◌, ◌≡◌, refl, Bool, Option, List, [], arith}
use inf_api.Common.Int.{pos}
use inf_api.LoadBalancer.Tracker.{MemoryConnTracker, get_count}
use inf_api.Handler.Stream.{StreamHandler, new_stream_handler}
use inf_api.Handler.Stream.Open.{IsTidy}
use inf_api.Handler.Stream.Calls.{Call, run, run-IsTidy, new_stream_handler-IsTidy}
use inf_api.Handler.Stream.Returned.{IsDone}
use inf_api.Handler.Retry.{
  Actions, RetryConfig, Round, Turn, finished, again, turn, retry_loop, acquire_tracked_account,
  release_tracked_account,
}
use inf_api.Handler.Retry.Ends.{turn-TurnFits}
use inf_api.Handler.Retry.Holds.{
  Fits, TurnFits, get_count-acquire_tracked, get_count-release_tracked,
}

-- a round in which the loop ends
pub record Ends {W : Type 0} (base : MemoryConnTracker) (most : ℕ) (r : Round W) : Type 0 where
  pub attempts : ℕ
  pub within : attempts ≤ most
  pub fits : Fits base attempts r
  pub done : IsDone r.handler

module _ {W : Type 0} (actions : Actions W) (cfg : RetryConfig) (base : MemoryConnTracker) where
  retry_loop-Ends :
      (remaining n : ℕ) (r : Round W)
      → Fits base n r
      → Ends base (n + remaining) (retry_loop actions cfg remaining r)
  unfolding retry_loop
  retry_loop-Ends zero n r f = go (turn actions cfg 0 r) (turn-TurnFits actions cfg base n 0 r f)
    where
      go :
          (t : Turn W)
          → TurnFits base 0 n t
          → Ends base (n + 0) (elim t [ finished out ↦ out | again out ↦ out ])
      go (finished out) x = record { attempts = n; within = omega arith; fits = x.0; done = x.1 }
      go (again out) x = let never : ⊥ = omega (arith, x.1) in elim never [ ]
  retry_loop-Ends (suc m) n r f =
      go (turn actions cfg (suc m) r) (turn-TurnFits actions cfg base n (suc m) r f)
        (λ next g. retry_loop-Ends m (n + 1) next g)
    where
      go :
          (t : Turn W)
          → TurnFits base (suc m) n t
          → ((next : Round W)
              → Fits base (n + 1) next
              → Ends base (n + 1 + m) (retry_loop actions cfg m next))
          → Ends base
              (n + suc m)
              (elim t [ finished out ↦ out | again next ↦ retry_loop actions cfg m next ])
      go (finished out) x later = record {
        attempts = n;
        within = omega arith;
        fits = x.0;
        done = x.1;
      }
      go (again next) x later =
          let rest = later next x.0 in
          record {
            attempts = rest.attempts;
            within = omega (arith, rest.within);
            fits = rest.fits;
            done = rest.done;
          }

-- the round in which the loop starts: the connection of the account is acquired
unfoldable pub first_round :
    {W : Type 0} → StreamHandler → W → ℕ → Option ℕ → MemoryConnTracker → Round W
unfolding acquire_tracked_account
first_round h w client account t =
    let acquired = acquire_tracked_account account t in
    record {
      handler = h;
      world = w;
      client = client;
      account = account;
      tracker = acquired.1;
      tracked = acquired.0;
      failed_accounts = [];
      attempt = 0;
    }

first_round-Fits :
    {W : Type 0} (h : StreamHandler) (w : W) (client : ℕ) (account : Option ℕ)
    (t : MemoryConnTracker)
    → IsTidy h
    → Fits t 0 (first_round h w client account t)
unfolding first_round
first_round-Fits h w client account t tidy = record {
  tidy = tidy;
  held = get_count-acquire_tracked t t account (λ id n c. ground (arith, c));
  counted = refl;
}

module _ {W : Type 0} (actions : Actions W) (cfg : RetryConfig) (retries client : ℕ)
    (account : Option ℕ) (t : MemoryConnTracker) (w : W) (suppress_thinking is_stream : Bool)
    (lifetime : Option ℕ) (cs : List Call) where
  -- the last round of a message whose response starts with some calls
  abbrev pub last_round : Round W
  last_round = retry_loop actions cfg retries (
      first_round (run cs (new_stream_handler suppress_thinking is_stream lifetime)) w client
        account t)

  last_round-Ends : Ends t (0 + retries) last_round
  last_round-Ends =
      let h = run cs (new_stream_handler suppress_thinking is_stream lifetime) in
      let tidy = run-IsTidy cs _ (new_stream_handler-IsTidy suppress_thinking is_stream lifetime) in
      retry_loop-Ends actions cfg t retries 0 _ (first_round-Fits h w client account t tidy)

  -- After the release of the tracked connection that is deferred to the end of the message, every
  -- account has the n connections, at least 0, that it had before the message, whichever accounts
  -- the message went through.
  pub retry_loop-connections :
      (id n : ℕ)
      → get_count id t ≡ pos n
      → get_count id (release_tracked_account last_round.tracked last_round.tracker) ≡ pos n
  retry_loop-connections id n counted =
      let out = last_round-Ends.fits.held in
      ground
        (arith, get_count-release_tracked t last_round.tracker last_round.tracked out id n counted)
