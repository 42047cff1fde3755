-- ===== src/Handler/Retry/Holds.antt =====
-- What the loop over the requests of a message keeps (internal/handler/handler.go): a response that
-- fits what the client has seen, and the connections of the accounts.
use inf_api.Common.{
  ℕ, ◌+◌, ◌≤◌, ◌≡◌, ◌∙◌, refl, sym, ap, Option, none, some, arith, ◌==◌, if◌then◌else◌,
}
use inf_api.Common.Int.{pos}
use inf_api.Common.Text.{Text}
use inf_api.Errors.Classify.{UpstreamErrorClass}
use inf_api.LoadBalancer.Tracker.{MemoryConnTracker, get_count}
use inf_api.LoadBalancer.Tracker.Counts.{get_count-acquire_pos, get_count-release_pos}
use inf_api.Handler.Stream.{StreamHandler}
use inf_api.Handler.Stream.Open.{IsTidy, if-IsTidy}
use inf_api.Handler.Stream.Deltas.{inject_error_text-IsTidy}
use inf_api.Handler.Stream.Returned.{IsDone}
use inf_api.Handler.Retry.Messages.{
  inject_auth_error, inject_retry_exhausted_error, inject_upstream_error,
  inject_no_available_account_error, auth_message, no_account_message,
}
use inf_api.Handler.Retry.{
  Actions, RetryConfig, Round, Turn, finished, again, is_auth, is_canceled, leave_account, give_up,
  exhausted, acquire_tracked_account, release_tracked_account,
}

-- the connections of an account, of which the tracked one is this message's
abbrev pub share : ℕ → ℕ → ℕ
share tracked id = if tracked == 0 then 0 else if tracked == id then 1 else 0

-- Where an account has n connections in a tracker, it has n and a share in another.
abbrev pub Held : MemoryConnTracker → MemoryConnTracker → (ℕ → ℕ) → Type 0
Held base t shared = (id n : ℕ) → get_count id base ≡ pos n → get_count id t ≡ pos (n + shared id)

-- The handler's view of the blocks is the client's, the connections are those of the tracker at the
-- start and the tracked one, and there were so many attempts.
pub record Holds (base : MemoryConnTracker) (attempts : ℕ) (h : StreamHandler) (tracked : ℕ)
    (t : MemoryConnTracker) (n : ℕ) : Type 0 where
  pub tidy : IsTidy h
  pub held : Held base t (share tracked)
  pub counted : n ≡ attempts

abbrev pub Fits : {W : Type 0} → MemoryConnTracker → ℕ → Round W → Type 0
Fits base attempts r = Holds base attempts r.handler r.tracked r.tracker r.attempt

-- a turn that returns has finished the response
abbrev pub PartFits : {W : Type 0} → MemoryConnTracker → ℕ → Turn W → Type 0
PartFits base attempts (finished r) = Fits base attempts r × IsDone r.handler
PartFits base attempts (again r) = Fits base attempts r

-- one that goes on had a retry that remained, and is one attempt further
abbrev pub TurnFits : {W : Type 0} → MemoryConnTracker → ℕ → ℕ → Turn W → Type 0
TurnFits base remaining attempts (finished r) = Fits base attempts r × IsDone r.handler
TurnFits base remaining attempts (again r) = Fits base (attempts + 1) r × (1 ≤ remaining)

module _ (t : MemoryConnTracker) (id n : ℕ) where
  acquire_tracked-share :
      (account : Option ℕ)
      → get_count id t ≡ pos n
      → let got = acquire_tracked_account account t in get_count id got.1 ≡ pos (n + share got.0 id)
  unfolding acquire_tracked_account
  acquire_tracked-share none h = ground (arith, h)
  acquire_tracked-share (some a) h = ground (arith, get_count-acquire_pos id a t n h)

  release_tracked-share :
      (tracked : ℕ)
      → get_count id t ≡ pos (n + share tracked id)
      → get_count id (release_tracked_account tracked t) ≡ pos n
  unfolding release_tracked_account
  release_tracked-share tracked h =
      ground (arith, h, get_count-release_pos id tracked t (n + share tracked id) h)

none_shared : (n : ℕ) → n + 0 ≡ n
none_shared n = omega arith

pub get_count-acquire_tracked :
    (base t : MemoryConnTracker) (account : Option ℕ)
    → Held base t (λ id. 0)
    → let got = acquire_tracked_account account t in Held base got.1 (share got.0)
get_count-acquire_tracked base t account h id n c =
    acquire_tracked-share t id n account (h id n c ∙ ap pos (none_shared n))

pub get_count-release_tracked :
    (base t : MemoryConnTracker) (tracked : ℕ)
    → Held base t (share tracked)
    → Held base (release_tracked_account tracked t) (λ id. 0)
get_count-release_tracked base t tracked h id n c =
    release_tracked-share t id n tracked (h id n c) ∙ ap pos (sym (none_shared n))

-- the error texts leave a response that fits
pub inject_upstream_error-IsTidy :
    (err : Text) (h : StreamHandler) → IsTidy h → IsTidy (inject_upstream_error err h)
unfolding inject_upstream_error
inject_upstream_error-IsTidy err h t = inject_error_text-IsTidy _ h t

pub inject_auth_error-IsTidy :
    (err : Text) (h : StreamHandler) → IsTidy h → IsTidy (inject_auth_error err h)
unfolding inject_auth_error
inject_auth_error-IsTidy err h t = inject_error_text-IsTidy (auth_message err) h t

pub inject_retry_exhausted_error-IsTidy :
    (err : Text) (h : StreamHandler) → IsTidy h → IsTidy (inject_retry_exhausted_error err h)
unfolding inject_retry_exhausted_error
inject_retry_exhausted_error-IsTidy err h t = inject_error_text-IsTidy _ h t

pub inject_no_available_account_error-IsTidy :
    (err selector : Text) (h : StreamHandler)
    → IsTidy h
    → IsTidy (inject_no_available_account_error err selector h)
unfolding inject_no_available_account_error
inject_no_available_account_error-IsTidy err selector h t =
    inject_error_text-IsTidy (no_account_message err selector) h t

module _ {W : Type 0} (actions : Actions W) (cfg : RetryConfig) (err : Text)
    (class : UpstreamErrorClass) (h : StreamHandler) where
  pub give_up-IsTidy : IsTidy h → IsTidy (give_up actions cfg err class h)
  give_up-IsTidy t =
      if-IsTidy (is_auth class.category) _ _ (inject_auth_error-IsTidy err h t)
        (if-IsTidy (is_canceled class.category) _ _ t (inject_upstream_error-IsTidy err h t))

  pub exhausted-IsTidy : IsTidy h → IsTidy (exhausted actions cfg err class h)
  exhausted-IsTidy t =
      if-IsTidy (is_auth class.category) _ _ (inject_auth_error-IsTidy err h t)
        (inject_retry_exhausted_error-IsTidy err h t)

pub leave_account-free :
    {W : Type 0} (actions : Actions W) (cfg : RetryConfig) (id : ℕ) (r : Round W)
    → (leave_account actions cfg id r).tracked ≡ 0
unfolding leave_account
leave_account-free actions cfg id r = refl
