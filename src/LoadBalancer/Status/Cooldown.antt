-- ===== src/LoadBalancer/Status/Cooldown.antt =====
-- When an account is available again (internal/loadbalancer/loadbalancer.go).
use inf_api.Common.{
  ℕ, ◌+◌, ◌≤◌, ◌<◌, ◌≡◌, ◌≢◌, refl, Bool, true, false, not, ◌&&◌, ◌||◌, Option, none, some, [], leb,
  ◌==◌, if◌then◌else◌, arith, le→leb, leb→le, lt→leb_false, leb_false→lt, Bool-cases, inl, inr,
}
use inf_api.Common.Text.{Text, bytes, text_eq, text_eq_other, text_eq_nonempty, trim_space}
use inf_api.Common.Time.{sub_time, max_duration, is_zero}
use inf_api.LoadBalancer.Status.{
  Account, LoadBalancer, cleared, is_account_available, marked, mark_account_status,
  retry_401_default, retry_402_default, retry_403_default, retry_429_default,
}

-- The time that a status keeps an account out.
abbrev pub cooldown : Text → ℕ
cooldown status =
    if text_eq status (bytes "401")
    then retry_401_default
    else if text_eq status (bytes "429")
    then retry_429_default
    else if text_eq status (bytes "402")
    then retry_402_default
    else if text_eq status (bytes "403") || text_eq status (bytes "404")
    then retry_403_default
    else retry_401_default

abbrev after_attempt : Text → Account → Option ℕ
after_attempt status acc =
    if acc.last_attempt == 0 then none else some (acc.last_attempt + cooldown status)

-- The instant from which an account is available; `none` if it never is.
abbrev pub ready_at : Account → Option ℕ
ready_at acc =
    let status = trim_space acc.status_code in
    let reset = acc.quota_reset_at in
    if text_eq status []
    then some 0
    else if text_eq status (bytes "401")
    then after_attempt status acc
    else if text_eq status (bytes "429")
    then (if acc.last_attempt == 0
        then none
        else if reset == 0
        then after_attempt status acc
        else some reset)
    else if text_eq status (bytes "402")
    then (if reset == 0 then after_attempt status acc else some reset)
    else after_attempt status acc

abbrev pub reached : Option ℕ → ℕ → Bool
reached none now = false
reached (some t) now = leb t now

-- a wait of `d` since `t` is over exactly from `t + d` on, in spite of the saturating `Sub`
waited : (now t d : ℕ) → 0 < d → d ≤ max_duration → leb d (sub_time now t) ≡ leb (t + d) now
waited now t d h k = elim (Bool-cases (leb (t + d) now)) [
  | inl e ↦ rw e (le→leb _ _ (omega (arith, leb→le (t + d) now e)))
  | inr e ↦ rw e (lt→leb_false _ _ (omega (arith, leb_false→lt (t + d) now e)))
]

-- An account is available exactly from the instant that its status, its last attempt and its reset
-- time fix.
pub available_iff :
    (now : ℕ) (acc : Account) (lb : LoadBalancer)
    → (is_account_available now acc lb).0 ≡ reached (ready_at acc) now
unfolding is_account_available
available_iff now acc lb =
    let t = acc.last_attempt in
    ground (
      arith,
      waited now t retry_401_default (omega arith) (omega arith),
      waited now t retry_402_default (omega arith) (omega arith),
      waited now t retry_403_default (omega arith) (omega arith),
      waited now t retry_429_default (omega arith) (omega arith),
    )

-- An account that is available stays so as time goes on.
available_later :
    (now later : ℕ) (acc : Account) (lb : LoadBalancer)
    → now ≤ later
    → (is_account_available now acc lb).0 ≡ true
    → (is_account_available later acc lb).0 ≡ true
available_later now later acc lb le h =
    ground (arith, available_iff now acc lb, available_iff later acc lb)

ready_at-marked :
    (status : Text) (reset now : ℕ) (acc : Account)
    → 0 < now
    → text_eq status [] ≡ false
    → trim_space status ≡ status
    → ready_at (marked status reset now acc)
      ≡ some (
          if text_eq status (bytes "429") && not (is_zero reset)
          then reset
          else now + cooldown status)
unfolding marked text_eq
ready_at-marked status reset now acc pos named trimmed =
    rw trimmed (ground (arith, named, text_eq_other status (bytes "401") (bytes "429") refl))

mark_account-marked :
    (status : Text) (reset now : ℕ) (acc : Account) (lb : LoadBalancer)
    → text_eq status [] ≡ false
    → lb.has_store ≡ true
    → (mark_account_status status reset now acc lb).1 ≡ marked status reset now acc
unfolding mark_account_status
mark_account-marked status reset now acc lb named stored = ground (arith, named, stored)

-- Once an account is marked at `now` with a status without outer spaces, in a balancer with a
-- store, it is available at `at` exactly if the reset time is reached, where the status is 429 and
-- one is given, and exactly if the cooldown of the status has passed since `now` otherwise.
pub available_after_mark :
    (status : Text) (reset now at : ℕ) (acc : Account) (lb : LoadBalancer)
    → 0 < now
    → status ≢ []
    → trim_space status ≡ status
    → lb.has_store ≡ true
    → let (lb', acc') = mark_account_status status reset now acc lb in
      (is_account_available at acc' lb').0 ≡ (
        if text_eq status (bytes "429") && not (is_zero reset)
        then leb reset at
        else leb (now + cooldown status) at)
available_after_mark status reset now at acc lb pos named trimmed stored =
    let (lb', acc') = mark_account_status status reset now acc lb in
    let given : text_eq status [] ≡ false = text_eq_nonempty status named in
    let done = ready_at-marked status reset now acc pos given trimmed in
    rw available_iff
      (ground (arith, done, mark_account-marked status reset now acc lb given stored))

-- The account after the test: one that is available and had a status has lost it.
pub available-seen :
    (now : ℕ) (acc : Account) (lb : LoadBalancer)
    → (is_account_available now acc lb).2 ≡ (
        if reached (ready_at acc) now && not (text_eq (trim_space acc.status_code) [])
        then cleared acc
        else acc)
available-seen now acc lb =
    rw (← available_iff now acc lb) (unfold is_account_available in ground arith)
