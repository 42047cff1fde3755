-- ===== src/LoadBalancer/Tracker/Counts.antt =====
-- Counts of connections after a history of acquisitions and releases
-- (internal/loadbalancer/conn_tracker.go).
use inf_api.Common.{
  ℕ, ◌+◌, ◌-◌, ◌≡◌, refl, sym, ◌∙◌, Option, none, some, List, [], ◌∷◌, arith, ℕ_discrete, ◌==◌,
  if◌then◌else◌, Option-cases, inl, inr, ◌⊎◌, ◌≢◌, Bool-cases, zero, suc, true, false,
}
use inf_api.Common.Int.{ℤ, pos, add_one, take_one, is_above_zero}
use inf_api.Common.Map.{lookup, insert, lookup-insert_self, lookup-insert_ne}
use inf_api.LoadBalancer.Tracker.{MemoryConnTracker, acquire, release, get_count}

pub data Step : Type 0 where
  opened : ℕ → Step
  closed : ℕ → Step

pub track : List Step → MemoryConnTracker → MemoryConnTracker
track [] t = t
track (opened id ∷ rest) t = track rest (acquire id t)
track (closed id ∷ rest) t = track rest (release id t)

-- the open connections of one account: a release without one is ignored
abbrev pub open_of : ℕ → List Step → ℕ → ℕ
open_of id [] n = n
open_of id (opened j ∷ rest) n = open_of id rest (if j == id then n + 1 else n)
open_of id (closed j ∷ rest) n = open_of id rest (if j == id then n - 1 else n)

get_count-lookup :
    (id : ℕ) (o : Option ℤ) (t : MemoryConnTracker)
    → lookup ℕ_discrete id t ≡ o
    → get_count id t ≡ elim o [ none ↦ pos 0 | some n ↦ n ]
unfolding get_count
get_count-lookup id o t h = rw (h, get_count) refl

get_count-insert_self :
    (id : ℕ) (v : ℤ) (t : MemoryConnTracker) → get_count id (insert ℕ_discrete id v t) ≡ v
get_count-insert_self id v t = get_count-lookup id (some v) _ (lookup-insert_self ℕ_discrete id v t)

get_count-insert_ne :
    (id j : ℕ) (v : ℤ) (t : MemoryConnTracker)
    → id ≢ j
    → get_count id (insert ℕ_discrete j v t) ≡ get_count id t
get_count-insert_ne id j v t ne =
    get_count-lookup id _ _ (lookup-insert_ne ℕ_discrete id j v t ne)
    ∙ sym (get_count-lookup id _ t refl)

acquire-insert :
    (j : ℕ) (t : MemoryConnTracker) → acquire j t ≡ insert ℕ_discrete j (add_one (get_count j t)) t
acquire-insert j t = elim (Option-cases (lookup ℕ_discrete j t)) [
  | inl e ↦ rw (get_count-lookup j none t e) (unfold acquire in rw (e, acquire) refl)
  | inr (n, e) ↦ rw (get_count-lookup j (some n) t e) (unfold acquire in rw (e, acquire) refl)
]

-- a release changes nothing, where no connection is open, or takes one off
release-cases :
    (j : ℕ) (t : MemoryConnTracker)
    → ((release j t ≡ t) × (is_above_zero (get_count j t) ≡ false))
      ⊎ ((release j t ≡ insert ℕ_discrete j (take_one (get_count j t)) t)
          × (is_above_zero (get_count j t) ≡ true))
unfolding release
release-cases j t = elim (Option-cases (lookup ℕ_discrete j t)) [
  | inl e ↦ inl (rw (e, release) refl, rw (get_count-lookup j none t e) refl)
  | inr (n, e) ↦ elim (Bool-cases (is_above_zero n)) [
    | inl h ↦
        let is = get_count-lookup j (some n) t e in inr (rw is (ground (arith, e, h)), rw is h)
    | inr h ↦ inl (ground (arith, e, h), rw (get_count-lookup j (some n) t e) h)
  ]
]

pub get_count-acquire :
    (id j : ℕ) (t : MemoryConnTracker)
    → get_count id (acquire j t) ≡ (if j == id then add_one (get_count id t) else get_count id t)
get_count-acquire id j t = elim (ℕ_discrete j id) [
  | yes p ↦
      let same = get_count-insert_self j (add_one (get_count j t)) t in
      ground (arith, p, acquire-insert j t, same)
  | no n ↦
      let other = get_count-insert_ne id j (add_one (get_count j t)) t (λ e. n (sym e)) in
      ground (arith, n, acquire-insert j t, other)
]

pub get_count-release :
    (id j : ℕ) (t : MemoryConnTracker)
    → get_count id (release j t) ≡ (
        if j == id
        then (if is_above_zero (get_count id t) then take_one (get_count id t) else get_count id t)
        else get_count id t)
get_count-release id j t = elim (ℕ_discrete j id) [
  | yes p ↦
      let same = get_count-insert_self j (take_one (get_count j t)) t in
      ground (arith, p, release-cases j t, same)
  | no n ↦
      let other = get_count-insert_ne id j (take_one (get_count j t)) t (λ e. n (sym e)) in
      ground (arith, n, release-cases j t, other)
]

abbrev one_less : ℤ → ℤ
one_less z = if is_above_zero z then take_one z else z

one_less-pos : (n : ℕ) → one_less (pos n) ≡ pos (n - 1)
one_less-pos zero = refl
one_less-pos (suc n) = ground arith

-- counts that are at least 0
pub get_count-acquire_pos :
    (id j : ℕ) (t : MemoryConnTracker) (n : ℕ)
    → get_count id t ≡ pos n
    → get_count id (acquire j t) ≡ pos (if j == id then n + 1 else n)
get_count-acquire_pos id j t n h = ground (arith, h, get_count-acquire id j t)

pub get_count-release_pos :
    (id j : ℕ) (t : MemoryConnTracker) (n : ℕ)
    → get_count id t ≡ pos n
    → get_count id (release j t) ≡ pos (if j == id then n - 1 else n)
get_count-release_pos id j t n h = ground (arith, h, get_count-release id j t, one_less-pos n)

-- Where an account has n connections: after every history of acquisitions and releases, GetCount of
-- the account is the number, never below 0, that counting this account's steps alone from n gives,
-- a release without an open connection being ignored.
pub get_count-track :
    (id : ℕ) (steps : List Step) (n : ℕ) (t : MemoryConnTracker)
    → get_count id t ≡ pos n
    → get_count id (track steps t) ≡ pos (open_of id steps n)
unfolding track
get_count-track id [] n t h = h
get_count-track id (opened j ∷ rest) n t h =
    get_count-track id rest _ (acquire j t) (get_count-acquire_pos id j t n h)
get_count-track id (closed j ∷ rest) n t h =
    get_count-track id rest _ (release j t) (get_count-release_pos id j t n h)
