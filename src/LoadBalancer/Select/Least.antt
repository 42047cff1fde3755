-- ===== src/LoadBalancer/Select/Least.antt =====
-- The account that `selectAccountWithTracker` (internal/loadbalancer/loadbalancer.go) returns.
use native.Mathlib.Nat.{mod-lt, le_of_mul-le-mul_right, mul-le-mul_right}
use inf_api.Common.{
  ℕ, zero, suc, ◌*◌, ◌%◌, ◌≤◌, ◌<◌, ◌≡◌, ◌≢◌, refl, ◌⊎◌, inl, inr, true, false, ◌||◌, none, some,
  List, [], ◌∷◌, ◌++◌, length, is_empty, arith, All, All-map, All-append, All-both, Bool-cases,
}
use inf_api.Common.Int.{ℤ}
use inf_api.LoadBalancer.Status.{Account}
use inf_api.LoadBalancer.Select.{
  Score, score_of, score_lt, score_eq, positive_weight, best_loop, nth, select_account,
}

-- one score is at most another, as fractions
abbrev pub ScoreLe : Score → Score → Type 0
ScoreLe (c, w) (d, v) = c * v ≤ d * w

abbrev pub Member : Account → List Account → Type 0
Member a [] = ⊥
Member a (x ∷ xs) = (x ≡ a) ⊎ Member a xs

ScoreLe-trans : (x y z : Score) → 0 < y.1 → ScoreLe x y → ScoreLe y z → ScoreLe x z
ScoreLe-trans (a, u) (b, v) (c, w) lt h k =
    le_of_mul-le-mul_right {k = v} (omega (arith, mul-le-mul_right w h, mul-le-mul_right u k)) lt

positive_weight-pos : (w : ℤ) → 0 < positive_weight w
unfolding positive_weight
positive_weight-pos w = ground arith

module _ (counts : ℕ → ℕ) where
  score-pos : (a : Account) → 0 < (score_of counts a).1
  unfolding score_of
  score-pos a = positive_weight-pos a.weight

  -- an account whose score is at most that of each of a list
  abbrev pub IsLeast : Account → List Account → Type 0
  IsLeast a = All (λ b. ScoreLe (score_of counts a) (score_of counts b))

  abbrev AtMost : Score → Account → Type 0
  AtMost low a = ScoreLe (score_of counts a) low

  abbrev Exactly : Score → Account → Type 0
  Exactly low a = AtMost low a × ScoreLe low (score_of counts a)

  -- how an account compares with the best so far
  best_cases :
      (a : Account) (low : Score)
      → (score_lt (score_of counts a) low ≡ true) × ScoreLe (score_of counts a) low
        ⊎ (score_lt (score_of counts a) low ≡ false)
          × (score_eq (score_of counts a) low ≡ true)
          × Exactly low a
        ⊎ (score_lt (score_of counts a) low ≡ false)
          × (score_eq (score_of counts a) low ≡ false)
          × ScoreLe low (score_of counts a)
  best_cases a low = ground arith

  -- a best account stays least while the loop goes on
  abbrev Stays : Score → List Account → Account → Type 0
  Stays low rest a = AtMost low a × IsLeast a rest

  module _ (a : Account) (rest : List Account) where
    best_loop_first :
        (best : List Account) (low : Score)
        → (is_empty best || score_lt (score_of counts a) low) ≡ true
        → best_loop counts best low (a ∷ rest) ≡ best_loop counts (a ∷ []) (score_of counts a) rest
    unfolding best_loop
    best_loop_first best low h = rw h

    best_loop_tie :
        (x : Account) (best : List Account) (low : Score)
        → score_lt (score_of counts a) low ≡ false
        → score_eq (score_of counts a) low ≡ true
        → best_loop counts (x ∷ best) low (a ∷ rest)
          ≡ best_loop counts (x ∷ best ++ a ∷ []) low rest
    unfolding best_loop
    best_loop_tie x best low h e = rw (h, e)

    best_loop_worse :
        (x : Account) (best : List Account) (low : Score)
        → score_lt (score_of counts a) low ≡ false
        → score_eq (score_of counts a) low ≡ false
        → best_loop counts (x ∷ best) low (a ∷ rest) ≡ best_loop counts (x ∷ best) low rest
    unfolding best_loop
    best_loop_worse x best low h e = rw (h, e)

  best_loop_least :
      (x : Account) (best : List Account) (low : Score) (rest : List Account)
      → 0 < low.1
      → All (Exactly low) (x ∷ best)
      → (best_loop counts (x ∷ best) low rest ≢ [])
        × All (Stays low rest) (best_loop counts (x ∷ best) low rest)
  best_loop_least x best low [] lt h =
      unfold best_loop in
      (λ p. cc, All-map (Exactly low) (Stays low []) (λ a e. (e.0, tt)) (x ∷ best) h)
  best_loop_least x best low (a ∷ rest) lt h = elim (best_cases a low) [
    | inl (less, le) ↦
        let (some_best, all_best) =
          best_loop_least a [] (score_of counts a) rest (score-pos a)
            ((omega arith, omega arith), tt) in
        rw (best_loop_first a rest (x ∷ best) low less) (
          some_best,
          All-map (Stays (score_of counts a) rest) (Stays low (a ∷ rest))
              (λ b k. (
                ScoreLe-trans (score_of counts b) (score_of counts a) low (score-pos a) k.0 le,
                (k.0, k.1),
              ))
              _ all_best,
        )
    | inr (inl (less, tie, same)) ↦
        let (some_best, all_best) =
          best_loop_least x (best ++ a ∷ []) low rest lt
            (All-append (Exactly low) (x ∷ best) (a ∷ []) h (same, tt)) in
        rw (best_loop_tie a rest x best low less tie) (
          some_best,
          All-map (Stays low rest) (Stays low (a ∷ rest))
              (λ b k. (
                k.0,
                (ScoreLe-trans (score_of counts b) low (score_of counts a) lt k.0 same.1, k.1),
              ))
              _ all_best,
        )
    | inr (inr (less, tie, more)) ↦
        let (some_best, all_best) = best_loop_least x best low rest lt h in
        rw (best_loop_worse a rest x best low less tie) (
          some_best,
          All-map (Stays low rest) (Stays low (a ∷ rest))
              (λ b k.
                (k.0, (ScoreLe-trans (score_of counts b) low (score_of counts a) lt k.0 more, k.1)))
              _ all_best,
        )
  ]

  best_loop-Member :
      (pool best : List Account) (low : Score) (rest : List Account)
      → All (λ a. Member a pool) best
      → All (λ a. Member a pool) rest
      → All (λ a. Member a pool) (best_loop counts best low rest)
  unfolding best_loop
  best_loop-Member pool best low [] h k = h
  best_loop-Member pool best low (a ∷ rest) h k =
      elim (Bool-cases (is_empty best || score_lt (score_of counts a) low)) [
        | inl first ↦
            rw first (best_loop-Member pool (a ∷ []) (score_of counts a) rest (k.0, tt) k.1)
        | inr later ↦ rw later (elim (Bool-cases (score_eq (score_of counts a) low)) [
          | inl tie ↦ rw tie (
              best_loop-Member pool (best ++ a ∷ []) low rest
                (All-append (λ b. Member b pool) best (a ∷ []) h (k.0, tt)) k.1)
          | inr worse ↦ rw worse (best_loop-Member pool best low rest h k.1)
        ])
      ]

  Member-All :
      (pool more : List Account)
      → ((a : Account) → Member a more → Member a pool)
      → All (λ a. Member a pool) more
  Member-All pool [] f = tt
  Member-All pool (a ∷ more) f = (f a (inl refl), Member-All pool more (λ b m. f b (inr m)))

  length-pos : (xs : List Account) → xs ≢ [] → 0 < length xs
  length-pos [] h = absurd (h refl)
  length-pos (x ∷ xs) h = omega arith

  -- what is drawn from a list that has something is in it
  drawn :
      (P : Account → Type 0) (xs : List Account) (i : ℕ)
      → i < length xs
      → All P xs
      → (a : Account) × (nth xs i ≡ some a) × P a
  unfolding nth
  drawn P [] i lt h = absurd (omega arith)
  drawn P (x ∷ xs) zero lt h = (x, refl, h.0)
  drawn P (x ∷ xs) (suc i) lt h = drawn P xs i (omega arith) h.1

  -- From accounts of which there are some, whatever is drawn at random, `selectAccountWithTracker`
  -- returns one of them, and no account of them has fewer connections for its weight.
  pub select_account-IsLeast :
      (draw : ℕ) (accounts : List Account)
      → accounts ≢ []
      → (a : Account) × (select_account counts draw accounts ≡ some a)
        × Member a accounts
        × IsLeast a accounts
  select_account-IsLeast draw [] h = absurd (h refl)
  select_account-IsLeast draw (a ∷ []) h =
      (a, unfold select_account in refl, inl refl, (omega arith, tt))
  select_account-IsLeast draw (a ∷ b ∷ rest) h =
      let pool : List Account = a ∷ b ∷ rest in
      let best = best_loop counts [] (0, 1) pool in
      let start = best_loop_first a (b ∷ rest) [] (0, 1) refl in
      let (some_best, least) =
        best_loop_least a [] (score_of counts a) (b ∷ rest) (score-pos a)
          ((omega arith, omega arith), tt) in
      let members = best_loop-Member pool [] (0, 1) pool tt (Member-All pool pool (λ x m. m)) in
      let (x, found, both) =
        drawn (λ x. Member x pool × Stays (score_of counts a) (b ∷ rest) x) best
          (draw % length best) (mod-lt draw (length-pos best (rw start some_best)))
          (All-both (λ x. Member x pool) (Stays (score_of counts a) (b ∷ rest)) best members
            (rw start least)) in
      (x, unfold select_account in found, both.0, both.1)

pub select_nothing : (counts : ℕ → ℕ) (draw : ℕ) → select_account counts draw [] ≡ none
unfolding select_account
select_nothing counts draw = refl
