-- ===== src/LoadBalancer/Select/Tiers.antt =====
-- The order of the tiers in `selectAccountByTier` (internal/loadbalancer/tier.go).
use inf_api.Common.{
  ℕ, ◌≡◌, refl, sym, ◌∙◌, ap, ◌⊎◌, inl, inr, Bool, ◌&&◌, Option, none, some, List, [], ◌∷◌, ◌++◌,
  ◌==◌, if◌then◌else◌, keep, arith, ℕ_discrete, Bool-cases,
}
use mathlib.Core.Path.{ap₂}
use mathlib.Core.List.{append-nil, append_assoc}
use inf_api.Common.Map.{lookup, insert, lookup-insert}
use inf_api.LoadBalancer.Status.{Account}
use inf_api.LoadBalancer.Select.Least.{select_nothing}
use inf_api.LoadBalancer.Select.{
  tier_of, bucket, bucket_loop, insert_sorted, sorted_keys, tier_loop, select_account,
  select_within_tier, select_by_tier, passes,
}

-- the accounts of a tier that pass, in order
abbrev pub of_tier : (Account → Bool) → ℕ → List Account → List Account
of_tier p t = keep (λ a. p a && (tier_of a == t))

tier_cases : (a : Account) → (tier_of a ≡ 2) ⊎ (tier_of a ≡ 3)
unfolding tier_of
tier_cases a = ground arith

-- the maps that the loop builds
data Shape : List (ℕ × List Account) → Type 0 where
  empty : Shape []
  two : (l : List Account) → Shape ((2, l) ∷ [])
  three : (m : List Account) → Shape ((3, m) ∷ [])
  two_three : (l m : List Account) → Shape ((2, l) ∷ (3, m) ∷ [])
  three_two : (l m : List Account) → Shape ((3, m) ∷ (2, l) ∷ [])

insert-Shape :
    (t : ℕ) (l : List Account) {b : List (ℕ × List Account)}
    → (t ≡ 2) ⊎ (t ≡ 3)
    → Shape b
    → Shape (insert ℕ_discrete t l b)
unfolding insert ℕ_discrete
insert-Shape t l (inl e) empty = rw e (two l)
insert-Shape t l (inl e) (two k) = rw e (two l)
insert-Shape t l (inl e) (three m) = rw e (three_two l m)
insert-Shape t l (inl e) (two_three k m) = rw e (two_three l m)
insert-Shape t l (inl e) (three_two k m) = rw e (three_two l m)
insert-Shape t l (inr e) empty = rw e (three l)
insert-Shape t l (inr e) (two k) = rw e (two_three k l)
insert-Shape t l (inr e) (three m) = rw e (three l)
insert-Shape t l (inr e) (two_three k m) = rw e (two_three k l)
insert-Shape t l (inr e) (three_two k m) = rw e (three_two k l)

module _ (p : Account → Bool) where
  bucket_loop-Shape :
      (accounts : List Account) (b : List (ℕ × List Account))
      → Shape b
      → Shape (bucket_loop p b accounts)
  unfolding bucket_loop
  bucket_loop-Shape [] b s = s
  bucket_loop-Shape (a ∷ rest) b s = elim (Bool-cases (p a)) [
    | inl e ↦ rw e (bucket_loop-Shape rest _ (insert-Shape (tier_of a) _ (tier_cases a) s))
    | inr e ↦ rw e (bucket_loop-Shape rest b s)
  ]

  bucket-insert :
      (t k : ℕ) (l : List Account) (b : List (ℕ × List Account))
      → bucket t (insert ℕ_discrete k l b) ≡ (if k == t then l else bucket t b)
  unfolding bucket
  bucket-insert t k l b = ground (arith, lookup-insert ℕ_discrete t k l b)

  -- a bucket holds the accounts of its tier that pass, in order
  bucket-bucket_loop :
      (t : ℕ) (accounts : List Account) (b : List (ℕ × List Account))
      → bucket t (bucket_loop p b accounts) ≡ bucket t b ++ of_tier p t accounts
  unfolding bucket_loop
  bucket-bucket_loop t [] b = sym (append-nil _)
  bucket-bucket_loop t (a ∷ rest) b = elim (Bool-cases (p a)) [
    | inr e ↦ rw (e, bucket-bucket_loop t rest b)
    | inl e ↦
        rw (e, bucket-bucket_loop t rest _, bucket-insert t _ _ b)
          (elim (Bool-cases (tier_of a == t)) [
            | inr other ↦ rw other
            | inl here ↦
                let same : tier_of a ≡ t = ground (arith, here) in
                rw (here, append_assoc) (ap (λ k. bucket k b ++ a ∷ of_tier p t rest) same)
          ])
  ]

abbrev pub or_else : Option Account → Option Account → Option Account
or_else none next = next
or_else (some a) next = some a

module _ (counts : ℕ → ℕ) (draw : ℕ) where
  tier_loop-Shape :
      {b : List (ℕ × List Account)}
      → Shape b
      → tier_loop counts draw b (sorted_keys b)
        ≡ or_else
            (select_account counts draw (bucket 2 b))
            (select_account counts draw (bucket 3 b))
  unfolding tier_loop sorted_keys insert_sorted bucket lookup ℕ_discrete select_within_tier
  tier_loop-Shape empty = unfold select_account in refl
  tier_loop-Shape (two l) = ground (arith, select_nothing counts draw)
  tier_loop-Shape (three m) = ground (arith, select_nothing counts draw)
  tier_loop-Shape (two_three l m) = ground arith
  tier_loop-Shape (three_two l m) = ground arith

  -- `selectAccountByTier` makes the choice of the tier-2 accounts that pass the predicate, in
  -- order; only if that gives none does it make the choice of the tier-3 accounts that pass.
  pub select_by_tier_lem :
      (predicate : Option (Account → Bool)) (accounts : List Account)
      → select_by_tier counts draw predicate accounts
        ≡ or_else
            (select_account counts draw (of_tier (passes predicate) 2 accounts))
            (select_account counts draw (of_tier (passes predicate) 3 accounts))
  unfolding select_by_tier bucket lookup
  select_by_tier_lem predicate accounts =
      let p = passes predicate in
      tier_loop-Shape (bucket_loop-Shape p accounts [] empty)
      ∙ ap₂ (λ l m. or_else (select_account counts draw l) (select_account counts draw m))
          (bucket-bucket_loop p 2 accounts []) (bucket-bucket_loop p 3 accounts [])
