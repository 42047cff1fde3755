-- ===== src/LoadBalancer/Select.antt =====
-- The choice of an account (internal/loadbalancer/loadbalancer.go, internal/loadbalancer/tier.go):
-- weighted least connections, alone and behind the subscription tiers. The source's scores are
-- floats, conns / weight; the model compares the fractions themselves, by products, which agrees
-- as long as a count times a weight stays below 2 ^ 52. `counts` is what the tracker's `GetCounts`
-- returns, and `draw` is the random number that `rand.IntN` reduces to the range it is asked for.
pub mod Least
pub mod Tiers
mod Tests
use inf_api.Common.{
  ℕ, zero, suc, ◌*◌, ◌%◌, Bool, true, false, ◌||◌, Option, none, some, List, [], ◌∷◌, ◌++◌, ltb,
  leb, ◌==◌, if◌then◌else◌, length, is_empty, keep, ℕ_discrete,
}
use inf_api.Common.Int.{ℤ, pos, negsuc}
use inf_api.Common.Map.{lookup, insert}
use inf_api.Common.Text.{Text, bytes, text_eq, trim_space, to_lower}
use inf_api.LoadBalancer.Status.{Account}

-- `if weight <= 0 { weight = 1 }`
pub positive_weight : ℤ → ℕ
positive_weight (pos n) = if n == 0 then 1 else n
positive_weight (negsuc n) = 1

-- a score: connections over weight
abbrev pub Score : Type 0
Score = ℕ × ℕ

pub score_of : (ℕ → ℕ) → Account → Score
score_of counts acc = (counts acc.id, positive_weight acc.weight)

abbrev pub score_lt : Score → Score → Bool
score_lt (c, w) (d, v) = ltb (c * v) (d * w)

abbrev pub score_eq : Score → Score → Bool
score_eq (c, w) (d, v) = (c * v) == (d * w)

-- the loop of `selectAccountWithTracker`, over `bestAccounts` and `minScore`
pub best_loop : (ℕ → ℕ) → List Account → Score → List Account → List Account
best_loop counts best low [] = best
best_loop counts best low (acc ∷ rest) =
    let score = score_of counts acc in
    let first = is_empty best || score_lt score low in
    best_loop counts
      (if first then acc ∷ [] else if score_eq score low then best ++ acc ∷ [] else best)
      (if first then score else low) rest

-- `accounts[i]`
pub nth : List Account → ℕ → Option Account
nth [] i = none
nth (a ∷ rest) zero = some a
nth (a ∷ rest) (suc i) = nth rest i

-- `selectAccountWithTracker`
pub select_account : (ℕ → ℕ) → ℕ → List Account → Option Account
select_account counts draw [] = none
select_account counts draw (a ∷ []) = some a
select_account counts draw (a ∷ b ∷ rest) =
    let best = best_loop counts [] (0, 1) (a ∷ b ∷ rest) in nth best (draw % length best)

-- `selectWithinTier`, whose body is that of `selectAccountWithTracker` with the tracker given
pub select_within_tier : (ℕ → ℕ) → ℕ → List Account → Option Account
select_within_tier counts draw accounts = select_account counts draw accounts

-- `TierOf`
pub tier_of : Account → ℕ
tier_of acc = if text_eq (to_lower (trim_space acc.subscription)) (bytes "free") then 3 else 2

-- `buckets[tier]`, where a missing tier reads as no accounts
pub bucket : ℕ → List (ℕ × List Account) → List Account
bucket tier buckets = elim (lookup ℕ_discrete tier buckets) [ none ↦ [] | some l ↦ l ]

-- the buckets of `selectAccountByTier`
pub bucket_loop :
    (Account → Bool) → List (ℕ × List Account) → List Account → List (ℕ × List Account)
bucket_loop predicate buckets [] = buckets
bucket_loop predicate buckets (acc ∷ rest) =
    let old = bucket (tier_of acc) buckets in
    bucket_loop predicate
      (if predicate acc then insert ℕ_discrete (tier_of acc) (old ++ acc ∷ []) buckets else buckets)
      rest

-- `sort.Ints` on the keys
pub insert_sorted : ℕ → List ℕ → List ℕ
insert_sorted k [] = k ∷ []
insert_sorted k (j ∷ rest) = if leb k j then k ∷ j ∷ rest else j ∷ insert_sorted k rest

pub sorted_keys : List (ℕ × List Account) → List ℕ
sorted_keys [] = []
sorted_keys ((k, l) ∷ rest) = insert_sorted k (sorted_keys rest)

-- the tiers in order, until one of them has a choice
pub tier_loop : (ℕ → ℕ) → ℕ → List (ℕ × List Account) → List ℕ → Option Account
tier_loop counts draw buckets [] = none
tier_loop counts draw buckets (k ∷ rest) =
    let next = tier_loop counts draw buckets rest in
    elim (select_within_tier counts draw (bucket k buckets)) [ none ↦ next | some acc ↦ some acc ]

-- no predicate stands for the one that is always true
unfoldable pub passes : Option (Account → Bool) → Account → Bool
passes none acc = true
passes (some p) acc = p acc

-- `selectAccountByTier`
pub select_by_tier : (ℕ → ℕ) → ℕ → Option (Account → Bool) → List Account → Option Account
select_by_tier counts draw predicate accounts =
    let buckets = bucket_loop (passes predicate) [] accounts in
    tier_loop counts draw buckets (sorted_keys buckets)
