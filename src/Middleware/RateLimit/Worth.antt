-- ===== src/Middleware/RateLimit/Worth.antt =====
-- What an entry of the rate limiter is worth (internal/middleware/ratelimit.go).
use inf_api.Common.{
  ℕ, zero, suc, ◌+◌, ◌-◌, ◌*◌, ◌≤◌, by_test, ◌≡◌, refl, Bool, true, false, Option, none, some, List,
  [], ◌∷◌, arith, if◌then◌else◌,
}
use inf_api.Common.Map.{lookup, Distinct}
use inf_api.Common.Text.{Text, key_dec}
use inf_api.Common.Time.{max_duration, sub_time}
use inf_api.Common.Int.{pos, take_one}
use Prim.Native.Nat.{min}
use inf_api.Middleware.RateLimit.{
  Floats, LimiterEntry, refilled, replenish, process_existing_entry, allow_entry, outlived,
  sweep_entries,
}

-- What is relied on of float64: a value is as many parts of a token as the window has nanoseconds,
-- rounded up, and a sum or a difference, with the product that it has, is off by at most so many
-- parts.
pub record Rounds {F : Type 0} (floats : Floats F) (m w error : ℕ) (parts : F → ℕ) : Type 0 where
  pub whole : (n : ℕ) → n ≤ m → parts (floats.of_int (pos n)) ≤ n * w
  pub refill :
      (t : F) (elapsed : ℕ)
      → parts t ≤ m * w
      → elapsed ≤ w
      → parts (refilled floats m w elapsed t) ≤ parts t + elapsed * m + error
  pub over : (t : F) → floats.above t (floats.of_int (pos m)) ≡ true → m * w ≤ parts t
  pub capped : (t : F) → floats.above t (floats.of_int (pos m)) ≡ false → parts t ≤ m * w
  pub spend :
      (t : F)
      → floats.at_least t (floats.of_int (pos 1)) ≡ true
      → parts (floats.sub t (floats.of_int (pos 1))) + w ≤ parts t + error

abbrev pub spent : Bool → ℕ → ℕ
spent true window = window
spent false window = 0

pub token_spent : (b : Bool) (w : ℕ) → (if b then 1 else 0) * w ≡ spent b w
token_spent true w = omega arith
token_spent false w = omega arith

times-le : (a b d m : ℕ) → a ≤ b + d → a * m ≤ b * m + d * m
times-le a b d zero h = omega arith
times-le a b d (suc m) h = grind (arith, times-le a b d m h)

pub sum_times : (a b m : ℕ) → (a + b) * m ≡ a * m + b * m
sum_times a b m = grind arith

times-window : (d w m : ℕ) → w ≤ d → m * w ≤ d * m
times-window d w zero h = omega arith
times-window d w (suc m) h = grind (arith, times-window d w m h)

one_less : (m w : ℕ) → 1 ≤ m → (m - 1) * w + w ≡ m * w
one_less zero w h = let never : ⊥ = omega (arith, h) in elim never [ ]
one_less (suc m) w h = grind arith

taken : (m : ℕ) → 1 ≤ m → take_one (pos m) ≡ pos (m - 1)
taken zero h = let never : ⊥ = omega (arith, h) in elim never [ ]
taken (suc m) h = ground arith

module _ {F : Type 0} (floats : Floats F) (m w error : ℕ) (parts : F → ℕ)
    (rounds : Rounds floats m w error parts) where
  -- the parts that an entry has at an instant without any error, and those of an absent one
  abbrev pub worth : ℕ → Option (LimiterEntry F) → ℕ
  worth now none = m * w
  worth now (some e) = min (parts e.tokens + sub_time now e.last_visit * m) (m * w)

  replenish-parts :
      (now : ℕ) (e : LimiterEntry F)
      → parts (replenish floats m w now e) ≤ worth now (some e) + error
  unfolding replenish
  replenish-parts now e =
      let elapsed = sub_time now e.last_visit in
      let most = floats.of_int (pos m) in
      let all = rounds.whole m (omega arith) in
      by_test (λ t. parts t ≤ worth now (some e) + error)
        (floats.above (refilled floats m w elapsed e.tokens) most) _ _
        (λ over. ground (
          arith,
          all,
          rounds.over _ over,
          rounds.refill e.tokens elapsed,
          times-window elapsed w m,
        ))
        (λ within.
          ground (
            arith,
            rounds.capped _ within,
            rounds.refill e.tokens elapsed,
            times-window elapsed w m,
          ))

  -- An attempt pays a token's parts out of what the entry has.
  pub allow_entry-pays :
      (now : ℕ) (o : Option (LimiterEntry F))
      → 1 ≤ m
      → worth now (some (allow_entry floats m w now o).1) + spent (allow_entry floats m w now o).0 w
        ≤ worth now o + 2 * error
  unfolding allow_entry process_existing_entry
  allow_entry-pays now none h =
      rw (taken m h) (ground (arith, rounds.whole (m - 1) (omega arith), one_less m w h))
  allow_entry-pays now (some e) h =
      by_test
        (λ (r : Bool × LimiterEntry F).
          worth now (some r.1) + spent r.0 w ≤ worth now (some e) + 2 * error)
        (floats.at_least (replenish floats m w now e) (floats.of_int (pos 1))) _ _
        (λ enough. ground (arith, rounds.spend _ enough, replenish-parts now e))
        (λ less. ground (arith, replenish-parts now e))

  -- An entry gains no more than its rate.
  pub worth_gains :
      (now d : ℕ) (o : Option (LimiterEntry F)) → worth (now + d) o ≤ worth now o + d * m
  worth_gains now d none = omega arith
  worth_gains now d (some e) =
      let longer : sub_time (now + d) e.last_visit ≤ sub_time now e.last_visit + d = omega arith in
      ground (arith, times-le _ _ d m longer)

  -- Where an entry is swept, it had all its parts.
  worth-outlived :
      (now : ℕ) (e : LimiterEntry F)
      → 1 ≤ m
      → w * 2 ≤ max_duration
      → outlived w now e ≡ true
      → worth now (some e) ≡ m * w
  unfolding outlived
  worth-outlived now e h fits old =
      let waited : w ≤ sub_time now e.last_visit = ground (arith, fits, old) in
      let all = times-window (sub_time now e.last_visit) w m waited in omega (arith, all)

pub lookup-sweep_none :
    {F : Type 0} (w now : ℕ) (ip : Text) (l : List (Text × LimiterEntry F))
    → lookup key_dec ip l ≡ none
    → lookup key_dec ip (sweep_entries w now l) ≡ none
unfolding lookup sweep_entries
lookup-sweep_none w now ip [] h = refl
lookup-sweep_none w now ip ((j, e) ∷ l) h = ground (arith, lookup-sweep_none w now ip l)

module _ {F : Type 0} (floats : Floats F) (m w error : ℕ) (parts : F → ℕ)
    (rounds : Rounds floats m w error parts) (now : ℕ) (ip : Text) (some_attempt : 1 ≤ m)
    (fits : w * 2 ≤ max_duration) where
  pub sweep-worth :
      (l : List (Text × LimiterEntry F))
      → Distinct key_dec l
      → worth floats m w error parts rounds now (lookup key_dec ip (sweep_entries w now l))
        ≡ worth floats m w error parts rounds now (lookup key_dec ip l)
  unfolding lookup sweep_entries
  sweep-worth [] h = refl
  sweep-worth ((j, e) ∷ l) h = ground (
    arith,
    h,
    sweep-worth l h.1,
    lookup-sweep_none w now ip l,
    worth-outlived floats m w error parts rounds now e some_attempt fits,
  )

pub sweep-Distinct :
    {F : Type 0} (w now : ℕ) (l : List (Text × LimiterEntry F))
    → Distinct key_dec l
    → Distinct key_dec (sweep_entries w now l)
unfolding sweep_entries
sweep-Distinct w now [] h = h
sweep-Distinct w now ((j, e) ∷ l) h =
    ground (arith, sweep-Distinct w now l, lookup-sweep_none w now j l)
