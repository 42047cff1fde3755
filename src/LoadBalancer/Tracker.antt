-- ===== src/LoadBalancer/Tracker.antt =====
-- The connection tracker in memory (internal/loadbalancer/conn_tracker.go). Each step of an atomic
-- operation is a step of the model: `Acquire` adds 1 to a counter that stays once it is there, and
-- the loop of `Release` ends with one compare-and-swap that succeeds, or at a counter that is not
-- above 0. A counter is an int64, of which no program opens 2^63 connections.
pub mod Counts
mod Tests
use inf_api.Common.{ℕ, Option, none, some, List, [], ◌∷◌, ℕ_discrete, if◌then◌else◌}
use inf_api.Common.Int.{ℤ, pos, add_one, take_one, is_above_zero}
use inf_api.Common.Map.{lookup, insert}

abbrev pub MemoryConnTracker : Type 0
MemoryConnTracker = List (ℕ × ℤ)

-- `Acquire`: `LoadOrStore`, then `Add(1)`
unfoldable pub acquire : ℕ → MemoryConnTracker → MemoryConnTracker
acquire id t = elim (lookup ℕ_discrete id t) [
  | none ↦ insert ℕ_discrete id (pos 1) t
  | some n ↦ insert ℕ_discrete id (add_one n) t
]

-- `Release`
unfoldable pub release : ℕ → MemoryConnTracker → MemoryConnTracker
release id t = elim (lookup ℕ_discrete id t) [
  | none ↦ t
  | some n ↦ if is_above_zero n then insert ℕ_discrete id (take_one n) t else t
]

-- `GetCount`
unfoldable pub get_count : ℕ → MemoryConnTracker → ℤ
get_count id t = elim (lookup ℕ_discrete id t) [ none ↦ pos 0 | some n ↦ n ]

-- the loop of `GetCounts`
unfoldable pub count_loop : List ℕ → MemoryConnTracker → List (ℕ × ℤ) → List (ℕ × ℤ)
unfolding get_count
count_loop [] t counts = counts
count_loop (id ∷ ids) t counts = count_loop ids t (insert ℕ_discrete id (get_count id t) counts)

-- `GetCounts`
unfoldable pub get_counts : List ℕ → MemoryConnTracker → List (ℕ × ℤ)
unfolding count_loop
get_counts ids t = count_loop ids t []
