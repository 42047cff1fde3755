-- ===== src/Handler/Sharded/Tests.antt =====
-- Runs of the sharded map (internal/handler/sharded_map.go).
use inf_api.Common.{ℕ, ◌+◌, ◌≡◌, refl, ◌==◌, Option, none, some, List, [], ◌∷◌, length}
use inf_api.Common.Map.{lookup}
use inf_api.Common.Text.{Text, bytes, key_dec}
use inf_api.Handler.Sharded.{new_sharded_map, get, len, fnv1a_hash, fnv1a_loop}
use inf_api.Handler.Sharded.Refine.{Change, put_key, update, sweep, run, run_one, run-refines}

abbrev count_up : Option ℕ → Option ℕ
count_up none = some 1
count_up (some n) = some (n + 1)

abbrev four_changes : List (Change ℕ)
four_changes =
    put_key (bytes "a") 1
    ∷ put_key (bytes "b") 2
    ∷ update (bytes "a") count_up
    ∷ sweep (λ k v. v == 7)
    ∷ []

run-refines_example :
    ((key : Text)
      → get key (run four_changes new_sharded_map) ≡ lookup key_dec key (run_one four_changes []))
    × (len (run four_changes new_sharded_map) ≡ length (run_one four_changes []))
run-refines_example = run-refines four_changes

-- the published hash of "a"
hash_a : fnv1a_hash (bytes "a") ≡ 3826002220
unfolding fnv1a_hash fnv1a_loop
hash_a = refl
