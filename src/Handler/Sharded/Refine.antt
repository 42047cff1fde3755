-- ===== src/Handler/Sharded/Refine.antt =====
-- The sharded map (internal/handler/sharded_map.go) against one map: the shards are the parts of
-- the one map that the hash assigns to them.
use inf_api.Common.{◌≡◌, refl, ap, ◌∙◌, Bool, Option, List, [], ◌∷◌, length}
use inf_api.Common.Map.{lookup, insert, delete}
use inf_api.Common.Text.{Text, key_dec}
use inf_api.Handler.Sharded.{
  Shard, ShardedMap, shard_count, empty_shards, new_sharded_map, get, set, remove, compute_shard,
  compute, len, delete_where, range_delete,
}
use inf_api.Handler.Sharded.Parts.{
  part, parts, get-parts, len-parts, set-parts, remove-parts, compute_shard-parts,
  range_delete-parts,
}

-- an operation that changes the map
pub data Change (V : Type 0) : Type 0 where
  put_key : Text → V → Change V
  drop_key : Text → Change V
  update : Text → (Option V → Option V) → Change V
  sweep : (Text → V → Bool) → Change V

module _ {V : Type 0} where
  pub apply : Change V → ShardedMap V → ShardedMap V
  apply (put_key key v) m = set key v m
  apply (drop_key key) m = remove key m
  apply (update key fn) m = (compute key fn m).1
  apply (sweep fn) m = range_delete fn m

  -- the same operation on one map
  pub apply_one : Change V → Shard V → Shard V
  apply_one (put_key key v) m = insert key_dec key v m
  apply_one (drop_key key) m = delete key_dec key m
  apply_one (update key fn) m = let old = lookup key_dec key m in compute_shard key old (fn old) m
  apply_one (sweep fn) m = delete_where fn m

  apply-parts :
      (c : Change V) (m : Shard V)
      → apply c (parts 0 shard_count m) ≡ parts 0 shard_count (apply_one c m)
  unfolding apply apply_one compute
  apply-parts (put_key key v) m = set-parts key v m
  apply-parts (drop_key key) m = remove-parts key m
  apply-parts (update key fn) m =
      rw (get-parts key m) (compute_shard-parts key (lookup key_dec key m) _ m)
  apply-parts (sweep fn) m = range_delete-parts fn 0 shard_count m

  pub run : List (Change V) → ShardedMap V → ShardedMap V
  run [] m = m
  run (c ∷ cs) m = run cs (apply c m)

  pub run_one : List (Change V) → Shard V → Shard V
  run_one [] m = m
  run_one (c ∷ cs) m = run_one cs (apply_one c m)

  run-parts :
      (cs : List (Change V)) (m : Shard V)
      → run cs (parts 0 shard_count m) ≡ parts 0 shard_count (run_one cs m)
  unfolding run run_one
  run-parts [] m = refl
  run-parts (c ∷ cs) m = ap (run cs) (apply-parts c m) ∙ run-parts cs (apply_one c m)

  -- After every sequence of Set, Delete, Compute and RangeDelete on a new sharded map, Get gives
  -- what one map has under the key after the same sequence, and Len is the number of its entries.
  pub run-refines :
      (cs : List (Change V))
      → ((key : Text) → get key (run cs new_sharded_map) ≡ lookup key_dec key (run_one cs []))
        × (len (run cs new_sharded_map) ≡ length (run_one cs []))
  unfolding empty_shards parts part
  run-refines cs =
      rw (run-parts cs []) (λ key. get-parts key (run_one cs []), len-parts (run_one cs []))
