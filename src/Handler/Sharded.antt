-- ===== src/Handler/Sharded.antt =====
-- The sharded map (internal/handler/sharded_map.go). Keys are the bytes of the strings; the mutex
-- of a shard orders the operations on it, and each operation locks the one shard it works on.

pub mod Parts
pub mod Refine
pub mod Access
mod Tests
use Prim.Native.Nat.{bit_xor}
use inf_api.Common.{
  ℕ, zero, suc, ◌+◌, ◌*◌, ◌%◌, ◌^◌, ◌≡◌, refl, Bool, true, false, Option, none, some, List, [], ◌∷◌,
  length, ◌==◌, if◌then◌else◌, ℕ_discrete,
}
use inf_api.Common.Map.{lookup, insert, delete}
use inf_api.Common.Text.{Text, key_dec}

abbrev pub shard_count : ℕ
shard_count = 16

unfoldable pub fnv1a_loop : Text → ℕ → ℕ
fnv1a_loop [] h = h
fnv1a_loop (b ∷ key) h = fnv1a_loop key (bit_xor h b * 16777619 % 2 ^ 32)

-- `fnv1aHash`
unfoldable pub fnv1a_hash : Text → ℕ
fnv1a_hash key = fnv1a_loop key 2166136261

-- `getShard`
unfoldable pub get_shard : Text → ℕ
get_shard key = fnv1a_hash key % shard_count

abbrev pub Shard : Type 0 → Type 0
Shard V = List (Text × V)

abbrev pub ShardedMap : Type 0 → Type 0
ShardedMap V = List (Shard V)

module _ {V : Type 0} where
  -- `m.shards[idx].data`
  unfoldable pub shard_at : ℕ → ShardedMap V → Shard V
  shard_at n [] = []
  shard_at zero (s ∷ m) = s
  shard_at (suc n) (s ∷ m) = shard_at n m

  -- the shard at an index is changed
  unfoldable pub change_at : ℕ → (Shard V → Shard V) → ShardedMap V → ShardedMap V
  change_at n f [] = []
  change_at zero f (s ∷ m) = f s ∷ m
  change_at (suc n) f (s ∷ m) = s ∷ change_at n f m

  unfoldable pub empty_shards : ℕ → ShardedMap V
  empty_shards zero = []
  empty_shards (suc n) = [] ∷ empty_shards n

  -- `NewShardedMap`
  abbrev pub new_sharded_map : ShardedMap V
  new_sharded_map = empty_shards shard_count

  -- `Get`
  unfoldable pub get : Text → ShardedMap V → Option V
  get key m = lookup key_dec key (shard_at (get_shard key) m)

  -- `Set`
  unfoldable pub set : Text → V → ShardedMap V → ShardedMap V
  set key value m = change_at (get_shard key) (insert key_dec key value) m

  -- `Delete`
  unfoldable pub remove : Text → ShardedMap V → ShardedMap V
  remove key m = change_at (get_shard key) (delete key_dec key) m

  -- What `Compute` does to the shard: `fn` gives none where it says not to keep the key.
  unfoldable pub compute_shard : Text → Option V → Option V → Shard V → Shard V
  compute_shard key old none s = elim old [ none ↦ s | some v ↦ delete key_dec key s ]
  compute_shard key old (some value) s = insert key_dec key value s

  -- `Compute`
  unfoldable pub compute : Text → (Option V → Option V) → ShardedMap V → Option V × ShardedMap V
  compute key fn m =
      let old = get key m in (old, change_at (get_shard key) (compute_shard key old (fn old)) m)

  -- `Range` over one shard: the callback works on a state, and its Boolean says whether to go on
  unfoldable pub range_shard : {S : Type 0} → (Text → V → S → Bool × S) → Shard V → S → Bool × S
  range_shard fn [] s = (true, s)
  range_shard fn ((k, v) ∷ rest) s =
      let r = fn k v s in elim r.0 [ true ↦ range_shard fn rest r.1 | false ↦ r ]

  unfoldable pub range_loop : {S : Type 0} → (Text → V → S → Bool × S) → ShardedMap V → S → Bool × S
  range_loop fn [] s = (true, s)
  range_loop fn (shard ∷ m) s =
      let r = range_shard fn shard s in elim r.0 [ true ↦ range_loop fn m r.1 | false ↦ r ]

  -- `Range`
  abbrev pub range : {S : Type 0} → (Text → V → S → Bool × S) → ShardedMap V → S → S
  range fn m s = (range_loop fn m s).1

  -- `Len`
  unfoldable pub len : ShardedMap V → ℕ
  len [] = 0
  len (s ∷ m) = length s + len m

  unfoldable pub delete_where : (Text → V → Bool) → Shard V → Shard V
  delete_where fn [] = []
  delete_where fn ((k, v) ∷ rest) =
      let kept = delete_where fn rest in if fn k v then kept else (k, v) ∷ kept

  -- `RangeDelete`
  unfoldable pub range_delete : (Text → V → Bool) → ShardedMap V → ShardedMap V
  range_delete fn [] = []
  range_delete fn (s ∷ m) = delete_where fn s ∷ range_delete fn m
