-- ===== src/Handler/Sharded/Access.antt =====
-- What Get sees after Compute and RangeDelete (internal/handler/sharded_map.go).
use inf_api.Common.{
  ℕ, zero, suc, ◌<◌, ◌≡◌, ◌≢◌, refl, sym, Bool, false, Option, none, some, [], ◌∷◌, length, arith,
  ap, ◌∙◌,
}
use inf_api.Common.Map.{
  lookup, lookup-insert_ne, lookup-delete_ne, lookup-insert_self, lookup-delete_self,
}
use inf_api.Common.Text.{Text, key_dec}
use inf_api.Handler.Sharded.{
  Shard, ShardedMap, shard_count, get_shard, shard_at, change_at, get, compute_shard, compute,
  delete_where, range_delete,
}
use inf_api.Handler.Sharded.Parts.{get_shard-lt}

module _ {V : Type 0} where
  -- two indices: the changed shard, and one of its own
  shard_at-change_at :
      (d : ℕ) (f : Shard V → Shard V) (m : ShardedMap V)
      → d < length m
      → shard_at d (change_at d f m) ≡ f (shard_at d m)
  unfolding shard_at change_at
  shard_at-change_at d f [] h = absurd (omega (arith, h))
  shard_at-change_at zero f (s ∷ m) h = refl
  shard_at-change_at (suc d) f (s ∷ m) h = shard_at-change_at d f m (omega (arith, h))

  -- a key that the change leaves alone, wherever it stands
  lookup-change_at :
      (key : Text) (d e : ℕ) (f : Shard V → Shard V) (m : ShardedMap V)
      → ((s : Shard V) → lookup key_dec key (f s) ≡ lookup key_dec key s)
      → lookup key_dec key (shard_at d (change_at e f m)) ≡ lookup key_dec key (shard_at d m)
  unfolding shard_at change_at
  lookup-change_at key d e f [] h = refl
  lookup-change_at key zero zero f (s ∷ m) h = h s
  lookup-change_at key zero (suc e) f (s ∷ m) h = refl
  lookup-change_at key (suc d) zero f (s ∷ m) h = refl
  lookup-change_at key (suc d) (suc e) f (s ∷ m) h = lookup-change_at key d e f m h

  length-change_at :
      (d : ℕ) (f : Shard V → Shard V) (m : ShardedMap V) → length (change_at d f m) ≡ length m
  unfolding change_at
  length-change_at d f [] = refl
  length-change_at zero f (s ∷ m) = refl
  length-change_at (suc d) f (s ∷ m) = ap suc (length-change_at d f m)

  pub length-compute :
      (key : Text) (fn : Option V → Option V) (m : ShardedMap V)
      → length (compute key fn m).1 ≡ length m
  unfolding compute
  length-compute key fn m = length-change_at (get_shard key) _ m

  pub length-range_delete :
      (fn : Text → V → Bool) (m : ShardedMap V) → length (range_delete fn m) ≡ length m
  unfolding range_delete
  length-range_delete fn [] = refl
  length-range_delete fn (s ∷ m) = ap suc (length-range_delete fn m)

  lookup-compute_shard :
      (key : Text) (old new : Option V) (s : Shard V)
      → lookup key_dec key s ≡ old
      → lookup key_dec key (compute_shard key old new s) ≡ new
  unfolding compute_shard
  lookup-compute_shard key none none s h = h
  lookup-compute_shard key (some w) none s h = lookup-delete_self key_dec key s
  lookup-compute_shard key old (some v) s h = lookup-insert_self key_dec key v s

  lookup-compute_shard_ne :
      (j key : Text) (old new : Option V) (s : Shard V)
      → key ≢ j
      → lookup key_dec j (compute_shard key old new s) ≡ lookup key_dec j s
  unfolding compute_shard
  lookup-compute_shard_ne j key none none s h = refl
  lookup-compute_shard_ne j key (some v) none s h =
      lookup-delete_ne key_dec j key s (λ e. h (sym e))
  lookup-compute_shard_ne j key old (some v) s h =
      lookup-insert_ne key_dec j key v s (λ e. h (sym e))

  pub get-compute :
      (key : Text) (fn : Option V → Option V) (m : ShardedMap V)
      → length m ≡ shard_count
      → get key (compute key fn m).1 ≡ fn (get key m)
  unfolding get compute
  get-compute key fn m full =
      let lt = get_shard-lt key in
      ap (lookup key_dec key) (shard_at-change_at (get_shard key) _ m (omega (arith, full, lt)))
      ∙ lookup-compute_shard key _ _ (shard_at (get_shard key) m) refl

  pub get-compute_ne :
      (j key : Text) (fn : Option V → Option V) (m : ShardedMap V)
      → key ≢ j
      → get j (compute key fn m).1 ≡ get j m
  unfolding get compute
  get-compute_ne j key fn m h =
      lookup-change_at j (get_shard j) (get_shard key) _ m
        (λ s. lookup-compute_shard_ne j key _ _ s h)

  lookup-delete_where :
      (key : Text) (v : V) (fn : Text → V → Bool) (s : Shard V)
      → lookup key_dec key s ≡ some v
      → fn key v ≡ false
      → lookup key_dec key (delete_where fn s) ≡ some v
  unfolding lookup delete_where
  lookup-delete_where key v fn [] h keep = h
  lookup-delete_where key v fn ((k, w) ∷ s) h keep = ground (arith, lookup-delete_where key v fn s)

  shard_at-range_delete :
      (d : ℕ) (fn : Text → V → Bool) (m : ShardedMap V)
      → shard_at d (range_delete fn m) ≡ delete_where fn (shard_at d m)
  unfolding shard_at range_delete delete_where
  shard_at-range_delete d fn [] = refl
  shard_at-range_delete zero fn (s ∷ m) = refl
  shard_at-range_delete (suc d) fn (s ∷ m) = shard_at-range_delete d fn m

  pub get-range_delete :
      (key : Text) (v : V) (fn : Text → V → Bool) (m : ShardedMap V)
      → get key m ≡ some v
      → fn key v ≡ false
      → get key (range_delete fn m) ≡ some v
  unfolding get
  get-range_delete key v fn m h keep =
      ap (lookup key_dec key) (shard_at-range_delete (get_shard key) fn m)
      ∙ lookup-delete_where key v fn (shard_at (get_shard key) m) h keep
