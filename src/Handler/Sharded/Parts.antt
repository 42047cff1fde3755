-- ===== src/Handler/Sharded/Parts.antt =====
-- One map cut into the shards of the sharded map (internal/handler/sharded_map.go), by the hash of
-- the keys.
use inf_api.Common.{
  ℕ, zero, suc, ◌+◌, ◌<◌, ◌≤◌, ◌≡◌, ◌≢◌, refl, sym, ap, ◌∙◌, Bool, Option, none, some, [], ◌∷◌,
  length, ◌==◌, if◌then◌else◌, arith,
}
use inf_api.Common.Map.{lookup, insert, delete}
use inf_api.Common.Text.{Text, key_dec}
use inf_api.Handler.Sharded.{
  Shard, ShardedMap, shard_count, get_shard, shard_at, change_at, get, set, remove, compute_shard,
  len, delete_where, range_delete,
}

pub get_shard-lt : (key : Text) → get_shard key < shard_count
unfolding get_shard
get_shard-lt key = omega arith

module _ {V : Type 0} where
  -- the entries of one map that belong to a shard
  unfoldable pub part : ℕ → Shard V → Shard V
  part i [] = []
  part i ((k, v) ∷ m) = let rest = part i m in if get_shard k == i then (k, v) ∷ rest else rest

  -- the shards from an index on, cut from one map
  unfoldable pub parts : ℕ → ℕ → Shard V → ShardedMap V
  parts i zero m = []
  parts i (suc n) m = part i m ∷ parts (suc i) n m

  lookup-part :
      (i : ℕ) (key : Text) (m : Shard V)
      → get_shard key ≡ i
      → lookup key_dec key (part i m) ≡ lookup key_dec key m
  unfolding part lookup
  lookup-part i key [] h = refl
  lookup-part i key ((k, v) ∷ m) h = ground (arith, lookup-part i key m h)

  part-insert :
      (i : ℕ) (key : Text) (v : V) (m : Shard V)
      → get_shard key ≡ i
      → part i (insert key_dec key v m) ≡ insert key_dec key v (part i m)
  unfolding part insert
  part-insert i key v [] h = ground arith
  part-insert i key v ((k, w) ∷ m) h = ground (arith, part-insert i key v m h)

  part-insert_other :
      (i : ℕ) (key : Text) (v : V) (m : Shard V)
      → get_shard key ≢ i
      → part i (insert key_dec key v m) ≡ part i m
  unfolding part insert
  part-insert_other i key v [] h = ground arith
  part-insert_other i key v ((k, w) ∷ m) h = ground (arith, part-insert_other i key v m h)

  part-delete :
      (i : ℕ) (key : Text) (m : Shard V)
      → part i (delete key_dec key m) ≡ delete key_dec key (part i m)
  unfolding part delete
  part-delete i key [] = refl
  part-delete i key ((k, w) ∷ m) = ground (arith, part-delete i key m)

  part-delete_other :
      (i : ℕ) (key : Text) (m : Shard V)
      → get_shard key ≢ i
      → part i (delete key_dec key m) ≡ part i m
  unfolding part delete
  part-delete_other i key [] h = refl
  part-delete_other i key ((k, w) ∷ m) h = ground (arith, part-delete_other i key m h)

  part-delete_where :
      (i : ℕ) (fn : Text → V → Bool) (m : Shard V)
      → part i (delete_where fn m) ≡ delete_where fn (part i m)
  unfolding part delete_where
  part-delete_where i fn [] = refl
  part-delete_where i fn ((k, w) ∷ m) = ground (arith, part-delete_where i fn m)

  shard_at-parts :
      (at i d n : ℕ) (m : Shard V) → at ≡ i + d → d < n → shard_at d (parts i n m) ≡ part at m
  unfolding parts shard_at
  shard_at-parts at i d zero m e h = absurd (omega (arith, h))
  shard_at-parts at i zero (suc n) m e h = ap (λ j. part j m) (omega (arith, e))
  shard_at-parts at i (suc d) (suc n) m e h =
      shard_at-parts at (suc i) d n m (omega (arith, e)) (omega (arith, h))

  -- a change of the one map that concerns one shard only
  parts_same :
      (f : Shard V → Shard V) (at i n : ℕ) (m : Shard V)
      → ((j : ℕ) → at ≢ j → part j (f m) ≡ part j m)
      → at < i
      → parts i n (f m) ≡ parts i n m
  unfolding parts
  parts_same f at i zero m h lt = refl
  parts_same f at i (suc n) m h lt =
      rw (h i (λ e. omega (arith, lt, e)), parts_same f at (suc i) n m h (omega (arith, lt))) refl

  change_at-parts :
      (f g : Shard V → Shard V) (at i d n : ℕ) (m : Shard V)
      → at ≡ i + d
      → part at (f m) ≡ g (part at m)
      → ((j : ℕ) → at ≢ j → part j (f m) ≡ part j m)
      → change_at d g (parts i n m) ≡ parts i n (f m)
  unfolding parts change_at
  change_at-parts f g at i d zero m e here other = refl
  change_at-parts f g at i zero (suc n) m e here other =
      let same : at ≡ i = omega (arith, e) in
      let rest = parts_same f at (suc at) n m other (omega arith) in rw (sym same, here, rest) refl
  change_at-parts f g at i (suc d) (suc n) m e here other =
      let rest = change_at-parts f g at (suc i) d n m (omega (arith, e)) here other in
      rw (other i (λ p. omega (arith, e, p)), rest) refl

  parts_out :
      (i n : ℕ) (k : Text) (v : V) (m : Shard V)
      → get_shard k < i
      → parts i n ((k, v) ∷ m) ≡ parts i n m
  unfolding parts part
  parts_out i zero k v m h = refl
  parts_out i (suc n) k v m h = ground (arith, parts_out (suc i) n k v m)

  len-parts_cons :
      (i n : ℕ) (k : Text) (v : V) (m : Shard V)
      → i ≤ get_shard k
      → get_shard k < i + n
      → len (parts i n ((k, v) ∷ m)) ≡ suc (len (parts i n m))
  unfolding parts part len
  len-parts_cons i zero k v m le lt = absurd (omega (arith, le, lt))
  len-parts_cons i (suc n) k v m le lt =
      ground (arith, parts_out (suc i) n k v m, len-parts_cons (suc i) n k v m)

  pub len-parts : (m : Shard V) → len (parts 0 shard_count m) ≡ length m
  unfolding parts part len
  len-parts [] = refl
  len-parts ((k, v) ∷ m) =
      len-parts_cons 0 shard_count k v m (omega arith) (get_shard-lt k) ∙ ap suc (len-parts m)

  pub get-parts :
      (key : Text) (m : Shard V) → get key (parts 0 shard_count m) ≡ lookup key_dec key m
  unfolding get
  get-parts key m =
      ap (λ s. lookup key_dec key s)
        (shard_at-parts (get_shard key) 0 (get_shard key) shard_count m (omega arith)
          (get_shard-lt key))
      ∙ lookup-part (get_shard key) key m refl

  pub set-parts :
      (key : Text) (v : V) (m : Shard V)
      → set key v (parts 0 shard_count m) ≡ parts 0 shard_count (insert key_dec key v m)
  unfolding set
  set-parts key v m =
      let h = get_shard key in
      change_at-parts (insert key_dec key v) (insert key_dec key v) h 0 h shard_count m
        (omega arith) (part-insert h key v m refl) (λ j ne. part-insert_other j key v m ne)

  pub remove-parts :
      (key : Text) (m : Shard V)
      → remove key (parts 0 shard_count m) ≡ parts 0 shard_count (delete key_dec key m)
  unfolding remove
  remove-parts key m =
      let h = get_shard key in
      change_at-parts (delete key_dec key) (delete key_dec key) h 0 h shard_count m (omega arith)
        (part-delete h key m) (λ j ne. part-delete_other j key m ne)

  change_at_id : (d : ℕ) (m : ShardedMap V) → change_at d (λ s. s) m ≡ m
  unfolding change_at
  change_at_id d [] = refl
  change_at_id zero (s ∷ m) = refl
  change_at_id (suc d) (s ∷ m) = ap (λ r. s ∷ r) (change_at_id d m)

  pub compute_shard-parts :
      (key : Text) (old new : Option V) (m : Shard V)
      → change_at (get_shard key) (compute_shard key old new) (parts 0 shard_count m)
        ≡ parts 0 shard_count (compute_shard key old new m)
  unfolding compute_shard set remove
  compute_shard-parts key none none m = change_at_id (get_shard key) (parts 0 shard_count m)
  compute_shard-parts key (some w) none m = remove-parts key m
  compute_shard-parts key old (some v) m = set-parts key v m

  pub range_delete-parts :
      (fn : Text → V → Bool) (i n : ℕ) (m : Shard V)
      → range_delete fn (parts i n m) ≡ parts i n (delete_where fn m)
  unfolding range_delete parts
  range_delete-parts fn i zero m = refl
  range_delete-parts fn i (suc n) m =
      rw (range_delete-parts fn (suc i) n m, part-delete_where i fn m) refl
