-- ===== src/TokenCache/Memory/Prune.antt =====
-- `pruneExpiredLocked` (internal/tokencache/memory.go).
use inf_api.Common.{
  ℕ, ◌+◌, ◌-◌, ◌≤◌, ◌<◌, String, ◌≡◌, refl, Option, none, some, List, [], ◌∷◌, arith, length,
  text_dec, Bool-cases, inl, inr, false, if◌then◌else◌, ◌&&◌,
}
use inf_api.Common.Map.{lookup, Distinct}
use inf_api.TokenCache.Memory.{CacheItem, MemoryCache, prune_loop, prune_expired, get_stats}
use inf_api.TokenCache.Memory.Valid.{IsValid, total}
use inf_api.Common.{not, Bool, ◌==◌}
use inf_api.Common.Time.{before, is_zero}

-- the test of the pruning loop
abbrev pub is_past : ℕ → CacheItem → Bool
is_past now item = not (is_zero item.expires_at) && before item.expires_at now

abbrev pub unless_past : ℕ → Option CacheItem → Option CacheItem
unless_past now none = none
unless_past now (some item) = if is_past now item then none else some item

module _ (now : ℕ) where
  -- the loop leaves exactly the entries that have not expired
  pub lookup-prune_loop :
      (k : String) (size : ℕ) (m : List (String × CacheItem))
      → Distinct text_dec m
      → lookup text_dec k (prune_loop now size m).1 ≡ unless_past now (lookup text_dec k m)
  unfolding lookup prune_loop
  lookup-prune_loop k size [] d = refl
  lookup-prune_loop k size ((j, item) ∷ m) d =
      ground (arith, lookup-prune_loop k size m, lookup-prune_loop k (size - item.size) m)

  prune_loop-Distinct :
      (size : ℕ) (m : List (String × CacheItem))
      → Distinct text_dec m
      → Distinct text_dec (prune_loop now size m).1
  unfolding lookup prune_loop
  prune_loop-Distinct size [] d = tt
  prune_loop-Distinct size ((j, item) ∷ m) d = ground (
    arith,
    prune_loop-Distinct size m,
    prune_loop-Distinct (size - item.size) m,
    lookup-prune_loop j size m,
  )

  prune_loop_counts :
      (size : ℕ) (m : List (String × CacheItem))
      → total m ≤ size
      → ((prune_loop now size m).0 + total m ≡ size + total (prune_loop now size m).1)
        × (length (prune_loop now size m).1 ≤ length m)
  unfolding prune_loop
  prune_loop_counts size [] le = (refl, omega arith)
  prune_loop_counts size ((j, item) ∷ m) le =
      ground (arith, prune_loop_counts size m, prune_loop_counts (size - item.size) m)

  pub prune_expired-IsValid : (c : MemoryCache) → IsValid c → IsValid (prune_expired now c)
  unfolding prune_expired
  prune_expired-IsValid c v = elim (Bool-cases (c.ttl == 0)) [
    | inl e ↦ rw (e, prune_expired) v
    | inr e ↦
        rw (e, prune_expired)
          (record {
            distinct = prune_loop-Distinct c.size_bytes c.items v.distinct;
            counted = omega (arith, prune_loop_counts c.size_bytes c.items);
            bounded = λ lt. omega (arith, prune_loop_counts c.size_bytes c.items);
          })
  ]

  -- On a valid cache with a time to live, `GetStats` reports the number of entries and the sum of
  -- the sizes of exactly those entries that have not expired: a key keeps its entry if it has not
  -- expired at `now`, and has none otherwise.
  pub get_stats_exact :
      (c : MemoryCache)
      → IsValid c
      → 0 < c.ttl
      → let (d, count, size) = get_stats now c in
        (count ≡ length d.items)
        × (size ≡ total d.items)
        × ((k : String) → lookup text_dec k d.items ≡ unless_past now (lookup text_dec k c.items))
  unfolding get_stats prune_expired
  get_stats_exact c v h =
      let e : (c.ttl == 0) ≡ false = ground arith in
      rw e (
        refl,
        omega (arith, prune_loop_counts c.size_bytes c.items),
        λ k. lookup-prune_loop k c.size_bytes c.items v.distinct,
      )
