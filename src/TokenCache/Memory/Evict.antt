-- ===== src/TokenCache/Memory/Evict.antt =====
-- What `evictLRULocked` (internal/tokencache/memory.go) removes.
use inf_api.Common.Time.{before}
use inf_api.Common.{
  Bool-cases, ◌-◌, ℕ, ◌≤◌, String, ◌≡◌, refl, sym, ◌≢◌, ◌⊎◌, inl, inr, true, false, some, List, [],
  ◌∷◌, arith, text_dec,
}
use inf_api.Common.Map.{lookup, delete, Distinct, lookup_first, lookup_later}
use inf_api.TokenCache.Memory.{CacheItem, MemoryCache, lru_loop, evict_lru}

-- once an entry was seen, the flag stays clear
pub lru_loop_flag :
    (k : String) (t : ℕ) (m : List (String × CacheItem)) → (lru_loop false k t m).0 ≡ false
unfolding lru_loop
lru_loop_flag k t [] = refl
lru_loop_flag k t ((j, item) ∷ m) =
    ground (arith, lru_loop_flag k t m, lru_loop_flag j item.accessed_at m)

-- the time that is found is a lower bound of all that were seen
lru_loop_le : (k : String) (t : ℕ) (m : List (String × CacheItem)) → (lru_loop false k t m).2 ≤ t
unfolding lru_loop
lru_loop_le k t [] = omega arith
lru_loop_le k t ((j, item) ∷ m) =
    ground (arith, lru_loop_le k t m, lru_loop_le j item.accessed_at m)

lru_loop_least :
    (k : String) (t : ℕ) (m : List (String × CacheItem)) (q : String) (other : CacheItem)
    → lookup text_dec q m ≡ some other
    → (lru_loop false k t m).2 ≤ other.accessed_at
unfolding lru_loop lookup
lru_loop_least k t [] q other h = cc
lru_loop_least k t ((j, item) ∷ m) q other h = ground (
  arith,
  lru_loop_least k t m q other,
  lru_loop_least j item.accessed_at m q other,
  lru_loop_le k t m,
  lru_loop_le j item.accessed_at m,
)

module _ (k : String) (t : ℕ) (j : String) (item : CacheItem) (m : List (String × CacheItem)) where
  lru_loop_older :
      before item.accessed_at t ≡ true
      → lru_loop false k t ((j, item) ∷ m) ≡ lru_loop false j item.accessed_at m
  unfolding lru_loop
  lru_loop_older e = ground arith

  lru_loop_newer :
      before item.accessed_at t ≡ false → lru_loop false k t ((j, item) ∷ m) ≡ lru_loop false k t m
  unfolding lru_loop
  lru_loop_newer e = ground arith

-- the key that is found is the first one, or stands among the rest with its access time
lru_loop_found :
    (k : String) (t : ℕ) (m : List (String × CacheItem))
    → Distinct text_dec m
    → let r = lru_loop false k t m in
      ((r.1 ≡ k) × (r.2 ≡ t))
      ⊎ ((item : CacheItem) × (lookup text_dec r.1 m ≡ some item) × (item.accessed_at ≡ r.2))
lru_loop_found k t [] d = inl (unfold lru_loop in (refl, refl))
lru_loop_found k t ((j, item) ∷ m) d = elim (Bool-cases (before item.accessed_at t)) [
  | inl e ↦ rw (lru_loop_older k t j item m e) (elim (lru_loop_found j item.accessed_at m d.1) [
    | inl (p, q) ↦ inr (item, rw p (lookup_first text_dec j item m), sym q)
    | inr (x, p, q) ↦ inr (x, lookup_later text_dec j _ item x m d.0 p, q)
  ])
  | inr e ↦ rw (lru_loop_newer k t j item m e) (elim (lru_loop_found k t m d.1) [
    | inl (p, q) ↦ inl (p, q)
    | inr (x, p, q) ↦ inr (x, lookup_later text_dec j _ item x m d.0 p, q)
  ])
]

-- an entry that no other entry was accessed before
pub record IsOldest (items : List (String × CacheItem)) (key : String) (item : CacheItem)
    : Type 0 where
  pub present : lookup text_dec key items ≡ some item
  pub least :
      (q : String) (other : CacheItem)
      → lookup text_dec q items ≡ some other
      → item.accessed_at ≤ other.accessed_at

lru_loop-IsOldest :
    (j : String) (item : CacheItem) (m : List (String × CacheItem))
    → Distinct text_dec ((j, item) ∷ m)
    → (x : CacheItem) × IsOldest ((j, item) ∷ m) (lru_loop false j item.accessed_at m).1 x
unfolding lookup
lru_loop-IsOldest j item m d = elim (lru_loop_found j item.accessed_at m d.1) [
  | inl (p, q) ↦ (
    item,
    record {
      present = ground arith;
      least = λ k other h. ground (arith, lru_loop_least j item.accessed_at m k other);
    },
  )
  | inr (x, p, q) ↦ (
    x,
    record {
      present = ground arith;
      least = λ k other h.
          ground
            (arith, lru_loop_least j item.accessed_at m k other, lru_loop_le j item.accessed_at m);
    },
  )
]

evict_lru-nonempty :
    (c : MemoryCache) (items : List (String × CacheItem))
    → Distinct text_dec items
    → items ≢ []
    → (key : String) × (item : CacheItem) × IsOldest items key item
      × (evict_lru (record c { items = items })
          ≡ record c { items = delete text_dec key items; size_bytes = c.size_bytes - item.size })
unfolding evict_lru
evict_lru-nonempty c [] d h = absurd (h refl)
evict_lru-nonempty c ((j, x) ∷ m) d h =
    let (item, oldest) = lru_loop-IsOldest j x m d in
    (
      (lru_loop false j x.accessed_at m).1,
      item,
      oldest,
      ground (arith, lru_loop_flag j x.accessed_at m, oldest.present),
    )

-- Evicting from a cache that holds anything removes one entry which no other was accessed before,
-- and takes its size off the byte count.
pub evict_lru-IsOldest :
    (c : MemoryCache)
    → Distinct text_dec c.items
    → c.items ≢ []
    → (key : String) × (item : CacheItem) × IsOldest c.items key item
      × (evict_lru c
          ≡ record c { items = delete text_dec key c.items; size_bytes = c.size_bytes - item.size })
evict_lru-IsOldest c d h = evict_lru-nonempty c c.items d h
