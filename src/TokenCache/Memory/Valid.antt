-- ===== src/TokenCache/Memory/Valid.antt =====
-- The invariant of the token cache (internal/tokencache/memory.go), and that each critical section
-- keeps it.
use inf_api.Common.{
  ℕ, ◌+◌, ◌≤◌, ◌<◌, String, ◌≡◌, refl, ◌≢◌, none, some, List, [], ◌∷◌, arith, length, text_dec,
  Option-cases, inl, inr,
}
use inf_api.Common.Map.{
  lookup, insert, delete, Distinct, insert-Distinct, delete-Distinct, delete_absent,
  length-insert_present, length-delete-le, length-delete-lt, lookup-delete,
}
use inf_api.TokenCache.Memory.{CacheItem, MemoryCache, drop_expired, refresh_access, evict_lru}
use inf_api.TokenCache.Memory.Evict.{evict_lru-IsOldest}

-- the bytes of all entries
abbrev pub total : List (String × CacheItem) → ℕ
total [] = 0
total ((k, item) ∷ m) = item.size + total m

pub record IsValid (c : MemoryCache) : Type 0 where
  pub distinct : Distinct text_dec c.items
  pub counted : c.size_bytes ≡ total c.items
  pub bounded : 0 < c.max_entries → length c.items ≤ c.max_entries

pub total-insert_absent :
    (k : String) (v : CacheItem) (m : List (String × CacheItem))
    → lookup text_dec k m ≡ none
    → total (insert text_dec k v m) ≡ total m + v.size
unfolding lookup insert
total-insert_absent k v [] h = omega arith
total-insert_absent k v ((j, w) ∷ m) h = ground (arith, total-insert_absent k v m)

pub total-insert_present :
    (k : String) (v w : CacheItem) (m : List (String × CacheItem))
    → lookup text_dec k m ≡ some w
    → total (insert text_dec k v m) + w.size ≡ total m + v.size
unfolding lookup insert
total-insert_present k v w [] h = cc
total-insert_present k v w ((j, u) ∷ m) h = ground (arith, total-insert_present k v w m)

pub total-delete :
    (k : String) (w : CacheItem) (m : List (String × CacheItem))
    → Distinct text_dec m
    → lookup text_dec k m ≡ some w
    → total (delete text_dec k m) + w.size ≡ total m
unfolding lookup delete
total-delete k w [] d h = cc
total-delete k w ((j, u) ∷ m) d h = ground (arith, total-delete k w m, delete_absent text_dec k m)

module _ (c : MemoryCache) (v : IsValid c) where
  pub drop_expired-IsValid : (now : ℕ) (key : String) → IsValid (drop_expired now key c)
  unfolding drop_expired
  drop_expired-IsValid now key = elim (Option-cases (lookup text_dec key c.items)) [
    | inl e ↦ rw (e, drop_expired) v
    | inr (item, e) ↦ ground (
      arith,
      e,
      delete-Distinct text_dec key c.items,
      total-delete key item c.items,
      length-delete-le text_dec key c.items,
    )
  ]

  pub refresh_access-IsValid : (now : ℕ) (key : String) → IsValid (refresh_access now key c)
  unfolding refresh_access
  refresh_access-IsValid now key = elim (Option-cases (lookup text_dec key c.items)) [
    | inl e ↦ rw (e, refresh_access) v
    | inr (item, e) ↦
        let new : CacheItem = record item { accessed_at = now } in
        ground (
          arith,
          e,
          insert-Distinct text_dec key new c.items,
          total-insert_present key new item c.items,
          length-insert_present text_dec key new item c.items,
        )
  ]

-- what an eviction leaves: a valid cache with the same limits, with one entry less if it had any,
-- and no entry that was not there
pub record Evicted (c d : MemoryCache) : Type 0 where
  pub valid : IsValid d
  pub limit : d.max_entries ≡ c.max_entries
  pub ttl : d.ttl ≡ c.ttl
  pub shorter : c.items ≢ [] → length d.items < length c.items
  pub absent : (k : String) → lookup text_dec k c.items ≡ none → lookup text_dec k d.items ≡ none

pub evict_lru-Evicted :
    (c : MemoryCache) (items : List (String × CacheItem))
    → IsValid (record c { items = items })
    → Evicted (record c { items = items }) (evict_lru (record c { items = items }))
evict_lru-Evicted c [] v = record {
  valid = unfold evict_lru in v;
  limit = unfold evict_lru in refl;
  ttl = unfold evict_lru in refl;
  shorter = λ h. absurd (h refl);
  absent = λ k h. unfold evict_lru in h;
}
evict_lru-Evicted c ((j, x) ∷ m) v =
    let items : List (String × CacheItem) = (j, x) ∷ m in
    let (key, item, oldest, e) =
      evict_lru-IsOldest (record c { items = items }) v.distinct (λ p. cc) in
    rw e (record {
      valid = record {
        distinct = delete-Distinct text_dec key items v.distinct;
        counted = omega (arith, total-delete key item items v.distinct oldest.present);
        bounded = λ h. omega (arith, length-delete-le text_dec key items);
      };
      limit = refl;
      ttl = refl;
      shorter = λ h. length-delete-lt text_dec key item items oldest.present;
      absent = λ k h. ground (arith, lookup-delete text_dec k key items);
    })

pub evict_lru-IsValid : (c : MemoryCache) → IsValid c → IsValid (evict_lru c)
evict_lru-IsValid c v = (evict_lru-Evicted c c.items v).valid
