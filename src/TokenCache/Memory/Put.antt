-- ===== src/TokenCache/Memory/Put.antt =====
-- `Put` (internal/tokencache/memory.go) keeps the invariant.
use inf_api.Common.{
  ℕ, ◌+◌, ◌-◌, ◌<◌, String, ◌≡◌, refl, ap, ◌≢◌, none, some, [], arith, length, text_dec,
  Option-cases, Bool-cases, inl, inr, leb, ltb, ◌&&◌,
}
use inf_api.Common.Map.{lookup, insert, insert-Distinct, length-insert-le, length-insert_present}
use inf_api.TokenCache.Memory.{CacheItem, MemoryCache, make_room, put, new_item}
use inf_api.TokenCache.Memory.Valid.{
  IsValid, total-insert_absent, total-insert_present, total-delete, evict_lru-Evicted,
}

-- what `Put` finds after `make_room`, for a new key
pub record Roomy (key : String) (c d : MemoryCache) : Type 0 where
  pub valid : IsValid d
  pub limit : d.max_entries ≡ c.max_entries
  pub ttl : d.ttl ≡ c.ttl
  pub free : 0 < d.max_entries → length d.items < d.max_entries
  pub absent : lookup text_dec key d.items ≡ none

pub make_room-Roomy :
    (key : String) (c : MemoryCache)
    → IsValid c
    → lookup text_dec key c.items ≡ none
    → Roomy key c (make_room key c)
unfolding make_room
make_room-Roomy key c v h =
    elim (Bool-cases (ltb 0 c.max_entries && leb c.max_entries (length c.items))) [
      | inl full ↦
          let out = evict_lru-Evicted c c.items v in
          let some_item : c.items ≢ [] =
            (λ p. absurd (ground (arith, full, ap (length {A = String × CacheItem}) p))) in
          rw (h, make_room)
            (rw full (record {
              valid = out.valid;
              limit = out.limit;
              ttl = out.ttl;
              free = λ lt. ground (arith, out.shorter some_item, v.bounded, out.limit);
              absent = out.absent key h;
            }))
      | inr spare ↦
          rw (h, make_room)
            (rw spare (record {
              valid = v;
              limit = refl;
              ttl = refl;
              free = λ lt. ground arith;
              absent = h;
            }))
    ]

put_new-IsValid :
    (now : ℕ) (key : String) (tokens : ℕ) (c : MemoryCache)
    → IsValid c
    → lookup text_dec key c.items ≡ none
    → IsValid (put now key tokens c)
unfolding put
put_new-IsValid now key tokens c v h =
    let item = new_item c.ttl now key tokens in
    let d = make_room key c in
    let r = make_room-Roomy key c v h in
    record {
      distinct = insert-Distinct text_dec key item d.items r.valid.distinct;
      counted = omega (arith, total-insert_absent key item d.items r.absent, r.valid.counted);
      bounded = λ lt. omega (arith, length-insert-le text_dec key item d.items, r.free lt);
    }

pub put_old :
    (now : ℕ) (key : String) (tokens : ℕ) (c : MemoryCache) (old : CacheItem)
    → lookup text_dec key c.items ≡ some old
    → put now key tokens c ≡ record c {
      items = insert text_dec key (new_item c.ttl now key tokens) c.items;
      size_bytes = c.size_bytes - old.size + (new_item c.ttl now key tokens).size;
    }
unfolding put make_room
put_old now key tokens c old h = ground (arith, h)

put_old-IsValid :
    (now : ℕ) (key : String) (tokens : ℕ) (c : MemoryCache) (old : CacheItem)
    → IsValid c
    → lookup text_dec key c.items ≡ some old
    → IsValid (put now key tokens c)
put_old-IsValid now key tokens c old v h =
    let item = new_item c.ttl now key tokens in
    rw (put_old now key tokens c old h) (record {
      distinct = insert-Distinct text_dec key item c.items v.distinct;
      counted = omega (
        arith,
        total-insert_present key item old c.items h,
        total-delete key old c.items v.distinct h,
        v.counted,
      );
      bounded =
          λ lt. omega (arith, length-insert_present text_dec key item old c.items h, v.bounded lt);
    })

pub put-IsValid :
    (now : ℕ) (key : String) (tokens : ℕ) (c : MemoryCache)
    → IsValid c
    → IsValid (put now key tokens c)
put-IsValid now key tokens c v = elim (Option-cases (lookup text_dec key c.items)) [
  | inl e ↦ put_new-IsValid now key tokens c v e
  | inr (old, e) ↦ put_old-IsValid now key tokens c old v e
]
