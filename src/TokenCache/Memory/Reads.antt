-- ===== src/TokenCache/Memory/Reads.antt =====
-- What `Get` returns after `Put` (internal/tokencache/memory.go).
use inf_api.Common.{
  ℕ, ◌+◌, ◌%◌, ◌≤◌, ◌<◌, ◌≡◌, ◌==◌, ◌≢◌, refl, ap, ◌⊎◌, Bool, String, none, some, [], arith, length,
  text_dec, Option-cases, Bool-cases, inl, inr, ltb, leb, ◌&&◌, if◌then◌else◌, true, false,
}
use inf_api.Common.Map.{
  lookup, lookup-insert, lookup-insert_ne, lookup-delete_ne, lookup-delete_self, lookup-insert_self,
}
use inf_api.TokenCache.Memory.{
  CacheItem, MemoryCache, put, make_room, new_item, get, drop_expired, sample_access,
  refresh_access, evict_lru,
}
use inf_api.TokenCache.Memory.Valid.{IsValid}
use inf_api.TokenCache.Memory.Evict.{IsOldest, evict_lru-IsOldest}
use inf_api.TokenCache.Memory.Put.{make_room-Roomy}

-- whether a new key makes `Put` evict
abbrev is_full : MemoryCache → Bool
is_full c = ltb 0 c.max_entries && leb c.max_entries (length c.items)

make_room_full :
    (key : String) (c : MemoryCache)
    → lookup text_dec key c.items ≡ none
    → is_full c ≡ true
    → make_room key c ≡ evict_lru c
unfolding make_room
make_room_full key c h full = rw (h, make_room) (rw full)

make_room_spare :
    (key : String) (c : MemoryCache)
    → (lookup text_dec key c.items ≢ none) ⊎ (is_full c ≡ false)
    → (make_room key c).items ≡ c.items
unfolding make_room
make_room_spare key c h = ground arith

full-nonempty : (c : MemoryCache) → is_full c ≡ true → c.items ≢ []
full-nonempty c h = λ p. absurd (ground (arith, h, ap (length {A = String × CacheItem}) p))

full_bounds :
    (c : MemoryCache) → is_full c ≡ true → (0 < c.max_entries) × (c.max_entries ≤ length c.items)
full_bounds c h = ground arith

make_room_others :
    (key : String) (c : MemoryCache)
    → IsValid c
    → (q : String)
    → (lookup text_dec q (make_room key c).items ≡ lookup text_dec q c.items)
      ⊎ ((item : CacheItem) × IsOldest c.items q item
          × (lookup text_dec key c.items ≡ none)
          × (0 < c.max_entries)
          × (c.max_entries ≤ length c.items)
          × (lookup text_dec q (make_room key c).items ≡ none))
make_room_others key c v q = elim (Option-cases (lookup text_dec key c.items)) [
  | inr (old, e) ↦ inl (ap (lookup text_dec q) (make_room_spare key c (inl (λ p. cc))))
  | inl e ↦ elim (Bool-cases (is_full c)) [
    | inr spare ↦ inl (ap (lookup text_dec q) (make_room_spare key c (inr spare)))
    | inl full ↦
        let (victim, item, oldest, out) = evict_lru-IsOldest c v.distinct (full-nonempty c full) in
        let (positive, reached) = full_bounds c full in
        rw (make_room_full key c e full, out)
          (elim (text_dec q victim) [
            | yes p ↦ inr (
              item,
              rw p oldest,
              e,
              positive,
              reached,
              rw p (lookup-delete_self text_dec victim c.items),
            )
            | no p ↦ inl (lookup-delete_ne text_dec q victim c.items p)
          ])
  ]
]

module _ (now : ℕ) (key : String) (tokens : ℕ) (c : MemoryCache) (v : IsValid c) where
  pub put_ttl : (put now key tokens c).ttl ≡ c.ttl
  unfolding put
  put_ttl = elim (Option-cases (lookup text_dec key c.items)) [
    | inl e ↦ (make_room-Roomy key c v e).ttl
    | inr (old, e) ↦ unfold make_room in ground arith
  ]

  -- the entry that `Put` leaves under its key
  pub put-entry :
      lookup text_dec key (put now key tokens c).items ≡ some (new_item c.ttl now key tokens)
  unfolding put
  put-entry = rw lookup-insert (ground arith)

  -- After `Put` at `now`, a `Get` of the key at `at` returns the stored count, unless the cache has
  -- a time to live and it has passed.
  pub get-put :
      (at later : ℕ)
      → (get at later key (put now key tokens c)).1
        ≡ (if ltb 0 c.ttl && ltb (now + c.ttl) at then none else some tokens)
  unfolding get new_item
  get-put at later = ground (arith, put-entry, put_ttl)

  -- `Put` leaves every other key as it was, or the cache was full, the key was new, and the entry
  -- that is gone is one that no other entry was accessed before.
  pub put_others :
      (q : String)
      → q ≢ key
      → (lookup text_dec q (put now key tokens c).items ≡ lookup text_dec q c.items)
        ⊎ ((item : CacheItem) × IsOldest c.items q item
            × (lookup text_dec key c.items ≡ none)
            × (0 < c.max_entries)
            × (c.max_entries ≤ length c.items)
            × (lookup text_dec q (put now key tokens c).items ≡ none))
  unfolding put
  put_others q h =
      rw (lookup-insert_ne text_dec q key (new_item c.ttl now key tokens) _ h)
        (make_room_others key c v q)

drop_expired_others :
    (now : ℕ) (key q : String) (c : MemoryCache)
    → q ≢ key
    → lookup text_dec q (drop_expired now key c).items ≡ lookup text_dec q c.items
unfolding drop_expired
drop_expired_others now key q c h = ground (arith, lookup-delete_ne text_dec q key c.items)

refresh_access_others :
    (now : ℕ) (key q : String) (c : MemoryCache)
    → q ≢ key
    → lookup text_dec q (refresh_access now key c).items ≡ lookup text_dec q c.items
refresh_access_others now key q c h = elim (Option-cases (lookup text_dec key c.items)) [
  | inl e ↦ unfold refresh_access in rw (e, refresh_access)
  | inr (item, e) ↦
      unfold refresh_access in rw (e, refresh_access) (lookup-insert_ne text_dec q key _ c.items h)
]

pub sample_access_others :
    (now : ℕ) (key q : String) (c : MemoryCache)
    → q ≢ key
    → lookup text_dec q (sample_access now key c).items ≡ lookup text_dec q c.items
unfolding sample_access
sample_access_others now key q c h = ground (
  arith,
  refresh_access_others now key q
      (record c { access_count = (c.access_count + 1) % 18446744073709551616 }),
)

refresh_access-lookup :
    (now : ℕ) (key k : String) (c : MemoryCache) (item : CacheItem)
    → lookup text_dec k (refresh_access now key c).items ≡ some item
    → (old : CacheItem) × (lookup text_dec k c.items ≡ some old)
      × (old.expires_at ≡ item.expires_at)
unfolding refresh_access
refresh_access-lookup now key k c item h = elim (Option-cases (lookup text_dec key c.items)) [
  | inl e ↦ (item, rw (e, refresh_access) at h, refl)
  | inr (x, e) ↦
      let new : CacheItem = record x { accessed_at = now } in
      elim (text_dec k key) [
        | yes p ↦ (
          x,
          rw p e,
          ground (
            arith,
            h,
            e,
            p,
            ap (λ q. lookup text_dec q (refresh_access now key c).items) p,
            lookup-insert_self text_dec key new c.items,
          ),
        )
        | no p ↦ (item, ground (arith, h, e, lookup-insert_ne text_dec k key new c.items p), refl)
      ]
]

-- The sampled update neither drops an entry nor changes when it expires.
pub sample_access-lookup :
    (now : ℕ) (key k : String) (c : MemoryCache) (item : CacheItem)
    → lookup text_dec k (sample_access now key c).items ≡ some item
    → (old : CacheItem) × (lookup text_dec k c.items ≡ some old)
      × (old.expires_at ≡ item.expires_at)
unfolding sample_access
sample_access-lookup now key k c item h =
    let n = (c.access_count + 1) % 18446744073709551616 in
    elim (Bool-cases (n % 8 == 0)) [
      | inl e ↦ refresh_access-lookup now key k (record c { access_count = n }) item (rw e at h)
      | inr e ↦ (item, rw e at h, refl)
    ]

refresh_access_keeps :
    (now : ℕ) (key k : String) (c : MemoryCache)
    → lookup text_dec k c.items ≢ none
    → lookup text_dec k (refresh_access now key c).items ≢ none
unfolding refresh_access
refresh_access_keeps now key k c h = elim (Option-cases (lookup text_dec key c.items)) [
  | inl e ↦ rw (e, refresh_access) h
  | inr (x, e) ↦ rw (e, refresh_access) (rw lookup-insert (ground arith))
]

pub sample_access_keeps :
    (now : ℕ) (key k : String) (c : MemoryCache)
    → lookup text_dec k c.items ≢ none
    → lookup text_dec k (sample_access now key c).items ≢ none
unfolding sample_access
sample_access_keeps now key k c h =
    let n = (c.access_count + 1) % 18446744073709551616 in
    elim (Bool-cases (n % 8 == 0)) [
      | inl e ↦ rw e (refresh_access_keeps now key k (record c { access_count = n }) h)
      | inr e ↦ rw e h
    ]

-- ... and changes no limit.
pub sample_access_limits :
    (now : ℕ) (key : String) (c : MemoryCache)
    → ((sample_access now key c).ttl ≡ c.ttl)
      × ((sample_access now key c).max_entries ≡ c.max_entries)
unfolding sample_access refresh_access
sample_access_limits now key c = ground arith

-- `Get` of one key leaves the entries of all others.
get_others :
    (at later : ℕ) (key q : String) (c : MemoryCache)
    → q ≢ key
    → lookup text_dec q (get at later key c).0.items ≡ lookup text_dec q c.items
unfolding get
get_others at later key q c h =
    ground (arith, drop_expired_others later key q c, sample_access_others later key q c)
