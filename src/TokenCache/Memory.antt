-- ===== src/TokenCache/Memory.antt =====
-- The in-memory token cache (internal/tokencache/memory.go). A method returns the new cache beside
-- its result; the receiver is not nil. Each read of the clock is an argument. The mutex makes each
-- critical section one step: `Get` reads under the read lock, and takes the write lock anew for
-- `drop_expired` or `refresh_access`. The `done` channel and the ticker of the cleanup goroutine
-- are left out: its body is `prune_expired`.
pub mod Valid
pub mod Evict
pub mod Put
pub mod Prune
pub mod Reads
pub mod Runs
mod Tests
use Prim.Native.String.{len}
use inf_api.Common.{
  ℕ, suc, ◌+◌, ◌-◌, ◌%◌, String, Bool, true, false, not, ◌&&◌, ◌||◌, Option, none, some, List, [],
  ◌∷◌, ltb, leb, ◌==◌, if◌then◌else◌, length, text_dec,
}
use inf_api.Common.Int.{ℤ, pos, at_least_zero}
use inf_api.Common.Map.{lookup, insert, delete}
use inf_api.Common.Time.{is_zero, before}

pub record CacheItem : Type 0 where
  pub tokens : ℕ
  pub expires_at : ℕ
  pub accessed_at : ℕ
  pub size : ℕ

pub record MemoryCache : Type 0 where
  pub ttl : ℕ
  pub max_entries : ℕ  -- 0 for a cache without a limit
  pub items : List (String × CacheItem)
  pub size_bytes : ℕ
  pub access_count : ℕ  -- an atomic uint64

-- the variadic `maxEntries`: its first value, if it is given and positive
abbrev pub entry_limit : Option ℤ → ℕ
entry_limit none = 0
entry_limit (some n) = at_least_zero n

pub new_memory_cache : ℤ → Option ℤ → MemoryCache
new_memory_cache ttl max_entries = record {
  ttl = at_least_zero ttl;
  max_entries = entry_limit max_entries;
  items = [];
  size_bytes = 0;
  access_count = 0;
}

pub set_ttl : ℤ → MemoryCache → MemoryCache
set_ttl ttl c =
    let d = at_least_zero ttl in
    if c.ttl == d then c else record c { ttl = d; items = []; size_bytes = 0 }

pub clear : MemoryCache → MemoryCache
clear c = record c { items = []; size_bytes = 0 }

-- the guard of `Get` on an entry
pub has_expired : ℕ → ℕ → CacheItem → Bool
has_expired ttl now item = ltb 0 ttl && not (is_zero item.expires_at) && before item.expires_at now

-- the section of `Get` that removes an expired entry, with its second test under the write lock
pub drop_expired : ℕ → String → MemoryCache → MemoryCache
unfolding has_expired
drop_expired now key c = elim (lookup text_dec key c.items) [
  | none ↦ c
  | some current ↦
      if has_expired c.ttl now current
      then record c {
        items = delete text_dec key c.items;
        size_bytes = c.size_bytes - current.size;
      }
      else c
]

-- the section of `Get` that renews the access time of an entry
pub refresh_access : ℕ → String → MemoryCache → MemoryCache
refresh_access now key c = elim (lookup text_dec key c.items) [
  | none ↦ c
  | some item ↦ record c { items = insert text_dec key (record item { accessed_at = now }) c.items }
]

-- `accessCount.Add(1)`, and the sampled update of the access time
pub sample_access : ℕ → String → MemoryCache → MemoryCache
sample_access now key c =
    let counted = record c { access_count = (c.access_count + 1) % 18446744073709551616 } in
    if counted.access_count % 8 == 0 then refresh_access now key counted else counted

-- `Get`, where `now` is the first reading of the clock and `later` the second
pub get : ℕ → ℕ → String → MemoryCache → MemoryCache × Option ℕ
unfolding has_expired
get now later key c = elim (lookup text_dec key c.items) [
  | none ↦ (c, none)
  | some item ↦
      if has_expired c.ttl now item
      then (drop_expired later key c, none)
      else (sample_access later key c, some item.tokens)
]

-- the loop of `evictLRULocked`, over `first`, `lruKey` and `lruTime`
pub lru_loop : Bool → String → ℕ → List (String × CacheItem) → Bool × String × ℕ
lru_loop first key time [] = (first, key, time)
lru_loop first key time ((k, item) ∷ rest) =
    let older = first || before item.accessed_at time in
    lru_loop (if older then false else first) (if older then k else key)
      (if older then item.accessed_at else time) rest

-- the size of the entry with a key; a missing entry reads as the zero value
pub size_at : String → List (String × CacheItem) → ℕ
size_at key items = elim (lookup text_dec key items) [ none ↦ 0 | some item ↦ item.size ]

pub evict_lru : MemoryCache → MemoryCache
unfolding lru_loop size_at
evict_lru c =
    let (first, key, time) = lru_loop true "" 0 c.items in
    if first then c else record c {
      items = delete text_dec key c.items;
      size_bytes = c.size_bytes - size_at key c.items;
    }

-- the branch of `Put` before the write: an old entry is uncounted, or a full cache evicts
pub make_room : String → MemoryCache → MemoryCache
make_room key c = elim (lookup text_dec key c.items) [
  | some existing ↦ record c { size_bytes = c.size_bytes - existing.size }
  | none ↦ if ltb 0 c.max_entries && leb c.max_entries (length c.items) then evict_lru c else c
]

unfoldable pub new_item : ℕ → ℕ → String → ℕ → CacheItem
new_item ttl now key tokens = record {
  tokens = tokens;
  expires_at = if ltb 0 ttl then now + ttl else 0;
  accessed_at = now;
  size = len key + 8;
}

pub put : ℕ → String → ℕ → MemoryCache → MemoryCache
put now key tokens c =
    let item = new_item c.ttl now key tokens in
    let roomy = make_room key c in
    record roomy {
      items = insert text_dec key item roomy.items;
      size_bytes = roomy.size_bytes + item.size;
    }

-- the loop of `pruneExpiredLocked`: the byte count and the entries that stay
pub prune_loop : ℕ → ℕ → List (String × CacheItem) → ℕ × List (String × CacheItem)
prune_loop now size [] = (size, [])
prune_loop now size ((key, item) ∷ rest) =
    let gone = not (is_zero item.expires_at) && before item.expires_at now in
    let (left, kept) = prune_loop now (if gone then size - item.size else size) rest in
    (left, if gone then kept else (key, item) ∷ kept)

pub prune_expired : ℕ → MemoryCache → MemoryCache
prune_expired now c =
    let (left, kept) = prune_loop now c.size_bytes c.items in
    if c.ttl == 0 then c else record c { items = kept; size_bytes = left }

-- `GetStats`: the number of entries and of bytes, once the expired entries are gone
pub get_stats : ℕ → MemoryCache → MemoryCache × ℕ × ℕ
get_stats now c =
    let pruned = prune_expired now c in (pruned, length pruned.items, pruned.size_bytes)
