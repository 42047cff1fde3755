-- ===== src/TokenCache/Memory/Runs.antt =====
-- Every interleaving of the critical sections of the token cache's methods
-- (internal/tokencache/memory.go): goroutines share one cache, and the mutex orders the sections.
use inf_api.Common.{
  ℕ, suc, ◌+◌, ◌%◌, ◌∙◌, ◌≤◌, ◌≡◌, refl, String, Option, some, List, [], ◌∷◌, arith, length,
  text_dec, Option-cases, Bool-cases, inl, inr, ◌==◌,
}
use inf_api.Common.Int.{ℤ, pos}
use inf_api.Common.Map.{lookup}
use inf_api.TokenCache.Memory.{
  MemoryCache, new_memory_cache, set_ttl, clear, drop_expired, refresh_access, put, prune_expired,
  sample_access, refresh_access, make_room,
}
use inf_api.TokenCache.Memory.Valid.{IsValid, total, drop_expired-IsValid, refresh_access-IsValid}
use inf_api.TokenCache.Memory.Put.{put-IsValid, make_room-Roomy}
use inf_api.TokenCache.Memory.Prune.{prune_expired-IsValid}

-- A section that holds the write lock, with the reading of the clock in it; `count` is the atomic
-- counter's step.
pub data Section : Type 0 where
  write : ℕ → String → ℕ → Section
  expire : ℕ → String → Section
  access : ℕ → String → Section
  limit : ℤ → Section
  wipe : Section
  prune : ℕ → Section

pub section : Section → MemoryCache → MemoryCache
section (write now key tokens) c = put now key tokens c
section (expire now key) c = drop_expired now key c
section (access now key) c = sample_access now key c
section (limit ttl) c = set_ttl ttl c
section wipe c = clear c
section (prune now) c = prune_expired now c

pub run : List Section → MemoryCache → MemoryCache
run [] c = c
run (s ∷ rest) c = run rest (section s c)

set_ttl-IsValid : (ttl : ℤ) (c : MemoryCache) → IsValid c → IsValid (set_ttl ttl c)
unfolding set_ttl
set_ttl-IsValid ttl c v = ground arith

pub sample_access-IsValid :
    (now : ℕ) (key : String) (c : MemoryCache) → IsValid c → IsValid (sample_access now key c)
unfolding sample_access
sample_access-IsValid now key c v =
    let n = (c.access_count + 1) % 18446744073709551616 in
    let d : MemoryCache = record c { access_count = n } in
    let w : IsValid d = record {
      distinct = v.distinct;
      counted = v.counted;
      bounded = v.bounded;
    } in
    elim (Bool-cases (n % 8 == 0)) [
      | inl e ↦ rw e (refresh_access-IsValid d w now key)
      | inr e ↦ rw e w
    ]

section-IsValid : (s : Section) (c : MemoryCache) → IsValid c → IsValid (section s c)
unfolding section
section-IsValid (write now key tokens) c v = put-IsValid now key tokens c v
section-IsValid (expire now key) c v = drop_expired-IsValid c v now key
section-IsValid (access now key) c v = sample_access-IsValid now key c v
section-IsValid (limit ttl) c v = set_ttl-IsValid ttl c v
section-IsValid wipe c v =
    unfold clear in record { distinct = tt; counted = refl; bounded = λ h. omega arith }
section-IsValid (prune now) c v = prune_expired-IsValid now c v

-- From a valid cache, every sequence of critical sections leads to a valid cache.
pub run-IsValid : (ss : List Section) (c : MemoryCache) → IsValid c → IsValid (run ss c)
unfolding run
run-IsValid [] c v = v
run-IsValid (s ∷ ss) c v = run-IsValid ss (section s c) (section-IsValid s c v)

pub new-IsValid : (ttl : ℤ) (max : Option ℤ) → IsValid (new_memory_cache ttl max)
unfolding new_memory_cache
new-IsValid ttl max = record { distinct = tt; counted = refl; bounded = λ h. omega arith }

refresh_access_limit :
    (now : ℕ) (key : String) (c : MemoryCache)
    → (refresh_access now key c).max_entries ≡ c.max_entries
unfolding refresh_access
refresh_access_limit now key c = ground arith

pub put_limit :
    (now : ℕ) (key : String) (tokens : ℕ) (c : MemoryCache)
    → IsValid c
    → (put now key tokens c).max_entries ≡ c.max_entries
unfolding put
put_limit now key tokens c v = elim (Option-cases (lookup text_dec key c.items)) [
  | inl e ↦ (make_room-Roomy key c v e).limit
  | inr (old, e) ↦ unfold make_room in ground arith
]

section_limit :
    (s : Section) (c : MemoryCache) → IsValid c → (section s c).max_entries ≡ c.max_entries
unfolding section
section_limit (write now key tokens) c v = put_limit now key tokens c v
section_limit (expire now key) c v = unfold drop_expired in ground arith
section_limit (access now key) c v =
    unfold sample_access in
    ground (
      arith,
      refresh_access_limit now key
          (record c { access_count = (c.access_count + 1) % 18446744073709551616 }),
    )
section_limit (limit ttl) c v = unfold set_ttl in ground arith
section_limit wipe c v = unfold clear in refl
section_limit (prune now) c v = unfold prune_expired in ground arith

run_limit :
    (ss : List Section) (c : MemoryCache) → IsValid c → (run ss c).max_entries ≡ c.max_entries
unfolding run
run_limit [] c v = refl
run_limit (s ∷ ss) c v = run_limit ss (section s c) (section-IsValid s c v) ∙ section_limit s c v

-- A cache built with a positive limit of n + 1 entries never holds more, and its byte count is the
-- sum of the sizes of its entries, after every sequence of critical sections of its methods.
pub new_cache_bounded :
    (ttl : ℤ) (n : ℕ) (ss : List Section)
    → let c = run ss (new_memory_cache ttl (some (pos (suc n)))) in
      (length c.items ≤ suc n) × (c.size_bytes ≡ total c.items)
new_cache_bounded ttl n ss =
    let c = new_memory_cache ttl (some (pos (suc n))) in
    let start : IsValid c = new-IsValid ttl (some (pos (suc n))) in
    let v = run-IsValid ss c start in
    let e : (run ss c).max_entries ≡ suc n =
      run_limit ss c start ∙ (unfold new_memory_cache in refl) in
    (rw e at (v.bounded (omega (arith, e))), v.counted)
