-- ===== src/TokenCache/Memory/Tests.antt =====
-- Runs of the token cache (internal/tokencache/memory.go), and its theorems at concrete caches.
use inf_api.Common.{◌≤◌, ◌≡◌, refl, String, none, some, [], ◌∷◌, arith, length, text_dec}
use inf_api.Common.Int.{pos, negsuc}
use inf_api.Common.Map.{lookup, insert, delete}
use inf_api.TokenCache.Memory.{
  MemoryCache, new_memory_cache, get, put, get_stats, evict_lru, make_room, drop_expired,
  sample_access, refresh_access, new_item, has_expired, lru_loop, size_at, prune_expired,
  prune_loop,
}
use inf_api.TokenCache.Memory.Valid.{IsValid, total}
use inf_api.TokenCache.Memory.Prune.{get_stats_exact, unless_past}
use inf_api.TokenCache.Memory.Reads.{get-put}
use inf_api.TokenCache.Memory.Runs.{Section, run, new_cache_bounded}

-- two entries, with room for no more; "b" was accessed first
abbrev two : MemoryCache
two = record {
  ttl = 100;
  max_entries = 2;
  items =
      ("a", record { tokens = 5; expires_at = 130; accessed_at = 30; size = 9 })
      ∷ ("b", record { tokens = 7; expires_at = 120; accessed_at = 20; size = 9 })
      ∷ [];
  size_bytes = 18;
  access_count = 6;
}

program : Unit {0}
unfolding lookup insert delete text_dec put make_room evict_lru lru_loop size_at new_item get
    has_expired drop_expired sample_access refresh_access get_stats prune_expired prune_loop
    new_memory_cache
program = tt

two-IsValid : IsValid two
unfolding program
two-IsValid = record { distinct = (refl, (refl, tt)); counted = refl; bounded = λ h. omega arith }

evicts_b : lookup text_dec "b" (put 40 "c" 1 two).items ≡ none
unfolding program
evicts_b = refl

keeps_a : (get 50 50 "a" (put 40 "c" 1 two)).1 ≡ some 5
unfolding program
keeps_a = refl

second_hit_is_sampled : (get 51 52 "a" (get 50 50 "a" two).0).0.access_count ≡ 8
unfolding program
second_hit_is_sampled = refl

expired_is_dropped : (get 131 131 "a" two).0.size_bytes ≡ 9
unfolding program
expired_is_dropped = refl

new_cache_bounded_example :
    let c =
      run
        (Section.write 1 "a" 2 ∷ Section.write 2 "b" 3 ∷ [])
        (new_memory_cache (negsuc 4) (some (pos 1))) in
    (length c.items ≤ 1) × (c.size_bytes ≡ total c.items)
new_cache_bounded_example =
    new_cache_bounded (negsuc 4) 0 (Section.write 1 "a" 2 ∷ Section.write 2 "b" 3 ∷ [])

get-put_example : (get 141 142 "c" (put 40 "c" 1 two)).1 ≡ none
get-put_example = get-put 40 "c" 1 two two-IsValid 141 142

get_stats_exact_example :
    let (d, count, size) = get_stats 125 two in
    (count ≡ length d.items)
    × (size ≡ total d.items)
    × ((k : String) → lookup text_dec k d.items ≡ unless_past 125 (lookup text_dec k two.items))
get_stats_exact_example = get_stats_exact 125 two two-IsValid (omega arith)
