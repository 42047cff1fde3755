-- ===== src/TokenCache/Prompt/Tests.antt =====
-- Runs of the prompt cache (internal/tokencache/prompt_cache.go), and its theorems at concrete
-- requests. The digest marks its text.
use Prim.Native.String.{◌++◌}
use text.Mathlib.TextLemmas.{append-eq-nil_iff}
use inf_api.Common.{◌+◌, ◌≡◌, ◌≢◌, refl, inr, String, [], arith, eq_iff}
use inf_api.Common.Map.{lookup}
use inf_api.TokenCache.Memory.{MemoryCache}
use inf_api.TokenCache.Prompt.{Request, check_prompt_cache}
use inf_api.TokenCache.Prompt.Tokens.{check_prompt_cache_sum}
use inf_api.TokenCache.Prompt.Repeat.{IsReady, check_twice}

abbrev digest : String → String
digest t = "#" ++ t

digest-nonempty : (t : String) → digest t ≢ ""
digest-nonempty t p = ground (arith, (append-eq-nil_iff {p = "#"} {q = t}).0 p, eq_iff "#" "")

abbrev request : Request
request = record { system_tokens = 40; tools_tokens = 7; system_text = "be brief"; tools_text = "" }

abbrev empty : MemoryCache
empty = record { ttl = 100; max_entries = 0; items = []; size_bytes = 0; access_count = 0 }

empty-IsReady : IsReady 100 60 empty
unfolding lookup
empty-IsReady = record {
  valid = record { distinct = tt; counted = refl; bounded = λ h. omega arith };
  unbounded = refl;
  lives = refl;
  fresh = λ k item h. cc;
}

check_prompt_cache_sum_example :
    let n = check_prompt_cache digest "2" 10 11 request empty in n.read + n.creation ≡ 47
check_prompt_cache_sum_example =
    check_prompt_cache_sum digest digest-nonempty "2" 10 11 request empty

check_twice_example :
    (check_prompt_cache digest "2" 60 61 request
      (check_prompt_cache digest "2" 10 61 request empty).cache).creation
    ≡ 7
check_twice_example =
    check_twice digest digest-nonempty 100 10 60 61 (inr (omega arith)) request empty empty-IsReady
      "2"
