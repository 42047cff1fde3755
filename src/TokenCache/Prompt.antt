-- ===== src/TokenCache/Prompt.antt =====
-- The prompt cache (internal/tokencache/prompt_cache.go). Its state has the fields of the token
-- cache, and its methods `SetTTL`, `GetStats`, `Clear`, `pruneExpiredLocked` and `evictLRULocked`
-- are those of internal/tokencache/memory.go word for word, so the model takes them from there.
-- The digest, SHA-256 in hexadecimal, is a parameter. The receiver is not nil.
pub mod Tokens
pub mod Repeat
mod Tests
use text.Mathlib.Text.{◌==◌ as str_eq}
use Prim.Native.String.{◌++◌}
use inf_api.Common.{
  ℕ, ◌+◌, String, Bool, true, false, not, ◌&&◌, ◌||◌, Option, none, some, ltb, ◌==◌, if◌then◌else◌,
  text_dec,
}
use inf_api.Common.Map.{lookup}
use inf_api.Common.Time.{is_zero, before}
use inf_api.TokenCache.Memory.{CacheItem, MemoryCache, sample_access, put}

abbrev pub MemoryPromptCache : Type 0
MemoryPromptCache = MemoryCache

-- the cache after a call, the tokens read from it, and the tokens that it was given
pub record Counts : Type 0 where
  pub cache : MemoryPromptCache
  pub read : ℕ
  pub creation : ℕ

-- whether an entry counts as a hit
pub is_fresh : ℕ → ℕ → CacheItem → Bool
is_fresh ttl now item = ttl == 0 || is_zero item.expires_at || not (before item.expires_at now)

-- the closure `checkCache`; a miss writes the entry as `Put` does
pub check_cache : ℕ → ℕ → String → ℕ → MemoryPromptCache → Counts
unfolding is_fresh
check_cache now later key tokens c =
    let hit : Counts = record { cache = sample_access later key c; read = tokens; creation = 0 } in
    let miss : Counts = record { cache = put now key tokens c; read = 0; creation = tokens } in
    if tokens == 0 || str_eq key ""
    then record { cache = c; read = 0; creation = 0 }
    else elim (lookup text_dec key c.items) [
      | none ↦ miss
      | some item ↦ if is_fresh c.ttl now item then hit else miss
    ]

-- The two texts of a request and the tokens that each is worth.
pub record Request : Type 0 where
  pub system_tokens : ℕ
  pub tools_tokens : ℕ
  pub system_text : String
  pub tools_text : String

module _ (digest : String → String) where
  -- the closure `hash`
  pub hash : String → String
  hash text = if str_eq text "" then "" else digest text

  pub combined_key : Request → String
  combined_key r = hash ("sys:" ++ r.system_text ++ "|tools:" ++ r.tools_text)

  pub system_key : Request → String
  system_key r = hash ("sys:" ++ r.system_text)

  pub tools_key : Request → String
  tools_key r = hash ("tools:" ++ r.tools_text)

  -- one guarded check; without text or tokens it changes nothing
  pub check_part : ℕ → ℕ → String → String → ℕ → MemoryPromptCache → Counts
  check_part now later text key tokens c =
      if not (str_eq text "") && ltb 0 tokens
      then check_cache now later key tokens c
      else record { cache = c; read = 0; creation = 0 }

  -- case "1" and the default: both texts, one after the other
  pub check_split : ℕ → ℕ → Request → MemoryPromptCache → Counts
  check_split now later r c =
      let a = check_part now later r.system_text (system_key r) r.system_tokens c in
      let b = check_part now later r.tools_text (tools_key r) r.tools_tokens a.cache in
      record { cache = b.cache; read = a.read + b.read; creation = a.creation + b.creation }

  pub check_prompt_cache : String → ℕ → ℕ → Request → MemoryPromptCache → Counts
  check_prompt_cache strategy now later r c =
      let system = check_part now later r.system_text (system_key r) r.system_tokens c in
      let tools = check_part now later r.tools_text (tools_key r) r.tools_tokens c in
      if str_eq strategy "0"
      then check_cache now later (combined_key r) (r.system_tokens + r.tools_tokens) c
      else if str_eq strategy "2"
      then record system { creation = system.creation + r.tools_tokens }
      else if str_eq strategy "3"
      then record tools { creation = tools.creation + r.system_tokens }
      else check_split now later r c
