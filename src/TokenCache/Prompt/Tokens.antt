-- ===== src/TokenCache/Prompt/Tokens.antt =====
-- The token counts of `CheckPromptCache` (internal/tokencache/prompt_cache.go).
use text.Mathlib.Text.{◌==◌ as str_eq}
use Prim.Native.String.{◌++◌}
use text.Mathlib.TextLemmas.{append-eq-nil_iff}
use inf_api.Common.{
  ℕ, ◌+◌, ◌≡◌, ◌≢◌, refl, inl, inr, String, false, arith, if◌then◌else◌, Bool-cases, eq_iff,
}
use inf_api.TokenCache.Prompt.{
  MemoryPromptCache, Request, check_cache, hash, combined_key, system_key, tools_key, check_part,
  check_split, check_prompt_cache,
}

-- the tokens of a text that is there
abbrev part : String → ℕ → ℕ
part text tokens = if str_eq text "" then 0 else tokens

-- The tokens of a request that a strategy accounts for.
abbrev pub accounted : String → Request → ℕ
accounted strategy r =
    if str_eq strategy "0"
    then r.system_tokens + r.tools_tokens
    else if str_eq strategy "2"
    then part r.system_text r.system_tokens + r.tools_tokens
    else if str_eq strategy "3"
    then r.system_tokens + part r.tools_text r.tools_tokens
    else part r.system_text r.system_tokens + part r.tools_text r.tools_tokens

check_cache_sum :
    (now later : ℕ) (key : String) (tokens : ℕ) (c : MemoryPromptCache)
    → str_eq key "" ≡ false
    → (check_cache now later key tokens c).read + (check_cache now later key tokens c).creation
      ≡ tokens
unfolding check_cache
check_cache_sum now later key tokens c h = ground (arith, h)

prefix-nonempty : (p t : String) → str_eq p "" ≡ false → str_eq (p ++ t) "" ≡ false
prefix-nonempty p t h = elim (Bool-cases (str_eq (p ++ t) "")) [
  | inl e ↦ cc ((eq_iff p "").1 (append-eq-nil_iff.0 ((eq_iff (p ++ t) "").0 e)).0)
  | inr e ↦ e
]

module _ (digest : String → String) (digest_nonempty : (t : String) → digest t ≢ "") where
  hash-nonempty : (t : String) → str_eq t "" ≡ false → str_eq (hash digest t) "" ≡ false
  unfolding hash
  hash-nonempty t h = ground (arith, h, eq_iff (digest t) "", digest_nonempty t)

  check_part_sum :
      (now later : ℕ) (text key : String) (tokens : ℕ) (c : MemoryPromptCache)
      → str_eq key "" ≡ false
      → let n = check_part digest now later text key tokens c in
        n.read + n.creation ≡ part text tokens
  unfolding check_part
  check_part_sum now later text key tokens c h =
      ground (arith, check_cache_sum now later key tokens c)

  pub keys_nonempty :
      (r : Request)
      → (str_eq (system_key digest r) "" ≡ false)
        × (str_eq (tools_key digest r) "" ≡ false)
        × (str_eq (combined_key digest r) "" ≡ false)
  unfolding system_key tools_key combined_key
  keys_nonempty r = (
    hash-nonempty ("sys:" ++ r.system_text) (prefix-nonempty "sys:" r.system_text refl),
    hash-nonempty ("tools:" ++ r.tools_text) (prefix-nonempty "tools:" r.tools_text refl),
    hash-nonempty ("sys:" ++ r.system_text ++ "|tools:" ++ r.tools_text)
        (prefix-nonempty "sys:" (r.system_text ++ "|tools:" ++ r.tools_text) refl),
  )

  -- If no digest is empty, the tokens that a check reads and those that it creates add up to the
  -- tokens that the strategy accounts for, whatever the cache holds.
  pub check_prompt_cache_sum :
      (strategy : String) (now later : ℕ) (r : Request) (c : MemoryPromptCache)
      → let n = check_prompt_cache digest strategy now later r c in
        n.read + n.creation ≡ accounted strategy r
  unfolding check_prompt_cache check_split
  check_prompt_cache_sum strategy now later r c =
      let (system, tools, combined) = keys_nonempty r in
      let a = check_part digest now later r.system_text (system_key digest r) r.system_tokens c in
      ground (
        arith,
        check_cache_sum now later (combined_key digest r) (r.system_tokens + r.tools_tokens) c,
        check_part_sum now later r.system_text (system_key digest r) r.system_tokens c,
        check_part_sum now later r.tools_text (tools_key digest r) r.tools_tokens c,
        check_part_sum now later r.tools_text (tools_key digest r) r.tools_tokens a.cache,
      )
