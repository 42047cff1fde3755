-- ===== src/TokenCache/Prompt/Repeat.antt =====
-- A repeated `CheckPromptCache` (internal/tokencache/prompt_cache.go).
use text.Mathlib.Text.{◌==◌ as str_eq}
use inf_api.Common.{
  ℕ, zero, suc, ◌||◌, ite, ◌+◌, ◌≤◌, ◌<◌, ◌≡◌, ◌≢◌, refl, ◌⊎◌, inl, inr, String, true, false, not,
  ◌&&◌, none, some, arith, text_dec, ltb, ◌==◌, if◌then◌else◌, Bool-cases, Option-cases,
}
use mathlib.Core.Logic.{if_pos, if_neg}
use inf_api.Common.Map.{lookup}
use inf_api.TokenCache.Memory.{CacheItem, put, sample_access, new_item}
use inf_api.TokenCache.Memory.Valid.{IsValid}
use inf_api.TokenCache.Memory.Reads.{
  put_ttl, put-entry, put_others, sample_access-lookup, sample_access_keeps, sample_access_limits,
}
use inf_api.TokenCache.Memory.Runs.{sample_access-IsValid, put_limit}
use inf_api.TokenCache.Memory.Put.{put-IsValid}
use inf_api.TokenCache.Prompt.{
  MemoryPromptCache, Request, check_cache, is_fresh, combined_key, system_key, tools_key,
  check_part, check_split, check_prompt_cache,
}
use inf_api.TokenCache.Prompt.Tokens.{keys_nonempty}

-- The tokens that a strategy always counts as created.
abbrev pub untracked : String → Request → ℕ
untracked strategy r =
    if str_eq strategy "0"
    then 0
    else if str_eq strategy "2"
    then r.tools_tokens
    else if str_eq strategy "3"
    then r.system_tokens
    else 0

module _ (ttl soon : ℕ) where
  -- an unbounded cache with time to live `ttl`, whose entries are all fresh at `soon`
  pub record IsReady (c : MemoryPromptCache) : Type 0 where
    pub valid : IsValid c
    pub unbounded : c.max_entries ≡ 0
    pub lives : c.ttl ≡ ttl
    pub fresh :
        (k : String) (item : CacheItem)
        → lookup text_dec k c.items ≡ some item
        → is_fresh ttl soon item ≡ true

  -- what a check does to such a cache: it stays one, and no entry goes
  record Grows (c d : MemoryPromptCache) : Type 0 where
    ready : IsReady d
    keeps : (k : String) → lookup text_dec k c.items ≢ none → lookup text_dec k d.items ≢ none

  module _ (now : ℕ) (in_time : (ttl ≡ 0) ⊎ (soon ≤ now + ttl)) where
    put-lookup :
        (key : String) (tokens : ℕ) (c : MemoryPromptCache)
        → IsReady c
        → (k : String)
        → lookup text_dec k (put now key tokens c).items
          ≡ ite (text_dec k key) (some (new_item ttl now key tokens)) (lookup text_dec k c.items)
    put-lookup key tokens c r k = elim (text_dec k key) [
      | yes p ↦ rw (if_pos _ p, p, put-entry, r.valid, r.lives) refl
      | no p ↦ rw (if_neg _ p) (ground (arith, put_others now key tokens c r.valid k, r.unbounded))
    ]

    put-Grows :
        (key : String) (tokens : ℕ) (c : MemoryPromptCache)
        → IsReady c
        → Grows c (put now key tokens c)
    put-Grows key tokens c r = record {
      ready = record {
        valid = put-IsValid now key tokens c r.valid;
        unbounded = ground (arith, put_limit now key tokens c r.valid, r.unbounded);
        lives = ground (arith, put_ttl now key tokens c r.valid, r.lives);
        fresh = λ k item h.
            unfold is_fresh new_item in
            ground (arith, h, put-lookup key tokens c r k, r.fresh k item, in_time);
      };
      keeps = λ k h. rw (put-lookup key tokens c r k) (ground arith);
    }

    sample-Grows :
        (later : ℕ) (key : String) (c : MemoryPromptCache)
        → IsReady c
        → Grows c (sample_access later key c)
    sample-Grows later key c r = record {
      ready = record {
        valid = sample_access-IsValid later key c r.valid;
        unbounded = ground (arith, sample_access_limits later key c, r.unbounded);
        lives = ground (arith, sample_access_limits later key c, r.lives);
        fresh = λ k item h.
            let (old, there, same) = sample_access-lookup later key k c item h in
            unfold is_fresh in ground (arith, same, r.fresh k old there);
      };
      keeps = λ k h. sample_access_keeps later key k c h;
    }

    Grows-refl : (c : MemoryPromptCache) → IsReady c → Grows c c
    Grows-refl c r = record { ready = r; keeps = λ k h. h }

    check_cache-Grows :
        (later : ℕ) (key : String) (tokens : ℕ) (c : MemoryPromptCache)
        → IsReady c
        → Grows c (check_cache now later key tokens c).cache
    unfolding check_cache
    check_cache-Grows later key tokens c r = elim (Bool-cases (tokens == 0 || str_eq key "")) [
      | inl e ↦ rw e (Grows-refl c r)
      | inr e ↦ rw e (elim (Option-cases (lookup text_dec key c.items)) [
        | inl absent ↦ rw absent (put-Grows key tokens c r)
        | inr (item, there) ↦ rw there (elim (Bool-cases (is_fresh c.ttl now item)) [
          | inl hit ↦ rw hit (sample-Grows later key c r)
          | inr miss ↦ rw miss (put-Grows key tokens c r)
        ])
      ])
    ]

    check_cache-present :
        (later : ℕ) (key : String) (tokens : ℕ) (c : MemoryPromptCache)
        → IsReady c
        → str_eq key "" ≡ false
        → 0 < tokens
        → lookup text_dec key (check_cache now later key tokens c).cache.items ≢ none
    unfolding check_cache
    check_cache-present later key tokens c r named lt =
        let e : (tokens == 0 || str_eq key "") ≡ false = ground (arith, named) in
        rw e (elim (Option-cases (lookup text_dec key c.items)) [
          | inl absent ↦ rw absent (rw (put-entry, r.valid) (λ p. cc))
          | inr (item, there) ↦ rw there (elim (Bool-cases (is_fresh c.ttl now item)) [
            | inl hit ↦ rw hit (sample_access_keeps later key key c (λ p. cc))
            | inr miss ↦ rw miss (rw (put-entry, r.valid) (λ p. cc))
          ])
        ])

    module _ (digest : String → String) (later : ℕ) (text key : String) (tokens : ℕ)
        (c : MemoryPromptCache) where
      check_part-Grows : IsReady c → Grows c (check_part digest now later text key tokens c).cache
      unfolding check_part
      check_part-Grows r = elim (Bool-cases (not (str_eq text "") && ltb 0 tokens)) [
        | inl e ↦ rw e (check_cache-Grows later key tokens c r)
        | inr e ↦ rw e (Grows-refl c r)
      ]

      check_part-present :
          IsReady c
          → str_eq key "" ≡ false
          → (not (str_eq text "") && ltb 0 tokens) ≡ true
          → lookup text_dec key (check_part digest now later text key tokens c).cache.items ≢ none
      unfolding check_part
      check_part-present r named e =
          rw e (check_cache-present later key tokens c r named (ground arith))

  module _ (later : ℕ) (key : String) (tokens : ℕ) (c : MemoryPromptCache) (r : IsReady c) where
    -- a key that is there is read again
    check_cache_again :
        lookup text_dec key c.items ≢ none → (check_cache soon later key tokens c).creation ≡ 0
    unfolding check_cache
    check_cache_again h = elim (Option-cases (lookup text_dec key c.items)) [
      | inl absent ↦ absurd (h absent)
      | inr (item, there) ↦ ground (arith, there, r.fresh key item, r.lives)
    ]

    check_part_again :
        (digest : String → String) (text : String)
        → ((not (str_eq text "") && ltb 0 tokens) ≡ true → lookup text_dec key c.items ≢ none)
        → (check_part digest soon later text key tokens c).creation ≡ 0
    unfolding check_part
    check_part_again digest text h = elim (Bool-cases (not (str_eq text "") && ltb 0 tokens)) [
      | inl e ↦ rw e (check_cache_again (h e))
      | inr e ↦ rw e
    ]

module _ (digest : String → String) (digest_nonempty : (t : String) → digest t ≢ "")
    (ttl now soon later : ℕ) (in_time : (ttl ≡ 0) ⊎ (soon ≤ now + ttl)) (r : Request)
    (c : MemoryPromptCache) (ready : IsReady ttl soon c) where
  split_again :
      (check_split digest soon later r (check_split digest now later r c).cache).creation ≡ 0
  unfolding check_split
  split_again =
      let (named_s, named_t, _) = keys_nonempty digest digest_nonempty r in
      let ks = system_key digest r in
      let kt = tools_key digest r in
      let a = (check_part digest now later r.system_text ks r.system_tokens c).cache in
      let to_a =
        check_part-Grows ttl soon now in_time digest later r.system_text ks r.system_tokens c
          ready in
      let to_b =
        check_part-Grows ttl soon now in_time digest later r.tools_text kt r.tools_tokens a
          to_a.ready in
      let b = (check_part digest now later r.tools_text kt r.tools_tokens a).cache in
      let to_d =
        check_part-Grows ttl soon soon (inr (omega arith)) digest later r.system_text ks
          r.system_tokens b to_b.ready in
      let d = (check_part digest soon later r.system_text ks r.system_tokens b).cache in
      omega (
        arith,
        check_part_again ttl soon later ks r.system_tokens b to_b.ready digest r.system_text (λ e.
            to_b.keeps ks (
              check_part-present ttl soon now in_time digest later r.system_text ks r.system_tokens
                c ready named_s e)),
        check_part_again ttl soon later kt r.tools_tokens d to_d.ready digest r.tools_text (λ e.
            to_d.keeps kt (
              check_part-present ttl soon now in_time digest later r.tools_text kt r.tools_tokens a
                to_a.ready named_t e)),
      )

  -- one text alone, checked twice
  part_again :
      (text key : String) (tokens : ℕ)
      → str_eq key "" ≡ false
      → (check_part digest soon later text key tokens
          (check_part digest now later text key tokens c).cache).creation
        ≡ 0
  part_again text key tokens named =
      check_part_again ttl soon later key tokens _
        (check_part-Grows ttl soon now in_time digest later text key tokens c ready).ready digest
        text (check_part-present ttl soon now in_time digest later text key tokens c ready named)

  combined_again :
      (key : String) (tokens : ℕ)
      → str_eq key "" ≡ false
      → (check_cache soon later key tokens (check_cache now later key tokens c).cache).creation ≡ 0
  combined_again key zero named = unfold check_cache in refl
  combined_again key (suc n) named =
      check_cache_again ttl soon later key (suc n) _
        (check_cache-Grows ttl soon now in_time later key (suc n) c ready).ready
        (check_cache-present ttl soon now in_time later key (suc n) c ready named (omega arith))

  -- In an unbounded cache whose entries are all fresh at `soon`, with a time to live that reaches
  -- from `now` to `soon`, a request that is checked at `now` and again at `soon` creates at `soon`
  -- only the tokens that its strategy never caches. No digest is empty.
  pub check_twice :
      (strategy : String)
      → (check_prompt_cache digest strategy soon later r
          (check_prompt_cache digest strategy now later r c).cache).creation
        ≡ untracked strategy r
  unfolding check_prompt_cache
  check_twice strategy =
      let (named_s, named_t, named) = keys_nonempty digest digest_nonempty r in
      ground (
        arith,
        split_again,
        part_again r.system_text (system_key digest r) r.system_tokens named_s,
        part_again r.tools_text (tools_key digest r) r.tools_tokens named_t,
        combined_again (combined_key digest r) (r.system_tokens + r.tools_tokens) named,
      )
