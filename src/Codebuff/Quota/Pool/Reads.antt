-- ===== src/Codebuff/Quota/Pool/Reads.antt =====
-- What a scan and its reads find of the blocks of an account (internal/codebuff/quotastore.go).
use inf_api.Common.{
  ◌≡◌, ◌∙◌, refl, sym, Bool, true, false, ◌&&◌, Option, none, some, List, [], ◌∷◌, arith, by_test,
  by_option, if◌then◌else◌,
}
use inf_api.Common.Text.{is_listed, Text, text_eq, text_eq_iff}
use inf_api.Codebuff.Quota.{ModelBlock, QuotaServices}
use inf_api.Codebuff.Quota.Status.{read_blocks}
use inf_api.Codebuff.Quota.Deletes.{IsRedis}
use inf_api.Codebuff.Quota.Pool.{last_block}

module _ {W F : Type 0} (services : QuotaServices W F) where
  -- a value is a block that names a model
  abbrev pub names : Text → Option Text → Bool
  names model none = false
  names model (some raw) = elim (services.decode_block raw) [
    | none ↦ false
    | some block ↦ text_eq block.model model
  ]

module _ {W F : Type 0} (services : QuotaServices W F) (has : Text → Option Text)
    (model : Text) where
  -- a block under one of the keys that names the model
  pub record Found (keys : List Text) (block : ModelBlock F) : Type 0 where
    pub key : Text
    pub raw : Text
    pub under : is_listed key keys ≡ true
    pub found : has key ≡ some raw
    pub decodes : services.decode_block raw ≡ some block
    pub same_model : block.model ≡ model

  abbrev pub Reads : List Text → Option (ModelBlock F) → Type 0
  Reads keys none = (key : Text) → (is_listed key keys && names services model (has key)) ≡ false
  Reads keys (some block) = Found keys block

  Found-later :
      (key : Text) (keys : List Text) (block : ModelBlock F)
      → Found keys block
      → Found (key ∷ keys) block
  Found-later key keys block f = record {
    key = f.key;
    raw = f.raw;
    under = ground (arith, f.under);
    found = f.found;
    decodes = f.decodes;
    same_model = f.same_model;
  }

  Reads-later :
      (key : Text) (keys : List Text) (o : Option (ModelBlock F))
      → names services model (has key) ≡ false
      → Reads keys o
      → Reads (key ∷ keys) o
  Reads-later key keys none other r = λ k. ground (arith, other, r k, text_eq_iff key k)
  Reads-later key keys (some block) other r = Found-later key keys block r

  Reads-block :
      (key raw : Text) (keys : List Text) (block : ModelBlock F) (o : Option (ModelBlock F))
      → has key ≡ some raw
      → services.decode_block raw ≡ some block
      → Reads keys o
      → Reads (key ∷ keys) (elim o [
        | none ↦ if text_eq block.model model then some block else none
        | some later ↦ some later
      ])
  Reads-block key raw keys block (some later) found decodes r = Found-later key keys later r
  Reads-block key raw keys block none found decodes r =
      by_test (Reads (key ∷ keys)) (text_eq block.model model) _ _
        (λ same. record {
          key = key;
          raw = raw;
          under = ground (arith, text_eq_iff key key);
          found = found;
          decodes = decodes;
          same_model = (text_eq_iff block.model model).0 same;
        })
        (λ other. Reads-later key keys none (rw found (rw (decodes, names) other)) r)

module _ {W F : Type 0} (services : QuotaServices W F) (stored : W → Text → Option Text)
    (answers : W → Text → Bool) (redis : IsRedis services stored answers)
    (all_answered : (k : Text) (v : W) → answers v k ≡ true) where
  pub read : (k : Text) (v : W) → (services.redis_get k v).0 ≡ stored v k
  read k v = ground (arith, redis.get_reads k v, all_answered k v)

  pub stored-read_blocks :
      (keys : List Text) (j : Text) (v : W) → stored (read_blocks services keys v).1 j ≡ stored v j
  unfolding read_blocks
  stored-read_blocks [] j v = refl
  stored-read_blocks (key ∷ keys) j v =
      ground
        (arith, stored-read_blocks keys j (services.redis_get key v).1, redis.get_keeps key j v)

  pub read_blocks-Reads :
      (has : Text → Option Text) (model : Text) (keys : List Text) (v : W)
      → ((k : Text) → stored v k ≡ has k)
      → Reads services has model keys (last_block model (read_blocks services keys v).0)
  unfolding read_blocks last_block
  read_blocks-Reads has model [] v same = λ k. refl
  read_blocks-Reads has model (key ∷ keys) v same =
      let answer = services.redis_get key v in
      let rest =
        read_blocks-Reads has model keys answer.1 (λ k. redis.get_keeps key k v ∙ same k) in
      let is : answer.0 ≡ has key = read key v ∙ same key in
      let o = last_block model (read_blocks services keys answer.1).0 in
      by_option
        (λ (r : List (ModelBlock F) × W).
          Reads services has model (key ∷ keys) (last_block model r.0))
        answer.0 _ _
        (λ missing. Reads-later services has model key keys o (rw (sym is ∙ missing) refl) rest)
        (λ raw found.
          by_option
            (λ (r : List (ModelBlock F) × W).
              Reads services has model (key ∷ keys) (last_block model r.0))
            (services.decode_block raw) _ _
            (λ garbage.
              Reads-later services has model key keys o
                (rw (sym is ∙ found) (rw (garbage, names) refl)) rest)
            (λ block decodes.
              Reads-block services has model key raw keys block o (sym is ∙ found) decodes rest))
