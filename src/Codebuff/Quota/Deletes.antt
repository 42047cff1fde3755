-- ===== src/Codebuff/Quota/Deletes.antt =====
-- What is stored after the deletion of keys in batches (internal/codebuff/quotastore.go).
use inf_api.Common.{
  ℕ, zero, suc, ◌+◌, ◌≤◌, ◌≡◌, refl, Bool, true, false, not, ◌&&◌, ◌||◌, Option, none, some, List,
  [], ◌∷◌, ◌++◌, arith, length, take, drop, keep, if◌then◌else◌, ◌==◌,
}
use inf_api.Common.Text.{Text, bytes, text_eq_iff, has_prefix, is_listed}
use inf_api.Codebuff.Quota.{QuotaServices}
use inf_api.Codebuff.Quota.Clearing.{batches, delete_batches, delete_all}

-- a text without the signs of a glob pattern
abbrev pub is_plain_pattern : Text → Bool
is_plain_pattern [] = true
is_plain_pattern (c ∷ s) =
    not (c == b'*' || c == b'?' || c == b'[' || c == b'\\') && is_plain_pattern s

-- What is relied on of Redis: `stored` is what it has, a read gives it where Redis `answers` and
-- nothing where it fails, a scan that ends without an error has yielded every key that starts with
-- what stands before the star, and a deletion without an error removes its keys and no others. No
-- other program writes in between, and no key expires.
pub record IsRedis {W F : Type 0} (services : QuotaServices W F) (stored : W → Text → Option Text)
    (answers : W → Text → Bool) : Type 0 where
  pub get_reads :
      (k : Text) (w : W) → (services.redis_get k w).0 ≡ (if answers w k then stored w k else none)
  pub get_keeps : (k j : Text) (w : W) → stored (services.redis_get k w).1 j ≡ stored w j
  pub exists_reads :
      (k : Text) (n : ℕ) (w : W)
      → (services.redis_exists k w).0 ≡ some n
      → stored w k ≡ none
      → n ≡ 0
  pub scan_all :
      (p k v : Text) (w : W)
      → is_plain_pattern p ≡ true
      → has_prefix k p ≡ true
      → stored w k ≡ some v
      → (services.redis_scan (p ++ bytes "*") w).0.1 ≡ true
      → is_listed k (services.redis_scan (p ++ bytes "*") w).0.0 ≡ true
  pub scan_prefix :
      (p k : Text) (w : W)
      → is_plain_pattern p ≡ true
      → is_listed k (services.redis_scan (p ++ bytes "*") w).0.0 ≡ true
      → has_prefix k p ≡ true
  pub scan_keeps : (p j : Text) (w : W) → stored (services.redis_scan p w).1 j ≡ stored w j
  pub del_removes :
      (keys : List Text) (k : Text) (w : W)
      → (services.redis_del keys w).0 ≡ true
      → is_listed k keys ≡ true
      → stored (services.redis_del keys w).1 k ≡ none
  pub del_keeps :
      (keys : List Text) (k : Text) (w : W)
      → is_listed k keys ≡ false
      → stored (services.redis_del keys w).1 k ≡ stored w k

pub is_listed-keep :
    (p : Text → Bool) (k : Text) (keys : List Text)
    → is_listed k (keep p keys) ≡ (p k && is_listed k keys)
is_listed-keep p k [] = ground arith
is_listed-keep p k (j ∷ keys) = ground (arith, is_listed-keep p k keys, text_eq_iff j k)

is_listed-take :
    (n : ℕ) (k : Text) (keys : List Text)
    → (is_listed k (take n keys) || is_listed k (drop n keys)) ≡ is_listed k keys
is_listed-take zero k keys = refl
is_listed-take (suc n) k [] = refl
is_listed-take (suc n) k (j ∷ keys) = ground (arith, is_listed-take n k keys)

length-drop-le : {A : Type 0} (n : ℕ) (xs : List A) → length (drop n xs) ≤ length xs
length-drop-le zero xs = omega arith
length-drop-le (suc n) [] = omega arith
length-drop-le (suc n) (x ∷ xs) = omega (arith, length-drop-le n xs)

abbrev in_batches : Text → List (List Text) → Bool
in_batches k [] = false
in_batches k (keys ∷ rest) = is_listed k keys || in_batches k rest

-- With the fuel that `delete_all` gives, every key is in a batch.
in_batches-batches :
    (fuel : ℕ) (k : Text) (keys : List Text)
    → length keys ≤ fuel
    → in_batches k (batches fuel keys) ≡ is_listed k keys
unfolding batches
in_batches-batches zero k [] h = refl
in_batches-batches zero k (j ∷ keys) h = let never : ⊥ = omega (arith, h) in elim never [ ]
in_batches-batches (suc fuel) k [] h = refl
in_batches-batches (suc fuel) k (j ∷ keys) h =
    let fits =
      in_batches-batches fuel k (drop 99 keys) (omega (arith, h, length-drop-le 99 keys)) in
    ground (arith, fits, is_listed-take 99 k keys)

module _ {W F : Type 0} (services : QuotaServices W F) (stored : W → Text → Option Text)
    (answers : W → Text → Bool) (redis : IsRedis services stored answers) where
  stored-delete_batches :
      (bs : List (List Text)) (i : ℕ) (k : Text) (w : W)
      → (delete_batches services i bs w).0 ≡ none
      → stored (delete_batches services i bs w).1 k ≡ (if in_batches k bs then none else stored w k)
  unfolding delete_batches
  stored-delete_batches [] i k w h = refl
  stored-delete_batches (keys ∷ bs) i k w h = ground (
    arith,
    h,
    stored-delete_batches bs (i + 100) k (services.redis_del keys w).1,
    redis.del_removes keys k w,
    redis.del_keeps keys k w,
  )

  -- All keys are removed where no deletion fails, and no others.
  pub stored-delete_all :
      (keys : List Text) (k : Text) (w : W)
      → (delete_all services keys w).0 ≡ none
      → stored (delete_all services keys w).1 k ≡ (if is_listed k keys then none else stored w k)
  stored-delete_all keys k w h =
      let all = in_batches-batches (length keys) k keys (omega arith) in
      ground (arith, all, stored-delete_batches (batches (length keys) keys) 0 k w h)
