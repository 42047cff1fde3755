-- ===== src/Eviction/Room.antt =====
-- The limit on the number of entries that the session store (internal/handler/session_store.go)
-- and the session registry (internal/loadbalancer/session_registry.go) keep.
use text.Mathlib.Text.{◌==◌ as str_eq}
use inf_api.Common.{ℕ, ◌≤◌, ◌<◌, ◌≡◌, String, false, some, List, [], ◌∷◌, arith, length, text_dec}
use inf_api.Common.Map.{
  lookup, insert, delete, Distinct, insert-Distinct, delete-Distinct, length-insert-le,
  length-delete-le, length-insert_present,
}
use inf_api.Eviction.{oldest_loop, evict_oldest, make_room}
use inf_api.Eviction.Oldest.{Named, evict_oldest-lt, evict_oldest-Distinct}

module _ {V : Type 0} (time : V → ℕ) where
  pub insert-Named :
      (k : String) (v : V) (m : List (String × V))
      → str_eq k "" ≡ false
      → Named time m
      → Named time (insert text_dec k v m)
  unfolding insert
  insert-Named k v [] far n = (far, tt)
  insert-Named k v ((j, w) ∷ m) far n = ground (arith, insert-Named k v m, far, n)

  pub delete-Named :
      (k : String) (m : List (String × V)) → Named time m → Named time (delete text_dec k m)
  unfolding delete
  delete-Named k [] n = n
  delete-Named k ((j, w) ∷ m) n = ground (arith, delete-Named k m, n)

  -- entries under distinct keys that are not empty, within the limit if there is one
  pub record IsBounded (max_size : ℕ) (m : List (String × V)) : Type 0 where
    pub named : Named time m
    pub distinct : Distinct text_dec m
    pub bounded : 0 < max_size → length m ≤ max_size

  evict_oldest-Named : (m : List (String × V)) → Named time m → Named time (evict_oldest time m)
  unfolding evict_oldest
  evict_oldest-Named m n = ground (arith, delete-Named (oldest_loop time "" 0 m) m n)

  evict_oldest_nonempty :
      (max_size : ℕ) (m : List (String × V))
      → Named time m
      → Distinct text_dec m
      → 0 < length m
      → length (evict_oldest time m) < length m
  evict_oldest_nonempty max_size [] n d h = absurd (omega (arith, h))
  evict_oldest_nonempty max_size (e ∷ m) n d h = evict_oldest-lt time (e ∷ m) n d (λ p. cc)

  -- after the guard there is room for one entry
  make_room-lt :
      (max_size : ℕ) (m : List (String × V))
      → IsBounded max_size m
      → 0 < max_size
      → length (make_room time max_size m) < max_size
  unfolding make_room
  make_room-lt max_size m v h =
      ground (arith, h, v.bounded h, evict_oldest_nonempty max_size m v.named v.distinct)

  make_room-Named :
      (max_size : ℕ) (m : List (String × V))
      → IsBounded max_size m
      → Named time (make_room time max_size m)
  unfolding make_room
  make_room-Named max_size m v = ground (arith, v.named, evict_oldest-Named m v.named)

  make_room-Distinct :
      (max_size : ℕ) (m : List (String × V))
      → IsBounded max_size m
      → Distinct text_dec (make_room time max_size m)
  unfolding make_room
  make_room-Distinct max_size m v =
      ground (arith, v.distinct, evict_oldest-Distinct time m v.distinct)

  -- An entry added after the guard keeps the limit.
  pub insert-make_room-IsBounded :
      (max_size : ℕ) (k : String) (e : V) (m : List (String × V))
      → str_eq k "" ≡ false
      → IsBounded max_size m
      → IsBounded max_size (insert text_dec k e (make_room time max_size m))
  insert-make_room-IsBounded max_size k e m far v =
      let room = make_room time max_size m in
      record {
        named = insert-Named k e room far (make_room-Named max_size m v);
        distinct = insert-Distinct text_dec k e room (make_room-Distinct max_size m v);
        bounded =
            λ h. omega (arith, make_room-lt max_size m v h, length-insert-le text_dec k e room);
      }

  pub delete-IsBounded :
      (max_size : ℕ) (k : String) (m : List (String × V))
      → IsBounded max_size m
      → IsBounded max_size (delete text_dec k m)
  delete-IsBounded max_size k m v = record {
    named = delete-Named k m v.named;
    distinct = delete-Distinct text_dec k m v.distinct;
    bounded = λ h. omega (arith, v.bounded h, length-delete-le text_dec k m);
  }

  pub insert_present-IsBounded :
      (max_size : ℕ) (k : String) (e old : V) (m : List (String × V))
      → str_eq k "" ≡ false
      → lookup text_dec k m ≡ some old
      → IsBounded max_size m
      → IsBounded max_size (insert text_dec k e m)
  insert_present-IsBounded max_size k e old m far found v = record {
    named = insert-Named k e m far v.named;
    distinct = insert-Distinct text_dec k e m v.distinct;
    bounded = λ h. omega (arith, v.bounded h, length-insert_present text_dec k e old m found);
  }
