-- ===== src/Eviction/Oldest.antt =====
-- Which entry the shared eviction loop removes (internal/handler/session_store.go,
-- internal/loadbalancer/session_registry.go).
use text.Mathlib.Text.{◌==◌ as str_eq}
use inf_api.Common.{
  ℕ, ◌≤◌, ◌<◌, ◌≡◌, ◌≢◌, refl, sym, ◌⊎◌, inl, inr, String, true, false, some, List, [], ◌∷◌, arith,
  length, All, text_dec, Bool-cases, if◌then◌else◌,
}
use inf_api.Common.Map.{
  lookup, delete, Distinct, lookup_first, lookup_later, length-delete-lt, delete-Distinct,
}
use inf_api.Common.Time.{before}
use inf_api.Eviction.{oldest_loop, evict_oldest}

module _ {V : Type 0} (time : V → ℕ) where
  -- no entry stands under the empty key
  abbrev pub Named : List (String × V) → Type 0
  Named = All (λ e. str_eq e.0 "" ≡ false)

  -- the loop once a key was seen, with the time at which it stops
  time_loop : ℕ → List (String × V) → ℕ
  time_loop at [] = at
  time_loop at ((k, v) ∷ rest) = time_loop (if before (time v) at then time v else at) rest

  time_loop-le : (at : ℕ) (m : List (String × V)) → time_loop at m ≤ at
  unfolding time_loop
  time_loop-le at [] = omega arith
  time_loop-le at ((k, v) ∷ rest) = ground (arith, time_loop-le at rest, time_loop-le (time v) rest)

  time_loop-least :
      (at : ℕ) (m : List (String × V)) (q : String) (v : V)
      → lookup text_dec q m ≡ some v
      → time_loop at m ≤ time v
  unfolding time_loop lookup
  time_loop-least at [] q v h = cc
  time_loop-least at ((k, w) ∷ rest) q v h = ground (
    arith,
    time_loop-least at rest q v,
    time_loop-least (time w) rest q v,
    time_loop-le at rest,
    time_loop-le (time w) rest,
  )

  module _ (key : String) (at : ℕ) (k : String) (v : V) (m : List (String × V)) where
    oldest_older :
        before (time v) at ≡ true
        → (oldest_loop time key at ((k, v) ∷ m) ≡ oldest_loop time k (time v) m)
          × (time_loop at ((k, v) ∷ m) ≡ time_loop (time v) m)
    unfolding oldest_loop time_loop
    oldest_older h = ground (arith, h)

    oldest_newer :
        str_eq key "" ≡ false
        → before (time v) at ≡ false
        → (oldest_loop time key at ((k, v) ∷ m) ≡ oldest_loop time key at m)
          × (time_loop at ((k, v) ∷ m) ≡ time_loop at m)
    unfolding oldest_loop time_loop
    oldest_newer named h = ground (arith, named, h)

  oldest_found :
      (key : String) (at : ℕ) (m : List (String × V))
      → str_eq key "" ≡ false
      → Named m
      → Distinct text_dec m
      → let r = oldest_loop time key at m in
        (str_eq r "" ≡ false)
        × ((r ≡ key) × (time_loop at m ≡ at)
            ⊎ (v : V) × (lookup text_dec r m ≡ some v) × (time v ≡ time_loop at m))
  oldest_found key at [] named n d = unfold oldest_loop time_loop in (named, inl (refl, refl))
  oldest_found key at ((k, v) ∷ m) named n d = elim (Bool-cases (before (time v) at)) [
    | inl e ↦
        let (same, same_time) = oldest_older key at k v m e in
        let (far, out) = oldest_found k (time v) m n.0 n.1 d.1 in
        rw (same, same_time)
          (
            far,
            elim out [
              | inl (p, q) ↦ inr (v, rw p (lookup_first text_dec k v m), sym q)
              | inr (w, p, q) ↦ inr (w, lookup_later text_dec k _ v w m d.0 p, q)
            ],
          )
    | inr e ↦
        let (same, same_time) = oldest_newer key at k v m named e in
        let (far, out) = oldest_found key at m named n.1 d.1 in
        rw (same, same_time)
          (
            far,
            elim out [
              | inl (p, q) ↦ inl (p, q)
              | inr (w, p, q) ↦ inr (w, lookup_later text_dec k _ v w m d.0 p, q)
            ],
          )
  ]

  -- an entry whose time is the least of all
  pub record IsOldest (m : List (String × V)) (key : String) (v : V) : Type 0 where
    pub present : lookup text_dec key m ≡ some v
    pub least : (q : String) (w : V) → lookup text_dec q m ≡ some w → time v ≤ time w

  oldest_loop-IsOldest :
      (k : String) (v : V) (m : List (String × V))
      → Named ((k, v) ∷ m)
      → Distinct text_dec ((k, v) ∷ m)
      → let r = oldest_loop time k (time v) m in
        (str_eq r "" ≡ false) × ((w : V) × IsOldest ((k, v) ∷ m) r w)
  unfolding lookup
  oldest_loop-IsOldest k v m n d =
      let (far, out) = oldest_found k (time v) m n.0 n.1 d.1 in
      (
        far,
        elim out [
          | inl (p, q) ↦ (
            v,
            record {
              present = ground arith;
              least = λ j other h. ground (arith, time_loop-least (time v) m j other);
            },
          )
          | inr (w, p, q) ↦ (
            w,
            record {
              present = lookup_later text_dec k _ v w m d.0 p;
              least = λ j other h.
                  ground (arith, time_loop-least (time v) m j other, time_loop-le (time v) m);
            },
          )
        ],
      )

  evict_oldest_found :
      (k : String) (v : V) (m : List (String × V)) (r : String)
      → oldest_loop time k (time v) m ≡ r
      → str_eq r "" ≡ false
      → evict_oldest time ((k, v) ∷ m) ≡ delete text_dec r ((k, v) ∷ m)
  unfolding evict_oldest oldest_loop
  evict_oldest_found k v m r e h = rw (e, h) refl

  -- Evicting from entries of which there are some, under distinct keys that are not empty, removes
  -- one entry whose time is the least.
  pub evict_oldest-IsOldest :
      (m : List (String × V))
      → Named m
      → Distinct text_dec m
      → m ≢ []
      → (key : String) × (v : V) × IsOldest m key v × (evict_oldest time m ≡ delete text_dec key m)
  evict_oldest-IsOldest [] n d h = absurd (h refl)
  evict_oldest-IsOldest ((k, v) ∷ m) n d h =
      let (far, (w, oldest)) = oldest_loop-IsOldest k v m n d in
      (oldest_loop time k (time v) m, w, oldest, evict_oldest_found k v m _ refl far)

  pub evict_oldest-lt :
      (m : List (String × V))
      → Named m
      → Distinct text_dec m
      → m ≢ []
      → length (evict_oldest time m) < length m
  evict_oldest-lt m n d h =
      let (key, v, oldest, e) = evict_oldest-IsOldest m n d h in
      rw e (length-delete-lt text_dec key v m oldest.present)

  pub evict_oldest-Distinct :
      (m : List (String × V)) → Distinct text_dec m → Distinct text_dec (evict_oldest time m)
  unfolding evict_oldest
  evict_oldest-Distinct m d = ground (arith, delete-Distinct text_dec (oldest_loop time "" 0 m) m d)
