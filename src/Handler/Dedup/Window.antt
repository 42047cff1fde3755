-- ===== src/Handler/Dedup/Window.antt =====
-- Registrations of one request while others come and go (internal/handler/dedup_store.go).
use inf_api.Common.{
  ℕ, suc, ◌≤◌, ◌≡◌, ◌≢◌, refl, true, false, Option, none, some, List, [], ◌∷◌, length, arith, ◌∙◌,
  inl, inr, Bool-cases,
}
use inf_api.Common.Text.{Text}
use inf_api.Common.Time.{sub_time}
use inf_api.Handler.Sharded.{get, compute, shard_count, empty_shards}
use inf_api.Handler.Sharded.Access.{
  length-compute, length-range_delete, get-compute, get-compute_ne, get-range_delete,
}
use inf_api.Handler.Dedup.{
  RecentRequest, MemoryDedupStore, new_memory_dedup_store, is_recent, register_fn, register_flags,
  register, finish, is_stale, clean,
}

-- what the goroutines do with the store, in the order of the locks
pub data Event : Type 0 where
  registered : ℕ → Text → Event
  finished : ℕ → Text → Event
  cleaned : ℕ → Event

pub handle : Event → MemoryDedupStore → MemoryDedupStore
handle (registered now hash) s = (register now hash s).1
handle (finished now hash) s = finish now hash s
handle (cleaned now) s = clean now s

pub handle_all : List Event → MemoryDedupStore → MemoryDedupStore
handle_all [] s = s
handle_all (e ∷ es) s = handle_all es (handle e s)

-- the event is about another request
abbrev pub IsOther : Text → Event → Type 0
IsOther hash (registered now h) = h ≢ hash
IsOther hash (finished now h) = h ≢ hash
IsOther hash (cleaned now) = Unit

abbrev pub AllOther : Text → List Event → Type 0
AllOther hash [] = Unit
AllOther hash (e ∷ es) = IsOther hash e × AllOther hash es

-- all shards are there
abbrev pub IsFull : MemoryDedupStore → Type 0
IsFull s = length s.requests ≡ shard_count

-- a request in flight is known, with the time of its registration
abbrev pub Running : Text → ℕ → ℕ → MemoryDedupStore → Type 0
Running hash at n s = get hash s.requests ≡ some (record { last = at; in_flight = suc n })

handle-IsFull : (e : Event) (s : MemoryDedupStore) → IsFull s → IsFull (handle e s)
unfolding handle register finish clean
handle-IsFull (registered now h) s full = length-compute h _ s.requests ∙ full
handle-IsFull (finished now h) s full = length-compute h _ s.requests ∙ full
handle-IsFull (cleaned now) s full = length-range_delete _ s.requests ∙ full

pub handle_all-IsFull :
    (es : List Event) (s : MemoryDedupStore) → IsFull s → IsFull (handle_all es s)
unfolding handle_all
handle_all-IsFull [] s full = full
handle_all-IsFull (e ∷ es) s full = handle_all-IsFull es (handle e s) (handle-IsFull e s full)

pub new-IsFull : (w c : ℕ) → IsFull (new_memory_dedup_store w c)
unfolding new_memory_dedup_store empty_shards
new-IsFull w c = refl

handle_window : (e : Event) (s : MemoryDedupStore) → (handle e s).window ≡ s.window
unfolding handle register finish clean
handle_window (registered now h) s = refl
handle_window (finished now h) s = refl
handle_window (cleaned now) s = refl

handle_all_window : (es : List Event) (s : MemoryDedupStore) → (handle_all es s).window ≡ s.window
unfolding handle_all
handle_all_window [] s = refl
handle_all_window (e ∷ es) s = handle_all_window es (handle e s) ∙ handle_window e s

handle-Running :
    (e : Event) (hash : Text) (at n : ℕ) (s : MemoryDedupStore)
    → IsOther hash e
    → Running hash at n s
    → Running hash at n (handle e s)
unfolding handle register finish clean is_stale
handle-Running (registered now h) hash at n s other r = get-compute_ne hash h _ s.requests other ∙ r
handle-Running (finished now h) hash at n s other r = get-compute_ne hash h _ s.requests other ∙ r
handle-Running (cleaned now) hash at n s other r =
    get-range_delete hash _ _ s.requests r (ground arith)

handle_all-Running :
    (es : List Event) (hash : Text) (at n : ℕ) (s : MemoryDedupStore)
    → AllOther hash es
    → Running hash at n s
    → Running hash at n (handle_all es s)
unfolding handle_all
handle_all-Running [] hash at n s other r = r
handle_all-Running (e ∷ es) hash at n s other r =
    handle_all-Running es hash at n (handle e s) other.1 (handle-Running e hash at n s other.0 r)

accepted_fn :
    (now window : ℕ) (o : Option RecentRequest)
    → register_flags now window o ≡ (false, false)
    → (n : ℕ) × (register_fn now window o ≡ some (record { last = now; in_flight = suc n }))
unfolding register_flags register_fn
accepted_fn now window none h = (0, refl)
accepted_fn now window (some cur) h = elim (Bool-cases (is_recent now window cur)) [
  | inl e ↦ absurd (ground (arith, e, h))
  | inr e ↦ (cur.in_flight, ground (arith, e))
]

-- an accepted request is in flight since the instant of the registration
register-Running :
    (now : ℕ) (hash : Text) (s : MemoryDedupStore)
    → IsFull s
    → (register now hash s).0 ≡ (false, false)
    → (n : ℕ) × Running hash now n (register now hash s).1
unfolding register
register-Running now hash s full accepted =
    let (n, e) = accepted_fn now s.window (get hash s.requests) (unfold compute in accepted) in
    (n, get-compute hash (register_fn now s.window) s.requests full ∙ e)

register_again :
    (now at n : ℕ) (hash : Text) (s : MemoryDedupStore)
    → Running hash at n s
    → sub_time now at ≤ s.window
    → (register now hash s).0 ≡ (true, true)
unfolding register register_flags is_recent compute
register_again now at n hash s r h = rw r (ground arith)

-- In a store with all its shards, once a request was accepted, and whatever is registered,
-- finished or cleaned for other requests since, the same request is reported as a duplicate in
-- flight as long as no more than the window has passed.
pub register_twice :
    (now later : ℕ) (hash : Text) (es : List Event) (s : MemoryDedupStore)
    → IsFull s
    → (register now hash s).0 ≡ (false, false)
    → AllOther hash es
    → sub_time later now ≤ s.window
    → (register later hash (handle_all es (register now hash s).1)).0 ≡ (true, true)
unfolding register
register_twice now later hash es s full accepted other h =
    let (n, r) = register-Running now hash s full accepted in
    let t = (register now hash s).1 in
    register_again later now n hash (handle_all es t) (handle_all-Running es hash now n t other r)
      (rw (handle_all_window es t) h)
