-- ===== src/Handler/Stream/Monitor.antt =====
-- What a client that reads the events of a streamed response keeps of the content blocks
-- (internal/handler/stream_handler.go), and the writes of one event.
use inf_api.Common.{
  ℕ, zero, suc, ◌≤◌, ◌≡◌, refl, ap, ◌∙◌, Bool, true, false, Option, none, some, List, [], ◌∷◌,
  arith, ltb, ◌==◌, if◌then◌else◌, ◌⊎◌, inl, inr, Bool-cases,
}
use inf_api.Handler.Stream.{
  Event, message_start, content_block_start, content_block_delta, content_block_stop, message_delta,
  message_stop, keep_alive, StreamHandler, write_frame, write_sse, write_final_sse,
  mark_write_error,
}

abbrev pub is_open : ℕ → List ℕ → Bool
is_open i [] = false
is_open i (j ∷ js) = if i == j then true else is_open i js

abbrev pub close : ℕ → List ℕ → List ℕ
close i [] = []
close i (j ∷ js) = if i == j then js else j ∷ close i js

-- the least index that a new block may have, and the blocks that are open
abbrev pub Board : Type 0
Board = ℕ × List ℕ

-- one event: a block starts under a new index, and has a delta or a stop while it is open
unfoldable pub observe : Event → Board → Option Board
observe (content_block_start i kind) b = if ltb i b.0 then none else some (suc i, i ∷ b.1)
observe (content_block_delta i kind text) b = if is_open i b.1 then some b else none
observe (content_block_stop i) b = if is_open i b.1 then some (b.0, close i b.1) else none
observe (message_start model input output) b = some b
observe (message_delta reason output) b = some b
observe message_stop b = some b
observe keep_alive b = some b

abbrev pub after : Event → Option Board → Option Board
after e none = none
after e (some b) = observe e b

-- the events so far, the latest first
unfoldable pub monitor : List Event → Option Board
unfolding observe
monitor [] = some (0, [])
monitor (e ∷ es) = after e (monitor es)

-- what the writes read and change
abbrev pub Link : Type 0
Link = Bool × Option ℕ × List Event × Bool

abbrev pub link : StreamHandler → Link
link h = (h.is_stream, h.lifetime, h.sent, h.has_return)

-- nothing more is ever sent: the response is not streamed, or its connection is lost
abbrev pub IsQuiet : Link → Type 0
IsQuiet l = (l.0 ≡ false) ⊎ (l.1 ≡ some 0)

-- What a client has seen: new blocks may start at k. Unless nothing more is sent, the flag of a
-- returned response is the given one, and the open blocks are the given ones.
pub record Tracks (returned : Bool) (blocks : List ℕ) (k : ℕ) (l : Link) : Type 0 where
  pub seen : ℕ
  pub held : List ℕ
  pub below : seen ≤ k
  pub so_far : monitor l.2 ≡ some (seen, held)
  pub exact : IsQuiet l ⊎ ((l.3 ≡ returned) × (held ≡ blocks))

-- an event that a client accepts in one state of the blocks, and the state that follows
abbrev pub Leads : Event → List ℕ → List ℕ → ℕ → ℕ → Type 0
Leads e o p k m = (k ≤ m) × ((n : ℕ) → n ≤ k → (q : ℕ) × (q ≤ m) × (observe e (n, o) ≡ some (q, p)))

-- what is tracked at k is tracked at a later index
pub Tracks-later :
    (b : Bool) (o : List ℕ) (k m : ℕ) (l : Link) → k ≤ m → Tracks b o k l → Tracks b o m l
Tracks-later b o k m l le t = record {
  seen = t.seen;
  held = t.held;
  below = omega (arith, t.below, le);
  so_far = t.so_far;
  exact = t.exact;
}

-- nothing is sent any more, so that every state of the blocks is tracked
pub Tracks-quiet :
    (b c : Bool) (o p : List ℕ) (k m : ℕ) (l : Link)
    → IsQuiet l
    → k ≤ m
    → Tracks b o k l
    → Tracks c p m l
Tracks-quiet b c o p k m l q le t = record {
  seen = t.seen;
  held = t.held;
  below = omega (arith, t.below, le);
  so_far = t.so_far;
  exact = inl q;
}

-- the branches of the writes
module _ (e : Event) (h : StreamHandler) where
  pub write_final_sse_on : h.is_stream ≡ true → write_final_sse e h ≡ write_frame e h
  unfolding write_final_sse
  write_final_sse_on p = ap (λ b. if b then write_frame e h else h) p

  pub write_final_sse_off : h.is_stream ≡ false → write_final_sse e h ≡ h
  unfolding write_final_sse
  write_final_sse_off p = ap (λ b. if b then write_frame e h else h) p

  pub write_sse_off : h.is_stream ≡ false → write_sse e h ≡ h
  unfolding write_sse
  write_sse_off p = ap (λ b. if b then (if h.has_return then h else write_frame e h) else h) p

  pub write_sse_returned : h.has_return ≡ true → write_sse e h ≡ h
  unfolding write_sse
  write_sse_returned p = elim (Bool-cases h.is_stream) [
    | inl on ↦ rw (on, p, write_sse) refl
    | inr off ↦ write_sse_off off
  ]

  pub write_sse_live : h.is_stream ≡ true → h.has_return ≡ false → write_sse e h ≡ write_frame e h
  unfolding write_sse
  write_sse_live on live =
      ap (λ b. if b then (if h.has_return then h else write_frame e h) else h) on
      ∙ ap (λ b. if b then h else write_frame e h) live

  pub frame_by : Option ℕ → StreamHandler
  frame_by o = elim o [
    | none ↦ record h { sent = e ∷ h.sent }
    | some n ↦ elim n [
      | zero ↦ mark_write_error h
      | suc m ↦ record h { sent = e ∷ h.sent; lifetime = some m }
    ]
  ]

  pub write_frame_free : h.lifetime ≡ none → write_frame e h ≡ record h { sent = e ∷ h.sent }
  unfolding write_frame frame_by
  write_frame_free p = ap frame_by p

  pub write_frame_lost : h.lifetime ≡ some 0 → write_frame e h ≡ mark_write_error h
  unfolding write_frame frame_by
  write_frame_lost p = ap frame_by p

  pub write_frame_left :
      (n : ℕ)
      → h.lifetime ≡ some (suc n)
      → write_frame e h ≡ record h { sent = e ∷ h.sent; lifetime = some n }
  unfolding write_frame frame_by
  write_frame_left n p = ap frame_by p

-- the connection's lifetime: unlimited, over, or not over
pub lifetime-cases : (o : Option ℕ) → (o ≡ none) ⊎ ((o ≡ some 0) ⊎ ((n : ℕ) × (o ≡ some (suc n))))
lifetime-cases none = inl refl
lifetime-cases (some zero) = inr (inl refl)
lifetime-cases (some (suc n)) = inr (inr (n, refl))

-- the mark of a lost connection leaves the connection as it is
pub mark_write_error-lost :
    (h : StreamHandler)
    → ((mark_write_error h).sent ≡ h.sent)
      × ((mark_write_error h).lifetime ≡ h.lifetime)
      × ((mark_write_error h).is_stream ≡ h.is_stream)
unfolding mark_write_error
mark_write_error-lost h = elim (Bool-cases h.has_return) [
  | inl r ↦ rw (r, mark_write_error) (refl, refl, refl)
  | inr r ↦ rw (r, mark_write_error) (refl, refl, refl)
]
