-- ===== src/Handler/Stream/Open.antt =====
-- The blocks that are open in a streamed response (internal/handler/stream_handler.go): what a
-- write keeps of a state that fits what the client has seen.
use inf_api.Common.{
  ℕ, suc, ◌≡◌, refl, Bool, true, false, List, [], ◌∷◌, arith, if◌then◌else◌, inl, inr, Bool-cases,
}
use inf_api.Common.Text.{Text}
use inf_api.Handler.Stream.{
  Event, BlockKind, DeltaKind, content_block_start, content_block_delta, content_block_stop,
  ActiveBlock, no_block, in_thinking, in_text, StreamHandler, mark_write_error, write_frame,
  write_sse, write_final_sse, write_mode,
}
use inf_api.Handler.Stream.Monitor.{
  Leads, Tracks, Link, link, observe, write_final_sse_on, write_final_sse_off, write_sse_off,
  write_sse_returned, write_sse_live, write_frame_free, write_frame_lost, write_frame_left,
  lifetime-cases,
}
use inf_api.Handler.Stream.Tracking.{
  Tracks-write_final_sse, Tracks-write_sse_live, Tracks-write_sse_over,
}

-- the block that the handler takes to be open
abbrev pub block_of : ActiveBlock → List ℕ
block_of no_block = []
block_of (in_thinking i j) = i ∷ []
block_of (in_text i j) = i ∷ []

-- a response that has returned has no open block
abbrev pub expected : Bool → List ℕ → List ℕ
expected true blocks = []
expected false blocks = blocks

pub record Tidy (blocks : List ℕ) (k : ℕ) (l : Link) : Type 0 where
  pub flag : Bool
  pub tracks : Tracks flag (expected flag blocks) k l

-- the handler's view of the blocks is the client's
abbrev pub IsTidy : StreamHandler → Type 0
IsTidy h = Tidy (block_of h.active) h.next_index (link h)

-- a test between two handlers
pub if-IsTidy : (b : Bool) (g h : StreamHandler) → IsTidy g → IsTidy h → IsTidy (if b then g else h)
if-IsTidy true g h s t = s
if-IsTidy false g h s t = t

pub Leads-start :
    (k : ℕ) (kind : BlockKind) (o : List ℕ) → Leads (content_block_start k kind) o (k ∷ o) k (suc k)
unfolding observe
Leads-start k kind o = (omega arith, λ n le. (suc k, omega arith, ground (arith, le)))

pub Leads-delta :
    (i k : ℕ) (kind : DeltaKind) (text : Text) (o : List ℕ)
    → Leads (content_block_delta i kind text) (i ∷ o) (i ∷ o) k k
unfolding observe
Leads-delta i k kind text o = (omega arith, λ n le. (n, le, ground arith))

pub Leads-stop : (i k : ℕ) (o : List ℕ) → Leads (content_block_stop i) (i ∷ o) o k k
unfolding observe
Leads-stop i k o = (omega arith, λ n le. (n, le, ground arith))

-- the fields that a write leaves
abbrev pub SameBlocks : StreamHandler → StreamHandler → Type 0
SameBlocks g h = (g.active ≡ h.active) × (g.next_index ≡ h.next_index)

mark_write_error-SameBlocks : (h : StreamHandler) → SameBlocks (mark_write_error h) h
unfolding mark_write_error
mark_write_error-SameBlocks h = elim (Bool-cases h.has_return) [
  | inl r ↦ rw (r, mark_write_error) (refl, refl)
  | inr r ↦ rw (r, mark_write_error) (refl, refl)
]

write_frame-SameBlocks : (e : Event) (h : StreamHandler) → SameBlocks (write_frame e h) h
write_frame-SameBlocks e h = elim (lifetime-cases h.lifetime) [
  | inl free ↦ rw (write_frame_free e h free) (refl, refl)
  | inr limited ↦ elim limited [
    | inl lost ↦ rw (write_frame_lost e h lost) (mark_write_error-SameBlocks h)
    | inr (n, left) ↦ rw (write_frame_left e h n left) (refl, refl)
  ]
]

write_final_sse-SameBlocks : (e : Event) (h : StreamHandler) → SameBlocks (write_final_sse e h) h
write_final_sse-SameBlocks e h = elim (Bool-cases h.is_stream) [
  | inl on ↦ rw (write_final_sse_on e h on) (write_frame-SameBlocks e h)
  | inr off ↦ rw (write_final_sse_off e h off) (refl, refl)
]

pub write_sse-SameBlocks : (e : Event) (h : StreamHandler) → SameBlocks (write_sse e h) h
write_sse-SameBlocks e h = elim (Bool-cases h.is_stream) [
  | inr off ↦ rw (write_sse_off e h off) (refl, refl)
  | inl on ↦ elim (Bool-cases h.has_return) [
    | inl done ↦ rw (write_sse_returned e h done) (refl, refl)
    | inr live ↦ rw (write_sse_live e h on live) (write_frame-SameBlocks e h)
  ]
]

pub write_mode-SameBlocks :
    (final : Bool) (e : Event) (h : StreamHandler) → SameBlocks (write_mode final e h) h
unfolding write_mode
write_mode-SameBlocks true e h = write_final_sse-SameBlocks e h
write_mode-SameBlocks false e h = write_sse-SameBlocks e h

write_sse-Tidy :
    (e : Event) (o p : List ℕ) (k m : ℕ) (h : StreamHandler)
    → Leads e o p k m
    → Tidy o k (link h)
    → Tidy p m (link (write_sse e h))
write_sse-Tidy e o p k m h leads t = go t.flag t.tracks
  where
    go : (b : Bool) → Tracks b (expected b o) k (link h) → Tidy p m (link (write_sse e h))
    go true x = record { flag = true; tracks = Tracks-write_sse_over e k m h leads.0 x }
    go false x = record { flag = false; tracks = Tracks-write_sse_live e o p k m h leads x }

-- what a write of either kind goes on from: a final one knows that the response has returned
abbrev pub Carries : Bool → List ℕ → ℕ → Link → Type 0
Carries true o k l = Tracks true o k l
Carries false o k l = Tidy o k l

pub write_mode-Carries :
    (final : Bool) (e : Event) (o p : List ℕ) (k m : ℕ) (h : StreamHandler)
    → Leads e o p k m
    → Carries final o k (link h)
    → Carries final p m (link (write_mode final e h))
unfolding write_mode
write_mode-Carries true e o p k m h leads t = Tracks-write_final_sse true e o p k m leads h t
write_mode-Carries false e o p k m h leads t = write_sse-Tidy e o p k m h leads t

-- a write that leads to the block that the handler takes to be open
pub write_sse-IsTidy :
    (e : Event) (o : List ℕ) (k : ℕ) (h : StreamHandler)
    → Leads e o (block_of h.active) k h.next_index
    → Tidy o k (link h)
    → IsTidy (write_sse e h)
write_sse-IsTidy e o k h leads t =
    let same = write_sse-SameBlocks e h in
    let out = write_sse-Tidy e o (block_of h.active) k h.next_index h leads t in
    rw (same.0, same.1) out
