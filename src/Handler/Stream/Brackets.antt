-- ===== src/Handler/Stream/Brackets.antt =====
-- The operations on the content blocks (internal/handler/stream_handler.go) keep the handler's view
-- of the open blocks equal to the client's.
use inf_api.Common.{
  ℕ, suc, ◌≡◌, refl, sym, ◌∙◌, Bool, true, false, Option, none, List, [], ◌∷◌, if◌then◌else◌, inl,
  inr, Bool-cases,
}
use inf_api.Common.Text.{Text}
use inf_api.Handler.Stream.{
  BlockKind, DeltaKind, content_block_start, content_block_delta, content_block_stop, ActiveBlock,
  no_block, in_thinking, in_text, StreamHandler, write_mode, add_output_tokens, thinking_kind,
  text_kind,
}
use inf_api.Handler.Stream.Blocks.{
  close_active_block, start_thinking, start_text, ensure_thinking, ensure_text, close_block,
  text_from, thinking_from,
}
use inf_api.Handler.Stream.Monitor.{link}
use inf_api.Handler.Stream.Open.{
  block_of, Tidy, IsTidy, Leads-start, Leads-delta, Leads-stop, SameBlocks, write_mode-SameBlocks,
  Carries, write_mode-Carries, write_sse-IsTidy, write_sse-SameBlocks,
}

-- the fields that the view of the blocks depends on
abbrev pub SameView : StreamHandler → StreamHandler → Type 0
SameView g h = (link g ≡ link h) × (g.active ≡ h.active) × (g.next_index ≡ h.next_index)

pub SameView-IsTidy : (g h : StreamHandler) → SameView g h → IsTidy h → IsTidy g
SameView-IsTidy g h s t = rw (s.0, s.1, s.2) t

pub add_output_tokens-SameView :
    (text : Text) (h : StreamHandler) → SameView (add_output_tokens text h) h
unfolding add_output_tokens
add_output_tokens-SameView [] h = (refl, refl, refl)
add_output_tokens-SameView (c ∷ text) h = elim (Bool-cases h.use_upstream_usage) [
  | inl u ↦ rw (u, add_output_tokens) (refl, refl, refl)
  | inr u ↦ rw (u, add_output_tokens) (refl, refl, refl)
]

-- a whole block: its start, one delta and its stop
abbrev pub whole_block : Bool → ℕ → BlockKind → DeltaKind → Text → StreamHandler → StreamHandler
whole_block final i kind delta text h = write_mode final (content_block_stop i) (
    write_mode final (content_block_delta i delta text)
      (write_mode final (content_block_start i kind) h))

module _ (final : Bool) (i : ℕ) (kind : BlockKind) (delta : DeltaKind) (text : Text)
    (h : StreamHandler) where
  pub whole_block-Carries :
      (o : List ℕ)
      → Carries final o i (link h)
      → Carries final o (suc i) (link (whole_block final i kind delta text h))
  whole_block-Carries o t =
      let opened =
        write_mode-Carries final (content_block_start i kind) o (i ∷ o) i (suc i) h
          (Leads-start i kind o) t in
      let filled =
        write_mode-Carries final (content_block_delta i delta text) (i ∷ o) (i ∷ o) (suc i) (suc i)
          _ (Leads-delta i (suc i) delta text o) opened in
      write_mode-Carries final (content_block_stop i) (i ∷ o) o (suc i) (suc i) _
        (Leads-stop i (suc i) o) filled

  pub whole_block-SameBlocks : SameBlocks (whole_block final i kind delta text h) h
  whole_block-SameBlocks =
      let a = write_mode-SameBlocks final (content_block_start i kind) h in
      let b = write_mode-SameBlocks final (content_block_delta i delta text) _ in
      let c = write_mode-SameBlocks final (content_block_stop i) _ in
      (c.0 ∙ b.0 ∙ a.0, c.1 ∙ b.1 ∙ a.1)

-- a whole block under the next index
pub whole_block-IsTidy :
    (kind : BlockKind) (delta : DeltaKind) (text : Text) (h : StreamHandler)
    → IsTidy h
    → IsTidy (
        whole_block false h.next_index kind delta text (record h { next_index = suc h.next_index }))
whole_block-IsTidy kind delta text h t =
    let opened : StreamHandler = record h { next_index = suc h.next_index } in
    let same = whole_block-SameBlocks false h.next_index kind delta text opened in
    let out = whole_block-Carries false h.next_index kind delta text opened (block_of h.active) t in
    rw (same.0, same.1) out

-- what is known of the blocks, where the open one is known
pub Tidy-at :
    (h : StreamHandler) (a : ActiveBlock)
    → h.active ≡ a
    → IsTidy h
    → Tidy (block_of a) h.next_index (link h)
Tidy-at h a p t = rw (sym p) t

pub close_block-IsTidy :
    (a : ActiveBlock) (h : StreamHandler) → h.active ≡ a → IsTidy h → IsTidy (close_block a h)
close_block-IsTidy no_block h p t = t
close_block-IsTidy (in_thinking i j) h p t =
    write_sse-IsTidy (content_block_stop i) (i ∷ []) h.next_index (record h { active = no_block })
      (Leads-stop i h.next_index []) (Tidy-at h (in_thinking i j) p t)
close_block-IsTidy (in_text i j) h p t =
    write_sse-IsTidy (content_block_stop i) (i ∷ []) h.next_index (record h { active = no_block })
      (Leads-stop i h.next_index []) (Tidy-at h (in_text i j) p t)

pub close_active_block-IsTidy : (h : StreamHandler) → IsTidy h → IsTidy (close_active_block h)
unfolding close_active_block
close_active_block-IsTidy h t = close_block-IsTidy h.active h refl t

-- a closed block leaves none open
pub close_active_block-closed : (h : StreamHandler) → (close_active_block h).active ≡ no_block
unfolding close_active_block
close_active_block-closed h = go h.active refl
  where
    go : (a : ActiveBlock) → h.active ≡ a → (close_block a h).active ≡ no_block
    go no_block p = p
    go (in_thinking i j) p =
        (write_sse-SameBlocks (content_block_stop i) (record h { active = no_block })).0
    go (in_text i j) p =
        (write_sse-SameBlocks (content_block_stop i) (record h { active = no_block })).0

pub start_text-IsTidy :
    (h : StreamHandler) → h.active ≡ no_block → IsTidy h → IsTidy (start_text h).1
unfolding start_text
start_text-IsTidy h p t =
    write_sse-IsTidy (content_block_start h.next_index text_kind) [] h.next_index _
      (Leads-start h.next_index text_kind []) (Tidy-at h no_block p t)

pub start_thinking-IsTidy :
    (h : StreamHandler) → h.active ≡ no_block → IsTidy h → IsTidy (start_thinking h).1
unfolding start_thinking
start_thinking-IsTidy h p t =
    write_sse-IsTidy (content_block_start h.next_index (thinking_kind h.pending_thinking_sig)) []
      h.next_index _ (Leads-start h.next_index (thinking_kind h.pending_thinking_sig) [])
      (Tidy-at h no_block p t)

pub text_from-IsTidy :
    (a : ActiveBlock) (h : StreamHandler) → h.active ≡ a → IsTidy h → IsTidy (text_from a h).1
text_from-IsTidy no_block h p t = start_text-IsTidy h p t
text_from-IsTidy (in_thinking i j) h p t =
    start_text-IsTidy (close_active_block h) (close_active_block-closed h)
      (close_active_block-IsTidy h t)
text_from-IsTidy (in_text i j) h p t = t

pub ensure_text-IsTidy : (h : StreamHandler) → IsTidy h → IsTidy (ensure_text h).1
unfolding ensure_text
ensure_text-IsTidy h t = text_from-IsTidy h.active h refl t

pub thinking_from-IsTidy :
    (a : ActiveBlock) (h : StreamHandler) → h.active ≡ a → IsTidy h → IsTidy (thinking_from a h).1
thinking_from-IsTidy no_block h p t = start_thinking-IsTidy h p t
thinking_from-IsTidy (in_thinking i j) h p t = t
thinking_from-IsTidy (in_text i j) h p t =
    start_thinking-IsTidy (close_active_block h) (close_active_block-closed h)
      (close_active_block-IsTidy h t)

pub ensure_thinking-IsTidy : (h : StreamHandler) → IsTidy h → IsTidy (ensure_thinking h).1
unfolding ensure_thinking
ensure_thinking-IsTidy h t = go h.suppress_thinking
  where
    go :
        (b : Bool)
        → IsTidy
            (if◌then◌else◌ {A = Option ℕ × StreamHandler} b (none, h) (thinking_from h.active h)).1
    go true = t
    go false = thinking_from-IsTidy h.active h refl t
