-- ===== src/Handler/Stream/Tracking.antt =====
-- A write of one event (internal/handler/stream_handler.go) and what the client has seen.
use inf_api.Common.{
  ℕ, ◌≤◌, ◌≡◌, refl, ap, ◌∙◌, Bool, true, false, Option, some, List, [], ◌∷◌, arith, inl, inr, ◌≢◌,
  Bool-cases,
}
use inf_api.Handler.Stream.{
  Event, StreamHandler, write_frame, write_sse, write_final_sse, mark_write_error,
}
use inf_api.Handler.Stream.Monitor.{
  monitor, Link, link, Tracks, Leads, Tracks-later, Tracks-quiet, write_final_sse_on,
  write_final_sse_off, write_sse_off, write_sse_returned, write_sse_live, write_frame_free,
  write_frame_lost, write_frame_left, lifetime-cases, mark_write_error-lost,
}

-- the connection is lost
Tracks-marked :
    (b c : Bool) (o p : List ℕ) (k m : ℕ) (h : StreamHandler)
    → h.lifetime ≡ some 0
    → k ≤ m
    → Tracks b o k (link h)
    → Tracks c p m (link (mark_write_error h))
Tracks-marked b c o p k m h lost le t =
    let same = mark_write_error-lost h in
    record {
      seen = t.seen;
      held = t.held;
      below = omega (arith, t.below, le);
      so_far = ap monitor same.0 ∙ t.so_far;
      exact = inl (inr (same.1 ∙ lost));
    }

-- a frame that the connection takes
module _ (b : Bool) (e : Event) (o p : List ℕ) (k m : ℕ) (leads : Leads e o p k m) where
  Tracks-sent :
      (l : Link) (rest : Option ℕ)
      → l.0 ≡ true
      → l.1 ≢ some 0
      → Tracks b o k l
      → Tracks b p m (l.0, rest, e ∷ l.2, l.3)
  unfolding monitor
  Tracks-sent l rest on alive t = elim t.exact [
    | inl q ↦ elim q [ inl off ↦ cc | inr lost ↦ elim (alive lost) [ ] ]
    | inr x ↦
        let next = leads.1 t.seen t.below in
        record {
          seen = next.0;
          held = p;
          below = next.1;
          so_far = rw (t.so_far, x.1) next.2;
          exact = inr (x.0, refl);
        }
  ]

  pub Tracks-write_frame :
      (h : StreamHandler)
      → h.is_stream ≡ true
      → Tracks b o k (link h)
      → Tracks b p m (link (write_frame e h))
  Tracks-write_frame h on t = elim (lifetime-cases h.lifetime) [
    | inl free ↦ rw (write_frame_free e h free) (Tracks-sent (link h) h.lifetime on (λ q. cc) t)
    | inr limited ↦ elim limited [
      | inl lost ↦ rw (write_frame_lost e h lost) (Tracks-marked b b o p k m h lost leads.0 t)
      | inr (n, left) ↦
          rw (write_frame_left e h n left) (Tracks-sent (link h) (some n) on (λ q. cc) t)
    ]
  ]

  -- a write of the end of a response
  pub Tracks-write_final_sse :
      (h : StreamHandler) → Tracks b o k (link h) → Tracks b p m (link (write_final_sse e h))
  Tracks-write_final_sse h t = elim (Bool-cases h.is_stream) [
    | inl on ↦ rw (write_final_sse_on e h on) (Tracks-write_frame h on t)
    | inr off ↦
        rw (write_final_sse_off e h off) (Tracks-quiet b b o p k m (link h) (inl off) leads.0 t)
  ]

-- a write before the response has returned
pub Tracks-write_sse_live :
    (e : Event) (o p : List ℕ) (k m : ℕ) (h : StreamHandler)
    → Leads e o p k m
    → Tracks false o k (link h)
    → Tracks false p m (link (write_sse e h))
Tracks-write_sse_live e o p k m h leads t = elim (Bool-cases h.is_stream) [
  | inr off ↦
      rw (write_sse_off e h off) (Tracks-quiet false false o p k m (link h) (inl off) leads.0 t)
  | inl on ↦ elim (Bool-cases h.has_return) [
    | inr live ↦ rw (write_sse_live e h on live) (Tracks-write_frame false e o p k m leads h on t)
    | inl done ↦ rw (write_sse_returned e h done) (elim t.exact [
      | inl q ↦ Tracks-quiet false false o p k m (link h) q leads.0 t
      | inr x ↦ cc
    ])
  ]
]

-- a write after the response has returned
pub Tracks-write_sse_over :
    (e : Event) (k m : ℕ) (h : StreamHandler)
    → k ≤ m
    → Tracks true [] k (link h)
    → Tracks true [] m (link (write_sse e h))
Tracks-write_sse_over e k m h le t = elim (Bool-cases h.has_return) [
  | inl done ↦ rw (write_sse_returned e h done) (Tracks-later true [] k m (link h) le t)
  | inr live ↦ elim t.exact [
    | inr x ↦ cc
    | inl q ↦ elim (Bool-cases h.is_stream) [
      | inr off ↦ rw (write_sse_off e h off) (Tracks-later true [] k m (link h) le t)
      | inl on ↦ elim q [
        | inl off ↦ cc
        | inr lost ↦
            rw (write_sse_live e h on live, write_frame_lost e h lost)
              (Tracks-marked true true [] [] k m h lost le t)
      ]
    ]
  ]
]
