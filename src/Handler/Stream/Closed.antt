-- ===== src/Handler/Stream/Closed.antt =====
-- What a client has of a streamed response that is finished (internal/handler/stream_handler.go).
use inf_api.Common.{ℕ, ◌≡◌, some, List, [], ◌∷◌}
use inf_api.Common.Text.{Text}
use inf_api.Handler.Stream.{Event, message_delta, message_stop}
use inf_api.Handler.Stream.Monitor.{monitor}

-- the client has the stop reason and the end of the message, and no block is open
pub record IsClosed (reason : Text) (es : List Event) : Type 0 where
  pub output : ℕ
  pub before : List Event
  pub ended : es ≡ message_stop ∷ message_delta reason output ∷ before
  pub next : ℕ
  pub all_closed : monitor es ≡ some (next, [])
