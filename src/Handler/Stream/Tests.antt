-- ===== src/Handler/Stream/Tests.antt =====
-- Runs of the writer of a streamed response (internal/handler/stream_handler.go).
use inf_api.Common.{true, List, [], ◌∷◌}
use inf_api.Common.Text.{bytes}
use inf_api.Handler.Stream.Calls.{Call, start, thinking, text, tool_call, alive, force_finish}

abbrev some_calls : List Call
some_calls =
    start (bytes "m") 3 0
    ∷ thinking (bytes "so")
    ∷ text (bytes "Yes")
    ∷ tool_call (record {
      call_id = bytes "t1";
      call_name = bytes "Read";
      call_input = bytes "{}";
      is_json = true;
    })
    ∷ []

abbrev later_calls : List Call
later_calls = text (bytes "late") ∷ alive ∷ force_finish ∷ []
