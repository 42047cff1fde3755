-- ===== src/Handler/Sessions/Tests.antt =====
-- Runs of the session store (internal/handler/session_store.go).
use inf_api.Common.{◌≤◌, refl, List, [], ◌∷◌, length, arith}
use inf_api.Handler.Sessions.{new_memory_session_store}
use inf_api.Handler.Sessions.Bounded.{
  SessionCall, set_dir, set_conversation, clean_up, call_all, call_all_bounded,
}

abbrev four_calls : List SessionCall
four_calls =
    set_dir 10 "a" "/src" ∷ set_conversation 20 "b" "c1" ∷ set_dir 30 "c" "/tmp" ∷ clean_up 40 ∷ []

call_all_bounded_example :
    length (call_all four_calls (new_memory_session_store 100 2)).sessions ≤ 2
call_all_bounded_example =
    call_all_bounded 100 2 four_calls (omega arith) (refl, (refl, (refl, (tt, tt))))
