-- ===== src/Eviction.antt =====
-- The eviction loop that the session store (internal/handler/session_store.go) and the session
-- registry (internal/loadbalancer/session_registry.go) both have, over entries with a time. The
-- empty key stands for "none yet" there, so an entry under the empty key is not evicted.
pub mod Oldest
pub mod Room
mod Tests
use text.Mathlib.Text.{◌==◌ as str_eq}
use inf_api.Common.{
  ℕ, String, Bool, ◌||◌, ◌&&◌, ltb, leb, length, List, [], ◌∷◌, if◌then◌else◌, text_dec,
}
use inf_api.Common.Map.{delete}
use inf_api.Common.Time.{before}

module _ {V : Type 0} (time : V → ℕ) where
  -- the loop over `oldestKey` and `oldestTime`
  unfoldable pub oldest_loop : String → ℕ → List (String × V) → String
  oldest_loop key at [] = key
  oldest_loop key at ((k, v) ∷ rest) =
      let older = str_eq key "" || before (time v) at in
      oldest_loop (if older then k else key) (if older then time v else at) rest

  unfoldable pub evict_oldest : List (String × V) → List (String × V)
  unfolding oldest_loop
  evict_oldest m =
      let key = oldest_loop "" 0 m in if str_eq key "" then m else delete text_dec key m

  -- the guard before the loop; a limit that is not positive is written 0
  unfoldable pub make_room : ℕ → List (String × V) → List (String × V)
  unfolding evict_oldest
  make_room max_size m = if ltb 0 max_size && leb max_size (length m) then evict_oldest m else m
