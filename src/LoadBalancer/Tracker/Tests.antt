-- ===== src/LoadBalancer/Tracker/Tests.antt =====
-- Runs of the connection tracker (internal/loadbalancer/conn_tracker.go).
use inf_api.Common.Int.{pos}
use inf_api.Common.{◌≡◌, refl, List, [], ◌∷◌}
use inf_api.Common.Map.{lookup}
use inf_api.LoadBalancer.Tracker.{get_count}
use inf_api.LoadBalancer.Tracker.Counts.{Step, opened, closed, track, open_of, get_count-track}

abbrev four_steps : List Step
four_steps = opened 7 ∷ closed 8 ∷ opened 7 ∷ closed 7 ∷ []

get_count-track_example : get_count 7 (track four_steps []) ≡ pos (open_of 7 four_steps 0)
unfolding get_count lookup
get_count-track_example = get_count-track 7 four_steps 0 [] refl
