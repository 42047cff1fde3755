-- ===== src/Eviction/Tests.antt =====
-- Runs of the eviction loop (internal/handler/session_store.go,
-- internal/loadbalancer/session_registry.go).
use inf_api.Common.{ℕ, ◌≡◌, refl, String, List, [], ◌∷◌, text_dec}
use inf_api.Common.Map.{lookup, delete}
use inf_api.Eviction.{evict_oldest}
use inf_api.Eviction.Oldest.{IsOldest, evict_oldest-IsOldest}

abbrev itself : ℕ → ℕ
itself t = t

abbrev two_times : List (String × ℕ)
two_times = ("a", 5) ∷ ("b", 3) ∷ []

evict_oldest-IsOldest_example :
    (key : String) × (v : ℕ) × IsOldest itself two_times key v
    × (evict_oldest itself two_times ≡ delete text_dec key two_times)
unfolding lookup text_dec
evict_oldest-IsOldest_example =
    evict_oldest-IsOldest itself two_times (refl, (refl, tt)) (refl, (refl, tt)) (λ e. cc)
