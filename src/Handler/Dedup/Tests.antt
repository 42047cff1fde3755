-- ===== src/Handler/Dedup/Tests.antt =====
-- Runs of the deduplication of requests (internal/handler/dedup_store.go).
use inf_api.Common.{◌≡◌, refl, List, [], ◌∷◌, true, arith}
use inf_api.Common.Text.{bytes}
use inf_api.Handler.Sharded.{
  get, compute, empty_shards, shard_at, get_shard, fnv1a_hash, fnv1a_loop,
}
use inf_api.Common.Map.{lookup}
use inf_api.Handler.Dedup.{new_memory_dedup_store, register, register_flags}
use inf_api.Handler.Dedup.Window.{
  Event, registered, finished, cleaned, handle_all, register_twice, new-IsFull,
}

abbrev three_events : List Event
three_events = registered 110 (bytes "aa") ∷ finished 120 (bytes "aa") ∷ cleaned 130 ∷ []

register_twice_example :
    (register 140
      (bytes "a")
      (handle_all three_events (register 100 (bytes "a") (new_memory_dedup_store 50 5)).1)).0
    ≡ (true, true)
unfolding register register_flags new_memory_dedup_store empty_shards compute get lookup shard_at
    get_shard fnv1a_hash fnv1a_loop
register_twice_example =
    register_twice 100 140 (bytes "a") three_events (new_memory_dedup_store 50 5) (new-IsFull 50 5)
      refl (λ e. cc, (λ e. cc, (tt, tt))) (omega arith)
