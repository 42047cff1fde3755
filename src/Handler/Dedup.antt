-- ===== src/Handler/Dedup.antt =====
-- The deduplication of requests in memory (internal/handler/dedup_store.go). `time.Now()` is an
-- argument; durations are numbers of nanoseconds.
pub mod Window
mod Tests
use inf_api.Common.{
  ℕ, suc, ◌+◌, ◌-◌, Bool, true, false, ◌&&◌, Option, none, some, leb, ltb, ◌==◌, if◌then◌else◌,
}
use inf_api.Common.Int.{ℤ, pos, negsuc}
use inf_api.Common.Text.{Text}
use inf_api.Common.Time.{sub_time}
use inf_api.Handler.Sharded.{ShardedMap, new_sharded_map, get, compute, range_delete}

pub record RecentRequest : Type 0 where
  pub last : ℕ
  pub in_flight : ℕ

pub record MemoryDedupStore : Type 0 where
  pub requests : ShardedMap RecentRequest
  pub window : ℕ
  pub cleanup_window : ℕ

-- `NewMemoryDedupStore`, without the start of the cleaner
pub new_memory_dedup_store : ℕ → ℕ → MemoryDedupStore
new_memory_dedup_store window cleanup_window = record {
  requests = new_sharded_map;
  window = window;
  cleanup_window = cleanup_window;
}

unfoldable pub is_recent : ℕ → ℕ → RecentRequest → Bool
is_recent now window cur = leb (sub_time now cur.last) window

-- the function that `Register` hands to `Compute`
unfoldable pub register_fn : ℕ → ℕ → Option RecentRequest → Option RecentRequest
unfolding is_recent
register_fn now window none = some (record { last = now; in_flight = 1 })
register_fn now window (some cur) =
    if is_recent now window cur
    then some cur
    else some (record { last = now; in_flight = cur.in_flight + 1 })

-- the two flags that this function sets
unfoldable pub register_flags : ℕ → ℕ → Option RecentRequest → Bool × Bool
unfolding is_recent
register_flags now window none = (false, false)
register_flags now window (some cur) =
    if is_recent now window cur then (true, ltb 0 cur.in_flight) else (false, false)

-- `Register`
unfoldable pub register : ℕ → Text → MemoryDedupStore → (Bool × Bool) × MemoryDedupStore
register now hash s =
    let r = compute hash (register_fn now s.window) s.requests in
    (register_flags now s.window r.0, record s { requests = r.1 })

-- the function that `Finish` hands to `Compute`
unfoldable pub finish_fn : ℕ → Option RecentRequest → Option RecentRequest
finish_fn now none = none
finish_fn now (some cur) = some (record { last = now; in_flight = cur.in_flight - 1 })

-- `Finish`
unfoldable pub finish : ℕ → Text → MemoryDedupStore → MemoryDedupStore
finish now hash s = record s { requests = (compute hash (finish_fn now) s.requests).1 }

-- the function that the cleaner runs
unfoldable pub is_stale : ℕ → ℕ → Text → RecentRequest → Bool
is_stale now cleanup_window key rec =
    rec.in_flight == 0 && ltb cleanup_window (sub_time now rec.last)

unfoldable pub clean : ℕ → MemoryDedupStore → MemoryDedupStore
clean now s = record s { requests = range_delete (is_stale now s.cleanup_window) s.requests }
