-- ===== src/Codebuff.antt =====
-- The cache of the codebuff sessions (internal/codebuff/session.go). Redis, the upstream client,
-- the clock, SHA-256 and the JSON encoding of a session are parameters, on a state of the world
-- that the calls pass on. An error of Redis or of the decoding is none, where the source only
-- tests for one. A lifetime that is written to Redis is taken to fit in 64 bits.
pub mod Quota
pub mod Reuse
pub mod Waiting
mod Tests
use inf_api.Common.{
  ℕ, zero, suc, ◌+◌, ◌*◌, Bool, true, false, ◌&&◌, ◌||◌, Option, none, some, List, [], ◌∷◌, ◌++◌,
  is_empty, ltb, ◌==◌, if◌then◌else◌, take,
}
use inf_api.Common.Int.{ℤ, pos, negsuc}
use inf_api.Common.Text.{Text, bytes, text_eq}
use inf_api.Common.Time.{second, millisecond, hour, before}

pub record SessionCacheConfig : Type 0 where
  pub lock_ttl : ℤ
  pub poll_timeout : ℤ
  pub poll_delay : ℤ
  pub fresh_threshold_ms : ℤ

pub record Session : Type 0 where
  pub instance_id : Text
  pub model : Text
  pub expires_at : Text
  pub remaining_ms : ℤ

pub record SessionCache : Type 0 where
  pub prefix : Text
  pub lock_ttl : ℕ
  pub poll_timeout : ℕ
  pub poll_delay : ℕ
  pub fresh_ms : ℕ

-- what `EnsureSession` returns
pub data EnsureError : Type 0 where
  redis_lock_error : EnsureError
  context_done : EnsureError
  lock_timeout : EnsureError
  upstream_error : Text → EnsureError

pub data Ensured : Type 0 where
  failed : EnsureError → Ensured
  reused : Session → Ensured
  created : Option Session → Text → Ensured

-- what the client's `CreateSession` returns
pub data CreateResult : Type 0 where
  refused : Text → CreateResult
  accepted : Option Session → Text → CreateResult

-- the calls that the cache makes
pub record Services (W : Type 0) : Type 1 where
  pub get : Text → W → Option Text × W
  pub write : Text → Text → ℕ → W → W
  pub set_nx : Text → ℕ → W → Option Bool × W
  pub del : Text → W → W
  pub create_session : Text → W → CreateResult × W
  pub drop_session : W → W
  pub is_model_locked : Text → Bool
  pub now : W → ℕ
  pub wait : ℕ → W → Bool × W
  pub unmarshal : Text → Option Session
  pub marshal : Session → Option Text
  pub digest : Text → Text

-- `if c.F <= 0 { c.F = d }`
abbrev pub or_default : ℕ → ℤ → ℕ
or_default d (pos n) = if n == 0 then d else n
or_default d (negsuc n) = d

-- `NewSessionCacheWith`, with `withDefaults`
unfoldable pub new_session_cache_with : Text → SessionCacheConfig → SessionCache
new_session_cache_with prefix cfg = record {
  prefix = if is_empty prefix then bytes "codebuff" else prefix;
  lock_ttl = or_default (60 * second) cfg.lock_ttl;
  poll_timeout = or_default (5 * second) cfg.poll_timeout;
  poll_delay = or_default (250 * millisecond) cfg.poll_delay;
  fresh_ms = or_default 30000 cfg.fresh_threshold_ms;
}

-- `IsFresh`
unfoldable pub is_fresh_session : ℕ → Session → Bool
is_fresh_session threshold s = elim s.remaining_ms [
  | pos n ↦ n == 0 || ltb threshold n
  | negsuc n ↦ false
]

-- `fmt.Sprintf("%s:session_lock:%s:%s", …)` and its like
unfoldable pub key_of : Text → Text → Text → Text → Text
key_of prefix kind hash model =
    prefix ++ (bytes ":" ++ (kind ++ (bytes ":" ++ (hash ++ (bytes ":" ++ model)))))

module _ {W : Type 0} (services : Services W) (sc : SessionCache) where
  -- `hashToken`
  unfoldable pub hash_token : Text → Text
  hash_token token = take 16 (services.digest token)

  unfoldable pub lock_key : Text → Text → Text
  unfolding key_of hash_token
  lock_key token model = key_of sc.prefix (bytes "session_lock") (hash_token token) model

  unfoldable pub session_key : Text → Text → Text
  unfolding key_of hash_token
  session_key token model = key_of sc.prefix (bytes "session") (hash_token token) model

  -- `loadSession`
  unfoldable pub load_session : Text → W → Option Session × W
  load_session key w =
      let got = services.get key w in
      (elim got.0 [ none ↦ none | some data_text ↦ services.unmarshal data_text ], got.1)

  -- the time that a session is kept
  unfoldable pub kept_for : Session → ℕ
  kept_for s = elim s.remaining_ms [
    | pos n ↦ if ltb 0 n then n * millisecond else 24 * hour
    | negsuc n ↦ 24 * hour
  ]

  -- `saveSession`
  unfoldable pub save_session : Text → Option Session → W → W
  unfolding kept_for
  save_session key none w = services.del key w
  save_session key (some s) w = elim (services.marshal s) [
    | none ↦ w
    | some raw ↦ services.write key raw (kept_for s) w
  ]

  -- `EvictSession`
  unfoldable pub evict_session : Text → Text → W → W
  unfolding session_key
  evict_session token model w = services.del (session_key token model) w

  -- the test of a cached session
  abbrev pub is_usable : Text → Session → Bool
  is_usable model s = is_fresh_session sc.fresh_ms s && text_eq s.model model

  -- the loop of a waiter, on fuel
  unfoldable pub poll : ℕ → Text → Text → ℕ → W → Option (Ensured × W)
  unfolding load_session is_fresh_session
  poll zero key model deadline w = none
  poll (suc n) key model deadline w =
      let rest = poll n key model deadline in
      let waited = services.wait sc.poll_delay w in
      let loaded = load_session key waited.1 in
      if before (services.now w) deadline
      then (if waited.0 then some (failed context_done, waited.1) else elim loaded.0 [
        | none ↦ rest loaded.1
        | some s ↦ if is_usable model s then some (reused s, loaded.1) else rest loaded.1
      ])
      else some (failed lock_timeout, w)

  -- the creation, with one more attempt where the model is locked
  unfoldable pub create_with_retry : Text → Text → W → CreateResult × W
  create_with_retry key model w =
      let first = services.create_session model w in
      elim first.0 [
        | accepted s data_text ↦ first
        | refused e ↦
            if services.is_model_locked e
            then services.create_session model (services.del key (services.drop_session first.1))
            else first
      ]

  -- what follows the creation
  abbrev pub finish_creation : Text → CreateResult × W → Ensured × W
  finish_creation key (refused e, w) = (failed (upstream_error e), w)
  finish_creation key (accepted s data_text, w) = (created s data_text, save_session key s w)

  -- the part under the lock, without its release
  unfoldable pub create_locked : Text → Text → W → Ensured × W
  unfolding create_with_retry save_session
  create_locked key model w = finish_creation key (create_with_retry key model w)

  -- from the lock on
  unfoldable pub acquire_and_create : ℕ → Text → Text → W → Option (Ensured × W)
  unfolding lock_key session_key poll create_locked
  acquire_and_create fuel token model w =
      let asked = services.set_nx (lock_key token model) sc.lock_ttl w in
      let key = session_key token model in
      elim asked.0 [
        | none ↦ some (failed redis_lock_error, asked.1)
        | some locked ↦
            let deadline = services.now asked.1 + sc.poll_timeout in
            let made = create_locked key model asked.1 in
            if locked
            then some (made.0, services.del (lock_key token model) made.1)
            else poll fuel key model deadline asked.1
      ]

  -- `EnsureSession`
  unfoldable pub ensure_session : ℕ → Text → Text → W → Option (Ensured × W)
  unfolding session_key load_session is_fresh_session acquire_and_create
  ensure_session fuel token model w =
      let key = session_key token model in
      let loaded = load_session key w in
      elim loaded.0 [
        | none ↦ acquire_and_create fuel token model loaded.1
        | some s ↦
            if is_usable model s
            then some (reused s, loaded.1)
            else if is_fresh_session sc.fresh_ms s
            then acquire_and_create fuel token model (services.del key loaded.1)
            else acquire_and_create fuel token model loaded.1
      ]
