-- ===== src/Codebuff/Tests.antt =====
-- Runs of the session cache (internal/codebuff/session.go) with a Redis that is a map, a clock that
-- counts, and an upstream that accepts every model.
use inf_api.Common.{ℕ, ◌+◌, true, false, Option, none, some, List, [], ◌∷◌, arith}
use inf_api.Common.Int.{pos, negsuc}
use inf_api.Common.Map.{lookup, insert, delete}
use inf_api.Common.Text.{Text, bytes, key_dec}
use inf_api.Codebuff.{
  lock_key, SessionCacheConfig, Session, SessionCache, accepted, Services, new_session_cache_with,
  ensure_session, session_key,
}
use inf_api.Codebuff.Waiting.{IsClock, Returns, ensure_session_total}

abbrev World : Type 0
World = ℕ × List (Text × Text)

abbrev encode : Session → Option Text
encode s = elim s.instance_id [
  | c ∷ id ↦ none
  | [] ↦ elim s.expires_at [
    | c ∷ at ↦ none
    | [] ↦ elim s.remaining_ms [ pos n ↦ some (n ∷ s.model) | negsuc n ↦ none ]
  ]
]

abbrev decode : Text → Option Session
decode [] = none
decode (n ∷ m) =
    some (record { instance_id = []; model = m; expires_at = []; remaining_ms = pos n })

abbrev demo : Services World
demo = record {
  get = λ k w. (lookup key_dec k w.1, w);
  write = λ k v ttl w. (w.0, insert key_dec k v w.1);
  set_nx = λ k ttl w. elim (lookup key_dec k w.1) [
    | none ↦ (some true, (w.0, insert key_dec k (bytes "1") w.1))
    | some v ↦ (some false, w)
  ];
  del = λ k w. (w.0, delete key_dec k w.1);
  create_session = λ m w. (
    accepted (some (record { instance_id = []; model = m; expires_at = []; remaining_ms = pos 0 }))
        [],
    w,
  );
  drop_session = λ w. w;
  is_model_locked = λ e. false;
  now = λ w. w.0;
  wait = λ d w. (false, (w.0 + d, w.1));
  unmarshal = decode;
  marshal = encode;
  digest = λ t. t;
}

demo-IsClock : IsClock demo
demo-IsClock = record { wait_forward = λ d w h. omega arith; get_forward = λ k w. omega arith }

abbrev no_config : SessionCacheConfig
no_config = record {
  lock_ttl = pos 0;
  poll_timeout = pos 3;
  poll_delay = negsuc 4;
  fresh_threshold_ms = pos 0;
}

abbrev a_cache : SessionCache
a_cache = new_session_cache_with [] no_config

abbrev a_session : Session
a_session = record { instance_id = []; model = bytes "kimi"; expires_at = []; remaining_ms = pos 0 }

ensure_session_total_example : Returns demo (new_session_cache_with [] no_config) (bytes "kimi") (
    ensure_session demo
      (new_session_cache_with [] no_config)
      4
      (bytes "token")
      (bytes "kimi")
      (0, []))
unfolding new_session_cache_with
ensure_session_total_example =
    ensure_session_total demo [] no_config 4 (bytes "token") (bytes "kimi") (0, []) demo-IsClock
      (omega arith)

-- the world after the first call
abbrev after_first : World
after_first =
    let key = session_key demo a_cache (bytes "token") (bytes "kimi") in
    let lock = lock_key demo a_cache (bytes "token") (bytes "kimi") in
    demo.del lock (demo.write key (0 ∷ bytes "kimi") 0 (0, insert key_dec lock (bytes "1") []))
