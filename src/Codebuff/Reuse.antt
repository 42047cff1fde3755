-- ===== src/Codebuff/Reuse.antt =====
-- What a call of the session cache creates is what the next one finds
-- (internal/codebuff/session.go).
use inf_api.Common.{ℕ, ◌≡◌, ◌≢◌, Option, some, [], ◌∷◌}
use inf_api.Common.Text.{Text}
use inf_api.Codebuff.{Session, SessionCache, Ensured, created, Services, session_key}

-- What the cache relies on: Redis returns what was written, a deletion leaves the other keys, and a
-- session survives its encoding.
pub record IsStore {W : Type 0} (services : Services W) : Type 0 where
  pub get_set :
      (k v : Text) (ttl : ℕ) (w : W) → (services.get k (services.write k v ttl w)).0 ≡ some v
  pub get_del :
      (k j : Text) (w : W) → k ≢ j → (services.get k (services.del j w)).0 ≡ (services.get k w).0
  pub codec :
      (s : Session) (raw : Text) → services.marshal s ≡ some raw → services.unmarshal raw ≡ some s

abbrev first_of : Text → ℕ
first_of [] = 0
first_of (c ∷ t) = c

module _ {W : Type 0} (services : Services W) (sc : SessionCache) (token model : Text) where
  -- the call that creates a session leaves it under its key
  abbrev Stores : Session → Text → Option (Ensured × W) → Type 0
  Stores s raw o =
      (extra : Text) (v : W)
      → o ≡ some (created (some s) extra, v)
      → (services.get (session_key services sc token model) v).0 ≡ some raw
