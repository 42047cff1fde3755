-- ===== src/Middleware/Session.antt =====
-- Authentication: the admin's session (internal/middleware/session.go) and the session tokens
-- (internal/auth/auth.go). A request is a record of what the handlers read of it: a header or query
-- parameter that is missing reads as the empty text. The token's random bytes are an argument.
pub mod Grant
pub mod Tokens
mod Tests
use inf_api.Common.{
  ℕ, suc, ◌+◌, ◌*◌, ◌/◌, ◌%◌, Bool, true, false, not, ◌&&◌, ◌||◌, Option, none, some, List, [], ◌∷◌,
  ◌++◌, ltb, is_empty, drop, length, if◌then◌else◌,
}
use inf_api.Common.Map.{lookup, insert, delete}
use inf_api.Common.Text.{Text, bytes, key_dec, text_eq, trim_space, has_prefix}
use inf_api.Common.Time.{hour}

abbrev pub session_ttl : ℕ
session_ttl = 7 * 24 * hour

-- the map of the global session store
abbrev pub SessionStore : Type 0
SessionStore = List (Text × ℕ)

unfoldable pub hex_digit : ℕ → ℕ
hex_digit n = if ltb n 10 then 48 + n else 87 + n

-- `hex.EncodeToString`
unfoldable pub encode_hex : List ℕ → Text
encode_hex [] = []
encode_hex (b ∷ bs) = hex_digit (b / 16) ∷ hex_digit (b % 16) ∷ encode_hex bs

-- `GenerateSessionToken`, with the bytes that `rand.Read` gives, if it does
unfoldable pub generate_session_token :
    ℕ → Option (List ℕ) → SessionStore → Option Text × SessionStore
generate_session_token now none m = (none, m)
generate_session_token now (some bs) m =
    (some (encode_hex bs), insert key_dec (encode_hex bs) (now + session_ttl) m)

-- `ValidateSessionToken`
unfoldable pub validate_session_token : ℕ → Text → SessionStore → Bool × SessionStore
validate_session_token now token m = elim (lookup key_dec token m) [
  | none ↦ (false, m)
  | some expiry ↦ if ltb expiry now then (false, delete key_dec token m) else (true, m)
]

-- `InvalidateSessionToken`
unfoldable pub invalidate_session_token : Text → SessionStore → SessionStore
invalidate_session_token token m = delete key_dec token m

-- `CleanupExpiredSessions`
unfoldable pub cleanup_expired_sessions : ℕ → SessionStore → SessionStore
cleanup_expired_sessions now [] = []
cleanup_expired_sessions now ((t, expiry) ∷ m) =
    let rest = cleanup_expired_sessions now m in if ltb expiry now then rest else (t, expiry) ∷ rest

pub record HttpRequest : Type 0 where
  pub cookie : Option Text
  pub authorization : Text
  pub admin_token_header : Text
  pub app_key : Text
  pub public_key : Text
  pub task_id : Text
  pub basic_password : Option Text

pub data Verdict : Type 0 where
  pass_on : Verdict
  refuse : Verdict
  refuse_missing : Verdict
  refuse_invalid : Verdict

-- `secureCompare`
abbrev pub secure_compare : Text → Text → Bool
secure_compare a b = text_eq a b

abbrev pub bearer_prefix : Text
bearer_prefix = bytes "Bearer "

-- `strings.TrimPrefix`
unfoldable pub trim_prefix : Text → Text → Text
trim_prefix s p = if has_prefix s p then drop (length p) s else s

-- `bearerToken`
unfoldable pub bearer_token : HttpRequest → Text
bearer_token r =
    let header = trim_space r.authorization in
    if is_empty header
    then []
    else if not (has_prefix header bearer_prefix)
    then []
    else trim_space (trim_prefix header bearer_prefix)

-- the three comparisons of a secret with the headers
unfoldable pub header_matches : HttpRequest → Text → Bool
header_matches r secret =
    not (is_empty secret)
    && ((secure_compare r.authorization (bearer_prefix ++ secret)
          || secure_compare r.authorization secret)
        || secure_compare r.admin_token_header secret)

-- the loop over `queryKeys`
unfoldable pub query_loop : List Text → Text → Text → Bool
query_loop [] token pass = false
query_loop (key ∷ keys) token pass =
    let rest = query_loop keys token pass in
    if is_empty key
    then rest
    else if not (is_empty token) && secure_compare key token
    then true
    else if not (is_empty pass) && secure_compare key pass
    then true
    else rest

unfoldable pub basic_matches : Option Text → Text → Bool
basic_matches none pass = false
basic_matches (some p) pass = secure_compare p pass

unfoldable pub check_cookie : ℕ → Option Text → SessionStore → Bool × SessionStore
check_cookie now none m = (false, m)
check_cookie now (some value) m = validate_session_token now value m

-- `SessionAuthDynamic`, with what `credentials()` gives and the session store
unfoldable pub session_auth : ℕ → Text → Text → HttpRequest → SessionStore → Verdict × SessionStore
session_auth now pass token r m =
    let checked = check_cookie now r.cookie m in
    if checked.0
    then (pass_on, checked.1)
    else if header_matches r token
    then (pass_on, checked.1)
    else if header_matches r pass
    then (pass_on, checked.1)
    else if query_loop (trim_space r.app_key ∷ trim_space r.public_key ∷ []) token pass
    then (pass_on, checked.1)
    else if basic_matches r.basic_password pass
    then (pass_on, checked.1)
    else (refuse, checked.1)

-- `PublicKeyAuth`
unfoldable pub public_key_auth : Text → HttpRequest → Verdict
unfolding bearer_token
public_key_auth public_key r =
    let key = trim_space public_key in
    let token = bearer_token r in
    if is_empty key
    then pass_on
    else if is_empty token
    then refuse_missing
    else if not (secure_compare token key)
    then refuse_invalid
    else pass_on

-- `PublicImagineStreamAuth`
unfoldable pub public_imagine_stream_auth : Text → HttpRequest → Verdict
unfolding bearer_token
public_imagine_stream_auth public_key r =
    let key = trim_space public_key in
    let query_key = trim_space r.public_key in
    if not (is_empty (trim_space r.task_id))
    then pass_on
    else if is_empty key
    then pass_on
    else if is_empty query_key
    then (if secure_compare (bearer_token r) key then pass_on else refuse_missing)
    else if not (secure_compare query_key key)
    then refuse_invalid
    else pass_on
