-- ===== src/Errors/Classify.antt =====
-- The classification of an error's text (internal/errors/classify.go), over ASCII texts. The text
-- arrives as `err.Error()`.

pub mod Wrapped
mod Tests
use inf_api.Common.{
  Bool, true, false, ◌&&◌, ◌||◌, Option, none, some, List, [], ◌∷◌, ◌++◌, is_empty, if◌then◌else◌,
}
use inf_api.Common.Text.{Text, bytes, text_eq, trim_space, to_lower, contains, has_suffix}

-- `strings.Contains(lower, p1) || strings.Contains(lower, p2) || …`, and the loop over `patterns`
unfoldable pub contains_any : Text → List Text → Bool
contains_any lower [] = false
contains_any lower (p ∷ ps) = contains lower p || contains_any lower ps

abbrev pub status_patterns : Text → List Text
status_patterns code =
    (bytes "http " ++ code)
    ∷ (bytes "http/1.1 " ++ code)
    ∷ (bytes "http/2 " ++ code)
    ∷ (bytes "status " ++ code)
    ∷ (bytes "status=" ++ code)
    ∷ (bytes "status:" ++ code)
    ∷ (bytes "statuscode " ++ code)
    ∷ (bytes "statuscode=" ++ code)
    ∷ (bytes "status code " ++ code)
    ∷ (bytes "code " ++ code)
    ∷ (bytes "code=" ++ code)
    ∷ (bytes "code:" ++ code)
    ∷ (bytes "response status " ++ code)
    ∷ (bytes "response code " ++ code)
    ∷ []

-- `HasExplicitHTTPStatus`
unfoldable pub has_explicit_http_status : Text → Text → Bool
has_explicit_http_status lower code =
    let trimmed = trim_space code in
    if is_empty trimmed || is_empty lower
    then false
    else contains_any lower (status_patterns trimmed)

-- the condition of a `case` that names status codes and phrases
unfoldable pub mentions : Text → List Text → List Text → Bool
mentions lower [] phrases = contains_any lower phrases
mentions lower (code ∷ codes) phrases =
    has_explicit_http_status lower code || mentions lower codes phrases

abbrev pub not_found_phrases : List Text
not_found_phrases = bytes "model is not found" ∷ bytes "model not found" ∷ []

abbrev pub phrases_401 : List Text
phrases_401 =
    bytes "signed out"
    ∷ bytes "signed_out"
    ∷ bytes "unauthorized"
    ∷ bytes "no active sessions found"
    ∷ []

abbrev pub phrases_402 : List Text
phrases_402 =
    bytes "insufficient_funds"
    ∷ bytes "insufficient funding"
    ∷ bytes "available funding is insufficient"
    ∷ bytes "out of credits"
    ∷ bytes "credits exhausted"
    ∷ bytes "run out of credits"
    ∷ bytes "quota_limit"
    ∷ []

abbrev pub phrases_429 : List Text
phrases_429 =
    bytes "too many requests"
    ∷ bytes "rate limit"
    ∷ bytes "rate_limit"
    ∷ bytes "no remaining quota"
    ∷ bytes "quota exceeded"
    ∷ []

-- `ClassifyAccountStatus` behind `strings.ToLower`
unfoldable pub account_status : Text → Text
account_status lower =
    if contains_any lower not_found_phrases
    then []
    else if mentions lower (bytes "401" ∷ []) phrases_401
    then bytes "401"
    else if mentions lower (bytes "403" ∷ []) (bytes "forbidden" ∷ [])
    then bytes "403"
    else if mentions lower (bytes "404" ∷ []) []
    then bytes "404"
    else if mentions lower (bytes "402" ∷ []) phrases_402
    then bytes "402"
    else if mentions lower (bytes "429" ∷ []) phrases_429
    then bytes "429"
    else []

-- `ClassifyAccountStatus`
unfoldable pub classify_account_status : Text → Text
unfolding account_status
classify_account_status err = account_status (to_lower err)

-- `IsAccountAuthFailure`
unfoldable pub is_account_auth_failure : Option Text → Bool
is_account_auth_failure none = false
is_account_auth_failure (some err) =
    let status = classify_account_status err in
    text_eq status (bytes "401") || text_eq status (bytes "403")

pub data Category : Type 0 where
  canceled : Category
  client : Category
  auth : Category
  auth_blocked : Category
  session_conflict : Category
  model_unavailable : Category
  rate_limit : Category
  timeout : Category
  network : Category
  server : Category
  unknown : Category

pub record UpstreamErrorClass : Type 0 where
  pub category : Category
  pub retryable : Bool
  pub switch_account : Bool

abbrev pub class : Category → Bool → Bool → UpstreamErrorClass
class c r s = record { category = c; retryable = r; switch_account = s }

-- `isWarpModelUnavailableError`
unfoldable pub is_warp_model_unavailable_error : Text → Bool
is_warp_model_unavailable_error lower =
    contains lower (bytes "warp")
    && (contains lower (bytes "requested base model")
          && (contains lower (bytes "not allowed") || contains lower (bytes "no model available"))
        || (contains lower (bytes "llm_unavailable") || contains lower (bytes "model unavailable")))

abbrev pub client_phrases : List Text
client_phrases =
    bytes "model is not found"
    ∷ bytes "model not found"
    ∷ bytes "no_implementation_available"
    ∷ bytes "context_window_exceeded"
    ∷ bytes "max_token_limit"
    ∷ []

abbrev pub rate_phrases : List Text
rate_phrases =
    bytes "too many requests"
    ∷ bytes "rate limit"
    ∷ bytes "rate_limit"
    ∷ bytes "insufficient_funds"
    ∷ bytes "insufficient funding"
    ∷ bytes "no remaining quota"
    ∷ bytes "quota_limit"
    ∷ bytes "out of credits"
    ∷ bytes "credits exhausted"
    ∷ bytes "run out of credits"
    ∷ []

abbrev pub network_phrases : List Text
network_phrases =
    bytes "connection reset"
    ∷ bytes "connection refused"
    ∷ bytes "unexpected eof"
    ∷ bytes "use of closed"
    ∷ bytes "broken pipe"
    ∷ []

-- `ClassifyUpstreamError` behind `strings.ToLower`
unfoldable pub upstream_class : Text → UpstreamErrorClass
upstream_class lower =
    if contains_any lower (bytes "context canceled" ∷ bytes "canceled" ∷ [])
    then class canceled false false
    else if contains_any lower client_phrases
    then class client false false
    else if mentions lower (bytes "401" ∷ [])
        (bytes "signed out" ∷ bytes "signed_out" ∷ bytes "invalid_api_key" ∷ [])
    then class auth true true
    else if mentions lower (bytes "403" ∷ []) []
    then class auth_blocked true true
    else if mentions lower (bytes "404" ∷ []) []
    then class auth_blocked false false
    else if mentions lower (bytes "409" ∷ [])
        (bytes "model_locked" ∷ bytes "session_model_mismatch" ∷ [])
    then class session_conflict true true
    else if is_warp_model_unavailable_error lower
    then class model_unavailable true true
    else if contains lower (bytes "input is too long") || mentions lower (bytes "400" ∷ []) []
    then class client false false
    else if mentions lower (bytes "429" ∷ bytes "402" ∷ []) rate_phrases
    then class rate_limit true true
    else if contains_any lower
        (bytes "timeout" ∷ bytes "deadline exceeded" ∷ bytes "context deadline" ∷ [])
    then class timeout true true
    else if contains_any lower network_phrases
        || (has_suffix lower (bytes ": eof") || text_eq lower (bytes "eof"))
    then class network true true
    else if mentions lower (bytes "500" ∷ bytes "502" ∷ bytes "503" ∷ bytes "504" ∷ [])
        (bytes "llm_unavailable" ∷ bytes "internal_error" ∷ [])
    then class server true true
    else class unknown true true

-- `ClassifyUpstreamError`
unfoldable pub classify_upstream_error : Text → UpstreamErrorClass
unfolding upstream_class
classify_upstream_error err = upstream_class (to_lower err)
