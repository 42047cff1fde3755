-- ===== src/Middleware/Session/Tests.antt =====
-- Runs of the authentication (internal/middleware/session.go, internal/auth/auth.go).
use inf_api.Common.{◌≡◌, ◌≢◌, ◌⊎◌, ◌↔◌, refl, List, [], ◌∷◌, true, none, some, arith}
use inf_api.Common.Text.{Text, bytes, trim_space, text_eq}
use inf_api.Middleware.Session.{
  HttpRequest, pass_on, check_cookie, header_matches, query_loop, basic_matches, session_auth,
  generate_session_token, validate_session_token, encode_hex,
}
use inf_api.Middleware.Session.Grant.{HasSession, Presents, session_auth_iff}
use inf_api.Middleware.Session.Tokens.{AuthEvent, checked, cleaned, react_all, token_stays_valid}

abbrev token_request : HttpRequest
token_request = record {
  cookie = none;
  authorization = bytes "Bearer t";
  admin_token_header = [];
  app_key = [];
  public_key = [];
  task_id = [];
  basic_password = none;
}

session_auth_iff_example :
    ((session_auth 5 (bytes "p") (bytes "t") token_request []).0 ≡ pass_on) ↔ (
      HasSession 5 [] token_request
      ⊎ ((secret : Text) × (secret ≢ [])
          × ((secret ≡ bytes "t") ⊎ (secret ≡ bytes "p"))
          × Presents token_request secret)
      ⊎ (token_request.basic_password ≡ some (bytes "p")))
session_auth_iff_example = session_auth_iff 5 (bytes "t") (bytes "p") token_request []

abbrev empty_password : HttpRequest
empty_password = record token_request { authorization = []; basic_password = some [] }

-- without an admin password, the empty basic password is let through
empty_password_passes : (session_auth 5 [] (bytes "t") empty_password []).0 ≡ pass_on
unfolding session_auth check_cookie header_matches text_eq query_loop trim_space basic_matches
empty_password_passes = refl

abbrev two_events : List AuthEvent
two_events = checked 40 (bytes "x") ∷ cleaned 60 ∷ []

token_stays_valid_example :
    (validate_session_token 70
      (encode_hex (171 ∷ []))
      (react_all two_events (generate_session_token 30 (some (171 ∷ [])) []).1)).0
    ≡ true
token_stays_valid_example =
    token_stays_valid 30 70 (171 ∷ []) two_events [] (omega arith) (omega arith, (omega arith, tt))
