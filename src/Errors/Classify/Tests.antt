-- ===== src/Errors/Classify/Tests.antt =====
-- Runs of the classification (internal/errors/classify.go).
use inf_api.Common.{◌≡◌, ◌⊎◌, ◌++◌, refl, [], true}
use inf_api.Common.Text.{bytes, to_lower, contains, trim_space}
use inf_api.Errors.Classify.{
  contains_any, mentions, has_explicit_http_status, not_found_phrases, classify_account_status,
}
use inf_api.Errors.Classify.Wrapped.{classify-wrap}

unauthorized_401 : classify_account_status (bytes "HTTP 401") ≡ bytes "401"
unfolding classify_account_status contains_any contains to_lower mentions has_explicit_http_status
    trim_space
unauthorized_401 = refl

classify-wrap_example :
    (classify_account_status (bytes "send: " ++ bytes "HTTP 401" ++ bytes " (retry)") ≡ bytes "401")
    ⊎ ((contains_any
            (to_lower (bytes "send: " ++ bytes "HTTP 401" ++ bytes " (retry)"))
            not_found_phrases
          ≡ true)
        × (classify_account_status (bytes "send: " ++ bytes "HTTP 401" ++ bytes " (retry)") ≡ []))
classify-wrap_example =
    classify-wrap (bytes "send: ") (bytes "HTTP 401") (bytes " (retry)") unauthorized_401
