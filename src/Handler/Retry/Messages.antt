-- ===== src/Handler/Retry/Messages.antt =====
-- The texts that a failed request writes to its response (internal/handler/stream_handler.go).
use inf_api.Common.{Bool, true, false, ◌||◌, ◌++◌, if◌then◌else◌}
use inf_api.Common.Text.{Text, bytes, contains, to_lower, trim_space}
use inf_api.Errors.Classify.{classify_upstream_error, Category, rate_limit}
use inf_api.Handler.Stream.{StreamHandler}
use inf_api.Handler.Stream.Blocks.{inject_error_text}

-- the message of `InjectAuthError`
unfoldable pub auth_message : Text → Text
auth_message err =
    if contains err (bytes "401")
    then bytes
        "Authentication Error: Session expired (401). Please update your account credentials."
    else if contains err (bytes "403")
    then bytes
        "Access Forbidden (403): This account cannot use the requested AI feature right now. It may be unavailable for the current plan, quota, or Warp AI feature status."
    else bytes "Request Failed: " ++ (err ++ bytes ". Please check your account status.")

-- `InjectAuthError`
unfoldable pub inject_auth_error : Text → StreamHandler → StreamHandler
unfolding auth_message
inject_auth_error err h = inject_error_text (auth_message err) h

-- `InjectRetryExhaustedError`
unfoldable pub inject_retry_exhausted_error : Text → StreamHandler → StreamHandler
inject_retry_exhausted_error err h =
    inject_error_text (bytes "Request failed: retries exhausted. Last error: " ++ err) h

-- `InjectUpstreamError`
unfoldable pub inject_upstream_error : Text → StreamHandler → StreamHandler
inject_upstream_error err h = inject_error_text (bytes "Request failed: " ++ trim_space err) h

abbrev pub is_rate_limit : Category → Bool
is_rate_limit rate_limit = true
is_rate_limit _ = false

-- the message of `InjectNoAvailableAccountError`, for a selector's error
unfoldable pub no_account_message : Text → Text → Text
no_account_message last selector =
    let limited =
      is_rate_limit (classify_upstream_error last).category
      || contains (to_lower selector) (bytes "rate-limited") in
    let message =
      if limited
      then bytes
          "Request failed: all available accounts for this channel are currently rate-limited. Please wait for cooldown or add another valid account."
      else bytes
          "Request failed: retries exhausted and no available accounts. Please check account statuses in Admin UI or add valid accounts." in
    message
    ++ (bytes " (selector: " ++ (selector ++ (bytes ", last error: " ++ (last ++ bytes ")"))))

-- `InjectNoAvailableAccountError`
unfoldable pub inject_no_available_account_error : Text → Text → StreamHandler → StreamHandler
unfolding no_account_message
inject_no_available_account_error last selector h =
    inject_error_text (no_account_message last selector) h
