-- ===== src/Middleware/RateLimit/Tests.antt =====
-- Runs of the rate limiter as the logins use it (internal/middleware/ratelimit.go, and the call in
-- internal/api/api.go), and of the address that it takes from a request.
use inf_api.Common.Int.{pos, negsuc}
use inf_api.Common.{ℕ, ◌+◌, ◌-◌, ◌/◌, ◌*◌, ltb, leb, ◌≡◌, refl, none, List, [], ◌∷◌, dec_of}
use inf_api.Common.Map.{lookup, insert}
use inf_api.Common.Text.{Text, bytes, key_dec, text_eq, trim_space, trim_left, trim_right, is_space}
use inf_api.Common.Time.{minute}
use inf_api.Middleware.RateLimit.{
  Floats, new_rate_limiter, allow, allow_entry, process_existing_entry, replenish, cleanup_limiter,
  sweep_entries, outlived, extract_ip, forwarded_for, before_comma, has_comma,
}
use inf_api.Middleware.RateLimit.Burst.{Visit, attempt, swept, allowed}

-- Tokens in parts of a nanosecond's share of 15 minutes, which no operation of the logins rounds. A
-- token is 15 minutes of parts.
abbrev fixed_point : Floats ℕ
fixed_point = record {
  of_int = λ i. elim i [ pos n ↦ n * (15 * minute) | negsuc n ↦ 0 ];
  seconds = λ d. d;
  plus = λ a b. a + b;
  sub = λ a b. a - b;
  mul = λ a b. a * b;
  div = λ a b. a / b;
  above = λ a b. ltb b a;
  at_least = λ a b. leb b a;
}

abbrev client : Text
client = bytes "a"

abbrev logins : List Visit
logins =
    attempt client 0
    ∷ attempt client 0
    ∷ attempt (bytes "b") minute
    ∷ attempt client 0
    ∷ attempt client 0
    ∷ attempt client 0
    ∷ attempt client 0
    ∷ swept minute
    ∷ attempt client (2 * minute)
    ∷ []

-- five of the six attempts at once, and one more when three minutes have passed
allowed_at_login : allowed fixed_point client 1 logins (new_rate_limiter 5 (15 * minute)) ≡ 6
unfolding allowed allow allow_entry process_existing_entry replenish cleanup_limiter sweep_entries
    outlived lookup insert key_dec text_eq dec_of
allowed_at_login = refl

abbrev first_of_two : Text
first_of_two = extract_ip (λ t. none) (bytes "peer") (bytes " a , b") (bytes "c")

extract_first : first_of_two ≡ bytes "a"
unfolding extract_ip forwarded_for before_comma has_comma trim_space trim_left trim_right is_space
extract_first = refl

-- a header that starts with a comma names no address
abbrev of_blank : Text
of_blank = extract_ip (λ t. none) (bytes "peer") (bytes ", b") (bytes " c")

extract_blank : of_blank ≡ bytes "c"
unfolding extract_ip forwarded_for before_comma has_comma trim_space trim_left trim_right is_space
extract_blank = refl
