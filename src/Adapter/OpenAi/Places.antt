-- ===== src/Adapter/OpenAi/Places.antt =====
-- Where the markers stand in the JSON of the events (internal/handler/sse_frame.go and
-- internal/adapter/openai_sse.go). Strings are quoted; no byte of a number is a quote.
use inf_api.Common.{ℕ, ◌≡◌, ◌≢◌, ◌∙◌, refl, true, false, some, [], ◌++◌, arith, All}
use inf_api.Common.Text.{Text, bytes, has_prefix, contains}
use inf_api.Handler.Frame.Reader.{unquote, read}
use inf_api.Adapter.OpenAi.{behind_marker, extract_json_string_value_after}
use inf_api.Adapter.OpenAi.Scan.{behind_marker-unquoted, behind_marker-quoted, is_word-IsWord}
use inf_api.Adapter.OpenAi.Fast.{extract_found, contains_found, contains_missing}

-- the JSON of a delta and of the start of a block, behind the index
abbrev pub delta_json : (ℕ → Text) → ℕ → Text → Text
delta_json format_int i rest =
    bytes "{\"type\":\"content_block_delta\",\"index\":" ++ (format_int i ++ rest)

abbrev pub start_json : (ℕ → Text) → ℕ → Text → Text
start_json format_int i rest =
    bytes "{\"type\":\"content_block_start\",\"index\":" ++ (format_int i ++ rest)

abbrev pub text_field : Text → Text
text_field q = bytes ",\"delta\":{\"type\":\"text_delta\",\"text\":" ++ (q ++ bytes "}}")

abbrev pub thinking_field : Text → Text
thinking_field q =
    bytes ",\"delta\":{\"type\":\"thinking_delta\",\"thinking\":" ++ (q ++ bytes "}}")

abbrev pub input_field : Text → Text
input_field q =
    bytes ",\"delta\":{\"type\":\"input_json_delta\",\"partial_json\":" ++ (q ++ bytes "}}")

abbrev pub tool_field : Text → Text → Text
tool_field q r =
    bytes ",\"content_block\":{\"type\":\"tool_use\",\"id\":"
    ++ (q ++ (bytes ",\"name\":" ++ (r ++ bytes ",\"input\":{}}}")))

abbrev pub signature_field : Text → Text
signature_field q =
    bytes ",\"content_block\":{\"type\":\"thinking\",\"thinking\":\"\",\"signature\":"
    ++ (q ++ bytes "}}")

abbrev pub empty_text_field : Text
empty_text_field = bytes ",\"content_block\":{\"type\":\"text\",\"text\":\"\"}}"

abbrev pub message_json : Text → Text → Text → Text
message_json q r rest =
    bytes "{\"type\":\"message_start\",\"message\":{\"id\":"
    ++ (q
        ++ (bytes ",\"type\":\"message\",\"role\":\"assistant\",\"content\":[],\"model\":"
            ++ (r ++ rest)))

abbrev pub reason_json : Text → Text → Text
reason_json q rest = bytes "{\"type\":\"message_delta\",\"delta\":{\"stop_reason\":" ++ (q ++ rest)

module _ (format_int : ℕ → Text) (numbers : (n : ℕ) → All (λ c. c ≢ 34) (format_int n)) (i : ℕ)
    (q v : Text) (string : unquote q ≡ some v) where
  pub text-kind :
      contains (delta_json format_int i (text_field q)) (bytes "\"type\":\"text_delta\"") ≡ true
  unfolding behind_marker has_prefix
  text-kind = contains_found _ _ _ (behind_marker-unquoted (format_int i) _ _ (numbers i))

  pub text-string :
      extract_json_string_value_after (delta_json format_int i (text_field q)) (bytes "\"text\":")
      ≡ some q
  unfolding behind_marker has_prefix
  text-string =
      extract_found _ _ q _ _ (behind_marker-unquoted (format_int i) _ _ (numbers i)) string

  pub input-no_text :
      contains (delta_json format_int i (input_field q)) (bytes "\"type\":\"text_delta\"") ≡ false
  unfolding behind_marker has_prefix
  input-no_text = contains_missing _ _ (
      behind_marker-unquoted (format_int i) _ _ (numbers i)
      ∙ behind_marker-quoted 116 (bytes "ype") (bytes "\"text_delta\"")
          (is_word-IsWord (bytes "type") refl) q _ _ 125 string (λ x. omega (arith, x))
          (λ x. omega (arith, x)))

  pub input-kind :
      contains (delta_json format_int i (input_field q)) (bytes "\"type\":\"input_json_delta\"")
      ≡ true
  unfolding behind_marker has_prefix
  input-kind = contains_found _ _ _ (behind_marker-unquoted (format_int i) _ _ (numbers i))

  pub input-string :
      extract_json_string_value_after
        (delta_json format_int i (input_field q))
        (bytes "\"partial_json\":")
      ≡ some q
  unfolding behind_marker has_prefix
  input-string =
      extract_found _ _ q _ _ (behind_marker-unquoted (format_int i) _ _ (numbers i)) string

  pub thinking-no_text :
      contains (delta_json format_int i (thinking_field q)) (bytes "\"type\":\"text_delta\"")
      ≡ false
  unfolding behind_marker has_prefix
  thinking-no_text = contains_missing _ _ (
      behind_marker-unquoted (format_int i) _ _ (numbers i)
      ∙ behind_marker-quoted 116 (bytes "ype") (bytes "\"text_delta\"")
          (is_word-IsWord (bytes "type") refl) q _ _ 125 string (λ x. omega (arith, x))
          (λ x. omega (arith, x)))

  pub thinking-no_input :
      contains (delta_json format_int i (thinking_field q)) (bytes "\"type\":\"input_json_delta\"")
      ≡ false
  unfolding behind_marker has_prefix
  thinking-no_input = contains_missing _ _ (
      behind_marker-unquoted (format_int i) _ _ (numbers i)
      ∙ behind_marker-quoted 116 (bytes "ype") (bytes "\"input_json_delta\"")
          (is_word-IsWord (bytes "type") refl) q _ _ 125 string (λ x. omega (arith, x))
          (λ x. omega (arith, x)))

  pub thinking-kind :
      contains (delta_json format_int i (thinking_field q)) (bytes "\"type\":\"thinking_delta\"")
      ≡ true
  unfolding behind_marker has_prefix
  thinking-kind = contains_found _ _ _ (behind_marker-unquoted (format_int i) _ _ (numbers i))

  pub thinking-string :
      extract_json_string_value_after
        (delta_json format_int i (thinking_field q))
        (bytes "\"thinking\":")
      ≡ some q
  unfolding behind_marker has_prefix
  thinking-string =
      extract_found _ _ q _ _ (behind_marker-unquoted (format_int i) _ _ (numbers i)) string

  pub signature-no_tool :
      contains (start_json format_int i (signature_field q)) (bytes "\"type\":\"tool_use\"") ≡ false
  unfolding behind_marker has_prefix
  signature-no_tool = contains_missing _ _ (
      behind_marker-unquoted (format_int i) _ _ (numbers i)
      ∙ behind_marker-quoted 116 (bytes "ype") (bytes "\"tool_use\"")
          (is_word-IsWord (bytes "type") refl) q _ _ 125 string (λ x. omega (arith, x))
          (λ x. omega (arith, x)))

  pub signature-no_text :
      contains (start_json format_int i (signature_field q)) (bytes "\"type\":\"text\"") ≡ false
  unfolding behind_marker has_prefix
  signature-no_text = contains_missing _ _ (
      behind_marker-unquoted (format_int i) _ _ (numbers i)
      ∙ behind_marker-quoted 116 (bytes "ype") (bytes "\"text\"")
          (is_word-IsWord (bytes "type") refl) q _ _ 125 string (λ x. omega (arith, x))
          (λ x. omega (arith, x)))

  pub tool-id :
      (r : Text)
      → extract_json_string_value_after (start_json format_int i (tool_field q r)) (bytes "\"id\":")
        ≡ some q
  unfolding behind_marker has_prefix
  tool-id r = extract_found _ _ q _ _ (behind_marker-unquoted (format_int i) _ _ (numbers i)) string

  pub reason-string :
      (rest : Text)
      → extract_json_string_value_after (reason_json q rest) (bytes "\"stop_reason\":") ≡ some q
  unfolding behind_marker has_prefix
  reason-string rest = extract_found _ _ q rest v refl string

  module _ (r u : Text) (string2 : unquote r ≡ some u) where
    pub tool-kind :
        contains (start_json format_int i (tool_field q r)) (bytes "\"type\":\"tool_use\"") ≡ true
    unfolding behind_marker has_prefix
    tool-kind = contains_found _ _ _ (behind_marker-unquoted (format_int i) _ _ (numbers i))

    pub tool-name :
        extract_json_string_value_after
          (start_json format_int i (tool_field q r))
          (bytes "\"name\":")
        ≡ some r
    unfolding behind_marker has_prefix
    tool-name =
        extract_found _ _ r _ u
          (behind_marker-unquoted (format_int i) _ _ (numbers i)
            ∙ behind_marker-quoted 110 (bytes "ame") (bytes "") (is_word-IsWord (bytes "name") refl)
                q _ _ 44 string (λ x. omega (arith, x)) (λ x. omega (arith, x)))
          string2

    pub message-model :
        (rest : Text)
        → extract_json_string_value_after (message_json q r rest) (bytes "\"model\":") ≡ some r
    unfolding behind_marker has_prefix
    message-model rest =
        extract_found _ _ r rest u
          (behind_marker-quoted 109 (bytes "odel") (bytes "") (is_word-IsWord (bytes "model") refl)
            q _ _ 44 string (λ x. omega (arith, x)) (λ x. omega (arith, x)))
          string2

module _ (format_int : ℕ → Text) (numbers : (n : ℕ) → All (λ c. c ≢ 34) (format_int n))
    (i : ℕ) where
  pub empty_text-no_tool :
      contains (start_json format_int i empty_text_field) (bytes "\"type\":\"tool_use\"") ≡ false
  unfolding behind_marker has_prefix
  empty_text-no_tool = contains_missing _ _ (behind_marker-unquoted (format_int i) _ _ (numbers i))

  pub empty_text-string :
      extract_json_string_value_after (start_json format_int i empty_text_field) (bytes "\"text\":")
      ≡ some (bytes "\"\"")
  unfolding behind_marker has_prefix unquote read
  empty_text-string =
      extract_found _ _ (bytes "\"\"") _ [] (behind_marker-unquoted (format_int i) _ _ (numbers i))
        refl
