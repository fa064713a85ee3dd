-- ===== src/Failures/Public.antt =====
-- The text of a failure that a client is shown. `parses` says whether `json.loads` reads a text.
pub mod Safe
use text.Mathlib.Text.{starts_with}
use jove_mage.Prelude.{
  ℕ, zero, suc, ◌-◌, String, Bool, true, false, not, ◌&&◌, ◌||◌, Option, none, some, List, [], ◌∷◌,
  str_eq, if◌then◌else◌, strip, lstrip, lower, cut, has, contains, ends_with, Value, Items, Fields,
}
use jove_mage.Failures.{
  ImageFailure, failure_policies, failure_code_aliases, rate_limit_failure_codes, failed_statuses,
  normal_code,
}
use jove_mage.Failures.Codes.{field_of}

abbrev pub timeout_public_message : String
timeout_public_message = "Image generation timed out. Please try again."

abbrev pub tool_error_public_message : String
tool_error_public_message = "The image generation tool encountered an error. Please try again."

abbrev pub quota_public_message : String
quota_public_message = "No image generation quota is currently available."

-- _PUBLIC_RAW_DETAIL_CODES
unfoldable pub public_raw_detail_codes : List String
public_raw_detail_codes =
    "content_policy_violation" ∷ "image_quota_exhausted" ∷ "invalid_image_input"
    ∷ "no_image_generated" ∷ "upstream_rate_limited" ∷ "upstream_text_reply" ∷ "unsupported_model"
    ∷ []

-- len(text), in characters.
unfoldable pub text_length : String → ℕ
text_length String.[] = 0
text_length (String.◌∷◌ c text) = suc (text_length text)

-- text[n:]
unfoldable pub skip : ℕ → String → String
skip zero text = text
skip (suc n) String.[] = ""
skip (suc n) (String.◌∷◌ c text) = skip n text

-- text[3:-3], for a text of three characters or more.
unfoldable pub without_fences : String → String
unfolding cut text_length skip
without_fences text = skip 3 (cut (text_length text - 3) text)

unfoldable pub without_language : String → String
unfolding skip lstrip lower
without_language text = if starts_with (lower text) "json" then lstrip (skip 4 text) else text

-- What is read as JSON.
unfoldable pub payload_of : String → String
unfolding without_fences without_language strip ends_with
payload_of text =
    let candidate = strip text in
    if starts_with candidate "```" && ends_with "```" candidate
    then without_language (strip (without_fences candidate))
    else candidate

-- `_is_structured_failure_code`
unfoldable pub is_structured_failure_code : String → Bool
unfolding normal_code failure_policies failure_code_aliases rate_limit_failure_codes failed_statuses
is_structured_failure_code text =
    has failure_policies (normal_code text)
    || has failure_code_aliases (normal_code text)
    || contains (normal_code text) rate_limit_failure_codes
    || contains (normal_code text) failed_statuses

-- The first of two texts that is not empty.
unfoldable pub first_text : String → String → String
first_text a b = if str_eq a "" then b else a

module _ (parses : String → Bool) where
  -- `_is_structured_text_payload`
  unfoldable pub is_structured_text_payload : String → Bool
  unfolding payload_of
  is_structured_text_payload text = parses (payload_of text)

  -- `_safe_public_text`, of a text.
  unfoldable pub safe_string : String → String
  unfolding is_structured_text_payload is_structured_failure_code strip
  safe_string s =
      let text = strip s in
      if is_structured_text_payload text || is_structured_failure_code text then "" else text

  -- error if isinstance(error, str)
  unfoldable pub error_text : Value → String
  unfolding safe_string
  error_text (Value.str s) = safe_string s
  error_text Value.null = ""
  error_text (Value.bool b) = ""
  error_text (Value.int n) = ""
  error_text (Value.float m e) = ""
  error_text (Value.list xs) = ""
  error_text (Value.dict fs) = ""

  -- `_safe_public_text`
  unfoldable mutual
    unfolding safe_string first_text error_text field_of

    pub safe_public_text : Value → String
    safe_public_text (Value.str s) = safe_string s
    safe_public_text (Value.dict fs) = first_text (error_message fs) (
        first_text (text_at "message" fs) (
          first_text (text_at "detail" fs)
            (first_text (text_at "error_description" fs) (error_text (field_of fs "error")))))
    safe_public_text Value.null = ""
    safe_public_text (Value.bool b) = ""
    safe_public_text (Value.int n) = ""
    safe_public_text (Value.float m e) = ""
    safe_public_text (Value.list xs) = ""

    -- _safe_public_text(value.get(key))
    pub text_at : String → Fields → String
    text_at key Fields.end = ""
    text_at key (Fields.field k v fs) =
        let rest = text_at key fs in
        let here = safe_public_text v in if str_eq k key then here else rest

    -- _safe_public_text(error.get("message")), where the error is a mapping.
    pub error_message : Fields → String
    error_message Fields.end = ""
    error_message (Fields.field k v fs) =
        let rest = error_message fs in
        let here = message_of v in if str_eq k "error" then here else rest

    pub message_of : Value → String
    message_of (Value.dict fs) = text_at "message" fs
    message_of Value.null = ""
    message_of (Value.bool b) = ""
    message_of (Value.int n) = ""
    message_of (Value.float m e) = ""
    message_of (Value.str s) = ""
    message_of (Value.list xs) = ""

  -- `with_public_detail`
  unfoldable pub with_public_detail : ImageFailure → Value → ImageFailure
  unfolding safe_public_text
  with_public_detail f public_detail = record f { public_detail = safe_public_text public_detail }

  -- `_public_upstream_text`; `raw_upstream_message` is the error's, null without an error.
  unfoldable pub public_upstream_text : ImageFailure → Value → String
  unfolding safe_public_text first_text public_raw_detail_codes
  public_upstream_text f raw_upstream_message =
      first_text (safe_public_text (Value.str f.public_detail)) (
        first_text (safe_public_text raw_upstream_message)
          (if contains f.code public_raw_detail_codes then safe_public_text f.raw_detail else ""))

  -- `public_image_error_message`
  unfoldable pub public_image_error_message : ImageFailure → Value → String
  unfolding public_upstream_text
  public_image_error_message f raw_upstream_message =
      let text = public_upstream_text f raw_upstream_message in
      if str_eq f.code "image_poll_timeout"
      then timeout_public_message
      else if contains f.code ("image_stream_interrupted" ∷ "image_stream_timeout" ∷ [])
      then tool_error_public_message
      else if not (str_eq text "")
      then text
      else if contains f.code
          ("image_tool_error" ∷ "image_stream_interrupted" ∷ "image_stream_timeout" ∷ [])
      then tool_error_public_message
      else if contains f.code ("image_quota_exhausted" ∷ "insufficient_quota" ∷ [])
      then quota_public_message
      else tool_error_public_message
