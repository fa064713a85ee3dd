-- ===== src/Failures.antt =====
-- services/image_failure.py: what a failure of an image request is, by its code.
pub mod Table
pub mod Codes
pub mod Http
pub mod Public
pub mod Read
pub mod Messages
pub mod Conversation
mod Tests
use jove_mage.Prelude.{
  ℕ, String, Bool, true, false, ◌||◌, ◌==◌, Option, none, some, List, [], ◌∷◌, str_eq,
  if◌then◌else◌, strip, lower, Dict, get, has, contains, ℤ, Value,
}

pub record FailurePolicy : Type 0 where
  pub scope : String
  pub capability : Option String
  pub retryable : Bool
  pub status_code : ℕ
  pub error_type : String

abbrev pub policy : String → Option String → Bool → ℕ → String → FailurePolicy
policy scope capability retryable status_code error_type = record {
  scope = scope;
  capability = capability;
  retryable = retryable;
  status_code = status_code;
  error_type = error_type;
}

-- `raw_detail` is null where it is not given.
pub record ImageFailure : Type 0 where
  pub code : String
  pub scope : String
  pub capability : Option String
  pub retryable : Bool
  pub retry_after : Option ℤ
  pub status_code : ℕ
  pub error_type : String
  pub raw_detail : Value
  pub public_detail : String

-- FAILURE_POLICIES
unfoldable pub failure_policies : Dict FailurePolicy
failure_policies =
    ("upstream_error", policy "transient" none false 502 "server_error")
    ∷ ("internal_error", policy "internal" none false 500 "server_error")
    ∷ ("upstream_unavailable", policy "transient" none true 502 "server_error")
    ∷ ("upstream_connection_failed", policy "transient" none true 502 "server_error")
    ∷ ("upstream_connection_timeout", policy "transient" none true 504 "server_error")
    ∷ (
      "upstream_rate_limited",
      policy "transient" (some "image_generation") false 429 "rate_limit_error",
    )
    ∷ ("image_poll_timeout", policy "transient" (some "image_generation") false 502 "server_error")
    ∷ (
      "image_stream_timeout",
      policy "transient" (some "image_generation") false 502 "server_error",
    )
    ∷ (
      "image_stream_interrupted",
      policy "transient" (some "image_generation") false 502 "server_error",
    )
    ∷ ("image_tool_error", policy "account" (some "image_generation") false 502 "server_error")
    ∷ (
      "image_quota_exhausted",
      policy "account" (some "image_generation") false 429 "insufficient_quota",
    )
    ∷ ("file_upload_throttled", policy "account" (some "file_upload") true 429 "rate_limit_error")
    ∷ ("auth_invalid", policy "account" (some "auth") false 401 "authentication_error")
    ∷ ("content_policy_violation", policy "request" none false 400 "invalid_request_error")
    ∷ ("invalid_image_input", policy "request" none false 400 "invalid_request_error")
    ∷ ("upstream_text_reply", policy "request" none false 400 "invalid_request_error")
    ∷ ("no_image_generated", policy "request" none false 400 "invalid_request_error")
    ∷ ("unsupported_model", policy "request" none false 400 "invalid_request_error")
    ∷ ("image_download_failed", policy "delivery" none false 502 "server_error")
    ∷ ("task_interrupted", policy "request" none false 503 "server_error")
    ∷ ("no_available_account", policy "transient" none false 503 "server_error")
    ∷ (
      "insufficient_quota",
      policy "account" (some "image_generation") false 429 "insufficient_quota",
    )
    ∷ []

-- FAILURE_CODE_ALIASES
unfoldable pub failure_code_aliases : Dict String
failure_code_aliases =
    ("connection_failed", "upstream_connection_failed")
    ∷ ("connection_timeout", "upstream_connection_timeout")
    ∷ ("conversation_not_ready", "upstream_unavailable")
    ∷ ("image_stream_interrupted", "image_stream_interrupted")
    ∷ ("invalid_access_token", "auth_invalid")
    ∷ ("moderation_blocked", "content_policy_violation")
    ∷ ("quota_exhausted", "image_quota_exhausted")
    ∷ ("rate_limit_exceeded", "upstream_rate_limited")
    ∷ ("safety_blocked", "content_policy_violation")
    ∷ ("token_invalid", "auth_invalid")
    ∷ ("token_invalidated", "auth_invalid")
    ∷ ("token_revoked", "auth_invalid")
    ∷ ("unsupported_image_model", "unsupported_model")
    ∷ ("upstream_timeout", "image_poll_timeout")
    ∷ []

-- RATE_LIMIT_FAILURE_CODES
unfoldable pub rate_limit_failure_codes : List String
rate_limit_failure_codes =
    "429" ∷ "file_upload_throttled" ∷ "image_quota_exhausted" ∷ "insufficient_quota" ∷ "limited"
    ∷ "quota_exhausted" ∷ "rate_limit" ∷ "rate_limit_exceeded" ∷ "rate_limited"
    ∷ "upstream_rate_limited" ∷ "限流" ∷ []

unfoldable pub codes_with_status : ℕ → Dict FailurePolicy → List String
codes_with_status status [] = []
codes_with_status status ((code, p) ∷ policies) =
    let rest = codes_with_status status policies in
    if p.status_code == status then code ∷ rest else rest

-- TEXT_REVIEW_FAILURE_CODES
unfoldable pub text_review_failure_codes : List String
unfolding codes_with_status failure_policies
text_review_failure_codes = codes_with_status 400 failure_policies

-- FAILED_STATUSES
unfoldable pub failed_statuses : List String
failed_statuses = "error" ∷ "fail" ∷ "failed" ∷ "limited" ∷ "rate_limited" ∷ "限流" ∷ []

-- .strip().lower()
unfoldable pub normal_code : String → String
normal_code code = lower (strip code)

-- FAILURE_CODE_ALIASES.get(code, code)
unfoldable pub canonical : String → String
unfolding failure_code_aliases
canonical code = elim (get failure_code_aliases code) [ none ↦ code | some name ↦ name ]

-- value not in (None, "")
unfoldable pub is_given : Option String → Bool
is_given none = false
is_given (some text) = if str_eq text "" then false else true

unfoldable pub is_structured_failure :
    (status : String) (error error_code failure_code : Option String) → Bool
unfolding failed_statuses normal_code is_given
is_structured_failure status error error_code failure_code =
    contains (normal_code status) failed_statuses
    || is_given error
    || is_given error_code
    || is_given failure_code

unfoldable pub is_rate_limit_failure_code : String → Bool
unfolding rate_limit_failure_codes normal_code
is_rate_limit_failure_code value = contains (normal_code value) rate_limit_failure_codes

unfoldable pub is_text_review_failure_code : String → Bool
unfolding text_review_failure_codes canonical normal_code
is_text_review_failure_code value =
    contains (canonical (normal_code value)) text_review_failure_codes

-- The code as the table has it.
unfoldable pub known_code : String → String
unfolding failure_policies
known_code code = if has failure_policies code then code else "upstream_error"

unfoldable pub of_policy : String → FailurePolicy → Option ℤ → Value → ImageFailure
of_policy code p retry_after raw_detail = record {
  code = code;
  scope = p.scope;
  capability = p.capability;
  retryable = p.retryable;
  retry_after = retry_after;
  status_code = p.status_code;
  error_type = p.error_type;
  raw_detail = raw_detail;
  public_detail = "";
}

-- FAILURE_POLICIES[code], for a code of the table; the second clause is not met.
unfoldable pub policy_of : Option FailurePolicy → FailurePolicy
policy_of (some p) = p
policy_of none = policy "transient" none false 502 "server_error"

-- `image_failure`; the empty text stands for no code.
unfoldable pub image_failure : String → Option ℤ → Value → ImageFailure
unfolding known_code canonical normal_code of_policy policy_of failure_policies
image_failure code retry_after raw_detail =
    let name =
      known_code (canonical (normal_code (if str_eq code "" then "upstream_error" else code))) in
    of_policy name (policy_of (get failure_policies name)) retry_after raw_detail

-- `outcome`
unfoldable pub outcome : ImageFailure → String
outcome f = if f.status_code == 400 then "text" else "failure"

-- `verify_account`, and with it `account_failure` and `switch_account`.
unfoldable pub verify_account : ImageFailure → Bool
unfolding outcome
verify_account f = str_eq (outcome f) "failure"

unfoldable pub with_raw_detail : ImageFailure → Value → ImageFailure
with_raw_detail f raw_detail = record f { raw_detail = raw_detail }
