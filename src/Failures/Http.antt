-- ===== src/Failures/Http.antt =====
-- `classify_upstream_http_error`: the failure of an HTTP answer, and `classify_image_exception`.
pub mod Boundary
use text.Mathlib.Text.{starts_with}
use jove_mage.Prelude.{
  ℕ, String, Bool, true, false, not, ◌&&◌, ◌||◌, leb, ◌==◌, Option, none, some, List, [], ◌∷◌,
  str_eq, if◌then◌else◌, strip, lower, has, has_part, ends_with, before, rstrip_mark, ℤ, Value,
}
use jove_mage.Failures.{
  ImageFailure, failure_policies, failure_code_aliases, normal_code, image_failure,
}
use jove_mage.Failures.Codes.{structured_codes, classify_structured_failure_codes}

-- What the request was authorized by; an unknown value counts as the account.
pub data CredentialScope : Type 0 where
  account : CredentialScope
  signed_asset : CredentialScope
  open_asset : CredentialScope

unfoldable pub is_account : CredentialScope → Bool
is_account account = true
is_account signed_asset = false
is_account open_asset = false

unfoldable pub is_signed_asset : CredentialScope → Bool
is_signed_asset account = false
is_signed_asset signed_asset = true
is_signed_asset open_asset = false

-- UpstreamHTTPError
pub record UpstreamHttpError : Type 0 where
  pub context : String
  pub status_code : ℕ
  pub body : Value
  pub retry_after : Option ℤ
  pub credential_scope : CredentialScope

-- scope="delivery" if credential_scope == "signed_asset" else failure.scope
unfoldable pub with_scope : CredentialScope → ImageFailure → ImageFailure
unfolding is_signed_asset
with_scope scope f = record f { scope = if is_signed_asset scope then "delivery" else f.scope }

unfoldable pub with_status : ℕ → ImageFailure → ImageFailure
with_status status f = record f { status_code = status }

-- The failure that the codes of the body stand for.
unfoldable pub structured_failure : UpstreamHttpError → Option ImageFailure
unfolding structured_codes classify_structured_failure_codes
structured_failure e =
    classify_structured_failure_codes (structured_codes e.body) e.retry_after e.body

-- The code of a failure of a request that needs no account.
unfoldable pub asset_code : CredentialScope → String → ℕ → String
unfolding has_part is_signed_asset
asset_code scope context status =
    if is_signed_asset scope && has_part "download" context
    then "image_download_failed"
    else if status == 429
    then "upstream_rate_limited"
    else if status == 408 || status == 504
    then "upstream_connection_timeout"
    else if status == 403 || status == 423 || leb 500 status
    then "upstream_unavailable"
    else "upstream_error"

-- context.split("?", 1)[0].rstrip("/")
unfoldable pub path_of : String → String
unfolding before rstrip_mark
path_of context = rstrip_mark 47 (before 63 context)

unfoldable pub is_file_upload : String → Bool
unfolding ends_with
is_file_upload path =
    str_eq path "/backend-api/files"
    || str_eq path "image_upload"
    || (starts_with path "/backend-api/files/" && ends_with "/uploaded" path)

-- The status 400.
unfoldable pub classify_bad_request : UpstreamHttpError → Option ImageFailure → ImageFailure
unfolding with_scope image_failure is_account
classify_bad_request e structured =
    let f : ImageFailure = elim structured [
      | none ↦ image_failure "invalid_image_input" none e.body
      | some f ↦ if f.status_code == 400 then f else image_failure "invalid_image_input" none e.body
    ] in
    if is_account e.credential_scope then f else with_scope e.credential_scope f

-- The codes of the last lines, by the status alone.
unfoldable pub classify_by_status : UpstreamHttpError → ImageFailure
unfolding image_failure with_status
classify_by_status e =
    if e.status_code == 403 || e.status_code == 423
    then with_status e.status_code (image_failure "upstream_unavailable" e.retry_after e.body)
    else if e.status_code == 429
    then image_failure "upstream_rate_limited" e.retry_after e.body
    else if e.status_code == 408 || e.status_code == 504
    then image_failure "upstream_connection_timeout" e.retry_after e.body
    else if leb 500 e.status_code
    then with_status e.status_code (image_failure "upstream_unavailable" e.retry_after e.body)
    else with_status e.status_code (image_failure "upstream_error" e.retry_after e.body)

-- A request with the account's credentials, and a status that is not 400.
unfoldable pub classify_account_error :
    UpstreamHttpError → String → Option ImageFailure → ImageFailure
unfolding classify_by_status is_file_upload path_of image_failure
classify_account_error e context structured =
    if e.status_code == 401
    then image_failure "auth_invalid" e.retry_after e.body
    else if e.status_code == 429 && is_file_upload (path_of context)
    then image_failure "file_upload_throttled" e.retry_after e.body
    else elim structured [
      | none ↦ classify_by_status e
      | some f ↦ if f.status_code == e.status_code then f else classify_by_status e
    ]

-- `classify_upstream_http_error`
unfoldable pub classify_upstream_http_error : UpstreamHttpError → ImageFailure
unfolding classify_bad_request classify_account_error asset_code with_scope with_status
    image_failure normal_code structured_failure is_account
classify_upstream_http_error e =
    let context = normal_code e.context in
    if e.status_code == 400
    then classify_bad_request e (structured_failure e)
    else if not (is_account e.credential_scope)
    then with_scope e.credential_scope (
        with_status e.status_code (
          image_failure (asset_code e.credential_scope context e.status_code) e.retry_after e.body))
    else classify_account_error e context (structured_failure e)

-- The classes of exceptions that the code tells apart.
pub data Class : Type 0 where
  upstream_http : UpstreamHttpError → Class
  timeout : Class
  connection : Class
  other : Class

-- An exception: its `failure` and `code`, if it has them, its class and its text.
pub record Raised : Type 0 where
  pub failure : Option ImageFailure
  pub code : Option String
  pub class : Class
  pub text : String

-- code or getattr(exc, "code", None)
unfoldable pub structured_code : String → Option String → Option String
structured_code code own = if str_eq code "" then own else some code

unfoldable pub is_listed_code : Option String → Bool
unfolding normal_code failure_policies failure_code_aliases
is_listed_code none = false
is_listed_code (some code) =
    has failure_policies (normal_code code) || has failure_code_aliases (normal_code code)

-- Without a code that is listed or given.
unfoldable pub classify_class : Raised → ImageFailure
unfolding image_failure classify_upstream_http_error
classify_class exc = elim exc.class [
  | timeout ↦ image_failure "upstream_connection_timeout" none (Value.str exc.text)
  | connection ↦ image_failure "upstream_connection_failed" none (Value.str exc.text)
  | other ↦ image_failure "internal_error" none (Value.str exc.text)
  | upstream_http e ↦ classify_upstream_http_error e
]

unfoldable pub classify_unclassified : Raised → String → ImageFailure
unfolding structured_code is_listed_code image_failure classify_class
classify_unclassified exc code = elim exc.class [
  | upstream_http e ↦ classify_class exc
  | timeout ↦ by_code exc code
  | connection ↦ by_code exc code
  | other ↦ by_code exc code
]
  where
    by_code : Raised → String → ImageFailure
    by_code exc code = elim (structured_code code exc.code) [
      | none ↦ classify_class exc
      | some listed ↦
          if is_listed_code (some listed)
          then image_failure listed none (Value.str exc.text)
          else if not (str_eq code "")
          then image_failure code none (Value.str exc.text)
          else classify_class exc
    ]

-- `classify_image_exception`: the failure, and the exception that remembers it.
unfoldable pub classify_image_exception : Raised → String → ImageFailure × Raised
unfolding classify_unclassified
classify_image_exception exc code = elim exc.failure [
  | some f ↦ (f, exc)
  | none ↦ let f = classify_unclassified exc code in (f, record exc { failure = some f })
]
