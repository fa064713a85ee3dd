-- ===== src/Failures/Codes.antt =====
-- The codes in a structured answer, and the failure that they stand for. A set of codes is a list.
pub mod Found
pub mod Worst
use Prim.Native.String.{compare}
use text.Mathlib.Text.{is_lt}
use jove_mage.Prelude.{
  ℕ, zero, suc, ◌+◌, String, Bool, true, false, not, ◌&&◌, ◌||◌, leb, ltb, ◌==◌, Option, none, some,
  List, [], ◌∷◌, ◌++◌, str_eq, if◌then◌else◌, strip, has, contains, ℤ, Value, Items, Fields,
}
use jove_mage.Failures.{
  ImageFailure, failure_policies, text_review_failure_codes, normal_code, canonical,
  is_rate_limit_failure_code, image_failure,
}

-- codes.add(code)
unfoldable pub add_code : String → List String → List String
add_code code codes = if contains code codes then codes else code ∷ codes

unfoldable pub code_keys : List String
code_keys = "code" ∷ "error_code" ∷ "failure_code" ∷ "type" ∷ "error" ∷ []

-- current.get(key), null where it is missing.
unfoldable pub field_of : Fields → String → Value
field_of Fields.end key = Value.null
field_of (Fields.field k v fs) key = let rest = field_of fs key in if str_eq k key then v else rest

-- if isinstance(candidate, str) and candidate.strip(): codes.add(candidate.strip().lower())
unfoldable pub add_candidate : Value → List String → List String
unfolding add_code normal_code
add_candidate (Value.str s) codes =
    if str_eq (strip s) "" then codes else add_code (normal_code s) codes
add_candidate Value.null codes = codes
add_candidate (Value.bool b) codes = codes
add_candidate (Value.int n) codes = codes
add_candidate (Value.float m e) codes = codes
add_candidate (Value.list xs) codes = codes
add_candidate (Value.dict fs) codes = codes

-- The codes of one mapping.
unfoldable pub add_named : List String → Fields → List String → List String
unfolding field_of add_candidate
add_named [] fs codes = codes
add_named (key ∷ keys) fs codes = add_named keys fs (add_candidate (field_of fs key) codes)

unfoldable pub is_container : Value → Bool
is_container (Value.list xs) = true
is_container (Value.dict fs) = true
is_container Value.null = false
is_container (Value.bool b) = false
is_container (Value.int n) = false
is_container (Value.float m e) = false
is_container (Value.str s) = false

-- pending.extend(...), with the last value of `pending`, which is popped first, at the head.
unfoldable pub push_fields : Fields → List Value → List Value
unfolding is_container
push_fields Fields.end pending = pending
push_fields (Fields.field k v fs) pending =
    push_fields fs (if is_container v then v ∷ pending else pending)

unfoldable pub push_items : Items → List Value → List Value
push_items Items.nil pending = pending
push_items (Items.cons x xs) pending = push_items xs (x ∷ pending)

-- What a value leaves to visit, and the codes after it.
unfoldable pub expand : Value → List Value → List Value
unfolding push_fields push_items
expand (Value.dict fs) pending = push_fields fs pending
expand (Value.list xs) pending = push_items xs pending
expand Value.null pending = pending
expand (Value.bool b) pending = pending
expand (Value.int n) pending = pending
expand (Value.float m e) pending = pending
expand (Value.str s) pending = pending

unfoldable pub own_codes : Value → List String → List String
unfolding add_named code_keys
own_codes (Value.dict fs) codes = add_named code_keys fs codes
own_codes (Value.list xs) codes = codes
own_codes Value.null codes = codes
own_codes (Value.bool b) codes = codes
own_codes (Value.int n) codes = codes
own_codes (Value.float m e) codes = codes
own_codes (Value.str s) codes = codes

-- The loop; `none` where the fuel is out.
unfoldable pub visit_pending : ℕ → List Value → List String → Option (List String)
unfolding expand own_codes
visit_pending fuel [] codes = some codes
visit_pending zero (v ∷ pending) codes = none
visit_pending (suc fuel) (v ∷ pending) codes =
    visit_pending fuel (expand v pending) (own_codes v codes)

-- How many values there are.
unfoldable mutual
  pub count_values : Value → ℕ
  count_values Value.null = 1
  count_values (Value.bool b) = 1
  count_values (Value.int n) = 1
  count_values (Value.float m e) = 1
  count_values (Value.str s) = 1
  count_values (Value.list xs) = suc (count_items xs)
  count_values (Value.dict fs) = suc (count_fields fs)

  pub count_items : Items → ℕ
  count_items Items.nil = 0
  count_items (Items.cons x xs) = count_values x + count_items xs

  pub count_fields : Fields → ℕ
  count_fields Fields.end = 0
  count_fields (Fields.field k x fs) = count_values x + count_fields fs

-- `_structured_codes`; the fuel is enough.
unfoldable pub structured_codes : Value → List String
unfolding visit_pending count_values
structured_codes v = elim (visit_pending (count_values v) (v ∷ []) []) [
  | none ↦ []
  | some codes ↦ codes
]

-- QUOTA_CODES, AUTH_CODES, POLICY_CODES
unfoldable pub quota_codes : List String
quota_codes = "insufficient_quota" ∷ "quota_exhausted" ∷ "image_quota_exhausted" ∷ []

unfoldable pub auth_codes : List String
auth_codes = "invalid_access_token" ∷ "token_invalid" ∷ "token_invalidated" ∷ "token_revoked" ∷ []

unfoldable pub policy_codes : List String
policy_codes = "content_policy_violation" ∷ "moderation_blocked" ∷ "safety_blocked" ∷ []

-- The rank of a canonical code.
unfoldable pub rank : String → ℕ
unfolding text_review_failure_codes
rank code =
    if str_eq code "auth_invalid"
    then 8
    else if contains code ("image_quota_exhausted" ∷ "insufficient_quota" ∷ [])
    then 7
    else if contains code ("file_upload_throttled" ∷ "upstream_rate_limited" ∷ [])
    then 6
    else if str_eq code "image_download_failed"
    then 5
    else if contains code text_review_failure_codes && not (str_eq code "upstream_text_reply")
    then 4
    else if str_eq code "image_tool_error"
    then 3
    else if str_eq code "upstream_text_reply"
    then 2
    else if contains code (
        "image_poll_timeout" ∷ "image_stream_interrupted" ∷ "image_stream_timeout"
        ∷ "task_interrupted" ∷ "upstream_connection_failed" ∷ "upstream_connection_timeout"
        ∷ "upstream_unavailable" ∷ [])
    then 1
    else 0

-- `_failure_priority`
unfoldable pub failure_priority : String → ℕ
unfolding rank canonical normal_code
failure_priority code = rank (canonical (normal_code code))

-- `image_failure_priority`
unfoldable pub image_failure_priority : ImageFailure → ℕ
unfolding failure_priority
image_failure_priority f = failure_priority f.code

-- The codes that are not empty, normalized.
unfoldable pub normalized_codes : List String → List String
unfolding add_code normal_code
normalized_codes [] = []
normalized_codes (code ∷ codes) =
    let rest = normalized_codes codes in
    if str_eq (strip code) "" then rest else add_code (normal_code code) rest

unfoldable pub meets : List String → List String → Bool
meets [] set = false
meets (code ∷ codes) set = contains code set || meets codes set

unfoldable pub any_rate_limit : List String → Bool
unfolding is_rate_limit_failure_code
any_rate_limit [] = false
any_rate_limit (code ∷ codes) = is_rate_limit_failure_code code || any_rate_limit codes

-- The codes that the last set names.
unfoldable pub tabled : List String → List String
unfolding canonical failure_policies quota_codes auth_codes policy_codes
tabled [] = []
tabled (code ∷ codes) =
    let rest = tabled codes in
    if not (contains code policy_codes || contains code auth_codes || contains code quota_codes)
      && has failure_policies (canonical code)
    then canonical code ∷ rest
    else rest

unfoldable pub only_if : Bool → String → List String
only_if b code = if b then code ∷ [] else []

-- known_codes
unfoldable pub known_codes : List String → List String
unfolding only_if meets tabled any_rate_limit quota_codes auth_codes policy_codes
known_codes codes =
    only_if (meets codes policy_codes) "content_policy_violation"
    ++ only_if (meets codes auth_codes) "auth_invalid"
    ++ only_if (meets codes quota_codes) "image_quota_exhausted"
    ++ tabled codes
    ++ only_if (any_rate_limit codes) "upstream_rate_limited"

-- (priority, code) is greater.
unfoldable pub outranks : String → String → Bool
unfolding failure_priority
outranks a b =
    ltb (failure_priority b) (failure_priority a)
    || (failure_priority b == failure_priority a && is_lt (compare b a))

-- max(..., key=...), from the first on.
unfoldable pub highest : String → List String → String
unfolding outranks
highest best [] = best
highest best (code ∷ codes) = highest (if outranks code best then code else best) codes

-- `_classify_structured_failure_codes`
unfoldable pub classify_structured_failure_codes :
    List String → Option ℤ → Value → Option ImageFailure
unfolding known_codes normalized_codes highest image_failure
classify_structured_failure_codes codes retry_after raw_detail =
    elim (known_codes (normalized_codes codes)) [
      | [] ↦ none
      | first ∷ rest ↦ some (image_failure (highest first rest) retry_after raw_detail)
    ]
