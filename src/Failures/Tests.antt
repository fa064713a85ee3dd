-- ===== src/Failures/Tests.antt =====
-- Runs of the classification of failures, and instances of its theorems.
use jove_mage.Prelude.{
  max, String, ◌≡◌, ◌⊎◌, refl, true, false, not, ◌||◌, none, some, List, [], ◌∷◌, contains, get,
  has, if◌then◌else◌, lower, strip, pos, Value, Items, Fields, Dict,
}
use jove_mage.Failures.{
  ImageFailure, failure_policies, failure_code_aliases, image_failure, known_code, canonical,
  normal_code, is_text_review_failure_code, verify_account,
}
use jove_mage.Failures.Table.{text_review_is_status_400}
use jove_mage.Failures.Codes.{
  structured_codes, normalized_codes, add_code, classify_structured_failure_codes, auth_codes,
  quota_codes, meets, failure_priority,
}
use jove_mage.Failures.Codes.Found.{names, structured_codes_lem}
use jove_mage.Failures.Codes.Worst.{worst_code_wins}
use jove_mage.Failures.Http.{UpstreamHttpError, CredentialScope, classify_upstream_http_error}
use jove_mage.Failures.Http.Boundary.{Agrees, http_boundary}
use jove_mage.Failures.Public.{public_image_error_message}
use jove_mage.Failures.Public.Safe.{Shown, public_message_is_readable}
use jove_mage.Failures.Read.{is_truthy}
use jove_mage.Failures.Messages.{merge_message_failure}
use jove_mage.Failures.Messages.Merge.{merged_is_worst}
use jove_mage.Failures.Conversation.{
  current_conversation_turn, classify_conversation_failure, any_image_output,
}
use jove_mage.Failures.Conversation.Turn.{severity, worst, turn_failure_is_worst}

abbrev one : String → Value → Fields
one key value = Fields.field key value Fields.end

text_review_is_status_400_example :
    is_text_review_failure_code "safety_blocked"
    ≡ not (verify_account (image_failure "safety_blocked" none Value.null))
text_review_is_status_400_example = text_review_is_status_400 "safety_blocked" none Value.null

-- An answer with a code two levels down.
abbrev answer : Value
answer = Value.dict (
    one "detail"
      (Value.list (Items.cons (Value.dict (one "code" (Value.str " Token_Revoked "))) Items.nil)))

finds_inner : structured_codes answer ≡ "token_revoked" ∷ []
unfolding structured_codes normal_code strip lower contains
finds_inner = refl

structured_codes_lem_example :
    contains "token_revoked" (structured_codes answer) ≡ names "token_revoked" answer
structured_codes_lem_example = (structured_codes_lem answer).1 "token_revoked"

abbrev two_codes : List String
two_codes = "rate_limited" ∷ "quota_exhausted" ∷ "token_revoked" ∷ []

has_auth :
    (meets (normalized_codes two_codes) auth_codes
      || meets (normalized_codes two_codes) quota_codes)
    ≡ true
unfolding meets normalized_codes add_code normal_code strip lower contains auth_codes
has_auth = refl

worst_code_wins_example :
    (f : ImageFailure) × (classify_structured_failure_codes two_codes none Value.null ≡ some f)
    × (((meets (normalized_codes two_codes) auth_codes ≡ true)
          × (f ≡ image_failure "auth_invalid" none Value.null))
        ⊎ ((meets (normalized_codes two_codes) auth_codes ≡ false)
            × ((f.code ≡ "auth_invalid")
                ⊎ (contains f.code ("image_quota_exhausted" ∷ "insufficient_quota" ∷ []) ≡ true))))
worst_code_wins_example = worst_code_wins two_codes none Value.null has_auth

abbrev refused : UpstreamHttpError
refused = record {
  context = "/backend-api/files/7/uploaded?x=1";
  status_code = 429;
  body = answer;
  retry_after = some (pos 3);
  credential_scope = CredentialScope.account;
}

upload_is_throttled : (classify_upstream_http_error refused).code ≡ "file_upload_throttled"
unfolding classify_upstream_http_error strip lower known_code canonical failure_code_aliases
    failure_policies get has
upload_is_throttled = refl

http_boundary_example : Agrees 429 (classify_upstream_http_error refused)
http_boundary_example = (http_boundary refused).0

abbrev quota_failure : ImageFailure
quota_failure = image_failure "quota_exhausted" none (Value.str "No credits left")

public_message_is_readable_example :
    Shown (λ text. false) (public_image_error_message (λ text. false) quota_failure Value.null)
public_message_is_readable_example =
    (public_message_is_readable (λ text. false) quota_failure Value.null).0

merged_is_worst_example :
    (f : ImageFailure) × (merge_message_failure
        (λ v. "")
        (λ text. false)
        (some quota_failure)
        (some (image_failure "auth_invalid" none Value.null))
      ≡ some f)
    × ((f.code ≡ quota_failure.code)
        ⊎ (f.code ≡ (image_failure "auth_invalid" none Value.null).code))
    × (failure_priority f.code
        ≡ max
            (failure_priority quota_failure.code)
            (failure_priority (image_failure "auth_invalid" none Value.null).code))
    × (is_truthy f.raw_detail ≡ (
        is_truthy quota_failure.raw_detail
        || is_truthy (image_failure "auth_invalid" none Value.null).raw_detail))
merged_is_worst_example =
    merged_is_worst (λ v. "") (λ text. false) quota_failure
      (image_failure "auth_invalid" none Value.null)

-- Two nodes that are each other's parents.
abbrev cycle : Dict Value
cycle =
    ("a", Value.dict (one "parent" (Value.str "b")))
    ∷ ("b", Value.dict (one "parent" (Value.str "a")))
    ∷ []

abbrev conversation : Value
conversation = Value.dict (
    Fields.field "current_node" (Value.str "m") (
      one "mapping" (
        Value.dict
          (one "m" (Value.dict (one "message" (Value.dict (one "blocked" (Value.bool true)))))))))

turn_failure_is_worst_example :
    severity
      (λ v. "")
      (λ text. false)
      (λ v. 0)
      (classify_conversation_failure (λ v. "") (λ text. false) (λ v. 0) conversation)
    ≡ (let turn = current_conversation_turn (λ v. "") (λ text. false) (λ v. 0) conversation in
        if any_image_output (λ v. "") (λ text. false) (λ v. 0) turn
        then 0
        else worst (λ v. "") (λ text. false) (λ v. 0) turn)
turn_failure_is_worst_example =
    turn_failure_is_worst (λ v. "") (λ text. false) (λ v. 0) conversation
