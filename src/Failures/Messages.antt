-- ===== src/Failures/Messages.antt =====
-- The failures that upstream messages stand for. `show` is Python's `str` of a value that is not a
-- text, and `parses` says whether `json.loads` reads a text.
pub mod Merge
use Prim.Native.String.{◌++◌ as text_append}
use text.Mathlib.Text.{starts_with}
use jove_mage.Prelude.{
  ℕ, zero, String, Bool, true, false, not, ◌&&◌, ◌||◌, ltb, ◌==◌, Option, none, some, List, [], ◌∷◌,
  ◌++◌, str_eq, if◌then◌else◌, strip, contains, ℤ, pos, negsuc, Value, Items, Fields,
}
use jove_mage.Failures.{
  ImageFailure, failed_statuses, normal_code, canonical, is_rate_limit_failure_code, image_failure,
  with_raw_detail,
}
use jove_mage.Failures.Codes.{
  field_of, structured_codes, failure_priority, classify_structured_failure_codes,
}
use jove_mage.Failures.Public.{with_public_detail}
use jove_mage.Failures.Read.{
  is_truthy, or_value, is_true, mapping, is_mapping, message_of_value, join_parts, parts_text,
  is_pointer, has_pointer, items_point, fields_point, text_of, code_at, message_text,
  message_has_image_output,
}

-- TERMINAL_MESSAGE_STATUSES
unfoldable pub terminal_message_statuses : List String
terminal_message_statuses =
    "complete" ∷ "completed" ∷ "done" ∷ "finished" ∷ "finished_successfully"
    ∷ "finished_partial_completion" ∷ "success" ∷ "succeeded" ∷ []

-- `is_terminal_message_status`, of a text.
unfoldable pub is_terminal_message_status : String → Bool
unfolding terminal_message_statuses normal_code
is_terminal_message_status status = contains (normal_code status) terminal_message_statuses

-- The arguments of `classify_message_facts` that it reads.
pub record MessageFacts : Type 0 where
  pub role : String
  pub content_type : String
  pub status : String
  pub end_turn : Bool
  pub is_error : Bool
  pub blocked : Bool
  pub has_image_output : Bool
  pub has_text : Bool
  pub codes : List String
  pub raw_detail : Value

-- `merge_message_failure`, of two failures: the winner, completed by the other.
unfoldable pub complete_by :
    ImageFailure → ImageFailure → (ImageFailure → Value → ImageFailure) → ImageFailure
unfolding is_truthy with_raw_detail
complete_by winner other with_public =
    let w =
      if not (is_truthy winner.raw_detail) && is_truthy other.raw_detail
      then with_raw_detail winner other.raw_detail
      else winner in
    if str_eq winner.public_detail "" && not (str_eq other.public_detail "")
    then with_public w (Value.str other.public_detail)
    else w

module _ (show : Value → String) (parses : String → Bool) where
  -- The part of `classify_message_facts` without known codes.
  unfoldable pub classify_uncoded : MessageFacts → Option ImageFailure
  unfolding normal_code is_terminal_message_status image_failure with_public_detail
      is_rate_limit_failure_code failed_statuses
  classify_uncoded f =
      let role = normal_code f.role in
      let content_type = normal_code f.content_type in
      let status = normal_code f.status in
      if str_eq role "assistant"
        && str_eq content_type "text"
        && (f.end_turn || is_terminal_message_status status)
        && f.has_text
      then some (
          with_public_detail parses (image_failure "upstream_text_reply" none f.raw_detail)
            f.raw_detail)
      else if str_eq role "tool" && str_eq content_type "system_error"
      then some (image_failure "image_tool_error" none f.raw_detail)
      else if f.is_error || contains status failed_statuses
      then some (
          image_failure
            (if is_rate_limit_failure_code status
              then "upstream_rate_limited"
              else "upstream_error")
            none f.raw_detail)
      else none

  -- `classify_message_facts`
  unfoldable pub classify_message_facts : MessageFacts → Option ImageFailure
  unfolding classify_uncoded classify_structured_failure_codes
  classify_message_facts f =
      if f.has_image_output
      then none
      else if f.blocked
      then some (image_failure "content_policy_violation" none f.raw_detail)
      else elim (classify_structured_failure_codes (f.codes ++ (normal_code f.status ∷ [])) none
          f.raw_detail) [ some failure ↦ some failure | none ↦ classify_uncoded f ]

  -- The facts of a message; `outer` is the value that holds it.
  unfoldable pub facts_of : Value → MessageFacts
  unfolding mapping message_of_value code_at structured_codes message_text is_true is_truthy
      message_has_image_output or_value
  facts_of value =
      let outer = mapping value in
      let message = message_of_value value in
      let metadata = mapping (field_of message "metadata") in
      let text = message_text show parses message in
      record {
        role = code_at show parses (mapping (field_of message "author")) "role";
        content_type = code_at show parses (mapping (field_of message "content")) "content_type";
        status = normal_code (
            text_of show parses
              (or_value (field_of message "status") (field_of metadata "status")));
        end_turn = is_true (field_of message "end_turn");
        is_error =
            is_true (field_of message "is_error")
            || is_true (field_of metadata "is_error")
            || is_truthy (field_of message "error")
            || is_truthy (field_of metadata "error");
        blocked =
            is_true (field_of message "blocked")
            || is_true (field_of metadata "blocked")
            || (is_moderation (field_of outer "type")
                && is_true (field_of (mapping (field_of outer "moderation_response")) "blocked"));
        has_image_output = message_has_image_output show parses message;
        has_text = not (str_eq text "");
        codes = structured_codes (Value.dict message);
        raw_detail = if str_eq text "" then value else Value.str text;
      }
    where
      is_moderation : Value → Bool
      is_moderation (Value.str s) = str_eq s "moderation"
      is_moderation Value.null = false
      is_moderation (Value.bool b) = false
      is_moderation (Value.int n) = false
      is_moderation (Value.float m e) = false
      is_moderation (Value.list xs) = false
      is_moderation (Value.dict fs) = false

  -- The events of a response that has failed or is incomplete.
  unfoldable pub classify_response_event : Bool → Value → ImageFailure
  unfolding structured_codes classify_structured_failure_codes image_failure with_public_detail
      or_value mapping
  classify_response_event has_failed value =
      let outer = mapping value in
      let raw = Value.dict outer in
      let f : ImageFailure =
        elim (classify_structured_failure_codes (structured_codes raw) none raw) [
          | some f ↦ f
          | none ↦ image_failure "image_tool_error" none raw
        ] in
      if has_failed
      then with_public_detail parses f (
          or_value (field_of (mapping (field_of outer "response")) "error")
            (field_of outer "error"))
      else f

  -- `classify_upstream_message`
  unfoldable pub classify_upstream_message : Value → Option ImageFailure
  unfolding classify_response_event facts_of classify_message_facts code_at
  classify_upstream_message value =
      let event_type = code_at show parses (mapping value) "type" in
      if str_eq event_type "response.failed" || str_eq event_type "response.incomplete"
      then some (classify_response_event (str_eq event_type "response.failed") value)
      else classify_message_facts (facts_of value)

  -- Whether the candidate takes the place of the current failure.
  unfoldable pub takes_over : ImageFailure → ImageFailure → Bool
  unfolding failure_priority
  takes_over candidate current =
      str_eq candidate.code current.code
      || ltb (failure_priority current.code) (failure_priority candidate.code)

  -- `merge_message_failure`
  unfoldable pub merge_message_failure :
      Option ImageFailure → Option ImageFailure → Option ImageFailure
  unfolding takes_over complete_by with_public_detail
  merge_message_failure current none = current
  merge_message_failure none (some candidate) = some candidate
  merge_message_failure (some current) (some candidate) = some (
      if takes_over candidate current
      then complete_by candidate current (with_public_detail parses)
      else complete_by current candidate (with_public_detail parses))

  unfoldable pub any_tool_error : List String → Bool
  unfolding canonical
  any_tool_error [] = false
  any_tool_error (code ∷ codes) = str_eq (canonical code) "image_tool_error" || any_tool_error codes

  -- The failure of a task whose message stands for a tool's error.
  unfoldable pub weigh_tool_error : Value → ImageFailure → ImageFailure
  unfolding message_of_value code_at mapping structured_codes any_tool_error image_failure
  weigh_tool_error image_message f =
      let message = message_of_value image_message in
      if (str_eq (code_at show parses (mapping (field_of message "author")) "role") "tool"
          && str_eq (code_at show parses (mapping (field_of message "content")) "content_type")
              "system_error")
        || any_tool_error (structured_codes (Value.dict message))
      then f
      else image_failure "upstream_error" none f.raw_detail

  -- `classify_task_failure`
  unfoldable pub classify_task_failure : Value → Option ImageFailure
  unfolding classify_upstream_message weigh_tool_error is_mapping
  classify_task_failure task =
      let image_message = field_of (mapping task) "image_gen_message" in
      if is_mapping image_message
      then elim (classify_upstream_message image_message) [
        | none ↦ none
        | some f ↦
            some (if str_eq f.code "image_tool_error" then weigh_tool_error image_message f else f)
      ]
      else none
