-- ===== src/Failures/Conversation/Turn.antt =====
-- The failure of a turn is the worst of its messages' failures.
use jove_mage.Prelude.{
  ℕ, ◌+◌, max, String, ◌≡◌, refl, ◌∙◌, ap, inl, inr, Bool, Option, none, some, List, [], ◌∷◌, arith,
  if◌then◌else◌, Value, Fields, Bool-cases,
}
use jove_mage.Failures.{ImageFailure}
use jove_mage.Failures.Codes.{failure_priority}
use jove_mage.Failures.Messages.{classify_upstream_message, merge_message_failure}
use jove_mage.Failures.Messages.Merge.{merged_is_worst}
use jove_mage.Failures.Conversation.{
  merge_all, any_image_output, current_conversation_turn, classify_conversation_failure,
}

module _ (show : Value → String) (parses : String → Bool) (rank : Value → ℕ) where
  -- The failure of one message.
  abbrev pub failure_of : Fields → Option ImageFailure
  failure_of message = classify_upstream_message show parses (Value.dict message)

  -- The priority of a failure and one more, and zero without a failure.
  abbrev pub severity : Option ImageFailure → ℕ
  severity none = 0
  severity (some f) = 1 + failure_priority f.code

  -- The worst severity of some messages.
  abbrev pub worst : List Fields → ℕ
  worst [] = 0
  worst (message ∷ messages) = max (severity (failure_of message)) (worst messages)

  severity-merge :
      (a b : Option ImageFailure)
      → severity (merge_message_failure show parses a b) ≡ max (severity a) (severity b)
  unfolding merge_message_failure
  severity-merge a none = omega arith
  severity-merge none (some d) = omega arith
  severity-merge (some c) (some d) =
      let (f, e, _, p, _) = merged_is_worst show parses c d in ap severity e ∙ omega (arith, p)

  severity-merge_all :
      (a : Option ImageFailure) (messages : List Fields)
      → severity (merge_all show parses rank a messages) ≡ max (severity a) (worst messages)
  unfolding merge_all
  severity-merge_all a [] = omega arith
  severity-merge_all a (message ∷ messages) =
      severity-merge_all (merge_message_failure show parses a (failure_of message)) messages
      ∙ omega (arith, severity-merge a (failure_of message))

  -- A turn with a picture has no failure. The failure of another turn is as severe as the most severe
  -- failure of its messages, and there is none exactly if no message has one.
  pub turn_failure_is_worst :
      (conversation : Value)
      → let turn = current_conversation_turn show parses rank conversation in
        severity (classify_conversation_failure show parses rank conversation)
        ≡ (if any_image_output show parses rank turn then 0 else worst turn)
  unfolding classify_conversation_failure
  turn_failure_is_worst conversation =
      elim (Bool-cases (
        any_image_output show parses rank
          (current_conversation_turn show parses rank conversation))) [
            | inl e ↦ rw e refl
            | inr e ↦ rw e (
                severity-merge_all none (current_conversation_turn show parses rank conversation)
                ∙ omega arith)
          ]
