-- ===== src/ChatCache/Messages.antt =====
-- `normalize_text_messages`: which messages of a request count for its key.
use jove_mage.Prelude.{
  String, ◌≡◌, ◌≢◌, refl, inl, inr, Bool, true, not, ◌&&◌, List, [], ◌∷◌, arith, eq_iff, str_eq,
  if◌then◌else◌, Bool-cases, Value,
}

-- A message: its role, and the message itself.
pub record Message : Type 0 where
  pub role : String
  pub body : Value

pub record MessageSettings : Type 0 where
  pub normalize_messages : Bool
  pub drop_assistant_history : Bool
  pub drop_adjacent_duplicates : Bool

-- The signature is the message as JSON text, which is never empty.
module _ (signature : Message → String) (s : MessageSettings) where
  -- The loop, after a message with that signature.
  unfoldable pub keep_messages : String → List Message → List Message
  keep_messages previous [] = []
  keep_messages previous (m ∷ messages) =
      let as_is = keep_messages previous messages in
      let after = keep_messages (signature m) messages in
      if s.drop_assistant_history && str_eq m.role "assistant"
      then as_is
      else if s.drop_adjacent_duplicates && str_eq (signature m) previous
      then as_is
      else m ∷ after

  unfoldable pub normalize_text_messages : List Message → List Message
  normalize_text_messages messages =
      if not s.normalize_messages then messages else keep_messages "" messages

  -- No assistant, and no message with the signature of the one before, which is given.
  abbrev pub Tidy : String → List Message → Type 0
  Tidy previous [] = Unit
  Tidy previous (m ∷ messages) =
      (m.role ≢ "assistant") × (signature m ≢ previous) × Tidy (signature m) messages

  keep_messages-Tidy :
      (previous : String) (messages : List Message)
      → s.drop_assistant_history ≡ true
      → s.drop_adjacent_duplicates ≡ true
      → Tidy previous (keep_messages previous messages)
  unfolding keep_messages
  keep_messages-Tidy previous [] a d = tt
  keep_messages-Tidy previous (m ∷ messages) a d = elim (Bool-cases (str_eq m.role "assistant")) [
    | inl e ↦ rw (a, d, e) (keep_messages-Tidy previous messages a d)
    | inr e ↦ elim (Bool-cases (str_eq (signature m) previous)) [
      | inl f ↦ rw (a, d, e, f) (keep_messages-Tidy previous messages a d)
      | inr f ↦
          rw (a, d, e, f)
            (
              λ q. ground (arith, e, q, eq_iff m.role "assistant"),
              λ q. ground (arith, f, q, eq_iff (signature m) previous),
              keep_messages-Tidy (signature m) messages a d,
            )
    ]
  ]

  keep_messages-again :
      (previous : String) (messages : List Message)
      → keep_messages previous (keep_messages previous messages) ≡ keep_messages previous messages
  unfolding keep_messages
  keep_messages-again previous [] = refl
  keep_messages-again previous (m ∷ messages) =
      elim (Bool-cases (s.drop_assistant_history && str_eq m.role "assistant")) [
        | inl e ↦ rw e (keep_messages-again previous messages)
        | inr e ↦ elim (Bool-cases (s.drop_adjacent_duplicates && str_eq (signature m) previous)) [
          | inl f ↦ rw (e, f) (keep_messages-again previous messages)
          | inr f ↦
              rw (e, f, keep_messages) (rw (e, f, keep_messages-again (signature m) messages) refl)
        ]
      ]

  -- Normalizing the messages of a request twice is normalizing them once; and where all three
  -- settings are on, no message of an assistant is left and no two neighbours have the same
  -- signature.
  pub normalized_messages :
      (messages : List Message)
      → (normalize_text_messages (normalize_text_messages messages)
          ≡ normalize_text_messages messages)
        × (s.normalize_messages ≡ true
            → s.drop_assistant_history ≡ true
            → s.drop_adjacent_duplicates ≡ true
            → Tidy "" (normalize_text_messages messages))
  unfolding normalize_text_messages keep_messages
  normalized_messages messages = (
    elim (Bool-cases s.normalize_messages) [
      | inl e ↦ rw e (keep_messages-again "" messages)
      | inr e ↦ rw e refl
    ],
    λ e a d. rw e (keep_messages-Tidy "" messages a d),
  )
