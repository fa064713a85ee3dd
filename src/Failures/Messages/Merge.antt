-- ===== src/Failures/Messages/Merge.antt =====
-- Merging failures keeps the worst of them, and what is known about it.
use jove_mage.Prelude.{
  ℕ, max, String, ◌≡◌, refl, ◌∙◌, ap, ◌⊎◌, inl, inr, Bool, true, false, not, ◌&&◌, ◌||◌, ltb, some,
  arith, eq_iff, str_eq, Value, Bool-cases,
}
use jove_mage.Failures.{ImageFailure, with_raw_detail}
use jove_mage.Failures.Codes.{failure_priority}
use jove_mage.Failures.Public.{with_public_detail}
use jove_mage.Failures.Read.{is_truthy}
use jove_mage.Failures.Messages.{complete_by, takes_over, merge_message_failure}

-- The winner keeps its code, and has raw detail if one of the two has.
complete_by-keeps :
    (parses : String → Bool) (w o : ImageFailure)
    → let f = complete_by w o (with_public_detail parses) in
      (f.code ≡ w.code)
      × (is_truthy f.raw_detail ≡ (is_truthy w.raw_detail || is_truthy o.raw_detail))
unfolding complete_by with_raw_detail with_public_detail
complete_by-keeps parses w o =
    elim (Bool-cases (str_eq w.public_detail "" && not (str_eq o.public_detail ""))) [
      | inl a ↦ elim (Bool-cases (not (is_truthy w.raw_detail) && is_truthy o.raw_detail)) [
        | inl b ↦ rw (a, b, complete_by) (refl, ground (arith, b))
        | inr b ↦ rw (a, b, complete_by) (refl, ground (arith, b))
      ]
      | inr a ↦ elim (Bool-cases (not (is_truthy w.raw_detail) && is_truthy o.raw_detail)) [
        | inl b ↦ rw (a, b, complete_by) (refl, ground (arith, b))
        | inr b ↦ rw (a, b, complete_by) (refl, ground (arith, b))
      ]
    ]

max-taken : (m n : ℕ) (b : Bool) → (b ≡ true → n ≡ m) → (b || ltb m n) ≡ true → n ≡ max m n
max-taken m n b same h = ground (arith, same, h)

max-left : (m n : ℕ) (b : Bool) → (b || ltb m n) ≡ false → m ≡ max m n
max-left m n b h = ground (arith, h)

-- Merging two failures gives a failure with the code of one of them, whose priority is the greater of
-- their priorities, and which has raw detail if one of them has.
pub merged_is_worst :
    (show : Value → String) (parses : String → Bool) (c d : ImageFailure)
    → (f : ImageFailure) × (merge_message_failure show parses (some c) (some d) ≡ some f)
      × ((f.code ≡ c.code) ⊎ (f.code ≡ d.code))
      × (failure_priority f.code ≡ max (failure_priority c.code) (failure_priority d.code))
      × (is_truthy f.raw_detail ≡ (is_truthy c.raw_detail || is_truthy d.raw_detail))
unfolding merge_message_failure
merged_is_worst show parses c d = elim (Bool-cases (takes_over show parses d c)) [
  | inl e ↦
      let (code, raw) = complete_by-keeps parses d c in
      rw (e, merge_message_failure)
        (
          complete_by d c (with_public_detail parses),
          refl,
          inr code,
          ap failure_priority code ∙ greater e,
          raw ∙ ground arith,
        )
  | inr e ↦
      let (code, raw) = complete_by-keeps parses c d in
      rw (e, merge_message_failure)
        (
          complete_by c d (with_public_detail parses),
          refl,
          inl code,
          ap failure_priority code ∙ less e,
          raw,
        )
]
  where
    greater :
        takes_over show parses d c ≡ true
        → failure_priority d.code ≡ max (failure_priority c.code) (failure_priority d.code)
    greater e =
        max-taken (failure_priority c.code) (failure_priority d.code) (str_eq d.code c.code)
          (λ h. ap failure_priority ((eq_iff d.code c.code).0 h)) (unfold takes_over in e)

    less :
        takes_over show parses d c ≡ false
        → failure_priority c.code ≡ max (failure_priority c.code) (failure_priority d.code)
    less e =
        max-left (failure_priority c.code) (failure_priority d.code) (str_eq d.code c.code)
          (unfold takes_over in e)
