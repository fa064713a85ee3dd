-- ===== src/Failures/Table.antt =====
-- What `image_failure` takes from the table.
use jove_mage.Prelude.{
  ℕ, String, ◌≡◌, refl, ◌∙◌, ap, sym, inl, inr, Bool, true, false, ◌&&◌, not, ◌==◌, Option, none,
  some, [], ◌∷◌, arith, eq_iff, str_eq, if◌then◌else◌, strip, lower, Dict, get, has, contains, ℤ,
  Value, Bool-cases, Option-cases, IsUnique,
}
use jove_mage.Failures.{
  FailurePolicy, ImageFailure, failure_policies, failure_code_aliases, text_review_failure_codes,
  codes_with_status, normal_code, canonical, is_text_review_failure_code, known_code, of_policy,
  policy_of, image_failure, verify_account, outcome,
}

-- A code of the table is what it is normalized to, and has no other name.
unfoldable canonical_entry : String → Bool
canonical_entry code = str_eq (normal_code code) code && str_eq (canonical code) code

unfoldable all_of {ℓ} : {V : Type ℓ} → (String → Bool) → Dict V → Bool
all_of p [] = true
all_of p ((k, v) ∷ d) = p k && all_of p d

all_of-has {ℓ} :
    {V : Type ℓ} (p : String → Bool) (d : Dict V) (k : String)
    → all_of p d ≡ true
    → has d k ≡ true
    → p k ≡ true
unfolding all_of has get
all_of-has p [] k a h = absurd (ground (arith, h))
all_of-has p ((j, v) ∷ d) k a h = ground (arith, a, h, all_of-has p d k, eq_iff j k)

table-canonical : all_of canonical_entry failure_policies ≡ true
unfolding all_of canonical_entry failure_policies failure_code_aliases normal_code canonical strip
    lower get
table-canonical = refl

known_code-has : (code : String) → has failure_policies (known_code code) ≡ true
unfolding known_code
known_code-has code = elim (Bool-cases (has failure_policies code)) [
  | inl e ↦ rw e e
  | inr e ↦ rw e (unfold failure_policies in unfold has in unfold get in refl)
]

empty-absent : has failure_policies "" ≡ false
unfolding failure_policies has get
empty-absent = refl

-- A code of the table is kept.
kept :
    (code : String)
    → has failure_policies code ≡ true
    → known_code (canonical (normal_code (if str_eq code "" then "upstream_error" else code)))
      ≡ code
unfolding known_code
kept code h =
    let c = all_of-has canonical_entry failure_policies code table-canonical h in
    let full : str_eq code "" ≡ false = ground (arith, h, empty-absent, eq_iff code "") in
    let normal : normal_code code ≡ code =
      unfold canonical_entry in ground (arith, c, eq_iff (normal_code code) code) in
    let same : canonical code ≡ code =
      unfold canonical_entry in ground (arith, c, eq_iff (canonical code) code) in
    rw (full, normal, same, h) refl

-- A code of the table is its own canonical code.
pub canonical-kept :
    (code : String) → has failure_policies code ≡ true → canonical (normal_code code) ≡ code
canonical-kept code h =
    let c = all_of-has canonical_entry failure_policies code table-canonical h in
    unfold canonical_entry in
    ground (
      arith,
      c,
      eq_iff (canonical code) code,
      eq_iff (normal_code code) code,
      ap canonical ((eq_iff (normal_code code) code).0 (ground (arith, c))),
    )

-- A failure made from a code of the table has that code.
pub image_failure-code :
    (code : String) (retry_after : Option ℤ) (raw_detail : Value)
    → has failure_policies code ≡ true
    → (image_failure code retry_after raw_detail).code ≡ code
unfolding image_failure of_policy
image_failure-code code retry_after raw_detail h = kept code h

-- Whatever code a failure is made from, its own code is one of the table and the failure has the
-- fields that the table gives for it; and a failure made from that code again is the same failure.
pub image_failure_lem :
    (code : String) (retry_after : Option ℤ) (raw_detail : Value)
    → let f = image_failure code retry_after raw_detail in
      ((p : FailurePolicy) × (get failure_policies f.code ≡ some p)
        × (f ≡ of_policy f.code p retry_after raw_detail))
      × (image_failure f.code retry_after raw_detail ≡ f)
unfolding image_failure of_policy
image_failure_lem code retry_after raw_detail = (own, again)
  where
    name : String
    name = known_code (canonical (normal_code (if str_eq code "" then "upstream_error" else code)))

    own :
        (p : FailurePolicy) × (get failure_policies name ≡ some p)
        × (of_policy name (policy_of (get failure_policies name)) retry_after raw_detail
            ≡ of_policy name p retry_after raw_detail)
    own = elim (Option-cases (get failure_policies name)) [
      | inl e ↦ absurd (
          unfold has in
          ground (
            arith,
            e,
            known_code-has
                (canonical (normal_code (if str_eq code "" then "upstream_error" else code))),
          ))
      | inr (p, e) ↦ rw e (p, refl, unfold policy_of in refl)
    ]

    again :
        of_policy
          (known_code (canonical (normal_code (if str_eq name "" then "upstream_error" else name))))
          (policy_of (
            get failure_policies (
              known_code
                (canonical (normal_code (if str_eq name "" then "upstream_error" else name))))))
          retry_after
          raw_detail
        ≡ of_policy name (policy_of (get failure_policies name)) retry_after raw_detail
    again = rw (kept name (known_code-has _)) refl

abbrev has_status : ℕ → Option FailurePolicy → Bool
has_status status none = false
has_status status (some p) = p.status_code == status

contains-codes_with_status :
    (status : ℕ) (d : Dict FailurePolicy) (code : String)
    → IsUnique d
    → contains code (codes_with_status status d) ≡ has_status status (get d code)
unfolding contains codes_with_status get
contains-codes_with_status status [] code u = refl
contains-codes_with_status status ((k, p) ∷ d) code (fresh, u) =
    let rest = contains-codes_with_status status d code u in
    elim (Bool-cases (str_eq k code)) [
      | inl e ↦
          let same : get d code ≡ none = ground (arith, e, fresh, eq_iff k code) in
          let none_left : contains code (codes_with_status status d) ≡ false =
            rest ∙ ap (has_status status) same in
          rw e (elim (Bool-cases (p.status_code == status)) [
            | inl f ↦ rw f (rw e refl)
            | inr f ↦ rw f none_left
          ])
      | inr e ↦ rw e (elim (Bool-cases (p.status_code == status)) [
        | inl f ↦ rw f (rw (e, rest) refl)
        | inr f ↦ rw f rest
      ])
    ]

policies-IsUnique : IsUnique failure_policies
unfolding failure_policies get
policies-IsUnique = (
  refl,
  (
    refl,
    (
      refl,
      (
        refl,
        (
          refl,
          (
            refl,
            (
              refl,
              (
                refl,
                (
                  refl,
                  (
                    refl,
                    (
                      refl,
                      (
                        refl,
                        (
                          refl,
                          (
                            refl,
                            (refl, (refl, (refl, (refl, (refl, (refl, (refl, (refl, tt)))))))),
                          ),
                        ),
                      ),
                    ),
                  ),
                ),
              ),
            ),
          ),
        ),
      ),
    ),
  ),
)

known_code-in : (code : String) → has failure_policies code ≡ true → known_code code ≡ code
unfolding known_code
known_code-in code h = rw h refl

known_code-out :
    (code : String) → has failure_policies code ≡ false → known_code code ≡ "upstream_error"
unfolding known_code
known_code-out code h = rw h refl

status-of_known :
    (code : String)
    → has_status 400 (get failure_policies code)
      ≡ ((policy_of (get failure_policies (known_code code))).status_code == 400)
status-of_known code = elim (Option-cases (get failure_policies code)) [
  | inl e ↦
      rw (known_code-out code (unfold has in ground (arith, e)), e)
        (unfold failure_policies in unfold get in unfold policy_of in refl)
  | inr (p, e) ↦
      rw (known_code-in code (unfold has in ground (arith, e)), e) (unfold policy_of in refl)
]

-- No code is an unknown code.
known_code-empty :
    (code : String)
    → known_code (canonical (normal_code (if str_eq code "" then "upstream_error" else code)))
      ≡ known_code (canonical (normal_code code))
known_code-empty code = elim (Bool-cases (str_eq code "")) [
  | inl e ↦ rw ((eq_iff code "").0 e) (
      unfold known_code in
      unfold canonical in
      unfold normal_code in
      unfold strip in
      unfold lower in
      unfold failure_code_aliases in unfold failure_policies in unfold get in unfold has in refl)
  | inr e ↦ rw e refl
]

pub verify-status : (f : ImageFailure) → verify_account f ≡ not (f.status_code == 400)
unfolding verify_account outcome
verify-status f = elim (Bool-cases (f.status_code == 400)) [ inl e ↦ rw e refl | inr e ↦ rw e refl ]

not-not : (b c : Bool) → b ≡ not c → c ≡ not b
not-not b c h = ground (arith, h)

-- A code counts as the outcome of a text review exactly if the failure made from it has the status
-- 400, that is, if it is no reason to suspect the account.
pub text_review_is_status_400 :
    (code : String) (retry_after : Option ℤ) (raw_detail : Value)
    → is_text_review_failure_code code
      ≡ not (verify_account (image_failure code retry_after raw_detail))
unfolding is_text_review_failure_code text_review_failure_codes image_failure of_policy
text_review_is_status_400 code retry_after raw_detail =
    contains-codes_with_status 400 failure_policies (canonical (normal_code code)) policies-IsUnique
    ∙ status-of_known (canonical (normal_code code))
    ∙ ap (λ name. (policy_of (get failure_policies name)).status_code == 400)
        (sym (known_code-empty code))
    ∙ not-not _ _ (verify-status (image_failure code retry_after raw_detail))
