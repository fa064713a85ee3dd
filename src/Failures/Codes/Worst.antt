-- ===== src/Failures/Codes/Worst.antt =====
-- Which code is chosen where several are known.
use Prim.Native.String.{compare}
use text.Mathlib.Text.{is_lt}
use jove_mage.Prelude.{
  ℕ, ◌≤◌, String, ◌≡◌, refl, ◌∙◌, ap, sym, ◌==◌, ◌⊎◌, inl, inr, Bool, true, false, ◌&&◌, ◌||◌, ltb,
  Option, some, List, [], ◌∷◌, arith, eq_iff, eq_refl, get, strip, lower, str_eq, if◌then◌else◌,
  has, contains, contains-append, ℤ, Value, Bool-cases, List-cases,
}
use jove_mage.Failures.{
  ImageFailure, failure_policies, image_failure, normal_code, canonical, failure_code_aliases,
}
use jove_mage.Failures.Table.{canonical-kept, image_failure-code}
use jove_mage.Failures.Codes.{
  rank, failure_priority, normalized_codes, meets, tabled, only_if, known_codes, outranks, highest,
  any_rate_limit, quota_codes, auth_codes, policy_codes, classify_structured_failure_codes,
}

contains-only_if : (k code : String) (b : Bool) → contains k (only_if b code) ≡ (b && str_eq code k)
unfolding contains only_if
contains-only_if k code b = ground arith

-- A known code is one of the five kinds.
contains-known_codes :
    (k : String) (codes : List String)
    → contains k (known_codes codes) ≡ (
        (meets codes policy_codes && str_eq "content_policy_violation" k)
        || (meets codes auth_codes && str_eq "auth_invalid" k)
        || (meets codes quota_codes && str_eq "image_quota_exhausted" k)
        || contains k (tabled codes)
        || (any_rate_limit codes && str_eq "upstream_rate_limited" k))
unfolding known_codes
contains-known_codes k codes = simp (contains-append, contains-only_if)

tabled-has :
    (k : String) (codes : List String)
    → contains k (tabled codes) ≡ true
    → has failure_policies k ≡ true
unfolding tabled contains
tabled-has k [] h = absurd (ground (arith, h))
tabled-has k (code ∷ codes) h = ground (arith, h, tabled-has k codes, eq_iff (canonical code) k)

named-has :
    (code k : String) (b : Bool)
    → has failure_policies code ≡ true
    → (b && str_eq code k) ≡ true
    → has failure_policies k ≡ true
named-has code k b h e = ground (arith, h, e, eq_iff code k)

table-has :
    (has failure_policies "content_policy_violation" ≡ true)
    × (has failure_policies "auth_invalid" ≡ true)
    × (has failure_policies "image_quota_exhausted" ≡ true)
    × (has failure_policies "upstream_rate_limited" ≡ true)
unfolding failure_policies has get
table-has = (refl, refl, refl, refl)

known_codes-has :
    (k : String) (codes : List String)
    → contains k (known_codes codes) ≡ true
    → has failure_policies k ≡ true
known_codes-has k codes h = ground (
  arith,
  h,
  contains-known_codes k codes,
  tabled-has k codes,
  named-has "content_policy_violation" k (meets codes policy_codes) table-has.0,
  named-has "auth_invalid" k (meets codes auth_codes) table-has.1,
  named-has "image_quota_exhausted" k (meets codes quota_codes) table-has.2,
  named-has "upstream_rate_limited" k (any_rate_limit codes) table-has.3,
)

greater-le : (m n : ℕ) (b : Bool) → (ltb m n || (m == n && b)) ≡ true → m ≤ n
greater-le m n b h = ground arith

not_greater-le : (m n : ℕ) (b : Bool) → (ltb m n || (m == n && b)) ≡ false → n ≤ m
not_greater-le m n b h = ground arith

outranks-le :
    (a b : String)
    → ((outranks a b ≡ true) × (failure_priority b ≤ failure_priority a))
      ⊎ ((outranks a b ≡ false) × (failure_priority a ≤ failure_priority b))
outranks-le a b = elim (Bool-cases (outranks a b)) [
  | inl e ↦ inl (
    e,
    greater-le (failure_priority b) (failure_priority a) (is_lt (compare b a))
        (unfold outranks in e),
  )
  | inr e ↦ inr (
    e,
    not_greater-le (failure_priority b) (failure_priority a) (is_lt (compare b a))
        (unfold outranks in e),
  )
]

highest-replaced :
    (best code : String) (codes : List String)
    → outranks code best ≡ true
    → highest best (code ∷ codes) ≡ highest code codes
unfolding highest
highest-replaced best code codes e = ap (λ b. highest (if b then code else best) codes) e

highest-left :
    (best code : String) (codes : List String)
    → outranks code best ≡ false
    → highest best (code ∷ codes) ≡ highest best codes
unfolding highest
highest-left best code codes e = ap (λ b. highest (if b then code else best) codes) e

highest-contains :
    (best : String) (codes : List String) → contains (highest best codes) (best ∷ codes) ≡ true
unfolding contains
highest-contains best [] = unfold highest in ground (arith, eq_refl best)
highest-contains best (code ∷ codes) = elim (Bool-cases (outranks code best)) [
  | inl e ↦
      ap among (highest-replaced best code codes e) ∙ ground (arith, highest-contains code codes)
  | inr e ↦ ap among (highest-left best code codes e) ∙ ground (arith, highest-contains best codes)
]
  where
    among : String → Bool
    among k = contains k (best ∷ code ∷ codes)

highest-max :
    (best : String) (codes : List String) (k : String)
    → contains k (best ∷ codes) ≡ true
    → failure_priority k ≤ failure_priority (highest best codes)
unfolding contains
highest-max best [] k h = unfold highest in ground (arith, h, eq_iff best k)
highest-max best (code ∷ codes) k h = elim (outranks-le code best) [
  | inl (e, le) ↦ rw (highest-replaced best code codes e) (
      ground (
        arith,
        h,
        le,
        highest-max code codes k,
        highest-max code codes code,
        eq_refl code,
        eq_iff best k,
      ))
  | inr (e, le) ↦ rw (highest-left best code codes e) (
      ground (
        arith,
        h,
        le,
        highest-max best codes k,
        highest-max best codes best,
        eq_refl best,
        eq_iff code k,
      ))
]

-- What is chosen among known codes.
pub record Chosen (known : List String) (o : Option ImageFailure) (retry_after : Option ℤ)
    (raw_detail : Value) : Type 0 where
  pub failure : ImageFailure
  pub made : o ≡ some failure
  pub is_known : contains failure.code known ≡ true
  pub in_table : has failure_policies failure.code ≡ true
  pub is_worst :
      (k : String) → contains k known ≡ true → failure_priority k ≤ failure_priority failure.code
  pub of_code : failure ≡ image_failure failure.code retry_after raw_detail

classified :
    (codes : List String) (retry_after : Option ℤ) (raw_detail : Value) (k : String)
    → contains k (known_codes (normalized_codes codes)) ≡ true
    → Chosen
        (known_codes (normalized_codes codes))
        (classify_structured_failure_codes codes retry_after raw_detail)
        retry_after
        raw_detail
unfolding classify_structured_failure_codes
classified codes retry_after raw_detail k h =
    elim (List-cases (known_codes (normalized_codes codes))) [
      | inl e ↦ absurd (unfold contains in ground (arith, ap (contains k) e, h))
      | inr (first, rest, e) ↦
          let there : contains (highest first rest) (known_codes (normalized_codes codes)) ≡ true =
            rw e (highest-contains first rest) in
          let known = known_codes-has (highest first rest) (normalized_codes codes) there in
          let same : (image_failure (highest first rest) retry_after raw_detail).code
              ≡ highest first rest =
            image_failure-code (highest first rest) retry_after raw_detail known in
          rw (e, classify_structured_failure_codes)
            (record {
              failure = image_failure (highest first rest) retry_after raw_detail;
              made = refl;
              is_known = rw same (highest-contains first rest);
              in_table = rw same known;
              is_worst = λ k h. rw same (highest-max first rest k h);
              of_code = ap (λ code. image_failure code retry_after raw_detail) (sym same);
            })
    ]

-- A known code of rank eight is the one of invalid credentials, and of rank seven at least, that or
-- one of the exhausted quota.
rank-severe :
    (code : String)
    → (8 ≤ rank code → code ≡ "auth_invalid")
      × (7 ≤ rank code
          → (code ≡ "auth_invalid")
            ⊎ (contains code ("image_quota_exhausted" ∷ "insufficient_quota" ∷ []) ≡ true))
unfolding rank
rank-severe code = (
  λ h. ground (arith, h, eq_iff code "auth_invalid"),
  λ h. ground (arith, h, eq_iff code "auth_invalid"),
)

failure_priority-known :
    (code : String) → has failure_policies code ≡ true → failure_priority code ≡ rank code
unfolding failure_priority
failure_priority-known code h = ap rank (canonical-kept code h)

auth_rank : failure_priority "auth_invalid" ≡ 8
unfolding failure_priority rank canonical normal_code strip lower get failure_code_aliases
auth_rank = refl

quota_rank : failure_priority "image_quota_exhausted" ≡ 7
unfolding failure_priority rank canonical normal_code strip lower get failure_code_aliases contains
quota_rank = refl

-- The codes of an answer stand for the failure of the worst of them: where an authentication or a
-- quota code is among them, there is a failure, and with an authentication code it is the one of
-- invalid credentials, whatever other codes there are; without one, it is that one, or one of an
-- exhausted quota.
pub worst_code_wins :
    (codes : List String) (retry_after : Option ℤ) (raw_detail : Value)
    → (meets (normalized_codes codes) auth_codes || meets (normalized_codes codes) quota_codes)
      ≡ true
    → (f : ImageFailure) × (classify_structured_failure_codes codes retry_after raw_detail ≡ some f)
      × (((meets (normalized_codes codes) auth_codes ≡ true)
            × (f ≡ image_failure "auth_invalid" retry_after raw_detail))
          ⊎ ((meets (normalized_codes codes) auth_codes ≡ false)
              × ((f.code ≡ "auth_invalid")
                  ⊎ (contains f.code ("image_quota_exhausted" ∷ "insufficient_quota" ∷ [])
                      ≡ true))))
worst_code_wins codes retry_after raw_detail h =
    elim (Bool-cases (meets (normalized_codes codes) auth_codes)) [
      | inl e ↦
          let there : contains "auth_invalid" (known_codes (normalized_codes codes)) ≡ true =
            contains-known_codes "auth_invalid" (normalized_codes codes)
            ∙ ground (arith, e, eq_refl "auth_invalid") in
          let k = classified codes retry_after raw_detail "auth_invalid" there in
          let same : k.failure.code ≡ "auth_invalid" = (rank-severe k.failure.code).0 (
            omega (
              arith,
              auth_rank,
              k.is_worst "auth_invalid" there,
              failure_priority-known k.failure.code k.in_table,
            )) in
          (
            k.failure,
            k.made,
            inl (e, k.of_code ∙ ap (λ code. image_failure code retry_after raw_detail) same),
          )
      | inr e ↦
          let there : contains "image_quota_exhausted" (known_codes (normalized_codes codes))
              ≡ true =
            contains-known_codes "image_quota_exhausted" (normalized_codes codes)
            ∙ ground (arith, h, e, eq_refl "image_quota_exhausted") in
          let k = classified codes retry_after raw_detail "image_quota_exhausted" there in
          (
            k.failure,
            k.made,
            inr (
              e,
              (rank-severe k.failure.code).1 (
                  omega (
                    arith,
                    quota_rank,
                    k.is_worst "image_quota_exhausted" there,
                    failure_priority-known k.failure.code k.in_table,
                  )),
            ),
          )
    ]
