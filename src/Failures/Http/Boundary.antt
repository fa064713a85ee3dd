-- ===== src/Failures/Http/Boundary.antt =====
-- The HTTP status decides between a refused request and a failure of the account.
use jove_mage.Prelude.{
  ℕ, String, ◌≡◌, refl, ◌∙◌, ◌⊎◌, inl, inr, true, not, ◌&&◌, ◌||◌, leb, ◌==◌, Option, none, some,
  arith, if◌then◌else◌, get, ℤ, Value, Bool-cases, strip, lower, has,
}
use jove_mage.Failures.{
  ImageFailure, failure_policies, failure_code_aliases, normal_code, canonical, image_failure,
  verify_account, of_policy, policy_of, known_code,
}
use jove_mage.Failures.Table.{verify-status}
use jove_mage.Failures.Http.{
  UpstreamHttpError, is_account, with_scope, with_status, structured_failure, classify_bad_request,
  classify_by_status, classify_account_error, is_file_upload, path_of, classify_upstream_http_error,
}

-- The statuses of the codes that the classification writes.
record Statuses (r : Option ℤ) (d : Value) : Type 0 where
  of_input : (image_failure "invalid_image_input" r d).status_code ≡ 400
  of_auth : (image_failure "auth_invalid" r d).status_code ≡ 401
  of_upload : (image_failure "file_upload_throttled" r d).status_code ≡ 429
  of_limit : (image_failure "upstream_rate_limited" r d).status_code ≡ 429
  of_timeout : (image_failure "upstream_connection_timeout" r d).status_code ≡ 504

statuses : (r : Option ℤ) (d : Value) → Statuses r d
unfolding image_failure of_policy policy_of known_code canonical normal_code strip lower
    failure_policies failure_code_aliases get has
statuses r d = record {
  of_input = refl;
  of_auth = refl;
  of_upload = refl;
  of_limit = refl;
  of_timeout = refl;
}

-- A failure with the status of the answer, but for 408, which counts as 504.
abbrev pub Agrees : ℕ → ImageFailure → Type 0
Agrees status f = (f.status_code ≡ status) ⊎ ((status ≡ 408) × (f.status_code ≡ 504))

bad_request-status :
    (e : UpstreamHttpError) (o : Option ImageFailure) → (classify_bad_request e o).status_code ≡ 400
unfolding classify_bad_request with_scope
bad_request-status e o = elim (Bool-cases (is_account e.credential_scope)) [
  | inl h ↦ rw (h, classify_bad_request) (chosen o)
  | inr h ↦ rw (h, classify_bad_request) (chosen o)
]
  where
    chosen :
        (o : Option ImageFailure)
        → (elim o as (λ _. ImageFailure) [
          | none ↦ image_failure "invalid_image_input" none e.body
          | some f ↦
              if f.status_code == 400 then f else image_failure "invalid_image_input" none e.body
        ]).status_code
          ≡ 400
    chosen none = (statuses none e.body).of_input
    chosen (some f) = elim (Bool-cases (f.status_code == 400)) [
      | inl h ↦ rw h (ground (arith, h))
      | inr h ↦ rw h ((statuses none e.body).of_input)
    ]

by_status-Agrees : (e : UpstreamHttpError) → Agrees e.status_code (classify_by_status e)
unfolding classify_by_status with_status
by_status-Agrees e =
    let t = statuses e.retry_after e.body in
    elim (Bool-cases (e.status_code == 403 || e.status_code == 423)) [
      | inl a ↦ rw (a, classify_by_status) (inl refl)
      | inr a ↦ elim (Bool-cases (e.status_code == 429)) [
        | inl b ↦ rw (a, b, classify_by_status) (inl (t.of_limit ∙ ground (arith, b)))
        | inr b ↦ elim (Bool-cases (e.status_code == 408 || e.status_code == 504)) [
          | inl c ↦ rw (a, b, c, classify_by_status) (timed_out t.of_timeout c)
          | inr c ↦ elim (Bool-cases (leb 500 e.status_code)) [
            | inl d ↦ rw (a, b, c, d, classify_by_status) (inl refl)
            | inr d ↦ rw (a, b, c, d, classify_by_status) (inl refl)
          ]
        ]
      ]
    ]
  where
    timed_out :
        {s : ℕ}
        → s ≡ 504
        → (e.status_code == 408 || e.status_code == 504) ≡ true
        → (s ≡ e.status_code) ⊎ ((e.status_code ≡ 408) × (s ≡ 504))
    timed_out h c = ground (arith, h, c)

account_error-Agrees :
    (e : UpstreamHttpError) (context : String) (o : Option ImageFailure)
    → Agrees e.status_code (classify_account_error e context o)
unfolding classify_account_error
account_error-Agrees e context o =
    let t = statuses e.retry_after e.body in
    elim (Bool-cases (e.status_code == 401)) [
      | inl a ↦ rw (a, classify_account_error) (inl (t.of_auth ∙ ground (arith, a)))
      | inr a ↦ elim (Bool-cases (e.status_code == 429 && is_file_upload (path_of context))) [
        | inl b ↦ rw (a, b, classify_account_error) (inl (t.of_upload ∙ ground (arith, b)))
        | inr b ↦ rw (a, b, classify_account_error) (chosen o)
      ]
    ]
  where
    chosen :
        (o : Option ImageFailure)
        → Agrees e.status_code (elim o as (λ _. ImageFailure) [
          | none ↦ classify_by_status e
          | some f ↦ if f.status_code == e.status_code then f else classify_by_status e
        ])
    chosen none = by_status-Agrees e
    chosen (some f) = elim (Bool-cases (f.status_code == e.status_code)) [
      | inl h ↦ rw h (inl (ground (arith, h)))
      | inr h ↦ rw h (by_status-Agrees e)
    ]

classified-Agrees : (e : UpstreamHttpError) → Agrees e.status_code (classify_upstream_http_error e)
unfolding classify_upstream_http_error with_scope with_status
classified-Agrees e = elim (Bool-cases (e.status_code == 400)) [
  | inl a ↦
      rw (a, classify_upstream_http_error)
        (inl (bad_request-status e (structured_failure e) ∙ ground (arith, a)))
  | inr a ↦ elim (Bool-cases (is_account e.credential_scope)) [
    | inl b ↦
        rw (a, b, classify_upstream_http_error)
          (account_error-Agrees e (normal_code e.context) (structured_failure e))
    | inr b ↦ rw (a, b, classify_upstream_http_error) (inl refl)
  ]
]

-- Whatever codes the body of an answer carries, its failure has the status of the answer, save that
-- 408 may count as 504; so a failure is a reason to suspect the account exactly if the status was not
-- 400.
pub http_boundary :
    (e : UpstreamHttpError)
    → Agrees e.status_code (classify_upstream_http_error e)
      × (verify_account (classify_upstream_http_error e) ≡ not (e.status_code == 400))
http_boundary e =
    let agrees = classified-Agrees e in
    (agrees, verify-status (classify_upstream_http_error e) ∙ ground (arith, agrees))
