-- ===== src/Accounts/Outcomes/Accounting.antt =====
-- What a result of an image and a used-up quota leave in the pool.
use jove_mage.Prelude.{
  ℕ, ◌+◌, ◌-◌, String, ◌≡◌, ◌≢◌, refl, sym, subst, ap, ◌∙◌, ◌⊎◌, inl, inr, Bool, true, false, not,
  ◌&&◌, ◌||◌, Option, none, some, arith, eq_iff, eq_refl, str_eq, leb, if◌then◌else◌, strip, get,
  get-put, has-get, values, Bool-cases,
}
use jove_mage.Accounts.{Account, Pool, save}
use jove_mage.Accounts.Normal.{
  normalize_account, normal_fields, renormalize, to_item, or_text, merged_quota, merged_unknown,
  is_untried_codex, is_none,
}
use jove_mage.Accounts.Tokens.{resolve_access_token}
use jove_mage.Accounts.Tokens.Resolve.{resolve_in_use}
use jove_mage.Accounts.Selection.{inflight, release_slot}
use jove_mage.Accounts.Selection.Slots.{inflight-release_slot}
use jove_mage.Accounts.Outcomes.{
  release_image_slot_locked, store, image_result, is_expected, consume_quota, count_failure,
  consumed_quota, verifies, mark_image_result,
}

-- A token in use: the key of an account, which is not blank around it.
pub record InUse (p : Pool) (token : String) (a : Account) : Type 0 where
  pub trimmed : strip token ≡ token
  pub known : get p.accounts token ≡ some a
  pub filled : token ≢ ""
  pub own : a.access_token ≡ token

pub InUse-resolve :
    (p : Pool) (token : String) (a : Account)
    → InUse p token a
    → resolve_access_token p token ≡ token
InUse-resolve p token a u = resolve_in_use p token u.trimmed (has-get p.accounts token a u.known)

pub InUse-release :
    (p : Pool) (token : String) (a : Account)
    → InUse p token a
    → release_image_slot_locked p token ≡ release_slot p token
unfolding release_image_slot_locked
InUse-release p token a u = ap (release_slot p) (InUse-resolve p token a u)

-- An account `x` with the fields that an image changes in `a`: five as they are in `b`, and the marks.
abbrev pub written : ℕ → (success verified paid : Bool) → (a b x : Account) → Account
written now success verified paid a b x = record x {
  success = b.success;
  fail = b.fail;
  quota = b.quota;
  image_quota_unknown = b.image_quota_unknown;
  status = b.status;
  last_used_at = some now;
  last_quota_estimated_empty_at =
      if paid && not a.image_quota_unknown && leb a.quota 1
      then some now
      else a.last_quota_estimated_empty_at;
  last_remote_check_result =
      if not success && verified then "pending" else a.last_remote_check_result;
  last_remote_check_event =
      if not success && verified then "image_failure" else a.last_remote_check_event;
  last_remote_check_attempt_at =
      if not success && verified then some now else a.last_remote_check_attempt_at;
}

-- What an image leaves of an account: the fields that it changes, and all others as they were.
pub record Booked (now : ℕ) (success verified paid : Bool) (a b : Account) : Type 0 where
  pub successes : b.success ≡ (if success then a.success + 1 else a.success)
  pub failures : b.fail ≡ (if not success && verified then a.fail + 1 else a.fail)
  pub quotas : b.quota ≡ (if paid && not a.image_quota_unknown then a.quota - 1 else a.quota)
  pub unknowns :
      b.image_quota_unknown
      ≡ (a.image_quota_unknown || (paid && (leb a.quota 1 || str_eq a.status "限流")))
  pub statuses : b.status ≡ (if paid && str_eq a.status "限流" then "正常" else or_text a.status "正常")
  pub others : b ≡ written now success verified paid a b a

-- The result of the image is the account with these fields written.
image_result-written :
    (now : ℕ) (a : Account) (success : Bool) (failure quota_consumed : Option Bool)
    → let r = image_result now success failure quota_consumed a in
      r ≡ written now success (verifies failure) (consumed_quota success quota_consumed) a r a
unfolding image_result consume_quota count_failure
image_result-written now a true failure quota_consumed =
    elim (Bool-cases (consumed_quota true quota_consumed)) [ inl e ↦ rw e refl | inr e ↦ rw e refl ]
image_result-written now a false failure quota_consumed =
    elim (Bool-cases (consumed_quota false quota_consumed)) [
      | inl e ↦ elim (Bool-cases (verifies failure)) [
        | inl f ↦ rw (e, f) refl
        | inr f ↦ rw (e, f) refl
      ]
      | inr e ↦ elim (Bool-cases (verifies failure)) [
        | inl f ↦ rw (e, f) refl
        | inr f ↦ rw (e, f) refl
      ]
    ]

-- The normalization leaves the fields that it does not work out from the written ones.
normal_fields-written :
    (now : ℕ) (success verified paid : Bool) (a r : Account)
    → let b = normal_fields now (to_item (written now success verified paid a r a)) in
      b ≡ written now success verified paid a b (normal_fields now (to_item a))
unfolding normal_fields to_item
normal_fields-written now success verified paid a r = refl

normalized_fields :
    (now : ℕ) (a : Account)
    → a.access_token ≢ ""
    → renormalize now a ≡ some a
    → normal_fields now (to_item a) ≡ a
unfolding renormalize normalize_account
normalized_fields now a filled normal = ground (arith, eq_iff a.access_token "", filled, normal)

result-Booked :
    (now : ℕ) (a : Account) (success : Bool) (failure quota_consumed : Option Bool)
    → a.access_token ≢ ""
    → renormalize now a ≡ some a
    → (b : Account) × (renormalize now (image_result now success failure quota_consumed a) ≡ some b)
      × Booked now success (verifies failure) (consumed_quota success quota_consumed) a b
unfolding renormalize normalize_account normal_fields image_result consume_quota count_failure
    merged_quota merged_unknown is_untried_codex is_none or_text
result-Booked now a success failure quota_consumed filled normal = (
  normal_fields now (to_item (image_result now success failure quota_consumed a)),
  ground (arith, eq_iff a.access_token "", filled),
  record {
    successes = ground arith;
    failures = ground arith;
    quotas = ground arith;
    unknowns = ground arith;
    statuses = ground arith;
    others =
        subst
          (λ r.
            normal_fields now (to_item r)
            ≡ written now success (verifies failure) (consumed_quota success quota_consumed) a
                (normal_fields now (to_item r)) (normal_fields now (to_item a)))
          (sym (image_result-written now a success failure quota_consumed))
          (normal_fields-written now success (verifies failure)
            (consumed_quota success quota_consumed) a
            (image_result now success failure quota_consumed a))
        ∙ ap
            (written now success (verifies failure) (consumed_quota success quota_consumed) a
              (normal_fields now (to_item (image_result now success failure quota_consumed a))))
            (normalized_fields now a filled normal);
  },
)

is_expected-release :
    (p : Pool) (t token : String) (expected : Option String)
    → is_expected (release_slot p t) token expected ≡ is_expected p token expected
unfolding is_expected release_slot resolve_access_token
is_expected-release p t token none = refl
is_expected-release p t token (some e) = refl

pub inflight-store :
    (p : Pool) (t : String) (b : Account) (u : String) → inflight (store p t b) u ≡ inflight p u
unfolding store save inflight
inflight-store p t b u = refl

pub get-store :
    (p : Pool) (t : String) (b : Account) (u : String)
    → get (store p t b).accounts u ≡ (if str_eq t u then some b else get p.accounts u)
unfolding store save
get-store p t b u = get-put p.accounts t u b

pub saved-store :
    (p : Pool) (t : String) (b : Account) → (store p t b).saved ≡ values (store p t b).accounts
unfolding store save
saved-store p t b = refl

pub known_after :
    (p : Pool) (token : String) (a : Account)
    → InUse p token a
    → get (release_slot p token).accounts token ≡ some a
unfolding release_slot
known_after p token a u = u.known

module _ (now : ℕ) (p : Pool) (token : String) (a : Account) (success : Bool)
    (failure quota_consumed : Option Bool) (expected : Option String) (u : InUse p token a) where
  image_result_stops :
      is_expected p token expected ≡ false
      → mark_image_result now p token success failure quota_consumed expected
        ≡ (release_slot p token, some a, false)
  unfolding mark_image_result
  image_result_stops e = ground (
    arith,
    eq_iff token "",
    u.filled,
    InUse-resolve p token a u,
    InUse-release p token a u,
    known_after p token a u,
    is_expected-release p token token expected,
    e,
  )

  image_result_runs :
      (b : Account)
      → is_expected p token expected ≡ true
      → renormalize now (image_result now success failure quota_consumed a) ≡ some b
      → mark_image_result now p token success failure quota_consumed expected
        ≡ (store (release_slot p token) token b, some b, not success && verifies failure)
  unfolding mark_image_result
  image_result_runs b e f = ground (
    arith,
    eq_iff token "",
    u.filled,
    InUse-resolve p token a u,
    InUse-release p token a u,
    known_after p token a u,
    is_expected-release p token token expected,
    e,
    f,
  )

-- A result of an image for an account in use, which is normalized as every stored account is, gives
-- back one slot of it. Where the call expects that account, the account that is stored, saved and
-- returned is the old one with the result booked and every other field as it was, no
-- other account changes, and it is to be checked exactly after a failure that asks for it. Where
-- the call expects another account, nothing else changes.
pub image_result_books :
    (now : ℕ) (p : Pool) (token : String) (a : Account) (success : Bool)
    (failure quota_consumed : Option Bool) (expected : Option String)
    → InUse p token a
    → renormalize now a ≡ some a
    → let r = mark_image_result now p token success failure quota_consumed expected in
      (inflight r.0 token ≡ inflight p token - 1)
      × (((is_expected p token expected ≡ false) × (r ≡ (release_slot p token, some a, false)))
          ⊎ ((is_expected p token expected ≡ true)
              × ((b : Account) × Booked now success
                    (verifies failure)
                    (consumed_quota success quota_consumed)
                    a
                    b
                  × (r.1 ≡ some b)
                  × (r.2 ≡ (not success && verifies failure))
                  × (r.0.saved ≡ values r.0.accounts)
                  × ((other : String)
                      → get r.0.accounts other
                        ≡ (if str_eq token other then some b else get p.accounts other)))))
image_result_books now p token a success failure quota_consumed expected u normal =
    elim (Bool-cases (is_expected p token expected)) [
      | inl e ↦
          let (b, f, booked) = result-Booked now a success failure quota_consumed filled normal in
          rw (image_result_runs now p token a success failure quota_consumed expected u b e f) (
            inflight-store q token b token ∙ given_back,
            inr (
              e,
              (
                b,
                booked,
                refl,
                refl,
                saved-store q token b,
                λ other. get-store q token b other ∙ kept b other,
              ),
            ),
          )
      | inr e ↦
          rw (image_result_stops now p token a success failure quota_consumed expected u e)
            (given_back, inl (e, refl))
    ]
  where
    q : Pool
    q = release_slot p token

    filled : a.access_token ≢ ""
    filled h = u.filled (sym u.own ∙ h)

    kept :
        (b : Account) (other : String)
        → (if str_eq token other then some b else get (release_slot p token).accounts other)
          ≡ (if str_eq token other then some b else get p.accounts other)
    kept b other = unfold release_slot in refl

    given_back : inflight (release_slot p token) token ≡ inflight p token - 1
    given_back = ground (arith, inflight-release_slot p token token, eq_refl token)
