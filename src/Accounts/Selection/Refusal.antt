-- ===== src/Accounts/Selection/Refusal.antt =====
-- Why a call gets no token: nothing is ready, or every slot is taken.
use jove_mage.Prelude.{
  ℕ, suc, ◌≤◌, ◌<◌, ◌%◌, String, ◌≡◌, ◌≢◌, refl, ◌⊎◌, inl, inr, Bool, true, false, not, ◌&&◌, none,
  List, [], ◌∷◌, arith, eq_iff, str_eq, ltb, ◌==◌, count_if, get_elem?, get_elem?-none, length,
  values, Bool-cases, Option-cases, List-cases,
}
use native.Mathlib.Nat.{mod-lt, zero-lt-suc}
use jove_mage.Accounts.{Account, Pool, Config}
use jove_mage.Accounts.Selection.{
  Request, waits, quota_exhausted, unavailable, is_matched, no_ready_candidate_error,
  list_ready_candidate_tokens, list_available_candidate_tokens, acquire_next_candidate_token,
}
use jove_mage.Accounts.Selection.Slots.{Listed}

module _ (m l : Account → Bool) where
  both-le : (xs : List Account) → count_if (λ a. m a && l a) xs ≤ count_if m xs
  both-le [] = omega arith
  both-le (x ∷ xs) = ground (arith, both-le xs)

  -- Where all that pass the first test pass the second, so does each.
  all_of_counts :
      (xs : List Account) (a : Account)
      → count_if (λ b. m b && l b) xs ≡ count_if m xs
      → Listed a xs
      → m a ≡ true
      → l a ≡ true
  all_of_counts [] a h i q = absurd i
  all_of_counts (x ∷ xs) a h (inl e) q = ground (arith, both-le xs, e)
  all_of_counts (x ∷ xs) a h (inr i) q = all_of_counts xs a (ground (arith, both-le xs)) i q

  -- Where some that pass the first test fail the second, one is found.
  some_of_counts :
      (xs : List Account)
      → count_if (λ b. m b && l b) xs < count_if m xs
      → (a : Account) × (Listed a xs) × (m a ≡ true) × (l a ≡ false)
  some_of_counts [] h = absurd (omega arith)
  some_of_counts (x ∷ xs) h = elim (Bool-cases (m x && not (l x))) [
    | inl e ↦ (x, inl refl, ground (arith, e), ground (arith, e))
    | inr e ↦
        let (a, i, p, q) = some_of_counts xs (ground (arith, e, both-le xs)) in (a, inr i, p, q)
  ]

-- Some account passes.
pos_of_count :
    (m : Account → Bool) (xs : List Account)
    → 0 < count_if m xs
    → (a : Account) × (Listed a xs) × (m a ≡ true)
pos_of_count m [] h = absurd (omega arith)
pos_of_count m (x ∷ xs) h = elim (Bool-cases (m x)) [
  | inl e ↦ (x, inl refl, e)
  | inr e ↦ let (a, i, p) = pos_of_count m xs (ground (arith, e)) in (a, inr i, p)
]

count-zero :
    (m : Account → Bool) (xs : List Account) (a : Account)
    → count_if m xs ≡ 0
    → Listed a xs
    → m a ≡ false
count-zero m [] a h i = absurd i
count-zero m (x ∷ xs) a h (inl e) = ground (arith, e)
count-zero m (x ∷ xs) a h (inr i) = count-zero m xs a (ground arith) i

-- The call is told that the quota is exhausted exactly when some account matches the request and
-- every account that does is marked as rate limited; otherwise it is told that no account is
-- available: none matches, or one matches that is not rate limited.
pub refusal_kind :
    (p : Pool) (r : Request) (excluded : List String)
    → ((no_ready_candidate_error p r excluded ≡ quota_exhausted)
        × ((a : Account) × (Listed a (values p.accounts)) × (is_matched r excluded a ≡ true))
        × ((a : Account)
            → Listed a (values p.accounts)
            → is_matched r excluded a ≡ true
            → a.status ≡ "限流"))
      ⊎ ((no_ready_candidate_error p r excluded ≡ unavailable)
          × (((a : Account) → Listed a (values p.accounts) → is_matched r excluded a ≡ false)
              ⊎ ((a : Account) × (Listed a (values p.accounts))
                  × (is_matched r excluded a ≡ true)
                  × (a.status ≢ "限流"))))
unfolding no_ready_candidate_error
refusal_kind p r excluded = elim (Bool-cases (ltb 0 (count_if m xs))) [
  | inl some_match ↦ elim (Bool-cases (count_if (λ a. m a && l a) xs == count_if m xs)) [
    | inl same ↦ inl (
      ground (arith, some_match, same),
      pos_of_count m xs (ground (arith, some_match)),
      λ a i q. (eq_iff a.status "限流").0 (all_of_counts m l xs a (ground (arith, same)) i q),
    )
    | inr differ ↦
        let (a, i, q, not_limited) =
          some_of_counts m l xs (ground (arith, differ, both-le m l xs)) in
        inr (
          ground (arith, some_match, differ),
          inr (a, i, q, λ e. ground (arith, eq_iff a.status "限流", e, not_limited)),
        )
  ]
  | inr no_match ↦
      inr (ground (arith, no_match), inl (λ a i. count-zero m xs a (ground (arith, no_match)) i))
]
  where
    xs : List Account
    xs = values p.accounts

    m : Account → Bool
    m = is_matched r excluded

    l : Account → Bool
    l a = str_eq a.status "限流"

no_turn : (tokens : List String) (i : ℕ) → get_elem? tokens (i % length tokens) ≡ none → tokens ≡ []
no_turn [] i h = refl
no_turn (t ∷ tokens) i h = absurd (
    omega (
      arith,
      get_elem?-none (t ∷ tokens) (i % suc (length tokens)) h,
      mod-lt i (zero-lt-suc (length tokens)),
    ))

-- A call waits for a slot only when some account is ready and every ready token is at the limit;
-- it leaves the pool as it is.
pub waits_when_full :
    (p p' : Pool) (c : Config) (r : Request) (excluded : List String)
    → acquire_next_candidate_token p c r excluded ≡ (p', waits)
    → (list_ready_candidate_tokens p r excluded ≢ [])
      × (list_available_candidate_tokens p c r excluded ≡ [])
      × (p' ≡ p)
unfolding acquire_next_candidate_token
waits_when_full p p' c r excluded h = elim (List-cases (list_ready_candidate_tokens p r excluded)) [
  | inl e ↦ absurd (ground (arith, e))
  | inr (y, ys, e) ↦ elim (Option-cases (get_elem? tokens (p.index % length tokens))) [
    | inr (u, f) ↦ absurd (ground (arith, e, f))
    | inl f ↦ (λ n. ground (arith, e, n), no_turn tokens p.index f, ground (arith, e, f))
  ]
]
  where
    tokens : List String
    tokens = list_available_candidate_tokens p c r excluded
