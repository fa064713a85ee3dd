-- ===== src/Accounts/Selection/Turns.antt =====
-- The choice of `get_text_access_token`: candidates are picked round robin.
use native.Mathlib.Nat.{mod-lt, zero-lt-suc, div-add-mod, mul-add-mod_self_left, mod-eq_of_lt}
use jove_mage.Prelude.{
  ℕ, zero, suc, ◌+◌, ◌-◌, ◌*◌, ◌/◌, ◌%◌, ◌<◌, String, ◌≡◌, refl, ap, ◌∙◌, inl, inr, true, some,
  List, [], ◌∷◌, arith, eq_iff, str_eq, leb, contains, get_elem?, get_elem?-lt, length, Bool-cases,
}
use jove_mage.Accounts.{Pool}
use jove_mage.Accounts.Selection.{text_candidates, pick_text_access_token}

-- The pool after so many requests in a row.
unfoldable pub after_picks : ℕ → Pool → List String → Pool
after_picks zero p excluded = p
after_picks (suc k) p excluded = after_picks k (pick_text_access_token p excluded).0 excluded

position :
    (xs : List String) (t : String)
    → contains t xs ≡ true
    → (j : ℕ) × (j < length xs) × (get_elem? xs j ≡ some t)
unfolding contains
position [] t h = absurd (ground (arith, h))
position (x ∷ xs) t h = elim (Bool-cases (str_eq x t)) [
  | inl e ↦ (0, omega arith, ap some ((eq_iff x t).0 e))
  | inr e ↦ let (j, l, g) = position xs t (ground (arith, h, e)) in (suc j, omega (arith, l), g)
]

-- Some k below n turns from i to j.
turns_to : (i j n : ℕ) → j < n → (k : ℕ) × (k < n) × ((i + k) % n ≡ j)
turns_to i j zero h = elim h [ ]
turns_to i j (suc m) h = elim (Bool-cases (leb r j)) [
  | inl e ↦ (
    j - r,
    omega (arith, h),
    ap (λ x. x % n) (ground (arith, whole, e)) ∙ mul-add-mod_self_left n (i / n) j ∙ mod-eq_of_lt h,
  )
  | inr e ↦ (
    n + j - r,
    ground (arith, e, below),
    ap (λ x. x % n) (ground (arith, whole, e, below))
        ∙ mul-add-mod_self_left n (i / n) (n + j)
        ∙ ap (λ x. x % n) (again)
        ∙ mul-add-mod_self_left n 1 j
        ∙ mod-eq_of_lt h,
  )
]
  where
    n : ℕ
    n = suc m

    r : ℕ
    r = i % n

    whole : n * (i / n) + r ≡ i
    whole = div-add-mod i n

    below : r < n
    below = mod-lt i (zero-lt-suc m)

    again : n + j ≡ n * 1 + j
    again = omega arith

turn_lt : (xs : List String) (t : String) (i : ℕ) → contains t xs ≡ true → i % length xs < length xs
unfolding contains
turn_lt [] t i h = absurd (ground (arith, h))
turn_lt (x ∷ xs) t i h = mod-lt i (zero-lt-suc (length xs))

-- One request leaves the candidates and moves the index on by one.
pick_step :
    (p : Pool) (excluded : List String) (t : String)
    → contains t (text_candidates p excluded) ≡ true
    → (text_candidates (pick_text_access_token p excluded).0 excluded ≡ text_candidates p excluded)
      × ((pick_text_access_token p excluded).0.index ≡ p.index + 1)
unfolding pick_text_access_token
pick_step p excluded t h =
    let (x, f) = get_elem?-lt xs (p.index % length xs) (turn_lt xs t p.index h) in
    rw (f, pick_text_access_token) (unfold text_candidates in refl, refl)
  where
    xs : List String
    xs = text_candidates p excluded

after_picks-index :
    (k : ℕ) (p : Pool) (excluded : List String) (t : String)
    → contains t (text_candidates p excluded) ≡ true
    → (text_candidates (after_picks k p excluded) excluded ≡ text_candidates p excluded)
      × ((after_picks k p excluded).index ≡ p.index + k)
unfolding after_picks
after_picks-index zero p excluded t h = (refl, omega arith)
after_picks-index (suc k) p excluded t h =
    let (same, moved) = pick_step p excluded t h in
    let (same', moved') =
      after_picks-index k (pick_text_access_token p excluded).0 excluded t (rw same h) in
    (same' ∙ same, omega (arith, moved, moved'))

pick_at :
    (p q : Pool) (excluded : List String) (t : String) (j : ℕ)
    → text_candidates q excluded ≡ text_candidates p excluded
    → q.index % length (text_candidates p excluded) ≡ j
    → get_elem? (text_candidates p excluded) j ≡ some t
    → (pick_text_access_token q excluded).1 ≡ some t
unfolding pick_text_access_token
pick_at p q excluded t j same turn g = rw (same, turn, g, pick_text_access_token) refl

-- In as many picks as there are candidates, each candidate is picked: the k-th pick from
-- now on returns it, for some k below their number.
pub every_candidate_is_picked :
    (p : Pool) (excluded : List String) (t : String)
    → contains t (text_candidates p excluded) ≡ true
    → (k : ℕ) × (k < length (text_candidates p excluded))
      × ((pick_text_access_token (after_picks k p excluded) excluded).1 ≡ some t)
every_candidate_is_picked p excluded t h =
    let (j, l, g) = position (text_candidates p excluded) t h in
    let (k, less, turn) = turns_to p.index j (length (text_candidates p excluded)) l in
    let (same, moved) = after_picks-index k p excluded t h in
    (
      k,
      less,
      pick_at p (after_picks k p excluded) excluded t j same
          (ap (λ i. i % length (text_candidates p excluded)) moved ∙ turn) g,
    )
