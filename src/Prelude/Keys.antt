-- ===== src/Prelude/Keys.antt =====
-- Lists of keys: membership as Python's `in`, and lists that name no key twice.
use Prim.Native.Nat.{ℕ, suc, ◌+◌, ◌≤◌}
use Prim.Native.String.{String}
use mathlib.Core.Path.{◌≡◌, refl}
use mathlib.Core.Bool.{Bool, true, false, ◌||◌}
use mathlib.Core.Logic.{◌⊎◌, inl, inr}
use mathlib.Core.Option.{none}
use mathlib.Core.List.{List, [], ◌∷◌, ◌++◌}
use native.Mathlib.Omega.{arith}
use text.Mathlib.TextEquality.{eq_iff}
use jove_mage.Prelude.Tests.{str_eq, Bool-cases}
use jove_mage.Prelude.Lists.{length, count_if, take}
use jove_mage.Prelude.Dicts.{Dict, get, has, pop, size, keys, IsUnique, get-pop, size-pop-le}

-- k in ks
unfoldable pub contains : String → List String → Bool
contains k [] = false
contains k (j ∷ ks) = str_eq j k || contains k ks

abbrev pub Distinct : List String → Type 0
Distinct [] = Unit
Distinct (k ∷ ks) = (contains k ks ≡ false) × Distinct ks

pub contains-keys {ℓ} :
    {V : Type ℓ} (d : Dict V) (k : String) → get d k ≡ none → contains k (keys d) ≡ false
unfolding contains get
contains-keys [] k h = refl
contains-keys ((j, v) ∷ d) k h = ground (arith, contains-keys d k)

pub keys-Distinct {ℓ} : {V : Type ℓ} (d : Dict V) → IsUnique d → Distinct (keys d)
keys-Distinct [] u = tt
keys-Distinct ((k, v) ∷ d) u = (contains-keys d k u.0, keys-Distinct d u.1)

contains-take :
    (n : ℕ) (ks : List String) (k : String) → contains k ks ≡ false → contains k (take n ks) ≡ false
unfolding contains
contains-take ℕ.zero ks k h = refl
contains-take (suc n) [] k h = refl
contains-take (suc n) (j ∷ ks) k h = ground (arith, contains-take n ks k)

pub take-Distinct : (n : ℕ) (ks : List String) → Distinct ks → Distinct (take n ks)
take-Distinct ℕ.zero ks d = tt
take-Distinct (suc n) [] d = tt
take-Distinct (suc n) (k ∷ ks) d = (contains-take n ks k d.0, take-Distinct n ks d.1)

count-absent :
    (a : String) (ks : List String) → contains a ks ≡ false → count_if (λ k. str_eq k a) ks ≡ 0
unfolding contains
count-absent a [] h = refl
count-absent a (k ∷ ks) h = ground (arith, count-absent a ks)

count-one : (a : String) (ks : List String) → Distinct ks → count_if (λ k. str_eq k a) ks ≤ 1
unfolding contains
count-one a [] d = omega arith
count-one a (k ∷ ks) d = elim (Bool-cases (str_eq k a)) [
  | inl e ↦
      let p : k ≡ a = (eq_iff k a).0 e in
      ground (arith, count-absent k ks d.0, count-absent a ks, p)
  | inr e ↦ ground (arith, count-one a ks d.1)
]

count-split :
    (p q r : String → Bool) (ks : List String)
    → ((k : String) → p k ≡ true → (q k ≡ true) ⊎ (r k ≡ true))
    → count_if p ks ≤ count_if q ks + count_if r ks
count-split p q r [] h = omega arith
count-split p q r (k ∷ ks) h = ground (arith, h k, count-split p q r ks h)

-- A test that only two keys pass holds at most twice in a list without repetitions.
pub count-le_two :
    (p : String → Bool) (a b : String) (ks : List String)
    → Distinct ks
    → ((k : String) → p k ≡ true → (str_eq k a ≡ true) ⊎ (str_eq k b ≡ true))
    → count_if p ks ≤ 2
count-le_two p a b ks d h = omega (
  arith,
  count-split p (λ k. str_eq k a) (λ k. str_eq k b) ks h,
  count-one a ks d,
  count-one b ks d,
)

-- Every key is in the dictionary.
abbrev pub AllIn {ℓ} : {V : Type ℓ} → Dict V → List String → Type 0
AllIn d [] = Unit
AllIn d (k ∷ ks) = (has d k ≡ true) × AllIn d ks

module _ {ℓ} {V : Type ℓ} where
  pub AllIn-pop :
      (d : Dict V) (k : String) (ks : List String)
      → contains k ks ≡ false
      → AllIn d ks
      → AllIn (pop d k) ks
  unfolding contains has
  AllIn-pop d k [] h a = tt
  AllIn-pop d k (j ∷ ks) h a =
      (ground (arith, get-pop d k j, eq_iff k j, eq_iff j k), AllIn-pop d k ks (ground arith) a.1)

  pub size-pop_present : (d : Dict V) (k : String) → has d k ≡ true → suc (size (pop d k)) ≤ size d
  unfolding pop has get
  size-pop_present [] k h = cc
  size-pop_present ((j, v) ∷ d) k h = ground (arith, size-pop_present d k, size-pop-le d k)

  -- A dictionary has no fewer entries than a list of its keys without repetitions.
  pub length-le-size :
      (d : Dict V) (ks : List String) → Distinct ks → AllIn d ks → length ks ≤ size d
  length-le-size d [] s a = omega arith
  length-le-size d (k ∷ ks) s a =
      omega (
        arith,
        size-pop_present d k a.0,
        length-le-size (pop d k) ks s.1 (AllIn-pop d k ks s.0 a.1),
      )

pub contains-append :
    (k : String) (xs ys : List String) → contains k (xs ++ ys) ≡ (contains k xs || contains k ys)
unfolding contains
contains-append k [] ys = refl
contains-append k (x ∷ xs) ys = ground (arith, contains-append k xs ys)
