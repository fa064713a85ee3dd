-- ===== src/Accounts/RefreshQueue/Sets.antt =====
-- Python's `set` of texts as a list without repetitions.
use jove_mage.Prelude.{
  suc, ◌≤◌, String, ◌≡◌, refl, inl, inr, true, false, not, ◌&&◌, ◌||◌, List, [], ◌∷◌, ◌++◌, length,
  arith, eq_iff, eq_refl, str_eq, if◌then◌else◌, contains, Distinct, Bool-cases,
}

-- set.discard
unfoldable pub discard : List String → String → List String
discard [] t = []
discard (s ∷ set) t = let rest = discard set t in if str_eq s t then rest else s ∷ rest

-- set.add
unfoldable pub add : List String → String → List String
unfolding contains
add set t = if contains t set then set else t ∷ set

-- list(dict.fromkeys(xs))
unfoldable pub from_keys : List String → List String
unfolding discard
from_keys [] = []
from_keys (x ∷ xs) = x ∷ discard (from_keys xs) x

pub contains-discard :
    (set : List String) (t u : String)
    → contains u (discard set t) ≡ (not (str_eq t u) && contains u set)
unfolding discard contains
contains-discard [] t u = ground arith
contains-discard (s ∷ set) t u =
    ground (arith, contains-discard set t u, eq_iff s t, eq_iff t u, eq_iff s u)

pub contains-add :
    (set : List String) (t u : String) → contains u (add set t) ≡ (str_eq t u || contains u set)
unfolding add contains
contains-add set t u = ground (arith, eq_iff t u)

pub length-discard : (set : List String) (t : String) → length (discard set t) ≤ length set
unfolding discard
length-discard [] t = omega arith
length-discard (s ∷ set) t = ground (arith, length-discard set t)

pub length-discard_member :
    (set : List String) (t : String)
    → contains t set ≡ true
    → suc (length (discard set t)) ≤ length set
unfolding discard contains
length-discard_member [] t h = absurd (ground (arith, h))
length-discard_member (s ∷ set) t h =
    ground (arith, length-discard_member set t, length-discard set t)

pub length-add : (set : List String) (t : String) → length (add set t) ≤ suc (length set)
unfolding add
length-add set t = ground arith

pub discard-Distinct : (set : List String) (t : String) → Distinct set → Distinct (discard set t)
unfolding discard
discard-Distinct [] t d = tt
discard-Distinct (s ∷ set) t d = elim (Bool-cases (str_eq s t)) [
  | inl e ↦ rw e (discard-Distinct set t d.1)
  | inr e ↦ rw e (ground (arith, contains-discard set t s, d.0), discard-Distinct set t d.1)
]

pub add-Distinct : (set : List String) (t : String) → Distinct set → Distinct (add set t)
unfolding add
add-Distinct set t d = elim (Bool-cases (contains t set)) [ inl e ↦ rw e d | inr e ↦ rw e (e, d) ]

pub from_keys-Distinct : (xs : List String) → Distinct (from_keys xs)
unfolding from_keys
from_keys-Distinct [] = tt
from_keys-Distinct (x ∷ xs) = (
  ground (arith, contains-discard (from_keys xs) x x, eq_refl x),
  discard-Distinct (from_keys xs) x (from_keys-Distinct xs),
)

pub contains-add_last :
    (xs : List String) (t u : String) → contains u (xs ++ (t ∷ [])) ≡ (str_eq t u || contains u xs)
unfolding contains
contains-add_last [] t u = refl
contains-add_last (x ∷ xs) t u = ground (arith, contains-add_last xs t u)

pub append-Distinct :
    (xs : List String) (t : String)
    → contains t xs ≡ false
    → Distinct xs
    → Distinct (xs ++ (t ∷ []))
unfolding contains
append-Distinct [] t h d = (refl, tt)
append-Distinct (x ∷ xs) t h d = (
  ground (arith, contains-add_last xs t x, d.0, h, eq_iff x t, eq_iff t x),
  append-Distinct xs t (ground (arith, h)) d.1,
)
