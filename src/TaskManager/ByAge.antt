-- ===== src/TaskManager/ByAge.antt =====
-- The sorting by age of `submit`'s pruning keeps the tasks.
use jove_mage.Prelude.{
  suc, String, ◌≡◌, refl, ap, ◌∙◌, inl, inr, none, some, [], ◌∷◌, arith, eq_iff, str_eq,
  if◌then◌else◌, leb, Dict, get, Bool-cases, keys, size, length, IsUnique,
}
use jove_mage.TaskManager.{Task, insert_by_age, sorted_by_age}

-- Sorting keeps the entries.
pub get-insert_by_age :
    (k : String) (t : Task) (d : Dict Task) (j : String)
    → get d k ≡ none
    → get (insert_by_age (k, t) d) j ≡ (if str_eq k j then some t else get d j)
unfolding insert_by_age get
get-insert_by_age k t [] j h = refl
get-insert_by_age k t ((i, u) ∷ d) j h =
    ground (arith, get-insert_by_age k t d j, eq_iff i k, eq_iff i j, eq_iff k j)

pub insert_by_age-IsUnique :
    (k : String) (t : Task) (d : Dict Task)
    → get d k ≡ none
    → IsUnique d
    → IsUnique (insert_by_age (k, t) d)
unfolding insert_by_age get
insert_by_age-IsUnique k t [] h u = (refl, tt)
insert_by_age-IsUnique k t ((i, w) ∷ d) h u = elim (Bool-cases (leb t.created_at w.created_at)) [
  | inl e ↦ rw e (h, u)
  | inr e ↦ rw e (
    ground (arith, get-insert_by_age k t d i, eq_iff i k, eq_iff k i),
    insert_by_age-IsUnique k t d (ground arith) u.1,
  )
]

pub get-sorted_by_age :
    (d : Dict Task) (j : String) → IsUnique d → get (sorted_by_age d) j ≡ get d j
unfolding sorted_by_age get
get-sorted_by_age [] j u = refl
get-sorted_by_age ((k, t) ∷ d) j u = ground (
  arith,
  get-sorted_by_age d j u.1,
  get-sorted_by_age d k u.1,
  get-insert_by_age k t (sorted_by_age d) j,
)

pub sorted_by_age-IsUnique : (d : Dict Task) → IsUnique d → IsUnique (sorted_by_age d)
unfolding sorted_by_age
sorted_by_age-IsUnique [] u = tt
sorted_by_age-IsUnique ((k, t) ∷ d) u =
    insert_by_age-IsUnique k t (sorted_by_age d) (get-sorted_by_age d k u.1 ∙ u.0)
      (sorted_by_age-IsUnique d u.1)

pub length-insert_by_age :
    (e : String × Task) (d : Dict Task) → size (insert_by_age e d) ≡ suc (size d)
unfolding insert_by_age
length-insert_by_age e [] = refl
length-insert_by_age (k, t) ((i, u) ∷ d) = ground (arith, length-insert_by_age (k, t) d)

pub length-keys-sorted : (d : Dict Task) → length (keys (sorted_by_age d)) ≡ size d
unfolding sorted_by_age
length-keys-sorted d = length-keys (sorted_by_age d) ∙ sizes d
  where
    length-keys : (d : Dict Task) → length (keys d) ≡ size d
    length-keys [] = refl
    length-keys ((k, t) ∷ d) = ap suc (length-keys d)

    sizes : (d : Dict Task) → size (sorted_by_age d) ≡ size d
    sizes [] = refl
    sizes (e ∷ d) = length-insert_by_age e (sorted_by_age d) ∙ ap suc (sizes d)
