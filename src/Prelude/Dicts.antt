-- ===== src/Prelude/Dicts.antt =====
-- Python's `dict` with `str` keys: an association list in insertion order. An assignment to a key
-- that is there keeps its place, a new key goes to the end.
use Prim.Native.Nat.{ℕ, suc, ◌≤◌}
use Prim.Native.String.{String}
use mathlib.Core.Path.{◌≡◌, refl}
use mathlib.Core.Logic.{inl, inr}
use mathlib.Core.Bool.{Bool, true, false}
use mathlib.Core.Option.{Option, none, some}
use mathlib.Core.Option
use mathlib.Core.List.{List, [], ◌∷◌}
use native.Mathlib.Omega.{arith}
use text.Mathlib.TextEquality.{eq_iff}
use jove_mage.Prelude.Tests.{str_eq, if◌then◌else◌, Bool-cases}
use jove_mage.Prelude.Lists.{length}

abbrev pub Dict {ℓ} : Type ℓ → Type ℓ
Dict V = List (String × V)

module _ {ℓ} {V : Type ℓ} where
  abbrev pub empty : Dict V
  empty = []

  -- d.get(k)
  unfoldable pub get : Dict V → String → Option V
  get [] k = none
  get ((j, v) ∷ d) k = if str_eq j k then some v else get d k

  -- d[k] = v
  unfoldable pub put : Dict V → String → V → Dict V
  put [] k v = (k, v) ∷ []
  put ((j, w) ∷ d) k v = let rest = put d k v in if str_eq j k then (j, v) ∷ d else (j, w) ∷ rest

  -- d.pop(k, None), del d[k]
  unfoldable pub pop : Dict V → String → Dict V
  pop [] k = []
  pop ((j, v) ∷ d) k = let rest = pop d k in if str_eq j k then rest else (j, v) ∷ rest

  -- k in d
  unfoldable pub has : Dict V → String → Bool
  unfolding get
  has d k = elim (get d k) [ none ↦ false | some v ↦ true ]

  -- len(d)
  abbrev pub size : Dict V → ℕ
  size d = length d

  abbrev pub keys : Dict V → List String
  keys [] = []
  keys ((k, v) ∷ d) = k ∷ keys d

  abbrev pub values : Dict V → List V
  values [] = []
  values ((k, v) ∷ d) = v ∷ values d

  pub get-empty : (k : String) → get [] k ≡ none
  unfolding get
  get-empty k = refl

  pub get-pop :
      (d : Dict V) (k j : String) → get (pop d k) j ≡ (if str_eq k j then none else get d j)
  unfolding get pop
  get-pop [] k j = ground arith
  get-pop ((i, v) ∷ d) k j = ground (arith, get-pop d k j, eq_iff i k, eq_iff i j, eq_iff k j)

  pub get-put :
      (d : Dict V) (k j : String) (v : V)
      → get (put d k v) j ≡ (if str_eq k j then some v else get d j)
  unfolding get put
  get-put [] k j v = refl
  get-put ((i, w) ∷ d) k j v = ground (arith, get-put d k j v, eq_iff i k, eq_iff i j, eq_iff k j)

  pub has-get : (d : Dict V) (k : String) (v : V) → get d k ≡ some v → has d k ≡ true
  unfolding has
  has-get d k v h = ground arith

  -- No key stands twice.
  abbrev pub IsUnique : Dict V → Type ℓ
  IsUnique [] = Unit
  IsUnique ((k, v) ∷ d) = (get d k ≡ none) × IsUnique d

  pub IsUnique-put : (d : Dict V) (k : String) (v : V) → IsUnique d → IsUnique (put d k v)
  unfolding put
  IsUnique-put [] k v u = (get-empty k, tt)
  IsUnique-put ((j, w) ∷ d) k v u = elim (Bool-cases (str_eq j k)) [
    | inl e ↦ rw e u
    | inr e ↦ rw e (ground (arith, get-put d k j v, eq_iff j k, eq_iff k j), IsUnique-put d k v u.1)
  ]

  pub IsUnique-pop : (d : Dict V) (k : String) → IsUnique d → IsUnique (pop d k)
  unfolding pop
  IsUnique-pop [] k u = tt
  IsUnique-pop ((j, w) ∷ d) k u = elim (Bool-cases (str_eq j k)) [
    | inl e ↦ rw e (IsUnique-pop d k u.1)
    | inr e ↦ rw e (ground (arith, get-pop d k j), IsUnique-pop d k u.1)
  ]

  pub size-put :
      (d : Dict V) (k : String) (v : V)
      → size (put d k v) ≡ (if has d k then size d else suc (size d))
  unfolding put has
  size-put [] k v = refl
  size-put ((j, w) ∷ d) k v = ground (arith, size-put d k v)

  pub size-pop-le : (d : Dict V) (k : String) → size (pop d k) ≤ size d
  unfolding pop
  size-pop-le [] k = omega arith
  size-pop-le ((j, w) ∷ d) k = ground (arith, size-pop-le d k)

  pub pop-absent : (d : Dict V) (k : String) → get d k ≡ none → pop d k ≡ d
  unfolding pop get
  pop-absent [] k h = refl
  pop-absent ((j, w) ∷ d) k h = ground (arith, pop-absent d k)

  pub size-pop :
      (d : Dict V) (k : String) (v : V)
      → IsUnique d
      → get d k ≡ some v
      → suc (size (pop d k)) ≡ size d
  unfolding pop get
  size-pop [] k v u h = cc
  size-pop ((j, w) ∷ d) k v u h = ground (arith, size-pop d k v u.1, pop-absent d k, eq_iff j k)

module _ {ℓ κ} {V : Type ℓ} {W : Type κ} where
  -- {k: f(v) for k, v in d.items()}
  abbrev pub map_values : (V → W) → Dict V → Dict W
  map_values f [] = []
  map_values f ((k, v) ∷ d) = (k, f v) ∷ map_values f d

  pub get-map_values :
      (f : V → W) (d : Dict V) (k : String) → get (map_values f d) k ≡ Option.map f (get d k)
  unfolding get
  get-map_values f [] k = refl
  get-map_values f ((j, v) ∷ d) k = ground (arith, get-map_values f d k)

pub ruleset dict_laws = (get-empty, get-pop, get-put, get-map_values)
