-- ===== src/Failures/Codes/Found.antt =====
-- The loop over pending values finds exactly the codes that stand in the answer.
use jove_mage.Prelude.{
  ℕ, zero, suc, ◌+◌, ◌≤◌, String, ◌≡◌, refl, ◌∙◌, ap, Bool, false, not, ◌&&◌, ◌||◌, strip,
  Bool-cases, inl, inr, none, some, List, [], ◌∷◌, arith, eq_iff, str_eq, contains, Value, Items,
  Fields,
}
use jove_mage.Failures.{normal_code}
use jove_mage.Failures.Codes.{
  add_code, code_keys, add_candidate, add_named, field_of, is_container, push_fields, push_items,
  expand, own_codes, visit_pending, count_values, structured_codes, count_items, count_fields,
}

-- Whether a value is a text that is not blank and is that code.
unfoldable pub is_code : String → Value → Bool
is_code c (Value.str s) = not (str_eq (strip s) "") && str_eq (normal_code s) c
is_code c Value.null = false
is_code c (Value.bool b) = false
is_code c (Value.int n) = false
is_code c (Value.float m e) = false
is_code c (Value.list xs) = false
is_code c (Value.dict fs) = false

unfoldable pub stands_at : String → List String → Fields → Bool
unfolding is_code
stands_at c [] fs = false
stands_at c (key ∷ keys) fs = is_code c (field_of fs key) || stands_at c keys fs

-- Whether a code stands at one of the keys of a mapping in the value, at any depth.
unfoldable mutual
  unfolding stands_at

  pub names : String → Value → Bool
  names c Value.null = false
  names c (Value.bool b) = false
  names c (Value.int n) = false
  names c (Value.float m e) = false
  names c (Value.str s) = false
  names c (Value.list xs) = items_name c xs
  names c (Value.dict fs) = stands_at c code_keys fs || fields_name c fs

  pub items_name : String → Items → Bool
  items_name c Items.nil = false
  items_name c (Items.cons x xs) = names c x || items_name c xs

  pub fields_name : String → Fields → Bool
  fields_name c Fields.end = false
  fields_name c (Fields.field k x fs) = names c x || fields_name c fs

abbrev any_names : String → List Value → Bool
any_names c [] = false
any_names c (v ∷ pending) = names c v || any_names c pending

abbrev count_pending : List Value → ℕ
count_pending [] = 0
count_pending (v ∷ pending) = count_values v + count_pending pending

contains-add_code :
    (c code : String) (codes : List String)
    → contains c (add_code code codes) ≡ (str_eq code c || contains c codes)
unfolding add_code contains
contains-add_code c code codes = elim (Bool-cases (contains code codes)) [
  | inl e ↦ rw e (ground (arith, e, eq_iff code c))
  | inr e ↦ rw e refl
]

contains-add_candidate :
    (c : String) (v : Value) (codes : List String)
    → contains c (add_candidate v codes) ≡ (is_code c v || contains c codes)
unfolding add_candidate is_code
contains-add_candidate c (Value.str s) codes = elim (Bool-cases (str_eq (strip s) "")) [
  | inl e ↦ rw e refl
  | inr e ↦ rw e (contains-add_code c (normal_code s) codes)
]
contains-add_candidate c Value.null codes = refl
contains-add_candidate c (Value.bool b) codes = refl
contains-add_candidate c (Value.int n) codes = refl
contains-add_candidate c (Value.float m e) codes = refl
contains-add_candidate c (Value.list xs) codes = refl
contains-add_candidate c (Value.dict fs) codes = refl

contains-add_named :
    (c : String) (keys : List String) (fs : Fields) (codes : List String)
    → contains c (add_named keys fs codes) ≡ (stands_at c keys fs || contains c codes)
unfolding add_named stands_at
contains-add_named c [] fs codes = refl
contains-add_named c (key ∷ keys) fs codes = ground (
  arith,
  contains-add_named c keys fs (add_candidate (field_of fs key) codes),
  contains-add_candidate c (field_of fs key) codes,
)

leaf-names : (c : String) (v : Value) → is_container v ≡ false → names c v ≡ false
unfolding is_container names
leaf-names c Value.null h = refl
leaf-names c (Value.bool b) h = refl
leaf-names c (Value.int n) h = refl
leaf-names c (Value.float m e) h = refl
leaf-names c (Value.str s) h = refl
leaf-names c (Value.list xs) h = absurd (ground (arith, h))
leaf-names c (Value.dict fs) h = absurd (ground (arith, h))

any_names-push_fields :
    (c : String) (fs : Fields) (pending : List Value)
    → any_names c (push_fields fs pending) ≡ (fields_name c fs || any_names c pending)
unfolding push_fields names
any_names-push_fields c Fields.end pending = refl
any_names-push_fields c (Fields.field k v fs) pending = elim (Bool-cases (is_container v)) [
  | inl e ↦ rw e (ground (arith, any_names-push_fields c fs (v ∷ pending)))
  | inr e ↦ rw e (ground (arith, any_names-push_fields c fs pending, leaf-names c v e))
]

any_names-push_items :
    (c : String) (xs : Items) (pending : List Value)
    → any_names c (push_items xs pending) ≡ (items_name c xs || any_names c pending)
unfolding push_items names
any_names-push_items c Items.nil pending = refl
any_names-push_items c (Items.cons x xs) pending =
    ground (arith, any_names-push_items c xs (x ∷ pending))

count_pending-push_fields :
    (fs : Fields) (pending : List Value)
    → count_pending (push_fields fs pending) ≤ count_fields fs + count_pending pending
unfolding push_fields count_values
count_pending-push_fields Fields.end pending = omega arith
count_pending-push_fields (Fields.field k v fs) pending = elim (Bool-cases (is_container v)) [
  | inl e ↦ rw e (omega (arith, count_pending-push_fields fs (v ∷ pending)))
  | inr e ↦ rw e (omega (arith, count_pending-push_fields fs pending))
]

count_pending-push_items :
    (xs : Items) (pending : List Value)
    → count_pending (push_items xs pending) ≤ count_items xs + count_pending pending
unfolding push_items count_values
count_pending-push_items Items.nil pending = omega arith
count_pending-push_items (Items.cons x xs) pending =
    omega (arith, count_pending-push_items xs (x ∷ pending))

count_pending-expand :
    (v : Value) (pending : List Value)
    → suc (count_pending (expand v pending)) ≤ count_values v + count_pending pending
unfolding expand count_values
count_pending-expand (Value.dict fs) pending = omega (arith, count_pending-push_fields fs pending)
count_pending-expand (Value.list xs) pending = omega (arith, count_pending-push_items xs pending)
count_pending-expand Value.null pending = omega arith
count_pending-expand (Value.bool b) pending = omega arith
count_pending-expand (Value.int n) pending = omega arith
count_pending-expand (Value.float m e) pending = omega arith
count_pending-expand (Value.str s) pending = omega arith

regroup :
    (here known below later : Bool)
    → ((here || known) || (below || later)) ≡ (known || ((here || below) || later))
regroup here known below later = ground arith

-- A visit moves what a value names to the codes and to the pending values.
names-visit :
    (c : String) (v : Value) (pending : List Value) (codes : List String)
    → (contains c (own_codes v codes) || any_names c (expand v pending))
      ≡ (contains c codes || any_names c (v ∷ pending))
unfolding own_codes expand names
names-visit c (Value.dict fs) pending codes =
    ap (λ b. b || any_names c (push_fields fs pending)) (contains-add_named c code_keys fs codes)
    ∙ ap (λ b. (stands_at c code_keys fs || contains c codes) || b)
        (any_names-push_fields c fs pending)
    ∙ regroup (stands_at c code_keys fs) (contains c codes) (fields_name c fs) (any_names c pending)
names-visit c (Value.list xs) pending codes = ground (arith, any_names-push_items c xs pending)
names-visit c Value.null pending codes = refl
names-visit c (Value.bool b) pending codes = refl
names-visit c (Value.int n) pending codes = refl
names-visit c (Value.float m e) pending codes = refl
names-visit c (Value.str s) pending codes = refl

visit_pending-finds :
    (fuel : ℕ) (pending : List Value) (codes : List String)
    → count_pending pending ≤ fuel
    → (r : List String) × (visit_pending fuel pending codes ≡ some r)
      × ((c : String) → contains c r ≡ (contains c codes || any_names c pending))
unfolding visit_pending
visit_pending-finds fuel [] codes h = (codes, refl, λ c. ground arith)
visit_pending-finds zero (v ∷ pending) codes h =
    absurd (omega (arith, h, count_pending-expand v pending))
visit_pending-finds (suc fuel) (v ∷ pending) codes h =
    let (r, e, found) =
      visit_pending-finds fuel (expand v pending) (own_codes v codes)
        (omega (arith, h, count_pending-expand v pending)) in
    (r, e, λ c. found c ∙ names-visit c v pending codes)

start-names : (c : String) (v : Value) → (contains c [] || any_names c (v ∷ [])) ≡ names c v
unfolding contains
start-names c v = ground arith

-- The loop over pending values ends within as many rounds as there are values, and a code is among
-- those that it has collected exactly if it stands, as a text that is not blank, at one of the five
-- keys of a mapping in the answer, at any depth.
pub structured_codes_lem :
    (v : Value)
    → ((r : List String) × (visit_pending (count_values v) (v ∷ []) [] ≡ some r))
      × ((c : String) → contains c (structured_codes v) ≡ names c v)
unfolding structured_codes
structured_codes_lem v =
    let (r, e, found) = visit_pending-finds (count_values v) (v ∷ []) [] (omega arith) in
    (
      (r, e),
      λ c.
          ap (λ o. contains c (elim o as (λ _. List String) [ none ↦ [] | some codes ↦ codes ])) e
          ∙ found c
          ∙ start-names c v,
    )
