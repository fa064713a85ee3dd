-- ===== src/Accounts/Keepalive/Earliest.antt =====
-- The renewals that are longest due come first.
use jove_mage.Prelude.{
  ℕ, zero, suc, ◌≤◌, String, ◌≡◌, refl, sym, ap, ◌∙◌, ◌⊎◌, inl, inr, Option, some, List, [], ◌∷◌,
  arith, length, length-take, take, ltb, str_eq, strip, values, Bool-cases, Option-cases,
}
use jove_mage.Accounts.{Account, Pool}
use jove_mage.Accounts.Selection.Slots.{Listed}
use jove_mage.Accounts.Keepalive.{
  Due, insert_due, sort_due, keepalive_due_at, due_items, keepalive_items, keepalive_batch,
}

abbrev pub Member : Due → List Due → Type 0
Member d [] = ⊥
Member d (e ∷ due) = (d ≡ e) ⊎ Member d due

-- Nothing in the list is due earlier.
abbrev NotBefore : Due → List Due → Type 0
NotBefore d [] = Unit
NotBefore d (e ∷ due) = (d.due_at ≤ e.due_at) × NotBefore d due

abbrev Sorted : List Due → Type 0
Sorted [] = Unit
Sorted (d ∷ due) = NotBefore d due × Sorted due

NotBefore-trans :
    (d e : Due) (due : List Due) → d.due_at ≤ e.due_at → NotBefore e due → NotBefore d due
NotBefore-trans d e [] h n = tt
NotBefore-trans d e (f ∷ due) h n = (omega (arith, h, n.0), NotBefore-trans d e due h n.1)

NotBefore-insert :
    (d e : Due) (due : List Due)
    → d.due_at ≤ e.due_at
    → NotBefore d due
    → NotBefore d (insert_due e due)
unfolding insert_due
NotBefore-insert d e [] h n = (h, tt)
NotBefore-insert d e (f ∷ due) h n = elim (Bool-cases (ltb e.due_at f.due_at)) [
  | inl t ↦ rw t (h, n)
  | inr t ↦ rw t (n.0, NotBefore-insert d e due h n.1)
]

insert_due-Sorted : (d : Due) (due : List Due) → Sorted due → Sorted (insert_due d due)
unfolding insert_due
insert_due-Sorted d [] s = (tt, tt)
insert_due-Sorted d (e ∷ due) s = elim (Bool-cases (ltb d.due_at e.due_at)) [
  | inl t ↦ rw t ((ground (arith, t), NotBefore-trans d e due (ground (arith, t)) s.0), s)
  | inr t ↦ rw t (NotBefore-insert e d due (ground (arith, t)) s.0, insert_due-Sorted d due s.1)
]

sort_due-Sorted : (sorted due : List Due) → Sorted sorted → Sorted (sort_due sorted due)
unfolding sort_due
sort_due-Sorted sorted [] s = s
sort_due-Sorted sorted (d ∷ due) s =
    sort_due-Sorted (insert_due d sorted) due (insert_due-Sorted d sorted s)

Member-insert : (d e : Due) (due : List Due) → (d ≡ e) ⊎ Member d due → Member d (insert_due e due)
unfolding insert_due
Member-insert d e [] m = m
Member-insert d e (f ∷ due) m = elim (Bool-cases (ltb e.due_at f.due_at)) [
  | inl t ↦ rw t m
  | inr t ↦ rw t (elim m [
    | inl p ↦ inr (Member-insert d e due (inl p))
    | inr (inl p) ↦ inl p
    | inr (inr q) ↦ inr (Member-insert d e due (inr q))
  ])
]

insert-Member : (d e : Due) (due : List Due) → Member d (insert_due e due) → (d ≡ e) ⊎ Member d due
unfolding insert_due
insert-Member d e [] m = m
insert-Member d e (f ∷ due) m = elim (Bool-cases (ltb e.due_at f.due_at)) [
  | inl t ↦ rw t at m
  | inr t ↦ elim (under_head (rw t at m)) as (λ _. (d ≡ e) ⊎ Member d (f ∷ due)) [
    | inl p ↦ inr (inl p)
    | inr q ↦ elim (insert-Member d e due q) [ inl p ↦ inl p | inr r ↦ inr (inr r) ]
  ]
]
  where
    under_head : Member d (f ∷ insert_due e due) → (d ≡ f) ⊎ Member d (insert_due e due)
    under_head m' = m'

Member-sort :
    (d : Due) (sorted due : List Due)
    → Member d sorted ⊎ Member d due
    → Member d (sort_due sorted due)
unfolding sort_due
Member-sort d sorted [] (inl m) = m
Member-sort d sorted [] (inr m) = absurd m
Member-sort d sorted (e ∷ due) (inl m) =
    Member-sort d (insert_due e sorted) due (inl (Member-insert d e sorted (inr m)))
Member-sort d sorted (e ∷ due) (inr (inl p)) =
    Member-sort d (insert_due e sorted) due (inl (Member-insert d e sorted (inl p)))
Member-sort d sorted (e ∷ due) (inr (inr m)) = Member-sort d (insert_due e sorted) due (inr m)

sort-Member :
    (d : Due) (sorted due : List Due)
    → Member d (sort_due sorted due)
    → Member d sorted ⊎ Member d due
unfolding sort_due
sort-Member d sorted [] m = inl m
sort-Member d sorted (e ∷ due) m = elim (sort-Member d (insert_due e sorted) due m) [
  | inl q ↦ elim (insert-Member d e sorted q) [ inl p ↦ inr (inl p) | inr r ↦ inl r ]
  | inr q ↦ inr (inr q)
]

take-Member : (d : Due) (n : ℕ) (due : List Due) → Member d (take n due) → Member d due
take-Member d zero due m = absurd m
take-Member d (suc n) [] m = absurd m
take-Member d (suc n) (e ∷ due) (inl p) = inl p
take-Member d (suc n) (e ∷ due) (inr m) = inr (take-Member d n due m)

NotBefore-Member :
    (d e : Due) (due : List Due) → NotBefore d due → Member e due → d.due_at ≤ e.due_at
NotBefore-Member d e [] n m = absurd m
NotBefore-Member d e (f ∷ due) n (inl p) = ground (arith, n.0, ap (λ x. x.due_at) p)
NotBefore-Member d e (f ∷ due) n (inr m) = NotBefore-Member d e due n.1 m

taken_first :
    (n : ℕ) (due : List Due) (d e : Due)
    → Sorted due
    → Member d (take n due)
    → Member e due
    → Member e (take n due) ⊎ (d.due_at ≤ e.due_at)
taken_first zero due d e s m k = absurd m
taken_first (suc n) [] d e s m k = absurd m
taken_first (suc n) (f ∷ due) d e s m (inl p) = inl (inl p)
taken_first (suc n) (f ∷ due) d e s (inl p) (inr k) =
    inr (ground (arith, NotBefore-Member f e due s.0 k, ap (λ x. x.due_at) p))
taken_first (suc n) (f ∷ due) d e s (inr m) (inr k) = elim (taken_first n due d e s.1 m k) [
  | inl q ↦ inl (inr q)
  | inr q ↦ inr q
]

-- Each due item is an account's.
due_items-Listed :
    (issued_at : String → Option ℕ) (now : ℕ) (accounts : List Account) (d : Due)
    → Member d (due_items issued_at now accounts)
    → (a : Account) × Listed a accounts
      × (keepalive_due_at issued_at now a ≡ some d.due_at)
      × (strip a.access_token ≡ d.token)
unfolding due_items
due_items-Listed issued_at now [] d m = absurd m
due_items-Listed issued_at now (b ∷ accounts) d m =
    elim (Option-cases (keepalive_due_at issued_at now b)) [
      | inl e ↦ later (due_items-Listed issued_at now accounts d (rw (e, due_items) at m))
      | inr (at, e) ↦ elim (Bool-cases (str_eq (strip b.access_token) "")) [
        | inl f ↦ later (due_items-Listed issued_at now accounts d (rw (e, f, due_items) at m))
        | inr f ↦ elim (head_or_rest at (rw (e, f, due_items) at m)) [
          | inl p ↦ (b, inl refl, e ∙ ap (λ x. some x.due_at) (sym p), ap (λ x. x.token) (sym p))
          | inr q ↦ later (due_items-Listed issued_at now accounts d q)
        ]
      ]
    ]
  where
    head_or_rest :
        (at : ℕ)
        → Member d (
            record { due_at = at; token = strip b.access_token } ∷ due_items issued_at now accounts)
        → (d ≡ record { due_at = at; token = strip b.access_token })
          ⊎ Member d (due_items issued_at now accounts)
    head_or_rest at m' = m'

    later :
        ((a : Account) × Listed a accounts
          × (keepalive_due_at issued_at now a ≡ some d.due_at)
          × (strip a.access_token ≡ d.token))
        → (a : Account) × Listed a (b ∷ accounts)
          × (keepalive_due_at issued_at now a ≡ some d.due_at)
          × (strip a.access_token ≡ d.token)
    later (a, l, h, t) = (a, inr l, h, t)

-- One run of the keepalive renews at most three tokens. Each is the token of an account that is due
-- since that time, and an item that is due but not chosen is due no earlier than any chosen one.
pub earliest_are_renewed :
    (issued_at : String → Option ℕ) (now : ℕ) (p : Pool) (d e : Due)
    → Member d (keepalive_items issued_at now p)
    → Member e (due_items issued_at now (values p.accounts))
    → (length (keepalive_items issued_at now p) ≤ keepalive_batch)
      × ((a : Account) × Listed a (values p.accounts)
          × (keepalive_due_at issued_at now a ≡ some d.due_at)
          × (strip a.access_token ≡ d.token))
      × (Member e (keepalive_items issued_at now p) ⊎ (d.due_at ≤ e.due_at))
unfolding keepalive_items
earliest_are_renewed issued_at now p d e m k =
    let items = due_items issued_at now (values p.accounts) in
    let sorted = sort_due [] items in
    (
      omega (arith, length-take keepalive_batch sorted),
      due_items-Listed issued_at now (values p.accounts) d
          (elim (sort-Member d [] items (take-Member d keepalive_batch sorted m)) [
            | inl n ↦ absurd n
            | inr n ↦ n
          ]),
      taken_first keepalive_batch sorted d e (sort_due-Sorted [] items tt) m
          (Member-sort e [] items (inr k)),
    )
