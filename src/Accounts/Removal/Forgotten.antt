-- ===== src/Accounts/Removal/Forgotten.antt =====
-- A deleted account leaves nothing behind in the pool.
use jove_mage.Prelude.{
  ◌+◌, String, ◌≡◌, ◌≢◌, refl, sym, ap, inl, inr, true, false, ◌||◌, none, some, List, [], ◌∷◌,
  arith, eq_iff, eq_refl, ltb, str_eq, if◌then◌else◌, contains, Dict, get, has, pop, get-pop, size,
  size-pop, IsUnique, IsUnique-pop, pop-absent, Bool-cases, Option-cases, List-cases,
}
use jove_mage.Accounts.{Pool, save}
use jove_mage.Accounts.Tokens.{resolve_access_token}
use jove_mage.Accounts.Outcomes.{wrap_index}
use jove_mage.Accounts.Outcomes.Exhaustion.{Unlinked}
use jove_mage.Accounts.Selection.{inflight}
use jove_mage.Accounts.Removal.{
  pop_all, count_popped, keep_aliases, targets, without_targets, remove_targets, delete_accounts,
}

get-pop_all {ℓ} :
    {V : Type ℓ} (d : Dict V) (gone : List String) (k : String)
    → get (pop_all d gone) k ≡ (if contains k gone then none else get d k)
unfolding pop_all contains
get-pop_all d [] k = refl
get-pop_all d (token ∷ gone) k = ground (arith, get-pop_all (pop d token) gone k, get-pop d token k)

get-keep_aliases :
    (gone : List String) (aliases : Dict String) (old new : String)
    → get (keep_aliases gone aliases) old ≡ some new
    → (contains old gone ≡ false) × (contains new gone ≡ false)
unfolding keep_aliases get
get-keep_aliases gone [] old new h = absurd (ground (arith, h))
get-keep_aliases gone ((j, k) ∷ aliases) old new h =
    elim (Bool-cases (contains j gone || contains k gone)) [
      | inl e ↦ get-keep_aliases gone aliases old new (ground (arith, e, h))
      | inr e ↦ elim (Bool-cases (str_eq j old)) [
        | inl s ↦ ground (arith, e, h, s, eq_iff j old)
        | inr s ↦ get-keep_aliases gone aliases old new (ground (arith, e, h, s))
      ]
    ]

contains-targets :
    (p : Pool) (tokens : List String) (token : String)
    → token ≢ ""
    → contains token tokens ≡ true
    → contains (resolve_access_token p token) (targets p tokens) ≡ true
unfolding contains targets
contains-targets p [] token filled h = absurd (ground (arith, h))
contains-targets p (t ∷ tokens) token filled h = elim (Bool-cases (str_eq t token)) [
  | inl e ↦ of_head ((eq_iff t token).0 e)
  | inr e ↦ ground (arith, contains-targets p tokens token filled (ground (arith, e, h)))
]
  where
    of_head : t ≡ token → contains (resolve_access_token p token) (targets p (t ∷ tokens)) ≡ true
    of_head same =
        rw same (ground (arith, eq_iff token "", filled, eq_refl (resolve_access_token p token)))

-- Whether or not the pool is saved, it holds what `without_targets` leaves.
remove_targets-same :
    (p : Pool) (gone : List String)
    → let r = remove_targets p gone in
      (r.0.accounts ≡ pop_all p.accounts gone)
      × (r.0.image_inflight ≡ pop_all p.image_inflight gone)
      × (r.0.token_aliases ≡ keep_aliases gone p.token_aliases)
      × (r.1 ≡ count_popped p.accounts gone)
unfolding without_targets remove_targets count_popped
remove_targets-same p gone = elim (Bool-cases (ltb 0 (count_popped p.accounts gone))) [
  | inl e ↦ rw (e, remove_targets) (unfold save in unfold wrap_index in (refl, refl, refl, refl))
  | inr e ↦ rw (e, remove_targets) (refl, refl, refl, refl)
]

keep_aliases-none : (aliases : Dict String) → keep_aliases [] aliases ≡ aliases
unfolding keep_aliases contains
keep_aliases-none [] = refl
keep_aliases-none ((old, new) ∷ aliases) = ap (λ x. (old, new) ∷ x) (keep_aliases-none aliases)

-- The same of a deletion, also where no token is left to delete.
delete_accounts-same :
    (p : Pool) (tokens : List String)
    → let r = delete_accounts p tokens in
      (r.0.accounts ≡ pop_all p.accounts (targets p tokens))
      × (r.0.image_inflight ≡ pop_all p.image_inflight (targets p tokens))
      × (r.0.token_aliases ≡ keep_aliases (targets p tokens) p.token_aliases)
      × (r.1 ≡ count_popped p.accounts (targets p tokens))
unfolding delete_accounts
delete_accounts-same p tokens = elim (List-cases (targets p tokens)) [
  | inl e ↦
      rw (e, delete_accounts)
        (unfold pop_all in
          unfold count_popped in (refl, refl, sym (keep_aliases-none p.token_aliases), refl))
  | inr (t, ts, e) ↦ rw (e, delete_accounts) (remove_targets-same p (t ∷ ts))
]

-- Each account that is popped is counted.
size-pop_all {ℓ} :
    {V : Type ℓ} (d : Dict V) (gone : List String)
    → IsUnique d
    → size (pop_all d gone) + count_popped d gone ≡ size d
unfolding pop_all count_popped has
size-pop_all d [] u = omega arith
size-pop_all d (token ∷ gone) u = elim (Option-cases (get d token)) [
  | inl e ↦
      let rest = size-pop_all (pop d token) gone (IsUnique-pop d token u) in
      ground (arith, e, rest, pop-absent d token e)
  | inr (v, e) ↦
      let rest = size-pop_all (pop d token) gone (IsUnique-pop d token u) in
      ground (arith, e, rest, size-pop d token v u e)
]

-- After a deletion, the token that a deleted token led to is the key of no account, has no image in
-- flight, and no alias starts or ends at it. Accounts and slots of tokens that are not meant keep
-- as they are, and the number returned is that of the accounts that are gone.
pub deleted_is_gone :
    (p : Pool) (tokens : List String) (token other : String)
    → IsUnique p.accounts
    → token ≢ ""
    → contains token tokens ≡ true
    → contains other (targets p tokens) ≡ false
    → let r = delete_accounts p tokens in
      let last = resolve_access_token p token in
      (get r.0.accounts last ≡ none)
      × (inflight r.0 last ≡ 0)
      × Unlinked r.0 last
      × (get r.0.accounts other ≡ get p.accounts other)
      × (inflight r.0 other ≡ inflight p other)
      × (size r.0.accounts + r.1 ≡ size p.accounts)
unfolding inflight
deleted_is_gone p tokens token other u filled h away =
    let (accounts, slots, aliases, removed) = delete_accounts-same p tokens in
    let hit = contains-targets p tokens token filled h in
    let gone = targets p tokens in
    (
      ground (arith, accounts, get-pop_all p.accounts gone (resolve_access_token p token), hit),
      ground (arith, slots, get-pop_all p.image_inflight gone (resolve_access_token p token), hit),
      λ old new k.
          let (from, to) = get-keep_aliases gone p.token_aliases old new (rw aliases at k) in
          (λ q. ground (arith, hit, from, q), λ q. ground (arith, hit, to, q)),
      ground (arith, accounts, get-pop_all p.accounts gone other, away),
      ground (arith, slots, get-pop_all p.image_inflight gone other, away),
      rw (accounts, removed) (size-pop_all p.accounts gone u),
    )
