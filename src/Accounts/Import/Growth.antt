-- ===== src/Accounts/Import/Growth.antt =====
-- What an import leaves in the pool.
use jove_mage.Prelude.{
  ℕ, suc, ◌+◌, String, ◌≡◌, ◌≢◌, refl, ◌∙◌, inl, inr, Bool, true, false, not, Option, none, some,
  List, [], ◌∷◌, arith, eq_iff, eq_refl, str_eq, if◌then◌else◌, Dict, get, put, pop, has, size,
  IsUnique, IsUnique-put, IsUnique-pop, size-put, size-pop, get-put, get-pop, Bool-cases,
  Option-cases,
}
use jove_mage.Accounts.{Item, Account, Pool, save}
use jove_mage.Accounts.Normal.{normalize_account, normal_fields, to_item}
use jove_mage.Accounts.Views.{blank}
use jove_mage.Accounts.Import.{
  Payload, own, dedupe, account_id_of, find_firefly, existing_firefly, merged_account,
  rotate_firefly, incoming_account, put_account, add_new, add_payload, add_all,
  add_account_payloads,
}

normalized_is_some :
    (now : ℕ) (item : Item)
    → item.access_token ≢ ""
    → (a : Account) × (normalize_account now item ≡ some a) × (a.access_token ≡ item.access_token)
unfolding normalize_account normal_fields
normalized_is_some now item filled =
    (normal_fields now item, ground (arith, eq_iff item.access_token "", filled), refl)

-- The token that is found is one of the accounts'.
find_firefly-get :
    (accounts : Dict Account) (account_id token : String)
    → find_firefly accounts account_id ≡ some token
    → has accounts token ≡ true
unfolding find_firefly has get
find_firefly-get [] account_id token h = absurd (ground (arith, h))
find_firefly-get ((t, a) ∷ accounts) account_id token h =
    ground (arith, h, find_firefly-get accounts account_id token, eq_iff t token)

-- What a payload does to a pool that holds no token twice: the account stands under its token, the
-- slots are left as they are, and the pool grows by one exactly if the payload counts as added.
pub record Added (p : Pool) (payload : Payload) (r : Pool × Bool) : Type 0 where
  pub stands :
      (a : Account) × (get r.0.accounts payload.token ≡ some a) × (a.access_token ≡ payload.token)
  pub slots_left : r.0.image_inflight ≡ p.image_inflight
  pub grows : size r.0.accounts ≡ (if r.1 then suc (size p.accounts) else size p.accounts)
  pub once : IsUnique r.0.accounts

put_account-Added :
    (p : Pool) (payload : Payload) (o : Option Account)
    → IsUnique p.accounts
    → (a : Account) × (o ≡ some a) × (a.access_token ≡ payload.token)
    → Added p payload (put_account p payload.token o, not (has p.accounts payload.token))
unfolding put_account
put_account-Added p payload o u (a, e, t) = rw e (record {
  stands = (
    a,
    ground (arith, get-put p.accounts payload.token payload.token a, eq_refl payload.token),
    t,
  );
  slots_left = refl;
  grows = ground (arith, size-put p.accounts payload.token a);
  once = IsUnique-put p.accounts payload.token a u;
})

incoming_is_some :
    (now : ℕ) (base : Item) (payload : Payload)
    → payload.token ≢ ""
    → (a : Account) × (incoming_account now base payload ≡ some a)
      × (a.access_token ≡ payload.token)
unfolding incoming_account
incoming_is_some now base payload filled = normalized_is_some now _ filled

merged_is_some :
    (now : ℕ) (existing : Account) (payload : Payload)
    → payload.token ≢ ""
    → (a : Account) × (merged_account now existing payload ≡ some a)
      × (a.access_token ≡ payload.token)
unfolding merged_account
merged_is_some now existing payload filled = normalized_is_some now _ filled

rotate_firefly-Added :
    (now : ℕ) (p : Pool) (old : String) (existing : Account) (payload : Payload)
    → IsUnique p.accounts
    → payload.token ≢ ""
    → get p.accounts old ≡ some existing
    → get p.accounts payload.token ≡ none
    → Added p payload (rotate_firefly now p old existing payload, false)
unfolding rotate_firefly has
rotate_firefly-Added now p old existing payload u filled there free =
    let (a, e, t) = merged_is_some now existing payload filled in
    let apart : str_eq old payload.token ≡ false =
      ground (arith, there, free, eq_iff old payload.token) in
    rw (e, apart, rotate_firefly)
      (record {
        stands = (
          a,
          ground (
            arith,
            get-put (pop p.accounts old) payload.token payload.token a,
            eq_refl payload.token,
          ),
          t,
        );
        slots_left = refl;
        grows = ground (
          arith,
          size-put (pop p.accounts old) payload.token a,
          size-pop p.accounts old existing u there,
          get-pop p.accounts old payload.token,
          free,
          there,
        );
        once = IsUnique-put (pop p.accounts old) payload.token a (IsUnique-pop p.accounts old u);
      })

add_new-Added :
    (now : ℕ) (p : Pool) (payload : Payload)
    → IsUnique p.accounts
    → payload.token ≢ ""
    → get p.accounts payload.token ≡ none
    → Added p payload (add_new now p payload)
unfolding add_new
add_new-Added now p payload u filled e = elim (Option-cases (existing_firefly p payload)) [
  | inl f ↦
      let free : has p.accounts payload.token ≡ false = unfold has in ground (arith, e) in
      rw (f, add_new)
        (rw free at (
          put_account-Added p payload
            (incoming_account now (record blank { created_at = some now }) payload) u
            (incoming_is_some now (record blank { created_at = some now }) payload filled)))
  | inr (old, f) ↦ elim (Option-cases (get p.accounts old)) [
    | inl g ↦ absurd (no_stranger old f g)
    | inr (existing, g) ↦
        rw (f, g, add_new) (rotate_firefly-Added now p old existing payload u filled g e)
  ]
]
  where
    no_stranger :
        (old : String) → existing_firefly p payload ≡ some old → get p.accounts old ≡ none → ⊥
    no_stranger old f g =
        unfold existing_firefly in
        unfold has in
        ground (arith, f, g, find_firefly-get p.accounts (account_id_of (own payload)) old)

add_payload-Added :
    (now : ℕ) (p : Pool) (payload : Payload)
    → IsUnique p.accounts
    → payload.token ≢ ""
    → Added p payload (add_payload now p payload)
unfolding add_payload
add_payload-Added now p payload u filled = elim (Option-cases (get p.accounts payload.token)) [
  | inr (current, e) ↦
      let known : has p.accounts payload.token ≡ true = unfold has in ground (arith, e) in
      rw (e, add_payload)
        (rw known at (
          put_account-Added p payload (incoming_account now (to_item current) payload) u
            (incoming_is_some now (to_item current) payload filled)))
  | inl e ↦ rw (e, add_payload) (add_new-Added now p payload u filled e)
]

add_all-grows :
    (now : ℕ) (p : Pool) (added : ℕ) (payloads : Dict (Item → Item))
    → IsUnique p.accounts
    → ((token : String) → has payloads token ≡ true → token ≢ "")
    → let r = add_all now p added payloads in
      (size r.0.accounts + added ≡ size p.accounts + r.1)
      × IsUnique r.0.accounts
      × (r.0.image_inflight ≡ p.image_inflight)
unfolding add_all
add_all-grows now p added [] u named = (refl, u, refl)
add_all-grows now p added ((token, writes) ∷ payloads) u named =
    let payload : Payload = record { token = token; writes = writes } in
    let step =
      add_payload-Added now p payload u
        (named token (unfold has in unfold get in ground (arith, eq_refl token))) in
    let s = add_payload now p payload in
    let (sizes, once, slots) =
      add_all-grows now s.0 (if s.1 then suc added else added) payloads step.once
        (λ t h. named t (unfold has in unfold get in ground (arith, h))) in
    (ground (arith, sizes, step.grows), once, slots ∙ step.slots_left)

dedupe-named :
    (seen : Dict (Item → Item)) (payloads : List Payload)
    → ((token : String) → has seen token ≡ true → token ≢ "")
    → (token : String) → has (dedupe seen payloads) token ≡ true
    → token ≢ ""
unfolding dedupe
dedupe-named seen [] named = named
dedupe-named seen (payload ∷ payloads) named = elim (Bool-cases (str_eq payload.token "")) [
  | inl e ↦ rw (e, dedupe) (dedupe-named seen payloads named)
  | inr e ↦ rw (e, dedupe) (dedupe-named (put seen payload.token _) payloads (more e _))
]
  where
    more :
        str_eq payload.token "" ≡ false
        → (writes : Item → Item) (token : String) → has (put seen payload.token writes) token ≡ true
        → token ≢ ""
    more e writes token h n =
        unfold has in
        ground (
          arith,
          e,
          h,
          n,
          named token,
          get-put seen payload.token token writes,
          eq_iff payload.token token,
          eq_iff payload.token "",
        )

-- An import adds to a pool that holds no token twice exactly as many accounts as it says, holds none
-- twice afterwards, and leaves the counts of images in flight under the tokens under which they were,
-- also where it moves a Firefly account to a new token.
pub import_grows :
    (now : ℕ) (p : Pool) (payloads : List Payload)
    → IsUnique p.accounts
    → let r = add_account_payloads now p payloads in
      (size r.0.accounts ≡ size p.accounts + r.1)
      × IsUnique r.0.accounts
      × (r.0.image_inflight ≡ p.image_inflight)
unfolding add_account_payloads
import_grows now p payloads u =
    go (dedupe [] payloads)
      (dedupe-named [] payloads (λ token h. absurd (unfold has in unfold get in ground (arith, h))))
  where
    go :
        (d : Dict (Item → Item))
        → ((token : String) → has d token ≡ true → token ≢ "")
        → let r = elim d as (λ _. Pool × ℕ) [
          | [] ↦ (p, 0)
          | first ∷ rest ↦ let s = add_all now p 0 (first ∷ rest) in (save s.0, s.1)
        ] in
          (size r.0.accounts ≡ size p.accounts + r.1)
          × IsUnique r.0.accounts
          × (r.0.image_inflight ≡ p.image_inflight)
    go [] named = (omega arith, u, refl)
    go (first ∷ rest) named =
        let (sizes, once, slots) = add_all-grows now p 0 (first ∷ rest) u named in
        unfold save in (omega (arith, sizes), once, slots)
