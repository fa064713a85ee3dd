-- ===== src/Accounts/Selection/Slots.antt =====
-- Slots: what a picked token is, and the bound on the images in flight.
use jove_mage.Prelude.{
  ℕ, ◌+◌, ◌-◌, ◌≤◌, ◌<◌, ◌%◌, String, ◌≡◌, ◌≢◌, refl, ◌⊎◌, inl, inr, Bool, true, some, List, [],
  ◌∷◌, arith, eq_iff, eq_refl, str_eq, ltb, if◌then◌else◌, contains, select, get_elem?, length,
  values, get-put, get-pop, Bool-cases, Option-cases, List-cases, get_elem?-cons,
}
use jove_mage.Accounts.{Account, Pool, Config}
use jove_mage.Accounts.Selection.{
  no_ready_candidate_error, refused, waits, Request, picked, is_ready, tokens_of,
  list_ready_candidate_tokens, list_available_candidate_tokens, inflight, max_concurrency,
  acquire_next_candidate_token, take_slot, release_slot,
}

-- The account is in the list.
abbrev pub Listed : Account → List Account → Type 0
Listed a [] = ⊥
Listed a (b ∷ accounts) = (a ≡ b) ⊎ Listed a accounts

-- A token of the selected accounts is the token of one of them.
pub tokens_of-select :
    (q : Account → Bool) (accounts : List Account) (t : String)
    → contains t (tokens_of (select q accounts)) ≡ true
    → (a : Account) × (Listed a accounts) × (q a ≡ true) × (a.access_token ≡ t)
unfolding contains tokens_of
tokens_of-select q [] t h = absurd (ground (arith, h))
tokens_of-select q (b ∷ accounts) t h = elim (Bool-cases (q b)) [
  | inl e ↦ elim (Bool-cases (str_eq b.access_token t)) [
    | inl hit ↦ (b, inl refl, e, (eq_iff b.access_token t).0 hit)
    | inr miss ↦
        let (a, l, qa, ta) = tokens_of-select q accounts t (ground (arith, e, miss)) in
        (a, inr l, qa, ta)
  ]
  | inr e ↦
      let (a, l, qa, ta) = tokens_of-select q accounts t (ground (arith, e)) in (a, inr l, qa, ta)
]

get_elem?-select :
    (q : String → Bool) (xs : List String) (i : ℕ) (t : String)
    → get_elem? (select q xs) i ≡ some t
    → (q t ≡ true) × (contains t xs ≡ true)
unfolding contains
get_elem?-select q [] i t h = cc
get_elem?-select q (x ∷ xs) i t h = elim (Bool-cases (q x)) [
  | inl e ↦ elim (get_elem?-cons x (select q xs) i t (rw e at h)) [
    | inl same ↦ ground (arith, e, same, eq_iff x t)
    | inr (j, k) ↦ ground (arith, get_elem?-select q xs j t k)
  ]
  | inr e ↦ ground (arith, get_elem?-select q xs i t (rw e at h))
]

pub inflight-take_slot :
    (p : Pool) (t u : String)
    → inflight (take_slot p t) u ≡ (if str_eq t u then inflight p t + 1 else inflight p u)
unfolding inflight take_slot
inflight-take_slot p t u = ground (arith, get-put p.image_inflight t u (inflight p t + 1))

pub inflight-release_slot :
    (p : Pool) (t u : String)
    → inflight (release_slot p t) u ≡ (if str_eq t u then inflight p t - 1 else inflight p u)
unfolding inflight release_slot
inflight-release_slot p t u =
    ground (arith, get-put p.image_inflight t u (inflight p t - 1), get-pop p.image_inflight t u)

-- What a round that hands out a token has found.
pub record Taken (p p' : Pool) (c : Config) (r : Request) (excluded : List String) (t : String)
    : Type 0 where
  pub slot_free : inflight p t < max_concurrency c
  pub is_candidate : contains t (list_ready_candidate_tokens p r excluded) ≡ true
  pub after : p' ≡ take_slot p t

pub acquire-Taken :
    (p p' : Pool) (c : Config) (r : Request) (excluded : List String) (t : String)
    → acquire_next_candidate_token p c r excluded ≡ (p', picked t)
    → Taken p p' c r excluded t
unfolding acquire_next_candidate_token
acquire-Taken p p' c r excluded t h = elim (List-cases (list_ready_candidate_tokens p r excluded)) [
  | inl e ↦ absurd (ground (arith, e))
  | inr (y, ys, e) ↦ elim (Option-cases (get_elem? tokens (p.index % length tokens))) [
    | inl f ↦ absurd (ground (arith, e, f))
    | inr (u, f) ↦
        let hit =
          get_elem?-select (λ token. ltb (inflight p token) (max_concurrency c))
            (list_ready_candidate_tokens p r excluded) (p.index % length tokens) u
            (unfold list_available_candidate_tokens in f) in
        record {
          slot_free = ground (arith, e, f, hit);
          is_candidate = ground (arith, e, f, hit);
          after = ground (arith, e, f);
        }
  ]
]
  where
    tokens : List String
    tokens = list_available_candidate_tokens p c r excluded

-- One round: an error where nothing is ready, a wait, or a slot that is taken.
pub acquire_cases :
    (p : Pool) (c : Config) (r : Request) (excluded : List String)
    → (acquire_next_candidate_token p c r excluded
        ≡ (p, refused (no_ready_candidate_error p r excluded)))
      ⊎ (acquire_next_candidate_token p c r excluded ≡ (p, waits))
      ⊎ ((t : String) × (acquire_next_candidate_token p c r excluded ≡ (take_slot p t, picked t))
          × Taken p (take_slot p t) c r excluded t)
unfolding acquire_next_candidate_token
acquire_cases p c r excluded = elim (List-cases (list_ready_candidate_tokens p r excluded)) [
  | inl e ↦ inl (ground (arith, e))
  | inr (y, ys, e) ↦ elim (Option-cases (get_elem? tokens (p.index % length tokens))) [
    | inl f ↦ inr (inl (ground (arith, e, f)))
    | inr (u, f) ↦ inr (
        inr (
          u,
          ground (arith, e, f),
          acquire-Taken p (take_slot p u) c r excluded u (ground (arith, e, f)),
        ))
  ]
]
  where
    tokens : List String
    tokens = list_available_candidate_tokens p c r excluded

-- A token that is handed out belongs to an account of the pool that is available, matches the
-- request and is not excluded. The token had a slot left; it has one image in flight more than
-- before, within the limit, and every other token has as many as before.
pub picked_slot :
    (p p' : Pool) (c : Config) (r : Request) (excluded : List String) (t other : String)
    → acquire_next_candidate_token p c r excluded ≡ (p', picked t)
    → ((a : Account) × (Listed a (values p.accounts))
        × (is_ready r excluded a ≡ true)
        × (a.access_token ≡ t))
      × (inflight p' t ≡ inflight p t + 1)
      × (inflight p' t ≤ max_concurrency c)
      × (other ≢ t → inflight p' other ≡ inflight p other)
      × (p'.accounts ≡ p.accounts)
picked_slot p p' c r excluded t other h =
    let k = acquire-Taken p p' c r excluded t h in
    rw k.after (
      tokens_of-select (is_ready r excluded) (values p.accounts) t
          (unfold list_ready_candidate_tokens in k.is_candidate),
      ground (arith, inflight-take_slot p t t, eq_refl t),
      ground (arith, inflight-take_slot p t t, eq_refl t, k.slot_free),
      λ apart. ground (arith, inflight-take_slot p t other, eq_iff t other, apart),
      unfold take_slot in refl,
    )

-- No token has more images in flight than the limit.
abbrev pub IsWithin : Config → Pool → Type 0
IsWithin c p = (t : String) → inflight p t ≤ max_concurrency c

-- Taking and giving back slots, in any order and by any requests.
pub data SlotCall : Type 0 where
  takes : Request → List String → SlotCall
  gives : String → SlotCall

unfoldable pub slot_call : Config → Pool → SlotCall → Pool
slot_call c p (takes r excluded) = (acquire_next_candidate_token p c r excluded).0
slot_call c p (gives t) = release_slot p t

unfoldable pub slot_calls : Config → Pool → List SlotCall → Pool
slot_calls c p [] = p
slot_calls c p (call ∷ calls) = slot_calls c (slot_call c p call) calls

acquire-IsWithin :
    (c : Config) (p : Pool) (r : Request) (excluded : List String)
    → IsWithin c p
    → IsWithin c (acquire_next_candidate_token p c r excluded).0
unfolding acquire_next_candidate_token
acquire-IsWithin c p r excluded w t = elim (List-cases (list_ready_candidate_tokens p r excluded)) [
  | inl e ↦ ground (arith, e, w t)
  | inr (y, ys, e) ↦ elim (Option-cases (get_elem? tokens (p.index % length tokens))) [
    | inl f ↦ ground (arith, e, f, w t)
    | inr (u, f) ↦
        let k = acquire-Taken p (take_slot p u) c r excluded u (ground (arith, e, f)) in
        ground (arith, e, f, w t, inflight-take_slot p u t, k.slot_free, eq_iff u t)
  ]
]
  where
    tokens : List String
    tokens = list_available_candidate_tokens p c r excluded

slot_call-IsWithin :
    (c : Config) (p : Pool) (call : SlotCall) → IsWithin c p → IsWithin c (slot_call c p call)
unfolding slot_call
slot_call-IsWithin c p (takes r excluded) w t = acquire-IsWithin c p r excluded w t
slot_call-IsWithin c p (gives u) w t =
    ground (arith, inflight-release_slot p u t, w t, w u, eq_iff u t)

-- Where no account has more images in flight than the configured limit, which counts as 1 where
-- it is 0, none has after any requests take slots and give them back, in whatever order.
pub slots_bounded :
    (c : Config) (p : Pool) (calls : List SlotCall)
    → IsWithin c p
    → IsWithin c (slot_calls c p calls)
unfolding slot_calls
slots_bounded c p [] w = w
slots_bounded c p (call ∷ calls) w =
    slots_bounded c (slot_call c p call) calls (slot_call-IsWithin c p call w)
