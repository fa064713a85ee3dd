-- ===== src/Accounts/Precheck/Balance.antt =====
-- The slots that `get_available_access_token` takes and gives back.
use jove_mage.Prelude.{
  ℕ, zero, suc, ◌+◌, String, ◌≡◌, ◌≢◌, refl, ◌∙◌, inl, inr, Bool, true, false, ◌&&◌, Option, none,
  some, List, ◌∷◌, arith, eq_iff, str_eq, if◌then◌else◌, values, Bool-cases, List-cases,
}
use jove_mage.Accounts.{Account, Pool, Config}
use jove_mage.Accounts.Normal.{normalize_source_type, is_empty}
use jove_mage.Accounts.Tokens.{resolve_access_token}
use jove_mage.Accounts.Selection.{
  Request, inflight, take_slot, release_slot, matches, is_image_account_available, is_ready,
  is_open, list_ready_candidate_tokens,
}
use jove_mage.Accounts.Selection.Slots.{
  Listed, Taken, acquire_cases, tokens_of-select, inflight-take_slot, inflight-release_slot,
}
use jove_mage.Accounts.Outcomes.{release_image_slot, release_image_slot_locked}
use jove_mage.Accounts.Refresh.{World}
use jove_mage.Accounts.Precheck.{
  Answer, found, rejected, blocked, with_resolved, after_check, after_pick, attempts,
  get_available_access_token,
}

-- Every account's token leads to itself.
abbrev pub IsKeyed : Pool → Type 0
IsKeyed p =
    (a : Account)
    → Listed a (values p.accounts)
    → resolve_access_token p a.access_token ≡ a.access_token

-- The slots of two pools agree.
abbrev pub SameSlots : Pool → Pool → Type 0
SameSlots p q = (u : String) → inflight p u ≡ inflight q u

-- A check that neither renews nor removes a token: it leaves the slots, the tokens in use, and what
-- they lead to.
pub record KeepsSlots (fetch : ℕ → World → String → World × Option Account) : Type 0 where
  pub keyed :
      (k : ℕ) (w : World) (t : String)
      → resolve_access_token w.pool t ≡ t
      → IsKeyed w.pool
      → IsKeyed (fetch k w t).0.pool
  pub slots :
      (k : ℕ) (w : World) (t : String)
      → resolve_access_token w.pool t ≡ t
      → SameSlots (fetch k w t).0.pool w.pool
  pub in_use :
      (k : ℕ) (w : World) (t : String)
      → resolve_access_token w.pool t ≡ t
      → resolve_access_token (fetch k w t).0.pool t ≡ t

-- One slot more where a token is returned, else as before.
abbrev pub Balanced : Pool → Pool → Answer → Type 0
Balanced p q (found t) =
    (token : String) × ((u : String)
      → inflight q u ≡ (if str_eq token u then inflight p u + 1 else inflight p u))
Balanced p q (rejected kind) = SameSlots q p
Balanced p q blocked = SameSlots q p

Balanced-same :
    (p p' q : Pool) (answer : Answer) → SameSlots p' p → Balanced p' q answer → Balanced p q answer
Balanced-same p p' q (found t) h (token, b) = (token, λ u. rw⁻¹ (h u) (b u))
Balanced-same p p' q (rejected kind) h b = λ u. b u ∙ h u
Balanced-same p p' q blocked h b = λ u. b u ∙ h u

-- The token of a slot is one in use.
Taken-in_use :
    (p p' : Pool) (c : Config) (r : Request) (tried : List String) (t : String)
    → IsKeyed p
    → Taken p p' c r tried t
    → (resolve_access_token p t ≡ t) × (t ≢ "")
Taken-in_use p p' c r tried t keyed k =
    let (a, l, ready, e) =
      tokens_of-select (is_ready r tried) (values p.accounts) t
        (unfold list_ready_candidate_tokens in k.is_candidate) in
    (
      rw⁻¹ e (keyed a l),
      λ n.
          unfold is_ready in
          unfold is_open in ground (arith, ready, e, n, eq_iff a.access_token ""),
    )

resolve-take_slot :
    (p : Pool) (t u : String) → resolve_access_token (take_slot p t) u ≡ resolve_access_token p u
unfolding take_slot resolve_access_token
resolve-take_slot p t u = refl

-- Giving back the slot that was taken, after a check that leaves the slots.
give_back :
    (p q : Pool) (t : String)
    → SameSlots q (take_slot p t)
    → resolve_access_token q t ≡ t
    → t ≢ ""
    → SameSlots (release_image_slot q t) p
unfolding release_image_slot release_image_slot_locked
give_back p q t same used filled u = ground (
  arith,
  eq_iff t "",
  filled,
  used,
  inflight-release_slot q t u,
  same t,
  same u,
  inflight-take_slot p t u,
  inflight-take_slot p t t,
  eq_iff t u,
  eq_iff t t,
)

IsKeyed-take_slot : (p : Pool) (t : String) → IsKeyed p → IsKeyed (take_slot p t)
unfolding take_slot resolve_access_token
IsKeyed-take_slot p t keyed = keyed

IsKeyed-release : (p : Pool) (t : String) → IsKeyed p → IsKeyed (release_image_slot p t)
unfolding release_image_slot
IsKeyed-release p t keyed = elim (Bool-cases (str_eq t "")) [
  | inl e ↦ rw e keyed
  | inr e ↦ rw e (
      unfold release_image_slot_locked in
      unfold release_slot in unfold resolve_access_token in keyed)
]

module _ (fetch : ℕ → World → String → World × Option Account) (c : Config) (r : Request)
    (keeps : KeepsSlots fetch) where
  check-Balanced :
      (next : World → List String → Bool → Bool → World × Answer) (w : World) (t : String)
      (tried : List String) (saw saw_failure : Bool) (s : World × Option Account)
      → ((v : World) (later : List String) (saw' fail' : Bool)
          → IsKeyed v.pool
          → Balanced v.pool (next v later saw' fail').0.pool (next v later saw' fail').1)
      → IsKeyed s.0.pool
      → SameSlots s.0.pool (take_slot w.pool t)
      → resolve_access_token s.0.pool t ≡ t
      → t ≢ ""
      → let e = after_check fetch c r next t tried saw saw_failure s in Balanced w.pool e.0.pool e.1
  unfolding after_check
  check-Balanced next w t tried saw saw_failure (v, none) go keyed same used filled =
      Balanced-same w.pool (release_image_slot v.pool t) _ _
        (give_back w.pool v.pool t same used filled)
        (go (record v { pool = release_image_slot v.pool t }) (t ∷ tried) saw true
          (IsKeyed-release v.pool t keyed))
  check-Balanced next w t tried saw saw_failure (v, some a) go keyed same used filled =
      elim (Bool-cases (is_image_account_available a && matches r a)) [
        | inl g ↦ rw (g, after_check) (t, λ u. same u ∙ taken u)
        | inr g ↦ elim (Bool-cases (str_eq a.status "限流")) [
          | inl h ↦ rw (g, h, after_check) (later true saw_failure)
          | inr h ↦ rw (g, h, after_check) (later saw true)
        ]
      ]
    where
      taken :
          (u : String)
          → inflight (take_slot w.pool t) u
            ≡ (if str_eq t u then inflight w.pool u + 1 else inflight w.pool u)
      taken u = ground (arith, inflight-take_slot w.pool t u, eq_iff t u)

      later :
          (saw' fail' : Bool)
          → let e =
              next
                (record v { pool = release_image_slot v.pool t })
                (with_resolved a t tried)
                saw'
                fail' in
            Balanced w.pool e.0.pool e.1
      later saw' fail' =
          Balanced-same w.pool (release_image_slot v.pool t) _ _
            (give_back w.pool v.pool t same used filled)
            (go (record v { pool = release_image_slot v.pool t }) (with_resolved a t tried) saw'
              fail' (IsKeyed-release v.pool t keyed))

  attempts-Balanced :
      (left : ℕ) (w : World) (tried : List String) (saw saw_failure : Bool)
      → IsKeyed w.pool
      → let e = attempts fetch c r left w tried saw saw_failure in Balanced w.pool e.0.pool e.1
  unfolding attempts after_pick
  attempts-Balanced zero w tried saw saw_failure keyed = λ u. refl
  attempts-Balanced (suc left) w tried saw saw_failure keyed =
      elim (acquire_cases w.pool c r tried) [
        | inl e ↦
            rw (e, attempts)
              (elim (List-cases tried) [
                | inl f ↦ rw (f, is_empty) (λ u. refl)
                | inr (x, xs, f) ↦ rw (f, is_empty) (λ u. refl)
              ])
        | inr (inl e) ↦ rw (e, attempts) (λ u. refl)
        | inr (inr (t, e, k)) ↦
            let (used, filled) = Taken-in_use w.pool (take_slot w.pool t) c r tried t keyed k in
            let v = record w { pool = take_slot w.pool t } in
            rw (e, attempts)
              (check-Balanced (attempts fetch c r left) w t tried saw saw_failure (fetch left v t)
                (attempts-Balanced left)
                (keeps.keyed left v t (resolve-take_slot w.pool t t ∙ used)
                  (IsKeyed-take_slot w.pool t keyed))
                (keeps.slots left v t (resolve-take_slot w.pool t t ∙ used))
                (keeps.in_use left v t (resolve-take_slot w.pool t t ∙ used)) filled)
      ]

  -- Where every account's token leads to itself and the checks neither renew nor remove tokens, a
  -- call that returns a token leaves one token with one image in flight more, and a call that fails
  -- or has to wait leaves every token with as many as before, however many slots it has tried.
  pub slots_kept :
      (w : World) (excluded : List String)
      → str_eq (normalize_source_type r.source_type) "firefly" ≡ false
      → IsKeyed w.pool
      → let e = get_available_access_token fetch c r w excluded in Balanced w.pool e.0.pool e.1
  unfolding get_available_access_token
  slots_kept w excluded checks keyed =
      rw (checks, get_available_access_token) (attempts-Balanced 20 w excluded false false keyed)
