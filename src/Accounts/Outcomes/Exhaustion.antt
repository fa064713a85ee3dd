-- ===== src/Accounts/Outcomes/Exhaustion.antt =====
-- What a used-up quota leaves in the pool.
use jove_mage.Prelude.{
  ℕ, ◌-◌, String, ◌≡◌, ◌≢◌, refl, sym, ◌∙◌, ◌⊎◌, inl, inr, true, false, ◌||◌, none, some, [], ◌∷◌,
  arith, eq_iff, eq_refl, str_eq, if◌then◌else◌, strip, Dict, get, get-pop, values, Bool-cases,
}
use jove_mage.Accounts.{Account, Pool, Config, save}
use jove_mage.Accounts.Normal.{
  normalize_account, normal_fields, renormalize, to_item, or_text, merged_quota,
}
use jove_mage.Accounts.Selection.{inflight, release_slot, is_image_account_available}
use jove_mage.Accounts.Selection.Slots.{inflight-release_slot}
use jove_mage.Accounts.Outcomes.{
  store, drop_aliases, wrap_index, remove_account, store_or_remove, exhausted, report_exhausted,
}
use jove_mage.Accounts.Outcomes.Accounting.{
  InUse, InUse-resolve, InUse-release, known_after, inflight-store, get-store, saved-store,
}

-- Every alias of the token, or to it, is gone.
abbrev pub Unlinked : Pool → String → Type 0
Unlinked p token =
    (old new : String) → get p.token_aliases old ≡ some new → (old ≢ token) × (new ≢ token)

drop_aliases-Unlinked :
    (aliases : Dict String) (token old new : String)
    → get (drop_aliases aliases token) old ≡ some new
    → (old ≢ token) × (new ≢ token)
unfolding drop_aliases get
drop_aliases-Unlinked [] token old new h = absurd (ground (arith, h))
drop_aliases-Unlinked ((j, k) ∷ aliases) token old new h =
    elim (Bool-cases (str_eq j token || str_eq k token)) [
      | inl e ↦ drop_aliases-Unlinked aliases token old new (ground (arith, e, h))
      | inr e ↦ elim (Bool-cases (str_eq j old)) [
        | inl s ↦ (
          λ q. ground (arith, e, h, s, q, eq_iff j old, eq_iff j token),
          λ q. ground (arith, e, h, s, q, eq_iff k token),
        )
        | inr s ↦ drop_aliases-Unlinked aliases token old new (ground (arith, e, h, s))
      ]
    ]

-- The pool holds nothing of the token.
pub record Gone (p : Pool) (token : String) : Type 0 where
  pub no_account : get p.accounts token ≡ none
  pub no_slot : inflight p token ≡ 0
  pub no_alias : Unlinked p token
  pub stored : p.saved ≡ values p.accounts

remove_account-Gone : (p : Pool) (token : String) → Gone (remove_account p token) token
unfolding remove_account save inflight wrap_index
remove_account-Gone p token = record {
  no_account = get-pop p.accounts token token ∙ ground (arith, eq_refl token);
  no_slot = ground (arith, get-pop p.image_inflight token token, eq_refl token);
  no_alias = drop_aliases-Unlinked p.token_aliases token;
  stored = refl;
}

-- What `exhausted` leaves of an account.
result-exhausted :
    (now : ℕ) (reason : String) (a : Account)
    → a.access_token ≢ ""
    → (b : Account) × (renormalize now (exhausted now reason a) ≡ some b)
      × (b.status ≡ "限流")
      × (b.quota ≡ 0)
      × (is_image_account_available b ≡ false)
unfolding renormalize normalize_account normal_fields exhausted merged_quota
    is_image_account_available or_text strip
result-exhausted now reason a filled = (
  normal_fields now (to_item (exhausted now reason a)),
  ground (arith, eq_iff a.access_token "", filled),
  refl,
  refl,
  refl,
)

exhausted_runs :
    (now : ℕ) (c : Config) (p : Pool) (token reason : String) (a b : Account)
    → InUse p token a
    → renormalize now (exhausted now reason a) ≡ some b
    → report_exhausted now c p token reason ≡ store_or_remove c (release_slot p token) token b
unfolding report_exhausted
exhausted_runs now c p token reason a b u f = ground (
  arith,
  eq_iff token "",
  u.filled,
  InUse-resolve p token a u,
  InUse-release p token a u,
  known_after p token a u,
  f,
)

-- An account that is reported as exhausted gives back one slot and is no longer available for
-- images: where limited accounts are removed, the pool then holds neither the account nor a slot or
-- an alias of its token; otherwise the account is stored and saved as limited, with the quota 0.
pub exhausted_is_out :
    (now : ℕ) (c : Config) (p : Pool) (token reason : String) (a : Account)
    → InUse p token a
    → let r = report_exhausted now c p token reason in
      ((c.auto_remove_rate_limited_accounts ≡ true) × Gone r.0 token × (r.1 ≡ none))
      ⊎ ((c.auto_remove_rate_limited_accounts ≡ false)
          × (inflight r.0 token ≡ inflight p token - 1)
          × (r.0.saved ≡ values r.0.accounts)
          × ((b : Account) × (r.1 ≡ some b)
              × (b.status ≡ "限流")
              × (b.quota ≡ 0)
              × (is_image_account_available b ≡ false)
              × ((other : String)
                  → get r.0.accounts other
                    ≡ (if str_eq token other then some b else get p.accounts other))))
exhausted_is_out now c p token reason a u =
    let (b, f, status, quota, out) = result-exhausted now reason a filled in
    rw (exhausted_runs now c p token reason a b u f)
      (elim (Bool-cases c.auto_remove_rate_limited_accounts) [
        | inl e ↦ inl (rw (removes b status e) (e, remove_account-Gone q token, refl))
        | inr e ↦ inr (
            rw (keeps b e) (
              e,
              inflight-store q token b token ∙ given_back,
              saved-store q token b,
              (b, refl, status, quota, out, λ other. get-store q token b other ∙ kept b other),
            ))
      ])
  where
    q : Pool
    q = release_slot p token

    filled : a.access_token ≢ ""
    filled h = u.filled (sym u.own ∙ h)

    removes :
        (b : Account)
        → b.status ≡ "限流"
        → c.auto_remove_rate_limited_accounts ≡ true
        → store_or_remove c q token b ≡ (remove_account q token, none)
    removes b s e = unfold store_or_remove in ground (arith, eq_iff b.status "限流", s, e)

    keeps :
        (b : Account)
        → c.auto_remove_rate_limited_accounts ≡ false
        → store_or_remove c q token b ≡ (store q token b, some b)
    keeps b e = unfold store_or_remove in ground (arith, e)

    kept :
        (b : Account) (other : String)
        → (if str_eq token other then some b else get (release_slot p token).accounts other)
          ≡ (if str_eq token other then some b else get p.accounts other)
    kept b other = unfold release_slot in refl

    given_back : inflight (release_slot p token) token ≡ inflight p token - 1
    given_back = ground (arith, inflight-release_slot p token token, eq_refl token)
