-- ===== src/Accounts/Rotation/Moves.antt =====
-- A rotated token takes everything along, and a refresh under old credentials changes nothing.
use jove_mage.Prelude.{
  ℕ, zero, suc, ◌+◌, ◌<◌, String, ◌≡◌, ◌≢◌, refl, true, false, not, ◌&&◌, ◌||◌, Option, none, some,
  [], ◌∷◌, arith, eq_iff, eq_refl, str_eq, if◌then◌else◌, contains, strip, strip-empty, Dict, get,
  put, pop, has, size, get-put, get-pop, has-get, values,
}
use jove_mage.Accounts.{Account, Pool, save}
use jove_mage.Accounts.Normal.{
  normalize_account, normal_fields, renormalize, to_item, or_text, merged_quota,
}
use jove_mage.Accounts.Tokens.{goes_on, alias_of, resolve_loop, resolve_access_token}
use jove_mage.Accounts.Selection.{inflight}
use jove_mage.Accounts.Outcomes.Accounting.{InUse, InUse-resolve}
use jove_mage.Accounts.RefreshQueue.{Queue, rotate_queue}
use jove_mage.Accounts.Rotation.{TokenData, refreshed, differs, rotate_pool, apply_refreshed_tokens}

inflight-rotate_pool :
    (p : Pool) (old new : String) (b : Account) (u : String)
    → old ≢ new
    → inflight (save (rotate_pool p old new b)) u ≡ (
        if str_eq new u
        then inflight p new + inflight p old
        else if str_eq old u
        then 0
        else inflight p u)
unfolding inflight rotate_pool save
inflight-rotate_pool p old new b u apart = ground (
  arith,
  apart,
  eq_iff old new,
  eq_iff new u,
  eq_iff old u,
  get-pop p.image_inflight old new,
  get-pop p.image_inflight old u,
  get-put (pop p.image_inflight old) new u (here + inflight p old),
)
  where
    here : ℕ
    here = elim (get (pop p.image_inflight old) new) [ none ↦ 0 | some n ↦ n ]

-- A token that is not in use, with an alias that is, leads to that.
leads :
    (fuel : ℕ) (accounts : Dict Account) (aliases : Dict String) (old new : String)
    → 0 < fuel
    → old ≢ ""
    → has accounts old ≡ false
    → get aliases old ≡ some new
    → has accounts new ≡ true
    → (resolve_loop fuel accounts aliases old []).0 ≡ new
unfolding resolve_loop
leads zero accounts aliases old new h filled out link used = absurd (omega (arith, h))
leads (suc fuel) accounts aliases old new h filled out link used =
    rw (starts, resolve_loop) (rw follow (stays fuel))
  where
    starts : goes_on accounts aliases old [] ≡ true
    starts =
        unfold goes_on in
        unfold contains in ground (arith, eq_iff old "", filled, out, has-get aliases old new link)

    follow : alias_of aliases old ≡ new
    follow = unfold alias_of in ground (arith, link)

    stops : goes_on accounts aliases new (old ∷ []) ≡ false
    stops = unfold goes_on in ground (arith, used)

    stays : (n : ℕ) → (resolve_loop n accounts aliases new (old ∷ [])).0 ≡ new
    stays zero = unfold resolve_loop in refl
    stays (suc n) = rw (stops, resolve_loop) refl

size-put_pos : (d : Dict String) (k v : String) → 0 < size (put d k v)
unfolding put
size-put_pos [] k v = omega arith
size-put_pos ((j, w) ∷ d) k v = ground arith

-- The old token leads to the new one.
rotated_leads :
    (p : Pool) (old new : String) (b : Account)
    → strip old ≡ old
    → old ≢ ""
    → old ≢ new
    → resolve_access_token (save (rotate_pool p old new b)) old ≡ new
unfolding save resolve_access_token rotate_pool has
rotated_leads p old new b trimmed filled apart =
    rw (trimmed, resolve_access_token)
      (leads (size (put p.token_aliases old new)) (put (pop p.accounts old) new b)
        (put p.token_aliases old new) old new (size-put_pos p.token_aliases old new) filled
        (ground (
          arith,
          get-put (pop p.accounts old) new old b,
          get-pop p.accounts old old,
          eq_refl old,
          eq_iff new old,
          apart,
        ))
        (ground (arith, get-put p.token_aliases old old new, eq_refl old))
        (ground (arith, get-put (pop p.accounts old) new new b, eq_refl new)))

-- What a refresh leaves of an account.
result-refreshed :
    (now : ℕ) (new : String) (answer : TokenData) (a : Account)
    → new ≢ ""
    → (b : Account) × (renormalize now (refreshed now new answer a) ≡ some b)
      × (b.access_token ≡ new)
      × (b.quota ≡ a.quota)
      × (b.success ≡ a.success)
      × (b.fail ≡ a.fail)
      × (b.invalid_count ≡ 0)
unfolding renormalize normalize_account normal_fields refreshed merged_quota
result-refreshed now new answer a filled = (
  normal_fields now (to_item (refreshed now new answer a)),
  ground (arith, eq_iff new "", filled),
  refl,
  refl,
  refl,
  refl,
  refl,
)

get-rotate_pool :
    (p : Pool) (old new : String) (b : Account) (u : String)
    → get (save (rotate_pool p old new b)).accounts u
      ≡ (if str_eq new u then some b else if str_eq old u then none else get p.accounts u)
unfolding rotate_pool save
get-rotate_pool p old new b u =
    ground (arith, get-put (pop p.accounts old) new u b, get-pop p.accounts old u)

rotation_runs :
    (now : ℕ) (p : Pool) (q : Queue) (old new : String) (answer : TokenData) (a b : Account)
    → InUse p old a
    → strip answer.access_token ≡ new
    → new ≢ ""
    → old ≢ new
    → has p.accounts new ≡ false
    → renormalize now (refreshed now new answer a) ≡ some b
    → apply_refreshed_tokens now p q old answer (some old) (some a.refresh_token)
      ≡ (save (rotate_pool p old new b), rotate_queue q old new, some new)
unfolding apply_refreshed_tokens differs or_text
rotation_runs now p q old new answer a b u h filled apart free f = ground (
  arith,
  InUse-resolve p old a u,
  u.known,
  u.trimmed,
  h,
  f,
  free,
  filled,
  apart,
  eq_iff new "",
  eq_iff new old,
  eq_iff answer.access_token "",
  strip-empty,
  eq_refl old,
  eq_refl (strip a.refresh_token),
)

-- A refresh begun with the present tokens of an account in use, which gives it a new token that
-- no account has, moves it: the account stands under the new token alone, with its quota, its
-- successes and its failures, and with no invalid count, the images in flight under the old token
-- count under the new one, the old token leads to the new one, every other account and its images
-- in flight are as before, the accounts are saved, and the queue of checks is rewritten.
pub rotation_moves_all :
    (now : ℕ) (p : Pool) (q : Queue) (old new other : String) (answer : TokenData) (a : Account)
    → InUse p old a
    → strip answer.access_token ≡ new
    → new ≢ ""
    → old ≢ new
    → other ≢ old
    → other ≢ new
    → has p.accounts new ≡ false
    → let r = apply_refreshed_tokens now p q old answer (some old) (some a.refresh_token) in
      (r.2 ≡ some new)
      × (r.1 ≡ rotate_queue q old new)
      × ((b : Account) × (get r.0.accounts new ≡ some b)
          × (b.access_token ≡ new)
          × (b.quota ≡ a.quota)
          × (b.success ≡ a.success)
          × (b.fail ≡ a.fail)
          × (b.invalid_count ≡ 0))
      × (get r.0.accounts old ≡ none)
      × (inflight r.0 new ≡ inflight p new + inflight p old)
      × (inflight r.0 old ≡ 0)
      × (resolve_access_token r.0 old ≡ new)
      × (get r.0.accounts other ≡ get p.accounts other)
      × (inflight r.0 other ≡ inflight p other)
      × (r.0.saved ≡ values r.0.accounts)
unfolding save
rotation_moves_all now p q old new other answer a u h filled apart away away' free =
    let (b, f, named, quota, success, fail, invalid) = result-refreshed now new answer a filled in
    rw (rotation_runs now p q old new answer a b u h filled apart free f) (
      refl,
      refl,
      (
        b,
        ground (arith, get-rotate_pool p old new b new, eq_refl new),
        named,
        quota,
        success,
        fail,
        invalid,
      ),
      ground (arith, get-rotate_pool p old new b old, eq_refl old, eq_iff new old, apart),
      ground (arith, inflight-rotate_pool p old new b new apart, eq_refl new),
      ground
          (arith, inflight-rotate_pool p old new b old apart, eq_refl old, eq_iff new old, apart),
      rotated_leads p old new b u.trimmed u.filled apart,
      ground (
        arith,
        get-rotate_pool p old new b other,
        eq_iff new other,
        eq_iff old other,
        away,
        away',
      ),
      ground (
        arith,
        inflight-rotate_pool p old new b other apart,
        eq_iff new other,
        eq_iff old other,
        away,
        away',
      ),
      refl,
    )

-- A refresh that was begun with a refresh token which the account no longer has, or for another
-- access token, or whose new token another account has, is refused, and whenever a refresh is
-- refused, the pool and the queue of checks are as before.
pub refused_refresh_changes_nothing :
    (now : ℕ) (p : Pool) (q : Queue) (old : String) (answer : TokenData) (a : Account)
    (expected_access expected_refresh : Option String)
    → InUse p old a
    → let r = apply_refreshed_tokens now p q old answer expected_access expected_refresh in
      let new = strip (or_text answer.access_token old) in
      ((differs expected_access old
            || differs expected_refresh (strip a.refresh_token)
            || (not (str_eq new "") && not (str_eq new old) && has p.accounts new))
          ≡ true
        → r.2 ≡ none)
      × (r.2 ≡ none → (r.0 ≡ p) × (r.1 ≡ q))
unfolding apply_refreshed_tokens
refused_refresh_changes_nothing now p q old answer a expected_access expected_refresh u =
    (λ h. ground (arith, h, InUse-resolve p old a u, u.known), λ h. ground (arith, h))
