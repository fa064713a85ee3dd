-- ===== src/Accounts/Precheck.antt =====
-- `get_available_access_token`: a slot is taken, its account is checked at the remote service, and
-- the slot is given back where the check fails. `fetch` is `fetch_remote_info`, which here may do
-- anything to the pool; `none` is a check that raises.
pub mod Verdict
pub mod Balance
pub mod Steady
use jove_mage.Prelude.{
  ℕ, zero, suc, String, Bool, true, false, not, ◌&&◌, ◌||◌, Option, none, some, List, [], ◌∷◌,
  str_eq, if◌then◌else◌,
}
use jove_mage.Accounts.{Account, Pool, Config}
use jove_mage.Accounts.Normal.{normalize_source_type, or_text, is_empty}
use jove_mage.Accounts.Selection.{
  Request, Kind, Pick, quota_exhausted, unavailable, picked, refused, waits,
  acquire_next_candidate_token, matches, is_image_account_available,
}
use jove_mage.Accounts.Refresh.{World}
use jove_mage.Accounts.Outcomes.{release_image_slot}

-- How a call ends: with a token, with an error, or waiting for a slot.
pub data Answer : Type 0 where
  found : String → Answer
  rejected : Kind → Answer
  blocked : Answer

-- The error after the attempts.
unfoldable pub verdict : (saw_exhausted saw_failure : Bool) → Kind
verdict saw_exhausted saw_failure =
    if saw_exhausted && not saw_failure then quota_exhausted else unavailable

-- The tokens tried, with the one that the account holds after the check.
unfoldable pub with_resolved : Account → String → List String → List String
with_resolved a token tried =
    if not (str_eq a.access_token "") && not (str_eq a.access_token token)
    then a.access_token ∷ token ∷ tried
    else token ∷ tried

module _ (fetch : ℕ → World → String → World × Option Account) (c : Config) (r : Request) where
  -- The end of an attempt, after the check of its token; `next` is the attempts that follow.
  unfoldable pub after_check :
      (next : World → List String → Bool → Bool → World × Answer)
      → String
      → List String
      → Bool
      → Bool
      → World × Option Account
      → World × Answer
  after_check next token tried saw_exhausted saw_failure (w, none) =
      next (record w { pool = release_image_slot w.pool token }) (token ∷ tried) saw_exhausted true
  after_check next token tried saw_exhausted saw_failure (w, some a) =
      let released = record w { pool = release_image_slot w.pool token } in
      elim (is_image_account_available a && matches r a) [
        | true ↦ (w, found (or_text a.access_token token))
        | false ↦ elim (str_eq a.status "限流") [
          | true ↦ next released (with_resolved a token tried) true saw_failure
          | false ↦ next released (with_resolved a token tried) saw_exhausted true
        ]
      ]

  -- An attempt, after a slot has been asked for.
  unfoldable pub after_pick :
      (next : World → List String → Bool → Bool → World × Answer)
      → ℕ
      → World
      → List String
      → Bool
      → Bool
      → Pool × Pick
      → World × Answer
  unfolding is_empty after_check
  after_pick next left w tried saw_exhausted saw_failure (p, refused kind) =
      if is_empty tried
      then (record w { pool = p }, rejected kind)
      else (record w { pool = p }, rejected (verdict saw_exhausted saw_failure))
  after_pick next left w tried saw_exhausted saw_failure (p, waits) =
      (record w { pool = p }, blocked)
  after_pick next left w tried saw_exhausted saw_failure (p, picked token) =
      after_check next token tried saw_exhausted saw_failure
        (fetch left (record w { pool = p }) token)

  -- The attempts, with so many left.
  unfoldable pub attempts : ℕ → World → List String → Bool → Bool → World × Answer
  unfolding after_pick
  attempts zero w tried saw_exhausted saw_failure =
      (w, rejected (verdict saw_exhausted saw_failure))
  attempts (suc left) w tried saw_exhausted saw_failure =
      after_pick (attempts left) left w tried saw_exhausted saw_failure
        (acquire_next_candidate_token w.pool c r tried)

  -- The Firefly pool is not checked.
  unfoldable pub acquire_unchecked : World → List String → World × Answer
  acquire_unchecked w excluded =
      let (p, pick) = acquire_next_candidate_token w.pool c r excluded in
      elim pick [
        | refused kind ↦ (record w { pool = p }, rejected kind)
        | waits ↦ (record w { pool = p }, blocked)
        | picked token ↦ (record w { pool = p }, found token)
      ]

  -- `get_available_access_token`, with its at most twenty attempts.
  unfoldable pub get_available_access_token : World → List String → World × Answer
  unfolding attempts acquire_unchecked
  get_available_access_token w excluded =
      elim (str_eq (normalize_source_type r.source_type) "firefly") [
        | true ↦ acquire_unchecked w excluded
        | false ↦ attempts 20 w excluded false false
      ]
