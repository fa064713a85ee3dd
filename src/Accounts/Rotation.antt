-- ===== src/Accounts/Rotation.antt =====
-- `_apply_refreshed_tokens`: an account gets new tokens, and what the pool and the queue of checks
-- hold under the old one moves to the new one. The field `token_expires_at` is left out, as no
-- operation of the pool reads it.
pub mod Moves
use jove_mage.Prelude.{
  ℕ, ◌+◌, String, Bool, true, false, not, ◌&&◌, ◌||◌, Option, none, some, ◌==◌, str_eq,
  if◌then◌else◌, strip, get, put, pop, has,
}
use jove_mage.Accounts.{Account, Pool, save}
use jove_mage.Accounts.Normal.{renormalize, or_text}
use jove_mage.Accounts.Tokens.{resolve_access_token}
use jove_mage.Accounts.Selection.{inflight}
use jove_mage.Accounts.RefreshQueue.{Queue, rotate_queue}

-- What the token endpoint has returned; `none` for a missing key, an empty text for None.
pub record TokenData : Type 0 where
  pub access_token : String
  pub refresh_token : Option String
  pub id_token : Option String
  pub status : String

-- The value of a key that is there, stripped.
unfoldable pub overwrite : Option String → String → String
overwrite none old = old
overwrite (some text) old = strip text

-- The account with its new tokens.
unfoldable pub refreshed : ℕ → String → TokenData → Account → Account
unfolding overwrite
refreshed now new_token answer a = record a {
  access_token = new_token;
  refresh_token = overwrite answer.refresh_token a.refresh_token;
  id_token = overwrite answer.id_token a.id_token;
  status = if str_eq answer.status "" then a.status else strip answer.status;
  last_token_refresh_at = some now;
  last_token_refresh_error = "";
  last_token_refresh_error_at = none;
  invalid_count = 0;
  last_invalid_at = none;
  last_refresh_error = "";
  last_refresh_error_at = none;
}

-- expected is not None and actual != expected.strip()
unfoldable pub differs : Option String → String → Bool
differs none actual = false
differs (some expected) actual = not (str_eq actual (strip expected))

unfoldable pub is_given : Option String → Bool
is_given none = false
is_given (some expected) = true

-- The pool in which the account stands under its new token.
unfoldable pub rotate_pool : Pool → String → String → Account → Pool
unfolding inflight
rotate_pool p old_token new_token account =
    let slots = pop p.image_inflight old_token in
    let here = elim (get slots new_token) as (λ _. ℕ) [ none ↦ 0 | some n ↦ n ] in
    record p {
      accounts = put (pop p.accounts old_token) new_token account;
      token_aliases = put p.token_aliases old_token new_token;
      image_inflight =
          if inflight p old_token == 0
          then slots
          else put slots new_token (here + inflight p old_token);
    }

-- `_apply_refreshed_tokens`: the pool, the queue and the token in use; `none` for
-- `RefreshCredentialsChangedError`.
unfoldable pub apply_refreshed_tokens :
    ℕ
    → Pool
    → Queue
    → String
    → TokenData
    → Option String
    → Option String
    → Pool × Queue × Option String
unfolding refreshed differs is_given rotate_pool save
apply_refreshed_tokens now p q old_access_token answer expected_access_token
      expected_refresh_token =
    let old_token = resolve_access_token p old_access_token in
    let new_token = strip (or_text answer.access_token old_token) in
    elim (get p.accounts old_token) [
      | none ↦ (
        p,
        q,
        (if is_given expected_access_token || is_given expected_refresh_token
            then none
            else some old_token),
      )
      | some current ↦
          if differs expected_access_token old_token
            || differs expected_refresh_token (strip current.refresh_token)
          then (p, q, none)
          else if str_eq new_token ""
          then (p, q, some old_token)
          else if not (str_eq new_token old_token) && has p.accounts new_token
          then (p, q, none)
          else elim (renormalize now (refreshed now new_token answer current)) [
            | none ↦ (p, q, some old_token)
            | some account ↦
                if str_eq new_token old_token
                then (
                  save (record p { accounts = put p.accounts new_token account }),
                  q,
                  some new_token,
                )
                else (
                  save (rotate_pool p old_token new_token account),
                  rotate_queue q old_token new_token,
                  some new_token,
                )
          ]
    ]
