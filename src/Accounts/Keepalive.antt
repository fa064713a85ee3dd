-- ===== src/Accounts/Keepalive.antt =====
-- Which accounts are due for a renewal of their refresh token, and the marking of failed renewals.
-- `issued_at` is `_token_issued_at` and `expires_at` is `_jwt_exp` (0 for none), in microseconds.
pub mod Earliest
use jove_mage.Prelude.{
  ℕ, ◌+◌, ◌*◌, String, Bool, true, false, not, ◌&&◌, Option, none, some, List, [], ◌∷◌, take,
  select, ltb, leb, ◌==◌, str_eq, if◌then◌else◌, strip, get, values,
}
use jove_mage.Accounts.{Account, Pool}
use jove_mage.Accounts.Normal.{or_text}
use jove_mage.Accounts.Tokens.{resolve_access_token}
use jove_mage.Accounts.Selection.{tokens_of, inflight}
use jove_mage.Accounts.Outcomes.{change_account}
use jove_mage.Accounts.Rotation.{differs}

-- `_get_account_for_token` and `_credential_snapshot`
unfoldable pub credential_snapshot : Pool → String → String × String × Option Account
credential_snapshot p access_token =
    let resolved = resolve_access_token p access_token in
    elim (get p.accounts resolved) [
      | none ↦ (resolved, "", none)
      | some a ↦ (
        strip (or_text a.access_token (or_text resolved access_token)),
        strip a.refresh_token,
        some a,
      )
    ]

-- `_record_token_refresh_error`
unfoldable pub record_token_refresh_error :
    (redact : String → String)
    → ℕ
    → Pool
    → String
    → String
    → Option String
    → Option String
    → Pool × Bool
unfolding change_account differs
record_token_refresh_error redact now p access_token error expected_access_token
      expected_refresh_token =
    let token = resolve_access_token p access_token in
    elim (get p.accounts token) [
      | none ↦ (p, false)
      | some current ↦
          if differs expected_access_token token
          then (p, false)
          else if differs expected_refresh_token (strip current.refresh_token)
          then (p, false)
          else (let r = change_account now p token (λ a. record a {
            last_token_refresh_error = redact (or_text error "refresh token failed");
            last_token_refresh_error_at = some now;
          }) in
              (r.0, elim r.1 [ none ↦ false | some a ↦ true ]))
    ]

unfoldable pub with_inflight : Pool → List Account → List (Account × ℕ)
with_inflight p [] = []
with_inflight p (a ∷ accounts) = (a, inflight p a.access_token) ∷ with_inflight p accounts

-- `list_accounts`: each account with its images in flight.
unfoldable pub list_accounts : Pool → List (Account × ℕ)
unfolding with_inflight
list_accounts p = with_inflight p (values p.accounts)

-- The tokens of the accounts with a status: `list_limited_tokens` and `list_normal_tokens`.
unfoldable pub list_tokens_of_status : Pool → String → List String
unfolding tokens_of
list_tokens_of_status p status =
    select (λ token. not (str_eq token ""))
      (tokens_of (select (λ a. str_eq a.status status) (values p.accounts)))

-- _REFRESH_TOKEN_KEEPALIVE_SECONDS and its kin, in microseconds
abbrev pub keepalive_time : ℕ
keepalive_time = 259200000000

abbrev pub keepalive_backoff : ℕ
keepalive_backoff = 21600000000

abbrev pub refresh_backoff : ℕ
refresh_backoff = 300000000

abbrev pub refresh_skew : ℕ
refresh_skew = 86400000000

abbrev pub keepalive_batch : ℕ
keepalive_batch = 3

-- Whether the last failure is younger than the time.
unfoldable pub failed_within : ℕ → ℕ → Account → Bool
failed_within time now a = elim a.last_token_refresh_error_at [
  | none ↦ false
  | some t ↦ ltb now (t + time)
]

-- `_recent_token_refresh_error`
unfoldable pub recent_token_refresh_error : ℕ → Account → Bool
unfolding failed_within
recent_token_refresh_error now a = failed_within refresh_backoff now a

-- `_token_needs_refresh`, with the time at which the token expires, or 0.
unfoldable pub token_needs_refresh : ℕ → ℕ → Bool → Bool
token_needs_refresh now expires force =
    if force then true else if expires == 0 then true else leb expires (now + refresh_skew)

-- `list_expiring_access_tokens`
unfoldable pub list_expiring_access_tokens :
    (expires_at : String → ℕ) → ℕ → List Account → List String
list_expiring_access_tokens expires_at now [] = []
list_expiring_access_tokens expires_at now (a ∷ accounts) =
    let rest = list_expiring_access_tokens expires_at now accounts in
    let token = strip a.access_token in
    if not (str_eq (strip a.refresh_token) "")
      && not (str_eq token "")
      && token_needs_refresh now (expires_at token) false
    then token ∷ rest
    else rest

-- A token that is due, with the time since when.
pub record Due : Type 0 where
  pub due_at : ℕ
  pub token : String

-- Insertion behind the items that are due no later, as Python's stable sort has it.
unfoldable pub insert_due : Due → List Due → List Due
insert_due d [] = d ∷ []
insert_due d (e ∷ due) =
    let rest = insert_due d due in if ltb d.due_at e.due_at then d ∷ e ∷ due else e ∷ rest

-- The items in their order, each behind those that are due no later.
unfoldable pub sort_due : List Due → List Due → List Due
unfolding insert_due
sort_due sorted [] = sorted
sort_due sorted (d ∷ due) = sort_due (insert_due d sorted) due

module _ (issued_at : String → Option ℕ) where
  -- `_refresh_token_keepalive_anchor`
  unfoldable pub keepalive_anchor : Account → Option ℕ
  keepalive_anchor a = elim a.last_token_refresh_at [
    | some t ↦ some t
    | none ↦ elim (issued_at a.access_token) [ some t ↦ some t | none ↦ a.created_at ]
  ]

  -- `_refresh_token_keepalive_due_at`
  unfoldable pub keepalive_due_at : ℕ → Account → Option ℕ
  unfolding keepalive_anchor failed_within
  keepalive_due_at now a =
      if str_eq (strip a.refresh_token) ""
      then none
      else if str_eq a.status "禁用"
      then none
      else if failed_within keepalive_backoff now a
      then none
      else elim (keepalive_anchor a) [
        | none ↦ some now
        | some t ↦ if leb (t + keepalive_time) now then some (t + keepalive_time) else none
      ]

  unfoldable pub due_items : ℕ → List Account → List Due
  due_items now [] = []
  due_items now (a ∷ accounts) =
      let rest = due_items now accounts in
      elim (keepalive_due_at now a) [
        | none ↦ rest
        | some at ↦
            if str_eq (strip a.access_token) ""
            then rest
            else record { due_at = at; token = strip a.access_token } ∷ rest
      ]

  -- `list_refresh_token_keepalive_tokens`, with the times.
  unfoldable pub keepalive_items : ℕ → Pool → List Due
  unfolding sort_due
  keepalive_items now p = take keepalive_batch (sort_due [] (due_items now (values p.accounts)))
