-- ===== src/Accounts/Refresh.antt =====
-- `refresh_access_token` and `fetch_remote_info`: one call, with no other call in between. The remote
-- services are arguments, with a number for each time that they are asked; waiting for a refresh that
-- another thread has begun is left out.
use Prim.Native.String.{◌++◌ as text_append}
use jove_mage.Prelude.{
  ℕ, zero, suc, ◌+◌, String, Bool, true, false, not, ◌&&◌, ◌||◌, Option, none, some, [], ◌∷◌, leb,
  ltb, contains, lower, ◌==◌, str_eq, if◌then◌else◌, strip, get, has_part,
}
use jove_mage.Accounts.{Item, Account, Pool, Config}
use jove_mage.Accounts.Normal.{or_text}
use jove_mage.Accounts.Tokens.{resolve_access_token}
use jove_mage.Accounts.Outcomes.{record_refresh_success, record_remote_check_error, update_account}
use jove_mage.Accounts.Removal.{handle_invalid_token}
use jove_mage.Accounts.Rotation.{TokenData, apply_refreshed_tokens}
use jove_mage.Accounts.RefreshQueue.{Queue}
use jove_mage.Accounts.Keepalive.{
  refresh_skew, token_needs_refresh, recent_token_refresh_error, record_token_refresh_error,
}
use jove_mage.Accounts.Views.{removed_view}

-- The pool and its queue of checks.
pub record World : Type 0 where
  pub pool : Pool
  pub queue : Queue

-- The answer of `_request_access_token_refresh`.
pub data Reply : Type 0 where
  tokens : TokenData → Reply
  terminal : String → Reply
  failed : String → Reply

-- The answer of `get_user_info`: keys to write over a payload, an invalid token, another error.
pub data Info : Type 0 where
  info : (Item → Item) → Info
  invalid : String → Info
  broken : String → Info

-- What is not the pool's: the remote services, the time at which a token expires (0 for none), and
-- `redact_auth_diagnostic`.
pub record Remote : Type 0 where
  pub request : ℕ → String → Reply
  pub user_info : ℕ → String → Info
  pub expires_at : String → ℕ
  pub redact : String → String

-- What a refresh ends with: a token, or one of its errors.
pub data Refreshed : Type 0 where
  token : String → Refreshed
  is_terminal : Refreshed
  is_changed : Refreshed
  raises : Refreshed

unfoldable pub applied : Option String → Refreshed
applied none = is_changed
applied (some t) = token t

-- `_is_terminal_refresh_error`
unfoldable pub is_terminal_refresh_error : ℕ → String → String → Bool
unfolding has_part contains
is_terminal_refresh_error status_code error_code description =
    if status_code == 408 || status_code == 429 || leb 500 status_code
    then false
    else if contains (lower (strip error_code))
        ("invalid_grant" ∷ "invalid_refresh_token" ∷ "refresh_token_invalidated" ∷ [])
    then true
    else leb 400 status_code
      && ltb status_code 500
      && has_part "session has ended" (lower (strip description))

module _ (r : Remote) (now : ℕ) (c : Config) where
  -- `_refresh_access_token_owner`
  unfoldable pub refresh_access_token_owner :
      ℕ → World → String → String → String → World × Refreshed
  unfolding applied
  refresh_access_token_owner k w active refresh event = elim (r.request k refresh) [
    | tokens answer ↦
        let s =
          apply_refreshed_tokens now w.pool w.queue active answer (some active) (some refresh) in
        (record { pool = s.0; queue = s.1 }, applied s.2)
    | terminal error ↦
        let p =
          (record_token_refresh_error r.redact now w.pool active error (some active)
            (some refresh)).0 in
        (
          record w { pool = (handle_invalid_token r.redact now c p active event error none).0 },
          is_terminal,
        )
    | failed error ↦ (
      record w {
        pool =
            (record_token_refresh_error r.redact now w.pool active error (some active)
              (some refresh)).0;
      },
      raises,
    )
  ]

  -- The account of a token, and the token that it holds.
  unfoldable pub active_of : World → String → Account → String
  active_of w access_token a =
      or_text a.access_token (or_text (resolve_access_token w.pool access_token) access_token)

  -- The token in use of the account, when the second round fails as the first did.
  unfoldable pub current_token : World → String → String
  unfolding active_of
  current_token w access_token =
      elim (get w.pool.accounts (resolve_access_token w.pool access_token)) [
        | none ↦ or_text (resolve_access_token w.pool access_token) access_token
        | some a ↦ active_of w access_token a
      ]

  -- The rounds of `refresh_access_token`, with so many left; `none` where it raises.
  unfoldable pub refresh_rounds : ℕ → ℕ → World → String → Bool → String → World × Option String
  unfolding current_token
  refresh_rounds zero k w access_token force event = (w, some access_token)
  refresh_rounds (suc rounds) k w access_token force event =
      elim (get w.pool.accounts (resolve_access_token w.pool access_token)) [
        | none ↦ (w, some access_token)
        | some a ↦
            let active = active_of w access_token a in
            let refresh = strip a.refresh_token in
            let s = refresh_access_token_owner k w active refresh event in
            elim (str_eq refresh ""
              || not (token_needs_refresh now (r.expires_at active) force)
              || (not force && recent_token_refresh_error now a)) [
                | true ↦ (w, some active)
                | false ↦ elim s.1 [
                  | token t ↦ (s.0, some t)
                  | is_terminal ↦ (s.0, some active)
                  | is_changed ↦ elim rounds [
                    | zero ↦ (s.0, some (current_token s.0 access_token))
                    | suc _ ↦ refresh_rounds rounds (k + 1) s.0 access_token force event
                  ]
                  | raises ↦ (s.0, none)
                ]
              ]
      ]

  -- `refresh_access_token`
  unfoldable pub refresh_access_token : ℕ → World → String → Bool → String → World × Option String
  unfolding refresh_rounds
  refresh_access_token k w access_token force event =
      if str_eq access_token "" then (w, some "") else refresh_rounds 2 k w access_token force event

  -- The renewal before the check, where the token is about to expire; a failure is passed over.
  unfoldable pub preflight : ℕ → World → String → String → World × String
  unfolding refresh_access_token
  preflight k w access_token event =
      let expires = r.expires_at access_token in
      let s = refresh_access_token k w access_token false (text_append event ":preflight") in
      if not (expires == 0) && leb expires (now + refresh_skew)
      then (s.0, elim s.1 [ none ↦ access_token | some t ↦ or_text t access_token ])
      else (w, access_token)

  -- What `fetch_remote_info` returns: the account, the answer of the check where the account was
  -- removed after it, or nothing where it raises.
  unfoldable pub accept_info : World → String → String → (Item → Item) → World × Option Account
  accept_info w active event updates =
      let p = record_refresh_success now w.pool active event in
      let s = update_account now c p active updates in
      (
        record w { pool = s.0 },
        elim s.1 [ some a ↦ some a | none ↦ some (removed_view active updates) ],
      )

  -- The second check, after an invalid token has been renewed.
  unfoldable pub retry_info : ℕ → World → String → String → Option Bool → World × Option Account
  unfolding accept_info
  retry_info k w refreshed event remove_invalid = elim (r.user_info k refreshed) [
    | info updates ↦ accept_info w refreshed event updates
    | invalid error ↦ (
      record w {
        pool = (handle_invalid_token r.redact now c w.pool refreshed event error remove_invalid).0;
      },
      none,
    )
    | broken error ↦ (
      record w { pool = record_remote_check_error r.redact now w.pool refreshed event error },
      none,
    )
  ]

  -- `fetch_remote_info`, on a token that is not empty.
  unfoldable pub fetch_remote_info :
      ℕ → World → String → String → Option Bool → World × Option Account
  unfolding preflight retry_info
  fetch_remote_info k w access_token event remove_invalid =
      let (w1, active) = preflight k w access_token event in
      elim (r.user_info k active) [
        | info updates ↦ accept_info w1 active event updates
        | broken error ↦ (
          record w1 { pool = record_remote_check_error r.redact now w1.pool active event error },
          none,
        )
        | invalid error ↦
            let s =
              refresh_access_token (k + 2) w1 active true
                (text_append event ":invalid_access_token") in
            let refreshed = elim s.1 as (λ _. String) [ none ↦ "" | some t ↦ t ] in
            if not (str_eq refreshed "") && not (str_eq refreshed active)
            then retry_info (k + 1) s.0 refreshed event remove_invalid
            else (
              record s.0 {
                pool =
                    (handle_invalid_token r.redact now c s.0.pool active event error
                      remove_invalid).0;
              },
              none,
            )
      ]
