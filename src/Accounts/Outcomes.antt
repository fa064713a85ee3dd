-- ===== src/Accounts/Outcomes.antt =====
-- What the outcome of a call changes in its account: results of images, exhausted quotas, checks.
pub mod Accounting
pub mod Exhaustion
use jove_mage.Prelude.{
  ℕ, ◌+◌, ◌-◌, ◌%◌, String, Bool, true, false, not, ◌&&◌, Option, none, some, List, [], ◌∷◌, leb,
  ◌==◌, str_eq, if◌then◌else◌, Dict, get, put, pop, size, ◌||◌,
}
use jove_mage.Accounts.{Item, Account, Pool, Config, RawNumber, save}
use jove_mage.Accounts.Normal.{normalize_account, renormalize, to_item, or_text}
use jove_mage.Accounts.Tokens.{resolve_access_token}
use jove_mage.Accounts.Selection.{release_slot}

-- `_release_image_slot_locked`
unfoldable pub release_image_slot_locked : Pool → String → Pool
release_image_slot_locked p access_token = release_slot p (resolve_access_token p access_token)

-- `release_image_slot`
unfoldable pub release_image_slot : Pool → String → Pool
release_image_slot p access_token =
    if str_eq access_token "" then p else release_image_slot_locked p access_token

-- self._accounts[token] = account; self._save_accounts()
unfoldable pub store : Pool → String → Account → Pool
unfolding save
store p token account = save (record p { accounts = put p.accounts token account })

-- The account of a token, changed, normalized and stored; nothing happens where there is none.
unfoldable pub change_account : ℕ → Pool → String → (Account → Account) → Pool × Option Account
change_account now p token change = elim (get p.accounts token) [
  | none ↦ (p, none)
  | some current ↦ elim (renormalize now (change current)) [
    | none ↦ (p, none)
    | some account ↦ (store p token account, some account)
  ]
]

-- `mark_text_used`
unfoldable pub mark_text_used : ℕ → Pool → String → Pool
unfolding change_account
mark_text_used now p access_token =
    if str_eq access_token ""
    then p
    else (change_account now p (resolve_access_token p access_token)
        (λ a. record a { last_used_at = some now })).0

-- `_record_refresh_success`
unfoldable pub record_refresh_success : ℕ → Pool → String → String → Pool
unfolding change_account
record_refresh_success now p access_token event =
    (change_account now p (resolve_access_token p access_token) (λ a. record a {
      invalid_count = 0;
      last_invalid_at = none;
      last_refresh_error = "";
      last_refresh_error_at = none;
      last_remote_checked_at = some now;
      last_remote_check_attempt_at = some now;
      last_remote_check_error = "";
      last_remote_check_error_at = none;
      last_remote_check_event = event;
      last_remote_check_result = "ok";
    })).0

-- `_record_remote_check_error`; `redact` is `redact_auth_diagnostic`.
unfoldable pub record_remote_check_error :
    (redact : String → String) → ℕ → Pool → String → String → String → Pool
unfolding change_account
record_remote_check_error redact now p access_token event error =
    (change_account now p (resolve_access_token p access_token) (λ a. record a {
      last_remote_check_attempt_at = some now;
      last_remote_check_error = redact (or_text error "remote check failed");
      last_remote_check_error_at = some now;
      last_remote_check_event = event;
      last_remote_check_result = "error";
    })).0

-- `_record_invalid_token_seen`
unfoldable pub record_invalid_token_seen :
    (redact : String → String) → ℕ → Pool → String → String → String → Pool
unfolding change_account
record_invalid_token_seen redact now p access_token event error =
    let safe_error = redact (or_text error "invalid access token") in
    (change_account now p (resolve_access_token p access_token) (λ a. record a {
      status = "异常";
      quota = 0;
      invalid_count = a.invalid_count + 1;
      last_invalid_at = some now;
      last_refresh_error = safe_error;
      last_refresh_error_at = some now;
      last_remote_checked_at = some now;
      last_remote_check_attempt_at = some now;
      last_remote_check_error = safe_error;
      last_remote_check_error_at = some now;
      last_remote_check_event = event;
      last_remote_check_result = "invalid";
    })).0

-- The quota of a successful image: one less, and unknown once it may be used up; a limited account
-- that still makes images is back.
unfoldable pub consume_quota : ℕ → Account → Account
consume_quota now a =
    let runs_out = not a.image_quota_unknown && leb a.quota 1 in
    let was_limited = str_eq a.status "限流" in
    record a {
      quota = if a.image_quota_unknown then a.quota else a.quota - 1;
      image_quota_unknown = a.image_quota_unknown || runs_out || was_limited;
      last_quota_estimated_empty_at =
          if runs_out then some now else a.last_quota_estimated_empty_at;
      status = if was_limited then "正常" else a.status;
    }

-- A failure that is to be checked at the account.
unfoldable pub count_failure : ℕ → Account → Account
count_failure now a = record a {
  fail = a.fail + 1;
  last_remote_check_result = "pending";
  last_remote_check_event = "image_failure";
  last_remote_check_attempt_at = some now;
}

-- failure is not None and failure.verify_account
unfoldable pub verifies : Option Bool → Bool
verifies none = false
verifies (some b) = b

-- success if quota_consumed is None else bool(quota_consumed)
unfoldable pub consumed_quota : Bool → Option Bool → Bool
consumed_quota success none = success
consumed_quota success (some b) = b

-- The changes of `mark_image_result` to the account.
unfoldable pub image_result : ℕ → Bool → Option Bool → Option Bool → Account → Account
unfolding verifies consumed_quota consume_quota count_failure
image_result now success failure quota_consumed a =
    let used = record a {
      last_used_at = some now;
      success = if success then a.success + 1 else a.success;
    } in
    let paid = if consumed_quota success quota_consumed then consume_quota now used else used in
    if not success && verifies failure then count_failure now paid else paid

-- Whether the call was made for the account that the token now leads to.
unfoldable pub is_expected : Pool → String → Option String → Bool
is_expected p token none = true
is_expected p token (some expected) = str_eq token (resolve_access_token p expected)

-- `mark_image_result`: the pool, the result, and whether the account is to be checked. `failure` is
-- the `verify_account` of a failure.
unfoldable pub mark_image_result :
    ℕ
    → Pool
    → String
    → Bool
    → Option Bool
    → Option Bool
    → Option String
    → Pool × Option Account × Bool
unfolding image_result is_expected change_account
mark_image_result now p access_token success failure quota_consumed expected =
    if str_eq access_token ""
    then (p, none, false)
    else (let token = resolve_access_token p access_token in
        let q = release_image_slot_locked p token in
        elim (get q.accounts token) [
          | none ↦ (q, none, false)
          | some current ↦ elim (is_expected q token expected) [
            | false ↦ (q, some current, false)
            | true ↦
                elim (renormalize now (image_result now success failure quota_consumed current)) [
                  | none ↦ (q, none, false)
                  | some account ↦
                      (store q token account, some account, not success && verifies failure)
                ]
          ]
        ])

-- self._index %= len(self._accounts), or 0
unfoldable pub wrap_index : Pool → Pool
wrap_index p = record p { index = if size p.accounts == 0 then 0 else p.index % size p.accounts }

-- The aliases that neither start nor end at the token.
unfoldable pub drop_aliases : Dict String → String → Dict String
drop_aliases [] token = []
drop_aliases ((old, new) ∷ aliases) token =
    let rest = drop_aliases aliases token in
    if str_eq old token || str_eq new token then rest else (old, new) ∷ rest

-- The automatic removal of a limited account.
unfoldable pub remove_account : Pool → String → Pool
unfolding drop_aliases wrap_index save
remove_account p token = save (
    wrap_index (record p {
      accounts = pop p.accounts token;
      image_inflight = pop p.image_inflight token;
      token_aliases = drop_aliases p.token_aliases token;
    }))

-- An account that is written back, unless it is limited and such accounts are removed.
unfoldable pub store_or_remove : Config → Pool → String → Account → Pool × Option Account
store_or_remove c p token account =
    if str_eq account.status "限流" && c.auto_remove_rate_limited_accounts
    then (remove_account p token, none)
    else (store p token account, some account)

-- The changes of `report_exhausted` to the account.
unfoldable pub exhausted : ℕ → String → Account → Account
exhausted now reason a = record a {
  status = "限流";
  quota = 0;
  image_quota_unknown = false;
  last_remote_check_result = "exhausted";
  last_remote_check_event = or_text reason "taste_exhausted";
  last_remote_checked_at = some now;
  last_remote_check_attempt_at = some now;
}

-- `report_exhausted`
unfoldable pub report_exhausted : ℕ → Config → Pool → String → String → Pool × Option Account
unfolding store_or_remove exhausted
report_exhausted now c p access_token reason =
    if str_eq access_token ""
    then (p, none)
    else (let token = resolve_access_token p access_token in
        let q = release_image_slot_locked p token in
        elim (get q.accounts token) [
          | none ↦ (q, none)
          | some current ↦ elim (renormalize now (exhausted now reason current)) [
            | none ↦ (q, none)
            | some account ↦ store_or_remove c q token account
          ]
        ])

-- `update_account`; `updates` writes the keys of the dictionary over a payload.
unfoldable pub update_account : ℕ → Config → Pool → String → (Item → Item) → Pool × Option Account
unfolding store_or_remove to_item
update_account now c p access_token updates =
    if str_eq access_token ""
    then (p, none)
    else (let token = resolve_access_token p access_token in
        elim (get p.accounts token) [
          | none ↦ (p, none)
          | some current ↦
              elim (normalize_account now
                (record (updates (to_item current)) { access_token = token })) [
                  | none ↦ (p, none)
                  | some account ↦ store_or_remove c p token account
                ]
        ])
