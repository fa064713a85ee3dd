-- ===== src/Accounts/Health.antt =====
-- `evaluate_account_pool`: what the pool can make, and the checks of accounts that have not been
-- checked for long. Times are counts of microseconds.
pub mod Totals
pub mod Ends
use jove_mage.Prelude.{
  ℕ, zero, suc, ◌+◌, ◌-◌, ◌*◌, max, String, Bool, true, false, not, ◌&&◌, ◌||◌, Option, none, some,
  List, [], ◌∷◌, ◌++◌, leb, ltb, str_eq, if◌then◌else◌, strip, values, take, ℤ, pos_part, count_if,
}
use jove_mage.Accounts.{Account, Pool}
use jove_mage.Accounts.Keepalive.{Due, sort_due}

-- `_pool_health_freshness_seconds`: the given number of seconds, if it is one, else the interval of
-- the configuration.
unfoldable pub freshness_seconds_of : ℕ → Option ℤ → ℕ
freshness_seconds_of interval_minute none = max 60 (interval_minute * 60)
freshness_seconds_of interval_minute (some z) = max 60 (pos_part z)

-- Whether the time lies in the last so many seconds.
unfoldable pub is_recent : ℕ → ℕ → Option ℕ → Bool
is_recent now freshness none = false
is_recent now freshness (some at) = leb at now && leb now (at + freshness * 1000000)

-- `_remote_check_is_fresh`
unfoldable pub remote_check_is_fresh : ℕ → ℕ → Account → Bool
unfolding is_recent
remote_check_is_fresh now freshness a = is_recent now freshness a.last_remote_checked_at

-- `_remote_check_attempt_is_recent`
unfoldable pub remote_check_attempt_is_recent : ℕ → ℕ → Account → Bool
unfolding is_recent
remote_check_attempt_is_recent now freshness a =
    is_recent now freshness a.last_remote_check_attempt_at

pub record Metrics : Type 0 where
  pub current_quota : ℕ
  pub current_available : ℕ
  pub estimated_quota : ℕ
  pub estimated_available : ℕ
  pub unconfirmed_available : ℕ
  pub unknown_quota_count : ℕ
  pub last_checked_at : Option ℕ

unfoldable pub no_metrics : Metrics
no_metrics = record {
  current_quota = 0;
  current_available = 0;
  estimated_quota = 0;
  estimated_available = 0;
  unconfirmed_available = 0;
  unknown_quota_count = 0;
  last_checked_at = none;
}

-- if checked_at is not None and (latest is None or checked_at > latest)
unfoldable pub later_of : Option ℕ → Option ℕ → Option ℕ
later_of latest none = latest
later_of none (some at) = some at
later_of (some latest) (some at) = if ltb latest at then some at else some latest

-- The counts of an account whose status is normal.
unfoldable pub count_normal : Bool → Account → Metrics → Metrics
count_normal is_fresh a m = record m {
  estimated_available = m.estimated_available + 1;
  estimated_quota =
      if a.image_quota_unknown then m.estimated_quota else m.estimated_quota + a.quota;
  current_available = if is_fresh then m.current_available + 1 else m.current_available;
  unknown_quota_count =
      if is_fresh && a.image_quota_unknown
      then m.unknown_quota_count + 1
      else m.unknown_quota_count;
  current_quota =
      if is_fresh && not a.image_quota_unknown then m.current_quota + a.quota else m.current_quota;
  unconfirmed_available = if is_fresh then m.unconfirmed_available else m.unconfirmed_available + 1;
}

-- One pass of the loop.
unfoldable pub count_account : ℕ → ℕ → Metrics → Account → Metrics
unfolding later_of count_normal
count_account now freshness m a =
    let n = record m { last_checked_at = later_of m.last_checked_at a.last_remote_checked_at } in
    if str_eq a.status "正常" then count_normal (remote_check_is_fresh now freshness a) a n else n

unfoldable pub count_accounts : ℕ → ℕ → Metrics → List Account → Metrics
unfolding count_account
count_accounts now freshness m [] = m
count_accounts now freshness m (a ∷ accounts) =
    count_accounts now freshness (count_account now freshness m a) accounts

-- `_pool_health_metrics_from_accounts`
unfoldable pub metrics_from_accounts : ℕ → ℕ → List Account → Metrics
unfolding no_metrics count_accounts
metrics_from_accounts now freshness accounts = count_accounts now freshness no_metrics accounts

-- An account that is to be checked.
unfoldable pub is_stale : ℕ → ℕ → Account → Bool
is_stale now freshness a =
    str_eq a.status "正常"
    && not (str_eq (strip a.access_token) "")
    && not (remote_check_is_fresh now freshness a)
    && not (remote_check_attempt_is_recent now freshness a)

unfoldable pub stale_items : ℕ → ℕ → List Account → List Due
unfolding is_stale
stale_items now freshness [] = []
stale_items now freshness (a ∷ accounts) =
    let rest = stale_items now freshness accounts in
    if is_stale now freshness a
    then record {
      due_at = elim a.last_remote_checked_at [ none ↦ 0 | some at ↦ at ];
      token = strip a.access_token;
    }
      ∷ rest
    else rest

unfoldable pub due_tokens : List Due → List String
due_tokens [] = []
due_tokens (d ∷ due) = d.token ∷ due_tokens due

-- `_pool_health_stale_tokens`
unfoldable pub stale_tokens : ℕ → ℕ → List Account → List String
unfolding stale_items due_tokens
stale_tokens now freshness accounts = due_tokens (sort_due [] (stale_items now freshness accounts))

-- target is not None and current >= max(1, int(target))
unfoldable pub reaches : ℕ → Option ℤ → Bool
reaches current none = false
reaches current (some target) = leb (max 1 (pos_part target)) current

-- `_pool_health_target_reached`
unfoldable pub target_reached : Metrics → Option ℤ → Option ℤ → Bool
unfolding reaches
target_reached m target_quota target_available =
    reaches m.current_quota target_quota || reaches m.current_available target_available

-- _POOL_HEALTH_REFRESH_BATCH_SIZE
abbrev pub health_batch : ℕ
health_batch = 10

-- What `refresh_accounts` reports: how many were refreshed, and its errors.
pub record Report : Type 0 where
  pub metrics : Metrics
  pub refreshed : ℕ
  pub errors : List String

-- `refresh` is `refresh_accounts`, and `clock` reads the time of a round.
module _ (refresh : ℕ → Pool → List String → Pool × ℕ × List String) (clock : ℕ → ℕ) (freshness : ℕ)
    (refresh_stale : Bool) (target_quota target_available : Option ℤ) where
  -- The test of a round: whether it is the last.
  unfoldable pub is_last_round : ℕ → Pool → Bool
  unfolding target_reached stale_tokens
  is_last_round round p =
      not refresh_stale
      || target_reached (metrics_from_accounts (clock round) freshness (values p.accounts))
          target_quota target_available
      || (elim (stale_tokens (clock round) freshness (values p.accounts)) [
        | [] ↦ true
        | _ ∷ _ ↦ false
      ])

  -- The loop, with so many rounds left; `none` where they end.
  unfoldable pub evaluate_rounds : ℕ → ℕ → Pool → ℕ → List String → Option (Pool × Report)
  unfolding is_last_round
  evaluate_rounds zero round p refreshed errors = none
  evaluate_rounds (suc fuel) round p refreshed errors = elim (is_last_round round p) [
    | true ↦ some (
      p,
      record {
        metrics = metrics_from_accounts (clock round) freshness (values p.accounts);
        refreshed = refreshed;
        errors = errors;
      },
    )
    | false ↦
        let s =
          refresh round p
            (take health_batch (stale_tokens (clock round) freshness (values p.accounts))) in
        evaluate_rounds fuel (round + 1) s.0 (refreshed + s.1) (errors ++ s.2)
  ]
