-- ===== src/Accounts/CallTests.antt =====
-- Runs of the account pool's calls that ask the remote service, and instances of their theorems.
use jove_mage.Prelude.{
  ℕ, ◌+◌, ◌≡◌, refl, String, false, Option, none, some, List, [], ◌∷◌, strip, lower, size, str_eq,
  if◌then◌else◌,
}
use jove_mage.Accounts.{Account, Config}
use jove_mage.Accounts.Sample.{account, pool, config, any, queue, pool-IsUnique}
use jove_mage.Accounts.Normal.{normalize_source_type}
use jove_mage.Accounts.Refresh.{World, Remote, Reply, Info}
use jove_mage.Accounts.Precheck.{get_available_access_token}
use jove_mage.Accounts.Precheck.Verdict.{
  Stop, Run, Told, kind_of, get_available_access_token-Justified,
}
use jove_mage.Accounts.Precheck.Steady
use jove_mage.Accounts.Import.{Payload, add_account_payloads}
use jove_mage.Accounts.Import.Growth.{import_grows}
use jove_mage.Accounts.Health.{metrics_from_accounts, no_metrics}
use jove_mage.Accounts.Health.Totals.{Totals, metrics_from_accounts-Totals}

abbrev world : World
world = record { pool = pool; queue = queue }

-- A check that finds the account of `a` limited, and fails for other tokens.
abbrev check : ℕ → World → String → World × Option Account
check k w t = (w, if str_eq t "a" then some (account "a" "限流" 0) else none)

get_available_access_token-Justified_example :
    (checks : List (Option Account)) × (stop : Stop) × Run check config any 20 world [] checks stop
    × Told check config any [] checks
        (kind_of check config any checks)
        stop
        (get_available_access_token check config any world []).1
unfolding normalize_source_type strip lower
get_available_access_token-Justified_example =
    get_available_access_token-Justified check config any world [] refl

-- A pool that keeps limited accounts, and a service that cannot be reached, whose tokens have no time.
abbrev keeping : Config
keeping = record config { auto_remove_rate_limited_accounts = false }

abbrev unreachable : Remote
unreachable = record {
  request = λ k t. Reply.failed "";
  user_info = λ k t. Info.broken "timeout";
  expires_at = λ t. 0;
  redact = λ t. t;
}

-- A service whose tokens expire in the far future.
abbrev remote : Remote
remote = record {
  request = λ k t. Reply.failed "";
  user_info = λ k t. Info.broken "";
  expires_at = λ t. 900000000000;
  redact = λ t. t;
}

abbrev payload : String → Payload
payload token = record { token = token; writes = λ item. record item { status = "正常" } }

import_grows_example :
    let r = add_account_payloads 9 pool (payload "a" ∷ payload "n" ∷ payload "n" ∷ []) in
    size r.0.accounts ≡ 2 + r.1
import_grows_example =
    (import_grows 9 pool (payload "a" ∷ payload "n" ∷ payload "n" ∷ []) pool-IsUnique).0

metrics_from_accounts-Totals_example :
    Totals 5 60
      (account "a" "正常" 3 ∷ account "b" "限流" 0 ∷ [])
      no_metrics
      (metrics_from_accounts 5 60 (account "a" "正常" 3 ∷ account "b" "限流" 0 ∷ []))
metrics_from_accounts-Totals_example =
    (metrics_from_accounts-Totals 5 60 (account "a" "正常" 3 ∷ account "b" "限流" 0 ∷ [])).0
