-- ===== src/Accounts/Sample.antt =====
-- The pool and the queue on which the tests run.
use jove_mage.Prelude.{ℕ, refl, String, false, true, none, some, [], ◌∷◌, get, IsUnique}
use jove_mage.Accounts.{Account, Pool, Config}
use jove_mage.Accounts.Selection.{Request}
use jove_mage.Accounts.RefreshQueue.{Queue}

-- An account with a token, a status and a quota.
abbrev pub account : String → String → ℕ → Account
account token status quota = record {
  access_token = token;
  refresh_token = "r";
  id_token = "";
  type = "free";
  export_type = "";
  status = status;
  email = "";
  user_id = "";
  account_id = "";
  proxy = "";
  source_type = "web";
  quota = quota;
  image_quota_unknown = false;
  limits_progress = [];
  default_model_slug = "";
  restore_at = "";
  success = 4;
  fail = 1;
  invalid_count = 0;
  last_used_at = none;
  last_invalid_at = none;
  last_refresh_error = "";
  last_refresh_error_at = none;
  last_token_refresh_at = none;
  last_token_refresh_error = "";
  last_token_refresh_error_at = none;
  last_remote_checked_at = none;
  last_remote_check_attempt_at = none;
  last_remote_check_error = "";
  last_remote_check_error_at = none;
  last_remote_check_event = "";
  last_remote_check_result = "";
  last_quota_estimated_empty_at = none;
  created_at = some 1;
}

abbrev pub pool : Pool
pool = record {
  accounts = ("a", account "a" "正常" 1) ∷ ("b", account "b" "限流" 0) ∷ [];
  image_inflight = ("a", 2) ∷ [];
  token_aliases = ("z", "a") ∷ [];
  index = 5;
  saved = [];
}

abbrev pub config : Config
config = record {
  image_account_concurrency = 3;
  auto_remove_invalid_accounts = false;
  auto_remove_rate_limited_accounts = true;
}

abbrev pub any : Request
any = record { plan_type = ""; source_type = ""; plan_types = [] }

-- A queue on which one check runs.
abbrev pub queue : Queue
queue = record {
  pending = [];
  pending_set = [];
  active = "a" ∷ [];
  rerun = [];
  started_at = ("a", 5) ∷ [];
  threads = "a" ∷ [];
}

pub pool-IsUnique : IsUnique pool.accounts
unfolding get
pool-IsUnique = (refl, (refl, tt))
