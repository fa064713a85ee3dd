-- ===== src/Accounts/Views.antt =====
-- The keys of a payload, read as an account.
use jove_mage.Prelude.{String, false, none, []}
use jove_mage.Accounts.{Item, Account, RawNumber, RawFlag}
use jove_mage.Accounts.Normal.{quota_value}

-- {**result, "access_token": active}: the keys that the check has returned, and nothing else, read as
-- the callers read them.
unfoldable pub blank : Item
blank = record {
  access_token = "";
  refresh_token = "";
  id_token = "";
  type = "";
  export_type = "";
  status = "";
  email = "";
  user_id = "";
  account_id = "";
  proxy = "";
  source_type = "";
  quota = RawNumber.missing;
  image_quota_unknown = RawFlag.missing;
  limits_progress = [];
  default_model_slug = "";
  restore_at = "";
  success = 0;
  fail = 0;
  invalid_count = 0;
  last_used_at = none;
  last_invalid_at = none;
  last_refresh_error = "";
  last_refresh_error_at = none;
  last_token_refresh_at = none;
  last_token_refresh_error = "";
  last_token_refresh_error_at = none;
  last_remote_checked_at = none;
  last_remote_check_attempt_at = none;
  last_remote_check_error = "";
  last_remote_check_error_at = none;
  last_remote_check_event = "";
  last_remote_check_result = "";
  last_quota_estimated_empty_at = none;
  created_at = none;
}

unfoldable pub as_read : Item → Account
unfolding quota_value
as_read item = record {
  access_token = item.access_token;
  refresh_token = item.refresh_token;
  id_token = item.id_token;
  type = item.type;
  export_type = item.export_type;
  status = item.status;
  email = item.email;
  user_id = item.user_id;
  account_id = item.account_id;
  proxy = item.proxy;
  source_type = item.source_type;
  quota = quota_value item.quota;
  image_quota_unknown = elim item.image_quota_unknown [
    | RawFlag.missing ↦ false
    | RawFlag.flag b ↦ b
  ];
  limits_progress = item.limits_progress;
  default_model_slug = item.default_model_slug;
  restore_at = item.restore_at;
  success = item.success;
  fail = item.fail;
  invalid_count = item.invalid_count;
  last_used_at = item.last_used_at;
  last_invalid_at = item.last_invalid_at;
  last_refresh_error = item.last_refresh_error;
  last_refresh_error_at = item.last_refresh_error_at;
  last_token_refresh_at = item.last_token_refresh_at;
  last_token_refresh_error = item.last_token_refresh_error;
  last_token_refresh_error_at = item.last_token_refresh_error_at;
  last_remote_checked_at = item.last_remote_checked_at;
  last_remote_check_attempt_at = item.last_remote_check_attempt_at;
  last_remote_check_error = item.last_remote_check_error;
  last_remote_check_error_at = item.last_remote_check_error_at;
  last_remote_check_event = item.last_remote_check_event;
  last_remote_check_result = item.last_remote_check_result;
  last_quota_estimated_empty_at = item.last_quota_estimated_empty_at;
  created_at = item.created_at;
}

unfoldable pub removed_view : String → (Item → Item) → Account
unfolding blank as_read
removed_view active updates = as_read (record (updates blank) { access_token = active })
