-- ===== src/Accounts/Normal.antt =====
-- `_normalize_account` and the readers of single fields.
pub mod Stable
use jove_mage.Prelude.{
  ℕ, String, Bool, true, false, not, ◌&&◌, ◌||◌, Option, none, some, List, [], ◌∷◌, ◌==◌, str_eq,
  if◌then◌else◌, contains, strip, lower, ℤ, pos_part,
}
use jove_mage.Accounts.{Fields, Item, Account, Limit, RawNumber, RawFlag}

-- a or b, for texts
unfoldable pub or_text : String → String → String
or_text a b = if str_eq a "" then b else a

-- a or b, for times
unfoldable pub or_time : Option ℕ → ℕ → Option ℕ
or_time none t = some t
or_time (some s) t = some s

-- _normalize_source_type
unfoldable pub normalize_source_type : String → String
unfolding or_text
normalize_source_type value = or_text (lower (strip (or_text value "web"))) "web"

-- _quota_value with the default 0
unfoldable pub quota_value : RawNumber → ℕ
quota_value RawNumber.missing = 0
quota_value RawNumber.unreadable = 0
quota_value (RawNumber.number z) = pos_part z

-- _has_value of the quota
unfoldable pub has_number : RawNumber → Bool
has_number RawNumber.missing = false
has_number _ = true

-- What `_extract_image_quota_from_limits` finds: the quota and the time of its reset, and whether
-- the quota is unknown; `none` for an empty list.
pub record Derived : Type 0 where
  pub quota : Option ℕ
  pub restore_at : String
  pub unknown : Option Bool

unfoldable pub is_image_feature : String → Bool
unfolding contains
is_image_feature feature =
    contains (lower (strip feature)) ("image_gen" ∷ "image_generation" ∷ "image" ∷ "images" ∷ [])

unfoldable pub search_limits : List (Option Limit) → Derived
unfolding is_image_feature quota_value
search_limits [] = record { quota = none; restore_at = ""; unknown = some true }
search_limits (none ∷ limits) = search_limits limits
search_limits (some l ∷ limits) =
    let rest = search_limits limits in
    if is_image_feature l.feature
    then record {
      quota = some (quota_value l.remaining);
      restore_at = strip l.restore_at;
      unknown = some false;
    }
    else rest

-- _extract_image_quota_from_limits
unfoldable pub extract_image_quota_from_limits : List (Option Limit) → Derived
unfolding search_limits
extract_image_quota_from_limits [] = record { quota = none; restore_at = ""; unknown = none }
extract_image_quota_from_limits (l ∷ limits) = search_limits (l ∷ limits)

unfoldable pub is_codex : String → Bool
is_codex text = str_eq (lower (strip text)) "codex"

unfoldable pub is_empty {ℓ} : {A : Type ℓ} → List A → Bool
is_empty [] = true
is_empty (x ∷ xs) = false

unfoldable pub is_none {ℓ} : {A : Type ℓ} → Option A → Bool
is_none none = true
is_none (some a) = false

-- The quota: what the payload says, else what the limits say.
unfoldable pub merged_quota : RawNumber → Derived → ℕ
unfolding has_number quota_value
merged_quota raw d =
    if has_number raw then quota_value raw else elim d.quota [ none ↦ 0 | some q ↦ q ]

unfoldable pub merged_unknown : RawFlag → Derived → Bool
merged_unknown (RawFlag.flag b) d = b
merged_unknown RawFlag.missing d = elim d.unknown [ none ↦ false | some b ↦ b ]

-- A Codex account of which nothing is known yet: its quota counts as unknown.
unfoldable pub is_untried_codex : String → ℕ → String → Item → Bool
unfolding is_empty is_none contains
is_untried_codex source_type quota status item =
    str_eq source_type "codex"
    && quota == 0
    && is_empty item.limits_progress
    && not (contains status ("限流" ∷ "异常" ∷ "禁用" ∷ []))
    && is_none item.last_token_refresh_at
    && is_none item.last_used_at

-- The fields that `_normalize_account` stores.
unfoldable pub normal_fields : ℕ → Item → Account
normal_fields now item =
    let export_type = if is_codex item.type then "codex" else item.export_type in
    let type = if is_codex item.type then "free" else or_text item.type "free" in
    let status = or_text item.status "正常" in
    let d = extract_image_quota_from_limits item.limits_progress in
    let quota = merged_quota item.quota d in
    let source_type =
      normalize_source_type (
        if str_eq item.source_type "" && is_codex export_type then "codex" else item.source_type) in
    let unknown = merged_unknown item.image_quota_unknown d in
    record {
      access_token = item.access_token;
      refresh_token = item.refresh_token;
      id_token = item.id_token;
      type = type;
      export_type = export_type;
      status = status;
      email = item.email;
      user_id = item.user_id;
      account_id = item.account_id;
      proxy = strip item.proxy;
      source_type = source_type;
      quota = quota;
      image_quota_unknown = unknown || is_untried_codex source_type quota status item;
      limits_progress = item.limits_progress;
      default_model_slug = item.default_model_slug;
      restore_at = or_text item.restore_at d.restore_at;
      success = item.success;
      fail = item.fail;
      invalid_count = item.invalid_count;
      last_used_at = item.last_used_at;
      last_invalid_at = item.last_invalid_at;
      last_refresh_error = item.last_refresh_error;
      last_refresh_error_at = item.last_refresh_error_at;
      last_token_refresh_at = item.last_token_refresh_at;
      last_token_refresh_error = item.last_token_refresh_error;
      last_token_refresh_error_at = item.last_token_refresh_error_at;
      last_remote_checked_at = item.last_remote_checked_at;
      last_remote_check_attempt_at = item.last_remote_check_attempt_at;
      last_remote_check_error = item.last_remote_check_error;
      last_remote_check_error_at = item.last_remote_check_error_at;
      last_remote_check_event = item.last_remote_check_event;
      last_remote_check_result = item.last_remote_check_result;
      last_quota_estimated_empty_at = item.last_quota_estimated_empty_at;
      created_at = or_time item.created_at now;
    }

-- _normalize_account, on a payload whose key `accessToken` has been read into `access_token`.
unfoldable pub normalize_account : ℕ → Item → Option Account
normalize_account now item =
    if str_eq item.access_token "" then none else some (normal_fields now item)

-- dict(account), as a payload again.
unfoldable pub to_item : Account → Item
to_item a = record {
  access_token = a.access_token;
  refresh_token = a.refresh_token;
  id_token = a.id_token;
  type = a.type;
  export_type = a.export_type;
  status = a.status;
  email = a.email;
  user_id = a.user_id;
  account_id = a.account_id;
  proxy = a.proxy;
  source_type = a.source_type;
  quota = RawNumber.number (ℤ.pos a.quota);
  image_quota_unknown = RawFlag.flag a.image_quota_unknown;
  limits_progress = a.limits_progress;
  default_model_slug = a.default_model_slug;
  restore_at = a.restore_at;
  success = a.success;
  fail = a.fail;
  invalid_count = a.invalid_count;
  last_used_at = a.last_used_at;
  last_invalid_at = a.last_invalid_at;
  last_refresh_error = a.last_refresh_error;
  last_refresh_error_at = a.last_refresh_error_at;
  last_token_refresh_at = a.last_token_refresh_at;
  last_token_refresh_error = a.last_token_refresh_error;
  last_token_refresh_error_at = a.last_token_refresh_error_at;
  last_remote_checked_at = a.last_remote_checked_at;
  last_remote_check_attempt_at = a.last_remote_check_attempt_at;
  last_remote_check_error = a.last_remote_check_error;
  last_remote_check_error_at = a.last_remote_check_error_at;
  last_remote_check_event = a.last_remote_check_event;
  last_remote_check_result = a.last_remote_check_result;
  last_quota_estimated_empty_at = a.last_quota_estimated_empty_at;
  created_at = a.created_at;
}

-- self._normalize_account(next_item), for an account that has been changed.
unfoldable pub renormalize : ℕ → Account → Option Account
unfolding to_item
renormalize now a = normalize_account now (to_item a)
