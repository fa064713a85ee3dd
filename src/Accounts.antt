-- ===== src/Accounts.antt =====
-- services/account_service.py: the account pool. An account is a record of the fields that the
-- service reads or writes; where the source keeps None or a missing key, a text is empty and a time
-- is `none`. Times are counts of microseconds. The lock makes each method one step.
pub mod Normal
pub mod Tokens
pub mod Selection
pub mod Outcomes
pub mod Removal
pub mod Rotation
pub mod RefreshQueue
pub mod Keepalive
pub mod Views
pub mod Refresh
pub mod TextRequests
pub mod Precheck
pub mod Import
pub mod Health
mod Sample
mod Tests
mod CallTests
use jove_mage.Prelude.{ℕ, String, Bool, Option, List, ℤ, Dict, values}

-- A number as it stands in a payload: absent or blank, text that is no number, or what
-- `int(float(...))` reads.
pub data RawNumber : Type 0 where
  missing : RawNumber
  unreadable : RawNumber
  number : ℤ → RawNumber

-- A flag as it stands in a payload: absent or blank, or what `_bool_value` reads.
pub data RawFlag : Type 0 where
  missing : RawFlag
  flag : Bool → RawFlag

-- An entry of `limits_progress` that is a dict. The texts are the first that is not empty among
-- the keys that the source tries.
pub record Limit : Type 0 where
  pub feature : String
  pub remaining : RawNumber
  pub restore_at : String

-- The fields of an account, over how it holds its quota and its flag.
pub record Fields (Q F : Type 0) : Type 0 where
  pub access_token : String
  pub refresh_token : String
  pub id_token : String
  pub type : String
  pub export_type : String
  pub status : String
  pub email : String
  pub user_id : String
  pub account_id : String
  pub proxy : String
  pub source_type : String
  pub quota : Q
  pub image_quota_unknown : F
  pub limits_progress : List (Option Limit)
  pub default_model_slug : String
  pub restore_at : String
  pub success : ℕ
  pub fail : ℕ
  pub invalid_count : ℕ
  pub last_used_at : Option ℕ
  pub last_invalid_at : Option ℕ
  pub last_refresh_error : String
  pub last_refresh_error_at : Option ℕ
  pub last_token_refresh_at : Option ℕ
  pub last_token_refresh_error : String
  pub last_token_refresh_error_at : Option ℕ
  pub last_remote_checked_at : Option ℕ
  pub last_remote_check_attempt_at : Option ℕ
  pub last_remote_check_error : String
  pub last_remote_check_error_at : Option ℕ
  pub last_remote_check_event : String
  pub last_remote_check_result : String
  pub last_quota_estimated_empty_at : Option ℕ
  pub created_at : Option ℕ

-- A payload, before `_normalize_account`.
abbrev pub Item : Type 0
Item = Fields RawNumber RawFlag

-- An account of the pool.
abbrev pub Account : Type 0
Account = Fields ℕ Bool

-- The state of `AccountService` that accounts and image slots live in; `saved` is what the storage
-- was last given.
pub record Pool : Type 0 where
  pub accounts : Dict Account
  pub image_inflight : Dict ℕ
  pub token_aliases : Dict String
  pub index : ℕ
  pub saved : List Account

-- The settings that the pool reads.
pub record Config : Type 0 where
  pub image_account_concurrency : ℕ
  pub auto_remove_invalid_accounts : Bool
  pub auto_remove_rate_limited_accounts : Bool

-- `_save_accounts`
unfoldable pub save : Pool → Pool
save p = record p { saved = values p.accounts }
