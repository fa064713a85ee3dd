-- ===== src/ImageTasks.antt =====
-- services/image_task_service.py: image tasks, their changes, and the file. The threads that work on
-- tasks stand beside them.
pub mod Methods
pub mod Workers
pub mod Life
pub mod Runs
pub mod Resume
pub mod File
mod Tests
use Prim.Native.String.{compare}
use text.Mathlib.Text.{is_lt}
use jove_mage.Prelude.{
  ℕ, String, Bool, true, false, ◌&&◌, Option, none, some, List, [], ◌∷◌, str_eq, if◌then◌else◌,
  Dict, get, put, pop, contains, values, ℤ, pos, Value,
}
use jove_mage.Failures.{ImageFailure, verify_account}
use jove_mage.Failures.Http.{Raised, classify_image_exception}

pub data Status : Type 0 where
  queued : Status
  running : Status
  success : Status
  error : Status

-- A task: its status, its owner, its last change, and its other keys.
pub record Task : Type 0 where
  pub status : Status
  pub owner_id : String
  pub updated_at : String
  pub fields : Dict Value

-- A thread of `_run_task` that has not begun, or a thread that works.
pub data Worker : Type 0 where
  launched : Worker
  working : Worker

-- `_tasks`, the file, and the threads that run: each has the key of its task, and a task may have
-- several.
pub record Service : Type 0 where
  pub tasks : Dict Task
  pub saved : List Task
  pub workers : List (String × Worker)

-- The threads of a task.
unfoldable pub threads_of : List (String × Worker) → String → List Worker
threads_of [] key = []
threads_of ((k, w) ∷ workers) key =
    let rest = threads_of workers key in if str_eq k key then w ∷ rest else rest

-- The same kind of thread.
unfoldable pub is_same : Worker → Worker → Bool
is_same launched launched = true
is_same launched working = false
is_same working launched = false
is_same working working = true

-- One thread of a task and of this kind fewer.
unfoldable pub drop_thread : List (String × Worker) → String → Worker → List (String × Worker)
unfolding is_same
drop_thread [] key w = []
drop_thread ((k, v) ∷ workers) key w =
    let rest = drop_thread workers key w in
    if str_eq k key && is_same v w then workers else (k, v) ∷ rest

-- TASK_DETAIL_KEYS
unfoldable pub task_detail_keys : List String
task_detail_keys =
    "error_code" ∷ "failure_scope" ∷ "failure_capability" ∷ "failure_retryable"
    ∷ "failure_account_failure" ∷ "failure_retry_after" ∷ "status_code" ∷ "error_type" ∷ "raw_error"
    ∷ "upstream_error" ∷ "upstream_error_type" ∷ "upstream_request_id" ∷ "can_resume_poll"
    ∷ "raw_upstream_message" ∷ "raw_upstream_message_len" ∷ "raw_upstream_message_truncated"
    ∷ "upstream_message_preview" ∷ "upstream_message_len" ∷ "upstream_message_truncated"
    ∷ "tool_invoked" ∷ "terminal_message" ∷ "blocked" ∷ "diagnosis" ∷ "poll_attempts"
    ∷ "poll_timeout_secs" ∷ "stream_timeout_secs" ∷ "last_task_error" ∷ []

-- value in (None, "")
unfoldable pub is_missing : Value → Bool
is_missing Value.null = true
is_missing (Value.str s) = str_eq s ""
is_missing (Value.bool b) = false
is_missing (Value.int n) = false
is_missing (Value.float m e) = false
is_missing (Value.list xs) = false
is_missing (Value.dict fs) = false

-- fields.get(key)
unfoldable pub value_at : Dict Value → String → Value
value_at fields key = elim (get fields key) [ none ↦ Value.null | some v ↦ v ]

-- The loop of `_update_task`.
unfoldable pub apply_updates : Dict Value → Dict Value → Dict Value
unfolding task_detail_keys is_missing
apply_updates fields [] = fields
apply_updates fields ((key, value) ∷ updates) =
    apply_updates
      (if contains key task_detail_keys && is_missing value
        then pop fields key
        else put fields key value)
      updates

-- a.update(b)
unfoldable pub update_all : Dict Value → Dict Value → Dict Value
update_all fields [] = fields
update_all fields ((key, value) ∷ updates) = update_all (put fields key value) updates

-- `_task_detail_fields`
unfoldable pub task_detail_fields : Dict Value → Dict Value
unfolding task_detail_keys
task_detail_fields [] = []
task_detail_fields ((key, value) ∷ fields) =
    let rest = task_detail_fields fields in
    if contains key task_detail_keys then (key, value) ∷ rest else rest

unfoldable pub blanks : List String → Dict Value
blanks [] = []
blanks (key ∷ keys) = (key, Value.str "") ∷ blanks keys

-- `_clear_task_details`
unfoldable pub clear_task_details : Dict Value
unfolding blanks task_detail_keys
clear_task_details = blanks task_detail_keys

unfoldable pub optional_text : Option String → Value
optional_text none = Value.null
optional_text (some s) = Value.str s

unfoldable pub optional_int : Option ℤ → Value
optional_int none = Value.null
optional_int (some n) = Value.int n

-- `ImageFailure.diagnostic_fields`
unfoldable pub diagnostic_fields : ImageFailure → Dict Value
unfolding optional_text optional_int verify_account
diagnostic_fields f =
    ("failure_code", Value.str f.code)
    ∷ ("failure_scope", Value.str f.scope)
    ∷ ("failure_capability", optional_text f.capability)
    ∷ ("failure_retryable", Value.bool f.retryable)
    ∷ ("failure_account_failure", Value.bool (verify_account f))
    ∷ ("failure_retry_after", optional_int f.retry_after)
    ∷ ("status_code", Value.int (pos f.status_code))
    ∷ ("error_type", Value.str f.error_type)
    ∷ []

-- `_classify_task_failure`, after `exception_diagnostic_fields`.
unfoldable pub classify_task_failure_fields : Dict Value → Raised → Dict Value
unfolding update_all diagnostic_fields classify_image_exception
classify_task_failure_fields details exc =
    let f = (classify_image_exception exc "").0 in
    put (update_all details (diagnostic_fields f)) "error_code" (Value.str f.code)

-- `_save_locked`: the tasks by their last change, the latest first.
unfoldable pub insert_latest : Task → List Task → List Task
insert_latest t [] = t ∷ []
insert_latest t (u ∷ tasks) =
    let rest = insert_latest t tasks in
    if is_lt (compare t.updated_at u.updated_at) then u ∷ rest else t ∷ u ∷ tasks

unfoldable pub sort_latest : List Task → List Task
unfolding insert_latest
sort_latest [] = []
sort_latest (t ∷ tasks) = insert_latest t (sort_latest tasks)

unfoldable pub save : Service → Service
unfolding sort_latest
save s = record s { saved = sort_latest (values s.tasks) }

-- `_update_task`, with the keyword `status` apart.
unfoldable pub changed_task : String → ℕ → Status → Dict Value → Task → Task
unfolding apply_updates
changed_task stamp now status updates t = record t {
  status = status;
  updated_at = stamp;
  fields = put (apply_updates t.fields updates) "updated_ts" (Value.int (pos now));
}

unfoldable pub update_task : String → ℕ → Service → String → Option Status → Dict Value → Service
unfolding save changed_task
update_task stamp now s key status updates = elim (get s.tasks key) [
  | none ↦ s
  | some t ↦
      let next = elim status as (λ _. Status) [ none ↦ t.status | some st ↦ st ] in
      save (record s { tasks = put s.tasks key (changed_task stamp now next updates t) })
]

unfoldable pub is_terminal : Status → Bool
is_terminal queued = false
is_terminal running = false
is_terminal success = true
is_terminal error = true
