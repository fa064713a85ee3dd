-- ===== src/ImageTasks/Methods.antt =====
-- The methods of ImageTaskService. A step is what a method does under the lock. `diagnose` is
-- `exception_diagnostic_fields`, `timestamp` reads a time of the file, and `show` and `parses` are
-- Python's `str` of a value that is not a text, and whether `json.loads` reads a text.
use Prim.Native.String.{◌++◌ as text_append}
use jove_mage.Prelude.{
  ℕ, ◌-◌, ◌*◌, max, String, Bool, true, false, not, ◌&&◌, ◌||◌, ltb, Option, none, some, List, [],
  ◌∷◌, str_eq, if◌then◌else◌, strip, Dict, get, put, ℤ, pos, pos_part, Value, Items,
}
use jove_mage.Failures.{image_failure}
use jove_mage.Failures.Http.{Raised, Class}
use jove_mage.Failures.Read.{mapping, is_mapping, text_of}
use jove_mage.Failures.Codes.{field_of}
use jove_mage.ImageTasks.{
  queued, running, success, error, Task, launched, working, Service, drop_thread, value_at,
  apply_updates, update_all, task_detail_fields, clear_task_details, classify_task_failure_fields,
  save, update_task, is_terminal,
}

-- `_task_key`
unfoldable pub task_key : String → String → String
task_key owner_id task_id = text_append owner_id (text_append ":" task_id)

-- retention_days * 86400 before now; `none` where the setting cannot be read.
unfoldable pub cutoff : ℕ → Option ℤ → ℕ
cutoff now retention =
    now - max 1 (elim retention as (λ _. ℕ) [ none ↦ 30 | some days ↦ pos_part days ]) * 86400

-- A new task's keys.
unfoldable pub new_fields : String → String → Dict Value → ℕ → Dict Value
unfolding update_all
new_fields task_id stamp payload now =
    ("id", Value.str task_id)
    ∷ update_all payload
        (("created_at", Value.str stamp) ∷ ("created_ts", Value.int (pos now)) ∷ [])

-- What a handler does: it returns a value, or raises an exception, which may carry a conversation.
pub data Handled : Type 0 where
  returned : Value → Handled
  raised : Raised → String → Handled

-- What comes of it: data and usage, or an exception.
pub data Outcome : Type 0 where
  made : Value → Value → Outcome
  failed : Raised → String → Outcome

-- RuntimeError(text)
unfoldable pub runtime_error : String → Raised
runtime_error text = record { failure = none; code = none; class = Class.other; text = text }

-- isinstance(data, list) and data
unfoldable pub has_items : Value → Bool
has_items (Value.list (Items.cons x xs)) = true
has_items (Value.list Items.nil) = false
has_items Value.null = false
has_items (Value.bool b) = false
has_items (Value.int n) = false
has_items (Value.float m e) = false
has_items (Value.str s) = false
has_items (Value.dict fs) = false

abbrev pub no_account_message : String
no_account_message = "号池中没有可用账号或所有账号均被限流，请检查号池状态（账号额度、是否被封禁、是否到达生图上限）"

-- The updates of a task that has succeeded.
unfoldable pub made_updates : Value → Value → ℕ → Dict Value
unfolding clear_task_details
made_updates result usage duration =
    ("data", result)
    ∷ ("usage", usage)
    ∷ ("error", Value.str "")
    ∷ ("duration_ms", Value.int (pos duration))
    ∷ clear_task_details

-- The same after a resumed poll.
unfoldable pub resumed_updates : Value → ℕ → Dict Value
unfolding clear_task_details
resumed_updates result duration =
    ("data", result)
    ∷ ("error", Value.str "")
    ∷ ("duration_ms", Value.int (pos duration))
    ∷ clear_task_details

-- `resume_poll` where it refuses.
pub data Refusal : Type 0 where
  not_found : Refusal
  not_failed : Refusal
  not_a_timeout : Refusal
  no_conversation : Refusal

module _ (show : Value → String) (parses : String → Bool) (diagnose : Raised → Dict Value)
    (timestamp : String → ℕ) where
  -- A task that `_cleanup_locked` removes.
  unfoldable pub is_expired : ℕ → Task → Bool
  unfolding is_terminal
  is_expired limit t = is_terminal t.status && ltb (timestamp t.updated_at) limit

  unfoldable pub drop_expired : ℕ → Dict Task → Dict Task
  unfolding is_expired
  drop_expired limit [] = []
  drop_expired limit ((key, t) ∷ tasks) =
      let rest = drop_expired limit tasks in if is_expired limit t then rest else (key, t) ∷ rest

  unfoldable pub any_expired : ℕ → Dict Task → Bool
  unfolding is_expired
  any_expired limit [] = false
  any_expired limit ((key, t) ∷ tasks) = is_expired limit t || any_expired limit tasks

  -- `_cleanup_locked`, and the save of its callers where it has removed a task.
  unfoldable pub cleanup : ℕ → Option ℤ → Service → Service
  unfolding drop_expired any_expired cutoff save
  cleanup now retention s =
      if any_expired (cutoff now retention) s.tasks
      then save (record s { tasks = drop_expired (cutoff now retention) s.tasks })
      else s

  -- `_submit`, with the identifier cleaned, and the payload's keys as the task has them; `none` where
  -- it raises.
  unfoldable pub submit :
      String → ℕ → Option ℤ → Service → String → String → Dict Value → Option Service
  unfolding cleanup task_key new_fields save
  submit stamp now retention s owner task_id payload =
      let s1 = cleanup now retention s in
      let key = task_key owner task_id in
      if str_eq task_id "" then none else elim (get s1.tasks key) [
        | some t ↦ some s1
        | none ↦ some (
            save (record s1 {
              tasks = put s1.tasks key (record {
                status = queued;
                owner_id = owner;
                updated_at = stamp;
                fields = new_fields task_id stamp payload now;
              });
              workers = (key, launched) ∷ s1.workers;
            }))
      ]

  -- The start of `_run_task`.
  unfoldable pub begin : String → ℕ → Service → String → Service
  unfolding update_task drop_thread
  begin stamp now s key =
      let s1 = update_task stamp now s key (some running) (("error", Value.str "") ∷ []) in
      record s1 { workers = (key, working) ∷ drop_thread s1.workers key launched }

  -- The progress callback.
  unfoldable pub progress : String → ℕ → Service → String → String → Service
  unfolding update_task
  progress stamp now s key step =
      let s1 =
        if str_eq step "image_stream_resolve_start"
        then update_task stamp now s key none (("started_ts", Value.int (pos now)) ∷ [])
        else s in
      update_task stamp now s1 key none (("progress", Value.str step) ∷ [])

  -- What the handler's answer comes to.
  unfoldable pub outcome_of : Handled → Outcome
  unfolding is_mapping mapping field_of has_items runtime_error text_of strip
  outcome_of (raised exc conversation_id) = failed exc conversation_id
  outcome_of (returned result) =
      let fields = mapping result in
      let message = strip (text_of show parses (field_of fields "message")) in
      if not (is_mapping result)
      then failed (runtime_error "image task returned streaming result unexpectedly") ""
      else if has_items (field_of fields "data")
      then made (field_of fields "data") (field_of fields "usage")
      else failed (runtime_error (if str_eq message "" then no_account_message else message)) ""

  -- The updates of a task that has failed.
  unfoldable pub failure_updates : String → ℕ → Raised → String → Dict Value
  unfolding task_detail_fields classify_task_failure_fields
  failure_updates default duration exc conversation_id =
      let details = task_detail_fields (classify_task_failure_fields (diagnose exc) exc) in
      let tail =
        if str_eq conversation_id ""
        then details
        else ("conversation_id", Value.str conversation_id) ∷ details in
      ("error", Value.str (if str_eq exc.text "" then default else exc.text))
      ∷ ("data", Value.list Items.nil)
      ∷ ("duration_ms", Value.int (pos duration))
      ∷ tail

  -- The end of `_run_task`.
  unfoldable pub finish : String → ℕ → ℕ → Service → String → Handled → Service
  unfolding outcome_of update_task failure_updates made_updates drop_thread
  finish stamp now duration s key handled =
      let s1 : Service = elim (outcome_of handled) [
        | made result usage ↦
            update_task stamp now s key (some success) (made_updates result usage duration)
        | failed exc conversation_id ↦
            update_task stamp now s key (some error)
              (failure_updates "image task failed" duration exc conversation_id)
      ] in
      record s1 { workers = drop_thread s1.workers key working }

  -- The end of `_run_resume_poll`: the images, or an exception.
  unfoldable pub finish_resume : String → ℕ → ℕ → Service → String → Outcome → Service
  unfolding update_task failure_updates resumed_updates drop_thread
  finish_resume stamp now duration s key outcome =
      let s1 : Service = elim outcome [
        | made result usage ↦
            update_task stamp now s key (some success) (resumed_updates result duration)
        | failed exc conversation_id ↦
            update_task stamp now s key (some error)
              (failure_updates "resume poll failed" duration exc "")
      ] in
      record s1 { workers = drop_thread s1.workers key working }

  -- Why a task cannot be polled again, if it cannot.
  unfoldable pub refusal_of : Option Task → Option Refusal
  unfolding image_failure value_at text_of strip
  refusal_of none = some not_found
  refusal_of (some t) = elim t.status [
    | error ↦
        if not (
          str_eq
            (image_failure (strip (text_of show parses (value_at t.fields "error_code"))) none
              Value.null).code
            "image_poll_timeout")
        then some not_a_timeout
        else if str_eq (strip (text_of show parses (value_at t.fields "conversation_id"))) ""
        then some no_conversation
        else none
    | queued ↦ some not_failed
    | running ↦ some not_failed
    | success ↦ some not_failed
  ]

  -- `resume_poll`
  unfoldable pub resume_poll : String → ℕ → Service → String → Service × Option Refusal
  unfolding refusal_of update_task clear_task_details
  resume_poll stamp now s key = elim (refusal_of (get s.tasks key)) [
    | some refusal ↦ (s, some refusal)
    | none ↦
        let s1 =
          update_task stamp now s key (some running)
            (("error", Value.str "") ∷ clear_task_details) in
        (record s1 { workers = (key, working) ∷ s1.workers }, none)
  ]

  abbrev pub interrupted_message : String
  interrupted_message = "服务已重启，未完成的图片任务已中断"

  -- ImageFailureError, as it interrupts a task.
  unfoldable pub interruption : Raised
  unfolding image_failure
  interruption = record {
    failure = some (image_failure "task_interrupted" none (Value.str interrupted_message));
    code = none;
    class = Class.other;
    text = interrupted_message;
  }

  unfoldable pub recover_task : String → Task → Task
  unfolding is_terminal apply_updates task_detail_fields classify_task_failure_fields interruption
  recover_task stamp t = if is_terminal t.status then t else record t {
    status = error;
    updated_at = stamp;
    fields =
        apply_updates (put t.fields "error" (Value.str interrupted_message))
          (task_detail_fields (classify_task_failure_fields (diagnose interruption) interruption));
  }

  -- `_recover_unfinished_locked`
  unfoldable pub recover_unfinished : String → Dict Task → Dict Task
  unfolding recover_task
  recover_unfinished stamp [] = []
  recover_unfinished stamp ((key, t) ∷ tasks) =
      (key, recover_task stamp t) ∷ recover_unfinished stamp tasks

  unfoldable pub any_unfinished : Dict Task → Bool
  unfolding is_terminal
  any_unfinished [] = false
  any_unfinished ((key, t) ∷ tasks) = not (is_terminal t.status) || any_unfinished tasks

  -- The start of the service, on the tasks of the file: no thread works yet.
  unfoldable pub start_service : String → ℕ → Option ℤ → Dict Task → List Task → Service
  unfolding recover_unfinished any_unfinished cleanup save
  start_service stamp now retention loaded saved =
      let s : Service = record {
        tasks = recover_unfinished stamp loaded;
        saved = saved;
        workers = [];
      } in
      cleanup now retention (if any_unfinished loaded then save s else s)
