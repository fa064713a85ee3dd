-- ===== src/TaskManager.antt =====
-- services/task_manager.py: background tasks and the manager that holds one lock for each tier.
-- A task's own thread is the events `Event` on its id: the body of a task may call any method of
-- its `BackgroundTask` in any order. Times are counts of microseconds, and a new id is an argument
-- of `submit`, as `uuid4` gives it.
pub mod Steps
pub mod Exclusion
mod ByAge
pub mod Retention
pub mod Locks
mod Tests
use jove_mage.Prelude.{
  ℕ, ◌+◌, ◌-◌, String, Bool, true, false, not, ◌&&◌, ◌||◌, Option, none, some, List, [], ◌∷◌,
  length, take, select, ltb, leb, str_eq, if◌then◌else◌, ℤ, pos_part, Value, Dict, empty, get, put,
  pop, cut, size, keys, values,
}

pub data Status : Type 0 where
  running completed failed cancelled : Status

-- task.status == "running"
unfoldable pub is_running_status : Status → Bool
is_running_status running = true
is_running_status _ = false

-- `BackgroundTask`. The cancel event is its flag.
pub record Task : Type 0 where
  pub task_id : String
  pub task_type : String
  pub tier : String
  pub status : Status
  pub progress : ℤ
  pub total : ℤ
  pub current_batch_size : ℕ
  pub current_batch_done : ℕ
  pub result : Dict Value
  pub error : String
  pub created_at : ℕ
  pub updated_at : ℕ
  pub cancel_requested : Bool

pub data Refusal : Type 0 where
  invalid_tier busy : Refusal

pub data Result {ℓ} (A : Type ℓ) : Type ℓ where
  ok : A → Result A
  err : Refusal → Result A

-- tier in _VALID_TIERS
unfoldable pub is_valid_tier : String → Bool
is_valid_tier tier = str_eq tier "light" || str_eq tier "heavy"

unfoldable pub new_task : String → String → String → ℤ → ℕ → Task
new_task task_id task_type tier total now = record {
  task_id = task_id;
  task_type = task_type;
  tier = tier;
  status = running;
  progress = ℤ.pos 0;
  total = total;
  current_batch_size = 0;
  current_batch_done = 0;
  result = [];
  error = "";
  created_at = now;
  updated_at = now;
  cancel_requested = false;
}

unfoldable pub batch_remaining : Task → ℕ
batch_remaining t =
    if ltb t.current_batch_done t.current_batch_size
    then t.current_batch_size - t.current_batch_done
    else 0

-- self.result.update(result_updates)
unfoldable pub update_result : Dict Value → Dict Value → Dict Value
update_result result [] = result
update_result result ((k, v) ∷ updates) = update_result (put result k v) updates

unfoldable pub bump : Task → Option ℤ → Dict Value → ℕ → Task
unfolding update_result
bump t progress updates now = record t {
  progress = elim progress [ none ↦ t.progress | some p ↦ p ];
  result = update_result t.result updates;
  updated_at = now;
}

unfoldable pub bump_batch_progress : Task → ℤ → ℤ → ℕ → Task
bump_batch_progress t batch_size batch_done now =
    let size = pos_part batch_size in
    let done = pos_part batch_done in
    record t {
      current_batch_size = size;
      current_batch_done = if ltb size done then size else done;
      updated_at = now;
    }

unfoldable pub complete : Task → Dict Value → ℕ → Task
unfolding update_result
complete t updates now = record t {
  status = completed;
  result = update_result t.result updates;
  updated_at = now;
}

unfoldable pub cancel : Task → ℕ → Task
cancel t now = record t { status = cancelled; updated_at = now }

unfoldable pub fail : Task → String → ℕ → Task
fail t error now = record t { status = failed; error = error; updated_at = now }

pub record Manager : Type 0 where
  pub tasks : Dict Task
  pub running_ids : Dict String

abbrev pub init : Manager
init = record { tasks = []; running_ids = [] }

-- existing and existing.status == "running"
unfoldable pub is_live : Option Task → Bool
unfolding is_running_status
is_live none = false
is_live (some t) = is_running_status t.status

-- The task that `_running` names for a tier, where that id is not the empty text.
unfoldable pub holder : Manager → String → Option Task
holder m tier = elim (get m.running_ids tier) [
  | none ↦ none
  | some task_id ↦ if str_eq task_id "" then none else get m.tasks task_id
]

unfoldable pub is_tier_running : Manager → String → Bool
unfolding holder is_live
is_tier_running m tier = is_live (holder m tier)

-- sorted(self._tasks, key=created_at): a stable insertion sort.
unfoldable pub insert_by_age : String × Task → Dict Task → Dict Task
insert_by_age e [] = e ∷ []
insert_by_age (k, t) ((j, u) ∷ d) =
    let rest = insert_by_age (k, t) d in
    if leb t.created_at u.created_at then (k, t) ∷ (j, u) ∷ d else (j, u) ∷ rest

unfoldable pub sorted_by_age : Dict Task → Dict Task
unfolding insert_by_age
sorted_by_age [] = []
sorted_by_age (e ∷ d) = insert_by_age e (sorted_by_age d)

-- for old_id in ...: if self._tasks[old_id].status != "running": del self._tasks[old_id]
unfoldable pub drop_finished : List String → Dict Task → Dict Task
unfolding is_live
drop_finished [] tasks = tasks
drop_finished (old_id ∷ ids) tasks =
    drop_finished ids (if is_live (get tasks old_id) then tasks else pop tasks old_id)

unfoldable pub prune : Dict Task → Dict Task
unfolding drop_finished sorted_by_age
prune tasks =
    if ltb 20 (size tasks)
    then drop_finished (take (size tasks - 20) (keys (sorted_by_age tasks))) tasks
    else tasks

unfoldable pub submit : Manager → String → ℤ → String → String → ℕ → Result (Manager × Task)
unfolding new_task
submit m task_type total tier task_id now =
    if not (is_valid_tier tier)
    then err invalid_tier
    else if is_tier_running m tier
    then err busy
    else (let task = new_task task_id task_type tier total now in
        ok (
          record {
            tasks = prune (put m.tasks task_id task);
            running_ids = put m.running_ids tier task_id;
          },
          task,
        ))

unfoldable pub request_cancel : Manager → String → Manager × Option Task
unfolding is_running_status
request_cancel m task_id = elim (get m.tasks task_id) [
  | none ↦ (m, none)
  | some t ↦
      if is_running_status t.status
      then (let t' = record t { cancel_requested = true } in
          (record m { tasks = put m.tasks task_id t' }, some t'))
      else (m, none)
]

unfoldable pub any_running : String → List Task → Bool
unfolding is_running_status
any_running task_type [] = false
any_running task_type (t ∷ ts) =
    (str_eq t.task_type task_type && is_running_status t.status) || any_running task_type ts

unfoldable pub is_running : Manager → String → Bool
unfolding any_running
is_running m task_type = any_running task_type (values m.tasks)

unfoldable pub list_running : Manager → List Task
unfolding is_running_status
list_running m = select (λ (t : Task). is_running_status t.status) (values m.tasks)

-- The entry of one tier in `list_active_by_tier`.
unfoldable pub active_of_tier : Manager → String → Option Task
unfolding holder is_live
active_of_tier m tier = if is_live (holder m tier) then holder m tier else none

unfoldable pub list_active_by_tier : Manager → Dict (Option Task)
unfolding active_of_tier
list_active_by_tier m =
    ("heavy", active_of_tier m "heavy") ∷ ("light", active_of_tier m "light") ∷ []

-- What the thread of a task, and its body, do to its `BackgroundTask`.
pub data Event : Type 0 where
  bumps : Option ℤ → Dict Value → Event
  batches : ℤ → ℤ → Event
  completes : Dict Value → Event
  cancels : Event
  fails : String → Event

unfoldable pub handle : Event → Task → ℕ → Task
unfolding bump bump_batch_progress complete cancel fail
handle (bumps p updates) t now = bump t p updates now
handle (batches size done) t now = bump_batch_progress t size done now
handle (completes updates) t now = complete t updates now
handle cancels t now = cancel t now
handle (fails e) t now = fail t e now

-- How `_wrapper` ends: `none` where `fn` returned, the exception's text where it raised.
unfoldable pub wrap_up : Option String → Task → ℕ → Task
unfolding is_running_status complete fail
wrap_up none t now = if is_running_status t.status then complete t [] now else t
wrap_up (some e) t now = fail t (cut 500 e) now

-- A thread's write reaches the manager while the manager still holds the task.
unfoldable pub on_task : Manager → String → (Task → Task) → Manager
on_task m task_id f = elim (get m.tasks task_id) [
  | none ↦ m
  | some t ↦ record m { tasks = put m.tasks task_id (f t) }
]
