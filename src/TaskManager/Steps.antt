-- ===== src/TaskManager/Steps.antt =====
-- The interleavings of the manager's callers and of the tasks' threads.
use jove_mage.Prelude.{ℕ, String, ◌≡◌, ◌≢◌, Option, none, ℤ, get}
use jove_mage.TaskManager.{
  Manager, Task, Event, ok, submit, request_cancel, handle, wrap_up, on_task, init,
}

-- One atomic step: a call of the manager, or a write of some task's thread. `uuid4` gives an id
-- that no task of the manager has.
pub data Step (m : Manager) : Manager → Type 0 where
  submits :
      {m' : Manager} {t : Task} (task_type : String) (total : ℤ) (tier task_id : String) (now : ℕ)
      → task_id ≢ ""
      → get m.tasks task_id ≡ none
      → submit m task_type total tier task_id now ≡ ok (m', t)
      → Step m m'
  requests : {m' : Manager} (task_id : String) → m' ≡ (request_cancel m task_id).0 → Step m m'
  works :
      {m' : Manager} (task_id : String) (e : Event) (now : ℕ)
      → m' ≡ on_task m task_id (λ t. handle e t now)
      → Step m m'
  ends :
      {m' : Manager} (task_id : String) (o : Option String) (now : ℕ)
      → m' ≡ on_task m task_id (λ t. wrap_up o t now)
      → Step m m'

pub data Reach : Manager → Type 0 where
  start : Reach init
  next : {m m' : Manager} → Reach m → Step m m' → Reach m'
