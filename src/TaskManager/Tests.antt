-- ===== src/TaskManager/Tests.antt =====
-- Runs of the manager at concrete inputs, and instances of its theorems.
use jove_mage.Prelude.{◌≤◌, String, ◌≡◌, ◌≢◌, refl, [], ◌∷◌, arith, eq_iff, ℤ, get, put, size}
use jove_mage.TaskManager.{
  Manager, Task, ok, err, busy, init, submit, new_task, is_tier_running, is_valid_tier, prune,
  invalid_tier,
}
use jove_mage.TaskManager.Steps.{Reach, submits, start, next}
use jove_mage.TaskManager.Exclusion.{one_running_task_per_tier}
use jove_mage.TaskManager.Retention.{tasks_bounded}

abbrev refresh_task : Task
refresh_task = new_task "t1" "refresh" "heavy" (ℤ.pos 5) 10

abbrev one_task : Manager
one_task = record { tasks = ("t1", refresh_task) ∷ []; running_ids = ("heavy", "t1") ∷ [] }

t1_ne_empty : ◌≢◌ {A = String} "t1" ""
t1_ne_empty = ground (arith, eq_iff "t1" "")

t2_ne_empty : ◌≢◌ {A = String} "t2" ""
t2_ne_empty = ground (arith, eq_iff "t2" "")

first_submit : submit init "refresh" (ℤ.pos 5) "heavy" "t1" 10 ≡ ok (one_task, refresh_task)
unfolding submit is_valid_tier is_tier_running prune put get
first_submit = refl

one_task-Reach : Reach one_task
unfolding get
one_task-Reach =
    next start (submits "refresh" (ℤ.pos 5) "heavy" "t1" 10 t1_ne_empty refl first_submit)

second_submit_busy : submit one_task "delete" (ℤ.pos 1) "heavy" "t2" 11 ≡ err busy
unfolding submit is_valid_tier is_tier_running get new_task
second_submit_busy = refl

unknown_tier : submit one_task "delete" (ℤ.pos 1) "medium" "t2" 11 ≡ err invalid_tier
unfolding submit is_valid_tier
unknown_tier = refl

one_running_task_per_tier_example : ◌≡◌ {A = String} "t1" "t1"
unfolding get new_task
one_running_task_per_tier_example =
    one_running_task_per_tier {m = one_task} "t1" "t1" refresh_task refresh_task one_task-Reach refl
      refl refl refl refl

tasks_bounded_example : size one_task.tasks ≤ 22
tasks_bounded_example = tasks_bounded one_task-Reach
