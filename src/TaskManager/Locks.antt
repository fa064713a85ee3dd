-- ===== src/TaskManager/Locks.antt =====
-- What a caller sees of the tiers' locks, and of the progress of a batch.
use jove_mage.Prelude.{
  ℕ, ◌+◌, ◌≤◌, String, ◌≡◌, ◌≢◌, ◌∙◌, ◌⊎◌, inl, inr, Bool, true, false, none, some, arith, eq_iff,
  eq_refl, str_eq, ℤ, pos_part, get, put, get-put, Bool-cases, Option-cases,
}
use jove_mage.TaskManager.{
  Manager, Task, ok, err, busy, is_running_status, is_live, is_tier_running, is_valid_tier, prune,
  submit, new_task, request_cancel, wrap_up, on_task, handle, bump_batch_progress, batch_remaining,
}
use jove_mage.TaskManager.Steps.{Step, submits, requests, works, ends}
use jove_mage.TaskManager.Exclusion.{
  prune-live, prune-sub, submit-Accepted, handle-Settles, wrap_up-Settles, Settles,
}

-- A submission to a valid tier is refused as busy if the tier has a running task. Otherwise it is
-- accepted: the manager then holds the new task under its id, and the tier has a running task.
pub submit_by_lock :
    (m : Manager) (task_type : String) (total : ℤ) (tier task_id : String) (now : ℕ)
    → is_valid_tier tier ≡ true
    → task_id ≢ ""
    → ((is_tier_running m tier ≡ true) × (submit m task_type total tier task_id now ≡ err busy))
      ⊎ ((m' : Manager) × (is_tier_running m tier ≡ false)
          × (submit m task_type total tier task_id now
              ≡ ok (m', new_task task_id task_type tier total now))
          × (get m'.tasks task_id ≡ some (new_task task_id task_type tier total now))
          × (is_tier_running m' tier ≡ true))
unfolding submit
submit_by_lock m task_type total tier task_id now valid ne =
    elim (Bool-cases (is_tier_running m tier)) [
      | inl e ↦ inl (e, ground (arith, valid, e))
      | inr e ↦ inr (m', e, ground (arith, valid, e), kept, taken)
    ]
  where
    t : Task
    t = new_task task_id task_type tier total now

    m' : Manager
    m' = record {
      tasks = prune (put m.tasks task_id t);
      running_ids = put m.running_ids tier task_id;
    }

    kept : get (prune (put m.tasks task_id t)) task_id ≡ some t
    kept =
        prune-live (put m.tasks task_id t) task_id (
          unfold is_live get new_task in
          ground (arith, get-put m.tasks task_id task_id t, eq_refl task_id))
        ∙ ground (arith, get-put m.tasks task_id task_id t, eq_refl task_id)

    taken : is_tier_running m' tier ≡ true
    taken =
        unfold is_tier_running new_task in
        ground (
          arith,
          kept,
          get-put m.running_ids tier tier task_id,
          eq_refl tier,
          eq_iff task_id "",
          ne,
        )

-- The remaining part of a batch and the finished part make up the batch, whatever numbers the task
-- body passes; a negative size counts as none.
pub batch_progress :
    (t : Task) (batch_size batch_done : ℤ) (now : ℕ)
    → let u = bump_batch_progress t batch_size batch_done now in
      (u.current_batch_size ≡ pos_part batch_size)
      × (u.current_batch_done ≤ u.current_batch_size)
      × (batch_remaining u + u.current_batch_done ≡ u.current_batch_size)
unfolding bump_batch_progress batch_remaining
batch_progress t batch_size batch_done now = ground arith

-- Asking for a cancellation sets the flag of a running task only, and takes no lock away: each tier
-- is as busy as before.
pub request_cancel_keeps_locks :
    (m : Manager) (task_id tier : String)
    → is_tier_running (request_cancel m task_id).0 tier ≡ is_tier_running m tier
unfolding request_cancel is_tier_running
request_cancel_keeps_locks m task_id tier = elim (Option-cases (get m.tasks task_id)) [
  | inl e ↦ rw (e, request_cancel)
  | inr (w, e) ↦ elim (Option-cases (get m.running_ids tier)) [
    | inl f ↦ ground (arith, e, f)
    | inr (j, f) ↦ ground (
      arith,
      e,
      f,
      eq_iff task_id j,
      get-put m.tasks task_id j (record w { cancel_requested = true }),
    )
  ]
]

-- The tier's last submission is this task.
unfoldable pub names : Manager → String → String → Bool
names m tier task_id = elim (get m.running_ids tier) [ none ↦ false | some j ↦ str_eq task_id j ]

on_task-stays :
    (m : Manager) (j : String) (f : Task → Task) (k : String) (t u : Task)
    → Settles f
    → get m.tasks k ≡ some t
    → is_running_status t.status ≡ false
    → get (on_task m j f).tasks k ≡ some u
    → is_running_status u.status ≡ false
unfolding on_task
on_task-stays m j f k t u s at ended at' = elim (Option-cases (get m.tasks j)) [
  | inl e ↦ ground (arith, e)
  | inr (w, e) ↦ ground (arith, e, get-put m.tasks j k (f w), eq_iff j k, s t)
]

request_cancel-stays :
    (m : Manager) (j k : String) (t u : Task)
    → get m.tasks k ≡ some t
    → is_running_status t.status ≡ false
    → get (request_cancel m j).0.tasks k ≡ some u
    → is_running_status u.status ≡ false
unfolding request_cancel
request_cancel-stays m j k t u at ended at' = elim (Option-cases (get m.tasks j)) [
  | inl e ↦ ground (arith, e)
  | inr (w, e) ↦
      ground (arith, e, get-put m.tasks j k (record w { cancel_requested = true }), eq_iff j k)
]

-- A task that has ended does not run again: no step makes it running.
pub finished_stays :
    {m m' : Manager} (k : String) (t u : Task)
    → Step m m'
    → get m.tasks k ≡ some t
    → is_running_status t.status ≡ false
    → get m'.tasks k ≡ some u
    → is_running_status u.status ≡ false
finished_stays {m} {m'} k t u (submits {t = new} ty total tier task_id now ne fresh h) at ended
      at' =
    let a = submit-Accepted m m' new ty total tier task_id now h in
    ground (
      arith,
      prune-sub (put m.tasks task_id new) k u (rw a.tasks at at'),
      get-put m.tasks task_id k new,
      eq_iff task_id k,
      fresh,
    )
finished_stays {m} k t u (requests task_id e) at ended at' =
    request_cancel-stays m task_id k t u at ended (rw e at at')
finished_stays {m} k t u (works task_id ev now e) at ended at' =
    on_task-stays m task_id (λ t. handle ev t now) k t u (handle-Settles ev now) at ended
      (rw e at at')
finished_stays {m} k t u (ends task_id o now e) at ended at' =
    on_task-stays m task_id (λ t. wrap_up o t now) k t u (wrap_up-Settles o now) at ended
      (rw e at at')
