-- ===== src/TaskManager/Exclusion.antt =====
-- The lock of a tier: two running tasks never share one.
use jove_mage.Prelude.{
  ℕ, String, ◌≡◌, ◌≢◌, refl, inl, inr, true, false, Option, some, List, [], ◌∷◌, arith, eq_iff,
  str_eq, ℤ, Dict, get, put, pop, get-put, get-pop, Bool-cases, Option-cases, take, keys, size, ◌-◌,
}
use jove_mage.TaskManager.{
  Manager, Task, Event, ok, Status, is_running_status, is_live, drop_finished, prune, submit,
  request_cancel, handle, wrap_up, on_task, is_tier_running, is_valid_tier, sorted_by_age,
}
use jove_mage.TaskManager.Steps.{Step, submits, requests, works, ends, Reach, start, next}

-- What `drop_finished` leaves was there before.
drop_finished-sub :
    (ids : List String) (tasks : Dict Task) (k : String) (t : Task)
    → get (drop_finished ids tasks) k ≡ some t
    → get tasks k ≡ some t
unfolding drop_finished
drop_finished-sub [] tasks k t h = h
drop_finished-sub (j ∷ ids) tasks k t h = elim (Bool-cases (is_live (get tasks j))) [
  | inl e ↦ drop_finished-sub ids tasks k t (rw e at h)
  | inr e ↦
      let h' = drop_finished-sub ids (pop tasks j) k t (rw e at h) in
      ground (arith, get-pop tasks j k, h')
]

-- And it keeps every running task.
drop_finished-live :
    (ids : List String) (tasks : Dict Task) (k : String)
    → is_live (get tasks k) ≡ true
    → get (drop_finished ids tasks) k ≡ get tasks k
unfolding drop_finished
drop_finished-live [] tasks k h = refl
drop_finished-live (j ∷ ids) tasks k h = elim (Bool-cases (is_live (get tasks j))) [
  | inl e ↦ rw e (drop_finished-live ids tasks k h)
  | inr e ↦
      rw e (ground (arith, get-pop tasks j k, eq_iff j k, drop_finished-live ids (pop tasks j) k))
]

pub prune-sub :
    (tasks : Dict Task) (k : String) (t : Task)
    → get (prune tasks) k ≡ some t
    → get tasks k ≡ some t
unfolding prune
prune-sub tasks k t h =
    ground
      (arith, drop_finished-sub (take (size tasks - 20) (keys (sorted_by_age tasks))) tasks k t)

pub prune-live :
    (tasks : Dict Task) (k : String)
    → is_live (get tasks k) ≡ true
    → get (prune tasks) k ≡ get tasks k
unfolding prune
prune-live tasks k h =
    ground (arith, drop_finished-live (take (size tasks - 20) (keys (sorted_by_age tasks))) tasks k)

-- Each running task is the one that its tier's lock names.
pub record IsLocked (m : Manager) : Type 0 where
  pub named :
      (k : String) (t : Task)
      → get m.tasks k ≡ some t
      → is_running_status t.status ≡ true
      → (get m.running_ids t.tier ≡ some k) × (str_eq k "" ≡ false) × (is_valid_tier t.tier ≡ true)

-- What an accepted `submit` has tested and built.
pub record Accepted (m m' : Manager) (t : Task) (tier task_id : String) : Type 0 where
  pub valid : is_valid_tier tier ≡ true
  pub free : is_tier_running m tier ≡ false
  pub tasks : m'.tasks ≡ prune (put m.tasks task_id t)
  pub running_ids : m'.running_ids ≡ put m.running_ids tier task_id
  pub in_tier : t.tier ≡ tier
  pub is_running : t.status ≡ Status.running

pub submit-Accepted :
    (m m' : Manager) (t : Task) (task_type : String) (total : ℤ) (tier task_id : String) (now : ℕ)
    → submit m task_type total tier task_id now ≡ ok (m', t)
    → Accepted m m' t tier task_id
unfolding submit
submit-Accepted m m' t task_type total tier task_id now h = record {
  valid = ground arith;
  free = ground arith;
  tasks = ground arith;
  running_ids = ground arith;
  in_tier = ground arith;
  is_running = ground arith;
}

-- A running task of a tier makes the tier's lock taken.
pub locked-busy :
    (m : Manager) (k : String) (u : Task)
    → IsLocked m
    → get m.tasks k ≡ some u
    → is_running_status u.status ≡ true
    → is_tier_running m u.tier ≡ true
unfolding is_tier_running
locked-busy m k u v at live = ground (arith, v.named k u at live)

-- The state of an accepted `submit` before it prunes.
abbrev pub unpruned : Manager → Task → String → String → Manager
unpruned m t tier task_id = record {
  tasks = put m.tasks task_id t;
  running_ids = put m.running_ids tier task_id;
}

pub unpruned-IsLocked :
    (m m' : Manager) (t : Task) (tier task_id : String)
    → task_id ≢ ""
    → Accepted m m' t tier task_id
    → IsLocked m
    → IsLocked (unpruned m t tier task_id)
unpruned-IsLocked m m' t tier task_id ne a v = record {
  named = λ k u at live. elim (Bool-cases (str_eq task_id k)) [
    | inl e ↦ ground (
      arith,
      a,
      get-put m.tasks task_id k t,
      eq_iff task_id k,
      eq_iff task_id "",
      get-put m.running_ids tier tier task_id,
      eq_iff tier tier,
      ne,
    )
    | inr e ↦ ground (
      arith,
      a,
      get-put m.tasks task_id k t,
      v.named k u,
      locked-busy m k u v,
      get-put m.running_ids tier u.tier task_id,
      eq_iff tier u.tier,
    )
  ];
}

submit-IsLocked :
    (m m' : Manager) (t : Task) (tier task_id : String)
    → task_id ≢ ""
    → Accepted m m' t tier task_id
    → IsLocked m
    → IsLocked m'
submit-IsLocked m m' t tier task_id ne a v = record {
  named = λ k u at live.
      let at' = prune-sub (put m.tasks task_id t) k u (rw a.tasks at at) in
      rw a.running_ids ((unpruned-IsLocked m m' t tier task_id ne a v).named k u at' live);
}

-- A write that does not set a task running, nor moves it to another tier.
abbrev pub Settles : (Task → Task) → Type 0
Settles f =
    (t : Task)
    → ((f t).tier ≡ t.tier)
      × (is_running_status (f t).status ≡ true → is_running_status t.status ≡ true)

on_task-IsLocked :
    (m : Manager) (j : String) (f : Task → Task) → Settles f → IsLocked m → IsLocked (on_task m j f)
unfolding on_task
on_task-IsLocked m j f s v = elim (Option-cases (get m.tasks j)) [
  | inl e ↦ rw (e, on_task) v
  | inr (t, e) ↦
      rw (e, on_task)
        (record {
          named = λ k u at live.
              ground (arith, get-put m.tasks j k (f t), eq_iff j k, s t, v.named k u, v.named j t);
        })
]

pub handle-Settles : (e : Event) (now : ℕ) → Settles (λ t. handle e t now)
unfolding handle is_running_status
handle-Settles e now t = ground arith

pub wrap_up-Settles : (o : Option String) (now : ℕ) → Settles (λ t. wrap_up o t now)
unfolding wrap_up is_running_status
wrap_up-Settles o now t = ground arith

request_cancel-IsLocked : (m : Manager) (j : String) → IsLocked m → IsLocked (request_cancel m j).0
unfolding request_cancel
request_cancel-IsLocked m j v = elim (Option-cases (get m.tasks j)) [
  | inl e ↦ rw (e, request_cancel) v
  | inr (t, e) ↦ elim (Bool-cases (is_running_status t.status)) [
    | inl r ↦
        rw (e, request_cancel)
          (rw r (record {
            named = λ k u at live. ground (
              arith,
              get-put m.tasks j k (record t { cancel_requested = true }),
              eq_iff j k,
              v.named k u,
              v.named j t,
            );
          }))
    | inr r ↦ rw (e, request_cancel) (rw r v)
  ]
]

pub Step-IsLocked : {m m' : Manager} → Step m m' → IsLocked m → IsLocked m'
Step-IsLocked {m} {m'} (submits {t = t} ty total tier task_id now ne fresh h) v =
    submit-IsLocked m m' t tier task_id ne (submit-Accepted m m' t ty total tier task_id now h) v
Step-IsLocked {m} (requests task_id e) v = rw e (request_cancel-IsLocked m task_id v)
Step-IsLocked {m} (works task_id ev now e) v =
    rw e (on_task-IsLocked m task_id (λ t. handle ev t now) (handle-Settles ev now) v)
Step-IsLocked {m} (ends task_id o now e) v =
    rw e (on_task-IsLocked m task_id (λ t. wrap_up o t now) (wrap_up-Settles o now) v)

pub Reach-IsLocked : {m : Manager} → Reach m → IsLocked m
unfolding get
Reach-IsLocked start = record { named = λ k t at live. cc }
Reach-IsLocked (next r s) = Step-IsLocked s (Reach-IsLocked r)

-- In every state that the manager can reach, whatever its callers and the tasks' threads do and in
-- whatever order, two running tasks of one tier are the same task.
pub one_running_task_per_tier :
    {m : Manager} (j k : String) (t u : Task)
    → Reach m
    → get m.tasks j ≡ some t
    → get m.tasks k ≡ some u
    → t.status ≡ Status.running
    → u.status ≡ Status.running
    → t.tier ≡ u.tier
    → j ≡ k
unfolding is_running_status
one_running_task_per_tier j k t u r hj hk lt lu same =
    ground (arith, (Reach-IsLocked r).named j t hj, (Reach-IsLocked r).named k u hk)
