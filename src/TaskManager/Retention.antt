-- ===== src/TaskManager/Retention.antt =====
-- How many tasks the manager keeps: `submit` drops finished ones beyond the first twenty.
use jove_mage.Prelude.{
  AllIn, AllIn-pop, ℕ, zero, suc, ◌+◌, ◌-◌, ◌≤◌, String, ◌≡◌, sym, ◌∙◌, ◌⊎◌, ◌||◌, inl, inr, Bool,
  true, none, some, List, [], ◌∷◌, arith, eq_iff, str_eq, ltb, ltb→lt, Dict, get, pop, has, get-pop,
  Bool-cases, Option-cases, take, keys, size, length, length-take, count_if, Distinct, contains,
  keys-Distinct, take-Distinct, count-le_two, IsUnique, IsUnique-put, IsUnique-pop, size-put,
  size-pop, has-get,
}
use jove_mage.TaskManager.{
  Manager, Task, is_running_status, is_live, drop_finished, prune, sorted_by_age, request_cancel,
  handle, wrap_up, on_task, is_valid_tier,
}
use jove_mage.TaskManager.Steps.{Step, submits, requests, works, ends, Reach, start, next}
use jove_mage.TaskManager.Exclusion.{
  IsLocked, Accepted, submit-Accepted, Reach-IsLocked, unpruned, unpruned-IsLocked,
}
use jove_mage.TaskManager.ByAge.{get-sorted_by_age, sorted_by_age-IsUnique, length-keys-sorted}

-- `drop_finished` removes all the tasks that it is given, but for those that may be running.
size-drop_finished :
    (p : String → Bool) (ids : List String) (d : Dict Task)
    → ((k : String) → is_live (get d k) ≡ true → p k ≡ true)
    → IsUnique d
    → Distinct ids
    → AllIn d ids
    → size (drop_finished ids d) + length ids ≤ size d + count_if p ids
unfolding drop_finished has
size-drop_finished p [] d h u s a = omega arith
size-drop_finished p (k ∷ ids) d h u s a = elim (Bool-cases (is_live (get d k))) [
  | inl e ↦ rw e (ground (arith, h k, size-drop_finished p ids d h u s.1 a.1))
  | inr e ↦ elim (Option-cases (get d k)) [
    | inl no_task ↦ absurd (ground (arith, a))
    | inr (t, at) ↦ rw e (
        ground (
          arith,
          size-pop d k t u at,
          size-drop_finished p ids (pop d k) (λ j live. h j (ground (arith, get-pop d k j, live)))
              (IsUnique-pop d k u) s.1 (AllIn-pop d k ids s.0 a.1),
        ))
  ]
]

AllIn-of_sub :
    (d e : Dict Task) (ks : List String)
    → ((k : String) → contains k ks ≡ true → has d k ≡ true)
    → AllIn d ks
unfolding contains
AllIn-of_sub d e [] h = tt
AllIn-of_sub d e (k ∷ ks) h =
    (h k (ground (arith, eq_iff k k)), AllIn-of_sub d e ks (λ j q. h j (ground (arith, q))))

has-of_contains :
    (n : ℕ) (d : Dict Task) (k : String) → contains k (take n (keys d)) ≡ true → has d k ≡ true
unfolding contains has get
has-of_contains zero d k h = cc
has-of_contains (suc n) [] k h = cc
has-of_contains (suc n) ((j, t) ∷ d) k h = ground (arith, has-of_contains n d k)

has-sorted_by_age : (d : Dict Task) (k : String) → IsUnique d → has (sorted_by_age d) k ≡ has d k
unfolding has
has-sorted_by_age d k u = ground (arith, get-sorted_by_age d k u)

-- With at most two keys of running tasks, at most 22 tasks are left.
prune-bound :
    (a b : String) (d : Dict Task)
    → IsUnique d
    → ((k : String) → is_live (get d k) ≡ true → (str_eq k a ≡ true) ⊎ (str_eq k b ≡ true))
    → size (prune d) ≤ 22
unfolding prune
prune-bound a b d u h = elim (Bool-cases (ltb 20 (size d))) [
  | inl e ↦ rw e (
      omega (
        arith,
        ltb→lt 20 (size d) e,
        size-drop_finished p ids d p_holds u distinct all_in,
        count-le_two p a b ids distinct (λ k q. ground (arith, q)),
        length-take (size d - 20) (keys (sorted_by_age d)),
        length-keys-sorted d,
      ))
  | inr e ↦ rw e (ground arith)
]
  where
    ids : List String
    ids = take (size d - 20) (keys (sorted_by_age d))

    p : String → Bool
    p k = str_eq k a || str_eq k b

    p_holds : (k : String) → is_live (get d k) ≡ true → p k ≡ true
    p_holds k live = ground (arith, h k live)

    distinct : Distinct ids
    distinct =
        take-Distinct (size d - 20) (keys (sorted_by_age d))
          (keys-Distinct (sorted_by_age d) (sorted_by_age-IsUnique d u))

    all_in : AllIn d ids
    all_in =
        AllIn-of_sub d d ids (λ k q.
          sym (has-sorted_by_age d k u) ∙ has-of_contains (size d - 20) (sorted_by_age d) k q)

drop_finished-IsUnique :
    (ids : List String) (d : Dict Task) → IsUnique d → IsUnique (drop_finished ids d)
unfolding drop_finished
drop_finished-IsUnique [] d u = u
drop_finished-IsUnique (k ∷ ids) d u = elim (Bool-cases (is_live (get d k))) [
  | inl e ↦ rw e (drop_finished-IsUnique ids d u)
  | inr e ↦ rw e (drop_finished-IsUnique ids (pop d k) (IsUnique-pop d k u))
]

prune-IsUnique : (d : Dict Task) → IsUnique d → IsUnique (prune d)
unfolding prune
prune-IsUnique d u = elim (Bool-cases (ltb 20 (size d))) [
  | inl e ↦ rw e (drop_finished-IsUnique (take (size d - 20) (keys (sorted_by_age d))) d u)
  | inr e ↦ rw e u
]

record IsSmall (m : Manager) : Type 0 where
  unique : IsUnique m.tasks
  small : size m.tasks ≤ 22

-- The id that the lock of a tier names.
named_id : Manager → String → String
named_id m tier = elim (get m.running_ids tier) [ none ↦ "" | some k ↦ k ]

live_ids :
    (m : Manager) (k : String)
    → IsLocked m
    → is_live (get m.tasks k) ≡ true
    → (str_eq k (named_id m "light") ≡ true) ⊎ (str_eq k (named_id m "heavy") ≡ true)
unfolding named_id is_live is_valid_tier
live_ids m k v live = elim (Option-cases (get m.tasks k)) [
  | inl e ↦ absurd (ground (arith, e))
  | inr (t, e) ↦ ground (
    arith,
    e,
    v.named k t e,
    eq_iff t.tier "light",
    eq_iff t.tier "heavy",
    eq_iff k (named_id m "light"),
    eq_iff k (named_id m "heavy"),
  )
]

on_task-IsSmall : (m : Manager) (j : String) (f : Task → Task) → IsSmall m → IsSmall (on_task m j f)
unfolding on_task
on_task-IsSmall m j f s = elim (Option-cases (get m.tasks j)) [
  | inl e ↦ rw (e, on_task) s
  | inr (t, e) ↦
      rw (e, on_task)
        (record {
          unique = IsUnique-put m.tasks j (f t) s.unique;
          small = ground (arith, size-put m.tasks j (f t), has-get m.tasks j t, s);
        })
]

request_cancel-IsSmall : (m : Manager) (j : String) → IsSmall m → IsSmall (request_cancel m j).0
unfolding request_cancel
request_cancel-IsSmall m j s = elim (Option-cases (get m.tasks j)) [
  | inl e ↦ rw (e, request_cancel) s
  | inr (t, e) ↦ elim (Bool-cases (is_running_status t.status)) [
    | inl r ↦
        rw (e, request_cancel)
          (rw r (record {
            unique = IsUnique-put m.tasks j _ s.unique;
            small = ground (
              arith,
              size-put m.tasks j (record t { cancel_requested = true }),
              has-get m.tasks j t,
              s,
            );
          }))
    | inr r ↦ rw (e, request_cancel) (rw r s)
  ]
]

Step-IsSmall : {m m' : Manager} → Step m m' → IsLocked m → IsSmall m → IsSmall m'
Step-IsSmall {m} {m'} (submits {t = t} ty total tier task_id now ne fresh h) v s = record {
  unique = rw a.tasks (prune-IsUnique d (IsUnique-put m.tasks task_id t s.unique));
  small = rw a.tasks (
      prune-bound (named_id n "light") (named_id n "heavy") d
        (IsUnique-put m.tasks task_id t s.unique)
        (λ k live. live_ids n k (unpruned-IsLocked m m' t tier task_id ne a v) live));
}
  where
    n : Manager
    n = unpruned m t tier task_id

    d : Dict Task
    d = n.tasks

    a : Accepted m m' t tier task_id
    a = submit-Accepted m m' t ty total tier task_id now h
Step-IsSmall {m} (requests task_id e) v s = rw e (request_cancel-IsSmall m task_id s)
Step-IsSmall {m} (works task_id ev now e) v s =
    rw e (on_task-IsSmall m task_id (λ t. handle ev t now) s)
Step-IsSmall {m} (ends task_id o now e) v s =
    rw e (on_task-IsSmall m task_id (λ t. wrap_up o t now) s)

Reach-IsSmall : {m : Manager} → Reach m → IsSmall m
Reach-IsSmall start = record { unique = tt; small = omega arith }
Reach-IsSmall (next r s) = Step-IsSmall s (Reach-IsLocked r) (Reach-IsSmall r)

-- The manager never holds more than 22 tasks: the twenty that it means to keep and, at most, the
-- two running ones that are too old to be among these and that it does not drop.
pub tasks_bounded : {m : Manager} → Reach m → size m.tasks ≤ 22
tasks_bounded r = (Reach-IsSmall r).small
