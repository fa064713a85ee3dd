-- ===== src/ImageTasks/Workers.antt =====
-- One thread works on each task that is not finished, and none on the others, and a task changes its status only
-- along its life.
use jove_mage.Prelude.{
  ℕ, String, ◌≡◌, refl, ◌∙◌, ap, sym, subst, ◌⊎◌, inl, inr, Bool, true, false, Option, none, some,
  List, [], ◌∷◌, arith, eq_iff, str_eq, if◌then◌else◌, Dict, get, get-put, IsUnique, IsUnique-put,
  Value, Bool-cases, Option-cases,
}
use jove_mage.ImageTasks.{
  Status, queued, running, success, error, Task, Worker, launched, working, Service, threads_of,
  drop_thread, is_same, changed_task, update_task, save, is_terminal,
}

-- The status of the task of a key, if there is one.
abbrev pub status_of : Option Task → Option Status
status_of none = none
status_of (some t) = some t.status

abbrev pub status_at : Service → String → Option Status
status_at s key = status_of (get s.tasks key)

-- The threads that a status calls for.
abbrev pub worker_for : Option Status → List Worker
worker_for none = []
worker_for (some queued) = launched ∷ []
worker_for (some running) = working ∷ []
worker_for (some success) = []
worker_for (some error) = []

-- No key stands twice, and each task has the threads that its status calls for, and no others.
pub record IsSound (s : Service) : Type 0 where
  pub unique : IsUnique s.tasks
  pub worked : (key : String) → threads_of s.workers key ≡ worker_for (status_at s key)

-- The threads after a task without threads has got one.
pub threads_of-start :
    (workers : List (String × Worker)) (key k : String) (w : Worker)
    → threads_of workers key ≡ []
    → threads_of ((key, w) ∷ workers) k ≡ (if str_eq key k then w ∷ [] else threads_of workers k)
unfolding threads_of
threads_of-start workers key k w h = ground (arith, h, eq_iff key k)

is_same_refl : (w : Worker) → is_same w w ≡ true
unfolding is_same
is_same_refl launched = refl
is_same_refl working = refl

-- The threads after the only thread of a task has gone.
pub threads_of-drop :
    (workers : List (String × Worker)) (key k : String) (w : Worker)
    → threads_of workers key ≡ w ∷ []
    → threads_of (drop_thread workers key w) k ≡ (if str_eq key k then [] else threads_of workers k)
unfolding threads_of drop_thread
threads_of-drop [] key k w h = absurd (ground (arith, h))
threads_of-drop ((j, v) ∷ ws) key k w h = elim (Bool-cases (str_eq j key)) [
  | inl e ↦
      let same : v ≡ w = ground (arith, h, e) in
      let gone : threads_of ws key ≡ [] = ground (arith, h, e) in
      let kind : is_same v w ≡ true = rw same (is_same_refl w) in
      ground (arith, e, kind, gone, eq_iff j key, eq_iff key k, eq_iff j k)
  | inr e ↦ ground (arith, e, threads_of-drop ws key k w, h, eq_iff j key, eq_iff key k, eq_iff j k)
]

-- A change of a status.
pub data Step : Option Status → Option Status → Type 0 where
  submitted : Step none (some queued)
  begun : Step (some queued) (some running)
  succeeded : Step (some running) (some success)
  broken : Step (some running) (some error)
  resumed : Step (some error) (some running)
  expired : {st : Status} → is_terminal st ≡ true → Step (some st) none

-- Changes in a row.
pub data Life : Option Status → Option Status → Type 0 where
  rests : {a : Option Status} → Life a a
  then_goes : {a b c : Option Status} → Life a b → Step b c → Life a c

Life-trans : {a b c : Option Status} → Life a b → Life b c → Life a c
Life-trans l rests = l
Life-trans l (then_goes m s) = then_goes (Life-trans l m) s

-- An update of a task that is there.
pub update_task-there :
    (stamp : String) (now : ℕ) (s : Service) (key : String) (st : Status) (updates : Dict Value)
    (t : Task)
    → get s.tasks key ≡ some t
    → let r = update_task stamp now s key (some st) updates in
      (r.workers ≡ s.workers)
      × (IsUnique s.tasks → IsUnique r.tasks)
      × ((k : String) → status_at r k ≡ (if str_eq key k then some st else status_at s k))
unfolding update_task save changed_task
update_task-there stamp now s key st updates t there =
    rw (there, update_task)
      (
        refl,
        λ u. IsUnique-put s.tasks key _ u,
        λ k. ap status_of (get-put s.tasks key k _) ∙ pick (str_eq key k) k,
      )
  where
    pick :
        (b : Bool) (k : String)
        → status_of (if b then some (changed_task stamp now st updates t) else get s.tasks k)
          ≡ (if b then some st else status_at s k)
    pick true k = refl
    pick false k = refl

pub task_of :
    (s : Service) (key : String) (st : Status)
    → status_at s key ≡ some st
    → (t : Task) × (get s.tasks key ≡ some t)
task_of s key st h = elim (Option-cases (get s.tasks key)) [
  | inl e ↦ absurd (ground (arith, sym (ap status_of e) ∙ h))
  | inr (t, e) ↦ (t, e)
]

-- What a call keeps, and what it changes.
pub record Moves (s r : Service) : Type 0 where
  pub sound : IsSound r
  pub lives : (key : String) → Life (status_at s key) (status_at r key)

pub Moves-refl : (s : Service) → IsSound s → Moves s s
Moves-refl s h = record { sound = h; lives = λ key. rests }

pub Moves-trans : (s r q : Service) → Moves s r → Moves r q → Moves s q
Moves-trans s r q m n = record {
  sound = n.sound;
  lives = λ key. Life-trans (m.lives key) (n.lives key);
}

-- One task goes one step, and its thread with it.
pub moved :
    (s r : Service) (key : String) (st : Status)
    → IsSound s
    → Step (status_at s key) (some st)
    → IsUnique r.tasks
    → ((k : String) → status_at r k ≡ (if str_eq key k then some st else status_at s k))
    → ((k : String)
        → threads_of r.workers k
          ≡ (if str_eq key k then worker_for (some st) else threads_of s.workers k))
    → Moves s r
moved s r key st sound step unique statuses threads = record {
  sound = record { unique = unique; worked = worked };
  lives = lives;
}
  where
    worked : (k : String) → threads_of r.workers k ≡ worker_for (status_at r k)
    worked k = elim (Bool-cases (str_eq key k)) [
      | inl e ↦ threads k ∙ rw e (ap worker_for (sym (rw e at (statuses k))))
      | inr e ↦ threads k ∙ rw e (sound.worked k ∙ ap worker_for (sym (rw e at (statuses k))))
    ]

    lives : (k : String) → Life (status_at s k) (status_at r k)
    lives k = elim (Bool-cases (str_eq key k)) [
      | inl e ↦
          subst (Life (status_at s k)) (sym (rw e at (statuses k))) (
            subst (λ j. Life (status_at s j) (some st)) ((eq_iff key k).0 e) (then_goes rests step))
      | inr e ↦ subst (Life (status_at s k)) (sym (rw e at (statuses k))) rests
    ]

-- A call that changes no status and no thread.
pub still :
    (s r : Service)
    → IsSound s
    → r.workers ≡ s.workers
    → IsUnique r.tasks
    → ((k : String) → status_at r k ≡ status_at s k)
    → Moves s r
still s r sound same unique statuses = record {
  sound = record {
    unique = unique;
    worked = λ k. ap (λ w. threads_of w k) same ∙ sound.worked k ∙ ap worker_for (sym (statuses k));
  };
  lives = λ k. subst (Life (status_at s k)) (sym (statuses k)) rests;
}

-- An update without a status.
pub update_task-Moves :
    (stamp : String) (now : ℕ) (s : Service) (key : String) (updates : Dict Value)
    → IsSound s
    → Moves s (update_task stamp now s key none updates)
unfolding update_task save changed_task
update_task-Moves stamp now s key updates sound = elim (Option-cases (get s.tasks key)) [
  | inl e ↦ rw (e, update_task) (Moves-refl s sound)
  | inr (t, e) ↦
      rw (e, update_task)
        (still s _ sound refl (IsUnique-put s.tasks key _ sound.unique)
          (λ k. ap status_of (get-put s.tasks key k _) ∙ pick t k (Bool-cases (str_eq key k)) e))
]
  where
    pick :
        (t : Task) (k : String)
        → (str_eq key k ≡ true) ⊎ (str_eq key k ≡ false)
        → get s.tasks key ≡ some t
        → status_of (
            if str_eq key k
            then some (changed_task stamp now t.status updates t)
            else get s.tasks k)
          ≡ status_at s k
    pick t k (inl e) there = rw e (ap status_of (sym there) ∙ ap (status_at s) ((eq_iff key k).0 e))
    pick t k (inr e) there = rw e refl

-- The end of a thread's work.
pub ended :
    (stamp : String) (now : ℕ) (s : Service) (key : String) (st : Status) (updates : Dict Value)
    → IsSound s
    → status_at s key ≡ some running
    → Step (some running) (some st)
    → worker_for (some st) ≡ []
    → let r = update_task stamp now s key (some st) updates in
      Moves s (record r { workers = drop_thread r.workers key working })
ended stamp now s key st updates sound h step gone =
    let (t, there) = task_of s key running h in
    let (same, unique, statuses) = update_task-there stamp now s key st updates t there in
    moved s _ key st sound (subst (λ o. Step o (some st)) (sym h) step) (unique sound.unique)
      statuses
      (λ k.
        threads_of-drop _ key k working
          (ap (λ w. threads_of w key) same ∙ sound.worked key ∙ ap worker_for h)
        ∙ ap (λ w. if str_eq key k then [] else threads_of w k) same
        ∙ ap (λ w. if str_eq key k then w else threads_of s.workers k) (sym gone))

pub worker_for-terminal : (st : Status) → is_terminal st ≡ true → worker_for (some st) ≡ []
unfolding is_terminal
worker_for-terminal queued h = absurd (ground (arith, h))
worker_for-terminal running h = absurd (ground (arith, h))
worker_for-terminal success h = refl
worker_for-terminal error h = refl

-- The failed status, and the others.
pub Status-cases : (st : Status) → (st ≡ error) ⊎ ((st ≡ queued) ⊎ (st ≡ running) ⊎ (st ≡ success))
Status-cases queued = inr (inl refl)
Status-cases running = inr (inr (inl refl))
Status-cases success = inr (inr (inr refl))
Status-cases error = inl refl
