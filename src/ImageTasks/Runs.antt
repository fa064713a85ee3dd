-- ===== src/ImageTasks/Runs.antt =====
-- The interleavings of the service's callers and of its threads.
use jove_mage.Prelude.{
  ℕ, String, ◌≡◌, refl, ◌∙◌, ap, sym, ◌⊎◌, inl, inr, Bool, true, Option, none, some, List, [], ◌∷◌,
  str_eq, Dict, get, IsUnique, ℤ, Value, Bool-cases, Option-cases,
}
use jove_mage.Failures.Http.{Raised}
use jove_mage.ImageTasks.{
  Status, queued, running, success, error, Task, Worker, launched, working, Service, threads_of,
  save, is_terminal,
}
use jove_mage.ImageTasks.Methods.{
  Handled, Outcome, cleanup, submit, begin, progress, finish, finish_resume, resume_poll,
  recover_task, recover_unfinished, any_unfinished, start_service,
}
use jove_mage.ImageTasks.Workers.{
  status_of, status_at, worker_for, IsSound, Moves, Moves-refl, Moves-trans, worker_for-terminal,
}
use jove_mage.ImageTasks.Life.{
  begin-Moves, finish-Moves, finish_resume-Moves, progress-Moves, cleanup-Moves, submit-Moves,
  resume_poll-Moves, or_same,
}

-- One step: a call, or what a thread does.
pub data Call : Type 0 where
  submits : String → ℕ → Option ℤ → String → String → Dict Value → Call
  resumes : String → ℕ → String → Call
  cleans : ℕ → Option ℤ → Call
  begins : String → ℕ → String → Call
  progresses : String → ℕ → String → String → Call
  finishes : String → ℕ → ℕ → String → Handled → Call
  ends_resume : String → ℕ → ℕ → String → Outcome → Call

-- What a thread does needs a thread.
unfoldable pub if_launched : List Worker → Service → Service → Service
if_launched [] r s = s
if_launched (launched ∷ workers) r s = r
if_launched (working ∷ workers) r s = if_launched workers r s

unfoldable pub if_working : List Worker → Service → Service → Service
if_working [] r s = s
if_working (launched ∷ workers) r s = if_working workers r s
if_working (working ∷ workers) r s = r

module _ (show : Value → String) (parses : String → Bool) (diagnose : Raised → Dict Value)
    (timestamp : String → ℕ) where
  unfoldable pub call : Service → Call → Service
  unfolding or_same submit resume_poll cleanup begin progress finish finish_resume if_launched
      if_working
  call s (submits stamp now retention owner task_id payload) =
      or_same show parses diagnose timestamp s
        (submit show parses diagnose timestamp stamp now retention s owner task_id payload)
  call s (resumes stamp now key) = (resume_poll show parses diagnose timestamp stamp now s key).0
  call s (cleans now retention) = cleanup show parses diagnose timestamp now retention s
  call s (begins stamp now key) =
      if_launched (threads_of s.workers key) (begin show parses diagnose timestamp stamp now s key)
        s
  call s (progresses stamp now key step) =
      if_working (threads_of s.workers key)
        (progress show parses diagnose timestamp stamp now s key step) s
  call s (finishes stamp now duration key handled) =
      if_working (threads_of s.workers key)
        (finish show parses diagnose timestamp stamp now duration s key handled) s
  call s (ends_resume stamp now duration key outcome) =
      if_working (threads_of s.workers key)
        (finish_resume show parses diagnose timestamp stamp now duration s key outcome) s

  unfoldable pub call_all : Service → List Call → Service
  unfolding call
  call_all s [] = s
  call_all s (c ∷ calls) = call_all (call s c) calls

  if_launched-Moves :
      (s r : Service) (key : String)
      → IsSound s
      → (status_at s key ≡ some queued → Moves s r)
      → Moves s (if_launched (threads_of s.workers key) r s)
  unfolding if_launched
  if_launched-Moves s r key sound go = rw (sound.worked key) (pick (status_at s key) refl)
    where
      pick : (o : Option Status) → status_at s key ≡ o → Moves s (if_launched (worker_for o) r s)
      pick none e = Moves-refl s sound
      pick (some queued) e = go e
      pick (some running) e = Moves-refl s sound
      pick (some success) e = Moves-refl s sound
      pick (some error) e = Moves-refl s sound

  if_working-Moves :
      (s r : Service) (key : String)
      → IsSound s
      → (status_at s key ≡ some running → Moves s r)
      → Moves s (if_working (threads_of s.workers key) r s)
  unfolding if_working
  if_working-Moves s r key sound go = rw (sound.worked key) (pick (status_at s key) refl)
    where
      pick : (o : Option Status) → status_at s key ≡ o → Moves s (if_working (worker_for o) r s)
      pick none e = Moves-refl s sound
      pick (some queued) e = Moves-refl s sound
      pick (some running) e = go e
      pick (some success) e = Moves-refl s sound
      pick (some error) e = Moves-refl s sound

  call-Moves : (s : Service) (c : Call) → IsSound s → Moves s (call s c)
  unfolding call
  call-Moves s (submits stamp now retention owner task_id payload) sound =
      submit-Moves show parses diagnose timestamp stamp now retention s owner task_id payload sound
  call-Moves s (resumes stamp now key) sound =
      resume_poll-Moves show parses diagnose timestamp stamp now s key sound
  call-Moves s (cleans now retention) sound =
      cleanup-Moves show parses diagnose timestamp now retention s sound
  call-Moves s (begins stamp now key) sound =
      if_launched-Moves s _ key sound
        (begin-Moves show parses diagnose timestamp stamp now s key sound)
  call-Moves s (progresses stamp now key step) sound =
      if_working-Moves s _ key sound
        (λ _. progress-Moves show parses diagnose timestamp stamp now s key step sound)
  call-Moves s (finishes stamp now duration key handled) sound =
      if_working-Moves s _ key sound
        (finish-Moves show parses diagnose timestamp stamp now duration s key handled sound)
  call-Moves s (ends_resume stamp now duration key outcome) sound =
      if_working-Moves s _ key sound
        (finish_resume-Moves show parses diagnose timestamp stamp now duration s key outcome sound)

  pub call_all-Moves : (s : Service) (calls : List Call) → IsSound s → Moves s (call_all s calls)
  unfolding call_all
  call_all-Moves s [] sound = Moves-refl s sound
  call_all-Moves s (c ∷ calls) sound =
      let m = call-Moves s c sound in
      Moves-trans s (call s c) _ m (call_all-Moves (call s c) calls m.sound)

  pub get-recover_unfinished :
      (stamp : String) (tasks : Dict Task) (k : String)
      → get (recover_unfinished show parses diagnose timestamp stamp tasks) k
        ≡ (elim (get tasks k) [
          | none ↦ none
          | some t ↦ some (recover_task show parses diagnose timestamp stamp t)
        ])
  unfolding recover_unfinished get
  get-recover_unfinished stamp [] k = refl
  get-recover_unfinished stamp ((key, t) ∷ tasks) k = elim (Bool-cases (str_eq key k)) [
    | inl e ↦ rw e refl
    | inr e ↦ rw e (get-recover_unfinished stamp tasks k)
  ]

  pub recover_unfinished-IsUnique :
      (stamp : String) (tasks : Dict Task)
      → IsUnique tasks
      → IsUnique (recover_unfinished show parses diagnose timestamp stamp tasks)
  unfolding recover_unfinished
  recover_unfinished-IsUnique stamp [] u = tt
  recover_unfinished-IsUnique stamp ((key, t) ∷ tasks) (fresh, u) = (
    get-recover_unfinished stamp tasks key ∙ rw fresh refl,
    recover_unfinished-IsUnique stamp tasks u,
  )

  recover_task-terminal :
      (stamp : String) (t : Task)
      → is_terminal (recover_task show parses diagnose timestamp stamp t).status ≡ true
  unfolding recover_task is_terminal
  recover_task-terminal stamp t = elim (Bool-cases (is_terminal t.status)) [
    | inl e ↦ rw (e, recover_task) e
    | inr e ↦ rw (e, recover_task) refl
  ]

  recover-none :
      (stamp : String) (tasks : Dict Task) (k : String)
      → get tasks k ≡ none
      → get (recover_unfinished show parses diagnose timestamp stamp tasks) k ≡ none
  recover-none stamp tasks k e = get-recover_unfinished stamp tasks k ∙ rw e refl

  recover-some :
      (stamp : String) (tasks : Dict Task) (k : String) (t : Task)
      → get tasks k ≡ some t
      → get (recover_unfinished show parses diagnose timestamp stamp tasks) k
        ≡ some (recover_task show parses diagnose timestamp stamp t)
  recover-some stamp tasks k t e = get-recover_unfinished stamp tasks k ∙ rw e refl

  recovered-IsSound :
      (stamp : String) (loaded : Dict Task) (saved : List Task)
      → IsUnique loaded
      → IsSound (record {
        tasks = recover_unfinished show parses diagnose timestamp stamp loaded;
        saved = saved;
        workers = [];
      })
  unfolding threads_of
  recovered-IsSound stamp loaded saved u = record {
    unique = recover_unfinished-IsUnique stamp loaded u;
    worked = λ k. no_worker k (Option-cases (get loaded k));
  }
    where
      no_worker :
          (k : String)
          → (get loaded k ≡ none) ⊎ ((t : Task) × (get loaded k ≡ some t))
          → threads_of [] k
            ≡ worker_for
                (status_of (get (recover_unfinished show parses diagnose timestamp stamp loaded) k))
      no_worker k (inl e) = ap (λ o. worker_for (status_of o)) (sym (recover-none stamp loaded k e))
      no_worker k (inr (t, e)) =
          sym (
            worker_for-terminal (recover_task show parses diagnose timestamp stamp t).status
              (recover_task-terminal stamp t))
          ∙ ap (λ o. worker_for (status_of o)) (sym (recover-some stamp loaded k t e))

  -- A service that starts from a file, whatever it holds, and goes on in any way, has exactly one thread
  -- for each task that is queued or running, and none for any other: no task waits for a thread that
  -- will never come, also none that a restart has interrupted, and no task is worked on by two.
  pub tasks_have_threads :
      (stamp : String) (now : ℕ) (retention : Option ℤ) (loaded : Dict Task) (saved : List Task)
      (calls : List Call)
      → IsUnique loaded
      → (key : String)
      → let s =
          call_all
            (start_service show parses diagnose timestamp stamp now retention loaded saved)
            calls in
        threads_of s.workers key ≡ worker_for (status_at s key)
  unfolding start_service save
  tasks_have_threads stamp now retention loaded saved calls u key =
      (call_all-Moves
          (start_service show parses diagnose timestamp stamp now retention loaded saved) calls
          started).sound.worked
        key
    where
      started :
          IsSound (start_service show parses diagnose timestamp stamp now retention loaded saved)
      started = elim (Bool-cases (any_unfinished show parses diagnose timestamp loaded)) [
        | inl e ↦
            rw (e, start_service)
              (cleanup-Moves show parses diagnose timestamp now retention _
                (recovered-IsSound stamp loaded _ u)).sound
        | inr e ↦
            rw (e, start_service)
              (cleanup-Moves show parses diagnose timestamp now retention _
                (recovered-IsSound stamp loaded saved u)).sound
      ]
