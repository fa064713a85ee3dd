-- ===== src/ImageTasks/Life.antt =====
-- Each method of the service moves tasks along their lives, and their threads with them.
use jove_mage.Prelude.{
  ℕ, String, ◌≡◌, ◌≢◌, refl, ◌∙◌, ap, sym, subst, ◌⊎◌, inl, inr, Bool, true, false, Option, none,
  some, [], ◌∷◌, arith, eq_iff, str_eq, if◌then◌else◌, Dict, get, get-put, IsUnique, IsUnique-put,
  ℤ, pos, Value, Bool-cases, Option-cases,
}
use jove_mage.Failures.Http.{Raised}
use jove_mage.ImageTasks.{
  queued, running, success, error, Task, launched, working, Service, threads_of, drop_thread, save,
  is_terminal, clear_task_details,
}
use jove_mage.ImageTasks.Methods.{
  Handled, Outcome, made, failed, is_expired, drop_expired, any_expired, cutoff, cleanup, task_key,
  submit, begin, progress, outcome_of, made_updates, resumed_updates, failure_updates, finish,
  finish_resume, refusal_of, resume_poll, new_fields,
}
use jove_mage.ImageTasks.Workers.{
  status_of, status_at, worker_for, IsSound, Step, submitted, begun, succeeded, broken, resumed,
  expired, Life, rests, then_goes, Moves, Moves-refl, Moves-trans, update_task-there, task_of,
  moved, update_task-Moves, ended, worker_for, threads_of-start, threads_of-drop,
  worker_for-terminal, Status-cases,
}

Outcome-cases :
    (o : Outcome)
    → ((a : Value) × (b : Value) × (o ≡ made a b))
      ⊎ ((exc : Raised) × (c : String) × (o ≡ failed exc c))
Outcome-cases (made a b) = inl (a, b, refl)
Outcome-cases (failed exc c) = inr (exc, c, refl)

module _ (show : Value → String) (parses : String → Bool) (diagnose : Raised → Dict Value)
    (timestamp : String → ℕ) where
  pub begin-Moves :
      (stamp : String) (now : ℕ) (s : Service) (key : String)
      → IsSound s
      → status_at s key ≡ some queued
      → Moves s (begin show parses diagnose timestamp stamp now s key)
  unfolding begin
  begin-Moves stamp now s key sound h =
      let (t, there) = task_of s key queued h in
      let (same, unique, statuses) =
        update_task-there stamp now s key running (("error", Value.str "") ∷ []) t there in
      moved s _ key running sound (subst (λ o. Step o (some running)) (sym h) begun)
        (unique sound.unique) statuses
        (λ k.
          threads_of-start (drop_thread _ key launched) key k working (
            threads_of-drop _ key key launched
              (ap (λ w. threads_of w key) same ∙ sound.worked key ∙ ap worker_for h)
            ∙ ground (arith, eq_iff key key))
          ∙ ap (λ w. if str_eq key k then working ∷ [] else w)
              (threads_of-drop _ key k launched
                (ap (λ w. threads_of w key) same ∙ sound.worked key ∙ ap worker_for h))
          ∙ ap
              (λ w.
                if str_eq key k then working ∷ [] else if str_eq key k then [] else threads_of w k)
              same
          ∙ ground arith)

  pub finish-Moves :
      (stamp : String) (now duration : ℕ) (s : Service) (key : String) (handled : Handled)
      → IsSound s
      → status_at s key ≡ some running
      → Moves s (finish show parses diagnose timestamp stamp now duration s key handled)
  unfolding finish
  finish-Moves stamp now duration s key handled sound h =
      elim (Outcome-cases (outcome_of show parses diagnose timestamp handled)) [
        | inl (a, b, e) ↦
            rw (e, finish)
              (ended stamp now s key success (made_updates a b duration) sound h succeeded refl)
        | inr (exc, c, e) ↦
            rw (e, finish)
              (ended stamp now s key error
                (failure_updates show parses diagnose timestamp "image task failed" duration exc c)
                sound h broken refl)
      ]

  pub finish_resume-Moves :
      (stamp : String) (now duration : ℕ) (s : Service) (key : String) (outcome : Outcome)
      → IsSound s
      → status_at s key ≡ some running
      → Moves s (finish_resume show parses diagnose timestamp stamp now duration s key outcome)
  unfolding finish_resume
  finish_resume-Moves stamp now duration s key (made a b) sound h =
      ended stamp now s key success (resumed_updates a duration) sound h succeeded refl
  finish_resume-Moves stamp now duration s key (failed exc c) sound h =
      ended stamp now s key error
        (failure_updates show parses diagnose timestamp "resume poll failed" duration exc "") sound
        h broken refl

  pub progress-Moves :
      (stamp : String) (now : ℕ) (s : Service) (key step : String)
      → IsSound s
      → Moves s (progress show parses diagnose timestamp stamp now s key step)
  unfolding progress
  progress-Moves stamp now s key step sound =
      elim (Bool-cases (str_eq step "image_stream_resolve_start")) [
        | inl e ↦
            let m =
              update_task-Moves stamp now s key (("started_ts", Value.int (pos now)) ∷ []) sound in
            rw (e, progress)
              (Moves-trans s _ _ m
                (update_task-Moves stamp now _ key (("progress", Value.str step) ∷ []) m.sound))
        | inr e ↦
            rw (e, progress)
              (update_task-Moves stamp now s key (("progress", Value.str step) ∷ []) sound)
      ]

  pub get-drop_expired :
      (limit : ℕ) (tasks : Dict Task) (k : String)
      → IsUnique tasks
      → (get (drop_expired show parses diagnose timestamp limit tasks) k ≡ get tasks k)
        ⊎ ((t : Task) × (get tasks k ≡ some t)
            × (is_expired show parses diagnose timestamp limit t ≡ true)
            × (get (drop_expired show parses diagnose timestamp limit tasks) k ≡ none))
  unfolding drop_expired get
  get-drop_expired limit [] k u = inl refl
  get-drop_expired limit ((key, t) ∷ tasks) k (fresh, u) =
      elim (Bool-cases (is_expired show parses diagnose timestamp limit t)) [
        | inl e ↦ elim (Bool-cases (str_eq key k)) [
          | inl f ↦
              let gone : get tasks k ≡ none = ground (arith, f, fresh, eq_iff key k) in
              rw (e, drop_expired)
                (rw (f, get) (inr (t, refl, e, absent k (get-drop_expired limit tasks k u) gone)))
          | inr f ↦ rw (e, drop_expired) (rw (f, get) (get-drop_expired limit tasks k u))
        ]
        | inr e ↦ elim (Bool-cases (str_eq key k)) [
          | inl f ↦ rw (e, drop_expired) (rw (f, get) (inl refl))
          | inr f ↦ rw (e, drop_expired) (rw (f, get) (get-drop_expired limit tasks k u))
        ]
      ]
    where
      absent :
          (k : String)
          → ((get (drop_expired show parses diagnose timestamp limit tasks) k ≡ get tasks k)
              ⊎ ((t : Task) × (get tasks k ≡ some t)
                  × (is_expired show parses diagnose timestamp limit t ≡ true)
                  × (get (drop_expired show parses diagnose timestamp limit tasks) k ≡ none)))
          → get tasks k ≡ none
          → get (drop_expired show parses diagnose timestamp limit tasks) k ≡ none
      absent k (inl e) gone = e ∙ gone
      absent k (inr (t, _, _, e)) gone = e

  drop_expired-IsUnique :
      (limit : ℕ) (tasks : Dict Task)
      → IsUnique tasks
      → IsUnique (drop_expired show parses diagnose timestamp limit tasks)
  unfolding drop_expired
  drop_expired-IsUnique limit [] u = tt
  drop_expired-IsUnique limit ((key, t) ∷ tasks) (fresh, u) =
      elim (Bool-cases (is_expired show parses diagnose timestamp limit t)) [
        | inl e ↦ rw (e, drop_expired) (drop_expired-IsUnique limit tasks u)
        | inr e ↦
            rw (e, drop_expired)
              (absent (get-drop_expired limit tasks key u), drop_expired-IsUnique limit tasks u)
      ]
    where
      absent :
          ((get (drop_expired show parses diagnose timestamp limit tasks) key ≡ get tasks key)
            ⊎ ((t : Task) × (get tasks key ≡ some t)
                × (is_expired show parses diagnose timestamp limit t ≡ true)
                × (get (drop_expired show parses diagnose timestamp limit tasks) key ≡ none)))
          → get (drop_expired show parses diagnose timestamp limit tasks) key ≡ none
      absent (inl e) = e ∙ fresh
      absent (inr (t, _, _, e)) = e

  expired-terminal :
      (limit : ℕ) (t : Task)
      → is_expired show parses diagnose timestamp limit t ≡ true
      → is_terminal t.status ≡ true
  unfolding is_expired
  expired-terminal limit t h = ground (arith, h)

  pub drop_expired-Moves :
      (limit : ℕ) (s : Service)
      → IsSound s
      → Moves s
          (save (record s { tasks = drop_expired show parses diagnose timestamp limit s.tasks }))
  unfolding save
  drop_expired-Moves limit s sound = record {
    sound = record {
      unique = drop_expired-IsUnique limit s.tasks sound.unique;
      worked = λ k. elim (get-drop_expired limit s.tasks k sound.unique) [
        | inl e ↦ sound.worked k ∙ ap (λ o. worker_for (status_of o)) (sym e)
        | inr (t, there, old, gone) ↦
            sound.worked k
            ∙ ap (λ o. worker_for (status_of o)) there
            ∙ worker_for-terminal t.status (expired-terminal limit t old)
            ∙ ap (λ o. worker_for (status_of o)) (sym gone)
      ];
    };
    lives = λ k. elim (get-drop_expired limit s.tasks k sound.unique) [
      | inl e ↦ subst (Life (status_at s k)) (ap status_of (sym e)) rests
      | inr (t, there, old, gone) ↦ subst (Life (status_at s k)) (ap status_of (sym gone)) (
          subst (λ o. Life o none) (ap status_of (sym there))
            (then_goes rests (expired (expired-terminal limit t old))))
    ];
  }

  pub cleanup-Moves :
      (now : ℕ) (retention : Option ℤ) (s : Service)
      → IsSound s
      → Moves s (cleanup show parses diagnose timestamp now retention s)
  unfolding cleanup
  cleanup-Moves now retention s sound =
      elim (Bool-cases
        (any_expired show parses diagnose timestamp (cutoff now retention) s.tasks)) [
          | inl e ↦ rw (e, cleanup) (drop_expired-Moves (cutoff now retention) s sound)
          | inr e ↦ rw (e, cleanup) (Moves-refl s sound)
        ]

  -- The service after a submission; as before where it raises.
  unfoldable pub or_same : Service → Option Service → Service
  or_same s none = s
  or_same s (some r) = r

  pub submit-Moves :
      (stamp : String) (now : ℕ) (retention : Option ℤ) (s : Service) (owner task_id : String)
      (payload : Dict Value)
      → IsSound s
      → Moves s (
          or_same s
            (submit show parses diagnose timestamp stamp now retention s owner task_id payload))
  unfolding submit or_same save
  submit-Moves stamp now retention s owner task_id payload sound =
      let m = cleanup-Moves now retention s sound in
      let s1 = cleanup show parses diagnose timestamp now retention s in
      elim (Bool-cases (str_eq task_id "")) [
        | inl e ↦ rw (e, submit) (Moves-refl s sound)
        | inr e ↦ elim (Option-cases (get s1.tasks (task_key owner task_id))) [
          | inr (t, f) ↦ rw (e, f, submit) m
          | inl f ↦
              rw (e, f, submit)
                (Moves-trans s s1 _ m (
                  moved s1 _ (task_key owner task_id) queued m.sound
                    (subst (λ o. Step o (some queued)) (ap status_of (sym f)) submitted)
                    (IsUnique-put s1.tasks (task_key owner task_id) _ m.sound.unique)
                    (λ k.
                      ap status_of (get-put s1.tasks (task_key owner task_id) k _)
                      ∙ pick s1 (str_eq (task_key owner task_id) k) k)
                    (λ k. threads_of-start s1.workers (task_key owner task_id) k launched (
                      m.sound.worked (task_key owner task_id)
                      ∙ ap (λ o. worker_for (status_of o)) f))))
        ]
      ]
    where
      pick :
          (s1 : Service) (b : Bool) (k : String)
          → status_of (
              if b
              then some (record {
                status = queued;
                owner_id = owner;
                updated_at = stamp;
                fields = new_fields task_id stamp payload now;
              })
              else get s1.tasks k)
            ≡ (if b then some queued else status_at s1 k)
      pick s1 true k = refl
      pick s1 false k = refl

  refusal_of-none :
      (o : Option Task)
      → refusal_of show parses diagnose timestamp o ≡ none
      → status_of o ≡ some error
  unfolding refusal_of
  refusal_of-none none h = absurd (ground (arith, h))
  refusal_of-none (some t) h = elim (Status-cases t.status) [
    | inl e ↦ ap some e
    | inr e ↦ absurd (refused t e h)
  ]
    where
      refused :
          (t : Task)
          → (t.status ≡ queued) ⊎ (t.status ≡ running) ⊎ (t.status ≡ success)
          → refusal_of show parses diagnose timestamp (some t) ≢ none
      refused t (inl e) h = ground (arith, rw (e, refusal_of) at h)
      refused t (inr (inl e)) h = ground (arith, rw (e, refusal_of) at h)
      refused t (inr (inr e)) h = ground (arith, rw (e, refusal_of) at h)

  pub resume_poll-Moves :
      (stamp : String) (now : ℕ) (s : Service) (key : String)
      → IsSound s
      → Moves s (resume_poll show parses diagnose timestamp stamp now s key).0
  unfolding resume_poll
  resume_poll-Moves stamp now s key sound =
      elim (Option-cases (refusal_of show parses diagnose timestamp (get s.tasks key))) [
        | inr (refusal, e) ↦ rw (e, resume_poll) (Moves-refl s sound)
        | inl e ↦
            let h = refusal_of-none (get s.tasks key) e in
            let (t, there) = task_of s key error h in
            let (same, unique, statuses) =
              update_task-there stamp now s key running
                (("error", Value.str "") ∷ clear_task_details) t there in
            rw (e, resume_poll)
              (moved s _ key running sound (subst (λ o. Step o (some running)) (sym h) resumed)
                (unique sound.unique) statuses
                (λ k.
                  threads_of-start _ key k working
                    (ap (λ w. threads_of w key) same ∙ sound.worked key ∙ ap worker_for h)
                  ∙ ap (λ w. if str_eq key k then working ∷ [] else threads_of w k) same))
      ]
