-- ===== src/ImageTasks/Resume.antt =====
-- When a failed task can be polled again.
use jove_mage.Prelude.{
  ℕ, String, ◌≡◌, ◌≢◌, refl, ◌∙◌, ap, ◌⊎◌, inl, inr, Bool, true, false, not, Option, none, some,
  List, [], ◌∷◌, arith, eq_iff, eq_refl, str_eq, str_neq, if◌then◌else◌, strip, Dict, get, put, pop,
  get-put, get-pop, contains, pos, Value, Bool-cases, Option-cases,
}
use jove_mage.Failures.{image_failure}
use jove_mage.Failures.Http.{Raised}
use jove_mage.Failures.Read.{text_of}
use jove_mage.ImageTasks.{
  Status, queued, running, success, error, Task, Service, task_detail_keys, is_missing, value_at,
  apply_updates, blanks, clear_task_details, update_task, changed_task, save,
}
use jove_mage.ImageTasks.Methods.{
  Refusal, not_found, not_failed, not_a_timeout, no_conversation, refusal_of, resume_poll,
}
use jove_mage.ImageTasks.Workers.{Status-cases}

-- Clearing keys that are details takes them out, and nothing else.
get-cleared :
    (fields : Dict Value) (keys : List String) (k : String)
    → ((j : String) → contains j keys ≡ true → contains j task_detail_keys ≡ true)
    → get (apply_updates fields (blanks keys)) k ≡ (if contains k keys then none else get fields k)
unfolding apply_updates blanks contains is_missing
get-cleared fields [] k details = refl
get-cleared fields (key ∷ keys) k details =
    let here : contains key task_detail_keys ≡ true = details key (ground (arith, eq_refl key)) in
    rw (here, apply_updates)
      (get-cleared (pop fields key) keys k (λ j h. details j (ground (arith, h)))
        ∙ ground (arith, get-pop fields key k, eq_iff key k))

error-no_detail : contains "error" task_detail_keys ≡ false
unfolding contains task_detail_keys
error-no_detail = refl

conversation-no_detail : contains "conversation_id" task_detail_keys ≡ false
unfolding contains task_detail_keys
conversation-no_detail = refl

stamp-no_detail : contains "updated_ts" task_detail_keys ≡ false
unfolding contains task_detail_keys
stamp-no_detail = refl

apply_updates-error :
    (fields updates : Dict Value)
    → apply_updates fields (("error", Value.str "") ∷ updates)
      ≡ apply_updates (put fields "error" (Value.str "")) updates
unfolding apply_updates
apply_updates-error fields updates = rw (error-no_detail, apply_updates) refl

get-reopened :
    (stamp : String) (now : ℕ) (t : Task) (k : String)
    → get (changed_task stamp now running (("error", Value.str "") ∷ clear_task_details) t).fields k
      ≡ (if str_eq "updated_ts" k
          then some (Value.int (pos now))
          else if contains k task_detail_keys
          then none
          else if str_eq "error" k
          then some (Value.str "")
          else get t.fields k)
unfolding changed_task clear_task_details
get-reopened stamp now t k =
    get-put _ "updated_ts" k (Value.int (pos now))
    ∙ ap (λ o. if str_eq "updated_ts" k then some (Value.int (pos now)) else o)
        (ap (λ f. get f k) (apply_updates-error t.fields (blanks task_detail_keys))
          ∙ get-cleared (put t.fields "error" (Value.str "")) task_detail_keys k (λ j h. h)
          ∙ ap (λ o. if contains k task_detail_keys then none else o)
              (get-put t.fields "error" k (Value.str "")))

-- The task of a poll that goes on: its details and its error are gone, and its other keys are as they were.
pub record Reopened (t u : Task) : Type 0 where
  pub runs : u.status ≡ running
  pub no_details : (k : String) → contains k task_detail_keys ≡ true → get u.fields k ≡ none
  pub no_error : get u.fields "error" ≡ some (Value.str "")
  pub same_conversation : get u.fields "conversation_id" ≡ get t.fields "conversation_id"

module _ (show : Value → String) (parses : String → Bool) (diagnose : Raised → Dict Value)
    (timestamp : String → ℕ) where
  -- The code and the conversation of a task, as the method reads them.
  abbrev pub code_of : Task → String
  code_of t =
      (image_failure (strip (text_of show parses (value_at t.fields "error_code"))) none
        Value.null).code

  abbrev pub conversation_of : Task → String
  conversation_of t = strip (text_of show parses (value_at t.fields "conversation_id"))

  reopened :
      (stamp : String) (now : ℕ) (t : Task)
      → Reopened t (changed_task stamp now running (("error", Value.str "") ∷ clear_task_details) t)
  reopened stamp now t = record {
    runs = unfold changed_task in refl;
    no_details = λ k h.
        get-reopened stamp now t k ∙ ground (arith, h, stamp-no_detail, eq_iff "updated_ts" k);
    no_error = get-reopened stamp now t "error" ∙ ground (arith, error-no_detail);
    same_conversation =
        get-reopened stamp now t "conversation_id" ∙ ground (arith, conversation-no_detail);
  }

  -- What `resume_poll` comes to, by the task of the key.
  pub data Resumed (s : Service) (key : String) (r : Service × Option Refusal) : Type 0 where
    is_unknown : get s.tasks key ≡ none → r ≡ (s, some not_found) → Resumed s key r
    is_unfailed :
        (t : Task)
        → get s.tasks key ≡ some t
        → t.status ≢ error
        → r ≡ (s, some not_failed)
        → Resumed s key r
    is_other :
        (t : Task)
        → get s.tasks key ≡ some t
        → t.status ≡ error
        → code_of t ≢ "image_poll_timeout"
        → r ≡ (s, some not_a_timeout)
        → Resumed s key r
    is_lost :
        (t : Task)
        → get s.tasks key ≡ some t
        → t.status ≡ error
        → code_of t ≡ "image_poll_timeout"
        → conversation_of t ≡ ""
        → r ≡ (s, some no_conversation)
        → Resumed s key r
    goes_on :
        (t u : Task)
        → get s.tasks key ≡ some t
        → t.status ≡ error
        → code_of t ≡ "image_poll_timeout"
        → conversation_of t ≢ ""
        → r.1 ≡ none
        → ((k : String) → get r.0.tasks k ≡ (if str_eq key k then some u else get s.tasks k))
        → Reopened t u
        → Resumed s key r

  refused :
      (stamp : String) (now : ℕ) (s : Service) (key : String) (refusal : Refusal)
      → refusal_of show parses diagnose timestamp (get s.tasks key) ≡ some refusal
      → resume_poll show parses diagnose timestamp stamp now s key ≡ (s, some refusal)
  unfolding resume_poll
  refused stamp now s key refusal e = rw (e, resume_poll) refl

  granted :
      (stamp : String) (now : ℕ) (s : Service) (key : String) (t : Task)
      → refusal_of show parses diagnose timestamp (get s.tasks key) ≡ none
      → get s.tasks key ≡ some t
      → let r = resume_poll show parses diagnose timestamp stamp now s key in
        (r.1 ≡ none)
        × ((k : String)
            → get r.0.tasks k ≡ (
                if str_eq key k
                then some (
                    changed_task stamp now running (("error", Value.str "") ∷ clear_task_details) t)
                else get s.tasks k))
  unfolding resume_poll update_task save
  granted stamp now s key t e there =
      rw (e, resume_poll) (refl, λ k. rw (there, update_task) (get-put s.tasks key k _))

  refusal_of-unfailed :
      (t : Task)
      → (t.status ≡ queued) ⊎ (t.status ≡ running) ⊎ (t.status ≡ success)
      → refusal_of show parses diagnose timestamp (some t) ≡ some not_failed
  unfolding refusal_of
  refusal_of-unfailed t (inl e) = rw (e, refusal_of) refl
  refusal_of-unfailed t (inr (inl e)) = rw (e, refusal_of) refl
  refusal_of-unfailed t (inr (inr e)) = rw (e, refusal_of) refl

  refusal_of-failed :
      (t : Task)
      → t.status ≡ error
      → refusal_of show parses diagnose timestamp (some t) ≡ (
          if not (str_eq (code_of t) "image_poll_timeout")
          then some not_a_timeout
          else if str_eq (conversation_of t) ""
          then some no_conversation
          else none)
  unfolding refusal_of
  refusal_of-failed t e = rw (e, refusal_of) refl

  not_error : (st : Status) → (st ≡ queued) ⊎ (st ≡ running) ⊎ (st ≡ success) → st ≢ error
  not_error st (inl e) h = ground (arith, e, h)
  not_error st (inr (inl e)) h = ground (arith, e, h)
  not_error st (inr (inr e)) h = ground (arith, e, h)

  -- A poll goes on exactly for a task that has failed by a timeout of the polling and knows its
  -- conversation: it runs again, without its details and its error, and the other tasks are as they
  -- were. In the four other cases the method refuses, each with its own reason, and changes nothing.
  pub resume_poll_lem :
      (stamp : String) (now : ℕ) (s : Service) (key : String)
      → Resumed s key (resume_poll show parses diagnose timestamp stamp now s key)
  resume_poll_lem stamp now s key = elim (Option-cases (get s.tasks key)) [
    | inl e ↦ is_unknown e (
        refused stamp now s key not_found
          (ap (refusal_of show parses diagnose timestamp) e ∙ unfold refusal_of in refl))
    | inr (t, e) ↦ elim (Status-cases t.status) [
      | inr other ↦ is_unfailed t e (not_error t.status other) (
          refused stamp now s key not_failed
            (ap (refusal_of show parses diagnose timestamp) e ∙ refusal_of-unfailed t other))
      | inl failed ↦
          let test =
            ap (refusal_of show parses diagnose timestamp) e ∙ refusal_of-failed t failed in
          elim (Bool-cases (str_eq (code_of t) "image_poll_timeout")) [
            | inr a ↦
                is_other t e failed (str_neq _ _ a)
                  (refused stamp now s key not_a_timeout (test ∙ rw a refl))
            | inl a ↦ elim (Bool-cases (str_eq (conversation_of t) "")) [
              | inl b ↦
                  is_lost t e failed ((eq_iff _ _).0 a) ((eq_iff _ _).0 b)
                    (refused stamp now s key no_conversation (test ∙ rw (a, b) refl))
              | inr b ↦
                  let (none_left, tasks) = granted stamp now s key t (test ∙ rw (a, b) refl) e in
                  goes_on t _ e failed ((eq_iff _ _).0 a) (str_neq _ _ b) none_left tasks
                    (reopened stamp now t)
            ]
          ]
    ]
  ]
