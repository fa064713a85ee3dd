-- ===== src/ImageTasks/File/Restart.antt =====
-- What a restart forgets of the tasks.
use jove_mage.Prelude.{
  ℕ, String, ◌≡◌, refl, ◌∙◌, ap, sym, ◌⊎◌, inl, inr, Bool, true, false, not, ◌&&◌, ◌||◌, Option,
  none, some, List, [], ◌∷◌, arith, eq_iff, str_eq, if◌then◌else◌, strip, strip-empty, Dict, get,
  put, pop, has, get-put, get-pop, get-empty, contains, IsUnique, IsUnique-put, ℤ, Value, Items,
  Fields, Bool-cases, Option-cases,
}
use jove_mage.Failures.Codes.{field_of}
use jove_mage.Failures.Http.{Raised}
use jove_mage.Failures.Read.{mapping, is_mapping, text_of}
use jove_mage.ImageTasks.{
  Task, Service, task_detail_keys, is_missing, value_at, apply_updates, task_detail_fields, save,
  is_terminal,
}
use jove_mage.ImageTasks.Methods.{
  Refusal, any_expired, cutoff, cleanup, recover_task, recover_unfinished, any_unfinished,
  start_service, resume_poll, task_key,
}
use jove_mage.ImageTasks.Life.{get-drop_expired}
use jove_mage.ImageTasks.Runs.{get-recover_unfinished, recover_unfinished-IsUnique}
use jove_mage.ImageTasks.Resume.{
  is_unknown, is_unfailed, is_other, is_lost, goes_on, resume_poll_lem, conversation_of,
}
use jove_mage.ImageTasks.File.{
  copy_details, put_list, put_mapping, put_text, base_fields, load_task, load_item, load_items,
  load_list, load, clean,
}

-- The key that the file is not asked for.
abbrev forgotten : String
forgotten = "conversation_id"

-- No task has the key.
abbrev Forgets : Dict Task → Type 0
Forgets tasks = (k : String) (t : Task) → get tasks k ≡ some t → get t.fields forgotten ≡ none

no_detail : contains forgotten task_detail_keys ≡ false
unfolding contains task_detail_keys
no_detail = refl

get-copy_details :
    (keys : List String) (source : Fields) (target : Dict Value)
    → contains forgotten keys ≡ false
    → get (copy_details keys source target) forgotten ≡ get target forgotten
unfolding copy_details contains
get-copy_details [] source target h = refl
get-copy_details (key ∷ keys) source target h =
    elim (Bool-cases (is_missing (field_of source key))) [
      | inl e ↦ rw (e, copy_details) (get-copy_details keys source target (ground (arith, h)))
      | inr e ↦
          rw (e, copy_details)
            (get-copy_details keys source (put target key (field_of source key)) (ground (arith, h))
              ∙ get-put target key forgotten (field_of source key)
              ∙ ground (arith, h))
    ]

get-put_list :
    (key : String) (v : Value) (fields : Dict Value)
    → str_eq key forgotten ≡ false
    → get (put_list key v fields) forgotten ≡ get fields forgotten
unfolding put_list
get-put_list key (Value.list xs) fields h = get-put fields key forgotten (Value.list xs) ∙ rw h refl
get-put_list key Value.null fields h = refl
get-put_list key (Value.bool b) fields h = refl
get-put_list key (Value.int n) fields h = refl
get-put_list key (Value.float m e) fields h = refl
get-put_list key (Value.str s) fields h = refl
get-put_list key (Value.dict fs) fields h = refl

get-put_mapping :
    (key : String) (v : Value) (fields : Dict Value)
    → str_eq key forgotten ≡ false
    → get (put_mapping key v fields) forgotten ≡ get fields forgotten
unfolding put_mapping
get-put_mapping key (Value.dict fs) fields h =
    get-put fields key forgotten (Value.dict fs) ∙ rw h refl
get-put_mapping key Value.null fields h = refl
get-put_mapping key (Value.bool b) fields h = refl
get-put_mapping key (Value.int n) fields h = refl
get-put_mapping key (Value.float m e) fields h = refl
get-put_mapping key (Value.str s) fields h = refl
get-put_mapping key (Value.list xs) fields h = refl

get-put_text :
    (key text : String) (fields : Dict Value)
    → str_eq key forgotten ≡ false
    → get (put_text key text fields) forgotten ≡ get fields forgotten
unfolding put_text
get-put_text key text fields h = elim (Bool-cases (str_eq text "")) [
  | inl e ↦ rw e refl
  | inr e ↦ rw e (get-put fields key forgotten (Value.str text) ∙ rw h refl)
]

-- Updates that do not name the key leave it.
get-apply_updates :
    (fields updates : Dict Value)
    → has updates forgotten ≡ false
    → get (apply_updates fields updates) forgotten ≡ get fields forgotten
unfolding apply_updates has get
get-apply_updates fields [] h = refl
get-apply_updates fields ((key, value) ∷ updates) h =
    elim (Bool-cases (contains key task_detail_keys && is_missing value)) [
      | inl e ↦
          rw (e, apply_updates)
            (get-apply_updates (pop fields key) updates (ground (arith, h))
              ∙ get-pop fields key forgotten
              ∙ ground (arith, h))
      | inr e ↦
          rw (e, apply_updates)
            (get-apply_updates (put fields key value) updates (ground (arith, h))
              ∙ get-put fields key forgotten value
              ∙ ground (arith, h))
    ]

has-task_detail_fields : (fields : Dict Value) → has (task_detail_fields fields) forgotten ≡ false
unfolding task_detail_fields has get
has-task_detail_fields [] = refl
has-task_detail_fields ((key, value) ∷ fields) =
    ground (arith, has-task_detail_fields fields, no_detail, eq_iff key forgotten)

same_task :
    (u t : Task) → some u ≡ some t → get u.fields forgotten ≡ none → get t.fields forgotten ≡ none
same_task u t h g = ground (arith, h, g)

module _ (show : Value → String) (parses : String → Bool) (to_int : Value → Option ℤ)
    (stamp : String) where
  load_task-forgets :
      (item : Fields) → get (load_task show parses to_int stamp item).fields forgotten ≡ none
  unfolding load_task base_fields get
  load_task-forgets item =
      get-copy_details task_detail_keys item _ no_detail
      ∙ get-put_text "error" (clean show parses to_int stamp (field_of item "error") "") _ refl
      ∙ get-put_mapping "usage" (field_of item "usage") _ refl
      ∙ get-put_list "data" (field_of item "data") (base_fields show parses to_int stamp item) refl

  -- A dictionary of tasks without the key, in which none stands twice.
  record Loaded (tasks : Dict Task) : Type 0 where
    unique : IsUnique tasks
    forgets : Forgets tasks

  load_item-Loaded :
      (value : Value) (tasks : Dict Task)
      → Loaded tasks
      → Loaded (load_item show parses to_int stamp value tasks)
  unfolding load_item
  load_item-Loaded value tasks l =
      elim (Bool-cases (
        not (is_mapping value)
        || str_eq (clean show parses to_int stamp (field_of (mapping value) "id") "") ""
        || str_eq (clean show parses to_int stamp (field_of (mapping value) "owner_id") "") "")) [
          | inl e ↦ rw (e, load_item) l
          | inr e ↦
              rw (e, load_item)
                (record {
                  unique = IsUnique-put tasks _ _ l.unique;
                  forgets = λ k t h. pick k t (Bool-cases (str_eq key k)) (
                      sym (get-put tasks key k (load_task show parses to_int stamp (mapping value)))
                      ∙ h);
                })
        ]
    where
      key : String
      key =
          task_key (clean show parses to_int stamp (field_of (mapping value) "owner_id") "")
            (clean show parses to_int stamp (field_of (mapping value) "id") "")

      pick :
          (k : String) (t : Task)
          → (str_eq key k ≡ true) ⊎ (str_eq key k ≡ false)
          → (if str_eq key k
              then some (load_task show parses to_int stamp (mapping value))
              else get tasks k)
            ≡ some t
          → get t.fields forgotten ≡ none
      pick k t (inl e) h =
          same_task (load_task show parses to_int stamp (mapping value)) t (rw e at h)
            (load_task-forgets (mapping value))
      pick k t (inr e) h = l.forgets k t (rw e at h)

  load_items-Loaded :
      (xs : Items) (tasks : Dict Task)
      → Loaded tasks
      → Loaded (load_items show parses to_int stamp xs tasks)
  unfolding load_items
  load_items-Loaded Items.nil tasks l = l
  load_items-Loaded (Items.cons x xs) tasks l = load_items-Loaded xs _ (load_item-Loaded x tasks l)

  nothing-Loaded : Loaded []
  nothing-Loaded = record {
    unique = tt;
    forgets = λ k t h. absurd (ground (arith, h, get-empty {V = Task} k));
  }

  load_list-Loaded : (v : Value) → Loaded (load_list show parses to_int stamp v)
  unfolding load_list
  load_list-Loaded (Value.list xs) = load_items-Loaded xs [] nothing-Loaded
  load_list-Loaded Value.null = nothing-Loaded
  load_list-Loaded (Value.bool b) = nothing-Loaded
  load_list-Loaded (Value.int n) = nothing-Loaded
  load_list-Loaded (Value.float m e) = nothing-Loaded
  load_list-Loaded (Value.str s) = nothing-Loaded
  load_list-Loaded (Value.dict fs) = nothing-Loaded

  load-Loaded : (raw : Value) → Loaded (load show parses to_int stamp raw)
  unfolding load
  load-Loaded raw =
      load_list-Loaded (if is_mapping raw then field_of (mapping raw) "tasks" else raw)

  module _ (diagnose : Raised → Dict Value) (timestamp : String → ℕ) where
    recover_task-forgets :
        (t : Task)
        → get t.fields forgotten ≡ none
        → get (recover_task show parses diagnose timestamp stamp t).fields forgotten ≡ none
    unfolding recover_task
    recover_task-forgets t h = elim (Bool-cases (is_terminal t.status)) [
      | inl e ↦ rw (e, recover_task) h
      | inr e ↦
          rw (e, recover_task)
            (get-apply_updates (put t.fields "error" _) _ (has-task_detail_fields _)
              ∙ get-put t.fields "error" forgotten _
              ∙ h)
    ]

    recovered-Loaded :
        (tasks : Dict Task)
        → Loaded tasks
        → Loaded (recover_unfinished show parses diagnose timestamp stamp tasks)
    recovered-Loaded tasks l = record {
      unique = recover_unfinished-IsUnique show parses diagnose timestamp stamp tasks l.unique;
      forgets = λ k t h.
          pick k t (Option-cases (get tasks k))
            (sym (get-recover_unfinished show parses diagnose timestamp stamp tasks k) ∙ h);
    }
      where
        pick :
            (k : String) (t : Task)
            → (get tasks k ≡ none) ⊎ ((u : Task) × (get tasks k ≡ some u))
            → (elim (get tasks k) as (λ _. Option Task) [
              | none ↦ none
              | some u ↦ some (recover_task show parses diagnose timestamp stamp u)
            ])
              ≡ some t
            → get t.fields forgotten ≡ none
        pick k t (inl e) h = absurd (ground (arith, rw e at h))
        pick k t (inr (u, e)) h =
            same_task (recover_task show parses diagnose timestamp stamp u) t (rw e at h)
              (recover_task-forgets u (l.forgets k u e))

    cleaned-Forgets :
        (now : ℕ) (retention : Option ℤ) (s : Service)
        → Loaded s.tasks
        → Forgets (cleanup show parses diagnose timestamp now retention s).tasks
    unfolding cleanup save
    cleaned-Forgets now retention s l =
        elim (Bool-cases
          (any_expired show parses diagnose timestamp (cutoff now retention) s.tasks)) [
            | inr e ↦ rw (e, cleanup) l.forgets
            | inl e ↦
                rw (e, cleanup)
                  (λ k t h.
                    elim (get-drop_expired show parses diagnose timestamp (cutoff now retention)
                      s.tasks k l.unique) [
                        | inl f ↦ l.forgets k t (sym f ∙ h)
                        | inr (u, _, _, f) ↦ absurd (ground (arith, f, h))
                      ])
          ]

    started-Forgets :
        (now : ℕ) (retention : Option ℤ) (raw : Value) (saved : List Task)
        → Forgets
            (start_service show parses diagnose timestamp stamp now retention
              (load show parses to_int stamp raw)
              saved).tasks
    unfolding start_service save
    started-Forgets now retention raw saved =
        let l = recovered-Loaded (load show parses to_int stamp raw) (load-Loaded raw) in
        elim (Bool-cases
          (any_unfinished show parses diagnose timestamp (load show parses to_int stamp raw))) [
            | inl e ↦ rw (e, start_service) (cleaned-Forgets now retention _ l)
            | inr e ↦ rw (e, start_service) (cleaned-Forgets now retention _ l)
          ]

    no_conversation_of :
        (t : Task)
        → get t.fields forgotten ≡ none
        → conversation_of show parses diagnose timestamp t ≡ ""
    unfolding value_at text_of
    no_conversation_of t h =
        ap
          (λ o.
            strip (text_of show parses (elim o as (λ _. Value) [ none ↦ Value.null | some v ↦ v ])))
          h
        ∙ strip-empty

    -- After a restart no failed task can be polled again, whatever the file holds: `resume_poll` refuses
    -- every task, since `_load_locked` does not read the conversations of the tasks, which the file has.
    pub restart_forgets_conversations :
        (now later : ℕ) (retention : Option ℤ) (raw : Value) (saved : List Task) (key : String)
        → let s =
            start_service show parses diagnose timestamp stamp now retention
              (load show parses to_int stamp raw)
              saved in
          (refusal : Refusal) × (resume_poll show parses diagnose timestamp stamp later s key
            ≡ (s, some refusal))
    restart_forgets_conversations now later retention raw saved key =
        let s =
          start_service show parses diagnose timestamp stamp now retention
            (load show parses to_int stamp raw) saved in
        elim (resume_poll_lem show parses diagnose timestamp stamp later s key) [
          | is_unknown _ e ↦ (_, e)
          | is_unfailed t _ _ e ↦ (_, e)
          | is_other t _ _ _ e ↦ (_, e)
          | is_lost t _ _ _ _ e ↦ (_, e)
          | goes_on t u there _ _ full _ _ _ ↦
              absurd
                (full (no_conversation_of t (started-Forgets now retention raw saved key t there)))
        ]
