-- ===== src/ImageTasks/Tests.antt =====
-- Runs of the image task service, and instances of its theorems.
use jove_mage.Prelude.{
  some, String, ◌≡◌, refl, false, none, List, [], ◌∷◌, Dict, get, IsUnique, Value, Items, Fields,
}
use jove_mage.Failures.Http.{Raised}
use jove_mage.ImageTasks.{Status, Task, Worker, Service, threads_of}
use jove_mage.ImageTasks.Methods.{Refusal, Handled, start_service, resume_poll}
use jove_mage.ImageTasks.File.{load}
use jove_mage.ImageTasks.File.Restart.{restart_forgets_conversations}
use jove_mage.ImageTasks.Workers.{status_at, worker_for}
use jove_mage.ImageTasks.Runs.{Call, submits, begins, finishes, call_all, tasks_have_threads}
use jove_mage.ImageTasks.Resume.{Resumed, resume_poll_lem}

abbrev show : Value → String
show v = ""

abbrev diagnose : Raised → Dict Value
diagnose exc = []

-- A task that a restart has interrupted, and one that has failed by a timeout.
abbrev loaded : Dict Task
loaded =
    ("o:1", record { status = Status.running; owner_id = "o"; updated_at = "a"; fields = [] })
    ∷ (
      "o:2",
      record {
        status = Status.error;
        owner_id = "o";
        updated_at = "b";
        fields =
            ("error_code", Value.str "upstream_timeout") ∷ ("conversation_id", Value.str "c") ∷ [];
      },
    )
    ∷ []

loaded-IsUnique : IsUnique loaded
unfolding get
loaded-IsUnique = (refl, (refl, tt))

abbrev service : Service
service = record { tasks = loaded; saved = []; workers = ("o:1", Worker.working) ∷ [] }

abbrev run : List Call
run =
    submits "s" 9 none "o" "3" []
    ∷ begins "t" 9 "o:3"
    ∷ finishes "u" 9 1 "o:3" (Handled.returned Value.null)
    ∷ []

tasks_have_threads_example :
    let s =
      call_all show
        (λ t. false)
        diagnose
        (λ t. 0)
        (start_service show (λ t. false) diagnose (λ t. 0) "n" 5 none loaded [])
        run in
    threads_of s.workers "o:1" ≡ worker_for (status_at s "o:1")
tasks_have_threads_example =
    tasks_have_threads show (λ t. false) diagnose (λ t. 0) "n" 5 none loaded [] run loaded-IsUnique
      "o:1"

resume_poll_lem_example :
    Resumed show
      (λ t. false)
      diagnose
      (λ t. 0)
      service
      "o:2"
      (resume_poll show (λ t. false) diagnose (λ t. 0) "n" 5 service "o:2")
resume_poll_lem_example = resume_poll_lem show (λ t. false) diagnose (λ t. 0) "n" 5 service "o:2"

abbrev empty_service : Service
empty_service = record { tasks = []; saved = []; workers = [] }

-- A file with a task that has failed by a timeout of the polling.
abbrev entry : Fields
entry = Fields.field "id" (Value.str "2") (
    Fields.field "owner_id" (Value.str "o") (
      Fields.field "status" (Value.str "error") (
        Fields.field "error_code" (Value.str "upstream_timeout")
          (Fields.field "conversation_id" (Value.str "c") Fields.end))))

restart_forgets_conversations_example :
    let s =
      start_service show
        (λ t. false)
        diagnose
        (λ t. 0)
        "n"
        5
        none
        (load show
          (λ t. false)
          (λ v. none)
          "n"
          (Value.list (Items.cons (Value.dict entry) Items.nil)))
        [] in
    (refusal : Refusal) × (resume_poll show (λ t. false) diagnose (λ t. 0) "n" 6 s "o:2"
      ≡ (s, some refusal))
restart_forgets_conversations_example =
    restart_forgets_conversations show (λ t. false) (λ v. none) "n" diagnose (λ t. 0) 5 6 none
      (Value.list (Items.cons (Value.dict entry) Items.nil)) [] "o:2"
