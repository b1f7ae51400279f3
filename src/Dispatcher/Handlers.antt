-- ===== src/Dispatcher/Handlers.antt =====
-- workers/dispatcher.py: the task handlers, and those that the dispatcher's and the matching worker's
-- main functions register. What they call on (the matching runtime, the resume's synchronization,
-- the rows of resumes and applications) is a parameter.
use job_searching_assistant.Prelude.{
  ℕ, ◌≡◌, refl, sym, subst, inl, inr, Bool, true, false, Option, some, none, List, [], ◌∷◌, String,
  ◌≤◌, ◌==◌, string_eq, nat_eq, list_eq, if◌then◌else◌, Result, ok, raise, Bool-cases, Option-cases,
  codes,
}
use Prim.Native.String.{◌++◌ as str_append}
use job_searching_assistant.Prelude.Table.{find}
use job_searching_assistant.Task.{
  TaskState, running, waiting_for_user, retry_scheduled, failed, completed, is_allowed, state_eq,
}
use job_searching_assistant.Queue.Rows.{WorkflowTaskRow, row_id}
use job_searching_assistant.Queue.Claims.{ClaimedTask}
use job_searching_assistant.Dispatcher.{ExecutionOutcome, Db, TaskError}
use job_searching_assistant.Dispatcher.RunOnce.{Handler, Dispatcher, kind_of, run_handler, execute}
use job_searching_assistant.Dispatcher.Settles.{
  Leaves, settled_state, IsProper, execute-settled_state,
}

-- `cv_file_id` reads the payload, `resume_exists` and `application_status` are lookups by id;
-- `sync_resume` answers with the status of the synchronization, if it succeeded.
pub record HandlerServices : Type 0 where
  pub run_matching : String → Db → Result TaskError (Unit {0}) × Db
  pub cv_file_id : String → Option String
  pub resume_exists : String → Db → Bool
  pub sync_resume : String → Db → Result TaskError (Option String) × Db
  pub application_status : String → Db → Option String

abbrev pub outcome : TaskState → String → List String → ExecutionOutcome
outcome state reason evidence = record {
  state = state;
  reason = reason;
  evidence = evidence;
  human_action = none;
}

module _ (services : HandlerServices) where
  open services use {run_matching, cv_file_id, resume_exists, sync_resume, application_status}

  -- A call that raises leaves the handler.
  abbrev after_call :
      {A : Type 0}
      → Result TaskError A × Db
      → (A → ExecutionOutcome)
      → Result TaskError ExecutionOutcome × Db
  after_call (ok a, db) next = (ok (next a), db)
  after_call (raise e, db) next = (raise e, db)

  abbrev matching_outcome : String → Unit {0} → ExecutionOutcome
  matching_outcome id _ =
      outcome completed "matching v2 calculation completed" (str_append "application:" id ∷ [])

  -- MatchingTaskHandler.handle
  unfoldable pub handle_matching : Handler
  handle_matching task db = elim task.application_id [
    | none ↦ (ok (outcome failed "matching task has no application id" []), db)
    | some id ↦ after_call (run_matching id db) (matching_outcome id)
  ]

  abbrev sync_outcome : String → Option String → ExecutionOutcome
  sync_outcome id none =
      outcome retry_scheduled
        "resume RAG synchronization failed and was scheduled for bounded retry"
        (str_append "resume:" id ∷ "failure_code:rag_sync_failed" ∷ [])
  sync_outcome id (some status) =
      outcome completed "resume RAG synchronization completed"
        (str_append "resume:" id ∷ str_append "rag_status:" status ∷ [])

  -- ResumeRagSyncTaskHandler.handle
  unfoldable pub handle_resume_rag_sync : Handler
  handle_resume_rag_sync task db = elim (cv_file_id task.payload) [
    | none ↦ (
      ok (
          outcome failed "resume RAG synchronization payload is invalid"
            ("failure_code:invalid_task_payload" ∷ [])),
      db,
    )
    | some id ↦ elim (resume_exists id db) [
      | false ↦ (
        ok (
            outcome failed "resume is unavailable for RAG synchronization"
              ("failure_code:resume_unavailable" ∷ [])),
        db,
      )
      | true ↦ after_call (sync_resume id db) (sync_outcome id)
    ]
  ]

  abbrev review_outcome : String → Option String → ExecutionOutcome
  review_outcome id none = outcome failed "application no longer exists" []
  review_outcome id (some status) =
      if status == "awaiting_review"
      then outcome waiting_for_user "application is available in the human review queue"
          (str_append "application:" id ∷ [])
      else outcome completed (str_append "application already resolved with status " status)
          (str_append "application:" id ∷ [])

  -- ApplicationReviewCheckpointHandler.handle
  unfoldable pub handle_application_review : Handler
  handle_application_review task db = elim task.application_id [
    | none ↦ (ok (outcome failed "review task has no application id" []), db)
    | some id ↦ (ok (review_outcome id (application_status id db)), db)
  ]

  after_call-IsProper :
      {A : Type 0} (p : Result TaskError A × Db) (next : A → ExecutionOutcome)
      → ((a : A) → IsProper (ok (next a)))
      → IsProper (after_call p next).0
  after_call-IsProper (ok a, db) next h = h a
  after_call-IsProper (raise e, db) next h = tt

  pub handle_matching-IsProper :
      (task : ClaimedTask) (db : Db) → IsProper (handle_matching task db).0
  unfolding handle_matching is_allowed
  handle_matching-IsProper task db = elim (Option-cases task.application_id) [
    | inl e ↦ rw e refl
    | inr (id, e) ↦
        rw e (after_call-IsProper (run_matching id db) (matching_outcome id) (λ _. refl))
  ]

  sync_outcome-IsProper : (id : String) (o : Option String) → IsProper (ok (sync_outcome id o))
  unfolding is_allowed
  sync_outcome-IsProper id none = refl
  sync_outcome-IsProper id (some status) = refl

  handle_resume_rag_sync-IsProper :
      (task : ClaimedTask) (db : Db) → IsProper (handle_resume_rag_sync task db).0
  unfolding handle_resume_rag_sync is_allowed
  handle_resume_rag_sync-IsProper task db = elim (Option-cases (cv_file_id task.payload)) [
    | inl e ↦ rw (e, IsProper, handle_resume_rag_sync) refl
    | inr (id, e) ↦ elim (Bool-cases (resume_exists id db)) [
      | inl here ↦
          rw (e, IsProper, handle_resume_rag_sync, here)
            (after_call-IsProper (sync_resume id db) (sync_outcome id) (sync_outcome-IsProper id))
      | inr gone ↦ rw (e, IsProper, handle_resume_rag_sync, gone) refl
    ]
  ]

  review_outcome-IsProper : (id : String) (o : Option String) → IsProper (ok (review_outcome id o))
  unfolding is_allowed
  review_outcome-IsProper id none = refl
  review_outcome-IsProper id (some status) = elim (Bool-cases (status == "awaiting_review")) [
    | inl waits ↦ rw waits refl
    | inr other ↦ rw other refl
  ]

  handle_application_review-IsProper :
      (task : ClaimedTask) (db : Db) → IsProper (handle_application_review task db).0
  unfolding handle_application_review is_allowed
  handle_application_review-IsProper task db = elim (Option-cases task.application_id) [
    | inl e ↦ rw e refl
    | inr (id, e) ↦ rw e (review_outcome-IsProper id (application_status id db))
  ]

  -- The `handlers` of the dispatcher's main function.
  unfoldable pub dispatcher_handlers : List ℕ → Option Handler
  unfolding handle_application_review handle_resume_rag_sync
  dispatcher_handlers kind =
      if kind == codes "application-review"
      then some handle_application_review
      else if kind == codes "rag-resume-sync"
      then some handle_resume_rag_sync
      else none

  IsHandlerProper : Option Handler → Type 0
  IsHandlerProper none = Unit
  IsHandlerProper (some h) = (task : ClaimedTask) (db : Db) → IsProper (h task db).0

  dispatcher_handlers-IsProper : (kind : List ℕ) → IsHandlerProper (dispatcher_handlers kind)
  unfolding dispatcher_handlers IsHandlerProper
  dispatcher_handlers-IsProper kind = elim (Bool-cases (kind == codes "application-review")) [
    | inl review ↦ rw review handle_application_review-IsProper
    | inr other ↦ elim (Bool-cases (kind == codes "rag-resume-sync")) [
      | inl sync ↦ rw (other, sync) handle_resume_rag_sync-IsProper
      | inr none_ ↦ rw (other, none_) tt
    ]
  ]

  run_handler-IsProper :
      (d : Dispatcher) (task : ClaimedTask) (db : Db)
      → d.handlers ≡ dispatcher_handlers
      → IsProper (run_handler d task db).0
  unfolding run_handler is_allowed IsHandlerProper
  run_handler-IsProper d task db h =
      let kind = kind_of task.idempotency_key in
      let proper : IsHandlerProper (d.handlers kind) =
        subst (λ hs. IsHandlerProper (hs kind)) (sym h) (dispatcher_handlers-IsProper kind) in
      elim (Option-cases (d.handlers kind)) [
        | inl e ↦ rw (e, IsProper, run_handler) refl
        | inr (handle, e) ↦ rw (e, IsProper, run_handler) ((rw e at proper) task db)
      ]

  -- The dispatcher with the handlers of its main function, with no completion hook and a positive
  -- base delay, and a claimed row that is still RUNNING after the handler: whatever the services
  -- behind the handlers do, the `try` of run_once and its `except` raise nothing and leave the row
  -- in the state that the handler's reply asks for.
  pub execute-dispatcher_handlers :
      (d : Dispatcher) (task : ClaimedTask) (fresh_id : String) (later : ℕ) (db : Db)
      (row : WorkflowTaskRow)
      → d.handlers ≡ dispatcher_handlers
      → d.on_claim_completed ≡ none
      → 1 ≤ d.settings.worker_retry_seconds
      → find row_id task.task_id (run_handler d task db).1.tasks ≡ some row
      → row.state ≡ running
      → Leaves task.task_id
          (settled_state d task fresh_id (run_handler d task db).1 (run_handler d task db).0)
          (execute d task fresh_id later db).0
  execute-dispatcher_handlers d task fresh_id later db row h no_hook pos found live =
      execute-settled_state d task fresh_id later db row no_hook pos
        (run_handler-IsProper d task db h) found live
