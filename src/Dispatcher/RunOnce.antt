-- ===== src/Dispatcher/RunOnce.antt =====
-- workers/dispatcher.py: DurableTaskDispatcher.run_once. `now` is the clock's reading at the claim
-- and `later` that after the handler.
use job_searching_assistant.Prelude.{
  ℕ, Bool, true, false, Option, some, none, List, [], ◌∷◌, ◌++◌, String, leb, nat_beq, ◌==◌,
  string_eq, if◌then◌else◌, Result, ok, raise, ◌>>=◌, ◌>>◌, raise_if, not,
}
use Prim.Native.String.{◌++◌ as str_append}
use job_searching_assistant.Prelude.Table.{find, put}
use job_searching_assistant.Task.{TaskState, waiting_for_user, retry_scheduled, failed, state_eq}
use job_searching_assistant.Queue.Rows.{WorkflowTaskRow, Table, QueueError}
use job_searching_assistant.Queue.Claims.{ClaimedTask, claim_next}
use job_searching_assistant.Queue.Finish.{finish_claim, reschedule_claim, retry_claim}
use job_searching_assistant.Dispatcher.{
  HumanActionRequest, ExecutionOutcome, HumanActionCheckpointRow, WorkerHeartbeatRow, Db, TaskError,
  other_error, error_name, is_non_retryable, queue_error_name, ignore_invalid, retry_delay,
  Settings,
}

-- `key.partition(":")[0]`
unfoldable pub kind_of : List ℕ → List ℕ
kind_of [] = []
kind_of (c ∷ key) = if nat_beq c b':' then [] else c ∷ kind_of key

-- `f"workflow-task:{key}"`
abbrev claim_resource : List ℕ → List ℕ
claim_resource key =
    b'w' ∷ b'o' ∷ b'r' ∷ b'k' ∷ b'f' ∷ b'l' ∷ b'o' ∷ b'w' ∷ b'-' ∷ b't' ∷ b'a' ∷ b's' ∷ b'k' ∷ b':'
    ∷ key

abbrev pub Handler : Type 0
Handler = ClaimedTask → Db → Result TaskError ExecutionOutcome × Db

-- What a dispatcher is built from. `text_of` spells a task kind, `register_screenshot` validates
-- the file and returns the artifact's id.
pub record Dispatcher : Type 1 where
  pub Coordinator : Type 0
  pub Lease : Type 0
  pub acquire_lease :
      (resource_key : List ℕ) (seconds : ℕ) → Coordinator → Option Lease × Coordinator
  pub release_lease : Lease → Coordinator → Coordinator
  pub handlers : List ℕ → Option Handler
  pub register_screenshot : (checkpoint_id path : String) → Result TaskError String
  pub on_claim_completed : Option (String → TaskState → Db → Db)
  pub text_of : List ℕ → String
  pub worker_name : String
  pub queue_name : String
  pub retry_priority : Option ℕ
  pub settings : Settings

-- A repository's method within the database.
unfoldable pub on_tasks : Db → Result QueueError Table → Result QueueError Db
on_tasks db (ok rows) = ok (record db { tasks = rows })
on_tasks db (raise e) = raise e

unfoldable pub as_task_error {ℓ} : {A : Type ℓ} → Result QueueError A → Result TaskError A
as_task_error (ok a) = ok a
as_task_error (raise e) = raise (other_error (queue_error_name e))

module _ (d : Dispatcher) where
  open d use {settings, worker_name}

  unfoldable pub exhausted : ClaimedTask → Bool
  exhausted task = leb settings.worker_max_attempts task.attempt_number

  -- Lines 203 to 232: the handler asks for a retry.
  unfoldable pub settle_retry :
      ClaimedTask → ExecutionOutcome → (later : ℕ) → Db → Result QueueError Db
  unfolding on_tasks ignore_invalid exhausted
  settle_retry task outcome later db = ignore_invalid db (
      on_tasks db (
        if exhausted task
        then finish_claim task.task_id failed "task exhausted bounded retry attempts" worker_name
            outcome.evidence later db.tasks
        else retry_claim task.task_id worker_name outcome.reason
            (retry_delay settings.worker_retry_seconds task.attempt_number) outcome.evidence
            d.retry_priority later db.tasks))

  abbrev pub screenshot_evidence :
      (checkpoint_id : String) → Option String → Result TaskError (List String)
  screenshot_evidence checkpoint_id none = ok []
  screenshot_evidence checkpoint_id (some path) =
      d.register_screenshot checkpoint_id path >>= λ artifact.
      ok (str_append "artifact:" artifact ∷ [])

  -- Lines 234 to 258: a checkpoint for a human action. The session is not committed yet.
  unfoldable pub add_checkpoint :
      ClaimedTask
      → ExecutionOutcome
      → (fresh_id : String) → Option HumanActionRequest
      → Db
      → Result TaskError (List String × Db)
  add_checkpoint task outcome fresh_id none db = ok (outcome.evidence, db)
  add_checkpoint task outcome fresh_id (some action) db = do
    raise_if (not (outcome.state == waiting_for_user)) (other_error "RuntimeError")
    artifact ← screenshot_evidence fresh_id action.screenshot_path
    let checkpoint : HumanActionCheckpointRow = record {
      id = fresh_id;
      task_id = task.task_id;
      kind = action.kind;
      instructions = action.instructions;
      evidence = outcome.evidence ++ artifact;
    }
    ok (
      outcome.evidence ++ str_append "checkpoint:" fresh_id ∷ artifact,
      record db { checkpoints = db.checkpoints ++ checkpoint ∷ [] },
    )

  abbrev pub completed_hook : Option (String → TaskState → Db → Db) → String → TaskState → Db → Db
  completed_hook none task_id state db = db
  completed_hook (some hook) task_id state db = hook task_id state db

  -- Lines 259 to 275: the outcome is written, and the hook is told of it in either case.
  unfoldable pub settle_final :
      ClaimedTask → ExecutionOutcome → (fresh_id : String) (later : ℕ) → Db → Result TaskError Db
  unfolding add_checkpoint on_tasks ignore_invalid as_task_error
  settle_final task outcome fresh_id later db = do
    (evidence, db') ← add_checkpoint task outcome fresh_id outcome.human_action db
    db'' ← as_task_error (
        ignore_invalid db (
          on_tasks db' (
            finish_claim task.task_id outcome.state outcome.reason worker_name evidence later
              db'.tasks)))
    ok (completed_hook d.on_claim_completed task.task_id outcome.state db'')

  -- Lines 201 to 275.
  unfoldable pub settle :
      ClaimedTask → ExecutionOutcome → (fresh_id : String) (later : ℕ) → Db → Result TaskError Db
  unfolding settle_retry settle_final as_task_error
  settle task outcome fresh_id later db =
      if outcome.state == retry_scheduled
      then as_task_error (settle_retry task outcome later db)
      else settle_final task outcome fresh_id later db

  -- Lines 276 to 317: the `except` clause. What it raises itself leaves run_once.
  unfoldable pub settle_error : ClaimedTask → TaskError → (later : ℕ) → Db → Result QueueError Db
  unfolding on_tasks ignore_invalid exhausted
  settle_error task error later db = ignore_invalid db (
      on_tasks db (
        if is_non_retryable error
        then finish_claim task.task_id failed "task handler failed with a non-retryable model error"
            worker_name (error_name error ∷ "retryable:false" ∷ []) later db.tasks
        else if exhausted task
        then finish_claim task.task_id failed "task exhausted bounded retry attempts" worker_name
            (error_name error ∷ []) later db.tasks
        else retry_claim task.task_id worker_name
            "task handler failed and was scheduled for bounded retry"
            (retry_delay settings.worker_retry_seconds task.attempt_number) (error_name error ∷ [])
            d.retry_priority later db.tasks))

  -- The outcome of a task of a kind that has no handler.
  unfoldable pub run_handler : ClaimedTask → Db → Result TaskError ExecutionOutcome × Db
  unfolding kind_of
  run_handler task db =
      let kind = kind_of task.idempotency_key in
      elim (d.handlers kind) [
        | none ↦ (
          ok (record {
            state = failed;
            reason = str_append "no handler for task kind " (d.text_of kind);
            evidence = [];
            human_action = none;
          }),
          db,
        )
        | some handle ↦ handle task db
      ]

  abbrev pub or_except : ClaimedTask → (later : ℕ) → Db → Result TaskError Db → Result QueueError Db
  or_except task later db (ok db') = ok db'
  or_except task later db (raise error) = settle_error task error later db

  abbrev pub settle_reply :
      ClaimedTask
      → (fresh_id : String) (later : ℕ) → Result TaskError ExecutionOutcome
      → Db
      → Result TaskError Db
  settle_reply task fresh_id later (ok outcome) db = settle task outcome fresh_id later db
  settle_reply task fresh_id later (raise error) db = raise error

  -- Lines 192 to 317: the `try` with its `except`.
  unfoldable pub execute :
      ClaimedTask → (fresh_id : String) (later : ℕ) → Db → Result QueueError Db × Db
  unfolding run_handler settle settle_error
  execute task fresh_id later db =
      let (reply, db') = run_handler task db in
      (or_except task later db' (settle_reply task fresh_id later reply db'), db')

-- DurableTaskDispatcher._heartbeat: `session.merge` of the worker's row.
unfoldable pub heartbeat : (worker_name status : String) (now : ℕ) → Db → Db
heartbeat worker_name status now db =
    let row : WorkerHeartbeatRow = record {
      worker_name = worker_name;
      status = status;
      last_seen_at = now;
    } in
    let name_of = λ (r : WorkerHeartbeatRow). r.worker_name in
    elim (find name_of worker_name db.heartbeats) [
      | none ↦ record db { heartbeats = db.heartbeats ++ row ∷ [] }
      | some old ↦ record db { heartbeats = put name_of row db.heartbeats }
    ]

-- What run_once leaves: the database and the coordinator, and its answer or the exception.
pub record Ran (C : Type 0) : Type 0 where
  pub answer : Result QueueError Bool
  pub db : Db
  pub coordinator : C

module _ (d : Dispatcher) where
  open d use {settings, worker_name, Coordinator}

  -- Another worker holds the lease: the claim goes back to the queue. There is no `try` around it.
  unfoldable pub give_back : ClaimedTask → (now : ℕ) → Db → Coordinator → Ran Coordinator
  unfolding on_tasks
  give_back task now db coordinator =
      elim (reschedule_claim task.task_id worker_name
        "another worker owns the Redis execution lease" settings.worker_retry_seconds now
        db.tasks) [
          | ok rows ↦ record {
            answer = ok true;
            db = record db { tasks = rows };
            coordinator = coordinator;
          }
          | raise e ↦ record { answer = raise e; db = db; coordinator = coordinator }
        ]

  -- The `finally` clause, and `return True`.
  abbrev pub finally_release :
      d.Lease → (later : ℕ) → Result QueueError Db × Db → Coordinator → Ran Coordinator
  finally_release lease later (ok db, before) coordinator = record {
    answer = ok true;
    db = heartbeat worker_name "healthy" later db;
    coordinator = d.release_lease lease coordinator;
  }
  finally_release lease later (raise e, before) coordinator = record {
    answer = raise e;
    db = heartbeat worker_name "healthy" later before;
    coordinator = d.release_lease lease coordinator;
  }

  abbrev pub run_claimed :
      ClaimedTask
      → (fresh_id : String) (now later : ℕ) → Db
      → Option d.Lease × Coordinator
      → Ran Coordinator
  run_claimed task fresh_id now later db (none, coordinator) = give_back task now db coordinator
  run_claimed task fresh_id now later db (some lease, coordinator) =
      finally_release lease later (execute d task fresh_id later db) coordinator

  -- DurableTaskDispatcher.run_once
  unfoldable pub run_once :
      (locked : WorkflowTaskRow → Bool) (fresh_id : String) (now later : ℕ)
      → Db
      → Coordinator
      → Ran Coordinator
  unfolding heartbeat give_back execute
  run_once locked fresh_id now later db coordinator =
      let db' = heartbeat worker_name "polling" now db in
      let (claimed, rows) = claim_next locked worker_name d.queue_name now db'.tasks in
      let db'' : Db = record db' { tasks = rows } in
      elim claimed [
        | none ↦ record { answer = ok false; db = db''; coordinator = coordinator }
        | some task ↦ run_claimed task fresh_id now later db'' (
            d.acquire_lease (claim_resource task.idempotency_key) settings.worker_lease_seconds
              coordinator)
      ]
