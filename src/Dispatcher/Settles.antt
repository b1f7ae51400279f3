-- ===== src/Dispatcher/Settles.antt =====
-- The `try` and `except` of run_once: in which state the claimed task is left.
use job_searching_assistant.Prelude.{
  ℕ, ◌≤◌, ◌≡◌, refl, sym, subst, ◌∙◌, true, Option, some, none, List, ◌∷◌, [], String, arith,
  Bool-cases, inl, inr, string_eq, ◌==◌, if◌then◌else◌, Result, ok, raise,
}
use job_searching_assistant.Prelude.Table.{find, put, find-key, find-put_self}
use job_searching_assistant.Task.{TaskState, running, failed, retry_scheduled, is_allowed, state_eq}
use job_searching_assistant.Queue.Rows.{WorkflowTaskRow, Table, row_id, QueueError}
use job_searching_assistant.Queue.Claims.{ClaimedTask}
use job_searching_assistant.Queue.Finish.{finish_claim, retry_claim}
use job_searching_assistant.Queue.Finish.Cases.{
  finished_row, retried_row, finish_claim-found, retry_claim-found,
}
use job_searching_assistant.Dispatcher.{
  ExecutionOutcome, Db, TaskError, is_non_retryable, ignore_invalid, error_name, HumanActionRequest,
}
use job_searching_assistant.Dispatcher.Backoff.{retry_delay-bounds}
use job_searching_assistant.Dispatcher.RunOnce.{
  Dispatcher, on_tasks, as_task_error, exhausted, settle_retry, add_checkpoint, settle_final,
  settle, settle_error, run_handler, execute, or_except, settle_reply,
}

-- The call returns a database in which the task's row has the given state.
abbrev pub Leaves : (task_id : String) → TaskState → Result QueueError Db → Type 0
Leaves task_id state r =
    (db : Db) × (r ≡ ok db)
    × (row : WorkflowTaskRow) × (find row_id task_id db.tasks ≡ some row)
    × (row.state ≡ state)

module _ (task_id : String) (rows : Table) (row : WorkflowTaskRow)
    (found : find row_id task_id rows ≡ some row) (live : row.state ≡ running) where
  put-found :
      (row' : WorkflowTaskRow)
      → row'.id ≡ row.id
      → find row_id task_id (put row_id row' rows) ≡ some row'
  put-found row' same =
      let k : row'.id ≡ task_id = same ∙ find-key row_id task_id rows row found in
      subst (λ i. find row_id i (put row_id row' rows) ≡ some row') k
        (find-put_self row_id row' rows row (rw k found))

  finish-Leaves :
      (before db : Db) (to : TaskState) (reason worker : String) (evidence : List String) (now : ℕ)
      → is_allowed running to ≡ true
      → Leaves task_id to (
          ignore_invalid before
            (on_tasks db (finish_claim task_id to reason worker evidence now rows)))
  unfolding ignore_invalid on_tasks
  finish-Leaves before db to reason worker evidence now allowed =
      let row' = finished_row to reason worker evidence now row in
      let may : is_allowed row.state to ≡ true =
        subst (λ s. is_allowed s to ≡ true) (sym live) allowed in
      let e : finish_claim task_id to reason worker evidence now rows ≡ ok (put row_id row' rows) =
        rw (finish_claim-found task_id to reason worker evidence now rows row found, may) refl in
      (record db { tasks = put row_id row' rows }, rw (e) refl, row', put-found row' refl, refl)

  retry-Leaves :
      (before db : Db) (worker reason : String) (delay : ℕ) (evidence : List String)
      (priority : Option ℕ) (now : ℕ)
      → 1 ≤ delay
      → Leaves task_id retry_scheduled (
          ignore_invalid before
            (on_tasks db (retry_claim task_id worker reason delay evidence priority now rows)))
  unfolding ignore_invalid on_tasks is_allowed
  retry-Leaves before db worker reason delay evidence priority now pos =
      let row' = retried_row worker reason delay evidence priority now row in
      let may : is_allowed row.state retry_scheduled ≡ true =
        subst (λ s. is_allowed s retry_scheduled ≡ true) (sym live) refl in
      let e : retry_claim task_id worker reason delay evidence priority now rows
          ≡ ok (put row_id row' rows) =
        rw
          (
            retry_claim-found task_id worker reason delay evidence priority now rows row found pos,
            may,
          )
          refl in
      (record db { tasks = put row_id row' rows }, rw (e) refl, row', put-found row' refl, refl)

-- The state that run_once is to leave, by what the handler did.
module _ (d : Dispatcher) (task : ClaimedTask) where
  abbrev pub retry_state : TaskState
  retry_state = if exhausted d task then failed else retry_scheduled

  abbrev pub error_state : TaskError → TaskState
  error_state e = if is_non_retryable e then failed else retry_state

  abbrev pub final_state : TaskState → Result TaskError (List String × Db) → TaskState
  final_state state (ok checkpointed) = state
  final_state state (raise e) = error_state e

  abbrev pub settled_state :
      (fresh_id : String) → Db → Result TaskError ExecutionOutcome → TaskState
  settled_state fresh_id db (raise e) = error_state e
  settled_state fresh_id db (ok outcome) =
      if outcome.state == retry_scheduled
      then retry_state
      else final_state outcome.state
          (add_checkpoint d task outcome fresh_id outcome.human_action db)

module _ (d : Dispatcher) (task : ClaimedTask) (later : ℕ) (db : Db) (row : WorkflowTaskRow)
    (found : find row_id task.task_id db.tasks ≡ some row) (live : row.state ≡ running)
    (pos : 1 ≤ d.settings.worker_retry_seconds) where
  settle_error-Leaves :
      (e : TaskError) → Leaves task.task_id (error_state d task e) (settle_error d task e later db)
  unfolding settle_error is_allowed
  settle_error-Leaves e = elim (Bool-cases (is_non_retryable e)) [
    | inl fatal ↦
        rw (fatal, settle_error)
          (finish-Leaves task.task_id db.tasks row found live db db failed _ d.worker_name
            (error_name e ∷ "retryable:false" ∷ []) later refl)
    | inr other ↦ elim (Bool-cases (exhausted d task)) [
      | inl full ↦
          rw (other, full, settle_error)
            (finish-Leaves task.task_id db.tasks row found live db db failed _ d.worker_name
              (error_name e ∷ []) later refl)
      | inr more ↦
          rw (other, more, settle_error)
            (retry-Leaves task.task_id db.tasks row found live db db d.worker_name _ _
              (error_name e ∷ []) d.retry_priority later
              (retry_delay-bounds d.settings.worker_retry_seconds task.attempt_number pos).0)
    ]
  ]

  settle_retry-Leaves :
      (outcome : ExecutionOutcome)
      → Leaves task.task_id (retry_state d task) (settle_retry d task outcome later db)
  unfolding settle_retry is_allowed
  settle_retry-Leaves outcome = elim (Bool-cases (exhausted d task)) [
    | inl full ↦
        rw (full, settle_retry)
          (finish-Leaves task.task_id db.tasks row found live db db failed _ d.worker_name
            outcome.evidence later refl)
    | inr more ↦
        rw (more, settle_retry)
          (retry-Leaves task.task_id db.tasks row found live db db d.worker_name outcome.reason _
            outcome.evidence d.retry_priority later
            (retry_delay-bounds d.settings.worker_retry_seconds task.attempt_number pos).0)
  ]

  add_checkpoint-tasks :
      (outcome : ExecutionOutcome) (fresh_id : String) (action : Option HumanActionRequest)
      (evidence : List String) (db' : Db)
      → add_checkpoint d task outcome fresh_id action db ≡ ok (evidence, db')
      → db'.tasks ≡ db.tasks
  unfolding add_checkpoint
  add_checkpoint-tasks outcome fresh_id none evidence db' e = ground arith
  add_checkpoint-tasks outcome fresh_id (some action) evidence db' e = ground arith

  as_task_error-ok :
      {state : TaskState} {r : Result QueueError Db}
      → Leaves task.task_id state r
      → Leaves task.task_id state (or_except d task later db (as_task_error r))
  unfolding as_task_error
  as_task_error-ok (db', e, row', at_row, is_state) = (db', rw e refl, row', at_row, is_state)

  settle_final-Leaves :
      d.on_claim_completed ≡ none
      → (outcome : ExecutionOutcome) (fresh_id : String) → is_allowed running outcome.state ≡ true
      → (r : Result TaskError (List String × Db))
      → add_checkpoint d task outcome fresh_id outcome.human_action db ≡ r
      → Leaves task.task_id
          (final_state d task outcome.state r)
          (or_except d task later db (settle_final d task outcome fresh_id later db))
  unfolding settle_final as_task_error
  settle_final-Leaves no_hook outcome fresh_id allowed (ok (evidence, db')) e =
      let same = add_checkpoint-tasks outcome fresh_id outcome.human_action evidence db' e in
      let (db'', wrote, row', at_row, is_state) =
        finish-Leaves task.task_id db'.tasks row (rw same found) live db db' outcome.state
          outcome.reason d.worker_name evidence later allowed in
      (db'', rw (e, settle_final, wrote, no_hook) refl, row', at_row, is_state)
  settle_final-Leaves no_hook outcome fresh_id allowed (raise error) e =
      rw (e, settle_final) (settle_error-Leaves error)

  settle-Leaves :
      d.on_claim_completed ≡ none
      → (outcome : ExecutionOutcome) (fresh_id : String) → is_allowed running outcome.state ≡ true
      → Leaves task.task_id
          (settled_state d task fresh_id db (ok outcome))
          (or_except d task later db (settle d task outcome fresh_id later db))
  unfolding settle
  settle-Leaves no_hook outcome fresh_id allowed =
      elim (Bool-cases (outcome.state == retry_scheduled)) [
        | inl again ↦ rw (again, settle) (as_task_error-ok (settle_retry-Leaves outcome))
        | inr final ↦
            rw (final, settle) (settle_final-Leaves no_hook outcome fresh_id allowed _ refl)
      ]

-- The handler raised, or returned an outcome whose state a running task may enter.
abbrev pub IsProper : Result TaskError ExecutionOutcome → Type 0
IsProper (raise e) = Unit
IsProper (ok outcome) = is_allowed running outcome.state ≡ true

settle_reply-Leaves :
    (d : Dispatcher) (task : ClaimedTask) (later : ℕ) (db : Db) (row : WorkflowTaskRow)
    (fresh_id : String) (reply : Result TaskError ExecutionOutcome)
    → find row_id task.task_id db.tasks ≡ some row
    → row.state ≡ running
    → 1 ≤ d.settings.worker_retry_seconds
    → d.on_claim_completed ≡ none
    → IsProper reply
    → Leaves task.task_id
        (settled_state d task fresh_id db reply)
        (or_except d task later db (settle_reply d task fresh_id later reply db))
settle_reply-Leaves d task later db row fresh_id (ok outcome) found live pos no_hook proper =
    settle-Leaves d task later db row found live pos no_hook outcome fresh_id proper
settle_reply-Leaves d task later db row fresh_id (raise e) found live pos no_hook proper =
    settle_error-Leaves d task later db row found live pos e

-- Without a completion hook, with a positive base delay, and when the claimed row is still RUNNING
-- after the handler and the handler raised or returned a state that a RUNNING task may enter: the
-- `try` of run_once and its `except` raise nothing and leave the row in the state that the reply
-- asks for, which for a retry or an error is RETRY_SCHEDULED while attempts are left, else FAILED,
-- and FAILED for an error that is not retryable.
pub execute-settled_state :
    (d : Dispatcher) (task : ClaimedTask) (fresh_id : String) (later : ℕ) (db : Db)
    (row : WorkflowTaskRow)
    → d.on_claim_completed ≡ none
    → 1 ≤ d.settings.worker_retry_seconds
    → IsProper (run_handler d task db).0
    → find row_id task.task_id (run_handler d task db).1.tasks ≡ some row
    → row.state ≡ running
    → Leaves task.task_id
        (settled_state d task fresh_id (run_handler d task db).1 (run_handler d task db).0)
        (execute d task fresh_id later db).0
unfolding execute
execute-settled_state d task fresh_id later db row no_hook pos proper found live =
    settle_reply-Leaves d task later (run_handler d task db).1 row fresh_id
      (run_handler d task db).0 found live pos no_hook proper
