-- ===== src/Queue/Rows.antt =====
-- storage/tables.py, WorkflowTaskRow, and what every operation of storage/task_repository.py does
-- with it. The columns `id` and `application_id` hold opaque texts; a stored state is one of the
-- values of TaskState. `task_payload` is an opaque text too. A timestamp counts seconds.
use job_searching_assistant.Prelude.{ℕ, Bool, Option, List, String, All, Result, ok, raise}
use job_searching_assistant.Task.{
  TaskState, TaskTransition, WorkflowTask, InvalidTaskTransition, transition,
}
use job_searching_assistant.Task.Trail.{IsAudited}

pub record WorkflowTaskRow : Type 0 where
  pub id : String
  pub application_id : Option String
  pub idempotency_key : List ℕ
  pub queue_name : String
  pub task_payload : String
  pub state : TaskState
  pub attempt_number : ℕ
  -- The column is signed; the priorities that the code gives are constants from 0 to 100.
  pub priority : ℕ
  pub scheduled_for : ℕ
  pub refresh_requested : Bool
  pub created_at : ℕ
  pub updated_at : ℕ
  pub transitions : List TaskTransition

-- The exceptions that the repository's methods raise.
pub data QueueError : Type 0 where
  invalid_transition : InvalidTaskTransition → QueueError
  not_found : QueueError  -- LookupError
  bad_delay : QueueError  -- ValueError

abbrev pub Table : Type 0
Table = List WorkflowTaskRow

abbrev pub row_id : WorkflowTaskRow → String
row_id r = r.id

abbrev pub row_key : WorkflowTaskRow → List ℕ
row_key r = r.idempotency_key

-- SqlTaskRepository._to_domain. A TaskTransitionRow has the fields of a TaskTransition.
unfoldable pub to_domain : WorkflowTaskRow → WorkflowTask
to_domain row = record {
  idempotency_key = row.idempotency_key;
  state = row.state;
  attempt_number = row.attempt_number;
  transitions = row.transitions;
}

-- `task.transition(...)` on the domain copy of a row, whose InvalidTaskTransition passes on.
unfoldable pub row_transition :
    WorkflowTask
    → TaskState
    → (reason worker : String) (evidence : List String) (now : ℕ)
    → Result QueueError (WorkflowTask × TaskTransition)
row_transition task to reason worker evidence now =
    elim (transition task to reason worker evidence now) [
      | ok r ↦ ok r
      | raise e ↦ raise (invalid_transition e)
    ]

-- A row's state and attempt number are those that its audit trail leads to.
abbrev pub RowAudited : WorkflowTaskRow → Type 0
RowAudited r = IsAudited r.state r.attempt_number r.transitions

abbrev pub TableAudited : Table → Type 0
TableAudited rows = All RowAudited rows
