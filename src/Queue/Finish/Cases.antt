-- ===== src/Queue/Finish/Cases.antt =====
-- What finish_claim, reschedule_claim and retry_claim do, by whether the row exists and may change.
use job_searching_assistant.Prelude.{
  ℕ, ◌+◌, ◌≡◌, ◌<◌, Option, some, none, List, [], ◌∷◌, ◌++◌, String, arith, string_eq, ok, raise,
  if◌then◌else◌,
}
use job_searching_assistant.Prelude.Table.{find, put}
use job_searching_assistant.Task.{
  TaskState, scheduled, retry_scheduled, interrupted, entry_for, transition, is_allowed,
}
use job_searching_assistant.Queue.Rows.{
  WorkflowTaskRow, Table, row_id, not_found, bad_delay, invalid_transition,
}
use job_searching_assistant.Queue.Finish.{finish_claim, priority_or, reschedule_claim, retry_claim}

-- The row that finish_claim writes.
abbrev pub finished_row :
    TaskState
    → (reason worker : String) (evidence : List String) (now : ℕ) → WorkflowTaskRow
    → WorkflowTaskRow
finished_row to reason worker evidence now row = record row {
  state = to;
  updated_at = now;
  transitions =
      row.transitions ++ entry_for row.state row.attempt_number to reason worker evidence now ∷ [];
}

-- finish_claim on a row that exists.
pub finish_claim-found :
    (task_id : String) (to : TaskState) (reason worker : String) (evidence : List String) (now : ℕ)
    (rows : Table) (row : WorkflowTaskRow)
    → find row_id task_id rows ≡ some row
    → finish_claim task_id to reason worker evidence now rows ≡ (
        if is_allowed row.state to
        then ok (put row_id (finished_row to reason worker evidence now row) rows)
        else raise (invalid_transition (record { from = row.state; to = to })))
unfolding finish_claim transition
finish_claim-found task_id to reason worker evidence now rows row found = ground arith

pub finish_claim-missing :
    (task_id : String) (to : TaskState) (reason worker : String) (evidence : List String) (now : ℕ)
    (rows : Table)
    → find row_id task_id rows ≡ none
    → finish_claim task_id to reason worker evidence now rows ≡ raise not_found
unfolding finish_claim
finish_claim-missing task_id to reason worker evidence now rows absent = ground arith

-- The row that reschedule_claim writes.
abbrev pub rescheduled_row :
    (worker reason : String) (delay now : ℕ) → WorkflowTaskRow → WorkflowTaskRow
rescheduled_row worker reason delay now row = record row {
  state = scheduled;
  scheduled_for = now + delay;
  updated_at = now;
  transitions =
      (row.transitions
        ++ entry_for row.state row.attempt_number interrupted reason worker [] now ∷ [])
      ++ entry_for interrupted row.attempt_number scheduled "task rescheduled after lease conflict"
          worker [] now
        ∷ [];
}

pub reschedule_claim-found :
    (task_id worker reason : String) (delay now : ℕ) (rows : Table) (row : WorkflowTaskRow)
    → find row_id task_id rows ≡ some row
    → 0 < delay
    → reschedule_claim task_id worker reason delay now rows ≡ (
        if is_allowed row.state interrupted
        then ok (put row_id (rescheduled_row worker reason delay now row) rows)
        else raise (invalid_transition (record { from = row.state; to = interrupted })))
unfolding reschedule_claim transition
reschedule_claim-found task_id worker reason delay now rows row found pos = ground arith

pub reschedule_claim-missing :
    (task_id worker reason : String) (delay now : ℕ) (rows : Table)
    → find row_id task_id rows ≡ none
    → 0 < delay
    → reschedule_claim task_id worker reason delay now rows ≡ raise not_found
unfolding reschedule_claim
reschedule_claim-missing task_id worker reason delay now rows absent pos = ground arith

-- The row that retry_claim writes.
abbrev pub retried_row :
    (worker reason : String) (delay : ℕ) (evidence : List String) (priority : Option ℕ) (now : ℕ)
    → WorkflowTaskRow
    → WorkflowTaskRow
retried_row worker reason delay evidence priority now row = record row {
  state = retry_scheduled;
  priority = priority_or priority row.priority;
  scheduled_for = now + delay;
  updated_at = now;
  transitions =
      row.transitions
      ++ entry_for row.state row.attempt_number retry_scheduled reason worker evidence now ∷ [];
}

pub retry_claim-found :
    (task_id worker reason : String) (delay : ℕ) (evidence : List String) (priority : Option ℕ)
    (now : ℕ) (rows : Table) (row : WorkflowTaskRow)
    → find row_id task_id rows ≡ some row
    → 0 < delay
    → retry_claim task_id worker reason delay evidence priority now rows ≡ (
        if is_allowed row.state retry_scheduled
        then ok (put row_id (retried_row worker reason delay evidence priority now row) rows)
        else raise (invalid_transition (record { from = row.state; to = retry_scheduled })))
unfolding retry_claim transition
retry_claim-found task_id worker reason delay evidence priority now rows row found pos =
    ground arith

pub retry_claim-missing :
    (task_id worker reason : String) (delay : ℕ) (evidence : List String) (priority : Option ℕ)
    (now : ℕ) (rows : Table)
    → find row_id task_id rows ≡ none
    → 0 < delay
    → retry_claim task_id worker reason delay evidence priority now rows ≡ raise not_found
unfolding retry_claim
retry_claim-missing task_id worker reason delay evidence priority now rows absent pos = ground arith

pub reschedule_claim-no_delay :
    (task_id worker reason : String) (delay now : ℕ) (rows : Table)
    → delay ≡ 0
    → reschedule_claim task_id worker reason delay now rows ≡ raise bad_delay
unfolding reschedule_claim
reschedule_claim-no_delay task_id worker reason delay now rows z = ground arith

pub retry_claim-no_delay :
    (task_id worker reason : String) (delay : ℕ) (evidence : List String) (priority : Option ℕ)
    (now : ℕ) (rows : Table)
    → delay ≡ 0
    → retry_claim task_id worker reason delay evidence priority now rows ≡ raise bad_delay
unfolding retry_claim
retry_claim-no_delay task_id worker reason delay evidence priority now rows z = ground arith
