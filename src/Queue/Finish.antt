-- ===== src/Queue/Finish.antt =====
-- storage/task_repository.py: finish_claim, reschedule_claim and retry_claim. An exception leaves
-- the session without its commit, so the caller's table is then unchanged. `updated_at` is set by
-- the column's `onupdate` (storage/tables.py).
pub mod Cases
use job_searching_assistant.Prelude.{
  ℕ, ◌+◌, Option, some, none, List, [], ◌∷◌, ◌++◌, String, ltb, string_eq, Result, ok, raise, ◌>>=◌,
  ◌>>◌, raise_if, some_or,
}
use job_searching_assistant.Prelude.Table.{find, put}
use job_searching_assistant.Task.{TaskState, scheduled, retry_scheduled, interrupted}
use job_searching_assistant.Queue.Rows.{
  WorkflowTaskRow, Table, row_id, QueueError, not_found, bad_delay, to_domain, row_transition,
}

-- SqlTaskRepository.finish_claim
unfoldable pub finish_claim :
    (task_id : String) (new_state : TaskState) (reason worker : String) (evidence : List String)
    (now : ℕ)
    → Table
    → Result QueueError Table
unfolding row_transition to_domain
finish_claim task_id new_state reason worker evidence now rows = do
  row ← some_or (find row_id task_id rows) not_found
  (task, entry) ← row_transition (to_domain row) new_state reason worker evidence now
  let row' : WorkflowTaskRow = record row {
    state = new_state;
    updated_at = now;
    transitions = row.transitions ++ entry ∷ [];
  }
  ok (put row_id row' rows)

-- SqlTaskRepository.reschedule_claim
unfoldable pub reschedule_claim :
    (task_id worker reason : String) (delay_seconds now : ℕ) → Table → Result QueueError Table
unfolding row_transition to_domain
reschedule_claim task_id worker reason delay_seconds now rows = do
  raise_if (ltb delay_seconds 1) bad_delay
  row ← some_or (find row_id task_id rows) not_found
  (task, first) ← row_transition (to_domain row) interrupted reason worker [] now
  (task', second) ←
      row_transition task scheduled "task rescheduled after lease conflict" worker [] now
  let row' : WorkflowTaskRow = record row {
    state = scheduled;
    scheduled_for = now + delay_seconds;
    updated_at = now;
    transitions = (row.transitions ++ first ∷ []) ++ second ∷ [];
  }
  ok (put row_id row' rows)

abbrev pub priority_or : Option ℕ → ℕ → ℕ
priority_or none old = old
priority_or (some new) old = new

-- SqlTaskRepository.retry_claim
unfoldable pub retry_claim :
    (task_id worker reason : String) (delay_seconds : ℕ) (evidence : List String)
    (new_priority : Option ℕ) (now : ℕ)
    → Table
    → Result QueueError Table
unfolding row_transition to_domain
retry_claim task_id worker reason delay_seconds evidence new_priority now rows = do
  raise_if (ltb delay_seconds 1) bad_delay
  row ← some_or (find row_id task_id rows) not_found
  (task, entry) ← row_transition (to_domain row) retry_scheduled reason worker evidence now
  let row' : WorkflowTaskRow = record row {
    state = retry_scheduled;
    priority = priority_or new_priority row.priority;
    scheduled_for = now + delay_seconds;
    updated_at = now;
    transitions = row.transitions ++ entry ∷ [];
  }
  ok (put row_id row' rows)
