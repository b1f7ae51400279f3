-- ===== src/Queue/Recovery.antt =====
-- storage/task_repository.py: recover_stale_running_tasks and interrupt_stale_running_tasks.
-- `stale_before` is the evidence text that is made of the formatted cutoff.
pub mod Cases
use job_searching_assistant.Prelude.{
  ℕ, suc, ◌+◌, Bool, true, false, ◌&&◌, Option, some, none, List, [], ◌∷◌, ◌++◌, String, ltb, leb,
  ◌==◌, string_eq, if◌then◌else◌, Result, ok, raise, ◌>>=◌,
}
use job_searching_assistant.Task.{TaskState, scheduled, running, failed, interrupted, state_eq}
use job_searching_assistant.Queue.Rows.{
  WorkflowTaskRow, Table, QueueError, to_domain, row_transition,
}

-- The loop `for row in rows` over the rows of a query: each is changed in place. The number of the
-- rows comes with it. The first exception ends the loop.
unfoldable pub for_rows :
    (WorkflowTaskRow → Bool)
    → (WorkflowTaskRow → Result QueueError WorkflowTaskRow)
    → Table
    → Result QueueError (ℕ × Table)
for_rows selected change [] = ok (0, [])
for_rows selected change (row ∷ rows) =
    let rest = for_rows selected change rows in
    if selected row
    then (change row >>= λ row'. rest >>= λ (n, rows'). ok (suc n, row' ∷ rows'))
    else (rest >>= λ (n, rows'). ok (n, row ∷ rows'))

-- The `where` of both queries.
unfoldable pub is_stale : (cutoff : ℕ) (queue_name : Option String) → WorkflowTaskRow → Bool
is_stale cutoff none row = row.state == running && ltb row.updated_at cutoff
is_stale cutoff (some queue_name) row =
    row.state == running && ltb row.updated_at cutoff && row.queue_name == queue_name

module _ (stale_before : ℕ → String) (cutoff : ℕ) (recovery_worker : String) where
  -- The body of the recovery loop, for a task whose attempts are used up and for any other.
  unfoldable pub fail_row : (now : ℕ) → WorkflowTaskRow → Result QueueError WorkflowTaskRow
  unfolding row_transition to_domain
  fail_row now row = do
    (task, entry) ←
        row_transition (to_domain row) failed "stale task exhausted bounded retry attempts"
          recovery_worker (stale_before cutoff ∷ []) now
    ok (record row {
      state = task.state;
      updated_at = now;
      transitions = row.transitions ++ entry ∷ [];
    })

  unfoldable pub requeue_row : (now : ℕ) → WorkflowTaskRow → Result QueueError WorkflowTaskRow
  unfolding row_transition to_domain
  requeue_row now row = do
    (task, first) ←
        row_transition (to_domain row) interrupted
          "stale running task recovered after worker interruption" recovery_worker
          (stale_before cutoff ∷ []) now
    (task', second) ←
        row_transition task scheduled "recovered task returned to its durable queue" recovery_worker
          (stale_before cutoff ∷ []) now
    ok (record row {
      state = task'.state;
      scheduled_for = now;
      updated_at = now;
      transitions = (row.transitions ++ first ∷ []) ++ second ∷ [];
    })

  unfoldable pub recover_row :
      (max_attempts now : ℕ) → WorkflowTaskRow → Result QueueError WorkflowTaskRow
  unfolding fail_row requeue_row
  recover_row max_attempts now row =
      if leb max_attempts row.attempt_number then fail_row now row else requeue_row now row

  -- SqlTaskRepository.recover_stale_running_tasks
  unfoldable pub recover_stale_running_tasks :
      (queue_name : String) (max_attempts now : ℕ) → Table → Result QueueError (ℕ × Table)
  unfolding for_rows is_stale recover_row
  recover_stale_running_tasks queue_name max_attempts now rows =
      for_rows (is_stale cutoff (some queue_name)) (recover_row max_attempts now) rows

  -- The body of the other loop.
  unfoldable pub interrupt_row : (now : ℕ) → WorkflowTaskRow → Result QueueError WorkflowTaskRow
  unfolding row_transition to_domain
  interrupt_row now row = do
    (task, entry) ←
        row_transition (to_domain row) interrupted
          "stale running task recovered after worker interruption" recovery_worker
          (stale_before cutoff ∷ []) now
    ok (record row {
      state = task.state;
      updated_at = now;
      transitions = row.transitions ++ entry ∷ [];
    })

  -- SqlTaskRepository.interrupt_stale_running_tasks
  unfoldable pub interrupt_stale_running_tasks :
      (queue_name : Option String) (now : ℕ) → Table → Result QueueError (ℕ × Table)
  unfolding for_rows is_stale interrupt_row
  interrupt_stale_running_tasks queue_name now rows =
      for_rows (is_stale cutoff queue_name) (interrupt_row now) rows
