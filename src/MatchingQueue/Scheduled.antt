-- ===== src/MatchingQueue/Scheduled.antt =====
-- MatchingJobService.schedule: what it returns.
use job_searching_assistant.Prelude.{
  ℕ, ◌≡◌, ◌⊎◌, Bool, true, false, some, none, List, [], ◌∷◌, String, string_eq, nat_eq, list_eq,
}
use job_searching_assistant.Prelude.Table.{find}
use job_searching_assistant.Task.{pending, scheduled, completed, state_eq, WorkflowTask, entry_for}
use job_searching_assistant.Queue.Rows.{WorkflowTaskRow, Table, row_key}
use job_searching_assistant.Queue.Store.{new_row, saved_row}
use job_searching_assistant.MatchingQueue.{is_active}
use job_searching_assistant.MatchingQueue.Schedule.{JobDb}

-- The row is the table's row of the key, and it waits for a worker.
abbrev pub IsQueued : (key : List ℕ) → WorkflowTaskRow → JobDb → Type 0
IsQueued key row db = (find row_key key db.tasks ≡ some row) × (is_active row.state ≡ true)

-- The task that `schedule` saves.
abbrev queued_task : (key : List ℕ) (now : ℕ) → WorkflowTask
queued_task key now = record {
  idempotency_key = key;
  state = scheduled;
  attempt_number = 0;
  transitions =
      entry_for pending 0 scheduled "matching v2 calculation requested" "matching-scheduler" [] now
      ∷ [];
}

-- The task that `get_or_create` makes.
abbrev fresh_task : (key : List ℕ) → WorkflowTask
fresh_task key = record {
  idempotency_key = key;
  state = pending;
  attempt_number = 0;
  transitions = [];
}

module _ (fresh_id : String) (key : List ℕ) (application_id : String) (priority : ℕ)
    (payload : String) (now : ℕ) (rows : Table) (free : find row_key key rows ≡ none) where
  abbrev created_row : WorkflowTaskRow
  created_row = new_row fresh_id key (some application_id) "matching" priority payload now

  -- The row that is saved.
  abbrev queued_row : WorkflowTaskRow
  queued_row = saved_row (queued_task key now) now created_row

-- What `schedule` answers: the key's row, which waits or runs, or a completed one.
abbrev pub IsAnswer : (force : Bool) (key : List ℕ) → JobDb → WorkflowTaskRow → JobDb → Type 0
IsAnswer force key db row db' =
    IsQueued key row db'
    ⊎ ((force ≡ false)
        × (row.state ≡ completed)
        × (find row_key key db.tasks ≡ some row)
        × (db' ≡ db))
