-- ===== src/Queue/Store.antt =====
-- storage/task_repository.py: get_or_create and save. `fresh_id` is the generated primary key.
use job_searching_assistant.Prelude.{
  ℕ, false, ◌&&◌, Option, some, none, List, [], ◌∷◌, ◌++◌, String, ◌==◌, nat_eq, list_eq,
  if◌then◌else◌, length,
}
use job_searching_assistant.Prelude.{drop}
use job_searching_assistant.Prelude.Table.{find, put}
use job_searching_assistant.Task.{pending, state_eq, WorkflowTask}
use job_searching_assistant.Queue.Rows.{WorkflowTaskRow, Table, row_key, to_domain}

-- A new row with its column defaults.
unfoldable pub new_row :
    (id : String) (key : List ℕ) (application_id : Option String) (queue_name : String)
    (priority : ℕ) (payload : String) (now : ℕ)
    → WorkflowTaskRow
new_row id key application_id queue_name priority payload now = record {
  id = id;
  application_id = application_id;
  idempotency_key = key;
  queue_name = queue_name;
  task_payload = payload;
  state = pending;
  attempt_number = 0;
  priority = priority;
  scheduled_for = now;
  refresh_requested = false;
  created_at = now;
  updated_at = now;
  transitions = [];
}

-- SqlTaskRepository.get_or_create
unfoldable pub get_or_create :
    (fresh_id : String) (key : List ℕ) (application_id : Option String) (queue_name : String)
    (priority : ℕ) (payload : String) (now : ℕ)
    → Table
    → WorkflowTask × Table
unfolding to_domain new_row
get_or_create fresh_id key application_id queue_name priority payload now rows =
    elim (find row_key key rows) [
      | some row ↦ (to_domain row, rows)
      | none ↦
          let row = new_row fresh_id key application_id queue_name priority payload now in
          (to_domain row, rows ++ row ∷ [])
    ]

-- What `save` writes to the row that it found or added. The row counts as updated when a column
-- of its own changes.
unfoldable pub saved_row : WorkflowTask → (now : ℕ) → WorkflowTaskRow → WorkflowTaskRow
saved_row task now row = record row {
  state = task.state;
  attempt_number = task.attempt_number;
  updated_at =
      if row.state == task.state && row.attempt_number == task.attempt_number
      then row.updated_at
      else now;
  transitions = row.transitions ++ drop (length row.transitions) task.transitions;
}

-- SqlTaskRepository.save
unfoldable pub save :
    (fresh_id default_queue default_payload : String) → WorkflowTask → (now : ℕ) → Table → Table
unfolding saved_row new_row
save fresh_id default_queue default_payload task now rows =
    elim (find row_key task.idempotency_key rows) [
      | some row ↦ put row_key (saved_row task now row) rows
      | none ↦
          let row =
            new_row fresh_id task.idempotency_key none default_queue 0 default_payload now in
          rows ++ saved_row task now row ∷ []
    ]
