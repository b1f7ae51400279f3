-- ===== src/Queue/Claims.antt =====
-- storage/task_repository.py: claim_next and touch_claim. `locked` says which rows other
-- transactions hold locks on (`skip_locked`). Of rows that tie in the order by priority and
-- creation time, where the database is free, the model takes the first in the table.
use job_searching_assistant.Prelude.{
  ℕ, ◌+◌, Bool, true, false, ◌&&◌, ◌||◌, not, Option, some, none, List, [], ◌∷◌, ◌++◌, String, ltb,
  leb, ◌==◌, elem, string_eq, if◌then◌else◌, filter_by,
}
pub mod Order
pub mod Exclusive
use job_searching_assistant.Prelude.Table.{find, put}
use job_searching_assistant.Task.{scheduled, running, retry_scheduled, state_eq, TaskTransition}
use job_searching_assistant.Queue.Rows.{WorkflowTaskRow, Table, row_id}

pub record ClaimedTask : Type 0 where
  pub task_id : String
  pub application_id : Option String
  pub idempotency_key : List ℕ
  pub attempt_number : ℕ
  pub queue_name : String
  pub payload : String

-- The `where` of the claim's query.
unfoldable pub is_claimable : (queue_name : String) (now : ℕ) → WorkflowTaskRow → Bool
is_claimable queue_name now row =
    elem row.state (scheduled ∷ retry_scheduled ∷ [])
    && leb row.scheduled_for now
    && row.queue_name == queue_name

-- The `order_by`: a higher priority first, then the earlier row.
unfoldable pub comes_before : WorkflowTaskRow → WorkflowTaskRow → Bool
comes_before a b =
    ltb b.priority a.priority || not (ltb a.priority b.priority) && ltb a.created_at b.created_at

-- `.order_by(...).limit(1)`
unfoldable pub first_row : List WorkflowTaskRow → Option WorkflowTaskRow
first_row [] = none
first_row (r ∷ rows) = elim (first_row rows) [
  | none ↦ some r
  | some s ↦ if comes_before s r then some s else some r
]

-- The row that `claim_next` writes.
unfoldable pub claimed_row : (worker : String) (now : ℕ) → WorkflowTaskRow → WorkflowTaskRow
claimed_row worker now row =
    let attempt = row.attempt_number + 1 in
    let entry : TaskTransition = record {
      previous_state = row.state;
      new_state = running;
      reason = "task claimed from durable queue";
      worker = worker;
      attempt_number = attempt;
      evidence = [];
      occurred_at = now;
    } in
    record row {
      state = running;
      attempt_number = attempt;
      updated_at = now;
      transitions = row.transitions ++ entry ∷ [];
    }

unfoldable pub claim_of : WorkflowTaskRow → ClaimedTask
claim_of row = record {
  task_id = row.id;
  application_id = row.application_id;
  idempotency_key = row.idempotency_key;
  attempt_number = row.attempt_number;
  queue_name = row.queue_name;
  payload = row.task_payload;
}

-- SqlTaskRepository.claim_next
unfoldable pub claim_next :
    (locked : WorkflowTaskRow → Bool) (worker queue_name : String) (now : ℕ)
    → Table
    → Option ClaimedTask × Table
unfolding claim_of
claim_next locked worker queue_name now rows =
    elim (first_row (filter_by (λ r. is_claimable queue_name now r && not (locked r)) rows)) [
      | none ↦ (none, rows)
      | some row ↦
          let row' = claimed_row worker now row in (some (claim_of row'), put row_id row' rows)
    ]

-- SqlTaskRepository.touch_claim
unfoldable pub touch_claim : (task_id : String) (now : ℕ) → Table → Bool × Table
touch_claim task_id now rows = elim (find row_id task_id rows) [
  | none ↦ (false, rows)
  | some row ↦
      if row.state == running
      then (true, put row_id (record row { updated_at = now }) rows)
      else (false, rows)
]
