-- ===== src/MatchingQueue.antt =====
-- The matching queue's administration: matching/queue_admin.py (clear_matching_queue),
-- matching/queue_repair.py (repair_legacy_matching_queue), workers/matching_worker.py
-- (_handle_refresh_requested) and matching/jobs.py (MatchingJobService.schedule).
pub mod Clear
pub mod Repair
pub mod Migrated
pub mod Repaired
pub mod Refresh
pub mod Schedule
pub mod Keys
pub mod Scheduled
mod Examples
use job_searching_assistant.Prelude.{
  ℕ, ◌≡◌, Bool, Option, some, none, List, [], ◌∷◌, ◌++◌, String, ◌==◌, ◌&&◌, elem, string_eq,
  if◌then◌else◌, Result, ok, raise, if◌then◌else◌,
}
use job_searching_assistant.Prelude.Table.{find, put}
use job_searching_assistant.Task.{
  TaskState, pending, scheduled, running, retry_scheduled, TaskTransition, InvalidTaskTransition,
  is_allowed, state_eq,
}
use job_searching_assistant.Queue.Rows.{WorkflowTaskRow}

-- The columns of ApplicationMatchResultRow that the queue's administration reads or writes.
pub record ApplicationMatchResultRow : Type 0 where
  pub application_id : String
  pub cv_file_id : Option String
  pub status : String
  pub failure_reason : Option String
  pub fallback_reason : Option String

abbrev pub Aggregates : Type 0
Aggregates = List ApplicationMatchResultRow

abbrev pub aggregate_id : ApplicationMatchResultRow → String
aggregate_id r = r.application_id

-- _ACTIVE_STATES
unfoldable pub is_active : TaskState → Bool
is_active state = elem state (pending ∷ scheduled ∷ retry_scheduled ∷ running ∷ [])

-- The entry of the two `_transition` functions: the attempt number stays as it is.
abbrev pub admin_entry :
    WorkflowTaskRow → TaskState → (reason worker evidence : String) (now : ℕ) → TaskTransition
admin_entry row to reason worker evidence now = record {
  previous_state = row.state;
  new_state = to;
  reason = reason;
  worker = worker;
  attempt_number = row.attempt_number;
  evidence = evidence ∷ [];
  occurred_at = now;
}

-- `_transition` of both files: they differ in the worker, the evidence and the exception's class.
unfoldable pub admin_transition :
    (worker evidence : String)
    → WorkflowTaskRow
    → TaskState
    → (reason : String) (now : ℕ) → Result InvalidTaskTransition WorkflowTaskRow
unfolding is_allowed
admin_transition worker evidence row to reason now =
    if is_allowed row.state to
    then ok (record row {
      state = to;
      updated_at = now;
      transitions = row.transitions ++ admin_entry row to reason worker evidence now ∷ [];
    })
    else raise (record { from = row.state; to = to })

-- A pending aggregate of the task's application fails.
unfoldable pub fail_pending : (reason : String) → Option String → Aggregates → Aggregates
fail_pending reason none aggregates = aggregates
fail_pending reason (some application_id) aggregates =
    elim (find aggregate_id application_id aggregates) [
      | none ↦ aggregates
      | some aggregate ↦
          if aggregate.status == "pending"
          then put aggregate_id
              (record aggregate { status = "failed"; failure_reason = some reason }) aggregates
          else aggregates
    ]
