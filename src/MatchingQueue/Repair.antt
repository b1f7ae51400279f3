-- ===== src/MatchingQueue/Repair.antt =====
-- matching/queue_repair.py: repair_legacy_matching_queue. Of legacy rows with the same creation time,
-- where the database is free, the model keeps the first in the table.
use job_searching_assistant.Prelude.{
  ℕ, ◌-◌, Bool, ◌&&◌, not, Option, some, none, List, [], ◌∷◌, String, ltb, ◌==◌, string_eq, nat_eq,
  list_eq, if◌then◌else◌, Result, ok, ◌>>=◌, count_by, filter_by, length, max, take,
}
use job_searching_assistant.Task.{
  TaskState, pending, scheduled, running, interrupted, cancelled, state_eq, InvalidTaskTransition,
}
use job_searching_assistant.Queue.Rows.{WorkflowTaskRow, Table}
use job_searching_assistant.MatchingQueue.{Aggregates, is_active, admin_transition, fail_pending}

pub record QueueRepairReport : Type 0 where
  pub apply : Bool
  pub active_legacy_tasks : ℕ
  pub kept_task_id : Option String
  pub migrated : ℕ
  pub cancelled : ℕ
  pub interrupted : ℕ

-- "matching-v2:"
abbrev pub legacy_prefix : List ℕ
legacy_prefix =
    b'm' ∷ b'a' ∷ b't' ∷ b'c' ∷ b'h' ∷ b'i' ∷ b'n' ∷ b'g' ∷ b'-' ∷ b'v' ∷ b'2' ∷ b':' ∷ []

-- The `where` of the query.
unfoldable pub is_legacy : WorkflowTaskRow → Bool
unfolding is_active
is_legacy row =
    row.queue_name == "dispatcher"
    && take (length legacy_prefix) row.idempotency_key == legacy_prefix
    && is_active row.state

-- `.order_by(created_at.desc())`, its first row.
unfoldable pub newest : List WorkflowTaskRow → Option WorkflowTaskRow
newest [] = none
newest (r ∷ rows) = elim (newest rows) [
  | none ↦ some r
  | some s ↦ if ltb r.created_at s.created_at then some s else some r
]

abbrev pub is_running : WorkflowTaskRow → Bool
is_running row = row.state == running

abbrev pub repair_transition :
    WorkflowTaskRow
    → TaskState
    → (reason : String) (now : ℕ) → Result InvalidTaskTransition WorkflowTaskRow
repair_transition = admin_transition "matching-queue-repair" "migration:dedicated-matching-queue"

-- The kept row moves to the matching queue.
abbrev pub migrated_row : (now : ℕ) → WorkflowTaskRow → WorkflowTaskRow
migrated_row now row = record row {
  queue_name = "matching";
  priority = max row.priority 100;
  scheduled_for = now;
  updated_at = now;
}

unfoldable pub migrate_row :
    (now : ℕ) → WorkflowTaskRow → Result InvalidTaskTransition WorkflowTaskRow
unfolding admin_transition
migrate_row now row =
    if row.state == running
    then (repair_transition row interrupted
          "active legacy claim interrupted during matching queue migration" now
        >>= λ row'.
            repair_transition row' scheduled "latest matching request migrated to dedicated queue"
              now
            >>= λ row''. ok (migrated_row now row''))
    else if row.state == pending
    then (repair_transition row scheduled "latest matching request migrated to dedicated queue" now
        >>= λ row'. ok (migrated_row now row'))
    else ok (migrated_row now row)

-- Any other legacy row is taken out of the queue.
unfoldable pub supersede_row :
    (now : ℕ)
    → WorkflowTaskRow
    → Aggregates
    → Result InvalidTaskTransition (WorkflowTaskRow × Aggregates)
unfolding admin_transition fail_pending
supersede_row now row aggregates =
    repair_transition row (if row.state == running then interrupted else cancelled)
      "legacy matching backlog superseded during dedicated queue migration" now
    >>= λ row'.
        ok (
          row',
          fail_pending "superseded during matching queue repair" row.application_id aggregates,
        )

unfoldable pub repair_row :
    (kept_id : String) (now : ℕ)
    → WorkflowTaskRow
    → Aggregates
    → Result InvalidTaskTransition (WorkflowTaskRow × Aggregates)
unfolding migrate_row supersede_row is_legacy
repair_row kept_id now row aggregates =
    if not (is_legacy row)
    then ok (row, aggregates)
    else if row.id == kept_id
    then (migrate_row now row >>= λ row'. ok (row', aggregates))
    else supersede_row now row aggregates

-- The loop, in the table's order.
unfoldable pub repair_rows :
    (kept_id : String) (now : ℕ)
    → Table
    → Aggregates
    → Result InvalidTaskTransition (Table × Aggregates)
unfolding repair_row
repair_rows kept_id now [] aggregates = ok ([], aggregates)
repair_rows kept_id now (row ∷ rows) aggregates = do
  (row', aggregates') ← repair_row kept_id now row aggregates
  (rows', aggregates'') ← repair_rows kept_id now rows aggregates'
  ok (row' ∷ rows', aggregates'')

-- The report: the rows after the first one are those that are not kept.
unfoldable pub repair_report :
    (apply : Bool) → List WorkflowTaskRow → Option WorkflowTaskRow → QueueRepairReport
repair_report apply legacy none = record {
  apply = apply;
  active_legacy_tasks = length legacy;
  kept_task_id = none;
  migrated = 0;
  cancelled = 0;
  interrupted = 0;
}
repair_report apply legacy (some kept) =
    let others = filter_by (λ r. not (r.id == kept.id)) legacy in
    record {
      apply = apply;
      active_legacy_tasks = length legacy;
      kept_task_id = some kept.id;
      migrated = 1;
      cancelled = length others - count_by is_running others;
      interrupted = count_by is_running others;
    }

abbrev pub repair_apply :
    Option WorkflowTaskRow
    → (now : ℕ) → Table
    → Aggregates
    → Result InvalidTaskTransition (Table × Aggregates)
repair_apply none now rows aggregates = ok (rows, aggregates)
repair_apply (some kept) now rows aggregates = repair_rows kept.id now rows aggregates

-- repair_legacy_matching_queue
unfoldable pub repair_legacy_matching_queue :
    (apply : Bool) (now : ℕ)
    → Table
    → Aggregates
    → Result InvalidTaskTransition (QueueRepairReport × Table × Aggregates)
unfolding newest is_legacy repair_report repair_rows
repair_legacy_matching_queue apply now rows aggregates =
    let legacy = filter_by is_legacy rows in
    let kept = newest legacy in
    let report = repair_report apply legacy kept in
    if not apply
    then ok (report, rows, aggregates)
    else (repair_apply kept now rows aggregates >>= λ (rows', aggregates').
        ok (report, rows', aggregates'))
