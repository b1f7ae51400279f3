-- ===== src/MatchingQueue/Clear.antt =====
-- matching/queue_admin.py: clear_matching_queue.
use job_searching_assistant.Task.{entry_for}
use job_searching_assistant.Prelude.{
  ℕ, ◌+◌, ◌≡◌, refl, inl, inr, Bool, true, false, ◌&&◌, not, [], ◌∷◌, ◌++◌, arith, ◌==◌, string_eq,
  if◌then◌else◌, Result, ok, raise, All, All-append, Pairwise, Pairwise-append, count_by,
  Bool-cases,
}
use job_searching_assistant.Task.{
  TaskState, pending, scheduled, retry_scheduled, running, interrupted, cancelled, state_eq,
  is_allowed, InvalidTaskTransition,
}
use job_searching_assistant.Task.Trail.{append-IsAudited}
use job_searching_assistant.Queue.Rows.{WorkflowTaskRow, Table, RowAudited, TableAudited}
use job_searching_assistant.Queue.Audit.{next_attempt_other}
use job_searching_assistant.MatchingQueue.{
  Aggregates, is_active, admin_transition, admin_entry, fail_pending,
}

-- The report, with the table and the aggregates as they are at the commit.
pub record Cleared : Type 0 where
  pub cancelled : ℕ
  pub interrupted : ℕ
  pub tasks : Table
  pub aggregates : Aggregates

-- The `where` of the query.
unfoldable pub is_backlog : WorkflowTaskRow → Bool
unfolding is_active
is_backlog row = row.queue_name == "matching" && is_active row.state

abbrev pub clear_target : WorkflowTaskRow → TaskState
clear_target row = if row.state == running then interrupted else cancelled

-- One round of the loop on a row of the query. A transition that is not allowed skips the row.
abbrev pub clear_step :
    WorkflowTaskRow → Aggregates → Result InvalidTaskTransition WorkflowTaskRow → Cleared
clear_step row aggregates (raise e) = record {
  cancelled = 0;
  interrupted = 0;
  tasks = row ∷ [];
  aggregates = aggregates;
}
clear_step row aggregates (ok row') =
    if row.state == running
    then record { cancelled = 0; interrupted = 1; tasks = row' ∷ []; aggregates = aggregates }
    else record {
      cancelled = 1;
      interrupted = 0;
      tasks = row' ∷ [];
      aggregates = fail_pending "cancelled by matching queue clear" row.application_id aggregates;
    }

unfoldable pub clear_row : (now : ℕ) → WorkflowTaskRow → Aggregates → Cleared
unfolding is_backlog admin_transition fail_pending
clear_row now row aggregates =
    if is_backlog row
    then clear_step row aggregates (
        admin_transition "matching-queue-admin" "matching-queue:clear" row (clear_target row)
          "matching queue cleared by operator" now)
    else record { cancelled = 0; interrupted = 0; tasks = row ∷ []; aggregates = aggregates }

-- clear_matching_queue, in the table's order.
unfoldable pub clear_matching_queue : (now : ℕ) → Table → Aggregates → Cleared
unfolding clear_row
clear_matching_queue now [] aggregates = record {
  cancelled = 0;
  interrupted = 0;
  tasks = [];
  aggregates = aggregates;
}
clear_matching_queue now (row ∷ rows) aggregates =
    let one = clear_row now row aggregates in
    let rest = clear_matching_queue now rows one.aggregates in
    record {
      cancelled = one.cancelled + rest.cancelled;
      interrupted = one.interrupted + rest.interrupted;
      tasks = one.tasks ++ rest.tasks;
      aggregates = rest.aggregates;
    }

abbrev pub is_queued : WorkflowTaskRow → Bool
is_queued row = is_backlog row && not (row.state == running)

abbrev pub is_running_backlog : WorkflowTaskRow → Bool
is_running_backlog row = is_backlog row && row.state == running

-- The row that the loop writes.
abbrev pub cleared_row : (now : ℕ) → WorkflowTaskRow → WorkflowTaskRow
cleared_row now row = record row {
  state = clear_target row;
  updated_at = now;
  transitions =
      row.transitions
      ++ admin_entry row (clear_target row) "matching queue cleared by operator"
          "matching-queue-admin" "matching-queue:clear" now
        ∷ [];
}

clear_target-is_allowed :
    (row : WorkflowTaskRow) → is_backlog row ≡ true → is_allowed row.state (clear_target row) ≡ true
unfolding is_backlog is_active is_allowed
clear_target-is_allowed row h = ground arith

cleared_row-RowAudited :
    (now : ℕ) (row : WorkflowTaskRow)
    → is_backlog row ≡ true
    → RowAudited row
    → RowAudited (cleared_row now row)
unfolding entry_for
cleared_row-RowAudited now row h a =
    rw (next_attempt_other (clear_target row) row.attempt_number (λ e. ground arith)) at (
      append-IsAudited row.state row.attempt_number row.transitions (clear_target row)
        "matching queue cleared by operator" "matching-queue-admin" ("matching-queue:clear" ∷ [])
        now (clear_target-is_allowed row h) a)

-- What clearing leaves of a row.
abbrev pub IsCleared : WorkflowTaskRow → Type 0
IsCleared row = (is_backlog row ≡ false) × RowAudited row

cleared_row-IsCleared :
    (now : ℕ) (row : WorkflowTaskRow)
    → is_backlog row ≡ true
    → RowAudited row
    → IsCleared (cleared_row now row)
unfolding is_backlog is_active
cleared_row-IsCleared now row h a = (ground arith, cleared_row-RowAudited now row h a)

clear_row-backlog :
    (now : ℕ) (row : WorkflowTaskRow) (aggregates : Aggregates)
    → is_backlog row ≡ true
    → clear_row now row aggregates ≡ clear_step row aggregates (ok (cleared_row now row))
unfolding clear_row admin_transition
clear_row-backlog now row aggregates h =
    rw (h, clear_row, clear_target-is_allowed row h, admin_transition) refl

-- What one round counts and leaves.
abbrev IsStepOf : WorkflowTaskRow → Cleared → Type 0
IsStepOf row one =
    All IsCleared one.tasks
    × (one.cancelled ≡ count_by is_queued (row ∷ []))
    × (one.interrupted ≡ count_by is_running_backlog (row ∷ []))

clear_row-IsStepOf :
    (now : ℕ) (row : WorkflowTaskRow) (aggregates : Aggregates)
    → RowAudited row
    → IsStepOf row (clear_row now row aggregates)
clear_row-IsStepOf now row aggregates a = elim (Bool-cases (is_backlog row)) [
  | inr other ↦ unfold clear_row in rw (other, clear_row) (((other, a), tt), refl, refl)
  | inl hit ↦
      let c = cleared_row-IsCleared now row hit a in
      rw (clear_row-backlog now row aggregates hit) (elim (Bool-cases (row.state == running)) [
        | inl is_running ↦ rw is_running ((rw is_running at c, tt), rw hit refl, rw hit refl)
        | inr queued ↦ rw queued ((rw queued at c, tt), rw hit refl, rw hit refl)
      ])
]

-- The state that clearing the queue gives a task of it.
abbrev pub state_after_clear : TaskState → TaskState
state_after_clear running = interrupted
state_after_clear pending = cancelled
state_after_clear scheduled = cancelled
state_after_clear retry_scheduled = cancelled
state_after_clear state = state

-- A row before and after. Rows of other queues stay as they are.
abbrev pub IsClearedFrom : WorkflowTaskRow → WorkflowTaskRow → Type 0
IsClearedFrom row row' =
    (row'.id ≡ row.id)
    × ((row.queue_name == "matching") ≡ true → row'.state ≡ state_after_clear row.state)
    × ((row.queue_name == "matching") ≡ false → row' ≡ row)

cleared_row-IsClearedFrom :
    (now : ℕ) (row : WorkflowTaskRow)
    → is_backlog row ≡ true
    → IsClearedFrom row (cleared_row now row)
unfolding is_backlog is_active
cleared_row-IsClearedFrom now row h = (refl, λ e. ground arith, λ e. ground arith)

kept-IsClearedFrom : (row : WorkflowTaskRow) → is_backlog row ≡ false → IsClearedFrom row row
unfolding is_backlog is_active
kept-IsClearedFrom row h = (refl, λ e. ground arith, λ e. refl)

clear_row-IsClearedFrom :
    (now : ℕ) (row : WorkflowTaskRow) (aggregates : Aggregates)
    → Pairwise IsClearedFrom (row ∷ []) (clear_row now row aggregates).tasks
clear_row-IsClearedFrom now row aggregates = elim (Bool-cases (is_backlog row)) [
  | inr other ↦ unfold clear_row in rw (other, clear_row) (kept-IsClearedFrom row other, tt)
  | inl hit ↦
      let c = cleared_row-IsClearedFrom now row hit in
      rw (clear_row-backlog now row aggregates hit) (elim (Bool-cases (row.state == running)) [
        | inl is_running ↦ rw is_running (rw is_running at c, tt)
        | inr queued ↦ rw queued (rw queued at c, tt)
      ])
]

clear_matching_queue-IsClearedFrom :
    (now : ℕ) (rows : Table) (aggregates : Aggregates)
    → Pairwise IsClearedFrom rows (clear_matching_queue now rows aggregates).tasks
unfolding clear_matching_queue
clear_matching_queue-IsClearedFrom now [] aggregates = tt
clear_matching_queue-IsClearedFrom now (row ∷ rows) aggregates =
    let one = clear_row now row aggregates in
    Pairwise-append IsClearedFrom (row ∷ []) one.tasks rows _
      (clear_row-IsClearedFrom now row aggregates)
      (clear_matching_queue-IsClearedFrom now rows one.aggregates)

-- On audited rows clear_matching_queue keeps the rows and their order: in the matching queue it
-- cancels every task that is pending, scheduled or waits for a retry, interrupts every task that
-- runs and keeps the state of the others, and it changes no row of another queue. It reports the
-- numbers of both, and leaves audited rows of which none is active in the matching queue.
pub clear_matching_queue-IsCleared :
    (now : ℕ) (rows : Table) (aggregates : Aggregates)
    → TableAudited rows
    → All IsCleared (clear_matching_queue now rows aggregates).tasks
      × ((clear_matching_queue now rows aggregates).cancelled ≡ count_by is_queued rows)
      × ((clear_matching_queue now rows aggregates).interrupted ≡ count_by is_running_backlog rows)
      × Pairwise IsClearedFrom rows (clear_matching_queue now rows aggregates).tasks
unfolding clear_matching_queue
clear_matching_queue-IsCleared now [] aggregates a = (tt, refl, refl, tt)
clear_matching_queue-IsCleared now (row ∷ rows) aggregates (audited, a) =
    let one = clear_row now row aggregates in
    let (c, n, m) = clear_row-IsStepOf now row aggregates audited in
    let (c', n', m', _) = clear_matching_queue-IsCleared now rows one.aggregates a in
    (
      All-append IsCleared one.tasks (clear_matching_queue now rows one.aggregates).tasks c c',
      omega (arith, n, n'),
      omega (arith, m, m'),
      clear_matching_queue-IsClearedFrom now (row ∷ rows) aggregates,
    )
