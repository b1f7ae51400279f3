-- ===== src/MatchingQueue/Refresh.antt =====
-- workers/matching_worker.py: _handle_refresh_requested, the hook that the matching worker's
-- dispatchers call when a claim is settled.
use job_searching_assistant.Prelude.{
  ℕ, ◌≤◌, ◌≡◌, ◌≢◌, refl, sym, ◌∙◌, subst, true, false, Option, some, none, [], ◌∷◌, String, arith,
  elem, string_eq, if◌then◌else◌, ok,
}
use job_searching_assistant.Prelude.Table.{find, put, find-key, find-put_self, find-All}
use job_searching_assistant.Task.{
  TaskState, scheduled, completed, failed, interrupted, state_eq, is_allowed,
}
use job_searching_assistant.Queue.Rows.{WorkflowTaskRow, Table, row_id, RowAudited, TableAudited}
use job_searching_assistant.Queue.Claims.{is_claimable, ClaimedTask}
use job_searching_assistant.Queue.Finish.Cases.{finish_claim-found}
use job_searching_assistant.Dispatcher.{Db, ExecutionOutcome, ignore_invalid}
use job_searching_assistant.Dispatcher.RunOnce.{
  Dispatcher, settle_final, add_checkpoint, on_tasks, as_task_error,
}

-- The row that goes back to the queue.
abbrev pub refreshed_row : (now : ℕ) → WorkflowTaskRow → WorkflowTaskRow
refreshed_row now row = record row {
  refresh_requested = false;
  state = scheduled;
  scheduled_for = now;
  updated_at = now;
}

-- `if row is None or not row.refresh_requested`
abbrev pub refresh_found : (now : ℕ) → Option WorkflowTaskRow → Table → Table
refresh_found now none rows = rows
refresh_found now (some row) rows =
    if row.refresh_requested then put row_id (refreshed_row now row) rows else rows

-- _handle_refresh_requested
unfoldable pub handle_refresh_requested : (task_id : String) → TaskState → (now : ℕ) → Table → Table
handle_refresh_requested task_id new_state now rows =
    if elem new_state (completed ∷ failed ∷ [])
    then refresh_found now (find row_id task_id rows) rows
    else rows

-- `_on_complete` of run_worker, as the dispatcher's hook.
abbrev pub on_complete : (now : ℕ) → String → TaskState → Db → Db
on_complete now task_id new_state db = record db {
  tasks = handle_refresh_requested task_id new_state now db.tasks;
}

module _ (task_id : String) (new_state : TaskState) (now : ℕ) (rows : Table) (row : WorkflowTaskRow)
    (ended : elem new_state (completed ∷ failed ∷ []) ≡ true)
    (found : find row_id task_id rows ≡ some row) (requested : row.refresh_requested ≡ true) where
  handle_refresh_requested-put :
      handle_refresh_requested task_id new_state now rows ≡ put row_id (refreshed_row now row) rows
  unfolding handle_refresh_requested
  handle_refresh_requested-put = rw (ended, found, requested, handle_refresh_requested) refl

  find-refreshed :
      find row_id task_id (handle_refresh_requested task_id new_state now rows)
      ≡ some (refreshed_row now row)
  find-refreshed =
      let same = find-key row_id task_id rows row found in
      rw handle_refresh_requested-put (
        subst
          (λ i.
            find row_id i (put row_id (refreshed_row now row) rows) ≡ some (refreshed_row now row))
          same
          (find-put_self row_id (refreshed_row now row) rows row
            (subst (λ i. find row_id i rows ≡ some row) (sym same) found)))

  -- When a claim ended as COMPLETED or FAILED and a refresh was requested, the row is there with its
  -- request cleared, and from then on a worker of its queue may claim it, whatever its state was.
  pub handle_refresh_requested-is_claimable :
      (later : ℕ)
      → now ≤ later
      → (row' : WorkflowTaskRow) × (find row_id task_id
            (handle_refresh_requested task_id new_state now rows)
          ≡ some row')
        × (row'.refresh_requested ≡ false)
        × (is_claimable row.queue_name later row' ≡ true)
  unfolding is_claimable
  handle_refresh_requested-is_claimable later h = (
    refreshed_row now row,
    find-refreshed,
    refl,
    ground (arith, string_eq.agrees row.queue_name row.queue_name),
  )

replay_unique :
    (row : WorkflowTaskRow) (now : ℕ)
    → RowAudited row
    → RowAudited (refreshed_row now row)
    → row.state ≡ scheduled
replay_unique row now a a' = let e = sym a ∙ a' in ground arith

-- A refresh of an audited row in any state but SCHEDULED writes a state that the row's audit trail
-- does not lead to.
pub handle_refresh_requested-unaudited :
    (task_id : String) (new_state : TaskState) (now : ℕ) (rows : Table) (row : WorkflowTaskRow)
    → elem new_state (completed ∷ failed ∷ []) ≡ true
    → find row_id task_id rows ≡ some row
    → row.refresh_requested ≡ true
    → RowAudited row
    → row.state ≢ scheduled
    → ¬ TableAudited (handle_refresh_requested task_id new_state now rows)
handle_refresh_requested-unaudited task_id new_state now rows row ended found requested a other a' =
    other (
      replay_unique row now a (
        find-All row_id RowAudited task_id (handle_refresh_requested task_id new_state now rows)
          (refreshed_row now row) a'
          (find-refreshed task_id new_state now rows row ended found requested)))

-- A claimed matching task that clear_matching_queue interrupted while its handler ran, and for which
-- a refresh was requested: when the handler completes, the refused transition is ignored, and the
-- hook puts the task back to SCHEDULED.
pub settle_final-refreshes_interrupted :
    (d : Dispatcher) (task : ClaimedTask) (outcome : ExecutionOutcome) (fresh_id : String)
    (later now : ℕ) (db : Db) (row : WorkflowTaskRow)
    → d.on_claim_completed ≡ some (on_complete now)
    → outcome.state ≡ completed
    → outcome.human_action ≡ none
    → find row_id task.task_id db.tasks ≡ some row
    → row.state ≡ interrupted
    → row.refresh_requested ≡ true
    → (db' : Db) × (settle_final d task outcome fresh_id later db ≡ ok db')
      × (find row_id task.task_id db'.tasks ≡ some (refreshed_row now row))
unfolding settle_final add_checkpoint on_tasks ignore_invalid as_task_error is_allowed
settle_final-refreshes_interrupted d task outcome fresh_id later now db row hook done no_action
      found stopped requested =
    (
      on_complete now task.task_id completed db,
      rw
          (
            no_action,
            done,
            hook,
            settle_final,
            add_checkpoint,
            finish_claim-found task.task_id completed outcome.reason d.worker_name outcome.evidence
                later db.tasks row found,
            stopped,
          )
          refl,
      find-refreshed task.task_id completed now db.tasks row refl found requested,
    )
