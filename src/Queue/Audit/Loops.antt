-- ===== src/Queue/Audit/Loops.antt =====
-- The audit through the loops over stale rows, and through get_or_create and save.
use job_searching_assistant.Prelude.{
  ℕ, ◌≡◌, refl, sym, subst, ap, ◌∙◌, ◌≢◌, drop, length, inl, inr, true, false, Option, some, none,
  List, [], ◌∷◌, ◌++◌, String, arith, Bool-cases, Option-cases, string_eq, list_eq, nat_eq, ok, All,
  All-append, drop-length_append, leb, count_by,
}
use job_searching_assistant.Prelude.Table.{find, put-All}
use job_searching_assistant.Task.{
  TaskState, TaskTransition, running, failed, interrupted, WorkflowTask, is_allowed,
}
use job_searching_assistant.Task.Trail.{IsAudited, append-IsAudited, replay}
use job_searching_assistant.Queue.Rows.{WorkflowTaskRow, Table, row_key, RowAudited, TableAudited}
use job_searching_assistant.Queue.Recovery.{
  recover_stale_running_tasks, interrupt_stale_running_tasks, is_stale, interrupt_row, recover_row,
}
use job_searching_assistant.Queue.Recovery.Cases.{
  for_rows_rule, recovered_row, interrupted_row, recover_row-running, interrupt_row-running,
}
use job_searching_assistant.Queue.Store.{get_or_create, save, saved_row}
use job_searching_assistant.Queue.Audit.{requeued-Audited, next_attempt_other}

-- A row that is audited and no longer stale.
abbrev pub Healed : (cutoff : ℕ) → Option String → WorkflowTaskRow → Type 0
Healed cutoff queue_name row = (is_stale cutoff queue_name row ≡ false) × RowAudited row

is_stale-running :
    (cutoff : ℕ) (queue_name : Option String) (row : WorkflowTaskRow)
    → is_stale cutoff queue_name row ≡ true
    → row.state ≡ running
unfolding is_stale
is_stale-running cutoff none row h = ground arith
is_stale-running cutoff (some queue_name) row h = ground arith

is_stale-other :
    (cutoff : ℕ) (queue_name : Option String) (row : WorkflowTaskRow)
    → row.state ≢ running
    → is_stale cutoff queue_name row ≡ false
unfolding is_stale
is_stale-other cutoff none row h = ground arith
is_stale-other cutoff (some queue_name) row h = ground arith

allowed_from :
    {s : TaskState} (to : TaskState)
    → s ≡ running
    → is_allowed running to ≡ true
    → is_allowed s to ≡ true
allowed_from to e h = subst (λ s. is_allowed s to ≡ true) (sym e) h

module _ (stale_before : ℕ → String) (cutoff : ℕ) (worker : String) where
  recovered_row-Audited :
      (max_attempts now : ℕ) (row : WorkflowTaskRow)
      → row.state ≡ running
      → RowAudited row
      → RowAudited (recovered_row stale_before cutoff worker max_attempts now row)
  unfolding is_allowed
  recovered_row-Audited max_attempts now row r a =
      elim (Bool-cases (leb max_attempts row.attempt_number)) [
        | inl used_up ↦ rw used_up (
            rw (next_attempt_other failed row.attempt_number (λ e. cc)) at (
              append-IsAudited row.state row.attempt_number row.transitions failed
                "stale task exhausted bounded retry attempts" worker (stale_before cutoff ∷ []) now
                (allowed_from failed r refl) a))
        | inr more ↦ rw more (
            requeued-Audited row "stale running task recovered after worker interruption" worker
              (stale_before cutoff ∷ []) "recovered task returned to its durable queue"
              (stale_before cutoff ∷ []) now (allowed_from interrupted r refl) a)
      ]

  recovered_row-Healed :
      (queue_name : Option String) (max_attempts now : ℕ) (row : WorkflowTaskRow)
      → row.state ≡ running
      → RowAudited row
      → Healed cutoff queue_name (recovered_row stale_before cutoff worker max_attempts now row)
  recovered_row-Healed queue_name max_attempts now row r a = (
    is_stale-other cutoff queue_name _ (λ e. ground arith),
    recovered_row-Audited max_attempts now row r a,
  )

  -- On audited rows recover_stale_running_tasks does not raise, answers the number of the queue's
  -- stale rows, and leaves audited rows of which none is stale in that queue.
  pub recover_stale_running_tasks-Healed :
      (queue_name : String) (max_attempts now : ℕ) (rows : Table)
      → TableAudited rows
      → (rows' : Table) × (recover_stale_running_tasks stale_before cutoff worker queue_name
            max_attempts now rows
          ≡ ok (count_by (is_stale cutoff (some queue_name)) rows, rows'))
        × All (Healed cutoff (some queue_name)) rows'
  unfolding recover_stale_running_tasks
  recover_stale_running_tasks-Healed queue_name max_attempts now rows a =
      for_rows_rule RowAudited (Healed cutoff (some queue_name)) (is_stale cutoff (some queue_name))
        (recover_row stale_before cutoff worker max_attempts now)
        (λ row audited fresh. (fresh, audited))
        (λ row audited stale.
          let r = is_stale-running cutoff (some queue_name) row stale in
          (
            recovered_row stale_before cutoff worker max_attempts now row,
            recover_row-running stale_before cutoff worker max_attempts now row r,
            recovered_row-Healed (some queue_name) max_attempts now row r audited,
          ))
        rows a

  interrupted_row-Healed :
      (queue_name : Option String) (now : ℕ) (row : WorkflowTaskRow)
      → row.state ≡ running
      → RowAudited row
      → Healed cutoff queue_name (interrupted_row stale_before cutoff worker now row)
  unfolding is_allowed
  interrupted_row-Healed queue_name now row r a = (
    is_stale-other cutoff queue_name _ (λ e. cc),
    rw (next_attempt_other interrupted row.attempt_number (λ e. cc)) at (
        append-IsAudited row.state row.attempt_number row.transitions interrupted
          "stale running task recovered after worker interruption" worker (stale_before cutoff ∷ [])
          now (allowed_from interrupted r refl) a),
  )

  -- On audited rows interrupt_stale_running_tasks, for one queue or for all, does not raise, answers
  -- the number of stale rows, and leaves audited rows of which none is stale.
  pub interrupt_stale_running_tasks-Healed :
      (queue_name : Option String) (now : ℕ) (rows : Table)
      → TableAudited rows
      → (rows' : Table) × (interrupt_stale_running_tasks stale_before cutoff worker queue_name now
            rows
          ≡ ok (count_by (is_stale cutoff queue_name) rows, rows'))
        × All (Healed cutoff queue_name) rows'
  unfolding interrupt_stale_running_tasks
  interrupt_stale_running_tasks-Healed queue_name now rows a =
      for_rows_rule RowAudited (Healed cutoff queue_name) (is_stale cutoff queue_name)
        (interrupt_row stale_before cutoff worker now) (λ row audited fresh. (fresh, audited))
        (λ row audited stale.
          let r = is_stale-running cutoff queue_name row stale in
          (
            interrupted_row stale_before cutoff worker now row,
            interrupt_row-running stale_before cutoff worker now row r,
            interrupted_row-Healed queue_name now row r audited,
          ))
        rows a

pub Healed-TableAudited :
    (cutoff : ℕ) (queue_name : Option String) (rows : Table)
    → All (Healed cutoff queue_name) rows
    → TableAudited rows
Healed-TableAudited cutoff queue_name [] h = tt
Healed-TableAudited cutoff queue_name (row ∷ rows) h =
    (h.0.1, Healed-TableAudited cutoff queue_name rows h.1)

pub get_or_create-TableAudited :
    (fresh_id : String) (key : List ℕ) (application_id : Option String) (queue_name : String)
    (priority : ℕ) (payload : String) (now : ℕ) (rows : Table)
    → TableAudited rows
    → TableAudited
        (get_or_create fresh_id key application_id queue_name priority payload now rows).1
unfolding get_or_create replay
get_or_create-TableAudited fresh_id key application_id queue_name priority payload now rows a =
    elim (Option-cases (find row_key key rows)) [
      | inl absent ↦ rw (absent, get_or_create) (All-append RowAudited rows _ a (refl, tt))
      | inr (row, found) ↦ rw (found, get_or_create) a
    ]

-- The domain task that is saved is audited, and its trail extends the row's.
pub record Extends (task : WorkflowTask) (rows : Table) : Type 0 where
  pub audited : IsAudited task.state task.attempt_number task.transitions
  pub extends :
      (row : WorkflowTaskRow)
      → find row_key task.idempotency_key rows ≡ some row
      → (more : List TaskTransition) × (task.transitions ≡ row.transitions ++ more)

saved_row-Audited :
    (task : WorkflowTask) (now : ℕ) (row : WorkflowTaskRow) (more : List TaskTransition)
    → IsAudited task.state task.attempt_number task.transitions
    → task.transitions ≡ row.transitions ++ more
    → RowAudited (saved_row task now row)
unfolding saved_row
saved_row-Audited task now row more a e =
    subst (IsAudited task.state task.attempt_number)
      (e
        ∙ ap (λ t. row.transitions ++ t)
            (sym (ap (drop (length row.transitions)) e ∙ drop-length_append row.transitions more)))
      a

pub save-TableAudited :
    (fresh_id queue_name payload : String) (task : WorkflowTask) (now : ℕ) (rows : Table)
    → Extends task rows
    → TableAudited rows
    → TableAudited (save fresh_id queue_name payload task now rows)
unfolding save
save-TableAudited fresh_id queue_name payload task now rows x a =
    elim (Option-cases (find row_key task.idempotency_key rows)) [
      | inl absent ↦ rw (absent, save) (All-append RowAudited rows _ a (x.audited, tt))
      | inr (row, found) ↦
          let (more, e) = x.extends row found in
          rw (found, save)
            (put-All row_key RowAudited (saved_row task now row) rows a
              (saved_row-Audited task now row more x.audited e))
    ]
