-- ===== src/Queue/Audit.antt =====
-- Every operation of the durable queue keeps each row equal to what its audit trail leads to.
pub mod Loops
pub mod Reachable
use job_searching_assistant.Prelude.{
  ℕ, ◌+◌, ◌≡◌, refl, ap, sym, subst, ◌≢◌, ◌⊎◌, inl, inr, true, false, Bool, Option, some, none,
  List, [], ◌∷◌, ◌++◌, String, arith, Bool-cases, Option-cases, string_eq, list_eq, nat_eq, ok,
  raise, All, All-append, mem-All, drop-length_append, if◌then◌else◌, ltb, OnOk, count_by, elem,
  ◌==◌, zero_or_pos,
}
use job_searching_assistant.Prelude.Table.{find, put, find-All, put-All}
use job_searching_assistant.Task.{
  TaskState, running, failed, scheduled, retry_scheduled, interrupted, WorkflowTask, entry_for,
  is_allowed, next_attempt, state_eq,
}
use job_searching_assistant.Task.Trail.{IsAudited, append-IsAudited}
use job_searching_assistant.Queue.Rows.{
  WorkflowTaskRow, Table, row_id, row_key, RowAudited, TableAudited, to_domain,
}
use job_searching_assistant.Queue.Claims.{claim_next, touch_claim, claimed_row, is_claimable}
use job_searching_assistant.Queue.Claims.Order.{
  can_claim, IsClaimOf, claim_next-IsClaimOf, claim_next-none,
}
use job_searching_assistant.Queue.Finish.{finish_claim, reschedule_claim, retry_claim}
use job_searching_assistant.Queue.Finish.Cases.{
  finished_row, rescheduled_row, retried_row, finish_claim-found, finish_claim-missing,
  reschedule_claim-found, retry_claim-found, reschedule_claim-missing, retry_claim-missing,
  retry_claim-no_delay, reschedule_claim-no_delay,
}
use job_searching_assistant.Queue.Recovery.{
  recover_stale_running_tasks, interrupt_stale_running_tasks, is_stale,
}
use job_searching_assistant.Queue.Recovery.Cases.{
  for_rows_rule, recovered_row, recover_row-running, interrupt_row-running,
}
use job_searching_assistant.Queue.Store.{get_or_create, save, saved_row, new_row}

pub next_attempt_other : (to : TaskState) (n : ℕ) → to ≢ running → next_attempt to n ≡ n
unfolding next_attempt
next_attempt_other to n h = ground arith

finished_row-Audited :
    (to : TaskState) (reason worker : String) (evidence : List String) (now : ℕ)
    (row : WorkflowTaskRow)
    → to ≢ running
    → is_allowed row.state to ≡ true
    → RowAudited row
    → RowAudited (finished_row to reason worker evidence now row)
finished_row-Audited to reason worker evidence now row other allowed h =
    rw (next_attempt_other to row.attempt_number other) at (
      append-IsAudited row.state row.attempt_number row.transitions to reason worker evidence now
        allowed h)

pub finish_claim-TableAudited :
    (task_id : String) (to : TaskState) (reason worker : String) (evidence : List String) (now : ℕ)
    (rows : Table)
    → to ≢ running
    → TableAudited rows
    → OnOk TableAudited (finish_claim task_id to reason worker evidence now rows)
finish_claim-TableAudited task_id to reason worker evidence now rows other a =
    elim (Option-cases (find row_id task_id rows)) [
      | inl absent ↦ rw (finish_claim-missing task_id to reason worker evidence now rows absent) tt
      | inr (row, found) ↦
          rw (finish_claim-found task_id to reason worker evidence now rows row found)
            (elim (Bool-cases (is_allowed row.state to)) [
              | inl allowed ↦ rw allowed (
                  put-All row_id RowAudited (finished_row to reason worker evidence now row) rows a
                    (finished_row-Audited to reason worker evidence now row other allowed
                      (find-All row_id RowAudited task_id rows row a found)))
              | inr refused ↦ rw refused tt
            ])
    ]

-- Interrupted and scheduled again, for whatever reasons.
pub requeued-Audited :
    (row : WorkflowTaskRow) (reason worker : String) (evidence : List String) (reason' : String)
    (evidence' : List String) (now : ℕ)
    → is_allowed row.state interrupted ≡ true
    → RowAudited row
    → IsAudited scheduled row.attempt_number (
        (row.transitions
          ++ entry_for row.state row.attempt_number interrupted reason worker evidence now ∷ [])
        ++ entry_for interrupted row.attempt_number scheduled reason' worker evidence' now ∷ [])
unfolding next_attempt is_allowed
requeued-Audited row reason worker evidence reason' evidence' now allowed h =
    append-IsAudited interrupted row.attempt_number _ scheduled reason' worker evidence' now refl (
      append-IsAudited row.state row.attempt_number row.transitions interrupted reason worker
        evidence now allowed h)

pub reschedule_claim-TableAudited :
    (task_id worker reason : String) (delay now : ℕ) (rows : Table)
    → TableAudited rows
    → OnOk TableAudited (reschedule_claim task_id worker reason delay now rows)
reschedule_claim-TableAudited task_id worker reason delay now rows a = elim (zero_or_pos delay) [
  | inl z ↦ rw (reschedule_claim-no_delay task_id worker reason delay now rows z) tt
  | inr pos ↦ elim (Option-cases (find row_id task_id rows)) [
    | inl absent ↦ rw (reschedule_claim-missing task_id worker reason delay now rows absent pos) tt
    | inr (row, found) ↦
        rw (reschedule_claim-found task_id worker reason delay now rows row found pos)
          (elim (Bool-cases (is_allowed row.state interrupted)) [
            | inl allowed ↦ rw allowed (
                put-All row_id RowAudited (rescheduled_row worker reason delay now row) rows a (
                  requeued-Audited row reason worker [] _ [] now allowed
                    (find-All row_id RowAudited task_id rows row a found)))
            | inr refused ↦ rw refused tt
          ])
  ]
]

pub retry_claim-TableAudited :
    (task_id worker reason : String) (delay : ℕ) (evidence : List String) (priority : Option ℕ)
    (now : ℕ) (rows : Table)
    → TableAudited rows
    → OnOk TableAudited (retry_claim task_id worker reason delay evidence priority now rows)
retry_claim-TableAudited task_id worker reason delay evidence priority now rows a =
    elim (zero_or_pos delay) [
      | inl z ↦
          rw (retry_claim-no_delay task_id worker reason delay evidence priority now rows z) tt
      | inr pos ↦ elim (Option-cases (find row_id task_id rows)) [
        | inl absent ↦
            rw
              (retry_claim-missing task_id worker reason delay evidence priority now rows absent
                pos)
              tt
        | inr (row, found) ↦
            rw
              (retry_claim-found task_id worker reason delay evidence priority now rows row found
                pos)
              (elim (Bool-cases (is_allowed row.state retry_scheduled)) [
                | inl allowed ↦ rw allowed (
                    put-All row_id RowAudited
                      (retried_row worker reason delay evidence priority now row) rows a
                      (rw (next_attempt_other retry_scheduled row.attempt_number (λ e. cc)) at (
                        append-IsAudited row.state row.attempt_number row.transitions
                          retry_scheduled reason worker evidence now allowed
                          (find-All row_id RowAudited task_id rows row a found))))
                | inr refused ↦ rw refused tt
              ])
      ]
    ]

-- The states that a claim starts from allow RUNNING.
is_claimable-allowed :
    (queue_name : String) (now : ℕ) (row : WorkflowTaskRow)
    → is_claimable queue_name now row ≡ true
    → is_allowed row.state running ≡ true
unfolding is_claimable is_allowed
is_claimable-allowed queue_name now row h = ground arith

can_claim-is_claimable :
    (locked : WorkflowTaskRow → Bool) (queue_name : String) (now : ℕ) (row : WorkflowTaskRow)
    → can_claim locked queue_name now row ≡ true
    → is_claimable queue_name now row ≡ true
can_claim-is_claimable locked queue_name now row h = ground arith

claimed_row-Audited :
    (worker : String) (now : ℕ) (row : WorkflowTaskRow)
    → is_allowed row.state running ≡ true
    → RowAudited row
    → RowAudited (claimed_row worker now row)
unfolding claimed_row next_attempt entry_for
claimed_row-Audited worker now row allowed h =
    append-IsAudited row.state row.attempt_number row.transitions running
      "task claimed from durable queue" worker [] now allowed h

pub claim_next-TableAudited :
    (locked : WorkflowTaskRow → Bool) (worker queue_name : String) (now : ℕ) (rows : Table)
    → TableAudited rows
    → TableAudited (claim_next locked worker queue_name now rows).1
claim_next-TableAudited locked worker queue_name now rows a =
    let after = (claim_next locked worker queue_name now rows).1 in
    elim (Option-cases (claim_next locked worker queue_name now rows).0) [
      | inl idle ↦
          let unchanged : after ≡ rows =
            (claim_next-none locked worker queue_name now rows after (λ i. (idle i, after))).0 in
          subst TableAudited (sym unchanged) a
      | inr (task, given) ↦
          let (row, c) =
            claim_next-IsClaimOf locked worker queue_name now rows task after
              (λ i. (given i, after)) in
          subst TableAudited (sym c.written) (
            put-All row_id RowAudited (claimed_row worker now row) rows a (
              claimed_row-Audited worker now row
                (is_claimable-allowed queue_name now row
                  (can_claim-is_claimable locked queue_name now row c.claimable))
                (mem-All RowAudited rows c.present a)))
    ]

pub touch_claim-TableAudited :
    (task_id : String) (now : ℕ) (rows : Table)
    → TableAudited rows
    → TableAudited (touch_claim task_id now rows).1
unfolding touch_claim
touch_claim-TableAudited task_id now rows a = elim (Option-cases (find row_id task_id rows)) [
  | inl absent ↦ rw (absent, touch_claim) a
  | inr (row, found) ↦
      rw (found, touch_claim)
        (elim (Bool-cases (row.state == running)) [
          | inl live ↦ rw live (
              put-All row_id RowAudited (record row { updated_at = now }) rows a
                (find-All row_id RowAudited task_id rows row a found))
          | inr other ↦ rw other a
        ])
]
