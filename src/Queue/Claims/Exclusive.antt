-- ===== src/Queue/Claims/Exclusive.antt =====
-- Two claims, one after the other.
use job_searching_assistant.Prelude.{
  ℕ, ◌≡◌, ◌≢◌, ap, false, Bool, some, String, arith, string_eq, subst,
}
use job_searching_assistant.Prelude.Table.{HasUniqueKeys, mem-put}
use job_searching_assistant.Task.{running}
use mathlib.Core.List.{Memᴰ}
use job_searching_assistant.Queue.Rows.{WorkflowTaskRow, Table, row_id}
use job_searching_assistant.Queue.Claims.{
  is_claimable, ClaimedTask, claim_next, claimed_row, claim_of,
}
use job_searching_assistant.Queue.Claims.Order.{can_claim, claim_next-IsClaimOf}

running-not_claimable :
    (locked : WorkflowTaskRow → Bool) (queue_name : String) (now : ℕ) (row : WorkflowTaskRow)
    → row.state ≡ running
    → can_claim locked queue_name now row ≡ false
unfolding is_claimable
running-not_claimable locked queue_name now row h = ground arith

-- In a table with unique identifiers two claims in a row that both hand out a task, by any workers,
-- for any queues and at any times, hand out different tasks.
pub claim_next-exclusive :
    (locked : WorkflowTaskRow → Bool) (worker queue_name : String) (now : ℕ)
    (locked' : WorkflowTaskRow → Bool) (worker' queue_name' : String) (now' : ℕ)
    (rows rows' rows'' : Table) (task task' : ClaimedTask)
    → HasUniqueKeys row_id rows
    → claim_next locked worker queue_name now rows ≡ (some task, rows')
    → claim_next locked' worker' queue_name' now' rows' ≡ (some task', rows'')
    → task'.task_id ≢ task.task_id
unfolding claim_of claimed_row
claim_next-exclusive locked worker queue_name now locked' worker' queue_name' now' rows rows' rows''
      task task' unique first second same =
    let (row, c) = claim_next-IsClaimOf locked worker queue_name now rows task rows' first in
    let (row', c') =
      claim_next-IsClaimOf locked' worker' queue_name' now' rows' task' rows'' second in
    let ids : row'.id ≡ row.id = cc (
      ap (λ (t : ClaimedTask). t.task_id) c.handed_out,
      ap (λ (t : ClaimedTask). t.task_id) c'.handed_out,
    ) in
    let written : row' ≡ claimed_row worker now row =
      mem-put row_id (claimed_row worker now row) rows row' unique
        (subst (Memᴰ row') c.written c'.present) ids in
    cc (
      running-not_claimable locked' queue_name' now' row'
          (ap (λ (r : WorkflowTaskRow). r.state) written),
      c'.claimable,
    )
