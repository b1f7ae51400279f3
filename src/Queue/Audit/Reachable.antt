-- ===== src/Queue/Audit/Reachable.antt =====
-- Every table that the queue's operations can lead to, in any order and by any number of workers,
-- from the empty one. One operation is one transaction; one that raises changes nothing.
use job_searching_assistant.Prelude.{
  ℕ, ◌≡◌, ◌≢◌, subst, sym, Bool, Option, some, List, [], Result, String, ok, OnOk, All, mem-All,
  count_by,
}
use mathlib.Core.List.{Memᴰ}
use job_searching_assistant.Task.{TaskState, running, WorkflowTask}
use job_searching_assistant.Task.Trail.{enters_running, IsAudited-attempts}
use job_searching_assistant.Queue.Rows.{WorkflowTaskRow, Table, TableAudited, RowAudited}
use job_searching_assistant.Queue.Claims.{claim_next, touch_claim}
use job_searching_assistant.Queue.Finish.{finish_claim, reschedule_claim, retry_claim}
use job_searching_assistant.Queue.Recovery.{
  recover_stale_running_tasks, interrupt_stale_running_tasks,
}
use job_searching_assistant.Queue.Store.{get_or_create, save}
use job_searching_assistant.Queue.Audit.{
  claim_next-TableAudited, touch_claim-TableAudited, finish_claim-TableAudited,
  reschedule_claim-TableAudited, retry_claim-TableAudited,
}
use job_searching_assistant.Queue.Audit.Loops.{
  Extends, Healed, Healed-TableAudited, recover_stale_running_tasks-Healed,
  interrupt_stale_running_tasks-Healed, get_or_create-TableAudited, save-TableAudited,
}

-- One operation of the repository. A worker never finishes a claim with RUNNING, and what is saved
-- is a task that was read from the table and then changed by its own transitions.
pub data QueueStep (rows rows' : Table) : Type 0 where
  create :
      (fresh_id : String) (key : List ℕ) (application_id : Option String) (queue_name : String)
      (priority : ℕ) (payload : String) (now : ℕ)
      → rows' ≡ (get_or_create fresh_id key application_id queue_name priority payload now rows).1
      → QueueStep rows rows'
  store :
      (fresh_id queue_name payload : String) (task : WorkflowTask) (now : ℕ)
      → Extends task rows
      → rows' ≡ save fresh_id queue_name payload task now rows
      → QueueStep rows rows'
  claim :
      (locked : WorkflowTaskRow → Bool) (worker queue_name : String) (now : ℕ)
      → rows' ≡ (claim_next locked worker queue_name now rows).1
      → QueueStep rows rows'
  touch :
      (task_id : String) (now : ℕ) → rows' ≡ (touch_claim task_id now rows).1 → QueueStep rows rows'
  finish :
      (task_id : String) (to : TaskState) (reason worker : String) (evidence : List String)
      (now : ℕ)
      → to ≢ running
      → finish_claim task_id to reason worker evidence now rows ≡ ok rows'
      → QueueStep rows rows'
  reschedule :
      (task_id worker reason : String) (delay now : ℕ)
      → reschedule_claim task_id worker reason delay now rows ≡ ok rows'
      → QueueStep rows rows'
  retry :
      (task_id worker reason : String) (delay : ℕ) (evidence : List String) (priority : Option ℕ)
      (now : ℕ)
      → retry_claim task_id worker reason delay evidence priority now rows ≡ ok rows'
      → QueueStep rows rows'
  recover :
      (stale_before : ℕ → String) (cutoff : ℕ) (worker queue_name : String) (max_attempts now n : ℕ)
      → recover_stale_running_tasks stale_before cutoff worker queue_name max_attempts now rows
        ≡ ok (n, rows')
      → QueueStep rows rows'
  interrupt :
      (stale_before : ℕ → String) (cutoff : ℕ) (worker : String) (queue_name : Option String)
      (now n : ℕ)
      → interrupt_stale_running_tasks stale_before cutoff worker queue_name now rows ≡ ok (n, rows')
      → QueueStep rows rows'

pub data Reachable : Table → Type 0 where
  start : Reachable []
  step : {rows : Table} (rows' : Table) → Reachable rows → QueueStep rows rows' → Reachable rows'

-- A loop that leaves healed rows leaves audited ones.
Healed-outcome :
    (cutoff : ℕ) (queue_name : Option String) {E : Type 0} (r : Result E (ℕ × Table)) (n n' : ℕ)
    (rows rows' : Table)
    → r ≡ ok (n, rows)
    → r ≡ ok (n', rows')
    → All (Healed cutoff queue_name) rows
    → TableAudited rows'
Healed-outcome cutoff queue_name r n n' rows rows' e e' h =
    let same : rows ≡ rows' = cc in
    subst TableAudited same (Healed-TableAudited cutoff queue_name rows h)

QueueStep-TableAudited :
    {rows rows' : Table} → QueueStep rows rows' → TableAudited rows → TableAudited rows'
QueueStep-TableAudited {rows} (create i k a q p l now e) h =
    subst TableAudited (sym e) (get_or_create-TableAudited i k a q p l now rows h)
QueueStep-TableAudited {rows} (store i q p task now x e) h =
    subst TableAudited (sym e) (save-TableAudited i q p task now rows x h)
QueueStep-TableAudited {rows} (claim locked worker q now e) h =
    subst TableAudited (sym e) (claim_next-TableAudited locked worker q now rows h)
QueueStep-TableAudited {rows} (touch i now e) h =
    subst TableAudited (sym e) (touch_claim-TableAudited i now rows h)
QueueStep-TableAudited {rows} (finish i to reason worker evidence now other e) h =
    subst (OnOk TableAudited) e
      (finish_claim-TableAudited i to reason worker evidence now rows other h)
QueueStep-TableAudited {rows} (reschedule i worker reason delay now e) h =
    subst (OnOk TableAudited) e (reschedule_claim-TableAudited i worker reason delay now rows h)
QueueStep-TableAudited {rows} (retry i worker reason delay evidence p now e) h =
    subst (OnOk TableAudited) e
      (retry_claim-TableAudited i worker reason delay evidence p now rows h)
QueueStep-TableAudited {rows} {rows'} (recover s cutoff worker q m now n e) h =
    let (healed, r, a) = recover_stale_running_tasks-Healed s cutoff worker q m now rows h in
    Healed-outcome cutoff (some q) _ _ n healed rows' r e a
QueueStep-TableAudited {rows} {rows'} (interrupt s cutoff worker q now n e) h =
    let (healed, r, a) = interrupt_stale_running_tasks-Healed s cutoff worker q now rows h in
    Healed-outcome cutoff q _ _ n healed rows' r e a

pub Reachable-TableAudited : {rows : Table} → Reachable rows → TableAudited rows
Reachable-TableAudited start = tt
Reachable-TableAudited (step rows' r s) = QueueStep-TableAudited s (Reachable-TableAudited r)

-- In every table that the repository's operations lead to, when no claim is finished as RUNNING and
-- a saved task is audited and extends the trail of its row, each row's state and attempt number are
-- those that its audit trail leads to by allowed transitions, and the attempt number is the number
-- of the trail's entries into RUNNING.
pub Reachable-audited_attempts :
    {rows : Table} {row : WorkflowTaskRow}
    → Reachable rows
    → Memᴰ row rows
    → RowAudited row × (row.attempt_number ≡ count_by enters_running row.transitions)
Reachable-audited_attempts {rows} {row} r m =
    let a = mem-All RowAudited rows m (Reachable-TableAudited r) in
    (a, IsAudited-attempts row.state row.attempt_number row.transitions a)
