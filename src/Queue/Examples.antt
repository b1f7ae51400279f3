-- ===== src/Queue/Examples.antt =====
-- A concrete task queue.
use job_searching_assistant.Task.{next_attempt}
use job_searching_assistant.Task.{is_allowed}
use job_searching_assistant.Queue.Claims.{is_claimable}
use job_searching_assistant.Prelude.Table.{put}
use job_searching_assistant.Queue.Claims.{first_row}
use job_searching_assistant.Queue.Claims.{comes_before}
use job_searching_assistant.Prelude.{
  ℕ, ◌≡◌, refl, ◌≢◌, Bool, true, false, some, none, [], ◌∷◌, String, arith, All, count_by, ok,
  string_eq,
}
use mathlib.Core.List.{Memᴰ}
use job_searching_assistant.Prelude.Table.{HasUniqueKeys, find}
use job_searching_assistant.Task.{scheduled, pending, TaskTransition, WorkflowTask}
use job_searching_assistant.Task.Trail.{enters_running, replay, entry_fits}
use job_searching_assistant.Queue.Rows.{WorkflowTaskRow, Table, row_id, RowAudited, TableAudited}
use job_searching_assistant.Queue.Store.{get_or_create, save}
use job_searching_assistant.Queue.Claims.{claim_next, claim_of, claimed_row}
use job_searching_assistant.Queue.Claims.Order.{claim_next-IsClaimOf, IsClaimOf}
use job_searching_assistant.Queue.Claims.Exclusive.{claim_next-exclusive}
use job_searching_assistant.Queue.Recovery.{recover_stale_running_tasks, is_stale}
use job_searching_assistant.Queue.Audit.Loops.{Extends, Healed, recover_stale_running_tasks-Healed}
use job_searching_assistant.Queue.Audit.Reachable.{
  Reachable, start, step, create, store, claim, Reachable-audited_attempts,
}

abbrev scheduling : TaskTransition
scheduling = record {
  previous_state = pending;
  new_state = scheduled;
  reason = "queued";
  worker = "web";
  attempt_number = 0;
  evidence = [];
  occurred_at = 5;
}

abbrev queued_row : (id : String) (n priority : ℕ) → WorkflowTaskRow
queued_row id n priority = record {
  id = id;
  application_id = none;
  idempotency_key = n ∷ [];
  queue_name = "vacancies";
  task_payload = "{}";
  state = scheduled;
  attempt_number = 0;
  priority = priority;
  scheduled_for = 3;
  refresh_requested = false;
  created_at = 3;
  updated_at = 5;
  transitions = scheduling ∷ [];
}

abbrev two_rows : Table
two_rows = queued_row "a" 1 0 ∷ queued_row "b" 2 7 ∷ []

abbrev free : WorkflowTaskRow → Bool
free r = false

abbrev row_b : WorkflowTaskRow
row_b = claimed_row "w1" 10 (queued_row "b" 2 7)

abbrev after_one : Table
after_one = queued_row "a" 1 0 ∷ row_b ∷ []

abbrev row_a : WorkflowTaskRow
row_a = claimed_row "w2" 11 (queued_row "a" 1 0)

claim_one : claim_next free "w1" "vacancies" 10 two_rows ≡ (some (claim_of row_b), after_one)
unfolding claim_next claimed_row first_row is_claimable comes_before put
claim_one = refl

claim_two :
    claim_next free "w2" "vacancies" 11 after_one ≡ (some (claim_of row_a), row_a ∷ row_b ∷ [])
unfolding claim_next claimed_row first_row is_claimable put
claim_two = refl

other_ids : ◌≢◌ {A = String} "b" "a"
other_ids e = let h : false ≡ true = (string_eq.agrees "b" "a").1 e in cc

two_rows-HasUniqueKeys : HasUniqueKeys row_id two_rows
two_rows-HasUniqueKeys = ((other_ids, tt), (tt, tt))

claim_next-IsClaimOf_example :
    (row : WorkflowTaskRow) × IsClaimOf free "w1" "vacancies" 10 two_rows
      (claim_of row_b)
      after_one
      row
claim_next-IsClaimOf_example =
    claim_next-IsClaimOf free "w1" "vacancies" 10 two_rows (claim_of row_b) after_one claim_one

claim_early : claim_next free "w1" "vacancies" 2 two_rows ≡ (none, two_rows)
unfolding claim_next first_row is_claimable
claim_early = refl

claim_next-exclusive_example : (claim_of row_a).task_id ≢ (claim_of row_b).task_id
claim_next-exclusive_example =
    claim_next-exclusive free "w1" "vacancies" 10 free "w2" "vacancies" 11 two_rows after_one
      (row_a ∷ row_b ∷ []) (claim_of row_b) (claim_of row_a) two_rows-HasUniqueKeys claim_one
      claim_two

abbrev text_of_cutoff : ℕ → String
text_of_cutoff n = "cutoff"

after_one-TableAudited : TableAudited after_one
unfolding claimed_row replay entry_fits is_allowed next_attempt
after_one-TableAudited = (refl, (refl, tt))

recover_stale_running_tasks-Healed_example :
    (rows' : Table) × (recover_stale_running_tasks text_of_cutoff 50 "recovery" "vacancies" 3 60
        after_one
      ≡ ok (count_by (is_stale 50 (some "vacancies")) after_one, rows'))
    × All (Healed 50 (some "vacancies")) rows'
recover_stale_running_tasks-Healed_example =
    recover_stale_running_tasks-Healed text_of_cutoff 50 "recovery" "vacancies" 3 60 after_one
      after_one-TableAudited

abbrev scheduled_task : WorkflowTask
scheduled_task = record {
  idempotency_key = 4 ∷ [];
  state = scheduled;
  attempt_number = 0;
  transitions = scheduling ∷ [];
}

abbrev created : Table
created = (get_or_create "t" (4 ∷ []) none "vacancies" 0 "{}" 1 []).1

abbrev saved : Table
saved = save "x" "application_preparation" "{}" scheduled_task 5 created

abbrev claimed : Table
claimed = (claim_next free "w1" "vacancies" 10 saved).1

abbrev created_row : WorkflowTaskRow
created_row = record (queued_row "t" 4 0) {
  state = pending;
  scheduled_for = 1;
  created_at = 1;
  updated_at = 1;
  transitions = [];
}

created_row-transitions :
    (row : WorkflowTaskRow) → some created_row ≡ some row → row.transitions ≡ []
created_row-transitions row e = ground arith

scheduled_task-Extends : Extends scheduled_task created
unfolding get_or_create find replay entry_fits is_allowed next_attempt
scheduled_task-Extends = record {
  audited = refl;
  extends = λ row found.
      let e : some created_row ≡ some row = found in
      (scheduling ∷ [], rw (created_row-transitions row e) refl);
}

claimed-Reachable : Reachable claimed
claimed-Reachable =
    step claimed
      (step saved (step created start (create "t" (4 ∷ []) none "vacancies" 0 "{}" 1 refl))
        (store "x" "application_preparation" "{}" scheduled_task 5 scheduled_task-Extends refl))
      (claim free "w1" "vacancies" 10 refl)

abbrev claimed_task_row : WorkflowTaskRow
claimed_task_row =
    claimed_row "w1" 10 (record (queued_row "t" 4 0) { scheduled_for = 1; created_at = 1 })

claimed_task_row-mem : Memᴰ claimed_task_row claimed
unfolding get_or_create save claim_next claimed_row first_row find put is_claimable
claimed_task_row-mem = Memᴰ.head refl

Reachable-audited_attempts_example :
    RowAudited claimed_task_row
    × (claimed_task_row.attempt_number ≡ count_by enters_running claimed_task_row.transitions)
Reachable-audited_attempts_example =
    Reachable-audited_attempts claimed-Reachable claimed_task_row-mem
