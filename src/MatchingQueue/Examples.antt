-- ===== src/MatchingQueue/Examples.antt =====
-- A concrete matching queue.
use job_searching_assistant.Task.{next_attempt}
use job_searching_assistant.Task.{is_allowed}
use job_searching_assistant.Prelude.{
  ℕ, ◌≡◌, refl, ◌≢◌, true, some, none, List, [], ◌∷◌, String, arith, All, Pairwise, count_by, ok,
  string_eq, nat_eq, list_eq,
}
use job_searching_assistant.Prelude.Table.{find}
use job_searching_assistant.Task.{
  TaskState, pending, scheduled, running, completed, interrupted, TaskTransition,
}
use job_searching_assistant.Task.Trail.{replay, entry_fits}
use job_searching_assistant.Queue.Rows.{WorkflowTaskRow, Table, row_id, RowAudited, TableAudited}
use job_searching_assistant.Queue.Claims.{ClaimedTask}
use job_searching_assistant.Dispatcher.{Db, ExecutionOutcome}
use job_searching_assistant.Dispatcher.RunOnce.{Dispatcher, settle_final}
use job_searching_assistant.MatchingQueue.{Aggregates}
use job_searching_assistant.MatchingQueue.Clear.{
  clear_matching_queue, clear_matching_queue-IsCleared, IsCleared, IsClearedFrom, is_queued,
  is_running_backlog,
}
use job_searching_assistant.MatchingQueue.Repair.{QueueRepairReport, repair_legacy_matching_queue}
use job_searching_assistant.MatchingQueue.Repaired.{
  IsRepairOf, repair_legacy_matching_queue-IsRepairOf,
}
use job_searching_assistant.MatchingQueue.Refresh.{
  handle_refresh_requested, handle_refresh_requested-unaudited, on_complete, refreshed_row,
  settle_final-refreshes_interrupted,
}
use job_searching_assistant.MatchingQueue.Schedule.{JobDb, CvFileRow, VacancyRow}

abbrev entry : TaskState → TaskState → ℕ → TaskTransition
entry from to n = record {
  previous_state = from;
  new_state = to;
  reason = "test";
  worker = "test";
  attempt_number = n;
  evidence = [];
  occurred_at = 5;
}

abbrev to_scheduled : List TaskTransition
to_scheduled = entry pending scheduled 0 ∷ []

abbrev to_completed : List TaskTransition
to_completed =
    entry pending scheduled 0 ∷ entry scheduled running 1 ∷ entry running completed 1 ∷ []

abbrev row_in :
    (queue : String) (id : String) → TaskState → (n : ℕ) → List TaskTransition → WorkflowTaskRow
row_in queue id state n transitions = record {
  id = id;
  application_id = some "app";
  idempotency_key =
      b'm' ∷ b'a' ∷ b't' ∷ b'c' ∷ b'h' ∷ b'i' ∷ b'n' ∷ b'g' ∷ b'-' ∷ b'v' ∷ b'2' ∷ b':' ∷ b'a' ∷ [];
  queue_name = queue;
  task_payload = "{}";
  state = state;
  attempt_number = n;
  priority = 10;
  scheduled_for = 3;
  refresh_requested = true;
  created_at = 3;
  updated_at = 5;
  transitions = transitions;
}

abbrev waiting_row : WorkflowTaskRow
waiting_row = row_in "matching" "a" scheduled 0 to_scheduled

abbrev legacy_row : WorkflowTaskRow
legacy_row = row_in "dispatcher" "a" scheduled 0 to_scheduled

abbrev done_row : WorkflowTaskRow
done_row = row_in "matching" "a" completed 1 to_completed

abbrev stopped_row : WorkflowTaskRow
stopped_row =
    row_in "matching" "a" interrupted 1
      (entry pending scheduled 0 ∷ entry scheduled running 1 ∷ entry running interrupted 1 ∷ [])

waiting-TableAudited : TableAudited (waiting_row ∷ [])
unfolding replay entry_fits is_allowed next_attempt
waiting-TableAudited = (refl, tt)

legacy-TableAudited : TableAudited (legacy_row ∷ [])
unfolding replay entry_fits is_allowed next_attempt
legacy-TableAudited = (refl, tt)

done-RowAudited : RowAudited done_row
unfolding replay entry_fits is_allowed next_attempt
done-RowAudited = refl

clear_matching_queue-IsCleared_example :
    All IsCleared (clear_matching_queue 9 (waiting_row ∷ []) []).tasks
    × ((clear_matching_queue 9 (waiting_row ∷ []) []).cancelled
        ≡ count_by is_queued (waiting_row ∷ []))
    × ((clear_matching_queue 9 (waiting_row ∷ []) []).interrupted
        ≡ count_by is_running_backlog (waiting_row ∷ []))
    × Pairwise IsClearedFrom (waiting_row ∷ []) (clear_matching_queue 9 (waiting_row ∷ []) []).tasks
clear_matching_queue-IsCleared_example =
    clear_matching_queue-IsCleared 9 (waiting_row ∷ []) [] waiting-TableAudited

repair_legacy_matching_queue-IsRepairOf_example :
    (report : QueueRepairReport) × (rows' : Table) × (aggregates' : Aggregates)
    × (repair_legacy_matching_queue true 9 (legacy_row ∷ []) [] ≡ ok (report, rows', aggregates'))
    × IsRepairOf 9 (legacy_row ∷ []) report rows'
repair_legacy_matching_queue-IsRepairOf_example =
    repair_legacy_matching_queue-IsRepairOf 9 (legacy_row ∷ []) [] (tt, tt) legacy-TableAudited

done-found : find row_id "a" (done_row ∷ []) ≡ some done_row
unfolding find
done-found = refl

done-ne-scheduled : completed ≢ scheduled
done-ne-scheduled e = ground arith

handle_refresh_requested-unaudited_example :
    ¬ TableAudited (handle_refresh_requested "a" completed 9 (done_row ∷ []))
handle_refresh_requested-unaudited_example =
    handle_refresh_requested-unaudited "a" completed 9 (done_row ∷ []) done_row refl done-found refl
      done-RowAudited done-ne-scheduled

abbrev done_outcome : ExecutionOutcome
done_outcome = record { state = completed; reason = "done"; evidence = []; human_action = none }

abbrev matching_dispatcher : Dispatcher
matching_dispatcher = record {
  Coordinator = Unit {0};
  Lease = Unit {0};
  acquire_lease = λ key seconds c. (some tt, c);
  release_lease = λ lease c. c;
  handlers = λ kind. some (λ task db. (ok done_outcome, db));
  register_screenshot = λ checkpoint path. ok "artifact";
  on_claim_completed = some (on_complete 30);
  text_of = λ kind. "kind";
  worker_name = "matching-worker-0";
  queue_name = "matching";
  retry_priority = some 20;
  settings = record {
    worker_lease_seconds = 120;
    worker_retry_seconds = 30;
    worker_max_attempts = 3;
  };
}

abbrev stopped_claim : ClaimedTask
stopped_claim = record {
  task_id = "a";
  application_id = some "app";
  idempotency_key = [];
  attempt_number = 1;
  queue_name = "matching";
  payload = "{}";
}

abbrev stopped_db : Db
stopped_db = record { tasks = stopped_row ∷ []; checkpoints = []; heartbeats = [] }

stopped-found : find row_id "a" stopped_db.tasks ≡ some stopped_row
unfolding find
stopped-found = refl

settle_final-refreshes_interrupted_example :
    (db' : Db) × (settle_final matching_dispatcher stopped_claim done_outcome "c" 29 stopped_db
      ≡ ok db')
    × (find row_id "a" db'.tasks ≡ some (refreshed_row 30 stopped_row))
settle_final-refreshes_interrupted_example =
    settle_final-refreshes_interrupted matching_dispatcher stopped_claim done_outcome "c" 29 30
      stopped_db stopped_row refl refl refl stopped-found refl refl

abbrev jobs : JobDb
jobs = record {
  applications =
      record { id = "app"; user_id = "u"; vacancy_id = "v"; selected_cv_file_id = some "cv" } ∷ [];
  cv_files = record { id = "cv"; user_id = "u" } ∷ [];
  vacancies = record { id = "v" } ∷ [];
  tasks = done_row ∷ [];
  aggregates = [];
  requirements = [];
  requirement_matches = [];
}

abbrev version_of : VacancyRow → CvFileRow → String
version_of vacancy cv_file = "1"

abbrev done_key : String → String → List ℕ
done_key application_id version = done_row.idempotency_key
