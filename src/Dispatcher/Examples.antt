-- ===== src/Dispatcher/Examples.antt =====
-- A concrete dispatcher.
use job_searching_assistant.Task.{is_allowed}
use job_searching_assistant.Prelude.{
  ◌≡◌, refl, false, some, none, [], ◌∷◌, ok, arith, string_eq, nat_eq, list_eq, codes,
}
use job_searching_assistant.Prelude.Table.{find}
use job_searching_assistant.Task.{running, retry_scheduled}
use job_searching_assistant.Queue.Rows.{WorkflowTaskRow, row_id}
use job_searching_assistant.Queue.Claims.{ClaimedTask}
use job_searching_assistant.Dispatcher.{Db, ExecutionOutcome}
use job_searching_assistant.Dispatcher.Handlers.{
  HandlerServices, dispatcher_handlers, execute-dispatcher_handlers,
}
use job_searching_assistant.Dispatcher.RunOnce.{Dispatcher, execute, run_handler}
use job_searching_assistant.Dispatcher.Settles.{
  Leaves, settled_state, IsProper, execute-settled_state,
}

abbrev asks_for_retry : ExecutionOutcome
asks_for_retry = record {
  state = retry_scheduled;
  reason = "site is busy";
  evidence = [];
  human_action = none;
}

-- A coordinator that grants every lease, and a handler that asks for a retry.
abbrev retrying : Dispatcher
retrying = record {
  Coordinator = Unit {0};
  Lease = Unit {0};
  acquire_lease = λ key seconds c. (some tt, c);
  release_lease = λ lease c. c;
  handlers = λ kind. some (λ task db. (ok asks_for_retry, db));
  register_screenshot = λ checkpoint path. ok "artifact";
  on_claim_completed = none;
  text_of = λ kind. "kind";
  worker_name = "w1";
  queue_name = "vacancies";
  retry_priority = none;
  settings = record {
    worker_lease_seconds = 120;
    worker_retry_seconds = 30;
    worker_max_attempts = 3;
  };
}

abbrev running_row : WorkflowTaskRow
running_row = record {
  id = "t";
  application_id = none;
  idempotency_key = 4 ∷ [];
  queue_name = "vacancies";
  task_payload = "{}";
  state = running;
  attempt_number = 1;
  priority = 0;
  scheduled_for = 3;
  refresh_requested = false;
  created_at = 3;
  updated_at = 10;
  transitions = [];
}

abbrev one_task : Db
one_task = record { tasks = running_row ∷ []; checkpoints = []; heartbeats = [] }

abbrev the_claim : ClaimedTask
the_claim = record {
  task_id = "t";
  application_id = none;
  idempotency_key = 4 ∷ [];
  attempt_number = 1;
  queue_name = "vacancies";
  payload = "{}";
}

asked : run_handler retrying the_claim one_task ≡ (ok asks_for_retry, one_task)
unfolding run_handler
asked = refl

asked-IsProper : IsProper (run_handler retrying the_claim one_task).0
unfolding run_handler is_allowed
asked-IsProper = refl

asked-found : find row_id "t" (run_handler retrying the_claim one_task).1.tasks ≡ some running_row
unfolding run_handler find
asked-found = refl

execute-settled_state_example :
    Leaves "t"
      (settled_state retrying the_claim "c"
        (run_handler retrying the_claim one_task).1
        (run_handler retrying the_claim one_task).0)
      (execute retrying the_claim "c" 20 one_task).0
execute-settled_state_example =
    execute-settled_state retrying the_claim "c" 20 one_task running_row refl (omega arith)
      asked-IsProper asked-found refl

-- The services behind the handlers: one application, which awaits its review.
abbrev one_application : HandlerServices
one_application = record {
  run_matching = λ id db. (ok tt, db);
  cv_file_id = λ payload. none;
  resume_exists = λ id db. false;
  sync_resume = λ id db. (ok none, db);
  application_status = λ id db. some "awaiting_review";
}

abbrev reviewing : Dispatcher
reviewing = record retrying { handlers = dispatcher_handlers one_application }

abbrev review_claim : ClaimedTask
review_claim = record the_claim {
  application_id = some "a";
  idempotency_key = codes "application-review:a";
}

review_found :
    find row_id "t" (run_handler reviewing review_claim one_task).1.tasks ≡ some running_row
unfolding find run_handler dispatcher_handlers
review_found = refl

execute-dispatcher_handlers_example :
    Leaves "t"
      (settled_state reviewing review_claim "c"
        (run_handler reviewing review_claim one_task).1
        (run_handler reviewing review_claim one_task).0)
      (execute reviewing review_claim "c" 20 one_task).0
execute-dispatcher_handlers_example =
    execute-dispatcher_handlers one_application reviewing review_claim "c" 20 one_task running_row
      refl refl (omega arith) review_found refl
