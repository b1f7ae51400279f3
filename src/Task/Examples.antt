-- ===== src/Task/Examples.antt =====
-- Concrete workflow tasks.
use job_searching_assistant.Task.{next_attempt}
use job_searching_assistant.Prelude.{◌≡◌, refl, [], ◌∷◌, ok}
use job_searching_assistant.Task.{
  scheduled, running, pending, TaskTransition, WorkflowTask, transition, is_allowed,
}
use job_searching_assistant.Task.Trail.{IsAudited, replay, entry_fits}

abbrev scheduling : TaskTransition
scheduling = record {
  previous_state = pending;
  new_state = scheduled;
  reason = "queued";
  worker = "web";
  attempt_number = 0;
  evidence = [];
  occurred_at = 5;
}

abbrev starting : TaskTransition
starting = record {
  previous_state = scheduled;
  new_state = running;
  reason = "claimed";
  worker = "w1";
  attempt_number = 1;
  evidence = [];
  occurred_at = 9;
}

abbrev queued_task : WorkflowTask
queued_task = record {
  idempotency_key = 109 ∷ 58 ∷ [];
  state = scheduled;
  attempt_number = 0;
  transitions = scheduling ∷ [];
}

abbrev started_task : WorkflowTask
started_task = record {
  idempotency_key = 109 ∷ 58 ∷ [];
  state = running;
  attempt_number = 1;
  transitions = scheduling ∷ starting ∷ [];
}

queued-IsAudited : IsAudited scheduled 0 (scheduling ∷ [])
unfolding replay entry_fits is_allowed next_attempt
queued-IsAudited = refl

queued-started : transition queued_task running "claimed" "w1" [] 9 ≡ ok (started_task, starting)
unfolding transition
queued-started = refl

started-IsAudited : IsAudited running 1 (scheduling ∷ starting ∷ [])
unfolding replay entry_fits is_allowed next_attempt
started-IsAudited = refl
