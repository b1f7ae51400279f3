-- ===== src/Workflow/Runner.antt =====
-- workflows/workflow_*_dispatch.py and workflows/workflow_runner.py, with domain/workflow_execution.py.
use job_searching_assistant.Prelude.{ℕ, ◌+◌, Bool, true, false, List, [], ◌∷◌, ◌++◌, String, ok}
use job_searching_assistant.Workflow.Steps.{
  WorkflowStepType, WorkflowStep, navigate_step, fill_step, upload_step, select_step, check_step,
  click_step, wait_step, assert_step, human_review_step, submit_step, action_type, is_enabled,
}
use job_searching_assistant.Workflow.Page.{
  Browser, InputResolver, Coroutine, done_with, lifted, ◌then_await◌, continue_with,
}
use job_searching_assistant.Workflow.Executors.{
  execute_wait, execute_click, execute_fill, execute_select, execute_check, execute_upload,
  execute_assert, execute_navigate, execute_human_review, execute_submit,
}

pub data WorkflowStepExecutionStatus : Type 0 where
  succeeded skipped : WorkflowStepExecutionStatus

pub record WorkflowStepExecutionOutcome : Type 0 where
  pub position : ℕ
  pub action_type : WorkflowStepType
  pub status : WorkflowStepExecutionStatus

abbrev pub outcome : ℕ → WorkflowStep → WorkflowStepExecutionStatus → WorkflowStepExecutionOutcome
outcome n step status = record { position = n; action_type = action_type step; status = status }

-- `await call`, whose value is dropped
abbrev pub awaited : {S A : Type 0} → Coroutine S A → Coroutine S (Unit {0})
awaited m = m then_await (λ _. done_with tt)

module _ (b : Browser) (inputs : InputResolver b.FilePath) (allowed_hosts : List String)
    (is_submit_confirmed : Bool) where
  open b use {State}
  open inputs use {resolve_text, resolve_boolean, resolve_file}

  -- execute_workflow_step, with the four functions it hands the step to.
  unfoldable pub execute_workflow_step : WorkflowStep → Coroutine State (Unit {0})
  unfolding execute_wait execute_click execute_fill execute_select execute_check execute_upload
      execute_assert execute_navigate execute_human_review execute_submit
  execute_workflow_step (navigate_step step) = awaited (execute_navigate b step allowed_hosts)
  execute_workflow_step (wait_step step) = awaited (execute_wait b step)
  execute_workflow_step (assert_step step) = awaited (execute_assert b step)
  execute_workflow_step (click_step step) = awaited (execute_click b step)
  execute_workflow_step (fill_step step) =
      lifted (resolve_text step.value_key) then_await (λ value. awaited (execute_fill b step value))
  execute_workflow_step (select_step step) =
      lifted (resolve_text step.value_key)
      then_await (λ value. awaited (execute_select b step value))
  execute_workflow_step (check_step step) =
      lifted (resolve_boolean step.value_key)
      then_await (λ value. awaited (execute_check b step value))
  execute_workflow_step (upload_step step) =
      lifted (resolve_file step.file_value_key)
      then_await (λ path. awaited (execute_upload b step path))
  execute_workflow_step (human_review_step step) = execute_human_review b step
  execute_workflow_step (submit_step step) = awaited (execute_submit b step is_submit_confirmed)

  -- The loop of execute_workflow_steps from a position on, with the outcomes so far.
  unfoldable pub execute_from :
      ℕ
      → List WorkflowStep
      → List WorkflowStepExecutionOutcome
      → Coroutine State (List WorkflowStepExecutionOutcome)
  unfolding execute_workflow_step
  execute_from n [] outcomes s = (ok outcomes, s)
  execute_from n (step ∷ steps) outcomes s = elim (is_enabled step) [
    | false ↦
        execute_from (n + 1) steps
          (outcomes ++ outcome n step WorkflowStepExecutionStatus.skipped ∷ []) s
    | true ↦ continue_with (execute_workflow_step step s) λ _.
        execute_from (n + 1) steps
          (outcomes ++ outcome n step WorkflowStepExecutionStatus.succeeded ∷ [])
  ]

  unfoldable pub execute_workflow_steps :
      List WorkflowStep → Coroutine State (List WorkflowStepExecutionOutcome)
  unfolding execute_from
  execute_workflow_steps steps = execute_from 0 steps []
