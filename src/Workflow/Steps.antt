-- ===== src/Workflow/Steps.antt =====
-- domain/workflow_steps.py and the step classes of domain/workflow_*.py. The fields of a step's
-- `parameters` stand in the step itself.
use job_searching_assistant.Prelude.{ℕ, Bool, List, String}

pub data WorkflowStepType : Type 0 where
  navigate fill upload select check click wait assert human_review submit : WorkflowStepType

pub data WorkflowSelectorKind : Type 0 where
  role label placeholder test_id id name css : WorkflowSelectorKind

pub record WorkflowSelectorCandidate : Type 0 where
  pub kind : WorkflowSelectorKind
  pub value : String

pub record NavigateWorkflowStep : Type 0 where
  pub url : String
  pub timeout_ms : ℕ
  pub is_enabled : Bool

pub record WaitWorkflowStep : Type 0 where
  pub selector_candidates : List WorkflowSelectorCandidate
  pub timeout_ms : ℕ
  pub is_enabled : Bool

pub record ClickWorkflowStep : Type 0 where
  pub selector_candidates : List WorkflowSelectorCandidate
  pub timeout_ms : ℕ
  pub is_enabled : Bool

pub record AssertWorkflowStep : Type 0 where
  pub selector_candidates : List WorkflowSelectorCandidate
  pub is_present : Bool
  pub timeout_ms : ℕ
  pub is_enabled : Bool

pub record FillWorkflowStep : Type 0 where
  pub selector_candidates : List WorkflowSelectorCandidate
  pub value_key : String
  pub timeout_ms : ℕ
  pub is_enabled : Bool

pub record SelectWorkflowStep : Type 0 where
  pub selector_candidates : List WorkflowSelectorCandidate
  pub value_key : String
  pub timeout_ms : ℕ
  pub is_enabled : Bool

pub record CheckWorkflowStep : Type 0 where
  pub selector_candidates : List WorkflowSelectorCandidate
  pub value_key : String
  pub timeout_ms : ℕ
  pub is_enabled : Bool

pub record UploadWorkflowStep : Type 0 where
  pub selector_candidates : List WorkflowSelectorCandidate
  pub file_value_key : String
  pub timeout_ms : ℕ
  pub is_enabled : Bool

pub record HumanReviewWorkflowStep : Type 0 where
  pub checkpoint_key : String
  pub timeout_ms : ℕ
  pub is_enabled : Bool

pub record SubmitWorkflowStep : Type 0 where
  pub selector_candidates : List WorkflowSelectorCandidate
  pub timeout_ms : ℕ
  pub is_enabled : Bool

pub data WorkflowStep : Type 0 where
  navigate_step : NavigateWorkflowStep → WorkflowStep
  fill_step : FillWorkflowStep → WorkflowStep
  upload_step : UploadWorkflowStep → WorkflowStep
  select_step : SelectWorkflowStep → WorkflowStep
  check_step : CheckWorkflowStep → WorkflowStep
  click_step : ClickWorkflowStep → WorkflowStep
  wait_step : WaitWorkflowStep → WorkflowStep
  assert_step : AssertWorkflowStep → WorkflowStep
  human_review_step : HumanReviewWorkflowStep → WorkflowStep
  submit_step : SubmitWorkflowStep → WorkflowStep

abbrev pub action_type : WorkflowStep → WorkflowStepType
action_type (navigate_step s) = navigate
action_type (fill_step s) = fill
action_type (upload_step s) = upload
action_type (select_step s) = select
action_type (check_step s) = check
action_type (click_step s) = click
action_type (wait_step s) = wait
action_type (assert_step s) = assert
action_type (human_review_step s) = human_review
action_type (submit_step s) = submit

abbrev pub is_enabled : WorkflowStep → Bool
is_enabled (navigate_step s) = s.is_enabled
is_enabled (fill_step s) = s.is_enabled
is_enabled (upload_step s) = s.is_enabled
is_enabled (select_step s) = s.is_enabled
is_enabled (check_step s) = s.is_enabled
is_enabled (click_step s) = s.is_enabled
is_enabled (wait_step s) = s.is_enabled
is_enabled (assert_step s) = s.is_enabled
is_enabled (human_review_step s) = s.is_enabled
is_enabled (submit_step s) = s.is_enabled
