-- ===== src/Workflow/Stops.antt =====
-- workflows/workflow_runner.py: where a run stops for a person.
use job_searching_assistant.Prelude.{
  ℕ, ◌+◌, ◌≡◌, refl, sym, ap, ◌∙◌, Bool, true, false, List, [], ◌∷◌, ◌++◌, length, String, Option,
  some, none, arith, inl, inr, Bool-cases, Result, ok, raise,
}
use job_searching_assistant.Workflow.Steps.{
  WorkflowStep, human_review_step, submit_step, is_enabled,
}
use job_searching_assistant.Workflow.Page.{
  WorkflowError, confirmation_required, human_review_required, Browser, InputResolver, Coroutine,
  continue_with, continue_with-cong, continue-cases, failing,
}
use job_searching_assistant.Workflow.Executors.{execute_human_review, execute_submit}
use job_searching_assistant.Workflow.Runner.{
  WorkflowStepExecutionOutcome, succeeded, skipped, outcome, execute_workflow_step, execute_from,
  execute_workflow_steps,
}

-- The exception of a step that needs a person.
unfoldable pub stop_error : Bool → WorkflowStep → Option WorkflowError
stop_error is_confirmed (human_review_step step) = some (human_review_required step.checkpoint_key)
stop_error false (submit_step step) = some confirmation_required
stop_error is_confirmed step = none

module _ (b : Browser) (inputs : InputResolver b.FilePath) (allowed_hosts : List String)
    (is_confirmed : Bool) where
  abbrev run_from :
      ℕ
      → List WorkflowStep
      → List WorkflowStepExecutionOutcome
      → Coroutine b.State (List WorkflowStepExecutionOutcome)
  run_from = execute_from b inputs allowed_hosts is_confirmed

  pub execute_workflow_step-stop :
      (step : WorkflowStep) (e : WorkflowError) (s : b.State)
      → stop_error is_confirmed step ≡ some e
      → execute_workflow_step b inputs allowed_hosts is_confirmed step s ≡ (raise e, s)
  unfolding stop_error execute_workflow_step execute_human_review execute_submit
  execute_workflow_step-stop (human_review_step step) e s h = ground arith
  execute_workflow_step-stop (submit_step step) e s h = ground arith
  execute_workflow_step-stop _ e s h = ground arith

  abbrev then_run :
      ℕ
      → List WorkflowStep
      → Result WorkflowError (List WorkflowStepExecutionOutcome) × b.State
      → Result WorkflowError (List WorkflowStepExecutionOutcome) × b.State
  then_run n ys r = continue_with r (λ out. run_from n ys out)

  pub execute_from-off :
      (n : ℕ) (x : WorkflowStep) (xs : List WorkflowStep) (out : List WorkflowStepExecutionOutcome)
      (s : b.State)
      → is_enabled x ≡ false
      → run_from n (x ∷ xs) out s ≡ run_from (n + 1) xs (out ++ outcome n x skipped ∷ []) s
  unfolding execute_from
  execute_from-off n x xs out s h = rw (h, execute_from) refl

  pub execute_from-ok :
      (n : ℕ) (x : WorkflowStep) (xs : List WorkflowStep) (out : List WorkflowStepExecutionOutcome)
      (s s' : b.State)
      → is_enabled x ≡ true
      → execute_workflow_step b inputs allowed_hosts is_confirmed x s ≡ (ok tt, s')
      → run_from n (x ∷ xs) out s ≡ run_from (n + 1) xs (out ++ outcome n x succeeded ∷ []) s'
  unfolding execute_from
  execute_from-ok n x xs out s s' h e = rw (h, execute_from, e) refl

  pub execute_from-raise :
      (n : ℕ) (x : WorkflowStep) (xs : List WorkflowStep) (out : List WorkflowStepExecutionOutcome)
      (s s' : b.State) (error : WorkflowError)
      → is_enabled x ≡ true
      → execute_workflow_step b inputs allowed_hosts is_confirmed x s ≡ (raise error, s')
      → run_from n (x ∷ xs) out s ≡ (raise error, s')
  unfolding execute_from
  execute_from-raise n x xs out s s' error h e = rw (h, execute_from, e) refl

  pub execute_from-nil :
      (n : ℕ) (out : List WorkflowStepExecutionOutcome) (s : b.State)
      → run_from n [] out s ≡ (ok out, s)
  unfolding execute_from
  execute_from-nil n out s = refl

  execute_from-append :
      (n : ℕ) (xs ys : List WorkflowStep) (out : List WorkflowStepExecutionOutcome) (m : ℕ)
      (s : b.State)
      → n + length xs ≡ m
      → run_from n (xs ++ ys) out s ≡ then_run m ys (run_from n xs out s)
  execute_from-append n [] ys out m s e =
      let e' : n ≡ m = omega arith in
      rw (← e') (ap (then_run n ys) (sym (execute_from-nil n out s)))
  execute_from-append n (x ∷ xs) ys out m s e = elim (Bool-cases (is_enabled x)) [
    | inl on ↦
        elim (continue-cases (execute_workflow_step b inputs allowed_hosts is_confirmed x s)) [
          | inl (_, s', done_) ↦
              execute_from-ok n x (xs ++ ys) out s s' on done_
              ∙ execute_from-append (n + 1) xs ys _ m s' (omega arith)
              ∙ ap (then_run m ys) (sym (execute_from-ok n x xs out s s' on done_))
          | inr (error, s', failed) ↦
              execute_from-raise n x (xs ++ ys) out s s' error on failed
              ∙ ap (then_run m ys) (sym (execute_from-raise n x xs out s s' error on failed))
        ]
    | inr off ↦
        execute_from-off n x (xs ++ ys) out s off
        ∙ execute_from-append (n + 1) xs ys _ m s (omega arith)
        ∙ ap (then_run m ys) (sym (execute_from-off n x xs out s off))
  ]

  -- If an enabled step needs a person, and the run gets to it, then the run ends there with the
  -- step's exception, in the state that the steps before it left: the step itself and the steps
  -- behind it do nothing on the page. A human review always needs a person, a submission when it
  -- was not confirmed.
  pub execute_workflow_steps-stop :
      (before : List WorkflowStep) (step : WorkflowStep) (after : List WorkflowStep)
      (error : WorkflowError) (s : b.State)
      → is_enabled step ≡ true
      → stop_error is_confirmed step ≡ some error
      → execute_workflow_steps b inputs allowed_hosts is_confirmed (before ++ step ∷ after) s
        ≡ continue_with
            (execute_workflow_steps b inputs allowed_hosts is_confirmed before s)
            (λ _. failing error)
  unfolding execute_workflow_steps
  execute_workflow_steps-stop before step after error s on stop =
      execute_from-append 0 before (step ∷ after) [] (length before) s (omega arith)
      ∙ continue_with-cong (run_from 0 before [] s) _ _ (λ out s'.
        execute_from-raise (length before) step after out s' s' error on
          (execute_workflow_step-stop step error s' stop))
