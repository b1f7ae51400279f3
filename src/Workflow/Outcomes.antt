-- ===== src/Workflow/Outcomes.antt =====
-- workflows/workflow_runner.py: the outcomes of a run.
use job_searching_assistant.Prelude.{
  ℕ, ◌+◌, ◌≡◌, refl, sym, ap, ◌∙◌, subst, Bool, true, false, ◌&&◌, not, List, [], ◌∷◌, ◌++◌, all,
  inl, inr, Bool-cases, Option-cases, OnOk-map, Result, ok, OnOk, is_some, if◌then◌else◌,
  append-nil, append_assoc, String,
}
use job_searching_assistant.Workflow.Steps.{WorkflowStep, is_enabled}
use job_searching_assistant.Workflow.Page.{
  WorkflowError, Browser, InputResolver, Coroutine, continue-cases,
}
use job_searching_assistant.Workflow.Runner.{
  WorkflowStepExecutionOutcome, WorkflowStepExecutionStatus, succeeded, skipped, outcome,
  execute_workflow_step, execute_from, execute_workflow_steps,
}
use job_searching_assistant.Workflow.Stops.{
  stop_error, execute_workflow_step-stop, execute_from-off, execute_from-ok, execute_from-raise,
  execute_from-nil,
}

-- What a run that gets to its end returns: one outcome for each step, in order.
abbrev pub expected_from : ℕ → List WorkflowStep → List WorkflowStepExecutionOutcome
expected_from n [] = []
expected_from n (x ∷ xs) =
    outcome n x (if is_enabled x then succeeded else skipped) ∷ expected_from (n + 1) xs

abbrev pub needs_person : Bool → WorkflowStep → Bool
needs_person is_confirmed step = is_enabled step && is_some (stop_error is_confirmed step)

module _ (b : Browser) (inputs : InputResolver b.FilePath) (allowed_hosts : List String)
    (is_confirmed : Bool) where
  abbrev run :
      ℕ
      → List WorkflowStep
      → List WorkflowStepExecutionOutcome
      → Coroutine b.State (List WorkflowStepExecutionOutcome)
  run = execute_from b inputs allowed_hosts is_confirmed

  IsExpected :
      ℕ
      → List WorkflowStep
      → List WorkflowStepExecutionOutcome
      → List WorkflowStepExecutionOutcome
      → Type 0
  IsExpected n xs out result =
      (result ≡ out ++ expected_from n xs)
      × (all (λ x. not (needs_person is_confirmed x)) xs ≡ true)

  IsExpected-step :
      (n : ℕ) (x : WorkflowStep) (xs : List WorkflowStep)
      (out result : List WorkflowStepExecutionOutcome) (status : WorkflowStepExecutionStatus)
      → (if is_enabled x then succeeded else skipped) ≡ status
      → needs_person is_confirmed x ≡ false
      → IsExpected (n + 1) xs (out ++ outcome n x status ∷ []) result
      → IsExpected n (x ∷ xs) out result
  unfolding IsExpected
  IsExpected-step n x xs out result status e free h = (
    h.0
        ∙ append_assoc out (outcome n x status ∷ []) (expected_from (n + 1) xs)
        ∙ ap (λ st. out ++ outcome n x st ∷ expected_from (n + 1) xs) (sym e),
    rw free h.1,
  )

  free_of_success :
      (x : WorkflowStep) (s s' : b.State)
      → execute_workflow_step b inputs allowed_hosts is_confirmed x s ≡ (ok tt, s')
      → is_some (stop_error is_confirmed x) ≡ false
  free_of_success x s s' h = elim (Option-cases (stop_error is_confirmed x)) [
    | inl free ↦ rw free refl
    | inr (e, stops) ↦
        let stopped = execute_workflow_step-stop b inputs allowed_hosts is_confirmed x e s stops in
        cc
  ]

  execute_from-IsExpected :
      (n : ℕ) (xs : List WorkflowStep) (out : List WorkflowStepExecutionOutcome) (s : b.State)
      → OnOk (IsExpected n xs out) (run n xs out s).0
  unfolding IsExpected
  execute_from-IsExpected n [] out s =
      subst
        (λ (p : Result WorkflowError (List WorkflowStepExecutionOutcome) × b.State).
          OnOk (IsExpected n [] out) p.0)
        (sym (execute_from-nil b inputs allowed_hosts is_confirmed n out s))
        (sym (append-nil out), refl)
  execute_from-IsExpected n (x ∷ xs) out s =
      let Goal : Result WorkflowError (List WorkflowStepExecutionOutcome) × b.State → Type 0 =
        λ p. OnOk (IsExpected n (x ∷ xs) out) p.0 in
      elim (Bool-cases (is_enabled x)) [
        | inl on ↦
            elim (continue-cases (execute_workflow_step b inputs allowed_hosts is_confirmed x s)) [
              | inl (_, s', good) ↦
                  subst Goal
                    (sym
                      (execute_from-ok b inputs allowed_hosts is_confirmed n x xs out s s' on good))
                    (OnOk-map (IsExpected (n + 1) xs _) (IsExpected n (x ∷ xs) out) _
                      (λ result.
                        IsExpected-step n x xs out result succeeded (rw on refl)
                          (rw on (free_of_success x s s' good)))
                      (execute_from-IsExpected (n + 1) xs _ s'))
              | inr (error, s', failed) ↦
                  subst Goal
                    (sym (
                      execute_from-raise b inputs allowed_hosts is_confirmed n x xs out s s' error
                        on failed))
                    tt
            ]
        | inr off ↦
            subst Goal (sym (execute_from-off b inputs allowed_hosts is_confirmed n x xs out s off))
              (OnOk-map (IsExpected (n + 1) xs _) (IsExpected n (x ∷ xs) out) _
                (λ result. IsExpected-step n x xs out result skipped (rw off refl) (rw off refl))
                (execute_from-IsExpected (n + 1) xs _ s))
      ]

  -- If a run returns its outcomes, then they are one for each step, in order and with the step's
  -- position and type, SUCCEEDED exactly for the enabled steps; and no enabled step needed a person.
  pub execute_workflow_steps-outcomes :
      (steps : List WorkflowStep) (s : b.State)
      → OnOk
          (λ result.
            (result ≡ expected_from 0 steps)
            × (all (λ x. not (needs_person is_confirmed x)) steps ≡ true))
          (execute_workflow_steps b inputs allowed_hosts is_confirmed steps s).0
  unfolding execute_workflow_steps IsExpected
  execute_workflow_steps-outcomes steps s = execute_from-IsExpected 0 steps [] s
