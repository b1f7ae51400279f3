-- ===== src/Workflow/Completes.antt =====
-- workflows/workflow_runner.py: a run on a page where every action succeeds.
use job_searching_assistant.Prelude.{
  both-true, ℕ, ◌+◌, ◌≡◌, refl, sym, ap, ◌∙◌, Bool, true, false, ◌&&◌, ◌||◌, not, List, [], ◌∷◌,
  ◌++◌, all, inl, inr, Bool-cases, ok, if◌then◌else◌, arith, String, append-nil, append_assoc,
}
use job_searching_assistant.Workflow.Steps.{
  WorkflowSelectorCandidate, WorkflowStep, navigate_step, fill_step, upload_step, select_step,
  check_step, click_step, wait_step, assert_step, human_review_step, submit_step, is_enabled,
  SubmitWorkflowStep,
}
use job_searching_assistant.Workflow.Page.{
  Locator, Action, Attempt, done, Browser, InputResolver, Coroutine, continue_with, done_with,
}
use job_searching_assistant.Workflow.Executors.{
  first_candidate, on_candidates, execute_wait, execute_click, execute_fill, execute_select,
  execute_check, execute_upload, execute_assert, execute_submit, after_attempt,
}
use job_searching_assistant.Workflow.Runner.{
  WorkflowStepExecutionOutcome, WorkflowStepExecutionStatus, succeeded, skipped, outcome,
  execute_workflow_step, execute_from, execute_workflow_steps,
}
use job_searching_assistant.Workflow.Stops.{execute_from-off, execute_from-ok, execute_from-nil}
use job_searching_assistant.Workflow.Outcomes.{expected_from}

-- Every action on the page succeeds, and every input is resolved.
pub record IsSmooth (b : Browser) (inputs : InputResolver b.FilePath) : Type 0 where
  pub performs :
      (a : Action b.FilePath) (timeout : ℕ) (s : b.State) → (b.perform a timeout s).0 ≡ done
  pub resolves_text : (key : String) → (v : String) × (inputs.resolve_text key ≡ ok v)
  pub resolves_boolean : (key : String) → (v : Bool) × (inputs.resolve_boolean key ≡ ok v)
  pub resolves_file : (key : String) → (v : b.FilePath) × (inputs.resolve_file key ≡ ok v)

abbrev has_candidate : List WorkflowSelectorCandidate → Bool
has_candidate [] = false
has_candidate (c ∷ cs) = true

-- A step that such a page can do: not a person's, not one that waits for an absence, and not one
-- that opens another page.
unfoldable pub is_doable : Bool → WorkflowStep → Bool
is_doable is_confirmed (navigate_step s) = false
is_doable is_confirmed (human_review_step s) = false
is_doable is_confirmed (fill_step s) = has_candidate s.selector_candidates
is_doable is_confirmed (upload_step s) = has_candidate s.selector_candidates
is_doable is_confirmed (select_step s) = has_candidate s.selector_candidates
is_doable is_confirmed (check_step s) = has_candidate s.selector_candidates
is_doable is_confirmed (click_step s) = has_candidate s.selector_candidates
is_doable is_confirmed (wait_step s) = has_candidate s.selector_candidates
is_doable is_confirmed (assert_step s) = s.is_present && has_candidate s.selector_candidates
is_doable is_confirmed (submit_step s) = is_confirmed && has_candidate s.selector_candidates

doable-enabled : (on doable : Bool) → (not on || doable) ≡ true → on ≡ true → doable ≡ true
doable-enabled on doable h e = ground arith

module _ (b : Browser) (inputs : InputResolver b.FilePath) (allowed_hosts : List String)
    (is_confirmed : Bool) (smooth : IsSmooth b inputs) where
  after-done :
      (p : Attempt × b.State) (c : WorkflowSelectorCandidate)
      (rest : Coroutine b.State WorkflowSelectorCandidate)
      → p.0 ≡ done
      → after_attempt b p c rest ≡ (ok c, p.1)
  after-done (a, s) c rest h = rw h refl

  -- On candidates: the first is taken.
  on_candidates-done :
      (action : Locator → Action b.FilePath) (timeout : ℕ) (cs : List WorkflowSelectorCandidate)
      (s : b.State)
      → has_candidate cs ≡ true
      → (c : WorkflowSelectorCandidate) × (s' : b.State) × (on_candidates b action timeout cs s
          ≡ (ok c, s'))
  unfolding first_candidate
  on_candidates-done action timeout [] s h = cc
  on_candidates-done action timeout (c ∷ cs) s h = (c, _, after-done _ c _ (smooth.performs _ _ s))

  submit-confirmed :
      (x : SubmitWorkflowStep) (s : b.State)
      → is_confirmed ≡ true
      → execute_submit b x is_confirmed s
        ≡ on_candidates b Action.click x.timeout_ms x.selector_candidates s
  unfolding execute_submit execute_click
  submit-confirmed x s h = rw h refl

  execute_workflow_step-done :
      (x : WorkflowStep) (s : b.State)
      → is_doable is_confirmed x ≡ true
      → (s' : b.State) × (execute_workflow_step b inputs allowed_hosts is_confirmed x s
          ≡ (ok tt, s'))
  unfolding is_doable execute_workflow_step execute_wait execute_click execute_fill execute_select
      execute_check execute_upload execute_assert execute_submit
  execute_workflow_step-done (click_step x) s h =
      let (c, s', e) = on_candidates-done Action.click x.timeout_ms x.selector_candidates s h in
      (s', rw e refl)
  execute_workflow_step-done (fill_step x) s h =
      let (v, r) = smooth.resolves_text x.value_key in
      let (c, s', e) =
        on_candidates-done (λ l. Action.fill l v) x.timeout_ms x.selector_candidates s h in
      (s', rw (r, e) refl)
  execute_workflow_step-done (select_step x) s h =
      let (v, r) = smooth.resolves_text x.value_key in
      let (c, s', e) =
        on_candidates-done (λ l. Action.select_option l v) x.timeout_ms x.selector_candidates s h in
      (s', rw (r, e) refl)
  execute_workflow_step-done (check_step x) s h =
      let (v, r) = smooth.resolves_boolean x.value_key in
      let (c, s', e) =
        on_candidates-done (λ l. if v then Action.check l else Action.uncheck l) x.timeout_ms
          x.selector_candidates s h in
      (s', rw (r, e) refl)
  execute_workflow_step-done (upload_step x) s h =
      let (v, r) = smooth.resolves_file x.file_value_key in
      let (c, s', e) =
        on_candidates-done (λ l. Action.set_input_files l v) x.timeout_ms x.selector_candidates s
          h in
      (s', rw (r, e) refl)
  execute_workflow_step-done (wait_step x) s h =
      let (c, s', e) =
        on_candidates-done Action.wait_visible x.timeout_ms x.selector_candidates s h in
      (s', rw e refl)
  execute_workflow_step-done (assert_step x) s h =
      let (present, some_) = both-true x.is_present (has_candidate x.selector_candidates) h in
      let (c, s', e) =
        on_candidates-done Action.wait_visible x.timeout_ms x.selector_candidates s some_ in
      (s', rw (present, e) refl)
  execute_workflow_step-done (submit_step x) s h =
      let (confirmed, some_) = both-true is_confirmed (has_candidate x.selector_candidates) h in
      let (c, s', e) = on_candidates-done Action.click x.timeout_ms x.selector_candidates s some_ in
      (s', ap (λ p. continue_with p (λ _. done_with tt)) (submit-confirmed x s confirmed ∙ e))
  execute_workflow_step-done (navigate_step x) s h = cc
  execute_workflow_step-done (human_review_step x) s h = cc

  Completed : ℕ → List WorkflowStep → List WorkflowStepExecutionOutcome → b.State → Type 0
  Completed n xs out s =
      (s' : b.State) × (execute_from b inputs allowed_hosts is_confirmed n xs out s
        ≡ (ok (out ++ expected_from n xs), s'))

  Completed-step :
      (n : ℕ) (x : WorkflowStep) (xs : List WorkflowStep) (out : List WorkflowStepExecutionOutcome)
      (s s' : b.State) (status : WorkflowStepExecutionStatus)
      → (if is_enabled x then succeeded else skipped) ≡ status
      → execute_from b inputs allowed_hosts is_confirmed n (x ∷ xs) out s
        ≡ execute_from b inputs allowed_hosts is_confirmed
            (n + 1)
            xs
            (out ++ outcome n x status ∷ [])
            s'
      → Completed (n + 1) xs (out ++ outcome n x status ∷ []) s'
      → Completed n (x ∷ xs) out s
  unfolding Completed
  Completed-step n x xs out s s' status e step (end_, rest) = (
    end_,
    step
        ∙ rest
        ∙ ap (λ o. (ok o, end_))
            (append_assoc out (outcome n x status ∷ []) (expected_from (n + 1) xs)
              ∙ ap (λ st. out ++ outcome n x st ∷ expected_from (n + 1) xs) (sym e)),
  )

  execute_from-completes :
      (n : ℕ) (xs : List WorkflowStep) (out : List WorkflowStepExecutionOutcome) (s : b.State)
      → all (λ x. not (is_enabled x) || is_doable is_confirmed x) xs ≡ true
      → Completed n xs out s
  unfolding Completed
  execute_from-completes n [] out s h = (
    s,
    execute_from-nil b inputs allowed_hosts is_confirmed n out s
        ∙ ap (λ o. (ok o, s)) (sym (append-nil out)),
  )
  execute_from-completes n (x ∷ xs) out s h =
      let (first, rest) = both-true (not (is_enabled x) || is_doable is_confirmed x) _ h in
      elim (Bool-cases (is_enabled x)) [
        | inl on ↦
            let (s', good) = execute_workflow_step-done x s (doable-enabled _ _ first on) in
            Completed-step n x xs out s s' succeeded (rw on refl)
              (execute_from-ok b inputs allowed_hosts is_confirmed n x xs out s s' on good)
              (execute_from-completes (n + 1) xs _ s' rest)
        | inr off ↦
            Completed-step n x xs out s s skipped (rw off refl)
              (execute_from-off b inputs allowed_hosts is_confirmed n x xs out s off)
              (execute_from-completes (n + 1) xs _ s rest)
      ]

  -- If every action on the page succeeds and every input is resolved, and each enabled step has a
  -- candidate, is confirmed if it is a submission, and is neither a human review, nor an assertion
  -- of an absence, nor a navigation, then the run returns, with one outcome for each step:
  -- SUCCEEDED if the step is enabled, and SKIPPED if not.
  pub execute_workflow_steps-completes :
      (steps : List WorkflowStep) (s : b.State)
      → all (λ x. not (is_enabled x) || is_doable is_confirmed x) steps ≡ true
      → (s' : b.State) × (execute_workflow_steps b inputs allowed_hosts is_confirmed steps s
          ≡ (ok (expected_from 0 steps), s'))
  unfolding execute_workflow_steps Completed
  execute_workflow_steps-completes steps s h = execute_from-completes 0 steps [] s h
