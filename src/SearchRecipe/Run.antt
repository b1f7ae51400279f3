-- ===== src/SearchRecipe/Run.antt =====
-- domain/search_recipe.py with workflows/workflow_runner.py: what a run of an accepted scenario
-- depends on.
use job_searching_assistant.Prelude.{
  ℕ, ◌+◌, ◌≡◌, refl, sym, ap, ◌∙◌, Bool, true, List, [], ◌∷◌, ◌⊎◌, inl, inr, Bool-cases, arith,
  String, string_eq, map, All, ok,
}
use job_searching_assistant.SiteAccess.{UrlLibrary}
use job_searching_assistant.SiteAccess.Text.{Unicode}
use job_searching_assistant.SearchRecipe.{
  ReachStep, navigate, fill, click, workflow_step, is_value_key, validate_reach_steps,
}
use job_searching_assistant.SearchRecipe.Reach.{IsSafe, IsScenario, validate_reach_steps-IsScenario}
use job_searching_assistant.Workflow.Steps.{WorkflowStep, is_enabled}
use job_searching_assistant.Workflow.Page.{
  Browser, InputResolver, continue-cases, lifted, ◌then_await◌,
}
use job_searching_assistant.Workflow.Runner.{
  WorkflowStepExecutionOutcome, awaited, execute_workflow_step, execute_from,
  execute_workflow_steps,
}
use job_searching_assistant.Workflow.Executors.{execute_fill}
use job_searching_assistant.Workflow.Stops.{
  execute_from-off, execute_from-ok, execute_from-raise, execute_from-nil,
}

known_key : (key : String) → is_value_key key ≡ true → (key ≡ "query") ⊎ (key ≡ "location")
known_key key h = ground (arith, string_eq.agrees key "query", string_eq.agrees key "location")

module _ (b : Browser) (inputs other_inputs : InputResolver b.FilePath) (hosts : List String)
    (is_confirmed other_confirmed : Bool) where
  abbrev IsAlike : WorkflowStep → Type 0
  IsAlike step =
      (s : b.State)
      → execute_workflow_step b inputs hosts is_confirmed step s
        ≡ execute_workflow_step b other_inputs hosts other_confirmed step s

  -- Steps that do the same with both inputs make runs that do.
  execute_from-alike :
      (n : ℕ) (steps : List WorkflowStep) (out : List WorkflowStepExecutionOutcome) (s : b.State)
      → All IsAlike steps
      → execute_from b inputs hosts is_confirmed n steps out s
        ≡ execute_from b other_inputs hosts other_confirmed n steps out s
  execute_from-alike n [] out s h =
      execute_from-nil b inputs hosts is_confirmed n out s
      ∙ sym (execute_from-nil b other_inputs hosts other_confirmed n out s)
  execute_from-alike n (x ∷ xs) out s (alike, h) = elim (Bool-cases (is_enabled x)) [
    | inr off ↦
        execute_from-off b inputs hosts is_confirmed n x xs out s off
        ∙ execute_from-alike (n + 1) xs _ s h
        ∙ sym (execute_from-off b other_inputs hosts other_confirmed n x xs out s off)
    | inl on ↦ elim (continue-cases (execute_workflow_step b inputs hosts is_confirmed x s)) [
      | inl (_, s', done_) ↦
          execute_from-ok b inputs hosts is_confirmed n x xs out s s' on done_
          ∙ execute_from-alike (n + 1) xs _ s' h
          ∙ sym (
              execute_from-ok b other_inputs hosts other_confirmed n x xs out s s' on
                (sym (alike s) ∙ done_))
      | inr (error, s', failed) ↦
          execute_from-raise b inputs hosts is_confirmed n x xs out s s' error on failed
          ∙ sym (
              execute_from-raise b other_inputs hosts other_confirmed n x xs out s s' error on
                (sym (alike s) ∙ failed))
    ]
  ]

  module _ (unicode : Unicode) (lower : String → String) (urls : UrlLibrary)
      (same_query : inputs.resolve_text "query" ≡ other_inputs.resolve_text "query")
      (same_location : inputs.resolve_text "location" ≡ other_inputs.resolve_text "location") where
    same_value :
        (key : String)
        → is_value_key key ≡ true
        → inputs.resolve_text key ≡ other_inputs.resolve_text key
    same_value key h = elim (known_key key h) [
      | inl is_query ↦ rw is_query same_query
      | inr is_location ↦ rw is_location same_location
    ]

    safe-IsAlike :
        (allowed_hosts : List String) (step : ReachStep)
        → IsSafe unicode lower urls allowed_hosts step
        → IsAlike (workflow_step step)
    unfolding execute_workflow_step
    safe-IsAlike allowed_hosts (navigate step) h s = refl
    safe-IsAlike allowed_hosts (click step) h s = refl
    safe-IsAlike allowed_hosts (fill step) h s =
        ap (λ r. (lifted r then_await (λ value. awaited (execute_fill b step value))) s)
          (same_value step.value_key h)

    safe_steps-IsAlike :
        (allowed_hosts : List String) (steps : List ReachStep)
        → All (IsSafe unicode lower urls allowed_hosts) steps
        → All IsAlike (map workflow_step steps)
    safe_steps-IsAlike allowed_hosts [] h = tt
    safe_steps-IsAlike allowed_hosts (step ∷ steps) h =
        (safe-IsAlike allowed_hosts step h.0, safe_steps-IsAlike allowed_hosts steps h.1)

    scenario-IsAlike :
        (allowed_hosts : List String) (steps : List ReachStep)
        → IsScenario unicode lower urls allowed_hosts steps
        → All IsAlike (map workflow_step steps)
    scenario-IsAlike allowed_hosts [] h = tt
    scenario-IsAlike allowed_hosts (step ∷ steps) h =
        safe_steps-IsAlike allowed_hosts (step ∷ steps) h.2

    -- If the recorded steps of a recipe are accepted, then they are returned unchanged and make a
    -- scenario: there is none, or the first is to open a page, there are at most 30, every page to
    -- open is on an allowed host, every field to fill takes the query or the location, and one
    -- takes the query; clicks are not restricted, and a disabled step counts like another. A run of
    -- them, in which disabled steps are skipped, depends on no other input than the query and the
    -- location, nor on a confirmation: with inputs that agree on these two, whatever other values and
    -- files they hold, it returns or raises the same and leaves the same state.
    pub validate_reach_steps-runs :
        (steps result : List ReachStep) (allowed_hosts : List String) (s : b.State)
        → validate_reach_steps unicode lower urls steps allowed_hosts ≡ ok result
        → (result ≡ steps)
          × IsScenario unicode lower urls allowed_hosts steps
          × (execute_workflow_steps b inputs hosts is_confirmed (map workflow_step result) s
              ≡ execute_workflow_steps b other_inputs hosts other_confirmed
                  (map workflow_step result)
                  s)
    unfolding execute_workflow_steps
    validate_reach_steps-runs steps result allowed_hosts s h =
        let (same, scenario) =
          validate_reach_steps-IsScenario unicode lower urls steps result allowed_hosts h in
        (
          same,
          scenario,
          rw same (
              execute_from-alike 0 (map workflow_step steps) [] s
                (scenario-IsAlike allowed_hosts steps scenario)),
        )
