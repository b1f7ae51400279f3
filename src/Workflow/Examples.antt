-- ===== src/Workflow/Examples.antt =====
-- A page that counts what is done on it, and a recorded search.
use job_searching_assistant.SiteAccess.Hosts.{normalize_hosts}
use job_searching_assistant.Workflow.Stops.{stop_error}
use job_searching_assistant.Prelude.{
  ℕ, ◌+◌, ◌*◌, ◌≤◌, ◌≡◌, refl, Bool, true, false, List, [], ◌∷◌, ◌++◌, String, all, not, ◌==◌,
  string_eq, if◌then◌else◌, ok, OnOk, length, max,
}
use job_searching_assistant.SiteAccess.Examples.{ascii, as_written, one_url, two_hosts}
use job_searching_assistant.Workflow.Steps.{
  WorkflowSelectorKind, WorkflowSelectorCandidate, WorkflowStep, NavigateWorkflowStep, fill_step,
  click_step, submit_step,
}
use job_searching_assistant.Workflow.Page.{
  by_css, Action, Attempt, done, timed_out, confirmation_required, Browser, InputResolver,
  continue_with, failing,
}
use job_searching_assistant.Workflow.Executors.{
  candidate_timeout, first_candidate, execute_navigate,
}
use job_searching_assistant.Workflow.Runner.{execute_workflow_steps}
use job_searching_assistant.Workflow.Candidates.{
  Tried, candidate_timeout-shares, first_candidate-Tried,
}
use job_searching_assistant.Workflow.Stops.{execute_workflow_steps-stop}
use job_searching_assistant.Workflow.Outcomes.{
  expected_from, needs_person, execute_workflow_steps-outcomes,
}
use job_searching_assistant.Workflow.Completes.{
  IsSmooth, is_doable, execute_workflow_steps-completes,
}
use job_searching_assistant.Workflow.Navigation.{IsVisit, execute_navigate-IsVisit}

-- The number of actions so far, and the address.
abbrev PageState : Type 0
PageState = ℕ × String

abbrev counted : Action String → PageState → Attempt × PageState
counted (Action.goto url) s = (done, (s.0 + 1, url))
counted _ s = (done, (s.0 + 1, s.1))

abbrev pub counting : Browser
counting = record {
  State = PageState;
  FilePath = String;
  perform = λ a timeout s. counted a s;
  url = λ s. s.1;
  json_dumps = λ s. s;
  unicode = ascii;
  idna = as_written;
  urls = one_url;
}

-- On this page a click on `#old` times out.
abbrev clicked : Action String → PageState → Attempt × PageState
clicked (Action.click (by_css css)) s =
    if css == "#old" then (timed_out, (s.0 + 1, s.1)) else (done, (s.0 + 1, s.1))
clicked a s = counted a s

abbrev changed_page : Browser
changed_page = record counting { perform = λ a timeout s. clicked a s }

abbrev pub inputs : InputResolver String
inputs = record {
  resolve_text = λ key. ok key;
  resolve_boolean = λ key. ok true;
  resolve_file = λ key. ok key;
}

smooth : IsSmooth counting inputs
smooth = record {
  performs = λ a timeout s. counted-done a s;
  resolves_text = λ key. (key, refl);
  resolves_boolean = λ key. (true, refl);
  resolves_file = λ key. (key, refl);
}
  where
    counted-done : (a : Action String) (s : PageState) → (counted a s).0 ≡ done
    counted-done (Action.goto url) s = refl
    counted-done _ s = refl

abbrev css_candidate : String → WorkflowSelectorCandidate
css_candidate value = record { kind = WorkflowSelectorKind.css; value = value }

abbrev search_button : List WorkflowSelectorCandidate
search_button = css_candidate "#old" ∷ css_candidate "#search" ∷ []

abbrev fill_query : WorkflowStep
fill_query = fill_step (record {
  selector_candidates = css_candidate "#query" ∷ [];
  value_key = "query";
  timeout_ms = 10_000;
  is_enabled = true;
})

abbrev press_search : Bool → WorkflowStep
press_search on =
    click_step
      (record { selector_candidates = search_button; timeout_ms = 10_000; is_enabled = on })

abbrev send : WorkflowStep
send = submit_step (record {
  selector_candidates = css_candidate "#send" ∷ [];
  timeout_ms = 10_000;
  is_enabled = true;
})

abbrev recorded : List WorkflowStep
recorded = fill_query ∷ press_search false ∷ press_search true ∷ []

abbrev start : PageState
start = (0, "https://jobs.example.com/login")

falls_back :
    first_candidate changed_page Action.click 5_000 search_button start
    ≡ (ok (css_candidate "#search"), (2, "https://jobs.example.com/login"))
unfolding first_candidate
falls_back = refl

candidate_timeout-shares_example :
    (1 ≤ candidate_timeout 10_000 search_button)
    × (length search_button * candidate_timeout 10_000 search_button
        ≤ max (length search_button) 10_000)
candidate_timeout-shares_example = candidate_timeout-shares 10_000 search_button

first_candidate-Tried_example :
    Tried changed_page Action.click 5_000 search_button start
      (first_candidate changed_page Action.click 5_000 search_button start)
first_candidate-Tried_example =
    first_candidate-Tried changed_page Action.click 5_000 search_button start

execute_workflow_steps-stop_example :
    execute_workflow_steps counting inputs two_hosts false
      (recorded ++ send ∷ fill_query ∷ [])
      start
    ≡ continue_with
        (execute_workflow_steps counting inputs two_hosts false recorded start)
        (λ _. failing confirmation_required)
unfolding stop_error
execute_workflow_steps-stop_example =
    execute_workflow_steps-stop counting inputs two_hosts false recorded send (fill_query ∷ [])
      confirmation_required start refl refl

execute_workflow_steps-outcomes_example :
    OnOk
      (λ result.
        (result ≡ expected_from 0 recorded)
        × (all (λ x. not (needs_person false x)) recorded ≡ true))
      (execute_workflow_steps counting inputs two_hosts false recorded start).0
execute_workflow_steps-outcomes_example =
    execute_workflow_steps-outcomes counting inputs two_hosts false recorded start

execute_workflow_steps-completes_example :
    (s' : PageState) × (execute_workflow_steps counting inputs two_hosts true
        (recorded ++ send ∷ [])
        start
      ≡ (ok (expected_from 0 (recorded ++ send ∷ [])), s'))
unfolding is_doable
execute_workflow_steps-completes_example =
    execute_workflow_steps-completes counting inputs two_hosts true smooth (recorded ++ send ∷ [])
      start refl

abbrev to_login : NavigateWorkflowStep
to_login = record { url = "https://jobs.example.com/login"; timeout_ms = 10_000; is_enabled = true }

execute_navigate-IsVisit_example :
    IsVisit counting two_hosts to_login
      (0, "")
      (1, "https://jobs.example.com/login")
      "https://jobs.example.com/login"
unfolding execute_navigate normalize_hosts
execute_navigate-IsVisit_example =
    execute_navigate-IsVisit counting two_hosts to_login (0, "")
      (1, "https://jobs.example.com/login") "https://jobs.example.com/login" refl
