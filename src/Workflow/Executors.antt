-- ===== src/Workflow/Executors.antt =====
-- browser/workflow_locators.py and browser/workflow_*_executor.py, with the two executors of
-- workflows/. A list of candidates is never empty (the schema refuses it).
use job_searching_assistant.Prelude.{
  ℕ, ◌/◌, max, Bool, List, [], ◌∷◌, String, length, if◌then◌else◌, Result, ok, raise, Option, some,
  none,
}
use Prim.Native.String.{◌++◌ as str_append}
use job_searching_assistant.SiteAccess.{ValidatedSiteAccess, validate_site_access}
use job_searching_assistant.SiteAccess.Hosts.{InvalidSiteAccess}
use job_searching_assistant.Workflow.Steps.{
  WorkflowSelectorKind, WorkflowSelectorCandidate, NavigateWorkflowStep, WaitWorkflowStep,
  ClickWorkflowStep, AssertWorkflowStep, FillWorkflowStep, SelectWorkflowStep, CheckWorkflowStep,
  UploadWorkflowStep, HumanReviewWorkflowStep, SubmitWorkflowStep,
}
use job_searching_assistant.Workflow.Page.{
  Locator, by_css, by_label, by_placeholder, by_test_id, Action, Attempt, done, timed_out, broke,
  WorkflowError, timeout_error, page_timeout, unexpectedly_visible, confirmation_required,
  human_review_required, invalid_site, page_error, Browser, Coroutine, done_with, failing,
  ◌then_await◌,
}

-- candidate_timeout_ms
abbrev pub candidate_timeout : ℕ → List WorkflowSelectorCandidate → ℕ
candidate_timeout timeout_ms candidates = max 1 (timeout_ms / length candidates)

module _ (b : Browser) where
  open b use {State, FilePath, perform, url, json_dumps, unicode, idna, urls}

  -- f"[{attribute}={json.dumps(value)}]"
  abbrev attribute_selector : String → String → String
  attribute_selector attribute value =
      str_append "[" (str_append attribute (str_append "=" (str_append (json_dumps value) "]")))

  abbrev locator_of : WorkflowSelectorKind → String → Locator
  locator_of WorkflowSelectorKind.role value = by_css (attribute_selector "role" value)
  locator_of WorkflowSelectorKind.label value = by_label value
  locator_of WorkflowSelectorKind.placeholder value = by_placeholder value
  locator_of WorkflowSelectorKind.test_id value = by_test_id value
  locator_of WorkflowSelectorKind.id value = by_css (attribute_selector "id" value)
  locator_of WorkflowSelectorKind.name value = by_css (attribute_selector "name" value)
  locator_of WorkflowSelectorKind.css value = by_css value

  abbrev pub locator_for_workflow_candidate : WorkflowSelectorCandidate → Locator
  locator_for_workflow_candidate c = locator_of c.kind c.value

  -- What one attempt comes to, with the rest of the loop.
  abbrev pub after_attempt :
      Attempt × State
      → WorkflowSelectorCandidate
      → Coroutine State WorkflowSelectorCandidate
      → Result WorkflowError WorkflowSelectorCandidate × State
  after_attempt (done, s) c rest = (ok c, s)
  after_attempt (timed_out, s) c rest = rest s
  after_attempt (broke e, s) c rest = (raise (page_error e), s)

  -- The loop over the candidates that the executors share: the first that does not time out.
  unfoldable pub first_candidate :
      (Locator → Action FilePath)
      → ℕ
      → List WorkflowSelectorCandidate
      → Coroutine State WorkflowSelectorCandidate
  first_candidate action timeout [] s = (raise timeout_error, s)
  first_candidate action timeout (c ∷ candidates) s =
      after_attempt (perform (action (locator_for_workflow_candidate c)) timeout s) c
        (first_candidate action timeout candidates)

  abbrev pub on_candidates :
      (Locator → Action FilePath)
      → ℕ
      → List WorkflowSelectorCandidate
      → Coroutine State WorkflowSelectorCandidate
  on_candidates action timeout_ms candidates =
      first_candidate action (candidate_timeout timeout_ms candidates) candidates

  unfoldable pub execute_wait : WaitWorkflowStep → Coroutine State WorkflowSelectorCandidate
  unfolding first_candidate
  execute_wait step = on_candidates Action.wait_visible step.timeout_ms step.selector_candidates

  unfoldable pub execute_click : ClickWorkflowStep → Coroutine State WorkflowSelectorCandidate
  unfolding first_candidate
  execute_click step = on_candidates Action.click step.timeout_ms step.selector_candidates

  unfoldable pub execute_fill :
      FillWorkflowStep → String → Coroutine State WorkflowSelectorCandidate
  unfolding first_candidate
  execute_fill step value =
      on_candidates (λ l. Action.fill l value) step.timeout_ms step.selector_candidates

  unfoldable pub execute_select :
      SelectWorkflowStep → String → Coroutine State WorkflowSelectorCandidate
  unfolding first_candidate
  execute_select step value =
      on_candidates (λ l. Action.select_option l value) step.timeout_ms step.selector_candidates

  unfoldable pub execute_check :
      CheckWorkflowStep → Bool → Coroutine State WorkflowSelectorCandidate
  unfolding first_candidate
  execute_check step value =
      on_candidates (λ l. if value then Action.check l else Action.uncheck l) step.timeout_ms
        step.selector_candidates

  unfoldable pub execute_upload :
      UploadWorkflowStep → FilePath → Coroutine State WorkflowSelectorCandidate
  unfolding first_candidate
  execute_upload step file_path =
      on_candidates (λ l. Action.set_input_files l file_path) step.timeout_ms
        step.selector_candidates

  -- `except TimeoutError: return None`, and the AssertionError behind the `try`.
  abbrev absent :
      Result WorkflowError WorkflowSelectorCandidate × State
      → Result WorkflowError (Option WorkflowSelectorCandidate) × State
  absent (ok c, s) = (raise unexpectedly_visible, s)
  absent (raise timeout_error, s) = (ok none, s)
  absent (raise e, s) = (raise e, s)

  unfoldable pub execute_assert :
      AssertWorkflowStep → Coroutine State (Option WorkflowSelectorCandidate)
  unfolding execute_wait
  execute_assert step s =
      let waiting : WaitWorkflowStep = record {
        selector_candidates = step.selector_candidates;
        timeout_ms = step.timeout_ms;
        is_enabled = step.is_enabled;
      } in
      if step.is_present
      then (execute_wait waiting then_await (λ c. done_with (some c))) s
      else absent (execute_wait waiting s)

  abbrev pub validated : Result InvalidSiteAccess ValidatedSiteAccess → Result WorkflowError String
  validated (ok v) = ok v.login_url
  validated (raise e) = raise invalid_site

  -- The canonical URL of a target that is allowed.
  unfoldable pub target : String → List String → Result WorkflowError String
  unfolding validate_site_access
  target login_url allowed_hosts =
      validated (validate_site_access unicode idna urls login_url allowed_hosts)

  abbrev pub arrived : Attempt × State → List String → Result WorkflowError String × State
  arrived (done, s) allowed_hosts = (target (url s) allowed_hosts, s)
  arrived (timed_out, s) allowed_hosts = (raise page_timeout, s)
  arrived (broke e, s) allowed_hosts = (raise (page_error e), s)

  abbrev pub visit : Result WorkflowError String → ℕ → List String → Coroutine State String
  visit (raise e) timeout_ms allowed_hosts s = (raise e, s)
  visit (ok login_url) timeout_ms allowed_hosts s =
      arrived (perform (Action.goto login_url) timeout_ms s) allowed_hosts

  unfoldable pub execute_navigate : NavigateWorkflowStep → List String → Coroutine State String
  unfolding target
  execute_navigate step allowed_hosts =
      visit (target step.url allowed_hosts) step.timeout_ms allowed_hosts

  unfoldable pub execute_human_review : HumanReviewWorkflowStep → Coroutine State (Unit {0})
  execute_human_review step = failing (human_review_required step.checkpoint_key)

  unfoldable pub execute_submit :
      SubmitWorkflowStep → Bool → Coroutine State WorkflowSelectorCandidate
  unfolding execute_click
  execute_submit step is_confirmed =
      if is_confirmed
      then execute_click (record {
        selector_candidates = step.selector_candidates;
        timeout_ms = step.timeout_ms;
        is_enabled = step.is_enabled;
      })
      else failing confirmation_required
