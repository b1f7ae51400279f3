-- ===== src/Workflow/Page.antt =====
-- The browser, as far as the executors use Playwright, the resolver of inputs
-- (workflows/workflow_input_resolver.py) and the exceptions of an execution.
use job_searching_assistant.Prelude.{ℕ, ◌≡◌, refl, ◌⊎◌, inl, inr, Bool, String, Result, ok, raise}
use job_searching_assistant.SiteAccess.{UrlLibrary}
use job_searching_assistant.SiteAccess.Text.{Unicode}
use job_searching_assistant.SiteAccess.Hosts.{Idna}

-- What a page is asked for: Page.locator, get_by_label, get_by_placeholder, get_by_test_id.
pub data Locator : Type 0 where
  by_css by_label by_placeholder by_test_id : String → Locator

pub data Action (File : Type 0) : Type 0 where
  goto : String → Action File
  click wait_visible check uncheck : Locator → Action File
  fill select_option : Locator → String → Action File
  set_input_files : Locator → File → Action File

-- An action succeeds, raises Playwright's TimeoutError, or raises something else.
pub data Attempt : Type 0 where
  done timed_out : Attempt
  broke : String → Attempt

pub data WorkflowError : Type 0 where
  timeout_error : WorkflowError  -- TimeoutError
  page_timeout : WorkflowError  -- Playwright's TimeoutError
  unexpectedly_visible : WorkflowError  -- AssertionError
  confirmation_required : WorkflowError  -- WorkflowSubmitConfirmationRequired
  human_review_required : String → WorkflowError  -- WorkflowHumanReviewRequired
  invalid_site : WorkflowError  -- InvalidSiteAccess
  page_error : String → WorkflowError
  input_error : String → WorkflowError

-- `perform action timeout_ms` on the state of the browser and of the world behind it, `url` the
-- page's address, `json_dumps` a text as a JSON literal; the others are the parameters of SiteAccess.
pub record Browser : Type 1 where
  pub State : Type 0
  pub FilePath : Type 0
  pub perform : Action FilePath → ℕ → State → Attempt × State
  pub url : State → String
  pub json_dumps : String → String
  pub unicode : Unicode
  pub idna : Idna
  pub urls : UrlLibrary

-- WorkflowExecutionInputResolver
pub record InputResolver (FilePath : Type 0) : Type 0 where
  pub resolve_text : String → Result WorkflowError String
  pub resolve_boolean : String → Result WorkflowError Bool
  pub resolve_file : String → Result WorkflowError FilePath

-- A coroutine: what it returns or raises, and the state it leaves.
abbrev pub Coroutine : Type 0 → Type 0 → Type 0
Coroutine S A = S → Result WorkflowError A × S

abbrev pub done_with : {S A : Type 0} → A → Coroutine S A
done_with a s = (ok a, s)

abbrev pub failing : {S A : Type 0} → WorkflowError → Coroutine S A
failing e s = (raise e, s)

abbrev pub continue_with :
    {S A B : Type 0} → Result WorkflowError A × S → (A → Coroutine S B) → Result WorkflowError B × S
continue_with (ok a, s) next = next a s
continue_with (raise e, s) next = (raise e, s)

infixl 5 ◌then_await◌
abbrev pub ◌then_await◌ : {S A B : Type 0} → Coroutine S A → (A → Coroutine S B) → Coroutine S B
◌then_await◌ m next s = continue_with (m s) next

abbrev pub lifted : {S A : Type 0} → Result WorkflowError A → Coroutine S A
lifted r s = (r, s)

pub continue-cases :
    {S A : Type 0} (p : Result WorkflowError A × S)
    → ((a : A) × (s : S) × (p ≡ (ok a, s))) ⊎ ((e : WorkflowError) × (s : S) × (p ≡ (raise e, s)))
continue-cases (ok a, s) = inl (a, s, refl)
continue-cases (raise e, s) = inr (e, s, refl)

pub continue_with-cong :
    {S A B : Type 0} (p : Result WorkflowError A × S) (f g : A → Coroutine S B)
    → ((a : A) (s : S) → f a s ≡ g a s)
    → continue_with p f ≡ continue_with p g
continue_with-cong (ok a, s) f g h = h a s
continue_with-cong (raise e, s) f g h = refl
