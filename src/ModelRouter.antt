-- ===== src/ModelRouter.antt =====
-- llm/router.py: ModelRouter.route, over an interface of the providers. Amounts of money are of any
-- type with the tests that the router makes; logging is left out.
pub mod Routed
mod Examples
use job_searching_assistant.Prelude.{
  ℕ, ◌≡◌, Bool, true, false, ◌&&◌, ◌||◌, not, Option, some, none, List, [], ◌∷◌, ◌++◌, String, leb,
  all, nat_beq, if◌then◌else◌, Result, ok, raise,
}

pub data ModelTaskClass : Type 0 where
  low_cost strong_reasoning embedding : ModelTaskClass

-- The costs and times of a request, with the tests of the router.
pub record Amounts : Type 1 where
  pub Amount : Type 0
  pub is_positive : Amount → Bool
  pub is_negative : Amount → Bool
  pub exceeds : Amount → Amount → Bool

-- The types that the router passes on: a JSON schema, a provider's payload, the validated output,
-- and the state of the world that a call changes.
pub record Setting : Type 1 where
  pub amounts : Amounts
  pub Schema : Type 0
  pub Payload : Type 0
  pub Output : Type 0
  pub World : Type 0

pub record ModelRequest (st : Setting) : Type 0 where
  pub task_name : String
  pub task_class : ModelTaskClass
  pub prompt : String
  pub max_cost_usd : st.amounts.Amount
  pub timeout_seconds : st.amounts.Amount
  pub response_schema : Option st.Schema
  pub max_output_tokens : Option ℕ
  pub context_size : Option ℕ
  pub model_override : Option String

-- The exceptions of a provider's call, of its timeout and of the validation of its payload, as far
-- as the router tells them apart.
pub data ProviderError : Type 0 where
  llm_timeout truncated_output invalid_json : ProviderError
  timeout connection http_timeout network remote_protocol : ProviderError
  http_status : ℕ → ProviderError
  other : String → ProviderError

-- What `route` raises: a ValueError, a provider's exception as it is, NoModelAvailableError.
pub data RouteError : Type 0 where
  bad_cost bad_timeout : RouteError
  propagated : ProviderError → RouteError
  no_model : (errors : List (String × Option ProviderError)) (retryable : Bool) → RouteError

-- A provider: `complete` is its call under asyncio.wait_for, with the state of the world.
pub record ModelProvider (st : Setting) : Type 0 where
  pub name : String
  pub supports : ModelTaskClass → Bool
  pub estimate_cost_usd : ModelRequest st → st.amounts.Amount
  pub complete :
      ModelRequest st → st.amounts.Amount → st.World → Result ProviderError st.Payload × st.World

unfoldable pub is_retryable_provider_error : ProviderError → Bool
is_retryable_provider_error llm_timeout = true
is_retryable_provider_error timeout = true
is_retryable_provider_error connection = true
is_retryable_provider_error http_timeout = true
is_retryable_provider_error network = true
is_retryable_provider_error remote_protocol = true
is_retryable_provider_error (http_status code) = nat_beq code 429 || leb 500 code
is_retryable_provider_error _ = false

-- LLMTruncatedOutputError | LLMInvalidJSONError | LLMTimeoutError
unfoldable pub is_propagated : ProviderError → Bool
is_propagated truncated_output = true
is_propagated invalid_json = true
is_propagated llm_timeout = true
is_propagated _ = false

-- provider_errors and retryable_results: an error with the provider's name, none for
-- budget_exceeded, and whether it may go away.
pub record Failures : Type 0 where
  pub provider_errors : List (String × Option ProviderError)
  pub retryable_results : List Bool

abbrev pub no_failures : Failures
no_failures = record { provider_errors = []; retryable_results = [] }

abbrev pub add_failure : String → Option ProviderError → Bool → Failures → Failures
add_failure name error retryable f = record {
  provider_errors = f.provider_errors ++ (name, error) ∷ [];
  retryable_results = f.retryable_results ++ retryable ∷ [];
}

abbrev pub nonempty_all : List Bool → Bool
nonempty_all [] = false
nonempty_all (b ∷ bs) = all (λ x. x) (b ∷ bs)

abbrev pub is_valid :
    {P O : Type 0} → (P → Result ProviderError O) → Result ProviderError P → Result ProviderError O
is_valid validate (ok payload) = validate payload
is_valid validate (raise e) = raise e

-- `output_schema`: model_json_schema and model_validate.
pub record OutputSchema (st : Setting) : Type 0 where
  pub model_json_schema : st.Schema
  pub model_validate : st.Payload → Result ProviderError st.Output

module _ (st : Setting) (schema : OutputSchema st) (request : ModelRequest st) where
  open st use {amounts, Output, World}

  abbrev pub provider_request : ModelRequest st
  provider_request = record request { response_schema = some schema.model_json_schema }

  abbrev pub is_over_budget : ModelProvider st → Bool
  is_over_budget p =
      let cost = p.estimate_cost_usd request in
      amounts.is_negative cost || amounts.exceeds cost request.max_cost_usd

  -- The body of the `try`.
  abbrev pub attempt : ModelProvider st → World → Result ProviderError Output × World
  attempt p w =
      let answer = p.complete provider_request request.timeout_seconds w in
      (is_valid schema.model_validate answer.0, answer.1)

  -- What follows an attempt: the end of the loop, or its rest.
  abbrev pub after_attempt :
      ModelProvider st
      → Result ProviderError Output × World
      → Failures
      → (Failures → World → Result RouteError Output × World)
      → Result RouteError Output × World
  after_attempt p (ok output, w) failures rest = (ok output, w)
  after_attempt p (raise e, w) failures rest =
      if is_propagated e
      then (raise (propagated e), w)
      else rest (add_failure p.name (some e) (is_retryable_provider_error e) failures) w

  unfoldable pub route_from :
      List (ModelProvider st) → Failures → World → Result RouteError Output × World
  unfolding is_propagated is_retryable_provider_error
  route_from [] failures w =
      (raise (no_model failures.provider_errors (nonempty_all failures.retryable_results)), w)
  route_from (p ∷ providers) failures w = elim (p.supports request.task_class) [
    | false ↦ route_from providers failures w
    | true ↦ elim (is_over_budget p) [
      | true ↦ route_from providers (add_failure p.name none false failures) w
      | false ↦ after_attempt p (attempt p w) failures (route_from providers)
    ]
  ]

  unfoldable pub route : List (ModelProvider st) → World → Result RouteError Output × World
  unfolding route_from
  route providers w =
      if not (amounts.is_positive request.max_cost_usd)
      then (raise bad_cost, w)
      else if not (amounts.is_positive request.timeout_seconds)
      then (raise bad_timeout, w)
      else route_from providers no_failures w
