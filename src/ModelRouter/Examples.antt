-- ===== src/ModelRouter/Examples.antt =====
-- Two providers, of which the first has no connection.
use job_searching_assistant.Prelude.{
  ℕ, ◌+◌, ◌≡◌, refl, true, false, some, none, [], ◌∷◌, String, ltb, Result, ok, raise,
}
use job_searching_assistant.ModelRouter.{
  low_cost, Amounts, Setting, ModelRequest, ModelProvider, OutputSchema, ProviderError, connection,
  http_status, invalid_json, propagated, no_model, route,
}
use job_searching_assistant.ModelRouter.Routed.{Routed, route-Routed}

abbrev cents : Amounts
cents = record {
  Amount = ℕ;
  is_positive = λ n. ltb 0 n;
  is_negative = λ n. false;
  exceeds = λ a b. ltb b a;
}

-- The world is the number of calls so far.
abbrev calls : Setting
calls = record { amounts = cents; Schema = String; Payload = String; Output = String; World = ℕ }

abbrev any_object : OutputSchema calls
any_object = record { model_json_schema = "object"; model_validate = λ payload. ok payload }

abbrev provider : String → Result ProviderError String → ModelProvider calls
provider name answer = record {
  name = name;
  supports = λ c. true;
  estimate_cost_usd = λ r. 1;
  complete = λ r timeout w. (answer, w + 1);
}

abbrev summary : ModelRequest calls
summary = record {
  task_name = "summary";
  task_class = low_cost;
  prompt = "Summarize";
  max_cost_usd = 5;
  timeout_seconds = 30;
  response_schema = none;
  max_output_tokens = none;
  context_size = none;
  model_override = none;
}

abbrev offline : ModelProvider calls
offline = provider "local" (raise connection)

abbrev hosted : ModelProvider calls
hosted = provider "hosted" (ok "done")

falls_back : route calls any_object summary (offline ∷ hosted ∷ []) 0 ≡ (ok "done", 2)
unfolding route
falls_back = refl

all_offline :
    route calls any_object summary (offline ∷ provider "busy" (raise (http_status 503)) ∷ []) 0 ≡ (
      raise (no_model (("local", some connection) ∷ ("busy", some (http_status 503)) ∷ []) true),
      2,
    )
unfolding route
all_offline = refl

no_json :
    route calls any_object summary (provider "local" (raise invalid_json) ∷ hosted ∷ []) 0
    ≡ (raise (propagated invalid_json), 1)
unfolding route
no_json = refl

route-Routed_example :
    Routed calls any_object summary []
      (offline ∷ hosted ∷ [])
      0
      (route calls any_object summary (offline ∷ hosted ∷ []) 0)
route-Routed_example = route-Routed calls any_object summary (offline ∷ hosted ∷ []) 0 refl refl
