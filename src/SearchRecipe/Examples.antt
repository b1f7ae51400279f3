-- ===== src/SearchRecipe/Examples.antt =====
-- A recorded search on `jobs.example.com`.
use job_searching_assistant.Prelude.{
  ◌≡◌, refl, List, [], ◌∷◌, String, none, ok, raise, true, false, ◌||◌, ◌==◌, string_eq,
  if◌then◌else◌, map,
}
use job_searching_assistant.SiteAccess.Examples.{ascii, one_url}
use job_searching_assistant.SearchRecipe.{
  ReachStep, navigate, fill, host_not_allowed, no_query_typed, validate_reach_steps, workflow_step,
  LinkLibrary, resolve_hit_url,
}
use job_searching_assistant.SearchRecipe.Links.{IsHit, resolve_hit_url-IsHit}
use job_searching_assistant.SearchRecipe.Reach.{IsScenario}
use job_searching_assistant.SearchRecipe.Run.{validate_reach_steps-runs}
use job_searching_assistant.Workflow.Examples.{counting, inputs}
use job_searching_assistant.Workflow.Page.{InputResolver, timeout_error}
use job_searching_assistant.Workflow.Runner.{execute_workflow_steps}

abbrev as_is : String → String
as_is s = s

abbrev open_page : ReachStep
open_page =
    navigate
      (record { url = "https://jobs.example.com/login"; timeout_ms = 10_000; is_enabled = true })

abbrev type_in : String → ReachStep
type_in key =
    fill
      (record { selector_candidates = []; value_key = key; timeout_ms = 10_000; is_enabled = true })

abbrev hosts : List String
hosts = "jobs.example.com." ∷ []

wrong_host :
    validate_reach_steps ascii as_is one_url (open_page ∷ []) ("example.com" ∷ [])
    ≡ raise (host_not_allowed 1)
unfolding validate_reach_steps
wrong_host = refl

no_query :
    validate_reach_steps ascii as_is one_url (open_page ∷ type_in "location" ∷ []) hosts
    ≡ raise no_query_typed
unfolding validate_reach_steps
no_query = refl

-- A step that the runner skips counts as well.
disabled_query :
    let skipped = fill (record {
      selector_candidates = [];
      value_key = "query";
      timeout_ms = 10_000;
      is_enabled = false;
    }) in
    validate_reach_steps ascii as_is one_url (open_page ∷ skipped ∷ []) hosts
    ≡ ok (open_page ∷ skipped ∷ [])
unfolding validate_reach_steps
disabled_query = refl

-- The resolver of a search, which knows these two keys only.
abbrev search_inputs : InputResolver String
search_inputs = record {
  resolve_text = λ key. if key == "query" || key == "location" then ok key else raise timeout_error;
  resolve_boolean = λ key. raise timeout_error;
  resolve_file = λ key. raise timeout_error;
}

abbrev scenario : List ReachStep
scenario = open_page ∷ type_in "query" ∷ []

validate_reach_steps-runs_example :
    (scenario ≡ scenario)
    × IsScenario ascii as_is one_url hosts scenario
    × (execute_workflow_steps counting inputs hosts true (map workflow_step scenario) (0, "")
        ≡ execute_workflow_steps counting search_inputs hosts false
            (map workflow_step scenario)
            (0, ""))
unfolding validate_reach_steps
validate_reach_steps-runs_example =
    validate_reach_steps-runs counting inputs search_inputs hosts true false ascii as_is one_url
      refl refl scenario scenario hosts (0, "") refl

-- Links that are absolute already, printed without a query.
abbrev absolute_links : LinkLibrary
absolute_links = record {
  urljoin = λ base href. href;
  without_fragment = λ parts. one_url.urlunsplit parts.netloc parts.path parts.query;
}

skips_script :
    resolve_hit_url ascii as_is one_url absolute_links "https://jobs.example.com/" "javascript:x"
      hosts
    ≡ ok none
unfolding resolve_hit_url
skips_script = refl

resolve_hit_url-IsHit_example :
    IsHit ascii as_is one_url absolute_links "https://jobs.example.com/"
      " https://jobs.example.com/login" hosts "https://jobs.example.com/login"
unfolding resolve_hit_url
resolve_hit_url-IsHit_example =
    resolve_hit_url-IsHit ascii as_is one_url absolute_links "https://jobs.example.com/"
      " https://jobs.example.com/login" hosts "https://jobs.example.com/login" refl
