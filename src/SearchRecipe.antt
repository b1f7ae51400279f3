-- ===== src/SearchRecipe.antt =====
-- domain/search_recipe.py: the hosts that a recipe may reach, the recorded steps that lead to a
-- page of results, and the links of the results. urllib and `str.lower` are parameters.
pub mod Dots
pub mod Links
pub mod Reach
pub mod Run
mod Examples
use job_searching_assistant.Prelude.{
  ℕ, suc, ◌+◌, ◌≡◌, Bool, true, false, ◌&&◌, ◌||◌, not, Option, some, none, List, [], ◌∷◌, String,
  ltb, elem, any, length, ◌==◌, string_eq, if◌then◌else◌, Result, ok, raise, ◌>>=◌, ◌>>◌, raise_if,
}
use job_searching_assistant.SiteAccess.{SplitResult, UrlLibrary}
use job_searching_assistant.SiteAccess.Text.{Unicode, strip, is_text, is_dot, ends_with}
use job_searching_assistant.SearchRecipe.Dots.{rstrip_dots, starts_with}
use job_searching_assistant.Workflow.Steps.{
  NavigateWorkflowStep, FillWorkflowStep, ClickWorkflowStep, WorkflowStep, navigate_step, fill_step,
  click_step,
}

-- ReachStep
pub data ReachStep : Type 0 where
  navigate : NavigateWorkflowStep → ReachStep
  fill : FillWorkflowStep → ReachStep
  click : ClickWorkflowStep → ReachStep

-- The step as the runner executes it.
abbrev pub workflow_step : ReachStep → WorkflowStep
workflow_step (navigate s) = navigate_step s
workflow_step (fill s) = fill_step s
workflow_step (click s) = click_step s

-- InvalidSearchRecipe, with the number of the step that its message prints.
pub data InvalidSearchRecipe : Type 0 where
  too_many_steps no_page_opened no_query_typed : InvalidSearchRecipe
  host_not_allowed field_not_allowed : ℕ → InvalidSearchRecipe

-- The ValueError of a text that urlsplit refuses.
pub data MalformedUrl : Type 0 where
  malformed_url : MalformedUrl

-- urllib.parse.urljoin, and geturl of a result without its fragment.
pub record LinkLibrary : Type 0 where
  pub urljoin : (base href : String) → String
  pub without_fragment : SplitResult → String

abbrev pub has_text : Option String → Bool
has_text none = false
has_text (some s) = is_text s

abbrev pub is_navigate : ReachStep → Bool
is_navigate (navigate s) = true
is_navigate _ = false

abbrev pub is_value_key : String → Bool
is_value_key key = elem key ("query" ∷ "location" ∷ [])

abbrev pub is_no_link : String → Bool
is_no_link href =
    not (is_text href) || any (starts_with href) ("#" ∷ "javascript:" ∷ "mailto:" ∷ "tel:" ∷ [])

module _ (unicode : Unicode) (lower : String → String) (urls : UrlLibrary) where
  abbrev pub normalize_host : String → String
  normalize_host host = rstrip_dots (lower (strip unicode host))

  unfoldable pub is_allowed_host : Option String → List String → Bool
  is_allowed_host none allowed_hosts = false
  is_allowed_host (some host) allowed_hosts =
      is_text host && any (λ a. normalize_host host == normalize_host a) allowed_hosts

  -- `urlsplit(url).hostname`; a URL that is no URL has been refused when the step was parsed.
  abbrev pub hostname_of : String → Option String
  hostname_of url = elim (urls.urlsplit url) [ none ↦ none | some parsed ↦ parsed.hostname ]

  -- The loop of validate_reach_steps, with has_query_fill, which it returns.
  unfoldable pub check_steps :
      ℕ → List ReachStep → List String → Bool → Result InvalidSearchRecipe Bool
  unfolding is_allowed_host
  check_steps index [] allowed_hosts has_query = ok has_query
  check_steps index (navigate s ∷ steps) allowed_hosts has_query =
      raise_if (not (is_allowed_host (hostname_of s.url) allowed_hosts))
        (host_not_allowed (index + 1))
      >> check_steps (index + 1) steps allowed_hosts has_query
  check_steps index (fill s ∷ steps) allowed_hosts has_query =
      raise_if (not (is_value_key s.value_key)) (field_not_allowed (index + 1))
      >> check_steps (index + 1) steps allowed_hosts (has_query || s.value_key == "query")
  check_steps index (click s ∷ steps) allowed_hosts has_query =
      check_steps (index + 1) steps allowed_hosts has_query

  unfoldable pub validate_reach_steps :
      List ReachStep → List String → Result InvalidSearchRecipe (List ReachStep)
  unfolding check_steps
  validate_reach_steps [] allowed_hosts = ok []
  validate_reach_steps (step ∷ steps) allowed_hosts =
      raise_if (ltb 30 (length (step ∷ steps))) too_many_steps
      >> (raise_if (not (is_navigate step)) no_page_opened
          >> (check_steps 0 (step ∷ steps) allowed_hosts false >>= λ has_query.
              raise_if (not has_query) no_query_typed >> ok (step ∷ steps)))

  abbrev pub is_safe_link : SplitResult → List String → Bool
  is_safe_link absolute allowed_hosts =
      absolute.scheme == "https"
      && not (has_text absolute.username || has_text absolute.password)
      && is_allowed_host absolute.hostname allowed_hosts

  unfoldable pub resolve_hit_url :
      LinkLibrary → (base_url href : String) → List String → Result MalformedUrl (Option String)
  unfolding is_allowed_host
  resolve_hit_url links base_url href allowed_hosts =
      let stripped = strip unicode href in
      if is_no_link stripped
      then ok none
      else elim (urls.urlsplit (links.urljoin base_url stripped)) [
        | none ↦ raise malformed_url
        | some absolute ↦
            if is_safe_link absolute allowed_hosts
            then ok (some (links.without_fragment absolute))
            else ok none
      ]
