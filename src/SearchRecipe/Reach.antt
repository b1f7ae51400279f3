-- ===== src/SearchRecipe/Reach.antt =====
-- domain/search_recipe.py: what an accepted scenario may do.
use job_searching_assistant.Prelude.{
  ℕ, ◌+◌, ◌≤◌, ◌≡◌, sym, ◌∙◌, Bool, true, false, ◌||◌, not, List, [], ◌∷◌, String, ltb, any, length,
  ◌==◌, string_eq, ok, raise_if-ok, bind-ok, ok-injective, All, arith,
}
use job_searching_assistant.SiteAccess.{UrlLibrary}
use job_searching_assistant.SiteAccess.Text.{Unicode}
use job_searching_assistant.SearchRecipe.{
  ReachStep, navigate, fill, click, is_navigate, is_allowed_host, hostname_of, is_value_key,
  check_steps, validate_reach_steps,
}

-- A step that fills a field with the query. It may be disabled: the runner then skips it.
abbrev pub fills_query : ReachStep → Bool
fills_query (fill s) = s.value_key == "query"
fills_query _ = false

or_none : (q : Bool) → (q || false) ≡ q
or_none q = ground arith

or_assoc : (p q r : Bool) → ((p || q) || r) ≡ (p || (q || r))
or_assoc p q r = ground arith

module _ (unicode : Unicode) (lower : String → String) (urls : UrlLibrary) where
  -- A step of a scenario on the allowed hosts, enabled or not: it opens a page on one of them, or
  -- fills a field with the query or the location. A click may be on anything.
  abbrev pub IsSafe : List String → ReachStep → Type 0
  IsSafe allowed_hosts (navigate s) =
      is_allowed_host unicode lower urls (hostname_of unicode lower urls s.url) allowed_hosts ≡ true
  IsSafe allowed_hosts (fill s) = is_value_key s.value_key ≡ true
  IsSafe allowed_hosts (click s) = Unit

  not-false : (b : Bool) → not b ≡ false → b ≡ true
  not-false b h = ground arith

  check_steps-IsSafe :
      (index : ℕ) (steps : List ReachStep) (allowed_hosts : List String) (has_query result : Bool)
      → check_steps unicode lower urls index steps allowed_hosts has_query ≡ ok result
      → All (IsSafe allowed_hosts) steps × (result ≡ (has_query || any fills_query steps))
  unfolding check_steps
  check_steps-IsSafe i [] hosts q r h = (tt, sym (ok-injective h) ∙ sym (or_none q))
  check_steps-IsSafe i (navigate s ∷ steps) hosts q r h =
      let (here, rest) =
        raise_if-ok
          (not (is_allowed_host unicode lower urls (hostname_of unicode lower urls s.url) hosts)) _
          _ r h in
      let (safe, e) = check_steps-IsSafe (i + 1) steps hosts q r rest in
      ((not-false _ here, safe), e)
  check_steps-IsSafe i (fill s ∷ steps) hosts q r h =
      let (here, rest) = raise_if-ok (not (is_value_key s.value_key)) _ _ r h in
      let (safe, e) = check_steps-IsSafe (i + 1) steps hosts (q || s.value_key == "query") r rest in
      ((not-false _ here, safe), e ∙ or_assoc q _ _)
  check_steps-IsSafe i (click s ∷ steps) hosts q r h =
      let (safe, e) = check_steps-IsSafe (i + 1) steps hosts q r h in ((tt, safe), e)

  -- An accepted scenario: there is none, or its first step is to open a page, each of its at most 30
  -- steps is safe, and one is to fill in the query.
  abbrev pub IsScenario : List String → List ReachStep → Type 0
  IsScenario allowed_hosts [] = Unit
  IsScenario allowed_hosts (step ∷ steps) =
      (is_navigate step ≡ true)
      × (length (step ∷ steps) ≤ 30)
      × All (IsSafe allowed_hosts) (step ∷ steps)
      × (any fills_query (step ∷ steps) ≡ true)

  short : (n : ℕ) → ltb 30 n ≡ false → n ≤ 30
  short n h = ground arith

  -- If the recorded steps of a recipe are accepted, then they are returned unchanged, and there is
  -- none, or the first is to open a page, there are at most 30, every page to open is on an allowed
  -- host, every field to fill takes the query or the location, and one takes the query. Clicks are
  -- not restricted, and all this is said of the steps as they are recorded, of disabled ones too,
  -- which a run skips.
  pub validate_reach_steps-IsScenario :
      (steps result : List ReachStep) (allowed_hosts : List String)
      → validate_reach_steps unicode lower urls steps allowed_hosts ≡ ok result
      → (result ≡ steps) × IsScenario allowed_hosts steps
  unfolding validate_reach_steps
  validate_reach_steps-IsScenario [] result hosts h = (sym (ok-injective h), tt)
  validate_reach_steps-IsScenario (step ∷ steps) result hosts h =
      let all_steps = step ∷ steps in
      let (few, h1) = raise_if-ok (ltb 30 (length all_steps)) _ _ result h in
      let (opens, h2) = raise_if-ok (not (is_navigate step)) _ _ result h1 in
      let (q, checked, h3) =
        bind-ok (check_steps unicode lower urls 0 all_steps hosts false) _ result h2 in
      let (typed, h4) = raise_if-ok (not q) _ _ result h3 in
      let (safe, e) = check_steps-IsSafe 0 all_steps hosts false q checked in
      (sym (ok-injective h4), (not-false _ opens, short _ few, safe, sym e ∙ not-false q typed))
