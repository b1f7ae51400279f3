-- ===== src/Workflow/Navigation.antt =====
-- browser/workflow_navigate_executor.py: where a navigation may lead.
use job_searching_assistant.Prelude.{
  ◌≡◌, ap, subst, List, String, ok, raise, Result-cases, inl, inr,
}
use job_searching_assistant.SiteAccess.{ValidatedSiteAccess, validate_site_access}
use job_searching_assistant.SiteAccess.Allowed.{IsAllowed, validate_site_access-IsAllowed}
use job_searching_assistant.Workflow.Steps.{NavigateWorkflowStep}
use job_searching_assistant.Workflow.Page.{Action, Attempt, done, timed_out, broke, Browser}
use job_searching_assistant.Workflow.Executors.{validated, target, visit, arrived, execute_navigate}

pair-parts : {A B : Type 0} (x y : A) (u v : B) → ◌≡◌ {A = A × B} (x, u) (y, v) → (x ≡ y) × (u ≡ v)
pair-parts x y u v h = (ap (λ p. p.0) h, ap (λ p. p.1) h)

module _ (b : Browser) (allowed_hosts : List String) where
  -- A URL in the form in which it was accepted.
  abbrev pub IsTarget : String → String → Type 0
  IsTarget login_url canonical =
      (v : ValidatedSiteAccess) × IsAllowed b.unicode b.idna b.urls login_url allowed_hosts v
      × (v.login_url ≡ canonical)

  target-IsTarget :
      (login_url canonical : String)
      → target b login_url allowed_hosts ≡ ok canonical
      → IsTarget login_url canonical
  unfolding target
  target-IsTarget login_url canonical h =
      elim (Result-cases (validate_site_access b.unicode b.idna b.urls login_url allowed_hosts)) [
        | inl (v, e) ↦
            let h' : validated b (ok v) ≡ ok canonical =
              subst (λ r. validated b r ≡ ok canonical) e h in
            (
              v,
              validate_site_access-IsAllowed b.unicode b.idna b.urls login_url allowed_hosts v e,
              cc,
            )
        | inr (error, e) ↦
            let h' : validated b (raise error) ≡ ok canonical =
              subst (λ r. validated b r ≡ ok canonical) e h in
            cc
      ]

  pub record IsVisit (step : NavigateWorkflowStep) (s s' : b.State) (result : String) : Type 0 where
    pub opened : String
    pub opened_allowed : IsTarget step.url opened
    pub opens : b.perform (Action.goto opened) step.timeout_ms s ≡ (done, s')
    pub result_allowed : IsTarget (b.url s') result

  arrived-IsTarget :
      (p : Attempt × b.State) (result : String) (s' : b.State)
      → arrived b p allowed_hosts ≡ (ok result, s')
      → (p ≡ (done, s')) × IsTarget (b.url s') result
  arrived-IsTarget (done, t) result s' h =
      let (arrives, same) = pair-parts _ _ t s' h in
      (
        ap (λ u. (done, u)) same,
        target-IsTarget (b.url s') result
            (subst (λ u. target b (b.url u) allowed_hosts ≡ ok result) same arrives),
      )
  arrived-IsTarget (timed_out, t) result s' h = cc
  arrived-IsTarget (broke e, t) result s' h = cc

  -- If a navigation returns, then the URL it opened is the accepted form of the step's URL, the
  -- page opened, and the URL it returns is the accepted form of the page's address, so that both
  -- are on one of the allowed hosts.
  pub execute_navigate-IsVisit :
      (step : NavigateWorkflowStep) (s s' : b.State) (result : String)
      → execute_navigate b step allowed_hosts s ≡ (ok result, s')
      → IsVisit step s s' result
  unfolding execute_navigate
  execute_navigate-IsVisit step s s' result h =
      elim (Result-cases (target b step.url allowed_hosts)) [
        | inl (opened, e) ↦
            let h' : visit b (ok opened) step.timeout_ms allowed_hosts s ≡ (ok result, s') =
              subst (λ r. visit b r step.timeout_ms allowed_hosts s ≡ (ok result, s')) e h in
            let (opens, arrives) = arrived-IsTarget _ result s' h' in
            record {
              opened = opened;
              opened_allowed = target-IsTarget step.url opened e;
              opens = opens;
              result_allowed = arrives;
            }
        | inr (error, e) ↦
            let h' : visit b (raise error) step.timeout_ms allowed_hosts s ≡ (ok result, s') =
              subst (λ r. visit b r step.timeout_ms allowed_hosts s ≡ (ok result, s')) e h in
            cc
      ]
