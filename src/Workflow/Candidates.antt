-- ===== src/Workflow/Candidates.antt =====
-- browser/workflow_*_executor.py: the loop over the candidates of a step.
use job_searching_assistant.Prelude.{
  ℕ, ◌*◌, ◌≤◌, ◌≡◌, refl, ap, List, [], ◌∷◌, ◌++◌, length, max, arith, String, ok, raise, Result,
}
use native.Mathlib.Nat.{mul-div-le}
use job_searching_assistant.Workflow.Steps.{WorkflowSelectorCandidate}
use job_searching_assistant.Workflow.Page.{
  Locator, Action, Attempt, done, timed_out, broke, WorkflowError, timeout_error, page_error,
  Browser,
}
use job_searching_assistant.Workflow.Executors.{
  candidate_timeout, first_candidate, after_attempt, locator_for_workflow_candidate,
}
    -- However the candidates share a step's time, each gets a millisecond, and together they take no

-- more than the step's timeout, unless it is shorter than a millisecond for each.
pub candidate_timeout-shares :
    (timeout_ms : ℕ) (candidates : List WorkflowSelectorCandidate)
    → (1 ≤ candidate_timeout timeout_ms candidates)
      × (length candidates * candidate_timeout timeout_ms candidates
          ≤ max (length candidates) timeout_ms)
candidate_timeout-shares timeout_ms candidates =
    grind (arith, mul-div-le timeout_ms (length candidates))

module _ (b : Browser) (action : Locator → Action b.FilePath) (timeout : ℕ) where
  abbrev attempt : WorkflowSelectorCandidate → b.State → Attempt × b.State
  attempt c s = b.perform (action (locator_for_workflow_candidate b c)) timeout s

  -- Each of the candidates times out, one after the other.
  pub data TimesOut : List WorkflowSelectorCandidate → b.State → b.State → Type 0 where
    none_left : (s : b.State) → TimesOut [] s s
    next_fails :
        (c : WorkflowSelectorCandidate) (cs : List WorkflowSelectorCandidate) (s s' s'' : b.State)
        → attempt c s ≡ (timed_out, s')
        → TimesOut cs s' s''
        → TimesOut (c ∷ cs) s s''

  -- How the loop may end: every candidate timed out, or the first that did not was done or broke.
  pub data Tried (candidates : List WorkflowSelectorCandidate) (s : b.State)
      : Result WorkflowError WorkflowSelectorCandidate × b.State → Type 0 where
    all_fail :
        (s' : b.State) → TimesOut candidates s s' → Tried candidates s (raise timeout_error, s')
    one_works :
        (before : List WorkflowSelectorCandidate) (c : WorkflowSelectorCandidate)
        (after : List WorkflowSelectorCandidate) (s' s'' : b.State)
        → candidates ≡ before ++ c ∷ after
        → TimesOut before s s'
        → attempt c s' ≡ (done, s'')
        → Tried candidates s (ok c, s'')
    one_breaks :
        (before : List WorkflowSelectorCandidate) (c : WorkflowSelectorCandidate)
        (after : List WorkflowSelectorCandidate) (s' s'' : b.State) (e : String)
        → candidates ≡ before ++ c ∷ after
        → TimesOut before s s'
        → attempt c s' ≡ (broke e, s'')
        → Tried candidates s (raise (page_error e), s'')

  Tried-next :
      (c : WorkflowSelectorCandidate) (cs : List WorkflowSelectorCandidate) (s s' : b.State)
      (r : Result WorkflowError WorkflowSelectorCandidate × b.State)
      → attempt c s ≡ (timed_out, s')
      → Tried cs s' r
      → Tried (c ∷ cs) s r
  Tried-next c cs s s' _ e (Tried.all_fail t h) =
      Tried.all_fail t (TimesOut.next_fails c cs s s' t e h)
  Tried-next c cs s s' _ e (Tried.one_works before d after t u split h k) =
      Tried.one_works (c ∷ before) d after t u (ap (◌∷◌ c) split)
        (TimesOut.next_fails c before s s' t e h) k
  Tried-next c cs s s' _ e (Tried.one_breaks before d after t u error split h k) =
      Tried.one_breaks (c ∷ before) d after t u error (ap (◌∷◌ c) split)
        (TimesOut.next_fails c before s s' t e h) k

  Tried-first :
      (c : WorkflowSelectorCandidate) (cs : List WorkflowSelectorCandidate) (s : b.State)
      (p : Attempt × b.State)
      → attempt c s ≡ p
      → ((s' : b.State) → Tried cs s' (first_candidate b action timeout cs s'))
      → Tried (c ∷ cs) s (after_attempt b p c (first_candidate b action timeout cs))
  Tried-first c cs s (done, s') e rest = Tried.one_works [] c cs s s' refl (TimesOut.none_left s) e
  Tried-first c cs s (timed_out, s') e rest = Tried-next c cs s s' _ e (rest s')
  Tried-first c cs s (broke error, s') e rest =
      Tried.one_breaks [] c cs s s' error refl (TimesOut.none_left s) e

  -- The loop over any candidates gives the first one on which the action does not time out: its
  -- success, or its own exception, in the state it left; and it raises TimeoutError only if the
  -- action timed out on every candidate.
  pub first_candidate-Tried :
      (candidates : List WorkflowSelectorCandidate) (s : b.State)
      → Tried candidates s (first_candidate b action timeout candidates s)
  unfolding first_candidate
  first_candidate-Tried [] s = Tried.all_fail s (TimesOut.none_left s)
  first_candidate-Tried (c ∷ cs) s = Tried-first c cs s _ refl (first_candidate-Tried cs)
