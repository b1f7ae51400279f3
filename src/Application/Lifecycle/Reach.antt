-- ===== src/Application/Lifecycle/Reach.antt =====
-- Where chains of status changes lead.
use job_searching_assistant.Prelude.{
  ◌≡◌, refl, ◌≢◌, ◌↔◌, subst, Bool, true, false, arith, elem, ◌∷◌, [], ok, Bool-cases, inl, inr,
}
use job_searching_assistant.Application.Lifecycle.{
  ApplicationStatus, draft, saved, awaiting_review, approved, rejected, employer_rejected, skipped,
  submitted, interview, offer, withdrawn, needs_review, status_eq, Actor, system, known,
  check_transition, transitions, human_only, email_extra,
}

-- A chain of real transitions by one actor.
pub data ReachesBy (actor : Actor) (s : ApplicationStatus) : ApplicationStatus → Type 0 where
  here : ReachesBy actor s s
  next :
      {t : ApplicationStatus} (u : ApplicationStatus)
      → ReachesBy actor s t
      → check_transition (known t) (known u) actor ≡ ok true
      → ReachesBy actor s u

-- The statuses that automation cannot leave.
abbrev pub is_closed : ApplicationStatus → Bool
is_closed s = elem s (rejected ∷ skipped ∷ withdrawn ∷ employer_rejected ∷ [])

closed_step :
    (s t : ApplicationStatus)
    → is_closed s ≡ true
    → check_transition (known s) (known t) system ≢ ok true
unfolding check_transition transitions human_only email_extra
closed_step rejected t h e = ground arith
closed_step s t h e = ground arith

closed_chain : (s t : ApplicationStatus) → is_closed s ≡ true → ReachesBy system s t → t ≡ s
closed_chain s t h here = refl
closed_chain s t h (next {t = m} u r e) = absurd (
    closed_step s u h
      (subst (λ v. check_transition (known v) (known u) system ≡ ok true) (closed_chain s m h r) e))

system_chain : (s : ApplicationStatus) → is_closed s ≡ false → ReachesBy system s awaiting_review
unfolding check_transition transitions human_only email_extra
system_chain draft h = next awaiting_review here refl
system_chain saved h = next awaiting_review here refl
system_chain awaiting_review h = here
system_chain approved h = next awaiting_review (next saved here refl) refl
system_chain needs_review h = next awaiting_review here refl
system_chain submitted h = next awaiting_review (next needs_review here refl) refl
system_chain interview h = next awaiting_review (next needs_review here refl) refl
system_chain offer h = next awaiting_review (next needs_review here refl) refl
system_chain rejected h = cc
system_chain employer_rejected h = cc
system_chain skipped h = cc
system_chain withdrawn h = cc

closed_not_awaiting : (s : ApplicationStatus) → is_closed s ≡ true → awaiting_review ≢ s
closed_not_awaiting s h e = ground arith

-- Changes that the system may make lead from a status to `awaiting_review` exactly when it is none
-- of rejected, skipped, withdrawn and employer_rejected.
pub ReachesBy-system_awaiting_review :
    (s : ApplicationStatus) → ReachesBy system s awaiting_review ↔ (is_closed s ≡ false)
ReachesBy-system_awaiting_review s = (
  λ r. elim (Bool-cases (is_closed s)) [
    | inl closed ↦ absurd (closed_not_awaiting s closed (closed_chain s awaiting_review closed r))
    | inr not_closed ↦ not_closed
  ],
  system_chain s,
)
