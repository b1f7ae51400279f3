-- ===== src/Application/Lifecycle/Rules.antt =====
-- What the transition table lets each actor do.
use job_searching_assistant.Prelude.{
  ◌≡◌, refl, ◌≢◌, ◌↔◌, Bool, true, false, arith, elem, ◌∷◌, [], ◌⊎◌, inl, inr, ok, Bool-cases, ◌==◌,
  ◌&&◌, ◌||◌, not, elem-filter_by, subst,
}
use job_searching_assistant.Application.Lifecycle.{
  ApplicationStatus, draft, saved, awaiting_review, approved, submitted, needs_review, status_eq,
  status_beq_iff, StatusText, known, other_text, Actor, human, system, email, check_known,
  check_transition, allowed_targets, transitions, human_only, email_extra, is_human, alphabetical,
}

known_actors_monotone :
    (s t : ApplicationStatus) (b : Bool)
    → check_known s t system ≡ ok b
    → (check_known s t human ≡ ok b) × (check_known s t email ≡ ok b)
unfolding check_known transitions human_only email_extra
known_actors_monotone draft t b h = ground arith
known_actors_monotone s t b h = ground arith

-- A change that is allowed to the system is allowed to a person and to an email, with the same
-- answer.
pub check_transition-system_le :
    (s t : StatusText) (b : Bool)
    → check_transition s t system ≡ ok b
    → (check_transition s t human ≡ ok b) × (check_transition s t email ≡ ok b)
unfolding check_transition
check_transition-system_le (known s) (known t) b h = known_actors_monotone s t b h
check_transition-system_le (known s) (other_text t) b h = cc
check_transition-system_le (other_text s) (known t) b h = cc
check_transition-system_le (other_text s) (other_text t) b h = cc

-- The statuses from which an email may approve.
abbrev pub MayApproveByEmail : ApplicationStatus → Type 0
MayApproveByEmail s =
    elem s (draft ∷ saved ∷ awaiting_review ∷ needs_review ∷ submitted ∷ []) ≡ true

known_approval :
    (s : ApplicationStatus) (actor : Actor)
    → check_known s approved actor ≡ ok true
    → (actor ≡ human) ⊎ ((actor ≡ email) × MayApproveByEmail s)
unfolding check_known transitions human_only email_extra
known_approval draft actor h = ground arith
known_approval s actor h = ground arith

-- A change to `approved` that is granted is granted to a person, or to an email from draft, saved,
-- awaiting_review, needs_review or submitted.
pub check_transition-approval :
    (s : StatusText) (actor : Actor)
    → check_transition s (known approved) actor ≡ ok true
    → (actor ≡ human)
      ⊎ ((actor ≡ email)
          × ((status : ApplicationStatus) × (s ≡ known status) × MayApproveByEmail status))
unfolding check_transition
check_transition-approval (known s) actor h = elim (known_approval s actor h) [
  | inl person ↦ inl person
  | inr (by_email, from) ↦ inr (by_email, (s, refl, from))
]
check_transition-approval (other_text s) actor h = cc

elem-transitions_self : (s : ApplicationStatus) → elem s (transitions s) ≡ false
unfolding transitions
elem-transitions_self draft = refl
elem-transitions_self s = refl

elem-alphabetical : (s : ApplicationStatus) → elem s alphabetical ≡ true
elem-alphabetical draft = refl
elem-alphabetical s = refl

known_check_iff :
    (s t : ApplicationStatus) (actor : Actor)
    → actor ≢ email
    → (check_known s t actor ≡ ok true)
      ↔ ((elem t (transitions s) && (is_human actor || not (human_only s t))) ≡ true)
unfolding check_known
known_check_iff s t actor h = elim (Bool-cases (s == t)) [
  | inl same ↦
      let loop : elem t (transitions s) ≡ false =
        subst (λ u. elem u (transitions s) ≡ false) ((status_beq_iff s t).0 same)
          (elem-transitions_self s) in
      (λ k. ground arith, λ k. ground arith)
  | inr other ↦ (λ k. ground arith, λ k. ground arith)
]

-- For an actor other than an email `allowed_targets` lists exactly the statuses to which
-- `check_transition` grants a real transition.
pub allowed_targets-check_transition :
    (s : StatusText) (t : ApplicationStatus) (actor : Actor)
    → actor ≢ email
    → (elem t (allowed_targets s actor) ≡ true) ↔ (check_transition s (known t) actor ≡ ok true)
unfolding allowed_targets check_transition
allowed_targets-check_transition (known s) t actor h =
    rw (elem-filter_by, elem-alphabetical)
      (λ k. (known_check_iff s t actor h).1 k, λ k. (known_check_iff s t actor h).0 k)
allowed_targets-check_transition (other_text s) t actor h = (λ e. cc, λ e. cc)
