-- ===== src/Application/Lifecycle.antt =====
-- domain/application_status.py and domain/application_lifecycle.py: the transition table of an
-- application's status.
pub mod Rules
pub mod Reach
use job_searching_assistant.Prelude.{
  ℕ, ◌≡◌, refl, ◌↔◌, Bool, true, false, ◌&&◌, ◌||◌, not, List, [], ◌∷◌, ◌++◌, String, PyEq, nat_beq,
  index_beq_iff, ◌==◌, elem, if◌then◌else◌, filter_by, Result, ok, raise, string_eq,
}

pub data ApplicationStatus : Type 0 where
  draft saved awaiting_review approved rejected employer_rejected skipped submitted interview offer
        withdrawn needs_review :
      ApplicationStatus

abbrev status_index : ApplicationStatus → ℕ
status_index draft = 0
status_index saved = 1
status_index awaiting_review = 2
status_index approved = 3
status_index rejected = 4
status_index employer_rejected = 5
status_index skipped = 6
status_index submitted = 7
status_index interview = 8
status_index offer = 9
status_index withdrawn = 10
status_index needs_review = 11

abbrev status_of_index : ℕ → ApplicationStatus
status_of_index n =
    if nat_beq n 0
    then draft
    else if nat_beq n 1
    then saved
    else if nat_beq n 2
    then awaiting_review
    else if nat_beq n 3
    then approved
    else if nat_beq n 4
    then rejected
    else if nat_beq n 5
    then employer_rejected
    else if nat_beq n 6
    then skipped
    else if nat_beq n 7
    then submitted
    else if nat_beq n 8
    then interview
    else if nat_beq n 9
    then offer
    else if nat_beq n 10
    then withdrawn
    else needs_review

status_of_index-status_index : (s : ApplicationStatus) → status_of_index (status_index s) ≡ s
status_of_index-status_index draft = refl
status_of_index-status_index _ = refl

abbrev pub status_beq : ApplicationStatus → ApplicationStatus → Bool
status_beq a b = nat_beq (status_index a) (status_index b)

pub status_beq_iff : (a b : ApplicationStatus) → (status_beq a b ≡ true) ↔ (a ≡ b)
status_beq_iff = index_beq_iff status_index status_of_index status_of_index-status_index

instance abbrev pub status_eq : PyEq ApplicationStatus
status_eq = record { test = status_beq; agrees = status_beq_iff }

-- A status as the functions receive it: one of the twelve texts, or any other text.
pub data StatusText : Type 0 where
  known : ApplicationStatus → StatusText
  other_text : String → StatusText

pub data Actor : Type 0 where
  human system email : Actor

-- _PRE_SUBMISSION
unfoldable pub pre_submission : List ApplicationStatus
pre_submission = draft ∷ saved ∷ awaiting_review ∷ approved ∷ needs_review ∷ []

-- _TRACKING
unfoldable pub tracking : List ApplicationStatus
tracking = interview ∷ offer ∷ employer_rejected ∷ []

-- The literal of TRANSITIONS.
unfoldable pub base_transitions : ApplicationStatus → List ApplicationStatus
base_transitions draft =
    saved ∷ awaiting_review ∷ approved ∷ rejected ∷ skipped ∷ withdrawn ∷ submitted ∷ []
base_transitions saved =
    draft ∷ awaiting_review ∷ approved ∷ rejected ∷ skipped ∷ withdrawn ∷ submitted ∷ []
base_transitions awaiting_review =
    saved ∷ approved ∷ rejected ∷ skipped ∷ withdrawn ∷ submitted ∷ needs_review ∷ []
base_transitions approved =
    awaiting_review ∷ saved ∷ rejected ∷ skipped ∷ withdrawn ∷ submitted ∷ []
base_transitions needs_review =
    awaiting_review ∷ saved ∷ approved ∷ rejected ∷ skipped ∷ withdrawn ∷ submitted ∷ []
base_transitions submitted = interview ∷ offer ∷ employer_rejected ∷ withdrawn ∷ needs_review ∷ []
base_transitions interview = offer ∷ employer_rejected ∷ withdrawn ∷ needs_review ∷ []
base_transitions offer = employer_rejected ∷ withdrawn ∷ needs_review ∷ []
base_transitions rejected = saved ∷ awaiting_review ∷ []
base_transitions skipped = saved ∷ awaiting_review ∷ []
base_transitions withdrawn = []
base_transitions employer_rejected = needs_review ∷ []

-- TRANSITIONS after the loop that adds _TRACKING.
unfoldable pub transitions : ApplicationStatus → List ApplicationStatus
unfolding base_transitions pre_submission tracking
transitions source =
    base_transitions source ++ (if elem source pre_submission then tracking else [])

-- Membership in HUMAN_ONLY.
unfoldable pub human_only : ApplicationStatus → ApplicationStatus → Bool
human_only source target =
    target == approved && elem source (draft ∷ saved ∷ awaiting_review ∷ needs_review ∷ [])
    || elem source (rejected ∷ skipped ∷ []) && elem target (saved ∷ awaiting_review ∷ [])
    || source == approved && target == awaiting_review
    || source == employer_rejected && target == needs_review

-- Membership in EMAIL_EXTRA.
unfoldable pub email_extra : ApplicationStatus → ApplicationStatus → Bool
email_extra source target =
    target == approved
      && elem source (draft ∷ saved ∷ awaiting_review ∷ needs_review ∷ submitted ∷ [])
    || source == needs_review && target == awaiting_review

pub record IllegalApplicationTransition : Type 0 where
  pub current : StatusText
  pub target : StatusText
  pub reason : String

abbrev pub is_email : Actor → Bool
is_email email = true
is_email _ = false

abbrev pub is_human : Actor → Bool
is_human human = true
is_human _ = false

abbrev refuse :
    ApplicationStatus
    → ApplicationStatus
    → (reason : String) → Result IllegalApplicationTransition Bool
refuse current target reason =
    raise (record { current = known current; target = known target; reason = reason })

-- check_transition between two of the twelve statuses.
unfoldable pub check_known :
    ApplicationStatus → ApplicationStatus → Actor → Result IllegalApplicationTransition Bool
check_known current target actor =
    if current == target
    then ok false
    else if is_email actor && email_extra current target
    then ok true
    else if not (elem target (transitions current))
    then refuse current target "not an allowed transition"
    else if not (is_human actor) && human_only current target
    then refuse current target "requires an explicit human action"
    else ok true

-- check_transition
unfoldable pub check_transition :
    StatusText → StatusText → Actor → Result IllegalApplicationTransition Bool
unfolding check_known
check_transition (known current) (known target) actor = check_known current target actor
check_transition (other_text current) (known target) actor = raise (record {
  current = other_text current;
  target = known target;
  reason = "unknown current status";
})
check_transition current (other_text target) actor =
    raise (record { current = current; target = other_text target; reason = "unsupported status" })

-- The twelve statuses in the order of `sorted`.
abbrev pub alphabetical : List ApplicationStatus
alphabetical =
    approved ∷ awaiting_review ∷ draft ∷ employer_rejected ∷ interview ∷ needs_review ∷ offer
    ∷ rejected ∷ saved ∷ skipped ∷ submitted ∷ withdrawn ∷ []

-- allowed_targets
unfoldable pub allowed_targets : StatusText → Actor → List ApplicationStatus
allowed_targets (other_text current) actor = []
allowed_targets (known current) actor =
    filter_by
      (λ target.
        elem target (transitions current) && (is_human actor || not (human_only current target)))
      alphabetical
