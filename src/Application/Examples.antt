-- ===== src/Application/Examples.antt =====
-- Concrete applications and submissions.
use job_searching_assistant.Application.Ledger.{is_open}
use job_searching_assistant.Application.Ledger.{is_open_for}
use job_searching_assistant.Application.Lifecycle.{email_extra}
use job_searching_assistant.Application.Lifecycle.{human_only}
use job_searching_assistant.Application.Lifecycle.{transitions}
use job_searching_assistant.Prelude.{
  ◌≡◌, refl, ◌↔◌, ◌≢◌, true, false, some, none, [], ◌∷◌, ok, raise, ◌⊎◌, elem, arith, string_eq,
  All,
}
use job_searching_assistant.Prelude.Table.{put, find, HasUniqueKeys}
use job_searching_assistant.Application.Lifecycle.{
  ApplicationStatus, saved, approved, awaiting_review, submitted, known, human, system, email,
  check_transition, allowed_targets, status_eq,
}
use job_searching_assistant.Application.Lifecycle.Rules.{
  check_transition-approval, MayApproveByEmail, allowed_targets-check_transition,
}
use job_searching_assistant.Application.Lifecycle.Reach.{
  ReachesBy, is_closed, ReachesBy-system_awaiting_review,
}
use job_searching_assistant.Application.Ledger.{
  ApplicationRow, ApplicationSubmissionRow, LedgerRows, attempting, unknown, submission_id, failed,
  integrity_error, confirm, confirms, settle, write_back, begin, proceed, SubmissionDecision,
  resolve, open_row, new_submission, verify_first,
}
use job_searching_assistant.Application.Ledger.OneOpen.{OneOpen}
use job_searching_assistant.Application.Ledger.Begin.{
  is_lost, begin-proceed, begin-retry, begin-resolve,
}
use job_searching_assistant.Application.Ledger.Reachable.{
  IsLedger, IsVouched, IsFresh, start, begins, settles, Reachable-IsLedger,
}
use job_searching_assistant.Application.StatusChange.{AppDb}

saved_to_submitted : check_transition (known saved) (known submitted) system ≡ ok true
unfolding check_transition transitions human_only
saved_to_submitted = refl

approval_by_email : check_transition (known submitted) (known approved) email ≡ ok true
unfolding check_transition email_extra
approval_by_email = refl

check_transition-approval_example :
    (email ≡ human)
    ⊎ ((email ≡ email)
        × ((status : ApplicationStatus) × (known submitted ≡ known status)
            × MayApproveByEmail status))
check_transition-approval_example =
    check_transition-approval (known submitted) email approval_by_email

system-ne-email : system ≢ email
system-ne-email e = cc

allowed_targets-check_transition_example :
    (elem submitted (allowed_targets (known saved) system) ≡ true)
    ↔ (check_transition (known saved) (known submitted) system ≡ ok true)
allowed_targets-check_transition_example =
    allowed_targets-check_transition (known saved) submitted system system-ne-email

ReachesBy-system_awaiting_review_example :
    ReachesBy system submitted awaiting_review ↔ (is_closed submitted ≡ false)
ReachesBy-system_awaiting_review_example = ReachesBy-system_awaiting_review submitted

abbrev application : ApplicationRow
application = record { id = "app"; user_id = "u"; vacancy_id = "v"; status = known saved }

abbrev attempt : ApplicationSubmissionRow
attempt = new_submission "s1" application "site" attempting none [] 5

abbrev no_race : LedgerRows → LedgerRows
no_race rows = rows

-- Another worker begins between the look and the insert, and a person answers that it did not submit.
abbrev other_worker : LedgerRows → LedgerRows
other_worker rows = attempt ∷ []

abbrev person : LedgerRows → LedgerRows
person rows = resolve failed none [] (some "not sent") 7 attempt ∷ []

begin_gone :
    begin other_worker person false "s2" "site" 9 application []
    ≡ (raise integrity_error, person [])
unfolding begin is_open resolve is_open_for
begin_gone = refl

person_free : open_row "app" (person []) ≡ none
unfolding open_row is_open_for is_open resolve
person_free = refl

begin-retry_example :
    (is_lost other_worker person false "s2" "site" 9 application [] ≡ true)
    × (person [] ≡ person (other_worker []))
    × (open_row "app" (person []) ≡ none)
    × (decision : SubmissionDecision) × ((begin no_race no_race false "s3" "site" 10 application
          (person [])).0
        ≡ ok decision)
    × (decision.action ≡ proceed)
begin-retry_example =
    begin-retry other_worker person false "s2" "site" 9 application [] (person []) integrity_error
      no_race no_race "s3" 10 begin_gone person_free

begin_first :
    begin no_race no_race false "s1" "site" 5 application []
    ≡ (ok (record { action = proceed; row = attempt }), attempt ∷ [])
unfolding begin is_open
begin_first = refl

begin-proceed_example :
    (open_row "app" (attempt ∷ []) ≡ some attempt)
    × (attempt.state ≡ attempting)
    × (open_row "app" [] ≡ none)
begin-proceed_example =
    begin-proceed no_race no_race false "s1" "site" 5 application [] (attempt ∷ [])
      (record { action = proceed; row = attempt }) begin_first refl

attempt-HasUniqueKeys : HasUniqueKeys submission_id (attempt ∷ [])
attempt-HasUniqueKeys = (tt, tt)

attempt-OneOpen : OneOpen (attempt ∷ [])
attempt-OneOpen a = ground arith

attempt-open : open_row "app" (attempt ∷ []) ≡ some attempt
unfolding open_row is_open_for is_open
attempt-open = refl

begin-resolve_example :
    (decision : SubmissionDecision) × ((begin no_race no_race false "s2" "site" 9 application
        (put submission_id (resolve unknown none [] (some "lost") 7 attempt) (attempt ∷ []))).0
      ≡ ok decision)
    × (decision.action ≡ verify_first)
begin-resolve_example =
    begin-resolve no_race no_race "s2" "site" 9 application (attempt ∷ []) attempt unknown none []
      (some "lost") 7 attempt-HasUniqueKeys attempt-OneOpen attempt-open (λ t h. h)

abbrev empty_db : AppDb
empty_db = record { application = application; submissions = []; timeline = [] }

no_attempt : IsFresh "s1" []
unfolding find
no_attempt = refl

begun : attempt ∷ [] ≡ (begin (λ t. []) (λ t. []) false "s1" "site" 5 application []).1
unfolding begin is_open
begun = refl

abbrev verified : ApplicationSubmissionRow
verified = settle ("thanks" ∷ []) 8 (confirms "worker" none) attempt

kept : find submission_id "s1" (attempt ∷ []) ≡ some attempt
unfolding find
kept = refl

settled : write_back verified (attempt ∷ []) ≡ ok (verified ∷ [])
unfolding write_back confirm resolve is_open put
settled = refl

Reachable-IsLedger_example : IsLedger (verified ∷ []) × All IsVouched (verified ∷ [])
Reachable-IsLedger_example = Reachable-IsLedger (
    settles attempt (confirms "worker" none) ("thanks" ∷ []) 8 (verified ∷ [])
      (begins false "s1" "site" 5 application (attempt ∷ []) start start start no_attempt begun)
      kept settled)
