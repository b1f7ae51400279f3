-- ===== src/Application/Ledger.antt =====
-- services/application_lifecycle.py: status changes and the submission ledger, with the partial
-- unique index of storage/tables.py. `fresh_id` is the generated primary key.
pub mod OneOpen
pub mod Begin
pub mod Reachable
use job_searching_assistant.Prelude.{
  ℕ, ◌≡◌, refl, Bool, true, false, ◌&&◌, not, Option, some, none, List, [], ◌∷◌, ◌++◌, String, ◌==◌,
  elem, filter_by, string_eq, if◌then◌else◌, any, Result, ok, raise, ◌>>=◌, is_some,
}
use job_searching_assistant.Prelude.Table.{put}
use job_searching_assistant.Application.Lifecycle.{
  ApplicationStatus, submitted, StatusText, known, Actor, system, IllegalApplicationTransition,
  check_transition,
}

pub record ApplicationRow : Type 0 where
  pub id : String
  pub user_id : String
  pub vacancy_id : String
  pub status : StatusText

-- The part of ApplicationTimelineEventRow that `record` is called with.
pub record TimelineEvent : Type 0 where
  pub application_id : String
  pub event_type : String
  pub previous_value : StatusText
  pub new_value : StatusText
  pub source : String

pub data SubmissionState : Type 0 where
  attempting unknown confirmed failed : SubmissionState

-- OPEN_STATES
unfoldable pub is_open : SubmissionState → Bool
is_open failed = false
is_open _ = true

abbrev pub is_confirmed : SubmissionState → Bool
is_confirmed confirmed = true
is_confirmed _ = false

pub record ApplicationSubmissionRow : Type 0 where
  pub id : String
  pub application_id : String
  pub user_id : String
  pub site_key : String
  pub state : SubmissionState
  pub verified_by : Option String
  pub evidence : List String
  pub detail : Option String
  pub updated_at : ℕ

abbrev pub LedgerRows : Type 0
LedgerRows = List ApplicationSubmissionRow

abbrev pub submission_id : ApplicationSubmissionRow → String
submission_id r = r.id

-- The rows that the partial index `uq_application_submissions_open` holds for an application.
unfoldable pub is_open_for : String → ApplicationSubmissionRow → Bool
is_open_for application_id row = row.application_id == application_id && is_open row.state

-- SubmissionLedger.open_row
unfoldable pub open_row : String → LedgerRows → Option ApplicationSubmissionRow
open_row application_id [] = none
open_row application_id (row ∷ rows) =
    if is_open_for application_id row then some row else open_row application_id rows

-- An INSERT: the index refuses a second open row of the same application.
pub data IntegrityError : Type 0 where
  integrity_error : IntegrityError

unfoldable pub insert : ApplicationSubmissionRow → LedgerRows → Result IntegrityError LedgerRows
unfolding open_row
insert row rows =
    if is_open row.state && is_some (open_row row.application_id rows)
    then raise integrity_error
    else ok (rows ++ row ∷ [])

-- SubmissionLedger._resolve and the methods that call it. The row is written back at the commit.
unfoldable pub resolve :
    (state : SubmissionState) (verified_by : Option String) (evidence : List String)
    (detail : Option String) (now : ℕ)
    → ApplicationSubmissionRow
    → ApplicationSubmissionRow
resolve state verified_by evidence detail now row = record row {
  state = state;
  verified_by = verified_by;
  evidence = row.evidence ++ evidence;
  detail = detail;
  updated_at = now;
}

module _ (evidence : List String) (now : ℕ) where
  unfoldable pub confirm :
      (verified_by : String) (detail : Option String)
      → ApplicationSubmissionRow
      → ApplicationSubmissionRow
  unfolding resolve
  confirm verified_by detail row = resolve confirmed (some verified_by) evidence detail now row

  unfoldable pub mark_unknown :
      (detail : String) → ApplicationSubmissionRow → ApplicationSubmissionRow
  unfolding resolve
  mark_unknown detail row = resolve unknown none evidence (some detail) now row

  unfoldable pub mark_failed :
      (detail : String) → ApplicationSubmissionRow → ApplicationSubmissionRow
  unfolding resolve
  mark_failed detail row = resolve failed none evidence (some detail) now row

-- The choice between confirm, mark_unknown and mark_failed. A worker applies it to the row that it
-- fetches by the id that it kept, whatever the row's state is by then.
pub data Settlement : Type 0 where
  confirms : (verified_by : String) (detail : Option String) → Settlement
  is_unknown is_failed : (detail : String) → Settlement

abbrev pub settle :
    (evidence : List String) (now : ℕ)
    → Settlement
    → ApplicationSubmissionRow
    → ApplicationSubmissionRow
settle evidence now (confirms verified_by detail) = confirm evidence now verified_by detail
settle evidence now (is_unknown detail) = mark_unknown evidence now detail
settle evidence now (is_failed detail) = mark_failed evidence now detail

-- The UPDATE of a row of any state: the index refuses a second open row of the same application.
unfoldable pub write_back : ApplicationSubmissionRow → LedgerRows → Result IntegrityError LedgerRows
unfolding open_row
write_back row rows =
    if is_open row.state
      && is_some (open_row row.application_id (filter_by (λ r. not (r.id == row.id)) rows))
    then raise integrity_error
    else ok (put submission_id row rows)

pub data Action : Type 0 where
  proceed already_submitted verify_first : Action

pub record SubmissionDecision : Type 0 where
  pub action : Action
  pub row : ApplicationSubmissionRow

-- The decision about a row that exists.
abbrev pub decide_existing : ApplicationSubmissionRow → SubmissionDecision
decide_existing row = record {
  action = if is_confirmed row.state then already_submitted else verify_first;
  row = row;
}

abbrev pub new_submission :
    (fresh_id : String)
    → ApplicationRow
    → (site_key : String) → SubmissionState
    → Option String
    → (evidence : List String) (now : ℕ) → ApplicationSubmissionRow
new_submission fresh_id application site_key state verified_by evidence now = record {
  id = fresh_id;
  application_id = application.id;
  user_id = application.user_id;
  site_key = site_key;
  state = state;
  verified_by = verified_by;
  evidence = evidence;
  detail = none;
  updated_at = now;
}

-- The nested transaction's INSERT, which another constraint of the table may refuse: a key that is
-- taken, or an application that is deleted meanwhile.
abbrev pub try_insert :
    (is_refused : Bool) → ApplicationSubmissionRow → LedgerRows → Result IntegrityError LedgerRows
try_insert true row rows = raise integrity_error
try_insert false row rows = insert row rows

-- After the refused insert: a concurrent worker's row is the truth, and without one the exception is
-- raised again.
abbrev pub look_again :
    (application_id : String) → LedgerRows → Result IntegrityError SubmissionDecision × LedgerRows
look_again application_id rows = elim (open_row application_id rows) [
  | none ↦ (raise integrity_error, rows)
  | some winner ↦ (ok (decide_existing winner), rows)
]

-- SubmissionLedger.begin. `race` is what other workers do to the table between the look and the
-- insert, `later` what they do between a refused insert and the second look.
unfoldable pub begin :
    (race later : LedgerRows → LedgerRows) (is_refused : Bool) (fresh_id site_key : String)
    (now : ℕ)
    → ApplicationRow
    → LedgerRows
    → Result IntegrityError SubmissionDecision × LedgerRows
unfolding open_row insert
begin race later is_refused fresh_id site_key now application rows =
    elim (open_row application.id rows) [
      | some existing ↦ (ok (decide_existing existing), rows)
      | none ↦
          let rows' = race rows in
          let row = new_submission fresh_id application site_key attempting none [] now in
          elim (try_insert is_refused row rows') [
            | ok rows'' ↦ (ok (record { action = proceed; row = row }), rows'')
            | raise e ↦ look_again application.id (later rows')
          ]
    ]

pub data SubmissionBlocked : Type 0 where
  blocked : (state : Option SubmissionState) → SubmissionBlocked

-- SubmissionLedger.guard_new_submission
unfoldable pub guard_new_submission : String → LedgerRows → Result SubmissionBlocked (Unit {0})
unfolding open_row
guard_new_submission application_id rows = elim (open_row application_id rows) [
  | none ↦ ok tt
  | some row ↦ raise (blocked (some row.state))
]

-- What record_implied_submission, SubmissionLedger.record_manual_submission and
-- mark_submitted_from_site do to the ledger: they differ in the verifier and in the evidence of a
-- row that they add and of one that they confirm.
unfoldable pub remember_submission :
    (fresh_id site_key verified_by : String) (added seen : List String) (now : ℕ)
    → ApplicationRow
    → LedgerRows
    → Result IntegrityError LedgerRows
unfolding open_row insert confirm
remember_submission fresh_id site_key verified_by added seen now application rows =
    elim (open_row application.id rows) [
      | none ↦
          insert
            (new_submission fresh_id application site_key confirmed (some verified_by) added now)
            rows
      | some row ↦ ok (
          if is_confirmed row.state
          then rows
          else put submission_id (confirm seen now verified_by none row) rows)
    ]

abbrev note_or : Option String → String → String
note_or none default = default
note_or (some note) default = if note == "" then default else note

-- SubmissionLedger.resolve_unknown. An empty note counts as none.
unfoldable pub resolve_unknown :
    (application_id : String) (is_submitted : Bool) (note : Option String) (now : ℕ)
    → LedgerRows
    → Result SubmissionBlocked LedgerRows
unfolding open_row confirm mark_failed
resolve_unknown application_id is_submitted note now rows = elim (open_row application_id rows) [
  | none ↦ raise (blocked none)
  | some row ↦
      if is_confirmed row.state
      then raise (blocked none)
      else if is_submitted
      then ok (
          put submission_id (confirm ("human confirmed the submission" ∷ []) now "human" note row)
            rows)
      else ok (
          put submission_id
            (mark_failed [] now (note_or note "human confirmed the submission did not happen") row)
            rows)
]
