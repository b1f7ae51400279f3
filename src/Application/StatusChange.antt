-- ===== src/Application/StatusChange.antt =====
-- services/application_lifecycle.py: change_status and mark_submitted_from_site. `AppDb` is what
-- one session sees of an application: its row, the submission ledger and the timeline.
use job_searching_assistant.Prelude.{
  ℕ, Bool, true, false, List, [], ◌∷◌, ◌++◌, String, if◌then◌else◌, Result, ok, raise, string_eq,
}
use Prim.Native.String.{◌++◌ as str_append}
use job_searching_assistant.Application.Lifecycle.{
  submitted, StatusText, known, Actor, system, IllegalApplicationTransition, check_transition,
}
use job_searching_assistant.Application.Ledger.{
  ApplicationRow, TimelineEvent, LedgerRows, IntegrityError, remember_submission,
}

pub record AppDb : Type 0 where
  pub application : ApplicationRow
  pub submissions : LedgerRows
  pub timeline : List TimelineEvent

-- The write of change_status once the lifecycle allows the change.
abbrev pub changed : (target : StatusText) (source : String) → AppDb → AppDb
changed target source db =
    let event : TimelineEvent = record {
      application_id = db.application.id;
      event_type = "status_change";
      previous_value = db.application.status;
      new_value = target;
      source = source;
    } in
    record db {
      application = record db.application { status = target };
      timeline = db.timeline ++ event ∷ [];
    }

-- change_status
unfoldable pub change_status :
    (target : StatusText)
    → Actor
    → (source : String) → AppDb
    → Result IllegalApplicationTransition (Bool × AppDb)
change_status target actor source db = elim (check_transition db.application.status target actor) [
  | raise e ↦ raise e
  | ok is_change ↦ ok (is_change, if is_change then changed target source db else db)
]

-- mark_submitted_from_site
unfoldable pub mark_submitted_from_site :
    (fresh_id site_key source verified_by : String) (now : ℕ)
    → AppDb
    → Result IntegrityError (Bool × AppDb)
unfolding change_status remember_submission
mark_submitted_from_site fresh_id site_key source verified_by now db =
    elim (change_status (known submitted) system source db) [
      | raise e ↦ ok (false, db)
      | ok (is_change, db') ↦
          elim (remember_submission fresh_id site_key verified_by
            (str_append "site shows the application as submitted (" (str_append source ")") ∷ [])
            (str_append "site shows it as submitted (" (str_append source ")") ∷ []) now
            db'.application db'.submissions) [
              | raise e ↦ raise e
              | ok rows ↦ ok (true, record db' { submissions = rows })
            ]
    ]
