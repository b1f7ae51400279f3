-- ===== src/MatchingQueue/Schedule.antt =====
-- matching/jobs.py: MatchingJobService.schedule. `content_version` and `key_of` stand for the hash of
-- the vacancy's text, the CV and the model names, and for the text of the key that is made of it;
-- `payload` for the ids in JSON.
use job_searching_assistant.Prelude.{
  ℕ, Bool, ◌&&◌, ◌||◌, not, Option, some, none, List, [], ◌∷◌, ◌++◌, String, ltb, ◌==◌, string_eq,
  nat_eq, list_eq, if◌then◌else◌, filter_by, any, Result, ok, raise, ◌>>=◌, ◌>>◌, raise_if, some_or,
}
use job_searching_assistant.Prelude.Table.{find, put}
use job_searching_assistant.Task.{pending, scheduled, completed, state_eq, WorkflowTask, transition}
use job_searching_assistant.Queue.Rows.{WorkflowTaskRow, Table, row_id, row_key}
use job_searching_assistant.Queue.Store.{get_or_create, save}
use job_searching_assistant.MatchingQueue.{
  ApplicationMatchResultRow, Aggregates, aggregate_id, is_active,
}

-- The columns of ApplicationRow, CvFileRow and VacancyRow that `schedule` reads.
pub record ApplicationRef : Type 0 where
  pub id : String
  pub user_id : String
  pub vacancy_id : String
  pub selected_cv_file_id : Option String

pub record CvFileRow : Type 0 where
  pub id : String
  pub user_id : String

pub record VacancyRow : Type 0 where
  pub id : String

-- Cached work on a vacancy: its requirements, and their matches with an application.
pub record VacancyRequirementRow : Type 0 where
  pub id : String
  pub vacancy_id : String

pub record RequirementMatchRow : Type 0 where
  pub id : String
  pub application_id : String

pub record JobDb : Type 0 where
  pub applications : List ApplicationRef
  pub cv_files : List CvFileRow
  pub vacancies : List VacancyRow
  pub tasks : Table
  pub aggregates : Aggregates
  pub requirements : List VacancyRequirementRow
  pub requirement_matches : List RequirementMatchRow

pub data ScheduleError : Type 0 where
  lookup_error not_ready_error runtime_error transition_error : ScheduleError

-- The subquery of `_clear_extraction_cache`: an aggregate of an application to the vacancy.
abbrev is_application_of : (vacancy_id : String) → JobDb → (application_id : String) → Bool
is_application_of vacancy_id db application_id =
    any (λ g. g.application_id == application_id) db.aggregates
    && any (λ a. a.id == application_id && a.vacancy_id == vacancy_id) db.applications

unfoldable pub clear_extraction_cache : (vacancy_id : String) → JobDb → JobDb
clear_extraction_cache vacancy_id db = record db {
  requirements = filter_by (λ r. not (r.vacancy_id == vacancy_id)) db.requirements;
  requirement_matches =
      filter_by (λ m. not (is_application_of vacancy_id db m.application_id))
        db.requirement_matches;
}

abbrev pub clear_if : Bool → (vacancy_id : String) → JobDb → JobDb
clear_if force vacancy_id db = if force then clear_extraction_cache vacancy_id db else db

-- Active work is coalesced: at most the priority and the refresh request of its row change.
abbrev pub coalesced_row : (force : Bool) (priority now : ℕ) → WorkflowTaskRow → WorkflowTaskRow
coalesced_row force priority now row =
    let is_raised = row.queue_name == "matching" && ltb row.priority priority in
    record row {
      priority = if is_raised then priority else row.priority;
      refresh_requested = force || row.refresh_requested;
      updated_at =
          if is_raised || (force && not row.refresh_requested) then now else row.updated_at;
    }

unfoldable pub coalesce :
    (force : Bool) (priority now : ℕ) (vacancy_id : String) → WorkflowTaskRow → JobDb → JobDb
unfolding clear_extraction_cache
coalesce force priority now vacancy_id row db =
    clear_if force vacancy_id
      (record db { tasks = put row_id (coalesced_row force priority now row) db.tasks })

abbrev pub delete_task : (task_id : String) → JobDb → JobDb
delete_task task_id db = record db { tasks = filter_by (λ r. not (r.id == task_id)) db.tasks }

-- The aggregate of an application whose matching is under way.
abbrev pub pending_aggregate : (application_id cv_file_id : String) → ApplicationMatchResultRow
pending_aggregate application_id cv_file_id = record {
  application_id = application_id;
  cv_file_id = some cv_file_id;
  status = "pending";
  failure_reason = none;
  fallback_reason = none;
}

unfoldable pub mark_pending : (application_id cv_file_id : String) → Aggregates → Aggregates
mark_pending application_id cv_file_id aggregates =
    elim (find aggregate_id application_id aggregates) [
      | none ↦ aggregates ++ pending_aggregate application_id cv_file_id ∷ []
      | some aggregate ↦ put aggregate_id (pending_aggregate application_id cv_file_id) aggregates
    ]

-- A PENDING task is scheduled and saved.
unfoldable pub save_scheduled :
    (fresh_id : String) (now : ℕ) → WorkflowTask × Table → Result ScheduleError Table
unfolding save transition
save_scheduled fresh_id now (task, rows) =
    if task.state == pending
    then elim (transition task scheduled "matching v2 calculation requested" "matching-scheduler" []
        now) [
          | ok (task', entry) ↦ ok (save fresh_id "dispatcher" "{}" task' now rows)
          | raise e ↦ raise transition_error
        ]
    else ok rows

-- A fresh task: created, scheduled and saved.
unfoldable pub enqueue :
    (fresh_id : String) (key : List ℕ) (application_id : String) (priority : ℕ) (payload : String)
    (now : ℕ)
    → Table
    → Result ScheduleError Table
unfolding get_or_create save_scheduled
enqueue fresh_id key application_id priority payload now rows =
    save_scheduled fresh_id now
      (get_or_create fresh_id key (some application_id) "matching" priority payload now rows)

unfoldable pub schedule_fresh :
    (fresh_id : String) (key : List ℕ) (application_id cv_file_id : String) (priority : ℕ)
    (payload : String) (now : ℕ)
    → JobDb
    → Result ScheduleError (WorkflowTaskRow × JobDb)
unfolding enqueue mark_pending is_active
schedule_fresh fresh_id key application_id cv_file_id priority payload now db = do
  rows ← enqueue fresh_id key application_id priority payload now db.tasks
  row ← some_or (find row_key key rows) runtime_error
  ok (
    row,
    record db {
      tasks = rows;
      aggregates =
          if is_active row.state
          then mark_pending application_id cv_file_id db.aggregates
          else db.aggregates;
    },
  )

-- What becomes of the row that has the key already.
unfoldable pub schedule_keyed :
    (force : Bool) (fresh_id : String) (key : List ℕ)
    (application_id cv_file_id vacancy_id : String) (priority : ℕ) (payload : String) (now : ℕ)
    → JobDb
    → Result ScheduleError (WorkflowTaskRow × JobDb)
unfolding coalesce schedule_fresh is_active clear_extraction_cache
schedule_keyed force fresh_id key application_id cv_file_id vacancy_id priority payload now db =
    elim (find row_key key db.tasks) [
      | none ↦ schedule_fresh fresh_id key application_id cv_file_id priority payload now db
      | some existing ↦
          let replaced =
            schedule_fresh fresh_id key application_id cv_file_id priority payload now
              (delete_task existing.id (clear_if force vacancy_id db)) in
          if is_active existing.state
          then ok (
            coalesced_row force priority now existing,
            coalesce force priority now vacancy_id existing db,
          )
          else if not force && existing.state == completed
          then ok (existing, db)
          else replaced
    ]

-- MatchingJobService.schedule
unfoldable pub schedule :
    (content_version : VacancyRow → CvFileRow → String) (key_of : String → String → List ℕ)
    (force : Bool) (fresh_id application_id : String) (priority : ℕ) (payload : String) (now : ℕ)
    → JobDb
    → Result ScheduleError (WorkflowTaskRow × JobDb)
unfolding schedule_keyed
schedule content_version key_of force fresh_id application_id priority payload now db = do
  application ←
      some_or (find (λ (a : ApplicationRef). a.id) application_id db.applications) lookup_error
  cv_file_id ← some_or application.selected_cv_file_id not_ready_error
  cv_file ← some_or (find (λ (c : CvFileRow). c.id) cv_file_id db.cv_files) not_ready_error
  raise_if (not (cv_file.user_id == application.user_id)) not_ready_error
  vacancy ←
      some_or (find (λ (v : VacancyRow). v.id) application.vacancy_id db.vacancies) lookup_error
  schedule_keyed force fresh_id (key_of application.id (content_version vacancy cv_file))
      application.id cv_file.id vacancy.id priority payload now db
