-- ===== src/Lib.antt =====
-- job-searching-assistant: the durable task queue and its dispatcher, the life of an application, the
-- state of a login on a site, the scoring of vacancies, the policy of automatic submission, the
-- execution of recorded workflows in a browser, the routing of language models, and the folds of the
-- label dataset.
--
-- The assistant looks for vacancies, scores them, prepares applications and submits them with a
-- browser worker. Work that must survive a restart is a row of the table of workflow tasks; workers
-- claim rows, run a handler and settle the row. A submission to a site is irreversible, so a ledger
-- of submissions decides whether a worker may submit at all, and a table of statuses decides what a
-- person, the system and an email may do with an application.
--
-- Parts and files:
--   Prelude           shared names; Prelude/Table is a database table as the list of its rows.
--   Task              app/workflows/task.py and the task types of app/domain/models.py. Task/Trail:
--                     replaying an audit trail; Task/Graph: which states lead where.
--   Queue             app/storage/task_repository.py, every method of SqlTaskRepository as a function
--                     on the table of WorkflowTaskRow. Queue/Rows: the row; Queue/Claims: claim_next
--                     and touch_claim; Queue/Finish: finish_claim, reschedule_claim, retry_claim;
--                     Queue/Recovery: the two loops over stale rows; Queue/Store: get_or_create, save;
--                     Queue/Audit: each operation and the audit trail.
--   Dispatcher        app/workers/dispatcher.py, DurableTaskDispatcher.run_once. Dispatcher/RunOnce
--                     has it in the order of the source: claim, lease, handler, settling, release;
--                     Dispatcher/Handlers: the three task handlers, over the services behind them.
--   Application       Application/Lifecycle: app/domain/application_lifecycle.py and
--                     application_status.py; Application/Ledger: SubmissionLedger of
--                     app/services/application_lifecycle.py and the partial unique index of
--                     app/storage/tables.py; Application/StatusChange: change_status and
--                     mark_submitted_from_site of the same file.
--   MatchingQueue     what else writes the task table:
--                     MatchingQueue/Clear: app/matching/queue_admin.py; MatchingQueue/Repair:
--                     app/matching/queue_repair.py; MatchingQueue/Refresh:
--                     _handle_refresh_requested of app/workers/matching_worker.py, which the
--                     matching worker gives its dispatchers as the completion hook;
--                     MatchingQueue/Schedule: MatchingJobService of app/matching/jobs.py.
--   BrowserSession    app/domain/browser_session_state.py; BrowserSession/Service:
--                     app/services/browser_session_state.py.
--   Coordination      app/workers/coordination.py: the leases and, in Coordination/RateLimit, the rate
--                     limit of a domain, over interfaces of the Redis commands.
--   Scoring           app/matching/scoring.py, with the enumerations of app/matching/extraction.py and
--                     app/matching/entailment.py. Scoring/Assessment: one requirement and its effective
--                     level; Scoring/Sums: the weighted sums; Scoring/Score: DeterministicMatchScorer.
--   Policy            app/domain/policy.py.
--   EffectiveValues   app/domain/effective_values.py.
--   SiteAccess        app/domain/site_access.py. SiteAccess/Hosts: normalize_host.
--   Workflow          app/domain/workflow_*.py, app/browser/workflow_*_executor.py and
--                     app/workflows/workflow_*.py. Workflow/Steps: the steps; Workflow/Page: the
--                     interface of the page; Workflow/Executors: an executor for each step;
--                     Workflow/Runner: the dispatch and the loop. A navigation asks SiteAccess.
--   SearchRecipe      app/domain/search_recipe.py: validate_reach_steps and resolve_hit_url;
--                     SearchRecipe/Run: a run of its steps by Workflow.
--   ModelRouter       app/llm/router.py, over an interface of the providers.
--   AnnotationDataset app/domain/annotation_dataset.py: assign_folds and eval_vacancies.
--
-- How they interact: handlers of dispatched tasks match vacancies, and their matching ends in the
-- score; a submission goes through the ledger; and a search on a custom site is a run of workflow
-- steps, which the search recipe has accepted, that is never confirmed for submission.
--
-- Correspondence. A table is a list of records and a transaction a function on it; a session that
-- ends without its commit leaves the table as it was. Rows locked by other transactions are a
-- predicate, races between a look and a write a function on the table. An exception is a value of a
-- result type, and an awaited call a function from the state to its result and the state it leaves.
-- Clock readings, generated keys and the texts made of them are arguments. Strings are opaque where
-- the code only compares them; the idempotency key that the dispatcher splits is a list of code points,
-- and SiteAccess and EffectiveValues read texts by their characters. Floats are an interface of their
-- operations (Scoring/Arithmetic), with laws only where a bound needs them. Loops run over finite
-- lists; nothing runs on fuel.
--
-- Not modelled: the services behind the task handlers, the job board adapters, the language model providers, the browser
-- engine, the HTTP interface and the statistics; they are input and output or glue. Of run_once,
-- handlers, screenshot storage and the coordinator are parameters, and `_maintain_claim` belongs to
-- what other transactions do while a handler runs. Of a parsed workflow step the bounds of its schema
-- are not modelled, nor of the label dataset the union-find that makes the groups and the coverage
-- report, nor of a search recipe the selectors, the URL template and its stored form.
pub mod Prelude
pub mod Task
pub mod Queue
pub mod MatchingQueue
pub mod Dispatcher
pub mod Application
pub mod AnnotationDataset
pub mod BrowserSession
pub mod Coordination
pub mod EffectiveValues
pub mod ModelRouter
pub mod Policy
pub mod Scoring
pub mod SearchRecipe
pub mod SiteAccess
pub mod Workflow
