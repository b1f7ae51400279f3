-- ===== src/Workflow.antt =====
-- domain/workflow_*.py, browser/workflow_*_executor.py and workflows/workflow_*.py: the recorded
-- steps of a workflow and their execution on a page. Steps has the steps, Page the interface of the
-- browser and what an execution may raise, Executors one executor per step, Runner the dispatch and
-- the runner.
pub mod Steps
pub mod Page
pub mod Executors
pub mod Runner
pub mod Candidates
pub mod Stops
pub mod Outcomes
pub mod Completes
pub mod Navigation
pub mod Examples
