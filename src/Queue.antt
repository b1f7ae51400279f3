-- ===== src/Queue.antt =====
-- storage/task_repository.py: the durable task queue.
pub mod Rows
pub mod Claims
pub mod Finish
pub mod Recovery
pub mod Store
pub mod Audit
mod Examples
