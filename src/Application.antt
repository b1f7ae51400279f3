-- ===== src/Application.antt =====
-- domain/application_lifecycle.py and services/application_lifecycle.py: the status of an
-- application and the ledger of its submissions.
pub mod Lifecycle
pub mod Ledger
pub mod StatusChange
mod Examples
