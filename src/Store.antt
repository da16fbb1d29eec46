-- ===== src/Store.antt =====
-- The persistence layer (repository/*.py): tables, the unit of work, and the repositories.
pub mod Database
pub mod Session
pub mod Stations
pub mod Jobs
pub mod Targets
pub mod Artifacts
pub mod Outbox
pub mod Tokens
pub mod Agents
pub mod Commands
pub mod Rules
