-- ===== src/Application.antt =====
-- The use cases (application/*.py). Each takes the durable database and returns its result with the
-- database that it leaves; fresh identifiers and clock readings are arguments.
pub mod Draft
pub mod Confirmation
pub mod Dispatch
pub mod Executor
pub mod Mappings
pub mod Datasets
pub mod Retention
pub mod Lifecycle
pub mod Enrollment
pub mod AgentCommands
pub mod Stations
pub mod Rules
pub mod PreflightQuery
