-- ===== src/Domain.antt =====
-- The pure domain layer (domain/*.py).
pub mod Station
pub mod Snapshot
pub mod Preflight
pub mod Publish
pub mod Wizard
pub mod Token
pub mod Command
pub mod Outbox
