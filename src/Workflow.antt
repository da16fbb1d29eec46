-- ===== src/Workflow.antt =====
-- The publish workflows (application/publish.py, application/truenas_publish.py).
pub mod Outcome
pub mod Fake
pub mod TrueNas
