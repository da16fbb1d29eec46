-- ===== src/Worker.antt =====
-- The worker process (worker/*.py).
pub mod Relay
pub mod Tasks
