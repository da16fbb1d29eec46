-- ===== src/Agent.antt =====
-- The agent on a station (agent/*.py).
pub mod Protocol
pub mod Heartbeat
pub mod Enrollment
