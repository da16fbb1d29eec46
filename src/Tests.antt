-- ===== src/Tests.antt =====
-- The theorems at concrete inputs, and runs of the model.
mod Data
mod Domain
mod Jobs
mod Storage
mod Runs
mod Storing
mod Adapters
mod Agents
mod Requests
