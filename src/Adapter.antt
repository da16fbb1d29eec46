-- ===== src/Adapter.antt =====
-- truenas_adapter/: the TrueNAS API over its JSON-RPC transport.
pub mod Calls
pub mod Rpc
pub mod Registry
pub mod ReadOnly
pub mod Write
pub mod FakeWrite
pub mod FakeStorage
