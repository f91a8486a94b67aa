-- ===== src/Proto.antt =====
-- crates/agentmesh-proto: the contract types that host and plugins share.
pub mod Failure
pub mod Limits
pub mod Rfc3339
pub mod JsonStrict
pub mod Compact
pub mod Rpc
