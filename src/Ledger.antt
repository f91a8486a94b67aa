-- ===== src/Ledger.antt =====
-- plugins/local-control-ledger/src/lib.rs: the app-local control ledger.
pub mod Input
pub mod Rows
pub mod Sql
pub mod Store
pub mod Validate
pub mod Args
pub mod Leases
pub mod Claims
pub mod Records
pub mod Metrics
pub mod Dispatch
pub mod Stable
pub mod Atomic
pub mod Examples
