-- ===== src/Lane.antt =====
-- plugins/lane-run-ledger/src/lib.rs: the lane-run ledger.
pub mod Record
pub mod Examples
