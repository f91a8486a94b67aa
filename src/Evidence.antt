-- ===== src/Evidence.antt =====
-- crates/agentmesh-evidence: decision records and the evidence graph.
pub mod Decision
pub mod Graph
mod Examples
