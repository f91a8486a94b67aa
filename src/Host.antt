-- ===== src/Host.antt =====
-- crates/agentmesh-host: framing, redaction and failure precedence of a plugin run.
pub mod FailureCoord
pub mod Framing
pub mod Redaction
pub mod Process
pub mod Sidecar
pub mod Run
