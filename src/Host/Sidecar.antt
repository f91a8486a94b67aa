-- ===== src/Host/Sidecar.antt =====
-- crates/agentmesh-host/src/sidecar.rs and audit.rs: the audit document, the stores that keep it, and
-- the sink of the envelope. `serde_json` serializes a document; its serializer is a parameter.
pub mod Store
mod Examples
use agentmesh_private.Common.{ℕ, Text, Bool, Option, List}
use agentmesh_private.Common.Json.{Value}
use agentmesh_private.Common.Map.{Map}
use agentmesh_private.Common.Results.{Result}
use agentmesh_private.Proto.Failure.{FailureRecord, SecondaryFailure}
use agentmesh_private.Proto.Limits.{Limits}

pub record MessageRecord : Type 0 where
  pub direction : Text
  pub method : Option Text
  pub message : Value
  pub raw_sha256 : Text

pub record StderrCapture : Type 0 where
  pub byte_count : ℕ
  pub sha256 : Text
  pub truncated : Bool
  pub raw_utf8_lossy : Option Text
  pub sensitive_content : Bool

pub record RedactionMeta : Type 0 where
  pub pointers : List Text
  pub no_redaction_policy : Bool
  pub redacted_field_count : ℕ

pub record InterruptionMeta : Type 0 where
  pub host_interrupted : Bool
  pub direct_child_termination_attempted : Bool
  pub direct_child_exit_observed : Bool

pub record CommitMeta : Type 0 where
  pub sync_level : Text
  pub commit_method : Text

-- The timings are left out: the host's clock measures them, and nothing reads them.
pub record SidecarDocument : Type 0 where
  pub protocol_version : Text
  pub host_version : Text
  pub plugin_version : Option Text
  pub run_id : Text
  pub limits : Limits
  pub plugin_env_keys : List Text
  pub redaction : RedactionMeta
  pub messages : List MessageRecord
  pub unknown_headers : List (Map Text)
  pub stderr : StderrCapture
  pub exit_status : Option ℕ
  pub primary_failure : Option FailureRecord
  pub secondary_failures : List SecondaryFailure
  pub hashes : Map Text
  pub interruption : Option InterruptionMeta
  pub commit : Option CommitMeta

pub data AuditError : Type 0 where
  dir_create temp_write sync rename_failed : Text → AuditError
  too_large : ℕ → AuditError
  already_exists path_escape : AuditError

pub record PersistResult : Type 0 where
  pub path : Text
  pub sync_level : Text
  pub commit_method : Text

-- The trait `AuditStore`: `persist parent run_id bytes max_bytes`.
pub record AuditStore : Type 0 where
  pub persist : Text → Text → Text → ℕ → Result AuditError PersistResult

-- The trait `CompactSink`: the text of the error, if the bytes cannot be written.
pub record CompactSink : Type 0 where
  pub write_all : Text → Option Text
