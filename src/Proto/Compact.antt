-- ===== src/Proto/Compact.antt =====
-- crates/agentmesh-proto/src/compact.rs and versions.rs: the envelope on stdout.
use agentmesh_private.Common.{Text, bytes, Option, some, List, [], ◌∷◌}
use agentmesh_private.Common.Json.{Value, object, no_members}
use agentmesh_private.Proto.Failure.{FailureCategory, FailureCode}

abbrev pub protocol_version : Text
protocol_version = bytes "2026-07-15"

pub data CompactOutcome : Type 0 where
  succeeded failed : CompactOutcome

-- `CompactArtifact` is its path.
pub record CompactDiagnostic : Type 0 where
  pub category : Option FailureCategory
  pub code : Option FailureCode
  pub message : Text

pub record CompactEnvelope : Type 0 where
  pub schema_version : Text
  pub run_id : Text
  pub outcome : CompactOutcome
  pub payload : Value
  pub artifacts : List Text
  pub diagnostics : List CompactDiagnostic

-- `CompactEnvelope::ok`.
abbrev pub ok_envelope : Text → Text → Value → List Text → CompactEnvelope
ok_envelope version id value paths = record {
  schema_version = version;
  run_id = id;
  outcome = succeeded;
  payload = value;
  artifacts = paths;
  diagnostics = [];
}

-- `CompactEnvelope::error`.
abbrev pub error_envelope :
    Text → Text → FailureCategory → FailureCode → Text → List Text → CompactEnvelope
error_envelope version id kind cause text paths = record {
  schema_version = version;
  run_id = id;
  outcome = failed;
  payload = object no_members;
  artifacts = paths;
  diagnostics = (record { category = some kind; code = some cause; message = text }) ∷ [];
}
