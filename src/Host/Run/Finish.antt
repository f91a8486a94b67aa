-- ===== src/Host/Run/Finish.antt =====
-- crates/agentmesh-host/src/run.rs: `finish`, which keeps the audit document, writes the envelope and
-- makes the outcome. `commit` is only filled in after the document is stored, so nothing keeps it.
pub mod Cases
use agentmesh_private.Common.{
  ℕ, Text, bytes, Option, none, some, List, [], ◌∷◌, is_empty, if◌then◌else◌,
}
use agentmesh_private.Common.Results.{Result, ok, err}
use agentmesh_private.Proto.Compact.{protocol_version, CompactEnvelope, ok_envelope, error_envelope}
use agentmesh_private.Proto.Failure.{
  FailureRecord, failure, exit_code, internal, sidecar_write_failed, sidecar_too_large,
  stdout_write_failed,
}
use agentmesh_private.Host.FailureCoord.{Coordinator, record_audit_failure, record_stdout_failure}
use agentmesh_private.Host.Redaction.{is_noop}
use agentmesh_private.Host.Sidecar.{
  SidecarDocument, AuditStore, AuditError, too_large, PersistResult, CompactSink,
}
use agentmesh_private.Host.Run.State.{RunConfig, Codec, Run}

pub record RunOutcome : Type 0 where
  pub envelope : CompactEnvelope
  pub exit_code : ℕ
  pub sidecar_path : Option Text

-- The policy is there at the regular end; the pointers of the configuration stand in for it elsewhere.
abbrev pub policy_of : RunConfig → Option (List Text) → List Text
policy_of config none = config.redact_pointers
policy_of config (some pointers) = pointers

-- The document, as it is serialized: `finish` never counts the redacted fields.
unfoldable pub document : Codec → RunConfig → Text → Option (List Text) → Run → SidecarDocument
document codec config run_id redaction run = record {
  protocol_version = protocol_version;
  host_version = codec.host_version;
  plugin_version = run.plugin_version;
  run_id = run_id;
  limits = config.limits;
  plugin_env_keys = config.plugin_env_keys;
  redaction = record {
    pointers = policy_of config redaction;
    no_redaction_policy = is_noop (policy_of config redaction);
    redacted_field_count = 0;
  };
  messages = run.messages;
  unknown_headers = run.unknown_headers;
  stderr = run.stderr;
  exit_status = run.exit_status;
  primary_failure = run.failures.primary;
  secondary_failures = run.failures.secondary;
  hashes = run.hashes;
  interruption = run.interruption;
  commit = none;
}

module _ (audit_text : AuditError → Text) where
  unfoldable pub audit_failure : AuditError → FailureRecord
  audit_failure (too_large n) = failure sidecar_too_large (audit_text (too_large n))
  audit_failure e = failure sidecar_write_failed (audit_text e)

  abbrev pub stored : Result AuditError PersistResult → Coordinator → Coordinator × Option Text
  stored (ok res) g = (g, some res.path)
  stored (err e) g = (record_audit_failure g (audit_failure e), none)

  -- The serialized document goes to the store, unless it is empty.
  unfoldable pub persist_document :
      AuditStore → RunConfig → Text → Result Text Text → Coordinator → Coordinator × Option Text
  persist_document store config run_id (err e) g =
      (record_audit_failure g (failure sidecar_write_failed e), none)
  persist_document store config run_id (ok bytes) g =
      if is_empty bytes
      then (g, none)
      else stored (store.persist config.sidecar_dir run_id bytes config.limits.sidecar_max_bytes) g

abbrev pub artifacts : Option Text → List Text
artifacts none = []
artifacts (some path) = path ∷ []

unfoldable pub envelope_for : Text → Option FailureRecord → Run → Option Text → CompactEnvelope
envelope_for run_id none run path = ok_envelope protocol_version run_id run.payload (artifacts path)
envelope_for run_id (some fail) run path =
    error_envelope protocol_version run_id fail.category fail.code fail.message (artifacts path)

-- `serde_json::to_vec(&envelope).unwrap_or_default()`.
abbrev pub or_default : Option Text → Text
or_default none = []
or_default (some bytes) = bytes

abbrev pub exit_of : Option FailureRecord → ℕ
exit_of none = 0
exit_of (some fail) = exit_code fail.category

-- `RunOutcome` after the envelope was written, or could not be.
unfoldable pub outcome :
    Text → Option Text → CompactEnvelope → Coordinator → Option Text → RunOutcome
outcome run_id path envelope g none = record {
  envelope = envelope;
  exit_code = exit_of g.primary;
  sidecar_path = path;
}
outcome run_id path envelope g (some e) = record {
  envelope =
      error_envelope protocol_version run_id internal stdout_write_failed
        (bytes "stdout write failed") (artifacts path);
  exit_code = exit_of (record_stdout_failure g (failure stdout_write_failed e)).primary;
  sidecar_path = path;
}

unfoldable pub finish :
    Codec
    → (AuditError → Text)
    → AuditStore
    → CompactSink
    → RunConfig
    → Text
    → Option (List Text)
    → Run
    → RunOutcome
finish codec audit_text store sink config run_id redaction run =
    let (g, path) =
      persist_document audit_text store config run_id
        (codec.document_to_vec (document codec config run_id redaction run)) run.failures in
    let envelope = envelope_for run_id g.primary run path in
    outcome run_id path envelope g (sink.write_all (or_default (codec.envelope_to_vec envelope)))
