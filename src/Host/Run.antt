-- ===== src/Host/Run.antt =====
-- crates/agentmesh-host/src/run.rs: a run of a plugin from the configuration to the outcome. The
-- child, the clock, the file system and the other crates are parameters: see Host/Run/State.
pub mod Frames
pub mod Stderr
pub mod State
pub mod Child
pub mod Exchange
pub mod Finish
pub mod Stages
pub mod Answers
pub mod Protocol
pub mod Close
pub mod Complete
pub mod Outcome
pub mod Obeys
pub mod Returns
mod Examples
use agentmesh_private.Common.{
  ℕ, ◌+◌, Text, bytes, Bool, true, false, Option, none, some, List, [], ◌∷◌, ◌++◌, length, ltb,
  is_empty, if◌then◌else◌,
}
use agentmesh_private.Common.Decimal.{show}
use agentmesh_private.Common.Json.{Value, object, no_members}
use agentmesh_private.Common.Map.{insert}
use agentmesh_private.Common.Results.{Result, ok, err}
use agentmesh_private.Proto.Failure.{
  FailureCode, input_empty, input_too_large, input_invalid_json, input_schema_violation,
  plugin_not_found, plugin_spawn_failed,
}
use agentmesh_private.Proto.JsonStrict.{
  ProtoError, invalid_json, duplicate_key, tree_bound, schema_violation, invalid_id, batch_rejected,
  parse_value_strict, Fault,
}
use agentmesh_private.Host.FailureCoord.{Coordinator}
use agentmesh_private.Host.Process.{
  PluginPathError, not_absolute, not_found, not_file, Command, resolve, build_plugin_command,
}
use agentmesh_private.Host.Redaction.{RedactionError, from_pointers}
use agentmesh_private.Host.Sidecar.{StderrCapture, AuditStore, AuditError, CompactSink}
use Frames
use State.{
  RunConfig, Codec, World, Process, Run, unspawned, running, fail, Phase, next, stop, panic, hang,
  and_then, abort, fault_of,
}
use Child.{await_stderr, close_and_reap}
use Exchange.{initialize, request_run}
use Finish.{RunOutcome, finish}

-- The code for an input that is no JSON in the bounds.
unfoldable pub input_code : ProtoError → FailureCode
input_code (invalid_json m) = input_invalid_json
input_code (duplicate_key m) = input_invalid_json
input_code (tree_bound m) = input_schema_violation
input_code (schema_violation m) = input_schema_violation
input_code (invalid_id m) = input_invalid_json
input_code batch_rejected = input_invalid_json

unfoldable pub path_failure : PluginPathError → FailureCode × Text
path_failure not_absolute =
    (plugin_spawn_failed, bytes "plugin path must be an absolute native executable")
path_failure not_found = (plugin_not_found, bytes "plugin absolute path does not exist")
path_failure not_file = (plugin_spawn_failed, bytes "plugin path is not a file")

-- The variables at the start.
abbrev pub started : Codec → Run
started codec = record {
  failures = record { primary = none; secondary = [] };
  messages = [];
  unknown_headers = [];
  stderr = record {
    byte_count = 0;
    sha256 = codec.sha256_hex [];
    truncated = false;
    raw_utf8_lossy = none;
    sensitive_content = false;
  };
  exit_status = none;
  hashes = [];
  plugin_version = none;
  interruption = none;
  payload = object no_members;
  child = unspawned;
}

module _ (codec : Codec) (config : RunConfig) where
  unfoldable pub policy_from : Result RedactionError (List Text) → Run → Phase (List Text)
  policy_from (err e) run =
      abort input_schema_violation (bytes "invalid redact pointer: " ++ codec.describe_pointer e)
        run
  policy_from (ok pointers) run = next pointers run

  unfoldable pub value_from : Result Fault Value → Run → Phase Value
  value_from (err e) run =
      fault_of e λ problem. abort (input_code problem) (codec.describe problem) run
  value_from (ok value) run = next value run

  -- The checks of the input before the child is spawned.
  unfoldable pub check_input : Run → Phase Value
  check_input run =
      if is_empty config.input
      then abort input_empty (bytes "input has zero bytes") run
      else if ltb config.limits.input_max_bytes (length config.input)
      then abort input_too_large
          (bytes "input "
            ++ show (length config.input)
            ++ bytes " bytes exceeds limit "
            ++ show config.limits.input_max_bytes)
          run
      else value_from (parse_value_strict codec.serde config.limits config.input) (record run {
        hashes = insert (bytes "input") (codec.sha256_hex config.input) run.hashes;
      })

  unfoldable pub plugin_from : Result PluginPathError Text → Run → Phase Text
  plugin_from (ok plugin) run = next plugin run
  plugin_from (err e) run = let (code, message) = path_failure e in abort code message run

  unfoldable pub command_from : Result Text Command → Run → Phase Command
  command_from (ok command) run = next command run
  command_from (err e) run = abort plugin_spawn_failed e run

  unfoldable pub process_from : Result Text Process → Run → Phase Process
  process_from (ok process) run = next process (record run { child = running })
  process_from (err e) run = abort plugin_spawn_failed e run

  unfoldable pub spawn_plugin : World → Run → Phase Process
  spawn_plugin world run =
      and_then (plugin_from (resolve world.system config.plugin) run) λ plugin resolved.
        and_then
          (command_from (build_plugin_command world.system plugin config.plugin_env_keys) resolved)
          λ command built. process_from (world.spawn command) built

  -- From the spawned child to the end of its stderr.
  unfoldable pub converse : Text → List Text → Value → Process → Run → Phase (Unit {0})
  converse run_id redaction input process run =
      and_then (initialize codec config redaction process run_id run) λ _ greeted.
        and_then (request_run codec config redaction process run_id input greeted) λ _ answered.
          await_stderr codec config process (close_and_reap process codec.describe_status answered)

  -- All of it before the last `finish`, with the redaction policy.
  unfoldable pub body : World → Text → Run → Phase (List Text)
  body world run_id run =
      and_then (policy_from (from_pointers config.redact_pointers) run) λ redaction checked.
        and_then (check_input checked) λ input parsed.
          and_then (spawn_plugin world parsed) λ process spawned.
            and_then (converse run_id redaction input process spawned)
              λ _ ended. next redaction ended

abbrev pub run_id_or : Text → Option Text → Text
run_id_or fresh none = fresh
run_id_or fresh (some id) = id

-- The run and its outcome; none for a panic and for an `await` that never comes back.
unfoldable pub concluded :
    (Option (List Text) → Run → RunOutcome) → Phase (List Text) → Option (Run × RunOutcome)
concluded finish_with (next redaction run) = some (run, finish_with (some redaction) run)
concluded finish_with (stop run) = some (run, finish_with none run)
concluded finish_with panic = none
concluded finish_with hang = none

unfoldable pub execute_run_with :
    Codec
    → (AuditError → Text)
    → World
    → AuditStore
    → CompactSink
    → RunConfig
    → Option (Run × RunOutcome)
execute_run_with codec audit_text world store sink config =
    let run_id = run_id_or world.new_v4 config.run_id in
    concluded (finish codec audit_text store sink config run_id)
      (body codec config world run_id (started codec))
