-- ===== src/Host/Run/State.antt =====
-- crates/agentmesh-host/src/run.rs and lifecycle.rs: the configuration of a run, its local variables,
-- and what the outside answers.
use agentmesh_private.Common.{ℕ, ◌==◌, Text, Bool, false, Option, none, some, List, [], ◌∷◌, ◌++◌}
use agentmesh_private.Common.Json.{Value, null}
use agentmesh_private.Common.Map.{Map}
use agentmesh_private.Common.Results.{Result, ok, err}
use agentmesh_private.Proto.Failure.{FailureCode, failure}
use agentmesh_private.Proto.JsonStrict.{
  ProtoError, Fault, reported, out_of_fuel, Serde, schema_violation, parse_value_strict,
}
use agentmesh_private.Proto.Limits.{Limits}
use agentmesh_private.Proto.Compact.{CompactEnvelope}
use agentmesh_private.Proto.Rpc.{
  JsonRpcRequest, JsonRpcResponse, InitializeParams, InitializeResult, RunParams, RunResult,
}
use agentmesh_private.Host.FailureCoord.{Coordinator, record_failure}
use agentmesh_private.Host.Framing.Headers.{FrameDecodeError}
use agentmesh_private.Host.Process.{System, Command}
use agentmesh_private.Host.Redaction.{RedactionError, apply}
use agentmesh_private.Host.Sidecar.{MessageRecord, StderrCapture, InterruptionMeta, SidecarDocument}
use agentmesh_private.Host.Run.Frames.{Observed}

pub record RunConfig : Type 0 where
  pub plugin : Text
  pub input : Text
  pub sidecar_dir : Text
  pub plugin_env_keys : List Text
  pub redact_pointers : List Text
  pub capture_plugin_stderr : Bool
  pub limits : Limits
  pub run_id : Option Text

-- What other crates and the build provide: serde_json on the types of Proto/Rpc, SHA-256 in hexadecimal,
-- the lossy decoding, the version of the package, and the texts of errors.
pub record Codec : Type 0 where
  pub serde : Serde
  pub read_json : Text → Option Value
  pub initialize_response : Value → Result Text (JsonRpcResponse InitializeResult)
  pub run_response : Value → Result Text (JsonRpcResponse RunResult)
  pub initialize_request : JsonRpcRequest InitializeParams → Text
  pub run_request : JsonRpcRequest RunParams → Text
  pub document_to_vec : SidecarDocument → Result Text Text
  pub envelope_to_vec : CompactEnvelope → Option Text
  pub sha256_hex : Text → Text
  pub from_utf8_lossy : Text → Text
  pub host_version : Text
  pub describe : ProtoError → Text
  pub describe_pointer : RedactionError → Text
  pub describe_frame : FrameDecodeError → Text
  pub describe_status : Option ℕ → Text

-- The code of an exit status; a process that a signal ended has none.
abbrev pub ExitStatus : Type 0
ExitStatus = Option ℕ

-- `ExitStatus::success`.
abbrev pub success : ExitStatus → Bool
success (some n) = n == 0
success none = false

-- What the loop of `close_and_reap` meets: every arm leaves it in its first turn.
pub data Probe : Type 0 where
  quiet interrupted extra_byte : Probe

-- A `write_all` to the child's stdin, and the flush behind it. No timeout guards it: a child that does
-- not read its full pipe blocks it for good.
pub data Written : Type 0 where
  wrote write_blocked : Written
  write_failed : Text → Written

-- `stderr_task.await`. No timeout guards it: it lasts until every holder of the child's stderr has closed
-- it, a grandchild as well.
pub data Joined : Type 0 where
  joined join_failed unended : Joined

-- What a spawned process does: its pipes, the ends of the writes, what the reads of its stdout observe
-- (each under `tokio::time::timeout`), what its stderr gives and whether it ends, and the answers of
-- `wait` (`none` is an error or the timeout) and of `start_kill`. A run asks at most once for the
-- termination of its child; `kill_cancelled` is the token behind it.
pub record Process : Type 0 where
  pub has_stdin : Bool
  pub has_stdout : Bool
  pub initialize_write : Written
  pub run_write : Written
  pub initialize_reads : List Observed
  pub run_reads : List Observed
  pub stderr_reads : List (Option Text)
  pub stderr_end : Joined
  pub close_probe : Probe
  pub close_wait : Option ExitStatus
  pub kill_started : Bool
  pub kill_wait : Option ExitStatus
  pub kill_cancelled : Bool

pub record World : Type 0 where
  pub new_v4 : Text
  pub system : System
  pub spawn : Command → Result Text Process

-- What has been done about the child: not spawned, running, `wait` gave its status, or killed without one.
pub data ChildState : Type 0 where
  unspawned running reaped killed abandoned : ChildState

-- The mutable variables of `execute_run_with`, and the state of the child.
pub record Run : Type 0 where
  pub failures : Coordinator
  pub messages : List MessageRecord
  pub unknown_headers : List (Map Text)
  pub stderr : StderrCapture
  pub exit_status : ExitStatus
  pub hashes : Map Text
  pub plugin_version : Option Text
  pub interruption : Option InterruptionMeta
  pub payload : Value
  pub child : ChildState

-- `failures.record(FailureRecord::new(code, message))`.
unfoldable pub fail : FailureCode → Text → Run → Run
fail code message run = record run { failures = record_failure run.failures (failure code message) }

-- Where a part of the run leads: on with a value, to an early return through `finish`, into a panic, or
-- into an `await` that never comes back.
pub data Phase {ℓ} (A : Type ℓ) : Type ℓ where
  next : A → Run → Phase A
  stop : Run → Phase A
  panic hang : Phase A

abbrev pub and_then {ℓ κ} : {A : Type ℓ} {B : Type κ} → Phase A → (A → Run → Phase B) → Phase B
and_then (next a run) rest = rest a run
and_then (stop run) rest = stop run
and_then panic rest = panic
and_then hang rest = hang

-- An early return before the child is there.
abbrev pub abort {ℓ} : {A : Type ℓ} → FailureCode → Text → Run → Phase A
abort code message run = stop (fail code message run)

-- The error of a parser; running out of the model's fuel counts as a panic.
abbrev pub fault_of {ℓ} : {A : Type ℓ} → Fault → (ProtoError → Phase A) → Phase A
fault_of (reported e) handle = handle e
fault_of out_of_fuel handle = panic

-- `serde_json::from_value(value).map_err(SchemaViolation)`.
abbrev pub from_value : {T : Type 0} → Result Text T → Result Fault T
from_value (ok t) = ok t
from_value (err e) = err (reported (schema_violation e))

abbrev pub decoded : {T : Type 0} → (Value → Result Text T) → Result Fault Value → Result Fault T
decoded decode (ok value) = from_value (decode value)
decoded decode (err e) = err e

unfoldable pub from_slice_strict :
    {T : Type 0} → Serde → (Value → Result Text T) → Text → Limits → Result Fault T
from_slice_strict serde decode input limits = decoded decode (parse_value_strict serde limits input)

abbrev pub value_or_null : Option Value → Value
value_or_null none = null
value_or_null (some v) = v

-- `push_message`; the count of redacted fields is dropped.
unfoldable pub push_message : Codec → List Text → Text → Text → Text → Run → Run
push_message codec redaction direction method raw run =
    let (value, count) = apply redaction (value_or_null (codec.read_json raw)) in
    record run {
      messages =
          run.messages
          ++ record {
            direction = direction;
            method = some method;
            message = value;
            raw_sha256 = codec.sha256_hex raw;
          }
            ∷ [];
    }
