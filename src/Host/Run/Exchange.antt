-- ===== src/Host/Run/Exchange.antt =====
-- crates/agentmesh-host/src/run.rs: the two exchanges of `execute_run_with`, "initialize" and
-- "agentmesh.run". Up to the parsing of the answer they are the same code.
use agentmesh_private.Common.{
  ◌+◌, Text, bytes, Bool, true, false, not, Option, none, some, List, [], ◌∷◌, ◌++◌, str_eq,
  if◌then◌else◌,
}
use agentmesh_private.Common.Decimal.{show}
use agentmesh_private.Common.Int.{ℤ, pos, negsuc}
use agentmesh_private.Common.Json.{Value}
use agentmesh_private.Common.Map.{Map, insert}
use agentmesh_private.Common.Results.{Result, ok, err}
use agentmesh_private.Proto.Compact.{protocol_version}
use agentmesh_private.Proto.Failure.{
  FailureCode, plugin_write_failed, initialize_timeout, run_timeout, host_interrupted,
  unexpected_eof, frame_too_large, invalid_framing, plugin_exited, schema_violation,
  rpc_id_mismatch, plugin_application_error, protocol_version_mismatch,
}
use agentmesh_private.Proto.JsonStrict.{Fault, ProtoError}
use agentmesh_private.Proto.Rpc.{
  json_rpc_id, JsonRpcResponse, JsonRpcError, InitializeResult, phase0, RunResult,
  initialize_method, run_method,
}
use agentmesh_private.Host.Framing.{DecodedFrame, frame_limits}
use agentmesh_private.Host.Framing.Headers.{invalid_framing, frame_too_large, unexpected_eof}
use agentmesh_private.Host.Run.Frames.{
  Observed, ReadFrameError, timeout, was_cancelled, decode, io, plugin_exited, read_one_frame,
}
use agentmesh_private.Host.Run.State.{
  RunConfig, Codec, Process, Run, fail, Phase, next, panic, hang, Written, wrote, write_blocked,
  write_failed, and_then, fault_of, from_slice_strict, push_message,
}
use agentmesh_private.Host.Run.Child.{abort_child}

-- `map_frame_err`: the code and the message of the failure that it records.
unfoldable pub frame_failure : Codec → Bool → ReadFrameError → FailureCode × Text
frame_failure codec true timeout = (initialize_timeout, bytes "initialize timed out")
frame_failure codec false timeout = (run_timeout, bytes "run timed out")
frame_failure codec is_init was_cancelled =
    (host_interrupted, bytes "host cancelled during frame read")
frame_failure codec is_init (decode unexpected_eof) =
    (FailureCode.unexpected_eof, bytes "stdout closed before complete frame")
frame_failure codec is_init (decode (frame_too_large m)) =
    (FailureCode.frame_too_large, codec.describe_frame (frame_too_large m))
frame_failure codec is_init (decode (invalid_framing m)) =
    (FailureCode.invalid_framing, codec.describe_frame (invalid_framing m))
frame_failure codec is_init (io m) = (FailureCode.unexpected_eof, m)
frame_failure codec is_init plugin_exited =
    (FailureCode.plugin_exited, bytes "plugin exited before valid response")

-- One exchange: the method, the name of the hash of its answer, whether it is the first one, the
-- request, the end of writing it, and what reading the answer observes.
pub record Leg : Type 0 where
  pub method : Text
  pub hash_name : Text
  pub is_init : Bool
  pub body : Text
  pub write : Written
  pub reads : List Observed

-- `if let Some(ref mut sin) = stdin`.
abbrev pub write_end : Bool → Written → Written
write_end true end = end
write_end false end = wrote

abbrev noted : Map Text → List (Map Text) → List (Map Text)
noted [] headers = headers
noted (h ∷ hs) headers = headers ++ (h ∷ hs) ∷ []

abbrev pub show_code : ℤ → Text
show_code (pos n) = show n
show_code (negsuc n) = bytes "-" ++ show (n + 1)

abbrev pub error_text : Text → JsonRpcError → Text
error_text what e = what ++ show_code e.code ++ bytes ": " ++ e.message

abbrev pub initialize_leg : Codec → Process → Text → Leg
initialize_leg codec process id = record {
  method = initialize_method;
  hash_name = bytes "initialize_response";
  is_init = true;
  body =
      codec.initialize_request
        (record { method = initialize_method; params = phase0 codec.host_version; id = id });
  write = process.initialize_write;
  reads = process.initialize_reads;
}

-- `JsonRpcId::new(..).expect(..)`.
unfoldable pub expect_id {ℓ} : {A : Type ℓ} → Result ProtoError Text → (Text → Phase A) → Phase A
expect_id (err e) rest = panic
expect_id (ok id) rest = rest id

abbrev pub run_leg : Codec → Process → Text → Value → Text → Leg
run_leg codec process run_id input id = record {
  method = run_method;
  hash_name = bytes "run_response";
  is_init = false;
  body =
      codec.run_request (record {
        method = run_method;
        params = record { run_id = run_id; input = input };
        id = id;
      });
  write = process.run_write;
  reads = process.run_reads;
}

module _ (codec : Codec) (config : RunConfig) (redaction : List Text) (process : Process) where
  -- The answer's headers, hash and message are kept.
  unfoldable pub receive : Leg → DecodedFrame → Run → Run
  receive leg frame run =
      push_message codec redaction (bytes "plugin_to_host") leg.method frame.body (record run {
        unknown_headers = noted frame.unknown_headers run.unknown_headers;
        hashes = insert leg.hash_name (codec.sha256_hex frame.body) run.hashes;
      })

  unfoldable pub parsed : {T : Type 0} → Result Fault T → Run → Phase T
  parsed (ok t) run = next t run
  parsed (err e) run =
      fault_of e
        λ problem. abort_child codec config process schema_violation (codec.describe problem) run

  unfoldable pub answered :
      {T : Type 0}
      → Leg
      → (Value → Result Text T)
      → Result ReadFrameError DecodedFrame
      → Run
      → Phase T
  answered leg from (err e) run =
      let (code, message) = frame_failure codec leg.is_init e in
      abort_child codec config process code message run
  answered leg from (ok frame) run =
      parsed (from_slice_strict codec.serde from frame.body config.limits) (receive leg frame run)

  -- The frame of the request is written to stdin, and the answer is read from stdout.
  unfoldable pub written : {T : Type 0} → Leg → (Value → Result Text T) → Written → Run → Phase T
  written leg from write_blocked run = hang
  written leg from (write_failed e) run = abort_child codec config process plugin_write_failed e run
  written leg from wrote run =
      answered leg from (read_one_frame process.has_stdout (frame_limits config.limits) leg.reads)
        run

  unfoldable pub exchange : {T : Type 0} → Leg → (Value → Result Text T) → Run → Phase T
  exchange leg from run =
      written leg from (write_end process.has_stdin leg.write)
        (push_message codec redaction (bytes "host_to_plugin") leg.method leg.body run)

  -- The result of the answer to "initialize" has the host's protocol version.
  unfoldable pub version_checked : InitializeResult → Run → Phase (Unit {0})
  version_checked result run =
      if not (str_eq result.protocol_version protocol_version)
      then abort_child codec config process protocol_version_mismatch
          (bytes "no shared protocol version: plugin selected " ++ result.protocol_version) run
      else next tt (record run { plugin_version = some result.plugin_version })

  -- `init_resp.error`, then `init_resp.result`.
  unfoldable pub initialized :
      Option JsonRpcError → Option InitializeResult → Run → Phase (Unit {0})
  initialized (some e) result run =
      abort_child codec config process plugin_application_error
        (error_text (bytes "initialize error ") e) run
  initialized none none run =
      abort_child codec config process schema_violation (bytes "initialize response missing result")
        run
  initialized none (some result) run = version_checked result run

  unfoldable pub check_initialize : Text → JsonRpcResponse InitializeResult → Run → Phase (Unit {0})
  check_initialize id response run =
      if not (str_eq response.id id)
      then abort_child codec config process rpc_id_mismatch
          (bytes "initialize response id mismatch") run
      else initialized response.error response.result run

  unfoldable pub initialize : Text → Run → Phase (Unit {0})
  initialize run_id run = expect_id (json_rpc_id (bytes "init-" ++ run_id)) λ id.
      and_then (exchange (initialize_leg codec process id) codec.initialize_response run)
        (check_initialize id)

  -- `run_resp.error`, else `run_resp.result`: none of it is an early return.
  unfoldable pub settle : Option JsonRpcError → Option RunResult → Run → Run
  settle (some e) result run =
      fail plugin_application_error (error_text (bytes "plugin application error ") e) run
  settle none (some result) run = record run { payload = result.payload }
  settle none none run = fail schema_violation (bytes "run response missing result and error") run

  unfoldable pub check_run : Text → JsonRpcResponse RunResult → Run → Phase (Unit {0})
  check_run id response run =
      if not (str_eq response.id id)
      then abort_child codec config process rpc_id_mismatch (bytes "run response id mismatch") run
      else next tt (settle response.error response.result run)

  unfoldable pub request_run : Text → Value → Run → Phase (Unit {0})
  request_run run_id input run = expect_id (json_rpc_id (bytes "run-" ++ run_id)) λ id.
      and_then (exchange (run_leg codec process run_id input id) codec.run_response run)
        (check_run id)
