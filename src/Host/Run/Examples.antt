-- ===== src/Host/Run/Examples.antt =====
-- Runs against a small plugin, and instances of the theorems.
mod Obedient
use agentmesh_private.Common.{
  Text, bytes, true, false, Option, none, some, List, [], ◌∷◌, str_eq, str_le, ◌≡◌, refl, subst,
  arith,
}
use agentmesh_private.Common.Decimal.{show, parse_unsigned}
use agentmesh_private.Common.Json.{null, number}
use agentmesh_private.Common.Map.{get, insert}
use agentmesh_private.Common.Results.{Result, ok, err}
use agentmesh_private.Common.Utf8.{from_utf8, utf8_from}
use agentmesh_private.Proto.Compact.{protocol_version, failed}
use agentmesh_private.Proto.Failure.{category, exit_code, failure}
use agentmesh_private.Proto.JsonStrict.{
  skip_ws, number_span, parse_number, value_at, parse_value, admit, check_bounds, accept,
  parse_text, parse_value_strict,
}
use agentmesh_private.Proto.JsonStrict.Examples.{plain}
use agentmesh_private.Proto.Limits.{default_limits}
use agentmesh_private.Proto.Rpc.{json_rpc_id}
use agentmesh_private.Host.FailureCoord.{record_failure}
use agentmesh_private.Host.Framing.{
  frame_limits, push, new, try_decode, decode_from, read_headers, read_body, advance, line_step,
  headers_end, ends_crlf, encode,
}
use agentmesh_private.Host.Framing.Headers.{
  split_crlf, split_once, trim, header_lines, header_line, header_field, length_value,
  is_valid_header_name, is_valid_header_value, eq_ignore_ascii_case, parse_headers,
}
use agentmesh_private.Host.Process.{System, resolve, restore, baseline, build_plugin_command}
use agentmesh_private.Host.Redaction.{from_pointers, apply, apply_from}
use agentmesh_private.Host.Sidecar.{AuditStore, AuditError, CompactSink, StderrCapture}
use agentmesh_private.Host.Run.{
  policy_from, value_from, check_input, plugin_from, command_from, process_from, spawn_plugin,
  converse, body, concluded, execute_run_with, started,
}
use agentmesh_private.Host.Run.Frames.{got, timed_out, read_from, read_one_frame}
use agentmesh_private.Host.Run.State.{
  RunConfig, Codec, Process, World, Run, quiet, wrote, write_blocked, joined, unended, fail,
  from_slice_strict, push_message,
}
use agentmesh_private.Host.Run.Stderr.{drain, drain_chunk, stderr_capture}
use agentmesh_private.Host.Run.Child.{
  terminate_child, stderr_from, await_stderr, abort_child, probe_stdout, reap, close_and_reap,
}
use agentmesh_private.Host.Run.Exchange.{
  frame_failure, receive, parsed, answered, written, exchange, version_checked, initialized,
  check_initialize, expect_id, initialize, settle, check_run, request_run,
}
use agentmesh_private.Host.Run.Finish.{
  RunOutcome, document, audit_failure, persist_document, envelope_for, outcome,
}
use agentmesh_private.Host.Run.Finish
use agentmesh_private.Host.Run.Stages.{IsEnded}
use agentmesh_private.Host.Run.Finish.Cases.{IsConsistent}
use agentmesh_private.Host.Run.Outcome.{
  HasSucceeded, execute_run_with-IsEnded, execute_run_with-IsConsistent,
  execute_run_with-HasSucceeded,
}
use agentmesh_private.Host.Run.Stderr.Drained.{stderr_capture-observed}
use agentmesh_private.Host.Run.Frames.Chunked.{reads, read_one_frame-encode}
use agentmesh_private.Host.Process.Env.{build_plugin_command-env}
use agentmesh_private.Host.Run.Returns.{IsPrompt, execute_run_with-ends}

-- Every answer is a numeral: 1 to "initialize", 2 to "agentmesh.run".
abbrev pub codec : Codec
codec = record {
  serde = plain;
  read_json = λ raw. none;
  initialize_response = λ v. ok (record {
    result = some (record {
      protocol_version = protocol_version;
      plugin_version = bytes "1.0.0";
      capabilities = [];
    });
    error = none;
    id = bytes "init-r1";
  });
  run_response = λ v.
      ok (record { result = some (record { payload = v }); error = none; id = bytes "run-r1" });
  initialize_request = λ r. bytes "i";
  run_request = λ r. bytes "r";
  document_to_vec = λ doc. ok (bytes "doc");
  envelope_to_vec = λ e. some (bytes "env");
  sha256_hex = λ text. text;
  from_utf8_lossy = λ text. text;
  host_version = bytes "0.1.0";
  describe = λ e. bytes "bad";
  describe_pointer = λ e. bytes "bad pointer";
  describe_frame = λ e. bytes "bad frame";
  describe_status = λ s. bytes "exited";
}

abbrev pub audit_text : AuditError → Text
audit_text e = bytes "audit"

abbrev pub config : RunConfig
config = record {
  plugin = bytes "/p";
  input = bytes "7";
  sidecar_dir = bytes "/runs";
  plugin_env_keys = [];
  redact_pointers = [];
  capture_plugin_stderr = false;
  limits = default_limits;
  run_id = some (bytes "r1");
}

abbrev pub process : Process
process = record {
  has_stdin = true;
  has_stdout = true;
  initialize_write = wrote;
  run_write = wrote;
  initialize_reads = got (bytes "Content-Length: 1\r\n") ∷ got (bytes "\r\n1") ∷ [];
  run_reads = got (bytes "Content-Length: 1\r\n\r\n2") ∷ [];
  stderr_reads = some (bytes "hello") ∷ [];
  stderr_end = joined;
  close_probe = quiet;
  close_wait = some (some 0);
  kill_started = true;
  kill_wait = none;
  kill_cancelled = false;
}

abbrev pub world_of : Process → World
world_of p = record {
  new_v4 = bytes "fresh";
  system = record { is_absolute = λ path. true; metadata = λ path. some true; var = λ key. none };
  spawn = λ command. ok p;
}

abbrev pub store : AuditStore
store = record {
  persist = λ dir id document cap. ok (record {
    path = bytes "/runs/full.json";
    sync_level = bytes "file_sync";
    commit_method = bytes "rename";
  });
}

abbrev pub sink : CompactSink
sink = record { write_all = λ written. none }

abbrev run_of : Option (Run × RunOutcome) → Run
run_of none = started codec
run_of (some (run, o)) = run

abbrev nothing : RunOutcome
nothing = record {
  envelope = record {
    schema_version = [];
    run_id = [];
    outcome = failed;
    payload = null;
    artifacts = [];
    diagnostics = [];
  };
  exit_code = 1;
  sidecar_path = none;
}

abbrev outcome_of : Option (Run × RunOutcome) → RunOutcome
outcome_of none = nothing
outcome_of (some (run, o)) = o

abbrev executed : Process → Option (Run × RunOutcome)
executed p = execute_run_with codec audit_text (world_of p) store sink config

-- The plugin does not answer "agentmesh.run" in time, and does not die of `start_kill` at once.
abbrev silent : Process
silent = record process { run_reads = timed_out ∷ [] }

succeeds : executed process ≡ some (run_of (executed process), outcome_of (executed process))
unfolding execute_run_with concluded body policy_from value_from check_input plugin_from
    command_from process_from spawn_plugin converse initialize request_run exchange written answered
    parsed receive check_initialize initialized version_checked check_run settle expect_id
    json_rpc_id from_slice_strict push_message apply apply_from from_pointers resolve restore
    build_plugin_command read_one_frame read_from push new try_decode decode_from read_headers
    read_body advance line_step headers_end ends_crlf parse_headers from_utf8 utf8_from split_crlf
    split_once trim header_lines header_line header_field length_value is_valid_header_name
    is_valid_header_value eq_ignore_ascii_case insert str_eq str_le parse_unsigned skip_ws
    number_span parse_number value_at parse_value admit check_bounds accept parse_text
    parse_value_strict close_and_reap probe_stdout reap await_stderr stderr_from stderr_capture
    drain drain_chunk Finish.finish document persist_document envelope_for outcome
succeeds = refl

succeeds_code :
    ((outcome_of (executed process)).exit_code ≡ 0)
    × ((outcome_of (executed process)).envelope.payload ≡ number (bytes "2"))
unfolding execute_run_with concluded body policy_from value_from check_input plugin_from
    command_from process_from spawn_plugin converse initialize request_run exchange written answered
    parsed receive check_initialize initialized version_checked check_run settle expect_id
    json_rpc_id from_slice_strict push_message apply apply_from from_pointers resolve restore
    build_plugin_command read_one_frame read_from push new try_decode decode_from read_headers
    read_body advance line_step headers_end ends_crlf parse_headers from_utf8 utf8_from split_crlf
    split_once trim header_lines header_line header_field length_value is_valid_header_name
    is_valid_header_value eq_ignore_ascii_case insert str_eq str_le parse_unsigned skip_ws
    number_span parse_number value_at parse_value admit check_bounds accept parse_text
    parse_value_strict close_and_reap probe_stdout reap await_stderr stderr_from stderr_capture
    drain drain_chunk Finish.finish document persist_document envelope_for outcome
succeeds_code = (refl, refl)

times_out : executed silent ≡ some (run_of (executed silent), outcome_of (executed silent))
unfolding frame_failure abort_child terminate_child fail record_failure failure exit_code category
    execute_run_with concluded body policy_from value_from check_input plugin_from command_from
    process_from spawn_plugin converse initialize request_run exchange written answered parsed
    receive check_initialize initialized version_checked check_run settle expect_id json_rpc_id
    from_slice_strict push_message apply apply_from from_pointers resolve restore
    build_plugin_command read_one_frame read_from push new try_decode decode_from read_headers
    read_body advance line_step headers_end ends_crlf parse_headers from_utf8 utf8_from split_crlf
    split_once trim header_lines header_line header_field length_value is_valid_header_name
    is_valid_header_value eq_ignore_ascii_case insert str_eq str_le parse_unsigned skip_ws
    number_span parse_number value_at parse_value admit check_bounds accept parse_text
    parse_value_strict await_stderr stderr_from stderr_capture drain drain_chunk Finish.finish
    document persist_document envelope_for outcome
times_out = refl

times_out_code : (outcome_of (executed silent)).exit_code ≡ 12
unfolding frame_failure abort_child terminate_child fail record_failure failure exit_code category
    execute_run_with concluded body policy_from value_from check_input plugin_from command_from
    process_from spawn_plugin converse initialize request_run exchange written answered parsed
    receive check_initialize initialized version_checked check_run settle expect_id json_rpc_id
    from_slice_strict push_message apply apply_from from_pointers resolve restore
    build_plugin_command read_one_frame read_from push new try_decode decode_from read_headers
    read_body advance line_step headers_end ends_crlf parse_headers from_utf8 utf8_from split_crlf
    split_once trim header_lines header_line header_field length_value is_valid_header_name
    is_valid_header_value eq_ignore_ascii_case insert str_eq str_le parse_unsigned skip_ws
    number_span parse_number value_at parse_value admit check_bounds accept parse_text
    parse_value_strict await_stderr stderr_from stderr_capture drain drain_chunk Finish.finish
    document persist_document envelope_for outcome
times_out_code = refl

-- A child that does not read its stdin, and one whose stderr stays open.
write_blocks : executed (record process { initialize_write = write_blocked }) ≡ none
unfolding execute_run_with concluded body policy_from value_from check_input plugin_from
    command_from process_from spawn_plugin converse initialize exchange written expect_id
    json_rpc_id push_message apply apply_from from_pointers resolve restore build_plugin_command
    insert str_eq str_le parse_unsigned skip_ws number_span parse_number value_at parse_value admit
    check_bounds accept parse_text parse_value_strict from_utf8 utf8_from
write_blocks = refl

stderr_blocks : executed (record silent { stderr_end = unended }) ≡ none
unfolding frame_failure abort_child terminate_child fail record_failure failure exit_code category
    execute_run_with concluded body policy_from value_from check_input plugin_from command_from
    process_from spawn_plugin converse initialize request_run exchange written answered parsed
    receive check_initialize initialized version_checked check_run settle expect_id json_rpc_id
    from_slice_strict push_message apply apply_from from_pointers resolve restore
    build_plugin_command read_one_frame read_from push new try_decode decode_from read_headers
    read_body advance line_step headers_end ends_crlf parse_headers from_utf8 utf8_from split_crlf
    split_once trim header_lines header_line header_field length_value is_valid_header_name
    is_valid_header_value eq_ignore_ascii_case insert str_eq str_le parse_unsigned skip_ws
    number_span parse_number value_at parse_value admit check_bounds accept parse_text
    parse_value_strict await_stderr stderr_from
stderr_blocks = refl

execute_run_with-HasSucceeded_example :
    HasSucceeded codec audit_text
      (world_of process)
      store
      sink
      config
      (run_of (executed process))
      (outcome_of (executed process))
execute_run_with-HasSucceeded_example =
    execute_run_with-HasSucceeded codec audit_text (world_of process) store sink config
      (run_of (executed process)) (outcome_of (executed process)) succeeds succeeds_code.0

execute_run_with-IsConsistent_example : IsConsistent (outcome_of (executed silent))
execute_run_with-IsConsistent_example =
    execute_run_with-IsConsistent codec audit_text (world_of silent) store sink config
      (run_of (executed silent)) (outcome_of (executed silent)) times_out

execute_run_with-IsEnded_example : IsEnded (run_of (executed silent)).child
execute_run_with-IsEnded_example =
    execute_run_with-IsEnded codec audit_text (world_of silent) store sink config
      (run_of (executed silent)) (outcome_of (executed silent)) times_out

silent-IsPrompt : (p : Process) → ◌≡◌ {A = Result Text Process} (ok silent) (ok p) → IsPrompt p
silent-IsPrompt p same =
    subst (λ (r : Result Text Process). elim r [ ok q ↦ IsPrompt q | err e ↦ Unit ]) same
      (record {
        takes_initialize = λ stuck. absurd cc;
        takes_run = λ stuck. absurd cc;
        closes_stderr = λ stuck. absurd cc;
      })

execute_run_with-ends_example : (result : Run × RunOutcome) × (executed silent ≡ some result)
execute_run_with-ends_example =
    execute_run_with-ends codec audit_text (world_of silent) store sink config refl (omega arith)
      λ command p spawned. silent-IsPrompt p spawned

abbrev id_text : Text → Text
id_text text = text

-- A host where every variable is set.
abbrev home : System
home = record {
  is_absolute = λ path. true;
  metadata = λ path. some true;
  var = λ key. some (bytes "set");
}

-- Two pieces, a limit of four bytes, and an error of `read` behind them.
abbrev noisy : List (Option Text)
noisy = some (bytes "ab") ∷ some (bytes "cdef") ∷ none ∷ some (bytes "lost") ∷ []

stderr_capture-observed_example :
    ◌≡◌ {A = StderrCapture} (stderr_capture id_text id_text 4 true noisy) (record {
      byte_count = 6;
      sha256 = bytes "abcdef";
      truncated = true;
      raw_utf8_lossy = some (bytes "abcd");
      sensitive_content = true;
    })
stderr_capture-observed_example = stderr_capture-observed id_text id_text 4 true noisy

read_one_frame-encode_example :
    read_one_frame true (frame_limits default_limits) (
      reads
        ((67, bytes "ontent-Length: 2\r") ∷ (10, bytes "\r\n{") ∷ (125, bytes "C") ∷ [])
        (timed_out ∷ []))
    ≡ ok (record { body = bytes "{}"; unknown_headers = [] })
unfolding encode show
read_one_frame-encode_example =
    read_one_frame-encode (frame_limits default_limits) (bytes "{}") (bytes "C")
      (67, bytes "ontent-Length: 2\r") ((10, bytes "\r\n{") ∷ (125, bytes "C") ∷ [])
      (timed_out ∷ [])
      (record {
        frame = omega arith;
        digits = omega arith;
        word = omega arith;
        block = omega arith;
        line = omega arith;
        lines = omega arith;
      })
      refl

build_plugin_command-env_example :
    get (restore home (bytes "TOKEN" ∷ []) (restore home baseline [])) (bytes "SECRET") ≡ none
unfolding build_plugin_command str_eq
build_plugin_command-env_example =
    build_plugin_command-env home (bytes "/p") (bytes "TOKEN" ∷ [])
      (record {
        program = bytes "/p";
        env = restore home (bytes "TOKEN" ∷ []) (restore home baseline []);
        kill_on_drop = true;
      })
      (bytes "SECRET") refl
