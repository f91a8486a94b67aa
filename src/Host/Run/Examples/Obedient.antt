-- ===== src/Host/Run/Examples/Obedient.antt =====
-- The plugin of the examples follows the protocol: an instance of the theorem on such plugins.
use agentmesh_private.Common.{Text, bytes, none, some, [], str_eq, str_le, ◌≡◌, refl}
use agentmesh_private.Common.Decimal.{parse_unsigned}
use agentmesh_private.Common.Json.{number}
use agentmesh_private.Common.Map.{insert}
use agentmesh_private.Common.Utf8.{from_utf8, utf8_from}
use agentmesh_private.Proto.Compact.{protocol_version}
use agentmesh_private.Proto.JsonStrict.{
  skip_ws, number_span, parse_number, value_at, parse_value, admit, check_bounds, accept,
  parse_text, parse_value_strict,
}
use agentmesh_private.Proto.Rpc.{json_rpc_id}
use agentmesh_private.Host.Framing.{
  push, new, try_decode, decode_from, read_headers, read_body, advance, line_step, headers_end,
  ends_crlf,
}
use agentmesh_private.Host.Framing.Headers.{
  split_crlf, split_once, trim, header_lines, header_line, header_field, length_value,
  is_valid_header_name, is_valid_header_value, eq_ignore_ascii_case, parse_headers,
}
use agentmesh_private.Host.Process.{resolve, restore, build_plugin_command}
use agentmesh_private.Host.Redaction.{from_pointers, apply, apply_from}
use agentmesh_private.Host.Run.{
  policy_from, value_from, check_input, plugin_from, command_from, process_from, spawn_plugin,
  converse, body, concluded, execute_run_with,
}
use agentmesh_private.Host.Run.Frames.{read_from, read_one_frame}
use agentmesh_private.Host.Run.State.{Run, from_slice_strict, push_message}
use agentmesh_private.Host.Run.Stderr.{drain, drain_chunk, stderr_capture}
use agentmesh_private.Host.Run.Child.{stderr_from, await_stderr, probe_stdout, reap, close_and_reap}
use agentmesh_private.Host.Run.Exchange.{
  receive, parsed, answered, written, exchange, version_checked, initialized, check_initialize,
  expect_id, initialize, settle, check_run, request_run,
}
use agentmesh_private.Host.Run.Finish.{
  RunOutcome, document, audit_failure, persist_document, envelope_for, outcome,
}
use agentmesh_private.Host.Run.Finish
use agentmesh_private.Proto.Rpc.{InitializeResult, RunResult}
use agentmesh_private.Host.Framing.{DecodedFrame}
use agentmesh_private.Host.Run.Protocol.{HasGreeted, HasRun}
use agentmesh_private.Host.Run.Obeys.{IsReady, IsWell, execute_run_with-succeeds}
use agentmesh_private.Host.Run.Examples.{codec, audit_text, config, process, world_of, store, sink}

well : IsWell codec store sink
well = record {
  serialized = λ doc. (bytes "doc", refl, refl);
  kept = λ dir id document cap. (_, refl);
  writes = λ written. refl;
}

abbrev frame_of : Text → DecodedFrame
frame_of text = record { body = text; unknown_headers = [] }

abbrev greeting : InitializeResult
greeting = record {
  protocol_version = protocol_version;
  plugin_version = bytes "1.0.0";
  capabilities = [];
}

abbrev two : RunResult
two = record { payload = number (bytes "2") }

greeted : HasGreeted codec config process (bytes "r1")
unfolding execute_run_with concluded body policy_from value_from check_input plugin_from
    command_from process_from spawn_plugin converse initialize request_run exchange written answered
    parsed receive check_initialize initialized version_checked check_run settle expect_id
    json_rpc_id from_slice_strict push_message apply apply_from from_pointers resolve restore
    build_plugin_command read_one_frame read_from push new try_decode decode_from read_headers
    read_body advance line_step headers_end ends_crlf parse_headers from_utf8 utf8_from split_crlf
    split_once trim header_lines header_line header_field length_value is_valid_header_name
    is_valid_header_value eq_ignore_ascii_case insert str_eq str_le parse_unsigned skip_ws
    number_span parse_number value_at parse_value admit check_bounds accept parse_text
    parse_value_strict close_and_reap probe_stdout reap await_stderr stderr_from stderr_capture
    drain drain_chunk Finish.finish document persist_document envelope_for outcome
greeted = record {
  id = bytes "init-r1";
  response = record { result = some greeting; error = none; id = bytes "init-r1" };
  result = greeting;
  valid = refl;
  answer = record { frame = frame_of (bytes "1"); read = refl; parses = refl };
  same_id = refl;
  no_error = refl;
  has_result = refl;
  version = refl;
}

ran : HasRun codec config process (bytes "r1") (number (bytes "7")) (number (bytes "2"))
unfolding execute_run_with concluded body policy_from value_from check_input plugin_from
    command_from process_from spawn_plugin converse initialize request_run exchange written answered
    parsed receive check_initialize initialized version_checked check_run settle expect_id
    json_rpc_id from_slice_strict push_message apply apply_from from_pointers resolve restore
    build_plugin_command read_one_frame read_from push new try_decode decode_from read_headers
    read_body advance line_step headers_end ends_crlf parse_headers from_utf8 utf8_from split_crlf
    split_once trim header_lines header_line header_field length_value is_valid_header_name
    is_valid_header_value eq_ignore_ascii_case insert str_eq str_le parse_unsigned skip_ws
    number_span parse_number value_at parse_value admit check_bounds accept parse_text
    parse_value_strict close_and_reap probe_stdout reap await_stderr stderr_from stderr_capture
    drain drain_chunk Finish.finish document persist_document envelope_for outcome
ran = record {
  id = bytes "run-r1";
  response = record { result = some two; error = none; id = bytes "run-r1" };
  result = two;
  valid = refl;
  answer = record { frame = frame_of (bytes "2"); read = refl; parses = refl };
  same_id = refl;
  no_error = refl;
  has_result = refl;
  payload_kept = refl;
}

ready : IsReady codec config (world_of process) (bytes "r1") (number (bytes "2"))
unfolding execute_run_with concluded body policy_from value_from check_input plugin_from
    command_from process_from spawn_plugin converse initialize request_run exchange written answered
    parsed receive check_initialize initialized version_checked check_run settle expect_id
    json_rpc_id from_slice_strict push_message apply apply_from from_pointers resolve restore
    build_plugin_command read_one_frame read_from push new try_decode decode_from read_headers
    read_body advance line_step headers_end ends_crlf parse_headers from_utf8 utf8_from split_crlf
    split_once trim header_lines header_line header_field length_value is_valid_header_name
    is_valid_header_value eq_ignore_ascii_case insert str_eq str_le parse_unsigned skip_ws
    number_span parse_number value_at parse_value admit check_bounds accept parse_text
    parse_value_strict close_and_reap probe_stdout reap await_stderr stderr_from stderr_capture
    drain drain_chunk Finish.finish document persist_document envelope_for outcome
ready = record {
  pointers = [];
  policy = refl;
  full = refl;
  fits = refl;
  input = number (bytes "7");
  parsed = refl;
  process = process;
  spawned = record {
    plugin = bytes "/p";
    resolved = refl;
    command = _;
    built = refl;
    started = refl;
  };
  obeys = record {
    initialize_written = refl;
    greeted = greeted;
    run_written = refl;
    ran = ran;
    silent = refl;
    exited = refl;
    closed = λ open_end. absurd cc;
  };
}

execute_run_with-succeeds_example :
    (run : Run) × (o : RunOutcome) × (execute_run_with codec audit_text
        (world_of process)
        store
        sink
        config
      ≡ some (run, o))
    × (o.exit_code ≡ 0)
    × (o.envelope.payload ≡ number (bytes "2"))
execute_run_with-succeeds_example =
    execute_run_with-succeeds codec audit_text store sink config (world_of process)
      (number (bytes "2")) ready well
