-- ===== src/Proto/Failure.antt =====
-- crates/agentmesh-proto/src/failure.rs: failure categories, detailed codes, failure records.
pub mod Codes
pub mod Examples
use agentmesh_private.Common.{ℕ, Text, bytes}

pub data FailureCategory : Type 0 where
  input protocol plugin timeout cancelled audit internal : FailureCategory

-- The process exit code of a category (an `i32`, and never negative).
unfoldable pub exit_code : FailureCategory → ℕ
exit_code input = 2
exit_code protocol = 10
exit_code plugin = 11
exit_code timeout = 12
exit_code cancelled = 12
exit_code audit = 13
exit_code internal = 70

pub data FailureCode : Type 0 where
  input_missing input_empty input_too_large input_read_failed input_invalid_json
        input_schema_violation plugin_not_found plugin_spawn_failed plugin_write_failed
        initialize_timeout run_timeout protocol_version_mismatch invalid_framing invalid_json
        schema_violation plugin_application_error unexpected_eof frame_too_large rpc_id_mismatch
        unexpected_output plugin_exited plugin_exit_timeout host_interrupted sidecar_too_large
        sidecar_write_failed stdout_write_failed host_internal_error :
      FailureCode

unfoldable pub category : FailureCode → FailureCategory
category input_missing = input
category input_empty = input
category input_too_large = input
category input_read_failed = input
category input_invalid_json = input
category input_schema_violation = input
category plugin_not_found = plugin
category plugin_spawn_failed = plugin
category plugin_write_failed = plugin
category initialize_timeout = timeout
category run_timeout = timeout
category protocol_version_mismatch = protocol
category invalid_framing = protocol
category invalid_json = protocol
category schema_violation = protocol
category plugin_application_error = plugin
category unexpected_eof = protocol
category frame_too_large = protocol
category rpc_id_mismatch = protocol
category unexpected_output = protocol
category plugin_exited = plugin
category plugin_exit_timeout = timeout
category host_interrupted = cancelled
category sidecar_too_large = audit
category sidecar_write_failed = audit
category stdout_write_failed = internal
category host_internal_error = internal

-- The wire string of a code.
unfoldable pub as_str : FailureCode → Text
as_str input_missing = bytes "input_missing"
as_str input_empty = bytes "input_empty"
as_str input_too_large = bytes "input_too_large"
as_str input_read_failed = bytes "input_read_failed"
as_str input_invalid_json = bytes "input_invalid_json"
as_str input_schema_violation = bytes "input_schema_violation"
as_str plugin_not_found = bytes "plugin_not_found"
as_str plugin_spawn_failed = bytes "plugin_spawn_failed"
as_str plugin_write_failed = bytes "plugin_write_failed"
as_str initialize_timeout = bytes "initialize_timeout"
as_str run_timeout = bytes "run_timeout"
as_str protocol_version_mismatch = bytes "protocol_version_mismatch"
as_str invalid_framing = bytes "invalid_framing"
as_str invalid_json = bytes "invalid_json"
as_str schema_violation = bytes "schema_violation"
as_str plugin_application_error = bytes "plugin_application_error"
as_str unexpected_eof = bytes "unexpected_eof"
as_str frame_too_large = bytes "frame_too_large"
as_str rpc_id_mismatch = bytes "rpc_id_mismatch"
as_str unexpected_output = bytes "unexpected_output"
as_str plugin_exited = bytes "plugin_exited"
as_str plugin_exit_timeout = bytes "plugin_exit_timeout"
as_str host_interrupted = bytes "host_interrupted"
as_str sidecar_too_large = bytes "sidecar_too_large"
as_str sidecar_write_failed = bytes "sidecar_write_failed"
as_str stdout_write_failed = bytes "stdout_write_failed"
as_str host_internal_error = bytes "host_internal_error"

pub record FailureRecord : Type 0 where
  pub category : FailureCategory
  pub code : FailureCode
  pub message : Text

-- `FailureRecord::new`: the category is that of the code.
unfoldable pub failure : FailureCode → Text → FailureRecord
unfolding category
failure c m = record { category = category c; code = c; message = m }

pub record SecondaryFailure : Type 0 where
  pub category : FailureCategory
  pub code : FailureCode
  pub message : Text

-- `From<FailureRecord> for SecondaryFailure`.
unfoldable pub into_secondary : FailureRecord → SecondaryFailure
into_secondary r = record { category = r.category; code = r.code; message = r.message }
