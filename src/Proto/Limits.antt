-- ===== src/Proto/Limits.antt =====
-- crates/agentmesh-proto/src/limits.rs: the limits of protocol v0.
use agentmesh_private.Common.{ℕ, ◌*◌, leb, ◌&&◌, if◌then◌else◌}
use agentmesh_private.Common.Results.{Result, ok, err}

pub record Limits : Type 0 where
  pub input_max_bytes : ℕ
  pub frame_max_bytes : ℕ
  pub stderr_retain_bytes : ℕ
  pub initialize_timeout_ms : ℕ
  pub run_timeout_ms : ℕ
  pub exit_grace_ms : ℕ
  pub sidecar_max_bytes : ℕ
  pub json_max_depth : ℕ
  pub json_max_nodes : ℕ
  pub header_block_max_bytes : ℕ
  pub header_line_max_bytes : ℕ
  pub header_max_lines : ℕ
  pub content_length_digits_max : ℕ

abbrev pub default_limits : Limits
default_limits = record {
  input_max_bytes = 1 * 1024 * 1024;
  frame_max_bytes = 4 * 1024 * 1024;
  stderr_retain_bytes = 256 * 1024;
  initialize_timeout_ms = 5000;
  run_timeout_ms = 60000;
  exit_grace_ms = 2000;
  sidecar_max_bytes = 10 * 1024 * 1024;
  json_max_depth = 64;
  json_max_nodes = 100000;
  header_block_max_bytes = 8 * 1024;
  header_line_max_bytes = 1 * 1024;
  header_max_lines = 16;
  content_length_digits_max = 10;
}

pub data TimeoutRejected : Type 0 where
  outside_one_second_to_one_hour : TimeoutRejected

unfoldable pub validate_run_timeout_ms : ℕ → Result TimeoutRejected ℕ
validate_run_timeout_ms ms =
    if leb 1000 ms && leb ms 3600000 then ok ms else err outside_one_second_to_one_hour
