-- ===== src/Host/Run/Child.antt =====
-- crates/agentmesh-host/src/run.rs: `terminate_child`, `close_and_reap`, and the end of the stderr task.
use agentmesh_private.Common.{
  Text, bytes, List, Bool, true, false, not, ◌||◌, Option, none, some, is_some, if◌then◌else◌,
}
use agentmesh_private.Proto.Failure.{
  FailureCode, host_interrupted, unexpected_output, plugin_exited, plugin_exit_timeout,
}
use agentmesh_private.Host.Run.Stderr.{stderr_capture}
use agentmesh_private.Host.Run.State.{
  RunConfig, Codec, ExitStatus, success, Probe, quiet, interrupted, extra_byte, Process, reaped,
  killed, abandoned, ChildState, Run, fail, Phase, next, stop, hang, and_then, Joined, joined,
  join_failed, unended,
}

abbrev pub observed_code : Option ExitStatus → ExitStatus → ExitStatus
observed_code none before = before
observed_code (some status) before = status

abbrev pub child_after_kill : Bool → Option ExitStatus → ChildState
child_after_kill started (some status) = reaped
child_after_kill true none = killed
child_after_kill false none = abandoned

unfoldable pub terminate_child : Process → Run → Run
terminate_child process run = record run {
  exit_status = observed_code process.kill_wait run.exit_status;
  interruption =
      if process.kill_cancelled || process.kill_started
      then some (record {
        host_interrupted = process.kill_cancelled;
        direct_child_termination_attempted = process.kill_started;
        direct_child_exit_observed = is_some process.kill_wait;
      })
      else run.interruption;
  child = child_after_kill process.kill_started process.kill_wait;
}

unfoldable pub stderr_from :
    Codec → RunConfig → List (Option Text) → Joined → Run → Phase (Unit {0})
stderr_from codec config reads joined run = next tt (record run {
  stderr =
      stderr_capture codec.sha256_hex codec.from_utf8_lossy config.limits.stderr_retain_bytes
        config.capture_plugin_stderr reads;
})
stderr_from codec config reads join_failed run = next tt run
stderr_from codec config reads unended run = hang

-- `stderr_cap = stderr_task.await.unwrap_or(stderr_cap)`.
unfoldable pub await_stderr : Codec → RunConfig → Process → Run → Phase (Unit {0})
await_stderr codec config process run =
    stderr_from codec config process.stderr_reads process.stderr_end run

-- An early return once the child runs: the failure, the end of the child, the end of its stderr.
unfoldable pub abort_child {ℓ} :
    {A : Type ℓ} → Codec → RunConfig → Process → FailureCode → Text → Run → Phase A
abort_child codec config process code message run =
    and_then (await_stderr codec config process (terminate_child process (fail code message run)))
      λ _ ended. stop ended

-- The loop of `close_and_reap`.
unfoldable pub probe_stdout : Bool → Probe → Run → Run
probe_stdout false probe run = run
probe_stdout true quiet run = run
probe_stdout true interrupted run = fail host_interrupted (bytes "interrupted during close") run
probe_stdout true extra_byte run =
    fail unexpected_output (bytes "additional stdout after valid response") run

-- Behind the loop; the text shows the status.
unfoldable pub reap : Process → (ExitStatus → Text) → Option ExitStatus → Run → Run
reap process describe (some status) run =
    let waited = record run { exit_status = status; child = reaped } in
    if not (success status) then fail plugin_exited (describe status) waited else waited
reap process describe none run =
    terminate_child process
      (fail plugin_exit_timeout (bytes "plugin did not exit within exit grace") run)

unfoldable pub close_and_reap : Process → (ExitStatus → Text) → Run → Run
close_and_reap process describe run =
    reap process describe process.close_wait
      (probe_stdout process.has_stdout process.close_probe run)
