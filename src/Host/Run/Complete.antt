-- ===== src/Host/Run/Complete.antt =====
-- crates/agentmesh-host/src/run.rs: `execute_run_with` as a whole, up to `finish`.
use agentmesh_private.Common.{
  Text, some, List, length, is_empty, ltb, ◌≡◌, refl, sym, subst, inl, inr, Bool-cases,
}
use agentmesh_private.Common.Json.{Value}
use agentmesh_private.Common.Results.{Result, ok, err}
use agentmesh_private.Proto.Failure.{
  plugin_spawn_failed, input_schema_violation, input_empty, input_too_large,
}
use agentmesh_private.Proto.JsonStrict.{Fault, reported, out_of_fuel, parse_value_strict}
use agentmesh_private.Host.Process.{PluginPathError, Command, resolve, build_plugin_command}
use agentmesh_private.Host.Redaction.{RedactionError, from_pointers}
use agentmesh_private.Host.Run.State.{RunConfig, Codec, World, Process, unspawned, Run}
use agentmesh_private.Host.Run.Child.{close_and_reap}
use agentmesh_private.Host.Run.Stages.{
  Leads, Leads-map, and_then-Leads, await_stderr-Leads, IsCoded, IsClean, IsEnded, fail-IsSettled,
}
use agentmesh_private.Host.Run.Protocol.{HasGreeted, HasRun, initialize-Leads, request_run-Leads}
use agentmesh_private.Host.Run.Close.{close_and_reap-Reaped}
use agentmesh_private.Host.Run.{
  input_code, path_failure, policy_from, value_from, check_input, plugin_from, command_from,
  process_from, spawn_plugin, converse, body,
}

-- Before the child is there.
abbrev IsFresh : Run → Type 0
IsFresh run = IsClean run × (run.child ≡ unspawned)

module _ (codec : Codec) (config : RunConfig) where
  -- A child was spawned and did its part: it greeted, answered the run, and exited with the code 0.
  pub record Conversed (process : Process) (run_id : Text) (input : Value) (after : Run)
      : Type 0 where
    pub greeted : HasGreeted codec config process run_id
    pub ran : HasRun codec config process run_id input after.payload
    pub waited : process.close_wait ≡ some (some 0)
    pub exit : after.exit_status ≡ some 0

  -- The process was spawned from the plugin's path by the command that is built for it.
  pub record Spawned (world : World) (process : Process) : Type 0 where
    pub plugin : Text
    pub resolved : resolve world.system config.plugin ≡ ok plugin
    pub command : Command
    pub built : build_plugin_command world.system plugin config.plugin_env_keys ≡ ok command
    pub started : world.spawn command ≡ ok process

  -- All the checks of a run that records no failure.
  pub record Completed (world : World) (run_id : Text) (after : Run) : Type 0 where
    pub input : Value
    pub parsed : parse_value_strict codec.serde config.limits config.input ≡ ok input
    pub process : Process
    pub spawned : Spawned world process
    pub conversed : Conversed process run_id input after

  abbrev pub IsOver : (Run → Type 0) → Run → Type 0
  IsOver Good run = IsCoded run × IsEnded run.child × (IsClean run → Good run)

  converse-Leads :
      (run_id : Text) (redaction : List Text) (input : Value) (process : Process) (run : Run)
      → IsClean run
      → Leads
          (λ _ after. IsOver (Conversed process run_id input) after)
          (converse codec config run_id redaction input process run)
  unfolding converse
  converse-Leads run_id redaction input process run clean =
      and_then-Leads (λ _ after. IsClean after × HasGreeted codec config process run_id) _ _ _
        (initialize-Leads codec config process redaction run_id run clean)
        λ _ greeted (clean', hello).
          and_then-Leads
            (λ _ after.
              IsCoded after
              × (IsClean after → HasRun codec config process run_id input after.payload))
            _ _ _ (request_run-Leads codec config process redaction run_id input greeted clean')
            λ _ answered (coded, ran).
              let r = close_and_reap-Reaped process codec.describe_status answered coded in
              await_stderr-Leads _ codec config process
                (close_and_reap process codec.describe_status answered)
                λ capture. (
                  r.coded,
                  r.ended,
                  λ still.
                      (let (waited, before, exit, paid) = r.good still in
                        record {
                          greeted = hello;
                          ran =
                              subst (HasRun codec config process run_id input) (sym paid)
                                (ran before);
                          waited = waited;
                          exit = exit;
                        }),
                )

  -- A step whose failure is an early return before the child is there.
  policy_from-Leads :
      (r : Result RedactionError (List Text)) (run : Run)
      → IsFresh run
      → Leads (λ _ after. IsFresh after) (policy_from codec config r run)
  unfolding policy_from
  policy_from-Leads (err e) run (clean, alone) =
      fail-IsSettled input_schema_violation _ run clean alone
  policy_from-Leads (ok pointers) run fresh = fresh

  value_from-Leads :
      (r : Result Fault Value) (run : Run)
      → IsFresh run
      → Leads (λ input after. IsFresh after × (r ≡ ok input)) (value_from codec config r run)
  unfolding value_from
  value_from-Leads (err (reported e)) run (clean, alone) =
      fail-IsSettled (input_code e) _ run clean alone
  value_from-Leads (err out_of_fuel) run fresh = tt
  value_from-Leads (ok value) run fresh = (fresh, refl)

  check_input-Leads :
      (run : Run)
      → IsFresh run
      → Leads
          (λ input after.
            IsFresh after × (parse_value_strict codec.serde config.limits config.input ≡ ok input))
          (check_input codec config run)
  unfolding check_input
  check_input-Leads run (clean, alone) = elim (Bool-cases (is_empty config.input)) [
    | inl empty ↦ rw (empty) (fail-IsSettled input_empty _ run clean alone)
    | inr full ↦ elim (Bool-cases (ltb config.limits.input_max_bytes (length config.input))) [
      | inl large ↦ rw (full, large) (fail-IsSettled input_too_large _ run clean alone)
      | inr fits ↦ rw (full, fits) (value_from-Leads _ _ (clean, alone))
    ]
  ]

  plugin_from-Leads :
      (r : Result PluginPathError Text) (run : Run)
      → IsFresh run
      → Leads (λ plugin after. IsFresh after × (r ≡ ok plugin)) (plugin_from codec config r run)
  unfolding plugin_from
  plugin_from-Leads (ok plugin) run fresh = (fresh, refl)
  plugin_from-Leads (err e) run (clean, alone) =
      let (code, message) = path_failure e in fail-IsSettled code message run clean alone

  command_from-Leads :
      (r : Result Text Command) (run : Run)
      → IsFresh run
      → Leads (λ command after. IsFresh after × (r ≡ ok command)) (command_from codec config r run)
  unfolding command_from
  command_from-Leads (ok command) run fresh = (fresh, refl)
  command_from-Leads (err e) run (clean, alone) =
      fail-IsSettled plugin_spawn_failed e run clean alone

  process_from-Leads :
      (r : Result Text Process) (run : Run)
      → IsFresh run
      → Leads (λ process after. IsClean after × (r ≡ ok process)) (process_from codec config r run)
  unfolding process_from
  process_from-Leads (ok process) run (clean, alone) = (clean, refl)
  process_from-Leads (err e) run (clean, alone) =
      fail-IsSettled plugin_spawn_failed e run clean alone

  spawn_plugin-Leads :
      (world : World) (run : Run)
      → IsFresh run
      → Leads
          (λ process after. IsClean after × Spawned world process)
          (spawn_plugin codec config world run)
  unfolding spawn_plugin
  spawn_plugin-Leads world run fresh =
      and_then-Leads
        (λ plugin after. IsFresh after × (resolve world.system config.plugin ≡ ok plugin)) _ _ _
        (plugin_from-Leads _ run fresh)
        λ plugin at_plugin (fresh', resolved).
          and_then-Leads
            (λ command after.
              IsFresh after
              × (build_plugin_command world.system plugin config.plugin_env_keys ≡ ok command))
            _ _ _ (command_from-Leads _ at_plugin fresh')
            λ command at_command (fresh'', built).
              Leads-map (λ process after. IsClean after × (world.spawn command ≡ ok process)) _
                (process_from codec config (world.spawn command) at_command)
                (λ process after (clean, spawned). (
                  clean,
                  record {
                    plugin = plugin;
                    resolved = resolved;
                    command = command;
                    built = built;
                    started = spawned;
                  },
                ))
                (process_from-Leads (world.spawn command) at_command fresh'')

  pub body-Leads :
      (world : World) (run_id : Text) (run : Run)
      → IsClean run
      → run.child ≡ unspawned
      → Leads
          (λ _ after. IsOver (Completed world run_id) after)
          (body codec config world run_id run)
  unfolding body
  body-Leads world run_id run clean alone =
      and_then-Leads (λ _ after. IsFresh after) _ _ _
        (policy_from-Leads (from_pointers config.redact_pointers) run (clean, alone))
        λ redaction checked fresh.
          and_then-Leads
            (λ input after.
              IsFresh after
              × (parse_value_strict codec.serde config.limits config.input ≡ ok input))
            _ _ _ (check_input-Leads checked fresh)
            λ input at_input (fresh', parsed).
              and_then-Leads (λ process after. IsClean after × Spawned world process) _ _ _
                (spawn_plugin-Leads world at_input fresh')
                λ process spawned (clean', launched).
                  and_then-Leads (λ _ after. IsOver (Conversed process run_id input) after) _ _ _
                    (converse-Leads run_id redaction input process spawned clean')
                    λ _ ended (coded, over, good). (
                      coded,
                      over,
                      λ still. record {
                        input = input;
                        parsed = parsed;
                        process = process;
                        spawned = launched;
                        conversed = good still;
                      },
                    )
