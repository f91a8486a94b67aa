-- ===== src/Host/Run/Returns.antt =====
-- crates/agentmesh-host/src/run.rs: `execute_run_with` returns. Its panics are at the identifiers of the
-- two requests; a write or the end of stderr can keep it waiting for good.
use agentmesh_private.Common.{
  ℕ, ◌≤◌, Text, bytes, Bool, true, false, ◌&&◌, Option, none, some, List, ◌++◌, length, all,
  is_empty, ltb, leb, str_eq, ◌≡◌, ◌≢◌, refl, inl, inr, Bool-cases, arith,
}
use agentmesh_private.Common.Json.{Value}
use agentmesh_private.Common.Results.{Result, ok, err}
use agentmesh_private.Proto.Failure.{
  FailureCode, schema_violation, plugin_write_failed, protocol_version_mismatch, rpc_id_mismatch,
  plugin_application_error,
}
use agentmesh_private.Proto.JsonStrict.{Fault, reported, out_of_fuel}
use agentmesh_private.Proto.JsonStrict.Fuel.{parse_value_strict-ends}
use agentmesh_private.Proto.Compact.{protocol_version}
use agentmesh_private.Proto.Rpc.{
  JsonRpcResponse, JsonRpcError, InitializeResult, RunResult, json_rpc_id,
}
use agentmesh_private.Host.Framing.{DecodedFrame}
use agentmesh_private.Host.Process.{PluginPathError, Command, resolve, build_plugin_command}
use agentmesh_private.Host.Redaction.{RedactionError, from_pointers}
use agentmesh_private.Host.Sidecar.{AuditStore, AuditError, CompactSink}
use agentmesh_private.Host.Run.Frames.{ReadFrameError}
use agentmesh_private.Host.Run.State.{
  RunConfig, Codec, World, Process, Run, Phase, next, stop, panic, hang, and_then, Written, wrote,
  write_blocked, write_failed, Joined, joined, join_failed, unended, from_value, decoded,
  from_slice_strict,
}
use agentmesh_private.Host.Run.Child.{stderr_from, await_stderr, abort_child}
use agentmesh_private.Host.Run.Exchange.{
  Leg, parsed, answered, written, exchange, version_checked, initialized, check_initialize,
  frame_failure, write_end, initialize_leg, expect_id, initialize, check_run, run_leg, request_run,
}
use agentmesh_private.Host.Run.Finish.{RunOutcome}
use agentmesh_private.Host.Run.{
  started, policy_from, value_from, check_input, plugin_from, command_from, process_from,
  spawn_plugin, converse, body, concluded, execute_run_with, run_id_or,
}

abbrev Returns {ℓ} : {A : Type ℓ} → Phase A → Type 0
Returns (next a run) = Unit
Returns (stop run) = Unit
Returns panic = ⊥
Returns hang = ⊥

and_then-Returns {ℓ κ} :
    {A : Type ℓ} {B : Type κ} (phase : Phase A) (rest : A → Run → Phase B)
    → Returns phase
    → ((a : A) (run : Run) → Returns (rest a run))
    → Returns (and_then phase rest)
and_then-Returns (next a run) rest here there = there a run
and_then-Returns (stop run) rest here there = tt
and_then-Returns panic rest here there = elim here [ ]
and_then-Returns hang rest here there = elim here [ ]

-- What the run waits for without a timeout: the child takes both requests, and every holder of its stderr
-- closes it.
pub record IsPrompt (process : Process) : Type 0 where
  pub takes_initialize : process.initialize_write ≢ write_blocked
  pub takes_run : process.run_write ≢ write_blocked
  pub closes_stderr : process.stderr_end ≢ unended

-- The identifiers that the host makes of the run's are valid.
abbrev pub HasIds : Text → Type 0
HasIds run_id =
    ((id : Text) × (json_rpc_id (bytes "init-" ++ run_id) ≡ ok id))
    × ((id : Text) × (json_rpc_id (bytes "run-" ++ run_id) ≡ ok id))

from_value-ends : {T : Type 0} (r : Result Text T) → from_value r ≢ err out_of_fuel
from_value-ends (ok t) stuck = absurd cc
from_value-ends (err e) stuck = absurd cc

decoded-ends :
    {T : Type 0} (from : Value → Result Text T) (r : Result Fault Value)
    → r ≢ err out_of_fuel
    → decoded from r ≢ err out_of_fuel
decoded-ends from (ok value) ends stuck = from_value-ends (from value) stuck
decoded-ends from (err (reported e)) ends stuck = absurd cc
decoded-ends from (err out_of_fuel) ends stuck = ends refl

module _ (codec : Codec) (config : RunConfig) where
  from_slice_strict-ends :
      {T : Type 0} (from : Value → Result Text T) (input : Text)
      → from_slice_strict codec.serde from input config.limits ≢ err out_of_fuel
  unfolding from_slice_strict
  from_slice_strict-ends from input =
      decoded-ends from _ (parse_value_strict-ends codec.serde config.limits input)

  await_stderr-Returns :
      (process : Process) (run : Run)
      → IsPrompt process
      → Returns (await_stderr codec config process run)
  unfolding await_stderr stderr_from
  await_stderr-Returns process run prompt = by_end process.stderr_end prompt.closes_stderr
    where
      by_end :
          (end : Joined)
          → end ≢ unended
          → Returns (stderr_from codec config process.stderr_reads end run)
      by_end joined closes = tt
      by_end join_failed closes = tt
      by_end unended closes = absurd (closes refl)

  abort_child-Returns {ℓ} :
      (A : Type ℓ) (process : Process) (code : FailureCode) (m : Text) (run : Run)
      → IsPrompt process
      → Returns (abort_child {A = A} codec config process code m run)
  unfolding abort_child
  abort_child-Returns A process code m run prompt =
      and_then-Returns _ _ (await_stderr-Returns process _ prompt) λ _ ended. tt

  module _ (redaction : List Text) (process : Process) (prompt : IsPrompt process) where
    aborts {ℓ} :
        (A : Type ℓ) (code : FailureCode) (m : Text) (run : Run)
        → Returns (abort_child {A = A} codec config process code m run)
    aborts A code m run = abort_child-Returns A process code m run prompt

    parsed-Returns :
        {T : Type 0} (r : Result Fault T) (run : Run)
        → r ≢ err out_of_fuel
        → Returns (parsed codec config redaction process r run)
    unfolding parsed
    parsed-Returns (ok t) run ends = tt
    parsed-Returns (err (reported e)) run ends = aborts _ schema_violation (codec.describe e) run
    parsed-Returns (err out_of_fuel) run ends = absurd (ends refl)

    answered-Returns :
        {T : Type 0} (leg : Leg) (from : Value → Result Text T)
        (read : Result ReadFrameError DecodedFrame) (run : Run)
        → Returns (answered codec config redaction process leg from read run)
    unfolding answered
    answered-Returns leg from (err e) run =
        let (code, message) = frame_failure codec leg.is_init e in aborts _ code message run
    answered-Returns leg from (ok frame) run =
        parsed-Returns _ _ (from_slice_strict-ends from frame.body)

    written-Returns :
        {T : Type 0} (leg : Leg) (from : Value → Result Text T) (w : Written) (run : Run)
        → w ≢ write_blocked
        → Returns (written codec config redaction process leg from w run)
    unfolding written
    written-Returns leg from write_blocked run takes = absurd (takes refl)
    written-Returns leg from (write_failed e) run takes = aborts _ plugin_write_failed e run
    written-Returns leg from wrote run takes = answered-Returns leg from _ run

    write_end-takes :
        (has : Bool) (w : Written) → w ≢ write_blocked → write_end has w ≢ write_blocked
    write_end-takes true w takes = takes
    write_end-takes false w takes = λ same. absurd cc

    exchange-Returns :
        {T : Type 0} (leg : Leg) (from : Value → Result Text T) (run : Run)
        → leg.write ≢ write_blocked
        → Returns (exchange codec config redaction process leg from run)
    unfolding exchange
    exchange-Returns leg from run takes =
        written-Returns leg from _ _ (write_end-takes process.has_stdin leg.write takes)

    version_checked-Returns :
        (result : InitializeResult) (run : Run)
        → Returns (version_checked codec config redaction process result run)
    unfolding version_checked
    version_checked-Returns result run =
        elim (Bool-cases (str_eq result.protocol_version protocol_version)) [
          | inl same ↦ rw (same) tt
          | inr other ↦ rw (other) (aborts _ protocol_version_mismatch _ run)
        ]

    initialized-Returns :
        (e : Option JsonRpcError) (r : Option InitializeResult) (run : Run)
        → Returns (initialized codec config redaction process e r run)
    unfolding initialized
    initialized-Returns (some e) r run = aborts _ plugin_application_error _ run
    initialized-Returns none none run = aborts _ schema_violation _ run
    initialized-Returns none (some result) run = version_checked-Returns result run

    check_initialize-Returns :
        (id : Text) (response : JsonRpcResponse InitializeResult) (run : Run)
        → Returns (check_initialize codec config redaction process id response run)
    unfolding check_initialize
    check_initialize-Returns id response run = elim (Bool-cases (str_eq response.id id)) [
      | inl same ↦ rw (same) (initialized-Returns response.error response.result run)
      | inr other ↦ rw (other) (aborts _ rpc_id_mismatch _ run)
    ]

    check_run-Returns :
        (id : Text) (response : JsonRpcResponse RunResult) (run : Run)
        → Returns (check_run codec config redaction process id response run)
    unfolding check_run
    check_run-Returns id response run = elim (Bool-cases (str_eq response.id id)) [
      | inl same ↦ rw (same) tt
      | inr other ↦ rw (other) (aborts _ rpc_id_mismatch _ run)
    ]

    initialize-Returns :
        (run_id id : Text) (run : Run)
        → json_rpc_id (bytes "init-" ++ run_id) ≡ ok id
        → Returns (initialize codec config redaction process run_id run)
    unfolding initialize expect_id
    initialize-Returns run_id id run valid = rw (valid) (
        and_then-Returns _ _
          (exchange-Returns (initialize_leg codec process id) codec.initialize_response run
            prompt.takes_initialize)
          (check_initialize-Returns id))

    request_run-Returns :
        (run_id id : Text) (input : Value) (run : Run)
        → json_rpc_id (bytes "run-" ++ run_id) ≡ ok id
        → Returns (request_run codec config redaction process run_id input run)
    unfolding request_run expect_id
    request_run-Returns run_id id input run valid = rw (valid) (
        and_then-Returns _ _
          (exchange-Returns (run_leg codec process run_id input id) codec.run_response run
            prompt.takes_run)
          (check_run-Returns id))

    converse-Returns :
        (run_id : Text) (input : Value) (run : Run)
        → HasIds run_id
        → Returns (converse codec config run_id redaction input process run)
    unfolding converse
    converse-Returns run_id input run ((init_id, init), (run_rpc, asked)) =
        and_then-Returns _ _ (initialize-Returns run_id init_id run init) λ _ greeted.
          and_then-Returns _ _ (request_run-Returns run_id run_rpc input greeted asked)
            λ _ answered. await_stderr-Returns process _ prompt

  policy_from-Returns :
      (r : Result RedactionError (List Text)) (run : Run) → Returns (policy_from codec config r run)
  unfolding policy_from
  policy_from-Returns (err e) run = tt
  policy_from-Returns (ok pointers) run = tt

  value_from-Returns :
      (r : Result Fault Value) (run : Run)
      → r ≢ err out_of_fuel
      → Returns (value_from codec config r run)
  unfolding value_from
  value_from-Returns (err (reported e)) run ends = tt
  value_from-Returns (err out_of_fuel) run ends = absurd (ends refl)
  value_from-Returns (ok value) run ends = tt

  check_input-Returns : (run : Run) → Returns (check_input codec config run)
  unfolding check_input
  check_input-Returns run = elim (Bool-cases (is_empty config.input)) [
    | inl empty ↦ rw (empty) tt
    | inr full ↦ elim (Bool-cases (ltb config.limits.input_max_bytes (length config.input))) [
      | inl large ↦ rw (full, large) tt
      | inr fits ↦
          rw (full, fits)
            (value_from-Returns _ _
              (parse_value_strict-ends codec.serde config.limits config.input))
    ]
  ]

  -- A process that `spawn_plugin` hands on was spawned by the world.
  process_from-and_then :
      {B : Type 0} (rest : Process → Run → Phase B) (r : Result Text Process) (run : Run)
      → ((process : Process) (after : Run) → r ≡ ok process → Returns (rest process after))
      → Returns (and_then (process_from codec config r run) rest)
  unfolding process_from
  process_from-and_then rest (ok process) run there = there process _ refl
  process_from-and_then rest (err e) run there = tt

  command_from-and_then :
      {B : Type 0} (rest : Process → Run → Phase B) (world : World) (r : Result Text Command)
      (run : Run)
      → ((command : Command) (process : Process) (after : Run)
          → world.spawn command ≡ ok process
          → Returns (rest process after))
      → Returns (
          and_then
            (and_then
              (command_from codec config r run)
              λ command built. process_from codec config (world.spawn command) built)
            rest)
  unfolding command_from
  command_from-and_then rest world (ok command) run there =
      process_from-and_then rest (world.spawn command) run (there command)
  command_from-and_then rest world (err e) run there = tt

  spawn_plugin-and_then :
      {B : Type 0} (rest : Process → Run → Phase B) (world : World) (run : Run)
      → ((command : Command) (process : Process)
          → world.spawn command ≡ ok process
          → IsPrompt process)
      → ((process : Process) (after : Run) → IsPrompt process → Returns (rest process after))
      → Returns (and_then (spawn_plugin codec config world run) rest)
  unfolding spawn_plugin plugin_from
  spawn_plugin-and_then rest world run prompt there = by_plugin (resolve world.system config.plugin)
    where
      by_plugin :
          (r : Result PluginPathError Text)
          → Returns (
              and_then
                (and_then (plugin_from codec config r run) λ plugin resolved.
                  and_then
                    (command_from codec config
                      (build_plugin_command world.system plugin config.plugin_env_keys)
                      resolved)
                    λ command built. process_from codec config (world.spawn command) built)
                rest)
      by_plugin (ok plugin) =
          command_from-and_then rest world
            (build_plugin_command world.system plugin config.plugin_env_keys) run
            λ command process after spawned. there process after (prompt command process spawned)
      by_plugin (err e) = tt

  body-Returns :
      (world : World) (run_id : Text) (run : Run)
      → HasIds run_id
      → ((command : Command) (process : Process)
          → world.spawn command ≡ ok process
          → IsPrompt process)
      → Returns (body codec config world run_id run)
  unfolding body
  body-Returns world run_id run ids prompt =
      and_then-Returns _ _ (policy_from-Returns (from_pointers config.redact_pointers) run)
        λ redaction checked. and_then-Returns _ _ (check_input-Returns checked) λ input at_input.
          spawn_plugin-and_then _ world at_input prompt λ process spawned good.
            and_then-Returns _ _ (converse-Returns redaction process good run_id input spawned ids)
              λ _ ended. tt

-- A UUID in its canonical form has 36 bytes, hexadecimal digits and hyphens.
abbrev pub is_visible : ℕ → Bool
is_visible b = leb 33 b && leb b 126

json_rpc_id-ok :
    (text : Text)
    → is_empty text ≡ false
    → length text ≤ 128
    → all is_visible text ≡ true
    → json_rpc_id text ≡ ok text
unfolding json_rpc_id
json_rpc_id-ok text full fits visible =
    let small : ltb 128 (length text) ≡ false = ground arith in rw (full, small, visible) refl

visible-HasIds :
    (run_id : Text) → all is_visible run_id ≡ true → length run_id ≤ 123 → HasIds run_id
visible-HasIds run_id visible fits = (
  (_, json_rpc_id-ok (bytes "init-" ++ run_id) refl (omega arith) visible),
  (_, json_rpc_id-ok (bytes "run-" ++ run_id) refl (omega arith) visible),
)

concluded-Returns :
    (finish_with : Option (List Text) → Run → RunOutcome) (phase : Phase (List Text))
    → Returns phase
    → (result : Run × RunOutcome) × (concluded finish_with phase ≡ some result)
unfolding concluded
concluded-Returns finish_with (next redaction run) here = (_, refl)
concluded-Returns finish_with (stop run) here = (_, refl)
concluded-Returns finish_with panic here = elim here [ ]
concluded-Returns finish_with hang here = elim here [ ]

-- If the identifier of the run is visible ASCII of at most 123 bytes, as a UUID is, and a spawned child
-- lets both writes to its stdin end and its stderr comes to an end, the run returns an outcome, whatever
-- else the plugin does and whatever the audit store and stdout answer. The model gives an answer to each
-- of their calls, to each read of the child's stdout and to each wait for its exit; the latter two are
-- under `tokio::time::timeout`.
pub execute_run_with-ends :
    (codec : Codec) (audit_text : AuditError → Text) (world : World) (store : AuditStore)
    (sink : CompactSink) (config : RunConfig)
    → all is_visible (run_id_or world.new_v4 config.run_id) ≡ true
    → length (run_id_or world.new_v4 config.run_id) ≤ 123
    → ((command : Command) (process : Process)
        → world.spawn command ≡ ok process
        → IsPrompt process)
    → (result : Run × RunOutcome) × (execute_run_with codec audit_text world store sink config
        ≡ some result)
unfolding execute_run_with
execute_run_with-ends codec audit_text world store sink config visible fits prompt =
    concluded-Returns _ _ (
      body-Returns codec config world (run_id_or world.new_v4 config.run_id) (started codec)
        (visible-HasIds _ visible fits) prompt)
