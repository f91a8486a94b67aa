-- ===== src/Host/Run/Obeys.antt =====
-- crates/agentmesh-host/src/run.rs: a run against a plugin that follows the protocol.
use agentmesh_private.Common.{
  ℕ, Text, bytes, Bool, true, false, Option, none, some, List, length, is_empty, ltb, str_eq_iff,
  ◌≡◌, refl, sym, ◌∙◌, ap,
}
use agentmesh_private.Common.Json.{Value}
use agentmesh_private.Common.Map.{insert}
use agentmesh_private.Host.FailureCoord.{Coordinator}
use agentmesh_private.Common.Results.{Result, ok}
use agentmesh_private.Proto.JsonStrict.{parse_value_strict}
use agentmesh_private.Host.Redaction.{from_pointers}
use agentmesh_private.Host.Sidecar.{
  SidecarDocument, StderrCapture, AuditStore, AuditError, CompactSink, PersistResult,
}
use agentmesh_private.Host.Run.State.{
  RunConfig, Codec, World, Process, Probe, quiet, wrote, Joined, joined, join_failed, unended,
  running, Run, Phase, next, push_message,
}
use agentmesh_private.Host.Run.Child.{stderr_from, await_stderr, probe_stdout, reap, close_and_reap}
use agentmesh_private.Host.Run.Exchange.{
  Leg, receive, parsed, answered, written, exchange, version_checked, initialized, check_initialize,
  initialize_leg, expect_id, initialize, settle, check_run, run_leg, request_run, write_end,
}
use agentmesh_private.Host.Run.Answers.{HasAnswer}
use agentmesh_private.Host.Run.Protocol.{HasGreeted, HasRun}
use agentmesh_private.Host.Run.Complete.{Spawned}
use agentmesh_private.Host.Run.Finish.{
  RunOutcome, document, persist_document, envelope_for, outcome, finish,
}
use agentmesh_private.Host.Run.{
  started, policy_from, value_from, check_input, plugin_from, command_from, process_from,
  spawn_plugin, converse, body, concluded, execute_run_with, run_id_or,
}

-- A phase goes on with a value, and leaves the failures as they are.
abbrev GoesOn {ℓ} : {A : Type ℓ} → Run → A → Phase A → Type ℓ
GoesOn before a phase = (after : Run) × (phase ≡ next a after) × (after.failures ≡ before.failures)

write_end-wrote : (has_stdin : Bool) → write_end has_stdin wrote ≡ wrote
write_end-wrote true = refl
write_end-wrote false = refl

module _ (codec : Codec) (config : RunConfig) (process : Process) (redaction : List Text) where
  exchange-GoesOn :
      {T : Type 0} (leg : Leg) (from : Value → Result Text T) (t : T) (run : Run)
      → leg.write ≡ wrote
      → HasAnswer codec config process leg from t
      → GoesOn run t (exchange codec config redaction process leg from run)
  unfolding exchange written answered parsed receive push_message
  exchange-GoesOn leg from t run sent answer = (
    receive codec config redaction process leg answer.frame
        (push_message codec redaction (bytes "host_to_plugin") leg.method leg.body run),
    rw (sent, write_end-wrote process.has_stdin, answer.read, answer.parses) refl,
    refl,
  )

  initialize-GoesOn :
      (run_id : Text) (run : Run)
      → process.initialize_write ≡ wrote
      → HasGreeted codec config process run_id
      → GoesOn run tt (initialize codec config redaction process run_id run)
  unfolding initialize expect_id check_initialize initialized version_checked
  initialize-GoesOn run_id run sent hello =
      let (mid, went, kept) =
        exchange-GoesOn (initialize_leg codec process hello.id) codec.initialize_response
          hello.response run sent hello.answer in
      (
        record mid { plugin_version = some hello.result.plugin_version },
        rw
            (
              hello.valid,
              went,
              (str_eq_iff _ _).1 hello.same_id,
              hello.no_error,
              hello.has_result,
              (str_eq_iff _ _).1 hello.version,
            )
            refl,
        kept,
      )

  request_run-GoesOn :
      (run_id : Text) (input payload : Value) (run : Run)
      → process.run_write ≡ wrote
      → HasRun codec config process run_id input payload
      → (after : Run) × (request_run codec config redaction process run_id input run
          ≡ next tt after)
        × (after.failures ≡ run.failures)
        × (after.payload ≡ payload)
  unfolding request_run expect_id check_run settle
  request_run-GoesOn run_id input payload run sent ran =
      let (mid, went, kept) =
        exchange-GoesOn (run_leg codec process run_id input ran.id) codec.run_response ran.response
          run sent ran.answer in
      (
        record mid { payload = ran.result.payload },
        rw (ran.valid, went, (str_eq_iff _ _).1 ran.same_id, ran.no_error, ran.has_result) refl,
        kept,
        sym ran.payload_kept,
      )

  probe_stdout-quiet : (has : Bool) (run : Run) → probe_stdout has quiet run ≡ run
  unfolding probe_stdout
  probe_stdout-quiet false run = refl
  probe_stdout-quiet true run = refl

  -- The plugin does its part of the protocol.
  pub record IsObedient (run_id : Text) (input payload : Value) : Type 0 where
    pub initialize_written : process.initialize_write ≡ wrote
    pub greeted : HasGreeted codec config process run_id
    pub run_written : process.run_write ≡ wrote
    pub ran : HasRun codec config process run_id input payload
    pub silent : process.close_probe ≡ quiet
    pub exited : process.close_wait ≡ some (some 0)
    pub closed : ¬ (process.stderr_end ≡ unended)

  close_and_reap-quiet :
      (describe : Option ℕ → Text) (probe : Probe) (wait : Option (Option ℕ)) (run : Run)
      → process.close_probe ≡ probe
      → process.close_wait ≡ wait
      → close_and_reap process describe run
        ≡ reap process describe wait (probe_stdout process.has_stdout probe run)
  unfolding close_and_reap
  close_and_reap-quiet describe probe wait run silent exited =
      ap
        (λ (e : Probe × Option (Option ℕ)).
          reap process describe e.1 (probe_stdout process.has_stdout e.0 run))
        (rw (silent, exited) refl)

  await_stderr-next :
      (run : Run)
      → ¬ (process.stderr_end ≡ unended)
      → (capture : StderrCapture) × (await_stderr codec config process run
          ≡ next tt (record run { stderr = capture }))
  unfolding await_stderr stderr_from
  await_stderr-next run closed = by_end process.stderr_end closed
    where
      by_end :
          (end : Joined)
          → ¬ (end ≡ unended)
          → (capture : StderrCapture) × (stderr_from codec config process.stderr_reads end run
              ≡ next tt (record run { stderr = capture }))
      by_end joined closed = (_, refl)
      by_end join_failed closed = (run.stderr, refl)
      by_end unended closed = absurd (closed refl)

  converse-GoesOn :
      (run_id : Text) (input payload : Value) (run : Run)
      → IsObedient run_id input payload
      → (after : Run) × (converse codec config run_id redaction input process run ≡ next tt after)
        × (after.failures ≡ run.failures)
        × (after.payload ≡ payload)
  unfolding converse reap
  converse-GoesOn run_id input payload run obeys =
      let (greeted, went1, kept1) =
        initialize-GoesOn run_id run obeys.initialize_written obeys.greeted in
      let (answered', went2, kept2, paid) =
        request_run-GoesOn run_id input payload greeted obeys.run_written obeys.ran in
      let (capture, over) =
        await_stderr-next (reap process codec.describe_status (some (some 0)) answered')
          obeys.closed in
      by_answers greeted answered' went1 went2 (kept2 ∙ kept1) paid capture over
    where
      closed :
          (answered' : Run)
          → close_and_reap process codec.describe_status answered'
            ≡ reap process codec.describe_status (some (some 0)) answered'
      closed answered' =
          close_and_reap-quiet codec.describe_status quiet (some (some 0)) answered' obeys.silent
            obeys.exited
          ∙ ap (reap process codec.describe_status (some (some 0)))
              (probe_stdout-quiet process.has_stdout answered')

      by_answers :
          (greeted answered' : Run)
          → initialize codec config redaction process run_id run ≡ next tt greeted
          → request_run codec config redaction process run_id input greeted ≡ next tt answered'
          → answered'.failures ≡ run.failures
          → answered'.payload ≡ payload
          → (capture : StderrCapture)
          → await_stderr codec config process
              (reap process codec.describe_status (some (some 0)) answered')
            ≡ next tt (record (reap process codec.describe_status (some (some 0)) answered') {
              stderr = capture;
            })
          → (after : Run) × (converse codec config run_id redaction input process run
              ≡ next tt after)
            × (after.failures ≡ run.failures)
            × (after.payload ≡ payload)
      by_answers greeted answered' went1 went2 kept paid capture over = (
        record (reap process codec.describe_status (some (some 0)) answered') { stderr = capture },
        rw (went1, went2, closed answered', over) refl,
        kept,
        paid,
      )

-- The configuration is valid, and the plugin that it names does its part.
pub record IsReady (codec : Codec) (config : RunConfig) (world : World) (run_id : Text)
    (payload : Value) : Type 0 where
  pub pointers : List Text
  pub policy : from_pointers config.redact_pointers ≡ ok pointers
  pub full : is_empty config.input ≡ false
  pub fits : ltb config.limits.input_max_bytes (length config.input) ≡ false
  pub input : Value
  pub parsed : parse_value_strict codec.serde config.limits config.input ≡ ok input
  pub process : Process
  pub spawned : Spawned codec config world process
  pub obeys : IsObedient codec config process pointers run_id input payload

-- Documents are serialized to at least a byte, the store keeps them, and stdout is written.
pub record IsWell (codec : Codec) (store : AuditStore) (sink : CompactSink) : Type 0 where
  pub serialized :
      (doc : SidecarDocument)
      → (bytes : Text) × (codec.document_to_vec doc ≡ ok bytes) × (is_empty bytes ≡ false)
  pub kept :
      (dir id bytes : Text) (cap : ℕ)
      → (res : PersistResult) × (store.persist dir id bytes cap ≡ ok res)
  pub writes : (bytes : Text) → sink.write_all bytes ≡ none

module _ (codec : Codec) (config : RunConfig) where
  at_input : Run → Run
  at_input run = record run {
    hashes = insert (bytes "input") (codec.sha256_hex config.input) run.hashes;
  }

  check_input-next :
      (input : Value) (run : Run)
      → is_empty config.input ≡ false
      → ltb config.limits.input_max_bytes (length config.input) ≡ false
      → parse_value_strict codec.serde config.limits config.input ≡ ok input
      → check_input codec config run ≡ next input (at_input run)
  unfolding check_input value_from at_input
  check_input-next input run full fits parsed = rw (full, fits, parsed) refl

  spawn_plugin-next :
      (world : World) (process : Process) (run : Run)
      → Spawned codec config world process
      → spawn_plugin codec config world run ≡ next process (record run { child = running })
  unfolding spawn_plugin plugin_from command_from process_from
  spawn_plugin-next world process run spawned =
      rw (spawned.resolved, spawned.built, spawned.started) refl

  body-next :
      (world : World) (run_id : Text) (pointers : List Text) (input : Value) (process : Process)
      (run after : Run)
      → from_pointers config.redact_pointers ≡ ok pointers
      → check_input codec config run ≡ next input (at_input run)
      → spawn_plugin codec config world (at_input run)
        ≡ next process (record (at_input run) { child = running })
      → converse codec config run_id pointers input process
          (record (at_input run) { child = running })
        ≡ next tt after
      → body codec config world run_id run ≡ next pointers after
  unfolding body policy_from
  body-next world run_id pointers input process run after policy checked launched went =
      rw (policy, checked, launched, went) refl

  body-GoesOn :
      (world : World) (run_id : Text) (payload : Value) (run : Run)
      → IsReady codec config world run_id payload
      → (redaction : List Text) × (after : Run) × (body codec config world run_id run
          ≡ next redaction after)
        × (after.failures ≡ run.failures)
        × (after.payload ≡ payload)
  unfolding at_input
  body-GoesOn world run_id payload run ready =
      let (after, went, kept, paid) =
        converse-GoesOn codec config ready.process ready.pointers run_id ready.input payload
          (record (at_input run) { child = running }) ready.obeys in
      (
        ready.pointers,
        after,
        body-next world run_id ready.pointers ready.input ready.process run after ready.policy
            (check_input-next ready.input run ready.full ready.fits ready.parsed)
            (spawn_plugin-next world ready.process (at_input run) ready.spawned) went,
        kept,
        paid,
      )

module _ (codec : Codec) (audit_text : AuditError → Text) (store : AuditStore) (sink : CompactSink)
    (config : RunConfig) where
  finish-succeeds :
      (run_id : Text) (redaction : List Text) (run : Run)
      → IsWell codec store sink
      → run.failures.primary ≡ none
      → let o : RunOutcome =
          finish codec audit_text store sink config run_id (some redaction) run in
        (o.exit_code ≡ 0) × (o.envelope.payload ≡ run.payload)
  unfolding finish persist_document envelope_for outcome
  finish-succeeds run_id redaction run well clean =
      let (bytes, made, full) =
        well.serialized (document codec config run_id (some redaction) run) in
      let (res, kept) = well.kept config.sidecar_dir run_id bytes config.limits.sidecar_max_bytes in
      (
        rw (made, full, kept, clean, well.writes) refl,
        rw (made, full, kept, clean, well.writes) refl,
      )

  -- If the configuration is valid, the plugin reads its requests, follows the protocol, exits with
  -- the code 0 without further output and nothing holds its stderr open, and the audit store and stdout work, the run returns the exit code 0 and the payload
  -- of the plugin.
  pub execute_run_with-succeeds :
      (world : World) (payload : Value)
      → IsReady codec config world (run_id_or world.new_v4 config.run_id) payload
      → IsWell codec store sink
      → (run : Run) × (o : RunOutcome) × (execute_run_with codec audit_text world store sink config
          ≡ some (run, o))
        × (o.exit_code ≡ 0)
        × (o.envelope.payload ≡ payload)
  unfolding execute_run_with concluded
  execute_run_with-succeeds world payload ready well =
      let run_id = run_id_or world.new_v4 config.run_id in
      let (redaction, after, went, kept, paid) =
        body-GoesOn codec config world run_id payload (started codec) ready in
      let (zero, same) =
        finish-succeeds run_id redaction after well (ap (λ (g : Coordinator). g.primary) kept) in
      (
        after,
        finish codec audit_text store sink config run_id (some redaction) after,
        rw (went) refl,
        zero,
        same ∙ paid,
      )
