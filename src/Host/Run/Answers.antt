-- ===== src/Host/Run/Answers.antt =====
-- crates/agentmesh-host/src/run.rs: one exchange of `execute_run_with`, when the run goes on.
use agentmesh_private.Common.{Text, bytes, List, ◌≡◌, refl, sym}
use agentmesh_private.Common.Json.{Value}
use agentmesh_private.Common.Results.{Result, ok, err}
use agentmesh_private.Proto.Failure.{schema_violation, plugin_write_failed}
use agentmesh_private.Proto.JsonStrict.{Fault, reported, out_of_fuel}
use agentmesh_private.Host.Framing.{DecodedFrame, frame_limits}
use agentmesh_private.Host.Run.Frames.{ReadFrameError, read_one_frame}
use agentmesh_private.Host.Run.State.{Written, wrote, write_blocked, write_failed}
use agentmesh_private.Host.Run.State.{
  RunConfig, Codec, Process, Run, from_slice_strict, push_message,
}
use agentmesh_private.Host.Run.Exchange.{
  Leg, receive, parsed, answered, written, exchange, frame_failure, write_end,
}
use agentmesh_private.Host.Run.Stages.{Leads, IsClean, IsClean-IsCoded, abort_child-IsSettled}

module _ (codec : Codec) (config : RunConfig) (process : Process) where
  -- A frame was read within the limits, and its body parses strictly to the answer.
  pub record HasAnswer {T : Type 0} (leg : Leg) (from : Value → Result Text T) (t : T)
      : Type 0 where
    pub frame : DecodedFrame
    pub read : read_one_frame process.has_stdout (frame_limits config.limits) leg.reads ≡ ok frame
    pub parses : from_slice_strict codec.serde from frame.body config.limits ≡ ok t

  parsed-Leads :
      {T : Type 0} (redaction : List Text) (Done : T → Run → Type 0) (r : Result Fault T)
      (run : Run)
      → IsClean run
      → ((t : T) → r ≡ ok t → Done t run)
      → Leads Done (parsed codec config redaction process r run)
  unfolding parsed
  parsed-Leads redaction Done (ok t) run clean done = done t refl
  parsed-Leads redaction Done (err (reported e)) run clean done =
      abort_child-IsSettled Done codec config process schema_violation (codec.describe e) run
        (IsClean-IsCoded run clean)
  parsed-Leads redaction Done (err out_of_fuel) run clean done = tt

  answered-Leads :
      {T : Type 0} (redaction : List Text) (leg : Leg) (from : Value → Result Text T)
      (read : Result ReadFrameError DecodedFrame) (run : Run)
      → IsClean run
      → read ≡ read_one_frame process.has_stdout (frame_limits config.limits) leg.reads
      → Leads
          (λ t after. IsClean after × HasAnswer leg from t)
          (answered codec config redaction process leg from read run)
  unfolding answered receive push_message
  answered-Leads redaction leg from (err e) run clean same =
      let (code, message) = frame_failure codec leg.is_init e in
      abort_child-IsSettled _ codec config process code message run (IsClean-IsCoded run clean)
  answered-Leads redaction leg from (ok frame) run clean same =
      parsed-Leads redaction _ (from_slice_strict codec.serde from frame.body config.limits)
        (receive codec config redaction process leg frame run) clean
        λ t found. (clean, record { frame = frame; read = sym same; parses = found })

  pub exchange-Leads :
      {T : Type 0} (redaction : List Text) (leg : Leg) (from : Value → Result Text T) (run : Run)
      → IsClean run
      → Leads
          (λ t after. IsClean after × HasAnswer leg from t)
          (exchange codec config redaction process leg from run)
  unfolding exchange written push_message
  exchange-Leads redaction leg from run clean = sent (write_end process.has_stdin leg.write)
    where
      asked : Run
      asked = push_message codec redaction (bytes "host_to_plugin") leg.method leg.body run

      sent :
          (w : Written)
          → Leads
              (λ t after. IsClean after × HasAnswer leg from t)
              (written codec config redaction process leg from w asked)
      sent write_blocked = tt
      sent (write_failed e) =
          abort_child-IsSettled _ codec config process plugin_write_failed e asked
            (IsClean-IsCoded run clean)
      sent wrote =
          answered-Leads redaction leg from
            (read_one_frame process.has_stdout (frame_limits config.limits) leg.reads) asked clean
            refl
