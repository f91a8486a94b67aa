-- ===== src/Host/Run/Outcome.antt =====
-- crates/agentmesh-host/src/run.rs: the outcome of `execute_run_with`.
use agentmesh_private.Common.{
  Text, Option, none, some, List, ◌≡◌, refl, sym, subst, ◌∙◌, ◌⊎◌, inl, inr,
}
use agentmesh_private.Proto.Failure.{category}
use agentmesh_private.Host.Sidecar.{AuditStore, AuditError, CompactSink}
use agentmesh_private.Host.Run.State.{RunConfig, Codec, World, Run, Phase, next, stop, panic, hang}
use agentmesh_private.Host.Run.Stages.{Leads, IsCoded, IsClean, IsEnded}
use agentmesh_private.Host.Run.Finish.{RunOutcome, stored, finish}
use agentmesh_private.Host.Run.Complete.{Completed, IsOver, body-Leads}
use agentmesh_private.Host.Run.{started, body, concluded, execute_run_with, run_id_or}
use agentmesh_private.Host.Run.Finish.Cases.{
  IsRefusal, IsSuccess, IsConsistent, exit_code-nonzero, IsStored, IsWritten, finish-cases,
}

module _ (codec : Codec) (audit_text : AuditError → Text) (world : World) (store : AuditStore)
    (sink : CompactSink) (config : RunConfig) where
  abbrev id_of : Text
  id_of = run_id_or world.new_v4 config.run_id

  -- Everything that a run with the exit code 0 has done.
  pub record HasSucceeded (run : Run) (o : RunOutcome) : Type 0 where
    pub success : IsSuccess o
    pub completed : Completed codec config world (run_id_or world.new_v4 config.run_id) run
    pub redaction : Option (List Text)
    pub stored :
        IsStored codec audit_text store sink config
          (run_id_or world.new_v4 config.run_id)
          redaction
          run
          o
    pub written :
        IsWritten codec audit_text store sink config (run_id_or world.new_v4 config.run_id) o
    pub payload : o.envelope.payload ≡ run.payload

  abbrev Holds : Option (Run × RunOutcome) → Type 0
  Holds none = Unit
  Holds (some (run, o)) = IsEnded run.child × (HasSucceeded run o ⊎ IsRefusal o)

  finish-Holds :
      (redaction : Option (List Text)) (run : Run)
      → IsCoded run
      → IsEnded run.child
      → (IsClean run → Completed codec config world id_of run)
      → Holds (some (run, finish codec audit_text store sink config id_of redaction run))
  finish-Holds redaction run coded ended good = (
    ended,
    elim (finish-cases codec audit_text store sink config id_of redaction run coded) [
      | inr refusal ↦ inr refusal
      | inl (success, clean, stored, written, payload) ↦ inl (record {
        success = success;
        completed = good clean;
        redaction = redaction;
        stored = stored;
        written = written;
        payload = payload;
      })
    ],
  )

  concluded-Holds :
      (phase : Phase (List Text))
      → Leads (λ _ after. IsOver codec config (Completed codec config world id_of) after) phase
      → Holds (concluded (finish codec audit_text store sink config id_of) phase)
  unfolding concluded
  concluded-Holds (next redaction run) (coded, ended, good) =
      finish-Holds (some redaction) run coded ended good
  concluded-Holds (stop run) ((f, is_failed), coded, ended) =
      finish-Holds none run coded ended λ clean. absurd cc
  concluded-Holds panic leads = tt
  concluded-Holds hang leads = tt

  execute_run_with-Holds : Holds (execute_run_with codec audit_text world store sink config)
  unfolding execute_run_with
  execute_run_with-Holds =
      concluded-Holds (body codec config world id_of (started codec))
        (body-Leads codec config world id_of (started codec) refl refl)

  module _ (run : Run) (o : RunOutcome)
      (done : execute_run_with codec audit_text world store sink config ≡ some (run, o)) where
    -- After a run that returns, whatever happened in it, no child is left alone: none was spawned, or `wait` gave its
    -- status, or `start_kill` was called on it.
    pub execute_run_with-IsEnded : IsEnded run.child
    execute_run_with-IsEnded = (subst Holds done execute_run_with-Holds).0

    -- The outcome of a run is a success (exit code 0, no diagnostics) or a refusal: the payload is empty,
    -- one diagnostic has a code and the category of that code, and the exit code is that category's.
    pub execute_run_with-IsConsistent : IsConsistent o
    execute_run_with-IsConsistent = elim (subst Holds done execute_run_with-Holds).1 [
      | inl did ↦ inl did.success
      | inr refusal ↦ inr refusal
    ]

    -- A run ends with the exit code 0 only if the input parsed in its bounds, the plugin was spawned from
    -- its path, it answered "initialize" with the host's version and "agentmesh.run" with the payload of
    -- the outcome, both with the identifiers that were sent and no error, it exited with the code 0, the
    -- audit document was stored (or serializes to nothing), and the envelope was written.
    pub execute_run_with-HasSucceeded : o.exit_code ≡ 0 → HasSucceeded run o
    execute_run_with-HasSucceeded zero = elim (subst Holds done execute_run_with-Holds).1 [
      | inl did ↦ did
      | inr (cause, text, out, paid, told, code) ↦
          absurd (exit_code-nonzero (category cause) (sym code ∙ zero))
    ]
