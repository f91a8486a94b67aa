-- ===== src/Host/FailureCoord/Examples.antt =====
-- Runs of the failure coordinator, and instances of its theorems.
use mathlib.Core.List.{Perm}
use agentmesh_private.Common.{bytes, some, [], ◌∷◌, ◌≡◌}
use agentmesh_private.Proto.Failure.{
  FailureRecord, into_secondary, failure, run_timeout, sidecar_write_failed, stdout_write_failed,
}
use agentmesh_private.Host.FailureCoord.{new, plain, audit, stdout, calls}
use agentmesh_private.Host.FailureCoord.Laws.{
  chain, HasTaken, calls_first_wins, calls_stdout_wins, calls-perm,
}

abbrev timed_out : FailureRecord
timed_out = failure run_timeout (bytes "run")

abbrev not_audited : FailureRecord
not_audited = failure sidecar_write_failed (bytes "disk")

abbrev not_written : FailureRecord
not_written = failure stdout_write_failed (bytes "pipe")

calls_first_wins_example :
    ((calls new (plain timed_out ∷ audit not_audited ∷ [])).primary ≡ some timed_out)
    × ((calls new (plain timed_out ∷ audit not_audited ∷ [])).secondary
        ≡ into_secondary not_audited ∷ [])
calls_first_wins_example =
    calls_first_wins (plain timed_out) (audit not_audited ∷ []) (λ h. h, (λ h. h, tt))

calls_stdout_wins_example :
    HasTaken
      (calls new (plain timed_out ∷ audit not_audited ∷ []))
      (calls new
        (plain timed_out ∷ audit not_audited ∷ stdout not_written ∷ audit not_audited ∷ []))
      not_written
      (into_secondary not_audited ∷ [])
calls_stdout_wins_example =
    calls_stdout_wins (plain timed_out ∷ audit not_audited ∷ []) (audit not_audited ∷ [])
      not_written (λ h. h, tt)

calls-perm_example :
    Perm
      (chain (calls new (plain timed_out ∷ stdout not_written ∷ [])))
      (into_secondary timed_out ∷ into_secondary not_written ∷ [])
calls-perm_example = calls-perm (plain timed_out ∷ stdout not_written ∷ [])
