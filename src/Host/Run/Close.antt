-- ===== src/Host/Run/Close.antt =====
-- crates/agentmesh-host/src/run.rs: what `close_and_reap` does to a run.
use agentmesh_private.Common.{
  Text, bytes, Bool, true, false, ==_iff, Option, none, some, ◌≡◌, refl, subst, ap, ◌∙◌, ◌⊎◌, inl,
  inr, Bool-cases,
}
use agentmesh_private.Proto.Failure.{plugin_exited, plugin_exit_timeout}
use agentmesh_private.Host.Run.State.{
  ExitStatus, success, Process, Probe, quiet, interrupted, extra_byte, reaped, Run, fail,
}
use agentmesh_private.Host.Run.Child.{terminate_child, probe_stdout, reap, close_and_reap}
use agentmesh_private.Host.Run.Stages.{
  IsCoded, IsClean, IsEnded, fail-IsCoded, fail-not-IsClean, terminate_child-IsEnded,
}

-- The probe records a failure or changes nothing.
probe_stdout-run :
    (has : Bool) (probe : Probe) (run : Run)
    → IsCoded run
    → IsCoded (probe_stdout has probe run)
      × ((probe_stdout has probe run ≡ run) ⊎ (¬ IsClean (probe_stdout has probe run)))
unfolding probe_stdout
probe_stdout-run false probe run coded = (coded, inl refl)
probe_stdout-run true quiet run coded = (coded, inl refl)
probe_stdout-run true interrupted run coded =
    (fail-IsCoded _ _ run coded, inr (fail-not-IsClean _ _ run coded))
probe_stdout-run true extra_byte run coded =
    (fail-IsCoded _ _ run coded, inr (fail-not-IsClean _ _ run coded))

success-code : (status : ExitStatus) → success status ≡ true → status ≡ some 0
success-code none good = absurd cc
success-code (some n) good = ap some ((==_iff n 0).0 good)

-- The child has ended, and unless a failure is recorded it has exited with the code 0.
pub record Reaped (process : Process) (before after : Run) : Type 0 where
  pub coded : IsCoded after
  pub ended : IsEnded after.child
  pub good :
      IsClean after
      → (process.close_wait ≡ some (some 0))
        × IsClean before
        × (after.exit_status ≡ some 0)
        × (after.payload ≡ before.payload)

reap-Reaped :
    (process : Process) (describe : ExitStatus → Text) (run : Run)
    → IsCoded run
    → Reaped process run (reap process describe process.close_wait run)
unfolding reap terminate_child fail
reap-Reaped process describe run coded = by_wait process.close_wait refl
  where
    late : Text
    late = bytes "plugin did not exit within exit grace"

    waited_run : ExitStatus → Run
    waited_run status = record run { exit_status = status; child = reaped }

    by_wait :
        (wait : Option ExitStatus)
        → process.close_wait ≡ wait
        → Reaped process run (reap process describe wait run)
    by_wait none waited = record {
      coded = fail-IsCoded plugin_exit_timeout late run coded;
      ended = terminate_child-IsEnded process (fail plugin_exit_timeout late run);
      good = λ clean. absurd (fail-not-IsClean plugin_exit_timeout late run coded clean);
    }
    by_wait (some status) waited = elim (Bool-cases (success status)) [
      | inl good ↦ rw (good) (record {
        coded = coded;
        ended = tt;
        good = λ clean.
            (waited ∙ ap some (success-code status good), clean, success-code status good, refl);
      })
      | inr bad ↦ rw (bad) (record {
        coded = fail-IsCoded plugin_exited (describe status) (waited_run status) coded;
        ended = tt;
        good = λ clean.
            absurd
              (fail-not-IsClean plugin_exited (describe status) (waited_run status) coded clean);
      })
    ]

pub close_and_reap-Reaped :
    (process : Process) (describe : ExitStatus → Text) (run : Run)
    → IsCoded run
    → Reaped process run (close_and_reap process describe run)
unfolding close_and_reap
close_and_reap-Reaped process describe run coded =
    let (coded', kept) = probe_stdout-run process.has_stdout process.close_probe run coded in
    let r =
      reap-Reaped process describe (probe_stdout process.has_stdout process.close_probe run)
        coded' in
    record {
      coded = r.coded;
      ended = r.ended;
      good = λ clean.
          (let (waited, before, code, paid) = r.good clean in
            elim kept [
              | inl same ↦
                  (waited, subst IsClean same before, code, paid ∙ ap (λ (x : Run). x.payload) same)
              | inr dirty ↦ absurd (dirty before)
            ]);
    }
