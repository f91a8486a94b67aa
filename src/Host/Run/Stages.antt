-- ===== src/Host/Run/Stages.antt =====
-- crates/agentmesh-host/src/run.rs: where the parts of a run lead, early returns included.
use agentmesh_private.Common.{Text, Bool, true, false, Option, none, some, ◌≡◌, refl, sym, subst}
use agentmesh_private.Proto.Failure.{FailureCode, FailureRecord, failure, category}
use agentmesh_private.Host.FailureCoord.{Coordinator, record_failure}
use agentmesh_private.Host.Sidecar.{StderrCapture}
use agentmesh_private.Host.Run.State.{
  RunConfig, Codec, Process, ExitStatus, ChildState, Joined, joined, join_failed, unended,
  unspawned, running, reaped, killed, abandoned, Run, fail, Phase, next, stop, panic, hang,
  and_then,
}
use agentmesh_private.Host.Run.Child.{
  child_after_kill, terminate_child, stderr_from, await_stderr, abort_child,
}

abbrev pub HasCode : Option FailureRecord → Type 0
HasCode none = Unit
HasCode (some f) = f.category ≡ category f.code

-- The category of the primary failure is that of its code.
abbrev pub IsCoded : Run → Type 0
IsCoded run = HasCode run.failures.primary

abbrev pub IsFailed : Run → Type 0
IsFailed run = (f : FailureRecord) × (run.failures.primary ≡ some f)

abbrev pub IsClean : Run → Type 0
IsClean run = run.failures.primary ≡ none

-- No child is left alone: none was spawned, or `wait` or `start_kill` was called.
abbrev pub IsEnded : ChildState → Type 0
IsEnded running = ⊥
IsEnded unspawned = Unit
IsEnded reaped = Unit
IsEnded killed = Unit
IsEnded abandoned = Unit

abbrev pub IsSettled : Run → Type 0
IsSettled run = IsFailed run × IsCoded run × IsEnded run.child

-- An early return is settled, a regular end satisfies a predicate.
abbrev pub Leads {ℓ} : {A : Type ℓ} → (A → Run → Type 0) → Phase A → Type 0
Leads Done (next a run) = Done a run
Leads Done (stop run) = IsSettled run
Leads Done panic = Unit
Leads Done hang = Unit

pub and_then-Leads {ℓ κ} :
    {A : Type ℓ} {B : Type κ} (Mid : A → Run → Type 0) (Done : B → Run → Type 0) (phase : Phase A)
    (rest : A → Run → Phase B)
    → Leads Mid phase
    → ((a : A) (run : Run) → Mid a run → Leads Done (rest a run))
    → Leads Done (and_then phase rest)
and_then-Leads Mid Done (next a run) rest here there = there a run here
and_then-Leads Mid Done (stop run) rest here there = here
and_then-Leads Mid Done panic rest here there = tt
and_then-Leads Mid Done hang rest here there = tt

pub Leads-map {ℓ} :
    {A : Type ℓ} (Mid Done : A → Run → Type 0) (phase : Phase A)
    → ((a : A) (run : Run) → Mid a run → Done a run)
    → Leads Mid phase
    → Leads Done phase
Leads-map Mid Done (next a run) f here = f a run here
Leads-map Mid Done (stop run) f here = here
Leads-map Mid Done panic f here = tt
Leads-map Mid Done hang f here = tt

record_failure-HasCode :
    (g : Coordinator) (code : FailureCode) (m : Text)
    → HasCode g.primary
    → HasCode (record_failure g (failure code m)).primary
      × ((f : FailureRecord) × ((record_failure g (failure code m)).primary ≡ some f))
unfolding record_failure failure
record_failure-HasCode g code m h = by_primary g.primary g.secondary h
  where
    by_primary :
        (p : Option FailureRecord) (s : _)
        → HasCode p
        → HasCode (record_failure (record { primary = p; secondary = s }) (failure code m)).primary
          × ((f : FailureRecord) × ((record_failure
                  (record { primary = p; secondary = s })
                  (failure code m)).primary
                ≡ some f))
    by_primary none s h = (refl, (_, refl))
    by_primary (some f) s h = (h, (f, refl))

pub fail-IsCoded :
    (code : FailureCode) (m : Text) (run : Run) → IsCoded run → IsCoded (fail code m run)
unfolding fail
fail-IsCoded code m run h = (record_failure-HasCode run.failures code m h).0

pub fail-IsFailed :
    (code : FailureCode) (m : Text) (run : Run) → IsCoded run → IsFailed (fail code m run)
unfolding fail
fail-IsFailed code m run h = (record_failure-HasCode run.failures code m h).1

-- A failure that is recorded leaves a primary failure.
pub fail-not-IsClean :
    (code : FailureCode) (m : Text) (run : Run) → IsCoded run → ¬ IsClean (fail code m run)
fail-not-IsClean code m run coded clean =
    let (f, failed) = fail-IsFailed code m run coded in absurd cc

pub IsClean-IsCoded : (run : Run) → IsClean run → IsCoded run
IsClean-IsCoded run clean = subst HasCode (sym clean) tt

pub fail-IsSettled :
    (code : FailureCode) (m : Text) (run : Run)
    → IsClean run
    → run.child ≡ unspawned
    → IsSettled (fail code m run)
unfolding fail
fail-IsSettled code m run clean alone =
    let coded = IsClean-IsCoded run clean in
    (fail-IsFailed code m run coded, fail-IsCoded code m run coded, subst IsEnded (sym alone) tt)

child_after_kill-IsEnded :
    (started : Bool) (status : Option ExitStatus) → IsEnded (child_after_kill started status)
child_after_kill-IsEnded started (some status) = tt
child_after_kill-IsEnded true none = tt
child_after_kill-IsEnded false none = tt

pub terminate_child-IsEnded :
    (process : Process) (run : Run) → IsEnded (terminate_child process run).child
unfolding terminate_child
terminate_child-IsEnded process run =
    child_after_kill-IsEnded process.kill_started process.kill_wait

-- The wait for the end of stderr changes only what is known of stderr.
pub await_stderr-Leads :
    (Done : Unit {0} → Run → Type 0) (codec : Codec) (config : RunConfig) (process : Process)
    (run : Run)
    → ((capture : StderrCapture) → Done tt (record run { stderr = capture }))
    → Leads Done (await_stderr codec config process run)
unfolding await_stderr stderr_from
await_stderr-Leads Done codec config process run done = by_end process.stderr_end
  where
    by_end : (end : Joined) → Leads Done (stderr_from codec config process.stderr_reads end run)
    by_end joined = done _
    by_end join_failed = done run.stderr
    by_end unended = tt

pub abort_child-IsSettled {ℓ} :
    {A : Type ℓ} (Done : A → Run → Type 0) (codec : Codec) (config : RunConfig) (process : Process)
    (code : FailureCode) (m : Text) (run : Run)
    → IsCoded run
    → Leads Done (abort_child {A = A} codec config process code m run)
unfolding abort_child terminate_child
abort_child-IsSettled Done codec config process code m run coded =
    and_then-Leads (λ _ ended. IsSettled ended) Done _ _
      (await_stderr-Leads (λ _ ended. IsSettled ended) codec config process
        (terminate_child process (fail code m run))
        λ capture. (
          fail-IsFailed code m run coded,
          fail-IsCoded code m run coded,
          terminate_child-IsEnded process (fail code m run),
        ))
      λ _ ended settled. settled
