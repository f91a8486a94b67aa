-- ===== src/Host/FailureCoord.antt =====
-- crates/agentmesh-host/src/failure_coord.rs: which failure of a run is primary. The mutex makes
-- each method one step, so a coordinator is a state and its use a list of calls.
pub mod Laws
pub mod Examples
use agentmesh_private.Common.{
  Bool, Option, none, some, List, [], ◌∷◌, ◌++◌, is_some, is_none, if◌then◌else◌,
}
use agentmesh_private.Proto.Failure.{FailureRecord, SecondaryFailure, into_secondary}

-- `Inner`, the state under the lock.
pub record Coordinator : Type 0 where
  pub primary : Option FailureRecord
  pub secondary : List SecondaryFailure

unfoldable pub new : Coordinator
new = record { primary = none; secondary = [] }

unfoldable pub record_failure : Coordinator → FailureRecord → Coordinator
record_failure g failure =
    if is_none g.primary
    then record g { primary = some failure }
    else record g { secondary = g.secondary ++ into_secondary failure ∷ [] }

unfoldable pub record_audit_failure : Coordinator → FailureRecord → Coordinator
record_audit_failure g failure =
    if is_none g.primary
    then record g { primary = some failure }
    else record g { secondary = g.secondary ++ into_secondary failure ∷ [] }

-- `g.primary.take()` and `secondary.insert(0, prev)`.
abbrev pub demote : Option FailureRecord → List SecondaryFailure → List SecondaryFailure
demote none s = s
demote (some prev) s = into_secondary prev ∷ s

unfoldable pub record_stdout_failure : Coordinator → FailureRecord → Coordinator
record_stdout_failure g failure = record g {
  primary = some failure;
  secondary = demote g.primary g.secondary;
}

unfoldable pub has_primary : Coordinator → Bool
has_primary g = is_some g.primary

-- One call of a recording method, and a run of calls.
pub data Call : Type 0 where
  plain audit stdout : FailureRecord → Call

abbrev pub failure_of : Call → FailureRecord
failure_of (plain f) = f
failure_of (audit f) = f
failure_of (stdout f) = f

unfoldable pub call : Coordinator → Call → Coordinator
unfolding record_failure record_audit_failure record_stdout_failure
call g (plain f) = record_failure g f
call g (audit f) = record_audit_failure g f
call g (stdout f) = record_stdout_failure g f

unfoldable pub calls : Coordinator → List Call → Coordinator
unfolding call
calls g [] = g
calls g (c ∷ cs) = calls (call g c) cs
