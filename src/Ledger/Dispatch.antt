-- ===== src/Ledger/Dispatch.antt =====
-- plugins/local-control-ledger/src/lib.rs: `dispatch` and `run_local_control_ledger`. The tables are
-- those of the ledger at the input's path; deserialization of the input is serde's.
pub mod Sequences
use agentmesh_private.Common.{
  ℕ, Text, bytes, Bool, true, false, not, Option, none, some, List, [], ◌∷◌, ◌++◌, any, is_empty,
  str_eq, if◌then◌else◌,
}
use agentmesh_private.Common.Results.{Result, ok, err}
use agentmesh_private.Ledger.Input.{
  LedgerError, sqlite, io, validation, unknown, LedgerInput, Answer, Issue, Output, compact,
  not_an_input, wrong_schema, unsupported_operation, path_required, complaint, reported,
}
use agentmesh_private.Ledger.Rows.{Tables}
use agentmesh_private.Ledger.Store.{Environment, M, fail}
use agentmesh_private.Ledger.Leases.{acquire_lease, release_lease}
use agentmesh_private.Ledger.Claims.{claim_scope, release_claim}
use agentmesh_private.Ledger.Records.{
  init, set_watermark, get_watermark, get_authority_mode, set_authority_mode, record_decision,
  record_rollback, record_violation, claim_idempotency,
}
use agentmesh_private.Ledger.Metrics.{get_promotion_metrics}

pub data Operation : Type 0 where
  init_op acquire_lease_op release_lease_op claim_scope_op release_claim_op : Operation
  set_watermark_op get_watermark_op get_authority_mode_op set_authority_mode_op : Operation
  record_decision_op record_rollback_op get_promotion_metrics_op claim_idempotency_op : Operation
  record_violation_op : Operation

-- The `match` on the operation's name, and the list `allowed`, which has the same names.
abbrev pub operations : List (Text × Operation)
operations =
    (bytes "init", init_op)
    ∷ (bytes "acquire_lease", acquire_lease_op)
    ∷ (bytes "release_lease", release_lease_op)
    ∷ (bytes "claim_scope", claim_scope_op)
    ∷ (bytes "release_claim", release_claim_op)
    ∷ (bytes "set_watermark", set_watermark_op)
    ∷ (bytes "get_watermark", get_watermark_op)
    ∷ (bytes "get_authority_mode", get_authority_mode_op)
    ∷ (bytes "set_authority_mode", set_authority_mode_op)
    ∷ (bytes "record_decision", record_decision_op)
    ∷ (bytes "record_rollback", record_rollback_op)
    ∷ (bytes "get_promotion_metrics", get_promotion_metrics_op)
    ∷ (bytes "claim_idempotency", claim_idempotency_op)
    ∷ (bytes "record_violation", record_violation_op)
    ∷ []

unfoldable pub find_operation : Text → List (Text × Operation) → Option Operation
find_operation name [] = none
find_operation name ((n, o) ∷ rest) = if str_eq n name then some o else find_operation name rest

unfoldable pub run_operation : Operation → Environment → LedgerInput → M Answer
run_operation init_op env input = init env
run_operation acquire_lease_op env input = acquire_lease env input
run_operation release_lease_op env input = release_lease env input
run_operation claim_scope_op env input = claim_scope env input
run_operation release_claim_op env input = release_claim env input
run_operation set_watermark_op env input = set_watermark env input
run_operation get_watermark_op env input = get_watermark env input
run_operation get_authority_mode_op env input = get_authority_mode env input
run_operation set_authority_mode_op env input = set_authority_mode env input
run_operation record_decision_op env input = record_decision env input
run_operation record_rollback_op env input = record_rollback env input
run_operation get_promotion_metrics_op env input = get_promotion_metrics env input
run_operation claim_idempotency_op env input = claim_idempotency env input
run_operation record_violation_op env input = record_violation env input

unfoldable pub dispatch_found : Option Operation → Environment → LedgerInput → M Answer
dispatch_found none env input = fail (validation unknown)
dispatch_found (some o) env input = run_operation o env input

unfoldable pub dispatch : Environment → LedgerInput → M Answer
dispatch env input = dispatch_found (find_operation input.operation operations) env input

abbrev pub is_known : Text → Bool
is_known name = any (λ e. str_eq e.0 name) operations

-- The issues of an input that is not dispatched.
unfoldable pub input_issues : LedgerInput → List Issue
input_issues input =
    (if not (str_eq input.schema_version (bytes "local-control-ledger-input.v0"))
      then (record { code = bytes "input_invalid"; message = wrong_schema }) ∷ []
      else [])
    ++ (if not (is_known input.operation)
        then (record { code = bytes "unknown_operation"; message = unsupported_operation }) ∷ []
        else [])
    ++ (if is_empty input.ledger_path
        then (record { code = bytes "ledger_path_missing"; message = path_required }) ∷ []
        else [])

-- The `match` on what `dispatch` returns.
unfoldable pub report : Text → Result LedgerError Answer → Output
report operation (ok a) = compact operation a.valid a.exit_reason [] (some a.body)
report operation (err (validation m)) =
    compact operation false (bytes "validation_failed")
      ((record { code = bytes "validation_failed"; message = complaint m }) ∷ []) none
report operation (err (sqlite m)) =
    compact operation false (bytes "sqlite_error")
      ((record { code = bytes "sqlite_error"; message = reported m }) ∷ []) none
report operation (err (io m)) =
    compact operation false (bytes "io_error")
      ((record { code = bytes "io_error"; message = reported m }) ∷ []) none

unfoldable pub run_checked : List Issue → Environment → LedgerInput → Tables → Output × Tables
run_checked [] env input t = let (r, t') = dispatch env input t in (report input.operation r, t')
run_checked (i ∷ is) env input t =
    (compact input.operation false (bytes "input_invalid") (i ∷ is) none, t)

-- `none` is a value that does not deserialize into an input.
unfoldable pub run_local_control_ledger :
    Environment → Option LedgerInput → Tables → Output × Tables
run_local_control_ledger env none t = (
  compact (bytes "init") false (bytes "input_invalid")
      ((record { code = bytes "input_invalid"; message = not_an_input }) ∷ []) none,
  t,
)
run_local_control_ledger env (some input) t = run_checked (input_issues input) env input t
