-- ===== src/Ledger/Examples.antt =====
-- Runs of the ledger, and instances of its theorems.
use agentmesh_private.Ledger.Leases.Release.{acquire_with-after-release}
use agentmesh_private.Common.{
  ℕ, Text, bytes, Bool, true, false, Option, none, some, [], ◌∷◌, ◌≡◌, refl, ◌≤◌, ◌<◌, ◌↔◌, str_eq,
  str_le, char_count,
}
use agentmesh_private.Common.Int.{◌+ℤ◌, ◌-ℤ◌, ◌*ℤ◌, ◌/ℤ◌, ◌%ℤ◌}
use agentmesh_private.Common.Decimal.{parse_i64}
use agentmesh_private.Common.Results.{ok}
use agentmesh_private.Proto.Rfc3339.{parse_rfc3339_epoch}
use agentmesh_private.Ledger.Input.{
  validation, lease_not_found, LedgerInput, Answer, answer, lease, lease_released, idempotency,
  watermark_set, watermark_found, mode_set, mode_found,
}
use agentmesh_private.Ledger.Rows.{Tables, Lease, Decision, no_rows}
use agentmesh_private.Ledger.Sql.{update, upsert, select, insert_or_ignore, count}
use agentmesh_private.Ledger.Validate.{
  require, ts_is_after, validate_id, validate_scope, validate_hash, validate_ts,
  validate_authority_mode,
}
use agentmesh_private.Ledger.Args.{
  LeaseArgs, LeaseReleaseArgs, MetricsArgs, IdempotencyArgs, idempotency_args, WatermarkArgs,
  watermark_args, watermark_key_args, ModeArgs, mode_args, controller_arg, lease_release_args,
}
use agentmesh_private.Ledger.Store.{
  Environment, statement, transaction, ◌>>=◌, then_run, attempt, settle,
}
use agentmesh_private.Ledger.Leases.{
  reclaim_expired_leases, insert_lease, acquire_with, mark_released, release_with, release_lease,
}
use agentmesh_private.Ledger.Leases.Exclusion.{
  find_lease, granted, acquire_with-grant, acquire_with-excludes,
}
use agentmesh_private.Ledger.Records.{
  ok_answer, put_watermark, set_watermark, find_watermark, get_watermark, put_mode,
  set_authority_mode, find_mode, get_authority_mode, put_idempotency, claim_idempotency,
}
use agentmesh_private.Ledger.Records.RoundTrip.{
  get_watermark-set_watermark, get_authority_mode-set_authority_mode,
}
use agentmesh_private.Ledger.Metrics.{count_decisions, count_failures, parity_pct}
use agentmesh_private.Ledger.Metrics.Bounds.{parity_pct-bounds}
use agentmesh_private.Ledger.Dispatch.{
  find_operation, run_operation, dispatch_found, dispatch, run_local_control_ledger,
}
use agentmesh_private.Ledger.Dispatch.Sequences.{
  run_all, HasClaim, verdict, claim_idempotency-verdict, claim_idempotency-once,
}
use agentmesh_private.Ledger.Atomic.{dispatch-error_keeps}

abbrev quiet : Environment
quiet step = none

-- An input whose optional fields are absent.
abbrev request : Text → LedgerInput
request operation = record {
  schema_version = bytes "local-control-ledger-input.v0";
  operation = operation;
  ledger_path = bytes "l";
  controller_id = none;
  lease_id = none;
  holder = none;
  acquired_at = none;
  expires_at = none;
  scope_key = none;
  claim_id = none;
  watermark_key = none;
  value_hash = none;
  updated_at = none;
  authority_mode = none;
  decision_id = none;
  decision_code = none;
  result_code = none;
  input_hash = none;
  output_hash = none;
  recorded_at = none;
  event_id = none;
  reason_code = none;
  correlation_id = none;
  since_ts = none;
  until_ts = none;
  violation_type = none;
  decision_hash = none;
  hard_gate_pass = none;
  target_mode = none;
}

abbrev morning : LeaseArgs
morning = record {
  lease_id = bytes "L";
  holder = bytes "a";
  acquired_at = bytes "08";
  expires_at = bytes "10";
}

abbrev noon : LeaseArgs
noon = record {
  lease_id = bytes "L";
  holder = bytes "b";
  acquired_at = bytes "09";
  expires_at = bytes "12";
}

abbrev taken : Answer
taken = answer (lease (bytes "L") true false) (bytes "ok") true

abbrev held : Answer
held = answer (lease (bytes "L") false false) (bytes "lease_already_held") false

acquire_with-grant_example :
    ◌≡◌ {A = Bool × Option Lease}
      (true, find_lease (bytes "L") (acquire_with quiet morning no_rows).1)
      (true, some (granted morning))
unfolding acquire_with ◌>>=◌ then_run statement attempt transaction settle reclaim_expired_leases
    insert_lease update upsert select
acquire_with-grant_example = acquire_with-grant quiet morning no_rows taken refl

acquire_with-excludes_example :
    (false ≡ false)
    × (find_lease (bytes "L") (acquire_with quiet noon (acquire_with quiet morning no_rows).1).1
        ≡ some (granted morning))
unfolding acquire_with ◌>>=◌ then_run statement attempt transaction settle reclaim_expired_leases
    insert_lease update upsert str_eq str_le
acquire_with-excludes_example =
    acquire_with-excludes quiet quiet morning noon no_rows taken held refl refl refl refl refl

abbrev claim_request : LedgerInput
claim_request = record (request (bytes "claim_idempotency")) {
  controller_id = some (bytes "c");
  decision_hash = some (bytes "h");
  recorded_at = some (bytes "t");
}

abbrev claim_fields : IdempotencyArgs
claim_fields = record {
  controller_id = bytes "c";
  decision_hash = bytes "h";
  recorded_at = bytes "t";
}

abbrev first_claim : Answer
first_claim = verdict (bytes "h") false

-- The rows of another controller with the same hash.
abbrev others_rows : Tables
others_rows = record no_rows {
  idempotency_claims =
      record { controller_id = bytes "d"; decision_hash = bytes "h"; recorded_at = bytes "t" } ∷ [];
}

claim_idempotency-verdict_example :
    (HasClaim (bytes "c") (bytes "h") others_rows.idempotency_claims
      → first_claim
        ≡ answer (idempotency (bytes "h") false true) (bytes "duplicate_suppressed") false)
    × (¬ HasClaim (bytes "c") (bytes "h") others_rows.idempotency_claims
        → first_claim ≡ answer (idempotency (bytes "h") true false) (bytes "ok") true)
    × HasClaim
        (bytes "c")
        (bytes "h")
        (claim_idempotency quiet claim_request others_rows).1.idempotency_claims
unfolding claim_idempotency idempotency_args require validate_id validate_hash validate_ts
    char_count ◌>>=◌ then_run statement attempt put_idempotency insert_or_ignore str_eq
claim_idempotency-verdict_example =
    claim_idempotency-verdict quiet claim_request claim_fields others_rows first_claim refl refl

claim_idempotency-once_example :
    verdict (bytes "h") true
    ≡ answer (idempotency (bytes "h") false true) (bytes "duplicate_suppressed") false
unfolding claim_idempotency idempotency_args require validate_id validate_hash validate_ts
    char_count ◌>>=◌ then_run statement attempt put_idempotency insert_or_ignore str_eq run_all
    run_local_control_ledger
claim_idempotency-once_example =
    claim_idempotency-once quiet quiet claim_request claim_request claim_fields claim_fields no_rows
      first_claim (verdict (bytes "h") true) ((quiet, none) ∷ []) refl refl refl refl refl refl

abbrev release_request : LedgerInput
release_request = record (request (bytes "release_lease")) {
  lease_id = some (bytes "L");
  updated_at = some (bytes "t");
}

dispatch-error_keeps_example : (dispatch quiet release_request no_rows).1 ≡ no_rows
unfolding dispatch find_operation dispatch_found run_operation release_lease release_with
    lease_release_args require validate_id validate_ts char_count ◌>>=◌ then_run statement attempt
    mark_released update str_eq
dispatch-error_keeps_example =
    dispatch-error_keeps quiet release_request no_rows (validation lease_not_found) refl

abbrev mark_request : LedgerInput
mark_request = record (request (bytes "set_watermark")) {
  scope_key = some (bytes "s");
  watermark_key = some (bytes "w");
  value_hash = some (bytes "v");
  updated_at = some (bytes "t");
}

abbrev mark_fields : WatermarkArgs
mark_fields = record {
  scope_key = bytes "s";
  watermark_key = bytes "w";
  value_hash = bytes "v";
  updated_at = bytes "t";
}

abbrev mark_answer : Answer
mark_answer =
    answer (watermark_found (bytes "s") (bytes "w") (bytes "v") (bytes "t")) ok_answer true

get_watermark-set_watermark_example : mark_answer ≡ mark_answer
unfolding set_watermark get_watermark watermark_args watermark_key_args require validate_id
    validate_scope validate_hash validate_ts char_count ◌>>=◌ then_run statement attempt
    put_watermark find_watermark upsert select str_eq
get_watermark-set_watermark_example =
    get_watermark-set_watermark quiet quiet mark_request mark_request mark_fields no_rows
      (answer (watermark_set (bytes "s") (bytes "w")) ok_answer true) mark_answer refl refl refl
      refl

abbrev mode_request : LedgerInput
mode_request = record (request (bytes "set_authority_mode")) {
  controller_id = some (bytes "c");
  authority_mode = some (bytes "queue");
  updated_at = some (bytes "t");
}

abbrev mode_fields : ModeArgs
mode_fields = record {
  controller_id = bytes "c";
  authority_mode = bytes "queue";
  updated_at = bytes "t";
}

abbrev mode_reply : Answer
mode_reply = answer (mode_found (bytes "c") (bytes "queue") (bytes "t")) ok_answer true

get_authority_mode-set_authority_mode_example : mode_reply ≡ mode_reply
unfolding set_authority_mode get_authority_mode mode_args controller_arg require validate_id
    validate_ts validate_authority_mode char_count ◌>>=◌ then_run statement attempt put_mode
    find_mode upsert select str_eq
get_authority_mode-set_authority_mode_example =
    get_authority_mode-set_authority_mode quiet quiet mode_request mode_request mode_fields no_rows
      (answer (mode_set (bytes "c") (bytes "queue")) ok_answer true) mode_reply refl refl refl refl

abbrev one_decision : Decision
one_decision = record {
  decision_id = bytes "d";
  controller_id = bytes "c";
  authority_mode = bytes "queue";
  decision_code = bytes "queue_shadow_run_once";
  result_code = bytes "ok";
  input_hash = bytes "i";
  output_hash = bytes "o";
  hard_gate_pass = true;
  recorded_at = bytes "5";
}

abbrev window : MetricsArgs
window = record {
  controller_id = bytes "c";
  target_mode = bytes "queue";
  since_ts = bytes "1";
  until_ts = bytes "9";
}

abbrev decided : Tables
decided = record no_rows { decisions = one_decision ∷ [] }

parity_pct-bounds_example :
    (0 ≤ 1) × (parity_pct 1 0 ≤ 100) × ((parity_pct 1 0 ≡ 100) ↔ ((0 < 1) × (◌≡◌ {A = ℕ} 0 0)))
unfolding count_decisions count_failures count str_eq str_le
parity_pct-bounds_example = parity_pct-bounds window decided

-- The upsert compares the texts: a lease that runs until 01:00 UTC, written with its offset, is handed
-- over at 00:30 UTC, half an hour before it expires.
abbrev tokyo : LeaseArgs
tokyo = record {
  lease_id = bytes "L";
  holder = bytes "a";
  acquired_at = bytes "2026-08-22T08:00:00+09:00";
  expires_at = bytes "2026-08-21T20:00:00-05:00";
}

abbrev utc : LeaseArgs
utc = record {
  lease_id = bytes "L";
  holder = bytes "b";
  acquired_at = bytes "2026-08-22T00:30:00Z";
  expires_at = bytes "2026-08-22T02:00:00Z";
}

live_lease_handed_over :
    (ts_is_after tokyo.expires_at utc.acquired_at ≡ true)
    × ((acquire_with quiet utc (acquire_with quiet tokyo no_rows).1).0
        ≡ ok (answer (lease (bytes "L") true true) (bytes "ok") true))
unfolding acquire_with ◌>>=◌ then_run statement attempt transaction settle reclaim_expired_leases
    insert_lease update upsert str_eq str_le ts_is_after parse_rfc3339_epoch parse_i64 ◌+ℤ◌ ◌-ℤ◌
    ◌*ℤ◌ ◌/ℤ◌ ◌%ℤ◌
live_lease_handed_over = (refl, refl)

-- A release, and an acquisition of the lease by another holder before it expires.
abbrev early_end : LeaseReleaseArgs
early_end = record { lease_id = bytes "L"; updated_at = bytes "09" }

abbrev released : Answer
released = answer (lease_released (bytes "L")) (bytes "ok") true

acquire_with-after-release_example :
    (true ≡ true)
    × (find_lease
          (bytes "L")
          (acquire_with quiet noon
            (release_with quiet early_end (acquire_with quiet morning no_rows).1).1).1
        ≡ some (granted noon))
unfolding acquire_with release_with ◌>>=◌ then_run statement attempt transaction settle
    reclaim_expired_leases insert_lease mark_released update upsert str_eq str_le
acquire_with-after-release_example =
    acquire_with-after-release quiet quiet early_end noon (acquire_with quiet morning no_rows).1
      released taken refl refl refl
