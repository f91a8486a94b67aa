-- ===== src/Ledger/Args.antt =====
-- plugins/local-control-ledger/src/lib.rs: the fields that each operation of `dispatch` requires of
-- its input, with their checks in the order of the source.
use agentmesh_private.Common.{
  Text, bytes, Bool, true, not, any, Option, none, some, List, [], ◌∷◌, str_eq, if◌then◌else◌,
}
use agentmesh_private.Common.Results.{Result, ok, err, ◌>>=◌, ◌>>◌}
use agentmesh_private.Ledger.Input.{LedgerError, validation, bad_violation, LedgerInput}
use agentmesh_private.Ledger.Validate.{
  require, require_after, validate_id, validate_scope, validate_hash, validate_code, validate_ts,
  validate_authority_mode,
}

abbrev pub violation_types : List Text
violation_types =
    bytes "unauthorized_write" ∷ bytes "duplicate_mutation" ∷ bytes "duplicate_start" ∷ []

-- The last check of `record_violation`.
unfoldable pub allow_violation : Text → Result LedgerError (Unit {0})
allow_violation violation_type =
    if not (any (str_eq violation_type) violation_types)
    then err (validation bad_violation)
    else ok tt

-- `unwrap_or(true)`.
abbrev pub or_true : Option Bool → Bool
or_true none = true
or_true (some b) = b

pub record LeaseArgs : Type 0 where
  pub lease_id : Text
  pub holder : Text
  pub acquired_at : Text
  pub expires_at : Text

unfoldable pub lease_args : LedgerInput → Result LedgerError LeaseArgs
lease_args input = do
  lease_id ← require input.lease_id (bytes "lease_id")
  holder ← require input.holder (bytes "holder")
  acquired_at ← require input.acquired_at (bytes "acquired_at")
  expires_at ← require input.expires_at (bytes "expires_at")
  validate_id (bytes "lease_id") lease_id
  validate_id (bytes "holder") holder
  validate_ts acquired_at
  validate_ts expires_at
  require_after expires_at acquired_at
  ok (record {
    lease_id = lease_id;
    holder = holder;
    acquired_at = acquired_at;
    expires_at = expires_at;
  })

pub record LeaseReleaseArgs : Type 0 where
  pub lease_id : Text
  pub updated_at : Text

unfoldable pub lease_release_args : LedgerInput → Result LedgerError LeaseReleaseArgs
lease_release_args input = do
  lease_id ← require input.lease_id (bytes "lease_id")
  updated_at ← require input.updated_at (bytes "updated_at")
  validate_id (bytes "lease_id") lease_id
  validate_ts updated_at
  ok (record { lease_id = lease_id; updated_at = updated_at })

pub record ScopeArgs : Type 0 where
  pub scope_key : Text
  pub claim_id : Text
  pub holder : Text
  pub acquired_at : Text
  pub expires_at : Text

unfoldable pub scope_args : LedgerInput → Result LedgerError ScopeArgs
scope_args input = do
  scope_key ← require input.scope_key (bytes "scope_key")
  claim_id ← require input.claim_id (bytes "claim_id")
  holder ← require input.holder (bytes "holder")
  acquired_at ← require input.acquired_at (bytes "acquired_at")
  expires_at ← require input.expires_at (bytes "expires_at")
  validate_scope scope_key
  validate_id (bytes "claim_id") claim_id
  validate_id (bytes "holder") holder
  validate_ts acquired_at
  validate_ts expires_at
  require_after expires_at acquired_at
  ok (record {
    scope_key = scope_key;
    claim_id = claim_id;
    holder = holder;
    acquired_at = acquired_at;
    expires_at = expires_at;
  })

pub record ScopeReleaseArgs : Type 0 where
  pub scope_key : Text
  pub updated_at : Text

unfoldable pub scope_release_args : LedgerInput → Result LedgerError ScopeReleaseArgs
scope_release_args input = do
  scope_key ← require input.scope_key (bytes "scope_key")
  updated_at ← require input.updated_at (bytes "updated_at")
  validate_scope scope_key
  validate_ts updated_at
  ok (record { scope_key = scope_key; updated_at = updated_at })

pub record WatermarkArgs : Type 0 where
  pub scope_key : Text
  pub watermark_key : Text
  pub value_hash : Text
  pub updated_at : Text

unfoldable pub watermark_args : LedgerInput → Result LedgerError WatermarkArgs
watermark_args input = do
  scope_key ← require input.scope_key (bytes "scope_key")
  watermark_key ← require input.watermark_key (bytes "watermark_key")
  value_hash ← require input.value_hash (bytes "value_hash")
  updated_at ← require input.updated_at (bytes "updated_at")
  validate_scope scope_key
  validate_id (bytes "watermark_key") watermark_key
  validate_hash (bytes "value_hash") value_hash
  validate_ts updated_at
  ok (record {
    scope_key = scope_key;
    watermark_key = watermark_key;
    value_hash = value_hash;
    updated_at = updated_at;
  })

pub record WatermarkKeyArgs : Type 0 where
  pub scope_key : Text
  pub watermark_key : Text

unfoldable pub watermark_key_args : LedgerInput → Result LedgerError WatermarkKeyArgs
watermark_key_args input = do
  scope_key ← require input.scope_key (bytes "scope_key")
  watermark_key ← require input.watermark_key (bytes "watermark_key")
  validate_scope scope_key
  validate_id (bytes "watermark_key") watermark_key
  ok (record { scope_key = scope_key; watermark_key = watermark_key })

pub record ModeArgs : Type 0 where
  pub controller_id : Text
  pub authority_mode : Text
  pub updated_at : Text

unfoldable pub mode_args : LedgerInput → Result LedgerError ModeArgs
mode_args input = do
  controller_id ← require input.controller_id (bytes "controller_id")
  authority_mode ← require input.authority_mode (bytes "authority_mode")
  updated_at ← require input.updated_at (bytes "updated_at")
  validate_id (bytes "controller_id") controller_id
  validate_authority_mode authority_mode
  validate_ts updated_at
  ok (record {
    controller_id = controller_id;
    authority_mode = authority_mode;
    updated_at = updated_at;
  })

pub record DecisionArgs : Type 0 where
  pub controller_id : Text
  pub decision_id : Text
  pub authority_mode : Text
  pub decision_code : Text
  pub result_code : Text
  pub input_hash : Text
  pub output_hash : Text
  pub recorded_at : Text
  pub hard_gate_pass : Bool

unfoldable pub decision_args : LedgerInput → Result LedgerError DecisionArgs
decision_args input = do
  controller_id ← require input.controller_id (bytes "controller_id")
  decision_id ← require input.decision_id (bytes "decision_id")
  authority_mode ← require input.authority_mode (bytes "authority_mode")
  decision_code ← require input.decision_code (bytes "decision_code")
  result_code ← require input.result_code (bytes "result_code")
  input_hash ← require input.input_hash (bytes "input_hash")
  output_hash ← require input.output_hash (bytes "output_hash")
  recorded_at ← require input.recorded_at (bytes "recorded_at")
  validate_id (bytes "controller_id") controller_id
  validate_id (bytes "decision_id") decision_id
  validate_authority_mode authority_mode
  validate_code (bytes "decision_code") decision_code
  validate_code (bytes "result_code") result_code
  validate_hash (bytes "input_hash") input_hash
  validate_hash (bytes "output_hash") output_hash
  validate_ts recorded_at
  ok (record {
    controller_id = controller_id;
    decision_id = decision_id;
    authority_mode = authority_mode;
    decision_code = decision_code;
    result_code = result_code;
    input_hash = input_hash;
    output_hash = output_hash;
    recorded_at = recorded_at;
    hard_gate_pass = or_true input.hard_gate_pass;
  })

pub record RollbackArgs : Type 0 where
  pub controller_id : Text
  pub event_id : Text
  pub reason_code : Text
  pub correlation_id : Text
  pub recorded_at : Text

unfoldable pub rollback_args : LedgerInput → Result LedgerError RollbackArgs
rollback_args input = do
  controller_id ← require input.controller_id (bytes "controller_id")
  event_id ← require input.event_id (bytes "event_id")
  reason_code ← require input.reason_code (bytes "reason_code")
  correlation_id ← require input.correlation_id (bytes "correlation_id")
  recorded_at ← require input.recorded_at (bytes "recorded_at")
  validate_id (bytes "controller_id") controller_id
  validate_id (bytes "event_id") event_id
  validate_code (bytes "reason_code") reason_code
  validate_id (bytes "correlation_id") correlation_id
  validate_ts recorded_at
  ok (record {
    controller_id = controller_id;
    event_id = event_id;
    reason_code = reason_code;
    correlation_id = correlation_id;
    recorded_at = recorded_at;
  })

pub record MetricsArgs : Type 0 where
  pub controller_id : Text
  pub target_mode : Text
  pub since_ts : Text
  pub until_ts : Text

unfoldable pub metrics_args : LedgerInput → Result LedgerError MetricsArgs
metrics_args input = do
  controller_id ← require input.controller_id (bytes "controller_id")
  target_mode ← require input.target_mode (bytes "target_mode")
  since_ts ← require input.since_ts (bytes "since_ts")
  until_ts ← require input.until_ts (bytes "until_ts")
  validate_id (bytes "controller_id") controller_id
  validate_authority_mode target_mode
  validate_ts since_ts
  validate_ts until_ts
  ok (record {
    controller_id = controller_id;
    target_mode = target_mode;
    since_ts = since_ts;
    until_ts = until_ts;
  })

pub record IdempotencyArgs : Type 0 where
  pub controller_id : Text
  pub decision_hash : Text
  pub recorded_at : Text

unfoldable pub idempotency_args : LedgerInput → Result LedgerError IdempotencyArgs
idempotency_args input = do
  controller_id ← require input.controller_id (bytes "controller_id")
  decision_hash ← require input.decision_hash (bytes "decision_hash")
  recorded_at ← require input.recorded_at (bytes "recorded_at")
  validate_id (bytes "controller_id") controller_id
  validate_hash (bytes "decision_hash") decision_hash
  validate_ts recorded_at
  ok (record {
    controller_id = controller_id;
    decision_hash = decision_hash;
    recorded_at = recorded_at;
  })

pub record ViolationArgs : Type 0 where
  pub controller_id : Text
  pub authority_mode : Text
  pub event_id : Text
  pub violation_type : Text
  pub decision_hash : Text
  pub recorded_at : Text

unfoldable pub violation_args : LedgerInput → Result LedgerError ViolationArgs
violation_args input = do
  controller_id ← require input.controller_id (bytes "controller_id")
  authority_mode ← require input.authority_mode (bytes "authority_mode")
  event_id ← require input.event_id (bytes "event_id")
  violation_type ← require input.violation_type (bytes "violation_type")
  decision_hash ← require input.decision_hash (bytes "decision_hash")
  recorded_at ← require input.recorded_at (bytes "recorded_at")
  validate_id (bytes "controller_id") controller_id
  validate_authority_mode authority_mode
  validate_id (bytes "event_id") event_id
  validate_code (bytes "violation_type") violation_type
  validate_hash (bytes "decision_hash") decision_hash
  validate_ts recorded_at
  allow_violation violation_type
  ok (record {
    controller_id = controller_id;
    authority_mode = authority_mode;
    event_id = event_id;
    violation_type = violation_type;
    decision_hash = decision_hash;
    recorded_at = recorded_at;
  })

-- `get_authority_mode` takes one field.
unfoldable pub controller_arg : LedgerInput → Result LedgerError Text
controller_arg input = do
  controller_id ← require input.controller_id (bytes "controller_id")
  validate_id (bytes "controller_id") controller_id
  ok controller_id
