-- ===== src/Ledger/Rows.antt =====
-- plugins/local-control-ledger/src/lib.rs: the tables of a ledger at schema version 2, as the
-- `CREATE TABLE` statements of `init_ledger` declare them.
use agentmesh_private.Common.{Text, Bool, Option, List, []}

pub record Lease : Type 0 where
  pub lease_id : Text
  pub holder : Text
  pub acquired_at : Text
  pub expires_at : Text
  pub released_at : Option Text

pub record Claim : Type 0 where
  pub scope_key : Text
  pub claim_id : Text
  pub holder : Text
  pub acquired_at : Text
  pub expires_at : Text
  pub released_at : Option Text

pub record Watermark : Type 0 where
  pub scope_key : Text
  pub watermark_key : Text
  pub value_hash : Text
  pub updated_at : Text

pub record Authority : Type 0 where
  pub controller_id : Text
  pub mode : Text
  pub updated_at : Text

pub record Decision : Type 0 where
  pub decision_id : Text
  pub controller_id : Text
  pub authority_mode : Text
  pub decision_code : Text
  pub result_code : Text
  pub input_hash : Text
  pub output_hash : Text
  pub hard_gate_pass : Bool
  pub recorded_at : Text

pub record Rollback : Type 0 where
  pub event_id : Text
  pub controller_id : Text
  pub reason_code : Text
  pub correlation_id : Text
  pub recorded_at : Text

pub record Violation : Type 0 where
  pub event_id : Text
  pub controller_id : Text
  pub authority_mode : Text
  pub violation_type : Text
  pub decision_hash : Text
  pub recorded_at : Text

pub record Idempotency : Type 0 where
  pub controller_id : Text
  pub decision_hash : Text
  pub recorded_at : Text

pub record Tables : Type 0 where
  pub schedule_leases : List Lease
  pub scope_claims : List Claim
  pub watermarks : List Watermark
  pub authority_modes : List Authority
  pub decisions : List Decision
  pub rollback_events : List Rollback
  pub violation_events : List Violation
  pub idempotency_claims : List Idempotency

abbrev pub no_rows : Tables
no_rows = record {
  schedule_leases = [];
  scope_claims = [];
  watermarks = [];
  authority_modes = [];
  decisions = [];
  rollback_events = [];
  violation_events = [];
  idempotency_claims = [];
}
