-- ===== src/Ledger/Input.antt =====
-- plugins/local-control-ledger/src/lib.rs: the input of an operation, its errors and its output.
use agentmesh_private.Common.{ℕ, Text, Bool, Option, List, length}

-- The message of a validation error, by what it states.
pub data Complaint : Type 0 where
  missing : Text → Complaint
  bad_length : Text → ℕ → Complaint
  bad_mode bad_order lease_not_found claim_not_found bad_violation unknown : Complaint

-- `LedgerError`; the texts are those of SQLite and of the operating system.
pub data LedgerError : Type 0 where
  sqlite io : Text → LedgerError
  validation : Complaint → LedgerError

pub record LedgerInput : Type 0 where
  pub schema_version : Text
  pub operation : Text
  pub ledger_path : Text
  pub controller_id : Option Text
  pub lease_id : Option Text
  pub holder : Option Text
  pub acquired_at : Option Text
  pub expires_at : Option Text
  pub scope_key : Option Text
  pub claim_id : Option Text
  pub watermark_key : Option Text
  pub value_hash : Option Text
  pub updated_at : Option Text
  pub authority_mode : Option Text
  pub decision_id : Option Text
  pub decision_code : Option Text
  pub result_code : Option Text
  pub input_hash : Option Text
  pub output_hash : Option Text
  pub recorded_at : Option Text
  pub event_id : Option Text
  pub reason_code : Option Text
  pub correlation_id : Option Text
  pub since_ts : Option Text
  pub until_ts : Option Text
  pub violation_type : Option Text
  pub decision_hash : Option Text
  pub hard_gate_pass : Option Bool
  pub target_mode : Option Text

-- The counts of `get_promotion_metrics`.
pub record Counts : Type 0 where
  pub decision_count : ℕ
  pub hard_gate_failures : ℕ
  pub hard_gate_parity_pct : ℕ
  pub unauthorized_writes : ℕ
  pub duplicate_mutations : ℕ
  pub duplicate_starts : ℕ

-- The `data` object of an answer, a constructor for each of its shapes.
pub data Body : Type 0 where
  initialized : Body
  lease : (lease_id : Text) (acquired reclaimed_expired : Bool) → Body
  lease_released : Text → Body
  scope : (scope_key : Text) (claimed reclaimed_expired : Bool) → Body
  scope_released : Text → Body
  watermark_set : (scope_key watermark_key : Text) → Body
  watermark_found : (scope_key watermark_key value_hash updated_at : Text) → Body
  watermark_absent : (scope_key watermark_key : Text) → Body
  mode_found : (controller_id authority_mode updated_at : Text) → Body
  mode_absent : (controller_id authority_mode : Text) → Body
  mode_set : (controller_id authority_mode : Text) → Body
  recorded : Text → Body
  metrics : (controller_id target_mode : Text) → Counts → Body
  idempotency : (decision_hash : Text) (claimed duplicate : Bool) → Body

-- What `dispatch` returns: the data, the exit reason and whether the operation is valid.
pub record Answer : Type 0 where
  pub body : Body
  pub exit_reason : Text
  pub valid : Bool

abbrev pub answer : Body → Text → Bool → Answer
answer b r v = record { body = b; exit_reason = r; valid = v }

pub data Message : Type 0 where
  not_an_input wrong_schema unsupported_operation path_required : Message
  complaint : Complaint → Message
  reported : Text → Message

pub record Issue : Type 0 where
  pub code : Text
  pub message : Message

-- The fields of the compact output that vary; `issue_count` is the length of `issues`.
pub record Output : Type 0 where
  pub operation : Text
  pub valid : Bool
  pub exit_reason : Text
  pub issue_count : ℕ
  pub issues : List Issue
  pub body : Option Body

unfoldable pub compact : Text → Bool → Text → List Issue → Option Body → Output
compact operation valid exit_reason issues body = record {
  operation = operation;
  valid = valid;
  exit_reason = exit_reason;
  issue_count = length issues;
  issues = issues;
  body = body;
}
