-- ===== src/Ledger/Records.antt =====
-- plugins/local-control-ledger/src/lib.rs: watermarks, authority modes, decisions, rollbacks,
-- violations and idempotency claims, an operation of `dispatch` each.
pub mod RoundTrip
use agentmesh_private.Common.{
  ℕ, Text, bytes, Bool, true, false, ◌&&◌, Option, none, some, str_eq, ◌==◌, if◌then◌else◌,
}
use agentmesh_private.Ledger.Input.{
  LedgerInput, Answer, answer, initialized, watermark_set, watermark_found, watermark_absent,
  mode_found, mode_absent, mode_set, recorded, idempotency,
}
use agentmesh_private.Ledger.Rows.{
  Tables, Watermark, Authority, Decision, Rollback, Violation, Idempotency,
}
use agentmesh_private.Ledger.Sql.{select, upsert, replace, insert_or_ignore}
use agentmesh_private.Ledger.Store.{
  Environment, opening, reading, writing, M, pure, lift, ◌>>=◌, ◌>>◌, statement, open_ledger,
}
use agentmesh_private.Ledger.Args.{
  WatermarkArgs, WatermarkKeyArgs, ModeArgs, DecisionArgs, RollbackArgs, IdempotencyArgs,
  ViolationArgs, watermark_args, watermark_key_args, mode_args, controller_arg, decision_args,
  rollback_args, idempotency_args, violation_args,
}

abbrev pub ok_answer : Text
ok_answer = bytes "ok"

-- `init_ledger` creates the tables that are missing.
unfoldable pub init : Environment → M Answer
init env = do statement env opening (λ t. (tt, t)); pure (answer initialized ok_answer true)

unfoldable pub put_watermark : WatermarkArgs → Tables → Unit {0} × Tables
put_watermark a t =
    let (rows, changed) =
      upsert (λ r. str_eq r.scope_key a.scope_key && str_eq r.watermark_key a.watermark_key)
        (λ r. true) (λ r. record r { value_hash = a.value_hash; updated_at = a.updated_at })
        (record {
          scope_key = a.scope_key;
          watermark_key = a.watermark_key;
          value_hash = a.value_hash;
          updated_at = a.updated_at;
        })
        t.watermarks in
    (tt, record t { watermarks = rows })

unfoldable pub set_watermark : Environment → LedgerInput → M Answer
set_watermark env input = do
  a ← lift (watermark_args input)
  open_ledger env
  statement env writing (put_watermark a)
  pure (answer (watermark_set a.scope_key a.watermark_key) ok_answer true)

unfoldable pub find_watermark : Text → Text → Tables → Option Watermark × Tables
find_watermark scope key t =
    (select (λ r. str_eq r.scope_key scope && str_eq r.watermark_key key) t.watermarks, t)

abbrev pub watermark_answer : WatermarkKeyArgs → Option Watermark → Answer
watermark_answer a none = answer (watermark_absent a.scope_key a.watermark_key) ok_answer true
watermark_answer a (some r) =
    answer (watermark_found a.scope_key a.watermark_key r.value_hash r.updated_at) ok_answer true

unfoldable pub get_watermark : Environment → LedgerInput → M Answer
get_watermark env input = do
  a ← lift (watermark_key_args input)
  open_ledger env
  row ← statement env reading (find_watermark a.scope_key a.watermark_key)
  pure (watermark_answer a row)

unfoldable pub find_mode : Text → Tables → Option Authority × Tables
find_mode controller t = (select (λ r. str_eq r.controller_id controller) t.authority_modes, t)

-- A controller with no row is in shadow mode.
abbrev pub mode_answer : Text → Option Authority → Answer
mode_answer controller none = answer (mode_absent controller (bytes "shadow")) ok_answer true
mode_answer controller (some r) = answer (mode_found controller r.mode r.updated_at) ok_answer true

unfoldable pub get_authority_mode : Environment → LedgerInput → M Answer
get_authority_mode env input = do
  controller ← lift (controller_arg input)
  open_ledger env
  row ← statement env reading (find_mode controller)
  pure (mode_answer controller row)

unfoldable pub put_mode : ModeArgs → Tables → Unit {0} × Tables
put_mode a t =
    let (rows, changed) =
      upsert (λ r. str_eq r.controller_id a.controller_id) (λ r. true)
        (λ r. record r { mode = a.authority_mode; updated_at = a.updated_at })
        (record {
          controller_id = a.controller_id;
          mode = a.authority_mode;
          updated_at = a.updated_at;
        })
        t.authority_modes in
    (tt, record t { authority_modes = rows })

unfoldable pub set_authority_mode : Environment → LedgerInput → M Answer
set_authority_mode env input = do
  a ← lift (mode_args input)
  open_ledger env
  statement env writing (put_mode a)
  pure (answer (mode_set a.controller_id a.authority_mode) ok_answer true)

unfoldable pub put_decision : DecisionArgs → Tables → Unit {0} × Tables
put_decision a t = (
  tt,
  record t {
    decisions =
        replace (λ r. str_eq r.decision_id a.decision_id)
          (record {
            decision_id = a.decision_id;
            controller_id = a.controller_id;
            authority_mode = a.authority_mode;
            decision_code = a.decision_code;
            result_code = a.result_code;
            input_hash = a.input_hash;
            output_hash = a.output_hash;
            hard_gate_pass = a.hard_gate_pass;
            recorded_at = a.recorded_at;
          })
          t.decisions;
  },
)

unfoldable pub record_decision : Environment → LedgerInput → M Answer
record_decision env input = do
  a ← lift (decision_args input)
  open_ledger env
  statement env writing (put_decision a)
  pure (answer (recorded a.decision_id) ok_answer true)

unfoldable pub put_rollback : RollbackArgs → Tables → Unit {0} × Tables
put_rollback a t = (
  tt,
  record t {
    rollback_events =
        replace (λ r. str_eq r.event_id a.event_id)
          (record {
            event_id = a.event_id;
            controller_id = a.controller_id;
            reason_code = a.reason_code;
            correlation_id = a.correlation_id;
            recorded_at = a.recorded_at;
          })
          t.rollback_events;
  },
)

unfoldable pub record_rollback : Environment → LedgerInput → M Answer
record_rollback env input = do
  a ← lift (rollback_args input)
  open_ledger env
  statement env writing (put_rollback a)
  pure (answer (recorded a.event_id) ok_answer true)

unfoldable pub put_violation : ViolationArgs → Tables → Unit {0} × Tables
put_violation a t = (
  tt,
  record t {
    violation_events =
        replace (λ r. str_eq r.event_id a.event_id)
          (record {
            event_id = a.event_id;
            controller_id = a.controller_id;
            authority_mode = a.authority_mode;
            violation_type = a.violation_type;
            decision_hash = a.decision_hash;
            recorded_at = a.recorded_at;
          })
          t.violation_events;
  },
)

unfoldable pub record_violation : Environment → LedgerInput → M Answer
record_violation env input = do
  a ← lift (violation_args input)
  open_ledger env
  statement env writing (put_violation a)
  pure (answer (recorded a.event_id) ok_answer true)

abbrev pub same_claim : Text → Text → Idempotency → Bool
same_claim controller hash r = str_eq r.controller_id controller && str_eq r.decision_hash hash

unfoldable pub put_idempotency : IdempotencyArgs → Tables → ℕ × Tables
put_idempotency a t =
    let (rows, inserted) =
      insert_or_ignore (same_claim a.controller_id a.decision_hash)
        (record {
          controller_id = a.controller_id;
          decision_hash = a.decision_hash;
          recorded_at = a.recorded_at;
        })
        t.idempotency_claims in
    (inserted, record t { idempotency_claims = rows })

abbrev pub idempotency_answer : Text → ℕ → Answer
idempotency_answer hash inserted =
    answer (idempotency hash (inserted == 1) (inserted == 0))
      (if inserted == 1 then ok_answer else bytes "duplicate_suppressed") (inserted == 1)

unfoldable pub claim_idempotency : Environment → LedgerInput → M Answer
claim_idempotency env input = do
  a ← lift (idempotency_args input)
  open_ledger env
  inserted ← statement env writing (put_idempotency a)
  pure (idempotency_answer a.decision_hash inserted)
