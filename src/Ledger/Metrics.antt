-- ===== src/Ledger/Metrics.antt =====
-- plugins/local-control-ledger/src/lib.rs: the operation `get_promotion_metrics` of `dispatch`.
pub mod Bounds
use agentmesh_private.Common.{
  ℕ, ◌+◌, ◌-◌, ◌*◌, ◌/◌, ◌≤◌, Text, bytes, Bool, true, false, not, ◌&&◌, List, ◌++◌, str_eq, str_le,
  ◌==◌, if◌then◌else◌,
}
use agentmesh_private.Ledger.Input.{LedgerInput, Answer, answer, Counts, metrics}
use agentmesh_private.Ledger.Rows.{Tables, Decision, Violation}
use agentmesh_private.Ledger.Sql.{count}
use agentmesh_private.Ledger.Store.{
  Environment, reading, M, pure, lift, ◌>>=◌, ◌>>◌, statement, open_ledger,
}
use agentmesh_private.Ledger.Args.{MetricsArgs, metrics_args}

-- The decisions of the controller's shadow runs for the target mode, in the window.
abbrev pub in_shadow_run : MetricsArgs → Decision → Bool
in_shadow_run a r =
    str_eq r.controller_id a.controller_id
    && str_eq r.authority_mode a.target_mode
    && str_eq r.decision_code (a.target_mode ++ bytes "_shadow_run_once")
    && str_le a.since_ts r.recorded_at
    && str_le r.recorded_at a.until_ts

abbrev pub is_violation : MetricsArgs → Text → Violation → Bool
is_violation a kind r =
    str_eq r.controller_id a.controller_id
    && str_eq r.authority_mode a.target_mode
    && str_eq r.violation_type kind
    && str_le a.since_ts r.recorded_at
    && str_le r.recorded_at a.until_ts

unfoldable pub count_decisions : MetricsArgs → Tables → ℕ × Tables
count_decisions a t = (count (in_shadow_run a) t.decisions, t)

unfoldable pub count_failures : MetricsArgs → Tables → ℕ × Tables
count_failures a t = (count (λ r. in_shadow_run a r && not r.hard_gate_pass) t.decisions, t)

unfoldable pub count_violations : MetricsArgs → Text → Tables → ℕ × Tables
count_violations a kind t = (count (is_violation a kind) t.violation_events, t)

-- The counts are `i64`; a failure is one of the decisions, so the difference is not negative.
unfoldable pub parity_pct : ℕ → ℕ → ℕ
parity_pct decisions failures =
    if decisions == 0 then 0 else ((decisions - failures) * 100) / decisions

unfoldable pub get_promotion_metrics : Environment → LedgerInput → M Answer
get_promotion_metrics env input = do
  a ← lift (metrics_args input)
  open_ledger env
  decisions ← statement env reading (count_decisions a)
  failures ← statement env reading (count_failures a)
  writes ← statement env reading (count_violations a (bytes "unauthorized_write"))
  mutations ← statement env reading (count_violations a (bytes "duplicate_mutation"))
  starts ← statement env reading (count_violations a (bytes "duplicate_start"))
  pure (
      answer
        (metrics a.controller_id a.target_mode (record {
          decision_count = decisions;
          hard_gate_failures = failures;
          hard_gate_parity_pct = parity_pct decisions failures;
          unauthorized_writes = writes;
          duplicate_mutations = mutations;
          duplicate_starts = starts;
        }))
        (bytes "ok") true)
