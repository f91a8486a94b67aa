-- ===== src/Ledger/Stable.antt =====
-- plugins/local-control-ledger/src/lib.rs: predicates of the tables over the writing statements and the
-- operations made of them.
use agentmesh_private.Common.{Text, Option, none, some, List, [], ◌∷◌, Bool-cases, inl, inr, ◌==◌}
use agentmesh_private.Common.Results.{Result}
use agentmesh_private.Ledger.Input.{LedgerInput, Issue}
use agentmesh_private.Ledger.Rows.{Tables}
use agentmesh_private.Ledger.Store.{
  Environment, Step, opening, beginning, reclaiming, writing, reading, committing, M, pure, lift,
  ◌>>=◌, statement, transaction, Keeps, Keeps-pure, Keeps-fail, Keeps-lift, Keeps-bind,
  Keeps-statement, Keeps-transaction,
}
use agentmesh_private.Ledger.Leases.{
  reclaim_expired_leases, insert_lease, acquire_with, acquire_lease, mark_released, release_with,
  release_lease,
}
use agentmesh_private.Ledger.Claims.{
  reclaim_expired_claims, insert_claim, claim_with, claim_scope, mark_claim_released,
  release_claim_with, release_claim,
}
use agentmesh_private.Ledger.Records.{
  init, put_watermark, set_watermark, find_watermark, get_watermark, find_mode, get_authority_mode,
  put_mode, set_authority_mode, put_decision, record_decision, put_rollback, record_rollback,
  put_violation, record_violation, put_idempotency, claim_idempotency,
}
use agentmesh_private.Ledger.Args.{
  LeaseArgs, LeaseReleaseArgs, ScopeArgs, ScopeReleaseArgs, WatermarkArgs, ModeArgs, DecisionArgs,
  RollbackArgs, IdempotencyArgs, ViolationArgs, lease_args, lease_release_args, scope_args,
  scope_release_args, watermark_args, watermark_key_args, mode_args, controller_arg, decision_args,
  rollback_args, metrics_args, idempotency_args, violation_args,
}
use agentmesh_private.Ledger.Metrics.{
  count_decisions, count_failures, count_violations, get_promotion_metrics,
}
use agentmesh_private.Ledger.Dispatch.{
  Operation, init_op, acquire_lease_op, release_lease_op, claim_scope_op, release_claim_op,
  set_watermark_op, get_watermark_op, get_authority_mode_op, set_authority_mode_op,
  record_decision_op, record_rollback_op, get_promotion_metrics_op, claim_idempotency_op,
  record_violation_op, run_operation, dispatch_found, dispatch, run_checked, input_issues,
  run_local_control_ledger, find_operation, operations,
}

-- A predicate that each of the statements that write keeps.
pub record Stable (P : Tables → Type 0) : Type 0 where
  pub leases_reclaimed : (a : Text) (t : Tables) → P t → P (reclaim_expired_leases a t).1
  pub lease_inserted : (a : LeaseArgs) (t : Tables) → P t → P (insert_lease a t).1
  pub lease_marked : (a : LeaseReleaseArgs) (t : Tables) → P t → P (mark_released a t).1
  pub claims_reclaimed : (a : Text) (t : Tables) → P t → P (reclaim_expired_claims a t).1
  pub claim_inserted : (a : ScopeArgs) (t : Tables) → P t → P (insert_claim a t).1
  pub claim_marked : (a : ScopeReleaseArgs) (t : Tables) → P t → P (mark_claim_released a t).1
  pub watermark_put : (a : WatermarkArgs) (t : Tables) → P t → P (put_watermark a t).1
  pub mode_put : (a : ModeArgs) (t : Tables) → P t → P (put_mode a t).1
  pub decision_put : (a : DecisionArgs) (t : Tables) → P t → P (put_decision a t).1
  pub rollback_put : (a : RollbackArgs) (t : Tables) → P t → P (put_rollback a t).1
  pub violation_put : (a : ViolationArgs) (t : Tables) → P t → P (put_violation a t).1
  pub idempotency_put : (a : IdempotencyArgs) (t : Tables) → P t → P (put_idempotency a t).1

module _ {P : Tables → Type 0} (s : Stable P) (env : Environment) where
  Keeps-step : (step : Step) → Keeps P (statement env step (λ t. (tt, t)))
  Keeps-step step = Keeps-statement env step _ (λ t h. h)

  -- Arguments, `open_ledger`, and the rest of the operation.
  opened :
      {A B : Type 0} (r : Result _ A) (f : A → M B)
      → ((a : A) → Keeps P (f a))
      → Keeps P (lift r >>= λ a. (statement env opening (λ t. (tt, t)) >>= λ _. f a))
  opened r f k =
      Keeps-bind (lift r) _ (Keeps-lift r) (λ a. Keeps-bind _ _ (Keeps-step opening) (λ _. k a))

  -- One statement, and an answer made of its result.
  answered :
      {A B : Type 0} (step : Step) (f : Tables → A × Tables) (g : A → B)
      → ((t : Tables) → P t → P (f t).1)
      → Keeps P (statement env step f >>= λ a. pure (g a))
  answered step f g k = Keeps-bind _ _ (Keeps-statement env step f k) (λ a. Keeps-pure (g a))

  -- Two statements in a transaction.
  transacted :
      {A B C : Type 0} (f : Tables → A × Tables) (g : Tables → B × Tables) (h : A → B → C)
      → ((t : Tables) → P t → P (f t).1)
      → ((t : Tables) → P t → P (g t).1)
      → Keeps P (
          transaction (
            statement env beginning (λ t. (tt, t)) >>= λ _.
            (statement env reclaiming f >>= λ a.
            (statement env writing g >>= λ b.
            (statement env committing (λ t. (tt, t)) >>= λ _. pure (h a b))))))
  transacted f g h kf kg = Keeps-transaction _ (
      Keeps-bind _ _ (Keeps-step beginning) (λ _.
        Keeps-bind _ _ (Keeps-statement env reclaiming f kf) (λ a.
          Keeps-bind _ _ (Keeps-statement env writing g kg)
            (λ b. Keeps-bind _ _ (Keeps-step committing) (λ _. Keeps-pure (h a b))))))

  release_with-Keeps : (a : LeaseReleaseArgs) → Keeps P (release_with env a)
  unfolding release_with
  release_with-Keeps a =
      Keeps-bind _ _ (Keeps-statement env writing (mark_released a) (s.lease_marked a)) (λ n.
        elim (Bool-cases (n == 0)) [ inl h ↦ rw h (Keeps-fail _) | inr h ↦ rw h (Keeps-pure _) ])

  release_claim_with-Keeps : (a : ScopeReleaseArgs) → Keeps P (release_claim_with env a)
  unfolding release_claim_with
  release_claim_with-Keeps a =
      Keeps-bind _ _ (Keeps-statement env writing (mark_claim_released a) (s.claim_marked a)) (λ n.
        elim (Bool-cases (n == 0)) [ inl h ↦ rw h (Keeps-fail _) | inr h ↦ rw h (Keeps-pure _) ])

  metrics-Keeps : (input : LedgerInput) → Keeps P (get_promotion_metrics env input)
  unfolding get_promotion_metrics count_decisions count_failures count_violations
  metrics-Keeps input = opened (metrics_args input) _ (λ a.
      Keeps-bind _ _ (Keeps-statement env reading _ (λ t h. h)) (λ _.
        Keeps-bind _ _ (Keeps-statement env reading _ (λ t h. h)) (λ _.
          Keeps-bind _ _ (Keeps-statement env reading _ (λ t h. h)) (λ _.
            Keeps-bind _ _ (Keeps-statement env reading _ (λ t h. h))
              (λ _. answered reading _ _ (λ t h. h))))))

  pub run_operation-Keeps :
      (o : Operation) (input : LedgerInput) → Keeps P (run_operation o env input)
  unfolding run_operation init acquire_lease acquire_with release_lease claim_scope claim_with
      release_claim set_watermark get_watermark find_watermark get_authority_mode find_mode
      set_authority_mode record_decision record_rollback record_violation claim_idempotency
  run_operation-Keeps init_op input = answered opening _ _ (λ t h. h)
  run_operation-Keeps acquire_lease_op input =
      opened (lease_args input) _
        (λ a. transacted _ _ _ (s.leases_reclaimed a.acquired_at) (s.lease_inserted a))
  run_operation-Keeps release_lease_op input =
      opened (lease_release_args input) _ release_with-Keeps
  run_operation-Keeps claim_scope_op input =
      opened (scope_args input) _
        (λ a. transacted _ _ _ (s.claims_reclaimed a.acquired_at) (s.claim_inserted a))
  run_operation-Keeps release_claim_op input =
      opened (scope_release_args input) _ release_claim_with-Keeps
  run_operation-Keeps set_watermark_op input =
      opened (watermark_args input) _ (λ a. answered writing _ _ (s.watermark_put a))
  run_operation-Keeps get_watermark_op input =
      opened (watermark_key_args input) _ (λ a. answered reading _ _ (λ t h. h))
  run_operation-Keeps get_authority_mode_op input =
      opened (controller_arg input) _ (λ a. answered reading _ _ (λ t h. h))
  run_operation-Keeps set_authority_mode_op input =
      opened (mode_args input) _ (λ a. answered writing _ _ (s.mode_put a))
  run_operation-Keeps record_decision_op input =
      opened (decision_args input) _ (λ a. answered writing _ _ (s.decision_put a))
  run_operation-Keeps record_rollback_op input =
      opened (rollback_args input) _ (λ a. answered writing _ _ (s.rollback_put a))
  run_operation-Keeps get_promotion_metrics_op input = metrics-Keeps input
  run_operation-Keeps claim_idempotency_op input =
      opened (idempotency_args input) _ (λ a. answered writing _ _ (s.idempotency_put a))
  run_operation-Keeps record_violation_op input =
      opened (violation_args input) _ (λ a. answered writing _ _ (s.violation_put a))

  dispatch_found-Keeps :
      (o : Option Operation) (input : LedgerInput) → Keeps P (dispatch_found o env input)
  unfolding dispatch_found
  dispatch_found-Keeps none input = Keeps-fail _
  dispatch_found-Keeps (some o) input = run_operation-Keeps o input

  run_checked-keeps :
      (is : List Issue) (input : LedgerInput) (t : Tables) → P t → P (run_checked is env input t).1
  unfolding run_checked dispatch
  run_checked-keeps [] input t h =
      (dispatch_found-Keeps (find_operation input.operation operations) input).at t h
  run_checked-keeps (i ∷ is) input t h = h

  -- So does every run of the ledger.
  pub run-keeps :
      (input : Option LedgerInput) (t : Tables) → P t → P (run_local_control_ledger env input t).1
  unfolding run_local_control_ledger
  run-keeps none t h = h
  run-keeps (some input) t h = run_checked-keeps (input_issues input) input t h
