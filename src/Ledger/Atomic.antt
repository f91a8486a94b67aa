-- ===== src/Ledger/Atomic.antt =====
-- plugins/local-control-ledger/src/lib.rs: the error paths of the operations of `dispatch`.
use agentmesh_private.Common.{
  ℕ, zero, suc, Option, none, some, ◌≡◌, refl, ap, arith, ◌==◌, if◌then◌else◌,
}
use agentmesh_private.Common.Results.{Result, ok, err}
use agentmesh_private.Ledger.Input.{LedgerError, LedgerInput}
use agentmesh_private.Ledger.Rows.{Tables}
use agentmesh_private.Ledger.Sql.Keys.{update-none}
use agentmesh_private.Ledger.Store.{
  Environment, Step, opening, writing, reading, M, pure, fail, lift, ◌>>=◌, statement, transaction,
  then_run, attempt, settle, Fault,
}
use agentmesh_private.Ledger.Leases.{
  acquire_with, acquire_lease, mark_released, release_with, release_lease,
}
use agentmesh_private.Ledger.Claims.{
  claim_with, claim_scope, mark_claim_released, release_claim_with, release_claim,
}
use agentmesh_private.Ledger.Records.{
  init, set_watermark, get_watermark, get_authority_mode, set_authority_mode, record_decision,
  record_rollback, record_violation, claim_idempotency,
}
use agentmesh_private.Ledger.Args.{
  LeaseReleaseArgs, ScopeReleaseArgs, lease_args, lease_release_args, scope_args,
  scope_release_args, watermark_args, watermark_key_args, mode_args, controller_arg, decision_args,
  rollback_args, metrics_args, idempotency_args, violation_args,
}
use agentmesh_private.Ledger.Metrics.{
  count_decisions, count_failures, count_violations, get_promotion_metrics,
}
use agentmesh_private.Ledger.Dispatch.{
  Operation, init_op, acquire_lease_op, release_lease_op, claim_scope_op, release_claim_op,
  set_watermark_op, get_watermark_op, get_authority_mode_op, set_authority_mode_op,
  record_decision_op, record_rollback_op, get_promotion_metrics_op, claim_idempotency_op,
  record_violation_op, run_operation, dispatch_found, dispatch, find_operation, operations,
}

-- An action that changes nothing when it fails.
record IsAtomic {A : Type 0} (m : M A) : Type 0 where
  unchanged : (t : Tables) (e : LedgerError) → (m t).0 ≡ err e → (m t).1 ≡ t

-- An action that never changes anything.
record IsReading {A : Type 0} (m : M A) : Type 0 where
  reads : (t : Tables) → (m t).1 ≡ t

IsAtomic-pure : {A : Type 0} (a : A) → IsAtomic (pure a)
IsAtomic-pure a = record { unchanged = λ t e h. refl }

IsReading-lift : {A : Type 0} (r : Result LedgerError A) → IsReading (lift r)
IsReading-lift r = record { reads = λ t. refl }

-- After a step that only reads, an action that changes nothing when it fails.
read_then :
    {A B : Type 0} (m : M A) (f : A → M B)
    → IsReading m
    → ((a : A) → IsAtomic (f a))
    → IsAtomic (m >>= f)
unfolding ◌>>=◌
read_then {A} {B} m f km kf = record { unchanged = λ t e h. go t e (m t) (km.reads t) h }
  where
    go :
        (t : Tables) (e : LedgerError) (r : Result LedgerError A × Tables)
        → r.1 ≡ t
        → (then_run r f).0 ≡ err e
        → (then_run r f).1 ≡ t
    go t e (ok a, u) same h = rw same ((kf a).unchanged t e (rw same at h))
    go t e (err x, u) same h = same

IsReading-statement :
    {A : Type 0} (env : Environment) (step : Step) (f : Tables → A × Tables)
    → ((t : Tables) → (f t).1 ≡ t)
    → IsReading (statement env step f)
unfolding statement
IsReading-statement env step f k = record { reads = λ t. go (env step) t }
  where
    go : (o : Option Fault) (t : Tables) → (attempt o f t).1 ≡ t
    go none t = k t
    go (some x) t = refl

-- A statement at the end: what follows it does not fail.
write_last :
    {A B : Type 0} (env : Environment) (step : Step) (f : Tables → A × Tables) (g : A → B)
    → IsAtomic (statement env step f >>= λ a. pure (g a))
unfolding ◌>>=◌ statement
write_last {A} {B} env step f g = record { unchanged = λ t e h. go (env step) t e h }
  where
    go :
        (o : Option Fault) (t : Tables) (e : LedgerError)
        → (then_run (attempt o f t) (λ a. pure (g a))).0 ≡ err e
        → (then_run (attempt o f t) (λ a. pure (g a))).1 ≡ t
    go none t e h = cc
    go (some x) t e h = refl

-- Fail if no row was changed.
abbrev pub unless_none : {B : Type 0} → LedgerError → B → ℕ → M B
unless_none x b n = if n == 0 then fail x else pure b

-- A statement that changed no row may be followed by a failure, if it then changed nothing.
write_checked :
    {B : Type 0} (env : Environment) (step : Step) (f : Tables → ℕ × Tables) (x : LedgerError)
    (b : B)
    → ((t : Tables) → (f t).0 ≡ 0 → (f t).1 ≡ t)
    → IsAtomic (statement env step f >>= unless_none x b)
unfolding ◌>>=◌ statement
write_checked {B} env step f x b k = record { unchanged = λ t e h. go (env step) t e h }
  where
    checked :
        (n : ℕ) (t u : Tables) (e : LedgerError)
        → (n ≡ 0 → u ≡ t)
        → (unless_none x b n u).0 ≡ err e
        → (unless_none x b n u).1 ≡ t
    checked zero t u e same h = same refl
    checked (suc n) t u e same h = ground (arith, h)

    go :
        (o : Option Fault) (t : Tables) (e : LedgerError)
        → (then_run (attempt o f t) (unless_none x b)).0 ≡ err e
        → (then_run (attempt o f t) (unless_none x b)).1 ≡ t
    go none t e h = checked (f t).0 t (f t).1 e (k t) h
    go (some y) t e h = refl

IsAtomic-transaction : {A : Type 0} (m : M A) → IsAtomic (transaction m)
unfolding transaction
IsAtomic-transaction {A} m = record { unchanged = λ t e h. go t e (m t) h }
  where
    go :
        (t : Tables) (e : LedgerError) (r : Result LedgerError A × Tables)
        → (settle t r).0 ≡ err e
        → (settle t r).1 ≡ t
    go t e (ok a, u) h = cc
    go t e (err x, u) h = refl

mark_released-none :
    (a : LeaseReleaseArgs) (t : Tables) → (mark_released a t).0 ≡ 0 → (mark_released a t).1 ≡ t
unfolding mark_released
mark_released-none a t h =
    ap (λ rows. record t { schedule_leases = rows }) (update-none _ _ t.schedule_leases h)

mark_claim_released-none :
    (a : ScopeReleaseArgs) (t : Tables)
    → (mark_claim_released a t).0 ≡ 0
    → (mark_claim_released a t).1 ≡ t
unfolding mark_claim_released
mark_claim_released-none a t h =
    ap (λ rows. record t { scope_claims = rows }) (update-none _ _ t.scope_claims h)

module _ (env : Environment) where
  opened :
      {A B : Type 0} (r : Result LedgerError A) (f : A → M B)
      → ((a : A) → IsAtomic (f a))
      → IsAtomic (lift r >>= λ a. (statement env opening (λ t. (tt, t)) >>= λ _. f a))
  opened r f k =
      read_then (lift r) _ (IsReading-lift r)
        (λ a. read_then _ _ (IsReading-statement env opening _ (λ t. refl)) (λ _. k a))

  read_first :
      {A B : Type 0} (f : Tables → A) (g : A → M B)
      → ((a : A) → IsAtomic (g a))
      → IsAtomic (statement env reading (λ t. (f t, t)) >>= g)
  read_first f g k = read_then _ g (IsReading-statement env reading _ (λ t. refl)) k

  get_promotion_metrics-IsAtomic :
      (input : LedgerInput) → IsAtomic (get_promotion_metrics env input)
  unfolding get_promotion_metrics count_decisions count_failures count_violations
  get_promotion_metrics-IsAtomic input = opened (metrics_args input) _ (λ a. read_first _ _ (λ _.
      read_first _ _ (λ _. read_first _ _ (λ _. read_first _ _ (λ _. write_last env reading _ _)))))

  run_operation-IsAtomic :
      (o : Operation) (input : LedgerInput) → IsAtomic (run_operation o env input)
  unfolding run_operation init acquire_lease acquire_with release_lease release_with claim_scope
      claim_with release_claim release_claim_with set_watermark get_watermark get_authority_mode
      set_authority_mode record_decision record_rollback record_violation claim_idempotency
  run_operation-IsAtomic init_op input = write_last env opening _ _
  run_operation-IsAtomic acquire_lease_op input =
      opened (lease_args input) _ (λ a. IsAtomic-transaction _)
  run_operation-IsAtomic release_lease_op input =
      opened (lease_release_args input) _
        (λ a. write_checked env writing (mark_released a) _ _ (mark_released-none a))
  run_operation-IsAtomic claim_scope_op input =
      opened (scope_args input) _ (λ a. IsAtomic-transaction _)
  run_operation-IsAtomic release_claim_op input =
      opened (scope_release_args input) _
        (λ a. write_checked env writing (mark_claim_released a) _ _ (mark_claim_released-none a))
  run_operation-IsAtomic set_watermark_op input =
      opened (watermark_args input) _ (λ a. write_last env writing _ _)
  run_operation-IsAtomic get_watermark_op input =
      opened (watermark_key_args input) _ (λ a. write_last env reading _ _)
  run_operation-IsAtomic get_authority_mode_op input =
      opened (controller_arg input) _ (λ a. write_last env reading _ _)
  run_operation-IsAtomic set_authority_mode_op input =
      opened (mode_args input) _ (λ a. write_last env writing _ _)
  run_operation-IsAtomic record_decision_op input =
      opened (decision_args input) _ (λ a. write_last env writing _ _)
  run_operation-IsAtomic record_rollback_op input =
      opened (rollback_args input) _ (λ a. write_last env writing _ _)
  run_operation-IsAtomic get_promotion_metrics_op input = get_promotion_metrics-IsAtomic input
  run_operation-IsAtomic claim_idempotency_op input =
      opened (idempotency_args input) _ (λ a. write_last env writing _ _)
  run_operation-IsAtomic record_violation_op input =
      opened (violation_args input) _ (λ a. write_last env writing _ _)

  dispatch_found-IsAtomic :
      (o : Option Operation) (input : LedgerInput) → IsAtomic (dispatch_found o env input)
  unfolding dispatch_found
  dispatch_found-IsAtomic none input = record { unchanged = λ t e h. refl }
  dispatch_found-IsAtomic (some o) input = run_operation-IsAtomic o input

-- An operation that returns an error, be it a field that is refused, a lease or claim that is not
-- there, or a fault of SQLite at any step up to the commit, leaves every table as it found it.
pub dispatch-error_keeps :
    (env : Environment) (input : LedgerInput) (t : Tables) (e : LedgerError)
    → (dispatch env input t).0 ≡ err e
    → (dispatch env input t).1 ≡ t
unfolding dispatch
dispatch-error_keeps env input t e h =
    (dispatch_found-IsAtomic env (find_operation input.operation operations) input).unchanged t e h
