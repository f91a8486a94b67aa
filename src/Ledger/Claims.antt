-- ===== src/Ledger/Claims.antt =====
-- plugins/local-control-ledger/src/lib.rs: scope claims, the operations `claim_scope` and
-- `release_claim` of `dispatch`.
use agentmesh_private.Common.{
  ℕ, Text, bytes, true, false, ◌&&◌, ◌||◌, none, some, is_none, is_some, str_eq, str_le, ltb, ◌==◌,
  if◌then◌else◌,
}
use agentmesh_private.Ledger.Input.{
  validation, claim_not_found, LedgerInput, Answer, answer, scope, scope_released,
}
use agentmesh_private.Ledger.Rows.{Tables}
use agentmesh_private.Ledger.Sql.{update, upsert}
use agentmesh_private.Ledger.Store.{
  Environment, beginning, reclaiming, writing, committing, M, pure, fail, lift, ◌>>=◌, ◌>>◌,
  statement, transaction, open_ledger,
}
use agentmesh_private.Ledger.Args.{ScopeArgs, ScopeReleaseArgs, scope_args, scope_release_args}

-- UPDATE scope_claims SET released_at = now WHERE released_at IS NULL AND expires_at <= now
unfoldable pub reclaim_expired_claims : Text → Tables → ℕ × Tables
reclaim_expired_claims now t =
    let (rows, changed) =
      update (λ r. is_none r.released_at && str_le r.expires_at now)
        (λ r. record r { released_at = some now }) t.scope_claims in
    (changed, record t { scope_claims = rows })

-- The upsert of `claim_scope`.
unfoldable pub insert_claim : ScopeArgs → Tables → ℕ × Tables
insert_claim a t =
    let (rows, changed) =
      upsert (λ r. str_eq r.scope_key a.scope_key)
        (λ r. is_some r.released_at || str_le r.expires_at a.acquired_at)
        (λ r. record r {
          claim_id = a.claim_id;
          holder = a.holder;
          acquired_at = a.acquired_at;
          expires_at = a.expires_at;
          released_at = none;
        })
        (record {
          scope_key = a.scope_key;
          claim_id = a.claim_id;
          holder = a.holder;
          acquired_at = a.acquired_at;
          expires_at = a.expires_at;
          released_at = none;
        })
        t.scope_claims in
    (changed, record t { scope_claims = rows })

abbrev pub claimed : ScopeArgs → ℕ → ℕ → Answer
claimed a reclaimed changed =
    if changed == 0
    then answer (scope a.scope_key false (ltb 0 reclaimed)) (bytes "scope_claim_conflict") false
    else answer (scope a.scope_key true (ltb 0 reclaimed)) (bytes "ok") true

unfoldable pub claim_with : Environment → ScopeArgs → M Answer
claim_with env a = transaction do
  statement env beginning (λ t. (tt, t))
  reclaimed ← statement env reclaiming (reclaim_expired_claims a.acquired_at)
  changed ← statement env writing (insert_claim a)
  statement env committing (λ t. (tt, t))
  pure (claimed a reclaimed changed)

unfoldable pub claim_scope : Environment → LedgerInput → M Answer
claim_scope env input = do a ← lift (scope_args input); open_ledger env; claim_with env a

-- UPDATE scope_claims SET released_at = … WHERE scope_key = … AND released_at IS NULL
unfoldable pub mark_claim_released : ScopeReleaseArgs → Tables → ℕ × Tables
mark_claim_released a t =
    let (rows, changed) =
      update (λ r. str_eq r.scope_key a.scope_key && is_none r.released_at)
        (λ r. record r { released_at = some a.updated_at }) t.scope_claims in
    (changed, record t { scope_claims = rows })

unfoldable pub release_claim_with : Environment → ScopeReleaseArgs → M Answer
release_claim_with env a = do
  changed ← statement env writing (mark_claim_released a)
  if changed == 0
      then fail (validation claim_not_found)
      else pure (answer (scope_released a.scope_key) (bytes "ok") true)

unfoldable pub release_claim : Environment → LedgerInput → M Answer
release_claim env input = do
  a ← lift (scope_release_args input)
  open_ledger env
  release_claim_with env a
