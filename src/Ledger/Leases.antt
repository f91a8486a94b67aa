-- ===== src/Ledger/Leases.antt =====
-- plugins/local-control-ledger/src/lib.rs: schedule leases, the operations `acquire_lease` and
-- `release_lease` of `dispatch`.
pub mod Exclusion
pub mod Release
use agentmesh_private.Common.{
  ℕ, Text, bytes, Bool, true, false, not, ◌&&◌, ◌||◌, Option, none, some, is_none, is_some, str_eq,
  str_le, ltb, ◌==◌, if◌then◌else◌,
}
use agentmesh_private.Ledger.Input.{
  validation, lease_not_found, LedgerInput, Answer, answer, lease, lease_released,
}
use agentmesh_private.Ledger.Rows.{Tables, Lease}
use agentmesh_private.Ledger.Sql.{update, upsert}
use agentmesh_private.Ledger.Store.{
  Environment, beginning, reclaiming, writing, committing, M, pure, fail, lift, ◌>>=◌, ◌>>◌,
  statement, transaction, open_ledger,
}
use agentmesh_private.Ledger.Args.{LeaseArgs, LeaseReleaseArgs, lease_args, lease_release_args}

-- UPDATE schedule_leases SET released_at = now WHERE released_at IS NULL AND expires_at <= now
unfoldable pub reclaim_expired_leases : Text → Tables → ℕ × Tables
reclaim_expired_leases now t =
    let (rows, changed) =
      update (λ r. is_none r.released_at && str_le r.expires_at now)
        (λ r. record r { released_at = some now }) t.schedule_leases in
    (changed, record t { schedule_leases = rows })

-- The upsert of `acquire_lease`.
unfoldable pub insert_lease : LeaseArgs → Tables → ℕ × Tables
insert_lease a t =
    let (rows, changed) =
      upsert (λ r. str_eq r.lease_id a.lease_id)
        (λ r. is_some r.released_at || str_le r.expires_at a.acquired_at)
        (λ r. record r {
          holder = a.holder;
          acquired_at = a.acquired_at;
          expires_at = a.expires_at;
          released_at = none;
        })
        (record {
          lease_id = a.lease_id;
          holder = a.holder;
          acquired_at = a.acquired_at;
          expires_at = a.expires_at;
          released_at = none;
        })
        t.schedule_leases in
    (changed, record t { schedule_leases = rows })

-- The answer, by the number of rows that the upsert changed.
abbrev pub acquired : LeaseArgs → ℕ → ℕ → Answer
acquired a reclaimed changed =
    if changed == 0
    then answer (lease a.lease_id false (ltb 0 reclaimed)) (bytes "lease_already_held") false
    else answer (lease a.lease_id true (ltb 0 reclaimed)) (bytes "ok") true

unfoldable pub acquire_with : Environment → LeaseArgs → M Answer
acquire_with env a = transaction do
  statement env beginning (λ t. (tt, t))
  reclaimed ← statement env reclaiming (reclaim_expired_leases a.acquired_at)
  changed ← statement env writing (insert_lease a)
  statement env committing (λ t. (tt, t))
  pure (acquired a reclaimed changed)

unfoldable pub acquire_lease : Environment → LedgerInput → M Answer
acquire_lease env input = do a ← lift (lease_args input); open_ledger env; acquire_with env a

-- UPDATE schedule_leases SET released_at = … WHERE lease_id = … AND released_at IS NULL
unfoldable pub mark_released : LeaseReleaseArgs → Tables → ℕ × Tables
mark_released a t =
    let (rows, changed) =
      update (λ r. str_eq r.lease_id a.lease_id && is_none r.released_at)
        (λ r. record r { released_at = some a.updated_at }) t.schedule_leases in
    (changed, record t { schedule_leases = rows })

unfoldable pub release_with : Environment → LeaseReleaseArgs → M Answer
release_with env a = do
  changed ← statement env writing (mark_released a)
  if changed == 0
      then fail (validation lease_not_found)
      else pure (answer (lease_released a.lease_id) (bytes "ok") true)

unfoldable pub release_lease : Environment → LedgerInput → M Answer
release_lease env input = do
  a ← lift (lease_release_args input)
  open_ledger env
  release_with env a
