-- ===== src/Ledger/Leases/Release.antt =====
-- plugins/local-control-ledger/src/lib.rs: a lease after `release_lease`.
use agentmesh_private.Common.{
  Text, true, ◌&&◌, Option, none, some, is_none, Bool-cases, Option-cases, inl, inr, ◌≡◌, refl, sym,
  ap, ◌∙◌, str_eq, str_eq_iff, ◌==◌,
}
use agentmesh_private.Common.Results.{ok}
use agentmesh_private.Common.{bytes}
use agentmesh_private.Ledger.Atomic.{unless_none}
use agentmesh_private.Ledger.Input.{Answer, answer, lease_released, validation, lease_not_found}
use agentmesh_private.Ledger.Rows.{Tables, Lease}
use agentmesh_private.Ledger.Sql.Keys.{select-update, updated}
use agentmesh_private.Ledger.Args.{LeaseArgs, LeaseReleaseArgs}
use agentmesh_private.Ledger.Store.{
  Environment, Fault, writing, ◌>>=◌, statement, then_run, attempt,
}
use agentmesh_private.Ledger.Leases.{mark_released, release_with, acquire_with}
use agentmesh_private.Ledger.Leases.Exclusion.{
  find_lease, granted, grant, own_id, acquire_with-grant,
}

release_with-tables :
    (env : Environment) (a : LeaseReleaseArgs) (t : Tables) (x : Answer)
    → (release_with env a t).0 ≡ ok x
    → (release_with env a t).1 ≡ (mark_released a t).1
unfolding release_with ◌>>=◌ statement then_run attempt
release_with-tables env a t x done = go (env writing) done
  where
    go :
        (o : Option Fault)
        → (then_run (attempt o (mark_released a) t) (λ n.
            unless_none
              (validation lease_not_found)
              (answer (lease_released a.lease_id) (bytes "ok") true)
              n)).0
          ≡ ok x
        → (then_run (attempt o (mark_released a) t) (λ n.
            unless_none
              (validation lease_not_found)
              (answer (lease_released a.lease_id) (bytes "ok") true)
              n)).1
          ≡ (mark_released a t).1
    go none h = elim (Bool-cases ((mark_released a t).0 == 0)) [
      | inl nothing ↦ rw nothing refl
      | inr changed ↦ rw changed refl
    ]
    go (some y) h = absurd cc

-- The row that the UPDATE makes of the row of the lease.
abbrev marked : LeaseReleaseArgs → Text → Option Lease → Option Lease
marked a id o =
    updated (λ r. str_eq r.lease_id id) (λ r. str_eq r.lease_id a.lease_id && is_none r.released_at)
      (λ r. record r { released_at = some a.updated_at }) (λ r. refl) o

marked-free :
    (a : LeaseReleaseArgs) (b : LeaseArgs) (o : Option Lease)
    → ((r : Lease) → o ≡ some r → r.lease_id ≡ a.lease_id)
    → grant b (marked a b.lease_id o) ≡ (true, some (granted b))
marked-free a b none own = refl
marked-free a b (some r) own =
    let hit = (str_eq_iff r.lease_id a.lease_id).1 (own r refl) in
    elim (Option-cases r.released_at) [
      | inl live ↦ rw (hit, live) refl
      | inr (at, released) ↦ rw (hit, released) refl
    ]

-- The row after the UPDATE is free at any time, if there is one.
marked-grants :
    (a : LeaseReleaseArgs) (b : LeaseArgs) (t : Tables)
    → a.lease_id ≡ b.lease_id
    → grant b (find_lease b.lease_id (mark_released a t).1) ≡ (true, some (granted b))
unfolding mark_released
marked-grants a b t same =
    let found =
      select-update (λ r. str_eq r.lease_id b.lease_id)
        (λ r. str_eq r.lease_id a.lease_id && is_none r.released_at)
        (λ r. record r { released_at = some a.updated_at }) (λ r. refl) t.schedule_leases in
    ap (grant b) found
    ∙ marked-free a b (find_lease b.lease_id t) (λ r e. own_id b.lease_id t r e ∙ sym same)

-- A lease whose release was carried out is acquired by the next acquisition of it that is carried out,
-- whoever acquires it and at whatever time, and its row is then the new holder's.
pub acquire_with-after-release :
    (env later : Environment) (a : LeaseReleaseArgs) (b : LeaseArgs) (t : Tables) (x y : Answer)
    → a.lease_id ≡ b.lease_id
    → (release_with env a t).0 ≡ ok x
    → (acquire_with later b (release_with env a t).1).0 ≡ ok y
    → (y.valid ≡ true)
      × (find_lease b.lease_id (acquire_with later b (release_with env a t).1).1 ≡ some (granted b))
acquire_with-after-release env later a b t x y same released acquired =
    let left = release_with-tables env a t x released in
    let said =
      acquire_with-grant later b (release_with env a t).1 y acquired
      ∙ ap (λ u. grant b (find_lease b.lease_id u)) left
      ∙ marked-grants a b t same in
    (ap (λ p. p.0) said, ap (λ p. p.1) said)
