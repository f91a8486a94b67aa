-- ===== src/Ledger/Leases/Exclusion.antt =====
-- plugins/local-control-ledger/src/lib.rs: who holds a lease after `acquire_lease`.
use agentmesh_private.Common.{
  ℕ, Text, Bool, true, false, ◌&&◌, ◌||◌, Option, none, some, is_none, is_some, List, [], ◌∷◌,
  Bool-cases, Option-cases, inl, inr, ◌≡◌, refl, sym, ap, ◌∙◌, arith, str_eq, str_eq_iff, str_le,
  if◌then◌else◌,
}
use agentmesh_private.Common.Results.{ok}
use agentmesh_private.Ledger.Input.{Answer}
use agentmesh_private.Ledger.Rows.{Tables, Lease}
use agentmesh_private.Ledger.Sql.{select}
use agentmesh_private.Ledger.Sql.Keys.{select-update, select-upsert, updated, upserted}
use agentmesh_private.Ledger.Args.{LeaseArgs}
use agentmesh_private.Ledger.Store.{Environment}
use agentmesh_private.Ledger.Store.Answered.{transacted-ok}
use agentmesh_private.Ledger.Leases.{reclaim_expired_leases, insert_lease, acquired, acquire_with}

-- The row of a lease.
abbrev pub find_lease : Text → Tables → Option Lease
find_lease id t = select (λ r. str_eq r.lease_id id) t.schedule_leases

-- The lease can be taken at the time `now`: it was released, or its text expires no later.
abbrev pub is_free : Text → Lease → Bool
is_free now r = is_some r.released_at || str_le r.expires_at now

abbrev pub granted : LeaseArgs → Lease
granted a = record {
  lease_id = a.lease_id;
  holder = a.holder;
  acquired_at = a.acquired_at;
  expires_at = a.expires_at;
  released_at = none;
}

-- What acquiring a lease means for its row: whether it is acquired, and the row afterwards.
abbrev pub grant : LeaseArgs → Option Lease → Bool × Option Lease
grant a none = (true, some (granted a))
grant a (some r) = if is_free a.acquired_at r then (true, some (granted a)) else (false, some r)

select-hit {ℓ} :
    {Row : Type ℓ} (q : Row → Bool) (rows : List Row) (r : Row)
    → select q rows ≡ some r
    → q r ≡ true
unfolding select
select-hit q [] r h = absurd cc
select-hit q (x ∷ rows) r h = elim (Bool-cases (q x)) [
  | inl hit ↦ elim (Option-cases (some x)) [ inl e ↦ absurd cc | inr _ ↦ ground (arith, h) ]
  | inr miss ↦ select-hit q rows r (rw miss at h)
]

-- The row that the upsert makes of a row of the lease.
abbrev taken : LeaseArgs → Lease → Lease
taken a r = record r {
  holder = a.holder;
  acquired_at = a.acquired_at;
  expires_at = a.expires_at;
  released_at = none;
}

taken-granted : (a : LeaseArgs) (r : Lease) → r.lease_id ≡ a.lease_id → taken a r ≡ granted a
taken-granted a r same = ap (λ id. record (granted a) { lease_id = id }) same

-- The upsert, on the row that the reclaim before it leaves.
abbrev outcome : LeaseArgs → Option Lease → Option Lease × ℕ
outcome a o =
    upserted (λ r. str_eq r.lease_id a.lease_id) (is_free a.acquired_at) (taken a) (λ r. refl)
      (granted a)
      (updated (λ r. str_eq r.lease_id a.lease_id)
        (λ r. is_none r.released_at && str_le r.expires_at a.acquired_at)
        (λ r. record r { released_at = some a.acquired_at }) (λ r. refl) o)

outcome-grant :
    (a : LeaseArgs) (o : Option Lease) (n : ℕ)
    → ((r : Lease) → o ≡ some r → r.lease_id ≡ a.lease_id)
    → ((acquired a n (outcome a o).1).valid, (outcome a o).0) ≡ grant a o
outcome-grant a none n own = refl
outcome-grant a (some r) n own = elim (Option-cases r.released_at) [
  | inl free ↦ elim (Bool-cases (str_le r.expires_at a.acquired_at)) [
    | inl late ↦ rw (free, late) (ap (λ l. (true, some l)) (taken-granted a r (own r refl)))
    | inr live ↦ rw (free, live) (rw live refl)
  ]
  | inr (at, closed) ↦ rw closed (ap (λ l. (true, some l)) (taken-granted a r (own r refl)))
]

pub own_id : (id : Text) (t : Tables) (r : Lease) → find_lease id t ≡ some r → r.lease_id ≡ id
own_id id t r found =
    (str_eq_iff r.lease_id id).0 (select-hit (λ r. str_eq r.lease_id id) t.schedule_leases r found)

insert_lease-outcome :
    (a : LeaseArgs) (t : Tables)
    → (find_lease a.lease_id (insert_lease a (reclaim_expired_leases a.acquired_at t).1).1
        ≡ (outcome a (find_lease a.lease_id t)).0)
      × ((insert_lease a (reclaim_expired_leases a.acquired_at t).1).0
          ≡ (outcome a (find_lease a.lease_id t)).1)
unfolding insert_lease reclaim_expired_leases
insert_lease-outcome a t =
    let own = (str_eq_iff a.lease_id a.lease_id).1 refl in
    let (row, number) =
      select-upsert (λ r. str_eq r.lease_id a.lease_id) (is_free a.acquired_at) (taken a)
        (λ r. refl) (granted a) own _ in
    let reclaimed =
      select-update (λ r. str_eq r.lease_id a.lease_id)
        (λ r. is_none r.released_at && str_le r.expires_at a.acquired_at)
        (λ r. record r { released_at = some a.acquired_at }) (λ r. refl) t.schedule_leases in
    let step =
      upserted (λ r. str_eq r.lease_id a.lease_id) (is_free a.acquired_at) (taken a) (λ r. refl)
        (granted a) in
    (row ∙ ap (λ o. (step o).0) reclaimed, number ∙ ap (λ o. (step o).1) reclaimed)

-- An acquisition that the database carries out acquires the lease exactly if no row of the lease is
-- there, or the row is released, or its `expires_at` is, as a text, no later than the new
-- `acquired_at`. The row afterwards is the new holder's if the lease is acquired, and the old row if not.
pub acquire_with-grant :
    (env : Environment) (a : LeaseArgs) (t : Tables) (x : Answer)
    → (acquire_with env a t).0 ≡ ok x
    → (x.valid, find_lease a.lease_id (acquire_with env a t).1) ≡ grant a (find_lease a.lease_id t)
unfolding acquire_with
acquire_with-grant env a t x done =
    let (said, left) =
      transacted-ok env (reclaim_expired_leases a.acquired_at) (insert_lease a)
        (λ n m. acquired a n m) t x done in
    let (row, number) = insert_lease-outcome a t in
    let n = (reclaim_expired_leases a.acquired_at t).0 in
    (λ i. (
      (ap (λ (y : Answer). y.valid) (said ∙ ap (acquired a n) number)) i,
      (ap (find_lease a.lease_id) left ∙ row) i,
    ))
    ∙ outcome-grant a (find_lease a.lease_id t) n (own_id a.lease_id t)

pub grant-valid :
    (a : LeaseArgs) (o f : Option Lease) → (true, f) ≡ grant a o → f ≡ some (granted a)
grant-valid a none f h = ap (λ p. p.1) h
grant-valid a (some r) f h = elim (Bool-cases (is_free a.acquired_at r)) [
  | inl free ↦ ap (λ p. p.1) (rw free at h)
  | inr held ↦ absurd (true-false (ap (λ p. p.0) (rw held at h)))
]
  where
    true-false : true ≡ false → ⊥
    true-false e = cc

grant-held :
    (b : LeaseArgs) (l : Lease)
    → is_free b.acquired_at l ≡ false
    → grant b (some l) ≡ (false, some l)
grant-held b l held = rw held refl

-- A lease that was acquired until `expires_at` is refused to the next acquisition of it if that one's
-- `acquired_at` is, as a text, before `expires_at`, and the row of the lease stays the first holder's;
-- both acquisitions are carried out by the database.
pub acquire_with-excludes :
    (env later : Environment) (a b : LeaseArgs) (t : Tables) (x y : Answer)
    → a.lease_id ≡ b.lease_id
    → str_le a.expires_at b.acquired_at ≡ false
    → (acquire_with env a t).0 ≡ ok x
    → x.valid ≡ true
    → (acquire_with later b (acquire_with env a t).1).0 ≡ ok y
    → (y.valid ≡ false)
      × (find_lease b.lease_id (acquire_with later b (acquire_with env a t).1).1 ≡ some (granted a))
acquire_with-excludes env later a b t x y same early done_a valid done_b =
    let won =
      grant-valid a (find_lease a.lease_id t) _
        (rw valid at (acquire_with-grant env a t x done_a)) in
    let second = acquire_with-grant later b (acquire_with env a t).1 y done_b in
    let refused =
      second
      ∙ ap (grant b) (ap (λ id. find_lease id (acquire_with env a t).1) (sym same) ∙ won)
      ∙ grant-held b (granted a) early in
    (ap (λ p. p.0) refused, ap (λ p. p.1) refused)
