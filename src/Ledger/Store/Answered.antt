-- ===== src/Ledger/Store/Answered.antt =====
-- plugins/local-control-ledger/src/lib.rs: operations of one statement that the database carries out.
use agentmesh_private.Common.{Option, none, some, ◌≡◌, refl}
use agentmesh_private.Common.Results.{Result, ok}
use agentmesh_private.Ledger.Input.{LedgerError}
use agentmesh_private.Ledger.Rows.{Tables}
use agentmesh_private.Ledger.Store.{
  Environment, Step, Fault, opening, beginning, reclaiming, writing, committing, pure, lift, ◌>>=◌,
  statement, transaction, then_run, attempt, settle,
}

-- The operation checks its arguments, opens the ledger, executes `f` and answers with `g`.
pub answered-ok :
    {A B C : Type 0} (env : Environment) (step : Step) (r : Result LedgerError A)
    (f : A → Tables → B × Tables) (g : A → B → C) (t : Tables) (a : A) (x : C)
    → r ≡ ok a
    → ((lift r >>= λ a.
          (statement env opening (λ t. (tt, t)) >>= λ _.
          (statement env step (f a) >>= λ b. pure (g a b))))
        t).0
      ≡ ok x
    → (x ≡ g a (f a t).0)
      × (((lift r >>= λ a.
              (statement env opening (λ t. (tt, t)) >>= λ _.
              (statement env step (f a) >>= λ b. pure (g a b))))
            t).1
          ≡ (f a t).1)
unfolding ◌>>=◌ statement then_run attempt
answered-ok {A} {B} {C} env step r f g t a x args h =
    rw args (go (env opening) (env step) (rw args at h))
  where
    body : Option Fault → Option Fault → Result LedgerError C × Tables
    body o w =
        then_run (attempt o (λ t. (tt, t)) t)
          (λ _. λ u. then_run (attempt w (f a) u) (λ b. pure (g a b)))

    go :
        (o w : Option Fault)
        → (body o w).0 ≡ ok x
        → (x ≡ g a (f a t).0) × ((body o w).1 ≡ (f a t).1)
    go none none h = (cc, refl)
    go none (some y) h = absurd cc
    go (some y) w h = absurd cc

-- Two statements in a transaction that commits.
pub transacted-ok :
    {A B C : Type 0} (env : Environment) (f : Tables → A × Tables) (g : Tables → B × Tables)
    (h : A → B → C) (t : Tables) (x : C)
    → (transaction
        (statement env beginning (λ t. (tt, t)) >>= λ _.
          (statement env reclaiming f >>= λ a.
          (statement env writing g >>= λ b.
          (statement env committing (λ t. (tt, t)) >>= λ _. pure (h a b)))))
        t).0
      ≡ ok x
    → (x ≡ h (f t).0 (g (f t).1).0)
      × ((transaction
            (statement env beginning (λ t. (tt, t)) >>= λ _.
              (statement env reclaiming f >>= λ a.
              (statement env writing g >>= λ b.
              (statement env committing (λ t. (tt, t)) >>= λ _. pure (h a b)))))
            t).1
          ≡ (g (f t).1).1)
unfolding ◌>>=◌ statement then_run attempt transaction settle
transacted-ok {A} {B} {C} env f g h t x done =
    go (env beginning) (env reclaiming) (env writing) (env committing) done
  where
    body : Option Fault → Option Fault → Option Fault → Option Fault → Result LedgerError C × Tables
    body o p q r = settle t (
        then_run (attempt o (λ t. (tt, t)) t) (λ _. λ u. then_run (attempt p f u) (λ a. λ v.
          then_run (attempt q g v)
            (λ b. λ w. then_run (attempt r (λ t. (tt, t)) w) (λ _. pure (h a b))))))

    go :
        (o p q r : Option Fault)
        → (body o p q r).0 ≡ ok x
        → (x ≡ h (f t).0 (g (f t).1).0) × ((body o p q r).1 ≡ (g (f t).1).1)
    go none none none none e = (cc, refl)
    go (some y) p q r e = absurd cc
    go none (some y) q r e = absurd cc
    go none none (some y) r e = absurd cc
    go none none none (some y) e = absurd cc
