-- ===== src/Ledger/Store.antt =====
-- plugins/local-control-ledger/src/lib.rs: how an operation meets the database. Whether SQLite or
-- the file system reports an error at a step is the environment's choice.
pub mod Answered
use agentmesh_private.Common.{Text, Option, none, some, ◌≡◌, ap, refl}
use agentmesh_private.Common.Results.{Result, ok, err}
use agentmesh_private.Ledger.Input.{LedgerError, sqlite, io}
use agentmesh_private.Ledger.Rows.{Tables}

-- The steps at which an operation can meet a fault of the environment.
pub data Step : Type 0 where
  opening beginning reclaiming writing reading committing : Step

pub data Fault : Type 0 where
  sqlite_fault io_fault : Text → Fault

abbrev pub Environment : Type 0
Environment = Step → Option Fault

abbrev pub error_of : Fault → LedgerError
error_of (sqlite_fault m) = sqlite m
error_of (io_fault m) = io m

-- An action on the ledger: a result, and the tables that it leaves.
abbrev pub M : Type 0 → Type 0
M A = Tables → Result LedgerError A × Tables

abbrev pub pure : {A : Type 0} → A → M A
pure a t = (ok a, t)

abbrev pub fail : {A : Type 0} → LedgerError → M A
fail e t = (err e, t)

-- `?` on a value that is computed without the database.
abbrev pub lift : {A : Type 0} → Result LedgerError A → M A
lift r t = (r, t)

unfoldable pub then_run :
    {A B : Type 0} → Result LedgerError A × Tables → (A → M B) → Result LedgerError B × Tables
then_run (ok a, t) f = f a t
then_run (err e, t) f = (err e, t)

infixl 5 ◌>>=◌ ◌>>◌
unfoldable pub ◌>>=◌ : {A B : Type 0} → M A → (A → M B) → M B
unfolding then_run
◌>>=◌ m f t = then_run (m t) f

abbrev pub ◌>>◌ : {B : Type 0} → M (Unit {0}) → M B → M B
m >> k = m >>= λ _. k

-- A step of the database: a fault leaves the tables as they are.
unfoldable pub attempt : {A : Type 0} → Option Fault → (Tables → A × Tables) → M A
attempt none f t = let (a, t') = f t in (ok a, t')
attempt (some e) f t = (err (error_of e), t)

unfoldable pub statement : {A : Type 0} → Environment → Step → (Tables → A × Tables) → M A
unfolding attempt
statement env step f = attempt (env step) f

unfoldable pub settle :
    {A : Type 0} → Tables → Result LedgerError A × Tables → Result LedgerError A × Tables
settle before (ok a, t) = (ok a, t)
settle before (err e, t) = (err e, before)

-- A transaction that is dropped before its `commit` is rolled back.
unfoldable pub transaction : {A : Type 0} → M A → M A
unfolding settle
transaction body t = settle t (body t)

-- `open_ledger` on a ledger that has its tables.
abbrev pub open_ledger : Environment → M (Unit {0})
open_ledger env = statement env opening (λ t. (tt, t))

-- What every action of the ledger keeps.
pub record Keeps {A : Type 0} (P : Tables → Type 0) (m : M A) : Type 0 where
  pub at : (t : Tables) → P t → P (m t).1

module _ {P : Tables → Type 0} where
  pub Keeps-pure : {A : Type 0} (a : A) → Keeps P (pure a)
  Keeps-pure a = record { at = λ t h. h }

  pub Keeps-fail : {A : Type 0} (e : LedgerError) → Keeps P (fail {A = A} e)
  Keeps-fail e = record { at = λ t h. h }

  pub Keeps-lift : {A : Type 0} (r : Result LedgerError A) → Keeps P (lift r)
  Keeps-lift r = record { at = λ t h. h }

  pub Keeps-bind :
      {A B : Type 0} (m : M A) (f : A → M B)
      → Keeps P m
      → ((a : A) → Keeps P (f a))
      → Keeps P (m >>= f)
  unfolding ◌>>=◌
  Keeps-bind {A} m f km kf = record { at = λ t h. go (m t) (km.at t h) }
    where
      go : (r : Result LedgerError A × Tables) → P r.1 → P (then_run r f).1
      go (ok a, t) h = (kf a).at t h
      go (err e, t) h = h

  pub Keeps-statement :
      {A : Type 0} (env : Environment) (step : Step) (f : Tables → A × Tables)
      → ((t : Tables) → P t → P (f t).1)
      → Keeps P (statement env step f)
  unfolding statement
  Keeps-statement env step f k = record { at = λ t h. go (env step) t h }
    where
      go : (o : Option Fault) (t : Tables) → P t → P (attempt o f t).1
      go none t h = k t h
      go (some e) t h = h

  pub Keeps-transaction : {A : Type 0} (m : M A) → Keeps P m → Keeps P (transaction m)
  unfolding transaction
  Keeps-transaction {A} m k = record { at = λ t h. go t h (m t) (k.at t h) }
    where
      go :
          (before : Tables)
          → P before
          → (r : Result LedgerError A × Tables) → P r.1
          → P (settle before r).1
      go before h (ok a, t) j = j
      go before h (err e, t) j = h

pub ruleset keeps_rules = (Keeps-pure, Keeps-fail, Keeps-lift, Keeps-bind, Keeps-transaction)
