-- ===== src/Ledger/Dispatch/Sequences.antt =====
-- plugins/local-control-ledger/src/lib.rs: runs of the ledger one after the other.
use agentmesh_private.Common.{
  Text, bytes, Bool, true, false, Option, List, [], ◌∷◌, any, ◌≡◌, ◌⊎◌, ◌↔◌, inl, inr, Bool-cases,
  refl, ap, ◌∙◌, arith, str_eq_iff, if◌then◌else◌,
}
use agentmesh_private.Common.Results.{ok}
use agentmesh_private.Ledger.Input.{LedgerInput, Answer, answer, idempotency}
use agentmesh_private.Ledger.Rows.{Tables, Idempotency}
use agentmesh_private.Ledger.Sql.Keys.{any-insert_or_ignore, any-insert_or_ignore_self}
use agentmesh_private.Ledger.Args.{IdempotencyArgs, idempotency_args}
use agentmesh_private.Ledger.Store.{Environment, writing}
use agentmesh_private.Ledger.Store.Answered.{answered-ok}
use agentmesh_private.Ledger.Leases.{reclaim_expired_leases, insert_lease, mark_released}
use agentmesh_private.Ledger.Claims.{reclaim_expired_claims, insert_claim, mark_claim_released}
use agentmesh_private.Ledger.Records.{
  put_watermark, put_mode, put_decision, put_rollback, put_violation, same_claim, put_idempotency,
  idempotency_answer, claim_idempotency,
}
use agentmesh_private.Ledger.Dispatch.{run_local_control_ledger}
use agentmesh_private.Ledger.Stable.{Stable, run-keeps}

-- Runs one after the other on the same ledger, each with its own environment and input.
unfoldable pub run_all : List (Environment × Option LedgerInput) → Tables → Tables
run_all [] t = t
run_all ((env, input) ∷ rest) t = run_all rest (run_local_control_ledger env input t).1

pub run_all-keeps :
    {P : Tables → Type 0} (s : Stable P) (runs : List (Environment × Option LedgerInput))
    (t : Tables)
    → P t
    → P (run_all runs t)
unfolding run_all
run_all-keeps s [] t h = h
run_all-keeps s ((env, input) ∷ rest) t h = run_all-keeps s rest _ (run-keeps s env input t h)

-- The decision hash has a row for the controller.
abbrev pub is_claimed : Text → Text → Tables → Bool
is_claimed controller hash t = any (same_claim controller hash) t.idempotency_claims

IsClaimed-Stable : (controller hash : Text) → Stable (λ t. is_claimed controller hash t ≡ true)
unfolding reclaim_expired_leases insert_lease mark_released reclaim_expired_claims insert_claim
    mark_claim_released put_watermark put_mode put_decision put_rollback put_violation
    put_idempotency
IsClaimed-Stable controller hash = record {
  leases_reclaimed = λ a t h. h;
  lease_inserted = λ a t h. h;
  lease_marked = λ a t h. h;
  claims_reclaimed = λ a t h. h;
  claim_inserted = λ a t h. h;
  claim_marked = λ a t h. h;
  watermark_put = λ a t h. h;
  mode_put = λ a t h. h;
  decision_put = λ a t h. h;
  rollback_put = λ a t h. h;
  violation_put = λ a t h. h;
  idempotency_put =
      λ a t h. any-insert_or_ignore (same_claim controller hash) _ _ t.idempotency_claims h;
}

row_of : IdempotencyArgs → Idempotency
row_of a = record {
  controller_id = a.controller_id;
  decision_hash = a.decision_hash;
  recorded_at = a.recorded_at;
}

own_row : (a : IdempotencyArgs) → same_claim a.controller_id a.decision_hash (row_of a) ≡ true
unfolding row_of
own_row a = ground (
  arith,
  (str_eq_iff a.controller_id a.controller_id).1 refl,
  (str_eq_iff a.decision_hash a.decision_hash).1 refl,
)

put_idempotency-claims :
    (a : IdempotencyArgs) (t : Tables)
    → (is_claimed a.controller_id a.decision_hash (put_idempotency a t).1 ≡ true)
      × ((put_idempotency a t).0 ≡ (if is_claimed a.controller_id a.decision_hash t then 0 else 1))
unfolding put_idempotency row_of
put_idempotency-claims a t =
    any-insert_or_ignore_self (same_claim a.controller_id a.decision_hash) (row_of a)
      t.idempotency_claims (own_row a)

-- The controller has a row for the decision hash.
abbrev pub HasClaim : Text → Text → List Idempotency → Type 0
HasClaim controller hash [] = ⊥
HasClaim controller hash (r ∷ rows) =
    ((r.controller_id ≡ controller) × (r.decision_hash ≡ hash)) ⊎ HasClaim controller hash rows

same_claim_iff :
    (controller hash : Text) (r : Idempotency)
    → (same_claim controller hash r ≡ true)
      ↔ ((r.controller_id ≡ controller) × (r.decision_hash ≡ hash))
same_claim_iff controller hash r =
    ground (arith, str_eq_iff r.controller_id controller, str_eq_iff r.decision_hash hash)

any-HasClaim :
    (controller hash : Text) (rows : List Idempotency)
    → (any (same_claim controller hash) rows ≡ true) ↔ HasClaim controller hash rows
any-HasClaim controller hash [] = (λ h. absurd cc, λ h. absurd h)
any-HasClaim controller hash (r ∷ rows) =
    ground (arith, same_claim_iff controller hash r, any-HasClaim controller hash rows)

-- The answer of a claim, by whether the decision hash was claimed before.
abbrev pub verdict : Text → Bool → Answer
verdict hash true = answer (idempotency hash false true) (bytes "duplicate_suppressed") false
verdict hash false = answer (idempotency hash true false) (bytes "ok") true

verdict-idempotency_answer :
    (hash : Text) (b : Bool) → idempotency_answer hash (if b then 0 else 1) ≡ verdict hash b
verdict-idempotency_answer hash true = refl
verdict-idempotency_answer hash false = refl

claim_idempotency-is_claimed :
    (env : Environment) (input : LedgerInput) (a : IdempotencyArgs) (t : Tables) (x : Answer)
    → idempotency_args input ≡ ok a
    → (claim_idempotency env input t).0 ≡ ok x
    → (x ≡ verdict a.decision_hash (is_claimed a.controller_id a.decision_hash t))
      × (is_claimed a.controller_id a.decision_hash (claim_idempotency env input t).1 ≡ true)
unfolding claim_idempotency
claim_idempotency-is_claimed env input a t x args done =
    let (said, left) =
      answered-ok env writing (idempotency_args input) put_idempotency
        (λ b n. idempotency_answer b.decision_hash n) t a x args done in
    let (there, number) = put_idempotency-claims a t in
    (
      said
          ∙ ap (idempotency_answer a.decision_hash) number
          ∙ verdict-idempotency_answer a.decision_hash
              (is_claimed a.controller_id a.decision_hash t),
      ap (is_claimed a.controller_id a.decision_hash) left ∙ there,
    )

-- A claim that the database carries out answers `duplicate_suppressed` if there was a row with the same
-- controller and the same decision hash, and `ok` as the first one if there was none; afterwards there is
-- such a row.
pub claim_idempotency-verdict :
    (env : Environment) (input : LedgerInput) (a : IdempotencyArgs) (t : Tables) (x : Answer)
    → idempotency_args input ≡ ok a
    → (claim_idempotency env input t).0 ≡ ok x
    → (HasClaim a.controller_id a.decision_hash t.idempotency_claims
        → x ≡ answer (idempotency a.decision_hash false true) (bytes "duplicate_suppressed") false)
      × (¬ HasClaim a.controller_id a.decision_hash t.idempotency_claims
          → x ≡ answer (idempotency a.decision_hash true false) (bytes "ok") true)
      × HasClaim a.controller_id a.decision_hash
          (claim_idempotency env input t).1.idempotency_claims
claim_idempotency-verdict env input a t x args done =
    let (said, there) = claim_idempotency-is_claimed env input a t x args done in
    let before = any-HasClaim a.controller_id a.decision_hash t.idempotency_claims in
    (
      λ had. said ∙ ap (verdict a.decision_hash) (before.1 had),
      λ had_none. elim (Bool-cases (is_claimed a.controller_id a.decision_hash t)) [
        | inl had ↦ absurd (had_none (before.0 had))
        | inr had ↦ said ∙ ap (verdict a.decision_hash) had
      ],
      (any-HasClaim a.controller_id a.decision_hash _).0 there,
    )

-- Once a controller's claim of a decision hash was carried out, every later claim of the same hash by
-- the same controller that is carried out answers `duplicate_suppressed`, whatever runs of the ledger
-- lie between, faults and refused inputs among them.
pub claim_idempotency-once :
    (env later : Environment) (input again : LedgerInput) (a b : IdempotencyArgs) (t : Tables)
    (x y : Answer) (between : List (Environment × Option LedgerInput))
    → idempotency_args input ≡ ok a
    → idempotency_args again ≡ ok b
    → a.controller_id ≡ b.controller_id
    → a.decision_hash ≡ b.decision_hash
    → (claim_idempotency env input t).0 ≡ ok x
    → (claim_idempotency later again (run_all between (claim_idempotency env input t).1)).0 ≡ ok y
    → y ≡ answer (idempotency b.decision_hash false true) (bytes "duplicate_suppressed") false
claim_idempotency-once env later input again a b t x y between args_a args_b same_controller
      same_hash done_a done_b =
    let (_, there) = claim_idempotency-is_claimed env input a t x args_a done_a in
    let still =
      run_all-keeps (IsClaimed-Stable a.controller_id a.decision_hash) between
        (claim_idempotency env input t).1 there in
    let (said, _) = claim_idempotency-is_claimed later again b _ y args_b done_b in
    said ∙ ap (verdict b.decision_hash) (rw (same_controller, same_hash) at still)
