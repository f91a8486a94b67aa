-- ===== src/Ledger/Sql.antt =====
-- plugins/local-control-ledger/src/lib.rs: the forms of SQL statement that the ledger executes, on
-- the rows of a table in the order of their insertion. `execute` returns the number of rows changed.
pub mod Keys
use agentmesh_private.Common.{
  ℕ, suc, ◌+◌, Bool, true, false, not, ◌&&◌, Option, none, some, List, [], ◌∷◌, ◌++◌, any,
  if◌then◌else◌,
}

module _ {ℓ} {Row : Type ℓ} where
  -- UPDATE … SET … WHERE …
  unfoldable pub update : (Row → Bool) → (Row → Row) → List Row → List Row × ℕ
  update where_ set_ [] = ([], 0)
  update where_ set_ (r ∷ rows) =
      let (rest, changed) = update where_ set_ rows in
      if where_ r then (set_ r ∷ rest, suc changed) else (r ∷ rest, changed)

  -- SELECT COUNT(*) … WHERE …
  unfoldable pub count : (Row → Bool) → List Row → ℕ
  count where_ [] = 0
  count where_ (r ∷ rows) = (if where_ r then 1 else 0) + count where_ rows

  -- `query_row(…).optional()` on a key.
  unfoldable pub select : (Row → Bool) → List Row → Option Row
  select where_ [] = none
  select where_ (r ∷ rows) = let rest = select where_ rows in if where_ r then some r else rest

  -- INSERT … ON CONFLICT(key) DO UPDATE SET … WHERE …; `same` tests the key for a conflict.
  unfoldable pub upsert : (Row → Bool) → (Row → Bool) → (Row → Row) → Row → List Row → List Row × ℕ
  upsert same where_ set_ new [] = (new ∷ [], 1)
  upsert same where_ set_ new (r ∷ rows) =
      let (rest, changed) = upsert same where_ set_ new rows in
      if same r
      then (if where_ r then (set_ r ∷ rows, 1) else (r ∷ rows, 0))
      else (r ∷ rest, changed)

  delete : (Row → Bool) → List Row → List Row
  delete where_ [] = []
  delete where_ (r ∷ rows) = let rest = delete where_ rows in if where_ r then rest else r ∷ rest

  -- INSERT OR REPLACE: the row in conflict goes, the new row comes.
  unfoldable pub replace : (Row → Bool) → Row → List Row → List Row
  unfolding delete
  replace same new rows = delete same rows ++ new ∷ []

  -- INSERT OR IGNORE.
  unfoldable pub insert_or_ignore : (Row → Bool) → Row → List Row → List Row × ℕ
  insert_or_ignore same new rows = if any same rows then (rows, 0) else (rows ++ new ∷ [], 1)
