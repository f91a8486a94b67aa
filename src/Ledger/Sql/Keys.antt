-- ===== src/Ledger/Sql/Keys.antt =====
-- plugins/local-control-ledger/src/lib.rs: what the SQL statements do to the rows under a key.
use agentmesh_private.Common.{
  ℕ, Bool, true, false, ◌≤◌, Bool-cases, Option, none, some, List, [], ◌∷◌, any, any-append, ◌≡◌,
  inl, inr, refl, ap, arith, if◌then◌else◌,
}
use agentmesh_private.Ledger.Sql.{count, update, select, upsert, insert_or_ignore}

module _ {ℓ} {Row : Type ℓ} (where_ : Row → Bool) (set_ : Row → Row) where
  -- An UPDATE that changes no row leaves the table as it is.
  pub update-none :
      (rows : List Row) → (update where_ set_ rows).1 ≡ 0 → (update where_ set_ rows).0 ≡ rows
  unfolding update
  update-none [] h = refl
  update-none (r ∷ rows) h = elim (Bool-cases (where_ r)) [
    | inl hit ↦ absurd (ground arith)
    | inr miss ↦ rw miss (ap (λ l. r ∷ l) (update-none rows (rw miss at h)))
  ]

-- What a lookup by key finds behind an UPDATE that keeps the key.
module _ {ℓ} {Row : Type ℓ} (q where_ : Row → Bool) (set_ : Row → Row)
    (keeps : (r : Row) → q (set_ r) ≡ q r) where
  abbrev pub updated : Option Row → Option Row
  updated none = none
  updated (some r) = some (if where_ r then set_ r else r)

  pub select-update :
      (rows : List Row) → select q (update where_ set_ rows).0 ≡ updated (select q rows)
  unfolding select update
  select-update [] = refl
  select-update (r ∷ rows) = ground (arith, keeps r, select-update rows)

  abbrev pub upserted : Row → Option Row → Option Row × ℕ
  upserted new none = (some new, 1)
  upserted new (some r) = if where_ r then (some (set_ r), 1) else (some r, 0)

  -- An upsert finds the row of its key, or adds one.
  pub select-upsert :
      (new : Row)
      → q new ≡ true
      → (rows : List Row)
      → (select q (upsert q where_ set_ new rows).0 ≡ (upserted new (select q rows)).0)
        × ((upsert q where_ set_ new rows).1 ≡ (upserted new (select q rows)).1)
  unfolding select upsert
  select-upsert new own [] = ground arith
  select-upsert new own (r ∷ rows) = ground (arith, keeps r, select-upsert new own rows)

-- A lookup of another key is not affected by an upsert.
pub select-upsert_other {ℓ} :
    {Row : Type ℓ} (q same where_ : Row → Bool) (set_ : Row → Row) (new : Row) (rows : List Row)
    → ((r : Row) → q (set_ r) ≡ q r)
    → ((r : Row) → same r ≡ true → q r ≡ false)
    → q new ≡ false
    → select q (upsert same where_ set_ new rows).0 ≡ select q rows
unfolding select upsert
select-upsert_other q same where_ set_ new [] keeps apart other = ground arith
select-upsert_other q same where_ set_ new (r ∷ rows) keeps apart other =
    ground
      (arith, keeps r, apart r, select-upsert_other q same where_ set_ new rows keeps apart other)

-- INSERT OR IGNORE.
module _ {ℓ} {Row : Type ℓ} (q : Row → Bool) where
  -- A row that is there stays there, whatever is inserted.
  pub any-insert_or_ignore :
      (same : Row → Bool) (new : Row) (rows : List Row)
      → any q rows ≡ true
      → any q (insert_or_ignore same new rows).0 ≡ true
  unfolding insert_or_ignore
  any-insert_or_ignore same new rows h = ground (arith, any-append q rows (new ∷ []))

  -- Afterwards a row of the key is there, and the statement counts one exactly if there was none.
  pub any-insert_or_ignore_self :
      (new : Row) (rows : List Row)
      → q new ≡ true
      → (any q (insert_or_ignore q new rows).0 ≡ true)
        × ((insert_or_ignore q new rows).1 ≡ (if any q rows then 0 else 1))
  unfolding insert_or_ignore
  any-insert_or_ignore_self new rows h = ground (arith, any-append q rows (new ∷ []))

-- Counting under a stronger condition counts no more.
pub count-le {ℓ} :
    {Row : Type ℓ} (p q : Row → Bool)
    → ((r : Row) → p r ≡ true → q r ≡ true)
    → (rows : List Row) → count p rows ≤ count q rows
unfolding count
count-le p q weaker [] = omega arith
count-le p q weaker (r ∷ rows) = ground (arith, weaker r, count-le p q weaker rows)
