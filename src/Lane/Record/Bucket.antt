-- ===== src/Lane/Record/Bucket.antt =====
-- plugins/lane-run-ledger/src/lib.rs: the slice of `ts_bucket_month`.
use agentmesh_private.Common.{
  ℕ, ◌≤◌, Text, true, false, not, ◌||◌, Option, none, some, [], ◌∷◌, take, length, get_elem?,
  is_continuation, ◌==◌, ◌≡◌, refl, arith,
}
use agentmesh_private.Proto.Rfc3339.{byte_is, is_char_boundary, get_range}
use agentmesh_private.Lane.Record.{ts_bucket_month}

marks :
    (ts b : Text)
    → ts_bucket_month ts ≡ some b
    → (11 ≤ length ts) × (byte_is ts 7 b'-' ≡ true) × (b ≡ take 7 ts)
unfolding ts_bucket_month
marks ts b h = ground (arith, h)

-- An ASCII byte begins a character.
dash-begins : (s : Text) (i : ℕ) → byte_is s i b'-' ≡ true → is_char_boundary s i ≡ true
dash-begins s i h = at (get_elem? s i) h
  where
    at :
        (o : Option ℕ)
        → elim o [ none ↦ false | some c ↦ c == b'-' ] ≡ true
        → elim o [ none ↦ i == length s | some c ↦ i == 0 || not (is_continuation c) ] ≡ true
    at none h = absurd cc
    at (some c) h = ground (arith, h)

start-begins : (s : Text) → is_char_boundary s 0 ≡ true
start-begins [] = refl
start-begins (c ∷ s) = refl

-- A timestamp that has a month bucket is cut at the edge of a character: the slice `ts[..7]` does not
-- panic, and it is the bucket.
pub ts_bucket_month-get_range :
    (ts b : Text) → ts_bucket_month ts ≡ some b → get_range ts 0 7 ≡ some b
unfolding get_range
ts_bucket_month-get_range ts b h =
    let (long, dash, cut) = marks ts b h in ground (arith, start-begins ts, dash-begins ts 7 dash)
