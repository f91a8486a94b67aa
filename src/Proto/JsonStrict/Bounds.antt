-- ===== src/Proto/JsonStrict/Bounds.antt =====
-- crates/agentmesh-proto/src/json_strict.rs: `check_bounds` against the size and the height of a value.
use agentmesh_private.Common.{
  ℕ, ◌+◌, ◌≤◌, Text, Bool, true, false, Bool-cases, is_some, not, ◌≡◌, ◌↔◌, inl, inr, refl, sym, ap,
  ◌∙◌, arith, leb, if◌then◌else◌, is_empty,
}
use agentmesh_private.Common.Results.{Result, ok, err, >>=-eq-ok}
use agentmesh_private.Common.Json.{
  Value, null, boolean, number, string, array, object, Elements, no_elements, element, Members,
  no_members, member,
}
use agentmesh_private.Proto.Limits.{Limits}
use agentmesh_private.Common.Utf8.{from_utf8}
use agentmesh_private.Proto.JsonStrict.{
  ProtoError, reported, malformed, trailing, not_utf8, admit, check_bounds, check_elements,
  check_members, accept, parse_text, parse_value_strict, parse_value, fuel_for, Serde, skip_ws,
}

abbrev larger : ℕ → ℕ → ℕ
larger a b = if leb a b then b else a

-- The number of values in a value, itself included, and the depth of the deepest.
unfoldable mutual
  pub size : Value → ℕ
  size null = 1
  size (boolean b) = 1
  size (number n) = 1
  size (string s) = 1
  size (array vs) = 1 + size_elements vs
  size (object ms) = 1 + size_members ms

  pub size_elements : Elements → ℕ
  size_elements no_elements = 0
  size_elements (element v vs) = size v + size_elements vs

  pub size_members : Members → ℕ
  size_members no_members = 0
  size_members (member k v ms) = size v + size_members ms

unfoldable mutual
  pub height : Value → ℕ
  height null = 0
  height (boolean b) = 0
  height (number n) = 0
  height (string s) = 0
  height (array vs) = height_elements vs
  height (object ms) = height_members ms

  pub height_elements : Elements → ℕ
  height_elements no_elements = 0
  height_elements (element v vs) = larger (1 + height v) (height_elements vs)

  pub height_members : Members → ℕ
  height_members no_members = 0
  height_members (member k v ms) = larger (1 + height v) (height_members ms)

-- A tree that hangs at a depth and has a height and a size, behind a number of nodes.
record Fits (limits : Limits) (depth nodes deep many : ℕ) : Type 0 where
  deep_enough : depth + deep ≤ limits.json_max_depth
  few_enough : nodes + many ≤ limits.json_max_nodes

admit-eq-ok :
    (limits : Limits) (d k n : ℕ) → admit limits d k ≡ ok n → Fits limits d k 0 1 × (n ≡ k + 1)
unfolding admit
admit-eq-ok limits d k n h = ground arith

admit-Fits : (limits : Limits) (d k : ℕ) → Fits limits d k 0 1 → admit limits d k ≡ ok (k + 1)
unfolding admit
admit-Fits limits d k h = ground arith

mutual
  unfolding check_bounds check_elements check_members size size_elements size_members height
      height_elements height_members

  sound :
      (limits : Limits) (v : Value) (d k n : ℕ)
      → check_bounds limits v d k ≡ ok n
      → Fits limits d k (height v) (size v) × (n ≡ k + size v)
  sound limits null d k n h = admit-eq-ok limits d k n h
  sound limits (boolean b) d k n h = admit-eq-ok limits d k n h
  sound limits (number x) d k n h = admit-eq-ok limits d k n h
  sound limits (string s) d k n h = admit-eq-ok limits d k n h
  sound limits (array vs) d k n h =
      let (m, first, rest) = >>=-eq-ok (admit limits d k) (check_elements limits vs (d + 1)) h in
      let here = admit-eq-ok limits d k m first in
      let below = sound_elements limits vs d m n (ground (arith, here)) rest in
      ground (arith, here, below)
  sound limits (object ms) d k n h =
      let (m, first, rest) = >>=-eq-ok (admit limits d k) (check_members limits ms (d + 1)) h in
      let here = admit-eq-ok limits d k m first in
      let below = sound_members limits ms d m n (ground (arith, here)) rest in
      ground (arith, here, below)

  sound_elements :
      (limits : Limits) (xs : Elements) (d k n : ℕ)
      → Fits limits d k 0 0
      → check_elements limits xs (d + 1) k ≡ ok n
      → Fits limits d k (height_elements xs) (size_elements xs) × (n ≡ k + size_elements xs)
  sound_elements limits no_elements d k n fits h = ground arith
  sound_elements limits (element v xs) d k n fits h =
      let (m, first, rest) =
        >>=-eq-ok (check_bounds limits v (d + 1) k) (check_elements limits xs (d + 1)) h in
      let here = sound limits v (d + 1) k m first in
      let behind = sound_elements limits xs d m n (ground (arith, here)) rest in
      ground (arith, here, behind)

  sound_members :
      (limits : Limits) (xs : Members) (d k n : ℕ)
      → Fits limits d k 0 0
      → check_members limits xs (d + 1) k ≡ ok n
      → Fits limits d k (height_members xs) (size_members xs) × (n ≡ k + size_members xs)
  sound_members limits no_members d k n fits h = ground arith
  sound_members limits (member key v xs) d k n fits h =
      let (m, first, rest) =
        >>=-eq-ok (check_bounds limits v (d + 1) k) (check_members limits xs (d + 1)) h in
      let here = sound limits v (d + 1) k m first in
      let behind = sound_members limits xs d m n (ground (arith, here)) rest in
      ground (arith, here, behind)

mutual
  unfolding check_bounds check_elements check_members size size_elements size_members height
      height_elements height_members

  complete :
      (limits : Limits) (v : Value) (d k : ℕ)
      → Fits limits d k (height v) (size v)
      → check_bounds limits v d k ≡ ok (k + size v)
  complete limits null d k fits = admit-Fits limits d k fits
  complete limits (boolean b) d k fits = admit-Fits limits d k fits
  complete limits (number x) d k fits = admit-Fits limits d k fits
  complete limits (string s) d k fits = admit-Fits limits d k fits
  complete limits (array vs) d k fits =
      rw (admit-Fits limits d k (ground arith))
        (complete_elements limits vs d (k + 1) (ground arith) ∙ ap ok (omega arith))
  complete limits (object ms) d k fits =
      rw (admit-Fits limits d k (ground arith))
        (complete_members limits ms d (k + 1) (ground arith) ∙ ap ok (omega arith))

  complete_elements :
      (limits : Limits) (xs : Elements) (d k : ℕ)
      → Fits limits d k (height_elements xs) (size_elements xs)
      → check_elements limits xs (d + 1) k ≡ ok (k + size_elements xs)
  complete_elements limits no_elements d k fits = ground arith
  complete_elements limits (element v xs) d k fits =
      let here = complete limits v (d + 1) k (ground arith) in
      let behind = complete_elements limits xs d (k + size v) (ground arith) in
      rw here (behind ∙ ap ok (omega arith))

  complete_members :
      (limits : Limits) (xs : Members) (d k : ℕ)
      → Fits limits d k (height_members xs) (size_members xs)
      → check_members limits xs (d + 1) k ≡ ok (k + size_members xs)
  complete_members limits no_members d k fits = ground arith
  complete_members limits (member key v xs) d k fits =
      let here = complete limits v (d + 1) k (ground arith) in
      let behind = complete_members limits xs d (k + size v) (ground arith) in
      rw here (behind ∙ ap ok (omega arith))

-- The walk over a tree with its counter accepts it, and counts its values, exactly if the deepest value
-- lies within the depth bound and the number of values within the node bound.
pub check_bounds_iff :
    (limits : Limits) (v : Value) (n : ℕ)
    → (check_bounds limits v 0 0 ≡ ok n)
      ↔ ((height v ≤ limits.json_max_depth) × (size v ≤ limits.json_max_nodes) × (n ≡ size v))
check_bounds_iff limits v n = (
  λ h. let (fits, count) = sound limits v 0 0 n h in omega (arith, fits, count),
  λ h.
      complete limits v 0 0
        (record { deep_enough = omega (arith, h); few_enough = omega (arith, h) })
      ∙ ap ok (omega (arith, h)),
)

accept-eq-ok :
    (limits : Limits) (v w : Value) (rest : Text)
    → accept limits v rest ≡ ok w
    → (height w ≤ limits.json_max_depth) × (size w ≤ limits.json_max_nodes)
unfolding accept
accept-eq-ok limits v w rest h = go (is_empty (skip_ws rest)) (check_bounds limits v 0 0) refl h
  where
    go :
        (done : Bool) (r : Result ProtoError ℕ)
        → check_bounds limits v 0 0 ≡ r
        → (if not done
            then malformed trailing
            else elim r [ ok _ ↦ ok v | err e ↦ err (reported e) ])
          ≡ ok w
        → (height w ≤ limits.json_max_depth) × (size w ≤ limits.json_max_nodes)
    go false r e k = absurd cc
    go true (err x) e k = absurd cc
    go true (ok n) e k =
        let (deep, many, _) = (check_bounds_iff limits v n).0 e in
        let same : v ≡ w = cc in rw (sym same) (deep, many)

-- A value that the strict parser returns is no deeper and has no more nodes than the limits allow.
pub parse_value_strict-bounds :
    (serde : Serde) (limits : Limits) (input : Text) (v : Value)
    → parse_value_strict serde limits input ≡ ok v
    → (height v ≤ limits.json_max_depth) × (size v ≤ limits.json_max_nodes)
unfolding parse_value_strict parse_text
parse_value_strict-bounds serde limits input v h = elim (Bool-cases (is_some (from_utf8 input))) [
  | inl good ↦
      let ((w, rest), _, last) =
        >>=-eq-ok (parse_value serde (fuel_for input) input) _ (rw good at h) in
      accept-eq-ok limits w v rest last
  | inr bad ↦ absurd (not_text (rw bad at h))
]
  where
    not_text : malformed not_utf8 ≡ ok v → ⊥
    not_text e = cc
