-- ===== src/Host/Redaction/Paths.antt =====
-- crates/agentmesh-host/src/redaction.rs: where the tokens of a JSON Pointer lead, by RFC 6901, and that
-- the code's steps lead there.
use agentmesh_private.Common.{
  ℕ, zero, suc, ◌-◌, ◌^◌, Text, Bool-cases, Option-cases, some, List, [], ◌∷◌, str_eq, str_eq_iff,
  ◌≡◌, ◌≢◌, ◌⊎◌, inl, inr, ap,
}
use agentmesh_private.Common.Decimal.{parse_unsigned}
use agentmesh_private.Common.Json.{
  Value, null, boolean, number, string, array, object, Elements, no_elements, element, Members,
  no_members, member,
}
use agentmesh_private.Host.Redaction.{get_member, get_element, array_index, child}
use agentmesh_private.Host.Redaction.Hides.{some_inj, none-some, lookup}

-- The first member of a key, and the element of an index.
abbrev pub HasMember : Text → Members → Value → Type 0
HasMember key no_members w = ⊥
HasMember key (member k v ms) w = ((k ≡ key) × (v ≡ w)) ⊎ ((k ≢ key) × HasMember key ms w)

abbrev pub HasElement : ℕ → Elements → Value → Type 0
HasElement i no_elements w = ⊥
HasElement zero (element v vs) w = v ≡ w
HasElement (suc i) (element v vs) w = HasElement i vs w

-- Reference tokens lead from a value to another: by a key in an object, in an array by what
-- `str::parse::<usize>` reads.
abbrev pub IsUnder : List Text → Value → Value → Type 0
IsUnder [] v w = v ≡ w
IsUnder (t ∷ ts) (object ms) w = (x : Value) × HasMember t ms x × IsUnder ts x w
IsUnder (t ∷ ts) (array vs) w =
    (i : ℕ) × (x : Value) × (parse_unsigned (2 ^ 64 - 1) t ≡ some i)
    × HasElement i vs x
    × IsUnder ts x w
IsUnder (t ∷ ts) null w = ⊥
IsUnder (t ∷ ts) (boolean b) w = ⊥
IsUnder (t ∷ ts) (number n) w = ⊥
IsUnder (t ∷ ts) (string s) w = ⊥

get_member-HasMember :
    (key : Text) (ms : Members) (w : Value) → HasMember key ms w → get_member key ms ≡ some w
unfolding get_member
get_member-HasMember key no_members w found = elim found [ ]
get_member-HasMember key (member k v ms) w (inl (same, found)) =
    rw ((str_eq_iff k key).1 same) (ap some found)
get_member-HasMember key (member k v ms) w (inr (other, found)) = elim (Bool-cases (str_eq k key)) [
  | inl hit ↦ absurd (other ((str_eq_iff k key).0 hit))
  | inr miss ↦ rw miss (get_member-HasMember key ms w found)
]

HasMember-get_member :
    (key : Text) (ms : Members) (w : Value) → get_member key ms ≡ some w → HasMember key ms w
unfolding get_member
HasMember-get_member key no_members w h = absurd (none-some h)
HasMember-get_member key (member k v ms) w h = elim (Bool-cases (str_eq k key)) [
  | inl hit ↦ inl ((str_eq_iff k key).0 hit, some_inj (rw hit at h))
  | inr miss ↦ inr (
    (λ same. absurd (let hit = (str_eq_iff k key).1 same in cc)),
    HasMember-get_member key ms w (rw miss at h),
  )
]

get_element-HasElement :
    (i : ℕ) (vs : Elements) (w : Value) → HasElement i vs w → get_element i vs ≡ some w
unfolding get_element
get_element-HasElement zero no_elements w found = elim found [ ]
get_element-HasElement (suc i) no_elements w found = elim found [ ]
get_element-HasElement zero (element v vs) w found = ap some found
get_element-HasElement (suc i) (element v vs) w found = get_element-HasElement i vs w found

HasElement-get_element :
    (i : ℕ) (vs : Elements) (w : Value) → get_element i vs ≡ some w → HasElement i vs w
unfolding get_element
HasElement-get_element i no_elements w h = absurd (none-some h)
HasElement-get_element zero (element v vs) w h = some_inj h
HasElement-get_element (suc i) (element v vs) w h = HasElement-get_element i vs w h

-- The code's steps are those of the tokens.
pub lookup-IsUnder : (ts : List Text) (v w : Value) → IsUnder ts v w → lookup ts v ≡ some w
unfolding lookup child
lookup-IsUnder [] v w same = ap some same
lookup-IsUnder (t ∷ ts) null w under = elim under [ ]
lookup-IsUnder (t ∷ ts) (boolean b) w under = elim under [ ]
lookup-IsUnder (t ∷ ts) (number n) w under = elim under [ ]
lookup-IsUnder (t ∷ ts) (string s) w under = elim under [ ]
lookup-IsUnder (t ∷ ts) (object ms) w (x, found, under) =
    rw (get_member-HasMember t ms x found) (lookup-IsUnder ts x w under)
lookup-IsUnder (t ∷ ts) (array vs) w (i, x, reads, found, under) =
    rw (reads, get_element-HasElement i vs x found) (lookup-IsUnder ts x w under)

pub IsUnder-lookup : (ts : List Text) (v w : Value) → lookup ts v ≡ some w → IsUnder ts v w
unfolding lookup child
IsUnder-lookup [] v w h = some_inj h
IsUnder-lookup (t ∷ ts) null w h = none-some h
IsUnder-lookup (t ∷ ts) (boolean b) w h = none-some h
IsUnder-lookup (t ∷ ts) (number n) w h = none-some h
IsUnder-lookup (t ∷ ts) (string s) w h = none-some h
IsUnder-lookup (t ∷ ts) (object ms) w h = elim (Option-cases (get_member t ms)) [
  | inl nothing ↦ absurd (none-some (rw nothing at h))
  | inr (x, found) ↦ (x, HasMember-get_member t ms x found, IsUnder-lookup ts x w (rw found at h))
]
IsUnder-lookup (t ∷ ts) (array vs) w h = elim (Option-cases (array_index t)) [
  | inl nothing ↦ absurd (none-some (rw nothing at h))
  | inr (i, reads) ↦ elim (Option-cases (get_element i vs)) [
    | inl nothing ↦ absurd (none-some (rw (reads, nothing) at h))
    | inr (x, found) ↦ (
      i,
      x,
      reads,
      HasElement-get_element i vs x found,
      IsUnder-lookup ts x w (rw (reads, found) at h),
    )
  ]
]
