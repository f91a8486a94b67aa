-- ===== src/Host/Redaction.antt =====
-- crates/agentmesh-host/src/redaction.rs: redaction of JSON values by pointers. A `serde_json` map is
-- its members in order; a number is its text.
pub mod Hides
pub mod Tokens
pub mod Paths
pub mod Pointed
pub mod Examples
use agentmesh_private.Common.{
  ℕ, zero, suc, ◌+◌, ◌-◌, ◌^◌, Text, bytes, Bool, true, false, not, ◌&&◌, ◌||◌, Option, none, some,
  ◌>>=◌, List, [], ◌∷◌, map, is_empty, str_eq, ◌==◌, if◌then◌else◌,
}
use agentmesh_private.Common.Json.{
  Value, null, boolean, number, string, array, object, Elements, no_elements, element, Members,
  no_members, member,
}
use agentmesh_private.Common.Results.{Result, ok, err}
use agentmesh_private.Common.Decimal.{parse_unsigned}

-- `Value::String(REDACTED.into())`.
abbrev pub redacted : Value
redacted = string (bytes "<redacted>")

pub data RedactionError : Type 0 where
  empty_pointer no_slash bad_escape : RedactionError

-- The loop of `validate_pointer`; the flag is that the byte before is an open "~".
unfoldable pub escapes_ok : Bool → Text → Bool
escapes_ok true [] = false
escapes_ok false [] = true
escapes_ok true (c ∷ s) = (c == b'0' || c == b'1') && escapes_ok false s
escapes_ok false (c ∷ s) = escapes_ok (c == b'~') s

abbrev pub starts_with_slash : Text → Bool
starts_with_slash [] = false
starts_with_slash (c ∷ s) = c == b'/'

unfoldable pub validate_pointer : Text → Result RedactionError (Unit {0})
validate_pointer pointer =
    if is_empty pointer
    then err empty_pointer
    else if not (starts_with_slash pointer)
    then err no_slash
    else if escapes_ok false pointer
    then ok tt
    else err bad_escape

-- `RedactionPolicy::from_pointers`; a policy is its pointers.
unfoldable pub from_pointers : List Text → Result RedactionError (List Text)
from_pointers [] = ok []
from_pointers (p ∷ ps) = elim (validate_pointer p) [
  | err e ↦ err e
  | ok _ ↦ elim (from_pointers ps) [ err e ↦ err e | ok qs ↦ ok (p ∷ qs) ]
]

-- `replace` of the two bytes "~" and `digit` by a byte, from left to right; the flag is an open "~".
unfoldable pub replace_escape : ℕ → ℕ → Bool → Text → Text
replace_escape digit by true [] = b'~' ∷ []
replace_escape digit by false [] = []
replace_escape digit by false (c ∷ s) =
    let rest = replace_escape digit by (c == b'~') s in if c == b'~' then rest else c ∷ rest
replace_escape digit by true (c ∷ s) =
    let rest = replace_escape digit by (c == b'~') s in
    if c == digit then by ∷ rest else if c == b'~' then b'~' ∷ rest else b'~' ∷ c ∷ rest

unfoldable pub decode_token : Text → Text
decode_token token = replace_escape b'0' b'~' false (replace_escape b'1' b'/' false token)

-- `trim_start_matches('/')`.
unfoldable pub trim_slashes : Text → Text
trim_slashes [] = []
trim_slashes (c ∷ s) = let rest = trim_slashes s in if c == b'/' then rest else c ∷ s

abbrev pub onto_first : ℕ → List Text → List Text
onto_first c [] = (c ∷ []) ∷ []
onto_first c (t ∷ ts) = (c ∷ t) ∷ ts

-- `split('/')`.
unfoldable pub split_slash : Text → List Text
split_slash [] = [] ∷ []
split_slash (c ∷ s) = let rest = split_slash s in if c == b'/' then [] ∷ rest else onto_first c rest

unfoldable pub tokens_of : Text → List Text
tokens_of pointer =
    if str_eq pointer (bytes "/")
    then [] ∷ []
    else map decode_token (split_slash (trim_slashes pointer))

unfoldable pub get_member : Text → Members → Option Value
get_member key no_members = none
get_member key (member k v ms) =
    let rest = get_member key ms in if str_eq k key then some v else rest

-- `insert` of a key that is there, or a write through `get_mut`.
unfoldable pub set_member : Text → Value → Members → Members
set_member key w no_members = no_members
set_member key w (member k v ms) =
    let rest = set_member key w ms in if str_eq k key then member k w ms else member k v rest

unfoldable pub get_element : ℕ → Elements → Option Value
get_element i no_elements = none
get_element zero (element v vs) = some v
get_element (suc i) (element v vs) = get_element i vs

unfoldable pub set_element : ℕ → Value → Elements → Elements
set_element i w no_elements = no_elements
set_element zero w (element v vs) = element w vs
set_element (suc i) w (element v vs) = element v (set_element i w vs)

-- `parse::<usize>` on a 64-bit target.
abbrev pub array_index : Text → Option ℕ
array_index token = parse_unsigned (2 ^ 64 - 1) token

abbrev pub element_at : Option ℕ → Elements → Option Value
element_at none vs = none
element_at (some i) vs = get_element i vs

abbrev pub with_element_at : Option ℕ → Value → Elements → Elements
with_element_at none w vs = vs
with_element_at (some i) w vs = set_element i w vs

-- The value under a token, and the write of it.
unfoldable pub child : Text → Value → Option Value
child token (object ms) = get_member token ms
child token (array vs) = element_at (array_index token) vs
child token _ = none

unfoldable pub set_child : Text → Value → Value → Value
set_child token w (object ms) = object (set_member token w ms)
set_child token w (array vs) = array (with_element_at (array_index token) w vs)
set_child token w v = v

-- The loop of `redact_pointer`: the value with the target replaced, or nothing if it is not there.
unfoldable pub redact_at : List Text → Value → Option Value
redact_at [] v = none
redact_at (t ∷ []) v = child t v >>= λ _. some (set_child t redacted v)
redact_at (t ∷ u ∷ ts) v =
    child t v >>= λ next. (redact_at (u ∷ ts) next >>= λ next'. some (set_child t next' v))

abbrev pub written : Value → Option Value → Value × Bool
written v none = (v, false)
written v (some v') = (v', true)

unfoldable pub redact_pointer : Value → Text → Value × Bool
redact_pointer v pointer =
    if is_empty pointer then (redacted, true) else written v (redact_at (tokens_of pointer) v)

-- `RedactionPolicy::apply`: the value afterwards and the count of replaced values.
unfoldable pub apply_from : List Text → Value → ℕ → Value × ℕ
apply_from [] v count = (v, count)
apply_from (p ∷ ps) v count =
    let (v', done) = redact_pointer v p in apply_from ps v' (if done then count + 1 else count)

unfoldable pub apply : List Text → Value → Value × ℕ
apply pointers v = apply_from pointers v 0

abbrev pub is_noop : List Text → Bool
is_noop [] = true
is_noop (p ∷ ps) = false
