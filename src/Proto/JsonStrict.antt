-- ===== src/Proto/JsonStrict.antt =====
-- crates/agentmesh-proto/src/json_strict.rs and error.rs: the strict JSON parser. A parser takes the
-- input from the current position on; a byte that is not ASCII is passed over byte by byte, which skips
-- the same input as by characters. A call of `parse_value` or of a loop costs one unit of fuel.
pub mod Bounds
pub mod Fuel
pub mod Examples
use agentmesh_private.Common.{
  ℕ, zero, suc, ◌+◌, ◌*◌, ◌≤◌, Text, bytes, Bool, true, false, not, ◌&&◌, ◌||◌, Option, none, some,
  List, [], ◌∷◌, ◌++◌, any, is_some, length, is_empty, str_eq, str_le, ltb, leb, ◌==◌,
  if◌then◌else◌,
}
use agentmesh_private.Common.Results.{Result, ok, err, ◌>>=◌, ◌>>◌}
use agentmesh_private.Common.Utf8.{from_utf8}
use agentmesh_private.Common.Json.{
  Value, null, boolean, number, string, array, object, Elements, no_elements, element, Members,
  no_members, member,
}
use agentmesh_private.Proto.Limits.{Limits}

-- `ProtoError`; a message is what it reports.
pub data BadJson : Type 0 where
  not_utf8 trailing unexpected_end unterminated bad_string bad_number no_literal : BadJson
  unexpected : ℕ → BadJson

pub data Bound : Type 0 where
  too_deep : ℕ → Bound
  too_many : Bound

pub data ProtoError : Type 0 where
  invalid_json : BadJson → ProtoError
  duplicate_key : Text → ProtoError
  tree_bound : Bound → ProtoError
  schema_violation invalid_id : Text → ProtoError
  batch_rejected : ProtoError

-- What stops a parser: an error of the source, or the fuel of the model.
pub data Fault : Type 0 where
  reported : ProtoError → Fault
  out_of_fuel : Fault

abbrev pub malformed {ℓ} : {A : Type ℓ} → BadJson → Result Fault A
malformed e = err (reported (invalid_json e))

-- `serde_json::from_str` on the text of a string or of a number.
pub record Serde : Type 0 where
  pub read_string : Text → Option Text
  pub read_number : Text → Option Text

-- `char::is_ascii_whitespace`.
abbrev pub is_ascii_whitespace : ℕ → Bool
is_ascii_whitespace c = c == 32 || c == 9 || c == 10 || c == 12 || c == 13

unfoldable pub skip_ws : Text → Text
skip_ws [] = []
skip_ws (c ∷ s) = let rest = skip_ws s in if is_ascii_whitespace c then rest else c ∷ s

unfoldable pub strip_prefix : Text → Text → Option Text
strip_prefix [] s = some s
strip_prefix (a ∷ p) [] = none
strip_prefix (a ∷ p) (b ∷ s) = if a == b then strip_prefix p s else none

abbrev pub literal : Value → Option Text → Result Fault (Value × Text)
literal value none = malformed no_literal
literal value (some rest) = ok (value, rest)

unfoldable pub parse_literal : Text → Value → Text → Result Fault (Value × Text)
parse_literal lit value s = literal value (strip_prefix lit s)

abbrev pub onto : ℕ → Option (Text × Text) → Option (Text × Text)
onto c none = none
onto c (some (body, rest)) = some (c ∷ body, rest)

-- The loop of `parse_string` behind the opening quote: the bytes up to the closing one, and the rest.
unfoldable pub scan_string : Bool → Text → Option (Text × Text)
scan_string escaped [] = none
scan_string true (c ∷ s) = onto c (scan_string false s)
scan_string false (c ∷ s) =
    let more = scan_string (c == b'\\') s in if c == b'"' then some (c ∷ [], s) else onto c more

abbrev pub read_text : Option Text → Text → Result Fault (Text × Text)
read_text none rest = malformed bad_string
read_text (some text) rest = ok (text, rest)

module _ (serde : Serde) where
  abbrev pub unquoted : Option (Text × Text) → Result Fault (Text × Text)
  unquoted none = malformed unterminated
  unquoted (some (body, rest)) = read_text (serde.read_string (b'"' ∷ body)) rest

  unfoldable pub parse_string : Text → Result Fault (Text × Text)
  parse_string [] = malformed bad_string
  parse_string (c ∷ s) = if c == b'"' then unquoted (scan_string false s) else malformed bad_string

abbrev pub is_number_byte : ℕ → Bool
is_number_byte c =
    (leb b'0' c && leb c b'9') || c == b'-' || c == b'+' || c == b'.' || c == b'e' || c == b'E'

unfoldable pub number_span : Text → Text × Text
number_span [] = ([], [])
number_span (c ∷ s) =
    let (slice, rest) = number_span s in if is_number_byte c then (c ∷ slice, rest) else ([], c ∷ s)

abbrev pub numeral : Option Text → Text → Result Fault (Value × Text)
numeral none rest = malformed bad_number
numeral (some n) rest = ok (number n, rest)

unfoldable pub parse_number : Serde → Text → Result Fault (Value × Text)
parse_number serde s = let (slice, rest) = number_span s in numeral (serde.read_number slice) rest

-- `expect_char`.
abbrev pub expected : ℕ → Text → Result Fault Text
expected c [] = malformed unexpected_end
expected c (d ∷ s) = if d == c then ok s else malformed (unexpected d)

unfoldable pub expect_char : ℕ → Text → Result Fault Text
expect_char c s = expected c (skip_ws s)

-- `map.insert`.
unfoldable pub insert_member : Text → Value → Members → Members
insert_member k v no_members = member k v no_members
insert_member k v (member j w ms) =
    let rest = insert_member k v ms in
    if str_eq j k
    then member j v ms
    else if str_le k j
    then member k v (member j w ms)
    else member j w rest

-- What follows an item: a comma and more, the closing bracket, or an error.
unfoldable pub separator :
    {A : Type 0} → ℕ → (Text → Result Fault A) → (Text → Result Fault A) → Text → Result Fault A
separator close more done [] = malformed unterminated
separator close more done (c ∷ s) =
    if c == b',' then more s else if c == close then done s else malformed (unexpected c)

-- `parse_array` and `parse_object` behind their opening bracket.
unfoldable pub bracketed :
    {A : Type 0} → ℕ → A → (Text → Result Fault (A × Text)) → Text → Result Fault (A × Text)
bracketed close empty items [] = items []
bracketed close empty items (c ∷ s) = if c == close then ok (empty, s) else items (c ∷ s)

abbrev pub value_of {ℓ} :
    {A : Type ℓ} → (A → Value) → Result Fault (A × Text) → Result Fault (Value × Text)
value_of make r = r >>= λ (a, rest). ok (make a, rest)

-- The `match` of `parse_value`, by the first character; the loops are passed in.
unfoldable pub value_at :
    Serde
    → (Text → Result Fault (Elements × Text))
    → (Text → Result Fault (Members × Text))
    → Text
    → Result Fault (Value × Text)
value_at serde items members [] = malformed unexpected_end
value_at serde items members (c ∷ s) =
    if c == b'n'
    then parse_literal (bytes "null") null (c ∷ s)
    else if c == b't'
    then parse_literal (bytes "true") (boolean true) (c ∷ s)
    else if c == b'f'
    then parse_literal (bytes "false") (boolean false) (c ∷ s)
    else if c == b'"'
    then value_of string (parse_string serde (c ∷ s))
    else if c == b'['
    then value_of array (bracketed b']' no_elements items (skip_ws s))
    else if c == b'{'
    then value_of object (bracketed b'}' no_members members (skip_ws s))
    else if c == b'-' || (leb b'0' c && leb c b'9')
    then parse_number serde (c ∷ s)
    else malformed (unexpected c)

-- One member: the key, which is new, and the colon.
unfoldable pub parse_key : Serde → List Text → Text → Result Fault (Text × Text)
parse_key serde seen s = do
  (key, rest) ← parse_string serde (skip_ws s)
  if any (str_eq key) seen
      then err (reported (duplicate_key key))
      else (expect_char b':' rest >>= λ behind. ok (key, behind))

unfoldable mutual
  pub parse_value : Serde → ℕ → Text → Result Fault (Value × Text)
  parse_value serde zero s = err out_of_fuel
  parse_value serde (suc f) s =
      value_at serde (parse_items serde f) (parse_members serde f [] no_members) (skip_ws s)

  pub parse_items : Serde → ℕ → Text → Result Fault (Elements × Text)
  parse_items serde zero s = err out_of_fuel
  parse_items serde (suc f) s = parse_value serde f s >>= λ (v, rest).
      separator b']' (λ t. parse_items serde f t >>= λ (vs, end). ok (element v vs, end))
        (λ t. ok (element v no_elements, t)) (skip_ws rest)

  pub parse_members : Serde → ℕ → List Text → Members → Text → Result Fault (Members × Text)
  parse_members serde zero seen map s = err out_of_fuel
  parse_members serde (suc f) seen map s = parse_key serde seen s >>= λ (key, behind).
      (parse_value serde f behind >>= λ (v, rest).
      separator b'}' (λ t. parse_members serde f (key ∷ seen) (insert_member key v map) t)
        (λ t. ok (insert_member key v map, t)) (skip_ws rest))

-- The first lines of `check_bounds`: the count with this node.
unfoldable pub admit : Limits → ℕ → ℕ → Result ProtoError ℕ
admit limits depth nodes =
    if ltb limits.json_max_depth depth
    then err (tree_bound (too_deep depth))
    else if ltb limits.json_max_nodes (nodes + 1)
    then err (tree_bound too_many)
    else ok (nodes + 1)

unfoldable mutual
  pub check_bounds : Limits → Value → ℕ → ℕ → Result ProtoError ℕ
  check_bounds limits null depth nodes = admit limits depth nodes
  check_bounds limits (boolean b) depth nodes = admit limits depth nodes
  check_bounds limits (number n) depth nodes = admit limits depth nodes
  check_bounds limits (string s) depth nodes = admit limits depth nodes
  check_bounds limits (array vs) depth nodes =
      admit limits depth nodes >>= check_elements limits vs (depth + 1)
  check_bounds limits (object ms) depth nodes =
      admit limits depth nodes >>= check_members limits ms (depth + 1)

  pub check_elements : Limits → Elements → ℕ → ℕ → Result ProtoError ℕ
  check_elements limits no_elements depth nodes = ok nodes
  check_elements limits (element v vs) depth nodes =
      check_bounds limits v depth nodes >>= check_elements limits vs depth

  pub check_members : Limits → Members → ℕ → ℕ → Result ProtoError ℕ
  check_members limits no_members depth nodes = ok nodes
  check_members limits (member k v ms) depth nodes =
      check_bounds limits v depth nodes >>= check_members limits ms depth

-- The end of `parse_value_strict`: nothing but whitespace is left, and the tree is in its bounds.
unfoldable pub accept : Limits → Value → Text → Result Fault Value
accept limits value rest =
    if not (is_empty (skip_ws rest))
    then malformed trailing
    else elim (check_bounds limits value 0 0) [ ok _ ↦ ok value | err e ↦ err (reported e) ]

-- The fuel of `parse_value_strict`, by the length of its input.
abbrev pub fuel_for : Text → ℕ
fuel_for s = 2 * length s + 1

-- `parse_value_strict` on a text that is valid UTF-8.
unfoldable pub parse_text : Serde → Limits → Text → Result Fault Value
parse_text serde limits text =
    parse_value serde (fuel_for text) text >>= λ (value, rest). accept limits value rest

unfoldable pub parse_value_strict : Serde → Limits → Text → Result Fault Value
parse_value_strict serde limits input =
    if is_some (from_utf8 input) then parse_text serde limits input else malformed not_utf8
