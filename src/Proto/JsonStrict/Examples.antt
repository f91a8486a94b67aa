-- ===== src/Proto/JsonStrict/Examples.antt =====
-- Runs of the strict parser, and instances of its theorems.
use agentmesh_private.Common.{
  ℕ, ◌≤◌, bytes, some, ◌∷◌, length, str_eq, str_le, ◌≡◌, ◌≢◌, ◌↔◌, refl, take, drop, ◌-◌,
}
use agentmesh_private.Common.Results.{ok, err}
use agentmesh_private.Common.Utf8.{from_utf8, utf8_from}
use agentmesh_private.Common.Json.{
  Value, null, number, array, object, no_elements, element, no_members, member,
}
use agentmesh_private.Proto.Limits.{Limits, default_limits}
use agentmesh_private.Proto.JsonStrict.{
  reported, out_of_fuel, duplicate_key, tree_bound, too_deep, Serde, skip_ws, strip_prefix,
  parse_literal, scan_string, parse_string, number_span, parse_number, expect_char, insert_member,
  separator, bracketed, value_at, parse_key, parse_value, parse_items, parse_members, admit,
  check_bounds, check_elements, check_members, accept, parse_text, parse_value_strict,
}
use agentmesh_private.Proto.JsonStrict.Bounds.{
  size, size_elements, size_members, height, height_elements, height_members, check_bounds_iff,
  parse_value_strict-bounds,
}
use agentmesh_private.Proto.JsonStrict.Fuel.{parse_value_strict-ends}

-- Strings without escapes, and every numeral.
abbrev pub plain : Serde
plain = record {
  read_string = λ s. some (take (length s - 2) (drop 1 s));
  read_number = λ s. some s;
}

abbrev shallow : Limits
shallow = record default_limits { json_max_depth = 1 }

abbrev one_pair : Value
one_pair = object (
    member (bytes "a") (number (bytes "1"))
      (member (bytes "b") (array (element null no_elements)) no_members))

parses_object :
    parse_value_strict plain default_limits (bytes "{ \"b\":[null],\"a\":1}") ≡ ok one_pair
unfolding parse_value_strict parse_text from_utf8 utf8_from skip_ws strip_prefix parse_literal
    scan_string parse_string number_span parse_number expect_char insert_member separator bracketed
    value_at parse_key parse_value parse_items parse_members admit check_bounds check_elements
    check_members accept str_eq str_le
parses_object = refl

rejects_duplicate_key :
    parse_value_strict plain default_limits (bytes "{\"a\":1,\"a\":2}")
    ≡ err (reported (duplicate_key (bytes "a")))
unfolding parse_value_strict parse_text from_utf8 utf8_from skip_ws strip_prefix parse_literal
    scan_string parse_string number_span parse_number expect_char insert_member separator bracketed
    value_at parse_key parse_value parse_items parse_members str_eq str_le
rejects_duplicate_key = refl

rejects_depth :
    parse_value_strict plain shallow (bytes "[[1]]") ≡ err (reported (tree_bound (too_deep 2)))
unfolding parse_value_strict parse_text from_utf8 utf8_from skip_ws scan_string number_span
    parse_number expect_char separator bracketed value_at parse_value parse_items admit check_bounds
    check_elements accept
rejects_depth = refl

-- A form feed is no whitespace of JSON, and is accepted.
accepts_form_feed :
    parse_value_strict plain default_limits (12 ∷ bytes "1") ≡ ok (number (bytes "1"))
unfolding parse_value_strict parse_text from_utf8 utf8_from skip_ws number_span parse_number
    value_at parse_value admit check_bounds accept
accepts_form_feed = refl

check_bounds_iff_example :
    (check_bounds default_limits one_pair 0 0 ≡ ok 4)
    ↔ ((2 ≤ 64) × (4 ≤ 100000) × (◌≡◌ {A = ℕ} 4 4))
unfolding size size_elements size_members height height_elements height_members
check_bounds_iff_example = check_bounds_iff default_limits one_pair 4

parse_value_strict-bounds_example :
    (height (number (bytes "1")) ≤ 64) × (size (number (bytes "1")) ≤ 100000)
unfolding parse_value_strict parse_text from_utf8 utf8_from skip_ws number_span parse_number
    value_at parse_value admit check_bounds accept
parse_value_strict-bounds_example =
    parse_value_strict-bounds plain default_limits (bytes " 1") (number (bytes "1")) refl

parse_value_strict-ends_example :
    parse_value_strict plain default_limits (bytes "[1,") ≢ err out_of_fuel
parse_value_strict-ends_example = parse_value_strict-ends plain default_limits (bytes "[1,")
