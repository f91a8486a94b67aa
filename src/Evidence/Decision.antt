-- ===== src/Evidence/Decision.antt =====
-- crates/agentmesh-evidence/src/decision.rs: the lifecycle metadata of a decision record. A text is its
-- code points. `serde_yaml` has read the frontmatter; a number is its text.
pub mod Metadata
pub mod Checks
pub mod Consistent
use agentmesh_private.Common.{
  ℕ, ◌+◌, Text, bytes, Bool, true, false, not, ◌&&◌, ◌||◌, Option, none, some, List, [], ◌∷◌, ◌++◌,
  any, is_none, is_some, is_empty, str_eq, leb, ◌==◌, if◌then◌else◌,
}
use agentmesh_private.Common.Map.{Map, get}
use agentmesh_private.Common.Results.{Result, ok, err, ◌>>=◌, ◌>>◌}
use agentmesh_private.Host.Framing.Headers.{trim}

pub data DecisionStatus : Type 0 where
  candidate adopted rejected deferred superseded : DecisionStatus

pub data DecisionScope : Type 0 where
  current review historical : DecisionScope

-- `DecisionMetadataError`; its texts are the fields and the values that they refuse.
pub data DecisionMetadataError : Type 0 where
  invalid_status invalid_scope invalid_kind invalid_recorded_by invalid_review_status
        invalid_adoption_mode invalid_impact :
      Text → DecisionMetadataError
  candidate_mode_wanted candidate_mode_forbidden source_refs_wanted : DecisionMetadataError

abbrev lower : ℕ → ℕ
lower c = if leb b'A' c && leb c b'Z' then c + 32 else c

abbrev underscore : ℕ → ℕ
underscore c = if c == b'-' || c == b' ' then b'_' else c

unfoldable pub normal_codes : Text → Text
normal_codes [] = []
normal_codes (c ∷ s) = underscore (lower c) ∷ normal_codes s

-- `trim`, `to_ascii_lowercase`, and `replace(['-', ' '], "_")`.
unfoldable pub normalize_token : Text → Text
normalize_token value = normal_codes (trim value)

-- `SPELLINGS.contains(&token)`.
abbrev pub one_of : List Text → Text → Bool
one_of names token = any (str_eq token) names

abbrev pub status_of_token : Text → Result DecisionMetadataError DecisionStatus
status_of_token token =
    if one_of (bytes "candidate" ∷ bytes "ready" ∷ bytes "proposed" ∷ bytes "draft" ∷ []) token
    then ok candidate
    else if one_of (bytes "adopted" ∷ bytes "approved" ∷ bytes "accepted" ∷ []) token
    then ok adopted
    else if one_of (bytes "rejected" ∷ []) token
    then ok rejected
    else if one_of (bytes "deferred" ∷ []) token
    then ok deferred
    else if one_of (bytes "superseded" ∷ []) token
    then ok superseded
    else err (invalid_status token)

-- `DecisionStatus::parse` and `as_str`.
unfoldable pub parse_status : Text → Result DecisionMetadataError DecisionStatus
parse_status value = status_of_token (normalize_token value)

unfoldable pub status_str : DecisionStatus → Text
status_str candidate = bytes "candidate"
status_str adopted = bytes "adopted"
status_str rejected = bytes "rejected"
status_str deferred = bytes "deferred"
status_str superseded = bytes "superseded"

abbrev pub scope_of_token : Text → Result DecisionMetadataError DecisionScope
scope_of_token token =
    if str_eq token (bytes "current")
    then ok current
    else if str_eq token (bytes "review")
    then ok review
    else if str_eq token (bytes "historical")
    then ok historical
    else err (invalid_scope token)

-- `DecisionScope::parse` and `as_str`.
unfoldable pub parse_scope : Text → Result DecisionMetadataError DecisionScope
parse_scope value = scope_of_token (normalize_token value)

unfoldable pub scope_str : DecisionScope → Text
scope_str current = bytes "current"
scope_str review = bytes "review"
scope_str historical = bytes "historical"

unfoldable pub default_statuses : DecisionScope → List DecisionStatus
default_statuses current = adopted ∷ []
default_statuses review = candidate ∷ deferred ∷ []
default_statuses historical = candidate ∷ adopted ∷ rejected ∷ deferred ∷ superseded ∷ []

-- The derived order and `PartialEq`: by the place in the declaration.
abbrev pub rank : DecisionStatus → ℕ
rank candidate = 0
rank adopted = 1
rank rejected = 2
rank deferred = 3
rank superseded = 4

abbrev pub status_eq : DecisionStatus → DecisionStatus → Bool
status_eq s t = rank s == rank t

unfoldable pub allows : DecisionScope → DecisionStatus → Bool
allows scope status = any (status_eq status) (default_statuses scope)

-- `serde_yaml::Value`.
mutual
  pub data Yaml : Type 0 where
    null : Yaml
    boolean : Bool → Yaml
    number string : Text → Yaml
    sequence : Items → Yaml
    mapping : Entries → Yaml
    tagged : Text → Yaml → Yaml

  pub data Items : Type 0 where
    no_items : Items
    item : Yaml → Items → Items

  pub data Entries : Type 0 where
    no_entries : Entries
    entry : Yaml → Yaml → Entries → Entries

abbrev shown : Bool → Text
shown true = bytes "true"
shown false = bytes "false"

unfoldable pub scalar_text : Yaml → Option Text
scalar_text null = none
scalar_text (boolean b) = some (shown b)
scalar_text (number n) = some n
scalar_text (string s) = if is_empty (trim s) then none else some (trim s)
scalar_text (sequence vs) = none
scalar_text (mapping es) = none
scalar_text (tagged tag value) = scalar_text value

-- `scalar_text(frontmatter.get(key))`, normalized.
unfoldable pub non_empty : Map Yaml → Text → Option Text
non_empty frontmatter key = elim (get frontmatter key) [
  | none ↦ none
  | some value ↦ elim (scalar_text value) [ none ↦ none | some text ↦ some (normalize_token text) ]
]

unfoldable pub has_key : Text → Yaml → Bool
has_key key (string s) = str_eq s key
has_key key _ = false

unfoldable pub entry_at : Entries → Text → Option Yaml
entry_at no_entries key = none
entry_at (entry k v es) key = let rest = entry_at es key in if has_key key k then some v else rest

abbrev first_some : Option Yaml → Option Yaml → Option Yaml
first_some none other = other
first_some (some v) other = some v

abbrev scalar_of : Option Yaml → Option Text
scalar_of none = none
scalar_of (some v) = scalar_text v

-- One item of `string_list`; the link of a mapping is the first of three keys that is there.
unfoldable pub list_item : Yaml → Option Text
list_item (mapping es) = scalar_of (
    first_some (entry_at es (bytes "value"))
      (first_some (entry_at es (bytes "target")) (entry_at es (bytes "path"))))
list_item v = scalar_text v

abbrev kept : Option Text → List Text → List Text
kept none rest = rest
kept (some text) rest = if is_empty (trim text) then rest else trim text ∷ rest

unfoldable pub list_items : Items → List Text
list_items no_items = []
list_items (item v vs) = kept (list_item v) (list_items vs)

unfoldable pub string_list : Option Yaml → List Text
string_list none = []
string_list (some (sequence vs)) = list_items vs
string_list (some v) = kept (list_item v) []
