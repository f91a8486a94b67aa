-- ===== src/Lane/Record/Fields.antt =====
-- plugins/lane-run-ledger/src/lib.rs: the members of `canonical_record_line`.
use agentmesh_private.Common.{
  Text, bytes, true, false, Option, none, some, str_eq, str_le, ◌≡◌, refl, ◌∙◌,
}
use agentmesh_private.Common.Map.{Map, get, insert, get-insert}
use agentmesh_private.Lane.Record.{
  RunRecord, Field, text_field, non_empty, lane_of, insert_some, required_fields,
  canonical_record_line,
}

-- An optional member.
abbrev pub optional : Option Text → Option Field
optional none = none
optional (some text) = some (text_field text)

get-insert_some :
    (k : Text) (o : Option Text) (m : Map Field)
    → str_eq k k ≡ true
    → get m k ≡ none
    → get (insert_some k o m) k ≡ optional o
get-insert_some k none m own absent = absent
get-insert_some k (some text) m own absent = get-insert k k (text_field text) m ∙ rw own refl

get-insert_some_other :
    (k j : Text) (o : Option Text) (m : Map Field)
    → str_eq k j ≡ false
    → get (insert_some k o m) j ≡ get m j
get-insert_some_other k j none m apart = refl
get-insert_some_other k j (some text) m apart = get-insert k j (text_field text) m ∙ rw apart refl

-- The members that are always there are not touched by the optional ones.
required-kept :
    (r : RunRecord) (j : Text)
    → str_eq (bytes "note") j ≡ false
    → str_eq (bytes "session_ref") j ≡ false
    → str_eq (bytes "pr_url") j ≡ false
    → str_eq (bytes "scope_key") j ≡ false
    → get (canonical_record_line r) j ≡ get (required_fields r) j
unfolding canonical_record_line
required-kept r j n s p k =
    get-insert_some_other (bytes "note") j _ _ n
    ∙ get-insert_some_other (bytes "session_ref") j _ _ s
    ∙ get-insert_some_other (bytes "pr_url") j _ _ p
    ∙ get-insert_some_other (bytes "scope_key") j _ _ k

-- The line has the record's timestamp and result, its lane or "direct" if that is absent or empty, and
-- each of the four optional fields exactly if it is present and not empty.
pub canonical_record_line-get :
    (r : RunRecord)
    → (get (canonical_record_line r) (bytes "ts") ≡ some (text_field r.ts))
      × (get (canonical_record_line r) (bytes "result_type") ≡ some (text_field r.result))
      × (get (canonical_record_line r) (bytes "lane") ≡ some (text_field (lane_of r.lane)))
      × (get (canonical_record_line r) (bytes "scope_key") ≡ optional (non_empty r.scope_key))
      × (get (canonical_record_line r) (bytes "pr_url") ≡ optional (non_empty r.pr_url))
      × (get (canonical_record_line r) (bytes "session_ref") ≡ optional (non_empty r.session_ref))
      × (get (canonical_record_line r) (bytes "note") ≡ optional (non_empty r.note))
unfolding canonical_record_line required_fields get insert str_eq str_le
canonical_record_line-get r = (
  required-kept r (bytes "ts") refl refl refl refl,
  required-kept r (bytes "result_type") refl refl refl refl,
  required-kept r (bytes "lane") refl refl refl refl,
  get-insert_some_other (bytes "note") (bytes "scope_key") (non_empty r.note) _ refl
      ∙ get-insert_some_other (bytes "session_ref") (bytes "scope_key") (non_empty r.session_ref) _
          refl
      ∙ get-insert_some_other (bytes "pr_url") (bytes "scope_key") (non_empty r.pr_url) _ refl
      ∙ get-insert_some (bytes "scope_key") (non_empty r.scope_key) _ refl refl,
  get-insert_some_other (bytes "note") (bytes "pr_url") (non_empty r.note) _ refl
      ∙ get-insert_some_other (bytes "session_ref") (bytes "pr_url") (non_empty r.session_ref) _
          refl
      ∙ get-insert_some (bytes "pr_url") (non_empty r.pr_url) _ refl (
          get-insert_some_other (bytes "scope_key") (bytes "pr_url") (non_empty r.scope_key) _
            refl),
  get-insert_some_other (bytes "note") (bytes "session_ref") (non_empty r.note) _ refl
      ∙ get-insert_some (bytes "session_ref") (non_empty r.session_ref) _ refl (
          get-insert_some_other (bytes "pr_url") (bytes "session_ref") (non_empty r.pr_url) _ refl
          ∙ get-insert_some_other (bytes "scope_key") (bytes "session_ref") (non_empty r.scope_key)
              _ refl),
  get-insert_some (bytes "note") (non_empty r.note) _ refl (
      get-insert_some_other (bytes "session_ref") (bytes "note") (non_empty r.session_ref) _ refl
      ∙ get-insert_some_other (bytes "pr_url") (bytes "note") (non_empty r.pr_url) _ refl
      ∙ get-insert_some_other (bytes "scope_key") (bytes "note") (non_empty r.scope_key) _ refl),
)
