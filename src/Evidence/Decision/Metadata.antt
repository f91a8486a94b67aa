-- ===== src/Evidence/Decision/Metadata.antt =====
-- crates/agentmesh-evidence/src/decision.rs: `normalize_decision_metadata` and its variant for graphs.
use agentmesh_private.Common.{
  Text, bytes, Bool, true, false, not, ◌&&◌, ◌||◌, Option, none, some, List, [], ◌∷◌, str_eq,
  if◌then◌else◌,
}
use agentmesh_private.Common.Map.{Map, get}
use agentmesh_private.Common.Results.{Result, ok, err, ◌>>=◌}
use agentmesh_private.Evidence.Decision.{
  DecisionStatus, candidate, adopted, DecisionMetadataError, invalid_kind, invalid_recorded_by,
  invalid_review_status, invalid_adoption_mode, invalid_impact, candidate_mode_wanted,
  candidate_mode_forbidden, source_refs_wanted, one_of, parse_status, status_eq, Yaml, non_empty,
  string_list,
}

pub record DecisionMetadata : Type 0 where
  pub decision_status : DecisionStatus
  pub decision_kind : Option Text
  pub recorded_by : Text
  pub review_status : Text
  pub adoption_mode : Text
  pub impact : Text
  pub source_refs : List Text
  pub supersedes : List Text

abbrev pub decision_kinds : List Text
decision_kinds =
    bytes "technical"
    ∷ bytes "product"
    ∷ bytes "process"
    ∷ bytes "tool"
    ∷ bytes "naming"
    ∷ bytes "non_goal"
    ∷ []

abbrev pub recorders : List Text
recorders = bytes "ai" ∷ bytes "human" ∷ bytes "system" ∷ []

abbrev pub review_statuses : List Text
review_statuses = bytes "unreviewed" ∷ bytes "reviewed" ∷ bytes "corrected" ∷ []

abbrev pub adoption_modes : List Text
adoption_modes = bytes "auto" ∷ bytes "human" ∷ bytes "candidate" ∷ []

abbrev pub impacts : List Text
impacts =
    bytes "normal"
    ∷ bytes "security"
    ∷ bytes "legal"
    ∷ bytes "paid"
    ∷ bytes "production"
    ∷ bytes "irreversible"
    ∷ []

abbrev pub unwrap_or : {E A : Type 0} → Result E A → A → A
unwrap_or (ok a) other = a
unwrap_or (err e) other = other

abbrev pub or_default : Option Text → Text → Text
or_default none other = other
or_default (some text) other = text

-- The status: `decision_status` if it is there, else a `status` that parses, else adopted.
unfoldable pub status_from : Option Text → Option Text → Result DecisionMetadataError DecisionStatus
status_from (some value) legacy = parse_status value
status_from none (some value) = ok (unwrap_or (parse_status value) adopted)
status_from none none = ok adopted

-- A token that has to be one of a list.
unfoldable pub checked :
    List Text → (Text → DecisionMetadataError) → Text → Result DecisionMetadataError Text
checked names refusal token = if one_of names token then ok token else err (refusal token)

unfoldable pub checked_kind : Option Text → Result DecisionMetadataError (Option Text)
checked_kind none = ok none
checked_kind (some kind) = checked decision_kinds invalid_kind kind >>= λ k. ok (some k)

abbrev pub is_machine : Text → Bool
is_machine recorder = str_eq recorder (bytes "ai") || str_eq recorder (bytes "system")

abbrev pub default_review : Text → Text
default_review recorder = if is_machine recorder then bytes "unreviewed" else bytes "reviewed"

abbrev pub default_mode : DecisionStatus → Text → Text
default_mode status recorder =
    if status_eq status candidate
    then bytes "candidate"
    else if is_machine recorder
    then bytes "auto"
    else bytes "human"

-- The two checks of the mode against the status.
unfoldable pub check_mode : DecisionStatus → Text → Result DecisionMetadataError (Unit {0})
check_mode status mode =
    if status_eq status candidate && not (str_eq mode (bytes "candidate"))
    then err candidate_mode_wanted
    else if status_eq status adopted && str_eq mode (bytes "candidate")
    then err candidate_mode_forbidden
    else ok tt

abbrev pub no_refs : List Text → Bool
no_refs [] = true
no_refs (r ∷ rs) = false

unfoldable pub check_refs : Bool → Text → List Text → Result DecisionMetadataError (Unit {0})
check_refs required recorder refs =
    if required && str_eq recorder (bytes "ai") && no_refs refs
    then err source_refs_wanted
    else ok tt

-- `normalize_decision_metadata_inner`, from its end: a step for each field, given those before it.
module _ (frontmatter : Map Yaml) (require_source_refs : Bool) where
  abbrev pub field : Text → Option Text
  field key = non_empty frontmatter key

  abbrev pub refs_of : Text → List Text
  refs_of key = string_list (get frontmatter key)

  module _ (status : DecisionStatus) where
    module _ (kind : Option Text) (recorder reviewed mode : Text) where
      unfoldable pub with_weight : Text → Result DecisionMetadataError DecisionMetadata
      with_weight weight =
          check_refs require_source_refs recorder (refs_of (bytes "source_refs")) >>= λ _.
          ok (record {
            decision_status = status;
            decision_kind = kind;
            recorded_by = recorder;
            review_status = reviewed;
            adoption_mode = mode;
            impact = weight;
            source_refs = refs_of (bytes "source_refs");
            supersedes = refs_of (bytes "supersedes");
          })

      unfoldable pub with_checked_mode : Unit {0} → Result DecisionMetadataError DecisionMetadata
      with_checked_mode _ =
          checked impacts invalid_impact (or_default (field (bytes "impact")) (bytes "normal"))
          >>= with_weight

    unfoldable pub with_mode :
        Option Text → Text → Text → Text → Result DecisionMetadataError DecisionMetadata
    with_mode kind recorder reviewed mode =
        check_mode status mode >>= with_checked_mode kind recorder reviewed mode

    unfoldable pub with_reviewed :
        Option Text → Text → Text → Result DecisionMetadataError DecisionMetadata
    with_reviewed kind recorder reviewed =
        checked adoption_modes invalid_adoption_mode
          (or_default (field (bytes "adoption_mode")) (default_mode status recorder))
        >>= with_mode kind recorder reviewed

    unfoldable pub with_recorder :
        Option Text → Text → Result DecisionMetadataError DecisionMetadata
    with_recorder kind recorder =
        checked review_statuses invalid_review_status
          (or_default (field (bytes "review_status")) (default_review recorder))
        >>= with_reviewed kind recorder

    unfoldable pub with_kind : Option Text → Result DecisionMetadataError DecisionMetadata
    with_kind kind =
        checked recorders invalid_recorded_by
          (or_default (field (bytes "recorded_by")) (bytes "human"))
        >>= with_recorder kind

    unfoldable pub with_status : Result DecisionMetadataError DecisionMetadata
    with_status = checked_kind (field (bytes "decision_kind")) >>= with_kind

  unfoldable pub normalize_inner : Result DecisionMetadataError DecisionMetadata
  normalize_inner =
      status_from (field (bytes "decision_status")) (field (bytes "status")) >>= with_status

abbrev pub normalize_decision_metadata : Map Yaml → Result DecisionMetadataError DecisionMetadata
normalize_decision_metadata frontmatter = normalize_inner frontmatter true

abbrev pub normalize_decision_metadata_for_graph :
    Map Yaml → Result DecisionMetadataError DecisionMetadata
normalize_decision_metadata_for_graph frontmatter = normalize_inner frontmatter false
