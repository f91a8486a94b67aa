-- ===== src/Evidence/Decision/Consistent.antt =====
-- crates/agentmesh-evidence/src/decision.rs: what normalized metadata satisfies, and the spellings.
use agentmesh_private.Common.{
  none, some, ◌∷◌, sym, ◌∙◌, Text, bytes, Bool, true, [], str_eq, ◌≡◌, ◌⊎◌, ◌≢◌, refl, subst,
}
use agentmesh_private.Common.Map.{Map, get}
use agentmesh_private.Common.Results.{Result, ok, err, >>=-eq-ok}
use agentmesh_private.Host.Framing.Headers.{trim}
use agentmesh_private.Evidence.Decision.{
  DecisionStatus, candidate, adopted, rejected, deferred, superseded, DecisionScope, current,
  review, historical, DecisionMetadataError, invalid_recorded_by, invalid_review_status,
  invalid_adoption_mode, invalid_impact, parse_status, status_str, parse_scope, scope_str, Yaml,
  non_empty, string_list, normal_codes, normalize_token,
}
use agentmesh_private.Evidence.Decision.Checks.{
  IsOneOf, HasDefaultReview, HasDefaultMode, checked-ok, checked_kind-ok, or_default-given,
  or_default-absent, status_given, status_older, status_absent, default_review-ok, default_mode-ok,
  check_mode-ok, check_refs-ok,
}
use agentmesh_private.Evidence.Decision.Metadata.{
  DecisionMetadata, recorders, review_statuses, adoption_modes, impacts, status_from, checked,
  checked_kind, default_review, default_mode, or_default, check_mode, check_refs, with_status,
  with_kind, with_recorder, with_reviewed, with_mode, with_checked_mode, with_weight,
  normalize_inner,
}

-- The value of a field: what the frontmatter gives, or one that the default admits.
abbrev pub HasValue : Text → Text → (Text → Type 0) → Map Yaml → Type 0
HasValue key value IsDefault frontmatter =
    ((t : Text) → non_empty frontmatter key ≡ some t → value ≡ t)
    × (non_empty frontmatter key ≡ none → IsDefault value)

or_default-HasValue :
    (frontmatter : Map Yaml) (key value other : Text) (IsDefault : Text → Type 0)
    → value ≡ or_default (non_empty frontmatter key) other
    → IsDefault other
    → HasValue key value IsDefault frontmatter
or_default-HasValue frontmatter key value other IsDefault same default = (
  λ t given. same ∙ or_default-given _ other t given,
  λ absent. subst IsDefault (sym (same ∙ or_default-absent _ other absent)) default,
)

-- What a record of metadata satisfies, given the frontmatter: a field that is there is the one of the
-- record, one that is not has its default, the tokens are those of the lists, a candidate has the mode
-- "candidate", an adopted record has not, and a record of an AI has sources, where they are required.
pub record IsConsistent (frontmatter : Map Yaml) (required : Bool) (m : DecisionMetadata)
    : Type 0 where
  pub status :
      (t : Text)
      → non_empty frontmatter (bytes "decision_status") ≡ some t
      → parse_status t ≡ ok m.decision_status
  pub status_legacy :
      (t : Text)
      → non_empty frontmatter (bytes "decision_status") ≡ none
      → non_empty frontmatter (bytes "status") ≡ some t
      → (parse_status t ≡ ok m.decision_status)
        ⊎ (((e : DecisionMetadataError) × (parse_status t ≡ err e)) × (m.decision_status ≡ adopted))
  pub status_default :
      non_empty frontmatter (bytes "decision_status") ≡ none
      → non_empty frontmatter (bytes "status") ≡ none
      → m.decision_status ≡ adopted
  pub kind : m.decision_kind ≡ non_empty frontmatter (bytes "decision_kind")
  pub kind_listed :
      (k : Text)
      → m.decision_kind ≡ some k
      → IsOneOf k (
          bytes "technical"
          ∷ bytes "product"
          ∷ bytes "process"
          ∷ bytes "tool"
          ∷ bytes "naming"
          ∷ bytes "non_goal"
          ∷ [])
  pub recorder : HasValue (bytes "recorded_by") m.recorded_by (λ t. t ≡ bytes "human") frontmatter
  pub recorder_listed : IsOneOf m.recorded_by (bytes "ai" ∷ bytes "human" ∷ bytes "system" ∷ [])
  pub reviewed :
      HasValue (bytes "review_status") m.review_status (HasDefaultReview m.recorded_by) frontmatter
  pub reviewed_listed :
      IsOneOf m.review_status (bytes "unreviewed" ∷ bytes "reviewed" ∷ bytes "corrected" ∷ [])
  pub mode :
      HasValue
        (bytes "adoption_mode")
        m.adoption_mode
        (HasDefaultMode m.decision_status m.recorded_by)
        frontmatter
  pub mode_listed : IsOneOf m.adoption_mode (bytes "auto" ∷ bytes "human" ∷ bytes "candidate" ∷ [])
  pub weight : HasValue (bytes "impact") m.impact (λ t. t ≡ bytes "normal") frontmatter
  pub weight_listed : IsOneOf m.impact (
      bytes "normal"
      ∷ bytes "security"
      ∷ bytes "legal"
      ∷ bytes "paid"
      ∷ bytes "production"
      ∷ bytes "irreversible"
      ∷ [])
  pub candidate_mode : m.decision_status ≡ candidate → m.adoption_mode ≡ bytes "candidate"
  pub adopted_mode : m.decision_status ≡ adopted → m.adoption_mode ≢ bytes "candidate"
  pub refs : m.source_refs ≡ string_list (get frontmatter (bytes "source_refs"))
  pub sources : required ≡ true → m.recorded_by ≡ bytes "ai" → m.source_refs ≢ []
  pub older : m.supersedes ≡ string_list (get frontmatter (bytes "supersedes"))

-- The checks that accepted metadata has passed.
record HasPassed (frontmatter : Map Yaml) (required : Bool) (m : DecisionMetadata) : Type 0 where
  status :
      status_from
        (non_empty frontmatter (bytes "decision_status"))
        (non_empty frontmatter (bytes "status"))
      ≡ ok m.decision_status
  kind : checked_kind (non_empty frontmatter (bytes "decision_kind")) ≡ ok m.decision_kind
  recorder :
      checked recorders invalid_recorded_by
        (or_default (non_empty frontmatter (bytes "recorded_by")) (bytes "human"))
      ≡ ok m.recorded_by
  reviewed :
      checked review_statuses invalid_review_status
        (or_default (non_empty frontmatter (bytes "review_status")) (default_review m.recorded_by))
      ≡ ok m.review_status
  mode :
      checked adoption_modes invalid_adoption_mode (
        or_default
          (non_empty frontmatter (bytes "adoption_mode"))
          (default_mode m.decision_status m.recorded_by))
      ≡ ok m.adoption_mode
  mode_fits : check_mode m.decision_status m.adoption_mode ≡ ok tt
  weight :
      checked impacts invalid_impact
        (or_default (non_empty frontmatter (bytes "impact")) (bytes "normal"))
      ≡ ok m.impact
  refs : m.source_refs ≡ string_list (get frontmatter (bytes "source_refs"))
  refs_fit : check_refs required m.recorded_by m.source_refs ≡ ok tt
  older : m.supersedes ≡ string_list (get frontmatter (bytes "supersedes"))

normalize_inner-HasPassed :
    (frontmatter : Map Yaml) (required : Bool) (m : DecisionMetadata)
    → normalize_inner frontmatter required ≡ ok m
    → HasPassed frontmatter required m
unfolding normalize_inner with_status with_kind with_recorder with_reviewed with_mode
    with_checked_mode with_weight
normalize_inner-HasPassed frontmatter required m done =
    let (status, has_status, rest1) =
      >>=-eq-ok
        (status_from (non_empty frontmatter (bytes "decision_status"))
          (non_empty frontmatter (bytes "status")))
        (with_status frontmatter required) done in
    let (kind, kinded, rest2) =
      >>=-eq-ok (checked_kind (non_empty frontmatter (bytes "decision_kind")))
        (with_kind frontmatter required status) rest1 in
    let (recorder, recorded, rest3) =
      >>=-eq-ok
        (checked recorders invalid_recorded_by
          (or_default (non_empty frontmatter (bytes "recorded_by")) (bytes "human")))
        (with_recorder frontmatter required status kind) rest2 in
    let (reviewed, is_reviewed, rest4) =
      >>=-eq-ok
        (checked review_statuses invalid_review_status
          (or_default (non_empty frontmatter (bytes "review_status")) (default_review recorder)))
        (with_reviewed frontmatter required status kind recorder) rest3 in
    let (mode, moded, rest5) =
      >>=-eq-ok
        (checked adoption_modes invalid_adoption_mode (
          or_default (non_empty frontmatter (bytes "adoption_mode"))
            (default_mode status recorder)))
        (with_mode frontmatter required status kind recorder reviewed) rest4 in
    let (_, mode_fits, rest6) =
      >>=-eq-ok (check_mode status mode)
        (with_checked_mode frontmatter required status kind recorder reviewed mode) rest5 in
    let (weight, weighed, rest7) =
      >>=-eq-ok
        (checked impacts invalid_impact
          (or_default (non_empty frontmatter (bytes "impact")) (bytes "normal")))
        (with_weight frontmatter required status kind recorder reviewed mode) rest6 in
    let (_, refs_fit, made) =
      >>=-eq-ok (check_refs required recorder (string_list (get frontmatter (bytes "source_refs"))))
        (λ _. ok (record {
          decision_status = status;
          decision_kind = kind;
          recorded_by = recorder;
          review_status = reviewed;
          adoption_mode = mode;
          impact = weight;
          source_refs = string_list (get frontmatter (bytes "source_refs"));
          supersedes = string_list (get frontmatter (bytes "supersedes"));
        }))
        rest7 in
    subst Accepted made (record {
      status = has_status;
      kind = kinded;
      recorder = recorded;
      reviewed = is_reviewed;
      mode = moded;
      mode_fits = mode_fits;
      weight = weighed;
      refs = refl;
      refs_fit = refs_fit;
      older = refl;
    })
  where
    Accepted : Result DecisionMetadataError DecisionMetadata → Type 0
    Accepted (ok made) = HasPassed frontmatter required made
    Accepted (err e) = Unit

-- Metadata that the code accepts, of a source or of a graph, has the status of `decision_status`; without
-- that field, the one of `status` if it parses, else it is adopted; it has the kind that is given, if any,
-- and the recorder, the review status, the adoption mode and the impact that are given, or their defaults;
-- these are of the listed spellings; a candidate, and an adopted record, have a mode that fits; its sources
-- and the records that it supersedes are those of the fields; and a record of an AI has sources, where they
-- are required.
pub normalize_inner-IsConsistent :
    (frontmatter : Map Yaml) (required : Bool) (m : DecisionMetadata)
    → normalize_inner frontmatter required ≡ ok m
    → IsConsistent frontmatter required m
normalize_inner-IsConsistent frontmatter required m done =
    let passed = normalize_inner-HasPassed frontmatter required m done in
    let (is_candidate, is_adopted) =
      check_mode-ok m.decision_status m.adoption_mode passed.mode_fits in
    let (same_kind, kind_known) = checked_kind-ok _ m.decision_kind passed.kind in
    let (same_recorder, recorder_known) = checked-ok recorders _ _ m.recorded_by passed.recorder in
    let (same_review, review_known) =
      checked-ok review_statuses _ _ m.review_status passed.reviewed in
    let (same_mode, mode_known) = checked-ok adoption_modes _ _ m.adoption_mode passed.mode in
    let (same_weight, weight_known) = checked-ok impacts _ _ m.impact passed.weight in
    record {
      status = status_given _ _ m.decision_status passed.status;
      status_legacy = status_older _ _ m.decision_status passed.status;
      status_default = status_absent _ _ m.decision_status passed.status;
      kind = same_kind;
      kind_listed = kind_known;
      recorder =
          or_default-HasValue frontmatter _ m.recorded_by _ (λ t. t ≡ bytes "human") same_recorder
            refl;
      recorder_listed = recorder_known;
      reviewed =
          or_default-HasValue frontmatter _ m.review_status _ (HasDefaultReview m.recorded_by)
            same_review (default_review-ok m.recorded_by recorder_known);
      reviewed_listed = review_known;
      mode =
          or_default-HasValue frontmatter _ m.adoption_mode _
            (HasDefaultMode m.decision_status m.recorded_by) same_mode
            (default_mode-ok m.decision_status m.recorded_by recorder_known);
      mode_listed = mode_known;
      weight =
          or_default-HasValue frontmatter _ m.impact _ (λ t. t ≡ bytes "normal") same_weight refl;
      weight_listed = weight_known;
      candidate_mode = is_candidate;
      adopted_mode = is_adopted;
      refs = passed.refs;
      sources = check_refs-ok required m.recorded_by m.source_refs passed.refs_fit;
      older = passed.older;
    }

-- The canonical spelling of a status or of a scope parses to it.
pub parse_status-status_str :
    (status : DecisionStatus) → parse_status (status_str status) ≡ ok status
unfolding parse_status status_str normalize_token normal_codes trim str_eq
parse_status-status_str candidate = refl
parse_status-status_str adopted = refl
parse_status-status_str rejected = refl
parse_status-status_str deferred = refl
parse_status-status_str superseded = refl

pub parse_scope-scope_str : (scope : DecisionScope) → parse_scope (scope_str scope) ≡ ok scope
unfolding parse_scope scope_str normalize_token normal_codes trim str_eq
parse_scope-scope_str current = refl
parse_scope-scope_str review = refl
parse_scope-scope_str historical = refl
