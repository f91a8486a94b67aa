-- ===== src/Evidence/Decision/Checks.antt =====
-- crates/agentmesh-evidence/src/decision.rs: what each check and each default of the normalization gives.
use agentmesh_private.Common.{
  Option, none, some, ◌∷◌, ap, sym, ◌∙◌, ◌⊎◌, if◌then◌else◌, Text, bytes, Bool, true, List, [],
  str_eq, str_eq_iff, str_eq→eq, ◌≡◌, ◌≢◌, refl, subst, inl, inr, Bool-cases,
}
use agentmesh_private.Common.Results.{Result, ok, err, >>=-eq-ok}
use agentmesh_private.Evidence.Decision.{
  DecisionStatus, candidate, adopted, rejected, deferred, superseded, DecisionMetadataError,
  candidate_mode_wanted, candidate_mode_forbidden, invalid_kind, one_of, parse_status,
}
use agentmesh_private.Evidence.Decision.Metadata.{
  recorders, status_from, unwrap_or, checked, decision_kinds, is_machine, checked_kind,
  default_review, default_mode, or_default, check_mode, check_refs,
}

abbrev pub IsOneOf : Text → List Text → Type 0
IsOneOf t [] = ⊥
IsOneOf t (name ∷ names) = (t ≡ name) ⊎ IsOneOf t names

one_of-IsOneOf : (names : List Text) (t : Text) → one_of names t ≡ true → IsOneOf t names
one_of-IsOneOf [] t h = absurd cc
one_of-IsOneOf (name ∷ names) t h = elim (Bool-cases (str_eq t name)) [
  | inl same ↦ inl (str_eq→eq _ _ same)
  | inr other ↦ inr (one_of-IsOneOf names t (rw other at h))
]

pub checked-ok :
    (names : List Text) (refusal : Text → DecisionMetadataError) (token t : Text)
    → checked names refusal token ≡ ok t
    → (t ≡ token) × IsOneOf t names
unfolding checked
checked-ok names refusal token t done = elim (Bool-cases (one_of names token)) [
  | inl known ↦
      let same : t ≡ token = (let e = rw known at done in cc) in
      (same, subst (λ u. IsOneOf u names) (sym same) (one_of-IsOneOf names token known))
  | inr unknown ↦ absurd (refused (rw unknown at done))
]
  where
    refused : ◌≡◌ {A = Result DecisionMetadataError Text} (err (refusal token)) (ok t) → ⊥
    refused h = cc

some_inj : {x y : Text} → some x ≡ some y → x ≡ y
some_inj h = cc

pub checked_kind-ok :
    (given kind : Option Text)
    → checked_kind given ≡ ok kind
    → (kind ≡ given) × ((k : Text) → kind ≡ some k → IsOneOf k decision_kinds)
unfolding checked_kind
checked_kind-ok none kind done =
    let none_too : kind ≡ none = cc in (none_too, λ k some_kind. absurd cc)
checked_kind-ok (some given) kind done =
    let (token, known, made) =
      >>=-eq-ok (checked decision_kinds invalid_kind given) (λ k. ok (some k)) done in
    let (same, listed) = checked-ok decision_kinds invalid_kind given token known in
    let is_kind : some token ≡ kind = cc in
    (
      sym is_kind ∙ ap some same,
      λ k some_kind. subst (λ u. IsOneOf u decision_kinds) (some_inj (is_kind ∙ some_kind)) listed,
    )

-- The status of the field that is for it, and the default.
pub status_given :
    (given legacy : Option Text) (status : DecisionStatus)
    → status_from given legacy ≡ ok status
    → (t : Text) → given ≡ some t
    → parse_status t ≡ ok status
unfolding status_from
status_given none legacy status done t there = absurd cc
status_given (some value) legacy status done t there = ap parse_status (sym (some_inj there)) ∙ done

pub status_older :
    (given legacy : Option Text) (status : DecisionStatus)
    → status_from given legacy ≡ ok status
    → (t : Text) → given ≡ none
    → legacy ≡ some t
    → (parse_status t ≡ ok status)
      ⊎ (((e : DecisionMetadataError) × (parse_status t ≡ err e)) × (status ≡ adopted))
unfolding status_from
status_older (some value) legacy status done t absent there = absurd cc
status_older none none status done t absent there = absurd cc
status_older none (some value) status done t absent there =
    subst
      (λ u.
        (parse_status u ≡ ok status)
        ⊎ (((e : DecisionMetadataError) × (parse_status u ≡ err e)) × (status ≡ adopted)))
      (some_inj there) (by_parse (parse_status value) refl done)
  where
    by_parse :
        (r : Result DecisionMetadataError DecisionStatus)
        → parse_status value ≡ r
        → ◌≡◌ {A = Result DecisionMetadataError DecisionStatus}
            (ok (unwrap_or r adopted))
            (ok status)
        → (parse_status value ≡ ok status)
          ⊎ (((e : DecisionMetadataError) × (parse_status value ≡ err e)) × (status ≡ adopted))
    by_parse (ok s) parsed h = inl (parsed ∙ h)
    by_parse (err e) parsed h = inr ((e, parsed), cc)

pub status_absent :
    (given legacy : Option Text) (status : DecisionStatus)
    → status_from given legacy ≡ ok status
    → given ≡ none
    → legacy ≡ none
    → status ≡ adopted
unfolding status_from
status_absent (some value) legacy status done absent none_else = absurd cc
status_absent none (some value) status done absent none_else = absurd cc
status_absent none none status done absent none_else = cc

-- The value of a field that can be left out.
pub or_default-given :
    (given : Option Text) (other t : Text) → given ≡ some t → or_default given other ≡ t
or_default-given given other t h = rw h refl

pub or_default-absent :
    (given : Option Text) (other : Text) → given ≡ none → or_default given other ≡ other
or_default-absent given other h = rw h refl

-- People have reviewed what they record; an AI and the system have not.
abbrev pub HasDefaultReview : Text → Text → Type 0
HasDefaultReview recorder reviewed =
    (recorder ≡ bytes "human" → reviewed ≡ bytes "reviewed")
    × (recorder ≢ bytes "human" → reviewed ≡ bytes "unreviewed")

human-ai : bytes "human" ≡ bytes "ai" → ⊥
human-ai h = cc

human-system : bytes "human" ≡ bytes "system" → ⊥
human-system h = cc

pub default_review-ok :
    (recorder : Text)
    → IsOneOf recorder recorders
    → HasDefaultReview recorder (default_review recorder)
unfolding str_eq
default_review-ok recorder (inl ai) =
    subst (λ r. HasDefaultReview r (default_review r)) (sym ai) (λ same. absurd cc, λ other. refl)
default_review-ok recorder (inr (inl human)) =
    subst (λ r. HasDefaultReview r (default_review r)) (sym human)
      (λ same. refl, λ other. absurd (other refl))
default_review-ok recorder (inr (inr (inl system))) =
    subst (λ r. HasDefaultReview r (default_review r)) (sym system)
      (λ same. absurd cc, λ other. refl)
default_review-ok recorder (inr (inr (inr nowhere))) = absurd nowhere

-- A candidate is adopted by nobody yet; else a person adopts, or the machine by itself.
abbrev pub HasDefaultMode : DecisionStatus → Text → Text → Type 0
HasDefaultMode status recorder mode =
    (status ≡ candidate → mode ≡ bytes "candidate")
    × (status ≢ candidate → recorder ≡ bytes "human" → mode ≡ bytes "human")
    × (status ≢ candidate → recorder ≢ bytes "human" → mode ≡ bytes "auto")

machine_mode : Text → Text
machine_mode recorder = if is_machine recorder then bytes "auto" else bytes "human"

machine_mode-ok :
    (recorder : Text)
    → IsOneOf recorder recorders
    → (recorder ≡ bytes "human" → machine_mode recorder ≡ bytes "human")
      × (recorder ≢ bytes "human" → machine_mode recorder ≡ bytes "auto")
unfolding str_eq machine_mode
machine_mode-ok recorder (inl ai) = (λ same. absurd (human-ai (sym same ∙ ai)), λ other. rw ai refl)
machine_mode-ok recorder (inr (inl human)) = (λ same. rw human refl, λ other. absurd (other human))
machine_mode-ok recorder (inr (inr (inl system))) =
    (λ same. absurd (human-system (sym same ∙ system)), λ other. rw system refl)
machine_mode-ok recorder (inr (inr (inr nowhere))) = absurd nowhere

pub default_mode-ok :
    (status : DecisionStatus) (recorder : Text)
    → IsOneOf recorder recorders
    → HasDefaultMode status recorder (default_mode status recorder)
unfolding machine_mode
default_mode-ok candidate recorder known =
    (λ same. refl, λ other. absurd (other refl), λ other. absurd (other refl))
default_mode-ok adopted recorder known =
    let (by_human, by_machine) = machine_mode-ok recorder known in
    (λ same. absurd cc, λ other. by_human, λ other. by_machine)
default_mode-ok rejected recorder known =
    let (by_human, by_machine) = machine_mode-ok recorder known in
    (λ same. absurd cc, λ other. by_human, λ other. by_machine)
default_mode-ok deferred recorder known =
    let (by_human, by_machine) = machine_mode-ok recorder known in
    (λ same. absurd cc, λ other. by_human, λ other. by_machine)
default_mode-ok superseded recorder known =
    let (by_human, by_machine) = machine_mode-ok recorder known in
    (λ same. absurd cc, λ other. by_human, λ other. by_machine)

pub check_mode-ok :
    (status : DecisionStatus) (mode : Text)
    → check_mode status mode ≡ ok tt
    → (status ≡ candidate → mode ≡ bytes "candidate")
      × (status ≡ adopted → mode ≢ bytes "candidate")
unfolding check_mode
check_mode-ok candidate mode done = elim (Bool-cases (str_eq mode (bytes "candidate"))) [
  | inl same ↦ (λ here. str_eq→eq _ _ same, λ here. absurd cc)
  | inr other ↦ absurd (refused (rw (other) at done))
]
  where
    refused :
        ◌≡◌ {A = Result DecisionMetadataError (Unit {0})} (err candidate_mode_wanted) (ok tt) → ⊥
    refused h = cc
check_mode-ok adopted mode done =
    (λ here. absurd cc, λ here same. refused (rw ((str_eq_iff _ _).1 same) at done))
  where
    refused :
        ◌≡◌ {A = Result DecisionMetadataError (Unit {0})} (err candidate_mode_forbidden) (ok tt) → ⊥
    refused h = cc
check_mode-ok rejected mode done = (λ here. absurd cc, λ here. absurd cc)
check_mode-ok deferred mode done = (λ here. absurd cc, λ here. absurd cc)
check_mode-ok superseded mode done = (λ here. absurd cc, λ here. absurd cc)

pub check_refs-ok :
    (required : Bool) (recorder : Text) (refs : List Text)
    → check_refs required recorder refs ≡ ok tt
    → required ≡ true
    → recorder ≡ bytes "ai"
    → refs ≢ []
unfolding check_refs str_eq
check_refs-ok required recorder refs done wanted machine empty = refused (
    subst (λ b. check_refs b (bytes "ai") [] ≡ ok tt) wanted
      (subst (λ r. check_refs required r [] ≡ ok tt) machine
        (subst (λ l. check_refs required recorder l ≡ ok tt) empty done)))
  where
    refused : check_refs true (bytes "ai") [] ≡ ok tt → ⊥
    refused h = cc
