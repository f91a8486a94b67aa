-- ===== src/Evidence/Graph/Readers.antt =====
-- crates/agentmesh-evidence/src/graph.rs and lib.rs: what the expansion reads of the labels and of the
-- metadata of the nodes.
use agentmesh_private.Common.{
  ℕ, zero, suc, Text, bytes, Bool, true, Option, none, some, List, [], ◌∷◌, any, str_eq, str_eq→eq,
  ◌≡◌, ◌↔◌, ◌⊎◌, refl, sym, ap, ◌∙◌, inl, inr, Bool-cases, arith, subst,
}
use agentmesh_private.Common.Json.{Value}
use agentmesh_private.Common.Results.{Result, ok, err, ◌>>=◌, >>=-eq-ok}
use agentmesh_private.Evidence.Decision.{
  DecisionStatus, candidate, adopted, rejected, deferred, superseded, DecisionScope, current,
  review, historical, rank, status_eq, default_statuses, allows, Yaml,
}
use agentmesh_private.Evidence.Decision.Metadata.{DecisionMetadata}
use agentmesh_private.Evidence.Graph.{
  GraphNode, EvidenceError, Sensitivity, public, internal, private_, restricted,
  unknown_sensitivity, parse_sensitivity, decision_metadata, status_allowed, decision_node_allowed,
  allowed_entries,
}

-- The label of a sensitivity.
abbrev pub label_of : Sensitivity → Text
label_of public = bytes "public"
label_of internal = bytes "internal"
label_of private_ = bytes "private"
label_of restricted = bytes "restricted"

pub parse_sensitivity-label_of :
    (value : Text) (s : Sensitivity) → parse_sensitivity value ≡ ok s → value ≡ label_of s
unfolding parse_sensitivity
parse_sensitivity-label_of value s parsed = elim (Bool-cases (str_eq value (bytes "public"))) [
  | inl is ↦ known public (str_eq→eq _ _ is) (rw is at parsed)
  | inr a ↦ elim (Bool-cases (str_eq value (bytes "internal"))) [
    | inl is ↦ known internal (str_eq→eq _ _ is) (rw (a, is) at parsed)
    | inr b ↦ elim (Bool-cases (str_eq value (bytes "private"))) [
      | inl is ↦ known private_ (str_eq→eq _ _ is) (rw (a, b, is) at parsed)
      | inr c ↦ elim (Bool-cases (str_eq value (bytes "restricted"))) [
        | inl is ↦ known restricted (str_eq→eq _ _ is) (rw (a, b, c, is) at parsed)
        | inr d ↦ absurd (refused (rw (a, b, c, d) at parsed))
      ]
    ]
  ]
]
  where
    known :
        (level : Sensitivity)
        → value ≡ label_of level
        → ◌≡◌ {A = Result EvidenceError Sensitivity} (ok level) (ok s)
        → value ≡ label_of s
    known level same got = let e : level ≡ s = cc in same ∙ ap label_of e

    refused :
        ◌≡◌ {A = Result EvidenceError Sensitivity} (err (unknown_sensitivity value)) (ok s) → ⊥
    refused h = cc

-- The statuses that a request asks for: those that it lists, or those of its scope.
abbrev pub IsAsked : DecisionScope → Option (List DecisionStatus) → DecisionStatus → Type 0
IsAsked scope (some []) status = ⊥
IsAsked scope (some (s ∷ statuses)) status = (status ≡ s) ⊎ IsAsked scope (some statuses) status
IsAsked current none status = status ≡ adopted
IsAsked review none status = (status ≡ candidate) ⊎ (status ≡ deferred)
IsAsked historical none status = Unit

of_rank : ℕ → DecisionStatus
of_rank zero = candidate
of_rank (suc zero) = adopted
of_rank (suc (suc zero)) = rejected
of_rank (suc (suc (suc zero))) = deferred
of_rank (suc (suc (suc (suc n)))) = superseded

of_rank-rank : (s : DecisionStatus) → of_rank (rank s) ≡ s
unfolding of_rank
of_rank-rank candidate = refl
of_rank-rank adopted = refl
of_rank-rank rejected = refl
of_rank-rank deferred = refl
of_rank-rank superseded = refl

status_eq_iff : (s t : DecisionStatus) → (status_eq s t ≡ true) ↔ (s ≡ t)
status_eq_iff s t = (
  λ h.
      (let same : rank s ≡ rank t = ground arith in
        sym (of_rank-rank s) ∙ ap of_rank same ∙ of_rank-rank t),
  λ same. (let ranks : rank s ≡ rank t = ap rank same in ground arith),
)

listed_iff :
    (scope : DecisionScope) (statuses : List DecisionStatus) (s : DecisionStatus)
    → (any (status_eq s) statuses ≡ true) ↔ IsAsked scope (some statuses) s
listed_iff scope [] s = (λ h. absurd cc, λ h. absurd h)
listed_iff scope (t ∷ statuses) s = ground (arith, status_eq_iff s t, listed_iff scope statuses s)

module _ (to_yaml : Value → Result Text Yaml) where
  status_allowed-IsAsked :
      (scope : DecisionScope) (statuses : Option (List DecisionStatus)) (m : DecisionMetadata)
      → (status_allowed to_yaml scope statuses (some m) ≡ true)
        ↔ IsAsked scope statuses m.decision_status
  unfolding allows default_statuses
  status_allowed-IsAsked scope (some statuses) m = listed_iff scope statuses m.decision_status
  status_allowed-IsAsked current none m = ground (arith, status_eq_iff m.decision_status adopted)
  status_allowed-IsAsked review none m =
      ground
        (arith, status_eq_iff m.decision_status candidate, status_eq_iff m.decision_status deferred)
  status_allowed-IsAsked historical none m = (λ h. tt, λ h. every m.decision_status)
    where
      every : (s : DecisionStatus) → any (status_eq s) (default_statuses historical) ≡ true
      every candidate = refl
      every adopted = refl
      every rejected = refl
      every deferred = refl
      every superseded = refl

module _ (to_yaml : Value → Result Text Yaml) (scope : DecisionScope)
    (statuses : Option (List DecisionStatus)) where
  -- Whether a node is allowed: it has no metadata of a decision, or its status is asked for.
  pub record IsJudged (node : GraphNode) (id : Text) (allowed : Bool) : Type 0 where
    pub same_id : id ≡ node.id
    pub metadata : Option DecisionMetadata
    pub read : decision_metadata to_yaml node ≡ ok metadata
    pub no_decision : metadata ≡ none → allowed ≡ true
    pub decision :
        (m : DecisionMetadata)
        → metadata ≡ some m
        → (allowed ≡ true) ↔ IsAsked scope statuses m.decision_status

  decision_node_allowed-IsJudged :
      (node : GraphNode) (allowed : Bool)
      → decision_node_allowed to_yaml scope statuses node ≡ ok allowed
      → IsJudged node node.id allowed
  unfolding decision_node_allowed
  decision_node_allowed-IsJudged node allowed done =
      let (metadata, read, made) =
        >>=-eq-ok (decision_metadata to_yaml node)
          (λ m. ok (status_allowed to_yaml scope statuses m)) done in
      let same : status_allowed to_yaml scope statuses metadata ≡ allowed = cc in
      record {
        same_id = refl;
        metadata = metadata;
        read = read;
        no_decision = λ absent. sym same ∙ ap (status_allowed to_yaml scope statuses) absent;
        decision = λ m there.
            subst (λ b. (b ≡ true) ↔ IsAsked scope statuses m.decision_status)
              (ap (status_allowed to_yaml scope statuses) (sym there) ∙ same)
              (status_allowed-IsAsked to_yaml scope statuses m);
      }

  abbrev pub AreJudged : List GraphNode → List (Text × Bool) → Type 0
  AreJudged [] [] = Unit
  AreJudged [] (e ∷ es) = ⊥
  AreJudged (node ∷ nodes) [] = ⊥
  AreJudged (node ∷ nodes) ((id, allowed) ∷ es) = IsJudged node id allowed × AreJudged nodes es

  -- If the metadata of every node can be read, each node in its turn is allowed exactly if it is not a
  -- decision, or if its status is one that the request lists, or, without a list, one of its scope: adopted
  -- for the current one, candidate or deferred for the review, any for the historical one.
  pub allowed_entries-AreJudged :
      (nodes : List GraphNode) (es : List (Text × Bool))
      → allowed_entries to_yaml scope statuses nodes ≡ ok es
      → AreJudged nodes es
  unfolding allowed_entries
  allowed_entries-AreJudged [] [] done = tt
  allowed_entries-AreJudged [] (e ∷ es) done = absurd (nothing done)
    where
      nothing : ◌≡◌ {A = Result EvidenceError (List (Text × Bool))} (ok []) (ok (e ∷ es)) → ⊥
      nothing h = cc
  allowed_entries-AreJudged (node ∷ nodes) es done =
      let (allowed, judged, later) =
        >>=-eq-ok (decision_node_allowed to_yaml scope statuses node)
          (λ allowed.
            allowed_entries to_yaml scope statuses nodes >>= λ rest. ok ((node.id, allowed) ∷ rest))
          done in
      let (rest, others, made) =
        >>=-eq-ok (allowed_entries to_yaml scope statuses nodes)
          (λ rest. ok ((node.id, allowed) ∷ rest)) later in
      let same : ((node.id, allowed) ∷ rest) ≡ es = cc in
      subst (AreJudged (node ∷ nodes)) same (
        decision_node_allowed-IsJudged node allowed judged,
        allowed_entries-AreJudged nodes rest others,
      )
