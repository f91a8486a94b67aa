-- ===== src/Evidence/Graph.antt =====
-- crates/agentmesh-evidence/src/graph.rs: the bounded expansion of a graph, `expand_with_statuses`. The
-- ranks in the queue are left out, since nothing reads them.
pub mod Readers
pub mod Links
pub mod Walk
use agentmesh_private.Common.{
  ℕ, zero, suc, ◌+◌, ◌*◌, Text, bytes, Bool, true, false, not, ◌&&◌, ◌||◌, Option, none, some, List,
  [], ◌∷◌, ◌++◌, any, length, take, str_eq, str_le, ltb, leb, if◌then◌else◌,
}
use agentmesh_private.Common.Json.{Value}
use agentmesh_private.Common.Map.{Map, get, insert}
use agentmesh_private.Common.Results.{Result, ok, err, ◌>>=◌}
use agentmesh_private.Evidence.Decision.{
  DecisionStatus, DecisionScope, DecisionMetadataError, allows, status_eq, Yaml,
}
use agentmesh_private.Evidence.Decision.Metadata.{
  DecisionMetadata, normalize_decision_metadata_for_graph,
}

pub record GraphNode : Type 0 where
  pub id : Text
  pub node_type : Text
  pub title : Text
  pub source_path : Text
  pub source_hash : Text
  pub namespace : Text
  pub sensitivity : Text
  pub extra : Map Value

pub record GraphEdge : Type 0 where
  pub edge_id : Text
  pub from_id : Text
  pub to_id : Text
  pub relation_type : Text
  pub source_path : Text
  pub source_hash : Text
  pub origin : Text
  pub review_status : Text

-- The parts of a snapshot that the expansion reads.
pub record Graph : Type 0 where
  pub nodes : List GraphNode
  pub edges : List GraphEdge

pub record Expansion : Type 0 where
  pub paths : List Text
  pub edges : List GraphEdge
  pub limited : Bool

-- The errors that an expansion can report, by their condition.
pub data EvidenceError : Type 0 where
  unknown_sensitivity : Text → EvidenceError
  not_yaml : Text → EvidenceError
  bad_metadata : DecisionMetadataError → EvidenceError

-- What ends the loop early: an error of the source, or the fuel of the model.
pub data Fault : Type 0 where
  reported : EvidenceError → Fault
  out_of_fuel : Fault

pub data Sensitivity : Type 0 where
  public internal private_ restricted : Sensitivity

-- The derived order.
abbrev pub rank : Sensitivity → ℕ
rank public = 0
rank internal = 1
rank private_ = 2
rank restricted = 3

unfoldable pub parse_sensitivity : Text → Result EvidenceError Sensitivity
parse_sensitivity value =
    if str_eq value (bytes "public")
    then ok public
    else if str_eq value (bytes "internal")
    then ok internal
    else if str_eq value (bytes "private")
    then ok private_
    else if str_eq value (bytes "restricted")
    then ok restricted
    else err (unknown_sensitivity value)

-- The fields of `EvidenceRequest` that the expansion reads.
pub record EvidenceRequest : Type 0 where
  pub namespace : Text
  pub sensitivity_ceiling : Text
  pub decision_scope : DecisionScope

-- `iter().map(..).collect()` into a map: a later entry replaces an earlier one of the same key.
unfoldable pub collect : {V : Type 0} → List (Text × V) → Map V → Map V
collect [] m = m
collect ((k, v) ∷ kvs) m = collect kvs (insert k v m)

unfoldable pub by_id : List GraphNode → List (Text × GraphNode)
by_id [] = []
by_id (n ∷ ns) = (n.id, n) ∷ by_id ns

unfoldable pub ids_by_path : List GraphNode → List (Text × Text)
ids_by_path [] = []
ids_by_path (n ∷ ns) = (n.source_path, n.id) ∷ ids_by_path ns

abbrev pub node_map : Graph → Map GraphNode
node_map graph = collect (by_id graph.nodes) []

abbrev pub Neighbor : Type 0
Neighbor = Text × GraphEdge

abbrev pub or_empty : Option (List Neighbor) → List Neighbor
or_empty none = []
or_empty (some ns) = ns

-- `adjacency.entry(id).or_default().push(neighbor)`.
unfoldable pub push_neighbor : Text → Neighbor → Map (List Neighbor) → Map (List Neighbor)
push_neighbor id neighbor m = insert id (or_empty (get m id) ++ neighbor ∷ []) m

abbrev pub is_skipped : GraphEdge → Bool
is_skipped edge =
    str_eq edge.relation_type (bytes "documents") || str_eq edge.relation_type (bytes "references")

unfoldable pub adjacency : List GraphEdge → Map (List Neighbor) → Map (List Neighbor)
adjacency [] m = m
adjacency (edge ∷ edges) m =
    if is_skipped edge
    then adjacency edges m
    else adjacency edges (
        push_neighbor edge.to_id (edge.from_id, edge)
          (push_neighbor edge.from_id (edge.to_id, edge) m))

-- The order of `sort_by_key` on the identifier and the edge's identifier.
unfoldable pub neighbor_le : Neighbor → Neighbor → Bool
neighbor_le (i, e) (j, f) = if str_eq i j then str_le e.edge_id f.edge_id else str_le i j

unfoldable pub insert_sorted : Neighbor → List Neighbor → List Neighbor
insert_sorted n [] = n ∷ []
insert_sorted n (m ∷ ms) =
    let rest = insert_sorted n ms in if neighbor_le n m then n ∷ m ∷ ms else m ∷ rest

unfoldable pub sort_neighbors : List Neighbor → List Neighbor
sort_neighbors [] = []
sort_neighbors (n ∷ ns) = insert_sorted n (sort_neighbors ns)

-- `serde_yaml::to_value` on each entry of a node's metadata.
module _ (to_yaml : Value → Result Text Yaml) where
  unfoldable pub frontmatter_of : Map Value → Result EvidenceError (Map Yaml)
  frontmatter_of [] = ok []
  frontmatter_of ((k, v) ∷ kvs) = elim (to_yaml v) [
    | err e ↦ err (not_yaml e)
    | ok y ↦ frontmatter_of kvs >>= λ rest. ok ((k, y) ∷ rest)
  ]

  abbrev pub metadata_error :
      Result DecisionMetadataError DecisionMetadata → Result EvidenceError (Option DecisionMetadata)
  metadata_error (ok m) = ok (some m)
  metadata_error (err e) = err (bad_metadata e)

  unfoldable pub decision_metadata : GraphNode → Result EvidenceError (Option DecisionMetadata)
  decision_metadata node =
      if not (str_eq node.node_type (bytes "Decision"))
      then ok none
      else (frontmatter_of node.extra >>= λ fm.
          metadata_error (normalize_decision_metadata_for_graph fm))

  abbrev pub status_allowed :
      DecisionScope → Option (List DecisionStatus) → Option DecisionMetadata → Bool
  status_allowed scope statuses none = true
  status_allowed scope none (some m) = allows scope m.decision_status
  status_allowed scope (some statuses) (some m) = any (status_eq m.decision_status) statuses

  unfoldable pub decision_node_allowed :
      DecisionScope → Option (List DecisionStatus) → GraphNode → Result EvidenceError Bool
  decision_node_allowed scope statuses node =
      decision_metadata node >>= λ m. ok (status_allowed scope statuses m)

  -- The list behind `allowed_nodes`, up to the first error.
  unfoldable pub allowed_entries :
      DecisionScope
      → Option (List DecisionStatus)
      → List GraphNode
      → Result EvidenceError (List (Text × Bool))
  allowed_entries scope statuses [] = ok []
  allowed_entries scope statuses (n ∷ ns) = decision_node_allowed scope statuses n >>= λ allowed.
      (allowed_entries scope statuses ns >>= λ rest. ok ((n.id, allowed) ∷ rest))
