-- ===== src/Evidence/Examples.antt =====
-- Runs of the expansion and of the metadata's normalization, and instances of their theorems.
use agentmesh_private.Common.{
  Text, bytes, true, false, none, List, [], ◌∷◌, str_eq, str_le, ◌≡◌, ◌≢◌, refl,
}
use agentmesh_private.Common.Json.{Value, null, string}
use agentmesh_private.Common.Map.{Map, get, insert}
use agentmesh_private.Common.Results.{Result, ok, err}
use agentmesh_private.Host.Framing.Headers.{trim}
use agentmesh_private.Evidence.Decision.{
  candidate, current, Yaml, string, parse_status, normal_codes, normalize_token, scalar_text,
  non_empty, string_list, list_item, allows, default_statuses,
}
use agentmesh_private.Evidence.Decision.Metadata.{
  DecisionMetadata, status_from, checked, checked_kind, check_mode, check_refs, with_status,
  with_kind, with_recorder, with_reviewed, with_mode, with_checked_mode, with_weight,
  normalize_inner,
}
use agentmesh_private.Evidence.Decision.Consistent.{IsConsistent, normalize_inner-IsConsistent}
use agentmesh_private.Evidence.Graph.{
  GraphNode, GraphEdge, Graph, Expansion, EvidenceRequest, out_of_fuel, parse_sensitivity, collect,
  by_id, ids_by_path, push_neighbor, adjacency, neighbor_le, insert_sorted, sort_neighbors,
  frontmatter_of, decision_metadata, decision_node_allowed, allowed_entries,
}
use agentmesh_private.Evidence.Graph.Walk.{
  follow, follow_all, expand_node, admits, judged, at_node, visit, turn, loop, seed_queue, walk_all,
  expand_with_statuses,
}
use agentmesh_private.Evidence.Graph.Readers.{AreJudged, allowed_entries-AreJudged}
use agentmesh_private.Evidence.Graph.Walk.Ends.{
  HasExpanded, expand_with_statuses-HasExpanded, expand_with_statuses-ends,
}

abbrev frontmatter : Map Yaml
frontmatter =
    (bytes "decision_status", string (bytes "Ready "))
    ∷ (bytes "recorded_by", string (bytes "AI"))
    ∷ (bytes "source_refs", string (bytes "chat.md"))
    ∷ []

abbrev metadata : DecisionMetadata
metadata = record {
  decision_status = candidate;
  decision_kind = none;
  recorded_by = bytes "ai";
  review_status = bytes "unreviewed";
  adoption_mode = bytes "candidate";
  impact = bytes "normal";
  source_refs = bytes "chat.md" ∷ [];
  supersedes = [];
}

normalizes : normalize_inner frontmatter true ≡ ok metadata
unfolding normalize_inner with_status with_kind with_recorder with_reviewed with_mode
    with_checked_mode with_weight status_from checked checked_kind check_mode check_refs
    parse_status normal_codes normalize_token scalar_text non_empty string_list list_item trim get
    str_eq
normalizes = refl

normalize_inner-IsConsistent_example : IsConsistent frontmatter true metadata
normalize_inner-IsConsistent_example =
    normalize_inner-IsConsistent frontmatter true metadata normalizes

abbrev node : Text → Text → GraphNode
node id label = record {
  id = id;
  node_type = bytes "Note";
  title = id;
  source_path = id;
  source_hash = bytes "h";
  namespace = bytes "n";
  sensitivity = label;
  extra = [];
}

abbrev edge : Text → Text → GraphEdge
edge from to = record {
  edge_id = from;
  from_id = from;
  to_id = to;
  relation_type = bytes "supports";
  source_path = from;
  source_hash = bytes "h";
  origin = bytes "explicit";
  review_status = bytes "accepted";
}

-- A cycle of three nodes, of which one is private.
abbrev triangle : Graph
triangle = record {
  nodes =
      node (bytes "a") (bytes "public")
      ∷ node (bytes "b") (bytes "internal")
      ∷ node (bytes "c") (bytes "private")
      ∷ [];
  edges =
      edge (bytes "a") (bytes "b")
      ∷ edge (bytes "b") (bytes "c")
      ∷ edge (bytes "c") (bytes "a")
      ∷ [];
}

abbrev request : EvidenceRequest
request = record {
  namespace = bytes "n";
  sensitivity_ceiling = bytes "internal";
  decision_scope = current;
}

abbrev to_yaml : Value → Result Text Yaml
to_yaml v = err (bytes "no metadata")

abbrev expanded : Expansion
expanded = record {
  paths = bytes "a" ∷ bytes "b" ∷ [];
  edges =
      edge (bytes "a") (bytes "b")
      ∷ edge (bytes "b") (bytes "c")
      ∷ edge (bytes "c") (bytes "a")
      ∷ [];
  limited = false;
}

-- The private node is not served; the edges to it are.
expands : expand_with_statuses to_yaml triangle (bytes "a" ∷ []) request 2 8 none ≡ ok expanded
unfolding expand_with_statuses walk_all loop turn visit at_node judged admits expand_node follow_all
    follow seed_queue parse_sensitivity collect by_id ids_by_path push_neighbor adjacency
    neighbor_le insert_sorted sort_neighbors frontmatter_of decision_metadata decision_node_allowed
    allowed_entries get insert str_eq str_le
expands = refl

expand_with_statuses-HasExpanded_example :
    HasExpanded to_yaml triangle (bytes "a" ∷ []) request 2 8 none expanded
expand_with_statuses-HasExpanded_example =
    expand_with_statuses-HasExpanded to_yaml triangle (bytes "a" ∷ []) request 2 8 none expanded
      expands

expand_with_statuses-ends_example :
    expand_with_statuses to_yaml triangle (bytes "a" ∷ []) request 2 8 none ≢ err out_of_fuel
expand_with_statuses-ends_example =
    expand_with_statuses-ends to_yaml triangle (bytes "a" ∷ []) request 2 8 none

-- A candidate, and a note; the scope is the current one.
abbrev proposal : GraphNode
proposal = record (node (bytes "d") (bytes "public")) {
  node_type = bytes "Decision";
  extra = (bytes "decision_status", null) ∷ [];
}

abbrev as_candidate : Value → Result Text Yaml
as_candidate v = ok (string (bytes "candidate"))

abbrev judged_nodes : List GraphNode
judged_nodes = proposal ∷ node (bytes "a") (bytes "public") ∷ []

judges :
    allowed_entries as_candidate current none judged_nodes
    ≡ ok ((bytes "d", false) ∷ (bytes "a", true) ∷ [])
unfolding allowed_entries decision_node_allowed decision_metadata frontmatter_of normalize_inner
    with_status with_kind with_recorder with_reviewed with_mode with_checked_mode with_weight
    status_from checked checked_kind check_mode check_refs parse_status normal_codes normalize_token
    scalar_text non_empty string_list list_item trim get str_eq allows default_statuses
judges = refl

allowed_entries-AreJudged_example :
    AreJudged as_candidate current none judged_nodes ((bytes "d", false) ∷ (bytes "a", true) ∷ [])
allowed_entries-AreJudged_example =
    allowed_entries-AreJudged as_candidate current none judged_nodes
      ((bytes "d", false) ∷ (bytes "a", true) ∷ []) judges
