-- ===== src/Evidence/Graph/Walk.antt =====
-- crates/agentmesh-evidence/src/graph.rs: the loop of `expand_with_statuses`. A turn is one `pop_front`;
-- a turn costs a unit of fuel.
pub mod Queue
pub mod Turns
pub mod Ends
use agentmesh_private.Common.{
  ℕ, zero, suc, ◌+◌, ◌*◌, Text, bytes, Bool, true, false, not, ◌&&◌, ◌||◌, Option, none, some, List,
  [], ◌∷◌, ◌++◌, map, any, length, take, str_eq, ltb, leb, if◌then◌else◌,
}
use agentmesh_private.Common.Json.{Value}
use agentmesh_private.Common.Map.{Map, get, insert}
use agentmesh_private.Common.Results.{Result, ok, err, ◌>>=◌}
use agentmesh_private.Evidence.Decision.{DecisionStatus, Yaml}
use agentmesh_private.Evidence.Graph.{
  GraphNode, GraphEdge, Graph, Expansion, EvidenceError, Fault, reported, out_of_fuel,
  EvidenceRequest, Sensitivity, rank, parse_sensitivity, collect, ids_by_path, node_map, Neighbor,
  or_empty, adjacency, sort_neighbors, allowed_entries,
}

-- What the loop reads and does not change.
pub record Scene : Type 0 where
  pub nodes : Map GraphNode
  pub neighbors : Map (List Neighbor)
  pub allowed : Map Bool
  pub namespace : Text
  pub ceiling : Sensitivity
  pub max_hops : ℕ
  pub max_nodes : ℕ

-- The variables of the loop; an entry of the queue is its depth and the identifier of a node.
pub record Walk : Type 0 where
  pub queue : List (ℕ × Text)
  pub visited : List Text
  pub paths : List Text
  pub edges : Map GraphEdge
  pub limited : Bool

pub data Turn : Type 0 where
  done again : Walk → Turn
  refused : EvidenceError → Turn

-- The loop goes on with `more`.
abbrev pub proceed : Turn → (Walk → Result Fault Walk) → Result Fault Walk
proceed (done walk) more = ok walk
proceed (again walk) more = more walk
proceed (refused e) more = err (reported e)

-- `get(..).copied().unwrap_or(false)`.
abbrev pub or_false : Option Bool → Bool
or_false none = false
or_false (some b) = b

-- `entry(edge_id).or_insert_with(..)`.
abbrev pub or_insert : Option GraphEdge → GraphEdge → Map GraphEdge → Map GraphEdge
or_insert none edge m = insert edge.edge_id edge m
or_insert (some old) edge m = m

module _ (scene : Scene) where
  abbrev pub is_allowed : Text → Bool
  is_allowed id = or_false (get scene.allowed id)

  unfoldable pub follow : ℕ → Option GraphNode → Neighbor → Walk → Walk
  follow depth none (next, edge) walk = walk
  follow depth (some node) (next, edge) walk =
      if is_allowed node.id
      then record walk {
        queue = walk.queue ++ (depth + 1, next) ∷ [];
        edges = or_insert (get walk.edges edge.edge_id) edge walk.edges;
      }
      else walk

  unfoldable pub follow_all : ℕ → List Neighbor → Walk → Walk
  follow_all depth [] walk = walk
  follow_all depth ((next, edge) ∷ ns) walk =
      follow_all depth ns (follow depth (get scene.nodes next) (next, edge) walk)

  -- At most 20 neighbors of a node are followed.
  unfoldable pub expand_node : ℕ → List Neighbor → Walk → Walk
  expand_node depth neighbors walk =
      follow_all depth (take 20 neighbors)
        (record walk { limited = if ltb 20 (length neighbors) then true else walk.limited })

  abbrev pub within : Text → Bool → Result EvidenceError Sensitivity → Result EvidenceError Bool
  within label open_ (err e) = err e
  within label open_ (ok s) =
      ok (
        not (ltb (rank scene.ceiling) (rank s)) && not (str_eq label (bytes "restricted")) && open_)

  -- The condition for a path; the sensitivity is parsed only in the namespace.
  unfoldable pub admits : Text → GraphNode → Result EvidenceError Bool
  admits id node =
      if not (str_eq node.namespace scene.namespace)
      then ok false
      else within node.sensitivity (is_allowed id) (parse_sensitivity node.sensitivity)

  unfoldable pub judged : ℕ → Text → GraphNode → Result EvidenceError Bool → Walk → Turn
  judged depth id node (err e) walk = refused e
  judged depth id node (ok false) walk = again walk
  judged depth id node (ok true) walk =
      let kept = record walk { paths = walk.paths ++ node.source_path ∷ [] } in
      if leb scene.max_hops depth
      then again kept
      else again (expand_node depth (or_empty (get scene.neighbors id)) kept)

  unfoldable pub at_node : ℕ → Text → Option GraphNode → Walk → Turn
  at_node depth id none walk = again walk
  at_node depth id (some node) walk = judged depth id node (admits id node) walk

  -- The body of the loop on an entry; `walk` has the rest of the queue.
  unfoldable pub visit : ℕ → Text → Walk → Turn
  visit depth id walk =
      if any (str_eq id) walk.visited
      then again walk
      else (let entered = record walk { visited = id ∷ walk.visited } in
          if ltb scene.max_nodes (length entered.visited)
          then done (record entered { limited = true })
          else at_node depth id (get scene.nodes id) entered)

  unfoldable pub turn : List (ℕ × Text) → Walk → Turn
  turn [] walk = done walk
  turn ((depth, id) ∷ queue) walk = visit depth id (record walk { queue = queue })

  unfoldable pub loop : ℕ → Walk → Result Fault Walk
  loop zero walk = err out_of_fuel
  loop (suc f) walk = proceed (turn walk.queue walk) (λ next. loop f next)

-- `queue.push_back` of the seeds that are paths of nodes.
unfoldable pub seed_queue : Map Text → List Text → List (ℕ × Text)
seed_queue by_path [] = []
seed_queue by_path (seed ∷ seeds) = elim (get by_path seed) [
  | none ↦ seed_queue by_path seeds
  | some id ↦ (0, id) ∷ seed_queue by_path seeds
]

abbrev pub sorted_lists : Map (List Neighbor) → Map (List Neighbor)
sorted_lists m = map (λ (id, ns). (id, sort_neighbors ns)) m

abbrev values : Map GraphEdge → List GraphEdge
values m = map (λ (id, edge). edge) m

abbrev pub lift {ℓ} : {A : Type ℓ} → Result EvidenceError A → Result Fault A
lift (ok a) = ok a
lift (err e) = err (reported e)

abbrev pub expansion : Walk → Expansion
expansion walk = record { paths = walk.paths; edges = values walk.edges; limited = walk.limited }

abbrev pub start : List (ℕ × Text) → Walk
start queue = record { queue = queue; visited = []; paths = []; edges = []; limited = false }

-- The fuel: a turn for each seed, and for each of 20 neighbors of each visited node.
abbrev pub fuel_for : ℕ → ℕ → ℕ
fuel_for seeds max_nodes = seeds + 20 * max_nodes + 1

abbrev pub scene_of : Graph → EvidenceRequest → ℕ → ℕ → List (Text × Bool) → Sensitivity → Scene
scene_of graph request max_hops max_nodes entries ceiling = record {
  nodes = node_map graph;
  neighbors = sorted_lists (adjacency graph.edges []);
  allowed = collect entries [];
  namespace = request.namespace;
  ceiling = ceiling;
  max_hops = max_hops;
  max_nodes = max_nodes;
}

unfoldable pub walk_all : Scene → List (ℕ × Text) → Result Fault Expansion
walk_all scene queue =
    loop scene (fuel_for (length queue) scene.max_nodes) (start queue) >>= λ walk.
    ok (expansion walk)

unfoldable pub expand_with_statuses :
    (Value → Result Text Yaml)
    → Graph
    → List Text
    → EvidenceRequest
    → ℕ
    → ℕ
    → Option (List DecisionStatus)
    → Result Fault Expansion
expand_with_statuses to_yaml graph seeds request max_hops max_nodes statuses =
    lift (allowed_entries to_yaml request.decision_scope statuses graph.nodes) >>= λ entries.
    (lift (parse_sensitivity request.sensitivity_ceiling) >>= λ ceiling.
    walk_all (scene_of graph request max_hops max_nodes entries ceiling)
      (seed_queue (collect (ids_by_path graph.nodes) []) seeds))
