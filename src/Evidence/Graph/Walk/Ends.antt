-- ===== src/Evidence/Graph/Walk/Ends.antt =====
-- crates/agentmesh-evidence/src/graph.rs: the whole of `expand_with_statuses`.
use agentmesh_private.Common.{
  ℕ, zero, suc, ◌≤◌, ◌<◌, Text, Bool, Option, none, some, List, [], ◌∷◌, length, All, ◌≡◌, ◌≢◌,
  refl, subst, inl, inr, arith,
}
use agentmesh_private.Common.Json.{Value}
use agentmesh_private.Common.Map.{Map, get}
use agentmesh_private.Common.Results.{Result, ok, err, ◌>>=◌}
use agentmesh_private.Evidence.Decision.{DecisionStatus, Yaml}
use agentmesh_private.Evidence.Graph.{
  Graph, Expansion, EvidenceRequest, EvidenceError, Fault, reported, out_of_fuel, Sensitivity,
  parse_sensitivity, collect, ids_by_path, allowed_entries, GraphEdge, or_empty,
}
use agentmesh_private.Evidence.Graph.Walk.{
  Scene, Walk, Turn, done, again, refused, turn, proceed, loop, seed_queue, lift, start, fuel_for,
  scene_of, walk_all, expand_with_statuses,
}
use agentmesh_private.Evidence.Graph.Walk.Queue.{In, seed, IsServed, IsQueued, IsSane, IsFine, work}
use agentmesh_private.Evidence.Graph.Readers.{
  label_of, parse_sensitivity-label_of, AreJudged, allowed_entries-AreJudged,
}
use agentmesh_private.Evidence.Graph.Links.{IsLink, neighbors-IsLink}
use agentmesh_private.Evidence.Graph.Walk.Turns.{LeavesLess, LeavesLess-weaken, turn-LeavesLess}

-- A result that the fuel did not cut off, with a predicate on a success.
abbrev pub Meets : {A : Type 0} → (A → Type 0) → Result Fault A → Type 0
Meets Good (ok a) = Good a
Meets Good (err (reported e)) = Unit
Meets Good (err out_of_fuel) = ⊥

Meets-bind :
    {A B : Type 0} (Mid : A → Type 0) (Good : B → Type 0) (r : Result Fault A)
    (next : A → Result Fault B)
    → Meets Mid r
    → ((a : A) → r ≡ ok a → Mid a → Meets Good (next a))
    → Meets Good (r >>= next)
Meets-bind Mid Good (ok a) next here there = there a refl here
Meets-bind Mid Good (err (reported e)) next here there = tt
Meets-bind Mid Good (err out_of_fuel) next here there = here

module _ (scene : Scene) (seeds : List (ℕ × Text)) where
  proceed-Meets :
      (f : ℕ) (t : Turn)
      → LeavesLess scene seeds f t
      → ((walk : Walk)
          → IsSane scene seeds walk
          → work scene seeds walk < f
          → Meets (IsFine scene seeds) (loop scene f walk))
      → Meets (IsFine scene seeds) (proceed t (λ next. loop scene f next))
  proceed-Meets f (done walk) fine later = fine
  proceed-Meets f (again walk) (sane, less) later = later walk sane less
  proceed-Meets f (refused e) t later = tt

  loop-Meets :
      (fuel : ℕ) (walk : Walk)
      → IsSane scene seeds walk
      → work scene seeds walk < fuel
      → Meets (IsFine scene seeds) (loop scene fuel walk)
  unfolding loop
  loop-Meets zero walk sane less = absurd (omega (arith, less))
  loop-Meets (suc f) walk sane less =
      proceed-Meets f (turn scene walk.queue walk)
        (LeavesLess-weaken scene seeds (work scene seeds walk) f _ (omega (arith, less))
          (turn-LeavesLess scene seeds walk sane))
        (λ next sane' less'. loop-Meets f next sane' less')

  -- The expansion serves only nodes that the request may see, and at most `max_nodes` of them.
  pub record IsBounded (x : Expansion) : Type 0 where
    pub served : All (IsServed scene seeds) x.paths
    pub few : length x.paths ≤ scene.max_nodes

  walk_all-Meets : All (IsQueued scene seeds) seeds → Meets IsBounded (walk_all scene seeds)
  unfolding walk_all
  walk_all-Meets queued =
      Meets-bind (IsFine scene seeds) IsBounded
        (loop scene (fuel_for (length seeds) scene.max_nodes) (start seeds)) _
        (loop-Meets (fuel_for (length seeds) scene.max_nodes) (start seeds)
          (record {
            queued = queued;
            served = tt;
            few_paths = omega arith;
            few_visited = omega arith;
          })
          (omega arith))
        λ walk _ fine. record { served = fine.0; few = fine.1 }

seed_queue-zero :
    (by_path : Map Text) (seeds : List Text) → All (λ e. e.0 ≡ 0) (seed_queue by_path seeds)
unfolding seed_queue
seed_queue-zero by_path [] = tt
seed_queue-zero by_path (s ∷ seeds) =
    elim (get by_path s)
      as (λ o.
        All (λ e. e.0 ≡ 0)
          (elim o [
            | none ↦ seed_queue by_path seeds
            | some id ↦ (0, id) ∷ seed_queue by_path seeds
          ])) [
            | none ↦ seed_queue-zero by_path seeds
            | some id ↦ (refl, seed_queue-zero by_path seeds)
          ]

-- Entries at depth 0 that are among the seeds can be in the queue.
seeds-IsQueued :
    (scene : Scene) (seeds entries : List (ℕ × Text))
    → ((e : ℕ × Text) → In e entries → In e seeds)
    → All (λ e. e.0 ≡ 0) entries
    → All (IsQueued scene seeds) entries
seeds-IsQueued scene seeds [] among zeros = tt
seeds-IsQueued scene seeds ((depth, id) ∷ entries) among (zero_depth, zeros) = (
  (seed depth id (among (depth, id) (inl refl)), omega (arith, zero_depth)),
  seeds-IsQueued scene seeds entries (λ e there. among e (inr there)) zeros,
)

module _ (to_yaml : Value → Result Text Yaml) (graph : Graph) (seeds : List Text)
    (request : EvidenceRequest) (max_hops max_nodes : ℕ)
    (statuses : Option (List DecisionStatus)) where
  abbrev pub queue_of : List (ℕ × Text)
  queue_of = seed_queue (collect (ids_by_path graph.nodes) []) seeds

  -- What an expansion is: of statuses and of a ceiling that were read, of links that are edges, and bounded.
  pub record HasExpanded (x : Expansion) : Type 0 where
    pub entries : List (Text × Bool)
    pub ceiling : Sensitivity
    pub got_entries :
        allowed_entries to_yaml request.decision_scope statuses graph.nodes ≡ ok entries
    pub judged : AreJudged to_yaml request.decision_scope statuses graph.nodes entries
    pub got_ceiling : parse_sensitivity request.sensitivity_ceiling ≡ ok ceiling
    pub ceiling_label : request.sensitivity_ceiling ≡ label_of ceiling
    pub linked :
        (id next : Text) (edge : GraphEdge)
        → In
            (next, edge)
            (or_empty
              (get (scene_of graph request max_hops max_nodes entries ceiling).neighbors id))
        → IsLink graph.edges id next edge
    pub bounded : IsBounded (scene_of graph request max_hops max_nodes entries ceiling) queue_of x

  lift-Meets : {A : Type 0} (r : Result EvidenceError A) → Meets (λ a. r ≡ ok a) (lift r)
  lift-Meets (ok a) = refl
  lift-Meets (err e) = tt

  Meets-map :
      {A : Type 0} (P Q : A → Type 0) (r : Result Fault A)
      → ((a : A) → P a → Q a)
      → Meets P r
      → Meets Q r
  Meets-map P Q (ok a) f h = f a h
  Meets-map P Q (err (reported e)) f h = tt
  Meets-map P Q (err out_of_fuel) f h = h

  expand_with_statuses-Meets :
      Meets HasExpanded
        (expand_with_statuses to_yaml graph seeds request max_hops max_nodes statuses)
  unfolding expand_with_statuses
  expand_with_statuses-Meets =
      Meets-bind _ HasExpanded
        (lift (allowed_entries to_yaml request.decision_scope statuses graph.nodes)) _
        (lift-Meets (allowed_entries to_yaml request.decision_scope statuses graph.nodes))
        λ entries _ got_entries.
          Meets-bind _ HasExpanded (lift (parse_sensitivity request.sensitivity_ceiling)) _
            (lift-Meets (parse_sensitivity request.sensitivity_ceiling))
            λ ceiling _ got_ceiling.
              Meets-map _ HasExpanded
                (walk_all (scene_of graph request max_hops max_nodes entries ceiling) queue_of)
                (λ x bounded. record {
                  entries = entries;
                  ceiling = ceiling;
                  got_entries = got_entries;
                  judged =
                      allowed_entries-AreJudged to_yaml request.decision_scope statuses graph.nodes
                        entries got_entries;
                  got_ceiling = got_ceiling;
                  ceiling_label =
                      parse_sensitivity-label_of request.sensitivity_ceiling ceiling got_ceiling;
                  linked = neighbors-IsLink graph.edges;
                  bounded = bounded;
                })
                (walk_all-Meets (scene_of graph request max_hops max_nodes entries ceiling) queue_of
                  (seeds-IsQueued _ queue_of queue_of (λ e there. there)
                    (seed_queue-zero (collect (ids_by_path graph.nodes) []) seeds)))

  -- An expansion that is returned serves only paths of nodes that are in the request's namespace, at most
  -- at its ceiling, not restricted, and of an allowed status, and that links reach from a seed within
  -- `max_hops`; it serves at most `max_nodes` paths. A status is allowed if the request lists it or, without
  -- a list, if it is one of its scope; a link is an edge of the graph, in either direction, that is neither
  -- of the relation "documents" nor of "references"; a level is that of its label.
  pub expand_with_statuses-HasExpanded :
      (x : Expansion)
      → expand_with_statuses to_yaml graph seeds request max_hops max_nodes statuses ≡ ok x
      → HasExpanded x
  expand_with_statuses-HasExpanded x expanded =
      subst (Meets HasExpanded) expanded expand_with_statuses-Meets

  -- The loop of the expansion ends, whatever the relations are, cycles among them: it takes at most a
  -- turn for each seed and for each of 20 neighbors of `max_nodes` nodes.
  pub expand_with_statuses-ends :
      expand_with_statuses to_yaml graph seeds request max_hops max_nodes statuses ≢ err out_of_fuel
  expand_with_statuses-ends stuck = subst (Meets HasExpanded) stuck expand_with_statuses-Meets
