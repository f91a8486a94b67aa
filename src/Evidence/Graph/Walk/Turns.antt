-- ===== src/Evidence/Graph/Walk/Turns.antt =====
-- crates/agentmesh-evidence/src/graph.rs: what a turn of the loop keeps.
use agentmesh_private.Common.{
  ℕ, suc, ◌+◌, ◌≤◌, ◌<◌, Text, Bool, true, false, Option, none, some, List, [], ◌∷◌, ◌++◌, any,
  length, length-append, str_eq, ltb, leb, All, All-append, ◌≡◌, refl, sym, ap, subst, inl, inr,
  Bool-cases, arith,
}
use agentmesh_private.Common.Map.{get}
use agentmesh_private.Common.Results.{Result, ok, err}
use agentmesh_private.Evidence.Graph.{GraphNode, EvidenceError}
use agentmesh_private.Evidence.Graph.Walk.{
  Scene, Walk, Turn, done, again, refused, admits, judged, at_node, visit, turn,
}
use agentmesh_private.Evidence.Graph.Walk.Queue.{
  IsServed, IsQueued, IsSane, IsFine, work, admits-IsVisible, expand_node-IsGrown,
}

module _ (scene : Scene) (seeds : List (ℕ × Text)) where
  -- Where a turn leads, with a bound on the work scene seeds that is left.
  abbrev pub Leaves : ℕ → Turn → Type 0
  Leaves bound (done walk) = IsFine scene seeds walk
  Leaves bound (again walk) = IsSane scene seeds walk × (work scene seeds walk ≤ bound)
  Leaves bound (refused e) = Unit

  -- A walk that has just entered a node.
  record IsEntered (walk : Walk) : Type 0 where
    queued : All (IsQueued scene seeds) walk.queue
    served : All (IsServed scene seeds) walk.paths
    fewer_paths : length walk.paths + 1 ≤ length walk.visited
    few_visited : length walk.visited ≤ scene.max_nodes

  passed-Leaves : (walk : Walk) → IsEntered walk → Leaves (work scene seeds walk + 20) (again walk)
  passed-Leaves walk e = (
    record {
      queued = e.queued;
      served = e.served;
      few_paths = omega (arith, e.fewer_paths);
      few_visited = e.few_visited;
    },
    omega arith,
  )

  module _ (depth : ℕ) (id : Text) (is_queued : IsQueued scene seeds (depth, id)) (node : GraphNode)
      (found : get scene.nodes id ≡ some node) where
    kept_of : Walk → Walk
    kept_of walk = record walk { paths = walk.paths ++ node.source_path ∷ [] }

    kept_of-IsSane :
        (walk : Walk)
        → IsEntered walk
        → admits scene id node ≡ ok true
        → IsSane scene seeds (kept_of walk)
    unfolding kept_of
    kept_of-IsSane walk e admitted = record {
      queued = e.queued;
      served = All-append (IsServed scene seeds) walk.paths (node.source_path ∷ []) e.served (
        record {
          id = id;
          node = node;
          depth = depth;
          found = found;
          visible = admits-IsVisible scene seeds id node admitted;
          same_path = refl;
          reached = is_queued.0;
          near = is_queued.1;
        },
        tt,
      );
      few_paths = omega (arith, e.fewer_paths, length-append walk.paths (node.source_path ∷ []));
      few_visited = e.few_visited;
    }

    judged-Leaves :
        (verdict : Result EvidenceError Bool) (walk : Walk)
        → IsEntered walk
        → admits scene id node ≡ verdict
        → Leaves (work scene seeds walk + 20) (judged scene depth id node verdict walk)
    unfolding judged kept_of
    judged-Leaves (err e) walk entered same = tt
    judged-Leaves (ok false) walk entered same = passed-Leaves walk entered
    judged-Leaves (ok true) walk entered same = elim (Bool-cases (leb scene.max_hops depth)) [
      | inl far ↦ rw (far) (kept_of-IsSane walk entered same, omega arith)
      | inr near ↦
          let sane = kept_of-IsSane walk entered same in
          let near' : depth < scene.max_hops = ground arith in
          let grown =
            expand_node-IsGrown scene seeds depth id (kept_of walk) is_queued.0 near' sane.queued in
          rw (near) (
            record {
              queued = grown.queued;
              served = subst (All (IsServed scene seeds)) (sym grown.same_paths) sane.served;
              few_paths =
                  omega (
                    arith,
                    ap length grown.same_paths,
                    ap length grown.same_visited,
                    sane.few_paths,
                  );
              few_visited = omega (arith, ap length grown.same_visited, sane.few_visited);
            },
            omega (arith, ap length grown.same_visited, grown.longer),
          )
    ]

  at_node-Leaves :
      (depth : ℕ) (id : Text) (node : Option GraphNode) (walk : Walk)
      → IsQueued scene seeds (depth, id)
      → IsEntered walk
      → get scene.nodes id ≡ node
      → Leaves (work scene seeds walk + 20) (at_node scene depth id node walk)
  unfolding at_node
  at_node-Leaves depth id none walk queued entered found = passed-Leaves walk entered
  at_node-Leaves depth id (some node) walk queued entered found =
      judged-Leaves depth id queued node found (admits scene id node) walk entered refl

  Leaves-weaken : (m n : ℕ) (t : Turn) → m ≤ n → Leaves m t → Leaves n t
  Leaves-weaken m n (done walk) less fine = fine
  Leaves-weaken m n (again walk) less (sane, bound) = (sane, omega (arith, bound, less))
  Leaves-weaken m n (refused e) less t = tt

  visit-Leaves :
      (depth : ℕ) (id : Text) (walk : Walk)
      → IsQueued scene seeds (depth, id)
      → IsSane scene seeds walk
      → Leaves (work scene seeds walk) (visit scene depth id walk)
  unfolding visit
  visit-Leaves depth id walk queued sane = elim (Bool-cases (any (str_eq id) walk.visited)) [
    | inl seen ↦ rw (seen) (sane, omega arith)
    | inr new ↦ elim (Bool-cases (ltb scene.max_nodes (suc (length walk.visited)))) [
      | inl full ↦ rw (new, full) (sane.served, omega (arith, sane.few_paths, sane.few_visited))
      | inr room ↦
          let fits : suc (length walk.visited) ≤ scene.max_nodes = ground arith in
          rw (new, room)
            (Leaves-weaken _ _ _ (omega (arith, fits)) (
              at_node-Leaves depth id (get scene.nodes id)
                (record walk { visited = id ∷ walk.visited }) queued
                (record {
                  queued = sane.queued;
                  served = sane.served;
                  fewer_paths = omega (arith, sane.few_paths);
                  few_visited = fits;
                })
                refl))
    ]
  ]

  abbrev pub LeavesLess : ℕ → Turn → Type 0
  LeavesLess bound (done walk) = IsFine scene seeds walk
  LeavesLess bound (again walk) = IsSane scene seeds walk × (work scene seeds walk < bound)
  LeavesLess bound (refused e) = Unit

  Leaves-LeavesLess : (m n : ℕ) (t : Turn) → m < n → Leaves m t → LeavesLess n t
  Leaves-LeavesLess m n (done walk) less fine = fine
  Leaves-LeavesLess m n (again walk) less (sane, bound) = (sane, omega (arith, bound, less))
  Leaves-LeavesLess m n (refused e) less t = tt

  pub LeavesLess-weaken : (m n : ℕ) (t : Turn) → m ≤ n → LeavesLess m t → LeavesLess n t
  LeavesLess-weaken m n (done walk) less fine = fine
  LeavesLess-weaken m n (again walk) less (sane, bound) = (sane, omega (arith, bound, less))
  LeavesLess-weaken m n (refused e) less t = tt

  -- A turn of a sane walk stops in a fine one, or leaves a sane one with less work.
  pub turn-LeavesLess :
      (walk : Walk)
      → IsSane scene seeds walk
      → LeavesLess (work scene seeds walk) (turn scene walk.queue walk)
  unfolding turn
  turn-LeavesLess walk sane = by_queue walk.queue sane.queued refl
    where
      by_queue :
          (queue : List (ℕ × Text))
          → All (IsQueued scene seeds) queue
          → walk.queue ≡ queue
          → LeavesLess (work scene seeds walk) (turn scene queue walk)
      by_queue [] queued same = (sane.served, omega (arith, sane.few_paths, sane.few_visited))
      by_queue ((depth, id) ∷ queue) (here, queued) same =
          Leaves-LeavesLess (work scene seeds (record walk { queue = queue }))
            (work scene seeds walk) (visit scene depth id (record walk { queue = queue }))
            (omega (arith, ap length same))
            (visit-Leaves depth id (record walk { queue = queue }) here
              (record {
                queued = queued;
                served = sane.served;
                few_paths = sane.few_paths;
                few_visited = sane.few_visited;
              }))
