-- ===== src/Evidence/Graph/Walk/Queue.antt =====
-- crates/agentmesh-evidence/src/graph.rs: what the queue and the paths of the loop hold, and what
-- following the neighbors of a node adds.
use agentmesh_private.Common.{
  ℕ, zero, suc, ◌+◌, ◌*◌, ◌-◌, ◌≤◌, ◌<◌, Text, bytes, Bool, true, false, not, ◌&&◌, Option, none,
  some, List, [], ◌∷◌, length, length-append, take, str_eq, str_eq→eq, str_eq_iff, ltb, All,
  All-append, ◌≡◌, ◌≢◌, refl, ap, ◌∙◌, ◌⊎◌, inl, inr, Bool-cases, arith,
}
use agentmesh_private.Common.Map.{get}
use agentmesh_private.Common.Results.{Result, ok, err}
use agentmesh_private.Evidence.Graph.{
  GraphNode, GraphEdge, EvidenceError, Neighbor, or_empty, Sensitivity, rank, parse_sensitivity,
}
use agentmesh_private.Evidence.Graph.Readers.{label_of, parse_sensitivity-label_of}
use agentmesh_private.Evidence.Graph.Walk.{
  Scene, Walk, is_allowed, or_false, within, follow, follow_all, expand_node, admits,
}

abbrev pub In : {A : Type 0} → A → List A → Type 0
In x [] = ⊥
In x (y ∷ ys) = (x ≡ y) ⊎ In x ys

In-All : {A : Type 0} (P : A → Type 0) (xs : List A) → ((x : A) → In x xs → P x) → All P xs
In-All P [] each = tt
In-All P (x ∷ xs) each = (each x (inl refl), In-All P xs (λ y h. each y (inr h)))

take-All : {A : Type 0} (P : A → Type 0) (n : ℕ) (xs : List A) → All P xs → All P (take n xs)
take-All P zero xs h = tt
take-All P (suc n) [] h = tt
take-All P (suc n) (x ∷ xs) (h, hs) = (h, take-All P n xs hs)

length-take : {A : Type 0} (n : ℕ) (xs : List A) → length (take n xs) ≤ n
length-take zero xs = omega arith
length-take (suc n) [] = omega arith
length-take (suc n) (x ∷ xs) = omega (arith, length-take n xs)

three_true :
    (a b c : Bool)
    → ◌≡◌ {A = Result EvidenceError Bool} (ok (not a && not b && c)) (ok true)
    → (a ≡ false) × (b ≡ false) × (c ≡ true)
three_true false false true h = (refl, refl, refl)
three_true false false false h = absurd cc
three_true false true c h = absurd cc
three_true true b c h = absurd cc

clash : {b : Bool} → b ≡ true → b ≡ false → ⊥
clash yes_ no_ = cc

module _ (scene : Scene) (seeds : List (ℕ × Text)) where
  -- A node is reached in some hops: a seed, or a neighbor of a node that is reached in one hop less.
  pub data Reaches : ℕ → Text → Type 0 where
    seed : (depth : ℕ) (id : Text) → In (depth, id) seeds → Reaches depth id
    hop :
        (depth : ℕ) (id next : Text) (edge : GraphEdge)
        → Reaches depth id
        → In (next, edge) (or_empty (get scene.neighbors id))
        → Reaches (depth + 1) next

  -- The node is in the namespace, at most at the ceiling, not restricted, and of an allowed status.
  pub record IsVisible (id : Text) (node : GraphNode) : Type 0 where
    pub same_namespace : node.namespace ≡ scene.namespace
    pub level : Sensitivity
    pub label : node.sensitivity ≡ label_of level
    pub parsed : parse_sensitivity node.sensitivity ≡ ok level
    pub below : rank level ≤ rank scene.ceiling
    pub open_ : node.sensitivity ≢ bytes "restricted"
    pub allowed : get scene.allowed id ≡ some true

  or_false-true : (b : Option Bool) → or_false b ≡ true → b ≡ some true
  or_false-true none h = absurd cc
  or_false-true (some b) h = ap some h

  pub admits-IsVisible :
      (id : Text) (node : GraphNode) → admits scene id node ≡ ok true → IsVisible id node
  unfolding admits
  admits-IsVisible id node admitted = elim (Bool-cases (str_eq node.namespace scene.namespace)) [
    | inr other ↦ absurd (refusal (rw (other) at admitted))
    | inl same ↦
        by_level (str_eq→eq _ _ same) (parse_sensitivity node.sensitivity) refl
          (rw (same) at admitted)
  ]
    where
      refusal : ◌≡◌ {A = Result EvidenceError Bool} (ok false) (ok true) → ⊥
      refusal h = cc

      by_level :
          node.namespace ≡ scene.namespace
          → (r : Result EvidenceError Sensitivity) → parse_sensitivity node.sensitivity ≡ r
          → within scene node.sensitivity (is_allowed scene id) r ≡ ok true
          → IsVisible id node
      by_level same (err e) parsed h = absurd cc
      by_level same (ok s) parsed h =
          let (low, other, allowed) =
            three_true (ltb (rank scene.ceiling) (rank s))
              (str_eq node.sensitivity (bytes "restricted")) (is_allowed scene id) h in
          let below : rank s ≤ rank scene.ceiling = ground arith in
          record {
            same_namespace = same;
            level = s;
            label = parse_sensitivity-label_of node.sensitivity s parsed;
            parsed = parsed;
            below = below;
            open_ = λ same_label. absurd (clash ((str_eq_iff _ _).1 same_label) other);
            allowed = or_false-true (get scene.allowed id) allowed;
          }

  -- A path is that of a node which the request may see, within the hops.
  pub record IsServed (path : Text) : Type 0 where
    pub id : Text
    pub node : GraphNode
    pub depth : ℕ
    pub found : get scene.nodes id ≡ some node
    pub visible : IsVisible id node
    pub same_path : node.source_path ≡ path
    pub reached : Reaches depth id
    pub near : depth ≤ scene.max_hops

  abbrev pub IsQueued : ℕ × Text → Type 0
  IsQueued (depth, id) = Reaches depth id × (depth ≤ scene.max_hops)

  pub record IsSane (walk : Walk) : Type 0 where
    pub queued : All IsQueued walk.queue
    pub served : All IsServed walk.paths
    pub few_paths : length walk.paths ≤ length walk.visited
    pub few_visited : length walk.visited ≤ scene.max_nodes

  abbrev pub IsFine : Walk → Type 0
  IsFine walk = All IsServed walk.paths × (length walk.paths ≤ scene.max_nodes)

  -- What is still to do at most.
  abbrev pub work : Walk → ℕ
  work walk = length walk.queue + 20 * (scene.max_nodes - length walk.visited)

  -- What following up to n neighbors leaves.
  pub record IsGrown (n : ℕ) (before after : Walk) : Type 0 where
    pub queued : All IsQueued after.queue
    pub longer : length after.queue ≤ length before.queue + n
    pub same_visited : after.visited ≡ before.visited
    pub same_paths : after.paths ≡ before.paths

  follow-IsGrown :
      (depth : ℕ) (node : Option GraphNode) (neighbor : Neighbor) (walk : Walk)
      → IsQueued (depth + 1, neighbor.0)
      → All IsQueued walk.queue
      → IsGrown 1 walk (follow scene depth node neighbor walk)
  unfolding follow
  follow-IsGrown depth none (next, edge) walk new queued = record {
    queued = queued;
    longer = omega arith;
    same_visited = refl;
    same_paths = refl;
  }
  follow-IsGrown depth (some node) (next, edge) walk new queued =
      elim (Bool-cases (is_allowed scene node.id)) [
        | inr other ↦ rw (other) (record {
          queued = queued;
          longer = omega arith;
          same_visited = refl;
          same_paths = refl;
        })
        | inl open_ ↦ rw (open_) (record {
          queued = All-append IsQueued walk.queue ((depth + 1, next) ∷ []) queued (new, tt);
          longer = omega (arith, length-append walk.queue ((depth + 1, next) ∷ []));
          same_visited = refl;
          same_paths = refl;
        })
      ]

  follow_all-IsGrown :
      (depth : ℕ) (ns : List Neighbor) (walk : Walk)
      → All (λ n. IsQueued (depth + 1, n.0)) ns
      → All IsQueued walk.queue
      → IsGrown (length ns) walk (follow_all scene depth ns walk)
  unfolding follow_all
  follow_all-IsGrown depth [] walk new queued = record {
    queued = queued;
    longer = omega arith;
    same_visited = refl;
    same_paths = refl;
  }
  follow_all-IsGrown depth ((next, edge) ∷ ns) walk (new, news) queued =
      let mid = follow scene depth (get scene.nodes next) (next, edge) walk in
      let one = follow-IsGrown depth (get scene.nodes next) (next, edge) walk new queued in
      let rest = follow_all-IsGrown depth ns mid news one.queued in
      record {
        queued = rest.queued;
        longer = omega (arith, one.longer, rest.longer);
        same_visited = rest.same_visited ∙ one.same_visited;
        same_paths = rest.same_paths ∙ one.same_paths;
      }

  pub expand_node-IsGrown :
      (depth : ℕ) (id : Text) (walk : Walk)
      → Reaches depth id
      → depth < scene.max_hops
      → All IsQueued walk.queue
      → IsGrown 20 walk (expand_node scene depth (or_empty (get scene.neighbors id)) walk)
  unfolding expand_node
  expand_node-IsGrown depth id walk reached near queued =
      let ns = or_empty (get scene.neighbors id) in
      let news : All (λ n. IsQueued (depth + 1, n.0)) (take 20 ns) =
        take-All _ 20 ns
          (In-All _ ns λ n there. (hop depth id n.0 n.1 reached there, omega (arith, near))) in
      let grown = follow_all-IsGrown depth (take 20 ns) _ news queued in
      record {
        queued = grown.queued;
        longer = omega (arith, grown.longer, length-take 20 ns);
        same_visited = grown.same_visited;
        same_paths = grown.same_paths;
      }
