-- ===== src/Evidence/Graph/Links.antt =====
-- crates/agentmesh-evidence/src/graph.rs: the neighbors that `expand_with_statuses` takes from the edges.
use agentmesh_private.Common.{
  Text, bytes, false, some, List, [], ◌∷◌, ◌++◌, str_eq, str_eq→eq, str_eq_iff, ◌≡◌, ◌≢◌, ◌⊎◌, refl,
  sym, ap, subst, inl, inr, Bool-cases, arith, if◌then◌else◌,
}
use agentmesh_private.Common.Map.{Map, get, get-insert}
use agentmesh_private.Evidence.Graph.{
  GraphEdge, Neighbor, or_empty, push_neighbor, is_skipped, adjacency, neighbor_le, insert_sorted,
  sort_neighbors,
}
use agentmesh_private.Evidence.Graph.Walk.{sorted_lists}
use agentmesh_private.Evidence.Graph.Walk.Queue.{In}

-- An edge of the list, of a relation that is followed, has the node at one end and the neighbor at the
-- other.
pub record IsLink (edges : List GraphEdge) (id next : Text) (edge : GraphEdge) : Type 0 where
  pub listed : In edge edges
  pub no_document : edge.relation_type ≢ bytes "documents"
  pub no_reference : edge.relation_type ≢ bytes "references"
  pub ends :
      ((edge.from_id ≡ id) × (edge.to_id ≡ next)) ⊎ ((edge.to_id ≡ id) × (edge.from_id ≡ next))

abbrev At : Map (List Neighbor) → Text → Neighbor → Type 0
At m id n = In n (or_empty (get m id))

In-append : {A : Type 0} (x : A) (xs ys : List A) → In x (xs ++ ys) → In x xs ⊎ In x ys
In-append x [] ys there = inr there
In-append x (z ∷ xs) ys (inl here) = inl (inl here)
In-append x (z ∷ xs) ys (inr there) = elim (In-append x xs ys there) [
  | inl before ↦ inl (inr before)
  | inr behind ↦ inr behind
]

push_neighbor-At :
    (k id : Text) (x n : Neighbor) (m : Map (List Neighbor))
    → At (push_neighbor k x m) id n
    → At m id n ⊎ ((k ≡ id) × (n ≡ x))
unfolding push_neighbor
push_neighbor-At k id x n m there =
    let pushed : In n
        (or_empty (if str_eq k id then some (or_empty (get m k) ++ x ∷ []) else get m id)) =
      subst (λ o. In n (or_empty o)) (get-insert k id (or_empty (get m k) ++ x ∷ []) m) there in
    elim (Bool-cases (str_eq k id)) [
      | inr other ↦ inl (rw other at pushed)
      | inl same ↦ elim (In-append n (or_empty (get m k)) (x ∷ []) (rw same at pushed)) [
        | inl before ↦ inl (subst (λ j. At m j n) (str_eq→eq _ _ same) before)
        | inr (inl new) ↦ inr (str_eq→eq _ _ same, new)
        | inr (inr nowhere) ↦ absurd nowhere
      ]
    ]

followed :
    (edge : GraphEdge)
    → is_skipped edge ≡ false
    → (edge.relation_type ≢ bytes "documents") × (edge.relation_type ≢ bytes "references")
followed edge kept = (
  λ same. (let skipped = (str_eq_iff _ _).1 same in absurd (ground arith)),
  λ same. (let skipped = (str_eq_iff _ _).1 same in absurd (ground arith)),
)

IsLink-cons :
    (e edge : GraphEdge) (edges : List GraphEdge) (id next : Text)
    → IsLink edges id next edge
    → IsLink (e ∷ edges) id next edge
IsLink-cons e edge edges id next link = record {
  listed = inr link.listed;
  no_document = link.no_document;
  no_reference = link.no_reference;
  ends = link.ends;
}

adjacency-At :
    (edges : List GraphEdge) (m : Map (List Neighbor)) (id next : Text) (edge : GraphEdge)
    → At (adjacency edges m) id (next, edge)
    → At m id (next, edge) ⊎ IsLink edges id next edge
unfolding adjacency
adjacency-At [] m id next edge there = inl there
adjacency-At (e ∷ edges) m id next edge there = elim (Bool-cases (is_skipped e)) [
  | inl skipped ↦ elim (adjacency-At edges m id next edge (rw skipped at there)) [
    | inl before ↦ inl before
    | inr link ↦ inr (IsLink-cons e edge edges id next link)
  ]
  | inr kept ↦ elim (adjacency-At edges _ id next edge (rw kept at there)) [
    | inr link ↦ inr (IsLink-cons e edge edges id next link)
    | inl here ↦ elim (push_neighbor-At e.to_id id (e.from_id, e) (next, edge) _ here) [
      | inr (same, new) ↦ inr (
          own kept (ap (λ (n : Neighbor). n.1) new)
            (inr (same, sym (ap (λ (n : Neighbor). n.0) new))))
      | inl first ↦ elim (push_neighbor-At e.from_id id (e.to_id, e) (next, edge) m first) [
        | inr (same, new) ↦ inr (
            own kept (ap (λ (n : Neighbor). n.1) new)
              (inl (same, sym (ap (λ (n : Neighbor). n.0) new))))
        | inl before ↦ inl before
      ]
    ]
  ]
]
  where
    own :
        is_skipped e ≡ false
        → edge ≡ e
        → ((e.from_id ≡ id) × (e.to_id ≡ next)) ⊎ ((e.to_id ≡ id) × (e.from_id ≡ next))
        → IsLink (e ∷ edges) id next edge
    own kept same ends = subst (IsLink (e ∷ edges) id next) (sym same) (record {
      listed = inl refl;
      no_document = (followed e kept).0;
      no_reference = (followed e kept).1;
      ends = ends;
    })

insert_sorted-In : (n x : Neighbor) (ns : List Neighbor) → In n (insert_sorted x ns) → In n (x ∷ ns)
unfolding insert_sorted
insert_sorted-In n x [] there = there
insert_sorted-In n x (m ∷ ns) there = elim (Bool-cases (neighbor_le x m)) [
  | inl first ↦ rw first at there
  | inr later ↦ elim (rw later at there) [
    | inl here ↦ inr (inl here)
    | inr behind ↦ elim (insert_sorted-In n x ns behind) [
      | inl new ↦ inl new
      | inr old ↦ inr (inr old)
    ]
  ]
]

sort_neighbors-In : (n : Neighbor) (ns : List Neighbor) → In n (sort_neighbors ns) → In n ns
unfolding sort_neighbors
sort_neighbors-In n [] there = there
sort_neighbors-In n (x ∷ ns) there = elim (insert_sorted-In n x (sort_neighbors ns) there) [
  | inl new ↦ inl new
  | inr old ↦ inr (sort_neighbors-In n ns old)
]

sorted_lists-At :
    (m : Map (List Neighbor)) (id : Text) (n : Neighbor) → At (sorted_lists m) id n → At m id n
unfolding get
sorted_lists-At [] id n there = there
sorted_lists-At ((j, ns) ∷ m) id n there = elim (Bool-cases (str_eq j id)) [
  | inl same ↦ rw same (sort_neighbors-In n ns (rw same at there))
  | inr other ↦ rw other (sorted_lists-At m id n (rw other at there))
]

-- A neighbor in the lists that the loop follows is at the other end of an edge that is followed.
pub neighbors-IsLink :
    (edges : List GraphEdge) (id next : Text) (edge : GraphEdge)
    → In (next, edge) (or_empty (get (sorted_lists (adjacency edges [])) id))
    → IsLink edges id next edge
unfolding get
neighbors-IsLink edges id next edge there =
    elim (adjacency-At edges [] id next edge
      (sorted_lists-At (adjacency edges []) id (next, edge) there)) [
        | inl nowhere ↦ absurd nowhere
        | inr link ↦ link
      ]
