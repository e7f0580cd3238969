-- ===== src/Graph/Nodes.antt =====
-- What the operations of a Graph do to its nodes.
use congress.Prelude.{
  ◌≡◌, refl, inl, inr, Bool-cases, Option-cases, lookup, true, List, [], ◌∷◌, ◌++◌, arith, ite,
  contains, discard, ok,
}
use congress.Graph.{Graph, add_node, delete_node, add_edge, delete_edge}

module _ {N L : Type 0} (dn : Discrete N) (de : Discrete (N × L)) where
  contains-snoc :
      (v val : N) (nodes : List N)
      → contains dn v (nodes ++ val ∷ []) ≡ ite (dn v val) true (contains dn v nodes)
  unfolding contains
  contains-snoc v val [] = ground arith
  contains-snoc v val (u ∷ nodes) = ground (arith, contains-snoc v val nodes)

  pub contains-add_node :
      (v val : N) (g : Graph N L)
      → contains dn v (add_node dn de val g).0.nodes ≡ ite (dn v val) true (contains dn v g.nodes)
  unfolding add_node
  contains-add_node v val g = elim (Bool-cases (contains dn val g.nodes)) [
    | inl e ↦ rw (e, add_node) (ground (arith, e))
    | inr e ↦ rw (e, add_node) (contains-snoc v val g.nodes)
  ]

  -- An edge between nodes of the graph adds no node.
  pub nodes-add_edge :
      (a c : N) (l : L) (g : Graph N L)
      → contains dn a g.nodes ≡ true
      → contains dn c g.nodes ≡ true
      → (add_edge dn de a c l g).nodes ≡ g.nodes
  unfolding add_node add_edge
  nodes-add_edge a c l g ha hc = ground (arith, ha, hc)

  pub delete_node_found :
      (val : N) (g : Graph N L)
      → contains dn val g.nodes ≡ true
      → ((delete_node dn de val g).0 ≡ ok tt)
        × ((delete_node dn de val g).1.nodes ≡ discard dn val g.nodes)
  unfolding delete_node
  delete_node_found val g h = rw (h, delete_node) (refl, refl)

  pub nodes-delete_edge :
      (a c : N) (l : L) (g : Graph N L) → (delete_edge dn de a c l g).nodes ≡ g.nodes
  unfolding delete_edge
  nodes-delete_edge a c l g = elim (Option-cases (lookup dn a g.edges)) [
    | inl e ↦ rw (e, delete_edge) refl
    | inr (out, e) ↦ elim (Bool-cases (contains de (c, l) out)) [
      | inl h ↦ rw (e, delete_edge) (rw h refl)
      | inr h ↦ rw (e, delete_edge) (rw h refl)
    ]
  ]
