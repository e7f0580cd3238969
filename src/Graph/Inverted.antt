-- ===== src/Graph/Inverted.antt =====
-- `_inverted_edge_graph` and `find_dependent_nodes` of Graph (utility.py). The edges of the
-- inverted graph have no labels.
pub mod Links
pub mod Dependent
mod Tests
use congress.Prelude.{
  ℕ, Bool, true, false, none, some, List, [], ◌∷◌, contains, add, Dict, lookup, insert,
  pair_discrete, refl, Run, run_then, finished, ok,
}
use congress.Graph.{Graph, find_reachable_nodes}

unfoldable pub unit_discrete : Discrete (Unit {0})
unit_discrete u w = yes refl

module _ {N : Type 0} (dn : Discrete N) where
  abbrev pub link_discrete : Discrete (N × Unit {0})
  link_discrete = pair_discrete dn unit_discrete

  -- One edge of the inverted graph.
  pub invert_edge : N → N → Dict N (List (N × Unit {0})) → Dict N (List (N × Unit {0}))
  invert_edge source node inverted = elim (lookup dn node inverted) [
    | some sources ↦ insert dn node (add link_discrete (source, tt) sources) inverted
    | none ↦ insert dn node ((source, tt) ∷ []) inverted
  ]

  pub invert_out :
      {L : Type 0} → N → List (N × L) → Dict N (List (N × Unit {0})) → Dict N (List (N × Unit {0}))
  invert_out source [] inverted = inverted
  invert_out source ((node, label) ∷ out) inverted =
      invert_out source out (invert_edge source node inverted)

  pub invert_edges :
      {L : Type 0}
      → Dict N (List (N × L))
      → Dict N (List (N × Unit {0}))
      → Dict N (List (N × Unit {0}))
  invert_edges [] inverted = inverted
  invert_edges ((source, out) ∷ edges) inverted =
      invert_edges edges (invert_out source out inverted)

  pub inverted_edge_graph : {L : Type 0} → Graph N L → Graph N (Unit {0})
  inverted_edge_graph g = record { nodes = g.nodes; edges = invert_edges g.edges []; cycles = none }

  -- `set | set(nodes)`
  pub union : List N → List N → List N
  union found [] = found
  union found (node ∷ nodes) = union (add dn node found) nodes

  pub find_dependent_nodes : {L : Type 0} → Graph N L → List N → Run (List N)
  find_dependent_nodes g nodes =
      run_then (find_reachable_nodes dn link_discrete (inverted_edge_graph g) nodes)
        (λ found. finished (ok (union found nodes)))
