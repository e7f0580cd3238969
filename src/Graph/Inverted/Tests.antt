-- ===== src/Graph/Inverted/Tests.antt =====
-- A run of `find_dependent_nodes`, and its theorem at a small graph.
use mathlib.Core.Bool.{Bool-discrete}
use congress.Prelude.{
  ℕ, ◌≡◌, refl, Bool, true, false, none, [], ◌∷◌, contains, add, discard, lookup, insert,
  pair_discrete, ℕ_discrete, finished, ok,
}
use congress.Graph.{
  Graph, firsts, targets, out_edges, fresh, visit_all, record_path, enter, leave, dfs, visit_root,
  depth_first_search, begun, reached, find_reachable_nodes,
}
use congress.Graph.Inverted.{
  unit_discrete, invert_edge, invert_out, invert_edges, inverted_edge_graph, union,
  find_dependent_nodes,
}

edge_discrete : Discrete (ℕ × Bool)
edge_discrete = pair_discrete ℕ_discrete Bool-discrete

program : Unit {0}
unfolding firsts fresh out_edges targets visit_all record_path enter leave dfs visit_root
    depth_first_search begun reached find_reachable_nodes contains add discard lookup insert
    ℕ_discrete pair_discrete unit_discrete invert_edge invert_out invert_edges inverted_edge_graph
    union find_dependent_nodes edge_discrete
program = tt

-- 1 to 2, and 3 to 2 twice.
abbrev small : Graph ℕ Bool
small = record {
  nodes = 1 ∷ 2 ∷ 3 ∷ [];
  edges = (1, (2, false) ∷ []) ∷ (3, (2, false) ∷ (2, true) ∷ []) ∷ [];
  cycles = none;
}

find_small : find_dependent_nodes ℕ_discrete small (2 ∷ 9 ∷ []) ≡ finished (ok (1 ∷ 2 ∷ 3 ∷ 9 ∷ []))
unfolding program
find_small = refl
