-- ===== src/Graph/Tests.antt =====
-- Runs of Graph on a small graph, and the theorems at it.
use mathlib.Core.Bool.{Bool-discrete}
use congress.Prelude.{
  ℕ, ◌≡◌, ◌⊎◌, refl, Bool, true, false, none, some, List, [], ◌∷◌, ℕ_discrete, arith, contains, add,
  discard, pair_discrete, lookup, insert, erase, ok, finished,
}
use congress.Graph.{
  Graph, empty_graph, firsts, fresh, add_node, delete_node, out_edges, add_edge, delete_edge,
  targets, visit_all, record_path, enter, leave, dfs, visit_root, depth_first_search, begun,
  reached, find_reachable_nodes, dependencies,
}
use congress.Graph.Dfs.{IsClosed}
use congress.Graph.Reach.{IsReach, find_reachable_nodes_lem, dependencies_lem}

edge_discrete : Discrete (ℕ × Bool)
edge_discrete = pair_discrete ℕ_discrete Bool-discrete

program : Unit {0}
unfolding firsts fresh add_node delete_node out_edges add_edge delete_edge targets visit_all
    record_path enter leave dfs visit_root depth_first_search begun reached find_reachable_nodes
    dependencies contains add discard lookup insert erase ℕ_discrete edge_discrete pair_discrete
program = tt

-- 1 to 2, 2 to 1, and 3 to 2.
abbrev small : Graph ℕ Bool
small = record {
  nodes = 1 ∷ 2 ∷ 3 ∷ [];
  edges = (1, (2, false) ∷ []) ∷ (2, (1, true) ∷ []) ∷ (3, (2, false) ∷ []) ∷ [];
  cycles = none;
}

small_built :
    add_edge ℕ_discrete edge_discrete 3 2 false (
      add_edge ℕ_discrete edge_discrete 2 1 true
        (add_edge ℕ_discrete edge_discrete 1 2 false empty_graph))
    ≡ small
unfolding program
small_built = refl

find_small :
    find_reachable_nodes ℕ_discrete edge_discrete small (2 ∷ 9 ∷ []) ≡ finished (ok (1 ∷ 2 ∷ []))
unfolding program
find_small = refl

small-IsClosed : IsClosed ℕ_discrete edge_discrete small
unfolding contains targets out_edges lookup firsts
small-IsClosed u v e = ground arith

find_reachable_nodes_lem_example :
    (found : List ℕ) × (find_reachable_nodes ℕ_discrete edge_discrete small (2 ∷ 9 ∷ [])
      ≡ finished (ok found))
    × IsReach ℕ_discrete edge_discrete small (2 ∷ 9 ∷ []) found
find_reachable_nodes_lem_example =
    find_reachable_nodes_lem ℕ_discrete edge_discrete small small-IsClosed (2 ∷ 9 ∷ [])

dependencies_lem_example :
    ((contains ℕ_discrete 3 small.nodes ≡ false)
      × (dependencies ℕ_discrete edge_discrete small 3 ≡ finished (ok none)))
    ⊎ ((contains ℕ_discrete 3 small.nodes ≡ true)
        × ((found : List ℕ) × (dependencies ℕ_discrete edge_discrete small 3
              ≡ finished (ok (some found)))
            × IsReach ℕ_discrete edge_discrete small (3 ∷ []) found))
dependencies_lem_example = dependencies_lem ℕ_discrete edge_discrete small small-IsClosed 3
