-- ===== src/BagGraph/Tests.antt =====
-- Runs of a BagGraph, and its theorems at a small one.
use mathlib.Core.Bool.{Bool-discrete}
use congress.Prelude.{
  ℕ, ◌≡◌, refl, Bool, true, false, contains, add, discard, lookup, insert, erase, pair_discrete,
  ℕ_discrete, ok,
}
use congress.BagGraph.{
  BagGraph, empty_bag, count_up, count_of, add_node, delete_node, add_edge, drop_edge, delete_edge,
  node_count, edge_count, node_in, edge_in,
}
use congress.BagGraph.Laws.{IsValid, empty_bag-IsValid, add_edge_lem}
use congress.BagGraph.Edges.{delete_edge-add_edge}

edge_discrete : Discrete (ℕ × Bool)
edge_discrete = pair_discrete ℕ_discrete Bool-discrete

program : Unit {0}
unfolding count_up count_of add_node delete_node add_edge drop_edge delete_edge node_count
    edge_count node_in edge_in contains add discard lookup insert erase ℕ_discrete edge_discrete
    pair_discrete
program = tt

-- 1 to 2 twice, and from 2 to itself.
abbrev bag : BagGraph ℕ Bool
bag = add_edge ℕ_discrete edge_discrete 2 2 true (
    add_edge ℕ_discrete edge_discrete 1 2 false
      (add_edge ℕ_discrete edge_discrete 1 2 false empty_bag))

bag_nodes : node_count ℕ_discrete edge_discrete 2 bag ≡ 4
unfolding program
bag_nodes = refl

bag_edges : edge_count ℕ_discrete edge_discrete 1 2 false bag ≡ 2
unfolding program
bag_edges = refl

bag-IsValid : IsValid ℕ_discrete edge_discrete bag
bag-IsValid =
    (add_edge_lem ℕ_discrete edge_discrete 2 2 true
      (add_edge ℕ_discrete edge_discrete 1 2 false
        (add_edge ℕ_discrete edge_discrete 1 2 false empty_bag))
      (add_edge_lem ℕ_discrete edge_discrete 1 2 false
        (add_edge ℕ_discrete edge_discrete 1 2 false empty_bag)
        (add_edge_lem ℕ_discrete edge_discrete 1 2 false empty_bag
          (empty_bag-IsValid ℕ_discrete edge_discrete)).0).0).0

delete_edge-add_edge_example :
    (b' : BagGraph ℕ Bool) × (delete_edge ℕ_discrete edge_discrete 1 3 true
        (add_edge ℕ_discrete edge_discrete 1 3 true bag)
      ≡ (ok tt, b'))
    × IsValid ℕ_discrete edge_discrete b'
    × ((v w : ℕ) (l : Bool)
        → edge_count ℕ_discrete edge_discrete v w l b'
          ≡ edge_count ℕ_discrete edge_discrete v w l bag)
    × ((v : ℕ)
        → node_count ℕ_discrete edge_discrete v b' ≡ node_count ℕ_discrete edge_discrete v bag)
delete_edge-add_edge_example =
    delete_edge-add_edge ℕ_discrete edge_discrete 1 3 true bag bag-IsValid
