-- ===== src/BagGraph.antt =====
-- The class BagGraph of congress/datalog/utility.py: a Graph with the number of times that each
-- node and each edge was inserted. `self.add_node` in Graph.add_edge is that of BagGraph.
pub mod Counts
pub mod Laws
pub mod Edges
mod Tests
use congress.Prelude.{
  ℕ, ◌+◌, ◌-◌, Bool, true, false, Option, none, some, List, [], ◌∷◌, ◌++◌, ◌==◌, if◌then◌else◌,
  contains, add, Dict, lookup, insert, erase, pair_discrete, Result, ok, raise, Action, ◌>>◌,
}
use congress.Graph.{Graph}
use congress.Graph

pub record BagGraph (N L : Type 0) : Type 0 where
  pub graph : Graph N L
  pub node_refcounts : Dict N ℕ
  pub edge_refcounts : Dict (N × (N × L)) ℕ

abbrev pub empty_bag : {N L : Type 0} → BagGraph N L
empty_bag = record { graph = Graph.empty_graph; node_refcounts = []; edge_refcounts = [] }

module _ {K : Type 0} (dec : Discrete K) where
  -- `counts[k] += 1`, or 1 where there was none.
  pub count_up : K → Dict K ℕ → Dict K ℕ
  count_up k counts = elim (lookup dec k counts) [
    | none ↦ insert dec k 1 counts
    | some n ↦ insert dec k (n + 1) counts
  ]

  pub count_of : K → Dict K ℕ → ℕ
  count_of k counts = elim (lookup dec k counts) [ none ↦ 0 | some n ↦ n ]

module _ {N L : Type 0} (dn : Discrete N) (de : Discrete (N × L)) where
  pub add_node : N → BagGraph N L → BagGraph N L
  add_node val b = record b {
    graph = (Graph.add_node dn de val b.graph).0;
    node_refcounts = count_up dn val b.node_refcounts;
  }

  -- Counts are positive, so that `n - 1` is that of the integers.
  pub delete_node : N → Action (BagGraph N L) Unit
  delete_node val b = elim (lookup dn val b.node_refcounts) [
    | none ↦ (ok tt, b)
    | some n ↦
        let counts = insert dn val (n - 1) b.node_refcounts in
        let (result, g) = Graph.delete_node dn de val b.graph in
        if n == 1
        then elim result [
          | raise e ↦ (raise e, record b { graph = g; node_refcounts = counts })
          | ok _ ↦ (ok tt, record b { graph = g; node_refcounts = erase dn val counts })
        ]
        else (ok tt, record b { node_refcounts = counts })
  ]

  -- Graph.add_edge, whose calls of `self.add_node` count the nodes, and then the edge's count.
  pub add_edge : N → N → L → BagGraph N L → BagGraph N L
  add_edge val1 val2 label b =
      let b' = add_node val2 (add_node val1 b) in
      record b' {
        graph = Graph.add_edge dn de val1 val2 label b'.graph;
        edge_refcounts = count_up (pair_discrete dn de) (val1, (val2, label)) b'.edge_refcounts;
      }

  -- `self._edge_refcounts[edge] -= 1`, and the edge is deleted where none is left.
  pub drop_edge : N → N → L → ℕ → BagGraph N L → BagGraph N L
  drop_edge val1 val2 label n b =
      if n == 1
      then record b {
        graph = Graph.delete_edge dn de val1 val2 label b.graph;
        edge_refcounts = erase (pair_discrete dn de) (val1, (val2, label)) b.edge_refcounts;
      }
      else record b {
        edge_refcounts =
            insert (pair_discrete dn de) (val1, (val2, label)) (n - 1) b.edge_refcounts;
      }

  pub delete_edge : N → N → L → Action (BagGraph N L) Unit
  delete_edge val1 val2 label b =
      elim (lookup (pair_discrete dn de) (val1, (val2, label)) b.edge_refcounts) [
        | none ↦ (ok tt, b)
        | some n ↦
            (delete_node val1
                >> (delete_node val2 >> (λ b'. (ok tt, drop_edge val1 val2 label n b'))))
              b
      ]

  pub node_count : N → BagGraph N L → ℕ
  node_count node b = count_of dn node b.node_refcounts

  pub edge_count : N → N → L → BagGraph N L → ℕ
  edge_count val1 val2 label b =
      count_of (pair_discrete dn de) (val1, (val2, label)) b.edge_refcounts

  pub node_in : N → BagGraph N L → Bool
  node_in val b = elim (lookup dn val b.node_refcounts) [ none ↦ false | some _ ↦ true ]

  pub edge_in : N → N → L → BagGraph N L → Bool
  edge_in val1 val2 label b =
      elim (lookup (pair_discrete dn de) (val1, (val2, label)) b.edge_refcounts) [
        | none ↦ false
        | some _ ↦ true
      ]
