-- ===== src/Graph.antt =====
-- The class Graph of congress/datalog/utility.py: nodes, labelled edges, and depth-first search.
-- `nodes` and `edges` are dicts; the data that a search keeps for each node are the dicts `begin`
-- and `finish` of the record Search. Sets of edges are lists without repetition, and a loop over
-- a dict or a set goes through its list. A search starts from the data that `reset` leaves; that
-- `reset` also makes `_cycles` the empty set is left out, since the questions here do not read it.
pub mod Dfs
pub mod Reach
pub mod Nodes
pub mod Inverted
mod Tests
use congress.Prelude.{
  ℕ, zero, suc, ◌+◌, Bool, true, false, ◌&&◌, not, Option, none, some, List, [], ◌∷◌, ◌++◌, length,
  ltb, if◌then◌else◌, contains, add, discard, Dict, keys, lookup, insert, erase, key_error,
  assertion_error, Result, ok, raise, Action, Run, out_of_fuel, finished, run_then, is_empty,
}

pub record Graph (N L : Type 0) : Type 0 where
  pub nodes : List N
  pub edges : Dict N (List (N × L))
  -- `_cycles`: None until they are computed.
  pub cycles : Option (List (List N))

-- The search data: when each node was reached and left, the counter, and the paths to the target.
pub record Search (N : Type 0) : Type 0 where
  pub begin : Dict N ℕ
  pub finish : Dict N ℕ
  pub counter : ℕ
  pub target_paths : List (List N)

abbrev pub empty_graph : {N L : Type 0} → Graph N L
empty_graph = record { nodes = []; edges = []; cycles = none }

-- `_reset_dfs_data`
unfoldable pub fresh : {N : Type 0} → Search N
fresh = record { begin = []; finish = []; counter = 0; target_paths = [] }

unfoldable pub firsts : {N L : Type 0} → List (N × L) → List N
firsts [] = []
firsts ((v, l) ∷ out) = v ∷ firsts out

module _ {N L : Type 0} (dn : Discrete N) (de : Discrete (N × L)) where
  pub add_node : N → Graph N L → Graph N L × Bool
  add_node val g = elim (contains dn val g.nodes) [
    | true ↦ (g, false)
    | false ↦ (record g { nodes = g.nodes ++ val ∷ [] }, true)
  ]

  -- `del self.nodes[val]`, `del self.edges[val]`, and the assertion where the first raised.
  pub delete_node : N → Action (Graph N L) Unit
  delete_node val g = elim (contains dn val g.nodes) [
    | true ↦ (ok tt, record g { nodes = discard dn val g.nodes; edges = erase dn val g.edges })
    | false ↦ elim (lookup dn val g.edges) [
      | none ↦ (ok tt, g)
      | some _ ↦ (raise assertion_error, g)
    ]
  ]

  -- The edges out of a node.
  unfoldable pub out_edges : N → Graph N L → List (N × L)
  out_edges node g = elim (lookup dn node g.edges) [ none ↦ [] | some out ↦ out ]

  pub add_edge : N → N → L → Graph N L → Graph N L
  add_edge val1 val2 label g =
      let g' = (add_node val2 (add_node val1 g).0).0 in
      record g' {
        edges = elim (lookup dn val1 g'.edges) [
          | none ↦ insert dn val1 ((val2, label) ∷ []) g'.edges
          | some out ↦ insert dn val1 (add de (val2, label) out) g'.edges
        ];
        cycles = none;
      }

  pub delete_edge : N → N → L → Graph N L → Graph N L
  delete_edge val1 val2 label g = elim (lookup dn val1 g.edges) [
    | none ↦ g
    | some out ↦ elim (contains de (val2, label) out) [
      | false ↦ g
      | true ↦ record g {
        edges = insert dn val1 (discard de (val2, label) out) g.edges;
        cycles = none;
      }
    ]
  ]

  pub node_in : N → Graph N L → Bool
  node_in val g = contains dn val g.nodes

  pub edge_in : N → N → L → Graph N L → Bool
  edge_in val1 val2 label g = contains de (val2, label) (out_edges val1 g)

  -- The nodes that the edges out of a node lead to.
  unfoldable pub targets : Graph N L → N → List N
  targets g node = firsts (out_edges node g)

  -- `for edge in self.edges[node]: self.dfs(edge.node, …)`
  unfoldable pub visit_all : (N → Search N → Run (Search N)) → List N → Search N → Run (Search N)
  visit_all visit [] s = finished (ok s)
  visit_all visit (v ∷ vs) s = run_then (visit v s) (visit_all visit vs)

  -- A path from the target back to it is recorded.
  unfoldable pub record_path : Option N → N → List N → Search N → Search N
  record_path none node stack s = s
  record_path (some target) node stack s = elim (dn node target) [
    | no _ ↦ s
    | yes _ ↦
        if ltb 1 (length stack) then record s { target_paths = s.target_paths ++ stack ∷ [] } else s
  ]

  unfoldable pub enter : N → Search N → Search N
  enter node s = record s { begin = insert dn node s.counter s.begin; counter = s.counter + 1 }

  unfoldable pub leave : N → Search N → Search N
  leave node s = record s { finish = insert dn node s.counter s.finish; counter = s.counter + 1 }

  -- `dfs`, on fuel for the depth of the calls.
  unfoldable pub dfs : Graph N L → Option N → ℕ → N → List N → Search N → Run (Search N)
  dfs g target zero node stack s = out_of_fuel
  dfs g target (suc fuel) node stack s =
      let stack' = stack ++ node ∷ [] in
      let s₁ = record_path target node stack' s in
      elim (contains dn node g.nodes) [
        | false ↦ finished (raise key_error)
        | true ↦ elim (lookup dn node s₁.begin) [
          | some _ ↦ finished (ok s₁)
          | none ↦
              run_then
                (visit_all (λ v. dfs g target fuel v stack') (targets g node) (enter node s₁))
                (λ s₂. finished (ok (leave node s₂)))
        ]
      ]

  -- One call of `dfs` for the roots that are nodes and not reached yet. No path of calls is
  -- longer than the number of nodes, but for the call that finds its node reached.
  unfoldable pub visit_root : Graph N L → N → Search N → Run (Search N)
  visit_root g node s = elim (contains dn node g.nodes) [
    | false ↦ finished (ok s)
    | true ↦ elim (lookup dn node s.begin) [
      | some _ ↦ finished (ok s)
      | none ↦ dfs g none (length g.nodes + 1) node [] s
    ]
  ]

  unfoldable pub depth_first_search : Graph N L → List N → Run (Search N)
  depth_first_search g roots = visit_all (visit_root g) roots fresh

  unfoldable pub begun : Search N → N → Bool
  begun s node = elim (lookup dn node s.begin) [ none ↦ false | some _ ↦ true ]

  -- `[x for x in self.nodes if self.nodes[x].begin is not None]`
  unfoldable pub reached : Search N → List N → List N
  reached s [] = []
  reached s (node ∷ nodes) =
      let rest = reached s nodes in if begun s node then node ∷ rest else rest

  pub find_reachable_nodes : Graph N L → List N → Run (List N)
  find_reachable_nodes g roots =
      if is_empty roots
      then finished (ok [])
      else run_then (depth_first_search g roots) (λ s. finished (ok (reached s g.nodes)))

  -- None where the node is not in the graph.
  unfoldable pub dependencies : Graph N L → N → Run (Option (List N))
  dependencies g node = elim (contains dn node g.nodes) [
    | false ↦ finished (ok none)
    | true ↦
        run_then (depth_first_search g (node ∷ [])) (λ s. finished (ok (some (reached s g.nodes))))
  ]
