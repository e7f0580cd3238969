-- ===== src/BagGraph/Laws.antt =====
-- What the operations of a BagGraph do to the counts, and its invariant.
use congress.Prelude.{
  ℕ, ◌+◌, ◌-◌, ◌≡◌, ◌≢◌, refl, ap, inl, inr, Option-cases, Bool-cases, true, false, some, ◌==◌, ltb,
  arith, ite, contains, contains-discard, lookup, insert, erase, pair_discrete, ok,
}
use congress.Graph.{Graph}
use congress.Graph
use congress.Graph.Nodes.{contains-add_node, nodes-add_edge, delete_node_found}
use congress.BagGraph.{
  BagGraph, empty_bag, count_of, add_node, delete_node, add_edge, node_count, edge_count,
}
use congress.BagGraph.Counts.{
  IsPositive, count_of-count_up, count_up-IsPositive, count_of-insert, count_of-erase-insert,
  count_of-none, count_of-some, IsPositive-at, insert-IsPositive, erase-insert-IsPositive,
}

module _ {N L : Type 0} (dn : Discrete N) (de : Discrete (N × L)) where
  -- Counts are positive, and the graph has the nodes that are counted.
  abbrev pub IsValid : BagGraph N L → Type 0
  IsValid b =
      IsPositive dn b.node_refcounts
      × (IsPositive (pair_discrete dn de) b.edge_refcounts)
      × ((v : N) → contains dn v b.graph.nodes ≡ ltb 0 (node_count dn de v b))

  pub empty_bag-IsValid : IsValid empty_bag
  unfolding node_count count_of lookup contains
  empty_bag-IsValid = (λ k e. cc, λ k e. cc, λ v. refl)

  -- `add_node` keeps the invariant and counts this node once more.
  pub add_node_lem :
      (val : N) (b : BagGraph N L)
      → IsValid b
      → IsValid (add_node dn de val b)
        × ((v : N)
            → node_count dn de v (add_node dn de val b) ≡ node_count dn de v b + ite (dn v val) 1 0)
  unfolding add_node node_count
  add_node_lem val b (np, ep, sync) = (
    (
      count_up-IsPositive dn val b.node_refcounts np,
      ep,
      λ v. ground (
        arith,
        contains-add_node dn de v val b.graph,
        sync v,
        count_of-count_up dn v val b.node_refcounts,
      ),
    ),
    λ v. count_of-count_up dn v val b.node_refcounts,
  )

  pub edge_count-add_node :
      (val v w : N) (label : L) (b : BagGraph N L)
      → edge_count dn de v w label (add_node dn de val b) ≡ edge_count dn de v w label b
  unfolding add_node edge_count
  edge_count-add_node val v w label b = refl

  pub edge_count-same :
      (v w : N) (label : L) (b b' : BagGraph N L)
      → b'.edge_refcounts ≡ b.edge_refcounts
      → edge_count dn de v w label b' ≡ edge_count dn de v w label b
  unfolding edge_count
  edge_count-same v w label b b' e = ap (count_of (pair_discrete dn de) (v, (w, label))) e

  -- `delete_node` of a valid graph does not raise; it counts the node once less, and deletes a
  -- node that has no count left.
  pub delete_node_lem :
      (val : N) (b : BagGraph N L)
      → IsValid b
      → (b' : BagGraph N L) × (delete_node dn de val b ≡ (ok tt, b'))
        × IsValid b'
        × (b'.edge_refcounts ≡ b.edge_refcounts)
        × ((v : N) → node_count dn de v b' ≡ node_count dn de v b - ite (dn v val) 1 0)
  unfolding delete_node node_count
  delete_node_lem val b (np, ep, sync) = elim (Option-cases (lookup dn val b.node_refcounts)) [
    | inl e ↦ (
      b,
      rw (e, delete_node) refl,
      (np, ep, sync),
      refl,
      λ v. ground (arith, e, count_of-none dn val b.node_refcounts),
    )
    | inr (n, e) ↦ elim (Bool-cases (n == 1)) [
      | inl one ↦ (
        record b {
          graph = (Graph.delete_node dn de val b.graph).1;
          node_refcounts = erase dn val (insert dn val (n - 1) b.node_refcounts);
        },
        rw (e, delete_node)
            (rw one (rw ((delete_node_found dn de val b.graph (found n e)).0) refl)),
        (
          erase-insert-IsPositive dn val (n - 1) b.node_refcounts np,
          ep,
          λ v. ground (
            arith,
            contains-discard dn v val b.graph.nodes,
            (delete_node_found dn de val b.graph (found n e)).1,
            sync v,
            count_of-erase-insert dn v val (n - 1) b.node_refcounts,
          ),
        ),
        refl,
        λ v. ground (
          arith,
          e,
          one,
          count_of-erase-insert dn v val (n - 1) b.node_refcounts,
          count_of-some dn val n b.node_refcounts,
        ),
      )
      | inr more ↦ (
        record b { node_refcounts = insert dn val (n - 1) b.node_refcounts },
        rw (e, delete_node) (rw more refl),
        (
          insert-IsPositive dn val (n - 1) b.node_refcounts np (many n e more),
          ep,
          λ v. ground (
            arith,
            e,
            sync v,
            many n e more,
            count_of-insert dn v val (n - 1) b.node_refcounts,
            count_of-some dn val n b.node_refcounts,
          ),
        ),
        refl,
        λ v. ground (
          arith,
          e,
          count_of-insert dn v val (n - 1) b.node_refcounts,
          count_of-some dn val n b.node_refcounts,
        ),
      )
    ]
  ]
    where
      found :
          (n : ℕ) → lookup dn val b.node_refcounts ≡ some n → contains dn val b.graph.nodes ≡ true
      found n e = ground (
        arith,
        e,
        sync val,
        count_of-some dn val n b.node_refcounts,
        IsPositive-at dn val n b.node_refcounts np e,
      )

      many : (n : ℕ) → lookup dn val b.node_refcounts ≡ some n → (n == 1) ≡ false → n - 1 ≢ 0
      many n e more = ground (arith, e, more, IsPositive-at dn val n b.node_refcounts np e)

  -- `add_edge` keeps the invariant, counts both nodes once more, and this edge once more.
  pub add_edge_lem :
      (val1 val2 : N) (label : L) (b : BagGraph N L)
      → IsValid b
      → IsValid (add_edge dn de val1 val2 label b)
        × ((v : N)
            → node_count dn de v (add_edge dn de val1 val2 label b)
              ≡ node_count dn de v b + ite (dn v val1) 1 0 + ite (dn v val2) 1 0)
        × ((v w : N) (l : L)
            → edge_count dn de v w l (add_edge dn de val1 val2 label b)
              ≡ edge_count dn de v w l b
                + ite (pair_discrete dn de (v, (w, l)) (val1, (val2, label))) 1 0)
  unfolding add_edge edge_count node_count add_node
  add_edge_lem a c l b valid =
      let (valid1, counts1) = add_node_lem a b valid in
      let (valid2, counts2) = add_node_lem c (add_node dn de a b) valid1 in
      let b' = add_node dn de c (add_node dn de a b) in
      let ha : contains dn a b'.graph.nodes ≡ true =
        ground (arith, valid2.2 a, counts2 a, counts1 a) in
      let hc : contains dn c b'.graph.nodes ≡ true = ground (arith, valid2.2 c, counts2 c) in
      (
        (
          valid2.0,
          count_up-IsPositive (pair_discrete dn de) (a, (c, l)) b.edge_refcounts valid.1,
          λ v. rw (nodes-add_edge dn de a c l b'.graph ha hc) (valid2.2 v),
        ),
        λ v. ground (arith, counts2 v, counts1 v),
        λ v w m. count_of-count_up (pair_discrete dn de) (v, (w, m)) (a, (c, l)) b.edge_refcounts,
      )
