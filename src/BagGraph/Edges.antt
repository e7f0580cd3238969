-- ===== src/BagGraph/Edges.antt =====
-- The deletion of an edge from a BagGraph, which undoes its insertion.
use congress.Prelude.{
  ℕ, ◌-◌, ◌≡◌, refl, ◌∙◌, ap, inl, inr, Option-cases, Bool-cases, some, ◌==◌, arith, ite, lookup,
  pair_discrete, ◌>>◌, bind_ok, ok, if◌then◌else◌,
}
use congress.Graph.Nodes.{nodes-delete_edge}
use congress.BagGraph.{
  BagGraph, count_of, delete_node, add_edge, drop_edge, delete_edge, node_count, edge_count,
}
use congress.BagGraph.Laws.{IsValid, delete_node_lem, add_edge_lem}
use congress.BagGraph.Counts.{
  count_of-insert, count_of-none, count_of-some, IsPositive-at, count_of-erase, erase-IsPositive,
  insert-IsPositive,
}

module _ {N L : Type 0} (dn : Discrete N) (de : Discrete (N × L)) where
  drop_edge_lem :
      (val1 val2 : N) (label : L) (n : ℕ) (b : BagGraph N L)
      → IsValid dn de b
      → lookup (pair_discrete dn de) (val1, (val2, label)) b.edge_refcounts ≡ some n
      → IsValid dn de (drop_edge dn de val1 val2 label n b)
        × ((drop_edge dn de val1 val2 label n b).node_refcounts ≡ b.node_refcounts)
        × ((v w : N) (l : L)
            → edge_count dn de v w l (drop_edge dn de val1 val2 label n b)
              ≡ edge_count dn de v w l b
                - ite (pair_discrete dn de (v, (w, l)) (val1, (val2, label))) 1 0)
  unfolding drop_edge edge_count node_count
  drop_edge_lem a c l n b (np, ep, sync) e = elim (Bool-cases (n == 1)) [
    | inl one ↦ rw one (
      (
        np,
        erase-IsPositive (pair_discrete dn de) (a, (c, l)) b.edge_refcounts ep,
        λ v. rw (nodes-delete_edge dn de a c l b.graph) (sync v),
      ),
      refl,
      λ v w m. ground (
        arith,
        e,
        one,
        count_of-erase (pair_discrete dn de) (v, (w, m)) (a, (c, l)) b.edge_refcounts,
        count_of-some (pair_discrete dn de) (a, (c, l)) n b.edge_refcounts,
      ),
    )
    | inr more ↦ rw more (
      (
        np,
        insert-IsPositive (pair_discrete dn de) (a, (c, l)) (n - 1) b.edge_refcounts ep
            (ground (
              arith,
              e,
              more,
              IsPositive-at (pair_discrete dn de) (a, (c, l)) n b.edge_refcounts ep,
            )),
        sync,
      ),
      refl,
      λ v w m. ground (
        arith,
        e,
        count_of-insert (pair_discrete dn de) (v, (w, m)) (a, (c, l)) (n - 1) b.edge_refcounts,
        count_of-some (pair_discrete dn de) (a, (c, l)) n b.edge_refcounts,
      ),
    )
  ]

  -- `delete_edge` of a valid graph does not raise and keeps the invariant. Where the edge is
  -- counted, it counts the edge once less, and its source and its target; else nothing changes.
  pub delete_edge_lem :
      (val1 val2 : N) (label : L) (b : BagGraph N L)
      → IsValid dn de b
      → (b' : BagGraph N L) × (delete_edge dn de val1 val2 label b ≡ (ok tt, b'))
        × IsValid dn de b'
        × ((v w : N) (l : L)
            → edge_count dn de v w l b'
              ≡ edge_count dn de v w l b
                - ite (pair_discrete dn de (v, (w, l)) (val1, (val2, label))) 1 0)
        × ((v : N)
            → node_count dn de v b' ≡ (
                if edge_count dn de val1 val2 label b == 0
                then node_count dn de v b
                else node_count dn de v b - ite (dn v val1) 1 0 - ite (dn v val2) 1 0))
  unfolding delete_edge edge_count node_count
  delete_edge_lem a c l b valid =
      elim (Option-cases (lookup (pair_discrete dn de) (a, (c, l)) b.edge_refcounts)) [
        | inl e ↦
            let zero_count = count_of-none (pair_discrete dn de) (a, (c, l)) b.edge_refcounts e in
            (
              b,
              rw (e, delete_edge) refl,
              valid,
              λ v w m. ground (arith, zero_count),
              λ v. ground (arith, zero_count),
            )
        | inr (n, e) ↦
            let (b₁, run₁, valid₁, same₁, count₁) = delete_node_lem dn de a b valid in
            let (b₂, run₂, valid₂, same₂, count₂) = delete_node_lem dn de c b₁ valid₁ in
            let (valid₃, same₃, count₃) =
              drop_edge_lem a c l n b₂ valid₂
                (ap (lookup (pair_discrete dn de) (a, (c, l))) (same₂ ∙ same₁) ∙ e) in
            let positive =
              IsPositive-at (pair_discrete dn de) (a, (c, l)) n b.edge_refcounts valid.1 e in
            (
              drop_edge dn de a c l n b₂,
              rw (e, delete_edge)
                  (bind_ok (delete_node dn de a)
                      (λ _. delete_node dn de c >> (λ b'. (ok tt, drop_edge dn de a c l n b'))) b b₁
                      tt run₁
                    ∙ bind_ok (delete_node dn de c) (λ _ b'. (ok tt, drop_edge dn de a c l n b')) b₁
                        b₂ tt run₂),
              valid₃,
              λ v w m.
                  count₃ v w m
                  ∙ ap
                      (λ d.
                        count_of (pair_discrete dn de) (v, (w, m)) d
                        - ite (pair_discrete dn de (v, (w, m)) (a, (c, l))) 1 0)
                      (same₂ ∙ same₁),
              λ v.
                  ap (count_of dn v) same₃
                  ∙ ground (
                    arith,
                    count₂ v,
                    count₁ v,
                    positive,
                    count_of-some (pair_discrete dn de) (a, (c, l)) n b.edge_refcounts e,
                  ),
            )
      ]

  -- `delete_edge` of an edge just added to a valid graph does not raise, and gives back the counts
  -- of all nodes and edges.
  pub delete_edge-add_edge :
      (val1 val2 : N) (label : L) (b : BagGraph N L)
      → IsValid dn de b
      → (b' : BagGraph N L) × (delete_edge dn de val1 val2 label (add_edge dn de val1 val2 label b)
          ≡ (ok tt, b'))
        × IsValid dn de b'
        × ((v w : N) (l : L) → edge_count dn de v w l b' ≡ edge_count dn de v w l b)
        × ((v : N) → node_count dn de v b' ≡ node_count dn de v b)
  delete_edge-add_edge a c l b valid =
      let (valid₁, nodes₁, edges₁) = add_edge_lem dn de a c l b valid in
      let (b', run, valid₂, edges₂, nodes₂) =
        delete_edge_lem a c l (add_edge dn de a c l b) valid₁ in
      (
        b',
        run,
        valid₂,
        λ v w m. ground (arith, edges₁ v w m, edges₂ v w m),
        λ v. ground (arith, nodes₁ v, nodes₂ v, edges₁ a c l),
      )
