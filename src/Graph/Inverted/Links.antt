-- ===== src/Graph/Inverted/Links.antt =====
-- The inverted graph has exactly the edges of the graph, turned round, so that a node depends on
-- the nodes that it leads to in it.
use congress.Prelude.{
  ◌≡◌, inl, inr, refl, sym, ap, ◌∙◌, if_pos, if_neg, pair_discrete, Bool, true, false, ◌&&◌, ◌||◌,
  none, some, List, [], ◌∷◌, arith, ite, Option-cases, contains, contains-add, add, Dict, keys,
  lookup, insert, lookup-insert, lookup-eq-none, IsDistinct,
}
use congress.Graph.{Graph, firsts, out_edges, targets}
use congress.Graph.Inverted.{unit_discrete, link_discrete, invert_edge, invert_out, invert_edges}

module _ {N : Type 0} (dn : Discrete N) where
  -- Whether a dict of edges has one from `v` to `u`.
  pub is_link : {L : Type 0} → N → N → Dict N (List (N × L)) → Bool
  is_link v u edges = elim (lookup dn v edges) [
    | none ↦ false
    | some out ↦ contains dn u (firsts out)
  ]

  -- A pair with the one label is there if its node is.
  ite_link :
      {C : Type 0} (u v : N) (a b : C)
      → ite (link_discrete dn (u, tt) (v, tt)) a b ≡ ite (dn u v) a b
  unfolding pair_discrete unit_discrete
  ite_link u v a b = elim (dn u v) [
    | yes p ↦ if_pos _ (ap (λ w. (w, tt)) p) a b ∙ sym (if_pos _ p a b)
    | no n ↦ if_neg _ (λ q. n (ap (λ (k : N × Unit {0}). k.0) q)) a b ∙ sym (if_neg _ n a b)
  ]

  contains-firsts :
      (u : N) (out : List (N × Unit {0}))
      → contains dn u (firsts out) ≡ contains (link_discrete dn) (u, tt) out
  unfolding firsts contains
  contains-firsts u [] = refl
  contains-firsts u ((v, l) ∷ out) =
      ground
        (arith, contains-firsts u out, ite_link u v true (contains (link_discrete dn) (u, tt) out))

  firsts-add :
      (u v : N) (out : List (N × Unit {0}))
      → contains dn u (firsts (add (link_discrete dn) (v, tt) out))
        ≡ ite (dn u v) true (contains dn u (firsts out))
  firsts-add u v out =
      contains-firsts u (add (link_discrete dn) (v, tt) out)
      ∙ contains-add (link_discrete dn) (u, tt) (v, tt) out
      ∙ ite_link u v true (contains (link_discrete dn) (u, tt) out)
      ∙ ap (ite (dn u v) true) (sym (contains-firsts u out))

  is_link-insert :
      (v u w : N) (out : List (N × Unit {0})) (d : Dict N (List (N × Unit {0})))
      → is_link v u (insert dn w out d) ≡ ite (dn v w) (contains dn u (firsts out)) (is_link v u d)
  unfolding is_link
  is_link-insert v u w out d = ground (arith, lookup-insert dn v w out d)

  single :
      (u s : N) → contains dn u (firsts {L = Unit {0}} ((s, tt) ∷ [])) ≡ ite (dn u s) true false
  unfolding firsts contains
  single u s = ground arith

  is_link-invert_edge :
      (v u s w : N) (d : Dict N (List (N × Unit {0})))
      → is_link v u (invert_edge dn s w d)
        ≡ (ite (dn v w) (ite (dn u s) true false) false || is_link v u d)
  unfolding invert_edge is_link
  is_link-invert_edge v u s w d = elim (Option-cases (lookup dn w d)) [
    | inl e ↦
        rw (e, invert_edge) (ground (arith, e, is_link-insert v u w ((s, tt) ∷ []) d, single u s))
    | inr (out, e) ↦
        rw (e, invert_edge)
          (ground (
            arith,
            e,
            is_link-insert v u w (add (link_discrete dn) (s, tt) out) d,
            firsts-add u s out,
          ))
  ]

  is_link-invert_out :
      {L : Type 0} (v u s : N) (out : List (N × L)) (d : Dict N (List (N × Unit {0})))
      → is_link v u (invert_out dn s out d)
        ≡ ((ite (dn u s) true false && contains dn v (firsts out)) || is_link v u d)
  unfolding invert_out firsts contains
  is_link-invert_out v u s [] d = ground arith
  is_link-invert_out v u s ((w, l) ∷ out) d =
      ground
        (arith, is_link-invert_out v u s out (invert_edge dn s w d), is_link-invert_edge v u s w d)

  pub is_link-invert_edges :
      {L : Type 0} (v u : N) (edges : Dict N (List (N × L))) (d : Dict N (List (N × Unit {0})))
      → IsDistinct dn (keys edges)
      → is_link v u (invert_edges dn edges d) ≡ (is_link u v edges || is_link v u d)
  unfolding invert_edges is_link lookup
  is_link-invert_edges v u [] d h = refl
  is_link-invert_edges v u ((s, out) ∷ edges) d h = ground (
    arith,
    is_link-invert_edges v u edges (invert_out dn s out d) h.1,
    is_link-invert_out v u s out d,
    lookup-eq-none dn s edges,
  )

  pub contains-targets :
      {L : Type 0} (de : Discrete (N × L)) (u v : N) (g : Graph N L)
      → contains dn v (targets dn de g u) ≡ is_link u v g.edges
  unfolding targets out_edges is_link firsts contains
  contains-targets de u v g = elim (Option-cases (lookup dn u g.edges)) [
    | inl e ↦ ground (arith, e)
    | inr (out, e) ↦ ground (arith, e)
  ]

  pub is_link-nil : (v u : N) → is_link {L = Unit {0}} v u [] ≡ false
  unfolding is_link lookup
  is_link-nil v u = refl
