-- ===== src/Graph/Reach.antt =====
-- `find_reachable_nodes` and `dependencies` of Graph (utility.py) return what can be reached.
use congress.Prelude.{
  ◌+◌, ◌<◌, ◌≡◌, ◌↔◌, ◌⊎◌, inl, inr, refl, true, false, ◌&&◌, none, some, List, [], ◌∷◌, length,
  if◌then◌else◌, arith, Bool-cases, contains, ok, finished,
}
use congress.Strata.Rounds.{total_bounded}
use congress.Graph.{
  Graph, Search, fresh, visit_all, visit_root, depth_first_search, reached, begun,
  find_reachable_nodes, dependencies,
}
use congress.Graph.Dfs.{
  IsClosed, Leads, here, step, begun-fresh, Visited, is_begun, unbegun, dfs_lem, lookup_of_begun,
  Visited-old, Visited-cons, Visited-nil,
}

module _ {N L : Type 0} (dn : Discrete N) (de : Discrete (N × L)) (g : Graph N L) where
  -- The roots that are nodes of the graph.
  in_graph : List N → List N
  in_graph [] = []
  in_graph (r ∷ roots) =
      let rest = in_graph roots in if contains dn r g.nodes then r ∷ rest else rest

  contains-in_graph :
      (v : N) (roots : List N)
      → contains dn v (in_graph roots) ≡ (contains dn v roots && contains dn v g.nodes)
  unfolding in_graph contains
  contains-in_graph v [] = refl
  contains-in_graph v (r ∷ roots) = ground (arith, contains-in_graph v roots)

  unbegun-le-length : (s : Search N) → unbegun dn de g s < length g.nodes + 1
  unbegun-le-length s =
      let le =
        total_bounded dn g.nodes (λ v. if is_begun dn de g s v then 0 else 1) 1
          (λ v. ground arith) in
      omega arith

  -- The set of the nodes that one of the roots, itself a node of the graph, leads to.
  abbrev pub IsReach : List N → List N → Type 0
  IsReach roots found =
      (v : N)
      → (contains dn v found ≡ true) ↔ (
          (r : N) × (contains dn r roots ≡ true)
          × (contains dn r g.nodes ≡ true)
          × Leads dn de g r v)

  module _ (closed : IsClosed dn de g) where
    visit_root_lem :
        (r : N) (s : Search N)
        → contains dn r g.nodes ≡ true
        → (t : Search N) × (visit_root dn de g r s ≡ finished (ok t)) × Visited dn de g (r ∷ []) s t
    unfolding visit_root
    visit_root_lem r s inside = elim (lookup_of_begun dn de g s r) [
      | inr (n, old, e) ↦ (s, rw (inside, e, visit_root) refl, Visited-old dn de g r s old)
      | inl (new, e) ↦
          let (t, ran, v) =
            dfs_lem dn de g closed none (length g.nodes + 1) r [] s inside (unbegun-le-length s) in
          (t, rw (inside, e, visit_root) ran, v)
    ]

    roots_lem :
        (roots : List N) (s : Search N)
        → (t : Search N) × (visit_all dn de (visit_root dn de g) roots s ≡ finished (ok t))
          × Visited dn de g (in_graph roots) s t
    unfolding visit_all visit_root in_graph
    roots_lem [] s = (s, refl, Visited-nil dn de g s)
    roots_lem (r ∷ roots) s = elim (Bool-cases (contains dn r g.nodes)) [
      | inr outside ↦
          let (t, ran, v) = roots_lem roots s in
          let skipped : visit_root dn de g r s ≡ finished (ok s) = rw (outside, visit_root) refl in
          (t, rw (skipped, visit_all) ran, rw outside v)
      | inl inside ↦
          let (u, ran, first) = visit_root_lem r s inside in
          let (t, ran', others) = roots_lem roots u in
          (
            t,
            rw (ran, visit_all) ran',
            rw inside (Visited-cons dn de g r (in_graph roots) s u t first others),
          )
    ]

    onward :
        (vs : List N) (t : Search N)
        → Visited dn de g vs fresh t
        → (r u : N) → Leads dn de g r u
        → is_begun dn de g t r ≡ true
        → is_begun dn de g t u ≡ true
    onward vs t h r u here b = b
    onward vs t h r u (step {v = v} p e) b =
        h.closes v u (begun-fresh dn de g v) (onward vs t h r v p b) e

    -- What the search reaches is what the roots lead to.
    search_exact :
        (roots : List N) (t : Search N)
        → Visited dn de g (in_graph roots) fresh t
        → (v : N)
        → (is_begun dn de g t v ≡ true) ↔ (
            (r : N) × (contains dn r roots ≡ true)
            × (contains dn r g.nodes ≡ true)
            × Leads dn de g r v)
    search_exact roots t h v = (
      λ b.
          let (r, c, p) = h.only v (begun-fresh dn de g v) b in
          (
            r,
            ground (arith, contains-in_graph r roots),
            ground (arith, contains-in_graph r roots),
            p,
          ),
      λ (r, c, inside, p).
          onward (in_graph roots) t h r v p
            (h.reaches r (ground (arith, contains-in_graph r roots))),
    )

    contains-reached :
        (s : Search N) (nodes : List N) (v : N)
        → contains dn v (reached dn de s nodes) ≡ (contains dn v nodes && begun dn de s v)
    unfolding reached contains
    contains-reached s [] v = refl
    contains-reached s (w ∷ nodes) v = ground (arith, contains-reached s nodes v)

    Leads_inside :
        (r v : N) → contains dn r g.nodes ≡ true → Leads dn de g r v → contains dn v g.nodes ≡ true
    Leads_inside r v h here = h
    Leads_inside r v h (step {v = u} p e) = closed u v e

    depth_first_search_lem :
        (roots : List N)
        → (t : Search N) × (depth_first_search dn de g roots ≡ finished (ok t))
          × IsReach roots (reached dn de t g.nodes)
    unfolding depth_first_search
    depth_first_search_lem roots =
        let (t, ran, visited) = roots_lem roots fresh in
        (
          t,
          ran,
          λ v.
              let (to, from) = search_exact roots t visited v in
              (
                λ c. to (ground (arith, contains-reached t g.nodes v)),
                λ (r, c, inside, p).
                    let b = from (r, c, inside, p) in
                    let n = Leads_inside r v inside p in
                    ground (arith, contains-reached t g.nodes v),
              ),
        )

    -- On a graph whose edges lead to nodes, `find_reachable_nodes` ends, raises nothing, and
    -- returns exactly the nodes that a path of edges leads to from one of the roots in the graph.
    pub find_reachable_nodes_lem :
        (roots : List N)
        → (found : List N) × (find_reachable_nodes dn de g roots ≡ finished (ok found))
          × IsReach roots found
    unfolding find_reachable_nodes contains
    find_reachable_nodes_lem [] = ([], refl, λ v. ((λ h. cc), (λ (r, c, _, _). cc)))
    find_reachable_nodes_lem (r ∷ roots) =
        let (t, ran, h) = depth_first_search_lem (r ∷ roots) in
        (reached dn de t g.nodes, rw ran refl, h)

    -- `dependencies` of a node of the graph ends and returns the nodes that it leads to, itself
    -- among them; for any other it returns None.
    pub dependencies_lem :
        (node : N)
        → ((contains dn node g.nodes ≡ false) × (dependencies dn de g node ≡ finished (ok none)))
          ⊎ ((contains dn node g.nodes ≡ true)
              × ((found : List N) × (dependencies dn de g node ≡ finished (ok (some found)))
                  × IsReach (node ∷ []) found))
    unfolding dependencies
    dependencies_lem node = elim (Bool-cases (contains dn node g.nodes)) [
      | inr outside ↦ inl (outside, rw (outside, dependencies) refl)
      | inl inside ↦
          let (t, ran, h) = depth_first_search_lem (node ∷ []) in
          inr (inside, (reached dn de t g.nodes, rw (inside, dependencies) (rw ran refl), h))
    ]
