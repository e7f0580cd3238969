-- ===== src/Graph/Dfs.antt =====
-- The depth-first search of Graph (utility.py) ends, raises nothing on a closed graph, and
-- reaches exactly the nodes that it should.
use congress.Prelude.{
  ℕ, zero, suc, ◌≤◌, ◌<◌, ◌≡◌, ◌⊎◌, inl, inr, refl, sym, ap, ◌∙◌, Bool, true, false, Option, none,
  some, List, [], ◌∷◌, ◌++◌, if◌then◌else◌, ite, arith, Bool-cases, Option-cases, contains, lookup,
  lookup-insert, ok, finished, Run, run_then,
}
use congress.Strata.Rounds.{total, total_mono, total-lt}
use congress.Graph.{Graph, Search, targets, visit_all, record_path, enter, leave, dfs, begun, fresh}

lt_of_lt_le : {a b c : ℕ} → a < b → b ≤ c → a < c
lt_of_lt_le h k = omega arith

le_of_lt_suc : {a b c : ℕ} → a ≤ b → b < suc c → a ≤ c
le_of_lt_suc h k = omega arith

lt_of_le_lt : {a b c : ℕ} → a ≤ b → b < c → a < c
lt_of_le_lt h k = omega arith

module _ {N L : Type 0} (dn : Discrete N) (de : Discrete (N × L)) (g : Graph N L) where
  -- There is an edge from `u` to `v`.
  abbrev pub HasEdge : N → N → Type 0
  HasEdge u v = contains dn v (targets dn de g u) ≡ true

  -- Every edge leads to a node of the graph.
  abbrev pub IsClosed : Type 0
  IsClosed = (u v : N) → HasEdge u v → contains dn v g.nodes ≡ true

  -- A path of edges.
  pub data Leads (u : N) : N → Type 0 where
    here : Leads u u
    step : {v w : N} → Leads u v → HasEdge v w → Leads u w

  pub Leads-trans : {u v w : N} → Leads u v → Leads v w → Leads u w
  Leads-trans p here = p
  Leads-trans p (step q e) = step (Leads-trans p q) e

  abbrev pub is_begun : Search N → N → Bool
  is_begun s v = begun dn de s v

  abbrev pub unbegun : Search N → ℕ
  unbegun s = total dn g.nodes (λ v. if is_begun s v then 0 else 1)

  -- What a visit of the nodes `vs` does: it keeps what was reached, reaches the nodes, leaves no
  -- edge from a newly reached node to one that is not, and reaches only what they lead to.
  pub record Visited (vs : List N) (before after : Search N) : Type 0 where
    pub keeps : (v : N) → is_begun before v ≡ true → is_begun after v ≡ true
    pub reaches : (v : N) → contains dn v vs ≡ true → is_begun after v ≡ true
    pub closes :
        (u v : N)
        → is_begun before u ≡ false
        → is_begun after u ≡ true
        → HasEdge u v
        → is_begun after v ≡ true
    pub only :
        (v : N)
        → is_begun before v ≡ false
        → is_begun after v ≡ true
        → (w : N) × (contains dn w vs ≡ true) × Leads w v

  unbegun-le : (vs : List N) (s t : Search N) → Visited vs s t → unbegun t ≤ unbegun s
  unbegun-le vs s t h =
      total_mono dn g.nodes (λ v. if is_begun t v then 0 else 1)
        (λ v. if is_begun s v then 0 else 1) (λ v. ground (arith, h.keeps v))

  pub Visited-nil : (s : Search N) → Visited [] s s
  unfolding contains
  Visited-nil s = record {
    keeps = λ v h. h;
    reaches = λ v h. cc;
    closes = λ u v b a e. cc;
    only = λ v b a. cc;
  }

  pub Visited-cons :
      (v : N) (vs : List N) (s t u : Search N)
      → Visited (v ∷ []) s t
      → Visited vs t u
      → Visited (v ∷ vs) s u
  unfolding contains
  Visited-cons v vs s t u h k = record {
    keeps = λ x b. k.keeps x (h.keeps x b);
    reaches = λ x c. elim (dn x v) [
      | yes p ↦ k.keeps x (h.reaches x (ground arith))
      | no ne ↦ k.reaches x (ground arith)
    ];
    closes = λ x y b a e. elim (Bool-cases (is_begun t x)) [
      | inl early ↦ k.keeps y (h.closes x y b early e)
      | inr late ↦ k.closes x y late a e
    ];
    only = λ x b a. elim (Bool-cases (is_begun t x)) [
      | inl early ↦ let (w, c, p) = h.only x b early in (w, ground arith, p)
      | inr late ↦ let (w, c, p) = k.only x late a in (w, ground arith, p)
    ];
  }

  -- A visit that ends, as `dfs` does with enough fuel.
  abbrev Visits : (N → Search N → Run (Search N)) → ℕ → Type 0
  Visits visit fuel =
      (v : N) (s : Search N)
      → contains dn v g.nodes ≡ true
      → unbegun s < fuel
      → (t : Search N) × (visit v s ≡ finished (ok t)) × Visited (v ∷ []) s t

  visit_all_lem :
      (visit : N → Search N → Run (Search N)) (fuel : ℕ)
      → Visits visit fuel
      → (vs : List N) (s : Search N)
      → ((v : N) → contains dn v vs ≡ true → contains dn v g.nodes ≡ true)
      → unbegun s < fuel
      → (t : Search N) × (visit_all dn de visit vs s ≡ finished (ok t)) × Visited vs s t
  unfolding visit_all contains
  visit_all_lem visit fuel run [] s inside h = (s, refl, Visited-nil s)
  visit_all_lem visit fuel run (v ∷ vs) s inside h =
      let (t, ran, first) = run v s (inside v (ground arith)) h in
      let (u, ran', others) =
        visit_all_lem visit fuel run vs t (λ w c. inside w (ground arith))
          (lt_of_le_lt (unbegun-le (v ∷ []) s t first) h) in
      (u, rw (ran, visit_all) ran', Visited-cons v vs s t u first others)

  pub begun-fresh : (v : N) → is_begun fresh v ≡ false
  unfolding begun fresh lookup
  begun-fresh v = refl

  begun-enter :
      (node : N) (s : Search N) (v : N)
      → is_begun (enter dn de node s) v ≡ ite (dn v node) true (is_begun s v)
  unfolding begun enter
  begun-enter node s v = ground (arith, lookup-insert dn v node s.counter s.begin)

  begun-leave : (node : N) (s : Search N) (v : N) → is_begun (leave dn de node s) v ≡ is_begun s v
  unfolding begun leave
  begun-leave node s v = refl

  begun-record_path :
      (target : Option N) (node : N) (stack : List N) (s : Search N)
      → (record_path dn de target node stack s).begin ≡ s.begin
  unfolding record_path
  begun-record_path none node stack s = refl
  begun-record_path (some t) node stack s = ground arith

  -- Entering a node, visiting what it leads to, and leaving it is a visit of the node.
  Visited-node :
      (node : N) (s t : Search N)
      → is_begun s node ≡ false
      → Visited (targets dn de g node) (enter dn de node s) t
      → Visited (node ∷ []) s (leave dn de node t)
  unfolding contains
  Visited-node node s t new h = record {
    keeps = λ v b. begun-leave node t v ∙ h.keeps v (ground (arith, begun-enter node s v));
    reaches = λ v c. begun-leave node t v ∙ h.keeps v (ground (arith, begun-enter node s v));
    closes = λ u v b a e. elim (dn u node) [
      | yes p ↦ begun-leave node t v ∙ h.reaches v (rw p at e)
      | no ne ↦
          begun-leave node t v
          ∙ h.closes u v (ground (arith, begun-enter node s u)) (begun-leave-of node t u a) e
    ];
    only = λ v b a. elim (dn v node) [
      | yes p ↦ (node, ground arith, rw p here)
      | no ne ↦
          let (w, c, p) =
            h.only v (ground (arith, begun-enter node s v)) (begun-leave-of node t v a) in
          (node, ground arith, Leads-trans (step here c) p)
    ];
  }
    where
      begun-leave-of :
          (n : N) (t : Search N) (v : N) → is_begun (leave dn de n t) v ≡ true → is_begun t v ≡ true
      begun-leave-of n t v a = sym (begun-leave n t v) ∙ a

  is_begun_same : (s s' : Search N) → s'.begin ≡ s.begin → (v : N) → is_begun s' v ≡ is_begun s v
  unfolding begun
  is_begun_same s s' e v = ground arith

  -- A search that differs only in the recorded paths visits the same nodes.
  Visited-same :
      (vs : List N) (s s' t : Search N) → s'.begin ≡ s.begin → Visited vs s' t → Visited vs s t
  Visited-same vs s s' t e h = record {
    keeps = λ v b. h.keeps v (is_begun_same s s' e v ∙ b);
    reaches = h.reaches;
    closes = λ u v b. h.closes u v (is_begun_same s s' e u ∙ b);
    only = λ v b. h.only v (is_begun_same s s' e v ∙ b);
  }

  pub Visited-old : (node : N) (s : Search N) → is_begun s node ≡ true → Visited (node ∷ []) s s
  unfolding contains
  Visited-old node s old = record {
    keeps = λ v b. b;
    reaches = λ v c. ground arith;
    closes = λ u v b a e. cc;
    only = λ v b a. cc;
  }

  unbegun-enter :
      (node : N) (s : Search N)
      → contains dn node g.nodes ≡ true
      → is_begun s node ≡ false
      → unbegun (enter dn de node s) < unbegun s
  unbegun-enter node s inside new =
      total-lt dn g.nodes (λ v. if is_begun (enter dn de node s) v then 0 else 1)
        (λ v. if is_begun s v then 0 else 1) node (λ v. ground (arith, begun-enter node s v)) inside
        (ground (arith, begun-enter node s node))

  unbegun_same : (s s' : Search N) → s'.begin ≡ s.begin → unbegun s' ≤ unbegun s
  unbegun_same s s' e =
      total_mono dn g.nodes (λ v. if is_begun s' v then 0 else 1)
        (λ v. if is_begun s v then 0 else 1) (λ v. ground (arith, is_begun_same s s' e v))

  pub lookup_of_begun :
      (s : Search N) (v : N)
      → ((is_begun s v ≡ false) × (lookup dn v s.begin ≡ none))
        ⊎ ((n : ℕ) × (is_begun s v ≡ true) × (lookup dn v s.begin ≡ some n))
  unfolding begun
  lookup_of_begun s v = elim (Option-cases (lookup dn v s.begin)) [
    | inl e ↦ inl (ground arith, e)
    | inr (n, e) ↦ inr (n, ground arith, e)
  ]

  module _ (closed : IsClosed) (target : Option N) where
    dfs_new :
        (fuel : ℕ) (v : N) (stack : List N) (s : Search N) {t : Search N}
        → contains dn v g.nodes ≡ true
        → lookup dn v (record_path dn de target v (stack ++ v ∷ []) s).begin ≡ none
        → visit_all dn de
            (λ w. dfs dn de g target fuel w (stack ++ v ∷ []))
            (targets dn de g v)
            (enter dn de v (record_path dn de target v (stack ++ v ∷ []) s))
          ≡ finished (ok t)
        → dfs dn de g target (suc fuel) v stack s ≡ finished (ok (leave dn de v t))
    unfolding dfs
    dfs_new fuel v stack s inside new ran =
        rw (inside, new, dfs) (ap (λ r. run_then r (λ t. finished (ok (leave dn de v t)))) ran)

    -- With more fuel than there are nodes not reached, `dfs` ends without an exception.
    pub dfs_lem :
        (fuel : ℕ) (v : N) (stack : List N) (s : Search N)
        → contains dn v g.nodes ≡ true
        → unbegun s < fuel
        → (t : Search N) × (dfs dn de g target fuel v stack s ≡ finished (ok t))
          × Visited (v ∷ []) s t
    unfolding dfs
    dfs_lem zero v stack s inside h = absurd (omega arith)
    dfs_lem (suc fuel) v stack s inside h =
        let s₁ = record_path dn de target v (stack ++ v ∷ []) s in
        let same = begun-record_path target v (stack ++ v ∷ []) s in
        elim (lookup_of_begun s₁ v) [
          | inr (n, old, e) ↦ (
            s₁,
            rw (inside, e, dfs) refl,
            Visited-same (v ∷ []) s s₁ s₁ same (Visited-old v s₁ old),
          )
          | inl (new, e) ↦
              let (t, ran, visited) =
                visit_all_lem (λ w. dfs dn de g target fuel w (stack ++ v ∷ [])) fuel
                  (λ w. dfs_lem fuel w (stack ++ v ∷ [])) (targets dn de g v) (enter dn de v s₁)
                  (λ w c. closed v w c)
                  (lt_of_lt_le (unbegun-enter v s₁ inside new)
                    (le_of_lt_suc (unbegun_same s s₁ same) h)) in
              (
                leave dn de v t,
                dfs_new fuel v stack s inside e ran,
                Visited-same (v ∷ []) s s₁ (leave dn de v t) same (Visited-node v s₁ t new visited),
              )
        ]
