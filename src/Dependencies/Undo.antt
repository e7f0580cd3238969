-- ===== src/Dependencies/Undo.antt =====
-- `undo_changes` of a RuleDependencyGraph, after insertions.
use congress.Prelude.{
  ◌-◌, ◌≡◌, refl, ◌∙◌, ap, sym, Bool, true, false, Option, List, [], ◌∷◌, arith, ok, bind_ok,
}
use congress.Tablename.{Str, str_discrete}
use congress.Literals.{Literal}
use congress.BagGraph.Laws
use congress.BagGraph.Edges.{delete_edge_lem}
use congress.ModalIndex.Counts
use congress.ModalIndex.Merge.{count-isub}
use congress.ModalIndex.Subtract.{isub-IsValid}
use congress.Dependencies.{
  TableEdge, arrow_discrete, RuleGraph, GraphChange, node_change, edge_change, modal_change,
  run_all, make_change, opposite, undo_changes, FormulaEvent, formula_update,
}
use congress.Dependencies.Totals.{AreInsertions, IsRaised, IsGood, nodes_at, edges_at, modals_at}
use congress.Dependencies.Insertions.{first-AreInsertions}
use congress.Dependencies.Updates.{
  insertions-AreInsertions, AreInserted, AreApart, insertions, formula_update_lem,
}

make_change-opposite :
    (change : GraphChange) (changes : List GraphChange) (before g : RuleGraph)
    → IsGood g
    → AreInsertions (change ∷ changes)
    → IsRaised (change ∷ changes) before g
    → (g' : RuleGraph) × (make_change (opposite change) g ≡ (ok tt, g'))
      × IsGood g'
      × IsRaised changes before g'
unfolding make_change
make_change-opposite (node_change v false) changes before g good h raised = cc
make_change-opposite (edge_change edge false) changes before g good h raised = cc
make_change-opposite (modal_change m false) changes before g good h raised = cc
make_change-opposite (node_change v true) changes before g good h (n, e, m) =
    let (bag, run, valid, same, counts) =
      Laws.delete_node_lem str_discrete arrow_discrete v g.bag good.0 in
    (
      record g { bag = bag },
      ap (λ r. (r.0, record g { bag = r.1 })) run,
      (valid, good.1),
      (
        λ w. ground (arith, n w, counts w),
        λ f. ground (
          arith,
          e f,
          Laws.edge_count-same str_discrete arrow_discrete f.0 f.1.0 f.1.1 g.bag bag same,
        ),
        λ i t. ground (arith, m i t),
      ),
    )
make_change-opposite (edge_change (a, (c, l)) true) changes before g good h (n, e, m) =
    let (bag, run, valid, edges, counts) =
      delete_edge_lem str_discrete arrow_discrete a c l g.bag good.0 in
    (
      record g { bag = bag },
      ap (λ r. (r.0, record g { bag = r.1 })) run,
      (valid, good.1),
      (
        λ w. ground (arith, n w, counts w, e (a, (c, l))),
        λ f. ground (arith, e f, edges f.0 f.1.0 f.1.1),
        λ i t. ground (arith, m i t),
      ),
    )
make_change-opposite (modal_change modals true) changes before g good h (n, e, m) =
    let (index, run, valid) = isub-IsValid str_discrete str_discrete modals g.modal_index good.1 in
    (
      record g { modal_index = index },
      ap (λ r. (r.0, record g { modal_index = r.1 })) run,
      (good.0, valid),
      (
        λ w. ground (arith, n w),
        λ f. ground (arith, e f),
        λ i t.
            let less : Counts.count str_discrete str_discrete i t index
                ≡ Counts.count str_discrete str_discrete i t g.modal_index
                  - Counts.count str_discrete str_discrete i t modals =
              ap (λ r. Counts.count str_discrete str_discrete i t r.1) (sym run)
              ∙ count-isub str_discrete str_discrete i t modals g.modal_index in
            ground (arith, m i t, less),
      ),
    )

undo_changes_lem :
    (changes : List GraphChange) (before g : RuleGraph)
    → IsGood g
    → AreInsertions changes
    → IsRaised changes before g
    → (g' : RuleGraph) × (undo_changes changes g ≡ (ok tt, g')) × IsGood g' × IsRaised [] before g'
unfolding undo_changes run_all
undo_changes_lem [] before g good h raised = (g, refl, good, raised)
undo_changes_lem (change ∷ changes) before g good h raised =
    let (g₁, run₁, good₁, raised₁) = make_change-opposite change changes before g good h raised in
    let (g₂, run₂, good₂, raised₂) =
      undo_changes_lem changes before g₁ good₁ (first-AreInsertions change changes h).1 raised₁ in
    (
      g₂,
      bind_ok (make_change (opposite change)) (λ _. run_all (λ c. make_change (opposite c)) changes)
            g g₁ tt run₁
          ∙ run₂,
      good₂,
      raised₂,
    )

module _ {C : Type 0} (include_atoms : Bool)
    (select_head select_body : Option (Literal C → Bool)) where
  -- On a graph with a valid BagGraph and a valid ModalIndex, `undo_changes` of the changes that
  -- `formula_update` returns for insertions of formulas, for which `formula_nodes_edges` does not
  -- raise and of which two never have the same modal that is new to the graph, raises nothing. It gives back the counts of every node, of every edge, and of every
  -- table under a modal, in a graph that is as valid.
  pub undo_changes-formula_update :
      (events : List (FormulaEvent C)) (g : RuleGraph)
      → IsGood g
      → (inserted : AreInserted include_atoms select_head select_body g.head_to_body events)
      → AreApart include_atoms select_head select_body g.modal_index g.head_to_body events inserted
      → (changes : List GraphChange) × (g' g'' : RuleGraph) × (formula_update include_atoms
            select_head select_body events g
          ≡ (ok changes, g'))
        × (undo_changes changes g' ≡ (ok tt, g''))
        × IsGood g''
        × ((v : Str) → nodes_at v g'' ≡ nodes_at v g)
        × ((e : TableEdge) → edges_at e g'' ≡ edges_at e g)
        × ((modal table : Str) → modals_at modal table g'' ≡ modals_at modal table g)
  undo_changes-formula_update events g good inserted apart =
      let (g', run, good', raised) =
        formula_update_lem include_atoms select_head select_body events g good inserted apart in
      let changes =
        insertions include_atoms select_head select_body g.head_to_body events inserted in
      let (g'', undone, good'', (n, e, m)) =
        undo_changes_lem changes g g' good'
          (insertions-AreInsertions include_atoms select_head select_body g.head_to_body events
            inserted)
          raised in
      (
        changes,
        g',
        g'',
        run,
        undone,
        good'',
        λ v. ground (arith, n v),
        λ f. ground (arith, e f),
        λ i t. ground (arith, m i t),
      )
