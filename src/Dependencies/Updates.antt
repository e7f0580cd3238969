-- ===== src/Dependencies/Updates.antt =====
-- What insertions do to the counts of a RuleDependencyGraph.
use congress.Prelude.{
  ◌≡◌, refl, ◌∙◌, ap, Bool, true, false, Option, List, [], ◌∷◌, ◌++◌, arith, Result, ok, bind_ok,
  ◌>>=◌, subst,
}
use congress.Tablename.{Str, str_discrete}
use congress.Literals.{Literal}
use congress.BagGraph.{BagGraph, node_count, edge_count}
use congress.BagGraph
use congress.BagGraph.Laws
use congress.ModalIndex.{ModalIndex, iadd, has_modal}
use congress.ModalIndex.Plus.{iadd-IsValid}
use congress.ModalIndex.Merge.{count-iadd}
use congress.Dependencies.{
  arrow_discrete, Parts, RuleGraph, GraphChange, node_change, edge_change, modal_change, run_all,
  make_change, FormulaEvent, formula_nodes_edges, changes_of, update_event, formula_update,
}
use congress.Dependencies.Modals.{WithValid, formula_nodes_edges-WithValid}
use congress.Dependencies.Insertions.{first-AreInsertions, insertions-changes_of, insertions-append}
use congress.Dependencies.Totals.{AreInsertions, IsRaised, IsGood, IsRaised-append}

make_change_lem :
    (change : GraphChange) (g : RuleGraph)
    → IsGood g
    → AreInsertions (change ∷ [])
    → (g' : RuleGraph) × (make_change change g ≡ (ok tt, g'))
      × IsGood g'
      × (g'.head_to_body ≡ g.head_to_body)
      × IsRaised (change ∷ []) g g'
unfolding make_change
make_change_lem (node_change v false) g good (e, _) = cc
make_change_lem (edge_change edge false) g good (e, _) = cc
make_change_lem (modal_change m false) g good (e, _) = cc
make_change_lem (node_change v true) g good _ =
    let (valid, counts) = Laws.add_node_lem str_discrete arrow_discrete v g.bag good.0 in
    (
      record g { bag = BagGraph.add_node str_discrete arrow_discrete v g.bag },
      refl,
      (valid, good.1),
      refl,
      (
        λ w. ground (arith, counts w),
        λ w.
            ground
              (arith, Laws.edge_count-add_node str_discrete arrow_discrete v w.0 w.1.0 w.1.1 g.bag),
        λ m t. ground arith,
      ),
    )
make_change_lem (edge_change (a, (c, l)) true) g good _ =
    let (valid, counts, edges) = Laws.add_edge_lem str_discrete arrow_discrete a c l g.bag good.0 in
    (
      record g { bag = BagGraph.add_edge str_discrete arrow_discrete a c l g.bag },
      refl,
      (valid, good.1),
      refl,
      (
        λ w. ground (arith, counts w),
        λ w. ground (arith, edges w.0 w.1.0 w.1.1),
        λ m t. ground arith,
      ),
    )
make_change_lem (modal_change m true) g good (_, (valid, _)) = (
  record g { modal_index = iadd str_discrete str_discrete m g.modal_index },
  refl,
  (good.0, iadd-IsValid str_discrete str_discrete m g.modal_index valid good.1),
  refl,
  (
    λ w. ground arith,
    λ w. ground arith,
    λ i t. ground (arith, count-iadd str_discrete str_discrete i t m g.modal_index valid),
  ),
)

run_all-make_change :
    (changes : List GraphChange) (g : RuleGraph)
    → IsGood g
    → AreInsertions changes
    → (g' : RuleGraph) × (run_all make_change changes g ≡ (ok tt, g'))
      × IsGood g'
      × (g'.head_to_body ≡ g.head_to_body)
      × IsRaised changes g g'
unfolding run_all
run_all-make_change [] g good h =
    (g, refl, good, refl, (λ v. ground arith, λ e. ground arith, λ m t. ground arith))
run_all-make_change (change ∷ changes) g good h =
    let (h₁, h₂) = first-AreInsertions change changes h in
    let (g₁, run₁, good₁, same₁, raised₁) = make_change_lem change g good h₁ in
    let (g₂, run₂, good₂, same₂, raised₂) = run_all-make_change changes g₁ good₁ h₂ in
    (
      g₂,
      bind_ok (make_change change) (λ _. run_all make_change changes) g g₁ tt run₁ ∙ run₂,
      good₂,
      same₂ ∙ same₁,
      IsRaised-append (change ∷ []) changes g g₁ g₂ raised₁ raised₂,
    )

module _ {C : Type 0} (include_atoms : Bool)
    (select_head select_body : Option (Literal C → Bool)) where
  abbrev pub parts_of : Bool → FormulaEvent C → Result Parts
  parts_of head_to_body event =
      formula_nodes_edges head_to_body event.target select_head select_body include_atoms
        event.formula

  -- Insertions of formulas for which `formula_nodes_edges` does not raise.
  abbrev pub AreInserted : Bool → List (FormulaEvent C) → Type 0
  AreInserted head_to_body [] = Unit
  AreInserted head_to_body (event ∷ events) =
      (event.inserts ≡ true)
      × ((parts : Parts) × (parts_of head_to_body event ≡ ok parts))
      × AreInserted head_to_body events

  -- Their changes.
  abbrev pub insertions :
      (head_to_body : Bool) (events : List (FormulaEvent C))
      → AreInserted head_to_body events
      → List GraphChange
  insertions head_to_body [] _ = []
  insertions head_to_body (event ∷ events) (_, (parts, _), rest) =
      changes_of true parts ++ insertions head_to_body events rest

  -- No later event has the modal.
  abbrev IsWithout :
      Str
      → (head_to_body : Bool) (events : List (FormulaEvent C)) → AreInserted head_to_body events
      → Type 0
  IsWithout modal head_to_body [] _ = Unit
  IsWithout modal head_to_body (event ∷ events) (_, (parts, _), rest) =
      (has_modal str_discrete str_discrete modal parts.modals ≡ false)
      × IsWithout modal head_to_body events rest

  -- A modal that is new to the index is that of one event at most. In the code the index takes over
  -- the dict of a new modal from the change itself, so another event with this modal would write to
  -- the change that was made before it; here they are values.
  abbrev pub AreApart :
      ModalIndex Str Str
      → (head_to_body : Bool) (events : List (FormulaEvent C)) → AreInserted head_to_body events
      → Type 0
  AreApart index head_to_body [] _ = Unit
  AreApart index head_to_body (event ∷ events) (_, (parts, _), rest) =
      ((modal : Str)
        → has_modal str_discrete str_discrete modal parts.modals ≡ true
        → has_modal str_discrete str_discrete modal index ≡ false
        → IsWithout modal head_to_body events rest)
      × AreApart index head_to_body events rest

  pub insertions-AreInsertions :
      (head_to_body : Bool) (events : List (FormulaEvent C))
      (inserted : AreInserted head_to_body events)
      → AreInsertions (insertions head_to_body events inserted)
  insertions-AreInsertions head_to_body [] _ = tt
  insertions-AreInsertions head_to_body (event ∷ events) (_, (parts, run), rest) =
      insertions-append (changes_of true parts) (insertions head_to_body events rest)
        (insertions-changes_of parts (
          subst WithValid run (
            formula_nodes_edges-WithValid head_to_body event.target select_head select_body
              include_atoms event.formula)))
        (insertions-AreInsertions head_to_body events rest)

  update_event_lem :
      (event : FormulaEvent C) (parts : Parts) (g : RuleGraph)
      → IsGood g
      → event.inserts ≡ true
      → parts_of g.head_to_body event ≡ ok parts
      → (g' : RuleGraph) × (update_event include_atoms select_head select_body event g
          ≡ (ok (changes_of true parts), g'))
        × IsGood g'
        × (g'.head_to_body ≡ g.head_to_body)
        × IsRaised (changes_of true parts) g g'
  unfolding update_event
  update_event_lem event parts g good e run =
      let valid = subst WithValid run (
        formula_nodes_edges-WithValid g.head_to_body event.target select_head select_body
          include_atoms event.formula) in
      let (g', run', good', same, raised) =
        run_all-make_change (changes_of true parts) g good (insertions-changes_of parts valid) in
      (
        g',
        rw (run, e, update_event)
            (bind_ok (run_all make_change (changes_of true parts))
              (λ _ g''. (ok (changes_of true parts), g'')) g g' tt run'),
        good',
        same,
        raised,
      )

  update_from :
      (head_to_body : Bool) (events : List (FormulaEvent C)) (g : RuleGraph)
      → IsGood g
      → g.head_to_body ≡ head_to_body
      → (inserted : AreInserted head_to_body events)
      → (g' : RuleGraph) × (formula_update include_atoms select_head select_body events g
          ≡ (ok (insertions head_to_body events inserted), g'))
        × IsGood g'
        × IsRaised (insertions head_to_body events inserted) g g'
  unfolding formula_update
  update_from head_to_body [] g good same inserted =
      (g, refl, good, (λ v. ground arith, λ e. ground arith, λ m t. ground arith))
  update_from head_to_body (event ∷ events) g good same (e, (parts, found), rest) =
      let (g₁, run₁, good₁, same₁, raised₁) =
        update_event_lem event parts g good e (ap (λ b. parts_of b event) same ∙ found) in
      let (g₂, run₂, good₂, raised₂) =
        update_from head_to_body events g₁ good₁ (same₁ ∙ same) rest in
      (
        g₂,
        bind_ok (update_event include_atoms select_head select_body event)
              (λ changes. formula_update include_atoms select_head select_body events >>= λ more g'.
                (ok (changes ++ more), g'))
              g g₁ (changes_of true parts) run₁
            ∙ bind_ok (formula_update include_atoms select_head select_body events)
                (λ more g'. (ok (changes_of true parts ++ more), g')) g₁ g₂
                (insertions head_to_body events rest) run₂,
        good₂,
        IsRaised-append (changes_of true parts) (insertions head_to_body events rest) g g₁ g₂
            raised₁ raised₂,
      )

  pub formula_update_lem :
      (events : List (FormulaEvent C)) (g : RuleGraph)
      → IsGood g
      → (inserted : AreInserted g.head_to_body events)
      → AreApart g.modal_index g.head_to_body events inserted
      → (g' : RuleGraph) × (formula_update include_atoms select_head select_body events g
          ≡ (ok (insertions g.head_to_body events inserted), g'))
        × IsGood g'
        × IsRaised (insertions g.head_to_body events inserted) g g'
  formula_update_lem events g good inserted apart =
      update_from g.head_to_body events g good refl inserted
