-- ===== src/Dependencies/Tests.antt =====
-- Runs of a RuleDependencyGraph, and its theorems at small rules.
use congress.Prelude.{
  some, lookup, insert, ℕ, ◌≡◌, refl, Bool, true, false, ◌&&◌, ◌||◌, none, [], ◌∷◌, contains, add,
  ℕ_discrete, ok, raise, List, attribute_error, tuple_discrete, pair_discrete,
}
use congress.Tablename.{Str, str_discrete, global_tablename, name, join}
use congress.Unify.{variable}
use congress.Literals.{Literal, Rule, is_atom, all_atoms, is_rule}
use congress.BagGraph.Laws.{empty_bag-IsValid}
use congress.Dependencies.{
  GraphChange, undo_changes, Parts, TableEdge, arrow_discrete, table_edge_discrete, RuleGraph,
  of_literal, of_rule, FormulaEvent, formula_nodes_edges, add_heads, add_head, add_body,
  edge_between, note_modal, is_atom_rule, formula_update, empty_rule_graph, selects,
}
use congress.ModalIndex
use congress.ModalIndex.{has_modal}
use congress.ModalIndex.Laws.{empty-IsValid}
use congress.Dependencies.Tables.{
  formula_nodes_edges_lem, is_any, same_node, head_name, in_body, edge_from,
}
use congress.Dependencies.Totals.{IsGood, nodes_at, edges_at, modals_at}
use congress.Dependencies.Undo.{undo_changes-formula_update}
use congress.Dependencies.Updates.{AreInserted, AreApart}

abbrev p : Str
p = 112 ∷ []

abbrev q : Str
q = 113 ∷ []

abbrev r : Str
r = 114 ∷ []

abbrev lit : Bool → Str → Literal ℕ
lit negated table = record {
  table = record { table = table; service = none; modal = none };
  arguments = variable (120 ∷ []) ∷ [];
  negated = negated;
  named_arguments = [];
}

-- p(x) :- q(x), not r(x)
abbrev sample : Rule ℕ
sample = record { heads = lit false p ∷ []; body = lit false q ∷ lit true r ∷ [] }

abbrev event : Bool → FormulaEvent ℕ
event inserts = record { formula = of_rule sample; target = none; inserts = inserts }

program : Unit {0}
unfolding formula_nodes_edges add_heads add_head add_body edge_between note_modal is_atom_rule
    is_rule global_tablename name contains add ℕ_discrete is_atom all_atoms tuple_discrete
    pair_discrete join
program = tt

sample-parts :
    formula_nodes_edges {C = ℕ} true none none none true (of_rule sample)
    ≡ ok (record {
      nodes = p ∷ q ∷ r ∷ [];
      edges = (p, (q, false)) ∷ (p, (r, true)) ∷ [];
      modals = record { index = [] };
    })
unfolding program
sample-parts = refl

-- A negated literal has no heads, and a fact as a rule has no table.
negated-raises :
    formula_nodes_edges {C = ℕ} true none none none true (of_literal (lit true p))
    ≡ raise attribute_error
unfolding program
negated-raises = refl

fact-raises :
    formula_nodes_edges {C = ℕ} true none none none true
      (of_rule (record { heads = lit false p ∷ []; body = [] }))
    ≡ raise attribute_error
unfolding program
fact-raises = refl

sample-proper : is_atom_rule sample ≡ false
unfolding program
sample-proper = refl

formula_nodes_edges_lem_example :
    (parts : Parts) × (formula_nodes_edges {C = ℕ} true none none none true (of_rule sample)
      ≡ ok parts)
    × ((v : Str)
        → contains str_discrete v parts.nodes
          ≡ is_any
              (λ head.
                selects none head
                && (same_node v (head_name {C = ℕ} true none none none head)
                    || in_body {C = ℕ} true none none none sample.body v))
              sample.heads)
    × ((e : TableEdge)
        → contains table_edge_discrete e parts.edges
          ≡ is_any
              (λ head.
                selects none head && edge_from {C = ℕ} true none none none sample.body e head)
              sample.heads)
formula_nodes_edges_lem_example =
    formula_nodes_edges_lem {C = ℕ} true none none none true sample sample-proper

empty-IsGood : IsGood (empty_rule_graph true)
empty-IsGood =
    (empty_bag-IsValid str_discrete arrow_discrete, empty-IsValid str_discrete str_discrete)

-- insert[p(x)] :- q(x), and then the rule above
abbrev with_modal : Rule ℕ
with_modal = record {
  heads =
      record (lit false p) { table = record { table = p; service = none; modal = some (105 ∷ []) } }
      ∷ [];
  body = lit false q ∷ [];
}

abbrev two_events : List (FormulaEvent ℕ)
two_events =
    record { formula = of_rule with_modal; target = none; inserts = true } ∷ event true ∷ []

modal-parts :
    formula_nodes_edges {C = ℕ} true none none none true (of_rule with_modal)
    ≡ ok (record {
      nodes = p ∷ q ∷ [];
      edges = (p, (q, false)) ∷ [];
      modals = record { index = (105 ∷ [], (p, 1) ∷ []) ∷ [] };
    })
unfolding program ModalIndex.add_table ModalIndex.increment lookup insert
modal-parts = refl

sample-AreInserted : AreInserted {C = ℕ} true none none true two_events
sample-AreInserted = (refl, (_, modal-parts), (refl, (_, sample-parts), tt))

sample-AreApart :
    AreApart {C = ℕ} true none none
      (empty_rule_graph true).modal_index
      true
      two_events
      sample-AreInserted
unfolding has_modal contains sample-AreInserted
sample-AreApart = (λ modal here new. (refl, tt), ((λ modal here new. tt), tt))

undo_changes-formula_update_example :
    (changes : List GraphChange) × (g' g'' : RuleGraph) × (formula_update {C = ℕ} true none none
        two_events
        (empty_rule_graph true)
      ≡ (ok changes, g'))
    × (undo_changes changes g' ≡ (ok tt, g''))
    × IsGood g''
    × ((v : Str) → nodes_at v g'' ≡ nodes_at v (empty_rule_graph true))
    × ((e : TableEdge) → edges_at e g'' ≡ edges_at e (empty_rule_graph true))
    × ((modal table : Str)
        → modals_at modal table g'' ≡ modals_at modal table (empty_rule_graph true))
undo_changes-formula_update_example =
    undo_changes-formula_update {C = ℕ} true none none two_events (empty_rule_graph true)
      empty-IsGood sample-AreInserted sample-AreApart
