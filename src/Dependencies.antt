-- ===== src/Dependencies.antt =====
-- The class RuleDependencyGraph of congress/datalog/compile.py: a BagGraph of the names of tables,
-- with the ModalIndex of the heads. What `select_head` and `select_body` are called with is a
-- Literal, and they are None or a function. A Formula is a Literal or a Rule. The ModalIndex of a
-- change is a value of its own here; in the code an index of the graph that has not had a modal
-- shares its dict with the change that brings it. The theorems on `formula_update` are about events
-- of which two never bring the same new modal, where the sharing changes nothing that is returned.
pub mod Insertions
pub mod Modals
pub mod Tables
pub mod Totals
pub mod Undo
pub mod Updates
mod Tests
use mathlib.Core.Bool.{Bool-discrete}
use congress.Prelude.{
  refl, Bool, true, false, ◌&&◌, not, Option, none, some, List, [], ◌∷◌, ◌++◌, if◌then◌else◌, add,
  pair_discrete, is_empty, Result, ok, raise, attribute_error, Action, ◌>>=◌, ◌>>◌,
}
use congress.Tablename.{Str, str_discrete, Tablename, global_tablename, name}
use congress.Literals.{Literal, Rule, is_atom, is_rule}
use congress.ModalIndex.{ModalIndex}
use congress.ModalIndex
use congress.BagGraph.{BagGraph, empty_bag}
use congress.BagGraph

pub data Formula (C : Type 0) : Type 0 where
  of_literal : Literal C → Formula C
  of_rule : Rule C → Formula C

-- A source, a target and a label, which is whether the literal is negated.
abbrev pub TableEdge : Type 0
TableEdge = Str × (Str × Bool)

abbrev pub arrow_discrete : Discrete (Str × Bool)
arrow_discrete = pair_discrete str_discrete Bool-discrete

abbrev pub table_edge_discrete : Discrete TableEdge
table_edge_discrete = pair_discrete str_discrete arrow_discrete

-- NODES, EDGES and MODALS.
pub record Parts : Type 0 where
  pub nodes : List Str
  pub edges : List TableEdge
  pub modals : ModalIndex Str Str

abbrev pub no_parts : Parts
no_parts = record { nodes = []; edges = []; modals = record { index = [] } }

-- `select is None or select(x)`
abbrev pub selects : {A : Type 0} → Option (A → Bool) → A → Bool
selects none x = true
selects (some select) x = select x

-- `if table.modal: modals.add(table.modal, name)`
pub note_modal : Option Str → Str → ModalIndex Str Str → ModalIndex Str Str
note_modal none table modals = modals
note_modal (some []) table modals = modals
note_modal (some (c ∷ modal)) table modals =
    ModalIndex.add_table str_discrete str_discrete (c ∷ modal) table modals

-- `is_atom_rule`, of a Rule
pub is_atom_rule : {C : Type 0} → Rule C → Bool
is_atom_rule rule = elim rule.heads [
  | [] ↦ false
  | head ∷ heads ↦ is_empty heads && (is_rule rule && is_empty rule.body)
]

module _ {C : Type 0} (head_to_body : Bool) (theory : Option Str)
    (select_head select_body : Option (Literal C → Bool)) where
  pub edge_between : Str → Literal C → TableEdge
  edge_between head_table lit =
      if head_to_body
      then (head_table, (name lit.table theory, lit.negated))
      else (name lit.table theory, (head_table, lit.negated))

  -- The loop over the body.
  pub add_body : Str → List (Literal C) → Parts → Parts
  add_body head_table [] parts = parts
  add_body head_table (lit ∷ body) parts = add_body head_table body (
      if selects select_body lit
      then record parts {
        nodes = add str_discrete (name lit.table theory) parts.nodes;
        edges = add table_edge_discrete (edge_between head_table lit) parts.edges;
      }
      else parts)

  pub add_head : List (Literal C) → Literal C → Parts → Parts
  add_head body head parts =
      let head_table = global_tablename head.table theory in
      if selects select_head head
      then add_body head_table body (record parts {
        nodes = add str_discrete head_table parts.nodes;
        modals = note_modal head.table.modal head_table parts.modals;
      })
      else parts

  -- The loop over the heads.
  pub add_heads : List (Literal C) → List (Literal C) → Parts → Parts
  add_heads body [] parts = parts
  add_heads body (head ∷ heads) parts = add_heads body heads (add_head body head parts)

  -- A negated literal has no heads, and a rule has no table.
  pub formula_nodes_edges : Bool → Formula C → Result Parts
  formula_nodes_edges include_atoms (of_literal lit) =
      let table = global_tablename lit.table theory in
      if is_atom lit
      then if include_atoms
        then ok (record no_parts {
          nodes = table ∷ [];
          modals = note_modal lit.table.modal table no_parts.modals;
        })
        else ok no_parts
      else raise attribute_error
  formula_nodes_edges include_atoms (of_rule rule) =
      if is_atom_rule rule
      then if include_atoms then raise attribute_error else ok no_parts
      else ok (add_heads rule.body rule.heads no_parts)

-- The graph with its `modal_index`.
pub record RuleGraph : Type 0 where
  pub bag : BagGraph Str Bool
  pub modal_index : ModalIndex Str Str
  pub head_to_body : Bool

abbrev pub empty_rule_graph : Bool → RuleGraph
empty_rule_graph head_to_body = record {
  bag = empty_bag;
  modal_index = record { index = [] };
  head_to_body = head_to_body;
}

-- What `formula_update` returns for `undo_changes`: the last field is whether it is an insertion.
pub data GraphChange : Type 0 where
  node_change : Str → Bool → GraphChange
  edge_change : TableEdge → Bool → GraphChange
  modal_change : ModalIndex Str Str → Bool → GraphChange

-- `self.m(...)` of the BagGraph, and of the index.
abbrev on_bag : Action (BagGraph Str Bool) Unit → Action RuleGraph Unit
on_bag action g = let (r, bag) = action g.bag in (r, record g { bag = bag })

abbrev on_index : Action (ModalIndex Str Str) Unit → Action RuleGraph Unit
on_index action g =
    let (r, modal_index) = action g.modal_index in (r, record g { modal_index = modal_index })

-- `for x in xs: step(x)`
pub run_all : {A S : Type 0} → (A → Action S Unit) → List A → Action S Unit
run_all step [] s = (ok tt, s)
run_all step (x ∷ xs) s = (step x >> run_all step xs) s

-- One change, made.
pub make_change : GraphChange → Action RuleGraph Unit
make_change (node_change node true) g =
    (ok tt, record g { bag = BagGraph.add_node str_discrete arrow_discrete node g.bag })
make_change (node_change node false) g =
    on_bag (BagGraph.delete_node str_discrete arrow_discrete node) g
make_change (edge_change (src, (dst, label)) true) g =
    (ok tt, record g { bag = BagGraph.add_edge str_discrete arrow_discrete src dst label g.bag })
make_change (edge_change (src, (dst, label)) false) g =
    on_bag (BagGraph.delete_edge str_discrete arrow_discrete src dst label) g
make_change (modal_change modals true) g = (
  ok tt,
  record g { modal_index = ModalIndex.iadd str_discrete str_discrete modals g.modal_index },
)
make_change (modal_change modals false) g =
    on_index (ModalIndex.isub str_discrete str_discrete modals) g

abbrev pub opposite : GraphChange → GraphChange
opposite (node_change node inserts) = node_change node (not inserts)
opposite (edge_change edge inserts) = edge_change edge (not inserts)
opposite (modal_change modals inserts) = modal_change modals (not inserts)

pub undo_changes : List GraphChange → Action RuleGraph Unit
undo_changes changes = run_all (λ change. make_change (opposite change)) changes

-- An Event on a formula; `target` is the theory.
pub record FormulaEvent (C : Type 0) : Type 0 where
  pub formula : Formula C
  pub target : Option Str
  pub inserts : Bool

-- The changes of an event, in the order in which its loops make them.
abbrev pub node_changes : Bool → List Str → List GraphChange
node_changes inserts [] = []
node_changes inserts (node ∷ nodes) = node_change node inserts ∷ node_changes inserts nodes

abbrev pub edge_changes : Bool → List TableEdge → List GraphChange
edge_changes inserts [] = []
edge_changes inserts (edge ∷ edges) = edge_change edge inserts ∷ edge_changes inserts edges

abbrev pub changes_of : Bool → Parts → List GraphChange
changes_of inserts parts =
    node_changes inserts parts.nodes
    ++ (edge_changes inserts parts.edges ++ modal_change parts.modals inserts ∷ [])

module _ {C : Type 0} (include_atoms : Bool)
    (select_head select_body : Option (Literal C → Bool)) where
  -- The changes of the event are made; they are returned.
  pub update_event : FormulaEvent C → Action RuleGraph (List GraphChange)
  update_event event g =
      elim (formula_nodes_edges g.head_to_body event.target select_head select_body include_atoms
        event.formula) [
          | raise e ↦ (raise e, g)
          | ok parts ↦
              (run_all make_change (changes_of event.inserts parts)
                  >> (λ g'. (ok (changes_of event.inserts parts), g')))
                g
        ]

  pub formula_update : List (FormulaEvent C) → Action RuleGraph (List GraphChange)
  formula_update [] g = (ok [], g)
  formula_update (event ∷ events) g =
      (update_event event >>= λ changes.
      formula_update events >>= λ rest g'. (ok (changes ++ rest), g'))
        g

  pub formula_insert : Formula C → Option Str → Action RuleGraph (List GraphChange)
  formula_insert formula theory g =
      formula_update (record { formula = formula; target = theory; inserts = true } ∷ []) g

  pub formula_delete : Formula C → Option Str → Action RuleGraph (List GraphChange)
  formula_delete formula theory g =
      formula_update (record { formula = formula; target = theory; inserts = false } ∷ []) g

-- `table_delete`, `tables` and `tables_with_modal`
pub table_delete : Str → Action RuleGraph Unit
table_delete table g = on_bag (BagGraph.delete_node str_discrete arrow_discrete table) g

pub all_tables : RuleGraph → List Str
all_tables g = g.bag.graph.nodes

pub tables_with_modal : Str → RuleGraph → List Str
tables_with_modal modal g = ModalIndex.tables str_discrete str_discrete modal g.modal_index
