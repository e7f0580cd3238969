-- ===== src/Lib.antt =====
-- The policy engine of Congress (congress/datalog): its data structures and their algorithms.
--
-- Congress evaluates Datalog policies. A theory keeps its facts in FactSets and its rules in
-- OrderedSets (ruleset.py); evaluation unifies the arguments of literals with the heads of rules
-- and with facts (unify.py); the compiler keeps a dependency graph of tables (utility.py,
-- compile.py), from which it computes which tables a table depends on, and the strata in which
-- rules with negation can be evaluated; and a ModalIndex (analysis.py) counts the tables under
-- each modal. Each of these is a module of its own here, and all of them use Prelude.
--
-- - OrderedSet: the class OrderedSet of congress/datalog/utility.py, a dict of doubly linked
--   cells. `init` is __init__, `insert_key` is add, `discard_key` is discard, `pop` is pop,
--   `iter` and `reversed` are __iter__ and __reversed__, `same_keys` is __eq__. OrderedSet/Links
--   is about the links, OrderedSet/Refines relates the cells to the list of the keys.
-- - FactSet: the class FactSet of congress/datalog/factset.py. `add_fact` is add, `remove_fact`
--   is remove, `compute_key`, `add_fact_to_index` and `remove_fact_from_index` are the methods of
--   these names, `scan` is the loop of `find` over all facts. FactSet/Index, Loops, Valid, Create
--   and Find are about one index, the loops over facts and indicies, add and remove,
--   create_index, and find.
-- - ModalIndex: the class ModalIndex of congress/datalog/analysis.py. `add_table` is add,
--   `clean_up` is _clean_up, `isub` and `iadd` are __isub__ and __iadd__. ModalIndex/Counts has
--   the count of a table, Laws the invariant, Merge the counts after the two in-place operators,
--   Pairs, Taken, Subtract and Plus the invariant after them.
-- - Graph: the class Graph of congress/datalog/utility.py with its depth-first search. `Search`
--   holds the dfs_data of the nodes, Graph/Dfs is about `dfs`, Graph/Reach about the questions
--   that are answered by it, Graph/Nodes about the nodes of a graph, Graph/Inverted has
--   `_inverted_edge_graph` and `find_dependent_nodes`.
-- - BagGraph: the class BagGraph of congress/datalog/utility.py, a Graph with reference counts.
--   BagGraph/Counts is about the counts, BagGraph/Laws and BagGraph/Edges about the operations.
-- - Strata: Graph.stratification. Strata/Sweep is about one pass over the edges, Strata/Rounds
--   about the passes, Strata/Ranks about how many can change something, Strata/Correct about the
--   result.
-- - Unify: bi_unify_lists of congress/datalog/unify.py and what it calls. Unify/Ends is about
--   chains of bindings, Unify/Extend about a new binding, Unify/Lists about lists of terms and of
--   changes, Unify/Steps about one round of the loop, Unify/Correct about the result,
--   Unify/Valuations about the valuation that a store has.
-- - Tablename: the class Tablename of congress/datalog/compile.py; `same_table` is `same`,
--   `same_name` is __eq__. Tablename/Strings is about splitting strings, Tablename/Updates about
--   `p+` and `p-`, Tablename/Services about names with a service.
-- - Literals: the classes Literal and Rule of congress/datalog/compile.py. Literals/Equality
--   decides their equality, Literals/Variables is about variables and unused prefixes.
-- - Builtins: CongressBuiltinCategoryMap of congress/datalog/builtin.py.
-- - Safety: `reorder_for_safety` and the checks of rules in congress/datalog/compile.py, which
--   use Literals and Builtins. Safety/Settle and Loop are about `make_safe_plus`, Safety/Order
--   says what a safe order is, Safety/Place is about one literal of the body, Safety/Complete and
--   Stable about the whole, Safety/Heads has the checks of heads.
-- - Dependencies: RuleDependencyGraph of congress/datalog/compile.py, a BagGraph of table names
--   with a ModalIndex. `update_event` is the body of the loop of `formula_update`.
--   Dependencies/Tables and Modals are about `formula_nodes_edges`, Totals says what changes
--   count, Insertions and Updates are about insertions, Undo about `undo_changes`.
-- - Contexts and TopDown: the class TopDownTheory of congress/datalog/topdown.py, over the store
--   of Unify, and bi_unify_atoms of congress/datalog/unify.py. Contexts has the state of a search
--   and `top_down_finish`; `Progress` is what a search changes: the unifiers and the caller's
--   results. In TopDown, `evaluate_rules` (_top_down_th), `evaluate_includes`, `evaluate_module`,
--   `evaluate_builtin` and `evaluate_negation` are the branches of the search; each takes the
--   evaluation that it calls as an argument, and `top_down_eval` gives it that with less fuel.
--   What a theory has for a table (head_index of a subclass) and the code of the builtins are
--   parameters. TopDown/Goals says what a model of theories is, which takes negated literals and
--   builtins in bodies for true and so is one of the rules as they stand where they have none,
--   TopDown/Steps is about the ends of proofs, Rules, Includes and Branches about the parts of
--   the search, Correct about the whole, Answers about `select`.
-- - Schemas: the class Schema of congress/datalog/compile.py. Schemas/Laws is about `update` and
--   `revert`, Schemas/Columns about the numbers of columns.
-- - RuleSet: the class RuleSet of congress/datalog/ruleset.py, over FactSet and OrderedSet;
--   `has_item` is `contains`, `has_key` is __contains__. RuleSet/Entries and Rules are about its
--   facts and its rules, Laws about `add_rule` and `discard_rule`, Match about `get_rules`.
-- - Triggers: TriggerRegistry of congress/policy_engines/agnostic.py, a client of
--   Graph.dependencies. Triggers/Changes says which tables an event changes, Index is about the
--   index, Laws about the operations.
-- - Database: the class Database of congress/datalog/database.py with its ProofCollection and
--   DBTuple. `isub`, `ior`, `ge`, `le` and `same_proofs` are __isub__, __ior__, __ge__, __le__
--   and __eq__ of collections; `modify`, `is_noop`, `insert_actual` and `delete_actual` are the
--   methods of these names, `has_atom` is __contains__. Database/Proofs is about collections,
--   Tuples about the rows of a table, Modify and Changes about events; Content has `content`,
--   `__sub__` (`sub`), `explain` and `get_arity_self`.
-- - Prelude: lists without repetition as Python's sets, association lists as its dicts, results
--   that are values or exceptions, and runs that may be out of fuel.
--
-- A method that changes its object is a function of the state that returns the new state, with
-- the exception or the value that the method ends with; on an exception the state is the one at
-- that point. Iteration over a Python set or dict goes in the order of the list that models it.
-- Types of keys, nodes, labels, facts' values, variable names and constants are parameters whose
-- equality is decided.
--
-- Fuel: `walk` through the cells of an OrderedSet has as much as there are keys. The passes of
-- `stratification` have n * n + 1 for n nodes, since each pass but the last raises a stratum and
-- none passes n. A search of Graph has one more than there are nodes, since each nested call
-- begins a new node. A chain of bindings has one more than there are bindings in the store. The
-- loop of `make_safe_plus` has one more than there are unsafe literals, and that of
-- `_unused_variable_prefix` one more than the length of the longest variable. Top-down evaluation
-- takes any fuel; where the theories have a model, which weighs literals so that what a literal
-- is evaluated by weighs less, more than the query costs is enough. The theorems show that each
-- of these is enough on valid states.
--
-- Not modelled: the enumeration of cycles, what a search does to the cache of cycles, and the
-- union of graphs, the sharing of an inner dict between the index of modals and the change that
-- brings a new modal (the theorems on `formula_update` leave out the events where it shows), the
-- parser and the compiler's checks, the theories' own methods, abduction and tracing in the
-- evaluation of queries, the code of the builtins, and all that is around the engine: data
-- sources, message bus, database, web API, dashboard.
pub mod Prelude
pub mod OrderedSet
pub mod FactSet
pub mod ModalIndex
pub mod Graph
pub mod BagGraph
pub mod Strata
pub mod Unify
pub mod Database
pub mod Dependencies
pub mod Schemas
pub mod RuleSet
pub mod Tablename
pub mod Builtins
pub mod Literals
pub mod Safety
pub mod TopDown
pub mod Contexts
pub mod Triggers
