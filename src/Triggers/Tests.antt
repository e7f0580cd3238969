-- ===== src/Triggers/Tests.antt =====
-- Runs of the TriggerRegistry, and its theorems at a small graph.
use mathlib.Core.Bool.{Bool-discrete}
use congress.Prelude.{
  List, some, ℕ, ◌≡◌, ◌↔◌, ◌⊎◌, refl, ap, sym, subst, ◌∙◌, Bool, true, false, none, [], ◌∷◌,
  contains, add, discard, lookup, insert, pair_discrete, ℕ_discrete, tuple_discrete, finished, ok,
  raise, key_error, arith, Run,
}
use congress.Tablename.{Str, str_discrete, build_service_table, colon}
use congress.Literals.Equality.{option_discrete}
use congress.Graph.{
  Graph, firsts, targets, out_edges, fresh, visit_all, record_path, enter, leave, dfs, visit_root,
  depth_first_search, begun, reached, dependencies,
}
use congress.Graph.Dfs.{IsClosed}
use congress.Triggers.{
  Change, rule_change, Trigger, TriggerRegistry, empty_registry, trigger_discrete, full_table,
  triggers_at, index_all, unindex_all, dependencies_of, add_indexes, delete_indexes, register_table,
  unregister, add_all_indexes, update_dependencies, table_change, table_changes, add_triggers,
  collect, relevant_triggers,
}
use congress.Triggers.Changes.{IsChanged}
use congress.Triggers.Laws.{
  IsIndexed, Depends, register_table_lem, unregister_lem, update_dependencies_lem,
  relevant_triggers_lem,
}

edge_discrete : Discrete (Str × Bool)
edge_discrete = pair_discrete str_discrete Bool-discrete

-- Table "a" of policy "p".
abbrev table_a : Str
table_a = 112 ∷ colon ∷ 97 ∷ []

-- "p:a" to "b".
abbrev small : Graph Str Bool
small = record {
  nodes = table_a ∷ (98 ∷ []) ∷ [];
  edges = (table_a, (98 ∷ [], false) ∷ []) ∷ [];
  cycles = none;
}

abbrev first : Trigger
first = record { ident = 0; tablename = 97 ∷ []; policy = 112 ∷ []; modal = none }

abbrev one : TriggerRegistry
one = record {
  created = 1;
  triggers = first ∷ [];
  index = (table_a, first ∷ []) ∷ (98 ∷ [], first ∷ []) ∷ [];
}

program : Unit {0}
unfolding firsts fresh out_edges targets visit_all record_path enter leave dfs visit_root
    depth_first_search begun reached dependencies contains add discard lookup insert ℕ_discrete
    pair_discrete tuple_discrete option_discrete build_service_table trigger_discrete triggers_at
    index_all unindex_all dependencies_of add_indexes delete_indexes register_table unregister
    add_all_indexes update_dependencies table_changes add_triggers collect relevant_triggers
    edge_discrete
program = tt

register_first :
    register_table edge_discrete small (97 ∷ []) (112 ∷ []) none empty_registry
    ≡ finished (ok (first, one))
unfolding program
register_first = refl

relevant_b : relevant_triggers {C = ℕ} (table_change (98 ∷ []) ∷ []) one ≡ first ∷ []
unfolding program
relevant_b = refl

relevant_c : relevant_triggers {C = ℕ} (table_change (99 ∷ []) ∷ []) one ≡ []
unfolding program
relevant_c = refl

small-IsClosed : IsClosed str_discrete edge_discrete small
unfolding contains targets out_edges lookup firsts
small-IsClosed u v e = ground arith

empty-IsIndexed : IsIndexed edge_discrete small empty_registry
unfolding contains triggers_at lookup
empty-IsIndexed t table = (λ h. cc, λ (c, d). cc)

abbrev registry_of : Run (Trigger × TriggerRegistry) → TriggerRegistry
registry_of (finished (ok (t, r))) = r
registry_of run = empty_registry

one-IsIndexed : IsIndexed edge_discrete small one
one-IsIndexed =
    let (t, r, ran, _, indexed) =
      register_table_lem edge_discrete small small-IsClosed (97 ∷ []) (112 ∷ []) none empty_registry
        empty-IsIndexed in
    subst (IsIndexed edge_discrete small) (ap registry_of (sym ran ∙ register_first)) indexed

unregister_lem_example :
    ((contains trigger_discrete first one.triggers ≡ false)
      × (unregister edge_discrete small first one ≡ finished (raise key_error)))
    ⊎ ((contains trigger_discrete first one.triggers ≡ true)
        × ((r : TriggerRegistry) × (unregister edge_discrete small first one ≡ finished (ok r))
            × (r.triggers ≡ discard trigger_discrete first one.triggers)
            × IsIndexed edge_discrete small r))
unregister_lem_example = unregister_lem edge_discrete small small-IsClosed first one one-IsIndexed

update_dependencies_lem_example :
    (r : TriggerRegistry) × (update_dependencies edge_discrete small one ≡ finished (ok r))
    × (r.triggers ≡ one.triggers)
    × IsIndexed edge_discrete small r
update_dependencies_lem_example = update_dependencies_lem edge_discrete small small-IsClosed one

-- A rule with the head p:b, and the table "b".
abbrev some_changes : List (Change ℕ)
some_changes =
    rule_change
      (record {
        table = record { table = 98 ∷ []; service = none; modal = none };
        arguments = [];
        negated = false;
        named_arguments = [];
      }
        ∷ [])
      (some (112 ∷ []))
    ∷ table_change (98 ∷ [])
    ∷ []

relevant_triggers_lem_example :
    (contains trigger_discrete first (relevant_triggers some_changes one) ≡ true) ↔ (
      (contains trigger_discrete first one.triggers ≡ true)
      × ((table : Str) × IsChanged table some_changes
          × Depends edge_discrete small (full_table first) table))
relevant_triggers_lem_example =
    relevant_triggers_lem edge_discrete small some_changes one one-IsIndexed first
