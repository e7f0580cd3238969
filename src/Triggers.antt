-- ===== src/Triggers.antt =====
-- The class TriggerRegistry of congress/policy_engines/agnostic.py, over the dependency graph of
-- the tables, which other parts change. A Trigger is compared by identity, which `ident` stands
-- for; its callback, which the registry does not read, is left out.
pub mod Index
pub mod Changes
pub mod Laws
mod Tests
use congress.Prelude.{
  ℕ, ◌+◌, Bool, true, false, Option, none, some, List, [], ◌∷◌, ◌++◌, contains, add, discard, Dict,
  lookup, insert, Run, finished, run_then, ok, raise, key_error, refl, ap, pair_discrete,
  ℕ_discrete, ite, is_empty,
}
use congress.Tablename.{Str, Tablename, str_discrete, build_service_table, global_tablename}
use congress.Literals.{Literal}
use congress.Literals.Equality.{option_discrete}
use congress.Graph.{Graph, dependencies}

pub record Trigger : Type 0 where
  pub ident : ℕ
  pub tablename : Str
  pub policy : Str
  pub modal : Option Str

abbrev trigger_parts : Trigger → ℕ × (Str × (Str × Option Str))
trigger_parts t = (t.ident, (t.tablename, (t.policy, t.modal)))

abbrev of_trigger_parts : ℕ × (Str × (Str × Option Str)) → Trigger
of_trigger_parts (ident, (tablename, (policy, modal))) = record {
  ident = ident;
  tablename = tablename;
  policy = policy;
  modal = modal;
}

unfoldable pub trigger_discrete : Discrete Trigger
trigger_discrete t u =
    elim (pair_discrete ℕ_discrete
      (pair_discrete str_discrete (pair_discrete str_discrete (option_discrete str_discrete)))
      (trigger_parts t) (trigger_parts u)) [
        | yes p ↦ yes (ap of_trigger_parts p)
        | no n ↦ no (λ e. n (ap trigger_parts e))
      ]

-- `created` counts the triggers that there have been.
pub record TriggerRegistry : Type 0 where
  pub created : ℕ
  pub triggers : List Trigger
  pub index : Dict Str (List Trigger)

abbrev pub empty_registry : TriggerRegistry
empty_registry = record { created = 0; triggers = []; index = [] }

abbrev pub full_table : Trigger → Str
full_table trigger = build_service_table trigger.policy trigger.tablename

-- The triggers that the index has for a table.
pub triggers_at : Str → Dict Str (List Trigger) → List Trigger
triggers_at table index = elim (lookup str_discrete table index) [ none ↦ [] | some found ↦ found ]

-- The loop of `_add_indexes`.
pub index_all : List Str → Trigger → Dict Str (List Trigger) → Dict Str (List Trigger)
index_all [] trigger index = index
index_all (table ∷ deps) trigger index = elim (lookup str_discrete table index) [
  | some found ↦
      index_all deps trigger (insert str_discrete table (add trigger_discrete trigger found) index)
  | none ↦ index_all deps trigger (insert str_discrete table (trigger ∷ []) index)
]

-- The loop of `_delete_indexes`.
pub unindex_all : List Str → Trigger → Dict Str (List Trigger) → Run (Dict Str (List Trigger))
unindex_all [] trigger index = finished (ok index)
unindex_all (table ∷ deps) trigger index = elim (lookup str_discrete table index) [
  | none ↦ finished (raise key_error)
  | some found ↦
      unindex_all deps trigger
        (insert str_discrete table (discard trigger_discrete trigger found) index)
]

-- An event of `relevant_triggers`: a rule or a literal with its target, or the name of a table.
pub data Change (C : Type 0) : Type 0 where
  rule_change : List (Literal C) → Option Str → Change C
  literal_change : Literal C → Option Str → Change C
  table_change : Str → Change C

pub head_tables : {C : Type 0} → List (Literal C) → Option Str → List Str
head_tables [] target = []
head_tables (lit ∷ heads) target = global_tablename lit.table target ∷ head_tables heads target

pub table_changes : {C : Type 0} → List (Change C) → List Str
table_changes [] = []
table_changes (rule_change heads target ∷ events) = head_tables heads target ++ table_changes events
table_changes (literal_change lit target ∷ events) =
    global_tablename lit.table target ∷ table_changes events
table_changes (table_change table ∷ events) = table ∷ table_changes events

-- `triggers |= found`
pub add_triggers : List Trigger → List Trigger → List Trigger
add_triggers [] triggers = triggers
add_triggers (t ∷ found) triggers = add_triggers found (add trigger_discrete t triggers)

pub collect : List Str → Dict Str (List Trigger) → List Trigger → List Trigger
collect [] index triggers = triggers
collect (table ∷ tables) index triggers =
    collect tables index (add_triggers (triggers_at table index) triggers)

pub relevant_triggers : {C : Type 0} → List (Change C) → TriggerRegistry → List Trigger
relevant_triggers events r = collect (table_changes events) r.index []

module _ {L : Type 0} (de : Discrete (Str × L)) (g : Graph Str L) where
  -- `self.dependency_graph.dependencies(full_table)`, or the table alone.
  pub dependencies_of : Trigger → Run (List Str)
  dependencies_of trigger =
      run_then (dependencies str_discrete de g (full_table trigger)) (λ deps.
        finished (ok (elim deps [ none ↦ full_table trigger ∷ [] | some tables ↦ tables ])))

  pub add_indexes : Trigger → TriggerRegistry → Run TriggerRegistry
  add_indexes trigger r =
      run_then (dependencies_of trigger)
        (λ deps. finished (ok (record r { index = index_all deps trigger r.index })))

  pub delete_indexes : Trigger → TriggerRegistry → Run TriggerRegistry
  delete_indexes trigger r = run_then (dependencies_of trigger) (λ deps.
      run_then (unindex_all deps trigger r.index)
        (λ index. finished (ok (record r { index = index }))))

  pub register_table : Str → Str → Option Str → TriggerRegistry → Run (Trigger × TriggerRegistry)
  register_table tablename policy modal r =
      let trigger : Trigger = record {
        ident = r.created;
        tablename = tablename;
        policy = policy;
        modal = modal;
      } in
      run_then
        (add_indexes trigger (record r {
          created = r.created + 1;
          triggers = add trigger_discrete trigger r.triggers;
        }))
        (λ r'. finished (ok (trigger, r')))

  pub unregister : Trigger → TriggerRegistry → Run TriggerRegistry
  unregister trigger r = elim (contains trigger_discrete trigger r.triggers) [
    | false ↦ finished (raise key_error)
    | true ↦
        delete_indexes trigger (record r { triggers = discard trigger_discrete trigger r.triggers })
  ]

  pub add_all_indexes : List Trigger → TriggerRegistry → Run TriggerRegistry
  add_all_indexes [] r = finished (ok r)
  add_all_indexes (trigger ∷ triggers) r =
      run_then (add_indexes trigger r) (add_all_indexes triggers)

  pub update_dependencies : TriggerRegistry → Run TriggerRegistry
  update_dependencies r = add_all_indexes r.triggers (record r { index = [] })
