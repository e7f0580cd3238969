-- ===== src/Triggers/Laws.antt =====
-- The index of a TriggerRegistry follows the dependency graph, and finds the triggers of an event.
use congress.Prelude.{
  ◌+◌, ◌≡◌, ◌↔◌, ◌⊎◌, inl, inr, refl, ◌∙◌, sym, subst, ap, true, false, Option, List, [], ◌∷◌,
  contains, contains-add, contains-discard, add, discard, lookup, arith, if_pos, Bool-cases,
  finished, ok, raise, key_error,
}
use congress.Tablename.{Str, str_discrete}
use congress.Graph.{Graph}
use congress.Graph.Dfs.{IsClosed, Leads}
use congress.Graph.Reach.{dependencies_lem}
use congress.Triggers.{
  Trigger, TriggerRegistry, trigger_discrete, full_table, triggers_at, index_all, dependencies_of,
  add_indexes, delete_indexes, register_table, unregister, add_all_indexes, update_dependencies,
  Change, table_changes, relevant_triggers,
}
use congress.Triggers.Changes.{IsChanged, table_changes_lem}
use congress.Triggers.Index.{
  is_at, is_at-index_all, of_collect, collect_of, IsEntry-of_is_at, unindex_all_lem,
}

module _ {L : Type 0} (de : Discrete (Str × L)) (g : Graph Str L) where
  -- The table is the other one, or a node of the graph that leads to it.
  abbrev pub Depends : Str → Str → Type 0
  Depends table other =
      ((contains str_discrete table g.nodes ≡ false) × (other ≡ table))
      ⊎ ((contains str_discrete table g.nodes ≡ true) × Leads str_discrete de g table other)

  -- The index has exactly the registered triggers at the tables that theirs depend on.
  abbrev pub IsIndexed : TriggerRegistry → Type 0
  IsIndexed r =
      (t : Trigger) (table : Str)
      → (is_at t table r.index ≡ true)
        ↔ ((contains trigger_discrete t r.triggers ≡ true) × Depends (full_table t) table)

  module _ (closed : IsClosed str_discrete de g) where
    dependencies_of_lem :
        (trigger : Trigger)
        → (deps : List Str) × (dependencies_of de g trigger ≡ finished (ok deps))
          × ((table : Str)
              → (contains str_discrete table deps ≡ true) ↔ Depends (full_table trigger) table)
    unfolding dependencies_of contains
    dependencies_of_lem trigger =
        elim (dependencies_lem str_discrete de g closed (full_table trigger)) [
          | inl (outside, e) ↦ (
            full_table trigger ∷ [],
            rw (e, dependencies_of) refl,
            λ table. (
              λ c. inl (outside, ground (arith, c)),
              λ d. elim d [
                | inl (_, p) ↦ ground (arith, p)
                | inr (inside, _) ↦ absurd (ground (arith, inside, outside))
              ],
            ),
          )
          | inr (inside, (found, e, reach)) ↦ (
            found,
            rw (e, dependencies_of) refl,
            λ table. (
              λ c.
                  let (r, cr, _, p) = (reach table).0 c in
                  let q : r ≡ full_table trigger = ground (arith, cr) in
                  inr (inside, subst (λ s. Leads str_discrete de g s table) q p),
              λ d. elim d [
                | inl (outside, _) ↦ absurd (ground (arith, inside, outside))
                | inr (_, p) ↦ (reach table).1 (
                  full_table trigger,
                  if_pos (str_discrete (full_table trigger) (full_table trigger)) refl true _,
                  inside,
                  p,
                )
              ],
            ),
          )
        ]

    -- The index after `_add_indexes`: the trigger is there at what it depends on, too.
    add_indexes_lem :
        (trigger : Trigger) (r : TriggerRegistry)
        → (r' : TriggerRegistry) × (add_indexes de g trigger r ≡ finished (ok r'))
          × (r'.triggers ≡ r.triggers)
          × ((t : Trigger) (table : Str)
              → (is_at t table r'.index ≡ true) ↔ (
                  ((t ≡ trigger) × Depends (full_table trigger) table)
                  ⊎ (is_at t table r.index ≡ true)))
    unfolding add_indexes
    add_indexes_lem trigger r =
        let (deps, ran, exact) = dependencies_of_lem trigger in
        (
          record r { index = index_all deps trigger r.index },
          rw (ran, add_indexes) refl,
          refl,
          λ t table. (
            λ h. elim (Bool-cases (is_at t table r.index)) [
              | inl old ↦ inr old
              | inr new ↦ inl (
                ground (arith, h, new, is_at-index_all t table deps trigger r.index),
                (exact table).0
                    (ground (arith, h, new, is_at-index_all t table deps trigger r.index)),
              )
            ],
            λ h. elim h [
              | inl (p, d) ↦
                  ground (arith, p, (exact table).1 d, is_at-index_all t table deps trigger r.index)
              | inr old ↦ ground (arith, old, is_at-index_all t table deps trigger r.index)
            ],
          ),
        )

    -- `register_table` ends, raises nothing, and returns a trigger that is registered with all
    -- others; the index follows the graph again.
    pub register_table_lem :
        (tablename policy : Str) (modal : Option Str) (r : TriggerRegistry)
        → IsIndexed r
        → (trigger : Trigger) × (r' : TriggerRegistry) × (register_table de g tablename policy modal
              r
            ≡ finished (ok (trigger, r')))
          × (r'.triggers ≡ add trigger_discrete trigger r.triggers)
          × IsIndexed r'
    unfolding register_table
    register_table_lem tablename policy modal r indexed =
        let trigger : Trigger = record {
          ident = r.created;
          tablename = tablename;
          policy = policy;
          modal = modal;
        } in
        let r₁ : TriggerRegistry = record r {
          created = r.created + 1;
          triggers = add trigger_discrete trigger r.triggers;
        } in
        let (r', ran, same, at) = add_indexes_lem trigger r₁ in
        (
          trigger,
          r',
          rw (ran, register_table) refl,
          same,
          λ t table. (
            λ h. elim ((at t table).0 h) [
              | inl (p, d) ↦ (
                ground (
                  arith,
                  p,
                  ap (contains trigger_discrete t) same,
                  contains-add trigger_discrete t trigger r.triggers,
                ),
                subst (λ u. Depends (full_table u) table) (sym p) d,
              )
              | inr old ↦
                  let (c, d) = (indexed t table).0 old in
                  (
                    ground (
                      arith,
                      c,
                      ap (contains trigger_discrete t) same,
                      contains-add trigger_discrete t trigger r.triggers,
                    ),
                    d,
                  )
            ],
            λ (c, d). (at t table).1 (elim (trigger_discrete t trigger) [
              | yes p ↦ inl (p, subst (λ u. Depends (full_table u) table) p d)
              | no n ↦ inr (
                  (indexed t table).1 (
                    ground (
                      arith,
                      c,
                      n,
                      ap (contains trigger_discrete t) same,
                      contains-add trigger_discrete t trigger r.triggers,
                    ),
                    d,
                  ))
            ]),
          ),
        )

    -- `unregister` of a registered trigger ends, raises nothing, and takes out this trigger only;
    -- the index follows the graph again. For any other trigger it raises KeyError.
    pub unregister_lem :
        (trigger : Trigger) (r : TriggerRegistry)
        → IsIndexed r
        → ((contains trigger_discrete trigger r.triggers ≡ false)
            × (unregister de g trigger r ≡ finished (raise key_error)))
          ⊎ ((contains trigger_discrete trigger r.triggers ≡ true)
              × ((r' : TriggerRegistry) × (unregister de g trigger r ≡ finished (ok r'))
                  × (r'.triggers ≡ discard trigger_discrete trigger r.triggers)
                  × IsIndexed r'))
    unfolding unregister delete_indexes
    unregister_lem trigger r indexed =
        elim (Bool-cases (contains trigger_discrete trigger r.triggers)) [
          | inr e ↦ inl (e, rw (e, unregister) refl)
          | inl e ↦
              let (deps, ran, exact) = dependencies_of_lem trigger in
              let (index', gone, at) = unindex_all_lem deps trigger r.index (λ table c.
                IsEntry-of_is_at trigger table r.index
                  ((indexed trigger table).1 (e, (exact table).0 c))) in
              inr (
                e,
                (
                  record r {
                    triggers = discard trigger_discrete trigger r.triggers;
                    index = index';
                  },
                  rw (e, unregister) (rw ran (rw gone refl)),
                  refl,
                  λ t table. (
                    λ h.
                        let (c, d) = (indexed t table).0 (ground (arith, h, at t table)) in
                        (
                          elim (trigger_discrete t trigger) [
                            | yes p ↦
                                let k =
                                  (exact table).1 (subst (λ u. Depends (full_table u) table) p d) in
                                absurd (ground (arith, h, at t table, p, k))
                            | no n ↦ ground (
                              arith,
                              c,
                              n,
                              contains-discard trigger_discrete t trigger r.triggers,
                            )
                          ],
                          d,
                        ),
                    λ (c, d).
                        let old = (indexed t table).1 (
                          ground (arith, c, contains-discard trigger_discrete t trigger r.triggers),
                          d,
                        ) in
                        ground (
                          arith,
                          old,
                          at t table,
                          c,
                          contains-discard trigger_discrete t trigger r.triggers,
                        ),
                  ),
                ),
              )
        ]

    add_all_indexes_lem :
        (triggers : List Trigger) (r : TriggerRegistry)
        → (r' : TriggerRegistry) × (add_all_indexes de g triggers r ≡ finished (ok r'))
          × (r'.triggers ≡ r.triggers)
          × ((t : Trigger) (table : Str)
              → (is_at t table r'.index ≡ true) ↔ (
                  ((contains trigger_discrete t triggers ≡ true) × Depends (full_table t) table)
                  ⊎ (is_at t table r.index ≡ true)))
    unfolding add_all_indexes contains
    add_all_indexes_lem [] r =
        (r, refl, refl, λ t table. (λ h. inr h, λ h. elim h [ inl (c, _) ↦ cc | inr old ↦ old ]))
    add_all_indexes_lem (u ∷ triggers) r =
        let (r₁, ran₁, same₁, at₁) = add_indexes_lem u r in
        let (r₂, ran₂, same₂, at₂) = add_all_indexes_lem triggers r₁ in
        (
          r₂,
          rw (ran₁, add_all_indexes) ran₂,
          same₂ ∙ same₁,
          λ t table. (
            λ h. elim ((at₂ t table).0 h) [
              | inl (c, d) ↦ inl (ground (arith, c), d)
              | inr was ↦ elim ((at₁ t table).0 was) [
                | inl (p, d) ↦
                    inl (ground (arith, p), subst (λ v. Depends (full_table v) table) (sym p) d)
                | inr old ↦ inr old
              ]
            ],
            λ h. (at₂ t table).1 (elim h [
              | inr old ↦ inr ((at₁ t table).1 (inr old))
              | inl (c, d) ↦ elim (trigger_discrete t u) [
                | yes p ↦
                    inr ((at₁ t table).1 (inl (p, subst (λ v. Depends (full_table v) table) p d)))
                | no n ↦ inl (ground (arith, c, n), d)
              ]
            ]),
          ),
        )

    -- After `update_dependencies`, whatever the index was, it follows the graph, and the triggers
    -- are as before.
    pub update_dependencies_lem :
        (r : TriggerRegistry)
        → (r' : TriggerRegistry) × (update_dependencies de g r ≡ finished (ok r'))
          × (r'.triggers ≡ r.triggers)
          × IsIndexed r'
    unfolding update_dependencies triggers_at contains lookup
    update_dependencies_lem r =
        let (r', ran, same, at) = add_all_indexes_lem r.triggers (record r { index = [] }) in
        (
          r',
          ran,
          same,
          λ t table. (
            λ h. elim ((at t table).0 h) [
              | inl (c, d) ↦ (ground (arith, c, ap (contains trigger_discrete t) same), d)
              | inr none_there ↦ absurd (ground (arith, none_there))
            ],
            λ (c, d).
                (at t table).1 (inl (ground (arith, c, ap (contains trigger_discrete t) same), d)),
          ),
        )

  -- `relevant_triggers` returns exactly the registered triggers whose table depends on a table that
  -- an event changes: for a rule the tables of all its heads and for a literal its table, by their
  -- global names for the target, and for a name the table of this name.
  pub relevant_triggers_lem :
      {C : Type 0} (events : List (Change C)) (r : TriggerRegistry)
      → IsIndexed r
      → (t : Trigger)
      → (contains trigger_discrete t (relevant_triggers events r) ≡ true) ↔ (
          (contains trigger_discrete t r.triggers ≡ true)
          × ((table : Str) × IsChanged table events × Depends (full_table t) table))
  unfolding relevant_triggers contains
  relevant_triggers_lem events r indexed t = (
    λ h. elim (of_collect t (table_changes events) r.index [] h) [
      | inl c ↦ absurd (ground (arith, c))
      | inr (table, c, at) ↦
          let (k, d) = (indexed t table).0 at in
          (k, (table, (table_changes_lem table events).0 c, d))
    ],
    λ (k, (table, c, d)).
        collect_of t (table_changes events) r.index []
          (inr (table, (table_changes_lem table events).1 c, (indexed t table).1 (k, d))),
  )
