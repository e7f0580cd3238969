-- ===== src/Triggers/Index.antt =====
-- The index of a TriggerRegistry: which triggers it has at which tables.
use congress.Prelude.{
  ◌≡◌, ◌≢◌, ◌⊎◌, inl, inr, refl, ap, Bool, true, false, ◌&&◌, ◌||◌, not, none, List, [], ◌∷◌,
  contains, contains-add, contains-discard, add, discard, Dict, lookup, insert, lookup-insert,
  arith, ite, Option-cases, Bool-cases, finished, ok, if_pos,
}
use congress.Tablename.{Str, str_discrete}
use congress.Triggers.{
  Trigger, trigger_discrete, triggers_at, index_all, unindex_all, add_triggers, collect,
}

-- Whether the index has a trigger at a table.
abbrev pub is_at : Trigger → Str → Dict Str (List Trigger) → Bool
is_at t table index = contains trigger_discrete t (triggers_at table index)

is_at-insert :
    (t : Trigger) (table other : Str) (found : List Trigger) (index : Dict Str (List Trigger))
    → is_at t table (insert str_discrete other found index)
      ≡ ite (str_discrete table other) (contains trigger_discrete t found) (is_at t table index)
unfolding triggers_at
is_at-insert t table other found index =
    ground (arith, lookup-insert str_discrete table other found index)

pub is_at-index_all :
    (t : Trigger) (table : Str) (deps : List Str) (trigger : Trigger)
    (index : Dict Str (List Trigger))
    → is_at t table (index_all deps trigger index) ≡ (
        (ite (trigger_discrete t trigger) true false && contains str_discrete table deps)
        || is_at t table index)
unfolding index_all contains triggers_at
is_at-index_all t table [] trigger index = ground arith
is_at-index_all t table (d ∷ deps) trigger index =
    elim (Option-cases (lookup str_discrete d index)) [
      | inl e ↦ ground (
        arith,
        e,
        is_at-index_all t table deps trigger (insert str_discrete d (trigger ∷ []) index),
        is_at-insert t table d (trigger ∷ []) index,
      )
      | inr (found, e) ↦ ground (
        arith,
        e,
        is_at-index_all t table deps trigger
            (insert str_discrete d (add trigger_discrete trigger found) index),
        is_at-insert t table d (add trigger_discrete trigger found) index,
        contains-add trigger_discrete t trigger found,
      )
    ]

contains-add_triggers :
    (t : Trigger) (found triggers : List Trigger)
    → contains trigger_discrete t (add_triggers found triggers)
      ≡ (contains trigger_discrete t found || contains trigger_discrete t triggers)
unfolding add_triggers contains
contains-add_triggers t [] triggers = refl
contains-add_triggers t (u ∷ found) triggers = ground (
  arith,
  contains-add_triggers t found (add trigger_discrete u triggers),
  contains-add trigger_discrete t u triggers,
)

-- `collect` gathers what the index has at the tables.
pub of_collect :
    (t : Trigger) (tables : List Str) (index : Dict Str (List Trigger)) (triggers : List Trigger)
    → contains trigger_discrete t (collect tables index triggers) ≡ true
    → (contains trigger_discrete t triggers ≡ true)
      ⊎ ((table : Str) × (contains str_discrete table tables ≡ true) × (is_at t table index ≡ true))
unfolding collect contains
of_collect t [] index triggers h = inl h
of_collect t (table ∷ tables) index triggers h =
    elim (of_collect t tables index (add_triggers (triggers_at table index) triggers) h) [
      | inr (other, c, k) ↦ inr (other, ground (arith, c), k)
      | inl c ↦ elim (Bool-cases (is_at t table index)) [
        | inl e ↦ inr (table, if_pos (str_discrete table table) refl true _, e)
        | inr e ↦
            inl (ground (arith, c, e, contains-add_triggers t (triggers_at table index) triggers))
      ]
    ]

pub collect_of :
    (t : Trigger) (tables : List Str) (index : Dict Str (List Trigger)) (triggers : List Trigger)
    → (contains trigger_discrete t triggers ≡ true)
      ⊎ ((table : Str) × (contains str_discrete table tables ≡ true) × (is_at t table index ≡ true))
    → contains trigger_discrete t (collect tables index triggers) ≡ true
unfolding collect contains
collect_of t [] index triggers (inl h) = h
collect_of t [] index triggers (inr (table, c, h)) = cc
collect_of t (table ∷ tables) index triggers (inl h) =
    collect_of t tables index (add_triggers (triggers_at table index) triggers)
      (inl (ground (arith, h, contains-add_triggers t (triggers_at table index) triggers)))
collect_of t (table ∷ tables) index triggers (inr (other, c, k)) =
    collect_of t tables index (add_triggers (triggers_at table index) triggers)
      (elim (str_discrete other table) [
        | yes p ↦ inl (
            ground (
              arith,
              k,
              ap (λ (d : Str). is_at t d index) p,
              contains-add_triggers t (triggers_at table index) triggers,
            ))
        | no n ↦ inr (other, ground (arith, c, n), k)
      ])

-- The index has an entry for a table.
abbrev pub IsEntry : Str → Dict Str (List Trigger) → Type 0
IsEntry table index = lookup str_discrete table index ≢ none

IsEntry-insert :
    (table other : Str) (found : List Trigger) (index : Dict Str (List Trigger))
    → IsEntry table index
    → IsEntry table (insert str_discrete other found index)
IsEntry-insert table other found index h e =
    ground (arith, e, h, lookup-insert str_discrete table other found index)

pub IsEntry-of_is_at :
    (t : Trigger) (table : Str) (index : Dict Str (List Trigger))
    → is_at t table index ≡ true
    → IsEntry table index
unfolding triggers_at contains
IsEntry-of_is_at t table index h e = ground (arith, e, h)

-- Where the index has entries for all the tables, the trigger is taken out at these, and nothing
-- else is changed.
pub unindex_all_lem :
    (deps : List Str) (trigger : Trigger) (index : Dict Str (List Trigger))
    → ((table : Str) → contains str_discrete table deps ≡ true → IsEntry table index)
    → (index' : Dict Str (List Trigger)) × (unindex_all deps trigger index ≡ finished (ok index'))
      × ((t : Trigger) (table : Str)
          → is_at t table index' ≡ (
              is_at t table index
              && not (
                  ite (trigger_discrete t trigger) true false && contains str_discrete table deps)))
unfolding unindex_all contains triggers_at
unindex_all_lem [] trigger index h = (index, refl, λ t table. ground arith)
unindex_all_lem (d ∷ deps) trigger index h = elim (Option-cases (lookup str_discrete d index)) [
  | inl e ↦ absurd (h d (if_pos (str_discrete d d) refl true _) e)
  | inr (found, e) ↦
      let next = insert str_discrete d (discard trigger_discrete trigger found) index in
      let (index', ran, at) = unindex_all_lem deps trigger next (λ table c.
        IsEntry-insert table d (discard trigger_discrete trigger found) index
          (h table (ground (arith, c)))) in
      (
        index',
        rw (e, unindex_all) ran,
        λ t table. ground (
          arith,
          at t table,
          e,
          is_at-insert t table d (discard trigger_discrete trigger found) index,
          contains-discard trigger_discrete t trigger found,
        ),
      )
]
