-- ===== src/Schemas/Laws.antt =====
-- A Schema counts what it is told of, and its changes can be reverted.
use congress.Prelude.{
  ℕ, ◌+◌, ◌-◌, ◌≡◌, ◌≢◌, Bool, true, false, Option, none, some, [], Dict, lookup, insert, erase,
  lookup-insert, lookup-erase, arith, ite, inl, inr, Option-cases, ok, raise, Result, if◌then◌else◌,
}
use congress.Tablename.{Str, str_discrete}
use congress.Schemas.{
  plain, Schema, Item, SchemaChange, column_names_from, update_counts, update, revert_counts,
  revert,
}

abbrev is_there : {A : Type 0} → Option A → Bool
is_there none = false
is_there (some a) = true

abbrev pub counts_of : Schema → Dict Str ℕ
counts_of s = elim s.count [ none ↦ [] | some counts ↦ counts ]

-- How often a table is counted.
abbrev pub times : Str → Schema → ℕ
times table s = elim (lookup str_discrete table (counts_of s)) [ none ↦ 0 | some n ↦ n ]

-- A schema that is kept: it has the columns of the tables that it counts, and counts none as zero.
abbrev pub IsKept : Schema → Type 0
IsKept s =
    (is_there s.count ≡ true)
    × ((t : Str)
        → is_there (lookup str_discrete t (counts_of s))
          ≡ is_there (lookup str_discrete t s.columns))
    × ((t : Str) → lookup str_discrete t (counts_of s) ≢ some 0)

-- Two schemas with the same columns and the same counts.
abbrev pub IsSameSchema : Schema → Schema → Type 0
IsSameSchema s s' =
    (t : Str)
    → (lookup str_discrete t s.columns ≡ lookup str_discrete t s'.columns)
      × (lookup str_discrete t (counts_of s) ≡ lookup str_discrete t (counts_of s'))

-- The result of a call that does not raise.
abbrev pub returned : {A : Type 0} → Option A → Result (Option A) → Option A
returned other (ok a) = a
returned other (raise e) = other

abbrev pub is_ok : {A : Type 0} → Result A → Bool
is_ok (ok a) = true
is_ok (raise e) = false

module _ (digits : ℕ → Str) where
  abbrev pub after : Item → Bool → Schema → Schema
  after item is_insert s = (update digits item is_insert s).1

  times-update :
      (item : Item) (is_insert : Bool) (s : Schema)
      → IsKept s
      → (t : Str)
      → times t (after item is_insert s)
        ≡ ite
            (str_discrete t item.table)
            (if is_insert then times t s + 1 else times t s - 1)
            (times t s)
  unfolding update update_counts
  times-update item true s (e, both, pos) t = elim (Option-cases s.count) [
    | inl f ↦ absurd (ground (arith, e, f))
    | inr (counts, f) ↦ ground (
      arith,
      f,
      both item.table,
      lookup-insert str_discrete t item.table 1 counts,
      lookup-insert str_discrete t item.table (times item.table s + 1) counts,
    )
  ]
  times-update item false s (e, both, pos) t = elim (Option-cases s.count) [
    | inl f ↦ absurd (ground (arith, e, f))
    | inr (counts, f) ↦ ground (
      arith,
      f,
      both item.table,
      pos item.table,
      lookup-erase str_discrete t item.table counts,
      lookup-insert str_discrete t item.table (times item.table s - 1) counts,
    )
  ]

  is_ok-update :
      (item : Item) (is_insert : Bool) (s : Schema)
      → IsKept s
      → is_ok (update digits item is_insert s).0 ≡ true
  unfolding update update_counts
  is_ok-update item true s (e, both, pos) = ground (arith, both item.table)
  is_ok-update item false s (e, both, pos) = ground (arith, both item.table)

  update-IsKept :
      (item : Item) (is_insert : Bool) (s : Schema) → IsKept s → IsKept (after item is_insert s)
  unfolding update update_counts
  update-IsKept item true s (e, both, pos) = elim (Option-cases s.count) [
    | inl f ↦ absurd (ground (arith, e, f))
    | inr (counts, f) ↦ (
      ground (arith, f),
      λ t. ground (
        arith,
        f,
        both t,
        both item.table,
        lookup-insert str_discrete t item.table 1 counts,
        lookup-insert str_discrete t item.table (times item.table s + 1) counts,
        lookup-insert str_discrete t item.table (plain (column_names_from digits 0 item.arity))
            s.columns,
      ),
      λ t h. ground (
        arith,
        f,
        h,
        pos t,
        both item.table,
        lookup-insert str_discrete t item.table 1 counts,
        lookup-insert str_discrete t item.table (times item.table s + 1) counts,
      ),
    )
  ]
  update-IsKept item false s (e, both, pos) = elim (Option-cases s.count) [
    | inl f ↦ absurd (ground (arith, e, f))
    | inr (counts, f) ↦ (
      ground (arith, f),
      λ t. ground (
        arith,
        f,
        both t,
        both item.table,
        lookup-erase str_discrete t item.table counts,
        lookup-erase str_discrete t item.table s.columns,
        lookup-insert str_discrete t item.table (times item.table s - 1) counts,
      ),
      λ t h. ground (
        arith,
        f,
        h,
        pos t,
        both item.table,
        lookup-erase str_discrete t item.table counts,
        lookup-insert str_discrete t item.table (times item.table s - 1) counts,
      ),
    )
  ]

  -- On a kept schema, `update` raises nothing and the schema stays kept. The table of the item is
  -- counted once more for an insertion and once less for a deletion, where it is counted; the
  -- other tables are counted as before.
  pub update_lem :
      (item : Item) (is_insert : Bool) (s : Schema)
      → IsKept s
      → (is_ok (update digits item is_insert s).0 ≡ true)
        × IsKept (after item is_insert s)
        × ((t : Str)
            → times t (after item is_insert s)
              ≡ ite
                  (str_discrete t item.table)
                  (if is_insert then times t s + 1 else times t s - 1)
                  (times t s))
  update_lem item is_insert s kept = (
    is_ok-update item is_insert s kept,
    update-IsKept item is_insert s kept,
    times-update item is_insert s kept,
  )

  -- The change that `update` returns.
  abbrev pub change_of : Item → Bool → Schema → Option SchemaChange
  change_of item is_insert s = returned none (update digits item is_insert s).0

  -- `revert` of the change that `update` of a kept schema returns raises nothing and gives back the
  -- columns and the counts.
  pub revert-update :
      (item : Item) (is_insert : Bool) (s : Schema)
      → IsKept s
      → (is_ok (revert (change_of item is_insert s) (after item is_insert s)).0 ≡ true)
        × IsSameSchema (revert (change_of item is_insert s) (after item is_insert s)).1 s
  unfolding update update_counts revert revert_counts
  revert-update item true s (e, both, pos) = elim (Option-cases s.count) [
    | inl f ↦ absurd (ground (arith, e, f))
    | inr (counts, f) ↦
        let one = insert str_discrete item.table 1 counts in
        let more = insert str_discrete item.table (times item.table s + 1) counts in
        let names = plain (column_names_from digits 0 item.arity) in
        let columns = insert str_discrete item.table names s.columns in
        (
          ground (
            arith,
            f,
            both item.table,
            pos item.table,
            lookup-insert str_discrete item.table item.table 1 counts,
            lookup-insert str_discrete item.table item.table names s.columns,
            lookup-insert str_discrete item.table item.table (times item.table s + 1) counts,
          ),
          λ t. ground (
            arith,
            f,
            both item.table,
            pos item.table,
            lookup-insert str_discrete item.table item.table 1 counts,
            lookup-insert str_discrete item.table item.table names s.columns,
            lookup-insert str_discrete item.table item.table (times item.table s + 1) counts,
            lookup-insert str_discrete t item.table 1 counts,
            lookup-insert str_discrete t item.table names s.columns,
            lookup-insert str_discrete t item.table (times item.table s + 1) counts,
            lookup-erase str_discrete t item.table one,
            lookup-erase str_discrete t item.table columns,
            lookup-insert str_discrete t item.table (times item.table s) more,
          ),
        )
  ]
  revert-update item false s (e, both, pos) = elim (Option-cases s.count) [
    | inl f ↦ absurd (ground (arith, e, f))
    | inr (counts, f) ↦
        let fewer = insert str_discrete item.table (times item.table s - 1) counts in
        let rest = erase str_discrete item.table counts in
        let columns = erase str_discrete item.table s.columns in
        elim (Option-cases (lookup str_discrete item.table s.columns)) [
          | inl g ↦ (ground (arith, f, g), λ t. ground (arith, f, g))
          | inr (names, g) ↦ (
            ground (
              arith,
              f,
              g,
              both item.table,
              pos item.table,
              lookup-insert str_discrete item.table item.table (times item.table s - 1) counts,
              lookup-erase str_discrete item.table item.table counts,
            ),
            λ t. ground (
              arith,
              f,
              g,
              both item.table,
              pos item.table,
              lookup-insert str_discrete item.table item.table (times item.table s - 1) counts,
              lookup-erase str_discrete item.table item.table counts,
              lookup-insert str_discrete t item.table (times item.table s - 1) counts,
              lookup-erase str_discrete t item.table counts,
              lookup-erase str_discrete t item.table s.columns,
              lookup-insert str_discrete t item.table (times item.table s) fewer,
              lookup-insert str_discrete t item.table 1 rest,
              lookup-insert str_discrete t item.table names columns,
            ),
          )
        ]
  ]
