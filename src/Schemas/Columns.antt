-- ===== src/Schemas/Columns.antt =====
-- The numbers and the names of the columns of a table.
use congress.Prelude.{
  zero, suc, refl, Bool, true, false, lookup, ℕ, ◌≤◌, ◌<◌, ◌≡◌, ◌↔◌, some, List, [], ◌∷◌, length,
  get_elem?, arith, inl, inr, Option-cases,
}
use congress.Tablename.{Str, str_discrete}
use mathlib.Core.Option.{some-injective}
use congress.Schemas.{
  TableColumns, plain, described, Schema, numbered, named, col, entry_names, columns_of, index_of,
  ColumnEntry, name_entry, dict_entry, entry_at, column_number, column_name,
}

abbrev pub is_plain : TableColumns → Bool
is_plain (plain names) = true
is_plain (described entries) = false

index_of-get_elem? :
    (column : Str) (names : List Str) (i : ℕ)
    → index_of column names ≡ some i
    → (i < length names) × (get_elem? names i ≡ some column)
unfolding index_of
index_of-get_elem? column [] i h = absurd (ground (arith, h))
index_of-get_elem? column (name ∷ names) i h = elim (str_discrete name column) [
  | yes p ↦ ground (arith, h, p)
  | no n ↦ elim (Option-cases (index_of column names)) [
    | inl e ↦ absurd (ground (arith, h, n, e))
    | inr (j, e) ↦
        let (below, at) = index_of-get_elem? column names j e in ground (arith, h, n, e, below, at)
  ]
]

-- The name of a column in what `column_name` returns, which is the name or a dict with it.
abbrev pub name_of : ColumnEntry → Str
name_of (name_entry name) = name
name_of (dict_entry name desc) = name

abbrev pub is_name : ColumnEntry → Bool
is_name (name_entry name) = true
is_name (dict_entry name desc) = false

entry_at_lem :
    (columns : TableColumns) (i : ℕ) (column : Str)
    → get_elem? (col columns) i ≡ some column
    → (entry : ColumnEntry) × (entry_at columns i ≡ some entry)
      × (name_of entry ≡ column)
      × (is_name entry ≡ is_plain columns)
unfolding col entry_at entry_names
entry_at_lem (plain names) i column e = (name_entry column, ground (arith, e), refl, refl)
entry_at_lem (described []) i column e = cc
entry_at_lem (described ((name, desc) ∷ entries)) zero column e =
    (dict_entry name desc, refl, some-injective name column e, refl)
entry_at_lem (described (first ∷ entries)) (suc i) column e =
    entry_at_lem (described entries) i column e

-- The number of a named column is below the number of columns, and `column_name` of this number
-- returns the entry of the column: its name, or, where the columns are described by dicts, the dict
-- with this name. A number is returned as it is up to the number of columns, this number included;
-- for what is above it there is none.
pub column_number_lem :
    (table : Str) (s : Schema) (columns : TableColumns)
    → lookup str_discrete table s.columns ≡ some columns
    → ((column : Str) (i : ℕ)
        → column_number table (named column) s ≡ some i
        → (i < length (col columns))
          × ((entry : ColumnEntry) × (column_name table (numbered i) s ≡ some entry)
              × (name_of entry ≡ column)
              × (is_name entry ≡ is_plain columns)))
      × ((i j : ℕ)
          → (column_number table (numbered i) s ≡ some j) ↔ ((j ≡ i) × (i ≤ length (col columns))))
unfolding column_number column_name columns_of
column_number_lem table s columns e = (
  λ column i h.
      let (below, at) = index_of-get_elem? column (col columns) i (ground (arith, e, h)) in
      rw (e, column_name) (below, entry_at_lem columns i column at),
  λ i j. (λ h. ground (arith, e, h), λ h. ground (arith, e, h)),
)
