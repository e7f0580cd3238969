-- ===== src/Schemas/Tests.antt =====
-- Runs of a small Schema, and its theorems at it.
use congress.Prelude.{
  length, ℕ, ◌+◌, ◌-◌, ◌<◌, ◌≤◌, ◌≡◌, ◌↔◌, refl, true, false, none, some, [], ◌∷◌, lookup, insert,
  erase, tuple_discrete, ℕ_discrete, ite, if◌then◌else◌, contains,
}
use congress.Tablename.{Str, str_discrete}
use congress.Schemas.{
  TableColumns, plain, described, col, entry_names, ColumnEntry, dict_entry, entry_at, Schema,
  empty_schema, Item, numbered, named, column_names_from, update_counts, update, revert_counts,
  revert, columns_of, arity_of, index_of, column_number, column_name,
}
use congress.Schemas.Laws.{
  IsKept, IsSameSchema, times, is_ok, after, change_of, update_lem, revert-update,
}
use congress.Schemas.Columns.{name_of, is_name, is_plain, column_number_lem}

program : Unit {0}
unfolding col entry_names entry_at update_counts update revert_counts revert columns_of arity_of
    index_of column_number column_name column_names_from lookup insert erase tuple_discrete
    ℕ_discrete contains
program = tt

abbrev digits : ℕ → Str
digits n = (48 + n) ∷ []

-- p with two arguments
abbrev item : Item
item = record { table = 112 ∷ []; arity = 2; theory = none }

abbrev one : Schema
one = record {
  columns = (112 ∷ [], plain ((67 ∷ 111 ∷ 108 ∷ 48 ∷ []) ∷ (67 ∷ 111 ∷ 108 ∷ 49 ∷ []) ∷ [])) ∷ [];
  count = some ((112 ∷ [], 1) ∷ []);
  complete = false;
}

run-insert : after digits item true (empty_schema false) ≡ one
unfolding program
run-insert = refl

run-delete : after digits item false (after digits item true one) ≡ one
unfolding program
run-delete = refl

-- A number that is past the last column by one is taken for that of a column.
past_the_end :
    (column_number (112 ∷ []) (numbered 2) one ≡ some 2)
    × (column_name (112 ∷ []) (numbered 2) one ≡ none)
unfolding program
past_the_end = (refl, refl)

empty-IsKept : IsKept (empty_schema false)
unfolding program
empty-IsKept = (refl, λ t. refl, λ t. λ e. cc)

update_lem_example :
    (is_ok (update digits item true (empty_schema false)).0 ≡ true)
    × IsKept (after digits item true (empty_schema false))
    × ((t : Str)
        → times t (after digits item true (empty_schema false))
          ≡ ite
              (str_discrete t item.table)
              (if true then times t (empty_schema false) + 1 else times t (empty_schema false) - 1)
              (times t (empty_schema false)))
update_lem_example = update_lem digits item true (empty_schema false) empty-IsKept

one-IsKept : IsKept one
unfolding program
one-IsKept = update_lem_example.1

revert-update_example :
    (is_ok (revert (change_of digits item false one) (after digits item false one)).0 ≡ true)
    × IsSameSchema (revert (change_of digits item false one) (after digits item false one)).1 one
revert-update_example = revert-update digits item false one one-IsKept

-- A table of a data source, with the columns "a" and "b".
abbrev source_columns : TableColumns
source_columns = described ((97 ∷ [], 120 ∷ []) ∷ (98 ∷ [], []) ∷ [])

abbrev source : Schema
source = record { columns = (112 ∷ [], source_columns) ∷ []; count = none; complete = true }

-- The dict of a column comes back for its number.
second_column :
    (column_number (112 ∷ []) (named (98 ∷ [])) source ≡ some 1)
    × (column_name (112 ∷ []) (numbered 1) source ≡ some (dict_entry (98 ∷ []) []))
unfolding program
second_column = (refl, refl)

source-columns : lookup str_discrete (112 ∷ []) source.columns ≡ some source_columns
unfolding program
source-columns = refl

column_number_lem_example :
    ((column : Str) (i : ℕ)
      → column_number (112 ∷ []) (named column) source ≡ some i
      → (i < length (col source_columns))
        × ((entry : ColumnEntry) × (column_name (112 ∷ []) (numbered i) source ≡ some entry)
            × (name_of entry ≡ column)
            × (is_name entry ≡ is_plain source_columns)))
    × ((i j : ℕ)
        → (column_number (112 ∷ []) (numbered i) source ≡ some j)
          ↔ ((j ≡ i) × (i ≤ length (col source_columns))))
column_number_lem_example = column_number_lem (112 ∷ []) source source_columns source-columns
