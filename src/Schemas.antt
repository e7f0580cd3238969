-- ===== src/Schemas.antt =====
-- The class Schema of congress/datalog/compile.py: the names of the columns of each table, and how
-- many literals or facts of it there are. `count` is None where the schema is given and not kept.
-- An item is the name of its table, the number of its arguments, and its theory, which is None for
-- a Fact.
pub mod Laws
pub mod Columns
mod Tests
use congress.Prelude.{
  ℕ, zero, suc, ◌+◌, ◌-◌, Bool, true, false, Option, none, some, List, [], ◌∷◌, ◌++◌, if◌then◌else◌,
  length, map, contains, Dict, keys, lookup, insert, erase, ltb, ite, ok, raise, key_error,
  assertion_error, type_error, get_elem?, Action,
}
use congress.Tablename.{Str, str_discrete}

-- The entry of a table: the names of its columns, or, for the tables of a data source, a dict with
-- a name and a description of each.
pub data TableColumns : Type 0 where
  plain : List Str → TableColumns
  described : List (Str × Str) → TableColumns

pub record Schema : Type 0 where
  pub columns : Dict Str TableColumns
  pub count : Option (Dict Str ℕ)
  pub complete : Bool

abbrev pub empty_schema : Bool → Schema
empty_schema complete = record { columns = []; count = some []; complete = complete }

pub record Item : Type 0 where
  pub table : Str
  pub arity : ℕ
  pub theory : Option Str

-- A schema change: the table, its columns where they came or went, and whether it is an insertion.
pub record SchemaChange : Type 0 where
  pub table : Str
  pub columns : Option TableColumns
  pub inserted : Bool
  pub theory : Option Str

module _ (digits : ℕ → Str) where
  -- `["Col" + str(i) for i in range(0, n)]`, where `digits` is `str` of a number.
  pub column_names_from : ℕ → ℕ → List Str
  column_names_from start zero = []
  column_names_from start (suc n) =
      (67 ∷ 111 ∷ 108 ∷ digits start) ∷ column_names_from (start + 1) n

  -- `update` where `count` is there. A KeyError is that of a table in `map` alone.
  pub update_counts : Item → Bool → Dict Str ℕ → Action Schema (Option SchemaChange)
  update_counts item true counts s = elim (lookup str_discrete item.table s.columns) [
    | some _ ↦ elim (lookup str_discrete item.table counts) [
      | none ↦ (raise key_error, s)
      | some n ↦ (
        ok (
            some (record {
              table = item.table;
              columns = none;
              inserted = true;
              theory = item.theory;
            })),
        record s { count = some (insert str_discrete item.table (n + 1) counts) },
      )
    ]
    | none ↦
        let names = plain (column_names_from 0 item.arity) in
        (
          ok (
              some (record {
                table = item.table;
                columns = some names;
                inserted = true;
                theory = item.theory;
              })),
          record s {
            count = some (insert str_discrete item.table 1 counts);
            columns = insert str_discrete item.table names s.columns;
          },
        )
  ]
  update_counts item false counts s = elim (lookup str_discrete item.table s.columns) [
    | none ↦ (ok none, s)
    | some names ↦ elim (lookup str_discrete item.table counts) [
      | none ↦ (raise key_error, s)
      | some n ↦
          if ltb 1 n
          then (
            ok (
                some (record {
                  table = item.table;
                  columns = none;
                  inserted = false;
                  theory = item.theory;
                })),
            record s { count = some (insert str_discrete item.table (n - 1) counts) },
          )
          else (
            ok (
                some (record {
                  table = item.table;
                  columns = some names;
                  inserted = false;
                  theory = item.theory;
                })),
            record s {
              count = some (erase str_discrete item.table counts);
              columns = erase str_discrete item.table s.columns;
            },
          )
    ]
  ]

  pub update : Item → Bool → Action Schema (Option SchemaChange)
  update item is_insert s = elim s.count [
    | none ↦ (ok none, s)
    | some counts ↦ update_counts item is_insert counts s
  ]

-- `revert` of a change; where `count` is None there is none to revert, and TypeError stands for
-- a change from elsewhere.
pub revert_counts : SchemaChange → Dict Str ℕ → Action Schema Unit
revert_counts change counts s =
    if change.inserted
    then elim (lookup str_discrete change.table counts) [
      | none ↦ (raise key_error, s)
      | some n ↦
          if ltb 1 n
          then (ok tt, record s { count = some (insert str_discrete change.table (n - 1) counts) })
          else elim (lookup str_discrete change.table s.columns) [
            | none ↦ (raise key_error, s)
            | some _ ↦ (
              ok tt,
              record s {
                columns = erase str_discrete change.table s.columns;
                count = some (erase str_discrete change.table counts);
              },
            )
          ]
    ]
    else elim (lookup str_discrete change.table counts) [
      | some n ↦
          (ok tt, record s { count = some (insert str_discrete change.table (n + 1) counts) })
      | none ↦ elim change.columns [
        | none ↦ (raise assertion_error, s)
        | some names ↦ (
          ok tt,
          record s {
            columns = insert str_discrete change.table names s.columns;
            count = some (insert str_discrete change.table 1 counts);
          },
        )
      ]
    ]

pub revert : Option SchemaChange → Action Schema Unit
revert none s = (ok tt, s)
revert (some change) s = elim s.count [
  | none ↦ (raise type_error, s)
  | some counts ↦ revert_counts change counts s
]

-- `__contains__`, `columns` and `arity`
pub has_table : Str → Schema → Bool
has_table table s = contains str_discrete table (keys s.columns)

-- `col`
pub entry_names : List (Str × Str) → List Str
entry_names [] = []
entry_names ((name, desc) ∷ entries) = name ∷ entry_names entries

pub col : TableColumns → List Str
col (plain names) = names
col (described entries) = entry_names entries

pub columns_of : Str → Schema → Option (List Str)
columns_of table s = elim (lookup str_discrete table s.columns) [
  | none ↦ none
  | some columns ↦ some (col columns)
]

pub arity_of : Str → Schema → Option ℕ
arity_of table s = elim (lookup str_discrete table s.columns) [
  | none ↦ none
  | some (plain names) ↦ some (length names)
  | some (described entries) ↦ some (length entries)
]

-- `names.index(column)`
pub index_of : Str → List Str → Option ℕ
index_of column [] = none
index_of column (name ∷ names) =
    let rest = index_of column names in
    ite (str_discrete name column) (some 0) (elim rest [ none ↦ none | some i ↦ some (i + 1) ])

-- A column by its number, not below zero, or by its name.
pub data Column : Type 0 where
  numbered : ℕ → Column
  named : Str → Column

pub column_number : Str → Column → Schema → Option ℕ
column_number table (numbered i) s = elim (columns_of table s) [
  | none ↦ none
  | some names ↦ if ltb (length names) i then none else some i
]
column_number table (named column) s = elim (columns_of table s) [
  | none ↦ none
  | some names ↦ index_of column names
]

-- What `column_name` returns: a name, or the dict of a column of a data source.
pub data ColumnEntry : Type 0 where
  name_entry : Str → ColumnEntry
  dict_entry : Str → Str → ColumnEntry

pub entry_at : TableColumns → ℕ → Option ColumnEntry
entry_at (plain names) i = elim (get_elem? names i) [
  | none ↦ none
  | some name ↦ some (name_entry name)
]
entry_at (described entries) i = elim (get_elem? entries i) [
  | none ↦ none
  | some (name, desc) ↦ some (dict_entry name desc)
]

pub column_name : Str → Column → Schema → Option ColumnEntry
column_name table (numbered i) s = elim (lookup str_discrete table s.columns) [
  | none ↦ none
  | some columns ↦ entry_at columns i
]
column_name table (named column) s = elim (columns_of table s) [
  | none ↦ none
  | some names ↦ if contains str_discrete column names then some (name_entry column) else none
]
