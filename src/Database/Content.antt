-- ===== src/Database/Content.antt =====
-- What the class Database of congress/datalog/database.py tells of its atoms. The name of a table
-- with a colon becomes the name of a table of a service in the literals of `content`.
use congress.Prelude.{
  ℕ, ◌≡◌, ◌⊎◌, Bool, true, Option, none, some, List, [], ◌∷◌, ◌++◌, if◌then◌else◌, keys, lookup,
  tuple_discrete, pair_discrete, length,
}
use congress.Tablename.{Str, Tablename, str_discrete, create_from_tablename}
use congress.Database.{ProofCollection, DbTuple, Data, proofs_of, rows_of, has_atom}

module _ {V P : Type 0} (dv : Discrete V) (dp : Discrete P) where
  abbrev pub atom_discrete : Discrete (Str × List V)
  atom_discrete = pair_discrete str_discrete (tuple_discrete dv)

  -- `Literal.create_from_table_tuple`: the name of the table, and the values of the arguments.
  pub create_from_table_tuple : Str → List V → Tablename × List V
  create_from_table_tuple table values = (create_from_tablename table none true, values)

  -- The literals of the rows of a table.
  pub literals : Str → List (DbTuple V P) → List (Tablename × List V)
  literals table [] = []
  literals table (dbtuple ∷ rows) =
      create_from_table_tuple table dbtuple.tuple ∷ literals table rows

  -- The loop of `content`.
  pub content_of : List Str → Data V P → List (Tablename × List V)
  content_of [] db = []
  content_of (table ∷ tables) db =
      let rest = content_of tables db in
      elim (lookup str_discrete table db) [ none ↦ rest | some rows ↦ literals table rows ++ rest ]

  pub content : Option (List Str) → Data V P → List (Tablename × List V)
  content none db = content_of (keys db) db
  content (some tablenames) db = content_of tablenames db

  -- The rows that `__sub__` adds from one table: those that the other database does not have.
  pub missing_rows : Str → List (DbTuple V P) → Data V P → List (Str × List V)
  missing_rows table [] other = []
  missing_rows table (dbtuple ∷ rows) other =
      let rest = missing_rows table rows other in
      if has_atom dv dp table dbtuple.tuple other then rest else (table, dbtuple.tuple) ∷ rest

  -- The loop of `__sub__`.
  pub difference_of : List Str → Data V P → Data V P → List (Str × List V)
  difference_of [] db other = []
  difference_of (table ∷ tables) db other =
      let rest = difference_of tables db other in
      missing_rows table (rows_of dv dp table db) other ++ rest

  pub sub : Data V P → Data V P → List (Str × List V)
  sub db other = difference_of (keys db) db other

  -- `explain`, of an atom that is ground or not.
  pub explain : Bool → Str → List V → Data V P → Option (ProofCollection P)
  explain is_ground table names db = elim (lookup str_discrete table db) [
    | none ↦ some (record { contents = [] })
    | some rows ↦ if is_ground then proofs_of dv dp names rows else some (record { contents = [] })
  ]

  -- `get_arity_self`
  pub get_arity_self : Str → Data V P → Option ℕ
  get_arity_self table db = elim (lookup str_discrete table db) [
    | none ↦ none
    | some rows ↦ elim rows [ [] ↦ none | dbtuple ∷ rest ↦ some (length dbtuple.tuple) ]
  ]

  -- The literal is one of these.
  abbrev pub IsIn : Tablename × List V → List (Tablename × List V) → Type 0
  IsIn literal [] = ⊥
  IsIn literal (first ∷ rest) = (literal ≡ first) ⊎ IsIn literal rest

  -- The literal is made of an atom of the database, under one of these keys.
  abbrev pub IsMadeOf : Tablename × List V → (Str → Bool) → Data V P → Type 0
  IsMadeOf literal wanted db =
      (table : Str) × (names : List V) × (wanted table ≡ true)
      × (has_atom dv dp table names db ≡ true)
      × (literal ≡ (create_from_tablename table none true, names))
