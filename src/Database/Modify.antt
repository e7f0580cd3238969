-- ===== src/Database/Modify.antt =====
-- Events on a Database: what `modify` changes.
use congress.Prelude.{
  ◌≡◌, Bool, not, Option, none, some, List, [], ◌∷◌, arith, ite, if◌then◌else◌, tuple_discrete,
  insert, lookup-insert,
}
use congress.Tablename.{Str, str_discrete}
use congress.Database.{
  ProofCollection, ge, DbTuple, Data, Event, proofs_of, rows_of, is_noop, insert_row, insert_actual,
  delete_row, delete_actual, modify, update,
}
use congress.Database.Tuples.{
  IsRows, reduced, extended, proofs_of-insert_row, insert_row-IsRows, proofs_of-delete_row,
  delete_row-IsRows, has_proofs_lem,
}

module _ {V P : Type 0} (dv : Discrete V) (dp : Discrete P) where
  -- No table has two rows with the same names.
  abbrev pub IsData : Data V P → Type 0
  IsData db = (table : Str) → IsRows dv dp (rows_of dv dp table db)

  -- The proofs of an atom.
  abbrev pub found : Str → List V → Data V P → Option (ProofCollection P)
  found table names db = proofs_of dv dp names (rows_of dv dp table db)

  rows_of-insert :
      (table own : Str) (rows : List (DbTuple V P)) (db : Data V P)
      → rows_of dv dp table (insert str_discrete own rows db)
        ≡ ite (str_discrete table own) rows (rows_of dv dp table db)
  unfolding rows_of
  rows_of-insert table own rows db = ground (arith, lookup-insert str_discrete table own rows db)

  rows_of-insert_actual :
      (table : Str) (event : Event V P) (db : Data V P)
      → rows_of dv dp table (insert_actual dv dp event db)
        ≡ ite
            (str_discrete table event.table)
            (insert_row dv dp event.names event.proofs (rows_of dv dp event.table db))
            (rows_of dv dp table db)
  unfolding rows_of insert_actual insert_row
  rows_of-insert_actual table event db = ground (
    arith,
    rows_of-insert table event.table
        (insert_row dv dp event.names event.proofs (rows_of dv dp event.table db)) db,
  )

  rows_of-delete_actual :
      (table : Str) (event : Event V P) (db : Data V P)
      → rows_of dv dp table (delete_actual dv dp event db)
        ≡ ite
            (str_discrete table event.table)
            (delete_row dv dp event.names event.proofs (rows_of dv dp event.table db))
            (rows_of dv dp table db)
  unfolding rows_of delete_actual delete_row
  rows_of-delete_actual table event db = ground (
    arith,
    rows_of-insert table event.table
        (delete_row dv dp event.names event.proofs (rows_of dv dp event.table db)) db,
  )

  abbrev pub noop_on : Event V P → Option (ProofCollection P) → Bool
  noop_on event none = not event.inserts
  noop_on event (some pc) = if ge dp pc event.proofs then event.inserts else not event.inserts

  pub is_noop_lem :
      (event : Event V P) (db : Data V P)
      → IsData db
      → is_noop dv dp event db ≡ noop_on event (found event.table event.names db)
  unfolding is_noop rows_of proofs_of
  is_noop_lem event db h =
      ground (arith, has_proofs_lem dv dp event (rows_of dv dp event.table db) (h event.table))

  insert_actual-IsData :
      (event : Event V P) (db : Data V P) → IsData db → IsData (insert_actual dv dp event db)
  insert_actual-IsData event db h table = ground (
    arith,
    rows_of-insert_actual table event db,
    insert_row-IsRows dv dp event.names event.proofs (rows_of dv dp event.table db) (h event.table),
    h table,
  )

  delete_actual-IsData :
      (event : Event V P) (db : Data V P) → IsData db → IsData (delete_actual dv dp event db)
  delete_actual-IsData event db h table = ground (
    arith,
    rows_of-delete_actual table event db,
    delete_row-IsRows dv dp event.names event.proofs (rows_of dv dp event.table db) (h event.table),
    h table,
  )

  -- No event gives a table two rows with the same names.
  pub modify-IsData :
      (event : Event V P) (db : Data V P) → IsData db → IsData (modify dv dp event db).1
  unfolding modify
  modify-IsData event db h table =
      ground (
        arith,
        insert_actual-IsData event db h table,
        delete_actual-IsData event db h table,
        h table,
      )

  pub found-insert_actual :
      (table : Str) (names : List V) (event : Event V P) (db : Data V P)
      → found table names (insert_actual dv dp event db)
        ≡ ite
            (str_discrete table event.table)
            (ite
              (tuple_discrete dv event.names names)
              (extended dv dp event.proofs (found event.table event.names db))
              (found table names db))
            (found table names db)
  found-insert_actual table names event db = ground (
    arith,
    rows_of-insert_actual table event db,
    proofs_of-insert_row dv dp names event.names event.proofs (rows_of dv dp event.table db),
  )

  pub found-delete_actual :
      (table : Str) (names : List V) (event : Event V P) (db : Data V P)
      → IsData db
      → found table names (delete_actual dv dp event db)
        ≡ ite
            (str_discrete table event.table)
            (ite
              (tuple_discrete dv event.names names)
              (reduced dv dp event.proofs (found event.table event.names db))
              (found table names db))
            (found table names db)
  found-delete_actual table names event db h = ground (
    arith,
    rows_of-delete_actual table event db,
    proofs_of-delete_row dv dp names event.names event.proofs (rows_of dv dp event.table db)
        (h event.table),
  )

  -- No sequence of events gives a table two rows with the same names.
  pub update-IsData :
      (events : List (Event V P)) (db : Data V P) → IsData db → IsData (update dv dp events db).1
  unfolding update
  update-IsData [] db h table = h table
  update-IsData (event ∷ events) db h table =
      update-IsData events (modify dv dp event db).1 (modify-IsData event db h) table
