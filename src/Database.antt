-- ===== src/Database.antt =====
-- The class Database of congress/datalog/database.py: the tuples of each table with their proofs.
-- The proofs of a tuple, `Database.ProofCollection`, are a list that is meant as a set; proofs are
-- of a type whose equality is decided. `pc -= other` and `pc |= other` bind the name `pc` to what
-- the method returns, which is None for None. The proofs of an event are a list.
pub mod Proofs
pub mod Changes
pub mod Content
pub mod Modify
pub mod Tuples
mod Tests
use congress.Prelude.{
  Bool, true, false, ◌&&◌, not, Option, none, some, List, [], ◌∷◌, ◌++◌, if◌then◌else◌, contains,
  add, Dict, lookup, insert, tuple_discrete, ite, is_empty,
}
use congress.Tablename.{Str, str_discrete}

-- `Database.ProofCollection`, by its `contents`.
pub record ProofCollection (P : Type 0) : Type 0 where
  pub contents : List P

module _ {P : Type 0} (dec : Discrete P) where
  -- The loop of `__isub__`.
  pub remaining : List P → List P → List P
  remaining [] other = []
  remaining (proof ∷ proofs) other =
      let rest = remaining proofs other in if contains dec proof other then rest else proof ∷ rest

  -- The loop of `__ior__`.
  pub append_missing : List P → List P → List P
  append_missing [] contents = contents
  append_missing (proof ∷ proofs) contents = append_missing proofs (add dec proof contents)

  pub isub : ProofCollection P → Option (ProofCollection P) → Option (ProofCollection P)
  isub pc none = none
  isub pc (some other) = some (record { contents = remaining pc.contents other.contents })

  pub ior : ProofCollection P → Option (ProofCollection P) → Option (ProofCollection P)
  ior pc none = none
  ior pc (some other) = some (record { contents = append_missing other.contents pc.contents })

  -- `__ge__`, with the iterable as a list.
  pub ge : ProofCollection P → List P → Bool
  ge pc [] = true
  ge pc (proof ∷ proofs) =
      let rest = ge pc proofs in if contains dec proof pc.contents then rest else false

  -- `__le__`
  pub all_in : List P → List P → Bool
  all_in [] iterable = true
  all_in (proof ∷ proofs) iterable =
      let rest = all_in proofs iterable in if contains dec proof iterable then rest else false

  pub le : ProofCollection P → List P → Bool
  le pc iterable = all_in pc.contents iterable

  -- `__eq__`
  pub same_proofs : ProofCollection P → ProofCollection P → Bool
  same_proofs pc other = le pc other.contents && le other pc.contents

-- `DbTuple`: the names of the arguments, and the proofs.
pub record DbTuple (V P : Type 0) : Type 0 where
  pub tuple : List V
  pub proofs : ProofCollection P

-- `self.data`
abbrev pub Data : Type 0 → Type 0 → Type 0
Data V P = Dict Str (List (DbTuple V P))

-- An Event on an atom, which the database reads as the name of its table and the names of its
-- arguments (`atom_to_internal`).
pub record Event (V P : Type 0) : Type 0 where
  pub table : Str
  pub names : List V
  pub inserts : Bool
  pub proofs : List P

module _ {V P : Type 0} (dv : Discrete V) (dp : Discrete P) where
  -- The proofs of the first tuple with these names.
  pub proofs_of : List V → List (DbTuple V P) → Option (ProofCollection P)
  proofs_of names [] = none
  proofs_of names (dbtuple ∷ rows) =
      let rest = proofs_of names rows in
      ite (tuple_discrete dv dbtuple.tuple names) (some dbtuple.proofs) rest

  pub rows_of : Str → Data V P → List (DbTuple V P)
  rows_of table db = elim (lookup str_discrete table db) [ none ↦ [] | some rows ↦ rows ]

  -- `is_noop`: the loop returns at the first tuple with these names that has all the proofs.
  pub has_proofs : Event V P → List (DbTuple V P) → Bool
  has_proofs event [] = false
  has_proofs event (dbtuple ∷ rows) =
      let rest = has_proofs event rows in
      ite (tuple_discrete dv dbtuple.tuple event.names)
        (if ge dp dbtuple.proofs event.proofs then true else rest) rest

  pub is_noop : Event V P → Data V P → Bool
  is_noop event db = elim (lookup str_discrete event.table db) [
    | none ↦ not event.inserts
    | some rows ↦ if has_proofs event rows then event.inserts else not event.inserts
  ]

  -- The loop of `insert_actual`.
  pub insert_row : List V → List P → List (DbTuple V P) → List (DbTuple V P)
  insert_row names proofs [] = record { tuple = names; proofs = record { contents = proofs } } ∷ []
  insert_row names proofs (dbtuple ∷ rows) =
      let rest = insert_row names proofs rows in
      ite (tuple_discrete dv dbtuple.tuple names)
        (record dbtuple {
          proofs = record { contents = append_missing dp proofs dbtuple.proofs.contents };
        }
          ∷ rows)
        (dbtuple ∷ rest)

  pub insert_actual : Event V P → Data V P → Data V P
  insert_actual event db = elim (lookup str_discrete event.table db) [
    | none ↦
        insert str_discrete event.table
          (record { tuple = event.names; proofs = record { contents = event.proofs } } ∷ []) db
    | some rows ↦ insert str_discrete event.table (insert_row event.names event.proofs rows) db
  ]

  -- The loop of `delete_actual`.
  pub delete_row : List V → List P → List (DbTuple V P) → List (DbTuple V P)
  delete_row names proofs [] = []
  delete_row names proofs (dbtuple ∷ rows) =
      let rest = delete_row names proofs rows in
      let left = remaining dp dbtuple.proofs.contents proofs in
      ite (tuple_discrete dv dbtuple.tuple names)
        (if is_empty left
          then rows
          else record dbtuple { proofs = record { contents = left } } ∷ rows)
        (dbtuple ∷ rest)

  pub delete_actual : Event V P → Data V P → Data V P
  delete_actual event db = elim (lookup str_discrete event.table db) [
    | none ↦ db
    | some rows ↦ insert str_discrete event.table (delete_row event.names event.proofs rows) db
  ]

  -- `modify`, with the events that it returns.
  pub modify : Event V P → Data V P → List (Event V P) × Data V P
  modify event db =
      if is_noop event db
      then ([], db)
      else (event ∷ [], if event.inserts then insert_actual event db else delete_actual event db)

  -- `update`
  pub update : List (Event V P) → Data V P → List (Event V P) × Data V P
  update [] db = ([], db)
  update (event ∷ events) db =
      let (changes, db') = modify event db in
      let (changes', db'') = update events db' in (changes ++ changes', db'')

  -- `__contains__`, of an atom
  pub has_tuple : List V → List (DbTuple V P) → Bool
  has_tuple names [] = false
  has_tuple names (dbtuple ∷ rows) =
      let rest = has_tuple names rows in ite (tuple_discrete dv dbtuple.tuple names) true rest

  pub has_atom : Str → List V → Data V P → Bool
  has_atom table names db = elim (lookup str_discrete table db) [
    | none ↦ false
    | some rows ↦ has_tuple names rows
  ]
