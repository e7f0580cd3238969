-- ===== src/Database/Changes.antt =====
-- Events on a Database: the proofs that an atom has after `modify`.
use congress.Prelude.{
  ◌≡◌, refl, Bool, true, false, ◌&&◌, ◌||◌, Option, none, some, List, [], ◌∷◌, arith, ite,
  if◌then◌else◌, contains, tuple_discrete,
}
use congress.Tablename.{Str, str_discrete}
use congress.Database.{
  ProofCollection, remaining, ge, Data, Event, proofs_of, rows_of, insert_actual, modify, has_atom,
}
use congress.Database.Proofs.{contains-append_missing}
use congress.Database.Tuples.{is_proof, is_some, reduced, extended, has_tuple_lem}
use congress.Database.Modify.{
  IsData, found, noop_on, is_noop_lem, found-insert_actual, found-delete_actual, modify-IsData,
}

module _ {V P : Type 0} (dv : Discrete V) (dp : Discrete P) where
  contains-of_ge :
      (p : P) (pc : ProofCollection P) (proofs : List P)
      → ge dp pc proofs ≡ true
      → contains dp p proofs ≡ true
      → contains dp p pc.contents ≡ true
  unfolding ge contains
  contains-of_ge p pc [] h e = cc
  contains-of_ge p pc (q ∷ proofs) h e = ground (arith, h, e, contains-of_ge p pc proofs)

  -- Whether all the proofs of an event are among these.
  abbrev pub has_all : Event V P → Option (ProofCollection P) → Bool
  has_all event none = false
  has_all event (some pc) = ge dp pc event.proofs

  -- Whether an event is on this atom.
  abbrev pub is_on : Event V P → Str → List V → Bool
  is_on event table names =
      ite (str_discrete table event.table) (ite (tuple_discrete dv event.names names) true false)
        false

  is_proof-extended :
      (p : P) (proofs : List P) (before : Option (ProofCollection P))
      → is_proof dv dp p (extended dv dp proofs before)
        ≡ (contains dp p proofs || is_proof dv dp p before)
  is_proof-extended p proofs none = ground arith
  is_proof-extended p proofs (some pc) = contains-append_missing dp p proofs pc.contents

  is_proof-noop_on :
      (p : P) (event : Event V P) (before : Option (ProofCollection P))
      → event.inserts ≡ true
      → noop_on dv dp event before ≡ true
      → contains dp p event.proofs ≡ true
      → is_proof dv dp p before ≡ true
  is_proof-noop_on p event none e noop c = ground (arith, e, noop)
  is_proof-noop_on p event (some pc) e noop c =
      ground (arith, e, noop, c, contains-of_ge p pc event.proofs)

  -- An insertion adds its proofs to those of its atom, and nothing to those of another atom,
  -- whether the database takes it for a change or not.
  pub modify-inserts :
      (event : Event V P) (db : Data V P)
      → IsData dv dp db
      → event.inserts ≡ true
      → (table : Str) (names : List V) (p : P)
      → is_proof dv dp p (found dv dp table names (modify dv dp event db).1) ≡ (
          is_on event table names && contains dp p event.proofs
          || is_proof dv dp p (found dv dp table names db))
  unfolding modify
  modify-inserts event db h e table names p = ground (
    arith,
    e,
    found-insert_actual dv dp table names event db,
    is_proof-extended p event.proofs (found dv dp event.table event.names db),
    is_noop_lem dv dp event db h,
    is_proof-noop_on p event (found dv dp event.table event.names db) e,
  )

  has_atom_lem :
      (table : Str) (names : List V) (db : Data V P)
      → has_atom dv dp table names db ≡ is_some dv dp (found dv dp table names db)
  unfolding has_atom rows_of proofs_of
  has_atom_lem table names db = ground (arith, has_tuple_lem dv dp names (rows_of dv dp table db))

  -- After an insertion its atom is in the database, and the other atoms are where they were.
  pub has_atom-modify_inserts :
      (event : Event V P) (db : Data V P)
      → IsData dv dp db
      → event.inserts ≡ true
      → (table : Str) (names : List V)
      → has_atom dv dp table names (modify dv dp event db).1
        ≡ (is_on event table names || has_atom dv dp table names db)
  unfolding modify
  has_atom-modify_inserts event db h e table names = ground (
    arith,
    e,
    found-insert_actual dv dp table names event db,
    has_atom_lem table names db,
    has_atom_lem table names (insert_actual dv dp event db),
    is_noop_lem dv dp event db h,
  )

  pub modify-deletes :
      (event : Event V P) (db : Data V P)
      → IsData dv dp db
      → event.inserts ≡ false
      → ((modify dv dp event db).0
          ≡ (if has_all event (found dv dp event.table event.names db) then event ∷ [] else []))
        × ((table : Str) (names : List V)
            → found dv dp table names (modify dv dp event db).1 ≡ (
                if is_on event table names && has_all event (found dv dp table names db)
                then reduced dv dp event.proofs (found dv dp table names db)
                else found dv dp table names db))
  unfolding modify
  modify-deletes event db h e = (
    ground (arith, e, is_noop_lem dv dp event db h),
    λ table names.
        ground (
          arith,
          e,
          found-delete_actual dv dp table names event db h,
          is_noop_lem dv dp event db h,
        ),
  )

  remaining_of_all :
      (proofs other : List P)
      → ((p : P) → contains dp p proofs ≡ true → contains dp p other ≡ true)
      → remaining dp proofs other ≡ []
  unfolding remaining contains
  remaining_of_all [] other h = refl
  remaining_of_all (p ∷ proofs) other h =
      ground (arith, h p, remaining_of_all proofs other (λ q e. h q (ground (arith, e))))

  ge_of_all :
      (pc : ProofCollection P) (proofs : List P)
      → ((p : P) → contains dp p proofs ≡ true → contains dp p pc.contents ≡ true)
      → ge dp pc proofs ≡ true
  unfolding ge contains
  ge_of_all pc [] h = refl
  ge_of_all pc (p ∷ proofs) h =
      ground (arith, h p, ge_of_all pc proofs (λ q e. h q (ground (arith, e))))

  found-modify_fresh :
      (event : Event V P) (db : Data V P)
      → IsData dv dp db
      → event.inserts ≡ true
      → found dv dp event.table event.names db ≡ none
      → (table : Str) (names : List V)
      → found dv dp table names (modify dv dp event db).1 ≡ (
          if is_on event table names
          then some (record { contents = event.proofs })
          else found dv dp table names db)
  unfolding modify
  found-modify_fresh event db h e fresh table names = ground (
    arith,
    e,
    fresh,
    found-insert_actual dv dp table names event db,
    is_noop_lem dv dp event db h,
  )

  own : Event V P → ProofCollection P
  own event = record { contents = event.proofs }

  ge-own : (event : Event V P) → ge dp (own event) event.proofs ≡ true
  unfolding own
  ge-own event = ge_of_all (own event) event.proofs (λ p e. e)

  abbrev pub deletion : Event V P → Event V P
  deletion event = record event { inserts = false }

  -- A deletion with the proofs of an insertion undoes it, where the atom was not there: every
  -- atom has the proofs then that it had.
  pub modify-modify :
      (event : Event V P) (db : Data V P)
      → IsData dv dp db
      → event.inserts ≡ true
      → found dv dp event.table event.names db ≡ none
      → (table : Str) (names : List V)
      → found dv dp table names (modify dv dp (deletion event) (modify dv dp event db).1).1
        ≡ found dv dp table names db
  unfolding own
  modify-modify event db h e fresh table names = ground (
    arith,
    fresh,
    (modify-deletes (deletion event) (modify dv dp event db).1 (modify-IsData dv dp event db h)
          refl).1
        table names,
    found-modify_fresh event db h e fresh table names,
    ge-own event,
    remaining_of_all event.proofs event.proofs (λ p c. c),
  )
