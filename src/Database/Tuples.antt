-- ===== src/Database/Tuples.antt =====
-- The rows of one table of a Database, and what the loops over them do.
use congress.Prelude.{
  ◌≡◌, refl, Bool, true, false, Option, none, some, List, [], ◌∷◌, arith, ite, if◌then◌else◌,
  contains, tuple_discrete, is_empty,
}
use congress.Database.{
  ProofCollection, remaining, append_missing, ge, DbTuple, Event, proofs_of, has_proofs, insert_row,
  delete_row, has_tuple,
}

module _ {V P : Type 0} (dv : Discrete V) (dp : Discrete P) where
  -- No two rows have the same names.
  abbrev pub IsRows : List (DbTuple V P) → Type 0
  IsRows [] = Unit
  IsRows (dbtuple ∷ rows) = (proofs_of dv dp dbtuple.tuple rows ≡ none) × IsRows rows

  -- Whether a proof is one of the first row with these names.
  abbrev pub is_proof : P → Option (ProofCollection P) → Bool
  is_proof p none = false
  is_proof p (some pc) = contains dp p pc.contents

  abbrev pub is_some : Option (ProofCollection P) → Bool
  is_some none = false
  is_some (some pc) = true

  -- What is left of proofs when some are taken away.
  abbrev pub reduced : List P → Option (ProofCollection P) → Option (ProofCollection P)
  reduced proofs none = none
  reduced proofs (some pc) =
      if is_empty (remaining dp pc.contents proofs)
      then none
      else some (record { contents = remaining dp pc.contents proofs })

  abbrev pub extended : List P → Option (ProofCollection P) → Option (ProofCollection P)
  extended proofs none = some (record { contents = proofs })
  extended proofs (some pc) = some (record { contents = append_missing dp proofs pc.contents })

  pub proofs_of-insert_row :
      (names own : List V) (proofs : List P) (rows : List (DbTuple V P))
      → proofs_of dv dp names (insert_row dv dp own proofs rows)
        ≡ ite
            (tuple_discrete dv own names)
            (extended proofs (proofs_of dv dp own rows))
            (proofs_of dv dp names rows)
  unfolding insert_row proofs_of
  proofs_of-insert_row names own proofs [] = refl
  proofs_of-insert_row names own proofs (dbtuple ∷ rows) =
      ground (arith, proofs_of-insert_row names own proofs rows)

  pub insert_row-IsRows :
      (own : List V) (proofs : List P) (rows : List (DbTuple V P))
      → IsRows rows
      → IsRows (insert_row dv dp own proofs rows)
  unfolding insert_row proofs_of
  insert_row-IsRows own proofs [] h = (refl, tt)
  insert_row-IsRows own proofs (dbtuple ∷ rows) h = ground (
    arith,
    h.0,
    insert_row-IsRows own proofs rows h.1,
    proofs_of-insert_row dbtuple.tuple own proofs rows,
  )

  pub proofs_of-delete_row :
      (names own : List V) (proofs : List P) (rows : List (DbTuple V P))
      → IsRows rows
      → proofs_of dv dp names (delete_row dv dp own proofs rows)
        ≡ ite
            (tuple_discrete dv own names)
            (reduced proofs (proofs_of dv dp own rows))
            (proofs_of dv dp names rows)
  unfolding delete_row proofs_of
  proofs_of-delete_row names own proofs [] h = ground arith
  proofs_of-delete_row names own proofs (dbtuple ∷ rows) h =
      ground (arith, h.0, proofs_of-delete_row names own proofs rows h.1)

  pub delete_row-IsRows :
      (own : List V) (proofs : List P) (rows : List (DbTuple V P))
      → IsRows rows
      → IsRows (delete_row dv dp own proofs rows)
  unfolding delete_row proofs_of
  delete_row-IsRows own proofs [] h = tt
  delete_row-IsRows own proofs (dbtuple ∷ rows) h = ground (
    arith,
    h.0,
    delete_row-IsRows own proofs rows h.1,
    proofs_of-delete_row dbtuple.tuple own proofs rows h.1,
  )

  -- `is_noop` asks whether the row has all the proofs.
  pub has_proofs_lem :
      (event : Event V P) (rows : List (DbTuple V P))
      → IsRows rows
      → has_proofs dv dp event rows ≡ (elim (proofs_of dv dp event.names rows) [
        | none ↦ false
        | some pc ↦ ge dp pc event.proofs
      ])
  unfolding has_proofs proofs_of
  has_proofs_lem event [] h = refl
  has_proofs_lem event (dbtuple ∷ rows) h = ground (arith, h.0, has_proofs_lem event rows h.1)

  pub has_tuple_lem :
      (names : List V) (rows : List (DbTuple V P))
      → has_tuple dv dp names rows ≡ is_some (proofs_of dv dp names rows)
  unfolding has_tuple proofs_of
  has_tuple_lem names [] = refl
  has_tuple_lem names (dbtuple ∷ rows) = ground (arith, has_tuple_lem names rows)
