-- ===== src/Database/Tests.antt =====
-- Runs of the collections of proofs, and their theorems at small ones.
use congress.Prelude.{
  ℕ, ◌≡◌, ◌↔◌, refl, Bool, true, false, ◌&&◌, ◌||◌, some, none, List, [], ◌∷◌, contains, add,
  ℕ_discrete, lookup, insert, tuple_discrete,
}
use congress.Database.{
  ProofCollection, remaining, append_missing, isub, ior, ge, all_in, le, same_proofs, Data, Event,
  proofs_of, rows_of, has_proofs, is_noop, insert_row, insert_actual, delete_row, delete_actual,
  modify, update, has_tuple, has_atom,
}
use congress.Database.Tuples.{is_proof}
use congress.Database.Modify.{IsData, found, update-IsData}
use congress.Database.Changes.{is_on, deletion, modify-inserts, modify-modify}
use congress.Tablename.{Str, Tablename}
use congress.Database.Proofs.{same_proofs_lem}

program : Unit {0}
unfolding contains add ℕ_discrete remaining append_missing isub ior ge all_in le same_proofs
    tuple_discrete proofs_of rows_of has_proofs is_noop insert_row insert_actual delete_row
    delete_actual modify update has_tuple has_atom lookup insert
program = tt

abbrev two : ProofCollection ℕ
two = record { contents = 1 ∷ 2 ∷ [] }

abbrev three : ProofCollection ℕ
three = record { contents = 2 ∷ 3 ∷ 2 ∷ [] }

isub-two : isub ℕ_discrete two (some three) ≡ some (record { contents = 1 ∷ [] })
unfolding program
isub-two = refl

ior-two : ior ℕ_discrete two (some three) ≡ some (record { contents = 1 ∷ 2 ∷ 3 ∷ [] })
unfolding program
ior-two = refl

ge-three : ge ℕ_discrete three (3 ∷ 1 ∷ []) ≡ false
unfolding program
ge-three = refl

same-three : same_proofs ℕ_discrete three (record { contents = 3 ∷ 2 ∷ [] }) ≡ true
unfolding program
same-three = refl

same_proofs_lem_example :
    (same_proofs ℕ_discrete two three ≡ true)
    ↔ ((p : ℕ) → contains ℕ_discrete p two.contents ≡ contains ℕ_discrete p three.contents)
same_proofs_lem_example = same_proofs_lem ℕ_discrete two three

-- The table p, of one argument.
abbrev p : Str
p = 112 ∷ []

abbrev event_of : Bool → ℕ → List ℕ → Event ℕ ℕ
event_of inserts n proofs = record { table = p; names = n ∷ []; inserts = inserts; proofs = proofs }

abbrev db : Data ℕ ℕ
db = (p, record { tuple = 7 ∷ []; proofs = record { contents = 1 ∷ 2 ∷ [] } } ∷ []) ∷ []

db-IsData : IsData ℕ_discrete ℕ_discrete db
unfolding program
db-IsData = update-IsData ℕ_discrete ℕ_discrete (event_of true 7 (1 ∷ 2 ∷ []) ∷ []) [] (λ table. tt)

run-update :
    (update ℕ_discrete ℕ_discrete
      (event_of true 8 []
        ∷ event_of true 7 (3 ∷ [])
        ∷ event_of true 7 (1 ∷ [])
        ∷ event_of false 7 (1 ∷ 3 ∷ [])
        ∷ event_of false 8 []
        ∷ [])
      db).1
    ≡ (p, record { tuple = 7 ∷ []; proofs = record { contents = 2 ∷ [] } } ∷ []) ∷ []
unfolding program
run-update = refl

-- A deletion with a proof that the atom does not have is no change.
run-delete : modify ℕ_discrete ℕ_discrete (event_of false 7 (2 ∷ 3 ∷ [])) db ≡ ([], db)
unfolding program
run-delete = refl

-- A deletion without proofs is returned as a change, and changes nothing.
run-delete_without_proofs :
    modify ℕ_discrete ℕ_discrete (event_of false 7 []) db ≡ (event_of false 7 [] ∷ [], db)
unfolding program
run-delete_without_proofs = refl

update-IsData_example :
    IsData ℕ_discrete ℕ_discrete
      (update ℕ_discrete ℕ_discrete (event_of false 7 (1 ∷ []) ∷ []) db).1
update-IsData_example =
    update-IsData ℕ_discrete ℕ_discrete (event_of false 7 (1 ∷ []) ∷ []) db db-IsData

modify-inserts_example :
    is_proof ℕ_discrete ℕ_discrete 3 (
      found ℕ_discrete ℕ_discrete p
        (7 ∷ [])
        (modify ℕ_discrete ℕ_discrete (event_of true 7 (3 ∷ [])) db).1)
    ≡ (is_on ℕ_discrete ℕ_discrete (event_of true 7 (3 ∷ [])) p (7 ∷ [])
          && contains ℕ_discrete 3 (3 ∷ [])
        || is_proof ℕ_discrete ℕ_discrete 3 (found ℕ_discrete ℕ_discrete p (7 ∷ []) db))
modify-inserts_example =
    modify-inserts ℕ_discrete ℕ_discrete (event_of true 7 (3 ∷ [])) db db-IsData refl p (7 ∷ []) 3

eight : Event ℕ ℕ
eight = event_of true 8 (4 ∷ [])

eight-inserts : eight.inserts ≡ true
unfolding eight
eight-inserts = refl

eight-fresh : found ℕ_discrete ℕ_discrete eight.table eight.names db ≡ none
unfolding program eight
eight-fresh = refl

modify-modify_example :
    found ℕ_discrete ℕ_discrete p
      (7 ∷ [])
      (modify ℕ_discrete ℕ_discrete
        (deletion ℕ_discrete ℕ_discrete eight)
        (modify ℕ_discrete ℕ_discrete eight db).1).1
    ≡ found ℕ_discrete ℕ_discrete p (7 ∷ []) db
modify-modify_example =
    modify-modify ℕ_discrete ℕ_discrete eight db db-IsData eight-inserts eight-fresh p (7 ∷ [])
