-- ===== src/ModalIndex/Tests.antt =====
-- Runs of ModalIndex on small indices, and the theorems at them.
use congress.Prelude.{
  ℕ, ◌≡◌, refl, [], ◌∷◌, ℕ_discrete, lookup, insert, erase, key_error, ok, raise,
}
use congress.ModalIndex.{
  ModalIndex, tables_of, increment, add_table, clean_up, remove, subtract_tables, pairs, subtract,
  clean_up_all, isub, add_tables, add_index, iadd,
}
use congress.ModalIndex.Counts.{IsValid, count, count-add_table}
use congress.ModalIndex.Laws.{empty-IsValid, add_table-IsValid}
use congress.ModalIndex.Subtract.{isub-IsValid}

program : Unit {0}
unfolding tables_of increment add_table clean_up remove subtract_tables pairs subtract clean_up_all
    isub add_tables add_index iadd lookup insert erase ℕ_discrete
program = tt

abbrev Index : Type 0
Index = ModalIndex ℕ ℕ

-- Table 7 twice and table 8 once under modal 1.
abbrev small : Index
small = record { index = (1, (7, 2) ∷ (8, 1) ∷ []) ∷ [] }

abbrev other : Index
other = record { index = (2, (7, 1) ∷ []) ∷ (1, (7, 3) ∷ []) ∷ [] }

remove-small :
    (remove ℕ_discrete ℕ_discrete 1 8 small ≡ (ok tt, record { index = (1, (7, 2) ∷ []) ∷ [] }))
    × (remove ℕ_discrete ℕ_discrete 2 8 small ≡ (raise key_error, small))
unfolding program
remove-small = (refl, refl)

isub-small :
    isub ℕ_discrete ℕ_discrete other small ≡ (ok tt, record { index = (1, (8, 1) ∷ []) ∷ [] })
unfolding program
isub-small = refl

isub_all :
    isub ℕ_discrete ℕ_discrete small (iadd ℕ_discrete ℕ_discrete small (record { index = [] }))
    ≡ (ok tt, record { index = [] })
unfolding program
isub_all = refl

small-IsValid : IsValid ℕ_discrete ℕ_discrete small
unfolding program
small-IsValid =
    (add_table-IsValid ℕ_discrete ℕ_discrete 1 8 _ (
      add_table-IsValid ℕ_discrete ℕ_discrete 1 7 _ (
        add_table-IsValid ℕ_discrete ℕ_discrete 1 7 (record { index = [] })
          (empty-IsValid ℕ_discrete ℕ_discrete))))

count-add_table_example :
    count ℕ_discrete ℕ_discrete 1 8 (add_table ℕ_discrete ℕ_discrete 1 8 small) ≡ 2
unfolding program
count-add_table_example = count-add_table ℕ_discrete ℕ_discrete 1 1 8 8 small

isub-IsValid_example :
    (s' : Index) × (isub ℕ_discrete ℕ_discrete other small ≡ (ok tt, s'))
    × IsValid ℕ_discrete ℕ_discrete s'
isub-IsValid_example = isub-IsValid ℕ_discrete ℕ_discrete other small small-IsValid
