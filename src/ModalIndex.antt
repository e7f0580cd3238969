-- ===== src/ModalIndex.antt =====
-- The class ModalIndex of congress/datalog/analysis.py: for each modal the tables under it, with
-- the number of their references. Modals and tables are of any types whose equality is decided.
-- A Python count that falls below zero is deleted like a count of zero, so that counts are
-- naturals, whose subtraction stops at zero.
pub mod Counts
pub mod Laws
pub mod Merge
pub mod Pairs
pub mod Plus
pub mod Subtract
pub mod Taken
mod Tests
use congress.Prelude.{
  ℕ, ◌+◌, ◌-◌, Bool, true, false, Option, none, some, List, [], ◌∷◌, ◌++◌, is_empty, if◌then◌else◌,
  ◌==◌, contains, Dict, keys, lookup, insert, erase, key_error, ok, raise, Action,
}

pub record ModalIndex (M T : Type 0) : Type 0 where
  pub index : Dict M (Dict T ℕ)

module _ {M T : Type 0} (dm : Discrete M) (dt : Discrete T) where
  -- The tables of a modal with their counts, none where the modal is not in the index.
  pub tables_of : M → Dict M (Dict T ℕ) → Dict T ℕ
  tables_of modal index = elim (lookup dm modal index) [ none ↦ [] | some tables ↦ tables ]

  -- `if tablename not in d: d[tablename] = 0`, `d[tablename] += 1`
  unfoldable pub increment : T → Dict T ℕ → Dict T ℕ
  increment table tables = elim (lookup dt table tables) [
    | none ↦ insert dt table 1 tables
    | some n ↦ insert dt table (n + 1) tables
  ]

  unfoldable pub add_table : M → T → ModalIndex M T → ModalIndex M T
  add_table modal table s = elim (lookup dm modal s.index) [
    | none ↦ record { index = insert dm modal (increment table []) s.index }
    | some tables ↦ record { index = insert dm modal (increment table tables) s.index }
  ]

  -- `_clean_up`: drops a count of zero, and a modal with no table left.
  pub clean_up : M → T → Action (ModalIndex M T) Unit
  clean_up modal table s = elim (lookup dm modal s.index) [
    | none ↦ (raise key_error, s)
    | some tables ↦ elim (lookup dt table tables) [
      | none ↦ (raise key_error, s)
      | some n ↦
          let rest = if n == 0 then erase dt table tables else tables in
          (
            ok tt,
            record {
              index =
                  if is_empty rest then erase dm modal s.index else insert dm modal rest s.index;
            },
          )
    ]
  ]

  pub remove : M → T → Action (ModalIndex M T) Unit
  remove modal table s = elim (lookup dm modal s.index) [
    | none ↦ (raise key_error, s)
    | some tables ↦ elim (lookup dt table tables) [
      | none ↦ (raise key_error, s)
      | some n ↦
          clean_up modal table
            (record { index = insert dm modal (insert dt table (n - 1) tables) s.index })
    ]
  ]

  pub modals : ModalIndex M T → List M
  modals s = keys s.index

  pub tables : M → ModalIndex M T → List T
  tables modal s = keys (tables_of modal s.index)

  -- The inner loop of `__isub__` over the tables of one modal: what is subtracted in place, and
  -- the tables that it recorded in `changes`.
  pub subtract_tables : Dict T ℕ → Dict T ℕ → Dict T ℕ × List T
  subtract_tables others [] = ([], [])
  subtract_tables others ((table, n) ∷ rest) =
      let (rest', changed) = subtract_tables others rest in
      elim (lookup dt table others) [
        | none ↦ ((table, n) ∷ rest', changed)
        | some k ↦ ((table, n - k) ∷ rest', table ∷ changed)
      ]

  -- The changes of one modal.
  pub pairs : M → List T → List (M × T)
  pairs modal [] = []
  pairs modal (t ∷ ts) = (modal, t) ∷ pairs modal ts

  -- The outer loop of `__isub__`.
  pub subtract : Dict M (Dict T ℕ) → Dict M (Dict T ℕ) → Dict M (Dict T ℕ) × List (M × T)
  subtract others [] = ([], [])
  subtract others ((modal, own) ∷ rest) =
      let (rest', changed) = subtract others rest in
      elim (lookup dm modal others) [
        | none ↦ ((modal, own) ∷ rest', changed)
        | some theirs ↦
            let (own', changed') = subtract_tables theirs own in
            ((modal, own') ∷ rest', pairs modal changed' ++ changed)
      ]

  pub clean_up_all : List (M × T) → Action (ModalIndex M T) Unit
  clean_up_all [] s = (ok tt, s)
  clean_up_all ((modal, table) ∷ rest) s =
      let (r, s') = clean_up modal table s in
      elim r [ ok _ ↦ clean_up_all rest s' | raise e ↦ (raise e, s') ]

  -- `__isub__`
  pub isub : ModalIndex M T → Action (ModalIndex M T) Unit
  isub other s =
      let (index, changes) = subtract other.index s.index in
      clean_up_all changes (record { index = index })

  -- The inner loop of `__iadd__` over the tables of one modal of the other index.
  pub add_tables : Dict T ℕ → Dict T ℕ → Dict T ℕ
  add_tables [] own = own
  add_tables ((table, k) ∷ rest) own = elim (lookup dt table own) [
    | none ↦ add_tables rest (insert dt table k own)
    | some n ↦ add_tables rest (insert dt table (n + k) own)
  ]

  -- The outer loop of `__iadd__`. The source shares the inner dict of a modal that is new here
  -- with the other index; this is the index that the call leaves, before either is changed again.
  pub add_index : Dict M (Dict T ℕ) → Dict M (Dict T ℕ) → Dict M (Dict T ℕ)
  add_index [] own = own
  add_index ((modal, theirs) ∷ rest) own = elim (lookup dm modal own) [
    | none ↦ add_index rest (insert dm modal theirs own)
    | some tables ↦ add_index rest (insert dm modal (add_tables theirs tables) own)
  ]

  pub iadd : ModalIndex M T → ModalIndex M T → ModalIndex M T
  iadd other s = record { index = add_index other.index s.index }

  -- `__contains__`
  unfoldable pub has_modal : M → ModalIndex M T → Bool
  has_modal modal s = contains dm modal (keys s.index)
