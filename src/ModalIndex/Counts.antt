-- ===== src/ModalIndex/Counts.antt =====
-- The number of references of a table under a modal, and the invariant of ModalIndex
-- (analysis.py): no count is zero and no modal is empty.
use congress.Prelude.{
  ℕ, ◌+◌, ◌<◌, ◌≡◌, ◌≢◌, refl, true, none, some, [], ◌∷◌, ite, arith, inl, inr, Option-cases, Dict,
  keys, lookup, insert, erase, lookup-insert, lookup-erase, IsDistinct, is_empty,
}
use congress.ModalIndex.{ModalIndex, increment, add_table, clean_up}

module _ {T : Type 0} (dt : Discrete T) where
  -- A missing table counts zero.
  abbrev pub count_in : T → Dict T ℕ → ℕ
  count_in table tables = elim (lookup dt table tables) [ none ↦ 0 | some n ↦ n ]

  abbrev pub AllPositive : Dict T ℕ → Type 0
  AllPositive tables = (table : T) (n : ℕ) → lookup dt table tables ≡ some n → 0 < n

  count_in_no_table : (t : T) (tables : Dict T ℕ) → is_empty tables ≡ true → count_in t tables ≡ 0
  unfolding lookup
  count_in_no_table t [] h = refl
  count_in_no_table t (e ∷ tables) h = cc

  count_in_empty : (t : T) → count_in t [] ≡ 0
  count_in_empty t = count_in_no_table t [] refl

module _ {M T : Type 0} (dm : Discrete M) (dt : Discrete T) where
  abbrev pub count : M → T → ModalIndex M T → ℕ
  count modal table s = elim (lookup dm modal s.index) [
    | none ↦ 0
    | some tables ↦ count_in dt table tables
  ]

  pub record IsValid (s : ModalIndex M T) : Type 0 where
    pub some_table :
        (modal : M) (tables : Dict T ℕ) → lookup dm modal s.index ≡ some tables → tables ≢ []
    pub positive :
        (modal : M) (tables : Dict T ℕ)
        → lookup dm modal s.index ≡ some tables
        → AllPositive dt tables
    pub distinct_modals : IsDistinct dm (keys s.index)
    pub distinct_tables :
        (modal : M) (tables : Dict T ℕ)
        → lookup dm modal s.index ≡ some tables
        → IsDistinct dt (keys tables)

  pub count-insert :
      (m m' : M) (t' : T) (tables : Dict T ℕ) (s : ModalIndex M T)
      → count m' t' (record { index = insert dm m tables s.index })
        ≡ ite (dm m' m) (count_in dt t' tables) (count m' t' s)
  count-insert m m' t' tables s = ground (arith, lookup-insert dm m' m tables s.index)

  count_in-increment :
      (t t' : T) (tables : Dict T ℕ)
      → count_in dt t' (increment dm dt t tables) ≡ count_in dt t' tables + ite (dt t' t) 1 0
  unfolding increment
  count_in-increment t t' tables = elim (Option-cases (lookup dt t tables)) [
    | inl new ↦ ground (arith, lookup-insert dt t' t 1 tables)
    | inr (n, old) ↦ ground (arith, lookup-insert dt t' t (n + 1) tables)
  ]

  -- `add` counts one more reference of the table under the modal, and no other.
  pub count-add_table :
      (m m' : M) (t t' : T) (s : ModalIndex M T)
      → count m' t' (add_table dm dt m t s) ≡ count m' t' s + ite (dm m' m) (ite (dt t' t) 1 0) 0
  unfolding add_table
  count-add_table m m' t t' s = elim (Option-cases (lookup dm m s.index)) [
    | inl new ↦ ground (
      arith,
      count-insert m m' t' (increment dm dt t []) s,
      count_in-increment t t' [],
      count_in_empty dt t',
    )
    | inr (tables, old) ↦
        ground
          (arith, count-insert m m' t' (increment dm dt t tables) s, count_in-increment t t' tables)
  ]

  -- `_clean_up` drops only counts of zero, so that no count changes.
  pub count-clean_up :
      (m m' : M) (t t' : T) (s : ModalIndex M T)
      → count m' t' (clean_up dm dt m t s).1 ≡ count m' t' s
  unfolding clean_up
  count-clean_up m m' t t' s = elim (Option-cases (lookup dm m s.index)) [
    | inl missing ↦ ground arith
    | inr (tables, e) ↦ elim (Option-cases (lookup dt t tables)) [
      | inl missing ↦ ground arith
      | inr (n, f) ↦ ground (
        arith,
        count-insert m m' t' tables s,
        count-insert m m' t' (erase dt t tables) s,
        lookup-erase dm m' m s.index,
        lookup-erase dt t' t tables,
        count_in_no_table dt t' (erase dt t tables),
        count_in_no_table dt t' tables,
      )
    ]
  ]
