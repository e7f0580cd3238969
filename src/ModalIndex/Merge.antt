-- ===== src/ModalIndex/Merge.antt =====
-- `__iadd__` of ModalIndex (analysis.py) adds the counts, and `__isub__` subtracts them.
use congress.Prelude.{
  ℕ, ◌+◌, ◌-◌, ◌≡◌, refl, ◌∙◌, some, List, [], ◌∷◌, ite, arith, inl, inr, Option-cases, Dict, keys,
  lookup, insert, lookup-insert, lookup-eq-none, IsDistinct,
}
use congress.ModalIndex.{
  ModalIndex, add_tables, add_index, iadd, subtract_tables, subtract, clean_up, clean_up_all, isub,
}
use congress.ModalIndex.Counts.{IsValid, count, count_in, count-clean_up}

module _ {M T : Type 0} (dm : Discrete M) (dt : Discrete T) where
  count_in-cons :
      (t j : T) (k : ℕ) (rest : Dict T ℕ)
      → count_in dt t ((j, k) ∷ rest) ≡ ite (dt t j) k (count_in dt t rest)
  unfolding lookup
  count_in-cons t j k rest = ground arith

  count_in_nil : (t : T) → count_in dt t [] ≡ 0
  unfolding lookup
  count_in_nil t = refl

  count_in-add_tables :
      (t : T) (theirs own : Dict T ℕ)
      → IsDistinct dt (keys theirs)
      → count_in dt t (add_tables dm dt theirs own) ≡ count_in dt t own + count_in dt t theirs
  unfolding add_tables
  count_in-add_tables t [] own d = ground (arith, count_in_nil t)
  count_in-add_tables t ((j, k) ∷ rest) own d = elim (Option-cases (lookup dt j own)) [
    | inl new ↦ ground (
      arith,
      count_in-add_tables t rest (insert dt j k own) d.1,
      lookup-insert dt t j k own,
      count_in-cons t j k rest,
      lookup-eq-none dt j rest d.0,
    )
    | inr (n, old) ↦ ground (
      arith,
      count_in-add_tables t rest (insert dt j (n + k) own) d.1,
      lookup-insert dt t j (n + k) own,
      count_in-cons t j k rest,
      lookup-eq-none dt j rest d.0,
    )
  ]

  count_in-subtract_tables :
      (t : T) (others own : Dict T ℕ)
      → count_in dt t (subtract_tables dm dt others own).0
        ≡ count_in dt t own - count_in dt t others
  unfolding subtract_tables lookup
  count_in-subtract_tables t others [] = ground arith
  count_in-subtract_tables t others ((j, n) ∷ own) = elim (Option-cases (lookup dt j others)) [
    | inl missing ↦ ground (arith, count_in-subtract_tables t others own)
    | inr (k, e) ↦ ground (arith, count_in-subtract_tables t others own)
  ]

  count-cons :
      (m i : M) (t : T) (tables : Dict T ℕ) (rest : Dict M (Dict T ℕ))
      → count dm dt m t (record { index = (i, tables) ∷ rest })
        ≡ ite (dm m i) (count_in dt t tables) (count dm dt m t (record { index = rest }))
  unfolding lookup
  count-cons m i t tables rest = ground arith

  count-add_index :
      (m : M) (t : T) (theirs own : Dict M (Dict T ℕ))
      → IsDistinct dm (keys theirs)
      → ((i : M) (tables : Dict T ℕ)
          → lookup dm i theirs ≡ some tables
          → IsDistinct dt (keys tables))
      → count dm dt m t (record { index = add_index dm dt theirs own })
        ≡ count dm dt m t (record { index = own }) + count dm dt m t (record { index = theirs })
  unfolding add_index lookup
  count-add_index m t [] own d inner = ground arith
  count-add_index m t ((i, theirs) ∷ rest) own d inner =
      let here : IsDistinct dt (keys theirs) = inner i theirs (ground arith) in
      let behind : (i' : M) (tables : Dict T ℕ)
          → lookup dm i' rest ≡ some tables
          → IsDistinct dt (keys tables) =
        λ i' tables e. inner i' tables (ground (arith, lookup-eq-none dm i rest d.0)) in
      elim (Option-cases (lookup dm i own)) [
        | inl new ↦ ground (
          arith,
          count-add_index m t rest (insert dm i theirs own) d.1 behind,
          lookup-insert dm m i theirs own,
          lookup-eq-none dm i rest d.0,
        )
        | inr (tables, old) ↦ ground (
          arith,
          count-add_index m t rest (insert dm i (add_tables dm dt theirs tables) own) d.1 behind,
          lookup-insert dm m i (add_tables dm dt theirs tables) own,
          count_in-add_tables t theirs tables here,
          lookup-eq-none dm i rest d.0,
        )
      ]

  -- `index += other` adds the counts of a valid index, table by table.
  pub count-iadd :
      (m : M) (t : T) (other s : ModalIndex M T)
      → IsValid dm dt other
      → count dm dt m t (iadd dm dt other s) ≡ count dm dt m t s + count dm dt m t other
  unfolding iadd
  count-iadd m t other s v =
      count-add_index m t other.index s.index v.distinct_modals v.distinct_tables

  count-subtract :
      (m : M) (t : T) (others own : Dict M (Dict T ℕ))
      → count dm dt m t (record { index = (subtract dm dt others own).0 })
        ≡ count dm dt m t (record { index = own }) - count dm dt m t (record { index = others })
  unfolding subtract lookup
  count-subtract m t others [] = ground arith
  count-subtract m t others ((i, own) ∷ rest) = elim (Option-cases (lookup dm i others)) [
    | inl missing ↦ ground (arith, count-subtract m t others rest)
    | inr (theirs, e) ↦
        ground (arith, count-subtract m t others rest, count_in-subtract_tables t theirs own)
  ]

  count-clean_up_all :
      (m : M) (t : T) (changes : List (M × T)) (s : ModalIndex M T)
      → count dm dt m t (clean_up_all dm dt changes s).1 ≡ count dm dt m t s
  unfolding clean_up_all
  count-clean_up_all m t [] s = refl
  count-clean_up_all m t ((m', t') ∷ rest) s = ground (
    arith,
    count-clean_up dm dt m' m t' t s,
    count-clean_up_all m t rest (clean_up dm dt m' t' s).1,
  )

  -- `index -= other` subtracts the counts, and stops at zero.
  pub count-isub :
      (m : M) (t : T) (other s : ModalIndex M T)
      → count dm dt m t (isub dm dt other s).1 ≡ count dm dt m t s - count dm dt m t other
  unfolding isub
  count-isub m t other s =
      let (index, changes) = subtract dm dt other.index s.index in
      count-clean_up_all m t changes (record { index = index })
      ∙ count-subtract m t other.index s.index
