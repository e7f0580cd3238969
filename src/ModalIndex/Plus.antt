-- ===== src/ModalIndex/Plus.antt =====
-- `__iadd__` of ModalIndex (analysis.py) keeps the invariant.
use congress.Prelude.{
  ℕ, ◌+◌, ◌<◌, ◌≡◌, some, [], ◌∷◌, arith, inl, inr, Option-cases, Dict, keys, lookup, insert,
  lookup-eq-none, IsDistinct,
}
use congress.ModalIndex.{ModalIndex, add_tables, add_index, iadd}
use congress.ModalIndex.Counts.{IsValid, AllPositive}
use congress.ModalIndex.Laws.{
  IsTables, IsTables-lookup, insert-IsTables, insert-IsValid, IsValid-IsValidBut,
}

module _ {M T : Type 0} (dm : Discrete M) (dt : Discrete T) where
  add_tables-IsTables :
      (theirs own : Dict T ℕ)
      → AllPositive dt theirs
      → IsDistinct dt (keys theirs)
      → IsTables dm dt own
      → IsTables dm dt (add_tables dm dt theirs own)
  unfolding add_tables lookup
  add_tables-IsTables [] own pos d h = h
  add_tables-IsTables ((t, k) ∷ theirs) own pos d h =
      let here : 0 < k = pos t k (ground arith) in
      let behind : AllPositive dt theirs =
        λ t' n e. pos t' n (ground (arith, e, lookup-eq-none dt t theirs d.0)) in
      elim (Option-cases (lookup dt t own)) [
        | inl e ↦
            rw (e, add_tables)
              (add_tables-IsTables theirs (insert dt t k own) behind d.1
                (insert-IsTables dm dt t k own here h.positive h.distinct))
        | inr (n, e) ↦
            rw (e, add_tables)
              (add_tables-IsTables theirs (insert dt t (n + k) own) behind d.1
                (insert-IsTables dm dt t (n + k) own (omega arith) h.positive h.distinct))
      ]

  add_index-IsValid :
      (theirs own : Dict M (Dict T ℕ))
      → IsDistinct dm (keys theirs)
      → ((m : M) (tables : Dict T ℕ) → lookup dm m theirs ≡ some tables → IsTables dm dt tables)
      → IsValid dm dt (record { index = own })
      → IsValid dm dt (record { index = add_index dm dt theirs own })
  unfolding add_index lookup
  add_index-IsValid [] own d inner v = v
  add_index-IsValid ((m, tables) ∷ theirs) own d inner v =
      let here : IsTables dm dt tables = inner m tables (ground arith) in
      let behind : (m' : M) (ts : Dict T ℕ) → lookup dm m' theirs ≡ some ts → IsTables dm dt ts =
        λ m' ts e. inner m' ts (ground (arith, e, lookup-eq-none dm m theirs d.0)) in
      elim (Option-cases (lookup dm m own)) [
        | inl e ↦
            rw (e, add_index)
              (add_index-IsValid theirs (insert dm m tables own) d.1 behind (
                insert-IsValid dm dt m tables (record { index = own }) here
                  (IsValid-IsValidBut dm dt m (record { index = own }) v)))
        | inr (before, e) ↦
            rw (e, add_index)
              (add_index-IsValid theirs (insert dm m (add_tables dm dt tables before) own) d.1
                behind
                (insert-IsValid dm dt m (add_tables dm dt tables before) (record { index = own })
                  (add_tables-IsTables tables before here.positive here.distinct
                    (IsTables-lookup dm dt (record { index = own }) m before v e))
                  (IsValid-IsValidBut dm dt m (record { index = own }) v)))
      ]

  -- `index += other` of valid indices gives a valid index.
  pub iadd-IsValid :
      (other s : ModalIndex M T)
      → IsValid dm dt other
      → IsValid dm dt s
      → IsValid dm dt (iadd dm dt other s)
  unfolding iadd
  iadd-IsValid other s v w =
      add_index-IsValid other.index s.index v.distinct_modals
        (λ m tables e. IsTables-lookup dm dt other m tables v e) w
