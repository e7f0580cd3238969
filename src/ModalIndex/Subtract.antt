-- ===== src/ModalIndex/Subtract.antt =====
-- What `__isub__` of ModalIndex (analysis.py) subtracts, and which pairs it then cleans up.
use congress.Prelude.{
  ℕ, ◌-◌, ◌≡◌, ◌≢◌, refl, ◌∙◌, ap, subst, sym, true, false, none, some, List, [], ◌∷◌, arith, inl,
  inr, Option-cases, Dict, keys, pair_discrete, contains, contains-append, lookup, IsDistinct,
  is_empty, lookup-eq-none, ok,
}
use congress.ModalIndex.{ModalIndex, subtract_tables, subtract, pairs, isub}
use congress.ModalIndex.Counts.{IsValid}
use congress.ModalIndex.Pairs.{entry, IsShape, IsPending, clean_up_all-IsPending, IsPending-IsValid}
use congress.ModalIndex.Taken.{
  taken, changed, keys-taken, lookup-taken, contains-changed, changed-IsDistinct, contains-pairs,
  pairs-IsDistinct,
}

module _ {M T : Type 0} (dm : Discrete M) (dt : Discrete T) where
  abbrev left_of : Dict M (Dict T ℕ) → Dict M (Dict T ℕ) → Dict M (Dict T ℕ)
  left_of others own = (subtract dm dt others own).0

  abbrev changes_in : Dict M (Dict T ℕ) → Dict M (Dict T ℕ) → List (M × T)
  changes_in others own = (subtract dm dt others own).1

  keys-left_of : (others own : Dict M (Dict T ℕ)) → keys (left_of others own) ≡ keys own
  unfolding subtract
  keys-left_of others [] = refl
  keys-left_of others ((i, tables) ∷ own) = ground (arith, keys-left_of others own)

  lookup-left_of :
      (m : M) (others own : Dict M (Dict T ℕ))
      → lookup dm m (left_of others own) ≡ (elim (lookup dm m own) [
        | none ↦ none
        | some tables ↦ elim (lookup dm m others) [
          | none ↦ some tables
          | some theirs ↦ some (taken dm dt theirs tables)
        ]
      ])
  unfolding subtract lookup
  lookup-left_of m others [] = refl
  lookup-left_of m others ((i, tables) ∷ own) = ground (arith, lookup-left_of m others own)

  contains-changes_in :
      (m : M) (t : T) (others own : Dict M (Dict T ℕ))
      → IsDistinct dm (keys own)
      → contains (pair_discrete dm dt) (m, t) (changes_in others own) ≡ (elim (lookup dm m own) [
        | none ↦ false
        | some tables ↦ elim (lookup dm m others) [
          | none ↦ false
          | some theirs ↦ contains dt t (changed dm dt theirs tables)
        ]
      ])
  unfolding subtract lookup contains
  contains-changes_in m t others [] d = refl
  contains-changes_in m t others ((i, tables) ∷ own) d = elim (Option-cases (lookup dm i others)) [
    | inl e ↦ ground (arith, e, contains-changes_in m t others own d.1, lookup-eq-none dm i own d.0)
    | inr (theirs, e) ↦ ground (
      arith,
      e,
      contains-changes_in m t others own d.1,
      lookup-eq-none dm i own d.0,
      contains-append (pair_discrete dm dt) (m, t) (pairs dm dt i (changed dm dt theirs tables))
          (changes_in others own),
      contains-pairs dm dt m i t (changed dm dt theirs tables),
    )
  ]

  changes_in-IsDistinct :
      (others own : Dict M (Dict T ℕ))
      → IsDistinct dm (keys own)
      → ((m : M) (tables : Dict T ℕ) → lookup dm m own ≡ some tables → IsDistinct dt (keys tables))
      → IsDistinct (pair_discrete dm dt) (changes_in others own)
  unfolding subtract lookup
  changes_in-IsDistinct others [] d inner = tt
  changes_in-IsDistinct others ((i, tables) ∷ own) d inner =
      let behind : (m : M) (ts : Dict T ℕ) → lookup dm m own ≡ some ts → IsDistinct dt (keys ts) =
        λ m ts e. inner m ts (ground (arith, e, lookup-eq-none dm i own d.0)) in
      elim (Option-cases (lookup dm i others)) [
        | inl e ↦ ground (arith, e, changes_in-IsDistinct others own d.1 behind)
        | inr (theirs, e) ↦
            rw (e, subtract, IsDistinct)
              (pairs-IsDistinct dm dt i (changed dm dt theirs tables) (changes_in others own)
                (changed-IsDistinct dm dt theirs tables (inner i tables (ground arith)))
                (changes_in-IsDistinct others own d.1 behind)
                (λ t.
                  ground
                    (arith, contains-changes_in i t others own d.1, lookup-eq-none dm i own d.0)))
      ]

  taken-IsDistinct :
      (others own : Dict T ℕ)
      → IsDistinct dt (keys own)
      → IsDistinct dt (keys (taken dm dt others own))
  taken-IsDistinct others own d = subst (IsDistinct dt) (sym (keys-taken dm dt others own)) d

  is_empty-taken : (others own : Dict T ℕ) → is_empty (taken dm dt others own) ≡ is_empty own
  unfolding subtract_tables
  is_empty-taken others [] = refl
  is_empty-taken others ((t, n) ∷ own) = ground (arith)

  entry-left_of :
      (m : M) (t : T) (others own : Dict M (Dict T ℕ))
      → entry dm dt m t (record { index = left_of others own })
        ≡ (elim (entry dm dt m t (record { index = own })) [
          | none ↦ none
          | some n ↦ elim (entry dm dt m t (record { index = others })) [
            | none ↦ some n
            | some k ↦ some (n - k)
          ]
        ])
  entry-left_of m t others own = elim (Option-cases (lookup dm m own)) [
    | inl e ↦ ground (arith, e, lookup-left_of m others own)
    | inr (tables, e) ↦ elim (Option-cases (lookup dm m others)) [
      | inl f ↦ ground (arith, e, f, lookup-left_of m others own)
      | inr (theirs, f) ↦
          ground (arith, e, f, lookup-left_of m others own, lookup-taken dm dt t theirs tables)
    ]
  ]

  contains-entry :
      (m : M) (t : T) (others own : Dict M (Dict T ℕ))
      → IsDistinct dm (keys own)
      → contains (pair_discrete dm dt) (m, t) (changes_in others own)
        ≡ (elim (entry dm dt m t (record { index = own })) [
          | none ↦ false
          | some n ↦ elim (entry dm dt m t (record { index = others })) [
            | none ↦ false
            | some k ↦ true
          ]
        ])
  contains-entry m t others own d = elim (Option-cases (lookup dm m own)) [
    | inl e ↦ ground (arith, e, contains-changes_in m t others own d)
    | inr (tables, e) ↦ elim (Option-cases (lookup dm m others)) [
      | inl f ↦ ground (arith, e, f, contains-changes_in m t others own d)
      | inr (theirs, f) ↦ ground (
        arith,
        e,
        f,
        contains-changes_in m t others own d,
        contains-changed dm dt t theirs tables,
      )
    ]
  ]

  left_of-tables :
      (m : M) (tables : Dict T ℕ) (others own : Dict M (Dict T ℕ))
      → lookup dm m (left_of others own) ≡ some tables
      → (before : Dict T ℕ) × (lookup dm m own ≡ some before)
        × (keys tables ≡ keys before)
        × (is_empty tables ≡ is_empty before)
  left_of-tables m tables others own h = elim (Option-cases (lookup dm m own)) [
    | inl e ↦ absurd (ground (arith, h, e, lookup-left_of m others own))
    | inr (before, e) ↦ elim (Option-cases (lookup dm m others)) [
      | inl f ↦
          let same : tables ≡ before = ground (arith, h, e, f, lookup-left_of m others own) in
          (before, e, ap keys same, ap is_empty same)
      | inr (theirs, f) ↦
          let same : tables ≡ taken dm dt theirs before =
            ground (arith, h, e, f, lookup-left_of m others own) in
          (
            before,
            e,
            ap keys same ∙ keys-taken dm dt theirs before,
            ap is_empty same ∙ is_empty-taken theirs before,
          )
    ]
  ]

  entry-positive :
      (m : M) (t : T) (s : ModalIndex M T) → IsValid dm dt s → entry dm dt m t s ≢ some 0
  entry-positive m t s v h = elim (Option-cases (lookup dm m s.index)) [
    | inl e ↦ ground (arith, h, e)
    | inr (tables, e) ↦ ground (arith, h, e, v.positive m tables e t 0)
  ]

  left_of-IsShape :
      (other s : ModalIndex M T)
      → IsValid dm dt s
      → IsShape dm dt (record { index = left_of other.index s.index })
  left_of-IsShape other s v = record {
    distinct_modals =
        subst (IsDistinct dm) (sym (keys-left_of other.index s.index)) v.distinct_modals;
    some_table = λ m tables e.
        let (before, f, same, empty) = left_of-tables m tables other.index s.index e in
        ground (arith, empty, v.some_table m before f);
    distinct_tables = λ m tables e.
        let (before, f, same, empty) = left_of-tables m tables other.index s.index e in
        subst (IsDistinct dt) (sym same) (v.distinct_tables m before f);
  }

  subtract-IsPending :
      (other s : ModalIndex M T)
      → IsValid dm dt s
      → IsPending dm dt
          (changes_in other.index s.index)
          (record { index = left_of other.index s.index })
  subtract-IsPending other s v = record {
    shape = left_of-IsShape other s v;
    distinct = changes_in-IsDistinct other.index s.index v.distinct_modals v.distinct_tables;
    present = λ m t c. ground (
      arith,
      c,
      contains-entry m t other.index s.index v.distinct_modals,
      entry-left_of m t other.index s.index,
    );
    positive = λ m t c e. ground (
      arith,
      c,
      e,
      entry-positive m t s v,
      contains-entry m t other.index s.index v.distinct_modals,
      entry-left_of m t other.index s.index,
    );
  }

  -- `index -= other` of a valid index raises nothing and keeps the index valid.
  pub isub-IsValid :
      (other s : ModalIndex M T)
      → IsValid dm dt s
      → (s' : ModalIndex M T) × (isub dm dt other s ≡ (ok tt, s')) × IsValid dm dt s'
  unfolding isub
  isub-IsValid other s v =
      let (s', run, pending) =
        clean_up_all-IsPending dm dt (changes_in other.index s.index)
          (record { index = left_of other.index s.index }) (subtract-IsPending other s v) in
      (s', run, IsPending-IsValid dm dt s' pending)
