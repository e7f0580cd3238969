-- ===== src/ModalIndex/Laws.antt =====
-- `add` and `remove` of ModalIndex (analysis.py) keep the invariant, and `remove` raises exactly
-- where nothing is counted.
use congress.Prelude.{
  ℕ, zero, suc, ◌+◌, ◌-◌, ◌<◌, ◌≡◌, ◌≢◌, refl, ap, some, [], ◌∷◌, ite, arith, inl, inr,
  Option-cases, Bool-cases, ◌==◌, Dict, keys, lookup, insert, erase, lookup-insert, lookup-erase,
  IsDistinct, is_empty, keys-insert-IsDistinct, lookup_of_is_empty, keys-erase-IsDistinct,
  key_error, ok, raise, subst,
}
use congress.ModalIndex.{ModalIndex, increment, add_table, clean_up, remove}
use congress.ModalIndex.Counts.{AllPositive, count, IsValid, count-clean_up, count-insert}

module _ {M T : Type 0} (dm : Discrete M) (dt : Discrete T) where
  pub empty-IsValid : IsValid dm dt (record { index = [] })
  unfolding lookup
  empty-IsValid = record {
    some_table = λ m tables e. cc;
    positive = λ m tables e. cc;
    distinct_modals = tt;
    distinct_tables = λ m tables e. cc;
  }

  -- A dict of tables as the index holds it.
  pub record IsTables (tables : Dict T ℕ) : Type 0 where
    pub some_table : tables ≢ []
    pub positive : AllPositive dt tables
    pub distinct : IsDistinct dt (keys tables)

  pub IsTables-lookup :
      (s : ModalIndex M T) (m : M) (tables : Dict T ℕ)
      → IsValid dm dt s
      → lookup dm m s.index ≡ some tables
      → IsTables tables
  IsTables-lookup s m tables v e = record {
    some_table = v.some_table m tables e;
    positive = v.positive m tables e;
    distinct = v.distinct_tables m tables e;
  }

  insert-ne-nil : (t : T) (n : ℕ) (tables : Dict T ℕ) → insert dt t n tables ≢ []
  unfolding insert
  insert-ne-nil t n [] = λ e. cc
  insert-ne-nil t n ((j, k) ∷ tables) = ground arith

  pub insert-IsTables :
      (t : T) (n : ℕ) (tables : Dict T ℕ)
      → 0 < n
      → AllPositive dt tables
      → IsDistinct dt (keys tables)
      → IsTables (insert dt t n tables)
  insert-IsTables t n tables pos all d = record {
    some_table = insert-ne-nil t n tables;
    positive = λ t' k e. ground (arith, lookup-insert dt t' t n tables, all t' k);
    distinct = keys-insert-IsDistinct dt t n tables d;
  }

  pub increment-IsTables :
      (t : T) (tables : Dict T ℕ)
      → AllPositive dt tables
      → IsDistinct dt (keys tables)
      → IsTables (increment dm dt t tables)
  unfolding increment
  increment-IsTables t tables all d = elim (Option-cases (lookup dt t tables)) [
    | inl new ↦ rw (new, increment) (insert-IsTables t 1 tables (omega arith) all d)
    | inr (n, old) ↦ rw (old, increment) (insert-IsTables t (n + 1) tables (omega arith) all d)
  ]

  -- The invariant at every modal but one, whose tables are about to be replaced.
  pub record IsValidBut (m : M) (s : ModalIndex M T) : Type 0 where
    pub elsewhere :
        (m' : M) (tables : Dict T ℕ) → m' ≢ m → lookup dm m' s.index ≡ some tables → IsTables tables
    pub distinct_modals : IsDistinct dm (keys s.index)

  pub IsValid-IsValidBut : (m : M) (s : ModalIndex M T) → IsValid dm dt s → IsValidBut m s
  IsValid-IsValidBut m s v = record {
    elsewhere = λ m' tables ne e. IsTables-lookup s m' tables v e;
    distinct_modals = v.distinct_modals;
  }

  pub insert-IsValidBut :
      (m : M) (tables : Dict T ℕ) (s : ModalIndex M T)
      → IsValidBut m s
      → IsValidBut m (record { index = insert dm m tables s.index })
  insert-IsValidBut m tables s v = record {
    elsewhere =
        λ m' ts ne e. v.elsewhere m' ts ne (ground (arith, lookup-insert dm m' m tables s.index));
    distinct_modals = keys-insert-IsDistinct dm m tables s.index v.distinct_modals;
  }

  IsValid-tables :
      (s : ModalIndex M T)
      → IsDistinct dm (keys s.index)
      → ((m : M) (tables : Dict T ℕ) → lookup dm m s.index ≡ some tables → IsTables tables)
      → IsValid dm dt s
  IsValid-tables s d h = record {
    some_table = λ m tables e. (h m tables e).some_table;
    positive = λ m tables e. (h m tables e).positive;
    distinct_modals = d;
    distinct_tables = λ m tables e. (h m tables e).distinct;
  }

  -- To write a well-formed dict at the modal gives a well-formed index.
  pub insert-IsValid :
      (m : M) (tables : Dict T ℕ) (s : ModalIndex M T)
      → IsTables tables
      → IsValidBut m s
      → IsValid dm dt (record { index = insert dm m tables s.index })
  insert-IsValid m tables s h v =
      IsValid-tables (record { index = insert dm m tables s.index })
        (keys-insert-IsDistinct dm m tables s.index v.distinct_modals)
        (λ m' ts e. elim (dm m' m) [
          | yes p ↦ subst IsTables (ground (arith, lookup-insert dm m' m tables s.index)) h
          | no ne ↦ v.elsewhere m' ts ne (ground (arith, lookup-insert dm m' m tables s.index))
        ])

  -- So does to drop the modal.
  pub erase-IsValid :
      (m : M) (s : ModalIndex M T)
      → IsValidBut m s
      → IsValid dm dt (record { index = erase dm m s.index })
  erase-IsValid m s v =
      IsValid-tables (record { index = erase dm m s.index })
        (keys-erase-IsDistinct dm m s.index v.distinct_modals)
        (λ m' ts e. elim (dm m' m) [
          | yes p ↦ absurd (ground (arith, lookup-erase dm m' m s.index))
          | no ne ↦ v.elsewhere m' ts ne (ground (arith, lookup-erase dm m' m s.index))
        ])

  -- `add` keeps the invariant.
  pub add_table-IsValid :
      (m : M) (t : T) (s : ModalIndex M T) → IsValid dm dt s → IsValid dm dt (add_table dm dt m t s)
  unfolding add_table lookup
  add_table-IsValid m t s v = elim (Option-cases (lookup dm m s.index)) [
    | inl new ↦
        rw (new, add_table)
          (insert-IsValid m (increment dm dt t []) s
            (increment-IsTables t [] (λ t' n e. no_table t' n e) tt) (IsValid-IsValidBut m s v))
    | inr (tables, e) ↦
        rw (e, add_table)
          (insert-IsValid m (increment dm dt t tables) s
            (increment-IsTables t tables (v.positive m tables e) (v.distinct_tables m tables e))
            (IsValid-IsValidBut m s v))
  ]
    where
      no_table : (t' : T) (n : ℕ) → lookup dt t' [] ≡ some n → 0 < n
      no_table t' n e = cc

  -- `_clean_up` of a table whose count alone may be zero leaves a well-formed index.
  pub clean_up-IsValid :
      (m : M) (t : T) (tables : Dict T ℕ) (n : ℕ) (s : ModalIndex M T)
      → IsValidBut m s
      → lookup dm m s.index ≡ some tables
      → lookup dt t tables ≡ some n
      → IsDistinct dt (keys tables)
      → ((t' : T) (k : ℕ) → t' ≢ t → lookup dt t' tables ≡ some k → 0 < k)
      → ((clean_up dm dt m t s).0 ≡ ok tt) × IsValid dm dt (clean_up dm dt m t s).1
  unfolding clean_up
  clean_up-IsValid m t tables n s v e f d others = (
    ground arith,
    elim (Bool-cases (n == 0)) [
      | inl none_left ↦ elim (Bool-cases (is_empty (erase dt t tables))) [
        | inl last ↦ rw (e, f, none_left, last, clean_up) (erase-IsValid m s v)
        | inr more ↦
            rw (e, f, none_left, more, clean_up)
              (insert-IsValid m (erase dt t tables) s
                (record {
                  some_table = ground arith;
                  positive = λ t' k g.
                      others t' k (ground (arith, lookup-erase dt t' t tables))
                        (ground (arith, lookup-erase dt t' t tables));
                  distinct = keys-erase-IsDistinct dt t tables d;
                })
                v)
      ]
      | inr pos ↦ elim (Bool-cases (is_empty tables)) [
        | inl empty ↦ absurd (ground (arith, lookup_of_is_empty dt t tables empty))
        | inr more ↦
            rw (e, f, pos, more, clean_up)
              (insert-IsValid m tables s
                (record {
                  some_table = ground arith;
                  positive =
                      λ t' k g. elim (dt t' t) [ yes p ↦ ground arith | no ne ↦ others t' k ne g ];
                  distinct = d;
                })
                v)
      ]
    ],
  )

  -- What `remove` does where the table has `n` references under the modal: with none it raises
  -- KeyError and changes nothing; else it drops one reference of this table, and no other.
  abbrev pub Removes : M → T → ModalIndex M T → ℕ → Type 0
  Removes m t s zero = remove dm dt m t s ≡ (raise key_error, s)
  Removes m t s (suc n) =
      (s' : ModalIndex M T) × (remove dm dt m t s ≡ (ok tt, s'))
      × IsValid dm dt s'
      × ((m' : M) (t' : T)
          → count dm dt m' t' s' ≡ count dm dt m' t' s - ite (dm m' m) (ite (dt t' t) 1 0) 0)

  remove_counted :
      (m : M) (t : T) (tables : Dict T ℕ) (n : ℕ) (s : ModalIndex M T)
      → IsValid dm dt s
      → lookup dm m s.index ≡ some tables
      → lookup dt t tables ≡ some (suc n)
      → Removes m t s (suc n)
  unfolding remove
  remove_counted m t tables n s v e f =
      let fewer : Dict T ℕ = insert dt t (suc n - 1) tables in
      let s₁ : ModalIndex M T = record { index = insert dm m fewer s.index } in
      let (ran, kept) =
        clean_up-IsValid m t fewer (suc n - 1) s₁
          (insert-IsValidBut m fewer s (IsValid-IsValidBut m s v))
          (ground (arith, lookup-insert dm m m fewer s.index))
          (ground (arith, lookup-insert dt t t (suc n - 1) tables))
          (keys-insert-IsDistinct dt t (suc n - 1) tables (v.distinct_tables m tables e))
          (λ t' k ne g.
            v.positive m tables e t' k
              (ground (arith, lookup-insert dt t' t (suc n - 1) tables))) in
      (
        (clean_up dm dt m t s₁).1,
        rw (e, f, remove) (ap (λ r. (r, (clean_up dm dt m t s₁).1)) ran),
        kept,
        λ m' t'. ground (
          arith,
          count-clean_up dm dt m m' t t' s₁,
          count-insert dm dt m m' t' fewer s,
          lookup-insert dt t' t (suc n - 1) tables,
        ),
      )

  remove_at :
      (m : M) (t : T) (s : ModalIndex M T) (n : ℕ)
      → IsValid dm dt s
      → count dm dt m t s ≡ n
      → Removes m t s n
  unfolding remove
  remove_at m t s zero v h = elim (Option-cases (lookup dm m s.index)) [
    | inl missing ↦ rw (missing, remove) refl
    | inr (tables, e) ↦ elim (Option-cases (lookup dt t tables)) [
      | inl missing ↦ rw (e, missing, remove) refl
      | inr (k, f) ↦ let pos = v.positive m tables e t k f in absurd (ground arith)
    ]
  ]
  remove_at m t s (suc n) v h = elim (Option-cases (lookup dm m s.index)) [
    | inl missing ↦ absurd (ground arith)
    | inr (tables, e) ↦ elim (Option-cases (lookup dt t tables)) [
      | inl missing ↦ absurd (ground arith)
      | inr (k, f) ↦ remove_counted m t tables n s v e (ground arith)
    ]
  ]

  -- `remove` raises KeyError and changes nothing where the table has no reference under the
  -- modal; else it drops one reference of this table under this modal, and keeps the invariant.
  pub remove_lem :
      (m : M) (t : T) (s : ModalIndex M T) → IsValid dm dt s → Removes m t s (count dm dt m t s)
  remove_lem m t s v = remove_at m t s (count dm dt m t s) v refl
