-- ===== src/ModalIndex/Pairs.antt =====
-- `__isub__` of ModalIndex (analysis.py) raises nothing and keeps the invariant: the pairs that it
-- cleans up are there, each once.
use congress.Prelude.{
  ℕ, ◌≡◌, ◌≢◌, refl, ◌∙◌, subst, true, false, Option, none, some, List, [], ◌∷◌, ite, arith, inl,
  inr, Option-cases, Bool-cases, Dict, keys, pair_discrete, contains, lookup, insert, erase,
  lookup-insert, lookup-erase, IsDistinct, is_empty, ◌==◌, if◌then◌else◌, keys-insert-IsDistinct,
  keys-erase-IsDistinct, lookup_of_is_empty, ok, bind_ok,
}
use congress.ModalIndex.{ModalIndex, clean_up, clean_up_all}
use congress.ModalIndex.Counts.{IsValid}

module _ {M T : Type 0} (dm : Discrete M) (dt : Discrete T) where
  -- The entry of a table under a modal.
  abbrev pub entry : M → T → ModalIndex M T → Option ℕ
  entry m t s = elim (lookup dm m s.index) [ none ↦ none | some tables ↦ lookup dt t tables ]

  -- No modal and no table twice, and no modal without a table.
  pub record IsShape (s : ModalIndex M T) : Type 0 where
    pub distinct_modals : IsDistinct dm (keys s.index)
    pub some_table :
        (m : M) (tables : Dict T ℕ) → lookup dm m s.index ≡ some tables → is_empty tables ≡ false
    pub distinct_tables :
        (m : M) (tables : Dict T ℕ)
        → lookup dm m s.index ≡ some tables
        → IsDistinct dt (keys tables)

  -- The index after `_clean_up` of a table that leaves these tables under its modal.
  write : M → Dict T ℕ → ModalIndex M T → ModalIndex M T
  write m rest s = record {
    index = if is_empty rest then erase dm m s.index else insert dm m rest s.index;
  }

  abbrev left : T → ℕ → Dict T ℕ → Dict T ℕ
  left t n tables = if n == 0 then erase dt t tables else tables

  clean_up-write :
      (m : M) (t : T) (tables : Dict T ℕ) (n : ℕ) (s : ModalIndex M T)
      → lookup dm m s.index ≡ some tables
      → lookup dt t tables ≡ some n
      → clean_up dm dt m t s ≡ (ok tt, write m (left t n tables) s)
  unfolding clean_up write
  clean_up-write m t tables n s e f = rw (e, f, clean_up) refl

  left-IsDistinct :
      (t : T) (n : ℕ) (tables : Dict T ℕ)
      → IsDistinct dt (keys tables)
      → IsDistinct dt (keys (left t n tables))
  left-IsDistinct t n tables d = elim (Bool-cases (n == 0)) [
    | inl e ↦ rw e (keys-erase-IsDistinct dt t tables d)
    | inr e ↦ rw e d
  ]

  lookup-left :
      (t t' : T) (n : ℕ) (tables : Dict T ℕ)
      → lookup dt t tables ≡ some n
      → lookup dt t' (left t n tables)
        ≡ ite (dt t' t) (if n == 0 then none else some n) (lookup dt t' tables)
  lookup-left t t' n tables f = ground (arith, f, lookup-erase dt t' t tables)

  lookup-write :
      (m m' : M) (rest : Dict T ℕ) (s : ModalIndex M T)
      → lookup dm m' (write m rest s).index
        ≡ ite (dm m' m) (if is_empty rest then none else some rest) (lookup dm m' s.index)
  unfolding write
  lookup-write m m' rest s =
      ground (arith, lookup-insert dm m' m rest s.index, lookup-erase dm m' m s.index)

  write-IsShape :
      (m : M) (rest : Dict T ℕ) (s : ModalIndex M T)
      → IsShape s
      → IsDistinct dt (keys rest)
      → IsShape (write m rest s)
  unfolding write
  write-IsShape m rest s h d = record {
    distinct_modals = elim (Bool-cases (is_empty rest)) [
      | inl e ↦ rw e (keys-erase-IsDistinct dm m s.index h.distinct_modals)
      | inr e ↦ rw e (keys-insert-IsDistinct dm m rest s.index h.distinct_modals)
    ];
    some_table = λ m' tables e. ground (arith, lookup-write m m' rest s, h.some_table m' tables, e);
    distinct_tables = λ m' tables e. elim (dm m' m) [
      | yes p ↦
          let same : rest ≡ tables = ground (arith, lookup-write m m' rest s, e) in
          subst (λ ts. IsDistinct dt (keys ts)) same d
      | no ne ↦ h.distinct_tables m' tables (ground (arith, lookup-write m m' rest s, e))
    ];
  }

  entry-write :
      (m m' : M) (t' : T) (rest : Dict T ℕ) (s : ModalIndex M T)
      → entry m' t' (write m rest s) ≡ ite (dm m' m) (lookup dt t' rest) (entry m' t' s)
  entry-write m m' t' rest s =
      ground (arith, lookup-write m m' rest s, lookup_of_is_empty dt t' rest)

  -- What is to be cleaned up: each pair once, all of them there, and all that count zero.
  pub record IsPending (changes : List (M × T)) (s : ModalIndex M T) : Type 0 where
    pub shape : IsShape s
    pub distinct : IsDistinct (pair_discrete dm dt) changes
    pub present :
        (m : M) (t : T) → contains (pair_discrete dm dt) (m, t) changes ≡ true → entry m t s ≢ none
    pub positive :
        (m : M) (t : T)
        → contains (pair_discrete dm dt) (m, t) changes ≡ false
        → entry m t s ≢ some 0

  -- The tables of a modal that has an entry.
  entry-cases :
      (m : M) (t : T) (s : ModalIndex M T)
      → entry m t s ≢ none
      → (tables : Dict T ℕ) × (n : ℕ) × (lookup dm m s.index ≡ some tables)
        × (lookup dt t tables ≡ some n)
  entry-cases m t s h = elim (Option-cases (lookup dm m s.index)) [
    | inl e ↦ absurd (ground (arith, e))
    | inr (tables, e) ↦ elim (Option-cases (lookup dt t tables)) [
      | inl f ↦ absurd (ground (arith, e, f))
      | inr (n, f) ↦ (tables, n, e, f)
    ]
  ]

  clean_up-IsPending :
      (m : M) (t : T) (changes : List (M × T)) (s : ModalIndex M T)
      → IsPending ((m, t) ∷ changes) s
      → (s' : ModalIndex M T) × (clean_up dm dt m t s ≡ (ok tt, s')) × IsPending changes s'
  unfolding contains
  clean_up-IsPending m t changes s h =
      let (tables, n, e, f) = entry-cases m t s (h.present m t (ground arith)) in
      let at : (m' : M) (t' : T)
          → entry m' t' (write m (left t n tables) s)
            ≡ ite (pair_discrete dm dt (m', t') (m, t)) (if n == 0 then none else some n)
                (entry m' t' s) =
        λ m' t'.
          ground
            (arith, e, f, entry-write m m' t' (left t n tables) s, lookup-left t t' n tables f) in
      (
        write m (left t n tables) s,
        clean_up-write m t tables n s e f,
        record {
          shape =
              write-IsShape m (left t n tables) s h.shape
                (left-IsDistinct t n tables (h.shape.distinct_tables m tables e));
          distinct = h.distinct.1;
          present = λ m' t' c. ground (arith, at m' t', h.present m' t', h.distinct.0, c);
          positive = λ m' t' c. ground (arith, at m' t', h.positive m' t', c);
        },
      )

  pub clean_up_all-IsPending :
      (changes : List (M × T)) (s : ModalIndex M T)
      → IsPending changes s
      → (s' : ModalIndex M T) × (clean_up_all dm dt changes s ≡ (ok tt, s')) × IsPending [] s'
  unfolding clean_up_all
  clean_up_all-IsPending [] s h = (s, refl, h)
  clean_up_all-IsPending ((m, t) ∷ changes) s h =
      let (s₁, run₁, h₁) = clean_up-IsPending m t changes s h in
      let (s₂, run₂, h₂) = clean_up_all-IsPending changes s₁ h₁ in
      (s₂, bind_ok (clean_up dm dt m t) (λ _. clean_up_all dm dt changes) s s₁ tt run₁ ∙ run₂, h₂)

  pub IsPending-IsValid : (s : ModalIndex M T) → IsPending [] s → IsValid dm dt s
  unfolding contains
  IsPending-IsValid s h = record {
    some_table = λ m tables e. ground (arith, h.shape.some_table m tables e);
    positive = λ m tables e t n f. ground (arith, e, f, h.positive m t refl);
    distinct_modals = h.shape.distinct_modals;
    distinct_tables = h.shape.distinct_tables;
  }

  pub IsValid-IsShape : (s : ModalIndex M T) → IsValid dm dt s → IsShape s
  IsValid-IsShape s v = record {
    distinct_modals = v.distinct_modals;
    some_table = λ m tables e. ground (arith, v.some_table m tables e);
    distinct_tables = v.distinct_tables;
  }
