-- ===== src/ModalIndex/Taken.antt =====
-- What the inner loop of `__isub__` of ModalIndex (analysis.py) subtracts from one modal, and the
-- pairs that it notes.
use congress.Prelude.{
  ℕ, ◌-◌, ◌≡◌, refl, true, false, none, some, List, [], ◌∷◌, ◌++◌, ite, arith, Dict, keys,
  pair_discrete, contains, contains-append, lookup, IsDistinct, lookup-eq-none,
}
use congress.ModalIndex.{subtract_tables, pairs}

module _ {M T : Type 0} (dm : Discrete M) (dt : Discrete T) where
  abbrev pub taken : Dict T ℕ → Dict T ℕ → Dict T ℕ
  taken others own = (subtract_tables dm dt others own).0

  abbrev pub changed : Dict T ℕ → Dict T ℕ → List T
  changed others own = (subtract_tables dm dt others own).1

  pub keys-taken : (others own : Dict T ℕ) → keys (taken others own) ≡ keys own
  unfolding subtract_tables
  keys-taken others [] = refl
  keys-taken others ((t, n) ∷ own) = ground (arith, keys-taken others own)

  pub lookup-taken :
      (t : T) (others own : Dict T ℕ)
      → lookup dt t (taken others own) ≡ (elim (lookup dt t own) [
        | none ↦ none
        | some n ↦ elim (lookup dt t others) [ none ↦ some n | some k ↦ some (n - k) ]
      ])
  unfolding subtract_tables lookup
  lookup-taken t others [] = refl
  lookup-taken t others ((j, n) ∷ own) = ground (arith, lookup-taken t others own)

  pub contains-changed :
      (t : T) (others own : Dict T ℕ)
      → contains dt t (changed others own) ≡ (elim (lookup dt t own) [
        | none ↦ false
        | some n ↦ elim (lookup dt t others) [ none ↦ false | some k ↦ true ]
      ])
  unfolding subtract_tables lookup contains
  contains-changed t others [] = refl
  contains-changed t others ((j, n) ∷ own) = ground (arith, contains-changed t others own)

  pub changed-IsDistinct :
      (others own : Dict T ℕ) → IsDistinct dt (keys own) → IsDistinct dt (changed others own)
  unfolding subtract_tables
  changed-IsDistinct others [] d = tt
  changed-IsDistinct others ((j, n) ∷ own) d = ground (
    arith,
    changed-IsDistinct others own d.1,
    contains-changed j others own,
    lookup-eq-none dt j own d.0,
  )

  pub contains-pairs :
      (m i : M) (t : T) (ts : List T)
      → contains (pair_discrete dm dt) (m, t) (pairs dm dt i ts)
        ≡ ite (dm m i) (contains dt t ts) false
  unfolding pairs contains
  contains-pairs m i t [] = ground arith
  contains-pairs m i t (u ∷ ts) = ground (arith, contains-pairs m i t ts)

  pub pairs-IsDistinct :
      (i : M) (ts : List T) (rest : List (M × T))
      → IsDistinct dt ts
      → IsDistinct (pair_discrete dm dt) rest
      → ((t : T) → contains (pair_discrete dm dt) (i, t) rest ≡ false)
      → IsDistinct (pair_discrete dm dt) (pairs dm dt i ts ++ rest)
  unfolding pairs
  pairs-IsDistinct i [] rest d e none_there = e
  pairs-IsDistinct i (t ∷ ts) rest d e none_there = ground (
    arith,
    d.0,
    pairs-IsDistinct i ts rest d.1 e none_there,
    none_there t,
    contains-append (pair_discrete dm dt) (i, t) (pairs dm dt i ts) rest,
    contains-pairs i i t ts,
  )
