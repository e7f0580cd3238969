-- ===== src/Prelude/Sets.antt =====
-- A Python `set`, and any collection that tests membership by `==`, as a list of its elements.
use Prim.Native.Nat.{ℕ, ◌+◌}
use mathlib.Core.Path.{◌≡◌, refl, ap, ap₂}
use mathlib.Core.Logic.{ite, if_pos, if_neg, inl, inr}
use mathlib.Core.Bool.{Bool, true, false, ◌||◌}
use mathlib.Core.List.{List, [], ◌∷◌, ◌++◌, head-eq_of_cons-eq, tail-eq_of_cons-eq}
use native.Mathlib.Omega.{arith}
use congress.Prelude.Lists.{length}
use congress.Prelude.Tests.{Bool-cases, ltb}

-- Python compares tuples place by place.
unfoldable pub tuple_discrete : {A : Type 0} → Discrete A → Discrete (List A)
tuple_discrete d [] [] = yes refl
tuple_discrete d [] (y ∷ ys) = no (λ e. cc)
tuple_discrete d (x ∷ xs) [] = no (λ e. cc)
tuple_discrete d (x ∷ xs) (y ∷ ys) = elim (d x y) [
  | no n ↦ no (λ e. n (head-eq_of_cons-eq e))
  | yes p ↦ elim (tuple_discrete d xs ys) [
    | yes q ↦ yes (ap₂ ◌∷◌ p q)
    | no n ↦ no (λ e. n (tail-eq_of_cons-eq e))
  ]
]

module _ {A : Type 0} (dec : Discrete A) where
  -- `x in s`
  unfoldable pub contains : A → List A → Bool
  contains x [] = false
  contains x (y ∷ s) = ite (dec x y) true (contains x s)

  -- `s.add(x)`; a new element stands last, as in `OrderedSet.add`
  unfoldable pub add : A → List A → List A
  unfolding contains
  add x s = elim (contains x s) [ true ↦ s | false ↦ s ++ x ∷ [] ]

  -- `s.discard(x)`
  unfoldable pub discard : A → List A → List A
  discard x [] = []
  discard x (y ∷ s) = let rest = discard x s in ite (dec x y) rest (y ∷ rest)

  -- No element is listed twice.
  abbrev pub IsDistinct : List A → Type 0
  IsDistinct [] = Unit
  IsDistinct (x ∷ s) = (contains x s ≡ false) × IsDistinct s

  pub contains-append :
      (x : A) (s t : List A) → contains x (s ++ t) ≡ (contains x s || contains x t)
  unfolding contains
  contains-append x [] t = refl
  contains-append x (y ∷ s) t = ground (arith, contains-append x s t)

  pub contains-add :
      (x y : A) (s : List A) → contains x (add y s) ≡ ite (dec x y) true (contains x s)
  unfolding add
  contains-add x y s = elim (Bool-cases (contains y s)) [
    | inl old ↦ elim (dec x y) [
      | yes p ↦ rw (old, add) (rw (if_pos _ p) (rw p old))
      | no p ↦ rw (old, add) (rw (if_neg _ p))
    ]
    | inr new ↦ rw (new, add) (ground (arith, contains-append x s (y ∷ [])))
  ]

  pub contains-discard :
      (x y : A) (s : List A) → contains x (discard y s) ≡ ite (dec x y) false (contains x s)
  unfolding contains discard
  contains-discard x y [] = ground arith
  contains-discard x y (z ∷ s) = ground (arith, contains-discard x y s)

  pub discard_absent : (x : A) (s : List A) → contains x s ≡ false → discard x s ≡ s
  unfolding contains discard
  discard_absent x [] h = refl
  discard_absent x (y ∷ s) h = ground (arith, discard_absent x s)

  pub contains_self : (x : A) (s : List A) → contains x (x ∷ s) ≡ true
  unfolding contains
  contains_self x s = ground arith

  pub discard-IsDistinct : (x : A) (s : List A) → IsDistinct s → IsDistinct (discard x s)
  unfolding discard
  discard-IsDistinct x [] d = d
  discard-IsDistinct x (y ∷ s) d =
      ground (arith, discard-IsDistinct x s d.1, contains-discard y x s)

  pub append-IsDistinct :
      (s : List A) (x : A) → IsDistinct s → contains x s ≡ false → IsDistinct (s ++ x ∷ [])
  unfolding contains
  append-IsDistinct [] x d h = ground arith
  append-IsDistinct (y ∷ s) x d h =
      ground (arith, append-IsDistinct s x d.1, contains-append y s (x ∷ []))

  pub add-IsDistinct : (x : A) (s : List A) → IsDistinct s → IsDistinct (add x s)
  unfolding add
  add-IsDistinct x s d = elim (Bool-cases (contains x s)) [
    | inl old ↦ rw (old, add) d
    | inr new ↦ rw (new, add) (append-IsDistinct s x d new)
  ]

  -- In a list without repetition, `discard` drops one place of an element that is there.
  pub length-discard :
      (x : A) (s : List A)
      → IsDistinct s
      → contains x s ≡ true
      → length (discard x s) + 1 ≡ length s
  unfolding contains discard
  length-discard x [] d h = cc
  length-discard x (y ∷ s) d h = ground (arith, length-discard x s d.1, discard_absent x s)

  pub discard-append_self :
      (x : A) (s : List A) → contains x s ≡ false → discard x (s ++ x ∷ []) ≡ s
  unfolding contains discard
  discard-append_self x [] h = ground arith
  discard-append_self x (y ∷ s) h = ground (arith, discard-append_self x s)

-- Pairs are compared place by place.
unfoldable pub pair_discrete : {A B : Type 0} → Discrete A → Discrete B → Discrete (A × B)
pair_discrete {A = A} {B = B} da db (a, b) (c, d) = elim (da a c) [
  | no n ↦ no (λ e. n (ap (λ (p : A × B). p.0) e))
  | yes p ↦ elim (db b d) [
    | yes q ↦ yes (ap₂ (λ x y. (x, y)) p q)
    | no n ↦ no (λ e. n (ap (λ (r : A × B). r.1) e))
  ]
]

module _ {A : Type 0} (dec : Discrete A) where
  -- How often a list has an element.
  unfoldable pub occurrences : A → List A → ℕ
  occurrences x [] = 0
  occurrences x (y ∷ s) = ite (dec x y) 1 0 + occurrences x s

  pub occurrences-append :
      (x : A) (s t : List A) → occurrences x (s ++ t) ≡ occurrences x s + occurrences x t
  unfolding occurrences
  occurrences-append x [] t = omega arith
  occurrences-append x (y ∷ s) t = ground (arith, occurrences-append x s t)

  pub contains-occurrences : (x : A) (s : List A) → contains dec x s ≡ ltb 0 (occurrences x s)
  unfolding occurrences contains
  contains-occurrences x [] = refl
  contains-occurrences x (y ∷ s) = ground (arith, contains-occurrences x s)
