-- ===== src/Unify.antt =====
-- The unifier of congress/datalog/unify.py. A BiUnifier is an object that other unifiers refer to,
-- so the store holds them all: it maps the identity of a unifier and a term to the Value that the
-- unifier has for the term, which is a term and the unifier for that. Variable names and the
-- Python values of object constants are of any types whose equality is decided.
pub mod Ends
pub mod Extend
pub mod Lists
pub mod Steps
pub mod Correct
pub mod Valuations
mod Tests
use congress.Prelude.{
  ℕ, zero, suc, ◌+◌, Bool, true, false, Option, none, some, List, [], ◌∷◌, ◌++◌, length, ◌==◌,
  contains, Dict, lookup, insert, erase, pair_discrete, ℕ_discrete, Result, ok, raise,
  attribute_error, Run, out_of_fuel, finished, if◌then◌else◌, refl, ap, ite,
}

pub data Term (X C : Type 0) : Type 0 where
  variable : X → Term X C
  object : C → Term X C

module _ {X C : Type 0} where
  abbrev pub is_variable : Term X C → Bool
  is_variable (variable x) = true
  is_variable (object c) = false

  name_or : X → Term X C → X
  name_or x (variable y) = y
  name_or x (object c) = x

  value_or : C → Term X C → C
  value_or c (variable y) = c
  value_or c (object d) = d

-- The identity of a unifier and a term, and what it stands for there.
abbrev pub Key : Type 0 → Type 0 → Type 0
Key X C = ℕ × Term X C

-- `BiUnifier.Value`; the unifier may be None.
abbrev pub Value : Type 0 → Type 0 → Type 0
Value X C = Term X C × Option ℕ

abbrev pub Store : Type 0 → Type 0 → Type 0
Store X C = Dict (Key X C) (Value X C)

module _ {X C : Type 0} (dx : Discrete X) (dc : Discrete C) where
  unfoldable pub term_discrete : Discrete (Term X C)
  unfolding name_or value_or
  term_discrete (variable x) (variable y) = elim (dx x y) [
    | yes p ↦ yes (ap variable p)
    | no n ↦ no (λ e. n (ap (name_or x) e))
  ]
  term_discrete (variable x) (object c) = no (λ e. cc)
  term_discrete (object c) (variable x) = no (λ e. cc)
  term_discrete (object c) (object d) = elim (dc c d) [
    | yes p ↦ yes (ap object p)
    | no n ↦ no (λ e. n (ap (value_or c) e))
  ]

  abbrev pub key_discrete : Discrete (Key X C)
  key_discrete = pair_discrete ℕ_discrete term_discrete

  -- `apply_full` without a caller. The store has no longer chain than it has bindings.
  unfoldable pub find_end : ℕ → Store X C → ℕ → Term X C → Option (Value X C)
  find_end zero st unifier term = none
  find_end (suc fuel) st unifier term = elim (lookup key_discrete (unifier, term) st) [
    | none ↦ some (term, some unifier)
    | some (value, none) ↦ some (value, none)
    | some (value, some other) ↦ elim value [
      | object c ↦ some (object c, some other)
      | variable x ↦ find_end fuel st other (variable x)
    ]
  ]

  unfoldable pub apply_full : Store X C → ℕ → Term X C → Option (Value X C)
  apply_full st unifier term = find_end (length st + 1) st unifier term

  -- `undo_all`
  unfoldable pub undo_all : List (Key X C) → Store X C → Store X C
  undo_all [] st = st
  undo_all (change ∷ changes) st = undo_all changes (erase key_discrete change st)

  -- `bi_var_equal`
  unfoldable pub bi_var_equal : X → Option ℕ → X → Option ℕ → Bool
  bi_var_equal x none y none = ite (dx x y) true false
  bi_var_equal x (some u) y (some w) = ite (dx x y) (u == w) false
  bi_var_equal x _ y _ = false

  -- What the body of the loop in `bi_unify_lists` does with the two values: nothing, a new
  -- binding, or it gives up. A variable whose unifier is None has no `add`.
  pub data Step : Type 0 where
    same fail no_unifier : Step
    bind : Key X C → Value X C → Step

  unfoldable pub step : Value X C → Value X C → Step
  step (variable x, b) (variable y, b') =
      if bi_var_equal x b y b'
      then same
      else elim b [ none ↦ no_unifier | some u ↦ bind (u, variable x) (variable y, b') ]
  step (variable x, b) (object d, b') = elim b [
    | none ↦ no_unifier
    | some u ↦ bind (u, variable x) (object d, b')
  ]
  step (object c, b) (variable y, b') = elim b' [
    | none ↦ no_unifier
    | some w ↦ bind (w, variable y) (object c, b)
  ]
  step (object c, b) (object d, b') = ite (dc c d) same fail

  -- The loop of `bi_unify_lists`, with the changes so far.
  unfoldable pub unify_from :
      ℕ
      → ℕ
      → List (Key X C)
      → List (Term X C)
      → List (Term X C)
      → Store X C
      → Run (Option (List (Key X C)) × Store X C)
  unify_from u w changes [] ys st = finished (ok (some changes, st))
  unify_from u w changes (x ∷ xs) [] st = finished (ok (some changes, st))
  unify_from u w changes (x ∷ xs) (y ∷ ys) st = elim (apply_full st u x) [
    | none ↦ out_of_fuel
    | some v₁ ↦ elim (apply_full st w y) [
      | none ↦ out_of_fuel
      | some v₂ ↦ elim (step v₁ v₂) [
        | same ↦ unify_from u w changes xs ys st
        | fail ↦ finished (ok (none, undo_all changes st))
        | no_unifier ↦ finished (raise attribute_error)
        | bind key value ↦
            unify_from u w (changes ++ key ∷ []) xs ys (insert key_discrete key value st)
      ]
    ]
  ]

  unfoldable pub bi_unify_lists :
      List (Term X C)
      → ℕ
      → List (Term X C)
      → ℕ
      → Store X C
      → Run (Option (List (Key X C)) × Store X C)
  bi_unify_lists iter1 unifier1 iter2 unifier2 st =
      if length iter1 == length iter2
      then unify_from unifier1 unifier2 [] iter1 iter2 st
      else finished (ok (none, st))
