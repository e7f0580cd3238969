-- ===== src/Unify/Ends.antt =====
-- The end of a chain of bindings in a store of unify.py, and what a valuation makes of it.
use congress.Prelude.{
  ℕ, zero, suc, ◌≡◌, ◌≢◌, inl, inr, refl, sym, ap, subst, ◌∙◌, Option, none, some, Option-cases,
  lookup,
}
use mathlib.Core.Option.{some-injective}
use congress.Unify.{Term, variable, object, Value, Store, key_discrete, find_end}

module _ {X C : Type 0} where
  -- What a valuation of the variables of every unifier makes of a term.
  abbrev pub ground_term : (ℕ → X → C) → ℕ → Term X C → C
  ground_term σ unifier (variable x) = σ unifier x
  ground_term σ unifier (object c) = c

  -- Of a value; that of a variable without a unifier is left open, since the store has none.
  abbrev pub ground_value : (ℕ → X → C) → Value X C → C
  ground_value σ (term, none) = ground_term σ 0 term
  ground_value σ (term, some unifier) = ground_term σ unifier term

module _ {X C : Type 0} (dx : Discrete X) (dc : Discrete C) where
  -- The valuation respects every binding of the store.
  abbrev pub Satisfies : (ℕ → X → C) → Store X C → Type 0
  Satisfies σ st =
      (unifier : ℕ) (term : Term X C) (value : Value X C)
      → lookup (key_discrete dx dc) (unifier, term) st ≡ some value
      → ground_term σ unifier term ≡ ground_value σ value

  -- One step along a chain: the term is not bound, or the chain stops at its value, or it goes on
  -- from a variable.
  pub data Link (fuel : ℕ) (st : Store X C) (u : ℕ) (t : Term X C) : Type 0 where
    unbound :
        lookup (key_discrete dx dc) (u, t) st ≡ none
        → find_end dx dc (suc fuel) st u t ≡ some (t, some u)
        → Link fuel st u t
    leaves :
        (x : X)
        → lookup (key_discrete dx dc) (u, t) st ≡ some (variable x, none)
        → find_end dx dc (suc fuel) st u t ≡ some (variable x, none)
        → Link fuel st u t
    stops :
        (c : C) (b : Option ℕ)
        → lookup (key_discrete dx dc) (u, t) st ≡ some (object c, b)
        → find_end dx dc (suc fuel) st u t ≡ some (object c, b)
        → Link fuel st u t
    goes_on :
        (x : X) (w : ℕ)
        → lookup (key_discrete dx dc) (u, t) st ≡ some (variable x, some w)
        → find_end dx dc (suc fuel) st u t ≡ find_end dx dc fuel st w (variable x)
        → Link fuel st u t

  pub find_end-Link : (fuel : ℕ) (st : Store X C) (u : ℕ) (t : Term X C) → Link fuel st u t
  unfolding find_end
  find_end-Link fuel st u t = elim (Option-cases (lookup (key_discrete dx dc) (u, t) st)) [
    | inl e ↦ unbound e (rw (e, find_end) refl)
    | inr ((variable x, none), e) ↦ leaves x e (rw (e, find_end) refl)
    | inr ((object c, none), e) ↦ stops c none e (rw (e, find_end) refl)
    | inr ((object c, some w), e) ↦ stops c (some w) e (rw (e, find_end) refl)
    | inr ((variable x, some w), e) ↦ goes_on x w e (rw (e, find_end) refl)
  ]

  -- A valuation that respects the store gives a term the value of the end of its chain.
  pub ground-find_end :
      (σ : ℕ → X → C) (st : Store X C) (fuel : ℕ) (unifier : ℕ) (term : Term X C)
      (value : Value X C)
      → Satisfies σ st
      → find_end dx dc fuel st unifier term ≡ some value
      → ground_term σ unifier term ≡ ground_value σ value
  unfolding find_end
  ground-find_end σ st zero u t v s e = cc
  ground-find_end σ st (suc fuel) u t v s e = elim (find_end-Link fuel st u t) [
    | unbound free end ↦ ap (ground_value σ) (some-injective (t, some u) v (sym end ∙ e))
    | leaves x bound end ↦
        s u t (variable x, none) bound
        ∙ ap (ground_value σ) (some-injective (variable x, none) v (sym end ∙ e))
    | stops c b bound end ↦
        s u t (object c, b) bound
        ∙ ap (ground_value σ) (some-injective (object c, b) v (sym end ∙ e))
    | goes_on x w bound on ↦
        s u t (variable x, some w) bound ∙ ground-find_end σ st fuel w (variable x) v s (sym on ∙ e)
  ]

  -- No variable is bound to a variable without a unifier.
  abbrev pub IsLinked : Store X C → Type 0
  IsLinked st =
      (u : ℕ) (t : Term X C) (x : X)
      → lookup (key_discrete dx dc) (u, t) st ≢ some (variable x, none)

  -- An end that is a variable has a unifier, which does not bind it.
  abbrev pub IsFree : Store X C → Value X C → Type 0
  IsFree st (object c, b) = Unit
  IsFree st (variable x, none) = ⊥
  IsFree st (variable x, some u) = lookup (key_discrete dx dc) (u, variable x) st ≡ none

  IsFree-of_unbound :
      (st : Store X C) (u : ℕ) (t : Term X C)
      → lookup (key_discrete dx dc) (u, t) st ≡ none
      → IsFree st (t, some u)
  IsFree-of_unbound st u (variable x) free = free
  IsFree-of_unbound st u (object c) free = tt

  pub find_end-IsFree :
      (st : Store X C) (fuel : ℕ) (u : ℕ) (t : Term X C) (value : Value X C)
      → IsLinked st
      → find_end dx dc fuel st u t ≡ some value
      → IsFree st value
  unfolding find_end
  find_end-IsFree st zero u t v linked e = cc
  find_end-IsFree st (suc fuel) u t v linked e = elim (find_end-Link fuel st u t) [
    | unbound free end ↦
        subst (IsFree st) (some-injective (t, some u) v (sym end ∙ e))
          (IsFree-of_unbound st u t free)
    | leaves x bound end ↦ elim (linked u t x bound) [ ]
    | stops c b bound end ↦ subst (IsFree st) (some-injective (object c, b) v (sym end ∙ e)) tt
    | goes_on x w bound on ↦ find_end-IsFree st fuel w (variable x) v linked (sym on ∙ e)
  ]
