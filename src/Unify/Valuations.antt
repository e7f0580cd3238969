-- ===== src/Unify/Valuations.antt =====
-- A valid store of unify.py has a valuation: what the chains of its bindings end in.
use congress.Prelude.{
  ℕ, zero, suc, ◌+◌, ◌≡◌, ◌≢◌, inl, inr, refl, sym, ap, subst, ◌∙◌, Option, none, some, length,
  arith, Option-cases, lookup,
}
use congress.Unify.{Term, variable, object, Value, Store, key_discrete, find_end}
use congress.Unify.Ends.{ground_value, Satisfies, find_end-Link, unbound, leaves, stops, goes_on}
use congress.Unify.Extend.{IsValid}

module _ {X C : Type 0} (dx : Discrete X) (dc : Discrete C) where
  find_end-suc :
      (fuel : ℕ) (st : Store X C) (u : ℕ) (t : Term X C) (value : Value X C)
      → find_end dx dc fuel st u t ≡ some value
      → find_end dx dc (suc fuel) st u t ≡ some value
  unfolding find_end
  find_end-suc zero st u t value e = cc
  find_end-suc (suc n) st u t value e = elim (find_end-Link dx dc n st u t) [
    | unbound free end ↦ rw (free, find_end) (sym end ∙ e)
    | leaves x bound end ↦ rw (bound, find_end) (sym end ∙ e)
    | stops c none bound end ↦ rw (bound, find_end) (sym end ∙ e)
    | stops c (some w) bound end ↦ rw (bound, find_end) (sym end ∙ e)
    | goes_on x w bound on ↦
        rw (bound, find_end) (find_end-suc n st w (variable x) value (sym on ∙ e))
  ]

  end_value : C → Option (Value X C) → C
  end_value c none = c
  end_value c (some (variable x, b)) = c
  end_value c (some (object d, b)) = d

  -- A variable that is not bound to a constant gets any.
  pub valuation : C → Store X C → ℕ → X → C
  valuation c st u x = end_value c (find_end dx dc (suc (length st)) st u (variable x))

  valuation_at :
      (c : C) (st : Store X C) (u : ℕ) (x : X) (value : Value X C)
      → IsValid dx dc st
      → lookup (key_discrete dx dc) (u, variable x) st ≡ some value
      → valuation c st u x ≡ ground_value (valuation c st) value
  unfolding valuation end_value find_end
  valuation_at c st u x (object d, none) valid e = rw (e, find_end) refl
  valuation_at c st u x (object d, some w) valid e = rw (e, find_end) refl
  valuation_at c st u x (variable y, none) valid e = elim (valid.0 u (variable x) y e) [ ]
  valuation_at c st u x (variable y, some w) valid e =
      elim (Option-cases (find_end dx dc (length st) st w (variable y))) [
        | inl stuck ↦
            elim (subst (λ n. find_end dx dc n st u (variable x) ≢ none) one_more
              (valid.1 u (variable x)) (next ∙ stuck)) [ ]
        | inr (value, end) ↦
            ap (end_value c)
              (next ∙ end ∙ sym (find_end-suc (length st) st w (variable y) value end))
      ]
    where
      one_more : length st + 1 ≡ suc (length st)
      one_more = omega arith

      next :
          find_end dx dc (suc (length st)) st u (variable x)
          ≡ find_end dx dc (length st) st w (variable y)
      next = rw (e, find_end) refl

  pub valuation-Satisfies :
      (c : C) (st : Store X C) → IsValid dx dc st → Satisfies dx dc (valuation c st) st
  valuation-Satisfies c st valid u (variable x) value e = valuation_at c st u x value valid e
  valuation-Satisfies c st valid u (object d) value e = let free = valid.2 u d in cc
