-- ===== src/Safety/Stable.antt =====
-- `reorder_for_safety` leaves a rule alone that is in a safe order.
use congress.Prelude.{
  ◌≡◌, inl, inr, refl, sym, ◌∙◌, ap, subst, ◌+◌, true, List, [], ◌∷◌, ◌++◌, length, Bool-cases, ok,
  finished,
}
use mathlib.Core.List.{append-nil, append_assoc}
use congress.Builtins.{CategoryMap}
use congress.Literals.{Literal, Rule, is_rule}
use congress.Safety.{
  Reorder, start, subset, first_safe, settle, make_safe, make_safe_plus, place, place_all,
  reorder_for_safety,
}
use congress.Safety.Order.{needs, IsOrdered, target_vars-cases}

module _ {C : Type 0} (dc : Discrete C) (registry : CategoryMap) where
  make_safe_plus_alone :
      (lit : Literal C) (s : Reorder C)
      → s.unsafe_literals ≡ []
      → make_safe_plus dc lit s ≡ finished (ok (make_safe lit s))
  unfolding make_safe_plus settle first_safe make_safe
  make_safe_plus_alone lit s e =
      subst (λ n. settle dc (n + 1) (make_safe lit s) ≡ finished (ok (make_safe lit s)))
        (sym (ap length e)) (rw e refl)

  place_alone :
      (lit : Literal C) (s : Reorder C)
      → s.unsafe_literals ≡ []
      → subset (needs registry lit) s.safe_vars ≡ true
      → place dc registry lit s ≡ finished (ok (make_safe lit s))
  unfolding place subset
  place_alone lit s e h = elim (target_vars-cases registry lit) [
    | inl (t, nothing) ↦ rw (t, place) (make_safe_plus_alone lit s e)
    | inr t ↦ rw (t, place) (rw h (make_safe_plus_alone lit s e))
  ]

  place_all_alone :
      (lits : List (Literal C)) (s : Reorder C)
      → s.unsafe_literals ≡ []
      → IsOrdered registry s.safe_vars lits
      → (s' : Reorder C) × (place_all dc registry lits s ≡ finished (ok s'))
        × (s'.unsafe_literals ≡ [])
        × (s'.new_body ≡ s.new_body ++ lits)
  unfolding place_all make_safe
  place_all_alone [] s e h = (s, refl, e, sym (append-nil s.new_body))
  place_all_alone (lit ∷ lits) s e (h, hs) =
      let (s', ran, none_left, body) = place_all_alone lits (make_safe lit s) e hs in
      (
        s',
        rw (place_alone lit s e h, place_all) ran,
        none_left,
        body ∙ append_assoc s.new_body (lit ∷ []) lits,
      )

  -- `reorder_for_safety` returns a rule whose body is in a safe order as it is.
  pub reorder_for_safety_stable :
      (rule : Rule C)
      → IsOrdered registry [] rule.body
      → reorder_for_safety dc registry rule ≡ finished (ok rule)
  unfolding reorder_for_safety
  reorder_for_safety_stable rule h =
      let (s, ran, none_left, body) = place_all_alone rule.body start refl h in
      elim (Bool-cases (is_rule rule)) [
        | inr e ↦ rw (e, reorder_for_safety) refl
        | inl e ↦
            rw (e, reorder_for_safety)
              (rw ran (rw none_left (ap (λ b. finished (ok (record rule { body = b }))) body)))
      ]
