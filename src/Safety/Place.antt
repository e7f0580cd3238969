-- ===== src/Safety/Place.antt =====
-- One literal of the body, and all of them.
use congress.Prelude.{
  ◌+◌, ◌≡◌, ◌⊎◌, inl, inr, refl, sym, ◌∙◌, subst, true, false, List, [], ◌∷◌, ◌++◌, arith, ite,
  contains, contains-append, Bool-cases, lookup-insert, occurrences, occurrences-append, ok,
  finished, if_pos, if_neg,
}
use congress.Builtins.{CategoryMap}
use congress.Literals.{Literal}
use congress.Literals.Equality.{literal_discrete}
use congress.Safety.{Reorder, defer, difference, subset, place, place_all}
use congress.Safety.Settle.{contains-difference}
use congress.Safety.Loop.{occurrences_one, Settled, make_safe_plus_lem}
use congress.Safety.Order.{needs, target_vars-cases, IsRecorded, Inv, IsStuck, held}

module _ {C : Type 0} (dc : Discrete C) (registry : CategoryMap) where
  was_unsafe :
      (l lit : Literal C) (lits : List (Literal C))
      → contains (literal_discrete dc) l (lits ++ lit ∷ []) ≡ true
      → (l ≡ lit) ⊎ (contains (literal_discrete dc) l lits ≡ true)
  unfolding contains
  was_unsafe l lit lits c = elim (literal_discrete dc l lit) [
    | yes p ↦ inl p
    | no n ↦ inr (ground (arith, c, n, contains-append (literal_discrete dc) l lits (lit ∷ [])))
  ]

  defer_new-IsRecorded :
      (lit : Literal C) (s : Reorder C)
      → IsRecorded dc registry (defer dc lit (difference (needs registry lit) s.safe_vars) s) lit
  defer_new-IsRecorded lit s = (
    difference (needs registry lit) s.safe_vars,
    lookup-insert (literal_discrete dc) lit lit (difference (needs registry lit) s.safe_vars)
          s.unsafe_variables
        ∙ if_pos (literal_discrete dc lit lit) refl _ _,
    λ v k. ground (arith, k, contains-difference v (needs registry lit) s.safe_vars),
    λ v k. ground (arith, k, contains-difference v (needs registry lit) s.safe_vars),
  )

  defer-IsRecorded :
      (l lit : Literal C) (s : Reorder C)
      → ((l ≡ lit) ⊎ IsRecorded dc registry s l)
      → IsRecorded dc registry (defer dc lit (difference (needs registry lit) s.safe_vars) s) l
  defer-IsRecorded l lit s (inl p) =
      subst
        (λ k.
          IsRecorded dc registry (defer dc lit (difference (needs registry lit) s.safe_vars) s) k)
        (sym p) (defer_new-IsRecorded lit s)
  defer-IsRecorded l lit s (inr (vars, e, only, all)) = elim (literal_discrete dc l lit) [
    | yes p ↦
        subst
          (λ k.
            IsRecorded dc registry (defer dc lit (difference (needs registry lit) s.safe_vars) s) k)
          (sym p) (defer_new-IsRecorded lit s)
    | no n ↦ (
      vars,
      lookup-insert (literal_discrete dc) l lit (difference (needs registry lit) s.safe_vars)
            s.unsafe_variables
          ∙ if_neg (literal_discrete dc l lit) n _ _
          ∙ e,
      only,
      all,
    )
  ]

  -- A literal that does not have all it needs is put among the unsafe ones.
  defer_lem :
      (lit : Literal C) (s : Reorder C)
      → Inv dc registry s
      → IsStuck dc registry s
      → subset (needs registry lit) s.safe_vars ≡ false
      → Settled dc registry
          (λ l. held dc registry l s + ite (literal_discrete dc l lit) 1 0)
          (finished (ok (defer dc lit (difference (needs registry lit) s.safe_vars) s)))
  defer_lem lit s inv stuck unsafe = (
    defer dc lit (difference (needs registry lit) s.safe_vars) s,
    refl,
    record {
      ordered = inv.ordered;
      bound = inv.bound;
      recorded = λ l c. defer-IsRecorded l lit s (elim (was_unsafe l lit s.unsafe_literals c) [
        | inl p ↦ inl p
        | inr old ↦ inr (inv.recorded l old)
      ]);
    },
    λ l c. elim (was_unsafe l lit s.unsafe_literals c) [
      | inl p ↦ rw p unsafe
      | inr old ↦ stuck l old
    ],
    λ l. ground (
      arith,
      occurrences-append (literal_discrete dc) l s.unsafe_literals (lit ∷ []),
      occurrences_one dc l lit,
    ),
  )

  place_lem :
      (lit : Literal C) (s : Reorder C)
      → Inv dc registry s
      → IsStuck dc registry s
      → Settled dc registry
          (λ l. held dc registry l s + ite (literal_discrete dc l lit) 1 0)
          (place dc registry lit s)
  unfolding place subset difference
  place_lem lit s inv stuck = elim (target_vars-cases registry lit) [
    | inl (e, nothing) ↦ rw (e, place) (make_safe_plus_lem dc registry lit s inv (rw nothing refl))
    | inr e ↦ elim (Bool-cases (subset (needs registry lit) s.safe_vars)) [
      | inl h ↦ rw (e, place) (rw h (make_safe_plus_lem dc registry lit s inv h))
      | inr h ↦ rw (e, place) (rw h (defer_lem lit s inv stuck h))
    ]
  ]

  pub place_all_lem :
      (lits : List (Literal C)) (s : Reorder C)
      → Inv dc registry s
      → IsStuck dc registry s
      → Settled dc registry
          (λ l. held dc registry l s + occurrences (literal_discrete dc) l lits)
          (place_all dc registry lits s)
  unfolding place_all occurrences
  place_all_lem [] s inv stuck = (s, refl, inv, stuck, λ l. omega arith)
  place_all_lem (lit ∷ lits) s inv stuck =
      let (s₁, ran₁, inv₁, stuck₁, same₁) = place_lem lit s inv stuck in
      let (s₂, ran₂, inv₂, stuck₂, same₂) = place_all_lem lits s₁ inv₁ stuck₁ in
      (s₂, rw (ran₁, place_all) ran₂, inv₂, stuck₂, λ l. omega (arith, same₁ l, same₂ l))
