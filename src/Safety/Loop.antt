-- ===== src/Safety/Loop.antt =====
-- The loops of `reorder_for_safety`: they end, keep every literal, and keep the order safe.
use congress.Prelude.{
  ℕ, zero, suc, ◌+◌, ◌<◌, ◌≡◌, ◌⊎◌, inl, inr, refl, sym, ◌∙◌, ap, subst, true, false, none, some,
  List, [], ◌∷◌, arith, ite, length, contains, Bool-cases, occurrences, occurrences-append, ok,
  finished, Run, if_pos,
}
use congress.Builtins.{CategoryMap}
use congress.Literals.{Literal, variable_names, update_all}
use congress.Literals.Equality.{literal_discrete}
use congress.Safety.{Reorder, subset, make_safe, first_safe, remove_first, settle, make_safe_plus}
use congress.Safety.Settle.{contains-update_all}
use congress.Safety.Order.{
  needs, IsOrdered-snoc, names_in-snoc, IsRecorded, IsRecorded-subset, Inv, IsStuck, held,
}

module _ {C : Type 0} (dc : Discrete C) where
  occurrences-remove_first :
      (l lit : Literal C) (lits : List (Literal C))
      → contains (literal_discrete dc) lit lits ≡ true
      → occurrences (literal_discrete dc) l (remove_first dc lit lits)
          + ite (literal_discrete dc l lit) 1 0
        ≡ occurrences (literal_discrete dc) l lits
  unfolding remove_first occurrences contains
  occurrences-remove_first l lit [] h = cc
  occurrences-remove_first l lit (k ∷ lits) h =
      ground (arith, h, occurrences-remove_first l lit lits)

  pub occurrences_one :
      (l lit : Literal C)
      → occurrences (literal_discrete dc) l (lit ∷ []) ≡ ite (literal_discrete dc l lit) 1 0
  unfolding occurrences
  occurrences_one l lit = omega arith

  length-remove_first :
      (lit : Literal C) (lits : List (Literal C))
      → contains (literal_discrete dc) lit lits ≡ true
      → length (remove_first dc lit lits) + 1 ≡ length lits
  unfolding remove_first contains
  length-remove_first lit [] h = cc
  length-remove_first lit (k ∷ lits) h = ground (arith, h, length-remove_first lit lits)

  contains_of-remove_first :
      (l lit : Literal C) (lits : List (Literal C))
      → contains (literal_discrete dc) l (remove_first dc lit lits) ≡ true
      → contains (literal_discrete dc) l lits ≡ true
  unfolding remove_first contains
  contains_of-remove_first l lit [] h = cc
  contains_of-remove_first l lit (k ∷ lits) h =
      ground (arith, h, contains_of-remove_first l lit lits)

module _ {C : Type 0} (dc : Discrete C) (registry : CategoryMap) where
  -- The `for` loop finds the first unsafe literal that has all it needs, or there is none.
  first_safe_lem :
      (s : Reorder C) (lits : List (Literal C))
      → ((l : Literal C)
          → contains (literal_discrete dc) l lits ≡ true
          → IsRecorded dc registry s l)
      → ((first_safe dc lits s.unsafe_variables s.safe_vars ≡ ok none)
          × ((l : Literal C)
              → contains (literal_discrete dc) l lits ≡ true
              → subset (needs registry l) s.safe_vars ≡ false))
        ⊎ ((lit : Literal C) × (first_safe dc lits s.unsafe_variables s.safe_vars ≡ ok (some lit))
            × (contains (literal_discrete dc) lit lits ≡ true)
            × (subset (needs registry lit) s.safe_vars ≡ true))
  unfolding first_safe contains
  first_safe_lem s [] r = inl (refl, λ l h. cc)
  first_safe_lem s (lit ∷ lits) r =
      let here = r lit (if_pos (literal_discrete dc lit lit) refl true _) in
      let same = IsRecorded-subset dc registry s lit here in
      elim (Bool-cases (subset here.0 s.safe_vars)) [
        | inl e ↦ inr (
          lit,
          rw (here.1, first_safe) (rw e refl),
          if_pos (literal_discrete dc lit lit) refl true _,
          sym same ∙ e,
        )
        | inr e ↦ elim (first_safe_lem s lits (λ l h. r l (ground (arith, h)))) [
          | inl (none_safe, all) ↦
              inl
                (rw (here.1, first_safe) (rw e none_safe), λ l h. ground (arith, h, all l, same, e))
          | inr (l, found, c, safe) ↦
              inr (l, rw (here.1, first_safe) (rw e found), ground (arith, c), safe)
        ]
      ]

  -- A literal that has all it needs is placed, and literals are dropped from the unsafe ones.
  make_safe-Inv :
      (lit : Literal C) (s : Reorder C) (unsafe : List (Literal C))
      → Inv dc registry s
      → ((l : Literal C)
          → contains (literal_discrete dc) l unsafe ≡ true
          → contains (literal_discrete dc) l s.unsafe_literals ≡ true)
      → subset (needs registry lit) s.safe_vars ≡ true
      → Inv dc registry (make_safe lit (record s { unsafe_literals = unsafe }))
  unfolding make_safe
  make_safe-Inv lit s unsafe inv sub safe = record {
    ordered =
        IsOrdered-snoc registry [] s.new_body lit inv.ordered
          (subst (λ vs. subset (needs registry lit) vs ≡ true) inv.bound safe);
    bound =
        ap (λ vs. update_all vs (variable_names lit)) inv.bound
        ∙ sym (names_in-snoc registry [] s.new_body lit);
    recorded = λ l c.
        let (vars, e, only, all) = inv.recorded l (sub l c) in
        (
          vars,
          e,
          only,
          λ v k. ground (arith, all v k, contains-update_all v s.safe_vars (variable_names lit)),
        );
  }

  -- What the loop leaves: a state on the way to a safe order, which is stuck, with the literals
  -- that there were.
  abbrev pub Settled : (Literal C → ℕ) → Run (Reorder C) → Type 0
  Settled before run =
      (s' : Reorder C) × (run ≡ finished (ok s'))
      × Inv dc registry s'
      × IsStuck dc registry s'
      × ((l : Literal C) → held dc registry l s' ≡ before l)

  settle_lem :
      (fuel : ℕ) (s : Reorder C)
      → length s.unsafe_literals < fuel
      → Inv dc registry s
      → Settled (λ l. held dc registry l s) (settle dc fuel s)
  unfolding settle make_safe
  settle_lem zero s h inv = absurd (omega arith)
  settle_lem (suc fuel) s h inv = elim (first_safe_lem s s.unsafe_literals inv.recorded) [
    | inl (e, stuck) ↦ (s, rw (e, settle) refl, inv, stuck, λ l. refl)
    | inr (lit, e, c, safe) ↦
        let s₁ : Reorder C = record s { unsafe_literals = remove_first dc lit s.unsafe_literals } in
        let (s', ran, inv', stuck, same) =
          settle_lem fuel (make_safe lit s₁)
            (let len = length-remove_first dc lit s.unsafe_literals c in omega arith)
            (make_safe-Inv lit s (remove_first dc lit s.unsafe_literals) inv
              (λ l. contains_of-remove_first dc l lit s.unsafe_literals) safe) in
        (
          s',
          rw (e, settle) ran,
          inv',
          stuck,
          λ l. ground (
            arith,
            same l,
            occurrences-append (literal_discrete dc) l s.new_body (lit ∷ []),
            occurrences-remove_first dc l lit s.unsafe_literals c,
            occurrences_one dc l lit,
          ),
        )
  ]

  -- A literal that has all it needs is placed, with those that it makes safe.
  pub make_safe_plus_lem :
      (lit : Literal C) (s : Reorder C)
      → Inv dc registry s
      → subset (needs registry lit) s.safe_vars ≡ true
      → Settled
          (λ l. held dc registry l s + ite (literal_discrete dc l lit) 1 0)
          (make_safe_plus dc lit s)
  unfolding make_safe_plus make_safe
  make_safe_plus_lem lit s inv safe =
      let (s', ran, inv', stuck, same) =
        settle_lem (length s.unsafe_literals + 1) (make_safe lit s) (omega arith)
          (make_safe-Inv lit s s.unsafe_literals inv (λ l c. c) safe) in
      (
        s',
        ran,
        inv',
        stuck,
        λ l. ground (
          arith,
          same l,
          occurrences-append (literal_discrete dc) l s.new_body (lit ∷ []),
          occurrences_one dc l lit,
        ),
      )
