-- ===== src/Safety/Order.antt =====
-- Safe orders of literals, and the state of the reordering that is on the way to one.
use congress.Prelude.{
  ℕ, ◌+◌, ◌≡◌, ◌⊎◌, inl, inr, refl, sym, Bool, true, false, ◌||◌, none, some, List, [], ◌∷◌, ◌++◌,
  arith, length, if◌then◌else◌, contains, Bool-cases, lookup, occurrences, ok,
}
use congress.Tablename.{Str, str_discrete}
use congress.Builtins.{BuiltinPred, CategoryMap, builtin_of}
use congress.Builtins.Laws.{builtin_of-is_builtin}
use congress.Literals.{Literal, names_of, variable_names, update_all, names_in, is_builtin}
use congress.Literals.Equality.{literal_discrete}
use congress.Safety.{Reorder, subset, take, target_vars}
use congress.Safety.Settle.{subset_of, of_subset}

module _ {C : Type 0} (registry : CategoryMap) where
  -- The variables that have to be bound before a literal is evaluated.
  unfoldable pub needs : Literal C → List Str
  needs lit =
      if lit.negated
      then variable_names lit
      else if is_builtin registry true lit
      then elim (builtin_of lit.table registry) [
        | none ↦ []
        | some built ↦ names_of (take built.num_inputs lit.arguments)
      ]
      else []

  -- From left to right, what a literal needs is bound by `bound` or by the literals before it.
  abbrev pub IsOrdered : List Str → List (Literal C) → Type 0
  IsOrdered bound [] = Unit
  IsOrdered bound (lit ∷ lits) =
      (subset (needs lit) bound ≡ true) × IsOrdered (update_all bound (variable_names lit)) lits

  pub IsOrdered-snoc :
      (bound : List Str) (lits : List (Literal C)) (lit : Literal C)
      → IsOrdered bound lits
      → subset (needs lit) (names_in bound lits) ≡ true
      → IsOrdered bound (lits ++ lit ∷ [])
  unfolding names_in
  IsOrdered-snoc bound [] lit h k = (k, tt)
  IsOrdered-snoc bound (l ∷ lits) lit (h, hs) k =
      (h, IsOrdered-snoc (update_all bound (variable_names l)) lits lit hs k)

  pub names_in-snoc :
      (bound : List Str) (lits : List (Literal C)) (lit : Literal C)
      → names_in bound (lits ++ lit ∷ []) ≡ update_all (names_in bound lits) (variable_names lit)
  unfolding names_in
  names_in-snoc bound [] lit = refl
  names_in-snoc bound (l ∷ lits) lit = names_in-snoc (update_all bound (variable_names l)) lits lit

  -- `target_vars` does not raise: it is None where nothing is needed, or what is needed.
  pub target_vars-cases :
      (lit : Literal C)
      → ((target_vars registry lit ≡ ok none) × (needs lit ≡ []))
        ⊎ (target_vars registry lit ≡ ok (some (needs lit)))
  unfolding target_vars needs is_builtin
  target_vars-cases lit = elim (Bool-cases lit.negated) [
    | inl e ↦ inr (ground (arith, e))
    | inr e ↦ elim (Bool-cases (is_builtin registry true lit)) [
      | inr f ↦ inl (ground (arith, e, f))
      | inl f ↦ let (built, g) = found f in inr (ground (arith, e, f, g))
    ]
  ]
    where
      found :
          is_builtin registry true lit ≡ true
          → (b : BuiltinPred) × (builtin_of lit.table registry ≡ some b)
      found f = builtin_of-is_builtin lit.table (some (length lit.arguments)) registry f

module _ {C : Type 0} (dc : Discrete C) (registry : CategoryMap) where
  -- What the dict has for an unsafe literal: what it needs and had not been safe.
  abbrev pub IsRecorded : Reorder C → Literal C → Type 0
  IsRecorded s lit =
      (vars : List Str) × (lookup (literal_discrete dc) lit s.unsafe_variables ≡ some vars)
      × ((v : Str)
          → contains str_discrete v vars ≡ true
          → contains str_discrete v (needs registry lit) ≡ true)
      × ((v : Str)
          → contains str_discrete v (needs registry lit) ≡ true
          → (contains str_discrete v vars || contains str_discrete v s.safe_vars) ≡ true)

  -- Then the test of the loop is whether all that it needs is safe.
  pub IsRecorded-subset :
      (s : Reorder C) (lit : Literal C) (r : IsRecorded s lit)
      → subset r.0 s.safe_vars ≡ subset (needs registry lit) s.safe_vars
  IsRecorded-subset s lit (vars, e, only, all) =
      Bool_ext _ _
        (λ h.
          subset_of (needs registry lit) s.safe_vars
            (λ v k. ground (arith, all v k, of_subset vars s.safe_vars v h)))
        (λ h.
          subset_of vars s.safe_vars
            (λ v k. of_subset (needs registry lit) s.safe_vars v h (only v k)))
    where
      Bool_ext : (a b : Bool) → (a ≡ true → b ≡ true) → (b ≡ true → a ≡ true) → a ≡ b
      Bool_ext true b f g = sym (f refl)
      Bool_ext false true f g = g refl
      Bool_ext false false f g = refl

  pub record Inv (s : Reorder C) : Type 0 where
    pub ordered : IsOrdered registry [] s.new_body
    pub bound : s.safe_vars ≡ names_in [] s.new_body
    pub recorded :
        (lit : Literal C)
        → contains (literal_discrete dc) lit s.unsafe_literals ≡ true
        → IsRecorded s lit

  -- No unsafe literal has all that it needs.
  abbrev pub IsStuck : Reorder C → Type 0
  IsStuck s =
      (lit : Literal C)
      → contains (literal_discrete dc) lit s.unsafe_literals ≡ true
      → subset (needs registry lit) s.safe_vars ≡ false

  -- How often a literal is placed or still unsafe.
  abbrev pub held : Literal C → Reorder C → ℕ
  held lit s =
      occurrences (literal_discrete dc) lit s.new_body
      + occurrences (literal_discrete dc) lit s.unsafe_literals
