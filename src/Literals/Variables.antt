-- ===== src/Literals/Variables.antt =====
-- Variables of literals and rules.
use congress.Prelude.{
  ℕ, zero, suc, ◌+◌, ◌≤◌, ◌<◌, ◌≡◌, refl, true, false, List, [], ◌∷◌, ◌++◌, arith, Bool-cases, inl,
  inr, is_empty, length, length-append, contains, add, finished, ok,
}
use congress.Tablename.{Str, str_discrete}
use congress.Unify.{Term, variable, object}
use congress.Literals.{
  Literal, Rule, names_of, variable_names, all_objects, is_ground, starts_with, any_starts_with,
  longer_prefix, longest, unused_variable_prefix, rule_variable_names,
}

is_empty-add : (x : Str) (s : List Str) → is_empty (add str_discrete x s) ≡ false
unfolding add contains
is_empty-add x [] = refl
is_empty-add x (y ∷ s) = ground arith

-- A literal is ground exactly where it has no variable names.
pub is_ground_lem : {C : Type 0} (lit : Literal C) → is_ground lit ≡ is_empty (variable_names lit)
unfolding is_ground variable_names names_of all_objects
is_ground_lem {C} lit = of_terms lit.arguments
  where
    of_terms : (terms : List (Term Str C)) → all_objects terms ≡ is_empty (names_of terms)
    of_terms [] = refl
    of_terms (variable x ∷ terms) = ground (arith, is_empty-add x (names_of terms))
    of_terms (object c ∷ terms) = of_terms terms

starts_with-length : (var prefix : Str) → starts_with var prefix ≡ true → length prefix ≤ length var
unfolding starts_with
starts_with-length var [] h = omega arith
starts_with-length [] (c ∷ prefix) h = ground arith
starts_with-length (d ∷ var) (c ∷ prefix) h = ground (arith, h, starts_with-length var prefix)

any_starts_with-length :
    (vars : List Str) (prefix : Str)
    → longest vars < length prefix
    → any_starts_with vars prefix ≡ false
unfolding any_starts_with longest
any_starts_with-length [] prefix h = refl
any_starts_with-length (var ∷ vars) prefix h =
    ground (arith, h, any_starts_with-length vars prefix, starts_with-length var prefix)

longer_prefix_lem :
    (fuel : ℕ) (vars : List Str) (prefix : Str)
    → 0 < fuel
    → longest vars + 1 < fuel + length prefix
    → (found : Str) × (longer_prefix fuel vars prefix ≡ finished (ok found))
      × (any_starts_with vars found ≡ false)
unfolding longer_prefix
longer_prefix_lem zero vars prefix p h = absurd (omega arith)
longer_prefix_lem (suc fuel) vars prefix p h = elim (Bool-cases (any_starts_with vars prefix)) [
  | inl e ↦ rw (e, longer_prefix) (longer_prefix_lem fuel vars (prefix ++ 95 ∷ []) (left e) longer)
  | inr e ↦ (prefix, rw (e, longer_prefix) refl, e)
]
  where
    left : any_starts_with vars prefix ≡ true → 0 < fuel
    left e = ground (arith, e, h, any_starts_with-length vars prefix)

    longer : longest vars + 1 < fuel + length (prefix ++ 95 ∷ [])
    longer = let l = length-append prefix (95 ∷ []) in omega arith

-- `_unused_variable_prefix` ends, with a prefix that no variable starts with that is a positional
-- argument of a head or of a literal in the body. Those of named arguments, which it does not read,
-- may start with it.
pub unused_variable_prefix_lem :
    {C : Type 0} (rule : Rule C)
    → (prefix : Str) × (unused_variable_prefix rule ≡ finished (ok prefix))
      × ((var : Str)
          → contains str_discrete var (rule_variable_names rule) ≡ true
          → starts_with var prefix ≡ false)
unfolding unused_variable_prefix contains any_starts_with
unused_variable_prefix_lem rule =
    let vars = rule_variable_names rule in
    let (prefix, ran, unused) =
      longer_prefix_lem (longest vars + 1) vars (120 ∷ 95 ∷ []) (omega arith) (omega arith) in
    (prefix, ran, λ var e. of_all var vars prefix unused e)
  where
    of_all :
        (var : Str) (vars : List Str) (prefix : Str)
        → any_starts_with vars prefix ≡ false
        → contains str_discrete var vars ≡ true
        → starts_with var prefix ≡ false
    of_all var [] prefix h e = cc
    of_all var (v ∷ vars) prefix h e = ground (arith, h, e, of_all var vars prefix)
