-- ===== src/Safety.antt =====
-- The safety checks of congress/datalog/compile.py: `reorder_for_safety`, which moves builtins and
-- negated literals behind the literals that bind their variables, and the checks of the heads and
-- modals of rules. Exceptions that the checks collect are data, one constructor for each message.
pub mod Settle
pub mod Order
pub mod Loop
pub mod Place
pub mod Complete
pub mod Stable
pub mod Heads
mod Tests
use congress.Prelude.{
  ℕ, zero, suc, ◌+◌, Bool, true, false, ◌&&◌, ◌||◌, not, Option, none, some, List, [], ◌∷◌, ◌++◌,
  length, is_empty, if◌then◌else◌, contains, Dict, lookup, insert, Result, ok, raise, key_error,
  attribute_error, policy_exception, Run, out_of_fuel, finished, run_then, ite, ltb,
}
use congress.Tablename.{Str, str_discrete}
use congress.Unify.{Term}
use congress.Builtins.{CategoryMap, builtin_of}
use congress.Literals.{
  Literal, Rule, names_of, variable_names, update_all, names_in, is_builtin, is_rule,
}
use congress.Literals.Equality.{literal_discrete}

pub record Reorder (C : Type 0) : Type 0 where
  pub safe_vars : List Str
  pub unsafe_literals : List (Literal C)
  pub unsafe_variables : Dict (Literal C) (List Str)
  pub new_body : List (Literal C)

-- `xs - ys` of sets
pub difference : List Str → List Str → List Str
difference [] ys = []
difference (x ∷ xs) ys =
    let rest = difference xs ys in if contains str_discrete x ys then rest else x ∷ rest

-- `xs <= ys` of sets
pub subset : List Str → List Str → Bool
subset xs ys = is_empty (difference xs ys)

pub take {ℓ} : {A : Type ℓ} → ℕ → List A → List A
take (suc n) (x ∷ xs) = x ∷ take n xs
take _ _ = []

module _ {C : Type 0} (registry : CategoryMap) where
  -- `target_vars`: what a negated literal or a builtin needs; None for any other.
  pub target_vars : Literal C → Result (Option (List Str))
  target_vars lit =
      if lit.negated
      then ok (some (variable_names lit))
      else if is_builtin registry true lit
      then elim (builtin_of lit.table registry) [
        | none ↦ raise attribute_error
        | some built ↦ ok (some (names_of (take built.num_inputs lit.arguments)))
      ]
      else ok none

module _ {C : Type 0} where
  abbrev pub start : Reorder C
  start = record { safe_vars = []; unsafe_literals = []; unsafe_variables = []; new_body = [] }

  pub make_safe : Literal C → Reorder C → Reorder C
  make_safe lit s = record s {
    safe_vars = update_all s.safe_vars (variable_names lit);
    new_body = s.new_body ++ lit ∷ [];
  }

module _ {C : Type 0} (dc : Discrete C) where
  -- The `for` loop in `make_safe_plus`: the first literal that has become safe.
  pub first_safe :
      List (Literal C) → Dict (Literal C) (List Str) → List Str → Result (Option (Literal C))
  first_safe [] unsafe_variables safe_vars = ok none
  first_safe (lit ∷ lits) unsafe_variables safe_vars =
      elim (lookup (literal_discrete dc) lit unsafe_variables) [
        | none ↦ raise key_error
        | some vars ↦
            let rest = first_safe lits unsafe_variables safe_vars in
            if subset vars safe_vars then ok (some lit) else rest
      ]

  -- `unsafe_literals.remove(lit)`
  pub remove_first : Literal C → List (Literal C) → List (Literal C)
  remove_first lit [] = []
  remove_first lit (l ∷ lits) =
      let rest = remove_first lit lits in ite (literal_discrete dc lit l) lits (l ∷ rest)

  -- A literal is put among the unsafe ones, with the variables that are not safe yet.
  abbrev pub defer : Literal C → List Str → Reorder C → Reorder C
  defer lit new_unsafe_vars s = record s {
    unsafe_literals = s.unsafe_literals ++ lit ∷ [];
    unsafe_variables = insert (literal_discrete dc) lit new_unsafe_vars s.unsafe_variables;
  }

  -- `while found_safe`; each round but the last makes an unsafe literal safe.
  pub settle : ℕ → Reorder C → Run (Reorder C)
  settle zero s = out_of_fuel
  settle (suc fuel) s = elim (first_safe s.unsafe_literals s.unsafe_variables s.safe_vars) [
    | raise e ↦ finished (raise e)
    | ok none ↦ finished (ok s)
    | ok (some lit) ↦
        settle fuel
          (make_safe lit (record s { unsafe_literals = remove_first lit s.unsafe_literals }))
  ]

  pub make_safe_plus : Literal C → Reorder C → Run (Reorder C)
  make_safe_plus lit s = settle (length s.unsafe_literals + 1) (make_safe lit s)

module _ {C : Type 0} (dc : Discrete C) (registry : CategoryMap) where
  -- What the loop over the body does with one literal.
  pub place : Literal C → Reorder C → Run (Reorder C)
  place lit s = elim (target_vars registry lit) [
    | raise e ↦ finished (raise e)
    | ok none ↦ make_safe_plus dc lit s
    | ok (some vars) ↦
        let new_unsafe_vars = difference vars s.safe_vars in
        if is_empty new_unsafe_vars
        then make_safe_plus dc lit s
        else finished (ok (defer dc lit new_unsafe_vars s))
  ]

  pub place_all : List (Literal C) → Reorder C → Run (Reorder C)
  place_all [] s = finished (ok s)
  place_all (lit ∷ lits) s = run_then (place lit s) (place_all lits)

  -- `reorder_for_safety`, with the rule that has the new body.
  pub reorder_for_safety : Rule C → Run (Rule C)
  reorder_for_safety rule =
      if is_rule rule
      then run_then (place_all rule.body start) (λ s.
        if is_empty s.unsafe_literals
        then finished (ok (record rule { body = s.new_body }))
        else finished (raise policy_exception))
      else finished (ok rule)
