-- ===== src/TopDown.antt =====
-- Top-down evaluation, the class TopDownTheory of congress/datalog/topdown.py: the branches of the
-- search, over the state of Contexts.
pub mod Goals
pub mod Steps
pub mod Rules
pub mod Includes
pub mod Branches
pub mod Correct
pub mod Answers
mod Tests
use congress.Prelude.{
  ℕ, zero, suc, Bool, true, false, ◌&&◌, not, Option, none, some, List, [], ◌∷◌, ◌++◌, length, map,
  ◌-◌, ◌==◌, Dict, lookup, insert, is_empty, Result, ok, raise, index_error, attribute_error,
  assertion_error, Run, out_of_fuel, finished, run_then, if◌then◌else◌, ltb,
}
use congress.Tablename.{Str, str_discrete, same_table, same_str, same_option, is_update}
use congress.Tablename
use congress.Unify.{
  Term, variable, object, Key, Store, apply_full, undo_all, bi_unify_lists, term_discrete,
}
use congress.Builtins.{BuiltinPred, CategoryMap, builtin_of}
use congress.Literals.{Literal, all_objects, complement, is_builtin, variable_names, plug}
use congress.Contexts.{
  Theory, Frame, Caller, Answer, Progress, Evaluate, same_schema, inputs, skip, elsewhere, stops,
  unless_stops, each, bi_unify_atoms, apply, plug_under, flatten, undo_after, top_down_finish,
  if_unified,
}

module _ {C : Type 0} (dc : Discrete C) (theory_of : ℕ → Theory C) where
  -- The body of the loop in `_top_down_th`.
  pub try_rule :
      Evaluate C
      → ℕ
      → Frame C
      → List (Frame C)
      → Caller C
      → Literal C
      → List (Literal C)
      → Progress C
      → Run (Bool × Progress C)
  try_rule again th frame previous caller head body s =
      if_unified dc (suc s.fresh)
        (bi_unify_atoms dc head s.fresh frame.literal frame.unifier (theory_of th).name s.store)
        (λ s'. elim body [
          | [] ↦ top_down_finish dc again (frame ∷ previous) caller s'
          | lit ∷ later ↦
              again th (record { literal = lit; later = later; unifier = s.fresh; theory = th })
                (frame ∷ previous) caller s'
        ])
        s

  pub try_rules :
      Evaluate C
      → ℕ
      → Frame C
      → List (Frame C)
      → Caller C
      → List (Literal C × List (Literal C))
      → Progress C
      → Run (Bool × Progress C)
  try_rules again th frame previous caller [] s = finished (ok (false, s))
  try_rules again th frame previous caller ((head, body) ∷ rules) s =
      unless_stops caller (try_rule again th frame previous caller head body s)
        (λ s'. try_rules again th frame previous caller rules s')

  -- `_top_down_th`
  pub evaluate_rules :
      Evaluate C → ℕ → Frame C → List (Frame C) → Caller C → Progress C → Run (Bool × Progress C)
  evaluate_rules again th frame previous caller s =
      let lit = frame.literal in
      elim (plug_under dc s.store frame.unifier lit.arguments) [
        | none ↦ out_of_fuel
        | some args ↦
            try_rules again th frame previous caller
              ((theory_of th).head_index lit.table.table (record lit { arguments = args })) s
      ]

  -- `_top_down_includes`
  pub evaluate_includes :
      ℕ
      → Evaluate C
      → ℕ
      → Frame C
      → List (Frame C)
      → Caller C
      → Progress C
      → Run (Bool × Progress C)
  evaluate_includes zero again th frame previous caller s = out_of_fuel
  evaluate_includes (suc fuel) again th frame previous caller s =
      unless_stops caller (evaluate_rules again th frame previous caller s) (λ s'.
        each caller (λ i. evaluate_includes fuel again i frame previous caller)
          (theory_of th).includes s')

  -- `_top_down_module`
  pub evaluate_module :
      Evaluate C
      → Dict Str ℕ
      → Str
      → Frame C
      → List (Frame C)
      → Caller C
      → Progress C
      → Run (Bool × Progress C)
  evaluate_module again theories service frame previous caller s =
      elim (lookup str_discrete service theories) [
        | none ↦ finished (ok (false, s))
        | some th ↦ again th frame previous caller s
      ]

  -- The branch of `_top_down_eval` for a negated literal.
  pub evaluate_negation :
      Evaluate C → ℕ → Frame C → List (Frame C) → Caller C → Progress C → Run (Bool × Progress C)
  evaluate_negation again th frame previous caller s =
      elim (plug_under dc s.store frame.unifier frame.literal.arguments) [
        | none ↦ out_of_fuel
        | some args ↦ elim (all_objects args) [
          | false ↦ finished (raise assertion_error)
          | true ↦
              run_then
                (again th
                  (record {
                    literal = complement frame.literal;
                    later = [];
                    unifier = frame.unifier;
                    theory = th;
                  })
                  [] (record caller { find_all = false }) (record s { results = [] }))
                (λ (success, s'). elim (is_empty s'.results) [
                  | true ↦
                      top_down_finish dc again (frame ∷ previous) caller
                        (record s' { results = s.results })
                  | false ↦ finished (ok (false, record s' { results = s.results }))
                ])
        ]
      ]

-- The code of the builtins gives the values that a call returns, and whether Python takes the
-- returned value for true; or it raises, which is none here.
module _ {C : Type 0} (dc : Discrete C) (theory_of : ℕ → Theory C) (registry : CategoryMap)
    (code : BuiltinPred → List C → Option (List C × Bool)) where
  -- The end of `_top_down_builtin`, with what the code returned.
  pub use_output :
      Evaluate C
      → BuiltinPred
      → List C
      → Bool
      → Frame C
      → List (Frame C)
      → Caller C
      → Progress C
      → Run (Bool × Progress C)
  use_output again built outputs truth frame previous caller s =
      elim (ltb 0 (length built.predargs - built.num_inputs)) [
        | true ↦
            if_unified dc (suc s.fresh)
              (bi_unify_lists str_discrete dc (map object outputs) s.fresh
                (skip built.num_inputs frame.literal.arguments) frame.unifier s.store)
              (top_down_finish dc again (frame ∷ previous) caller) s
        | false ↦ elim truth [
          | true ↦ top_down_finish dc again (frame ∷ previous) caller s
          | false ↦ finished (ok (false, s))
        ]
      ]

  -- `_top_down_builtin`
  pub evaluate_builtin :
      Evaluate C → Frame C → List (Frame C) → Caller C → Progress C → Run (Bool × Progress C)
  evaluate_builtin again frame previous caller s = elim (builtin_of frame.literal.table registry) [
    | none ↦ finished (raise attribute_error)
    | some built ↦ elim (plug_under dc s.store frame.unifier frame.literal.arguments) [
      | none ↦ out_of_fuel
      | some args ↦ elim (inputs built.num_inputs args) [
        | raise e ↦ finished (raise e)
        | ok values ↦ elim (code built values) [
          | none ↦ finished (ok (false, s))
          | some (outputs, truth) ↦ use_output again built outputs truth frame previous caller s
        ]
      ]
    ]
  ]

  -- `_top_down_eval`
  pub top_down_eval : ℕ → Evaluate C
  top_down_eval zero th frame previous caller s = out_of_fuel
  top_down_eval (suc fuel) th frame previous caller s = elim frame.literal.negated [
    | true ↦ evaluate_negation dc theory_of (top_down_eval fuel) th frame previous caller s
    | false ↦
        elim (same_str (Tablename.name frame.literal.table none) (116 ∷ 114 ∷ 117 ∷ 101 ∷ [])) [
          | true ↦ top_down_finish dc (top_down_eval fuel) (frame ∷ previous) caller s
          | false ↦
              elim (same_str (Tablename.name frame.literal.table none)
                (102 ∷ 97 ∷ 108 ∷ 115 ∷ 101 ∷ [])) [
                  | true ↦ finished (ok (false, s))
                  | false ↦ elim (is_builtin registry true frame.literal) [
                    | true ↦ evaluate_builtin (top_down_eval fuel) frame previous caller s
                    | false ↦ elim (elsewhere (theory_of th) frame.literal) [
                      | some (theories, service) ↦
                          evaluate_module dc theory_of (top_down_eval fuel) theories service frame
                            previous caller s
                      | none ↦
                          evaluate_includes dc theory_of (suc fuel) (top_down_eval fuel) th frame
                            previous caller s
                    ]
                  ]
                ]
        ]
  ]

  -- `top_down_evaluation` without a binding, from the unifiers there are. The order of the
  -- results, which go through a set of objects, is open.
  pub top_down_evaluation :
      ℕ
      → ℕ
      → List (Term Str C)
      → List (Literal C)
      → Bool
      → Store Str C
      → ℕ
      → Run (Bool × Progress C)
  top_down_evaluation fuel th variables literals find_all st fresh =
      let caller : Caller C = record {
        variables = variables;
        binding = fresh;
        find_all = find_all;
      } in
      let s : Progress C = record { store = st; fresh = suc fresh; results = [] } in
      elim literals [
        | [] ↦ top_down_finish dc (top_down_eval fuel) [] caller s
        | lit ∷ later ↦
            top_down_eval fuel th
              (record { literal = lit; later = later; unifier = fresh; theory = th }) [] caller s
      ]

  -- `select`, of an atom
  pub select : ℕ → ℕ → Literal C → Bool → Store Str C → ℕ → Run (List (Literal C) × Progress C)
  select fuel th query find_all st fresh =
      run_then
        (top_down_evaluation fuel th (map variable (variable_names query)) (query ∷ []) find_all st
          fresh)
        (λ (success, s). finished (ok (map (λ answer. plug dc answer query) s.results, s)))
