-- ===== src/TopDown/Correct.antt =====
-- Top-down evaluation over a model of the theories: `_top_down_eval` and `top_down_evaluation`.
use congress.Prelude.{
  All, ℕ, zero, suc, ◌<◌, ◌≡◌, inl, inr, refl, Bool, true, false, Option, none, some, List, [], ◌∷◌,
  arith, Option-cases, Run,
}
use congress.Tablename.{Str, str_discrete, same_str}
use congress.Tablename
use congress.Unify.{Term, Store}
use congress.Unify.Extend.{IsValid}
use congress.Builtins.{BuiltinPred, CategoryMap}
use congress.Literals.{Literal, is_builtin}
use congress.Contexts.{Theory, Progress, Evaluate, elsewhere}
use congress.TopDown.{evaluate_includes, evaluate_module, top_down_eval, top_down_evaluation}
use congress.TopDown.Goals.{
  HoldAll, cost, IsPlain, ArePlainRules, Model, Evaluated, caller_of, progress_of, Evaluated-weaken,
  Evaluated-nothing,
}
use congress.TopDown.Steps.{Goal, PlainGoal, IsCorrect, finish_lem}
use congress.TopDown.Includes.{evaluate_includes_lem, evaluate_module_lem}
use congress.TopDown.Branches.{finish_frame, evaluate_negation_lem, evaluate_builtin_lem}

by_test :
    {A : Type 0} (P : A → Type 0) (b : Bool) (x y : A)
    → (b ≡ true → P x)
    → (b ≡ false → P y)
    → P (elim b [ true ↦ x | false ↦ y ])
by_test P true x y p q = p refl
by_test P false x y p q = q refl

module _ {C : Type 0} (dc : Discrete C) {theory_of : ℕ → Theory C} {registry : CategoryMap}
    (model : Model theory_of registry) (code : BuiltinPred → List C → Option (List C × Bool)) where
  -- Each branch evaluates what is smaller, so the fuel suffices.
  eval_lem : (fuel : ℕ) → IsCorrect dc model fuel (top_down_eval dc theory_of registry code fuel)
  unfolding top_down_eval
  eval_lem zero th frame previous caller s valid fits = elim impossible [ ]
    where
      impossible : ⊥
      impossible = omega (arith, fits)
  eval_lem (suc fuel) th frame previous caller s valid fits =
      let again : Evaluate C = top_down_eval dc theory_of registry code fuel in
      let correct : IsCorrect dc model fuel again = eval_lem fuel in
      let End : Run (Bool × Progress C) → Type 0 =
        Evaluated dc (PlainGoal dc model frame previous) (Goal dc model th frame previous) caller
          s in
      by_test End frame.literal.negated _ _
        (λ negated.
          evaluate_negation_lem dc model fuel again correct frame previous caller th s negated
            (omega (arith, fits)) valid)
        (λ positive.
          by_test End
            (same_str (Tablename.name frame.literal.table none) (116 ∷ 114 ∷ 117 ∷ 101 ∷ [])) _ _
            (λ is.
              finish_frame dc model fuel again correct frame previous caller th s (λ σ by_rules. cc)
                (omega (arith, fits)) valid)
            (λ is_not.
              by_test End
                (same_str (Tablename.name frame.literal.table none)
                  (102 ∷ 97 ∷ 108 ∷ 115 ∷ 101 ∷ []))
                _ _ (λ is. Evaluated-nothing dc _ _ caller s s refl refl)
                (λ is_not'.
                  by_test End (is_builtin registry true frame.literal) _ _
                    (λ is.
                      evaluate_builtin_lem dc model fuel again correct frame previous caller code th
                        s is (omega (arith, fits)) valid)
                    (λ is_not''. in_theories again correct))))
    where
      in_theories :
          (again : Evaluate C)
          → IsCorrect dc model fuel again
          → Evaluated dc
              (PlainGoal dc model frame previous)
              (Goal dc model th frame previous)
              caller
              s
              (elim (elsewhere (theory_of th) frame.literal) [
                | some (theories, service) ↦
                    evaluate_module dc theory_of again theories service frame previous caller s
                | none ↦ evaluate_includes dc theory_of (suc fuel) again th frame previous caller s
              ])
      in_theories again correct = elim (Option-cases (elsewhere (theory_of th) frame.literal)) [
        | inl e ↦ rw e (
            evaluate_includes_lem dc model fuel again correct frame previous caller (suc fuel) th s
              (omega (arith, fits)) (omega (arith, fits)) valid)
        | inr ((theories, service), e) ↦ rw e (
            evaluate_module_lem dc model fuel again correct frame previous caller th theories
              service s e (omega (arith, fits)) valid)
      ]

  -- Let the theories have a model, so that no table depends on itself. From a valid store, with
  -- more fuel than the literals cost, the evaluation comes to an end; it raises nothing if neither
  -- the rules nor the literals have negation or builtins. Where it raises nothing, it leaves the
  -- store it started from, with all its bindings undone, and each answer is what the variables
  -- stand for in a store with more bindings, whose valuations all make true in the model every
  -- literal of the query that rules prove. Where one answer is wanted, it finds at most one. A model
  -- takes the negated literals and the builtins in the bodies of rules for true.
  pub top_down_evaluation_lem :
      (fuel th : ℕ) (variables : List (Term Str C)) (literals : List (Literal C)) (find_all : Bool)
      (st : Store Str C) (fresh : ℕ)
      → IsValid str_discrete dc st
      → cost model.weight th literals < fuel
      → Evaluated dc
          (ArePlainRules registry theory_of × All (IsPlain registry) literals)
          (λ σ. HoldAll registry model.reading σ th fresh literals)
          (caller_of variables fresh find_all)
          (progress_of st fresh)
          (top_down_evaluation dc theory_of registry code fuel th variables literals find_all st
            fresh)
  unfolding top_down_evaluation
  top_down_evaluation_lem fuel th variables [] find_all st fresh valid fits =
      finish_lem dc model fuel (top_down_eval dc theory_of registry code fuel) []
        (caller_of variables fresh find_all) (progress_of st fresh) (eval_lem fuel) valid fits
  top_down_evaluation_lem fuel th variables (lit ∷ later) find_all st fresh valid fits =
      Evaluated-weaken dc _ _ (caller_of variables fresh find_all) _ _ (progress_of st fresh) _
        (λ plain. (plain.1.0, (plain.0, (plain.1.1, tt)))) (λ σ sat g. (g.0, g.1.0))
        (eval_lem fuel th (record { literal = lit; later = later; unifier = fresh; theory = th }) []
          (caller_of variables fresh find_all) (progress_of st fresh) valid (omega (arith, fits)))
