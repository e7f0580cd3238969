-- ===== src/TopDown/Branches.antt =====
-- The branches of `_top_down_eval` for negated literals and for builtins.
use congress.Prelude.{
  ℕ, suc, ◌+◌, ◌-◌, ◌<◌, ◌≡◌, inl, inr, refl, sym, subst, Bool, true, false, Option, none, some,
  List, [], ◌∷◌, length, map, arith, Option-cases, Bool-cases, ltb, is_empty, Run, Result, finished,
  ok, raise, run_then,
}
use mathlib.Core.List.{append-nil}
use congress.Tablename.{str_discrete}
use congress.Unify.{object}
use congress.Unify.Extend.{IsValid}
use congress.Unify.Correct.{bi_unify_lists_lem}
use congress.Builtins.{BuiltinPred, CategoryMap, builtin_of}
use congress.Literals.{all_objects, complement, is_builtin}
use congress.Contexts.{
  Theory, Frame, Caller, Progress, Evaluate, inputs, skip, plug_under, top_down_finish,
}
use congress.TopDown.{evaluate_negation, use_output, evaluate_builtin}
use congress.TopDown.Goals.{
  Valuation, Holds, After, cost_after, Model, Evaluated, raised, returned, Evaluated-weaken,
  Evaluated-nothing, Evaluated-after,
}
use congress.TopDown.Steps.{plug_under_some, if_unified_lem, Goal, PlainGoal, IsCorrect, finish_lem}

module _ {C : Type 0} (dc : Discrete C) {theory_of : ℕ → Theory C} {registry : CategoryMap}
    (model : Model theory_of registry) (bound : ℕ) (again : Evaluate C)
    (correct : IsCorrect dc model bound again) (frame : Frame C) (previous : List (Frame C))
    (caller : Caller C) where
  -- A literal that no rules prove leaves the rest of the context to prove.
  pub finish_frame :
      (th : ℕ) (s : Progress C)
      → ((σ : Valuation C) → Holds registry model.reading σ th frame.unifier frame.literal)
      → cost_after model.weight (frame ∷ previous) < bound
      → IsValid str_discrete dc s.store
      → Evaluated dc
          (PlainGoal dc model frame previous)
          (Goal dc model th frame previous)
          caller
          s
          (top_down_finish dc again (frame ∷ previous) caller s)
  finish_frame th s holds fits valid =
      Evaluated-weaken dc _ (λ σ. After registry model.reading σ (frame ∷ previous)) caller _ _ s _
        (λ plain. plain.1) (λ σ sat after. (holds σ, after))
        (finish_lem dc model bound again (frame ∷ previous) caller s correct valid fits)

  -- The search for the complement gives back the store, and its answers are dropped.
  pub evaluate_negation_lem :
      (th : ℕ) (s : Progress C)
      → frame.literal.negated ≡ true
      → model.weight th frame.literal + cost_after model.weight (frame ∷ previous) < bound
      → IsValid str_discrete dc s.store
      → Evaluated dc
          (PlainGoal dc model frame previous)
          (Goal dc model th frame previous)
          caller
          s
          (evaluate_negation dc theory_of again th frame previous caller s)
  unfolding evaluate_negation
  evaluate_negation_lem th s negated fits valid =
      elim (Option-cases (plug_under dc s.store frame.unifier frame.literal.arguments)) [
        | inl e ↦
            elim (plug_under_some dc s.store frame.unifier frame.literal.arguments valid e) [ ]
        | inr (args, e) ↦ elim (Bool-cases (all_objects args)) [
          | inr ground ↦ rw (e, evaluate_negation) (rw ground (raised _ refl (λ plain. cc)))
          | inl ground ↦
              rw (e, evaluate_negation)
                (rw ground (
                  then_finish _ (
                    correct th
                      (record {
                        literal = complement frame.literal;
                        later = [];
                        unifier = frame.unifier;
                        theory = th;
                      })
                      [] (record caller { find_all = false }) (record s { results = [] }) valid
                      (let less = model.of_negation th frame.literal negated in
                        omega (arith, fits, less)))))
        ]
      ]
    where
      then_finish :
          (run : Run (Bool × Progress C))
          → Evaluated dc
              (PlainGoal dc model
                (record {
                  literal = complement frame.literal;
                  later = [];
                  unifier = frame.unifier;
                  theory = th;
                })
                [])
              (Goal dc model th
                (record {
                  literal = complement frame.literal;
                  later = [];
                  unifier = frame.unifier;
                  theory = th;
                })
                [])
              (record caller { find_all = false })
              (record s { results = [] })
              run
          → Evaluated dc
              (PlainGoal dc model frame previous)
              (Goal dc model th frame previous)
              caller
              s
              (run_then run (λ (success, s'). elim (is_empty s'.results) [
                | true ↦
                    top_down_finish dc again
                      (frame ∷ previous)
                      caller
                      (record s' { results = s.results })
                | false ↦ finished (ok (false, record s' { results = s.results }))
              ]))
      then_finish run (raised err p n) = rw p (raised err refl (λ plain. cc))
      then_finish run (returned success s' more p same res all one) =
          rw (p, run_then)
            (elim (Bool-cases (is_empty s'.results)) [
              | inl e ↦
                  rw (e, run_then)
                    (Evaluated-after dc _ _ caller s (record s' { results = s.results }) [] _ same
                      (sym (append-nil s.results)) tt (λ single. refl)
                      (finish_frame th (record s' { results = s.results }) (λ σ by_rules. cc)
                        (omega (arith, fits)) (subst (IsValid str_discrete dc) (sym same) valid)))
              | inr e ↦
                  rw (e, run_then)
                    (Evaluated-nothing dc _ _ caller s (record s' { results = s.results }) same
                      refl)
            ])

  module _ (code : BuiltinPred → List C → Option (List C × Bool)) where
    use_output_lem :
        (th : ℕ) (built : BuiltinPred) (outputs : List C) (truth : Bool) (s : Progress C)
        → is_builtin registry true frame.literal ≡ true
        → cost_after model.weight (frame ∷ previous) < bound
        → IsValid str_discrete dc s.store
        → Evaluated dc
            (PlainGoal dc model frame previous)
            (Goal dc model th frame previous)
            caller
            s
            (use_output dc theory_of registry code again built outputs truth frame previous caller
              s)
    unfolding use_output
    use_output_lem th built outputs truth s is fits valid =
        elim (Bool-cases (ltb 0 (length built.predargs - built.num_inputs))) [
          | inl e ↦
              rw (e, use_output)
                (if_unified_lem dc _ (PlainGoal dc model frame previous) _
                  (Goal dc model th frame previous) caller s (suc s.fresh) s.fresh frame.unifier
                  (map object outputs) (skip built.num_inputs frame.literal.arguments) _ _
                  (bi_unify_lists_lem str_discrete dc (map object outputs)
                    (skip built.num_inputs frame.literal.arguments) s.fresh frame.unifier s.store
                    valid)
                  (λ st valid'. finish_frame th _ (λ σ by_rules. cc) fits valid') (λ plain. plain)
                  (λ σ eqs g. g))
          | inr e ↦ elim (Bool-cases truth) [
            | inl t ↦ rw (e, use_output) (rw t (finish_frame th s (λ σ by_rules. cc) fits valid))
            | inr f ↦ rw (e, use_output) (rw f (Evaluated-nothing dc _ _ caller s s refl refl))
          ]
        ]

    pub evaluate_builtin_lem :
        (th : ℕ) (s : Progress C)
        → is_builtin registry true frame.literal ≡ true
        → cost_after model.weight (frame ∷ previous) < bound
        → IsValid str_discrete dc s.store
        → Evaluated dc
            (PlainGoal dc model frame previous)
            (Goal dc model th frame previous)
            caller
            s
            (evaluate_builtin dc theory_of registry code again frame previous caller s)
    unfolding evaluate_builtin
    evaluate_builtin_lem th s is fits valid =
        elim (Option-cases (builtin_of frame.literal.table registry)) [
          | inl e ↦ rw (e, evaluate_builtin) (raised _ refl (λ plain. cc))
          | inr (built, e) ↦
              elim (Option-cases (plug_under dc s.store frame.unifier frame.literal.arguments)) [
                | inl e' ↦
                    elim (plug_under_some dc s.store frame.unifier frame.literal.arguments valid
                      e') [ ]
                | inr (args, e') ↦
                    rw (e, evaluate_builtin)
                      (rw e' (on_inputs built (inputs built.num_inputs args)))
              ]
        ]
      where
        on_inputs :
            (built : BuiltinPred) (values : Result (List C))
            → Evaluated dc
                (PlainGoal dc model frame previous)
                (Goal dc model th frame previous)
                caller
                s
                (elim values [
                  | raise e ↦ finished (raise e)
                  | ok cs ↦ elim (code built cs) [
                    | none ↦ finished (ok (false, s))
                    | some (outputs, truth) ↦
                        use_output dc theory_of registry code again built outputs truth frame
                          previous caller s
                  ]
                ])
        on_inputs built (raise err) = raised err refl (λ plain. cc)
        on_inputs built (ok cs) = elim (Option-cases (code built cs)) [
          | inl e ↦ rw e (Evaluated-nothing dc _ _ caller s s refl refl)
          | inr ((outputs, truth), e) ↦ rw e (use_output_lem th built outputs truth s is fits valid)
        ]
