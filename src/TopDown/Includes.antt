-- ===== src/TopDown/Includes.antt =====
-- The loop over the theories that a theory includes, and the move to another theory.
use congress.Prelude.{
  ℕ, zero, suc, ◌<◌, ◌≡◌, inl, inr, refl, sym, subst, Bool, some, List, [], ◌∷◌, arith,
  Option-cases, All, Dict, lookup, Run,
}
use congress.Tablename.{Str, str_discrete}
use congress.Unify.Extend.{IsValid}
use congress.Builtins.{CategoryMap}
use congress.Contexts.{Theory, Frame, Caller, Progress, Evaluate, elsewhere, each}
use congress.TopDown.{evaluate_includes, evaluate_module}
use congress.TopDown.Goals.{
  Valuation, values, Model, Evaluated, Evaluated-weaken, Evaluated-nothing,
}
use congress.TopDown.Steps.{unless_stops_lem, Goal, PlainGoal, IsCorrect}
use congress.TopDown.Rules.{Fits, evaluate_rules_lem}

module _ {C : Type 0} (dc : Discrete C) {theory_of : ℕ → Theory C} {registry : CategoryMap}
    (model : Model theory_of registry) (bound : ℕ) (again : Evaluate C)
    (correct : IsCorrect dc model bound again) where
  module _ (frame : Frame C) (previous : List (Frame C)) (caller : Caller C) where
    -- The theories that a theory includes make true what they prove in it too.
    IsIncluded : ℕ → ℕ → Type 0
    IsIncluded th i =
        (model.weight i frame.literal < model.weight th frame.literal)
        × ((args : List C)
            → model.reading i frame.literal.table args
            → model.reading th frame.literal.table args)

    Goal-IsIncluded :
        (th i : ℕ) (σ : Valuation C)
        → IsIncluded th i
        → Goal dc model i frame previous σ
        → Goal dc model th frame previous σ
    unfolding IsIncluded
    Goal-IsIncluded th i σ (less, makes) (holds, after) =
        (λ by_rules. makes (values σ frame.unifier frame.literal.arguments) (holds by_rules), after)

    each_lem :
        (th : ℕ) (visit : ℕ → Progress C → Run (Bool × Progress C)) (ths : List ℕ) (s : Progress C)
        → All (IsIncluded th) ths
        → ((i : ℕ) (s' : Progress C)
            → IsIncluded th i
            → IsValid str_discrete dc s'.store
            → Evaluated dc
                (PlainGoal dc model frame previous)
                (Goal dc model i frame previous)
                caller
                s'
                (visit i s'))
        → IsValid str_discrete dc s.store
        → Evaluated dc
            (PlainGoal dc model frame previous)
            (Goal dc model th frame previous)
            caller
            s
            (each caller visit ths s)
    unfolding each
    each_lem th visit [] s all h valid = Evaluated-nothing dc _ _ caller s s refl refl
    each_lem th visit (i ∷ ths) s (one, all) h valid =
        unless_stops_lem dc _ _ caller s _ _
          (Evaluated-weaken dc _ (Goal dc model i frame previous) caller _ _ s _ (λ plain. plain)
            (λ σ sat g. Goal-IsIncluded th i σ one g) (h i s one valid))
          (λ s' same.
            each_lem th visit ths s' all h (subst (IsValid str_discrete dc) (sym same) valid))

    pub evaluate_includes_lem :
        (fuel : ℕ) (th : ℕ) (s : Progress C)
        → Fits dc model bound again correct th frame previous caller
        → model.weight th frame.literal < fuel
        → IsValid str_discrete dc s.store
        → Evaluated dc
            (PlainGoal dc model frame previous)
            (Goal dc model th frame previous)
            caller
            s
            (evaluate_includes dc theory_of fuel again th frame previous caller s)
    unfolding evaluate_includes IsIncluded
    evaluate_includes_lem zero th s fits less valid = elim impossible [ ]
      where
        impossible : ⊥
        impossible = omega (arith, less)
    evaluate_includes_lem (suc fuel) th s fits less valid =
        unless_stops_lem dc _ _ caller s _ _
          (evaluate_rules_lem dc model bound again correct th frame previous caller s fits valid)
          (λ s' same.
            each_lem th (λ i. evaluate_includes dc theory_of fuel again i frame previous caller)
              (theory_of th).includes s' (model.of_includes th frame.literal)
              (λ i s'' included valid'.
                evaluate_includes_lem fuel i s'' (omega (arith, fits, included.0))
                  (omega (arith, less, included.0)) valid')
              (subst (IsValid str_discrete dc) (sym same) valid))

    pub evaluate_module_lem :
        (th : ℕ) (theories : Dict Str ℕ) (service : Str) (s : Progress C)
        → elsewhere (theory_of th) frame.literal ≡ some (theories, service)
        → Fits dc model bound again correct th frame previous caller
        → IsValid str_discrete dc s.store
        → Evaluated dc
            (PlainGoal dc model frame previous)
            (Goal dc model th frame previous)
            caller
            s
            (evaluate_module dc theory_of again theories service frame previous caller s)
    unfolding evaluate_module IsIncluded
    evaluate_module_lem th theories service s moves fits valid =
        elim (Option-cases (lookup str_discrete service theories)) [
          | inl e ↦ rw (e, evaluate_module) (Evaluated-nothing dc _ _ caller s s refl refl)
          | inr (i, e) ↦
              rw (e, evaluate_module)
                (Evaluated-weaken dc _ (Goal dc model i frame previous) caller _ _ s _
                  (λ plain. plain)
                  (λ σ sat g.
                    Goal-IsIncluded th i σ
                      (model.of_module th i frame.literal theories service moves e) g)
                  (correct i frame previous caller s valid (
                    let less = (model.of_module th i frame.literal theories service moves e).0 in
                    omega (arith, fits, less))))
        ]
