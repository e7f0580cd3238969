-- ===== src/TopDown/Rules.antt =====
-- The loop over the rules of a theory.
use congress.Prelude.{
  ℕ, suc, ◌+◌, ◌≤◌, ◌<◌, ◌≡◌, inl, inr, refl, sym, subst, Bool, true, Option, List, [], ◌∷◌, arith,
  Option-cases, Bool-cases, All, Run,
}
use congress.Tablename.{Str, str_discrete}
use congress.Unify.{Term, Store}
use congress.Unify.Extend.{IsValid}
use congress.Unify.Lists.{Equates}
use congress.Unify.Correct.{bi_unify_lists_lem}
use congress.Builtins.{CategoryMap}
use congress.Literals.{Literal}
use congress.Contexts.{
  Theory, Frame, Caller, Progress, Evaluate, same_schema, bi_unify_atoms, plug_under,
  top_down_finish, if_unified,
}
use congress.TopDown.{try_rule, try_rules, evaluate_rules}
use congress.TopDown.Goals.{
  Valuation, values, HoldAll, After, cost, cost_after, IsPlain, ArePlainRules, Model, Evaluated,
  Evaluated-weaken, Evaluated-nothing,
}
use congress.TopDown.Steps.{
  plug_under_some, unless_stops_lem, if_unified_lem, Goal, PlainRest, PlainGoal, IsCorrect,
  finish_lem,
}

module _ {C : Type 0} where
  values-Equates :
      (σ : Valuation C) (u w : ℕ) (xs ys : List (Term Str C))
      → Equates σ u w xs ys
      → values σ u xs ≡ values σ w ys
  values-Equates σ u w [] [] h = refl
  values-Equates σ u w [] (y ∷ ys) h = elim h [ ]
  values-Equates σ u w (x ∷ xs) [] h = elim h [ ]
  values-Equates σ u w (x ∷ xs) (y ∷ ys) h =
      let rest = values-Equates σ u w xs ys h.1 in ground (arith, h.0, rest)

module _ {C : Type 0} (dc : Discrete C) where
  -- From a valid store the unification of two atoms comes to one of four ends; the atoms have the
  -- same schema where it gives changes.
  if_unified_atoms :
      (plain plain' : Type 0) (goal goal' : Valuation C → Type 0) (caller : Caller C)
      (s : Progress C) (fresh : ℕ) (head lit : Literal C) (u w : ℕ) (name : Option Str)
      (proceed : Progress C → Run (Bool × Progress C))
      → IsValid str_discrete dc s.store
      → ((st : Store Str C)
          → IsValid str_discrete dc st
          → Evaluated dc plain' goal' caller
              (record s { store = st; fresh = fresh })
              (proceed (record s { store = st; fresh = fresh })))
      → (plain → plain')
      → (same_schema head lit name ≡ true
          → (σ : Valuation C) → values σ u head.arguments ≡ values σ w lit.arguments
          → goal' σ
          → goal σ)
      → Evaluated dc plain goal caller s
          (if_unified dc fresh (bi_unify_atoms dc head u lit w name s.store) proceed s)
  unfolding bi_unify_atoms if_unified
  if_unified_atoms plain plain' goal goal' caller s fresh head lit u w name proceed valid h f g =
      elim (Bool-cases (same_schema head lit name)) [
        | inl e ↦
            rw (e, bi_unify_atoms)
              (if_unified_lem dc plain plain' goal goal' caller s fresh u w head.arguments
                lit.arguments _ proceed
                (bi_unify_lists_lem str_discrete dc head.arguments lit.arguments u w s.store valid)
                h f (λ σ eqs q. g e σ (values-Equates σ u w head.arguments lit.arguments eqs) q))
        | inr e ↦
            rw (e, bi_unify_atoms)
              (Evaluated-nothing dc plain goal caller s (record s { fresh = fresh }) refl refl)
      ]

module _ {C : Type 0} (dc : Discrete C) {theory_of : ℕ → Theory C} {registry : CategoryMap}
    (model : Model theory_of registry) (bound : ℕ) (again : Evaluate C)
    (correct : IsCorrect dc model bound again) where
  -- What `of_rules` asks of one rule.
  abbrev IsRule : ℕ → Literal C → Literal C × List (Literal C) → Type 0
  IsRule th lit rule =
      (cost model.weight th rule.1 ≤ model.weight th lit)
      × (same_schema rule.0 lit (theory_of th).name ≡ true
          → (σ : Valuation C) (u : ℕ) → HoldAll registry model.reading σ th u rule.1
          → model.reading th lit.table (values σ u rule.0.arguments))

  module _ (th : ℕ) (frame : Frame C) (previous : List (Frame C)) (caller : Caller C) where
    abbrev pub Fits : Type 0
    Fits = model.weight th frame.literal + cost_after model.weight (frame ∷ previous) < bound

    abbrev PlainBody : List (Literal C) → Type 0
    PlainBody body = All (IsPlain registry) body × PlainRest dc model (frame ∷ previous)

    -- With the head of a rule unified with the literal, its body is what is left to prove.
    try_rule_lem :
        (head : Literal C) (body : List (Literal C)) (s : Progress C)
        → Fits
        → IsRule th frame.literal (head, body)
        → (ArePlainRules registry theory_of → All (IsPlain registry) body)
        → IsValid str_discrete dc s.store
        → Evaluated dc
            (PlainGoal dc model frame previous)
            (Goal dc model th frame previous)
            caller
            s
            (try_rule dc theory_of again th frame previous caller head body s)
    unfolding try_rule
    try_rule_lem head body s fits (weighs, makes) plain_body valid =
        if_unified_atoms dc (PlainGoal dc model frame previous) (PlainBody body)
          (Goal dc model th frame previous)
          (λ σ.
            HoldAll registry model.reading σ th s.fresh body
            × After registry model.reading σ (frame ∷ previous))
          caller s (suc s.fresh) head frame.literal s.fresh frame.unifier (theory_of th).name _
          valid (on_body body weighs) (λ plain. (plain_body plain.1.0, plain.1))
          (λ schema σ eqs (holds, after). (
            λ by_rules.
                subst (model.reading th frame.literal.table) eqs (makes schema σ s.fresh holds),
            after,
          ))
      where
        on_body :
            (body : List (Literal C))
            → cost model.weight th body ≤ model.weight th frame.literal
            → (st : Store Str C) → IsValid str_discrete dc st
            → Evaluated dc
                (PlainBody body)
                (λ σ.
                  HoldAll registry model.reading σ th s.fresh body
                  × After registry model.reading σ (frame ∷ previous))
                caller
                (record s { store = st; fresh = suc s.fresh })
                (elim body [
                  | [] ↦
                      top_down_finish dc again
                        (frame ∷ previous)
                        caller
                        (record s { store = st; fresh = suc s.fresh })
                  | lit ∷ later ↦
                      again th
                        (record { literal = lit; later = later; unifier = s.fresh; theory = th })
                        (frame ∷ previous)
                        caller
                        (record s { store = st; fresh = suc s.fresh })
                ])
        on_body [] weighs' st valid' =
            Evaluated-weaken dc _ (λ σ. After registry model.reading σ (frame ∷ previous)) caller _
              (PlainRest dc model (frame ∷ previous)) _ _ (λ plain. plain.1)
              (λ σ sat after. (tt, after))
              (finish_lem dc model bound again (frame ∷ previous) caller _ correct valid'
                (ground (arith, fits)))
        on_body (lit ∷ later) weighs' st valid' =
            Evaluated-weaken dc _ _ caller _ _ _ _
              (λ plain. (plain.0.0, (plain.1.0, (plain.0.1, plain.1.1))))
              (λ σ sat g. ((g.0, g.1.0), g.1.1))
              (correct th (record { literal = lit; later = later; unifier = s.fresh; theory = th })
                (frame ∷ previous) caller _ valid' (ground (arith, fits, weighs')))

    try_rules_lem :
        (rules : List (Literal C × List (Literal C))) (s : Progress C)
        → Fits
        → All (IsRule th frame.literal) rules
        → (ArePlainRules registry theory_of → All (λ rule. All (IsPlain registry) rule.1) rules)
        → IsValid str_discrete dc s.store
        → Evaluated dc
            (PlainGoal dc model frame previous)
            (Goal dc model th frame previous)
            caller
            s
            (try_rules dc theory_of again th frame previous caller rules s)
    unfolding try_rules
    try_rules_lem [] s fits all plains valid = Evaluated-nothing dc _ _ caller s s refl refl
    try_rules_lem ((head, body) ∷ rules) s fits (one, all) plains valid =
        unless_stops_lem dc _ _ caller s _ _
          (try_rule_lem head body s fits one (λ r. (plains r).0) valid)
          (λ s' same.
            try_rules_lem rules s' fits all (λ r. (plains r).1)
              (subst (IsValid str_discrete dc) (sym same) valid))

    pub evaluate_rules_lem :
        (s : Progress C)
        → Fits
        → IsValid str_discrete dc s.store
        → Evaluated dc
            (PlainGoal dc model frame previous)
            (Goal dc model th frame previous)
            caller
            s
            (evaluate_rules dc theory_of again th frame previous caller s)
    unfolding evaluate_rules
    evaluate_rules_lem s fits valid =
        elim (Option-cases (plug_under dc s.store frame.unifier frame.literal.arguments)) [
          | inl e ↦
              elim (plug_under_some dc s.store frame.unifier frame.literal.arguments valid e) [ ]
          | inr (args, e) ↦
              rw (e, evaluate_rules)
                (try_rules_lem _ s fits (model.of_rules th frame.literal args)
                  (λ plain.
                    plain th frame.literal.table.table (record frame.literal { arguments = args }))
                  valid)
        ]
