-- ===== src/TopDown/Steps.antt =====
-- The parts of a search that all branches of `_top_down_eval` share: going on with the rest of a
-- context, going on after a call in a loop, and undoing a unification.
use congress.Prelude.{
  ℕ, suc, ◌+◌, ◌<◌, ◌≡◌, ◌≢◌, inl, inr, refl, ap, subst, ◌∙◌, Bool, true, false, Option, none, List,
  [], ◌∷◌, ◌++◌, arith, Option-cases, Bool-cases, Run, run_then,
}
use congress.Tablename.{Str, str_discrete}
use congress.Unify.{Term, Key, Store, apply_full, undo_all}
use congress.Unify.Extend.{IsValid}
use congress.Unify.Lists.{Equates}
use congress.Unify.Correct.{Outcome, unified, refused}
use congress.Builtins.{CategoryMap}
use congress.Literals.{Literal}
use congress.Contexts.{
  Theory, Frame, Caller, Answer, Progress, Evaluate, apply, flatten, plug_under, top_down_finish,
  stops, unless_stops, undo_after, if_unified,
}
use congress.TopDown.Goals.{
  Valuation, Holds, After, cost, cost_after, IsPlain, ArePlainAfter, ArePlainRules, Model, answers,
  Evaluated, raised, returned, All-weaken, Evaluated-weaken, Evaluated-nothing, Evaluated-after,
}

module _ {C : Type 0} (dc : Discrete C) where
  apply_some :
      (st : Store Str C) (u : ℕ) (t : Term Str C)
      → IsValid str_discrete dc st
      → apply dc st u t ≢ none
  unfolding apply apply_full
  apply_some st u t valid = ground (arith, valid.1 u t)

  pub plug_under_some :
      (st : Store Str C) (u : ℕ) (args : List (Term Str C))
      → IsValid str_discrete dc st
      → plug_under dc st u args ≢ none
  unfolding plug_under
  plug_under_some st u [] valid = λ e. cc
  plug_under_some st u (arg ∷ args) valid =
      ground (arith, apply_some st u arg valid, plug_under_some st u args valid)

  flatten_some :
      (st : Store Str C) (u : ℕ) (vars : List (Term Str C)) (answer : Answer C)
      → IsValid str_discrete dc st
      → flatten dc st u vars answer ≢ none
  unfolding flatten
  flatten_some st u [] answer valid = λ e. cc
  flatten_some st u (var ∷ vars) answer valid = elim (Option-cases (apply dc st u var)) [
    | inl e ↦ elim (apply_some st u var valid e) [ ]
    | inr (value, e) ↦ rw (e, flatten) (flatten_some st u vars _ valid)
  ]

  single_stops :
      (caller : Caller C) (success : Bool)
      → caller.find_all ≡ false
      → stops caller success ≡ success
  unfolding stops
  single_stops caller success single = ground (arith, single)

  -- A call in a loop, then the rest of the loop.
  pub unless_stops_lem :
      (plain : Type 0) (goal : Valuation C → Type 0) (caller : Caller C) (s : Progress C)
      (run : Run (Bool × Progress C)) (proceed : Progress C → Run (Bool × Progress C))
      → Evaluated dc plain goal caller s run
      → ((s' : Progress C) → s'.store ≡ s.store → Evaluated dc plain goal caller s' (proceed s'))
      → Evaluated dc plain goal caller s (unless_stops caller run proceed)
  unfolding unless_stops
  unless_stops_lem plain goal caller s run proceed (raised e p n) h = raised e (rw p refl) n
  unless_stops_lem plain goal caller s run proceed (returned success s' more p same res all one) h =
      rw (p, unless_stops)
        (elim (Bool-cases (stops caller success)) [
          | inl e ↦
              rw (e, run_then)
                (returned true s' more refl same res all (λ single.
                  let r = one single in
                  let q = single_stops caller success single in ground (arith, e, r, q)))
          | inr e ↦
              rw (e, run_then)
                (Evaluated-after dc plain goal caller s s' more (proceed s') same res all
                  (λ single.
                    let r = one single in
                    let q = single_stops caller success single in ground (arith, e, r, q))
                  (h s' same))
        ])

  -- What follows a unification runs on a valid store whose valuations make the lists equal; what
  -- it leaves is undone.
  pub if_unified_lem :
      (plain plain' : Type 0) (goal goal' : Valuation C → Type 0) (caller : Caller C)
      (s : Progress C) (fresh : ℕ) (u w : ℕ) (xs ys : List (Term Str C))
      (run : Run (Option (List (Key Str C)) × Store Str C))
      (proceed : Progress C → Run (Bool × Progress C))
      → Outcome str_discrete dc s.store s.store u w xs ys run
      → ((st : Store Str C)
          → IsValid str_discrete dc st
          → Evaluated dc plain' goal' caller
              (record s { store = st; fresh = fresh })
              (proceed (record s { store = st; fresh = fresh })))
      → (plain → plain')
      → ((σ : Valuation C) → Equates σ u w xs ys → goal' σ → goal σ)
      → Evaluated dc plain goal caller s (if_unified dc fresh run proceed s)
  unfolding if_unified undo_after
  if_unified_lem plain plain' goal goal' caller s fresh u w xs ys run proceed
        (refused st' e no_valuation undone) h f g =
      rw (e, if_unified)
        (Evaluated-nothing dc plain goal caller s (record s { store = st'; fresh = fresh }) undone
          refl)
  if_unified_lem plain plain' goal goal' caller s fresh u w xs ys run proceed
        (unified changes st e valid iff undone) h f g =
      rw (e, if_unified) (undone_lem (h st valid))
    where
      undone_lem :
          Evaluated dc plain' goal' caller
            (record s { store = st; fresh = fresh })
            (proceed (record s { store = st; fresh = fresh }))
          → Evaluated dc plain goal caller s
              (undo_after dc changes (proceed (record s { store = st; fresh = fresh })))
      undone_lem (raised err p n) = raised err (rw (p, undo_after) refl) (λ q. n (f q))
      undone_lem (returned success s' more p same res all one) =
          rw (p, undo_after)
            (returned success (record s' { store = undo_all str_discrete dc changes s'.store }) more
              refl (ap (undo_all str_discrete dc changes) same ∙ undone) res
              (All-weaken dc goal goal' caller s.store st
                (λ σ sat q. let (sat', eqs) = (iff σ).0 sat in (sat', g σ eqs q)) more all)
              one)

module _ {C : Type 0} (dc : Discrete C) {theory_of : ℕ → Theory C} {registry : CategoryMap}
    (model : Model theory_of registry) where
  -- What is to prove when a theory evaluates the current literal of a context.
  abbrev pub Goal : ℕ → Frame C → List (Frame C) → Valuation C → Type 0
  Goal th frame previous σ =
      Holds registry model.reading σ th frame.unifier frame.literal
      × After registry model.reading σ (frame ∷ previous)

  -- Neither the rules nor what is to prove have negation or builtins.
  abbrev pub PlainRest : List (Frame C) → Type 0
  PlainRest context = ArePlainRules registry theory_of × ArePlainAfter registry context

  abbrev pub PlainGoal : Frame C → List (Frame C) → Type 0
  PlainGoal frame previous = IsPlain registry frame.literal × PlainRest (frame ∷ previous)

  -- The evaluation is right where the literal and the rest of the context cost less than a bound.
  abbrev pub IsCorrect : ℕ → Evaluate C → Type 0
  IsCorrect bound again =
      (th : ℕ) (frame : Frame C) (previous : List (Frame C)) (caller : Caller C) (s : Progress C)
      → IsValid str_discrete dc s.store
      → suc (model.weight th frame.literal) + cost_after model.weight (frame ∷ previous) < bound
      → Evaluated dc (PlainGoal frame previous) (Goal th frame previous) caller s
          (again th frame previous caller s)

  next_fits :
      (th : ℕ) (lit : Literal C) (later : List (Literal C)) (rest bound : ℕ)
      → cost model.weight th (lit ∷ later) + rest < bound
      → suc (model.weight th lit) + (cost model.weight th later + rest) < bound
  next_fits th lit later rest bound h = omega (arith, h)

  pub finish_lem :
      (bound : ℕ) (again : Evaluate C) (context : List (Frame C)) (caller : Caller C)
      (s : Progress C)
      → IsCorrect bound again
      → IsValid str_discrete dc s.store
      → cost_after model.weight context < bound
      → Evaluated dc
          (PlainRest context)
          (λ σ. After registry model.reading σ context)
          caller
          s
          (top_down_finish dc again context caller s)
  unfolding top_down_finish
  finish_lem bound again [] caller s correct valid less =
      elim (Option-cases (flatten dc s.store caller.binding caller.variables [])) [
        | inl e ↦ elim (flatten_some dc s.store caller.binding caller.variables [] valid e) [ ]
        | inr (answer, e) ↦
            rw (e, top_down_finish)
              (returned true (record s { results = s.results ++ answer ∷ [] }) (answer ∷ []) refl
                refl refl (answers s.store valid (λ σ sat. (sat, tt)) e, tt) (λ single. refl))
      ]
  finish_lem bound again (frame ∷ previous) caller s correct valid less =
      at frame.later refl (λ b. finish_lem bound again previous caller s correct valid b)
    where
      at :
          (later : List (Literal C))
          → frame.later ≡ later
          → (cost_after model.weight previous < bound
              → Evaluated dc
                  (PlainRest previous)
                  (λ σ. After registry model.reading σ previous)
                  caller
                  s
                  (top_down_finish dc again previous caller s))
          → Evaluated dc
              (PlainRest (frame ∷ previous))
              (λ σ. After registry model.reading σ (frame ∷ previous))
              caller
              s
              (top_down_finish dc again (frame ∷ previous) caller s)
      at [] e rest =
          rw (e, top_down_finish)
            (Evaluated-weaken dc _ (λ σ. After registry model.reading σ previous) caller _
              (PlainRest previous) s _ (λ plain. (plain.0, plain.1.1)) (λ σ sat after. (tt, after))
              (rest (ground (arith, e, less))))
      at (lit ∷ later) e rest =
          rw (e, top_down_finish)
            (Evaluated-weaken dc _ _ caller _ _ s _
              (λ plain. (plain.1.0.0, (plain.0, (plain.1.0.1, plain.1.1))))
              (λ σ sat g. ((g.0, g.1.0), g.1.1))
              (correct frame.theory (record frame { literal = lit; later = later }) previous caller
                s valid
                (next_fits frame.theory lit later (cost_after model.weight previous) bound (
                  subst
                    (λ l.
                      cost model.weight frame.theory l + cost_after model.weight previous < bound)
                    e less))))
