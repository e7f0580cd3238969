-- ===== src/TopDown/Answers.antt =====
-- What `select` returns: the answers of top-down evaluation put into the query.
use congress.Prelude.{
  ℕ, suc, ◌+◌, ◌≤◌, ◌<◌, ◌≡◌, inl, inr, refl, ap, sym, subst, ◌∙◌, Bool, false, Option, none, some,
  List, [], ◌∷◌, length, map, arith, Option-cases, All, Run, run_then, finished, ok, lookup, insert,
  lookup-insert, if◌then◌else◌,
}
use mathlib.Core.List.{head-eq_of_cons-eq, tail-eq_of_cons-eq}
use mathlib.Core.Option.{some-injective}
use congress.Tablename.{Str, str_discrete}
use congress.Unify.{Term, variable, object, Store, term_discrete, apply_full}
use congress.Unify.Ends.{ground_term, ground_value, Satisfies, ground-find_end}
use congress.Unify.Extend.{IsValid}
use congress.Unify.Valuations.{valuation, valuation-Satisfies}
use congress.Builtins.{BuiltinPred, CategoryMap}
use congress.Literals.{Literal, variable_names, plug_terms, plug}
use congress.Contexts.{Theory, Progress, Answer, apply, flatten}
use congress.TopDown.{select}
use congress.TopDown.Goals.{
  Valuation, values, ByRules, HoldAll, IsPlain, ArePlainRules, Model, IsAnswer, answers, Evaluated,
  raised, returned, caller_of, progress_of,
}
use congress.TopDown.Correct.{top_down_evaluation_lem}

length-map : {A B : Type 0} (f : A → B) (xs : List A) → length (map f xs) ≡ length xs
length-map f [] = refl
length-map f (x ∷ xs) = ap suc (length-map f xs)

module _ {C : Type 0} (dc : Discrete C) where
  ground-apply :
      (σ : Valuation C) (st : Store Str C) (u : ℕ) (t : Term Str C) (c : C)
      → Satisfies str_discrete dc σ st
      → apply dc st u t ≡ some (object c)
      → ground_term σ u t ≡ c
  unfolding apply apply_full
  ground-apply σ st u t c sat e = elim (Option-cases (apply_full str_discrete dc st u t)) [
    | inl stuck ↦ let same : apply dc st u t ≡ none = rw (stuck, apply) refl in cc
    | inr ((value, other), end) ↦
        let same : apply dc st u t ≡ some value = rw (end, apply) refl in
        let is_object = some-injective value (object c) (sym same ∙ e) in
        ground-find_end str_discrete dc σ st (length st + 1) u t (value, other) sat end
        ∙ ap (λ (v : Term Str C). ground_value σ (v, other)) is_object
        ∙ at_object other
  ]
    where
      at_object : (other : Option ℕ) → ground_value σ (object c, other) ≡ c
      at_object none = refl
      at_object (some w) = refl

  -- An answer has for a term what `apply` gives.
  abbrev Reads : Store Str C → ℕ → Answer C → Type 0
  Reads st u answer =
      (t value : Term Str C)
      → lookup (term_discrete str_discrete dc) t answer ≡ some value
      → apply dc st u t ≡ some value

  Reads-empty : (st : Store Str C) (u : ℕ) → Reads st u []
  unfolding lookup
  Reads-empty st u t value h = cc

  flatten-Reads :
      (st : Store Str C) (u : ℕ) (vars : List (Term Str C)) (answer result : Answer C)
      → Reads st u answer
      → flatten dc st u vars answer ≡ some result
      → Reads st u result
  unfolding flatten
  flatten-Reads st u [] answer result reads e =
      subst (Reads st u) (some-injective answer result e) reads
  flatten-Reads st u (var ∷ vars) answer result reads e = elim (Option-cases (apply dc st u var)) [
    | inl stuck ↦ λ t value h. let bad : none ≡ some result = stuck_lem stuck e in cc
    | inr (value, end) ↦
        flatten-Reads st u vars (insert (term_discrete str_discrete dc) var value answer) result
          (λ t v h. elim (term_discrete str_discrete dc t var) [
            | yes p ↦
                let at = lookup-insert (term_discrete str_discrete dc) t var value answer in
                ground (arith, at, h, p, end)
            | no n ↦
                let at = lookup-insert (term_discrete str_discrete dc) t var value answer in
                reads t v (ground (arith, at, h, n))
          ])
          (next value end e)
  ]
    where
      stuck_lem :
          apply dc st u var ≡ none
          → flatten dc st u (var ∷ vars) answer ≡ some result
          → none ≡ some result
      stuck_lem stuck h = sym (rw (stuck, flatten) refl) ∙ h

      next :
          (value : Term Str C)
          → apply dc st u var ≡ some value
          → flatten dc st u (var ∷ vars) answer ≡ some result
          → flatten dc st u vars (insert (term_discrete str_discrete dc) var value answer)
            ≡ some result
      next value end h = sym (rw (end, flatten) refl) ∙ h

  -- Where an answer makes the arguments constants, these are what a valuation makes of them.
  values-plug_terms :
      (σ : Valuation C) (st : Store Str C) (u : ℕ) (answer : Answer C)
      → Satisfies str_discrete dc σ st
      → Reads st u answer
      → (args : List (Term Str C)) (cs : List C) → plug_terms dc answer args ≡ map object cs
      → values σ u args ≡ cs
  unfolding plug_terms
  values-plug_terms σ st u answer sat reads [] [] e = refl
  values-plug_terms σ st u answer sat reads [] (c ∷ cs) e = cc
  values-plug_terms σ st u answer sat reads (arg ∷ args) cs e =
      elim (Option-cases (lookup (term_discrete str_discrete dc) arg answer)) [
        | inl absent ↦
            with_head arg cs (λ c same. ap (ground_term σ u) same)
              (sym (rw (absent, plug_terms) refl) ∙ e)
              (λ cs' e'. values-plug_terms σ st u answer sat reads args cs' e')
        | inr (value, present) ↦
            with_head value cs
              (λ c same. ground-apply σ st u arg c sat (reads arg value present ∙ ap some same))
              (sym (rw (present, plug_terms) refl) ∙ e)
              (λ cs' e'. values-plug_terms σ st u answer sat reads args cs' e')
      ]
    where
      with_head :
          (first : Term Str C) (cs : List C)
          → ((c : C) → first ≡ object c → ground_term σ u arg ≡ c)
          → first ∷ plug_terms dc answer args ≡ map object cs
          → ((cs' : List C) → plug_terms dc answer args ≡ map object cs' → values σ u args ≡ cs')
          → values σ u (arg ∷ args) ≡ cs
      with_head first [] h e' rest = cc
      with_head first (c ∷ cs') h e' rest =
          let p = h c (head-eq_of_cons-eq e') in
          let q = rest cs' (tail-eq_of_cons-eq e') in ground (arith, p, q)

module _ {C : Type 0} (dc : Discrete C) {theory_of : ℕ → Theory C} {registry : CategoryMap}
    (model : Model theory_of registry) where
  -- The atom, if it is ground, is true in the model.
  abbrev pub IsTrue : ℕ → Literal C → Type 0
  IsTrue th atom = (cs : List C) → atom.arguments ≡ map object cs → model.reading th atom.table cs

  -- `select` returns true atoms, one at most if only one is wanted, and the store.
  pub data Selected (th : ℕ) (find_all : Bool) (st : Store Str C)
      (run : Run (List (Literal C) × Progress C)) : Type 0 where
    selected :
        (atoms : List (Literal C)) (s' : Progress C)
        → run ≡ finished (ok (atoms, s'))
        → s'.store ≡ st
        → All (IsTrue th) atoms
        → (find_all ≡ false → length atoms ≤ 1)
        → Selected th find_all st run

  module _ (c : C) (th : ℕ) (query : Literal C) (by_rules : ByRules registry query) (fresh : ℕ)
      (find_all : Bool) (st : Store Str C) where
    abbrev IsQueryAnswer : Answer C → Type 0
    IsQueryAnswer =
        IsAnswer dc (λ σ. HoldAll registry model.reading σ th fresh (query ∷ []))
          (caller_of (map variable (variable_names query)) fresh find_all) st

    plug-IsTrue : (answer : Answer C) → IsQueryAnswer answer → IsTrue th (plug dc answer query)
    unfolding plug
    plug-IsTrue answer (answers st' valid holds e) cs same =
        let σ : Valuation C = valuation str_discrete dc c st' in
        let sat : Satisfies str_discrete dc σ st' =
          valuation-Satisfies str_discrete dc c st' valid in
        subst (model.reading th query.table)
          (values-plug_terms dc σ st' fresh answer sat
            (flatten-Reads dc st' fresh (map variable (variable_names query)) [] answer
              (Reads-empty dc st' fresh) e)
            query.arguments cs same)
          ((holds σ sat).1.0 by_rules)

    All-plug :
        (found : List (Answer C))
        → All IsQueryAnswer found
        → All (IsTrue th) (map (λ answer. plug dc answer query) found)
    All-plug [] all = tt
    All-plug (answer ∷ found) (one, all) = (plug-IsTrue answer one, All-plug found all)

  -- Let the theories have a model, let no rule have negation or builtins in its body, and let the
  -- query be an atom that rules prove. From a valid store, with more fuel than the query costs,
  -- `select` comes to an end and raises nothing. It gives back the store, returns at most one atom
  -- if `find_all` is False, and every ground atom that it returns is true in the model.
  pub select_lem :
      (c : C) (fuel th : ℕ) (query : Literal C) (find_all : Bool) (st : Store Str C) (fresh : ℕ)
      (code : BuiltinPred → List C → Option (List C × Bool))
      → ArePlainRules registry theory_of
      → ByRules registry query
      → IsValid str_discrete dc st
      → suc (model.weight th query) < fuel
      → Selected th find_all st (select dc theory_of registry code fuel th query find_all st fresh)
  unfolding select
  select_lem c fuel th query find_all st fresh code plain by_rules valid fits = from_answers _ (
      top_down_evaluation_lem dc model code fuel th (map variable (variable_names query))
        (query ∷ []) find_all st fresh valid (omega (arith, fits)))
    where
      at_most_one : (success : Bool) (n m : ℕ) → n ≡ (if success then 1 else 0) → m ≡ n → m ≤ 1
      at_most_one success n m e e' = ground (arith, e, e')

      from_answers :
          (run : Run (Bool × Progress C))
          → Evaluated dc
              (ArePlainRules registry theory_of × All (IsPlain registry) (query ∷ []))
              (λ σ. HoldAll registry model.reading σ th fresh (query ∷ []))
              (caller_of (map variable (variable_names query)) fresh find_all)
              (progress_of st fresh)
              run
          → Selected th find_all st (
              run_then run
                (λ (success, s). finished (ok (map (λ answer. plug dc answer query) s.results, s))))
      from_answers run (raised e p n) = elim (n (plain, ((by_rules.0, by_rules.2), tt))) [ ]
      from_answers run (returned success s' more p same res all one) =
          rw (p, run_then)
            (selected (map (λ answer. plug dc answer query) s'.results) s' refl same
              (subst (λ found. All (IsTrue th) (map (λ answer. plug dc answer query) found))
                (sym res) (All-plug c th query by_rules fresh find_all st more all))
              (λ single.
                at_most_one success (length more) _ (one single)
                  (length-map (λ answer. plug dc answer query) s'.results ∙ ap length res)))
