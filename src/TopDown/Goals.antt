-- ===== src/TopDown/Goals.antt =====
-- What a search of topdown.py is after: the literals that a context leaves to prove, under the
-- valuations of its unifiers, and how many steps they take at most.
use congress.Prelude.{
  ℕ, suc, ◌+◌, ◌≤◌, ◌<◌, ◌≡◌, refl, ap, sym, subst, ◌∙◌, Bool, true, false, none, some, List, [],
  ◌∷◌, ◌++◌, All, Dict, lookup, length, length-append, arith, if◌then◌else◌, Run, finished, ok,
  raise, Error,
}
use mathlib.Core.List.{append_assoc, append-nil}
use congress.Tablename.{Str, Tablename, str_discrete, same_str}
use congress.Tablename
use congress.Unify.{Term, Store}
use congress.Unify.Ends.{ground_term, Satisfies}
use congress.Unify.Extend.{IsValid}
use congress.Builtins.{CategoryMap}
use congress.Literals.{Literal, complement, is_builtin}
use congress.Contexts.{Theory, Frame, Caller, Answer, Progress, elsewhere, same_schema, flatten}

abbrev pub Valuation : Type 0 → Type 0
Valuation C = ℕ → Str → C

module _ {C : Type 0} where
  -- What a valuation makes of the arguments of a literal.
  abbrev pub values : Valuation C → ℕ → List (Term Str C) → List C
  values σ u [] = []
  values σ u (arg ∷ args) = ground_term σ u arg ∷ values σ u args

  module _ (registry : CategoryMap) where
    -- The literal is proved by rules: it is positive, no builtin and not 'true'.
    abbrev pub ByRules : Literal C → Type 0
    ByRules lit =
        (lit.negated ≡ false)
        × (same_str (Tablename.name lit.table none) (116 ∷ 114 ∷ 117 ∷ 101 ∷ []) ≡ false)
        × (is_builtin registry true lit ≡ false)

    -- In a reading of the tables of every theory, the literal is true if rules prove it.
    abbrev pub Holds : (ℕ → Tablename → List C → Type 0) → Valuation C → ℕ → ℕ → Literal C → Type 0
    Holds reading σ th u lit = ByRules lit → reading th lit.table (values σ u lit.arguments)

    abbrev pub HoldAll :
        (ℕ → Tablename → List C → Type 0) → Valuation C → ℕ → ℕ → List (Literal C) → Type 0
    HoldAll reading σ th u [] = Unit
    HoldAll reading σ th u (lit ∷ lits) = Holds reading σ th u lit × HoldAll reading σ th u lits

    -- What a context leaves to prove once its current literal is proved.
    abbrev pub After : (ℕ → Tablename → List C → Type 0) → Valuation C → List (Frame C) → Type 0
    After reading σ [] = Unit
    After reading σ (frame ∷ previous) =
        HoldAll reading σ frame.theory frame.unifier frame.later × After reading σ previous

    -- The literal is neither negated nor a builtin, so its evaluation asks for no bound arguments.
    abbrev pub IsPlain : Literal C → Type 0
    IsPlain lit = (lit.negated ≡ false) × (is_builtin registry true lit ≡ false)

    -- The same of the literals in a context after its current one, and of the bodies of all rules.
    abbrev pub ArePlainAfter : List (Frame C) → Type 0
    ArePlainAfter [] = Unit
    ArePlainAfter (frame ∷ previous) = All IsPlain frame.later × ArePlainAfter previous

    abbrev pub ArePlainRules : (ℕ → Theory C) → Type 0
    ArePlainRules theory_of =
        (th : ℕ) (table : Str) (lit : Literal C)
        → All (λ rule. All IsPlain rule.1) ((theory_of th).head_index table lit)

  -- The steps for literals, by a weight of each, and those for the rest of a context.
  abbrev pub cost : (ℕ → Literal C → ℕ) → ℕ → List (Literal C) → ℕ
  cost weight th [] = 0
  cost weight th (lit ∷ lits) = suc (weight th lit) + cost weight th lits

  abbrev pub cost_after : (ℕ → Literal C → ℕ) → List (Frame C) → ℕ
  cost_after weight [] = 0
  cost_after weight (frame ∷ previous) =
      cost weight frame.theory frame.later + cost_after weight previous

  -- The caller and the search that `top_down_evaluation` starts from.
  abbrev pub caller_of : List (Term Str C) → ℕ → Bool → Caller C
  caller_of variables fresh find_all = record {
    variables = variables;
    binding = fresh;
    find_all = find_all;
  }

  abbrev pub progress_of : Store Str C → ℕ → Progress C
  progress_of st fresh = record { store = st; fresh = suc fresh; results = [] }

-- A model of the theories: a reading of the tables that their rules, the theories they include and
-- the other theories they name make true, and a weight of the literals that shows that no table
-- depends on itself, since it is smaller for what a literal is evaluated by. Literals in a body that
-- rules do not prove, which are negated, builtins or 'true', are taken for true there: where rules
-- have such literals, a model may hold more than they mean, and it is a model of the rules as they
-- stand where they have none.
pub record Model {C : Type 0} (theory_of : ℕ → Theory C) (registry : CategoryMap) : Type 1 where
  pub reading : ℕ → Tablename → List C → Type 0
  pub weight : ℕ → Literal C → ℕ
  pub of_rules :
      (th : ℕ) (lit : Literal C) (args : List (Term Str C))
      → All
          (λ rule.
            (cost weight th rule.1 ≤ weight th lit)
            × (same_schema rule.0 lit (theory_of th).name ≡ true
                → (σ : Valuation C) (u : ℕ) → HoldAll registry reading σ th u rule.1
                → reading th lit.table (values σ u rule.0.arguments)))
          ((theory_of th).head_index lit.table.table (record lit { arguments = args }))
  pub of_includes :
      (th : ℕ) (lit : Literal C)
      → All
          (λ i.
            (weight i lit < weight th lit)
            × ((args : List C) → reading i lit.table args → reading th lit.table args))
          (theory_of th).includes
  pub of_module :
      (th i : ℕ) (lit : Literal C) (theories : Dict Str ℕ) (service : Str)
      → elsewhere (theory_of th) lit ≡ some (theories, service)
      → lookup str_discrete service theories ≡ some i
      → (weight i lit < weight th lit)
        × ((args : List C) → reading i lit.table args → reading th lit.table args)
  pub of_negation :
      (th : ℕ) (lit : Literal C) → lit.negated ≡ true → weight th (complement lit) < weight th lit

module _ {C : Type 0} (dc : Discrete C) where
  -- An answer is what the caller's variables stand for in a store with more bindings, under which
  -- the goal holds for every valuation.
  pub data IsAnswer (goal : Valuation C → Type 0) (caller : Caller C) (st : Store Str C)
      (answer : Answer C) : Type 0 where
    answers :
        (st' : Store Str C)
        → IsValid str_discrete dc st'
        → ((σ : Valuation C)
            → Satisfies str_discrete dc σ st'
            → Satisfies str_discrete dc σ st × goal σ)
        → flatten dc st' caller.binding caller.variables [] ≡ some answer
        → IsAnswer goal caller st answer

  -- A search comes to an end, and raises only where not all is plain; where it raises nothing, the
  -- store is the one it started from, and it has added answers only: one where the caller wants one
  -- and the search returns True, and none where the caller wants one and it returns False.
  pub data Evaluated (plain : Type 0) (goal : Valuation C → Type 0) (caller : Caller C)
      (s : Progress C) (run : Run (Bool × Progress C)) : Type 0 where
    raised : (e : Error) → run ≡ finished (raise e) → ¬ plain → Evaluated plain goal caller s run
    returned :
        (success : Bool) (s' : Progress C) (more : List (Answer C))
        → run ≡ finished (ok (success, s'))
        → s'.store ≡ s.store
        → s'.results ≡ s.results ++ more
        → All (IsAnswer goal caller s.store) more
        → (caller.find_all ≡ false → length more ≡ (if success then 1 else 0))
        → Evaluated plain goal caller s run

  module _ (goal goal' : Valuation C → Type 0) (caller : Caller C) where
    -- A stronger goal from a store with more bindings
    pub All-weaken :
        (st st' : Store Str C)
        → ((σ : Valuation C)
            → Satisfies str_discrete dc σ st'
            → goal' σ
            → Satisfies str_discrete dc σ st × goal σ)
        → (more : List (Answer C)) → All (IsAnswer goal' caller st') more
        → All (IsAnswer goal caller st) more
    All-weaken st st' h [] all = tt
    All-weaken st st' h (answer ∷ more) (answers st'' valid holds e, all) = (
      answers st'' valid (λ σ s. let (s', g) = holds σ s in h σ s' g) e,
      All-weaken st st' h more all,
    )

    pub Evaluated-weaken :
        (plain plain' : Type 0) (s : Progress C) (run : Run (Bool × Progress C))
        → (plain → plain')
        → ((σ : Valuation C) → Satisfies str_discrete dc σ s.store → goal' σ → goal σ)
        → Evaluated plain' goal' caller s run
        → Evaluated plain goal caller s run
    Evaluated-weaken plain plain' s run f h (raised e p n) = raised e p (λ q. n (f q))
    Evaluated-weaken plain plain' s run f h (returned success s' more p same res all one) =
        returned success s' more p same res
          (All-weaken s.store s.store (λ σ sat g. (sat, h σ sat g)) more all) one

  All-append :
      {A : Type 0} (P : A → Type 0) (xs ys : List A) → All P xs → All P ys → All P (xs ++ ys)
  All-append P [] ys p q = q
  All-append P (x ∷ xs) ys (p, ps) q = (p, All-append P xs ys ps q)

  -- Nothing was found, and the search goes on or not.
  pub Evaluated-nothing :
      (plain : Type 0) (goal : Valuation C → Type 0) (caller : Caller C) (s s' : Progress C)
      → s'.store ≡ s.store
      → s'.results ≡ s.results
      → Evaluated plain goal caller s (finished (ok (false, s')))
  Evaluated-nothing plain goal caller s s' same res =
      returned false s' [] refl same (res ∙ sym (append-nil s.results)) tt (λ single. refl)

  -- A search after another one, on the store that it gave back.
  pub Evaluated-after :
      (plain : Type 0) (goal : Valuation C → Type 0) (caller : Caller C) (s s' : Progress C)
      (more : List (Answer C)) (run : Run (Bool × Progress C))
      → s'.store ≡ s.store
      → s'.results ≡ s.results ++ more
      → All (IsAnswer goal caller s.store) more
      → (caller.find_all ≡ false → length more ≡ 0)
      → Evaluated plain goal caller s' run
      → Evaluated plain goal caller s run
  Evaluated-after plain goal caller s s' more run same res all nothing (raised e p n) = raised e p n
  Evaluated-after plain goal caller s s' more run same res all nothing
        (returned success s'' more' p same' res' all' one) =
      returned success s'' (more ++ more') p (same' ∙ same)
        (res' ∙ ap (λ (r : List (Answer C)). r ++ more') res ∙ append_assoc s.results more more')
        (All-append (IsAnswer goal caller s.store) more more' all (
          All-weaken goal goal caller s.store s'.store
            (λ σ sat g. (subst (λ (st : Store Str C). Satisfies str_discrete dc σ st) same sat, g))
            more' all'))
        (λ single.
          let none_yet = nothing single in
          let last = one single in ground (arith, length-append more more'))
