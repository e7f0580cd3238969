-- ===== src/TopDown/Tests.antt =====
-- Queries to a theory with the rule p(x) :- q(x) and the facts q(1) and q(2), and the theorems there.
use congress.Prelude.{
  ℕ, zero, suc, ◌+◌, ◌≤◌, ◌≡◌, ◌⊎◌, inl, inr, refl, sym, ◌∙◌, ap, Bool, true, false, Option, none,
  some, List, [], ◌∷◌, All, ℕ_discrete, arith, ok, finished, raise, assertion_error, if◌then◌else◌,
  contains, lookup, insert, erase,
}
use congress.Tablename.{Str, Tablename, str_discrete, same_str, same_table, is_update}
use congress.Tablename
use congress.Unify.{
  Term, variable, object, Store, term_discrete, find_end, apply_full, undo_all, bi_var_equal, step,
  unify_from, bi_unify_lists,
}
use congress.Unify.Extend.{IsValid}
use congress.Builtins.{BuiltinPred, CategoryMap, empty_map}
use congress.Literals.{
  Literal, names_of, variable_names, plug, plug_terms, complement, all_objects, is_builtin,
}
use congress.Contexts.{
  Theory, elsewhere, same_schema, if_unified, top_down_finish, undo_after, flatten, apply,
  plug_under, bi_unify_atoms, each, unless_stops, stops,
}
use congress.TopDown.{
  top_down_evaluation, top_down_eval, evaluate_includes, evaluate_module, evaluate_rules, try_rules,
  try_rule, evaluate_negation, evaluate_builtin, select,
}
use congress.TopDown.Goals.{
  IsPlain, ArePlainRules, Valuation, values, HoldAll, Model, Evaluated, cost, caller_of,
  progress_of,
}
use congress.TopDown.Correct.{top_down_evaluation_lem}
use congress.TopDown.Answers.{Selected, select_lem}

program : Unit {0}
unfolding names_of variable_names plug plug_terms congress.Builtins.is_builtin Tablename.name
    same_table is_update is_builtin complement all_objects elsewhere same_schema top_down_evaluation
    select top_down_eval evaluate_includes evaluate_module evaluate_rules try_rules try_rule
    evaluate_negation evaluate_builtin if_unified top_down_finish undo_after flatten apply
    plug_under bi_unify_atoms each unless_stops stops term_discrete find_end apply_full undo_all
    bi_var_equal step unify_from bi_unify_lists contains lookup insert erase ℕ_discrete
    congress.Prelude.tuple_discrete congress.Prelude.pair_discrete congress.Prelude.add
program = tt

abbrev literal : ℕ → Bool → Term Str ℕ → Literal ℕ
literal c negated arg = record {
  table = record { table = c ∷ []; service = none; modal = none };
  arguments = arg ∷ [];
  negated = negated;
  named_arguments = [];
}

abbrev x : Term Str ℕ
x = variable (120 ∷ [])

abbrev formulas : Bool → Bool → List (Literal ℕ × List (Literal ℕ))
formulas true is_q = (literal 112 false x, literal 113 false x ∷ []) ∷ []
formulas false true = (literal 113 false (object 1), []) ∷ (literal 113 false (object 2), []) ∷ []
formulas false false = []

abbrev theory : Theory ℕ
theory = record {
  name = none;
  includes = [];
  theories = none;
  head_index = λ table lit. formulas (same_str table (112 ∷ [])) (same_str table (113 ∷ []));
}

abbrev no_code : BuiltinPred → List ℕ → Option (List ℕ × Bool)
no_code built args = none

abbrev empty_store : Store Str ℕ
empty_store = []

abbrev IsKnown : List ℕ → Type 0
IsKnown args = (args ≡ 1 ∷ []) ⊎ (args ≡ 2 ∷ [])

abbrev rank : Bool → ℕ
rank is_p = if is_p then 1 else 0

of_formulas :
    (lit : Literal ℕ) (is_p is_q : Bool)
    → All
        (λ rule.
          (cost (λ th l. rank (same_str l.table.table (112 ∷ [])) + rank l.negated) 0 rule.1
            ≤ rank is_p + rank lit.negated)
          × (same_schema rule.0 lit none ≡ true
              → (σ : Valuation ℕ) (u : ℕ)
              → HoldAll empty_map (λ th t args. IsKnown args) σ 0 u rule.1
              → IsKnown (values σ u rule.0.arguments)))
        (formulas is_p is_q)
unfolding is_builtin congress.Builtins.is_builtin lookup Tablename.name
    congress.Prelude.tuple_discrete ℕ_discrete
of_formulas lit true is_q = ((omega arith, λ schema σ u h. h.0 (refl, refl, refl)), tt)
of_formulas lit false true =
    ((omega arith, λ schema σ u h. inl refl), ((omega arith, λ schema σ u h. inr refl), tt))
of_formulas lit false false = tt

model : Model (λ th. theory) empty_map
unfolding elsewhere complement
model = record {
  reading = λ th t args. IsKnown args;
  weight = λ th lit. rank (same_str lit.table.table (112 ∷ [])) + rank lit.negated;
  of_rules = λ th lit args.
      of_formulas lit (same_str lit.table.table (112 ∷ [])) (same_str lit.table.table (113 ∷ []));
  of_includes = λ th lit. tt;
  of_module = λ th i lit theories service e found. cc;
  of_negation = λ th lit negated. ground (arith, negated);
}

empty-IsValid : IsValid str_discrete ℕ_discrete empty_store
unfolding find_end lookup
empty-IsValid = (λ u t y e. cc, λ u t e. cc, λ u c. refl)

top_down_evaluation_lem_example :
    Evaluated ℕ_discrete
      (ArePlainRules empty_map (λ th. theory) × All (IsPlain empty_map) (literal 112 false x ∷ []))
      (λ σ. HoldAll empty_map (λ th t args. IsKnown args) σ 0 0 (literal 112 false x ∷ []))
      (caller_of (x ∷ []) 0 true)
      (progress_of empty_store 0)
      (top_down_evaluation ℕ_discrete
        (λ th. theory)
        empty_map
        no_code
        5
        0
        (x ∷ [])
        (literal 112 false x ∷ [])
        true
        empty_store
        0)
unfolding model congress.Prelude.tuple_discrete ℕ_discrete
top_down_evaluation_lem_example =
    top_down_evaluation_lem ℕ_discrete model no_code 5 0 (x ∷ []) (literal 112 false x ∷ []) true
      empty_store 0 empty-IsValid (omega arith)

find_both :
    top_down_evaluation ℕ_discrete
      (λ th. theory)
      empty_map
      no_code
      5
      0
      (x ∷ [])
      (literal 112 false x ∷ [])
      true
      empty_store
      0
    ≡ finished (
        ok (
          false,
          record {
            store = [];
            fresh = 4;
            results = ((x, object 1) ∷ []) ∷ ((x, object 2) ∷ []) ∷ [];
          },
        ))
unfolding program
find_both = refl

find_one :
    top_down_evaluation ℕ_discrete
      (λ th. theory)
      empty_map
      no_code
      5
      0
      (x ∷ [])
      (literal 112 false x ∷ [])
      false
      empty_store
      0
    ≡ finished (ok (true, record { store = []; fresh = 3; results = ((x, object 1) ∷ []) ∷ [] }))
unfolding program
find_one = refl

deny_three :
    top_down_evaluation ℕ_discrete
      (λ th. theory)
      empty_map
      no_code
      5
      0
      []
      (literal 112 true (object 3) ∷ [])
      true
      empty_store
      0
    ≡ finished (ok (true, record { store = []; fresh = 4; results = [] ∷ [] }))
unfolding program
deny_three = refl

deny_unbound :
    top_down_evaluation ℕ_discrete
      (λ th. theory)
      empty_map
      no_code
      5
      0
      (x ∷ [])
      (literal 112 true x ∷ [])
      true
      empty_store
      0
    ≡ finished (raise assertion_error)
unfolding program
deny_unbound = refl

formulas-IsPlain :
    (is_p is_q : Bool) → All (λ rule. All (IsPlain empty_map) rule.1) (formulas is_p is_q)
unfolding is_builtin congress.Builtins.is_builtin lookup
formulas-IsPlain true is_q = (((refl, refl), tt), tt)
formulas-IsPlain false true = (tt, (tt, tt))
formulas-IsPlain false false = tt

theory-ArePlainRules : ArePlainRules empty_map (λ th. theory)
theory-ArePlainRules th table lit =
    formulas-IsPlain (same_str table (112 ∷ [])) (same_str table (113 ∷ []))

select_lem_example : Selected ℕ_discrete model 0 false empty_store (
    select ℕ_discrete
      (λ th. theory)
      empty_map
      no_code
      5
      0
      (literal 112 false x)
      false
      empty_store
      0)
unfolding model is_builtin congress.Builtins.is_builtin lookup Tablename.name
    congress.Prelude.tuple_discrete ℕ_discrete
select_lem_example =
    select_lem ℕ_discrete model 0 5 0 (literal 112 false x) false empty_store 0 no_code
      theory-ArePlainRules (refl, refl, refl) empty-IsValid (omega arith)

select_both :
    select ℕ_discrete (λ th. theory) empty_map no_code 5 0 (literal 112 false x) true empty_store 0
    ≡ finished (
        ok (
          literal 112 false (object 1) ∷ literal 112 false (object 2) ∷ [],
          record {
            store = [];
            fresh = 4;
            results = ((x, object 1) ∷ []) ∷ ((x, object 2) ∷ []) ∷ [];
          },
        ))
unfolding program
select_both = refl
