-- ===== src/Contexts.antt =====
-- The state of a top-down search in congress/datalog/topdown.py, what it does at the end of a proof,
-- and the unification of atoms in congress/datalog/unify.py. Theories are known by numbers; what a
-- theory of a subclass has in its rules is its `head_index`, whose formulas are given by their head
-- and body. A context is the list of its frames, the innermost first, and None is the empty list;
-- the index into a frame's literals is kept as the literal at it and the later ones. Abduction
-- (`save`), the trace and the depth, which only the trace reads, are left out.
use congress.Prelude.{
  ℕ, zero, suc, Bool, true, false, Option, none, some, List, [], ◌∷◌, ◌++◌, length, ◌==◌, Dict,
  insert, Result, ok, raise, index_error, attribute_error, Run, out_of_fuel, finished, run_then,
  if◌then◌else◌,
}
use congress.Tablename.{Str, str_discrete, same_table, same_option, is_update}
use congress.Unify.{
  Term, variable, object, Key, Store, apply_full, undo_all, bi_unify_lists, term_discrete,
}
use congress.Literals.{Literal}

pub record Theory (C : Type 0) : Type 0 where
  pub name : Option Str
  pub includes : List ℕ
  pub theories : Option (Dict Str ℕ)
  pub head_index : Str → Literal C → List (Literal C × List (Literal C))

-- `TopDownContext`, without the contexts before it
pub record Frame (C : Type 0) : Type 0 where
  pub literal : Literal C
  pub later : List (Literal C)
  pub unifier : ℕ
  pub theory : ℕ

-- `TopDownCaller`; the answers are in the state of the search.
pub record Caller (C : Type 0) : Type 0 where
  pub variables : List (Term Str C)
  pub binding : ℕ
  pub find_all : Bool

abbrev pub Answer : Type 0 → Type 0
Answer C = Dict (Term Str C) (Term Str C)

-- What a search changes: the unifiers, the number of unifiers made so far and the answers.
pub record Progress (C : Type 0) : Type 0 where
  pub store : Store Str C
  pub fresh : ℕ
  pub results : List (Answer C)

abbrev pub Evaluate : Type 0 → Type 0
Evaluate C = ℕ → Frame C → List (Frame C) → Caller C → Progress C → Run (Bool × Progress C)

module _ {C : Type 0} where
  unfoldable pub same_schema : Literal C → Literal C → Option Str → Bool
  same_schema atom1 atom2 theoryname =
      if same_table atom1.table atom2.table theoryname
      then length atom1.arguments == length atom2.arguments
      else false

  -- The first arguments, which must be objects: `builtin.num_inputs` in the message of the
  -- assertion is an attribute that the module does not have.
  unfoldable pub inputs : ℕ → List (Term Str C) → Result (List C)
  inputs zero args = ok []
  inputs (suc n) [] = raise index_error
  inputs (suc n) (variable x ∷ args) = raise attribute_error
  inputs (suc n) (object c ∷ args) = elim (inputs n args) [
    | raise e ↦ raise e
    | ok cs ↦ ok (c ∷ cs)
  ]

  unfoldable pub skip : ℕ → List (Term Str C) → List (Term Str C)
  skip zero args = args
  skip (suc n) [] = []
  skip (suc n) (arg ∷ args) = skip n args

  -- The tests before `_top_down_module`: the theories and the service to look up there.
  unfoldable pub elsewhere : Theory C → Literal C → Option (Dict Str ℕ × Str)
  elsewhere th lit = elim th.theories [
    | none ↦ none
    | some theories ↦ elim lit.table.service [
      | none ↦ none
      | some service ↦ elim lit.table.modal [
        | some modal ↦ none
        | none ↦
            if same_option (some service) th.name
            then none
            else if is_update lit.table
            then none
            else some (theories, service)
      ]
    ]
  ]

  -- `is_true and not caller.find_all`
  unfoldable pub stops : Caller C → Bool → Bool
  stops caller success = if caller.find_all then false else success

  -- What follows a call in a loop, if the loop goes on after it.
  unfoldable pub unless_stops :
      Caller C
      → Run (Bool × Progress C)
      → (Progress C → Run (Bool × Progress C))
      → Run (Bool × Progress C)
  unless_stops caller run proceed = run_then run (λ (success, s). elim (stops caller success) [
    | true ↦ finished (ok (true, s))
    | false ↦ proceed s
  ])

  -- The loop of `_top_down_includes` over the included theories.
  unfoldable pub each :
      Caller C
      → (ℕ → Progress C → Run (Bool × Progress C))
      → List ℕ
      → Progress C
      → Run (Bool × Progress C)
  each caller visit [] s = finished (ok (false, s))
  each caller visit (th ∷ ths) s = unless_stops caller (visit th s) (λ s'. each caller visit ths s')

module _ {C : Type 0} (dc : Discrete C) where
  unfoldable pub bi_unify_atoms :
      Literal C
      → ℕ
      → Literal C
      → ℕ
      → Option Str
      → Store Str C
      → Run (Option (List (Key Str C)) × Store Str C)
  bi_unify_atoms atom1 unifier1 atom2 unifier2 theoryname st =
      if same_schema atom1 atom2 theoryname
      then bi_unify_lists str_discrete dc atom1.arguments unifier1 atom2.arguments unifier2 st
      else finished (ok (none, st))

  -- `BiUnifier.apply`
  unfoldable pub apply : Store Str C → ℕ → Term Str C → Option (Term Str C)
  apply st unifier term = elim (apply_full str_discrete dc st unifier term) [
    | none ↦ none
    | some (value, other) ↦ some value
  ]

  -- The arguments of a literal that `plug` puts in place under a unifier.
  unfoldable pub plug_under : Store Str C → ℕ → List (Term Str C) → Option (List (Term Str C))
  plug_under st unifier [] = some []
  plug_under st unifier (arg ∷ args) = elim (apply st unifier arg) [
    | none ↦ none
    | some value ↦ elim (plug_under st unifier args) [
      | none ↦ none
      | some values ↦ some (value ∷ values)
    ]
  ]

  -- The loop of `_top_down_finish` that flattens the caller's binding.
  unfoldable pub flatten : Store Str C → ℕ → List (Term Str C) → Answer C → Option (Answer C)
  flatten st binding [] answer = some answer
  flatten st binding (var ∷ vars) answer = elim (apply st binding var) [
    | none ↦ none
    | some value ↦ flatten st binding vars (insert (term_discrete str_discrete dc) var value answer)
  ]

  -- `undo_all` after a call
  unfoldable pub undo_after : List (Key Str C) → Run (Bool × Progress C) → Run (Bool × Progress C)
  undo_after undo run = run_then run (λ (success, s).
      finished (ok (success, record s { store = undo_all str_discrete dc undo s.store })))

  -- `_top_down_finish`, with `_top_down_eval` for what is called in it.
  unfoldable pub top_down_finish :
      Evaluate C → List (Frame C) → Caller C → Progress C → Run (Bool × Progress C)
  top_down_finish again [] caller s = elim (flatten s.store caller.binding caller.variables []) [
    | none ↦ out_of_fuel
    | some answer ↦ finished (ok (true, record s { results = s.results ++ answer ∷ [] }))
  ]
  top_down_finish again (frame ∷ previous) caller s = elim frame.later [
    | [] ↦ top_down_finish again previous caller s
    | lit ∷ later ↦
        again frame.theory (record frame { literal = lit; later = later }) previous caller s
  ]

  -- What follows the unification of a builtin's results, or of a rule's head, with the literal.
  unfoldable pub if_unified :
      ℕ
      → Run (Option (List (Key Str C)) × Store Str C)
      → (Progress C → Run (Bool × Progress C))
      → Progress C
      → Run (Bool × Progress C)
  if_unified fresh run proceed s = run_then run (λ (changes, st). elim changes [
    | none ↦ finished (ok (false, record s { store = st; fresh = fresh }))
    | some undo ↦ undo_after undo (proceed (record s { store = st; fresh = fresh }))
  ])
