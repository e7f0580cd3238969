-- ===== src/Literals.antt =====
-- The classes Literal and Rule of congress/datalog/compile.py. Constants are of a type whose
-- equality is decided. Identities, comments and locations, which no test of equality reads, are left
-- out.
pub mod Equality
pub mod Variables
mod Tests
use congress.Prelude.{
  ℕ, zero, suc, Bool, true, false, ◌&&◌, not, Option, none, some, List, [], ◌∷◌, ◌++◌, map, length,
  if◌then◌else◌, add, Dict, lookup, is_empty, ltb, Run, out_of_fuel, finished, ok, ite,
  tuple_discrete, ◌+◌, ◌==◌, max,
}
use congress.Tablename.{Str, Tablename, str_discrete}
use congress.Tablename
use congress.Schemas.{Column}
use congress.Unify.{Term, variable, object, term_discrete}
use congress.Builtins.{CategoryMap}
use congress.Builtins

pub record Literal (C : Type 0) : Type 0 where
  pub table : Tablename
  pub arguments : List (Term Str C)
  pub negated : Bool
  -- An OrderedDict from columns to terms; `eliminate_column_references` empties it.
  pub named_arguments : List (Column × Term Str C)

-- `heads` has at least one literal, and `head` is the first.
pub record Rule (C : Type 0) : Type 0 where
  pub heads : List (Literal C)
  pub body : List (Literal C)

-- `set` union of the names of several literals
unfoldable pub update_all : List Str → List Str → List Str
update_all names [] = names
update_all names (x ∷ xs) = update_all (add str_discrete x names) xs

-- `var.startswith(prefix)`
pub starts_with : Str → Str → Bool
starts_with var [] = true
starts_with [] (c ∷ prefix) = false
starts_with (d ∷ var) (c ∷ prefix) = if d == c then starts_with var prefix else false

pub any_starts_with : List Str → Str → Bool
any_starts_with [] prefix = false
any_starts_with (var ∷ vars) prefix =
    let rest = any_starts_with vars prefix in if starts_with var prefix then true else rest

-- The loop of `_unused_variable_prefix`, which appends "_".
pub longer_prefix : ℕ → List Str → Str → Run Str
longer_prefix zero vars prefix = out_of_fuel
longer_prefix (suc fuel) vars prefix = elim (any_starts_with vars prefix) [
  | true ↦ longer_prefix fuel vars (prefix ++ 95 ∷ [])
  | false ↦ finished (ok prefix)
]

pub longest : List Str → ℕ
longest [] = 0
longest (var ∷ vars) = max (length var) (longest vars)

module _ {C : Type 0} where
  -- The names of the variables among terms, as a set.
  unfoldable pub names_of : List (Term Str C) → List Str
  names_of [] = []
  names_of (variable x ∷ terms) = let rest = names_of terms in add str_discrete x rest
  names_of (object c ∷ terms) = names_of terms

  unfoldable pub variable_names : Literal C → List Str
  variable_names lit = names_of lit.arguments

  unfoldable pub all_objects : List (Term Str C) → Bool
  all_objects [] = true
  all_objects (variable x ∷ terms) = false
  all_objects (object c ∷ terms) = all_objects terms

  pub is_ground : Literal C → Bool
  is_ground lit = all_objects lit.arguments

  unfoldable pub is_atom : Literal C → Bool
  is_atom lit = not lit.negated

  unfoldable pub complement : Literal C → Literal C
  complement lit = record lit { negated = not lit.negated }

  pub make_positive : Literal C → Literal C
  make_positive lit = if lit.negated then record lit { negated = false } else lit

  -- `_modify_table`
  pub modify_table : (Tablename → Tablename × Bool) → Literal C → Literal C
  modify_table func lit =
      let (newtable, is_different) = func lit.table in
      if is_different then record lit { table = newtable } else lit

  pub invert_update : Literal C → Literal C
  invert_update lit = modify_table Tablename.invert_update lit

  pub drop_update : Literal C → Literal C
  drop_update lit = modify_table Tablename.drop_update lit

  pub make_update : Bool → Literal C → Literal C
  make_update is_insert lit = modify_table (Tablename.make_update is_insert) lit

  -- `is_builtin`, with the registry of builtins
  unfoldable pub is_builtin : CategoryMap → Bool → Literal C → Bool
  is_builtin registry check_arguments lit =
      Builtins.is_builtin lit.table (if check_arguments then some (length lit.arguments) else none)
        registry

  unfoldable pub names_in : List Str → List (Literal C) → List Str
  names_in names [] = names
  names_in names (lit ∷ lits) = names_in (update_all names (variable_names lit)) lits

  -- `Rule.variable_names`
  pub rule_variable_names : Rule C → List Str
  rule_variable_names rule = names_in (names_in [] rule.heads) rule.body

  unfoldable pub all_atoms : List (Literal C) → Bool
  all_atoms [] = true
  all_atoms (lit ∷ lits) = let rest = all_atoms lits in if lit.negated then false else rest

  -- `compile.is_rule`, of a Rule
  unfoldable pub is_rule : Rule C → Bool
  is_rule rule = all_atoms rule.heads

  -- From "x_"; a prefix that is longer than every variable is unused.
  pub unused_variable_prefix : Rule C → Run Str
  unused_variable_prefix rule =
      let vars = rule_variable_names rule in longer_prefix (longest vars + 1) vars (120 ∷ 95 ∷ [])

module _ {C : Type 0} (dc : Discrete C) where
  -- `plug`, with a dict from terms to terms
  unfoldable pub plug_terms : Dict (Term Str C) (Term Str C) → List (Term Str C) → List (Term Str C)
  plug_terms binding [] = []
  plug_terms binding (arg ∷ args) =
      let rest = plug_terms binding args in
      elim (lookup (term_discrete str_discrete dc) arg binding) [
        | none ↦ arg ∷ rest
        | some term ↦ term ∷ rest
      ]

  unfoldable pub plug : Dict (Term Str C) (Term Str C) → Literal C → Literal C
  plug binding lit = record lit { arguments = plug_terms binding lit.arguments }

  pub plug_all : Dict (Term Str C) (Term Str C) → List (Literal C) → List (Literal C)
  plug_all binding [] = []
  plug_all binding (lit ∷ lits) = plug binding lit ∷ plug_all binding lits

  -- `Rule.plug`
  pub plug_rule : Dict (Term Str C) (Term Str C) → Rule C → Rule C
  plug_rule binding rule = record {
    heads = plug_all binding rule.heads;
    body = plug_all binding rule.body;
  }
