-- ===== src/Literals/Tests.antt =====
-- Runs on small literals and rules, and their theorems at these.
use congress.Prelude.{
  ℕ, ◌≡◌, refl, true, false, none, [], ◌∷◌, contains, add, lookup, ℕ_discrete, tuple_discrete,
  finished, ok,
}
use congress.Tablename.{Str, str_discrete}
use congress.Unify.{variable, object, term_discrete}
use congress.Schemas.{named}
use congress.Literals.{
  Literal, Rule, names_of, variable_names, update_all, names_in, rule_variable_names, all_objects,
  is_ground, complement, make_positive, starts_with, any_starts_with, longer_prefix, longest,
  unused_variable_prefix, plug, plug_terms,
}
use congress.Literals.Variables.{unused_variable_prefix_lem}

program : Unit {0}
unfolding names_of variable_names update_all names_in rule_variable_names all_objects is_ground
    complement make_positive starts_with any_starts_with longer_prefix longest
    unused_variable_prefix plug plug_terms contains add lookup ℕ_discrete tuple_discrete
    term_discrete
program = tt

-- not p(x_, 3), where "x_" is a variable
abbrev lit : Literal ℕ
lit = record {
  table = record { table = 112 ∷ []; service = none; modal = none };
  arguments = variable (120 ∷ 95 ∷ []) ∷ object 3 ∷ [];
  negated = true;
  named_arguments = [];
}

abbrev rule : Rule ℕ
rule = record { heads = make_positive lit ∷ []; body = lit ∷ [] }

plug-lit : is_ground (plug ℕ_discrete ((variable (120 ∷ 95 ∷ []), object 4) ∷ []) lit) ≡ true
unfolding program
plug-lit = refl

prefix_rule : unused_variable_prefix rule ≡ finished (ok (120 ∷ 95 ∷ 95 ∷ []))
unfolding program
prefix_rule = refl

-- In p(y) :- p(y, name=x_01), the variable of the named argument is not seen.
abbrev by_name : Rule ℕ
by_name = record {
  heads = record lit { arguments = variable (121 ∷ []) ∷ []; negated = false } ∷ [];
  body =
      record lit {
        arguments = variable (121 ∷ []) ∷ [];
        negated = false;
        named_arguments =
            (named (110 ∷ 97 ∷ 109 ∷ 101 ∷ []), variable (120 ∷ 95 ∷ 48 ∷ 49 ∷ [])) ∷ [];
      }
      ∷ [];
}

prefix_by_name : unused_variable_prefix by_name ≡ finished (ok (120 ∷ 95 ∷ []))
unfolding program
prefix_by_name = refl

unused_variable_prefix_lem_example :
    (prefix : Str) × (unused_variable_prefix rule ≡ finished (ok prefix))
    × ((var : Str)
        → contains str_discrete var (rule_variable_names rule) ≡ true
        → starts_with var prefix ≡ false)
unused_variable_prefix_lem_example = unused_variable_prefix_lem rule
