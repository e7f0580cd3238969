-- ===== src/Safety/Tests.antt =====
-- Runs of the safety checks on small rules, and their theorems at these.
use congress.Prelude.{
  ℕ, ◌≡◌, refl, Bool, true, false, none, [], ◌∷◌, contains, lookup, insert, add, occurrences,
  ℕ_discrete, tuple_discrete, pair_discrete, raise, finished, ok, policy_exception,
}
use congress.Tablename.{str_discrete}
use congress.Unify.{variable, term_discrete}
use congress.Builtins.{CategoryMap, empty_map, builtin_of}
use congress.Builtins
use congress.Literals.Equality.{literal_discrete, tablename_discrete, option_discrete}
use congress.Literals.{
  Literal, Rule, names_of, variable_names, update_all, names_in, is_builtin, is_rule, all_atoms,
}
use congress.Safety.{
  difference, subset, take, target_vars, make_safe, first_safe, remove_first, settle,
  make_safe_plus, place, place_all, reorder_for_safety,
}
use congress.Safety.Order.{needs}
use congress.Safety.Complete.{Reordered, reorder_for_safety_lem}
use congress.Safety.Stable.{reorder_for_safety_stable}
use congress.Safety.Heads.{rule_head_safety, unsafe_heads, unsafe_head}

program : Unit {0}
unfolding contains lookup insert add occurrences ℕ_discrete tuple_discrete pair_discrete
    term_discrete str_discrete builtin_of names_of variable_names update_all names_in is_builtin
    is_rule all_atoms difference subset take target_vars make_safe first_safe remove_first settle
    make_safe_plus place place_all reorder_for_safety needs literal_discrete tablename_discrete
    rule_head_safety unsafe_heads Builtins.is_builtin option_discrete
program = tt

abbrev atom : ℕ → ℕ → Bool → Literal ℕ
atom p x negated = record {
  table = record { table = p ∷ []; service = none; modal = none };
  arguments = variable (x ∷ []) ∷ [];
  negated = negated;
  named_arguments = [];
}

-- p(x) :- not q(x), r(x)
abbrev late : Rule ℕ
late = record { heads = atom 1 7 false ∷ []; body = atom 2 7 true ∷ atom 3 7 false ∷ [] }

-- p(x) :- r(x), not q(x)
abbrev early : Rule ℕ
early = record { heads = atom 1 7 false ∷ []; body = atom 3 7 false ∷ atom 2 7 true ∷ [] }

-- p(x) :- not q(y)
abbrev never : Rule ℕ
never = record { heads = atom 1 7 false ∷ []; body = atom 2 8 true ∷ [] }

reorder_late : reorder_for_safety ℕ_discrete empty_map late ≡ finished (ok early)
unfolding program
reorder_late = refl

reorder_never : reorder_for_safety ℕ_discrete empty_map never ≡ finished (raise policy_exception)
unfolding program
reorder_never = refl

head_never : rule_head_safety never ≡ unsafe_head (7 ∷ []) ∷ []
unfolding program
head_never = refl

reorder_for_safety_lem_example :
    Reordered ℕ_discrete empty_map late (reorder_for_safety ℕ_discrete empty_map late)
unfolding program
reorder_for_safety_lem_example = reorder_for_safety_lem ℕ_discrete empty_map late refl

reorder_for_safety_stable_example :
    reorder_for_safety ℕ_discrete empty_map early ≡ finished (ok early)
unfolding program
reorder_for_safety_stable_example =
    reorder_for_safety_stable ℕ_discrete empty_map early (refl, (refl, tt))
