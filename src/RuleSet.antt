-- ===== src/RuleSet.antt =====
-- The class RuleSet of congress/datalog/ruleset.py: for each key, which is the name of a table, a
-- FactSet and an OrderedSet of rules. A Fact is the tuple of its values, and its table is the key.
-- A rule that is no fact is only compared here; it is of a type whose equality, which stands for
-- `==` of rules, is decided.
pub mod Entries
pub mod Rules
pub mod Laws
pub mod Match
mod Tests
use congress.Prelude.{
  ℕ, zero, suc, ◌+◌, Bool, true, false, ◌&&◌, ◌||◌, not, Option, none, some, List, [], ◌∷◌, ◌++◌,
  if◌then◌else◌, is_empty, contains, Dict, keys, lookup, insert, erase, Result, ok, raise,
  attribute_error, Action,
}
use congress.Tablename.{Str, str_discrete}
use congress.Unify.{Term, variable, object}
use congress.FactSet.{
  FactSet, Fact, Columns, PartialFact, fact_discrete, add_fact, remove_fact, has_index,
  create_index, find,
}
use congress.OrderedSet.{OrderedSet, init, insert_key, discard_key, has, len, iter}

pub record RuleSet (V R : Type 0) : Type 0 where
  pub facts : Dict Str (FactSet V)
  pub rules : Dict Str (OrderedSet R)

abbrev pub empty_rule_set : {V R : Type 0} → RuleSet V R
empty_rule_set = record { facts = []; rules = [] }

abbrev pub empty_facts : {V : Type 0} → FactSet V
empty_facts = record { facts = []; indicies = [] }

-- What the methods are called with: a Fact, a Literal by the names of its arguments, or a Rule by
-- whether it has a body, whether its head is negated, and the names of the arguments of its head.
pub data RuleItem (V R : Type 0) : Type 0 where
  of_fact : Fact V → RuleItem V R
  of_atom : Fact V → RuleItem V R
  of_formula : (has_body negated_head : Bool) → Fact V → R → RuleItem V R

module _ {V R : Type 0} (dv : Discrete V) (dr : Discrete R) where
  -- The facts under a key, none where it is not there.
  pub facts_at : Str → RuleSet V R → FactSet V
  facts_at key s = elim (lookup str_discrete key s.facts) [ none ↦ empty_facts | some own ↦ own ]

  -- `if key not in self.facts: self.facts[key] = FactSet()`, `self.facts[key].add(fact)`
  pub add_to_facts : Str → Fact V → Action (RuleSet V R) Bool
  add_to_facts key fact s =
      let (r, own) = add_fact dv fact (facts_at key s) in
      (r, record s { facts = insert str_discrete key own s.facts })

  pub add_to_rules : Str → R → Action (RuleSet V R) Bool
  add_to_rules key rule s = elim (lookup str_discrete key s.rules) [
    | some own ↦
        let (own', changed) = insert_key dr rule own in
        (ok changed, record s { rules = insert str_discrete key own' s.rules })
    | none ↦
        (ok true, record s { rules = insert str_discrete key (insert_key dr rule init).0 s.rules })
  ]

  -- `add_rule`, which is not called with a Literal.
  pub add_rule : Str → RuleItem V R → Action (RuleSet V R) Bool
  add_rule key (of_fact fact) s = add_to_facts key fact s
  add_rule key (of_atom fact) s = (raise attribute_error, s)
  add_rule key (of_formula has_body negated_head fact rule) s =
      if not has_body && not negated_head then add_to_facts key fact s else add_to_rules key rule s

  pub discard_from_facts : Str → Fact V → Action (RuleSet V R) Bool
  discard_from_facts key fact s = elim (lookup str_discrete key s.facts) [
    | none ↦ (ok false, s)
    | some own ↦
        let (r, own') = remove_fact dv fact own in
        elim r [
          | raise e ↦ (raise e, record s { facts = insert str_discrete key own' s.facts })
          | ok changed ↦ (
            ok changed,
            record s {
              facts =
                  if is_empty own'.facts
                  then erase str_discrete key (insert str_discrete key own' s.facts)
                  else insert str_discrete key own' s.facts;
            },
          )
        ]
  ]

  pub discard_from_rules : Str → R → Action (RuleSet V R) Bool
  discard_from_rules key rule s = elim (lookup str_discrete key s.rules) [
    | none ↦ (ok false, s)
    | some own ↦
        let (own', changed) = discard_key dr rule own in
        (
          ok changed,
          record s {
            rules =
                if is_empty own'.keys
                then erase str_discrete key (insert str_discrete key own' s.rules)
                else insert str_discrete key own' s.rules;
          },
        )
  ]

  -- `discard_rule`, which is not called with a Literal.
  pub discard_rule : Str → RuleItem V R → Action (RuleSet V R) Bool
  discard_rule key (of_fact fact) s = discard_from_facts key fact s
  discard_rule key (of_atom fact) s = (raise attribute_error, s)
  discard_rule key (of_formula has_body negated_head fact rule) s =
      if has_body then discard_from_rules key rule s else discard_from_facts key fact s

  pub has_fact : Str → Fact V → RuleSet V R → Bool
  has_fact key fact s = elim (lookup str_discrete key s.facts) [
    | none ↦ false
    | some own ↦ contains (fact_discrete dv) fact own.facts
  ]

  pub has_rule : Str → R → RuleSet V R → Bool
  has_rule key rule s = elim (lookup str_discrete key s.rules) [
    | none ↦ false
    | some own ↦ has dr rule own
  ]

  -- `contains`
  pub has_item : Str → RuleItem V R → RuleSet V R → Bool
  has_item key (of_fact fact) s = has_fact key fact s
  has_item key (of_atom fact) s = has_fact key fact s
  has_item key (of_formula has_body negated_head fact rule) s =
      if has_body then has_rule key rule s else has_fact key fact s

  -- `keys` and `__contains__`
  pub all_keys : RuleSet V R → List Str
  all_keys s = keys s.facts ++ keys s.rules

  pub has_key : Str → RuleSet V R → Bool
  has_key key s =
      contains str_discrete key (keys s.facts) || contains str_discrete key (keys s.rules)

  -- The columns of the arguments that are no variables, and their names.
  pub bound_columns : {X : Type 0} → ℕ → List (Term X V) → Columns
  bound_columns i [] = []
  bound_columns i (variable x ∷ arguments) = bound_columns (i + 1) arguments
  bound_columns i (object v ∷ arguments) = i ∷ bound_columns (i + 1) arguments

  pub partial_fact : {X : Type 0} → ℕ → List (Term X V) → PartialFact V
  partial_fact i [] = []
  partial_fact i (variable x ∷ arguments) = partial_fact (i + 1) arguments
  partial_fact i (object v ∷ arguments) = (i, v) ∷ partial_fact (i + 1) arguments

  pub rules_at : Str → RuleSet V R → List R
  rules_at key s = elim (lookup str_discrete key s.rules) [ none ↦ [] | some own ↦ iter own ]

  -- The facts for a literal that is not negated, by an index that is created where there is none.
  pub find_facts : {X : Type 0} → List (Term X V) → Action (FactSet V) (List (Fact V))
  find_facts arguments own =
      let columns = bound_columns 0 arguments in
      let (r, own') =
        (if is_empty columns || has_index columns own
          then (ok tt, own)
          else create_index dv columns own) in
      elim r [
        | raise e ↦ (raise e, own')
        | ok _ ↦ ((find dv (partial_fact 0 arguments) own').1, own')
      ]

  -- `get_rules`, with the facts of the returned rules without a body, and the other rules. The
  -- literal is its arguments and whether it is negated.
  pub get_rules :
      {X : Type 0}
      → Str
      → Option (List (Term X V) × Bool)
      → Action (RuleSet V R) (List (Fact V) × List R)
  get_rules key none s = (ok ((facts_at key s).facts, rules_at key s), s)
  get_rules key (some (arguments, negated)) s = elim (lookup str_discrete key s.facts) [
    | none ↦ (ok ([], rules_at key s), s)
    | some own ↦
        if negated
        then (ok (own.facts, rules_at key s), s)
        else (let (r, own') = find_facts arguments own in
            let s' = record s { facts = insert str_discrete key own' s.facts } in
            elim r [ raise e ↦ (raise e, s') | ok found ↦ (ok (found, rules_at key s'), s') ])
  ]

  -- `clear_table` and `clear`
  pub clear_table : Str → RuleSet V R → RuleSet V R
  clear_table table s = record {
    facts = insert str_discrete table empty_facts s.facts;
    rules = insert str_discrete table init s.rules;
  }

  pub clear : RuleSet V R → RuleSet V R
  clear s = empty_rule_set
