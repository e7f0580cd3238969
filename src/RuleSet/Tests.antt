-- ===== src/RuleSet/Tests.antt =====
-- Runs of a small RuleSet, and its theorems at it. Rules are numbers.
use congress.Prelude.{
  ℕ, ◌≡◌, ◌≢◌, refl, subst, arith, true, false, ◌&&◌, not, none, some, List, [], ◌∷◌, ok, contains,
  lookup, insert, erase, add, tuple_discrete, ℕ_discrete,
}
use congress.Tablename.{Str, str_discrete}
use congress.Unify.{Term, variable, object}
use congress.FactSet.{FactSet, Fact, fact_discrete, compute_key}
use congress.FactSet.Valid
use congress.FactSet.Find.{is_match}
use congress.RuleSet.{
  RuleSet, empty_rule_set, RuleItem, of_fact, of_formula, add_rule, add_to_facts, add_to_rules,
  facts_at, discard_rule, has_item, has_fact, has_rule, get_rules, bound_columns, partial_fact,
  rules_at,
}
use congress.RuleSet.Entries.{IsValid, IsWide}
use congress.RuleSet.Laws.{
  fact_entry, has_entry, HasAdded, HasDropped, add_rule_lem, discard_rule_lem,
}
use congress.RuleSet.Match.{columns, get_rules_lem}

program : Unit {0}
unfolding add_rule add_to_facts add_to_rules facts_at has_item has_fact has_rule contains lookup
    insert erase tuple_discrete ℕ_discrete add
program = tt

abbrev p : Str
p = 112 ∷ []

abbrev Small : Type 0
Small = RuleSet ℕ ℕ

empty-IsValid : IsValid {V = ℕ} {R = ℕ} ℕ_discrete ℕ_discrete empty_rule_set
unfolding lookup
empty-IsValid = (λ k own e. cc, λ k own e. cc)

-- A rule without a body whose head is negated is stored as a rule, and looked for as a fact: it is
-- not found, nor discarded.
negated : RuleItem ℕ ℕ
negated = of_formula false true (7 ∷ []) 1

lost :
    has_item ℕ_discrete ℕ_discrete p negated
      (add_rule ℕ_discrete ℕ_discrete p negated empty_rule_set).1
    ≡ false
unfolding program negated
lost = refl

empty-IsWide : (fact : Fact ℕ) → IsWide {V = ℕ} {R = ℕ} ℕ_discrete ℕ_discrete p fact empty_rule_set
unfolding lookup
empty-IsWide fact own e = cc

add_rule_lem_example :
    (s' : Small) × (add_rule ℕ_discrete ℕ_discrete p (of_fact (7 ∷ 8 ∷ [])) empty_rule_set ≡ (
      ok (not (has_entry {R = ℕ} ℕ_discrete ℕ_discrete p (fact_entry (7 ∷ 8 ∷ [])) empty_rule_set)),
      s',
    ))
    × IsValid ℕ_discrete ℕ_discrete s'
    × HasAdded ℕ_discrete ℕ_discrete p (fact_entry (7 ∷ 8 ∷ [])) empty_rule_set s'
add_rule_lem_example =
    add_rule_lem ℕ_discrete ℕ_discrete p (of_fact (7 ∷ 8 ∷ [])) (fact_entry (7 ∷ 8 ∷ []))
      empty_rule_set refl empty-IsValid (empty-IsWide (7 ∷ 8 ∷ []))

-- p(7, 8)
small : Small
small = add_rule_lem_example.0

small-IsValid : IsValid ℕ_discrete ℕ_discrete small
unfolding small
small-IsValid = add_rule_lem_example.2

discard_rule_lem_example :
    (s' : Small) × (discard_rule ℕ_discrete ℕ_discrete p (of_fact (7 ∷ 8 ∷ [])) small
      ≡ (ok (has_item ℕ_discrete ℕ_discrete p (of_fact (7 ∷ 8 ∷ [])) small), s'))
    × (has_item ℕ_discrete ℕ_discrete p (of_fact (7 ∷ 8 ∷ [])) small
        ≡ has_entry ℕ_discrete ℕ_discrete p (fact_entry (7 ∷ 8 ∷ [])) small)
    × IsValid ℕ_discrete ℕ_discrete s'
    × HasDropped ℕ_discrete ℕ_discrete p (fact_entry (7 ∷ 8 ∷ [])) small s'
discard_rule_lem_example =
    discard_rule_lem ℕ_discrete ℕ_discrete p (of_fact (7 ∷ 8 ∷ [])) small refl small-IsValid

abbrev plain : FactSet ℕ
plain = record { facts = (7 ∷ 8 ∷ []) ∷ []; indicies = [] }

abbrev indexless : Small
indexless = record { facts = (p, plain) ∷ []; rules = [] }

plain-IsValid : Valid.IsValid ℕ_discrete plain
unfolding program
plain-IsValid = record {
  distinct = (refl, tt);
  distinct_indicies = tt;
  indexed = λ cols h. cc;
  fitting = λ fact c cols h. cc;
}

indexless-IsValid : IsValid ℕ_discrete ℕ_discrete indexless
unfolding lookup
indexless-IsValid = (
  λ key own e.
      let same : plain ≡ own = ground (arith, e) in
      subst (Valid.IsValid ℕ_discrete) same plain-IsValid,
  λ key own e. cc,
)

indexless-lookup : lookup str_discrete p indexless.facts ≡ some plain
unfolding program
indexless-lookup = refl

-- p(x, 8)
abbrev arguments : List (Term ℕ ℕ)
arguments = variable 0 ∷ object 8 ∷ []

plain-wide :
    (g : Fact ℕ)
    → contains (fact_discrete ℕ_discrete) g plain.facts ≡ true
    → compute_key (columns {R = ℕ} ℕ_discrete ℕ_discrete 0 arguments) g ≢ none
unfolding contains compute_key bound_columns
plain-wide g c =
    let same : 7 ∷ 8 ∷ [] ≡ g = ground (arith, c) in
    subst (λ f. compute_key (1 ∷ []) f ≢ none) same (λ e. cc)

get_rules_lem_example :
    (found : List (Fact ℕ)) × (s' : Small) × (get_rules ℕ_discrete ℕ_discrete p
        (some (arguments, false))
        indexless
      ≡ (ok (found, rules_at ℕ_discrete ℕ_discrete p indexless), s'))
    × IsValid ℕ_discrete ℕ_discrete s'
    × (s'.rules ≡ indexless.rules)
    × ((k : Str) (g : Fact ℕ)
        → has_fact ℕ_discrete ℕ_discrete k g s' ≡ has_fact ℕ_discrete ℕ_discrete k g indexless)
    × ((g : Fact ℕ)
        → contains (fact_discrete ℕ_discrete) g found ≡ (
            has_fact ℕ_discrete ℕ_discrete p g indexless
            && is_match ℕ_discrete (partial_fact {R = ℕ} ℕ_discrete ℕ_discrete 0 arguments) g))
get_rules_lem_example =
    get_rules_lem ℕ_discrete ℕ_discrete p arguments plain indexless indexless-IsValid
      indexless-lookup plain-wide
