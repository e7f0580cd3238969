-- ===== src/RuleSet/Match.antt =====
-- `get_rules` of a RuleSet for a literal.
use congress.Prelude.{
  ℕ, ◌+◌, ◌≤◌, ◌≡◌, ◌≢◌, refl, ap, sym, subst, ◌∙◌, true, false, ◌&&◌, ◌||◌, some, none, List, [],
  ◌∷◌, map, arith, contains, lookup, insert, lookup-insert, inl, inr, Bool-cases, is_empty, ok,
}
use congress.Tablename.{Str, str_discrete}
use congress.Unify.{Term, variable, object}
use congress.FactSet.{
  FactSet, Fact, Columns, fact_discrete, compute_key, is_sorted, has_index, find,
}
use congress.FactSet.Valid
use congress.FactSet.Create.{create_index-IsValid}
use congress.FactSet.Find.{find_exact, is_match}
use congress.RuleSet.{
  RuleSet, bound_columns, partial_fact, find_facts, get_rules, rules_at, has_fact,
}
use congress.RuleSet.Entries.{IsValid, insert-facts-IsValid}

module _ {V R X : Type 0} (dv : Discrete V) (dr : Discrete R) where
  abbrev pub columns : ℕ → List (Term X V) → Columns
  columns i arguments = bound_columns dv dr i arguments

  columns-partial_fact :
      (i : ℕ) (arguments : List (Term X V))
      → map (λ p. p.0) (partial_fact dv dr i arguments) ≡ columns i arguments
  unfolding bound_columns partial_fact
  columns-partial_fact i [] = refl
  columns-partial_fact i (variable x ∷ arguments) = columns-partial_fact (i + 1) arguments
  columns-partial_fact i (object v ∷ arguments) =
      ap (λ cs. i ∷ cs) (columns-partial_fact (i + 1) arguments)

  is_sorted-cons :
      (i j : ℕ) (arguments : List (Term X V))
      → i ≤ j
      → is_sorted (columns j arguments) ≡ true
      → is_sorted (i ∷ columns j arguments) ≡ true
  unfolding bound_columns is_sorted
  is_sorted-cons i j [] h e = refl
  is_sorted-cons i j (variable x ∷ arguments) h e =
      is_sorted-cons i (j + 1) arguments (omega arith) e
  is_sorted-cons i j (object v ∷ arguments) h e = ground (arith, h, e)

  columns-IsSorted : (i : ℕ) (arguments : List (Term X V)) → is_sorted (columns i arguments) ≡ true
  unfolding bound_columns is_sorted
  columns-IsSorted i [] = refl
  columns-IsSorted i (variable x ∷ arguments) = columns-IsSorted (i + 1) arguments
  columns-IsSorted i (object v ∷ arguments) =
      is_sorted-cons i (i + 1) arguments (omega arith) (columns-IsSorted (i + 1) arguments)

  -- The facts of a valid set that match a literal, by an index that is created.
  find_facts_lem :
      (arguments : List (Term X V)) (own : FactSet V)
      → Valid.IsValid dv own
      → ((g : Fact V)
          → contains (fact_discrete dv) g own.facts ≡ true
          → compute_key (columns 0 arguments) g ≢ none)
      → (found : List (Fact V)) × (own' : FactSet V) × (find_facts dv dr arguments own
          ≡ (ok found, own'))
        × Valid.IsValid dv own'
        × (own'.facts ≡ own.facts)
        × ((g : Fact V)
            → contains (fact_discrete dv) g found ≡ (
                contains (fact_discrete dv) g own.facts
                && is_match dv (partial_fact dv dr 0 arguments) g))
  unfolding find_facts
  find_facts_lem arguments own v wide =
      elim (Bool-cases (is_empty (columns 0 arguments) || has_index (columns 0 arguments) own)) [
        | inl e ↦
            let (found, run, has) = found_in own v wide in
            (found, own, ground (arith, e, run), v, refl, has)
        | inr e ↦
            let (own', created, same, _, v') =
              create_index-IsValid dv (columns 0 arguments) own v (columns-IsSorted 0 arguments)
                (ground (arith, e)) wide in
            let (found, run, has) =
              found_in own' v'
                (λ g c. wide g (ap (contains (fact_discrete dv) g) (sym same) ∙ c)) in
            (
              found,
              own',
              ground (arith, e, created, run),
              v',
              same,
              λ g. ground (arith, has g, same),
            )
      ]
    where
      found_in :
          (mine : FactSet V)
          → Valid.IsValid dv mine
          → ((g : Fact V)
              → contains (fact_discrete dv) g mine.facts ≡ true
              → compute_key (columns 0 arguments) g ≢ none)
          → (found : List (Fact V)) × ((find dv (partial_fact dv dr 0 arguments) mine).1 ≡ ok found)
            × ((g : Fact V)
                → contains (fact_discrete dv) g found ≡ (
                    contains (fact_discrete dv) g mine.facts
                    && is_match dv (partial_fact dv dr 0 arguments) g))
      found_in mine valid enough =
          let (n, found, run, has) =
            find_exact dv (partial_fact dv dr 0 arguments) mine valid (λ g c.
              subst (λ cs. compute_key cs g ≢ none) (sym (columns-partial_fact 0 arguments))
                (enough g c)) in
          (found, ap (λ r. r.1) run, has)

  -- `get_rules` for a literal that is not negated, with facts under the key that are wide enough for
  -- the bound arguments, raises nothing; the facts of the rules that it returns without a body are
  -- exactly those under the key that match the literal. It changes no fact and no rule, and keeps
  -- the RuleSet valid.
  pub get_rules_lem :
      (key : Str) (arguments : List (Term X V)) (own : FactSet V) (s : RuleSet V R)
      → IsValid dv dr s
      → lookup str_discrete key s.facts ≡ some own
      → ((g : Fact V)
          → contains (fact_discrete dv) g own.facts ≡ true
          → compute_key (columns 0 arguments) g ≢ none)
      → (found : List (Fact V)) × (s' : RuleSet V R) × (get_rules dv dr key
            (some (arguments, false))
            s
          ≡ (ok (found, rules_at dv dr key s), s'))
        × IsValid dv dr s'
        × (s'.rules ≡ s.rules)
        × ((k : Str) (g : Fact V) → has_fact dv dr k g s' ≡ has_fact dv dr k g s)
        × ((g : Fact V)
            → contains (fact_discrete dv) g found
              ≡ (has_fact dv dr key g s && is_match dv (partial_fact dv dr 0 arguments) g))
  unfolding get_rules has_fact rules_at
  get_rules_lem key arguments own s v e wide =
      let (found, own', run, valid, same, has) =
        find_facts_lem arguments own (v.0 key own e) wide in
      (
        found,
        record s { facts = insert str_discrete key own' s.facts },
        ground (arith, e, run),
        insert-facts-IsValid dv dr key own' s v valid,
        refl,
        λ k g. ground (arith, e, same, lookup-insert str_discrete k key own' s.facts),
        λ g. ground (arith, e, has g),
      )
