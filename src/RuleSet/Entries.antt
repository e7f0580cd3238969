-- ===== src/RuleSet/Entries.antt =====
-- A RuleSet as a set of entries: facts and rules under keys.
use congress.Prelude.{
  ◌≡◌, refl, subst, ap, Bool, true, false, ◌&&◌, ◌||◌, not, some, List, [], ◌∷◌, arith, ite,
  contains, contains-add, contains-discard, is_empty, lookup, insert, erase, lookup-insert,
  lookup-erase, inl, inr, Option-cases, Bool-cases, ok,
}
use congress.Tablename.{Str, str_discrete}
use congress.FactSet.{FactSet, Fact, fact_discrete}
use congress.FactSet.Valid
use congress.FactSet.Valid.{Fits, add_fact-IsValid, remove_fact-IsValid}
use congress.OrderedSet.{OrderedSet}
use congress.OrderedSet.Refines.{Represents}
use congress.RuleSet.{RuleSet, empty_facts, facts_at, add_to_facts, discard_from_facts, has_fact}

module _ {V R : Type 0} (dv : Discrete V) (dr : Discrete R) where
  abbrev pub IsValid : RuleSet V R → Type 0
  IsValid s =
      ((key : Str) (own : FactSet V)
        → lookup str_discrete key s.facts ≡ some own
        → Valid.IsValid dv own)
      × ((key : Str) (own : OrderedSet R)
          → lookup str_discrete key s.rules ≡ some own
          → (l : List R) × Represents dr own l)

  -- A fact is wide enough for the indices of the facts under a key.
  abbrev pub IsWide : Str → Fact V → RuleSet V R → Type 0
  IsWide key fact s =
      (own : FactSet V) → lookup str_discrete key s.facts ≡ some own → Fits dv own fact

  abbrev pub is_at : {A : Type 0} → Discrete A → A → A → Bool
  is_at dec x y = ite (dec x y) true false

  empty_facts-IsValid : Valid.IsValid dv empty_facts
  unfolding contains
  empty_facts-IsValid = record {
    distinct = tt;
    distinct_indicies = tt;
    indexed = λ cols h. cc;
    fitting = λ fact h. cc;
  }

  empty_facts-Fits : (fact : Fact V) → Fits dv empty_facts fact
  unfolding contains
  empty_facts-Fits fact cols h = cc

  -- To write valid facts at a key keeps the others.
  pub insert-facts-IsValid :
      (key : Str) (own : FactSet V) (s : RuleSet V R)
      → IsValid s
      → Valid.IsValid dv own
      → IsValid (record s { facts = insert str_discrete key own s.facts })
  insert-facts-IsValid key own s v w = (
    λ k mine e. elim (str_discrete k key) [
      | yes p ↦
          let same : own ≡ mine =
            ground (arith, e, p, lookup-insert str_discrete k key own s.facts) in
          subst (Valid.IsValid dv) same w
      | no n ↦ v.0 k mine (ground (arith, e, n, lookup-insert str_discrete k key own s.facts))
    ],
    v.1,
  )

  pub insert-rules-IsValid :
      (key : Str) (own : OrderedSet R) (l : List R) (s : RuleSet V R)
      → IsValid s
      → Represents dr own l
      → IsValid (record s { rules = insert str_discrete key own s.rules })
  insert-rules-IsValid key own l s v w = (
    v.0,
    λ k mine e. elim (str_discrete k key) [
      | yes p ↦
          let same : own ≡ mine =
            ground (arith, e, p, lookup-insert str_discrete k key own s.rules) in
          (l, subst (λ o. Represents dr o l) same w)
      | no n ↦ v.1 k mine (ground (arith, e, n, lookup-insert str_discrete k key own s.rules))
    ],
  )

  erase-facts-IsValid :
      (key : Str) (s : RuleSet V R)
      → IsValid s
      → IsValid (record s { facts = erase str_discrete key s.facts })
  erase-facts-IsValid key s v =
      (λ k own e. v.0 k own (ground (arith, e, lookup-erase str_discrete k key s.facts)), v.1)

  contains_of_is_empty :
      (f : Fact V) (facts : List (Fact V))
      → is_empty facts ≡ true
      → contains (fact_discrete dv) f facts ≡ false
  unfolding contains
  contains_of_is_empty f [] h = refl
  contains_of_is_empty f (g ∷ facts) h = cc

  facts_at-IsValid :
      (key : Str) (s : RuleSet V R) → IsValid s → Valid.IsValid dv (facts_at dv dr key s)
  unfolding facts_at
  facts_at-IsValid key s v = elim (Option-cases (lookup str_discrete key s.facts)) [
    | inl e ↦ rw (e, facts_at) empty_facts-IsValid
    | inr (own, e) ↦ rw (e, facts_at) (v.0 key own e)
  ]

  facts_at-Fits :
      (key : Str) (fact : Fact V) (s : RuleSet V R)
      → IsWide key fact s
      → Fits dv (facts_at dv dr key s) fact
  unfolding facts_at
  facts_at-Fits key fact s wide = elim (Option-cases (lookup str_discrete key s.facts)) [
    | inl e ↦ rw (e, facts_at) (empty_facts-Fits fact)
    | inr (own, e) ↦ rw (e, facts_at) (wide own e)
  ]

  pub contains-facts_at :
      (key : Str) (f : Fact V) (s : RuleSet V R)
      → contains (fact_discrete dv) f (facts_at dv dr key s).facts ≡ has_fact dv dr key f s
  unfolding facts_at has_fact contains
  contains-facts_at key f s = ground arith

  -- `add` under a key returns whether the fact is new, and adds this fact and nothing else.
  pub add_to_facts_lem :
      (key : Str) (fact : Fact V) (s : RuleSet V R)
      → IsValid s
      → IsWide key fact s
      → (s' : RuleSet V R) × (add_to_facts dv dr key fact s
          ≡ (ok (not (has_fact dv dr key fact s)), s'))
        × IsValid s'
        × (s'.rules ≡ s.rules)
        × ((k : Str) (f : Fact V)
            → has_fact dv dr k f s' ≡ (
                is_at str_discrete k key && is_at (fact_discrete dv) f fact
                || has_fact dv dr k f s))
  unfolding add_to_facts has_fact
  add_to_facts_lem key fact s v wide =
      let (own, ran, facts, _, valid) =
        add_fact-IsValid dv fact (facts_at dv dr key s) (facts_at-IsValid key s v)
          (facts_at-Fits key fact s wide) in
      (
        record s { facts = insert str_discrete key own s.facts },
        ground (arith, ran, contains-facts_at key fact s),
        insert-facts-IsValid key own s v valid,
        refl,
        λ k f. ground (
          arith,
          facts,
          contains-facts_at key f s,
          contains-add (fact_discrete dv) f fact (facts_at dv dr key s).facts,
          lookup-insert str_discrete k key own s.facts,
        ),
      )

  -- `remove` under a key returns whether the fact is there, and drops this fact and nothing else.
  pub discard_from_facts_lem :
      (key : Str) (fact : Fact V) (s : RuleSet V R)
      → IsValid s
      → (s' : RuleSet V R) × (discard_from_facts dv dr key fact s
          ≡ (ok (has_fact dv dr key fact s), s'))
        × IsValid s'
        × (s'.rules ≡ s.rules)
        × ((k : Str) (f : Fact V)
            → has_fact dv dr k f s' ≡ (
                not (is_at str_discrete k key && is_at (fact_discrete dv) f fact)
                && has_fact dv dr k f s))
  unfolding discard_from_facts has_fact contains
  discard_from_facts_lem key fact s v = elim (Option-cases (lookup str_discrete key s.facts)) [
    | inl e ↦ (s, ground (arith, e), v, refl, λ k f. ground (arith, e))
    | inr (own, e) ↦
        let (own', ran, facts, _, valid) = remove_fact-IsValid dv fact own (v.0 key own e) in
        elim (Bool-cases (is_empty own'.facts)) [
          | inl last ↦ (
            record s { facts = erase str_discrete key (insert str_discrete key own' s.facts) },
            ground (arith, e, ran, last),
            erase-facts-IsValid key (record s { facts = insert str_discrete key own' s.facts })
                (insert-facts-IsValid key own' s v valid),
            refl,
            λ k f. ground (
              arith,
              e,
              last,
              ap (contains (fact_discrete dv) f) facts,
              contains_of_is_empty f own'.facts,
              contains-discard (fact_discrete dv) f fact own.facts,
              lookup-insert str_discrete k key own' s.facts,
              lookup-erase str_discrete k key (insert str_discrete key own' s.facts),
            ),
          )
          | inr more ↦ (
            record s { facts = insert str_discrete key own' s.facts },
            ground (arith, e, ran, more),
            insert-facts-IsValid key own' s v valid,
            refl,
            λ k f. ground (
              arith,
              e,
              ap (contains (fact_discrete dv) f) facts,
              contains-discard (fact_discrete dv) f fact own.facts,
              lookup-insert str_discrete k key own' s.facts,
            ),
          )
        ]
  ]
