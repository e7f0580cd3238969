-- ===== src/FactSet/Create.antt =====
-- `create_index` and `remove_index` of factset.py keep the invariant.
use congress.Prelude.{
  ◌≡◌, ◌≢◌, refl, sym, ◌∙◌, subst, true, false, ◌||◌, none, some, List, [], ◌∷◌, arith, inl, inr,
  IsDistinct, keys-insert-IsDistinct, contains-keys-insert, lookup-eq-none, contains-keys_of_some,
  Bool-cases, List-cases, contains, add, contains-add, keys, lookup, insert, lookup-insert,
  keys-insert_of_some, ok,
}
use congress.FactSet.{
  FactSet, Fact, Columns, Table, Indicies, columns_discrete, fact_discrete, compute_key, bucket,
  is_sorted, add_fact_to_index, add_all, has_index, create_index,
}
use congress.FactSet.Index.{IsIndexOf}
use congress.FactSet.Valid.{IsValid, add_fact_to_index_keeps}

module _ {V : Type 0} (dec : Discrete V) (cols : Columns) where
  -- What the loop over facts makes of the dictionary: the columns have the index of all facts.
  record Filled (facts : List (Fact V)) (before after : Indicies V) : Type 0 where
    table : Table V
    at_columns : lookup columns_discrete cols after ≡ some table
    lists : IsIndexOf dec cols facts table
    others :
        (j : Columns)
        → j ≢ cols
        → lookup columns_discrete j after ≡ lookup columns_discrete j before
    has_keys : keys after ≡ keys before

  add_all_from :
      (rest : List (Fact V)) (seen all : List (Fact V)) (ind : Indicies V) (table : Table V)
      → lookup columns_discrete cols ind ≡ some table
      → IsIndexOf dec cols seen table
      → ((g : Fact V)
          → contains (fact_discrete dec) g all
            ≡ (contains (fact_discrete dec) g seen || contains (fact_discrete dec) g rest))
      → ((g : Fact V) → contains (fact_discrete dec) g rest ≡ true → compute_key cols g ≢ none)
      → (ind' : Indicies V) × (add_all dec rest cols ind ≡ (ok tt, ind')) × Filled all ind ind'
  unfolding add_all contains
  add_all_from [] seen all ind table e h split wide = (
    ind,
    refl,
    record {
      table = table;
      at_columns = e;
      lists = λ key g. ground (arith, split g, h key g);
      others = λ j ne. refl;
      has_keys = refl;
    },
  )
  add_all_from (f ∷ rest) seen all ind table e h split wide =
      let (table₁, ran, h₁) =
        add_fact_to_index_keeps dec f seen cols table ind e (h, wide f (ground arith)) in
      let ind₁ = insert columns_discrete cols table₁ ind in
      let (ind', rest_ran, filled) =
        add_all_from rest (add (fact_discrete dec) f seen) all ind₁ table₁
          (ground (arith, lookup-insert columns_discrete cols cols table₁ ind)) h₁
          (λ g. ground (arith, split g, contains-add (fact_discrete dec) g f seen))
          (λ g c. wide g (ground arith)) in
      (
        ind',
        ground arith,
        record {
          table = filled.table;
          at_columns = filled.at_columns;
          lists = filled.lists;
          others = λ j ne.
              ground (arith, filled.others j, lookup-insert columns_discrete j cols table₁ ind);
          has_keys = filled.has_keys ∙ keys-insert_of_some columns_discrete cols table₁ ind table e;
        },
      )

  -- The first fact makes the dictionary's entry, so the loop may as well begin with an empty one.
  add_all_fresh :
      (f : Fact V) (rest : List (Fact V)) (ind : Indicies V)
      → lookup columns_discrete cols ind ≡ none
      → add_all dec (f ∷ rest) cols ind
        ≡ add_all dec (f ∷ rest) cols (insert columns_discrete cols [] ind)
  unfolding add_all add_fact_to_index
  add_all_fresh f rest ind h = ground (arith, lookup-insert columns_discrete cols cols [] ind)

  empty-IsIndexOf : IsIndexOf dec cols [] []
  unfolding bucket contains lookup
  empty-IsIndexOf key g = refl

  Filled-IsValid :
      (s : FactSet V) (ind : Indicies V)
      → IsValid dec s
      → ((g : Fact V) → contains (fact_discrete dec) g s.facts ≡ true → compute_key cols g ≢ none)
      → Filled s.facts (insert columns_discrete cols [] s.indicies) ind
      → IsValid dec (record s { indicies = ind })
  Filled-IsValid s ind v wide filled = record {
    distinct = v.distinct;
    distinct_indicies =
        subst (IsDistinct columns_discrete) (sym filled.has_keys)
          (keys-insert-IsDistinct columns_discrete cols [] s.indicies v.distinct_indicies);
    indexed = λ j c. elim (columns_discrete j cols) [
      | yes p ↦ rw p (filled.table, filled.at_columns, filled.lists)
      | no p ↦
          let (t, e, h) = v.indexed j (known j p c) in
          (
            t,
            ground (arith, filled.others j, lookup-insert columns_discrete j cols [] s.indicies),
            h,
          )
    ];
    fitting = λ g there j c. elim (columns_discrete j cols) [
      | yes p ↦ rw p (wide g there)
      | no p ↦ v.fitting g there j (known j p c)
    ];
  }
    where
      known :
          (j : Columns)
          → j ≢ cols
          → contains columns_discrete j (keys ind) ≡ true
          → contains columns_discrete j (keys s.indicies) ≡ true
      known j p c =
          ground
            (arith, filled.has_keys, contains-keys-insert columns_discrete j cols [] s.indicies)

  create_index_new :
      (s : FactSet V) (ind : Indicies V)
      → is_sorted cols ≡ true
      → cols ≢ []
      → contains columns_discrete cols (keys s.indicies) ≡ false
      → add_all dec s.facts cols s.indicies ≡ (ok tt, ind)
      → create_index dec cols s ≡ (ok tt, record s { indicies = ind })
  unfolding create_index has_index
  create_index_new s ind sorted some_columns new ran = elim (List-cases cols) [
    | inl empty ↦ absurd (some_columns empty)
    | inr (i, rest, e) ↦ ground arith
  ]

  -- `create_index` with sorted columns, of which there is at least one and at each of which every
  -- fact has a value, does not raise and leaves the facts alone. The set has the index then, unless it has no facts, and every
  -- index lists exactly the facts.
  pub create_index-IsValid :
      (s : FactSet V)
      → IsValid dec s
      → is_sorted cols ≡ true
      → cols ≢ []
      → ((g : Fact V) → contains (fact_discrete dec) g s.facts ≡ true → compute_key cols g ≢ none)
      → (s' : FactSet V) × (create_index dec cols s ≡ (ok tt, s'))
        × (s'.facts ≡ s.facts)
        × ((s.facts ≢ []) → has_index cols s' ≡ true)
        × IsValid dec s'
  unfolding create_index has_index contains add_all
  create_index-IsValid s v sorted some_columns wide =
      elim (Bool-cases (contains columns_discrete cols (keys s.indicies))) [
        | inl old ↦ (s, ground arith, refl, (λ _. old), v)
        | inr new ↦ elim (List-cases s.facts) [
          | inl empty ↦ (
            s,
            create_index_new s s.indicies sorted some_columns new (rw (empty, add_all)),
            refl,
            (λ h. absurd (h empty)),
            v,
          )
          | inr (f, rest, e) ↦
              let missing = lookup-eq-none columns_discrete cols s.indicies new in
              let (ind, ran, filled) =
                add_all_from s.facts [] s.facts (insert columns_discrete cols [] s.indicies) []
                  (ground (arith, lookup-insert columns_discrete cols cols [] s.indicies))
                  empty-IsIndexOf (λ g. refl) wide in
              (
                record s { indicies = ind },
                create_index_new s ind sorted some_columns new
                    (rw (e, add_all_fresh f rest s.indicies missing) (rw e at ran)),
                refl,
                (λ _.
                    contains-keys_of_some columns_discrete cols ind filled.table filled.at_columns),
                Filled-IsValid s ind v wide filled,
              )
        ]
      ]
