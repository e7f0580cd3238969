-- ===== src/FactSet/Valid.antt =====
-- The invariant of FactSet (factset.py): every index lists exactly the facts. `add`, `remove`,
-- `create_index` and `remove_index` keep it and do not raise, where the facts are wide enough.
use congress.Prelude.{
  ◌≡◌, ◌≢◌, refl, sym, subst, true, not, none, some, List, arith, inl, inr, Bool-cases,
  Option-cases, contains, add, discard, contains-add, contains-discard, add-IsDistinct,
  discard-IsDistinct, discard_absent, discard-append_self, IsDistinct, keys, lookup, insert, Error,
  ok, raise,
}
use congress.FactSet.{
  FactSet, Fact, Columns, Table, Indicies, columns_discrete, fact_discrete, compute_key, put,
  drop_from, bucket, add_fact_to_index, remove_fact_from_index, add_fact, remove_fact,
}
use congress.FactSet.Index.{IsIndexOf, put-IsIndexOf, drop_from-IsIndexOf}
use congress.FactSet.Loops.{Indexes, Visited, for_each_rule}

module _ {V : Type 0} (dec : Discrete V) where
  -- The fact has a value at every column of every index.
  abbrev pub Fits : FactSet V → Fact V → Type 0
  Fits s fact =
      (cols : Columns)
      → contains columns_discrete cols (keys s.indicies) ≡ true
      → compute_key cols fact ≢ none

  pub record IsValid (s : FactSet V) : Type 0 where
    pub distinct : IsDistinct (fact_discrete dec) s.facts
    pub distinct_indicies : IsDistinct columns_discrete (keys s.indicies)
    pub indexed :
        (cols : Columns)
        → contains columns_discrete cols (keys s.indicies) ≡ true
        → Indexes (λ c. IsIndexOf dec c s.facts) s.indicies cols
    pub fitting : (fact : Fact V) → contains (fact_discrete dec) fact s.facts ≡ true → Fits s fact

  -- What an index must satisfy before the visit of a loop over the fact `f`.
  abbrev pub Ready : List (Fact V) → Fact V → Columns → Table V → Type 0
  Ready facts f cols table = IsIndexOf dec cols facts table × (compute_key cols f ≢ none)

  pub add_fact_to_index_keeps :
      (f : Fact V) (facts : List (Fact V)) (cols : Columns) (table : Table V) (ind : Indicies V)
      → lookup columns_discrete cols ind ≡ some table
      → Ready facts f cols table
      → (table' : Table V) × (add_fact_to_index dec f cols ind
          ≡ (ok tt, insert columns_discrete cols table' ind))
        × IsIndexOf dec cols (add (fact_discrete dec) f facts) table'
  unfolding add_fact_to_index
  add_fact_to_index_keeps f facts cols table ind e (h, wide) =
      elim (Option-cases (compute_key cols f)) [
        | inl short ↦ absurd (wide short)
        | inr (key, has_key) ↦ (
          put dec key f table,
          ground arith,
          put-IsIndexOf dec cols key f facts (add (fact_discrete dec) f facts) table has_key
              (λ g. contains-add (fact_discrete dec) g f facts) h,
        )
      ]

  -- A fact of the set is listed under its own key, so `set.remove` finds it.
  listed_there :
      (f : Fact V) (facts : List (Fact V)) (cols : Columns) (key : List V) (table : Table V)
      → contains (fact_discrete dec) f facts ≡ true
      → compute_key cols f ≡ some key
      → IsIndexOf dec cols facts table
      → (listed : List (Fact V)) × (lookup (fact_discrete dec) key table ≡ some listed)
        × (contains (fact_discrete dec) f listed ≡ true)
  unfolding bucket contains
  listed_there f facts cols key table there has_key h =
      elim (Option-cases (lookup (fact_discrete dec) key table)) [
        | inl missing ↦ absurd (ground (arith, h key f))
        | inr (listed, at_key) ↦ (listed, at_key, ground (arith, h key f))
      ]

  remove_fact_from_index_keeps :
      (f : Fact V) (facts : List (Fact V)) (cols : Columns) (table : Table V) (ind : Indicies V)
      → contains (fact_discrete dec) f facts ≡ true
      → lookup columns_discrete cols ind ≡ some table
      → Ready facts f cols table
      → (table' : Table V) × (remove_fact_from_index dec f cols ind
          ≡ (ok tt, insert columns_discrete cols table' ind))
        × IsIndexOf dec cols (discard (fact_discrete dec) f facts) table'
  unfolding remove_fact_from_index
  remove_fact_from_index_keeps f facts cols table ind there e (h, wide) =
      elim (Option-cases (compute_key cols f)) [
        | inl short ↦ absurd (wide short)
        | inr (key, has_key) ↦
            let (listed, at_key, found) = listed_there f facts cols key table there has_key h in
            (
              drop_from dec key f listed table,
              ground arith,
              drop_from-IsIndexOf dec cols key f facts (discard (fact_discrete dec) f facts) listed
                  table has_key at_key (λ g. contains-discard (fact_discrete dec) g f facts) h,
            )
      ]

  -- The state after a loop that kept every index in step with the facts is valid.
  after_loop :
      (s : FactSet V) (facts : List (Fact V)) (ind : Indicies V)
      → IsValid s
      → Visited (λ c t. IsIndexOf dec c facts t) (keys s.indicies) s.indicies ind
      → IsDistinct (fact_discrete dec) facts
      → ((g : Fact V) → contains (fact_discrete dec) g facts ≡ true → Fits s g)
      → IsValid (record { facts = facts; indicies = ind })
  after_loop s facts ind v visited d fits = record {
    distinct = d;
    distinct_indicies =
        subst (IsDistinct columns_discrete) (sym visited.same_keys) v.distinct_indicies;
    indexed = λ cols c. visited.inside cols (rw visited.same_keys at c);
    fitting = λ g there cols c. fits g there cols (rw visited.same_keys at c);
  }

  Fits-add :
      (s : FactSet V) (f : Fact V)
      → IsValid s
      → Fits s f
      → (g : Fact V) → contains (fact_discrete dec) g (add (fact_discrete dec) f s.facts) ≡ true
      → Fits s g
  Fits-add s f v fits g there = elim (fact_discrete dec g f) [
    | yes p ↦ subst (Fits s) (sym p) fits
    | no p ↦ v.fitting g (ground (arith, contains-add (fact_discrete dec) g f s.facts))
  ]

  -- `add` of a fact that is wide enough for the indicies does not raise: it returns whether the
  -- fact is new, the facts are those before and the new one at the end, and every index lists it.
  pub add_fact-IsValid :
      (f : Fact V) (s : FactSet V)
      → IsValid s
      → Fits s f
      → (s' : FactSet V) × (add_fact dec f s
          ≡ (ok (not (contains (fact_discrete dec) f s.facts)), s'))
        × (s'.facts ≡ add (fact_discrete dec) f s.facts)
        × (keys s'.indicies ≡ keys s.indicies)
        × IsValid s'
  unfolding add_fact add
  add_fact-IsValid f s v fits = elim (Bool-cases (contains (fact_discrete dec) f s.facts)) [
    | inl old ↦ (s, ground arith, ground arith, refl, v)
    | inr new ↦
        let (ind, ran, visited) =
          for_each_rule (add_fact_to_index dec f) (Ready s.facts f)
            (λ c t. IsIndexOf dec c (add (fact_discrete dec) f s.facts) t)
            (add_fact_to_index_keeps f s.facts) (keys s.indicies) s.indicies v.distinct_indicies
            (λ cols c. let (t, e, h) = v.indexed cols c in (t, e, (h, fits cols c))) in
        (
          record { facts = add (fact_discrete dec) f s.facts; indicies = ind },
          ground arith,
          refl,
          visited.same_keys,
          after_loop s (add (fact_discrete dec) f s.facts) ind v visited
              (add-IsDistinct (fact_discrete dec) f s.facts v.distinct) (Fits-add s f v fits),
        )
  ]

  -- `remove` does not raise: it returns whether the fact was there, the facts are those before
  -- without it, and no index lists it.
  pub remove_fact-IsValid :
      (f : Fact V) (s : FactSet V)
      → IsValid s
      → (s' : FactSet V) × (remove_fact dec f s ≡ (ok (contains (fact_discrete dec) f s.facts), s'))
        × (s'.facts ≡ discard (fact_discrete dec) f s.facts)
        × (keys s'.indicies ≡ keys s.indicies)
        × IsValid s'
  unfolding remove_fact
  remove_fact-IsValid f s v = elim (Bool-cases (contains (fact_discrete dec) f s.facts)) [
    | inr absent ↦
        (s, ground arith, sym (discard_absent (fact_discrete dec) f s.facts absent), refl, v)
    | inl there ↦
        let (ind, ran, visited) =
          for_each_rule (remove_fact_from_index dec f) (Ready s.facts f)
            (λ c t. IsIndexOf dec c (discard (fact_discrete dec) f s.facts) t)
            (λ c t i. remove_fact_from_index_keeps f s.facts c t i there) (keys s.indicies)
            s.indicies v.distinct_indicies
            (λ cols c. let (t, e, h) = v.indexed cols c in (t, e, (h, v.fitting f there cols c))) in
        (
          record { facts = discard (fact_discrete dec) f s.facts; indicies = ind },
          ground arith,
          refl,
          visited.same_keys,
          after_loop s (discard (fact_discrete dec) f s.facts) ind v visited
              (discard-IsDistinct (fact_discrete dec) f s.facts v.distinct)
              (λ g kept.
                v.fitting g (ground (arith, contains-discard (fact_discrete dec) g f s.facts))),
        )
  ]

  -- Where `add` raises, the facts are those before the call, in their order.
  pub add_fact_raises :
      (f : Fact V) (s : FactSet V) (e : Error)
      → (add_fact dec f s).0 ≡ raise e
      → (add_fact dec f s).1.facts ≡ s.facts
  unfolding add_fact add
  add_fact_raises f s e h = ground (arith, discard-append_self (fact_discrete dec) f s.facts)
