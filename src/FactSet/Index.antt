-- ===== src/FactSet/Index.antt =====
-- What an index of factset.py lists under each key, and how its two updates change that.
use congress.Prelude.{
  ◌≡◌, refl, Bool, true, false, ◌&&◌, none, some, List, [], ◌∷◌, ite, arith, Option-cases, inl, inr,
  is_empty, contains, add, discard, contains-add, contains-discard, lookup, insert, lookup-insert,
  lookup-erase,
}
use congress.FactSet.{Fact, Columns, Table, compute_key, fact_discrete, bucket, put, drop_from}

module _ {V : Type 0} (dec : Discrete V) where
  -- The fact has the values `key` at the columns.
  abbrev pub is_keyed : Columns → List V → Fact V → Bool
  is_keyed cols key fact = elim (compute_key cols fact) [
    | none ↦ false
    | some k ↦ ite (fact_discrete dec k key) true false
  ]

  -- Under each key the index lists exactly the facts of the set that have the key's values.
  abbrev pub IsIndexOf : Columns → List (Fact V) → Table V → Type 0
  IsIndexOf cols facts table =
      (key : List V) (fact : Fact V)
      → contains (fact_discrete dec) fact (bucket dec key table)
        ≡ (contains (fact_discrete dec) fact facts && is_keyed cols key fact)

  pub contains-bucket-put :
      (j key : List V) (g f : Fact V) (table : Table V)
      → contains (fact_discrete dec) g (bucket dec j (put dec key f table))
        ≡ ite
            (fact_discrete dec j key)
            (ite (fact_discrete dec g f) true (contains (fact_discrete dec) g (bucket dec j table)))
            (contains (fact_discrete dec) g (bucket dec j table))
  unfolding bucket put contains
  contains-bucket-put j key g f table = elim (Option-cases (lookup (fact_discrete dec) key table)) [
    | inl missing ↦ ground (arith, lookup-insert (fact_discrete dec) j key (f ∷ []) table)
    | inr (facts, e) ↦ ground (
      arith,
      lookup-insert (fact_discrete dec) j key (add (fact_discrete dec) f facts) table,
      contains-add (fact_discrete dec) g f facts,
    )
  ]

  contains_empty :
      (g : Fact V) (facts : List (Fact V))
      → is_empty facts ≡ true
      → contains (fact_discrete dec) g facts ≡ false
  unfolding contains
  contains_empty g [] h = refl
  contains_empty g (f ∷ facts) h = cc

  pub contains-bucket-drop_from :
      (j key : List V) (g f : Fact V) (facts : List (Fact V)) (table : Table V)
      → lookup (fact_discrete dec) key table ≡ some facts
      → contains (fact_discrete dec) g (bucket dec j (drop_from dec key f facts table))
        ≡ ite
            (fact_discrete dec j key)
            (ite
              (fact_discrete dec g f)
              false
              (contains (fact_discrete dec) g (bucket dec j table)))
            (contains (fact_discrete dec) g (bucket dec j table))
  unfolding bucket drop_from contains
  contains-bucket-drop_from j key g f facts table e =
      let rest = discard (fact_discrete dec) f facts in
      ground (
        arith,
        lookup-insert (fact_discrete dec) j key rest table,
        lookup-erase (fact_discrete dec) j key (insert (fact_discrete dec) key rest table),
        contains_empty g rest,
        contains-discard (fact_discrete dec) g f facts,
      )

  -- To list a new fact in the index of a set gives the index of the set with the fact.
  pub put-IsIndexOf :
      (cols : Columns) (key : List V) (f : Fact V) (facts facts' : List (Fact V)) (table : Table V)
      → compute_key cols f ≡ some key
      → ((g : Fact V)
          → contains (fact_discrete dec) g facts'
            ≡ ite (fact_discrete dec g f) true (contains (fact_discrete dec) g facts))
      → IsIndexOf cols facts table
      → IsIndexOf cols facts' (put dec key f table)
  put-IsIndexOf cols key f facts facts' table e more h j g =
      ground (arith, contains-bucket-put j key g f table, more g, h j g)

  -- To drop a fact from the index of a set gives the index of the set without the fact.
  pub drop_from-IsIndexOf :
      (cols : Columns) (key : List V) (f : Fact V) (facts facts' listed : List (Fact V))
      (table : Table V)
      → compute_key cols f ≡ some key
      → lookup (fact_discrete dec) key table ≡ some listed
      → ((g : Fact V)
          → contains (fact_discrete dec) g facts'
            ≡ ite (fact_discrete dec g f) false (contains (fact_discrete dec) g facts))
      → IsIndexOf cols facts table
      → IsIndexOf cols facts' (drop_from dec key f listed table)
  drop_from-IsIndexOf cols key f facts facts' listed table e at_key fewer h j g =
      ground (arith, contains-bucket-drop_from j key g f listed table, fewer g, h j g)
