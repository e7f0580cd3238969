-- ===== src/FactSet/Loops.antt =====
-- A proof rule for the loops over the indicies in `add` and `remove` of factset.py.
use congress.Prelude.{
  ◌≡◌, refl, sym, ◌∙◌, subst, if_neg, true, false, some, List, [], ◌∷◌, arith, contains,
  contains_self, IsDistinct, keys, lookup, insert, lookup-insert, keys-insert_of_some, ok, Action,
}
use congress.FactSet.{Columns, Table, Indicies, columns_discrete, for_each}

module _ {V : Type 0} where
  -- The dictionary has an index under the columns, and it satisfies `P`.
  abbrev pub Indexes : (Columns → Table V → Type 0) → Indicies V → Columns → Type 0
  Indexes P ind cols =
      (table : Table V) × (lookup columns_discrete cols ind ≡ some table) × P cols table

  -- What a loop that does not raise leaves: `Q` at the indicies it visited, the others as before.
  pub record Visited (Q : Columns → Table V → Type 0) (visited : List Columns)
      (before after : Indicies V) : Type 0 where
    pub inside :
        (cols : Columns) → contains columns_discrete cols visited ≡ true → Indexes Q after cols
    pub outside :
        (cols : Columns)
        → contains columns_discrete cols visited ≡ false
        → lookup columns_discrete cols after ≡ lookup columns_discrete cols before
    pub same_keys : keys after ≡ keys before

module _ {V : Type 0} (step : Columns → Action (Indicies V) Unit) (P Q : Columns → Table V → Type 0)
    (keep : (cols : Columns) (table : Table V) (ind : Indicies V)
      → lookup columns_discrete cols ind ≡ some table
      → P cols table
      → (table' : Table V) × (step cols ind ≡ (ok tt, insert columns_discrete cols table' ind))
        × Q cols table') where
  visit_ne :
      (i j : Columns) (table : Table V) (rest : List Columns) (ind : Indicies V)
      → contains columns_discrete i rest ≡ false
      → contains columns_discrete j rest ≡ true
      → lookup columns_discrete j (insert columns_discrete i table ind)
        ≡ lookup columns_discrete j ind
  visit_ne i j table rest ind fresh there =
      ground (arith, lookup-insert columns_discrete j i table ind)

  -- The visit of the first index, and then the visit of the others.
  Visited-cons :
      (i : Columns) (todo : List Columns) (table table' : Table V) (ind ind' : Indicies V)
      → contains columns_discrete i todo ≡ false
      → lookup columns_discrete i ind ≡ some table
      → Q i table'
      → Visited Q todo (insert columns_discrete i table' ind) ind'
      → Visited Q (i ∷ todo) ind ind'
  unfolding contains
  Visited-cons i todo table table' ind ind' fresh at_i q v = record {
    inside = λ cols c. elim (columns_discrete cols i) [
      | yes p ↦ (
        table',
        ground (arith, v.outside cols, lookup-insert columns_discrete cols i table' ind),
        subst (λ j. Q j table') (sym p) q,
      )
      | no p ↦ v.inside cols (rw (if_neg _ p) at c)
    ];
    outside =
        λ cols c. ground (arith, v.outside cols, lookup-insert columns_discrete cols i table' ind);
    same_keys = v.same_keys ∙ keys-insert_of_some columns_discrete i table' ind table at_i;
  }

  for_each-cons :
      (i : Columns) (todo : List Columns) (ind ind' : Indicies V)
      → step i ind ≡ (ok tt, ind')
      → for_each step (i ∷ todo) ind ≡ for_each step todo ind'
  unfolding for_each
  for_each-cons i todo ind ind' e = ground arith

  pub for_each_rule :
      (todo : List Columns) (ind : Indicies V)
      → IsDistinct columns_discrete todo
      → ((cols : Columns) → contains columns_discrete cols todo ≡ true → Indexes P ind cols)
      → (ind' : Indicies V) × (for_each step todo ind ≡ (ok tt, ind')) × Visited Q todo ind ind'
  unfolding for_each contains
  for_each_rule [] ind d h =
      (ind, refl, record { inside = λ cols c. cc; outside = λ cols c. refl; same_keys = refl })
  for_each_rule (i ∷ todo) ind d h =
      let (table, at_i, p) = h i (contains_self columns_discrete i todo) in
      let (table', stepped, q) = keep i table ind at_i p in
      let (ind', ran, v) = for_each_rule todo (insert columns_discrete i table' ind) d.1 (λ cols c.
        let (t, e, pt) = h cols (ground arith) in
        (t, visit_ne i cols table' todo ind d.0 c ∙ e, pt)) in
      (
        ind',
        for_each-cons i todo ind _ stepped ∙ ran,
        Visited-cons i todo table table' ind ind' d.0 at_i q v,
      )
