-- ===== src/FactSet/Find.antt =====
-- `find` of factset.py: with an index and without, it returns the facts that match.
use congress.Prelude.{
  ℕ, ap, length, add, if◌then◌else◌, ◌≡◌, ◌≢◌, refl, Bool, true, false, ◌&&◌, none, some, List, [],
  ◌∷◌, map, arith, inl, inr, Option-cases, tuple_discrete, contains, contains-add,
  contains-keys_of_some, lookup, ok,
}
use congress.FactSet.{
  FactSet, Fact, PartialFact, columns_discrete, fact_discrete, compute_key, bucket, matches, scan,
  find,
}
use congress.FactSet.Index.{is_keyed}
use congress.FactSet.Valid.{IsValid}

module _ {V : Type 0} (dec : Discrete V) where
  -- A fact has the wanted values exactly when they are its key at the wanted columns.
  matches-eq-is_keyed :
      (wanted : PartialFact V) (f : Fact V)
      → compute_key (map (λ p. p.0) wanted) f ≢ none
      → matches dec wanted f ≡ some (is_keyed dec (map (λ p. p.0) wanted) (map (λ p. p.1) wanted) f)
  unfolding matches compute_key tuple_discrete
  matches-eq-is_keyed [] f wide = refl
  matches-eq-is_keyed ((i, v) ∷ wanted) f wide = ground (arith, matches-eq-is_keyed wanted f)

  abbrev pub is_match : PartialFact V → Fact V → Bool
  is_match wanted f = elim (matches dec wanted f) [ none ↦ false | some hit ↦ hit ]

  scan_lem :
      (wanted : PartialFact V) (facts : List (Fact V))
      → ((g : Fact V)
          → contains (fact_discrete dec) g facts ≡ true
          → compute_key (map (λ p. p.0) wanted) g ≢ none)
      → (found : List (Fact V)) × (scan dec wanted facts ≡ ok found)
        × ((g : Fact V)
            → contains (fact_discrete dec) g found
              ≡ (contains (fact_discrete dec) g facts && is_match wanted g))
  unfolding scan contains
  scan_lem wanted [] wide = ([], refl, λ g. refl)
  scan_lem wanted (f ∷ facts) wide =
      let (found, ran, h) = scan_lem wanted facts (λ g c. wide g (ground arith)) in
      let same = matches-eq-is_keyed wanted f (wide f (ground arith)) in
      elim (Option-cases (matches dec wanted f)) [
        | inl e ↦ cc
        | inr (hit, e) ↦ (
          if hit then add (fact_discrete dec) f found else found,
          ground arith,
          λ g. ground (arith, h g, contains-add (fact_discrete dec) g f found),
        )
      ]

  -- Where every fact has a value at the wanted columns, `find` does not raise and returns exactly
  -- the facts of the set with the wanted values, by an index or by a scan of all facts.
  pub find_exact :
      (wanted : PartialFact V) (s : FactSet V)
      → IsValid dec s
      → ((g : Fact V)
          → contains (fact_discrete dec) g s.facts ≡ true
          → compute_key (map (λ p. p.0) wanted) g ≢ none)
      → (n : ℕ) × (found : List (Fact V)) × (find dec wanted s ≡ (n, ok found))
        × ((g : Fact V)
            → contains (fact_discrete dec) g found
              ≡ (contains (fact_discrete dec) g s.facts && is_match wanted g))
  unfolding find
  find_exact wanted s v wide =
      elim (Option-cases (lookup columns_discrete (map (λ p. p.0) wanted) s.indicies)) [
        | inl no_index ↦
            let (found, ran, h) = scan_lem wanted s.facts wide in
            (length s.facts, found, rw (no_index, find) (ap (λ r. (length s.facts, r)) ran), h)
        | inr (table, e) ↦
            let cols = map (λ (p : ℕ × V). p.0) wanted in
            let (table', e', h) =
              v.indexed cols (contains-keys_of_some columns_discrete cols s.indicies table e) in
            (
              1,
              bucket dec (map (λ p. p.1) wanted) table,
              rw (e, find) refl,
              λ g.
                  ground (arith, h (map (λ p. p.1) wanted) g, wide g, matches-eq-is_keyed wanted g),
            )
      ]
