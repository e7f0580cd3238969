-- ===== src/FactSet/Tests.antt =====
-- Runs of FactSet on a small set, and the theorems at it.
use congress.Prelude.{
  ℕ, ap, sym, subst, ◌∙◌, ◌&&◌, ◌≡◌, ◌≢◌, refl, true, none, List, [], ◌∷◌, arith, ℕ_discrete,
  tuple_discrete, contains, add, discard, lookup, insert, erase, keys, ok, raise, index_error,
}
use congress.FactSet.{
  FactSet, Fact, compute_key, bucket, put, drop_from, for_each, add_fact_to_index,
  remove_fact_from_index, add_fact, remove_fact, has_index, is_sorted, add_all, create_index,
  matches, scan, find, fact_discrete,
}
use congress.FactSet.Valid.{IsValid, Fits, add_fact-IsValid, remove_fact-IsValid, add_fact_raises}
use congress.FactSet.Create.{create_index-IsValid}
use congress.FactSet.Find.{is_match, find_exact}

program : Unit {0}
unfolding add_fact remove_fact create_index find has_index add_all scan matches compute_key bucket
    put drop_from for_each add_fact_to_index remove_fact_from_index is_sorted contains add discard
    lookup insert erase tuple_discrete ℕ_discrete
program = tt

abbrev facts : List (Fact ℕ)
facts = (1 ∷ 2 ∷ []) ∷ (1 ∷ 3 ∷ []) ∷ []

abbrev plain : FactSet ℕ
plain = record { facts = facts; indicies = [] }

-- The same facts with an index on the first column.
abbrev indexed : FactSet ℕ
indexed = record { facts = facts; indicies = ((0 ∷ []), ((1 ∷ []), facts) ∷ []) ∷ [] }

create_index-plain : create_index ℕ_discrete (0 ∷ []) plain ≡ (ok tt, indexed)
unfolding program
create_index-plain = refl

find-indexed :
    (find ℕ_discrete ((0, 1) ∷ []) indexed ≡ (1, ok facts))
    × (find ℕ_discrete ((0, 1) ∷ []) plain ≡ (2, ok ((1 ∷ 3 ∷ []) ∷ (1 ∷ 2 ∷ []) ∷ [])))
unfolding program
find-indexed = (refl, refl)

-- A fact that is too short for the index is refused, and the facts stay.
add_short : add_fact ℕ_discrete [] indexed ≡ (raise index_error, indexed)
unfolding program
add_short = refl

plain-IsValid : IsValid ℕ_discrete plain
unfolding program
plain-IsValid = record {
  distinct = (refl, (refl, tt));
  distinct_indicies = tt;
  indexed = λ cols c. cc;
  fitting = λ f there cols c. cc;
}

-- Both facts have a first value.
facts_wide :
    (g : Fact ℕ)
    → contains (fact_discrete ℕ_discrete) g facts ≡ true
    → compute_key (0 ∷ []) g ≢ none
unfolding contains compute_key
facts_wide g c = ground arith

indexed-IsValid : IsValid ℕ_discrete indexed
unfolding program
indexed-IsValid =
    let (s', ran, same, listed, v) =
      create_index-IsValid ℕ_discrete (0 ∷ []) plain plain-IsValid refl (λ e. cc) facts_wide in
    subst (IsValid ℕ_discrete) (ap (λ r. r.1) (sym ran ∙ create_index-plain)) v

abbrev pair : Fact ℕ
pair = 4 ∷ 5 ∷ []

pair-Fits : Fits ℕ_discrete indexed pair
unfolding contains compute_key
pair-Fits cols c = ground arith

create_index-IsValid_example :
    (s' : FactSet ℕ) × (create_index ℕ_discrete (0 ∷ []) plain ≡ (ok tt, s'))
    × (s'.facts ≡ facts)
    × (facts ≢ [] → has_index (0 ∷ []) s' ≡ true)
    × IsValid ℕ_discrete s'
unfolding is_sorted
create_index-IsValid_example =
    create_index-IsValid ℕ_discrete (0 ∷ []) plain plain-IsValid refl (λ e. cc) facts_wide

add_fact-IsValid_example :
    (s' : FactSet ℕ) × (add_fact ℕ_discrete pair indexed ≡ (ok true, s'))
    × (s'.facts ≡ (1 ∷ 2 ∷ []) ∷ (1 ∷ 3 ∷ []) ∷ pair ∷ [])
    × (keys s'.indicies ≡ (0 ∷ []) ∷ [])
    × IsValid ℕ_discrete s'
unfolding program
add_fact-IsValid_example = add_fact-IsValid ℕ_discrete pair indexed indexed-IsValid pair-Fits

remove_fact-IsValid_example :
    (s' : FactSet ℕ) × (remove_fact ℕ_discrete (1 ∷ 2 ∷ []) indexed ≡ (ok true, s'))
    × (s'.facts ≡ (1 ∷ 3 ∷ []) ∷ [])
    × (keys s'.indicies ≡ (0 ∷ []) ∷ [])
    × IsValid ℕ_discrete s'
unfolding program
remove_fact-IsValid_example = remove_fact-IsValid ℕ_discrete (1 ∷ 2 ∷ []) indexed indexed-IsValid

add_fact_raises_example : (add_fact ℕ_discrete [] indexed).1.facts ≡ facts
unfolding program
add_fact_raises_example = add_fact_raises ℕ_discrete [] indexed index_error refl

find_exact_example :
    (n : ℕ) × (found : List (Fact ℕ)) × (find ℕ_discrete ((0, 1) ∷ []) indexed ≡ (n, ok found))
    × ((g : Fact ℕ)
        → contains (fact_discrete ℕ_discrete) g found
          ≡ (contains (fact_discrete ℕ_discrete) g facts && is_match ℕ_discrete ((0, 1) ∷ []) g))
find_exact_example = find_exact ℕ_discrete ((0, 1) ∷ []) indexed indexed-IsValid facts_wide
