-- ===== src/FactSet.antt =====
-- The class FactSet of congress/datalog/factset.py: the facts of one table in insertion order,
-- and for each tuple of columns an index from the values there to the facts that have them.
-- A fact is the tuple of its values, whose type is a parameter; the state is the record FactSet.
pub mod Index
pub mod Loops
pub mod Valid
pub mod Create
pub mod Find
mod Tests
use congress.Prelude.{
  ℕ, Bool, not, true, false, ◌&&◌, Option, none, some, List, [], ◌∷◌, map, length, get_elem?,
  is_empty, leb, if◌then◌else◌, contains, add, discard, tuple_discrete, ℕ_discrete, Dict, keys,
  lookup, insert, erase, index_error, key_error, assertion_error, Result, ok, raise, Action, ◌>>=◌,
}

abbrev pub Fact : Type 0 → Type 0
Fact V = List V

abbrev pub Columns : Type 0
Columns = List ℕ

-- One index: the values at its columns, and the set of facts with these values there.
abbrev pub Table : Type 0 → Type 0
Table V = Dict (List V) (List (Fact V))

abbrev pub Indicies : Type 0 → Type 0
Indicies V = Dict Columns (Table V)

pub record FactSet (V : Type 0) : Type 0 where
  pub facts : List (Fact V)
  pub indicies : Indicies V

-- The pairs `(i, v)` of `find`.
abbrev pub PartialFact : Type 0 → Type 0
PartialFact V = List (ℕ × V)

abbrev pub columns_discrete : Discrete Columns
columns_discrete = tuple_discrete ℕ_discrete

-- `sorted(columns) == list(columns)`
unfoldable pub is_sorted : Columns → Bool
is_sorted [] = true
is_sorted (i ∷ []) = true
is_sorted (i ∷ j ∷ cols) = leb i j && is_sorted (j ∷ cols)

-- `for index in self._indicies.keys(): step(index)`
pub for_each :
    {V : Type 0} → (Columns → Action (Indicies V) Unit) → List Columns → Action (Indicies V) Unit
for_each step [] ind = (ok tt, ind)
for_each step (index ∷ rest) ind = (step index >>= λ _. for_each step rest) ind

-- `[fact[i] for i in columns]`; `none` is the IndexError of a fact that is too short.
unfoldable pub compute_key : {V : Type 0} → Columns → Fact V → Option (List V)
compute_key [] fact = some []
compute_key (i ∷ cols) fact = elim (get_elem? fact i) [
  | none ↦ none
  | some v ↦ elim (compute_key cols fact) [ none ↦ none | some key ↦ some (v ∷ key) ]
]

unfoldable pub has_index : {V : Type 0} → Columns → FactSet V → Bool
has_index columns s = contains columns_discrete columns (keys s.indicies)

pub remove_index : {V : Type 0} → Columns → Action (FactSet V) Unit
remove_index columns s =
    if is_sorted columns
    then (ok tt, record s { indicies = erase columns_discrete columns s.indicies })
    else (raise assertion_error, s)

module _ {V : Type 0} (dec : Discrete V) where
  abbrev pub fact_discrete : Discrete (List V)
  fact_discrete = tuple_discrete dec

  -- The facts that an index lists under a key.
  pub bucket : List V → Table V → List (Fact V)
  bucket key table = elim (lookup fact_discrete key table) [ none ↦ [] | some facts ↦ facts ]

  -- Lists a fact under a key of an index.
  pub put : List V → Fact V → Table V → Table V
  put key fact table = elim (lookup fact_discrete key table) [
    | none ↦ insert fact_discrete key (fact ∷ []) table
    | some facts ↦ insert fact_discrete key (add fact_discrete fact facts) table
  ]

  -- Drops a fact under a key of an index, and the key with its last fact.
  pub drop_from : List V → Fact V → List (Fact V) → Table V → Table V
  drop_from key fact facts table =
      let rest = discard fact_discrete fact facts in
      if is_empty rest
      then erase fact_discrete key (insert fact_discrete key rest table)
      else insert fact_discrete key rest table

  pub add_fact_to_index : Fact V → Columns → Action (Indicies V) Unit
  add_fact_to_index fact index ind =
      let ind' : Indicies V = elim (lookup columns_discrete index ind) [
        | none ↦ insert columns_discrete index [] ind
        | some table ↦ ind
      ] in
      elim (compute_key index fact) [
        | none ↦ (raise index_error, ind')
        | some key ↦ elim (lookup columns_discrete index ind') [
          | none ↦ (raise key_error, ind')
          | some table ↦ (ok tt, insert columns_discrete index (put key fact table) ind')
        ]
      ]

  pub remove_fact_from_index : Fact V → Columns → Action (Indicies V) Unit
  remove_fact_from_index fact index ind = elim (compute_key index fact) [
    | none ↦ (raise index_error, ind)
    | some key ↦ elim (lookup columns_discrete index ind) [
      | none ↦ (raise key_error, ind)
      | some table ↦ elim (lookup fact_discrete key table) [
        | none ↦ (raise key_error, ind)
        | some facts ↦ elim (contains fact_discrete fact facts) [
          | false ↦ (raise key_error, ind)
          | true ↦ (ok tt, insert columns_discrete index (drop_from key fact facts table) ind)
        ]
      ]
    ]
  ]

  -- `add`: where an index raises, the fact is taken out again and the exception passed on.
  pub add_fact : Fact V → Action (FactSet V) Bool
  add_fact fact s = elim (contains fact_discrete fact s.facts) [
    | true ↦ (ok false, s)
    | false ↦
        let facts = add fact_discrete fact s.facts in
        let (r, ind) = for_each (add_fact_to_index fact) (keys s.indicies) s.indicies in
        elim r [
          | ok _ ↦ (ok true, record { facts = facts; indicies = ind })
          | raise e ↦ (raise e, record { facts = discard fact_discrete fact facts; indicies = ind })
        ]
  ]

  -- `remove`: where an index raises, the fact is put back, behind the others.
  pub remove_fact : Fact V → Action (FactSet V) Bool
  remove_fact fact s = elim (contains fact_discrete fact s.facts) [
    | false ↦ (ok false, s)
    | true ↦
        let facts = discard fact_discrete fact s.facts in
        let (r, ind) = for_each (remove_fact_from_index fact) (keys s.indicies) s.indicies in
        elim r [
          | ok _ ↦ (ok true, record { facts = facts; indicies = ind })
          | raise e ↦ (raise e, record { facts = add fact_discrete fact facts; indicies = ind })
        ]
  ]

  -- The loop of `create_index`.
  pub add_all : List (Fact V) → Columns → Action (Indicies V) Unit
  add_all [] columns ind = (ok tt, ind)
  add_all (fact ∷ rest) columns ind =
      (add_fact_to_index fact columns >>= λ _. add_all rest columns) ind

  pub create_index : Columns → Action (FactSet V) Unit
  create_index columns s =
      if is_sorted columns && not (is_empty columns)
      then (if has_index columns s
          then (ok tt, s)
          else (let (r, ind) = add_all s.facts columns s.indicies in
              (r, record s { indicies = ind })))
      else (raise assertion_error, s)

  -- Whether a fact has the wanted values, by the inner loop of `find`, which stops at the first
  -- that differs; `none` is its IndexError.
  pub matches : PartialFact V → Fact V → Option Bool
  matches [] fact = some true
  matches ((i, v) ∷ wanted) fact = elim (get_elem? fact i) [
    | none ↦ none
    | some w ↦ elim (dec w v) [ yes _ ↦ matches wanted fact | no _ ↦ some false ]
  ]

  -- The outer loop of `find`, where no index serves.
  pub scan : PartialFact V → List (Fact V) → Result (List (Fact V))
  scan wanted [] = ok []
  scan wanted (fact ∷ rest) = elim (matches wanted fact) [
    | none ↦ raise index_error
    | some hit ↦ elim (scan wanted rest) [
      | raise e ↦ raise e
      | ok found ↦ ok (if hit then add fact_discrete fact found else found)
    ]
  ]

  -- The number of iterations, and the set of the facts that match.
  pub find : PartialFact V → FactSet V → ℕ × Result (List (Fact V))
  find wanted s = elim (lookup columns_discrete (map (λ p. p.0) wanted) s.indicies) [
    | some table ↦ (1, ok (bucket (map (λ p. p.1) wanted) table))
    | none ↦ (length s.facts, scan wanted s.facts)
  ]
