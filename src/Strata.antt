-- ===== src/Strata.antt =====
-- `Graph.stratification` of congress/datalog/utility.py, which `compile.stratification` calls on
-- the dependency graph of the rules: the least assignment of strata to the nodes that puts the
-- source of an edge with one of the labels above its target, and of any other not below.
-- The nested loops over `self.edges` visit the edges in the order of the list `edges`.
pub mod Sweep
pub mod Rounds
pub mod Ranks
pub mod Correct
mod Tests
use congress.Prelude.{
  ℕ, zero, suc, ◌+◌, ◌*◌, Bool, true, false, ◌||◌, not, Option, none, some, List, [], ◌∷◌, length,
  ltb, ◌==◌, if◌then◌else◌, contains, Dict, lookup, insert, key_error, Result, ok, raise, max, Run,
  out_of_fuel, finished,
}

-- An edge from the node `source` to the node `target`.
pub record Edge (N L : Type 0) : Type 0 where
  pub source : N
  pub target : N
  pub label : L

module _ {N L : Type 0} (dn : Discrete N) (dl : Discrete L) (labels : List L) where
  -- What an edge adds to the stratum of its target.
  abbrev pub bump : Edge N L → ℕ
  bump e = if contains dl e.label labels then 1 else 0

  -- `stratum[node] = 1` for every node.
  pub init : List N → Dict N ℕ
  init [] = []
  init (node ∷ nodes) = insert dn node 1 (init nodes)

  -- One round over the edges, with `changes`; None where a stratum passes `limit`, the number of
  -- nodes.
  pub sweep : ℕ → List (Edge N L) → Dict N ℕ → Bool → Result (Option (Dict N ℕ × Bool))
  sweep limit [] stratum changes = ok (some (stratum, changes))
  sweep limit (e ∷ edges) stratum changes = elim (lookup dn e.source stratum) [
    | none ↦ raise key_error
    | some old ↦ elim (lookup dn e.target stratum) [
      | none ↦ raise key_error
      | some below ↦
          let new = max old (bump e + below) in
          let rest =
            sweep limit edges (insert dn e.source new stratum) (changes || not (old == new)) in
          if ltb limit new then ok none else rest
    ]
  ]

  -- `while changes`; None where there are too many strata.
  pub rounds : ℕ → ℕ → List (Edge N L) → Dict N ℕ → Run (Option (Dict N ℕ))
  rounds zero limit edges stratum = out_of_fuel
  rounds (suc fuel) limit edges stratum = elim (sweep limit edges stratum false) [
    | raise e ↦ finished (raise e)
    | ok none ↦ finished (ok none)
    | ok (some (stratum', true)) ↦ rounds fuel limit edges stratum'
    | ok (some (stratum', false)) ↦ finished (ok (some stratum'))
  ]

  -- Every round with a change raises a stratum, and none passes the number of nodes.
  pub stratification : List N → List (Edge N L) → Run (Option (Dict N ℕ))
  stratification nodes edges =
      rounds (length nodes * length nodes + 1) (length nodes) edges (init nodes)
