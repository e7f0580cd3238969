-- ===== src/Strata/Tests.antt =====
-- Runs of the stratification on small graphs, and the theorem at one.
use mathlib.Core.Bool.{Bool-discrete}
use congress.Prelude.{
  ℕ, ◌≡◌, ◌⊎◌, refl, Bool, true, false, none, some, List, [], ◌∷◌, Dict, ℕ_discrete, contains,
  lookup, insert, ok, finished,
}
use congress.Strata.{Edge, init, sweep, rounds, stratification}
use congress.Strata.Sweep.{Solves}
use congress.Strata.Correct.{IsLeast, stratification_lem}

program : Unit {0}
unfolding init sweep rounds stratification contains lookup insert ℕ_discrete
program = tt

abbrev edge : ℕ → ℕ → Bool → Edge ℕ Bool
edge u v negated = record { source = u; target = v; label = negated }

-- Table 1 depends on 2, and on 3 by negation; table 2 depends on 3 by negation.
abbrev layered : List (Edge ℕ Bool)
layered = edge 1 2 false ∷ edge 1 3 true ∷ edge 2 3 true ∷ []

-- Table 3 depends on 1, too.
abbrev cyclic : List (Edge ℕ Bool)
cyclic = edge 3 1 false ∷ layered

abbrev nodes : List ℕ
nodes = 1 ∷ 2 ∷ 3 ∷ []

stratification-layered :
    stratification ℕ_discrete Bool-discrete (true ∷ []) nodes layered
    ≡ finished (ok (some ((3, 1) ∷ (2, 2) ∷ (1, 2) ∷ [])))
unfolding program
stratification-layered = refl

stratification-cyclic :
    stratification ℕ_discrete Bool-discrete (true ∷ []) nodes cyclic ≡ finished (ok none)
unfolding program
stratification-cyclic = refl

stratification_lem_example :
    ((stratification ℕ_discrete Bool-discrete (true ∷ []) nodes cyclic ≡ finished (ok none))
      × ((s : ℕ → ℕ) → ¬ Solves ℕ_discrete Bool-discrete (true ∷ []) s cyclic))
    ⊎ ((stratum : Dict ℕ ℕ) × (stratification ℕ_discrete Bool-discrete (true ∷ []) nodes cyclic
          ≡ finished (ok (some stratum)))
        × IsLeast ℕ_discrete Bool-discrete (true ∷ []) nodes cyclic stratum)
unfolding contains ℕ_discrete
stratification_lem_example =
    stratification_lem ℕ_discrete Bool-discrete (true ∷ []) nodes cyclic
      ((refl, refl), ((refl, refl), ((refl, refl), ((refl, refl), tt))))
