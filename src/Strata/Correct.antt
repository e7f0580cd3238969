-- ===== src/Strata/Correct.antt =====
-- `Graph.stratification` (utility.py) returns the least stratification, and None only where there
-- is none.
use congress.Prelude.{
  ℕ, ◌+◌, ◌*◌, ◌≤◌, ◌≡◌, ◌⊎◌, inl, inr, refl, true, false, none, some, List, [], ◌∷◌, length, arith,
  contains, Dict, lookup, lookup-insert, ok, finished, Option,
}
use congress.Strata.{Edge, init, stratification}
use congress.Strata.Sweep.{at, Solves, Covers}
use congress.Strata.Rounds.{Inv, Settled, rounds_end}
use congress.Strata.Ranks.{IsClosed, rank, rank_pos, rank-Solves, rank-fits}

module _ {N L : Type 0} (dn : Discrete N) (dl : Discrete L) (labels : List L) where
  lookup-init :
      (nodes : List N) (u : N)
      → lookup dn u (init dn dl labels nodes)
        ≡ elim (contains dn u nodes) as (λ b. Option ℕ) [ true ↦ some 1 | false ↦ none ]
  unfolding init lookup contains
  lookup-init [] u = refl
  lookup-init (node ∷ nodes) u =
      ground (arith, lookup-init nodes u, lookup-insert dn u node 1 (init dn dl labels nodes))

  some_node : (nodes : List N) (u : N) → contains dn u nodes ≡ true → 1 ≤ length nodes
  unfolding contains
  some_node [] u h = cc
  some_node (node ∷ nodes) u h = omega arith

  init-Covers :
      (nodes : List N) (edges : List (Edge N L))
      → IsClosed dn dl labels nodes edges
      → Covers dn dl labels (init dn dl labels nodes) edges
  init-Covers nodes [] c = tt
  init-Covers nodes (e ∷ edges) c = (
    (ground (arith, lookup-init nodes e.source), ground (arith, lookup-init nodes e.target)),
    init-Covers nodes edges c.1,
  )

  init-Inv :
      (nodes : List N) (edges : List (Edge N L))
      → IsClosed dn dl labels nodes edges
      → Inv dn dl labels nodes (length nodes) edges (init dn dl labels nodes)
  init-Inv nodes edges c = record {
    covers = init-Covers nodes edges c;
    of_nodes = λ u h. ground (arith, lookup-init nodes u);
    bounded = λ u. ground (arith, lookup-init nodes u, some_node nodes u);
  }

  init-le :
      (nodes : List N) (r : N → ℕ)
      → ((u : N) → contains dn u nodes ≡ true → 1 ≤ r u)
      → (u : N) → at dn dl labels (init dn dl labels nodes) u ≤ r u
  init-le nodes r h u = ground (arith, lookup-init nodes u, h u)

  -- The least stratification of the nodes along the edges, with strata from 1 to their number.
  pub record IsLeast (nodes : List N) (edges : List (Edge N L)) (stratum : Dict N ℕ) : Type 0 where
    pub solves : Solves dn dl labels (at dn dl labels stratum) edges
    pub ranges :
        (u : N)
        → contains dn u nodes ≡ true
        → (1 ≤ at dn dl labels stratum u) × (at dn dl labels stratum u ≤ length nodes)
    pub least :
        (r : N → ℕ)
        → Solves dn dl labels r edges
        → ((u : N) → contains dn u nodes ≡ true → 1 ≤ r u)
        → (u : N) → at dn dl labels stratum u ≤ r u

  Settled-IsLeast :
      (nodes : List N) (edges : List (Edge N L)) (stratum : Dict N ℕ)
      → Settled dn dl labels nodes (length nodes) edges (init dn dl labels nodes) stratum
      → IsLeast nodes edges stratum
  Settled-IsLeast nodes edges stratum s = record {
    solves = s.solves;
    ranges = λ u c. (ground (arith, s.grows u, lookup-init nodes u), s.bounded u);
    least = λ r h pos. s.below r h (init-le nodes r pos);
  }

  -- On a graph whose edges run between its nodes, the call ends and does not raise. It returns
  -- the least stratification with strata from 1 to the number of nodes, or it returns None and
  -- no assignment of numbers to the nodes meets the constraints of the edges.
  pub stratification_lem :
      (nodes : List N) (edges : List (Edge N L))
      → IsClosed dn dl labels nodes edges
      → ((stratification dn dl labels nodes edges ≡ finished (ok none))
          × ((s : N → ℕ) → ¬ Solves dn dl labels s edges))
        ⊎ ((stratum : Dict N ℕ) × (stratification dn dl labels nodes edges
              ≡ finished (ok (some stratum)))
            × IsLeast nodes edges stratum)
  unfolding stratification
  stratification_lem nodes edges c =
      elim (rounds_end dn dl labels nodes (length nodes) edges (length nodes * length nodes + 1)
        (init dn dl labels nodes) (init-Inv nodes edges c) (omega arith)) [
          | inl (e, over) ↦ inl (
            e,
            λ s h.
                over (rank dn nodes s) (rank-Solves dn dl labels nodes s edges c h)
                  (init-le nodes (rank dn nodes s) (λ u _. rank_pos dn nodes s u))
                  (rank-fits dn dl labels nodes s edges c),
          )
          | inr (stratum, e, s) ↦ inr (stratum, e, Settled-IsLeast nodes edges stratum s)
        ]
