-- ===== src/Strata/Ranks.antt =====
-- Any solution of the constraints of `Graph.stratification` (utility.py) can be renumbered so
-- that no stratum is above the number of nodes.
use congress.Prelude.{
  ℕ, ◌+◌, ◌≤◌, ◌<◌, ◌≡◌, refl, true, List, [], ◌∷◌, length, ltb, if◌then◌else◌, All, arith,
  contains,
}
use congress.Strata.{Edge}
use congress.Strata.Sweep.{Solves}
use congress.Strata.Rounds.{total, total_mono, total-lt}

module _ {N : Type 0} (dn : Discrete N) (nodes : List N) (s : N → ℕ) where
  -- One for each node that `s` puts below `a`.
  abbrev is_below : ℕ → N → ℕ
  is_below a node = if ltb (s node) a then 1 else 0

  pub rank : N → ℕ
  rank node = total dn nodes (is_below (s node)) + 1

  pub rank_pos : (node : N) → 1 ≤ rank node
  unfolding rank
  rank_pos node = omega arith

  rank_mono : (v u : N) → s v ≤ s u → rank v ≤ rank u
  unfolding rank
  rank_mono v u h =
      let le = total_mono dn nodes (is_below (s v)) (is_below (s u)) (λ w. ground arith) in
      omega arith

  rank-lt : (v u : N) → contains dn v nodes ≡ true → s v < s u → rank v < rank u
  unfolding rank
  rank-lt v u c h =
      let lt =
        total-lt dn nodes (is_below (s v)) (is_below (s u)) v (λ w. ground arith) c
          (ground arith) in
      omega arith

  total-one : (l : List N) → total dn l (λ w. 1) ≡ length l
  total-one [] = refl
  total-one (w ∷ l) = omega (arith, total-one l)

  pub rank-le-length : (u : N) → contains dn u nodes ≡ true → rank u ≤ length nodes
  unfolding rank
  rank-le-length u c =
      let lt = total-lt dn nodes (is_below (s u)) (λ w. 1) u (λ w. ground arith) c (ground arith) in
      omega (arith, total-one nodes)

module _ {N L : Type 0} (dn : Discrete N) (dl : Discrete L) (labels : List L) (nodes : List N) where
  -- Both ends of every edge are nodes.
  abbrev pub IsClosed : List (Edge N L) → Type 0
  IsClosed = All (λ e. (contains dn e.source nodes ≡ true) × (contains dn e.target nodes ≡ true))

  pub rank-Solves :
      (s : N → ℕ) (edges : List (Edge N L))
      → IsClosed edges
      → Solves dn dl labels s edges
      → Solves dn dl labels (rank dn nodes s) edges
  rank-Solves s [] c h = tt
  rank-Solves s (e ∷ edges) c h = (
    ground
        (arith, rank_mono dn nodes s e.target e.source, rank-lt dn nodes s e.target e.source c.0.1),
    rank-Solves s edges c.1 h.1,
  )

  pub rank-fits :
      (s : N → ℕ) (edges : List (Edge N L))
      → IsClosed edges
      → All (λ e. rank dn nodes s e.source ≤ length nodes) edges
  rank-fits s [] c = tt
  rank-fits s (e ∷ edges) c = (rank-le-length dn nodes s e.source c.0.0, rank-fits s edges c.1)
