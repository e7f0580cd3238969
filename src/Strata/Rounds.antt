-- ===== src/Strata/Rounds.antt =====
-- The `while` loop of `Graph.stratification` (utility.py) ends: each round that changes a stratum
-- raises the sum of the strata, and none is above the number of nodes.
use native.Mathlib.Nat.{le_trans}
use mathlib.Core.Path.{fun_ext}
use congress.Prelude.{
  ℕ, zero, suc, ◌+◌, ◌*◌, ◌≤◌, ◌<◌, ◌≡◌, ◌≢◌, ◌⊎◌, inl, inr, refl, sym, subst, Bool, true, false,
  none, some, List, [], ◌∷◌, length, arith, contains, Dict, lookup, ok, finished,
}
use congress.Strata.{Edge, sweep, rounds}
use congress.Strata.Sweep.{at, Solves, Covers, Exceeds, Swept, sweep_lem}

module _ {N : Type 0} (dn : Discrete N) where
  abbrev pub total : List N → (N → ℕ) → ℕ
  total [] f = 0
  total (node ∷ nodes) f = f node + total nodes f

  pub total_mono :
      (nodes : List N) (f g : N → ℕ)
      → ((node : N) → f node ≤ g node)
      → total nodes f ≤ total nodes g
  total_mono [] f g h = omega arith
  total_mono (node ∷ nodes) f g h = omega (arith, h node, total_mono nodes f g h)

  pub total-lt :
      (nodes : List N) (f g : N → ℕ) (n : N)
      → ((node : N) → f node ≤ g node)
      → contains dn n nodes ≡ true
      → f n < g n
      → total nodes f < total nodes g
  unfolding contains
  total-lt [] f g n h c lt = cc
  total-lt (node ∷ nodes) f g n h c lt = elim (dn n node) [
    | yes p ↦ omega (arith, rw p at lt, total_mono nodes f g h)
    | no ne ↦ omega (arith, h node, total-lt nodes f g n h (ground arith) lt)
  ]

  pub total_bounded :
      (nodes : List N) (f : N → ℕ) (limit : ℕ)
      → ((node : N) → f node ≤ limit)
      → total nodes f ≤ length nodes * limit
  total_bounded [] f limit h = omega arith
  total_bounded (node ∷ nodes) f limit h = grind (arith, h node, total_bounded nodes f limit h)

module _ {N L : Type 0} (dn : Discrete N) (dl : Discrete L) (labels : List L) (nodes : List N)
    (limit : ℕ) (edges : List (Edge N L)) where
  -- What the loop keeps: strata for the ends of the edges, for nodes only, and none too high.
  pub record Inv (stratum : Dict N ℕ) : Type 0 where
    pub covers : Covers dn dl labels stratum edges
    pub of_nodes : (node : N) → lookup dn node stratum ≢ none → contains dn node nodes ≡ true
    pub bounded : (node : N) → at dn dl labels stratum node ≤ limit

  -- The strata that the loop returns: a solution, no stratum lowered, and none above a solution
  -- that was not passed before.
  pub record Settled (before after : Dict N ℕ) : Type 0 where
    pub grows : (node : N) → at dn dl labels before node ≤ at dn dl labels after node
    pub still_there : (node : N) → lookup dn node before ≢ none → lookup dn node after ≢ none
    pub below :
        (r : N → ℕ)
        → Solves dn dl labels r edges
        → ((node : N) → at dn dl labels before node ≤ r node)
        → (node : N) → at dn dl labels after node ≤ r node
    pub bounded : (node : N) → at dn dl labels after node ≤ limit
    pub solves : Solves dn dl labels (at dn dl labels after) edges

  Covers-still :
      (before after : Dict N ℕ) (es : List (Edge N L))
      → ((node : N) → lookup dn node before ≢ none → lookup dn node after ≢ none)
      → Covers dn dl labels before es
      → Covers dn dl labels after es
  Covers-still before after [] h c = tt
  Covers-still before after (e ∷ es) h c =
      ((h e.source c.0.0, h e.target c.0.1), Covers-still before after es h c.1)

  Inv-Swept :
      (before after : Dict N ℕ) (more : Bool)
      → Inv before
      → Swept dn dl labels limit edges false before after more
      → Inv after
  Inv-Swept before after more inv v = record {
    covers = Covers-still before after edges v.still_there inv.covers;
    of_nodes = λ node h. inv.of_nodes node (v.no_new node h);
    bounded = v.bounded inv.bounded;
  }

  abbrev sum : Dict N ℕ → ℕ
  sum stratum = total dn nodes (at dn dl labels stratum)

  sum-lt :
      (before after : Dict N ℕ)
      → Inv before
      → Swept dn dl labels limit edges false before after true
      → sum before < sum after
  sum-lt before after inv v = elim (v.raised refl) [
    | inl c ↦ cc
    | inr (node, there, lt) ↦
        total-lt dn nodes (at dn dl labels before) (at dn dl labels after) node v.grows
          (inv.of_nodes node there) lt
  ]

  Settled-Swept :
      (before after : Dict N ℕ)
      → Inv before
      → Swept dn dl labels limit edges false before after false
      → Settled before after
  Settled-Swept before after inv v =
      let (c, same, solved) = v.solved refl in
      record {
        grows = v.grows;
        still_there = v.still_there;
        below = v.below;
        bounded = v.bounded inv.bounded;
        solves =
            subst (λ f. Solves dn dl labels f edges) (fun_ext (λ node. sym (same node))) solved;
      }

  Settled-trans :
      (a b c : Dict N ℕ) {more : Bool}
      → Swept dn dl labels limit edges false a b more
      → Settled b c
      → Settled a c
  Settled-trans a b c v s = record {
    grows = λ node. le_trans (v.grows node) (s.grows node);
    still_there = λ node h. s.still_there node (v.still_there node h);
    below = λ r h le. s.below r h (v.below r h le);
    bounded = s.bounded;
    solves = s.solves;
  }

  -- How the loop ends: with the least solution, or with None where there is none in the limit.
  abbrev pub Ends : ℕ → Dict N ℕ → Type 0
  Ends fuel stratum =
      ((rounds dn dl labels fuel limit edges stratum ≡ finished (ok none))
        × Exceeds dn dl labels limit edges stratum)
      ⊎ ((after : Dict N ℕ) × (rounds dn dl labels fuel limit edges stratum
            ≡ finished (ok (some after)))
          × Settled stratum after)

  Ends-next :
      (fuel : ℕ) (before after : Dict N ℕ)
      → sweep dn dl labels limit edges before false ≡ ok (some (after, true))
      → Swept dn dl labels limit edges false before after true
      → Ends fuel after
      → Ends (suc fuel) before
  unfolding rounds
  Ends-next fuel before after ran v (inl (e, over)) =
      inl (rw (ran, rounds) e, λ r h le fits. over r h (v.below r h le) fits)
  Ends-next fuel before after ran v (inr (last, e, s)) =
      inr (last, rw (ran, rounds) e, Settled-trans before after last v s)

  -- The fuel suffices where it exceeds what the sum of the strata can still grow.
  pub rounds_end :
      (fuel : ℕ) (stratum : Dict N ℕ)
      → Inv stratum
      → length nodes * limit < fuel + sum stratum
      → Ends fuel stratum
  unfolding rounds
  rounds_end zero stratum inv h =
      absurd (omega (arith, total_bounded dn nodes (at dn dl labels stratum) limit inv.bounded))
  rounds_end (suc fuel) stratum inv h =
      elim (sweep_lem dn dl labels limit edges stratum false inv.covers) [
        | inl (ran, over) ↦ inl (rw (ran, rounds) refl, over)
        | inr (after, false, ran, v) ↦
            inr (after, rw (ran, rounds) refl, Settled-Swept stratum after inv v)
        | inr (after, true, ran, v) ↦ Ends-next fuel stratum after ran v (
            rounds_end fuel after (Inv-Swept stratum after true inv v)
              (omega (arith, sum-lt stratum after inv v)))
      ]
