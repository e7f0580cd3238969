-- ===== src/Strata/Sweep.antt =====
-- One round of `Graph.stratification` (utility.py): strata only grow, stay below every solution,
-- and solve the constraints where nothing changed.
use congress.Prelude.{
  ℕ, ite, if_pos, if_neg, ◌+◌, ◌≤◌, ◌<◌, ◌≡◌, ◌≢◌, ◌⊎◌, inl, inr, refl, subst, ◌∙◌, Bool, true,
  false, ◌||◌, not, none, some, List, [], ◌∷◌, ltb, ◌==◌, arith, All, Bool-cases, Option-cases,
  Dict, lookup, insert, lookup-insert, ok, max,
}
use native.Mathlib.Nat.{le_trans}
use mathlib.Core.Path.{fun_ext}
use congress.Strata.{Edge, bump, sweep}

ne_of_test : (a b : ℕ) → (a == b) ≡ false → a ≢ b
ne_of_test a b h = ground arith

le_of_test : (a b : ℕ) → ltb a b ≡ false → b ≤ a
le_of_test a b h = ground arith

lt_of_test : (a b : ℕ) → ltb a b ≡ true → a < b
lt_of_test a b h = ground arith

lt_of_le_lt : {a b c : ℕ} → a ≤ b → b < c → a < c
lt_of_le_lt h k = omega arith

module _ {N L : Type 0} (dn : Discrete N) (dl : Discrete L) (labels : List L) where
  -- The stratum of a node, zero where it has none.
  abbrev pub at : Dict N ℕ → N → ℕ
  at stratum node = elim (lookup dn node stratum) [ none ↦ 0 | some n ↦ n ]

  -- The assignment meets the constraint of every edge.
  abbrev pub Solves : (N → ℕ) → List (Edge N L) → Type 0
  Solves s = All (λ e. s e.target + bump dn dl labels e ≤ s e.source)

  -- Both ends of every edge have a stratum.
  abbrev pub Covers : Dict N ℕ → List (Edge N L) → Type 0
  Covers stratum =
      All (λ e. (lookup dn e.source stratum ≢ none) × (lookup dn e.target stratum ≢ none))

  pub Covers-insert :
      (node : N) (n : ℕ) (stratum : Dict N ℕ) (edges : List (Edge N L))
      → Covers stratum edges
      → Covers (insert dn node n stratum) edges
  Covers-insert node n stratum [] h = tt
  Covers-insert node n stratum (e ∷ edges) h = (
    (
      ground (arith, lookup-insert dn e.source node n stratum),
      ground (arith, lookup-insert dn e.target node n stratum),
    ),
    Covers-insert node n stratum edges h.1,
  )

  -- What a round that began with `changes` makes of the strata `before`. It lowers none, passes
  -- no solution that was not passed before, and no limit. Where it ends with `more`, it began so
  -- or raised a stratum; else it left them all, and they solve the constraints.
  pub record Swept (limit : ℕ) (edges : List (Edge N L)) (changes : Bool) (before after : Dict N ℕ)
      (more : Bool) : Type 0 where
    pub grows : (node : N) → at before node ≤ at after node
    pub still_there : (node : N) → lookup dn node before ≢ none → lookup dn node after ≢ none
    pub no_new : (node : N) → lookup dn node after ≢ none → lookup dn node before ≢ none
    pub below :
        (r : N → ℕ)
        → Solves r edges
        → ((node : N) → at before node ≤ r node)
        → (node : N) → at after node ≤ r node
    pub bounded : ((node : N) → at before node ≤ limit) → (node : N) → at after node ≤ limit
    pub raised :
        more ≡ true
        → (changes ≡ true)
          ⊎ ((node : N) × (lookup dn node before ≢ none) × (at before node < at after node))
    pub solved :
        more ≡ false
        → (changes ≡ false)
          × ((node : N) → at after node ≡ at before node)
          × Solves (at before) edges

  -- No solution from these strata on stays within the limit.
  abbrev pub Exceeds : ℕ → List (Edge N L) → Dict N ℕ → Type 0
  Exceeds limit edges stratum =
      (r : N → ℕ)
      → Solves r edges
      → ((node : N) → at stratum node ≤ r node)
      → All (λ e. r e.source ≤ limit) edges
      → ⊥

  module _ (limit : ℕ) (e : Edge N L) (edges : List (Edge N L)) (changes : Bool) (before : Dict N ℕ)
      {old below : ℕ} (at_source : lookup dn e.source before ≡ some old)
      (at_target : lookup dn e.target before ≡ some below) where
    abbrev new : ℕ
    new = max old (bump dn dl labels e + below)

    abbrev next : Dict N ℕ
    next = insert dn e.source new before

    at-next : (node : N) → at next node ≡ ite (dn node e.source) new (at before node)
    at-next node = ground (arith, lookup-insert dn node e.source new before)

    at-source : at before e.source ≡ old
    at-source = ground arith

    at-target : at before e.target ≡ below
    at-target = ground arith

    next-le :
        (r : N → ℕ)
        → r e.target + bump dn dl labels e ≤ r e.source
        → ((node : N) → at before node ≤ r node)
        → (node : N) → at next node ≤ r node
    next-le r h le node = elim (dn node e.source) [
      | yes p ↦
          let s = le e.source in
          let t = le e.target in
          rw (at-next node) (rw (if_pos _ p) (rw p (omega (arith, at-source, at-target))))
      | no ne ↦ rw (at-next node) (rw (if_neg _ ne) (le node))
    ]

    next-bounded :
        new ≤ limit → ((node : N) → at before node ≤ limit) → (node : N) → at next node ≤ limit
    next-bounded h le node = ground (arith, at-next node, le node)

    next_grows : (node : N) → at before node ≤ at next node
    next_grows node = elim (dn node e.source) [
      | yes p ↦ rw (at-next node) (rw (if_pos _ p) (rw p (omega (arith, at-source))))
      | no ne ↦ rw (at-next node) (rw (if_neg _ ne) (omega arith))
    ]

    next_still : (node : N) → lookup dn node before ≢ none → lookup dn node next ≢ none
    next_still node h = ground (arith, lookup-insert dn node e.source new before)

    next_no_new : (node : N) → lookup dn node next ≢ none → lookup dn node before ≢ none
    next_no_new node h = ground (arith, lookup-insert dn node e.source new before)

    next_same : old ≡ new → (node : N) → at next node ≡ at before node
    next_same same node = elim (dn node e.source) [
      | yes p ↦ rw (at-next node) (rw (if_pos _ p) (rw p (omega (arith, at-source))))
      | no ne ↦ rw (at-next node) (rw (if_neg _ ne) refl)
    ]

    at-next_source : at next e.source ≡ new
    at-next_source = ground (arith, at-next e.source)

    raised_here :
        (after : Dict N ℕ) {more : Bool}
        → Swept limit edges (changes || not (old == new)) next after more
        → (changes || not (old == new)) ≡ true
        → (changes ≡ true)
          ⊎ ((node : N) × (lookup dn node before ≢ none) × (at before node < at after node))
    raised_here after v c = elim (Bool-cases changes) [
      | inl before_it ↦ inl before_it
      | inr first ↦
          let differs : (old == new) ≡ false = ground arith in
          let grown = v.grows e.source in
          inr (
            e.source,
            ground arith,
            omega (arith, at-source, at-next_source, ne_of_test old new differs),
          )
    ]

    -- The round over the first edge, and then the round over the others.
    Swept-cons :
        (after : Dict N ℕ) (more : Bool)
        → new ≤ limit
        → Swept limit edges (changes || not (old == new)) next after more
        → Swept limit (e ∷ edges) changes before after more
    Swept-cons after more fits v = record {
      grows = λ node. le_trans (next_grows node) (v.grows node);
      still_there = λ node h. v.still_there node (next_still node h);
      no_new = λ node h. next_no_new node (v.no_new node h);
      below = λ r h le. v.below r h.1 (next-le r h.0 le);
      bounded = λ le. v.bounded (next-bounded fits le);
      raised = λ h. elim (v.raised h) [
        | inl c ↦ raised_here after v c
        | inr (node, there, lt) ↦ inr (
          node,
          ground (arith, lookup-insert dn node e.source new before),
          lt_of_le_lt (next_grows node) lt,
        )
      ];
      solved = λ h.
          let (c, same, s) = v.solved h in
          let unchanged : old ≡ new = ground arith in
          (
            ground arith,
            λ node. same node ∙ next_same unchanged node,
            (
              omega (arith, at-source, at-target),
              subst (λ f. Solves f edges) (fun_ext (next_same unchanged)) s,
            ),
          );
    }

  module _ (limit : ℕ) (e : Edge N L) (edges : List (Edge N L)) (changes : Bool) (before : Dict N ℕ)
      {old below : ℕ} (at_source : lookup dn e.source before ≡ some old)
      (at_target : lookup dn e.target before ≡ some below) where
    sweep_over :
        ltb limit (max old (bump dn dl labels e + below)) ≡ true
        → sweep dn dl labels limit (e ∷ edges) before changes ≡ ok none
    unfolding sweep
    sweep_over h = rw (at_source, at_target, h, sweep)

    sweep_on :
        ltb limit (max old (bump dn dl labels e + below)) ≡ false
        → sweep dn dl labels limit (e ∷ edges) before changes
          ≡ sweep dn dl labels limit edges
              (insert dn e.source (max old (bump dn dl labels e + below)) before)
              (changes || not (old == max old (bump dn dl labels e + below)))
    unfolding sweep
    sweep_on h = rw (at_source, at_target, h, sweep)

    Exceeds-here :
        ltb limit (max old (bump dn dl labels e + below)) ≡ true → Exceeds limit (e ∷ edges) before
    Exceeds-here h r s le fits =
        let n = next-le limit e edges changes before at_source at_target r s.0 le e.source in
        let same = at-next_source limit e edges changes before at_source at_target in
        omega (arith, lt_of_test limit _ h, same)

    Exceeds-later :
        Exceeds limit edges (insert dn e.source (max old (bump dn dl labels e + below)) before)
        → Exceeds limit (e ∷ edges) before
    Exceeds-later over r s le fits =
        over r s.1 (next-le limit e edges changes before at_source at_target r s.0 le) fits.1

  -- A round over edges whose ends all have strata does not raise. It ends with strata as `Swept`
  -- says, or with None, where every solution from these strata on passes the limit.
  pub sweep_lem :
      (limit : ℕ) (edges : List (Edge N L)) (stratum : Dict N ℕ) (changes : Bool)
      → Covers stratum edges
      → ((sweep dn dl labels limit edges stratum changes ≡ ok none) × Exceeds limit edges stratum)
        ⊎ ((after : Dict N ℕ) × (more : Bool) × (sweep dn dl labels limit edges stratum changes
              ≡ ok (some (after, more)))
            × Swept limit edges changes stratum after more)
  unfolding sweep
  sweep_lem limit [] stratum changes h = inr (
    stratum,
    changes,
    refl,
    record {
      grows = λ node. omega arith;
      still_there = λ node there. there;
      no_new = λ node there. there;
      below = λ r s le. le;
      bounded = λ le. le;
      raised = λ c. inl c;
      solved = λ c. (c, (λ node. refl), tt);
    },
  )
  sweep_lem limit (e ∷ edges) stratum changes h = elim (Option-cases (lookup dn e.source stratum)) [
    | inl missing ↦ absurd (h.0.0 missing)
    | inr (old, at_source) ↦ elim (Option-cases (lookup dn e.target stratum)) [
      | inl missing ↦ absurd (h.0.1 missing)
      | inr (below, at_target) ↦
          elim (Bool-cases (ltb limit (max old (bump dn dl labels e + below)))) [
            | inl over ↦ inl (
              sweep_over limit e edges changes stratum at_source at_target over,
              Exceeds-here limit e edges changes stratum at_source at_target over,
            )
            | inr fits ↦
                let on = sweep_on limit e edges changes stratum at_source at_target fits in
                elim (sweep_lem limit edges
                  (insert dn e.source (max old (bump dn dl labels e + below)) stratum)
                  (changes || not (old == max old (bump dn dl labels e + below)))
                  (Covers-insert e.source _ stratum edges h.1)) [
                    | inl (ran, over) ↦ inl (
                      on ∙ ran,
                      Exceeds-later limit e edges changes stratum at_source at_target over,
                    )
                    | inr (after, more, ran, v) ↦ inr (
                      after,
                      more,
                      on ∙ ran,
                      Swept-cons limit e edges changes stratum at_source at_target after more
                          (le_of_test limit _ fits) v,
                    )
                  ]
          ]
    ]
  ]
