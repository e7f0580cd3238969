-- ===== src/OrderedSet/Links.antt =====
-- The links of a chain of cells, and what appending and unlinking a cell does to them.
use congress.Prelude.{
  ◌≡◌, ◌≢◌, ◌⊎◌, inl, inr, ◌∙◌, Bool, true, false, List, [], ◌∷◌, ◌++◌, arith, if_pos, if_neg,
  contains, contains_self, discard, IsDistinct, discard_absent,
}
use congress.OrderedSet.{Ref, end, cell, update}

module _ {K : Type 0} where
  -- The cells of the keys are linked both ways, from the cell `a` on, and the last to `end`.
  abbrev pub Links : (next prev : Ref K → Ref K) → Ref K → List K → Type 0
  Links next prev a [] = (next a ≡ end) × (prev end ≡ a)
  Links next prev a (k ∷ l) = (next a ≡ cell k) × (prev (cell k) ≡ a) × Links next prev (cell k) l

  -- The reference of the last cell, or `a` where there is none.
  abbrev pub last_ref : Ref K → List K → Ref K
  last_ref a [] = a
  last_ref a (k ∷ l) = last_ref (cell k) l

  pub Links-prev_end :
      (next prev : Ref K → Ref K) (a : Ref K) (l : List K)
      → Links next prev a l
      → prev end ≡ last_ref a l
  Links-prev_end next prev a [] h = h.1
  Links-prev_end next prev a (k ∷ l) h = Links-prev_end next prev (cell k) l h.2

module _ {K : Type 0} (dec : Discrete K) where
  -- Whether a reference is that of a cell with one of the keys.
  abbrev pub refers : Ref K → List K → Bool
  refers end l = false
  refers (cell k) l = contains dec k l

  refers-cons : (r : Ref K) (k : K) (l : List K) → refers r l ≡ true → refers r (k ∷ l) ≡ true
  unfolding contains
  refers-cons end k l h = cc
  refers-cons (cell j) k l h = ground arith

  refers-last_ref : (k : K) (l : List K) → refers (last_ref (cell k) l) (k ∷ l) ≡ true
  unfolding contains
  refers-last_ref k [] = ground arith
  refers-last_ref k (j ∷ l) = refers-cons (last_ref (cell j) l) k (j ∷ l) (refers-last_ref j l)

  -- Links depend on the fields of the cells in the chain alone.
  Links-frame :
      (next prev next' prev' : Ref K → Ref K) (a : Ref K) (l : List K)
      → next' a ≡ next a
      → prev' end ≡ prev end
      → ((k : K) → contains dec k l ≡ true → next' (cell k) ≡ next (cell k))
      → ((k : K) → contains dec k l ≡ true → prev' (cell k) ≡ prev (cell k))
      → Links next prev a l
      → Links next' prev' a l
  unfolding contains
  Links-frame next prev next' prev' a [] na pe n p h = (na ∙ h.0, pe ∙ h.1)
  Links-frame next prev next' prev' a (k ∷ l) na pe n p h = (
    na ∙ h.0,
    p k (ground arith) ∙ h.1,
    Links-frame next prev next' prev' (cell k) l (n k (ground arith)) pe (λ j c. n j (ground arith))
        (λ j c. p j (ground arith)) h.2,
  )

  update_self : (f : Ref K → Ref K) (r v : Ref K) → update dec f r v r ≡ v
  unfolding update
  update_self f r v = ground arith

  update_ne : (f : Ref K → Ref K) (r v q : Ref K) → q ≢ r → update dec f r v q ≡ f q
  unfolding update
  update_ne f r v q ne = ground arith

  -- A reference into the chain is none from outside it.
  ne_of_refers : (r q : Ref K) (l : List K) → refers r l ≡ true → refers q l ≡ false → q ≢ r
  ne_of_refers r q l h g e = cc

  module _ (next prev : Ref K → Ref K) (k : K) where
    abbrev last : Ref K
    last = prev end

    abbrev next' : Ref K → Ref K
    next' = update dec (update dec next (cell k) end) last (cell k)

    abbrev prev' : Ref K → Ref K
    prev' = update dec (update dec prev (cell k) last) end (cell k)

    -- A new cell behind the last one.
    pub Links-push :
        (a : Ref K) (l : List K)
        → Links next prev a l
        → IsDistinct dec l
        → refers a l ≡ false
        → a ≢ cell k
        → contains dec k l ≡ false
        → Links next' prev' a (l ++ k ∷ [])
    unfolding contains update
    Links-push a [] h d ha ne fresh = (ground arith, ground arith, (ground arith, ground arith))
    Links-push a (j ∷ l) h d ha ne fresh =
        let at_last : last ≡ last_ref (cell j) l = Links-prev_end next prev (cell j) l h.2 in
        let inside : refers last (j ∷ l) ≡ true = rw at_last (refers-last_ref j l) in
        let a_ne : a ≢ last = ne_of_refers last a (j ∷ l) inside ha in
        let j_ne : k ≢ j = ground arith in
        (
          ground arith,
          ground arith,
          Links-push (cell j) l h.2 d.1 d.0 (ground arith) (ground arith),
        )

    abbrev before : Ref K
    before = prev (cell k)

    abbrev after : Ref K
    after = next (cell k)

    abbrev next₁ : Ref K → Ref K
    next₁ = update dec next before after

    abbrev prev₁ : Ref K → Ref K
    prev₁ = update dec prev after before

    -- What unlinking the cell of `k` makes of a chain that has it; the cells beside it stand in
    -- the chain, or are where it begins and ends.
    pub record Unlinked (a : Ref K) (l : List K) : Type 0 where
      pub links : Links next₁ prev₁ a (discard dec k l)
      pub before_in : (before ≡ a) ⊎ (refers before l ≡ true)
      pub after_in : (after ≡ end) ⊎ (refers after l ≡ true)

    -- The chain behind the cell of `k` is as before, but for the link back to that cell.
    unlink_head :
        (a : Ref K) (l : List K)
        → Links next prev (cell k) l
        → before ≡ a
        → IsDistinct dec l
        → refers a l ≡ false
        → Links next₁ prev₁ a l
    unfolding contains update
    unlink_head a [] h e d ha = (ground arith, ground arith)
    unlink_head a (j ∷ l) h e d ha =
        let outside : (i : K) → contains dec i (j ∷ l) ≡ true → a ≢ cell i =
          λ i c. ne_of_refers (cell i) a (j ∷ l) c ha in
        (
          ground arith,
          ground arith,
          Links-frame next prev next₁ prev₁ (cell j) l (ground (arith, outside j)) (ground arith)
              (λ i c. ground (arith, outside i)) (λ i c. ground arith) h.2,
        )

    first_in :
        (r : Ref K) (l : List K) → Links next prev r l → (next r ≡ end) ⊎ (refers (next r) l ≡ true)
    first_in r [] h = inl h.0
    first_in r (j ∷ l) h = inr (rw h.0 (contains_self dec j l))

    -- A reference that is the first cell or one behind it stands in the chain.
    in_chain :
        (r : Ref K) (j : K) (l : List K)
        → (r ≡ cell j) ⊎ (refers r l ≡ true)
        → refers r (j ∷ l) ≡ true
    in_chain r j l (inl e) = rw e (contains_self dec j l)
    in_chain r j l (inr c) = refers-cons r j l c

    behind :
        (r : Ref K) (j : K) (l : List K)
        → (r ≡ end) ⊎ (refers r l ≡ true)
        → (r ≡ end) ⊎ (refers r (j ∷ l) ≡ true)
    behind r j l (inl e) = inl e
    behind r j l (inr c) = inr (refers-cons r j l c)

    not_behind :
        (r : Ref K) (j : K) (l : List K)
        → (r ≡ end) ⊎ (refers r l ≡ true)
        → contains dec j l ≡ false
        → cell j ≢ r
    not_behind r j l (inl e) fresh p = cc
    not_behind r j l (inr c) fresh p = cc

    pub Links-unlink :
        (a : Ref K) (l : List K)
        → Links next prev a l
        → IsDistinct dec l
        → refers a l ≡ false
        → contains dec k l ≡ true
        → Unlinked a l
    unfolding contains discard
    Links-unlink a [] h d ha there = cc
    Links-unlink a (j ∷ l) h d ha there = elim (dec k j) [
      | yes p ↦
          let here : Links next prev (cell k) l = rw p h.2 in
          record {
            links = rw (if_pos _ p) (
                rw (discard_absent dec k l (rw p d.0))
                  (unlink_head a l here (rw p h.1) d.1 (ground (arith, refers-cons a j l))));
            before_in = inl (rw p h.1);
            after_in = behind after j l (first_in (cell k) l here);
          }
      | no ne ↦
          let rest = Links-unlink (cell j) l h.2 d.1 d.0 (ground arith) in
          let chained = in_chain before j l rest.before_in in
          let a_ne = ne_of_refers before a (j ∷ l) chained ha in
          let j_ne = not_behind after j l rest.after_in d.0 in
          record {
            links = rw (if_neg _ ne) (
              update_ne next before after a a_ne ∙ h.0,
              update_ne prev after before (cell j) j_ne ∙ h.1,
              rest.links,
            );
            before_in = inr chained;
            after_in = behind after j l rest.after_in;
          }
    ]
