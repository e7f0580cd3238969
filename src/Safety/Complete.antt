-- ===== src/Safety/Complete.antt =====
-- `reorder_for_safety` finds a safe order exactly where there is one, and leaves a rule alone
-- that has one.
use congress.Prelude.{
  ◌+◌, ◌≡◌, ◌⊎◌, inl, inr, refl, sym, ◌∙◌, ap, true, false, List, [], ◌∷◌, arith, contains,
  Bool-cases, List-cases, if_pos, occurrences, contains-occurrences, ok, raise, finished, Run,
  policy_exception,
}
use congress.Tablename.{Str, str_discrete}
use congress.Builtins.{CategoryMap}
use congress.Literals.{Literal, Rule, variable_names, update_all, names_in, is_rule}
use congress.Literals.Equality.{literal_discrete}
use congress.Safety.{Reorder, start, subset, reorder_for_safety}
use congress.Safety.Settle.{contains-update_all, subset_of, of_subset}
use congress.Safety.Order.{needs, IsOrdered, Inv, IsStuck, held}
use congress.Safety.Place.{place_all_lem}

module _ {C : Type 0} (dc : Discrete C) (registry : CategoryMap) where
  contains-names_in_old :
      (v : Str) (bound : List Str) (lits : List (Literal C))
      → contains str_discrete v bound ≡ true
      → contains str_discrete v (names_in bound lits) ≡ true
  unfolding names_in
  contains-names_in_old v bound [] k = k
  contains-names_in_old v bound (l ∷ lits) k =
      contains-names_in_old v (update_all bound (variable_names l)) lits
        (ground (arith, k, contains-update_all v bound (variable_names l)))

  -- The variables of a literal are bound behind it.
  contains-names_in :
      (v : Str) (bound : List Str) (lits : List (Literal C)) (lit : Literal C)
      → contains (literal_discrete dc) lit lits ≡ true
      → contains str_discrete v (variable_names lit) ≡ true
      → contains str_discrete v (names_in bound lits) ≡ true
  unfolding names_in contains
  contains-names_in v bound [] lit c k = cc
  contains-names_in v bound (l ∷ lits) lit c k = elim (literal_discrete dc lit l) [
    | yes p ↦
        contains-names_in_old v (update_all bound (variable_names l)) lits
          (ground (arith, contains-update_all v bound (variable_names l), ap variable_names p, k))
    | no n ↦
        contains-names_in v (update_all bound (variable_names l)) lits lit (ground (arith, c, n)) k
  ]

  -- Where every literal of a safe order is placed or unsafe, in a state that is stuck, none of them
  -- is unsafe.
  none_unsafe :
      (s : Reorder C) (bound : List Str) (lits : List (Literal C))
      → Inv dc registry s
      → IsStuck dc registry s
      → ((v : Str)
          → contains str_discrete v bound ≡ true
          → contains str_discrete v s.safe_vars ≡ true)
      → ((l : Literal C)
          → contains (literal_discrete dc) l lits ≡ true
          → (contains (literal_discrete dc) l s.new_body ≡ true)
            ⊎ (contains (literal_discrete dc) l s.unsafe_literals ≡ true))
      → IsOrdered registry bound lits
      → (l : Literal C) → contains (literal_discrete dc) l lits ≡ true
      → contains (literal_discrete dc) l s.unsafe_literals ≡ false
  unfolding contains
  none_unsafe s bound [] inv stuck sub held ordered l c = cc
  none_unsafe s bound (lit ∷ lits) inv stuck sub where_held (safe, ordered) l c =
      elim (literal_discrete dc l lit) [
        | yes p ↦ rw p is_safe
        | no n ↦
            none_unsafe s (update_all bound (variable_names lit)) lits inv stuck
              (λ v k. elim (Bool-cases (contains str_discrete v bound)) [
                | inl old ↦ sub v old
                | inr new ↦
                    placed v
                      (ground (arith, k, new, contains-update_all v bound (variable_names lit)))
              ])
              (λ k h. where_held k (ground (arith, h))) ordered l (ground (arith, c, n))
      ]
    where
      is_safe : contains (literal_discrete dc) lit s.unsafe_literals ≡ false
      is_safe = elim (Bool-cases (contains (literal_discrete dc) lit s.unsafe_literals)) [
        | inr e ↦ e
        | inl e ↦ absurd (
            ground (
              arith,
              stuck lit e,
              subset_of (needs registry lit) s.safe_vars
                  (λ v k. sub v (of_subset (needs registry lit) bound v safe k)),
            ))
      ]

      placed :
          (v : Str)
          → contains str_discrete v (variable_names lit) ≡ true
          → contains str_discrete v s.safe_vars ≡ true
      placed v k = elim (where_held lit (if_pos (literal_discrete dc lit lit) refl true _)) [
        | inr e ↦ absurd (ground (arith, e, is_safe))
        | inl e ↦ rw inv.bound (contains-names_in v [] s.new_body lit e k)
      ]

  start-Inv : Inv dc registry start
  unfolding contains names_in
  start-Inv = record { ordered = tt; bound = refl; recorded = λ l c. cc }

  -- What `reorder_for_safety` does with a rule whose heads are not negated.
  pub data Reordered (rule : Rule C) (run : Run (Rule C)) : Type 0 where
    ordered :
        (body : List (Literal C))
        → run ≡ finished (ok (record rule { body = body }))
        → IsOrdered registry [] body
        → ((l : Literal C)
            → occurrences (literal_discrete dc) l body
              ≡ occurrences (literal_discrete dc) l rule.body)
        → Reordered rule run
    impossible :
        run ≡ finished (raise policy_exception)
        → ((body : List (Literal C))
            → ((l : Literal C)
                → contains (literal_discrete dc) l body
                  ≡ contains (literal_discrete dc) l rule.body)
            → ¬ IsOrdered registry [] body)
        → Reordered rule run

  -- `reorder_for_safety` of a rule whose heads are atoms ends. It returns the rule with every
  -- literal of the body as often as before, in an order in which each finds what it needs bound by
  -- those before it; or it raises PolicyException, and no list of the same literals, in any order
  -- and with any repetition, is so ordered.
  pub reorder_for_safety_lem :
      (rule : Rule C) → is_rule rule ≡ true → Reordered rule (reorder_for_safety dc registry rule)
  unfolding reorder_for_safety contains occurrences
  reorder_for_safety_lem rule h =
      let (s, ran, inv, stuck, same) =
        place_all_lem dc registry rule.body start start-Inv (λ l c. no_literal l c) in
      elim (List-cases s.unsafe_literals) [
        | inl e ↦
            ordered s.new_body (rw (h, reorder_for_safety) (rw ran (rw e refl))) inv.ordered
              (λ l. all_placed s e l (same l))
        | inr (lit, lits, e) ↦
            impossible (rw (h, reorder_for_safety) (rw ran (rw e refl))) (λ body member is_ordered.
              let is_lit = is_unsafe s lit lits e in
              ground (
                arith,
                is_lit,
                none_unsafe s [] body inv stuck (λ v k. cc)
                    (λ l c. somewhere s l (sym (member l) ∙ c) (same l)) is_ordered lit
                    (member lit ∙ was_there s lit is_lit (same lit)),
              ))
      ]
    where
      no_literal :
          (l : Literal C)
          → contains (literal_discrete dc) l [] ≡ true
          → subset (needs registry l) [] ≡ false
      no_literal l c = cc

      all_placed :
          (s : Reorder C)
          → s.unsafe_literals ≡ []
          → (l : Literal C)
          → held dc registry l s
            ≡ held dc registry l start + occurrences (literal_discrete dc) l rule.body
          → occurrences (literal_discrete dc) l s.new_body
            ≡ occurrences (literal_discrete dc) l rule.body
      all_placed s e l q = ground (arith, q, ap (occurrences (literal_discrete dc) l) e)

      is_unsafe :
          (s : Reorder C) (lit : Literal C) (lits : List (Literal C))
          → s.unsafe_literals ≡ lit ∷ lits
          → contains (literal_discrete dc) lit s.unsafe_literals ≡ true
      is_unsafe s lit lits e = rw e (if_pos (literal_discrete dc lit lit) refl true _)

      was_there :
          (s : Reorder C) (l : Literal C)
          → contains (literal_discrete dc) l s.unsafe_literals ≡ true
          → held dc registry l s
            ≡ held dc registry l start + occurrences (literal_discrete dc) l rule.body
          → contains (literal_discrete dc) l rule.body ≡ true
      was_there s l c q = ground (
        arith,
        c,
        q,
        contains-occurrences (literal_discrete dc) l s.unsafe_literals,
        contains-occurrences (literal_discrete dc) l rule.body,
      )

      somewhere :
          (s : Reorder C) (l : Literal C)
          → contains (literal_discrete dc) l rule.body ≡ true
          → held dc registry l s
            ≡ held dc registry l start + occurrences (literal_discrete dc) l rule.body
          → (contains (literal_discrete dc) l s.new_body ≡ true)
            ⊎ (contains (literal_discrete dc) l s.unsafe_literals ≡ true)
      somewhere s l c q = ground (
        arith,
        c,
        q,
        contains-occurrences (literal_discrete dc) l s.unsafe_literals,
        contains-occurrences (literal_discrete dc) l s.new_body,
        contains-occurrences (literal_discrete dc) l rule.body,
      )
