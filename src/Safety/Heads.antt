-- ===== src/Safety/Heads.antt =====
-- `rule_head_safety`, `rule_modal_safety`, `rule_head_has_no_theory` and `fact_has_no_theory`.
use congress.Prelude.{
  ◌≡◌, refl, ◌∙◌, ◌↔◌, Bool, true, false, ◌&&◌, ◌||◌, none, some, List, [], ◌∷◌, ◌++◌, arith,
  length, is_empty, if◌then◌else◌, contains, ltb,
}
use congress.Tablename.{Str, str_discrete}
use congress.Literals.{Literal, Rule, names_in}
use congress.Safety.{difference, subset}
use congress.Safety.Settle.{of_subset, subset_of}

-- `PolicyException`, by what its message is about.
pub data Problem (C : Type 0) : Type 0 where
  unsafe_head : Str → Problem C
  unknown_modal : Literal C → Problem C
  several_heads : Problem C
  modal_in_body : Literal C → Problem C
  theory_in_head : Literal C → Problem C
  theory_in_fact : Str → Problem C
  not_ground : Problem C

module _ {C : Type 0} where
  unfoldable pub unsafe_heads : List Str → List (Problem C)
  unsafe_heads [] = []
  unsafe_heads (x ∷ xs) = unsafe_head x ∷ unsafe_heads xs

  -- `rule_head_safety`
  unfoldable pub rule_head_safety : Rule C → List (Problem C)
  rule_head_safety rule = unsafe_heads (difference (names_in [] rule.heads) (names_in [] rule.body))

  has_modal : Literal C → Bool
  has_modal lit = elim lit.table.modal [ none ↦ false | some modal ↦ true ]

  any_modal : List (Literal C) → Bool
  any_modal [] = false
  any_modal (lit ∷ lits) = let rest = any_modal lits in if has_modal lit then true else rest

  -- `lit.table.modal` in the body is tested by its truth: the empty string has none.
  modals_of_body : List (Literal C) → List (Problem C)
  modals_of_body [] = []
  modals_of_body (lit ∷ lits) =
      let rest = modals_of_body lits in
      elim lit.table.modal [
        | none ↦ rest
        | some modal ↦ if is_empty modal then rest else modal_in_body lit ∷ rest
      ]

  -- The heads whose modal, in lower case, is not permitted.
  modals_of_heads : (Str → Bool) → List (Literal C) → List (Problem C)
  modals_of_heads permitted [] = []
  modals_of_heads permitted (lit ∷ lits) =
      let rest = modals_of_heads permitted lits in
      elim lit.table.modal [
        | none ↦ rest
        | some modal ↦ if permitted modal then rest else unknown_modal lit ∷ rest
      ]

  -- `rule_modal_safety`; `permitted` is `modal.lower() in PERMITTED_MODALS`.
  pub rule_modal_safety : (Str → Bool) → Rule C → List (Problem C)
  rule_modal_safety permitted rule =
      modals_of_heads permitted rule.heads
      ++ (if any_modal rule.heads && ltb 1 (length rule.heads) then several_heads ∷ [] else [])
      ++ modals_of_body rule.body

  -- `rule_head_has_no_theory`, with `permit_head` for None or a function.
  pub heads_with_theory : (Literal C → Bool) → List (Literal C) → List (Problem C)
  heads_with_theory permit_head [] = []
  heads_with_theory permit_head (head ∷ heads) =
      let rest = heads_with_theory permit_head heads in
      elim head.table.service [
        | none ↦ rest
        | some service ↦
            if has_modal head || permit_head head then rest else theory_in_head head ∷ rest
      ]

  -- `fact_has_no_theory`
  pub fact_has_no_theory : Literal C → List (Problem C)
  fact_has_no_theory atom = elim atom.table.service [
    | none ↦ []
    | some service ↦ theory_in_fact service ∷ []
  ]

is_empty-unsafe_heads :
    (C : Type 0) (xs : List Str) → is_empty (unsafe_heads {C = C} xs) ≡ is_empty xs
unfolding unsafe_heads
is_empty-unsafe_heads C [] = refl
is_empty-unsafe_heads C (x ∷ xs) = refl

module _ {C : Type 0} where
  -- `rule_head_safety` finds nothing exactly where every variable of a head is in the body.
  pub rule_head_safety_lem :
      (rule : Rule C)
      → (is_empty (rule_head_safety rule) ≡ true) ↔ (
          (v : Str)
          → contains str_discrete v (names_in [] rule.heads) ≡ true
          → contains str_discrete v (names_in [] rule.body) ≡ true)
  unfolding rule_head_safety subset
  rule_head_safety_lem rule = (
    λ h v k.
        of_subset (names_in [] rule.heads) (names_in [] rule.body) v
          (ground (
            arith,
            h,
            is_empty-unsafe_heads C (difference (names_in [] rule.heads) (names_in [] rule.body)),
          ))
          k,
    λ h.
        is_empty-unsafe_heads C (difference (names_in [] rule.heads) (names_in [] rule.body))
        ∙ subset_of (names_in [] rule.heads) (names_in [] rule.body) h,
  )
