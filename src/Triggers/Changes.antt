-- ===== src/Triggers/Changes.antt =====
-- The tables that the events change for which `relevant_triggers` of
-- congress/policy_engines/agnostic.py looks up triggers.
use congress.Prelude.{
  ◌≡◌, ◌↔◌, ◌⊎◌, inl, inr, true, Option, List, [], ◌∷◌, contains, contains-append, arith,
  Bool-cases,
}
use congress.Tablename.{Str, str_discrete, global_tablename}
use congress.Literals.{Literal}
use congress.Triggers.{
  Change, rule_change, literal_change, table_change, head_tables, table_changes,
}

contains-cons :
    (table name : Str) (names : List Str)
    → (contains str_discrete table (name ∷ names) ≡ true)
      ↔ ((table ≡ name) ⊎ (contains str_discrete table names ≡ true))
unfolding contains
contains-cons table name names = elim (str_discrete table name) [
  | yes p ↦ (λ h. inl p, λ h. ground (arith, p))
  | no n ↦ (
    λ h. inr (ground (arith, n, h)),
    λ h. elim h [ inl p ↦ absurd (n p) | inr c ↦ ground (arith, n, c) ],
  )
]

module _ {C : Type 0} (table : Str) where
  -- The table is that of one of the heads.
  abbrev pub IsOfHead : List (Literal C) → Option Str → Type 0
  IsOfHead [] target = ⊥
  IsOfHead (lit ∷ heads) target =
      (table ≡ global_tablename lit.table target) ⊎ IsOfHead heads target

  abbrev pub IsChangedBy : Change C → Type 0
  IsChangedBy (rule_change heads target) = IsOfHead heads target
  IsChangedBy (literal_change lit target) = table ≡ global_tablename lit.table target
  IsChangedBy (table_change name) = table ≡ name

  abbrev pub IsChanged : List (Change C) → Type 0
  IsChanged [] = ⊥
  IsChanged (event ∷ events) = IsChangedBy event ⊎ IsChanged events

  head_tables_lem :
      (heads : List (Literal C)) (target : Option Str)
      → (contains str_discrete table (head_tables heads target) ≡ true) ↔ IsOfHead heads target
  unfolding head_tables contains
  head_tables_lem [] target = (λ h. cc, λ h. elim h [ ])
  head_tables_lem (lit ∷ heads) target =
      let step =
        contains-cons table (global_tablename lit.table target) (head_tables heads target) in
      let rest = head_tables_lem heads target in
      (
        λ h. elim (step.0 h) [ inl p ↦ inl p | inr c ↦ inr (rest.0 c) ],
        λ h. elim h [ inl p ↦ step.1 (inl p) | inr c ↦ step.1 (inr (rest.1 c)) ],
      )

  pub table_changes_lem :
      (events : List (Change C))
      → (contains str_discrete table (table_changes events) ≡ true) ↔ IsChanged events
  unfolding table_changes contains
  table_changes_lem [] = (λ h. cc, λ h. elim h [ ])
  table_changes_lem (literal_change lit target ∷ events) =
      let step = contains-cons table (global_tablename lit.table target) (table_changes events) in
      let rest = table_changes_lem events in
      (
        λ h. elim (step.0 h) [ inl p ↦ inl p | inr c ↦ inr (rest.0 c) ],
        λ h. elim h [ inl p ↦ step.1 (inl p) | inr c ↦ step.1 (inr (rest.1 c)) ],
      )
  table_changes_lem (table_change name ∷ events) =
      let step = contains-cons table name (table_changes events) in
      let rest = table_changes_lem events in
      (
        λ h. elim (step.0 h) [ inl p ↦ inl p | inr c ↦ inr (rest.0 c) ],
        λ h. elim h [ inl p ↦ step.1 (inl p) | inr c ↦ step.1 (inr (rest.1 c)) ],
      )
  table_changes_lem (rule_change heads target ∷ events) =
      let both =
        contains-append str_discrete table (head_tables heads target) (table_changes events) in
      let own = head_tables_lem heads target in
      let rest = table_changes_lem events in
      (
        λ h. elim (Bool-cases (contains str_discrete table (head_tables heads target))) [
          | inl c ↦ inl (own.0 c)
          | inr n ↦ inr (rest.0 (ground (arith, both, n, h)))
        ],
        λ h. elim h [
          | inl p ↦ let c = own.1 p in ground (arith, both, c)
          | inr q ↦ let c = rest.1 q in ground (arith, both, c)
        ],
      )
