-- ===== src/Tablename/Services.antt =====
-- Names with a service: `service:table`.
use congress.Prelude.{
  ◌≡◌, ap, subst, List-cases, inl, inr, true, none, some, List, [], ◌∷◌, ◌∙◌, Option,
}
use congress.Tablename.{
  Str, split, join, parse_service_table, build_service_table, create_from_tablename,
  global_tablename,
}
use congress.Tablename.Strings.{IsPlain, split_plain, join-split}

-- The parts of a name are those that it is built of, where the service has no colon; the table
-- may have some.
pub parse_service_table-build_service_table :
    (service table : Str)
    → IsPlain service
    → parse_service_table (build_service_table service table) ≡ (some service, table)
unfolding parse_service_table build_service_table
parse_service_table-build_service_table service table h =
    ap {B = Option Str × Str}
      (λ (p : Str × List Str). elim p.1 as (λ _. Option Str × Str) [
        | [] ↦ (none, p.0)
        | q ∷ qs ↦ (some p.0, join (q ∷ qs))
      ])
      (split_plain service table h)
    ∙ (ap (λ t. (some service, t)) (join-split table))

-- The global name of a table that is created from a name is this name again.
pub global_tablename-create_from_tablename :
    (tablename : Str)
    → global_tablename (create_from_tablename tablename none true) none ≡ tablename
unfolding global_tablename create_from_tablename parse_service_table join
global_tablename-create_from_tablename tablename = elim (List-cases (split tablename).1) [
  | inl e ↦
      rw (e, parse_service_table)
        (subst (λ qs. join ((split tablename).0 ∷ qs) ≡ tablename) e (join-split tablename))
  | inr (p, ps, e) ↦
      rw (e, parse_service_table)
        (subst (λ qs. join ((split tablename).0 ∷ qs) ≡ tablename) e (join-split tablename))
]
