-- ===== src/Literals/Equality.antt =====
-- Equality of table names and literals is decided, as `__eq__` does part by part.
use congress.Prelude.{
  ℕ, ℕ_discrete, Bool, Option, none, some, List, refl, ap, pair_discrete, tuple_discrete,
}
use mathlib.Core.Bool.{Bool-discrete}
use mathlib.Core.Option.{some-injective}
use congress.Tablename.{Str, Tablename, str_discrete}
use congress.Unify.{Term, term_discrete}
use congress.Schemas.{Column, numbered, named}
use congress.Literals.{Literal}

unfoldable pub option_discrete : {A : Type 0} → Discrete A → Discrete (Option A)
option_discrete d none none = yes refl
option_discrete d none (some b) = no (λ e. cc)
option_discrete d (some a) none = no (λ e. cc)
option_discrete d (some a) (some b) = elim (d a b) [
  | yes p ↦ yes (ap some p)
  | no n ↦ no (λ e. n (some-injective a b e))
]

abbrev NameParts : Type 0
NameParts = Str × (Option Str × Option Str)

abbrev name_parts : Tablename → NameParts
name_parts t = (t.table, (t.service, t.modal))

abbrev of_name_parts : NameParts → Tablename
of_name_parts (table, (service, modal)) = record { table = table; service = service; modal = modal }

unfoldable pub tablename_discrete : Discrete Tablename
tablename_discrete t u =
    elim (pair_discrete str_discrete
      (pair_discrete (option_discrete str_discrete) (option_discrete str_discrete)) (name_parts t)
      (name_parts u)) [ yes p ↦ yes (ap of_name_parts p) | no n ↦ no (λ e. n (ap name_parts e)) ]

abbrev number_or : ℕ → Column → ℕ
number_or n (numbered i) = i
number_or n (named s) = n

abbrev string_or : Str → Column → Str
string_or s (numbered i) = s
string_or s (named t) = t

unfoldable pub column_discrete : Discrete Column
column_discrete (numbered i) (numbered j) = elim (ℕ_discrete i j) [
  | yes p ↦ yes (ap numbered p)
  | no n ↦ no (λ e. n (ap (number_or i) e))
]
column_discrete (numbered i) (named t) = no (λ e. cc)
column_discrete (named s) (numbered j) = no (λ e. cc)
column_discrete (named s) (named t) = elim (str_discrete s t) [
  | yes p ↦ yes (ap named p)
  | no n ↦ no (λ e. n (ap (string_or s) e))
]

module _ {C : Type 0} (dc : Discrete C) where
  abbrev Parts : Type 0
  Parts = Tablename × (List (Term Str C) × (Bool × List (Column × Term Str C)))

  abbrev parts : Literal C → Parts
  parts lit = (lit.table, (lit.arguments, (lit.negated, lit.named_arguments)))

  abbrev of_parts : Parts → Literal C
  of_parts (table, (arguments, (negated, named_arguments))) = record {
    table = table;
    arguments = arguments;
    negated = negated;
    named_arguments = named_arguments;
  }

  unfoldable pub literal_discrete : Discrete (Literal C)
  literal_discrete lit other =
      elim (pair_discrete tablename_discrete
        (pair_discrete (tuple_discrete (term_discrete str_discrete dc)) (
          pair_discrete Bool-discrete
            (tuple_discrete (pair_discrete column_discrete (term_discrete str_discrete dc)))))
        (parts lit) (parts other)) [ yes p ↦ yes (ap of_parts p) | no n ↦ no (λ e. n (ap parts e)) ]
