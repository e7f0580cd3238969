-- ===== src/Tablename.antt =====
-- The class Tablename of congress/datalog/compile.py. A Python string is the list of the codes of
-- its characters. A table's name is never None here, as wherever the class is used; the service
-- and the modal are None where there is none.
pub mod Strings
pub mod Updates
pub mod Services
mod Tests
use congress.Prelude.{
  ℕ, Bool, true, false, ◌&&◌, ◌||◌, Option, none, some, List, [], ◌∷◌, ◌++◌, ◌==◌, if◌then◌else◌,
  tuple_discrete, ℕ_discrete, ite, refl, is_empty, Result, ok, raise, Error,
}

abbrev pub Str : Type 0
Str = List ℕ

abbrev pub str_discrete : Discrete Str
str_discrete = tuple_discrete ℕ_discrete

abbrev pub colon : ℕ
colon = 58

abbrev pub plus : ℕ
plus = 43

abbrev pub minus : ℕ
minus = 45

pub record Tablename : Type 0 where
  pub table : Str
  pub service : Option Str
  pub modal : Option Str

abbrev pub same_str : Str → Str → Bool
same_str s t = ite (str_discrete s t) true false

-- `==` where either side may be None.
abbrev pub same_option : Option Str → Option Str → Bool
same_option none none = true
same_option (some s) (some t) = same_str s t
same_option _ _ = false

-- `s.split(':')`: the first piece and the others.
unfoldable pub split : Str → Str × List Str
split [] = ([], [])
split (c ∷ s) =
    let (piece, pieces) = split s in
    if c == colon then ([], piece ∷ pieces) else (c ∷ piece, pieces)

-- `':'.join(pieces)`
unfoldable pub join : List Str → Str
join [] = []
join (piece ∷ []) = piece
join (piece ∷ piece' ∷ pieces) = piece ++ colon ∷ join (piece' ∷ pieces)

pub parse_service_table : Str → Option Str × Str
parse_service_table tablename =
    let (piece, pieces) = split tablename in
    elim pieces [ [] ↦ (none, piece) | p ∷ ps ↦ (some piece, join (p ∷ ps)) ]

unfoldable pub build_service_table : Str → Str → Str
build_service_table service table = service ++ colon ∷ table

pub create_from_tablename : Str → Option Str → Bool → Tablename
create_from_tablename tablename none true =
    let (service, table) = parse_service_table tablename in
    record { table = table; service = service; modal = none }
create_from_tablename tablename service use_modules = record {
  table = tablename;
  service = service;
  modal = none;
}

abbrev pub present : List (Option Str) → List Str
present [] = []
present (none ∷ xs) = present xs
present (some s ∷ xs) = s ∷ present xs

unfoldable pub global_tablename : Tablename → Option Str → Str
global_tablename t prefix = join (present (prefix ∷ t.service ∷ some t.table ∷ []))

pub matches : Tablename → Option Str → Str → Option Str → Bool
matches t service table modal =
    let (own_service, own_table) = parse_service_table t.table in
    if same_option service t.service && (same_str table t.table && same_option modal t.modal)
    then true
    else same_option service own_service && (same_str table own_table && same_option modal t.modal)

-- `__eq__`
pub same_name : Tablename → Tablename → Bool
same_name t t' =
    same_str t.table t'.table && (same_option t.service t'.service && same_option t.modal t'.modal)

-- `a or b` for strings: None and the empty string give way.
abbrev pub or_default : Option Str → Option Str → Option Str
or_default none other = other
or_default (some []) other = other
or_default (some (c ∷ s)) other = some (c ∷ s)

-- `same`
unfoldable pub same_table : Tablename → Tablename → Option Str → Bool
same_table t t' default_service =
    if same_str t.table t'.table
    then if same_option t.modal t'.modal
      then same_option (or_default t.service default_service)
          (or_default t'.service default_service)
      else false
    else false

unfoldable pub name : Tablename → Option Str → Str
name t default_service = elim (or_default t.service default_service) [
  | none ↦ t.table
  | some service ↦ service ++ colon ∷ t.table
]

-- The string without its last character, and this character: `s[:-1]`, `s[-1:]`.
unfoldable pub unsnoc : Str → Option (Str × ℕ)
unsnoc [] = none
unsnoc (c ∷ s) = elim (unsnoc s) [
  | none ↦ some ([], c)
  | some (front, last) ↦ some (c ∷ front, last)
]

unfoldable pub is_update : Tablename → Bool
is_update t = elim (unsnoc t.table) [
  | none ↦ false
  | some (front, last) ↦ (last == plus) || (last == minus)
]

pub invert_update : Tablename → Tablename × Bool
invert_update t = elim (unsnoc t.table) [
  | none ↦ (t, false)
  | some (front, last) ↦
      if last == plus
      then (record t { table = front ++ minus ∷ [] }, true)
      else if last == minus
      then (record t { table = front ++ plus ∷ [] }, true)
      else (t, false)
]

pub drop_update : Tablename → Tablename × Bool
drop_update t = elim (unsnoc t.table) [
  | none ↦ (t, false)
  | some (front, last) ↦
      if (last == plus) || (last == minus) then (record t { table = front }, true) else (t, false)
]

pub make_update : Bool → Tablename → Tablename × Bool
make_update is_insert t =
    (record t { table = t.table ++ (if is_insert then plus else minus) ∷ [] }, true)
