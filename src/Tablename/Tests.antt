-- ===== src/Tablename/Tests.antt =====
-- Runs of Tablename on short strings, and its theorems at some.
use congress.Prelude.{◌≡◌, refl, true, none, some, [], ◌∷◌, ℕ_discrete, contains, tuple_discrete}
use congress.Tablename.{
  Str, Tablename, colon, split, join, unsnoc, parse_service_table, build_service_table,
  create_from_tablename, name, same_table, matches, global_tablename, is_update, invert_update,
  drop_update, make_update,
}
use congress.Tablename.Updates.{invert_update_twice}
use congress.Tablename.Services.{global_tablename-create_from_tablename}

program : Unit {0}
unfolding split join unsnoc parse_service_table build_service_table create_from_tablename name
    same_table matches global_tablename is_update invert_update drop_update make_update ℕ_discrete
    contains tuple_discrete
program = tt

-- "n", "s:c"
abbrev nova : Str
nova = 110 ∷ []

abbrev servers : Str
servers = 115 ∷ colon ∷ 99 ∷ []

parse_nova : parse_service_table (build_service_table nova servers) ≡ (some nova, servers)
unfolding program
parse_nova = refl

-- A name that begins with a colon has the empty service, which `name` drops.
name_empty_service : name (create_from_tablename (colon ∷ nova) none true) none ≡ nova
unfolding program
name_empty_service = refl

abbrev table : Tablename
table = record { table = servers; service = some nova; modal = none }

same_default :
    same_table table (record { table = servers; service = none; modal = none }) (some nova) ≡ true
unfolding program
same_default = refl

match_full :
    matches
      (record { table = 110 ∷ colon ∷ 99 ∷ []; service = none; modal = none })
      (some nova)
      (99 ∷ [])
      none
    ≡ true
unfolding program
match_full = refl

invert_update_twice_example :
    ((invert_update table).1 ≡ is_update table)
    × ((invert_update (invert_update table).0).0 ≡ table)
invert_update_twice_example = invert_update_twice table

global_tablename-create_from_tablename_example :
    global_tablename (create_from_tablename (colon ∷ servers) none true) none ≡ colon ∷ servers
global_tablename-create_from_tablename_example =
    global_tablename-create_from_tablename (colon ∷ servers)
