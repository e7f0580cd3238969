-- ===== src/Builtins/Tests.antt =====
-- Runs of the registry, and its theorems at a small one.
use congress.Prelude.{
  ◌≡◌, ◌≢◌, refl, true, none, some, [], ◌∷◌, contains, lookup, insert, erase, ℕ_discrete,
  tuple_discrete, if◌then◌else◌, length,
}
use congress.Tablename.{Str, Tablename, str_discrete}
use congress.Builtins.{
  BuiltinPred, CategoryMap, empty_map, sync_add, sync_del, sync_del_all, builtin_is_registered,
  exists_category, insert_category, insert_to_category, delete_category, delete_all_in_category,
  add_pred, add_preds, add_map, get_category_name, is_builtin, builtin_of,
}
use congress.Builtins.Laws.{names, delete_category_lem, insert_to_category_lem}

program : Unit {0}
unfolding sync_add sync_del sync_del_all builtin_is_registered exists_category insert_category
    insert_to_category delete_category delete_all_in_category add_pred add_preds add_map
    get_category_name is_builtin builtin_of contains lookup insert erase ℕ_discrete tuple_discrete
program = tt

-- `lt(x,y)` with two inputs, `plus(x,y,z)` with two
abbrev lt_pred : BuiltinPred
lt_pred = record { predname = 1 ∷ []; predargs = (120 ∷ []) ∷ (121 ∷ []) ∷ []; num_inputs = 2 }

abbrev plus_pred : BuiltinPred
plus_pred = record {
  predname = 2 ∷ [];
  predargs = (120 ∷ []) ∷ (121 ∷ []) ∷ (122 ∷ []) ∷ [];
  num_inputs = 2;
}

abbrev registry : CategoryMap
registry = add_map ((7 ∷ [], lt_pred ∷ []) ∷ (8 ∷ [], plus_pred ∷ lt_pred ∷ []) ∷ []) empty_map

abbrev lt_table : Tablename
lt_table = record { table = 1 ∷ []; service = some (9 ∷ []); modal = none }

registry_lists : registry.categorydict ≡ (7 ∷ [], lt_pred ∷ []) ∷ (8 ∷ [], plus_pred ∷ []) ∷ []
unfolding program
registry_lists = refl

-- Any service will do, and an arity of 0 is not compared.
lt_builtin : is_builtin lt_table (some 0) registry ≡ true
unfolding program
lt_builtin = refl

lt_category : get_category_name (1 ∷ []) 2 registry ≡ some (7 ∷ [])
unfolding program
lt_category = refl

delete_category_lem_example :
    (lookup str_discrete (7 ∷ []) (delete_category (7 ∷ []) registry).categorydict ≡ none)
    × ((table : Tablename)
        → builtin_of table (delete_category (7 ∷ []) registry) ≡ (
            if contains str_discrete table.table (names (lt_pred ∷ []))
            then none
            else builtin_of table registry))
unfolding program
delete_category_lem_example = delete_category_lem (7 ∷ []) (lt_pred ∷ []) registry refl

insert_to_category_lem_example :
    (lookup str_discrete (7 ∷ []) (insert_to_category (7 ∷ []) plus_pred registry).categorydict
      ≡ some (lt_pred ∷ plus_pred ∷ []))
    × ((other : Str)
        → other ≢ 7 ∷ []
        → lookup str_discrete other (insert_to_category (7 ∷ []) plus_pred registry).categorydict
          ≡ lookup str_discrete other registry.categorydict)
    × ((table : Tablename)
        → table.table ≡ plus_pred.predname
        → (is_builtin table
              (some (length plus_pred.predargs))
              (insert_to_category (7 ∷ []) plus_pred registry)
            ≡ true)
          × (builtin_of table (insert_to_category (7 ∷ []) plus_pred registry) ≡ some plus_pred))
    × ((table : Tablename)
        → table.table ≢ plus_pred.predname
        → builtin_of table (insert_to_category (7 ∷ []) plus_pred registry)
          ≡ builtin_of table registry)
unfolding program
insert_to_category_lem_example =
    insert_to_category_lem (7 ∷ []) plus_pred (lt_pred ∷ []) registry refl
