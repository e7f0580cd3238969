-- ===== src/Builtins.antt =====
-- The registry of the builtin predicates, CongressBuiltinCategoryMap of congress/datalog/builtin.py.
-- A predicate is known by the name before the parenthesis of its 'func' string and by its
-- arguments there; its code, which only evaluation calls, is left out. In a list of predicates,
-- `remove` drops the very object that a loop has found.
pub mod Laws
mod Tests
use congress.Prelude.{
  ℕ, zero, suc, Bool, true, false, ◌&&◌, Option, none, some, List, [], ◌∷◌, ◌++◌, ◌==◌,
  if◌then◌else◌, is_empty, length, Dict, lookup, insert, erase, contains, keys, Result, ok, raise,
  key_error, Action, ite,
}
use congress.Tablename.{Str, Tablename, str_discrete, same_str}

-- `CongressBuiltinPred`
pub record BuiltinPred : Type 0 where
  pub predname : Str
  pub predargs : List Str
  pub num_inputs : ℕ

pub record CategoryMap : Type 0 where
  pub categorydict : Dict Str (List BuiltinPred)
  pub preddict : Dict Str (BuiltinPred × Str)

abbrev pub empty_map : CategoryMap
empty_map = record { categorydict = []; preddict = [] }

-- `sync_with_predlist`, with 'add' and with 'del'
pub sync_add : BuiltinPred → Str → CategoryMap → CategoryMap
sync_add pred category m = record m {
  preddict = insert str_discrete pred.predname (pred, category) m.preddict;
}

pub sync_del : BuiltinPred → CategoryMap → CategoryMap
sync_del pred m = record m { preddict = erase str_discrete pred.predname m.preddict }

pub builtin_is_registered : BuiltinPred → CategoryMap → Bool
builtin_is_registered pred m = elim (lookup str_discrete pred.predname m.preddict) [
  | none ↦ false
  | some (found, category) ↦ found.num_inputs == pred.num_inputs
]

pub exists_category : Str → CategoryMap → Bool
exists_category category m = contains str_discrete category (keys m.categorydict)

pub insert_category : Str → CategoryMap → CategoryMap
insert_category category m = record m {
  categorydict = insert str_discrete category [] m.categorydict;
}

-- `assert` of a string that is not empty never fails, so an unknown category changes nothing.
pub insert_to_category : Str → BuiltinPred → CategoryMap → CategoryMap
insert_to_category category pred m = elim (lookup str_discrete category m.categorydict) [
  | none ↦ m
  | some preds ↦
      sync_add pred category (record m {
        categorydict = insert str_discrete category (preds ++ pred ∷ []) m.categorydict;
      })
]

pub sync_del_all : List BuiltinPred → CategoryMap → CategoryMap
sync_del_all [] m = m
sync_del_all (pred ∷ preds) m = sync_del_all preds (sync_del pred m)

pub delete_category : Str → CategoryMap → CategoryMap
delete_category category m = elim (lookup str_discrete category m.categorydict) [
  | none ↦ m
  | some preds ↦
      let m' = sync_del_all preds m in
      record m' { categorydict = erase str_discrete category m'.categorydict }
]

pub delete_all_in_category : Str → CategoryMap → CategoryMap
delete_all_in_category category m = elim (lookup str_discrete category m.categorydict) [
  | none ↦ m
  | some preds ↦
      let m' = sync_del_all preds m in
      record m' { categorydict = insert str_discrete category [] m'.categorydict }
]

-- One predicate of a map to be added; the loops of `__init__` and `add_map` over it.
pub add_pred : Str → BuiltinPred → CategoryMap → CategoryMap
add_pred category pred m =
    if builtin_is_registered pred m then m else insert_to_category category pred m

pub add_preds : Str → List BuiltinPred → CategoryMap → CategoryMap
add_preds category [] m = m
add_preds category (pred ∷ preds) m = add_preds category preds (add_pred category pred m)

pub add_map : Dict Str (List BuiltinPred) → CategoryMap → CategoryMap
add_map [] m = m
add_map ((category, preds) ∷ newmap) m = add_map newmap (
    add_preds category preds (if exists_category category m then m else insert_category category m))

pub get_category_name : Str → ℕ → CategoryMap → Option Str
get_category_name predname predinputs m = elim (lookup str_discrete predname m.preddict) [
  | none ↦ none
  | some (found, category) ↦ if found.num_inputs == predinputs then some category else none
]

-- `is_builtin`; an arity of None or 0 is not compared.
unfoldable pub is_builtin : Tablename → Option ℕ → CategoryMap → Bool
is_builtin table arity m = elim (lookup str_discrete table.table m.preddict) [
  | none ↦ false
  | some (found, category) ↦ elim arity [
    | none ↦ true
    | some n ↦ if n == 0 then true else length found.predargs == n
  ]
]

-- `builtin`
unfoldable pub builtin_of : Tablename → CategoryMap → Option BuiltinPred
builtin_of table m = elim (lookup str_discrete table.table m.preddict) [
  | none ↦ none
  | some (found, category) ↦ some found
]
