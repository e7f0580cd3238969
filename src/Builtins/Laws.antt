-- ===== src/Builtins/Laws.antt =====
-- The predicates of the registry: each is listed in its category, and added maps are found.
use congress.Prelude.{
  ◌++◌, [], ◌∷◌, ℕ, ◌≡◌, refl, true, Option, none, some, List, [], ◌∷◌, arith, Option-cases, inl,
  inr, lookup, lookup-insert, lookup-erase, ◌≢◌, if_pos, length, contains, ◌∙◌, if◌then◌else◌,
}
use congress.Tablename.{Str, Tablename, str_discrete}
use congress.Builtins.{
  BuiltinPred, CategoryMap, sync_add, sync_del, sync_del_all, insert_to_category, delete_category,
  is_builtin, builtin_of,
}

abbrev pub names : List BuiltinPred → List Str
names [] = []
names (pred ∷ preds) = pred.predname ∷ names preds

-- What `is_builtin` finds has a predicate: `builtin` is not None for it.
pub builtin_of-is_builtin :
    (table : Tablename) (arity : Option ℕ) (m : CategoryMap)
    → is_builtin table arity m ≡ true
    → (pred : BuiltinPred) × (builtin_of table m ≡ some pred)
unfolding is_builtin builtin_of
builtin_of-is_builtin table arity m h =
    elim (Option-cases (lookup str_discrete table.table m.preddict)) [
      | inl e ↦ absurd (ground (arith, e, h))
      | inr ((pred, category), e) ↦ (pred, rw (e, builtin_of) refl)
    ]

lookup-sync_del_all :
    (k : Str) (preds : List BuiltinPred) (m : CategoryMap)
    → lookup str_discrete k (sync_del_all preds m).preddict
      ≡ (if contains str_discrete k (names preds) then none else lookup str_discrete k m.preddict)
unfolding sync_del_all sync_del contains
lookup-sync_del_all k [] m = refl
lookup-sync_del_all k (pred ∷ preds) m = ground (
  arith,
  lookup-sync_del_all k preds (sync_del pred m),
  lookup-erase str_discrete k pred.predname m.preddict,
)

categorydict-sync_del_all :
    (preds : List BuiltinPred) (m : CategoryMap)
    → (sync_del_all preds m).categorydict ≡ m.categorydict
unfolding sync_del_all sync_del
categorydict-sync_del_all [] m = refl
categorydict-sync_del_all (pred ∷ preds) m = categorydict-sync_del_all preds (sync_del pred m)

-- After `delete_category` of a category, it is not there, the names of its predicates are no
-- builtins, and every other name has the predicate that it had.
pub delete_category_lem :
    (category : Str) (preds : List BuiltinPred) (m : CategoryMap)
    → lookup str_discrete category m.categorydict ≡ some preds
    → (lookup str_discrete category (delete_category category m).categorydict ≡ none)
      × ((table : Tablename)
          → builtin_of table (delete_category category m) ≡ (
              if contains str_discrete table.table (names preds) then none else builtin_of table m))
unfolding delete_category builtin_of
delete_category_lem category preds m e =
    rw (e, delete_category)
      (
        lookup-erase str_discrete category category (sync_del_all preds m).categorydict
            ∙ if_pos (str_discrete category category) refl none _,
        λ table. ground (arith, lookup-sync_del_all table.table preds m),
      )

-- After `insert_to_category` of a predicate to a category that is there, the category lists the
-- predicate behind those it had, and the other categories are as they were. `is_builtin` finds the
-- name of the predicate with its number of arguments, `builtin` is this predicate, and the names of
-- others are as they were.
pub insert_to_category_lem :
    (category : Str) (pred : BuiltinPred) (preds : List BuiltinPred) (m : CategoryMap)
    → lookup str_discrete category m.categorydict ≡ some preds
    → (lookup str_discrete category (insert_to_category category pred m).categorydict
        ≡ some (preds ++ pred ∷ []))
      × ((other : Str)
          → other ≢ category
          → lookup str_discrete other (insert_to_category category pred m).categorydict
            ≡ lookup str_discrete other m.categorydict)
      × ((table : Tablename)
          → table.table ≡ pred.predname
          → (is_builtin table (some (length pred.predargs)) (insert_to_category category pred m)
              ≡ true)
            × (builtin_of table (insert_to_category category pred m) ≡ some pred))
      × ((table : Tablename)
          → table.table ≢ pred.predname
          → builtin_of table (insert_to_category category pred m) ≡ builtin_of table m)
unfolding insert_to_category builtin_of is_builtin sync_add
insert_to_category_lem category pred preds m e =
    rw (e, insert_to_category)
      (
        ground (
          arith,
          lookup-insert str_discrete category category (preds ++ pred ∷ []) m.categorydict,
        ),
        λ other n. ground (
          arith,
          n,
          lookup-insert str_discrete other category (preds ++ pred ∷ []) m.categorydict,
        ),
        λ table h. ground (
          arith,
          h,
          lookup-insert str_discrete table.table pred.predname (pred, category) m.preddict,
        ),
        λ table h. ground (
          arith,
          h,
          lookup-insert str_discrete table.table pred.predname (pred, category) m.preddict,
        ),
      )
