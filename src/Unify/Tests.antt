-- ===== src/Unify/Tests.antt =====
-- Runs of the unifier, and its theorem at one.
use congress.Prelude.{
  ℕ, ◌≡◌, refl, none, some, List, [], ◌∷◌, ℕ_discrete, pair_discrete, contains, lookup, insert,
  erase, ok, finished,
}
use congress.Unify.{
  Term, variable, object, Store, term_discrete, find_end, apply_full, undo_all, bi_var_equal, step,
  unify_from, bi_unify_lists,
}
use congress.Unify.Extend.{IsValid, insert-IsValid}
use congress.Unify.Correct.{Outcome, bi_unify_lists_lem}

program : Unit {0}
unfolding term_discrete find_end apply_full undo_all bi_var_equal step unify_from bi_unify_lists
    contains lookup insert erase ℕ_discrete pair_discrete
program = tt

-- Unifier 1 has 7 for its variable 5.
abbrev store : Store ℕ ℕ
store = ((1, variable 5), (object 7, none)) ∷ []

abbrev left : List (Term ℕ ℕ)
left = variable 0 ∷ variable 5 ∷ object 3 ∷ []

abbrev right : List (Term ℕ ℕ)
right = variable 1 ∷ variable 1 ∷ variable 2 ∷ []

abbrev wrong : List (Term ℕ ℕ)
wrong = variable 1 ∷ object 8 ∷ object 3 ∷ []

unify_right :
    bi_unify_lists ℕ_discrete ℕ_discrete left 1 right 2 store
    ≡ finished (
        ok (
          some ((1, variable 0) ∷ (2, variable 1) ∷ (2, variable 2) ∷ []),
          ((1, variable 5), (object 7, none))
              ∷ ((1, variable 0), (variable 1, some 2))
              ∷ ((2, variable 1), (object 7, none))
              ∷ ((2, variable 2), (object 3, some 1))
              ∷ [],
        ))
unfolding program
unify_right = refl

unify_wrong :
    bi_unify_lists ℕ_discrete ℕ_discrete left 1 wrong 2 store ≡ finished (ok (none, store))
unfolding program
unify_wrong = refl

empty-IsValid : IsValid ℕ_discrete ℕ_discrete []
unfolding find_end lookup
empty-IsValid = (λ u t x e. cc, λ u t e. cc, λ u c. refl)

store-IsValid : IsValid ℕ_discrete ℕ_discrete store
unfolding lookup insert
store-IsValid =
    insert-IsValid ℕ_discrete ℕ_discrete [] 1 5 (object 7, none) empty-IsValid refl tt (λ e. cc)

bi_unify_lists_lem_example :
    Outcome ℕ_discrete ℕ_discrete store store 1 2 left right
      (bi_unify_lists ℕ_discrete ℕ_discrete left 1 right 2 store)
bi_unify_lists_lem_example =
    bi_unify_lists_lem ℕ_discrete ℕ_discrete left right 1 2 store store-IsValid
