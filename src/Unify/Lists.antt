-- ===== src/Unify/Lists.antt =====
-- What the lists of terms and of changes in `bi_unify_lists` come to: lists that a valuation makes
-- equal, and changes whose undoing gives back a store.
use congress.Prelude.{
  ℕ, ◌≡◌, refl, ap, ◌∙◌, none, List, [], ◌∷◌, ◌++◌, arith, lookup, insert, erase,
}
use congress.Unify.{Term, Key, Value, Store, key_discrete, undo_all}
use congress.Unify.Ends.{ground_term}

module _ {X C : Type 0} where
  -- The lists have the same length, and a valuation makes them equal term by term.
  abbrev pub Equates : (ℕ → X → C) → ℕ → ℕ → List (Term X C) → List (Term X C) → Type 0
  Equates σ u w (x ∷ xs) (y ∷ ys) = (ground_term σ u x ≡ ground_term σ w y) × Equates σ u w xs ys
  Equates σ u w [] [] = Unit
  Equates σ u w _ _ = ⊥

module _ {X C : Type 0} (dx : Discrete X) (dc : Discrete C) where
  -- A binding that is new stands at the end, so erasing its key gives back what was there.
  erase-insert :
      (key : Key X C) (value : Value X C) (st : Store X C)
      → lookup (key_discrete dx dc) key st ≡ none
      → erase (key_discrete dx dc) key (insert (key_discrete dx dc) key value st) ≡ st
  unfolding lookup insert erase
  erase-insert key value [] new = ground arith
  erase-insert key value ((k, v) ∷ st) new = ground (arith, erase-insert key value st)

  erase_comm :
      (j k : Key X C) (st : Store X C)
      → erase (key_discrete dx dc) j (erase (key_discrete dx dc) k st)
        ≡ erase (key_discrete dx dc) k (erase (key_discrete dx dc) j st)
  unfolding erase
  erase_comm j k [] = refl
  erase_comm j k ((i, v) ∷ st) = ground (arith, erase_comm j k st)

  undo_all-snoc :
      (changes : List (Key X C)) (key : Key X C) (st : Store X C)
      → undo_all dx dc (changes ++ key ∷ []) st
        ≡ undo_all dx dc changes (erase (key_discrete dx dc) key st)
  unfolding undo_all
  undo_all-snoc [] key st = refl
  undo_all-snoc (c ∷ changes) key st =
      undo_all-snoc changes key (erase (key_discrete dx dc) c st)
      ∙ ap (undo_all dx dc changes) (erase_comm key c st)

  -- A new binding of an unbound key is undone with the changes before it.
  pub undo_all-insert :
      (changes : List (Key X C)) (key : Key X C) (value : Value X C) (st st₀ : Store X C)
      → lookup (key_discrete dx dc) key st ≡ none
      → undo_all dx dc changes st ≡ st₀
      → undo_all dx dc (changes ++ key ∷ []) (insert (key_discrete dx dc) key value st) ≡ st₀
  undo_all-insert changes key value st st₀ new same =
      undo_all-snoc changes key (insert (key_discrete dx dc) key value st)
      ∙ ap (undo_all dx dc changes) (erase-insert key value st new)
      ∙ same
