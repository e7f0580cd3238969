-- ===== src/Unify/Correct.antt =====
-- `bi_unify_lists` finds the most general unifier, and its changes can be undone.
use congress.Prelude.{
  ℕ, ◌+◌, ◌≡◌, ◌↔◌, inl, inr, refl, sym, ◌∙◌, Option, none, some, List, [], ◌∷◌, ◌++◌, length,
  arith, Option-cases, Bool-cases, insert, ◌==◌, ok, Run, finished,
}
use congress.Unify.{
  Term, variable, Key, Value, Store, key_discrete, undo_all, find_end, apply_full, unify_from,
  bi_unify_lists,
}
use congress.Unify.Ends.{ground_term, ground_value, Satisfies, ground-find_end, find_end-IsFree}
use congress.Unify.Extend.{IsValid, insert-IsValid}
use congress.Unify.Steps.{agree, clash, binds, step_lem, Satisfies-insert}
use congress.Unify.Lists.{Equates, undo_all-insert}

module _ {X C : Type 0} (dx : Discrete X) (dc : Discrete C) where
  -- What the loop comes to from a store and the changes so far: a store whose valuations are those
  -- of the old store that make the lists the same, or the store as it was before all changes where
  -- no valuation does.
  pub data Outcome (st st₀ : Store X C) (u w : ℕ) (xs ys : List (Term X C))
      (run : Run (Option (List (Key X C)) × Store X C)) : Type 0 where
    unified :
        (changes : List (Key X C)) (st' : Store X C)
        → run ≡ finished (ok (some changes, st'))
        → IsValid dx dc st'
        → ((σ : ℕ → X → C) → Satisfies dx dc σ st' ↔ (Satisfies dx dc σ st × Equates σ u w xs ys))
        → undo_all dx dc changes st' ≡ st₀
        → Outcome st st₀ u w xs ys run
    refused :
        (st' : Store X C)
        → run ≡ finished (ok (none, st'))
        → ((σ : ℕ → X → C) → Satisfies dx dc σ st → ¬ Equates σ u w xs ys)
        → st' ≡ st₀
        → Outcome st st₀ u w xs ys run

  module _ (st₀ : Store X C) (u w : ℕ) (x y : Term X C) (xs ys : List (Term X C)) where
    -- The outcome for the rest of the lists is that for the whole, by what the first step did.
    after_agree :
        (st : Store X C) (run : Run (Option (List (Key X C)) × Store X C))
        → ((σ : ℕ → X → C) → Satisfies dx dc σ st → ground_term σ u x ≡ ground_term σ w y)
        → Outcome st st₀ u w xs ys run
        → Outcome st st₀ u w (x ∷ xs) (y ∷ ys) run
    after_agree st run eq (unified changes st' e valid iff undone) =
        unified changes st' e valid
          (λ σ.
            (λ s. let (s₀, es) = (iff σ).0 s in (s₀, (eq σ s₀, es)), λ p. (iff σ).1 (p.0, p.1.1)))
          undone
    after_agree st run eq (refused st' e no_valuation undone) =
        refused st' e (λ σ s p. no_valuation σ s p.1) undone

    after_bind :
        (st st₁ : Store X C) (run : Run (Option (List (Key X C)) × Store X C))
        → ((σ : ℕ → X → C)
            → Satisfies dx dc σ st₁
              ↔ (Satisfies dx dc σ st × (ground_term σ u x ≡ ground_term σ w y)))
        → Outcome st₁ st₀ u w xs ys run
        → Outcome st st₀ u w (x ∷ xs) (y ∷ ys) run
    after_bind st st₁ run eq (unified changes st' e valid iff undone) =
        unified changes st' e valid
          (λ σ. (
            λ s. let (s₁, es) = (iff σ).0 s in let (s₀, h) = (eq σ).0 s₁ in (s₀, (h, es)),
            λ p. (iff σ).1 ((eq σ).1 (p.0, p.1.0), p.1.1),
          ))
          undone
    after_bind st st₁ run eq (refused st' e no_valuation undone) =
        refused st' e (λ σ s p. no_valuation σ ((eq σ).1 (s, p.0)) p.1) undone

  unify_from_lem :
      (xs ys : List (Term X C)) (st st₀ : Store X C) (u w : ℕ) (changes : List (Key X C))
      → length xs ≡ length ys
      → IsValid dx dc st
      → undo_all dx dc changes st ≡ st₀
      → Outcome st st₀ u w xs ys (unify_from dx dc u w changes xs ys st)
  unfolding unify_from apply_full
  unify_from_lem [] [] st st₀ u w changes len valid undone =
      unified changes st refl valid (λ σ. (λ s. (s, tt), λ p. p.0)) undone
  unify_from_lem [] (y ∷ ys) st st₀ u w changes len valid undone = elim impossible [ ]
    where
      impossible : ⊥
      impossible = omega arith
  unify_from_lem (x ∷ xs) [] st st₀ u w changes len valid undone = elim impossible [ ]
    where
      impossible : ⊥
      impossible = omega arith
  unify_from_lem (x ∷ xs) (y ∷ ys) st st₀ u w changes len valid undone =
      elim (Option-cases (apply_full dx dc st u x)) [
        | inl e ↦ elim (valid.1 u x e) [ ]
        | inr (v₁, e₁) ↦ elim (Option-cases (apply_full dx dc st w y)) [
          | inl e ↦ elim (valid.1 w y e) [ ]
          | inr (v₂, e₂) ↦
              elim (step_lem dx dc st v₁ v₂
                (find_end-IsFree dx dc st (length st + 1) u x v₁ valid.0 e₁)
                (find_end-IsFree dx dc st (length st + 1) w y v₂ valid.0 e₂)) [
                  | agree e h ↦
                      rw (e₁, unify_from)
                        (rw e₂ (
                          rw e (
                            after_agree st₀ u w x y xs ys st (unify_from dx dc u w changes xs ys st)
                              (λ σ s. ends σ s v₁ v₂ e₁ e₂ (h σ))
                              (unify_from_lem xs ys st st₀ u w changes (omega arith) valid
                                undone))))
                  | clash e h ↦
                      rw (e₁, unify_from)
                        (rw e₂ (
                          rw e (
                            refused (undo_all dx dc changes st) refl
                              (λ σ s q. h σ (starts σ s v₁ v₂ e₁ e₂ q.0)) undone)))
                  | binds v z value e new free other h ↦
                      rw (e₁, unify_from)
                        (rw e₂ (
                          rw e (
                            after_bind st₀ u w x y xs ys st
                              (insert (key_discrete dx dc) (v, variable z) value st)
                              (unify_from dx dc u w (changes ++ (v, variable z) ∷ []) xs ys
                                (insert (key_discrete dx dc) (v, variable z) value st))
                              (λ σ. (
                                λ s.
                                    let (s₀, q) = (Satisfies-insert dx dc σ st v z value new).0 s in
                                    (s₀, ends σ s₀ v₁ v₂ e₁ e₂ ((h σ).1 q)),
                                λ p.
                                    (Satisfies-insert dx dc σ st v z value new).1
                                      (p.0, (h σ).0 (starts σ p.0 v₁ v₂ e₁ e₂ p.1)),
                              ))
                              (unify_from_lem xs ys
                                (insert (key_discrete dx dc) (v, variable z) value st) st₀ u w
                                (changes ++ (v, variable z) ∷ []) (omega arith)
                                (insert-IsValid dx dc st v z value valid new free other)
                                (undo_all-insert dx dc changes (v, variable z) value st st₀ new
                                  undone)))))
                ]
        ]
      ]
    where
      ends :
          (σ : ℕ → X → C)
          → Satisfies dx dc σ st
          → (v₁ v₂ : Value X C) → find_end dx dc (length st + 1) st u x ≡ some v₁
          → find_end dx dc (length st + 1) st w y ≡ some v₂
          → ground_value σ v₁ ≡ ground_value σ v₂
          → ground_term σ u x ≡ ground_term σ w y
      ends σ s v₁ v₂ e₁ e₂ q =
          ground-find_end dx dc σ st (length st + 1) u x v₁ s e₁
          ∙ q
          ∙ sym (ground-find_end dx dc σ st (length st + 1) w y v₂ s e₂)

      starts :
          (σ : ℕ → X → C)
          → Satisfies dx dc σ st
          → (v₁ v₂ : Value X C) → find_end dx dc (length st + 1) st u x ≡ some v₁
          → find_end dx dc (length st + 1) st w y ≡ some v₂
          → ground_term σ u x ≡ ground_term σ w y
          → ground_value σ v₁ ≡ ground_value σ v₂
      starts σ s v₁ v₂ e₁ e₂ q =
          sym (ground-find_end dx dc σ st (length st + 1) u x v₁ s e₁)
          ∙ q
          ∙ ground-find_end dx dc σ st (length st + 1) w y v₂ s e₂

  Equates-length :
      (σ : ℕ → X → C) (u w : ℕ) (xs ys : List (Term X C))
      → Equates σ u w xs ys
      → length xs ≡ length ys
  Equates-length σ u w [] [] h = refl
  Equates-length σ u w [] (y ∷ ys) h = elim h [ ]
  Equates-length σ u w (x ∷ xs) [] h = elim h [ ]
  Equates-length σ u w (x ∷ xs) (y ∷ ys) h = ground (arith, Equates-length σ u w xs ys h.1)

  -- From a store whose variables have unifiers and whose chains of bindings end, `bi_unify_lists`
  -- ends, without an exception. Where it returns changes, the store is again like that, the
  -- valuations it leaves are those of the old store that make the two lists equal (so the unifier
  -- is a most general one), and undoing the changes gives back the old store. Where it returns
  -- None, no valuation of the old store makes the lists equal, and the store is the old one.
  pub bi_unify_lists_lem :
      (iter1 iter2 : List (Term X C)) (unifier1 unifier2 : ℕ) (st : Store X C)
      → IsValid dx dc st
      → Outcome st st unifier1 unifier2 iter1 iter2
          (bi_unify_lists dx dc iter1 unifier1 iter2 unifier2 st)
  unfolding bi_unify_lists undo_all
  bi_unify_lists_lem xs ys u w st valid = elim (Bool-cases (length xs == length ys)) [
    | inl e ↦ rw e (unify_from_lem xs ys st st u w [] (ground (arith, e)) valid refl)
    | inr e ↦ rw e (
        refused st refl (λ σ s q. let len = Equates-length σ u w xs ys q in ground (arith, e, len))
          refl)
  ]
