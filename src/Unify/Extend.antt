-- ===== src/Unify/Extend.antt =====
-- A new binding of an unbound variable: chains grow by one link at most, so they still end.
use congress.Prelude.{
  ℕ, zero, suc, ◌+◌, ◌≡◌, ◌≢◌, refl, sym, ap, subst, ◌∙◌, Option, none, some, [], ◌∷◌, length,
  arith, lookup, insert, lookup-insert, if_pos, if_neg, Dict,
}
use mathlib.Core.Option.{some-injective}
use congress.Unify.{Term, variable, object, Key, Value, Store, key_discrete, find_end}
use congress.Unify.Ends.{find_end-Link, unbound, leaves, stops, goes_on, IsLinked, IsFree}

module _ {K V : Type 0} (dec : Discrete K) where
  pub length-insert :
      (k : K) (v : V) (d : Dict K V)
      → lookup dec k d ≡ none
      → length (insert dec k v d) ≡ length d + 1
  unfolding lookup insert
  length-insert k v [] free = refl
  length-insert k v ((j, w) ∷ d) free = ground (arith, length-insert k v d)

  pub lookup-insert_of_ne :
      (j k : K) (v : V) (d : Dict K V) → j ≢ k → lookup dec j (insert dec k v d) ≡ lookup dec j d
  lookup-insert_of_ne j k v d n =
      lookup-insert dec j k v d ∙ if_neg (dec j k) n (some v) (lookup dec j d)

  pub lookup-insert_same : (k : K) (v : V) (d : Dict K V) → lookup dec k (insert dec k v d) ≡ some v
  lookup-insert_same k v d =
      lookup-insert dec k k v d ∙ if_pos (dec k k) refl (some v) (lookup dec k d)

module _ {X C : Type 0} (dx : Discrete X) (dc : Discrete C) where
  -- Every chain of bindings ends within the fuel that `apply_full` has.
  abbrev pub Ends : Store X C → Type 0
  Ends st = (u : ℕ) (t : Term X C) → find_end dx dc (length st + 1) st u t ≢ none

  -- Only variables are bound.
  abbrev pub IsOnVariables : Store X C → Type 0
  IsOnVariables st = (u : ℕ) (c : C) → lookup (key_discrete dx dc) (u, object c) st ≡ none

  abbrev pub IsValid : Store X C → Type 0
  IsValid st = IsLinked dx dc st × Ends st × IsOnVariables st

  find_end_unbound :
      (st : Store X C) (n : ℕ) (u : ℕ) (t : Term X C)
      → lookup (key_discrete dx dc) (u, t) st ≡ none
      → find_end dx dc (suc n) st u t ≢ none
  unfolding find_end
  find_end_unbound st n u t free = rw (free, find_end) (λ e. cc)

  find_end_stops :
      (st : Store X C) (n : ℕ) (u : ℕ) (t : Term X C) (c : C) (b : Option ℕ)
      → lookup (key_discrete dx dc) (u, t) st ≡ some (object c, b)
      → find_end dx dc (suc n) st u t ≢ none
  unfolding find_end
  find_end_stops st n u t c none bound = rw (bound, find_end) (λ e. cc)
  find_end_stops st n u t c (some w) bound = rw (bound, find_end) (λ e. cc)

  find_end_goes_on :
      (st : Store X C) (n : ℕ) (u : ℕ) (t : Term X C) (x : X) (w : ℕ)
      → lookup (key_discrete dx dc) (u, t) st ≡ some (variable x, some w)
      → find_end dx dc n st w (variable x) ≢ none
      → find_end dx dc (suc n) st u t ≢ none
  unfolding find_end
  find_end_goes_on st n u t x w bound h = rw (bound, find_end) h

  -- The chain from the new binding: its value is free, so it is at most one link more.
  find_end_at_new :
      (st : Store X C) (n : ℕ) (u : ℕ) (x : X) (value : Value X C)
      → IsFree dx dc st value
      → value ≢ (variable x, some u)
      → find_end dx dc
          (suc (suc n))
          (insert (key_discrete dx dc) (u, variable x) value st)
          u
          (variable x)
        ≢ none
  find_end_at_new st n u x (object c, b) free other =
      find_end_stops (insert (key_discrete dx dc) (u, variable x) (object c, b) st) (suc n) u
        (variable x) c b (lookup-insert_same (key_discrete dx dc) (u, variable x) (object c, b) st)
  find_end_at_new st n u x (variable y, none) free other = elim free [ ]
  find_end_at_new st n u x (variable y, some w) free other =
      let k : Key X C = (u, variable x) in
      let v : Value X C = (variable y, some w) in
      find_end_goes_on (insert (key_discrete dx dc) k v st) (suc n) u (variable x) y w
        (lookup-insert_same (key_discrete dx dc) k v st)
        (find_end_unbound (insert (key_discrete dx dc) k v st) n w (variable y) (
          lookup-insert_of_ne (key_discrete dx dc) (w, variable y) k v st (λ e. other (ap flip e))
          ∙ free))
    where
      flip : Key X C → Value X C
      flip (u, t) = (t, some u)

  find_end-insert :
      (st : Store X C) (u : ℕ) (x : X) (value : Value X C)
      → IsLinked dx dc st
      → lookup (key_discrete dx dc) (u, variable x) st ≡ none
      → IsFree dx dc st value
      → value ≢ (variable x, some u)
      → (n : ℕ) (u' : ℕ) (t : Term X C) → find_end dx dc n st u' t ≢ none
      → find_end dx dc (suc n) (insert (key_discrete dx dc) (u, variable x) value st) u' t ≢ none
  unfolding find_end
  find_end-insert st u x value linked new free other zero u' t h = elim (h refl) [ ]
  find_end-insert st u x value linked new free other (suc n) u' t h =
      elim (key_discrete dx dc (u', t) (u, variable x)) [
        | yes p ↦
            rw (ap (λ (k : Key X C). k.0) p, ap (λ (k : Key X C). k.1) p)
              (find_end_at_new st n u x value free other)
        | no ne ↦
            let same =
              lookup-insert_of_ne (key_discrete dx dc) (u', t) (u, variable x) value st ne in
            elim (find_end-Link dx dc n st u' t) [
              | unbound e end ↦
                  find_end_unbound (insert (key_discrete dx dc) (u, variable x) value st) (suc n) u'
                    t (same ∙ e)
              | leaves y e end ↦ elim (linked u' t y e) [ ]
              | stops c b e end ↦
                  find_end_stops (insert (key_discrete dx dc) (u, variable x) value st) (suc n) u' t
                    c b (same ∙ e)
              | goes_on y w e on ↦
                  find_end_goes_on (insert (key_discrete dx dc) (u, variable x) value st) (suc n) u'
                    t y w (same ∙ e)
                    (find_end-insert st u x value linked new free other n w (variable y)
                      (λ z. h (on ∙ z)))
            ]
      ]

  pub insert-IsValid :
      (st : Store X C) (u : ℕ) (x : X) (value : Value X C)
      → IsValid st
      → lookup (key_discrete dx dc) (u, variable x) st ≡ none
      → IsFree dx dc st value
      → value ≢ (variable x, some u)
      → IsValid (insert (key_discrete dx dc) (u, variable x) value st)
  insert-IsValid st u x value (linked, ends, on_variables) new free other = (
    λ u' t y e. elim (key_discrete dx dc (u', t) (u, variable x)) [
      | yes p ↦
          subst (IsFree dx dc st)
            (some-injective value (variable y, none)
              (sym (lookup-insert_same (key_discrete dx dc) (u, variable x) value st)
                ∙ subst
                    (λ (k : Key X C).
                      lookup (key_discrete dx dc) k
                        (insert (key_discrete dx dc) (u, variable x) value st)
                      ≡ some (variable y, none))
                    p e))
            free
      | no ne ↦
          linked u' t y
            (sym (lookup-insert_of_ne (key_discrete dx dc) (u', t) (u, variable x) value st ne) ∙ e)
    ],
    λ u' t.
        subst
          (λ m. find_end dx dc m (insert (key_discrete dx dc) (u, variable x) value st) u' t ≢ none)
          (fuel_lem _ _ (length-insert (key_discrete dx dc) (u, variable x) value st new))
          (find_end-insert st u x value linked new free other (length st + 1) u' t (ends u' t)),
    λ u' c.
        lookup-insert_of_ne (key_discrete dx dc) (u', object c) (u, variable x) value st (λ p. cc)
        ∙ on_variables u' c,
  )
    where
      fuel_lem : (m n : ℕ) → m ≡ n + 1 → suc (n + 1) ≡ m + 1
      fuel_lem m n e = ground (arith, e)
