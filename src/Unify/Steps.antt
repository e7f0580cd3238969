-- ===== src/Unify/Steps.antt =====
-- One round of the loop in `bi_unify_lists`: its two values, and a new binding for valuations.
use congress.Prelude.{
  ℕ, ◌≡◌, ◌≢◌, ◌↔◌, inl, inr, refl, sym, ap, ◌∙◌, true, false, Option, none, some, arith,
  Bool-cases, lookup, insert, subst,
}
use mathlib.Core.Option.{some-injective}
use congress.Unify.{
  Term, variable, object, Key, Value, Store, key_discrete, bi_var_equal, step, same, fail, bind,
}
use congress.Unify.Ends.{ground_value, Satisfies, IsFree}
use congress.Unify.Extend.{lookup-insert_same, lookup-insert_of_ne}

module _ {X C : Type 0} (dx : Discrete X) (dc : Discrete C) where
  -- What the loop's body does with two ends of chains, by what valuations make of them.
  pub data Stepped (st : Store X C) (v₁ v₂ : Value X C) : Type 0 where
    agree :
        step dx dc v₁ v₂ ≡ same
        → ((σ : ℕ → X → C) → ground_value σ v₁ ≡ ground_value σ v₂)
        → Stepped st v₁ v₂
    clash :
        step dx dc v₁ v₂ ≡ fail
        → ((σ : ℕ → X → C) → ground_value σ v₁ ≢ ground_value σ v₂)
        → Stepped st v₁ v₂
    binds :
        (u : ℕ) (x : X) (value : Value X C)
        → step dx dc v₁ v₂ ≡ bind (u, variable x) value
        → lookup (key_discrete dx dc) (u, variable x) st ≡ none
        → IsFree dx dc st value
        → value ≢ (variable x, some u)
        → ((σ : ℕ → X → C)
            → (ground_value σ v₁ ≡ ground_value σ v₂) ↔ (σ u x ≡ ground_value σ value))
        → Stepped st v₁ v₂

  ground_object : (σ : ℕ → X → C) (c : C) (b : Option ℕ) → ground_value σ (object c, b) ≡ c
  ground_object σ c none = refl
  ground_object σ c (some w) = refl

  bi_var_equal_eq :
      (x y : X) (u w : ℕ) → bi_var_equal dx dc x (some u) y (some w) ≡ true → (x ≡ y) × (u ≡ w)
  unfolding bi_var_equal
  bi_var_equal_eq x y u w e = ground (arith, e)

  bi_var_equal_ne :
      (x y : X) (u w : ℕ)
      → bi_var_equal dx dc x (some u) y (some w) ≡ false
      → ◌≢◌ {A = Value X C} (variable y, some w) (variable x, some u)
  unfolding bi_var_equal
  bi_var_equal_ne x y u w e p = ground (arith, e, q, o)
    where
      q : y ≡ x
      q = ap (λ (v : Value X C). name_of v.0) p
        where
          name_of : Term X C → X
          name_of (variable z) = z
          name_of (object c) = x

      o : w ≡ u
      o = some-injective w u (ap (λ (v : Value X C). v.1) p)

  pub step_lem :
      (st : Store X C) (v₁ v₂ : Value X C)
      → IsFree dx dc st v₁
      → IsFree dx dc st v₂
      → Stepped st v₁ v₂
  unfolding step
  step_lem st (variable x, none) v₂ f₁ f₂ = elim f₁ [ ]
  step_lem st (variable x, some u) (variable y, none) f₁ f₂ = elim f₂ [ ]
  step_lem st (variable x, some u) (variable y, some w) f₁ f₂ =
      elim (Bool-cases (bi_var_equal dx dc x (some u) y (some w))) [
        | inl e ↦ agree (rw e refl) (λ σ. let (p, q) = bi_var_equal_eq x y u w e in rw (p, q) refl)
        | inr e ↦
            binds u x (variable y, some w) (rw e refl) f₁ f₂ (bi_var_equal_ne x y u w e)
              (λ σ. (λ e. e, λ e. e))
      ]
  step_lem st (variable x, some u) (object d, b) f₁ f₂ =
      binds u x (object d, b) refl f₁ tt (λ e. cc) (λ σ. (λ e. e, λ e. e))
  step_lem st (object c, b) (variable y, none) f₁ f₂ = elim f₂ [ ]
  step_lem st (object c, b) (variable y, some w) f₁ f₂ =
      binds w y (object c, b) refl f₂ tt (λ e. cc) (λ σ. (λ e. sym e, λ e. sym e))
  step_lem st (object c, b) (object d, b') f₁ f₂ = elim (dc c d) [
    | yes p ↦ agree (ground (arith, p)) (λ σ. ground_object σ c b ∙ p ∙ sym (ground_object σ d b'))
    | no n ↦
        clash (ground (arith, n)) (λ σ e. n (sym (ground_object σ c b) ∙ e ∙ ground_object σ d b'))
  ]

  -- A valuation respects a new binding if it respects the old ones and this one.
  pub Satisfies-insert :
      (σ : ℕ → X → C) (st : Store X C) (u : ℕ) (x : X) (value : Value X C)
      → lookup (key_discrete dx dc) (u, variable x) st ≡ none
      → Satisfies dx dc σ (insert (key_discrete dx dc) (u, variable x) value st)
        ↔ (Satisfies dx dc σ st × (σ u x ≡ ground_value σ value))
  Satisfies-insert σ st u x value new = (
    λ s. (
      λ u' t v' e.
          s u' t v' (
            lookup-insert_of_ne (key_discrete dx dc) (u', t) (u, variable x) value st (λ p. cc)
            ∙ e),
      s u (variable x) value (lookup-insert_same (key_discrete dx dc) (u, variable x) value st),
    ),
    λ s u' t v' e. elim (key_discrete dx dc (u', t) (u, variable x)) [
      | yes p ↦
          let q : value ≡ v' = some-injective value v' (
            sym (lookup-insert_same (key_discrete dx dc) (u, variable x) value st)
            ∙ subst
                (λ (k : Key X C).
                  lookup (key_discrete dx dc) k
                    (insert (key_discrete dx dc) (u, variable x) value st)
                  ≡ some v')
                p e) in
          rw (ap (λ (k : Key X C). k.0) p, ap (λ (k : Key X C). k.1) p)
            (s.1 ∙ ap (ground_value σ) q)
      | no n ↦
          s.0 u' t v'
            (sym (lookup-insert_of_ne (key_discrete dx dc) (u', t) (u, variable x) value st n) ∙ e)
    ],
  )
