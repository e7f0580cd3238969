-- ===== src/Database/Proofs.antt =====
-- Collections of proofs are sets.
use congress.Prelude.{
  ◌≡◌, ◌↔◌, refl, true, ◌&&◌, ◌||◌, not, some, List, [], ◌∷◌, arith, contains, contains-add, add,
  add-IsDistinct, IsDistinct,
}
use congress.Database.{
  ProofCollection, remaining, append_missing, isub, ior, all_in, le, same_proofs,
}

module _ {P : Type 0} (dec : Discrete P) where
  pub contains-remaining :
      (p : P) (proofs other : List P)
      → contains dec p (remaining dec proofs other)
        ≡ (contains dec p proofs && not (contains dec p other))
  unfolding remaining contains
  contains-remaining p [] other = refl
  contains-remaining p (q ∷ proofs) other = ground (arith, contains-remaining p proofs other)

  pub contains-append_missing :
      (p : P) (proofs contents : List P)
      → contains dec p (append_missing dec proofs contents)
        ≡ (contains dec p proofs || contains dec p contents)
  unfolding append_missing contains
  contains-append_missing p [] contents = refl
  contains-append_missing p (q ∷ proofs) contents =
      ground (
        arith,
        contains-append_missing p proofs (add dec q contents),
        contains-add dec p q contents,
      )

  remaining-IsDistinct :
      (proofs other : List P) → IsDistinct dec proofs → IsDistinct dec (remaining dec proofs other)
  unfolding remaining
  remaining-IsDistinct [] other h = tt
  remaining-IsDistinct (q ∷ proofs) other h =
      ground (arith, remaining-IsDistinct proofs other h.1, contains-remaining q proofs other)

  append_missing-IsDistinct :
      (proofs contents : List P)
      → IsDistinct dec contents
      → IsDistinct dec (append_missing dec proofs contents)
  unfolding append_missing
  append_missing-IsDistinct [] contents h = h
  append_missing-IsDistinct (q ∷ proofs) contents h =
      append_missing-IsDistinct proofs (add dec q contents) (add-IsDistinct dec q contents h)

  -- `pc -= other` of a collection without repetition is the difference of the sets, without
  -- repetition.
  pub isub_lem :
      (pc other : ProofCollection P)
      → IsDistinct dec pc.contents
      → (result : ProofCollection P) × (isub dec pc (some other) ≡ some result)
        × IsDistinct dec result.contents
        × ((p : P)
            → contains dec p result.contents
              ≡ (contains dec p pc.contents && not (contains dec p other.contents)))
  unfolding isub
  isub_lem pc other h = (
    record { contents = remaining dec pc.contents other.contents },
    refl,
    remaining-IsDistinct pc.contents other.contents h,
    λ p. contains-remaining p pc.contents other.contents,
  )

  -- `pc |= other` of a collection without repetition is the union of the sets, without repetition.
  pub ior_lem :
      (pc other : ProofCollection P)
      → IsDistinct dec pc.contents
      → (result : ProofCollection P) × (ior dec pc (some other) ≡ some result)
        × IsDistinct dec result.contents
        × ((p : P)
            → contains dec p result.contents
              ≡ (contains dec p other.contents || contains dec p pc.contents))
  unfolding ior
  ior_lem pc other h = (
    record { contents = append_missing dec other.contents pc.contents },
    refl,
    append_missing-IsDistinct other.contents pc.contents h,
    λ p. contains-append_missing p other.contents pc.contents,
  )

  all_in_of :
      (proofs iterable : List P)
      → ((p : P) → contains dec p proofs ≡ true → contains dec p iterable ≡ true)
      → all_in dec proofs iterable ≡ true
  unfolding all_in contains
  all_in_of [] iterable h = refl
  all_in_of (q ∷ proofs) iterable h =
      ground (arith, h q, all_in_of proofs iterable (λ p e. h p (ground (arith, e))))

  of_all_in :
      (p : P) (proofs iterable : List P)
      → all_in dec proofs iterable ≡ true
      → contains dec p proofs ≡ true
      → contains dec p iterable ≡ true
  unfolding all_in contains
  of_all_in p [] iterable h e = cc
  of_all_in p (q ∷ proofs) iterable h e = ground (arith, h, e, of_all_in p proofs iterable)

  -- `==` of collections compares them as sets: order and repetition are of no account.
  pub same_proofs_lem :
      (pc other : ProofCollection P)
      → (same_proofs dec pc other ≡ true)
        ↔ ((p : P) → contains dec p pc.contents ≡ contains dec p other.contents)
  unfolding same_proofs le
  same_proofs_lem pc other = (
    λ h p.
        ground (
          arith,
          h,
          of_all_in p pc.contents other.contents,
          of_all_in p other.contents pc.contents,
        ),
    λ h. ground (
      arith,
      all_in_of pc.contents other.contents (λ p e. ground (arith, e, h p)),
      all_in_of other.contents pc.contents (λ p e. ground (arith, e, h p)),
    ),
  )
