-- ===== src/Tablename/Strings.antt =====
-- Splitting strings at a colon and joining them, and the last character of a string.
use congress.Prelude.{
  ℕ, ◌≡◌, refl, ap, false, none, some, List, [], ◌∷◌, ◌++◌, ◌==◌, arith, ◌∙◌, Bool-cases,
  Option-cases, inl, inr, contains, ℕ_discrete,
}
use congress.Tablename.{Str, split, join, colon, unsnoc}

-- No character of the string is a colon.
abbrev pub IsPlain : Str → Type 0
IsPlain s = contains ℕ_discrete colon s ≡ false

join-cons :
    (c : ℕ) (piece : Str) (pieces : List Str)
    → join ((c ∷ piece) ∷ pieces) ≡ c ∷ join (piece ∷ pieces)
unfolding join
join-cons c piece [] = refl
join-cons c piece (p ∷ pieces) = refl

pub join-split : (s : Str) → join ((split s).0 ∷ (split s).1) ≡ s
unfolding split join
join-split [] = refl
join-split (c ∷ s) = elim (Bool-cases (c == colon)) [
  | inl e ↦ rw (e, split) (ground (arith, e, join-split s))
  | inr e ↦ rw (e, split) (join-cons c (split s).0 (split s).1 ∙ ap (◌∷◌ c) (join-split s))
]

pub split_plain : (s t : Str) → IsPlain s → split (s ++ colon ∷ t) ≡ (s, (split t).0 ∷ (split t).1)
unfolding split contains ℕ_discrete
split_plain [] t h = refl
split_plain (c ∷ s) t h = ground (arith, split_plain s t, h)

pub unsnoc-snoc : (s : Str) (c : ℕ) → unsnoc (s ++ c ∷ []) ≡ some (s, c)
unfolding unsnoc
unsnoc-snoc [] c = refl
unsnoc-snoc (d ∷ s) c = rw (unsnoc-snoc s c) refl

unsnoc-none : (s : Str) → unsnoc s ≡ none → s ≡ []
unfolding unsnoc
unsnoc-none [] e = refl
unsnoc-none (d ∷ s) e = elim (Option-cases (unsnoc s)) [
  | inl f ↦ absurd (ground (arith, e, f))
  | inr (p, f) ↦ absurd (ground (arith, e, f))
]

pub append-unsnoc :
    (s front : Str) (last : ℕ) → unsnoc s ≡ some (front, last) → s ≡ front ++ last ∷ []
unfolding unsnoc
append-unsnoc [] front last e = cc
append-unsnoc (d ∷ s) front last e = elim (Option-cases (unsnoc s)) [
  | inl f ↦ ground (arith, unsnoc-none s, e, f)
  | inr ((front', last'), f) ↦ ground (arith, append-unsnoc s front' last' f, e, f)
]
