-- ===== src/BagGraph/Counts.antt =====
-- Counts in a dict that starts at one, as both dicts of a BagGraph keep them.
use congress.Prelude.{
  ℕ, ◌+◌, ◌≡◌, ◌≢◌, refl, ◌∙◌, ap, inl, inr, Option-cases, none, some, arith, ite, Dict, lookup,
  insert, erase, lookup-insert, lookup-erase,
}
use congress.BagGraph.{count_up, count_of}

module _ {K : Type 0} (dec : Discrete K) where
  -- No count is zero.
  abbrev pub IsPositive : Dict K ℕ → Type 0
  IsPositive counts = (k : K) → lookup dec k counts ≢ some 0

  pub count_of-count_up :
      (j k : K) (counts : Dict K ℕ)
      → count_of dec j (count_up dec k counts) ≡ count_of dec j counts + ite (dec j k) 1 0
  unfolding count_of count_up
  count_of-count_up j k counts = elim (Option-cases (lookup dec k counts)) [
    | inl e ↦ rw (e, count_up) (ground (arith, e, lookup-insert dec j k 1 counts))
    | inr (n, e) ↦ rw (e, count_up) (ground (arith, e, lookup-insert dec j k (n + 1) counts))
  ]

  pub count_up-IsPositive :
      (k : K) (counts : Dict K ℕ) → IsPositive counts → IsPositive (count_up dec k counts)
  unfolding count_up
  count_up-IsPositive k counts h j e₀ = elim (Option-cases (lookup dec k counts)) [
    | inl e ↦ ground (arith, e, e₀, h j, lookup-insert dec j k 1 counts)
    | inr (n, e) ↦ ground (arith, e, e₀, h j, lookup-insert dec j k (n + 1) counts)
  ]

  pub count_of-insert :
      (j k : K) (n : ℕ) (counts : Dict K ℕ)
      → count_of dec j (insert dec k n counts) ≡ ite (dec j k) n (count_of dec j counts)
  unfolding count_of
  count_of-insert j k n counts = ground (arith, lookup-insert dec j k n counts)

  pub count_of-erase :
      (j k : K) (counts : Dict K ℕ)
      → count_of dec j (erase dec k counts) ≡ ite (dec j k) 0 (count_of dec j counts)
  unfolding count_of
  count_of-erase j k counts = ground (arith, lookup-erase dec j k counts)

  pub count_of-erase-insert :
      (j k : K) (n : ℕ) (counts : Dict K ℕ)
      → count_of dec j (erase dec k (insert dec k n counts))
        ≡ ite (dec j k) 0 (count_of dec j counts)
  count_of-erase-insert j k n counts =
      ground (arith, count_of-erase j k (insert dec k n counts), count_of-insert j k n counts)

  pub count_of-none :
      (k : K) (counts : Dict K ℕ) → lookup dec k counts ≡ none → count_of dec k counts ≡ 0
  unfolding count_of
  count_of-none k counts e = rw (e, count_of) refl

  pub count_of-some :
      (k : K) (n : ℕ) (counts : Dict K ℕ) → lookup dec k counts ≡ some n → count_of dec k counts ≡ n
  unfolding count_of
  count_of-some k n counts e = rw (e, count_of) refl

  pub IsPositive-at :
      (k : K) (n : ℕ) (counts : Dict K ℕ) → IsPositive counts → lookup dec k counts ≡ some n → n ≢ 0
  IsPositive-at k n counts h e z = h k (e ∙ ap some z)

  pub insert-IsPositive :
      (k : K) (n : ℕ) (counts : Dict K ℕ)
      → IsPositive counts
      → n ≢ 0
      → IsPositive (insert dec k n counts)
  insert-IsPositive k n counts h ne j e = ground (arith, h j, ne, e, lookup-insert dec j k n counts)

  pub erase-IsPositive :
      (k : K) (counts : Dict K ℕ) → IsPositive counts → IsPositive (erase dec k counts)
  erase-IsPositive k counts h j e = ground (arith, h j, e, lookup-erase dec j k counts)

  pub lookup-erase-insert :
      (j k : K) (n : ℕ) (counts : Dict K ℕ)
      → lookup dec j (erase dec k (insert dec k n counts))
        ≡ ite (dec j k) none (lookup dec j counts)
  lookup-erase-insert j k n counts =
      ground (arith, lookup-erase dec j k (insert dec k n counts), lookup-insert dec j k n counts)

  pub erase-insert-IsPositive :
      (k : K) (n : ℕ) (counts : Dict K ℕ)
      → IsPositive counts
      → IsPositive (erase dec k (insert dec k n counts))
  erase-insert-IsPositive k n counts h j e =
      ground (arith, h j, e, lookup-erase-insert j k n counts)
