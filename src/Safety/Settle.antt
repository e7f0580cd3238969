-- ===== src/Safety/Settle.antt =====
-- `make_safe_plus`: the loop ends, keeps the literals, puts them in a safe order, and leaves
-- unsafe only those whose variables are not all safe.
use congress.Prelude.{
  ◌≡◌, refl, true, ◌&&◌, ◌||◌, not, List, [], ◌∷◌, arith, contains, contains-add, add,
}
use congress.Tablename.{Str, str_discrete}
use congress.Literals.{update_all}
use congress.Safety.{difference, subset}

pub contains-difference :
    (v : Str) (xs ys : List Str)
    → contains str_discrete v (difference xs ys)
      ≡ (contains str_discrete v xs && not (contains str_discrete v ys))
unfolding difference contains
contains-difference v [] ys = refl
contains-difference v (x ∷ xs) ys = ground (arith, contains-difference v xs ys)

pub contains-update_all :
    (v : Str) (s xs : List Str)
    → contains str_discrete v (update_all s xs)
      ≡ (contains str_discrete v s || contains str_discrete v xs)
unfolding update_all contains
contains-update_all v s [] = ground arith
contains-update_all v s (x ∷ xs) =
    ground (arith, contains-update_all v (add str_discrete x s) xs, contains-add str_discrete v x s)

-- `xs <= ys` as inclusion.
pub subset_of :
    (xs ys : List Str)
    → ((v : Str) → contains str_discrete v xs ≡ true → contains str_discrete v ys ≡ true)
    → subset xs ys ≡ true
unfolding subset difference contains
subset_of [] ys h = refl
subset_of (x ∷ xs) ys h = ground (arith, h x, subset_of xs ys (λ v e. h v (ground (arith, e))))

pub of_subset :
    (xs ys : List Str) (v : Str)
    → subset xs ys ≡ true
    → contains str_discrete v xs ≡ true
    → contains str_discrete v ys ≡ true
unfolding subset difference contains
of_subset [] ys v h e = cc
of_subset (x ∷ xs) ys v h e = ground (arith, h, e, of_subset xs ys v)
