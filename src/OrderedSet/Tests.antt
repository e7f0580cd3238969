-- ===== src/OrderedSet/Tests.antt =====
-- Runs of OrderedSet on small sets, and the theorems at them.
use congress.Prelude.{
  ◌≡◌, refl, true, false, [], ◌∷◌, ℕ, ℕ_discrete, contains, add, discard, tuple_discrete,
}
use congress.OrderedSet.{
  OrderedSet, init, walk, iter, reversed, has, ref_discrete, update, push, insert_key, unlink,
  discard_key, pop, len, same_keys,
}
use congress.OrderedSet.Refines.{
  Represents, init-Represents, insert_key-Represents, discard_key-Represents,
}

program : Unit {0}
unfolding init walk iter reversed has ref_discrete update push insert_key unlink discard_key pop
    same_keys len contains add discard ℕ_discrete tuple_discrete
program = tt

-- The keys 3, 1 and 2, inserted in this order.
abbrev three : OrderedSet ℕ
three = push ℕ_discrete 2 (push ℕ_discrete 1 (push ℕ_discrete 3 init))

insert-thrice :
    (insert_key ℕ_discrete 2 (insert_key ℕ_discrete 1 (insert_key ℕ_discrete 3 init).0).0).0 ≡ three
unfolding insert_key has contains push add init ℕ_discrete
insert-thrice = refl

iter-three : (iter three ≡ 3 ∷ 1 ∷ 2 ∷ []) × (reversed three ≡ 2 ∷ 1 ∷ 3 ∷ [])
unfolding program
iter-three = (refl, refl)

discard-three :
    (iter (discard_key ℕ_discrete 1 three).0 ≡ 3 ∷ 2 ∷ [])
    × (same_keys ℕ_discrete three (discard_key ℕ_discrete 1 three).0 ≡ false)
unfolding program
discard-three = (refl, refl)

three-Represents : Represents ℕ_discrete three (3 ∷ 1 ∷ 2 ∷ [])
unfolding program
three-Represents =
    let one = insert_key-Represents ℕ_discrete 3 init [] (init-Represents ℕ_discrete) in
    let two = insert_key-Represents ℕ_discrete 1 _ _ one.1 in
    (insert_key-Represents ℕ_discrete 2 _ _ two.1).1

insert_key-Represents_example :
    ((insert_key ℕ_discrete 7 three).1 ≡ true)
    × Represents ℕ_discrete (insert_key ℕ_discrete 7 three).0 (3 ∷ 1 ∷ 2 ∷ 7 ∷ [])
unfolding contains add ℕ_discrete
insert_key-Represents_example =
    insert_key-Represents ℕ_discrete 7 three (3 ∷ 1 ∷ 2 ∷ []) three-Represents

discard_key-Represents_example :
    ((discard_key ℕ_discrete 1 three).1 ≡ true)
    × Represents ℕ_discrete (discard_key ℕ_discrete 1 three).0 (3 ∷ 2 ∷ [])
unfolding contains discard ℕ_discrete
discard_key-Represents_example =
    discard_key-Represents ℕ_discrete 1 three (3 ∷ 1 ∷ 2 ∷ []) three-Represents
