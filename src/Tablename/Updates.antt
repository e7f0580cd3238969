-- ===== src/Tablename/Updates.antt =====
-- Updates `p+` and `p-` of a table `p`.
use congress.Prelude.{◌≡◌, Bool, true, false, arith, not, Option-cases, inl, inr}
use congress.Tablename.{
  Tablename, plus, minus, is_update, invert_update, drop_update, make_update, unsnoc,
}
use congress.Tablename.Strings.{unsnoc-snoc, append-unsnoc}

-- An update that is made is one, to drop it gives back the table, and to invert it is to make the
-- other update.
pub make_update_lem :
    (is_insert : Bool) (t : Tablename)
    → (is_update (make_update is_insert t).0 ≡ true)
      × (drop_update (make_update is_insert t).0 ≡ (t, true))
      × (invert_update (make_update is_insert t).0 ≡ make_update (not is_insert) t)
unfolding make_update is_update drop_update invert_update
make_update_lem true t = ground (arith, unsnoc-snoc t.table plus)
make_update_lem false t = ground (arith, unsnoc-snoc t.table minus)

-- To invert an update twice gives back the table, and says that it is an update exactly where it
-- is one.
pub invert_update_twice :
    (t : Tablename)
    → ((invert_update t).1 ≡ is_update t) × ((invert_update (invert_update t).0).0 ≡ t)
unfolding invert_update is_update
invert_update_twice t = elim (Option-cases (unsnoc t.table)) [
  | inl e ↦ ground (arith, e)
  | inr ((front, last), e) ↦ ground (
    arith,
    e,
    append-unsnoc t.table front last e,
    unsnoc-snoc front plus,
    unsnoc-snoc front minus,
  )
]
