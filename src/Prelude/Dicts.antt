-- ===== src/Prelude/Dicts.antt =====
-- A Python `dict` as an association list in insertion order.
use mathlib.Core.Path.{◌≡◌, refl}
use mathlib.Core.Bool.{true, false}
use mathlib.Core.Logic.{ite, ◌≢◌}
use mathlib.Core.Option.{Option, none, some}
use mathlib.Core.List.{List, [], ◌∷◌}
use native.Mathlib.Omega.{arith}
use congress.Prelude.Lists.{is_empty}
use congress.Prelude.Sets.{contains, IsDistinct}

abbrev pub Dict : Type 0 → Type 0 → Type 0
Dict K V = List (K × V)

abbrev pub keys : {K V : Type 0} → Dict K V → List K
keys [] = []
keys ((k, v) ∷ d) = k ∷ keys d

module _ {K V : Type 0} (dec : Discrete K) where
  -- `d.get(k)`
  unfoldable pub lookup : K → Dict K V → Option V
  lookup k [] = none
  lookup k ((j, v) ∷ d) = ite (dec k j) (some v) (lookup k d)

  -- `d[k] = v`
  unfoldable pub insert : K → V → Dict K V → Dict K V
  insert k v [] = (k, v) ∷ []
  insert k v ((j, w) ∷ d) = let rest = insert k v d in ite (dec k j) ((j, v) ∷ d) ((j, w) ∷ rest)

  -- `del d[k]`, where the key is there
  unfoldable pub erase : K → Dict K V → Dict K V
  erase k [] = []
  erase k ((j, v) ∷ d) = let rest = erase k d in ite (dec k j) rest ((j, v) ∷ rest)

  pub lookup-insert :
      (j k : K) (v : V) (d : Dict K V)
      → lookup j (insert k v d) ≡ ite (dec j k) (some v) (lookup j d)
  unfolding lookup insert
  lookup-insert j k v [] = ground arith
  lookup-insert j k v ((i, w) ∷ d) = ground (arith, lookup-insert j k v d)

  pub lookup-erase :
      (j k : K) (d : Dict K V) → lookup j (erase k d) ≡ ite (dec j k) none (lookup j d)
  unfolding lookup erase
  lookup-erase j k [] = ground arith
  lookup-erase j k ((i, w) ∷ d) = ground (arith, lookup-erase j k d)

  pub lookup-ne-none : (k : K) (d : Dict K V) → contains dec k (keys d) ≡ true → lookup k d ≢ none
  unfolding lookup contains
  lookup-ne-none k [] h = cc
  lookup-ne-none k ((j, v) ∷ d) h = ground (arith, lookup-ne-none k d)

  pub lookup-eq-none : (k : K) (d : Dict K V) → contains dec k (keys d) ≡ false → lookup k d ≡ none
  unfolding lookup contains
  lookup-eq-none k [] h = refl
  lookup-eq-none k ((j, v) ∷ d) h = ground (arith, lookup-eq-none k d)

  pub contains-keys_of_some :
      (k : K) (d : Dict K V) (v : V) → lookup k d ≡ some v → contains dec k (keys d) ≡ true
  unfolding lookup contains
  contains-keys_of_some k [] v h = cc
  contains-keys_of_some k ((j, w) ∷ d) v h = ground (arith, contains-keys_of_some k d v)

  -- To write at a key that is there leaves the keys alone.
  pub keys-insert_of_some :
      (k : K) (v : V) (d : Dict K V) (w : V) → lookup k d ≡ some w → keys (insert k v d) ≡ keys d
  unfolding lookup insert
  keys-insert_of_some k v [] w h = cc
  keys-insert_of_some k v ((j, u) ∷ d) w h = ground (arith, keys-insert_of_some k v d w)

  pub contains-keys-insert :
      (j k : K) (v : V) (d : Dict K V)
      → contains dec j (keys (insert k v d)) ≡ ite (dec j k) true (contains dec j (keys d))
  unfolding contains insert
  contains-keys-insert j k v [] = refl
  contains-keys-insert j k v ((i, w) ∷ d) = ground (arith, contains-keys-insert j k v d)

  pub keys-insert-IsDistinct :
      (k : K) (v : V) (d : Dict K V)
      → IsDistinct dec (keys d)
      → IsDistinct dec (keys (insert k v d))
  unfolding contains insert
  keys-insert-IsDistinct k v [] h = (refl, tt)
  keys-insert-IsDistinct k v ((j, w) ∷ d) h =
      ground (arith, keys-insert-IsDistinct k v d h.1, contains-keys-insert j k v d)

  pub contains-keys-erase :
      (j k : K) (d : Dict K V)
      → contains dec j (keys (erase k d)) ≡ ite (dec j k) false (contains dec j (keys d))
  unfolding contains erase
  contains-keys-erase j k [] = ground arith
  contains-keys-erase j k ((i, w) ∷ d) = ground (arith, contains-keys-erase j k d)

  pub keys-erase-IsDistinct :
      (k : K) (d : Dict K V) → IsDistinct dec (keys d) → IsDistinct dec (keys (erase k d))
  unfolding erase
  keys-erase-IsDistinct k [] h = h
  keys-erase-IsDistinct k ((j, v) ∷ d) h =
      ground (arith, keys-erase-IsDistinct k d h.1, contains-keys-erase j k d)

  pub lookup_of_is_empty : (k : K) (d : Dict K V) → is_empty d ≡ true → lookup k d ≡ none
  unfolding lookup
  lookup_of_is_empty k [] h = refl
  lookup_of_is_empty k (e ∷ d) h = cc
