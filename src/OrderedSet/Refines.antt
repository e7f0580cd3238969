-- ===== src/OrderedSet/Refines.antt =====
-- The linked cells of OrderedSet (utility.py) implement a list without repetition: its order is
-- that of insertion, and both directions of iteration read it off.
use mathlib.Core.List.{reverse, reverse-cons, append_assoc, append-nil}
use congress.Prelude.{
  ℕ, suc, ◌≡⟨◌⟩◌, ◌∎, if◌then◌else◌, ◌+◌, ◌≡◌, refl, sym, ap, ◌∙◌, Bool, true, false, not, some,
  List, [], ◌∷◌, ◌++◌, arith, inl, inr, Bool-cases, length, length-append, is_empty, contains,
  contains-append, add, discard, contains-add, contains-discard, IsDistinct, add-IsDistinct,
  discard-IsDistinct, discard_absent, discard-append_self, length-discard, ok,
}
use congress.OrderedSet.{
  Ref, end, cell, OrderedSet, init, walk, iter, reversed, has, push, insert_key, unlink,
  discard_key, pop,
}
use congress.OrderedSet.Links.{Links, Links-prev_end, Links-push, Links-unlink, last_ref}

walk-next :
    {K : Type 0} (next prev : Ref K → Ref K) (a : Ref K) (l : List K)
    → Links next prev a l
    → walk (length l) next (next a) ≡ l
unfolding walk
walk-next next prev a [] h = refl
walk-next next prev a (k ∷ l) h = rw (h.0, walk) (ap (◌∷◌ k) (walk-next next prev (cell k) l h.2))

walk-prev :
    {K : Type 0} (next prev : Ref K → Ref K) (a : Ref K) (l : List K) (n m : ℕ)
    → n ≡ length l + m
    → Links next prev a l
    → walk n prev (last_ref a l) ≡ reverse l ++ walk m prev a
unfolding walk
walk-prev next prev a [] n m e h = ap (λ i. walk i prev a) (omega arith)
walk-prev next prev a (k ∷ l) n m e h =
    walk n prev (last_ref (cell k) l)
    ≡⟨ walk-prev next prev (cell k) l n (suc m) (omega arith) h.2 ⟩
      reverse l ++ k ∷ walk m prev (prev (cell k))
    ≡⟨ ap (λ r. reverse l ++ k ∷ walk m prev r) h.1 ⟩ reverse l ++ k ∷ walk m prev a
    ≡⟨ sym (append_assoc (reverse l) (k ∷ []) (walk m prev a)) ⟩
      (reverse l ++ k ∷ []) ++ walk m prev a
    ≡⟨ ap (λ x. x ++ walk m prev a) (sym (reverse-cons k l)) ⟩ reverse (k ∷ l) ++ walk m prev a ∎

last_ref-append : {K : Type 0} (a : Ref K) (l : List K) (k : K) → last_ref a (l ++ k ∷ []) ≡ cell k
last_ref-append a [] k = refl
last_ref-append a (j ∷ l) k = last_ref-append (cell j) l k

is_empty_of_length : {K : Type 0} (l : List K) (n : ℕ) → length l ≡ n + 1 → is_empty l ≡ false
is_empty_of_length [] n h = absurd (omega arith)
is_empty_of_length (k ∷ l) n h = refl

module _ {K : Type 0} (dec : Discrete K) where
  -- The set holds the keys of the list, in its order.
  pub record Represents (s : OrderedSet K) (l : List K) : Type 0 where
    pub links : Links s.next s.prev end l
    pub distinct : IsDistinct dec l
    pub distinct_keys : IsDistinct dec s.keys
    pub same : (k : K) → contains dec k s.keys ≡ contains dec k l
    pub size : length s.keys ≡ length l

  pub init-Represents : Represents init []
  unfolding init
  init-Represents = record {
    links = (refl, refl);
    distinct = tt;
    distinct_keys = tt;
    same = λ k. refl;
    size = refl;
  }

  length-add : (k : K) (l : List K) → contains dec k l ≡ false → length (add dec k l) ≡ length l + 1
  unfolding add
  length-add k l h = rw (h, add) (length-append l (k ∷ []))

  push-Represents :
      (k : K) (s : OrderedSet K) (l : List K)
      → Represents s l
      → contains dec k l ≡ false
      → Represents (push dec k s) (add dec k l)
  unfolding push add
  push-Represents k s l r fresh = record {
    links =
        rw (fresh, add)
          (Links-push dec s.next s.prev k end l r.links r.distinct refl (λ e. cc) fresh);
    distinct = add-IsDistinct dec k l r.distinct;
    distinct_keys = add-IsDistinct dec k s.keys r.distinct_keys;
    same = λ j. ground (arith, contains-add dec j k l, contains-add dec j k s.keys, r.same j);
    size =
        length-add k s.keys (r.same k ∙ fresh)
        ∙ ap (λ n. n + 1) r.size
        ∙ sym (length-add k l fresh);
  }

  -- `add` returns whether the key is new and puts a new key last.
  pub insert_key-Represents :
      (k : K) (s : OrderedSet K) (l : List K)
      → Represents s l
      → ((insert_key dec k s).1 ≡ not (contains dec k l))
        × Represents (insert_key dec k s).0 (add dec k l)
  unfolding insert_key has add
  insert_key-Represents k s l r = elim (Bool-cases (contains dec k l)) [
    | inl old ↦ (ground (arith, r.same k), rw (old, add) (rw (r.same k ∙ old, insert_key) r))
    | inr new ↦
        (ground (arith, r.same k), rw (r.same k ∙ new, insert_key) (push-Represents k s l r new))
  ]

  unlink-Represents :
      (k : K) (s : OrderedSet K) (l : List K)
      → Represents s l
      → contains dec k l ≡ true
      → Represents (unlink dec k s) (discard dec k l)
  unfolding unlink
  unlink-Represents k s l r there =
      let u = Links-unlink dec s.next s.prev k end l r.links r.distinct refl there in
      let fewer = length-discard dec k s.keys r.distinct_keys (r.same k ∙ there) in
      let fewer' = length-discard dec k l r.distinct there in
      record {
        links = u.links;
        distinct = discard-IsDistinct dec k l r.distinct;
        distinct_keys = discard-IsDistinct dec k s.keys r.distinct_keys;
        same = λ j.
            ground (arith, contains-discard dec j k l, contains-discard dec j k s.keys, r.same j);
        size = omega (arith, r.size, fewer, fewer');
      }

  -- `discard` returns whether the key was there and keeps the order of the others.
  pub discard_key-Represents :
      (k : K) (s : OrderedSet K) (l : List K)
      → Represents s l
      → ((discard_key dec k s).1 ≡ contains dec k l)
        × Represents (discard_key dec k s).0 (discard dec k l)
  unfolding discard_key has
  discard_key-Represents k s l r = elim (Bool-cases (contains dec k l)) [
    | inr absent ↦ (
      ground (arith, r.same k),
      rw (discard_absent dec k l absent) (rw (r.same k ∙ absent, discard_key) r),
    )
    | inl there ↦ (
      ground (arith, r.same k),
      rw (r.same k ∙ there, discard_key) (unlink-Represents k s l r there),
    )
  ]

  -- Iteration yields the keys in order, and reversed iteration in the opposite order.
  pub iter_lem :
      (s : OrderedSet K) (l : List K) → Represents s l → (iter s ≡ l) × (reversed s ≡ reverse l)
  unfolding iter reversed walk
  iter_lem s l r = (
    rw r.size (walk-next s.next s.prev end l r.links),
    rw (Links-prev_end s.next s.prev end l r.links) (
        walk-prev s.next s.prev end l (length s.keys) 0 (omega (arith, r.size)) r.links
        ∙ append-nil (reverse l)),
  )

  pop_key :
      (last : Bool) (k : K) (s : OrderedSet K) (l : List K)
      → Represents s l
      → is_empty s.keys ≡ false
      → (if last then s.prev end else s.next end) ≡ cell k
      → ((pop dec last s).0 ≡ ok (some k)) × Represents (pop dec last s).1 (discard dec k l)
  unfolding pop
  pop_key last k s l r some_keys at_key = (
    rw (some_keys, at_key, pop) refl,
    rw (some_keys, at_key, pop) (discard_key-Represents k s l r).1,
  )

  discard_head : (k : K) (l : List K) → contains dec k l ≡ false → discard dec k (k ∷ l) ≡ l
  unfolding discard
  discard_head k l h = ground (arith, discard_absent dec k l)

  last_fresh : (k : K) (l : List K) → IsDistinct dec (l ++ k ∷ []) → contains dec k l ≡ false
  unfolding contains
  last_fresh k [] d = refl
  last_fresh k (j ∷ l) d = ground (arith, last_fresh k l d.1, contains-append dec j l (k ∷ []))

  -- `pop` drops the last key and returns it.
  pub pop_last :
      (k : K) (s : OrderedSet K) (l : List K)
      → Represents s (l ++ k ∷ [])
      → ((pop dec true s).0 ≡ ok (some k)) × Represents (pop dec true s).1 l
  pop_last k s l r =
      let (result, kept) =
        pop_key true k s (l ++ k ∷ []) r
          (is_empty_of_length s.keys (length l) (r.size ∙ length-append l (k ∷ [])))
          (Links-prev_end s.next s.prev end (l ++ k ∷ []) r.links ∙ last_ref-append end l k) in
      (result, rw (discard-append_self dec k l (last_fresh k l r.distinct)) at kept)

  -- `pop(last=False)` drops the first key and returns it.
  pub pop_first :
      (k : K) (s : OrderedSet K) (l : List K)
      → Represents s (k ∷ l)
      → ((pop dec false s).0 ≡ ok (some k)) × Represents (pop dec false s).1 l
  pop_first k s l r =
      let (result, kept) =
        pop_key false k s (k ∷ l) r (is_empty_of_length s.keys (length l) (r.size ∙ omega arith))
          r.links.0 in
      let same = discard_head k l r.distinct.0 in (result, rw same at kept)
