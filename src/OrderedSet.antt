-- ===== src/OrderedSet.antt =====
-- The class OrderedSet of congress/datalog/utility.py: a dict of cells that are doubly linked, in
-- the order of insertion, between a sentinel. A cell `[key, prev, next]` is reached by its key, so
-- a reference is a key or the sentinel `end`; the second and third fields of all cells are the
-- functions `prev` and `next` of the record OrderedSet, and `map` holds the keys of the dict.
pub mod Links
pub mod Refines
mod Tests
use congress.Prelude.{
  ℕ, zero, suc, refl, ap, Bool, true, false, ◌&&◌, Option, none, some, List, [], ◌∷◌, ite, length,
  is_empty, if◌then◌else◌, ◌==◌, contains, add, discard, key_error, Result, ok, raise, Action,
  tuple_discrete,
}

pub data Ref (K : Type 0) : Type 0 where
  end : Ref K
  cell : K → Ref K

cell_key : {K : Type 0} → K → Ref K → K
cell_key k end = k
cell_key k (cell j) = j

pub record OrderedSet (K : Type 0) : Type 0 where
  pub keys : List K
  pub prev : Ref K → Ref K
  pub next : Ref K → Ref K

pub init : {K : Type 0} → OrderedSet K
init = record { keys = []; prev = λ r. end; next = λ r. end }

-- `curr = start; while curr is not end: yield curr[0]; curr = step(curr)`. A set has as many
-- cells as keys, so the number of keys bounds the rounds.
pub walk : {K : Type 0} → ℕ → (Ref K → Ref K) → Ref K → List K
walk zero step curr = []
walk (suc fuel) step end = []
walk (suc fuel) step (cell k) = k ∷ walk fuel step (step (cell k))

pub iter : {K : Type 0} → OrderedSet K → List K
iter s = walk (length s.keys) s.next (s.next end)

pub reversed : {K : Type 0} → OrderedSet K → List K
reversed s = walk (length s.keys) s.prev (s.prev end)

pub len : {K : Type 0} → OrderedSet K → ℕ
len s = length s.keys

module _ {K : Type 0} (dec : Discrete K) where
  pub ref_discrete : Discrete (Ref K)
  unfolding cell_key
  ref_discrete end end = yes refl
  ref_discrete end (cell k) = no (λ e. cc)
  ref_discrete (cell j) end = no (λ e. cc)
  ref_discrete (cell j) (cell k) = elim (dec j k) [
    | yes p ↦ yes (ap cell p)
    | no n ↦ no (λ e. n (ap (cell_key j) e))
  ]

  -- An assignment to one field of one cell.
  pub update : (Ref K → Ref K) → Ref K → Ref K → Ref K → Ref K
  update f r v q = ite (ref_discrete q r) v (f q)

  unfoldable pub has : K → OrderedSet K → Bool
  has key s = contains dec key s.keys

  -- `curr[2] = end[1] = self.map[key] = [key, curr, end]`
  pub push : K → OrderedSet K → OrderedSet K
  push key s =
      let curr = s.prev end in
      record {
        keys = add dec key s.keys;
        prev = update (update s.prev (cell key) curr) end (cell key);
        next = update (update s.next (cell key) end) curr (cell key);
      }

  pub insert_key : K → OrderedSet K → OrderedSet K × Bool
  insert_key key s = elim (has key s) [ true ↦ (s, false) | false ↦ (push key s, true) ]

  -- `key, prev, next = self.map.pop(key); prev[2] = next; next[1] = prev`
  pub unlink : K → OrderedSet K → OrderedSet K
  unlink key s =
      let p = s.prev (cell key) in
      let n = s.next (cell key) in
      record { keys = discard dec key s.keys; prev = update s.prev n p; next = update s.next p n }

  pub discard_key : K → OrderedSet K → OrderedSet K × Bool
  discard_key key s = elim (has key s) [ true ↦ (unlink key s, true) | false ↦ (s, false) ]

  -- `pop`: the key of the last or first cell, which is dropped. The key of the sentinel is None,
  -- which no set holds, so that there nothing is dropped.
  pub pop : Bool → Action (OrderedSet K) (Option K)
  pop last s = elim (is_empty s.keys) [
    | true ↦ (raise key_error, s)
    | false ↦ elim (if last then s.prev end else s.next end) [
      | end ↦ (ok none, s)
      | cell key ↦ (ok (some key), (discard_key key s).0)
    ]
  ]

  -- `__eq__` of two sets.
  pub same_keys : OrderedSet K → OrderedSet K → Bool
  same_keys s t =
      (len s == len t)
      && elim (tuple_discrete dec (iter s) (iter t)) [ yes _ ↦ true | no _ ↦ false ]
