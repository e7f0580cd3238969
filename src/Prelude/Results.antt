-- ===== src/Prelude/Results.antt =====
-- Python exceptions as values. A method returns its result beside the new state, also where it
-- raises, since what was written stays written.
use mathlib.Core.Path.{◌≡◌, ap}

pub data Error : Type 0 where
  index_error key_error type_error attribute_error value_error assertion_error policy_exception :
      Error

pub data Result (A : Type 0) : Type 0 where
  ok : A → Result A
  raise : Error → Result A

-- A statement that changes a state of type `S` and may raise.
abbrev pub Action : Type 0 → Type 0 → Type 0
Action S A = S → Result A × S

infixl 5 ◌>>=◌ ◌>>◌
abbrev pub ◌>>=◌ : {S A B : Type 0} → Action S A → (A → Action S B) → Action S B
◌>>=◌ m f s = let (r, s') = m s in elim r [ ok a ↦ f a s' | raise e ↦ (raise e, s') ]

abbrev pub ◌>>◌ : {S A B : Type 0} → Action S A → Action S B → Action S B
m >> k = m >>= λ _. k

-- A statement that returns hands over to the next one.
pub bind_ok :
    {S A B : Type 0} (m : Action S A) (f : A → Action S B) (s s' : S) (a : A)
    → m s ≡ (ok a, s')
    → (m >>= f) s ≡ f a s'
bind_ok {S} {A} {B} m f s s' a e =
    ap {B = Result B × S}
      (λ (p : Result A × S). elim p.0 as (λ _. Result B × S) [
        | ok x ↦ f x p.1
        | raise err ↦ (raise err, p.1)
      ])
      e

-- A call that recurs on fuel.
pub data Run (A : Type 0) : Type 0 where
  out_of_fuel : Run A
  finished : Result A → Run A

abbrev pub run_then : {A B : Type 0} → Run A → (A → Run B) → Run B
run_then out_of_fuel f = out_of_fuel
run_then (finished (raise e)) f = finished (raise e)
run_then (finished (ok a)) f = f a
