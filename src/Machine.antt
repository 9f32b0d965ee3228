-- ===== src/Machine.antt =====
-- Handlers as functions on a state: a result or a failure, with the state that they leave.
pub mod Triples
use browsertools.Prelude.{Bool, true, false, Option, none, some}

pub data Result (F A : Type 0) : Type 0 where
  ok : A → Result F A
  err : F → Result F A

abbrev pub Action : Type 0 → Type 0 → Type 0 → Type 0
Action F S A = S → Result F A × S

module _ {F S : Type 0} where
  abbrev pub done : Action F S (Unit {0})
  done s = (ok tt, s)

  abbrev pub pure : {A : Type 0} → A → Action F S A
  pure a s = (ok a, s)

  -- Run the rest on a value, and pass a failure on.
  abbrev pub continue_with : {A B : Type 0} → (A → Action F S B) → Result F A × S → Result F B × S
  continue_with f (ok a, s) = f a s
  continue_with f (err e, s) = (err e, s)

  infixl 5 ◌>>=◌ ◌>>◌
  unfoldable pub ◌>>=◌ : {A B : Type 0} → Action F S A → (A → Action F S B) → Action F S B
  ◌>>=◌ m f s = continue_with f (m s)

  unfoldable pub ◌>>◌ : {A B : Type 0} → Action F S A → Action F S B → Action F S B
  m >> k = m >>= λ _. k

  abbrev pub update : (S → S) → Action F S (Unit {0})
  update f s = (ok tt, f s)

  -- Run an action that depends on the state.
  abbrev pub with_state : {A : Type 0} → (S → Action F S A) → Action F S A
  with_state f s = f s s

  -- Go on where the test holds, and run `m`, which fails, where not.
  unfoldable pub guard : Bool → Action F S (Unit {0}) → Action F S (Unit {0})
  guard true m = done
  guard false m = m

  -- The value, or `m`, which fails, where there is none.
  unfoldable pub value_or : {A : Type 0} → Option A → Action F S A → Action F S A
  value_or none m = m
  value_or (some a) m = pure a
