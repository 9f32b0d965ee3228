-- ===== src/Registration/Rules.antt =====
-- Assertions about actions, and a rule for each way to build one. `Triple E P m Q` says that from a
-- state with `P` the action `m` ends in one with `Q`, or fails in one with `E`.
use browsertools.Prelude.{◌≡◌, refl, Bool, true, false, Option, none, some}
use browsertools.Library.{Library}
use browsertools.Registration.Types.{Code}
use browsertools.Registration.Server.{Server, Backend, Result, ok, err, Action, pure, ◌>>=◌, ◌>>◌}
use browsertools.Registration.Actions.{fail, fail_after_close, require, require_some}
use browsertools.Registration.Handlers.{update, with_server}

abbrev pub Assertion : Type 1
Assertion = Server → Type 0

-- What holds of the end of an action.
abbrev pub Ends : {A : Type 0} → Assertion → Assertion → Result A → Server → Type 0
Ends E Q (ok a) s = Q s
Ends E Q (err e) s = E s

pub record Triple {A : Type 0} (E P : Assertion) (m : Action A) (Q : Assertion) : Type 0 where
  pub at : (s : Server) → P s → Ends E Q (m s).0 (m s).1

module _ {E : Assertion} {A B : Type 0} where
  Ends-bind :
      {Q R : Assertion} (r : Result A) (s : Server) (f : A → Action B)
      → Ends E Q r s
      → ((a : A) → Triple E Q (f a) R)
      → Ends E R (◌>>=◌ (λ _. (r, s)) f s).0 (◌>>=◌ (λ _. (r, s)) f s).1
  unfolding ◌>>=◌
  Ends-bind (ok a) s f h k = (k a).at s h
  Ends-bind (err e) s f h k = h

  pub after :
      {P Q R : Assertion} (m : Action A) (f : A → Action B)
      → Triple E P m Q
      → ((a : A) → Triple E Q (f a) R)
      → Triple E P (m >>= f) R
  unfolding ◌>>=◌
  after m f h k = record {
    at = λ s p. let (r, s') = m s in unfold ◌>>=◌ in Ends-bind r s' f (h.at s p) k;
  }

  pub followed_by :
      {P Q R : Assertion} (m : Action A) (k : Action B)
      → Triple E P m Q
      → Triple E Q k R
      → Triple E P (m >> k) R
  unfolding ◌>>◌
  followed_by m k h g = after m (λ _. k) h (λ _. g)

module _ {E : Assertion} {A : Type 0} where
  pub weaken :
      {P P' R : Assertion} (m : Action A)
      → ((s : Server) → P s → P' s)
      → Triple E P' m R
      → Triple E P m R
  weaken m w h = record { at = λ s p. h.at s (w s p) }

  pub after_update :
      {P P' R : Assertion} (f : Server → Server) (k : Action A)
      → ((s : Server) → P s → P' (f s))
      → Triple E P' k R
      → Triple E P (update f >> k) R
  unfolding ◌>>◌ ◌>>=◌
  after_update f k u h = record { at = λ s p. h.at (f s) (u s p) }

  pub after_read :
      {P R : Assertion} {V : Type 0} (g : Server → V) (f : V → Action A)
      → ((v : V) → Triple E (λ s. P s × (g s ≡ v)) (f v) R)
      → Triple E P (with_server (λ s. pure (g s)) >>= f) R
  unfolding ◌>>=◌
  after_read g f h = record { at = λ s p. (h (g s)).at s (p, refl) }

  pub of_state :
      {P R : Assertion} (f : Server → Action A)
      → ((s : Server) → Triple E P (f s) R)
      → Triple E P (with_server f) R
  of_state f h = record { at = λ s p. (h s).at s p }

pub of_pure : {E P : Assertion} {A : Type 0} (a : A) → Triple E P (pure a) P
of_pure a = record { at = λ s p. p }

pub of_update :
    {E P Q : Assertion} (f : Server → Server)
    → ((s : Server) → P s → Q (f s))
    → Triple E P (update f) Q
of_update f u = record { at = u }

-- Rules for the checks: from `P` the session fails into `E`.
module _ (E P R : Assertion) (lib : Library) (backend : Backend)
    (fails : (code : Code) (s : Server) → P s → E (fail lib backend {A = Unit {0}} code s).1) where
  at_require :
      {B : Type 0} (test : Bool) (code : Code) (k : Action B) (s : Server)
      → P s
      → (test ≡ true → Ends E R (k s).0 (k s).1)
      → let m = require lib backend test code >> k in Ends E R (m s).0 (m s).1
  unfolding ◌>>◌ ◌>>=◌ require fail fail_after_close
  at_require true code k s p h = h refl
  at_require false code k s p h = fails code s p

  at_require_some :
      {A B : Type 0} (o : Option A) (code : Code) (f : A → Action B) (s : Server)
      → P s
      → ((a : A) → o ≡ some a → Ends E R (f a s).0 (f a s).1)
      → let m = require_some lib backend o code >>= f in Ends E R (m s).0 (m s).1
  unfolding ◌>>=◌ require_some fail fail_after_close
  at_require_some (some a) code f s p h = h a refl
  at_require_some none code f s p h = fails code s p

module _ {E P : Assertion} (lib : Library) (backend : Backend)
    (fails : (code : Code) (s : Server) → P s → E (fail lib backend {A = Unit {0}} code s).1) where
  pub after_require :
      {B : Type 0} {R : Assertion} (test : Bool) (code : Code) (k : Action B)
      → (test ≡ true → Triple E P k R)
      → Triple E P (require lib backend test code >> k) R
  after_require {R = R} test code k h = record {
    at = λ s p. at_require E P R lib backend fails test code k s p (λ e. (h e).at s p);
  }

  pub after_some :
      {A B : Type 0} {R : Assertion} (o : Option A) (code : Code) (f : A → Action B)
      → ((a : A) → o ≡ some a → Triple E P (f a) R)
      → Triple E P (require_some lib backend o code >>= f) R
  after_some {R = R} o code f h = record {
    at = λ s p. at_require_some E P R lib backend fails o code f s p (λ a e. (h a e).at s p);
  }

  pub after_check :
      {B : Type 0} {R : Assertion} (test : Server → Bool) (code : Code) (k : Action B)
      → Triple E (λ s. P s × (test s ≡ true)) k R
      → Triple E P (with_server (λ s. require lib backend (test s) code) >> k) R
  unfolding ◌>>◌ ◌>>=◌
  after_check {R = R} test code k h = record {
    at = λ s p.
        unfold ◌>>◌ ◌>>=◌ in
        at_require E P R lib backend fails (test s) code k s p (λ e. h.at s (p, e));
  }

  pub after_find :
      {A B : Type 0} {R : Assertion} (o : Server → Option A) (code : Code) (f : A → Action B)
      → ((a : A) → Triple E (λ s. P s × (o s ≡ some a)) (f a) R)
      → Triple E P (with_server (λ s. require_some lib backend (o s) code) >>= f) R
  unfolding ◌>>=◌
  after_find {R = R} o code f h = record {
    at = λ s p. at_require_some E P R lib backend fails (o s) code f s p (λ a e. (h a).at s (p, e));
  }

  -- A check whose outcome is not used later.
  pub past_check :
      {B : Type 0} {R : Assertion} (test : Server → Bool) (code : Code) (k : Action B)
      → Triple E P k R
      → Triple E P (with_server (λ s. require lib backend (test s) code) >> k) R
  past_check test code k h = after_check test code k (weaken k (λ s p. p.0) h)
