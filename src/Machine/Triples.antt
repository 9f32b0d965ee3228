-- ===== src/Machine/Triples.antt =====
-- Assertions about actions. `Triple E P m Q` says that from a state with `P` the action `m` ends
-- in one with `Q`, or fails in one with `E`; `Q` may speak of the value, `E` of the failure.
use browsertools.Prelude.{◌≡◌, refl, Bool, true, false, Option, none, some}
use browsertools.Machine.{
  Result, ok, err, Action, pure, ◌>>=◌, ◌>>◌, update, with_state, guard, value_or,
}

-- What holds of the end of an action.
abbrev pub Ends : {F S A : Type 0} → (F → S → Type 0) → (A → S → Type 0) → Result F A → S → Type 0
Ends E Q (ok a) s = Q a s
Ends E Q (err e) s = E e s

pub record Triple {F S A : Type 0} (E : F → S → Type 0) (P : S → Type 0) (m : Action F S A)
    (Q : A → S → Type 0) : Type 0 where
  pub at : (s : S) → P s → Ends E Q (m s).0 (m s).1

-- The action fails from every state with `P`.
abbrev pub Fails : {F S A : Type 0} → (F → S → Type 0) → (S → Type 0) → Action F S A → Type 0
Fails E P m = Triple E P m (λ a s. false ≡ true)

module _ {F S : Type 0} {E : F → S → Type 0} {A B : Type 0} where
  Ends-bind :
      {Q : A → S → Type 0} {R : B → S → Type 0} (r : Result F A) (s : S) (f : A → Action F S B)
      → Ends E Q r s
      → ((a : A) → Triple E (Q a) (f a) R)
      → Ends E R (◌>>=◌ (λ _. (r, s)) f s).0 (◌>>=◌ (λ _. (r, s)) f s).1
  unfolding ◌>>=◌
  Ends-bind (ok a) s f h k = (k a).at s h
  Ends-bind (err e) s f h k = h

  pub after :
      {P : S → Type 0} {Q : A → S → Type 0} {R : B → S → Type 0} (m : Action F S A)
      (f : A → Action F S B)
      → Triple E P m Q
      → ((a : A) → Triple E (Q a) (f a) R)
      → Triple E P (m >>= f) R
  unfolding ◌>>=◌
  after m f h k = record {
    at = λ s p. let (r, s') = m s in unfold ◌>>=◌ in Ends-bind r s' f (h.at s p) k;
  }

  pub followed_by :
      {P : S → Type 0} {Q : A → S → Type 0} {R : B → S → Type 0} (m : Action F S A)
      (k : Action F S B)
      → Triple E P m Q
      → ((a : A) → Triple E (Q a) k R)
      → Triple E P (m >> k) R
  unfolding ◌>>◌
  followed_by m k h g = after m (λ _. k) h g

Ends-strict :
    {F S A : Type 0} (E : F → S → Type 0) (R : A → S → Type 0) (r : Result F A) (s : S)
    → Ends E (λ a t. false ≡ true) r s
    → Ends E R r s
Ends-strict E R (ok a) s h = cc
Ends-strict E R (err e) s h = h

module _ {F S : Type 0} {E : F → S → Type 0} {A : Type 0} {R : A → S → Type 0} where
  pub weaken :
      {P P' : S → Type 0} (m : Action F S A)
      → ((s : S) → P s → P' s)
      → Triple E P' m R
      → Triple E P m R
  weaken m w h = record { at = λ s p. h.at s (w s p) }

  pub after_update :
      {P P' : S → Type 0} (f : S → S) (k : Action F S A)
      → ((s : S) → P s → P' (f s))
      → Triple E P' k R
      → Triple E P (update f >> k) R
  unfolding ◌>>◌ ◌>>=◌
  after_update f k u h = record { at = λ s p. h.at (f s) (u s p) }

  pub of_state :
      {P : S → Type 0} (f : S → Action F S A)
      → ((s : S) → Triple E (λ t. P t × (t ≡ s)) (f s) R)
      → Triple E P (with_state f) R
  of_state f h = record { at = λ s p. (h s).at s (p, refl) }

  pub of_Fails : {P : S → Type 0} (m : Action F S A) → Fails E P m → Triple E P m R
  of_Fails m h = record { at = λ s p. Ends-strict E R (m s).0 (m s).1 (h.at s p) }

module _ {F S : Type 0} {E : F → S → Type 0} {P : S → Type 0} where
  pub of_pure :
      {A : Type 0} {R : A → S → Type 0} (a : A)
      → ((s : S) → P s → R a s)
      → Triple {F = F} E P (pure a) R
  of_pure a h = record { at = h }

  pub of_update :
      {R : Unit {0} → S → Type 0} (f : S → S)
      → ((s : S) → P s → R tt (f s))
      → Triple {F = F} E P (update f) R
  of_update f u = record { at = u }

  pub Ends-guard :
      (b : Bool) (g : S → Bool) (m : Action F S (Unit {0})) (s : S)
      → Fails E P m
      → P s
      → g s ≡ b
      → Ends E (λ a t. P t × (g t ≡ true)) (guard b m s).0 (guard b m s).1
  unfolding guard
  Ends-guard true g m s f p h = (p, h)
  Ends-guard false g m s f p h = Ends-strict E _ (m s).0 (m s).1 (f.at s p)

  pub Ends-value :
      {A : Type 0} (o : Option A) (g : S → Option A) (m : Action F S A) (s : S)
      → Fails E P m
      → P s
      → g s ≡ o
      → Ends E (λ a t. P t × (g t ≡ some a)) (value_or o m s).0 (value_or o m s).1
  unfolding value_or
  Ends-value none g m s f p h = Ends-strict E _ (m s).0 (m s).1 (f.at s p)
  Ends-value (some a) g m s f p h = (p, h)

  -- The value that an action already has, or its failure.
  pub Ends-given :
      {A : Type 0} (o : Option A) (m : Action F S A) (s : S)
      → Fails E P m
      → P s
      → Ends E (λ a t. P t) (value_or o m s).0 (value_or o m s).1
  unfolding value_or
  Ends-given none m s f p = Ends-strict E _ (m s).0 (m s).1 (f.at s p)
  Ends-given (some a) m s f p = p

  -- Going on, or the failure.
  pub Ends-checked :
      (b : Bool) (m : Action F S (Unit {0})) (s : S)
      → Fails E P m
      → P s
      → Ends E (λ a t. P t) (guard b m s).0 (guard b m s).1
  unfolding guard
  Ends-checked true m s f p = p
  Ends-checked false m s f p = Ends-strict E _ (m s).0 (m s).1 (f.at s p)
