-- ===== src/AuthorSession/Rules.antt =====
-- Assertions about the actions of the author session, and a rule for each way to build one.
use browsertools.Prelude.{
  ℕ, ◌-◌, ◌≡◌, refl, Bool, true, false, Option, none, some, List, ◌∷◌, inl, inr, Bool-cases, ◌==◌,
  leb,
}
use browsertools.Machine.{◌>>=◌, ◌>>◌, with_state, value_or}
use browsertools.Machine.Triples.{
  Ends, Triple, Fails, after, followed_by, weaken, of_Fails, Ends-guard, Ends-value, Ends-given,
}
use browsertools.AuthorSession.Types.{Code, ServerMessage, browser_failure, diagnostic}
use browsertools.AuthorSession.Server.{
  Server, Event, wrote, call_close, Backend, Failure, session_failed, output_failed, Action,
}
use browsertools.AuthorSession.Actions.{
  write, fail, fail_after_close, close_session, require, require_some, with_active, browser_call,
}

abbrev pub Assertion : Type 1
Assertion = Server → Type 0

abbrev pub Failing : Type 1
Failing = Failure → Server → Type 0

-- The server after one more event.
abbrev pub push : Event → Server → Server
push e s = record s { trace = e ∷ s.trace }

-- The server after a call that took time.
abbrev pub spend : Event → ℕ → Server → Server
spend e n s = record s { trace = e ∷ s.trace; active_remaining = n }

module _ (backend : Backend) {E : Failing} {P : Assertion} where
  -- A message that is written keeps what it should, whether the output fails or not.
  pub of_write :
      {Q : Assertion} (m : ServerMessage)
      → ((s : Server) → P s → Q (push (wrote m) s))
      → ((s : Server)
          → P s
          → backend.written (wrote m ∷ s.trace) ≡ false
          → E output_failed (push (wrote m) s))
      → Triple E P (write backend m) (λ _ s. Q s)
  unfolding write
  of_write m q e = record {
    at = λ s p. elim (Bool-cases (backend.written (wrote m ∷ s.trace))) [
      | inl h ↦ rw h (q s p)
      | inr h ↦ rw h (e s p h)
    ];
  }

  -- A failure closes the live session, marks the server and tries a diagnostic.
  pub Fails-fail :
      {A : Type 0} (code : Code)
      → ((s : Server)
          → P s
          → s.session ≡ true
          → E (session_failed code) (
              push
                (wrote (diagnostic code))
                (record s { closed = true; session = false; trace = call_close ∷ s.trace })))
      → ((s : Server)
          → P s
          → s.session ≡ false
          → E
              (session_failed code)
              (push (wrote (diagnostic code)) (record s { closed = true; session = false })))
      → Fails E P (fail backend {A = A} code)
  unfolding fail fail_after_close close_session write
  Fails-fail code live dead = record {
    at = λ s p. elim (Bool-cases s.session) [
      | inl h ↦ rw h (live s p h)
      | inr h ↦ rw h (dead s p h)
    ];
  }

-- The session fails from `P` into `E`, whatever the code.
abbrev pub FailsInto : Backend → Failing → Assertion → Type 1
FailsInto backend E P = (A : Type 0) (code : Code) → Fails E P (fail backend {A = A} code)

module _ {E : Failing} {P : Assertion} {A B : Type 0} {R : B → Assertion} where
  -- What is known of the value and the state may be used by the rest.
  pub with_value :
      {Q : A → Server → Type 0} (m : Action A) (f : A → Action B)
      → Triple E P m (λ x s. P s × Q x s)
      → ((x : A) → Triple E (λ s. P s × Q x s) (f x) R)
      → Triple E P (m >>= f) R
  with_value m f h k = after m f h k

-- Rules for the checks: from `P` the session fails into `E`.
module _ (backend : Backend) {E : Failing} {P : Assertion} (fails : FailsInto backend E P) where
  pub after_require :
      {B : Type 0} {R : B → Assertion} (test : Bool) (code : Code) (k : Action B)
      → (test ≡ true → Triple E P k R)
      → Triple E P (require backend test code >> k) R
  unfolding require
  after_require test code k h =
      followed_by _ k
        (record {
          at = λ s p. Ends-guard test (λ _. test) (fail backend code) s (fails _ code) p refl;
        })
        λ _. record { at = λ s p. (h p.1).at s p.0 }

  pub after_some :
      {A B : Type 0} {R : B → Assertion} (o : Option A) (code : Code) (f : A → Action B)
      → ((x : A) → o ≡ some x → Triple E P (f x) R)
      → Triple E P (require_some backend o code >>= f) R
  unfolding require_some
  after_some o code f h =
      after _ f
        (record { at = λ s p. Ends-value o (λ _. o) (fail backend code) s (fails _ code) p refl })
        λ x. record { at = λ s p. (h x p.1).at s p.0 }

  pub after_check :
      {B : Type 0} {R : B → Assertion} (test : Server → Bool) (code : Code) (k : Action B)
      → Triple E (λ s. P s × (test s ≡ true)) k R
      → Triple E P (with_state (λ s. require backend (test s) code) >> k) R
  unfolding require
  after_check test code k h =
      followed_by _ k
        (record {
          at = λ s p. Ends-guard (test s) test (fail backend code) s (fails _ code) p refl;
        })
        λ _. record { at = λ s p. h.at s p }

  pub after_find :
      {A B : Type 0} {R : B → Assertion} (o : Server → Option A) (code : Code) (f : A → Action B)
      → ((x : A) → Triple E (λ s. P s × (o s ≡ some x)) (f x) R)
      → Triple E P (with_state (λ s. require_some backend (o s) code) >>= f) R
  unfolding require_some
  after_find o code f h =
      after _ f
        (record { at = λ s p. Ends-value (o s) o (fail backend code) s (fails _ code) p refl }) h

  -- A check whose outcome is not used later.
  pub past_check :
      {B : Type 0} {R : B → Assertion} (test : Server → Bool) (code : Code) (k : Action B)
      → Triple E P k R
      → Triple E P (with_state (λ s. require backend (test s) code) >> k) R
  past_check test code k h = after_check test code k (weaken k (λ s p. p.0) h)

  -- A value of which only its being there matters.
  pub past_find :
      {A B : Type 0} {R : B → Assertion} (o : Server → Option A) (code : Code) (f : A → Action B)
      → ((x : A) → Triple E P (f x) R)
      → Triple E P (with_state (λ s. require_some backend (o s) code) >>= f) R
  past_find o code f h = after_find o code f (λ x. weaken (f x) (λ s p. p.0) (h x))

  -- The same for a test that is an option.
  pub past_answer :
      {A B : Type 0} {R : B → Assertion} (o : Server → Option A) (code : Code) (k : Action B)
      → Triple E P k R
      → Triple E P (with_state (λ s. require_some backend (o s) code) >> k) R
  unfolding ◌>>◌
  past_answer o code k h = past_find o code (λ _. k) (λ x. h)

-- A call that is charged to the active time.
module _ (backend : Backend) {E : Failing} {P Q : Assertion} (fails : FailsInto backend E P)
    (fails_after : FailsInto backend E Q) where
  at_none :
      (A : Type 0) (s : Server)
      → P s
      → let m = fail backend {A = A} browser_failure in Ends E (λ x t. Q t) (m s).0 (m s).1
  at_none A s p = (of_Fails (fail backend browser_failure) (fails A browser_failure)).at s p

  answered :
      {A : Type 0} (o : Option A) (s : Server)
      → Q s
      → let m = value_or o (fail backend browser_failure) in Ends E (λ x t. Q t) (m s).0 (m s).1
  answered o s q = Ends-given o (fail backend browser_failure) s (fails_after _ browser_failure) q

  pub of_call :
      {A : Type 0} (call : Event) (reply : List Event → Option A)
      → ((s : Server) (n : ℕ) → P s → Q (spend call n s))
      → Triple E P (browser_call backend call reply) (λ x s. Q s)
  unfolding browser_call with_active require_some value_or
  of_call {A = A} call reply grow = record {
    at = λ s p.
        let t = call ∷ s.trace in
        elim (Bool-cases (backend.canceled s.trace)) [
          | inl h ↦ rw h (at_none A s p)
          | inr h ↦ elim (Bool-cases (s.active_remaining == 0)) [
            | inl g ↦ rw (h, g) (at_none A s p)
            | inr g ↦ elim (Bool-cases (leb s.active_remaining (backend.elapsed t))) [
              | inl l ↦ rw (h, g, l) (answered none (spend call 0 s) (grow s 0 p))
              | inr l ↦
                  let s' = spend call (s.active_remaining - backend.elapsed t) s in
                  rw (h, g, l)
                    (answered (reply t) s' (grow s (s.active_remaining - backend.elapsed t) p))
            ]
          ]
        ];
  }

-- A call whose answer matters: from `P'` the session fails once it was made.
module _ (backend : Backend) {E : Failing} {P P' : Assertion} (fails : FailsInto backend E P)
    (fails_after : FailsInto backend E P') {A : Type 0} where
  failed_call :
      (Q : A → Assertion) (s : Server) (n : ℕ) (call : Event)
      → P' (spend call n s)
      → let m = fail backend {A = A} browser_failure in
        Ends E Q (m (spend call n s)).0 (m (spend call n s)).1
  failed_call Q s n call p =
      (of_Fails (fail backend browser_failure) (fails_after A browser_failure)).at (spend call n s)
        p

  replied :
      (Q : A → Assertion) (o : Option A) (s : Server)
      → (o ≡ none → P' s)
      → ((x : A) → o ≡ some x → Q x s)
      → let m = value_or o (fail backend browser_failure) in Ends E Q (m s).0 (m s).1
  unfolding value_or
  replied Q none s f g =
      (of_Fails (fail backend browser_failure) (fails_after A browser_failure)).at s (f refl)
  replied Q (some x) s f g = g x refl

  pub of_reply :
      {Q : A → Assertion} (call : Event) (reply : List Event → Option A)
      → ((s : Server)
          → P s
          → leb s.active_remaining (backend.elapsed (call ∷ s.trace)) ≡ true
          → P' (spend call 0 s))
      → ((s : Server) (n : ℕ) → P s → reply (call ∷ s.trace) ≡ none → P' (spend call n s))
      → ((s : Server) (n : ℕ) (x : A)
          → P s
          → leb s.active_remaining (backend.elapsed (call ∷ s.trace)) ≡ false
          → reply (call ∷ s.trace) ≡ some x
          → Q x (spend call n s))
      → Triple E P (browser_call backend call reply) Q
  unfolding browser_call with_active require_some value_or
  of_reply {Q = Q} call reply late refused taken = record {
    at = λ s p.
        let t = call ∷ s.trace in
        elim (Bool-cases (backend.canceled s.trace)) [
          | inl h ↦
              rw h ((of_Fails (fail backend browser_failure) (fails A browser_failure)).at s p)
          | inr h ↦ elim (Bool-cases (s.active_remaining == 0)) [
            | inl g ↦
                rw (h, g)
                  ((of_Fails (fail backend browser_failure) (fails A browser_failure)).at s p)
            | inr g ↦ elim (Bool-cases (leb s.active_remaining (backend.elapsed t))) [
              | inl l ↦ rw (h, g, l) (failed_call Q s 0 call (late s p l))
              | inr l ↦
                  let n = s.active_remaining - backend.elapsed t in
                  rw (h, g, l)
                    (replied Q (reply t) (spend call n s) (refused s n p)
                      (λ x e. taken s n x p l e))
            ]
          ]
        ];
  }

module _ (backend : Backend) {A : Type 0} where
  -- What a call under the active time keeps: it is not made, or it is and takes time.
  pub with_active_keeps :
      (P : Assertion) (call : Event) (reply : List Event → Option A) (s : Server)
      → P s
      → ((n : ℕ) → P (spend call n s))
      → P (with_active backend call reply s).1
  unfolding with_active
  with_active_keeps P call reply s p q =
      let t = call ∷ s.trace in
      elim (Bool-cases (backend.canceled s.trace)) [
        | inl h ↦ rw (with_active, h) p
        | inr h ↦ elim (Bool-cases (s.active_remaining == 0)) [
          | inl g ↦ rw (with_active, h, g) p
          | inr g ↦ elim (Bool-cases (leb s.active_remaining (backend.elapsed t))) [
            | inl l ↦ rw (with_active, h, g, l) (q 0)
            | inr l ↦ rw (with_active, h, g, l) (q (s.active_remaining - backend.elapsed t))
          ]
        ]
      ]
