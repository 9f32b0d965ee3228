-- ===== src/Registration/Lifecycle/Primitives.antt =====
-- About the use of the browser in the shared actions of registrationauthorsession/session.go.
use browsertools.Prelude.{
  ◌≤◌, ◌≡◌, inl, inr, pos_part, Bool, true, false, List, ◌∷◌, is_some, arith, Bool-cases,
}
use browsertools.Library.{Library}
use browsertools.Registration.Types.{Code, canceled, browser_failure}
use browsertools.Registration.Profile.{ServerMessage}
use browsertools.Registration.Server.{Server, Event, Backend}
use browsertools.Registration.Actions.{
  write, close_session, fail, fail_after_close, fail_browser, with_active, browser_call, is_success,
}
use browsertools.Registration.Rules.{Assertion, Triple, Ends}
use browsertools.Registration.Lifecycle.{
  observes, is_started, is_live, IsOrderly, IsSound, IsReady, IsFresh,
}

-- Two servers that differ only in what the lifecycle does not read.
pub record SameSession (s s' : Server) : Type 0 where
  pub trace : s'.trace ≡ s.trace
  pub session : s'.session ≡ s.session
  pub protocol : s'.protocol ≡ s.protocol
  pub origins : s'.origins ≡ s.origins
  pub bounds : s'.bounds ≡ s.bounds
  pub closed : s'.closed ≡ s.closed
  pub observations : s'.observations ≡ s.observations
  pub started : is_started s.phase ≡ true → is_started s'.phase ≡ true

module _ (lib : Library) (backend : Backend) where
  abbrev pub Sound : Assertion
  Sound = IsSound lib backend

  abbrev pub Ready : Assertion
  Ready = IsReady lib backend

  abbrev pub Fresh : Assertion
  Fresh = IsFresh lib backend

  pub close_session-sound : (s : Server) → Sound s → Sound (close_session lib backend s).1
  unfolding close_session
  close_session-sound s h = ground (arith, h.live, h.orderly, h.within, h.counted, h.dead)

  pub close_session-released :
      (s : Server) → is_some (close_session lib backend s).1.session ≡ false
  unfolding close_session
  close_session-released s = ground arith

  pub fail_after_close-sound :
      (A : Type 0) (code : Code) (s : Server)
      → Sound s
      → is_some s.session ≡ false
      → Sound (fail_after_close lib backend {A = A} code s).1
  unfolding fail_after_close write
  fail_after_close-sound A code s h r = ground arith

  pub fail_after_close-released :
      (A : Type 0) (code : Code) (s : Server)
      → is_some s.session ≡ false
      → is_some (fail_after_close lib backend {A = A} code s).1.session ≡ false
  unfolding fail_after_close write
  fail_after_close-released A code s r = ground arith

  pub fail-sound :
      (A : Type 0) (code : Code) (s : Server) → Sound s → Sound (fail lib backend {A = A} code s).1
  unfolding fail
  fail-sound A code s h =
      fail_after_close-sound A _ (close_session lib backend s).1 (close_session-sound s h)
        (close_session-released s)

  pub fail-released :
      (A : Type 0) (code : Code) (s : Server)
      → is_some (fail lib backend {A = A} code s).1.session ≡ false
  unfolding fail
  fail-released A code s =
      fail_after_close-released A _ (close_session lib backend s).1 (close_session-released s)

  pub ready_of_same : (s s' : Server) → SameSession s s' → Ready s → Ready s'
  ready_of_same s s' e h =
      ground (arith, h.sound.live, h.sound.orderly, h.sound.within, h.sound.counted)

  -- A failure, seen as an action.
  pub fails :
      (A : Type 0) (Q : Assertion) (code : Code) (s : Server)
      → Sound s
      → Ends Sound Q (fail lib backend {A = A} code s).0 (fail lib backend {A = A} code s).1
  unfolding fail fail_after_close
  fails A Q code s h = fail-sound A code s h

  pub fails_browser :
      (A : Type 0) (Q : Assertion) (s : Server)
      → Sound s
      → let m = fail_browser lib backend {A = A} in Ends Sound Q (m s).0 (m s).1
  unfolding fail_browser
  fails_browser A Q s h = elim (Bool-cases (backend.canceled s.trace)) [
    | inl e ↦ rw e (fails A Q canceled s h)
    | inr e ↦ rw e (fails A Q browser_failure s h)
  ]

  -- What a call needs: it is in order, it leaves the session live, and it is within the budget.
  pub record IsDue (call : Event) (s : Server) : Type 0 where
    pub ready : Ready s
    pub in_order : IsOrderly lib backend s.protocol s.origins (call ∷ s.trace)
    pub stays_live : is_live lib backend (call ∷ s.trace) ≡ is_live lib backend s.trace
    pub within : observes (call ∷ s.trace) ≤ pos_part s.bounds.max_observations
    pub counted : observes (call ∷ s.trace) ≤ s.observations

  with_active-ready :
      (call : Event) (reply : List Event → Bool) (s : Server)
      → IsDue call s
      → Ready (with_active lib backend call reply s).1
  unfolding with_active
  with_active-ready call reply s h =
      ground (arith, h.ready.sound.live, h.in_order, h.stays_live, h.within, h.counted)

  pub browser_call-ready :
      (call : Event) (reply : List Event → Bool)
      → Triple Sound (IsDue call) (browser_call lib backend call reply) Ready
  unfolding browser_call
  browser_call-ready call reply = record {
    at = λ s h.
        let (status, s') = with_active lib backend call reply s in
        let r : Ready s' = with_active-ready call reply s h in
        elim (Bool-cases (is_success status)) [
          | inl e ↦ rw e r
          | inr e ↦ rw e (fails_browser (Unit {0}) Ready s' r.sound)
        ];
  }

  pub write-sound : (m : ServerMessage) (s : Server) → Sound s → Sound (write lib backend m s).1
  unfolding write
  write-sound m s h = ground arith

  pub write-ready : (m : ServerMessage) → Triple Sound Ready (write lib backend m) Ready
  unfolding write
  write-ready m = record { at = λ s h. ground arith }
