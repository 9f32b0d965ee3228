-- ===== src/Registration/Lifecycle/Messages.antt =====
-- About the use of the browser in handle of registrationauthorsession/session.go.
use browsertools.Prelude.{
  ◌≡◌, refl, ◌⊎◌, inl, inr, Bool, true, false, Option, none, some, arith, if_false,
}
use browsertools.Library.{Library}
use browsertools.Registration.Types.{Protocol, Code, MessageType, Phase, unknown_message}
use browsertools.Registration.Profile.{ClientMessage}
use browsertools.Registration.Server.{
  Server, Backend, Result, ok, err, Action, pure, ◌>>=◌, ◌>>◌, continue_with,
}
use browsertools.Registration.Actions.{fail, fail_after_close, require}
use browsertools.Registration.Session.{Completion, finish, close_without_result}
use browsertools.Registration.Serve.{
  is_admitted, Next, read_on, stop, dispatch, handle_open, handle, then_read_on,
}
use browsertools.Registration.Rules.{Assertion, Triple, Ends}
use browsertools.Registration.Lifecycle.{IsSound, IsReady, IsFresh, IsOver, is_started}
use browsertools.Registration.Lifecycle.Primitives.{Sound, Ready, fail-sound}
use browsertools.Registration.Lifecycle.Steps.{navigate-ready}
use browsertools.Registration.Lifecycle.Observing.{observe-ready}
use browsertools.Registration.Lifecycle.Extras.{
  preview-ready, approve_verification-ready, review-ready,
}
use browsertools.Registration.Lifecycle.Ending.{
  start-ready, Fresh-IsSound, finish-IsOver, close-IsOver,
}

module _ (lib : Library) (backend : Backend) where
  -- Where the loop reads its next line: nothing was started, or the browser is open.
  abbrev pub Between : Assertion
  Between s = IsFresh lib backend s ⊎ IsReady lib backend s

  pub Between-IsSound : (s : Server) → Between s → IsSound lib backend s
  Between-IsSound s (inl f) = Fresh-IsSound lib backend s f
  Between-IsSound s (inr r) = r.sound

  -- The end of a handled message: the loop can read on, or the session is over.
  abbrev pub Handled : Result Next → Server → Type 0
  Handled (ok read_on) s = Between s
  Handled (ok (stop c)) s = IsOver lib backend s
  Handled (err e) s = IsSound lib backend s

  ends_read_on :
      (r : Result (Unit {0})) (s : Server)
      → Ends (Sound lib backend) (Ready lib backend) r s
      → let e = continue_with {B = Next} (λ _. pure read_on) (r, s) in Handled e.0 e.1
  ends_read_on (ok a) s h = inr h
  ends_read_on (err e) s h = h

  ends_stop :
      {A : Type 0} (r : Result A) (c : A → Option Completion) (s : Server)
      → Ends (Sound lib backend) (IsOver lib backend) r s
      → let e = continue_with {B = Next} (λ a. pure (stop (c a))) (r, s) in Handled e.0 e.1
  ends_stop (ok a) c s h = h
  ends_stop (err e) c s h = h

  -- A handler that keeps the session ready lets the loop read on.
  reads_on :
      (P : Assertion) (m : Action (Unit {0})) (s : Server)
      → P s
      → Triple (Sound lib backend) P m (Ready lib backend)
      → let e = then_read_on lib backend m s in Handled e.0 e.1
  unfolding ◌>>=◌
  reads_on P m s p h = ends_read_on (m s).0 (m s).1 (h.at s p)

  handled_fail :
      (code : Code) (s : Server)
      → IsSound lib backend s
      → let e = fail lib backend {A = Next} code s in Handled e.0 e.1
  unfolding fail fail_after_close
  handled_fail code s h = fail-sound lib backend Next code s h

  -- `start` is admitted while nothing was started; what needs a session is admitted only after.
  admitted_start :
      (p : Protocol) (phase : Phase)
      → is_admitted p phase MessageType.start ≡ true
      → is_started phase ≡ false
  unfolding is_admitted
  admitted_start p phase h = ground arith

  -- The handlers of a live session.
  abbrev needs_session : MessageType → Bool
  needs_session MessageType.observe = true
  needs_session MessageType.navigate = true
  needs_session MessageType.preview = true
  needs_session MessageType.review = true
  needs_session MessageType.approve_verification = true
  needs_session _ = false

  admitted_live :
      (p : Protocol) (phase : Phase) (t : MessageType)
      → needs_session t ≡ true
      → is_admitted p phase t ≡ true
      → is_started phase ≡ true
  unfolding is_admitted
  admitted_live p phase t n h = ground arith

  session_there :
      (t : MessageType) (s : Server)
      → needs_session t ≡ true
      → is_admitted s.protocol s.phase t ≡ true
      → Between s
      → IsReady lib backend s
  session_there t s n a (inl f) = cc (admitted_live s.protocol s.phase t n a, f.waiting)
  session_there t s n a (inr r) = r

  nothing_started :
      (s : Server)
      → is_admitted s.protocol s.phase MessageType.start ≡ true
      → Between s
      → IsFresh lib backend s
  nothing_started s a (inl f) = f
  nothing_started s a (inr r) = cc (admitted_start s.protocol s.phase a, r.started)

  dispatch-Handled :
      (t : MessageType) (m : ClientMessage) (s : Server)
      → Between s
      → is_admitted s.protocol s.phase t ≡ true
      → let e = dispatch lib backend t m s in Handled e.0 e.1
  unfolding dispatch ◌>>=◌
  dispatch-Handled MessageType.start m s b a =
      reads_on _ _ s (nothing_started s a b) (start-ready lib backend m)
  dispatch-Handled MessageType.observe m s b a =
      reads_on _ _ s (session_there MessageType.observe s refl a b) (observe-ready lib backend)
  dispatch-Handled MessageType.navigate m s b a =
      reads_on _ _ s (session_there MessageType.navigate s refl a b) (navigate-ready lib backend m)
  dispatch-Handled MessageType.preview m s b a =
      reads_on _ _ s (session_there MessageType.preview s refl a b) (preview-ready lib backend m)
  dispatch-Handled MessageType.review m s b a =
      reads_on _ _ s (session_there MessageType.review s refl a b) (review-ready lib backend m)
  dispatch-Handled MessageType.approve_verification m s b a =
      reads_on _ _ s (session_there MessageType.approve_verification s refl a b)
        (approve_verification-ready lib backend m)
  dispatch-Handled MessageType.finish m s b a =
      ends_stop (finish lib backend s).0 some (finish lib backend s).1
        (finish-IsOver lib backend s (Between-IsSound s b))
  dispatch-Handled MessageType.close m s b a =
      ends_stop (close_without_result lib backend s).0 (λ _. none)
        (close_without_result lib backend s).1 (close-IsOver lib backend s (Between-IsSound s b))
  dispatch-Handled MessageType.unknown m s b a =
      handled_fail unknown_message s (Between-IsSound s b)
  dispatch-Handled (MessageType.other_type x) m s b a =
      handled_fail unknown_message s (Between-IsSound s b)

  -- A check of `handle`: a failed one ends the session soundly.
  checked :
      (test : Bool) (code : Code) (k : Action Next) (s : Server)
      → IsSound lib backend s
      → (test ≡ true → Handled (k s).0 (k s).1)
      → let e = (require lib backend test code >> k) s in Handled e.0 e.1
  unfolding ◌>>◌ ◌>>=◌ require fail fail_after_close
  checked true code k s h g = g refl
  checked false code k s h g = fail-sound lib backend (Unit {0}) code s h

  handle_open-Handled :
      (m : ClientMessage) (s : Server)
      → Between s
      → let e = handle_open lib backend m s in Handled e.0 e.1
  unfolding handle_open
  handle_open-Handled m s b = checked _ _ _ s (Between-IsSound s b) λ _.
      checked _ _ _ s (Between-IsSound s b) λ _.
        checked _ _ _ s (Between-IsSound s b) λ admitted. dispatch-Handled m.type m s b admitted

  handle_going :
      (m : ClientMessage) (s : Server)
      → s.closed ≡ false
      → handle lib backend m s ≡ handle_open lib backend m s
  unfolding handle
  handle_going m s going = if_false s.closed _ _ going

  pub Between-going : (s : Server) → Between s → s.closed ≡ false
  Between-going s (inl f) = f.going
  Between-going s (inr r) = r.going

  pub handle-Handled :
      (m : ClientMessage) (s : Server)
      → Between s
      → let e = handle lib backend m s in Handled e.0 e.1
  handle-Handled m s b = rw (handle_going m s (Between-going s b)) (handle_open-Handled m s b)
