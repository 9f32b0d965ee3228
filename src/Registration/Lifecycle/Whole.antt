-- ===== src/Registration/Lifecycle/Whole.antt =====
-- About the use of the browser in Serve of registrationauthorsession/session.go.
use browsertools.Prelude.{
  ◌≤◌, ◌≡◌, inl, inr, pos_part, false, List, [], ◌∷◌, arith, Bool-cases, Option-cases, if_true,
  if_false,
}
use browsertools.Library.{Library}
use browsertools.Registration.Types.{
  Protocol, Code, canceled, malformed_message, protocol_limit, unexpected_eof, is_supported,
}
use browsertools.Registration.Profile.{hello}
use browsertools.Registration.Server.{Server, new_server, Backend, Failure, Result, ok, err}
use browsertools.Registration.Actions.{write}
use browsertools.Registration.Serve.{
  Line, decode_client_message, Next, read_on, stop, after_message, after_hello, Ending,
  end_of_input, scan_error, Served, give_up, end_of_lines, fail_with, serve_lines, serve,
  capabilities,
}
use browsertools.Registration.Lifecycle.{IsSound, IsFresh, IsOver, IsOrderly, is_live, observes}
use browsertools.Registration.Lifecycle.Primitives.{
  fail-sound, fail-released, close_session-sound, close_session-released,
}
use browsertools.Registration.Lifecycle.Ending.{Fresh-IsSound, over, IsSound-closed}
use browsertools.Registration.Lifecycle.Messages.{
  Between, Between-IsSound, Handled, handle-Handled, Between-going,
}

module _ (lib : Library) (backend : Backend) where
  give_up-IsOver :
      (e : Failure) (s : Server)
      → IsSound lib backend s
      → IsOver lib backend (give_up lib backend e s).1
  unfolding give_up
  give_up-IsOver e s h = elim (Bool-cases s.closed) [
    | inl c ↦ rw (if_true s.closed _ _ c) (over lib backend s h (h.dead c))
    | inr c ↦ rw (if_false s.closed _ _ c) (
        over lib backend _
          (IsSound-closed lib backend _ (close_session-sound lib backend s h)
            (close_session-released lib backend s))
          (close_session-released lib backend s))
  ]

  fail_with-IsOver :
      (code : Code) (s : Server)
      → IsSound lib backend s
      → IsOver lib backend (fail_with lib backend code s).1
  fail_with-IsOver code s h =
      over lib backend _ (fail-sound lib backend (Unit {0}) code s h)
        (fail-released lib backend (Unit {0}) code s)

  end_of_lines-IsOver :
      (ending : Ending) (s : Server)
      → Between lib backend s
      → IsOver lib backend (end_of_lines lib backend ending s).1
  unfolding end_of_lines
  end_of_lines-IsOver scan_error s b = elim (Bool-cases (backend.canceled s.trace)) [
    | inl c ↦ rw c (fail_with-IsOver canceled s (Between-IsSound lib backend s b))
    | inr c ↦ rw c (fail_with-IsOver protocol_limit s (Between-IsSound lib backend s b))
  ]
  end_of_lines-IsOver end_of_input s b = elim (Bool-cases (backend.canceled s.trace)) [
    | inl c ↦ rw c (fail_with-IsOver canceled s (Between-IsSound lib backend s b))
    | inr c ↦
        rw (c, if_false {A = Served × Server} s.closed _ _ (Between-going lib backend s b))
          (fail_with-IsOver unexpected_eof s (Between-IsSound lib backend s b))
  ]

  -- What the loop does with the outcome of a message.
  outcome-IsOver :
      (r : Result Next) (s : Server) (f : Server → Served × Server)
      → Handled lib backend r s
      → ((t : Server) → Between lib backend t → IsOver lib backend (f t).1)
      → IsOver lib backend (after_message lib backend f r s).1
  unfolding after_message
  outcome-IsOver (ok read_on) s f h ih = ih s h
  outcome-IsOver (ok (stop c)) s f h ih = h
  outcome-IsOver (err e) s f h ih = give_up-IsOver e s h

  serve_lines-IsOver :
      (lines : List Line) (ending : Ending) (s : Server)
      → Between lib backend s
      → IsOver lib backend (serve_lines lib backend lines ending s).1
  unfolding serve_lines
  serve_lines-IsOver [] ending s b = end_of_lines-IsOver ending s b
  serve_lines-IsOver (line ∷ rest) ending s b = elim (Option-cases (decode_client_message line)) [
    | inl e ↦
        rw (e, serve_lines) (fail_with-IsOver malformed_message s (Between-IsSound lib backend s b))
    | inr (m, e) ↦
        rw (e, serve_lines)
          (outcome-IsOver _ _ _ (handle-Handled lib backend m s b) (serve_lines-IsOver rest ending))
  ]

  new_server-Fresh : (p : Protocol) → IsFresh lib backend (new_server p)
  unfolding new_server
  new_server-Fresh p = ground arith

  write-Fresh :
      (p : Protocol)
      → IsFresh lib backend (write lib backend (hello (capabilities p)) (new_server p)).1
  unfolding write new_server
  write-Fresh p = ground arith

  after_hello-IsOver :
      (r : Result (Unit {0})) (s : Server) (lines : List Line) (ending : Ending)
      → IsFresh lib backend s
      → IsOver lib backend (after_hello lib backend lines ending r s).1
  unfolding after_hello
  after_hello-IsOver (ok _) s lines ending h = serve_lines-IsOver lines ending s (inl h)
  after_hello-IsOver (err e) s lines ending h =
      over lib backend s (Fresh-IsSound lib backend s h) (ground (arith, h.unopened))

  serve-IsOver :
      (p : Protocol) (lines : List Line) (ending : Ending)
      → IsOver lib backend (serve lib backend p lines ending).1
  unfolding serve
  serve-IsOver p lines ending = elim (Bool-cases (is_supported p)) [
    | inl e ↦
        rw (if_true (is_supported p) _ _ e) (after_hello-IsOver _ _ lines ending (write-Fresh p))
    | inr e ↦ rw (if_false (is_supported p) _ _ e) (
        over lib backend _ (Fresh-IsSound lib backend _ (new_server-Fresh p))
          (ground (arith, (new_server-Fresh p).unopened)))
  ]

  -- Whatever lines the client sends, however the input ends, and whatever the browser, the context,
  -- the clock and the output answer: when Serve returns, no browser session is live; every call to
  -- the browser was in order (Open first and once, on an approved canonical URL; each later call on
  -- the live session; navigation by GET or HEAD to an approved canonical URL; previews and approvals
  -- only validated; Close only while the session is live); and Observe was called no more often than
  -- the bounds of the session allow.
  pub serve-IsOrderly :
      (p : Protocol) (lines : List Line) (ending : Ending)
      → let s = (serve lib backend p lines ending).1 in
        (is_live lib backend s.trace ≡ false)
        × IsOrderly lib backend s.protocol s.origins s.trace
        × (observes s.trace ≤ pos_part s.bounds.max_observations)
  serve-IsOrderly p lines ending =
      let o = serve-IsOver p lines ending in (o.released, o.sound.orderly, o.sound.within)
