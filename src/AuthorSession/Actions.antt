-- ===== src/AuthorSession/Actions.antt =====
-- The actions that the handlers share: write, fail, failAfterClose, closeSession and
-- withActiveContext of authorsession/session.go.
use browsertools.Prelude.{
  ◌-◌, Bool, true, false, Option, none, some, List, ◌∷◌, leb, ◌==◌, if◌then◌else◌,
}
use browsertools.Machine.{ok, err, guard, value_or}
use browsertools.AuthorSession.Types.{Code, ServerMessage, diagnostic, browser_failure}
use browsertools.AuthorSession.Server.{
  Server, Event, call_close, wrote, Backend, session_failed, output_failed, Action,
}

module _ (backend : Backend) where
  unfoldable pub write : ServerMessage → Action (Unit {0})
  write message s =
      let t = wrote message ∷ s.trace in
      (if backend.written t then ok tt else err output_failed, record s { trace = t })

  -- Close the live session, if there is one: whether that went well, and the server after it.
  unfoldable pub close_session : Server → Bool × Server
  close_session s =
      if s.session
      then (let t = call_close ∷ s.trace in
          (backend.closed_well t, record s { session = false; trace = t }))
      else (true, s)

  -- The diagnostic is tried; the failure stands whether it was written or not.
  unfoldable pub fail_after_close : {A : Type 0} → Code → Action A
  unfolding write
  fail_after_close code s =
      (err (session_failed code), (write (diagnostic code) (record s { closed = true })).1)

  unfoldable pub fail : {A : Type 0} → Code → Action A
  unfolding close_session fail_after_close
  fail code s = fail_after_close code (close_session s).1

  -- Go on where the test holds, and fail with the code where not.
  unfoldable pub require : Bool → Code → Action (Unit {0})
  require test code = guard test (fail code)

  -- The value, or a failure where there is none.
  unfoldable pub require_some : {A : Type 0} → Option A → Code → Action A
  require_some o code = value_or o (fail code)

  -- Make a call under the active time that is left; `none` is an error or a deadline.
  unfoldable pub with_active :
      {A : Type 0} → Event → (List Event → Option A) → Server → Option A × Server
  with_active call reply s =
      if backend.canceled s.trace
      then (none, s)
      else if s.active_remaining == 0
      then (none, s)
      else let t = call ∷ s.trace in
        let spent = backend.elapsed t in
        if leb s.active_remaining spent
        then (none, record s { trace = t; active_remaining = 0 })
        else (reply t, record s { trace = t; active_remaining = s.active_remaining - spent })

  -- A call whose error, or a deadline, fails the session.
  unfoldable pub browser_call : {A : Type 0} → Event → (List Event → Option A) → Action A
  unfolding with_active require_some
  browser_call call reply s =
      let (r, s') = with_active call reply s in require_some r browser_failure s'

-- The answer of a call that returns only an error.
abbrev pub success : Bool → Option (Unit {0})
success true = some tt
success false = none
