-- ===== src/Registration/Actions.antt =====
-- The actions that the handlers share: write, fail, failBrowser, failAfterClose, closeSession and
-- withActiveContext of registrationauthorsession/session.go.
use browsertools.Prelude.{
  ℕ, ◌+◌, ◌-◌, ℤ, pos, Bool, true, false, Option, none, some, List, ◌∷◌, leb, ltb, ltb_ℤ, ◌==◌,
  if◌then◌else◌,
}
use browsertools.Library.{Library}
use browsertools.Registration.Types.{
  Code, browser_failure, canceled, teardown_failure, NetworkSummary, Bounds,
}
use browsertools.Registration.Profile.{ServerMessage, diagnostic}
use browsertools.Registration.Server.{
  Server, Event, call_close, wrote, Backend, session_failed, output_failed, ok, err, Action, pure,
}

abbrev pub max_protocol_line_bytes : ℕ
max_protocol_line_bytes = 262144

-- NetworkSummary{}
abbrev pub empty_summary : NetworkSummary
empty_summary = record {
  provider_requests = pos 0;
  provider_post_requests = pos 0;
  provider_response_bytes = pos 0;
  requests = pos 0;
  get_requests = pos 0;
  head_requests = pos 0;
}

-- The time limit of a close: DefaultNavigationTimeout where the bounds give none.
abbrev pub close_timeout : Bounds → ℤ
close_timeout b =
    if ltb_ℤ (pos 0) b.navigation_timeout_ms then b.navigation_timeout_ms else pos 20000

-- What came of a call under the session's active time.
pub data CallStatus : Type 0 where
  skipped overran errored succeeded : CallStatus

-- The call returned a nil error, and in time.
abbrev pub is_success : CallStatus → Bool
is_success succeeded = true
is_success _ = false

abbrev pub was_called : CallStatus → Bool
was_called skipped = false
was_called _ = true

abbrev status_of : Bool → CallStatus
status_of true = succeeded
status_of false = errored

abbrev overrun_status : Bool → CallStatus
overrun_status true = overran
overrun_status false = errored

module _ (lib : Library) (backend : Backend) where
  unfoldable pub write : ServerMessage → Action (Unit {0})
  write message s =
      if ltb max_protocol_line_bytes (lib.message_length message + 1)
      then (err output_failed, s)
      else let t = wrote message ∷ s.trace in
        (if backend.written t then ok tt else err output_failed, record s { trace = t })

  -- Close the live session, if there is one; `none` is an error of Close.
  unfoldable pub close_session : Server → Option NetworkSummary × Server
  close_session s = elim s.session [
    | none ↦ (some empty_summary, s)
    | some _ ↦
        let t = call_close (close_timeout s.bounds) ∷ s.trace in
        (backend.closed_with t, record s { session = none; trace = t })
  ]

  -- The diagnostic is tried; the failure stands whether it was written or not.
  unfoldable pub fail_after_close : {A : Type 0} → Code → Action A
  fail_after_close code s =
      (err (session_failed code), (write (diagnostic code) (record s { closed = true })).1)

  abbrev close_code : Code → Option NetworkSummary → Code
  close_code code none = teardown_failure
  close_code code (some _) = code

  unfoldable pub fail : {A : Type 0} → Code → Action A
  fail code s = let (r, s') = close_session s in fail_after_close (close_code code r) s'

  -- Go on where `test` holds, and fail with `code` where not.
  unfoldable pub require : Bool → Code → Action (Unit {0})
  require test code s = if test then (ok tt, s) else fail code s

  -- The value, or a failure where there is none.
  unfoldable pub require_some : {A : Type 0} → Option A → Code → Action A
  require_some none code = fail code
  require_some (some a) code = pure a

  unfoldable pub fail_browser : {A : Type 0} → Action A
  fail_browser s = if backend.canceled s.trace then fail canceled s else fail browser_failure s

  -- Make a call under the active time that is left; `reply` says whether its error was nil.
  unfoldable pub with_active : Event → (List Event → Bool) → Server → CallStatus × Server
  with_active call reply s =
      if backend.canceled s.trace
      then (skipped, s)
      else if s.active_remaining == 0
      then (skipped, s)
      else let t = call ∷ s.trace in
        let spent = backend.elapsed t in
        if leb s.active_remaining spent
        then (overrun_status (reply t), record s { trace = t; active_remaining = 0 })
        else (
          status_of (reply t),
          record s { trace = t; active_remaining = s.active_remaining - spent },
        )

  -- A call whose error, or a deadline, fails the session.
  unfoldable pub browser_call : Event → (List Event → Bool) → Action (Unit {0})
  browser_call call reply s =
      let (status, s') = with_active call reply s in
      if is_success status then (ok tt, s') else fail_browser s'
