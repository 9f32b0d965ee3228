-- ===== src/Registration/Sent/Whole.antt =====
-- About the observations that Serve of registrationauthorsession/session.go writes.
use browsertools.Prelude.{
  ◌≡◌, refl, inl, inr, Bool, true, false, Option, none, some, List, [], ◌∷◌, arith, Bool-cases,
  Option-cases, is_empty, ◌||◌, if_true, if_false,
}
use browsertools.Library.{Library}
use browsertools.Registration.Types
use browsertools.Registration.Types.{
  Protocol, Code, is_typed, canceled, browser_failure, is_supported, Candidate, Observation,
  RawObservation, RawCandidate, MessageType, invalid_observation, NetworkSummary, teardown_failure,
  network_policy, invalid_state, unknown_message,
}
use browsertools.Registration.Profile.{ClientMessage, ServerMessage, state, hello}
use browsertools.Registration.Server.{
  Server, new_server, Backend, RegistrationReview, Failure, Result, ok, err, Action, pure, ◌>>=◌,
  ◌>>◌, continue_with,
}
use browsertools.Registration.Actions.{write, close_session, fail, fail_after_close, require}
use browsertools.Registration.Session.{
  Completion, finish, complete, shut, close_without_result, network_ok, completion_of,
}
use browsertools.Registration.Rules.{Triple, Ends, followed_by, of_state, of_pure}
use browsertools.Registration.Sent.{public_message, all_public, IsWritten, IsClean}
use browsertools.Registration.Serve.{
  Line, decode_client_message, Next, read_on, stop, dispatch, handle_open, handle, after_message,
  after_hello, Ending, end_of_input, scan_error, Served, give_up, end_of_lines, fail_with,
  serve_lines, serve, capabilities, then_read_on,
}
use browsertools.Registration.Sent.Steps.{
  Written, Clean, IsClean-IsWritten, fails_written, write-Clean, navigate-Clean,
  fail_after_close-sent,
}
use browsertools.Registration.Sent.Handlers.{
  start-Clean, observe-Clean, preview-Clean, review-Clean, approve_verification-Clean,
}

module _ (lib : Library) (backend : Backend) where
  -- The end of a handled message.
  abbrev Passed : Result Next → Server → Type 0
  Passed (ok read_on) s = IsClean lib s
  Passed (ok (stop c)) s = IsWritten lib s
  Passed (err e) s = IsWritten lib s

  passes_on :
      (r : Result (Unit {0})) (s : Server)
      → Ends (Written lib backend) (Clean lib backend) r s
      → let e = continue_with {B = Next} (λ _. pure read_on) (r, s) in Passed e.0 e.1
  passes_on (ok a) s h = h
  passes_on (err e) s h = h

  passes_from :
      (m : Action (Unit {0})) (s : Server)
      → IsClean lib s
      → Triple (Written lib backend) (Clean lib backend) m (Clean lib backend)
      → let e = then_read_on lib backend m s in Passed e.0 e.1
  unfolding ◌>>=◌
  passes_from m s k h = passes_on (m s).0 (m s).1 (h.at s k)

  stops :
      {A : Type 0} (r : Result A) (c : A → Option Completion) (s : Server)
      → Ends (Written lib backend) (Written lib backend) r s
      → let e = continue_with {B = Next} (λ a. pure (stop (c a))) (r, s) in Passed e.0 e.1
  stops (ok a) c s h = h
  stops (err e) c s h = h

  write_sent-Written :
      (m : ServerMessage) (s : Server)
      → public_message lib m ≡ true
      → IsWritten lib s
      → IsWritten lib (write lib backend m s).1
  unfolding write
  write_sent-Written m s p h = record { sent = ground (arith, h.sent) }

  ends_Written :
      {A : Type 0} (r : Result A) (s : Server)
      → IsWritten lib s
      → Ends (Written lib backend) (Written lib backend) r s
  ends_Written (ok a) s h = h
  ends_Written (err e) s h = h

  write-Written :
      (m : ServerMessage)
      → public_message lib m ≡ true
      → Triple
          (Written lib backend)
          (Written lib backend)
          (write lib backend m)
          (Written lib backend)
  write-Written m p = record {
    at = λ s h. ends_Written (write lib backend m s).0 _ (write_sent-Written m s p h);
  }

  complete-Written :
      (r : RegistrationReview) (summary : NetworkSummary) (s : Server)
      → IsWritten lib s
      → let m = complete lib backend r summary in
        Ends (Written lib backend) (Written lib backend) (m s).0 (m s).1
  unfolding complete
  complete-Written r summary s h = elim (Bool-cases (network_ok lib backend summary s)) [
    | inr f ↦
        rw (f, complete)
          (fail_after_close-sent lib backend Completion (Written lib backend) network_policy s h)
    | inl f ↦
        rw (f, complete)
          ((followed_by _ _ (write-Written (state Types.closed none) refl)
              (of_state _ (λ s'. of_pure (completion_of s' r summary)))).at
            (shut lib backend s) (record { sent = h.sent }))
  ]

  close_session-Written :
      (s : Server) → IsWritten lib s → IsWritten lib (close_session lib backend s).1
  unfolding close_session
  close_session-Written s h = record { sent = ground (arith, h.sent) }

  finish-Written :
      (s : Server)
      → IsWritten lib s
      → let m = finish lib backend in
        Ends (Written lib backend) (Written lib backend) (m s).0 (m s).1
  unfolding finish
  finish-Written s h =
      let (summary, s') = close_session lib backend s in
      let w : IsWritten lib s' = close_session-Written s h in
      elim (Option-cases s.reviewed_profile) [
        | inl e ↦
            rw (e, finish)
              (fails_written lib backend Completion (Written lib backend) invalid_state s h)
        | inr (r, e) ↦ elim (Option-cases summary) [
          | inl f ↦
              rw (e, f, finish)
                (fail_after_close-sent lib backend Completion (Written lib backend) teardown_failure
                  s' w)
          | inr (sum, f) ↦ rw (e, f, finish) (complete-Written r sum s' w)
        ]
      ]

  close-Written :
      (s : Server)
      → IsWritten lib s
      → let m = close_without_result lib backend in
        Ends (Written lib backend) (Written lib backend) (m s).0 (m s).1
  unfolding close_without_result
  close-Written s h =
      let (summary, s') = close_session lib backend s in
      let t = shut lib backend s' in
      let w : IsWritten lib t = record { sent = (close_session-Written s h).sent } in
      elim (Option-cases summary) [
        | inl f ↦
            rw (f, close_without_result)
              (fail_after_close-sent lib backend (Unit {0}) (Written lib backend) teardown_failure t
                w)
        | inr (sum, f) ↦
            elim (Bool-cases (network_ok lib backend sum s' || is_empty s.profile_id)) [
              | inl e ↦
                  rw (f, e, close_without_result)
                    ((write-Written (state Types.closed none) refl).at t w)
              | inr e ↦
                  rw (f, e, close_without_result)
                    (fail_after_close-sent lib backend (Unit {0}) (Written lib backend)
                      network_policy t w)
            ]
      ]

  fail-Passed :
      (code : Code) (s : Server)
      → IsWritten lib s
      → let e = fail lib backend {A = Next} code s in Passed e.0 e.1
  unfolding fail fail_after_close
  fail-Passed code s h = fails_written lib backend Next (Written lib backend) code s h

  dispatch-Passed :
      (t : MessageType) (m : ClientMessage) (s : Server)
      → IsClean lib s
      → let e = dispatch lib backend t m s in Passed e.0 e.1
  unfolding dispatch ◌>>=◌
  dispatch-Passed MessageType.start m s k = passes_from _ s k (start-Clean lib backend m)
  dispatch-Passed MessageType.observe m s k = passes_from _ s k (observe-Clean lib backend)
  dispatch-Passed MessageType.navigate m s k = passes_from _ s k (navigate-Clean lib backend m)
  dispatch-Passed MessageType.preview m s k = passes_from _ s k (preview-Clean lib backend m)
  dispatch-Passed MessageType.review m s k = passes_from _ s k (review-Clean lib backend m)
  dispatch-Passed MessageType.approve_verification m s k =
      passes_from _ s k (approve_verification-Clean lib backend m)
  dispatch-Passed MessageType.finish m s k =
      stops (finish lib backend s).0 some (finish lib backend s).1
        (finish-Written s (IsClean-IsWritten lib backend s k))
  dispatch-Passed MessageType.close m s k =
      stops (close_without_result lib backend s).0 (λ _. none)
        (close_without_result lib backend s).1 (close-Written s (IsClean-IsWritten lib backend s k))
  dispatch-Passed MessageType.unknown m s k =
      fail-Passed unknown_message s (IsClean-IsWritten lib backend s k)
  dispatch-Passed (MessageType.other_type x) m s k =
      fail-Passed unknown_message s (IsClean-IsWritten lib backend s k)

  checked :
      (test : Bool) (code : Code) (k : Action Next) (s : Server)
      → IsWritten lib s
      → Passed (k s).0 (k s).1
      → let e = (require lib backend test code >> k) s in Passed e.0 e.1
  unfolding ◌>>◌ ◌>>=◌ require fail fail_after_close
  checked true code k s w h = h
  checked false code k s w h = fails_written lib backend (Unit {0}) (Written lib backend) code s w

  handle_open-Passed :
      (m : ClientMessage) (s : Server)
      → IsClean lib s
      → let e = handle_open lib backend m s in Passed e.0 e.1
  unfolding handle_open
  handle_open-Passed m s k =
      let w = IsClean-IsWritten lib backend s k in
      checked _ _ _ s w (checked _ _ _ s w (checked _ _ _ s w (dispatch-Passed m.type m s k)))

  handle-Passed :
      (m : ClientMessage) (s : Server)
      → IsClean lib s
      → let e = handle lib backend m s in Passed e.0 e.1
  unfolding handle
  handle-Passed m s k = elim (Bool-cases s.closed) [
    | inl e ↦
        rw (if_true {A = Result Next × Server} s.closed _ _ e) (IsClean-IsWritten lib backend s k)
    | inr e ↦ rw (if_false {A = Result Next × Server} s.closed _ _ e) (handle_open-Passed m s k)
  ]

  give_up-Written :
      (e : Failure) (s : Server) → IsWritten lib s → IsWritten lib (give_up lib backend e s).1
  unfolding give_up
  give_up-Written e s h = elim (Bool-cases s.closed) [
    | inl c ↦ rw (if_true {A = Served × Server} s.closed _ _ c) h
    | inr c ↦
        rw (if_false {A = Served × Server} s.closed _ _ c)
          (record { sent = (close_session-Written s h).sent })
  ]

  outcome-Written :
      (r : Result Next) (s : Server) (f : Server → Served × Server)
      → Passed r s
      → ((t : Server) → IsClean lib t → IsWritten lib (f t).1)
      → IsWritten lib (after_message lib backend f r s).1
  unfolding after_message
  outcome-Written (ok read_on) s f h ih = ih s h
  outcome-Written (ok (stop c)) s f h ih = h
  outcome-Written (err e) s f h ih = give_up-Written e s h

  fail_with-Written :
      (code : Code) (s : Server) → IsWritten lib s → IsWritten lib (fail_with lib backend code s).1
  unfolding fail fail_after_close
  fail_with-Written code s h = fails_written lib backend (Unit {0}) (Written lib backend) code s h

  end_of_lines-Written :
      (ending : Ending) (s : Server)
      → IsWritten lib s
      → IsWritten lib (end_of_lines lib backend ending s).1
  unfolding end_of_lines
  end_of_lines-Written scan_error s h = elim (Bool-cases (backend.canceled s.trace)) [
    | inl c ↦ rw c (fail_with-Written canceled s h)
    | inr c ↦ rw c (fail_with-Written Types.protocol_limit s h)
  ]
  end_of_lines-Written end_of_input s h = elim (Bool-cases (backend.canceled s.trace)) [
    | inl c ↦ rw c (fail_with-Written canceled s h)
    | inr c ↦ elim (Bool-cases s.closed) [
      | inl d ↦ rw (c, if_true {A = Served × Server} s.closed _ _ d) h
      | inr d ↦
          rw (c, if_false {A = Served × Server} s.closed _ _ d)
            (fail_with-Written Types.unexpected_eof s h)
    ]
  ]

  serve_lines-Written :
      (lines : List Line) (ending : Ending) (s : Server)
      → IsClean lib s
      → IsWritten lib (serve_lines lib backend lines ending s).1
  unfolding serve_lines
  serve_lines-Written [] ending s k =
      end_of_lines-Written ending s (IsClean-IsWritten lib backend s k)
  serve_lines-Written (line ∷ rest) ending s k = elim (Option-cases (decode_client_message line)) [
    | inl e ↦
        rw (e, serve_lines)
          (fail_with-Written Types.malformed_message s (IsClean-IsWritten lib backend s k))
    | inr (m, e) ↦
        rw (e, serve_lines)
          (outcome-Written _ _ _ (handle-Passed m s k) (serve_lines-Written rest ending))
  ]

  new_server-IsClean : (p : Protocol) → IsClean lib (new_server p)
  unfolding new_server
  new_server-IsClean p = record { sent = refl; codes = record { valid = refl; unique = refl } }

  after_hello-Written :
      (r : Result (Unit {0})) (s : Server) (lines : List Line) (ending : Ending)
      → Ends (Written lib backend) (Clean lib backend) r s
      → IsWritten lib (after_hello lib backend lines ending r s).1
  unfolding after_hello
  after_hello-Written (ok _) s lines ending h = serve_lines-Written lines ending s h
  after_hello-Written (err e) s lines ending h = h

  serve-Written :
      (p : Protocol) (lines : List Line) (ending : Ending)
      → IsWritten lib (serve lib backend p lines ending).1
  unfolding serve
  serve-Written p lines ending = elim (Bool-cases (is_supported p)) [
    | inl e ↦ rw (if_true {A = Served × Server} (is_supported p) _ _ e) (
        after_hello-Written _ _ lines ending (
          (write-Clean lib backend (hello (capabilities p)) refl).at (new_server p)
            (new_server-IsClean p)))
    | inr e ↦
        rw (if_false {A = Served × Server} (is_supported p) _ _ e)
          (IsClean-IsWritten lib backend _ (new_server-IsClean p))
  ]

  -- Whatever the client sends and whatever the browser reports, every observation that Serve writes
  -- has a path that may be disclosed, candidates with portable roles, safe labels and at least one
  -- match, no two candidates with the same role and label, and only known diagnostic codes, in order.
  pub serve-all_public :
      (p : Protocol) (lines : List Line) (ending : Ending)
      → all_public lib (serve lib backend p lines ending).1.trace ≡ true
  serve-all_public p lines ending = (serve-Written p lines ending).sent
