-- ===== src/AuthorSession/Approvals/Whole.antt =====
-- About Serve and handle of authorsession/session.go: every effect on a site has its authority.
use browsertools.Prelude.{
  ◌≡◌, refl, ap, ◌||◌, not, Bool, true, false, Option, none, some, List, [], ◌∷◌, is_some, inl, inr,
  Bool-cases, Option-cases, if_false, if_true,
}
use browsertools.Machine.{Result, ok, err}
use browsertools.Machine.Triples.{Ends, Triple, after, after_update, of_pure, of_Fails, weaken}
use browsertools.AuthorSession.Types.{
  MessageType, ClientMessage, Code, hello, canceled, protocol_limit, unexpected_eof,
  malformed_message,
}
use browsertools.AuthorSession.Serve.{
  Line, Next, read_on, stop, Ending, end_of_input, scan_error, Served, failed, answers_approval,
  dispatch, handle_open, handle, fail_with, after_message, end_of_lines, serve_lines, after_hello,
  serve, decode_client_message, capabilities,
}
use browsertools.AuthorSession.Server.{
  AuthorLibrary, Backend, Server, new_server, Failure, output_failed, session_failed,
  teardown_failed, already_closed, unusable_root, heard,
}
use browsertools.Registration.Server.{lookup}
use browsertools.AuthorSession.Actions.{fail, fail_after_close}
use browsertools.AuthorSession.Rules.{after_require, after_check, past_check}
use browsertools.AuthorSession.Approvals.{
  Clear, Resting, Heard, Left, Lost, Ended, is_authorized, is_approve, is_output_failure, IsTold,
  holds_browser,
}
use browsertools.AuthorSession.Approvals.Primitives.{fails, write-Resting, Sound-plain}
use browsertools.AuthorSession.Approvals.Steps.{
  focus-Resting, complete_human_input-Resting, observe-Resting,
}
use browsertools.AuthorSession.Approvals.Opening.{start_session-Resting, complete-Resting}
use browsertools.AuthorSession.Approvals.Requests.{request_execute-Resting}
use browsertools.AuthorSession.Approvals.Answering.{approve-Resting, deny-Resting}
use browsertools.AuthorSession.Approvals.Closing.{finish-Left, close_without_result-Left}

none_of :
    {A : Type 0} (o : Option A) (b : Bool) → not (is_some o) || b ≡ true → b ≡ false → o ≡ none
none_of none b h e = refl
none_of (some x) b h e = cc (h, e)

module _ (a : AuthorLibrary) (backend : Backend) where
  -- What a message leaves behind that was taken up.
  abbrev NextOk : Next → Server → Type 0
  NextOk read_on s = Resting a backend s
  NextOk stop s = Left a backend s

  -- A message of the type may be handled now.
  abbrev Admitted : MessageType → ClientMessage → Server → Type 0
  Admitted t m s = Heard a backend m s × (not (is_some s.pending) || answers_approval t ≡ true)

  Clear-of :
      (t : MessageType) (m : ClientMessage)
      → answers_approval t ≡ false
      → (s : Server) → Admitted t m s
      → Clear a backend s
  Clear-of t m e s (h, k) = (h.0, none_of s.pending (answers_approval t) k e)

  dispatch-ok :
      (t : MessageType) (m : ClientMessage)
      → m.type ≡ t
      → Triple (Lost a backend) (Admitted t m) (dispatch a backend t m) NextOk
  unfolding dispatch
  dispatch-ok MessageType.start m e =
      after _ _ (weaken _ (Clear-of MessageType.start m refl) (start_session-Resting a backend m))
        λ _. of_pure _ (λ s h. h)
  dispatch-ok MessageType.observe m e =
      after _ _ (weaken _ (Clear-of MessageType.observe m refl) (observe-Resting a backend _))
        λ _. of_pure _ (λ s h. h)
  dispatch-ok MessageType.focus_human_input m e =
      after _ _
        (weaken _ (Clear-of MessageType.focus_human_input m refl) (focus-Resting a backend _))
        λ _. of_pure _ (λ s h. h)
  dispatch-ok MessageType.human_input_complete m e =
      after _ _
        (weaken _ (Clear-of MessageType.human_input_complete m refl)
          (complete_human_input-Resting a backend _ _))
        λ _. of_pure _ (λ s h. h)
  dispatch-ok MessageType.execute m e =
      after _ _
        (weaken _ (Clear-of MessageType.execute m refl) (request_execute-Resting a backend m))
        λ _. of_pure _ (λ s h. h)
  dispatch-ok MessageType.approve m e =
      after _ _ (weaken _ (λ s h. h.0) (approve-Resting a backend m (ap is_approve e)))
        λ _. of_pure _ (λ s h. h)
  dispatch-ok MessageType.deny m e =
      after _ _ (weaken _ (λ s h. h.0) (deny-Resting a backend m)) λ _. of_pure _ (λ s h. h)
  dispatch-ok MessageType.human_complete m e =
      after _ _
        (weaken _ (Clear-of MessageType.human_complete m refl) (complete-Resting a backend _ _))
        λ _. of_pure _ (λ s h. h)
  dispatch-ok MessageType.finish m e =
      after _ _ (weaken _ (Clear-of MessageType.finish m refl) (finish-Left a backend))
        λ _. of_pure _ (λ s h. h)
  dispatch-ok MessageType.close m e =
      after _ _ (weaken _ (λ s h. h.0.0.account) (close_without_result-Left a backend))
        λ _. of_pure _ (λ s h. h)
  dispatch-ok MessageType.unknown m e =
      of_Fails _ (fails a backend (Admitted MessageType.unknown m) (λ s h. h.0.0.account) _ _)
  dispatch-ok (MessageType.other_type name) m e =
      of_Fails _
        (fails a backend (Admitted (MessageType.other_type name) m) (λ s h. h.0.0.account) _ _)

  hear :
      (m : ClientMessage) (s : Server)
      → Resting a backend s
      → Heard a backend m (record s { trace = heard m ∷ s.trace })
  hear m s (h, asked) = (
    Sound-plain a backend (heard m) s.trace s.origins s.closed s.session s.started s.candidates
        (λ t. (refl, refl, refl, refl)) h,
    λ p e.
        let was = asked p e in
        record {
          earlier = was.earlier;
          asked = ap (λ t. heard m ∷ t) was.asked;
          fit = was.fit;
          aimed = was.aimed;
        },
  )

  handle_open-ok :
      (m : ClientMessage)
      → Triple (Lost a backend) (Resting a backend) (handle_open a backend m) NextOk
  unfolding handle_open
  handle_open-ok m = after_update {P' = Heard a backend m} _ _ (hear m) (
      after_require backend (fails a backend (Heard a backend m) (λ s h. h.0.account)) _ _ _ λ e1.
        after_check backend (fails a backend (Heard a backend m) (λ s h. h.0.account)) _ _ _ (
          after_require backend (fails a backend (Admitted m.type m) (λ s h. h.0.0.account)) _ _ _
            λ e2.
              past_check backend (fails a backend (Admitted m.type m) (λ s h. h.0.0.account)) _ _ _
                (dispatch-ok m.type m refl)))

  handle-ok :
      (m : ClientMessage) (s : Server)
      → Resting a backend s
      → Ends (Lost a backend) NextOk (handle a backend m s).0 (handle a backend m s).1
  unfolding handle
  handle-ok m s h =
      rw (handle, if_false {A = Result Failure Next × Server} s.closed _ _ h.0.going)
        ((handle_open-ok m).at s h)

  Lost-Ended : (e : Failure) (s : Server) → Lost a backend e s → Ended a backend (failed e, s)
  Lost-Ended output_failed s h = (h.0, λ k. cc, h.1)
  Lost-Ended (session_failed c) s h = (h.0.authorized, λ k. h.0.released, (h.1, h.0.over))
  Lost-Ended teardown_failed s h = (h.0.authorized, λ k. h.0.released, (h.1, h.0.over))
  Lost-Ended already_closed s h = cc
  Lost-Ended unusable_root s h = cc

  fail_with-Ended :
      (code : Code) (s : Server)
      → Resting a backend s
      → Ended a backend (fail_with a backend code s)
  unfolding fail_with fail fail_after_close
  fail_with-Ended code s h =
      let lost =
        (fails a backend (Resting a backend) (λ s h. h.0.account) (Unit {0}) code).at s h in
      (lost.0.authorized, λ k. lost.0.released, (lost.1, lost.0.over))

  end_of_lines-Ended :
      (ending : Ending) (s : Server)
      → Resting a backend s
      → Ended a backend (end_of_lines a backend ending s)
  unfolding end_of_lines
  end_of_lines-Ended end_of_input s h = elim (Bool-cases (backend.canceled s.trace)) [
    | inl e ↦ rw (end_of_lines, e) (fail_with-Ended canceled s h)
    | inr e ↦
        rw (end_of_lines, e, if_false {A = Served × Server} s.closed _ _ h.0.going)
          (fail_with-Ended unexpected_eof s h)
  ]
  end_of_lines-Ended scan_error s h = elim (Bool-cases (backend.canceled s.trace)) [
    | inl e ↦ rw (end_of_lines, e) (fail_with-Ended canceled s h)
    | inr e ↦ rw (end_of_lines, e) (fail_with-Ended protocol_limit s h)
  ]

  after_message-Ended :
      (f : Server → Served × Server) (r : Result Failure Next) (s : Server)
      → ((s' : Server) → Resting a backend s' → Ended a backend (f s'))
      → Ends (Lost a backend) NextOk r s
      → Ended a backend (after_message a backend f r s)
  unfolding after_message
  after_message-Ended f (ok read_on) s k h = k s h
  after_message-Ended f (ok stop) s k h = (h.0.authorized, λ e. h.0.released, (h.1, h.0.over))
  after_message-Ended f (err e) s k h = Lost-Ended e s h

  serve_lines-Ended :
      (lines : List Line) (ending : Ending) (s : Server)
      → Resting a backend s
      → Ended a backend (serve_lines a backend lines ending s)
  unfolding serve_lines
  serve_lines-Ended [] ending s h = end_of_lines-Ended ending s h
  serve_lines-Ended (line ∷ rest) ending s h = elim (Option-cases (decode_client_message line)) [
    | inl e ↦ rw (serve_lines, e) (fail_with-Ended malformed_message s h)
    | inr (m, e) ↦
        rw (serve_lines, e)
          (after_message-Ended (serve_lines a backend rest ending) _ _
            (serve_lines-Ended rest ending) (handle-ok m s h))
  ]

  after_hello-Ended :
      (lines : List Line) (ending : Ending) (r : Result Failure (Unit {0})) (s : Server)
      → Ends (Lost a backend) (λ _. Resting a backend) r s
      → Ended a backend (after_hello a backend lines ending r s)
  unfolding after_hello
  after_hello-Ended lines ending (ok _) s h = serve_lines-Ended lines ending s h
  after_hello-Ended lines ending (err e) s h = Lost-Ended e s h

  new_server-Clear : Clear a backend new_server
  unfolding new_server lookup
  new_server-Clear = (
    record {
      account = (refl, refl, λ e. refl);
      covers = λ o h. cc;
      going = refl;
      known = λ id r f. cc;
    },
    refl,
  )

  serve-Ended :
      (lines : List Line) (ending : Ending) → Ended a backend (serve a backend lines ending)
  unfolding serve new_server
  serve-Ended lines ending = elim (Bool-cases backend.private_root_ok) [
    | inl e ↦
        rw (serve, if_true {A = Served × Server} backend.private_root_ok _ _ e)
          (after_hello-Ended lines ending _ _ (
            (write-Resting a backend (hello capabilities) (λ t. refl)).at new_server
              new_server-Clear))
    | inr e ↦
        rw (serve, if_false {A = Served × Server} backend.private_root_ok _ _ e)
          (refl, λ k. refl, refl)
  ]

  -- Whatever the client sends and the browser answers, Serve executes a click only right after the
  -- client approved a request for a click with that budget of POST requests, on the candidate that
  -- it was shown last under the id in that request, with the role, the reduced label and the number
  -- of matches of the element that is clicked. It adds an origin only right after the client
  -- approved a request for it, and navigates only to URLs whose origin was given at the start or
  -- added since. Where the output did not fail, a browser that Open returned within the active time
  -- was closed after it.
  pub serve-authorized :
      (lines : List Line) (ending : Ending)
      → let (r, s) = serve a backend lines ending in
        (is_authorized a s.trace ≡ true)
        × (is_output_failure r ≡ false → holds_browser backend s.trace ≡ false)
  serve-authorized lines ending = let ended = serve-Ended lines ending in (ended.0, ended.1)

  -- Whatever the client sends and the browser answers, the last message tells how Serve ended: the
  -- diagnostic with its code where the session failed or could not be torn down, a result or a
  -- closed state where Serve returned without an error, the message that the output refused where
  -- writing failed. Without a usable private root nothing happened at all. But for a refused output
  -- and an unusable root, the server is closed. Serve never returns the error of a message to a
  -- closed session.
  pub serve-IsTold :
      (lines : List Line) (ending : Ending)
      → let (r, s) = serve a backend lines ending in IsTold backend r s
  serve-IsTold lines ending = (serve-Ended lines ending).2
