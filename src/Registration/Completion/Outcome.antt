-- ===== src/Registration/Completion/Outcome.antt =====
-- About the completion of Serve (registrationauthorsession/session.go).
use browsertools.Prelude.{
  ◌≡◌, refl, sym, subst, inl, inr, Bool, true, false, none, some, List, [], ◌∷◌, arith, Bool-cases,
  Option-cases, if_true, if_false,
}
use browsertools.Library.{Library}
use browsertools.Registration.Types.{
  Protocol, Code, MessageType, NetworkSummary, canceled, is_supported, teardown_failure,
  network_policy, invalid_state, unknown_message,
}
use browsertools.Registration.Types
use browsertools.Registration.Profile.{ClientMessage, ServerMessage, hello, state}
use browsertools.Registration.Server.{
  Server, new_server, Backend, Failure, Result, ok, err, Action, pure, ◌>>=◌, ◌>>◌, continue_with,
  RegistrationReview,
}
use browsertools.Registration.Actions.{write, fail, fail_after_close, require, close_session}
use browsertools.Registration.Session.{
  Completion, completion_of, finish, complete, shut, network_ok, close_without_result,
}
use browsertools.Registration.Serve.{
  Line, decode_client_message, Next, read_on, stop, dispatch, handle_open, handle, after_message,
  after_hello, Ending, end_of_input, scan_error, Served, completed, stopped, failed, give_up,
  end_of_lines, fail_with, serve_lines, serve, capabilities, then_read_on, served_error,
}
use browsertools.Registration.Rules.{Triple, Ends}
use browsertools.Registration.Completion.{ReviewIsOk, CompletionIsOk}
use browsertools.Registration.Completion.Reviews.{
  Anything, Kept, kept_of_none, kept_of_same, write-same, navigate-Kept, observe-Kept, preview-Kept,
  approve_verification-Kept,
}
use browsertools.Registration.Completion.Choice.{start-Kept, review-Kept}

module _ (lib : Library) (backend : Backend) where
  -- A handled message: the loop reads on with a review in order, or it stops with a completion in order.
  abbrev Good : Result Next → Server → Type 0
  Good (ok read_on) s = Kept lib backend s
  Good (ok (stop none)) s = Unit {0}
  Good (ok (stop (some c))) s = CompletionIsOk lib c
  Good (err e) s = Unit {0}

  goes_on :
      (r : Result (Unit {0})) (s : Server)
      → Ends Anything (Kept lib backend) r s
      → let e = continue_with {B = Next} (λ _. pure read_on) (r, s) in Good e.0 e.1
  goes_on (ok a) s h = h
  goes_on (err e) s h = tt

  goes_on_from :
      (m : Action (Unit {0})) (s : Server)
      → Kept lib backend s
      → Triple Anything (Kept lib backend) m (Kept lib backend)
      → let e = then_read_on lib backend m s in Good e.0 e.1
  unfolding ◌>>=◌
  goes_on_from m s k h = goes_on (m s).0 (m s).1 (h.at s k)

  -- What `finish` returns.
  abbrev Completes : Result Completion → Type 0
  Completes (ok c) = CompletionIsOk lib c
  Completes (err e) = Unit {0}

  fail-Completes :
      (code : Code) (s : Server) → Completes (fail lib backend {A = Completion} code s).0
  unfolding fail fail_after_close
  fail-Completes code s = tt

  fail_after_close-Completes :
      (code : Code) (s : Server)
      → Completes (fail_after_close lib backend {A = Completion} code s).0
  unfolding fail_after_close
  fail_after_close-Completes code s = tt

  -- The write of the last state changes nothing that the completion has.
  written-Completes :
      (w : Result (Unit {0})) (s : Server) (r : RegistrationReview) (summary : NetworkSummary)
      → CompletionIsOk lib (completion_of s r summary)
      → Completes
          (continue_with {B = Completion} (λ _ s'. (ok (completion_of s' r summary), s')) (w, s)).0
  written-Completes (ok a) s r summary h = h
  written-Completes (err e) s r summary h = tt

  completion-write :
      (m : ServerMessage) (s : Server) (r : RegistrationReview) (summary : NetworkSummary)
      → CompletionIsOk lib (completion_of s r summary)
      → CompletionIsOk lib (completion_of (write lib backend m s).1 r summary)
  unfolding write
  completion-write m s r summary h = ground (arith, h.review, h.network)

  complete-Completes :
      (r : RegistrationReview) (summary : NetworkSummary) (s : Server)
      → ReviewIsOk lib s.protocol r
      → Completes (complete lib backend r summary s).0
  unfolding complete ◌>>◌ ◌>>=◌
  complete-Completes r summary s h = elim (Bool-cases (network_ok lib backend summary s)) [
    | inl e ↦
        let last = state Types.closed none in
        let (w, s') = write lib backend last (shut lib backend s) in
        rw (e, complete)
          (written-Completes w s' r summary (
            completion-write last (shut lib backend s) r summary
              (record { review = h; network = e })))
    | inr e ↦ rw (e, complete) (fail_after_close-Completes network_policy s)
  ]

  close_session-same :
      (s : Server) → let s' = (close_session lib backend s).1 in s'.protocol ≡ s.protocol
  unfolding close_session
  close_session-same s = ground arith

  finish-Completes : (s : Server) → Kept lib backend s → Completes (finish lib backend s).0
  unfolding finish
  finish-Completes s k = elim (Option-cases s.reviewed_profile) [
    | inl e ↦ rw (e, finish) (fail-Completes invalid_state s)
    | inr (r, e) ↦
        let s' = (close_session lib backend s).1 in
        elim (Option-cases (close_session lib backend s).0) [
          | inl f ↦ rw (e, f, finish) (fail_after_close-Completes teardown_failure s')
          | inr (summary, f) ↦
              rw (e, f, finish)
                (complete-Completes r summary s'
                  (subst (λ q. ReviewIsOk lib q r) (sym (close_session-same s)) (k.at r e)))
        ]
  ]

  finished :
      (r : Result Completion) (s : Server)
      → Completes r
      → let e = continue_with {B = Next} (λ c. pure (stop (some c))) (r, s) in Good e.0 e.1
  finished (ok c) s h = h
  finished (err e) s h = tt

  closed_anyhow :
      (r : Result (Unit {0})) (s : Server)
      → let e = continue_with {B = Next} (λ c. pure (stop none)) (r, s) in Good e.0 e.1
  closed_anyhow (ok c) s = tt
  closed_anyhow (err e) s = tt

  fail-Good :
      (code : Code) (s : Server) → let e = fail lib backend {A = Next} code s in Good e.0 e.1
  unfolding fail fail_after_close
  fail-Good code s = tt

  dispatch-Good :
      (t : MessageType) (m : ClientMessage) (s : Server)
      → Kept lib backend s
      → let e = dispatch lib backend t m s in Good e.0 e.1
  unfolding dispatch ◌>>=◌
  dispatch-Good MessageType.start m s k = goes_on_from _ s k (start-Kept lib backend m)
  dispatch-Good MessageType.observe m s k =
      goes_on_from _ s k (record { at = λ s h. (observe-Kept lib backend).at s tt })
  dispatch-Good MessageType.navigate m s k = goes_on_from _ s k (navigate-Kept lib backend m)
  dispatch-Good MessageType.preview m s k = goes_on_from _ s k (preview-Kept lib backend m)
  dispatch-Good MessageType.review m s k = goes_on_from _ s k (review-Kept lib backend m)
  dispatch-Good MessageType.approve_verification m s k =
      goes_on_from _ s k (approve_verification-Kept lib backend m)
  dispatch-Good MessageType.finish m s k =
      finished (finish lib backend s).0 (finish lib backend s).1 (finish-Completes s k)
  dispatch-Good MessageType.close m s k =
      closed_anyhow (close_without_result lib backend s).0 (close_without_result lib backend s).1
  dispatch-Good MessageType.unknown m s k = fail-Good unknown_message s
  dispatch-Good (MessageType.other_type x) m s k = fail-Good unknown_message s

  checked :
      (test : Bool) (code : Code) (k : Action Next) (s : Server)
      → Good (k s).0 (k s).1
      → let e = (require lib backend test code >> k) s in Good e.0 e.1
  unfolding ◌>>◌ ◌>>=◌ require fail fail_after_close
  checked true code k s h = h
  checked false code k s h = tt

  handle_open-Good :
      (m : ClientMessage) (s : Server)
      → Kept lib backend s
      → let e = handle_open lib backend m s in Good e.0 e.1
  unfolding handle_open
  handle_open-Good m s k =
      checked _ _ _ s (checked _ _ _ s (checked _ _ _ s (dispatch-Good m.type m s k)))

  handle-Good :
      (m : ClientMessage) (s : Server)
      → Kept lib backend s
      → let e = handle lib backend m s in Good e.0 e.1
  unfolding handle
  handle-Good m s k = elim (Bool-cases s.closed) [
    | inl e ↦ rw (if_true {A = Result Next × Server} s.closed _ _ e) tt
    | inr e ↦ rw (if_false {A = Result Next × Server} s.closed _ _ e) (handle_open-Good m s k)
  ]

  -- What the loop returns.
  abbrev Fine : Served → Type 0
  Fine (completed c) = CompletionIsOk lib c
  Fine stopped = Unit {0}
  Fine (failed e) = Unit {0}

  error-Fine : {A : Type 0} (r : Result A) → Fine (served_error r)
  error-Fine (ok a) = tt
  error-Fine (err e) = tt

  give_up-Fine : (e : Failure) (s : Server) → Fine (give_up lib backend e s).0
  unfolding give_up
  give_up-Fine e s = elim (Bool-cases s.closed) [ inl c ↦ rw c tt | inr c ↦ rw c tt ]

  outcome-Fine :
      (r : Result Next) (s : Server) (f : Server → Served × Server)
      → Good r s
      → ((t : Server) → Kept lib backend t → Fine (f t).0)
      → Fine (after_message lib backend f r s).0
  unfolding after_message
  outcome-Fine (ok read_on) s f h ih = ih s h
  outcome-Fine (ok (stop none)) s f h ih = tt
  outcome-Fine (ok (stop (some c))) s f h ih = h
  outcome-Fine (err e) s f h ih = give_up-Fine e s

  fail_with-Fine : (code : Code) (s : Server) → Fine (fail_with lib backend code s).0
  fail_with-Fine code s = error-Fine (fail lib backend {A = Unit {0}} code s).0

  end_of_lines-Fine : (ending : Ending) (s : Server) → Fine (end_of_lines lib backend ending s).0
  unfolding end_of_lines fail fail_after_close
  end_of_lines-Fine scan_error s = elim (Bool-cases (backend.canceled s.trace)) [
    | inl c ↦ rw c tt
    | inr c ↦ rw c tt
  ]
  end_of_lines-Fine end_of_input s = elim (Bool-cases (backend.canceled s.trace)) [
    | inl c ↦ rw c tt
    | inr c ↦ elim (Bool-cases s.closed) [ inl d ↦ rw (c, d) tt | inr d ↦ rw (c, d) tt ]
  ]

  serve_lines-Fine :
      (lines : List Line) (ending : Ending) (s : Server)
      → Kept lib backend s
      → Fine (serve_lines lib backend lines ending s).0
  unfolding serve_lines
  serve_lines-Fine [] ending s k = end_of_lines-Fine ending s
  serve_lines-Fine (line ∷ rest) ending s k = elim (Option-cases (decode_client_message line)) [
    | inl e ↦ rw (e, serve_lines) (fail_with-Fine Types.malformed_message s)
    | inr (m, e) ↦
        rw (e, serve_lines) (outcome-Fine _ _ _ (handle-Good m s k) (serve_lines-Fine rest ending))
  ]

  new_server-Kept : (p : Protocol) → Kept lib backend (new_server p)
  unfolding new_server
  new_server-Kept p = kept_of_none lib backend _ refl

  after_hello-Fine :
      (r : Result (Unit {0})) (s : Server) (lines : List Line) (ending : Ending)
      → Kept lib backend s
      → Fine (after_hello lib backend lines ending r s).0
  unfolding after_hello
  after_hello-Fine (ok _) s lines ending h = serve_lines-Fine lines ending s h
  after_hello-Fine (err e) s lines ending h = tt

  serve-Fine :
      (p : Protocol) (lines : List Line) (ending : Ending)
      → Fine (serve lib backend p lines ending).0
  unfolding serve
  serve-Fine p lines ending = elim (Bool-cases (is_supported p)) [
    | inl e ↦
        let greeted = hello (capabilities p) in
        let (same, protocol) = write-same lib backend greeted (new_server p) in
        rw (if_true (is_supported p) _ _ e) (
          after_hello-Fine _ _ lines ending
            (kept_of_same lib backend (new_server p) _ same protocol (new_server-Kept p)))
    | inr e ↦ rw (if_false (is_supported p) _ _ e) tt
  ]

  -- When Serve returns a completion, whatever the client sent and whatever the backend answered: its
  -- profile has the version that the protocol reviews and its bytes are the encoding of that profile;
  -- the chosen flow is in the profile, and the one submit of that flow has a portable locator that is
  -- bound to exactly one reviewed candidate; every reviewed candidate matched exactly one element; the
  -- cleanup is one of the two known; and the network summary of the closed session passed the
  -- validation for its protocol, its request limit and its approved authority.
  pub serve_completed :
      (p : Protocol) (lines : List Line) (ending : Ending) (c : Completion)
      → (serve lib backend p lines ending).0 ≡ completed c
      → CompletionIsOk lib c
  serve_completed p lines ending c e = subst Fine e (serve-Fine p lines ending)
