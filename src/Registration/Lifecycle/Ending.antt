-- ===== src/Registration/Lifecycle/Ending.antt =====
-- About the use of the browser in start, finish and closeWithoutResult.
use browsertools.Prelude.{
  ◌≡◌, refl, sym, inl, inr, true, false, ◌&&◌, ◌||◌, ◌∙◌, none, some, List, [], ◌∷◌, Bytes, is_some,
  is_empty, arith, Bool-cases, Option-cases, subst,
}
use browsertools.Search.Membership.{member_of_contains}
use browsertools.Library.{Library}
use browsertools.Registration.Types
use browsertools.Registration.Types.{
  Protocol, Code, awaiting_start, observing, Phase, invalid_state, teardown_failure, network_policy,
  NetworkSummary,
}
use browsertools.Registration.Profile.{ServerMessage, ClientMessage, state}
use browsertools.Registration.Server.{Server, Event, Backend, RegistrationReview}
use browsertools.Registration.Actions.{
  write, fail, fail_after_close, close_session, with_active, is_success,
}
use browsertools.Registration.Handlers.{start, open_browser, open_session, request_of, started}
use browsertools.Registration.Session.{
  finish, complete, close_without_result, shut, Completion, completion_of, network_ok,
}
use browsertools.Registration.Rules.{
  Assertion, Triple, Ends, followed_by, after_update, after_read, of_state, of_pure, after_require,
  after_some,
}
use browsertools.Registration.Lifecycle.{
  observes, is_live, is_quiet, IsOrderly, IsSound, IsOver, in_scope,
}
use browsertools.Registration.Lifecycle.Primitives.{
  Sound, Ready, Fresh, fails, fails_browser, fail-sound, fail_after_close-sound,
  close_session-sound, close_session-released,
}
use browsertools.Registration.Lifecycle.Steps.{write_state-ready, scope_of_clean}

module _ (lib : Library) (backend : Backend) where
  -- Events without a call are in order under any origins, and leave nothing live.
  quiet-IsOrderly :
      (p : Protocol) (origins : List Bytes) (t : List Event)
      → is_quiet t ≡ true
      → IsOrderly lib backend p origins t
  quiet-IsOrderly p origins [] h = tt
  quiet-IsOrderly p origins (Event.wrote m ∷ t) h = quiet-IsOrderly p origins t h
  quiet-IsOrderly p origins (Event.call_observe ∷ t) h = cc
  quiet-IsOrderly p origins (_ ∷ t) h = cc

  quiet_silent :
      (t : List Event) → is_quiet t ≡ true → (is_live lib backend t ≡ false) × (observes t ≡ 0)
  quiet_silent [] h = (refl, refl)
  quiet_silent (Event.wrote m ∷ t) h = quiet_silent t h
  quiet_silent (_ ∷ t) h = cc

  pub Fresh-IsSound : (s : Server) → Fresh lib backend s → IsSound lib backend s
  Fresh-IsSound s h = record {
    live = ground (arith, quiet_silent s.trace, h.quiet, h.unopened);
    orderly = quiet-IsOrderly s.protocol s.origins s.trace h.quiet;
    within = ground (arith, quiet_silent s.trace, h.quiet);
    counted = ground (arith, quiet_silent s.trace, h.quiet);
    dead = λ e. ground (arith, h.going);
  }

  fresh_fails :
      (code : Code) (s : Server)
      → Fresh lib backend s
      → IsSound lib backend (fail lib backend {A = Unit {0}} code s).1
  fresh_fails code s h = fail-sound lib backend (Unit {0}) code s (Fresh-IsSound s h)

  -- What was checked of a start before the browser is opened.
  record MayOpen (url : Bytes) (origins : List Bytes) (s : Server) : Type 0 where
    fresh : Fresh lib backend s
    same : s.origins ≡ origins
    scope : in_scope lib s.protocol origins url ≡ true

  open_browser-IsSound :
      (url : Bytes) (origins : List Bytes) (s : Server)
      → MayOpen url origins s
      → let s' = (open_browser lib backend (request_of lib backend url origins s) s).1 in
        IsSound lib backend s' × (s'.closed ≡ false)
  unfolding open_browser with_active
  open_browser-IsSound url origins s h =
      let f = Fresh-IsSound s h.fresh in
      ground (
        arith,
        f.live,
        f.orderly,
        f.within,
        f.counted,
        quiet_silent s.trace,
        h.fresh.quiet,
        h.fresh.going,
        h.fresh.unopened,
        h.same,
        h.scope,
      )

  open_session-ready :
      (url : Bytes) (origins : List Bytes) (s : Server)
      → MayOpen url origins s
      → let m = open_session lib backend (request_of lib backend url origins s) in
        Ends (Sound lib backend) (Ready lib backend) (m s).0 (m s).1
  unfolding open_session
  open_session-ready url origins s h =
      let (status, s') = open_browser lib backend (request_of lib backend url origins s) s in
      let (sound, going) = open_browser-IsSound url origins s h in
      elim (Bool-cases (is_success status && is_some s'.session)) [
        | inl e ↦ rw e (record {
          sound = record {
            live = sound.live;
            orderly = sound.orderly;
            within = sound.within;
            counted = sound.counted;
            dead = sound.dead;
          };
          going = going;
          opened = ground (arith, e);
          started = refl;
        })
        | inr e ↦ rw e (fails_browser lib backend (Unit {0}) (Ready lib backend) s' sound)
      ]

  pub start-ready :
      (message : ClientMessage)
      → Triple
          (Sound lib backend)
          (Fresh lib backend)
          (start lib backend message)
          (Ready lib backend)
  unfolding start
  start-ready message = after_require lib backend fresh_fails _ _ _ λ named. after_read _ _ λ p.
      after_some lib backend (λ c s h. fresh_fails c s h.0) _ _ _
        λ (url, origin) clean.
          after_require lib backend (λ c s h. fresh_fails c s h.0) _ _ _
            λ same.
              after_some lib backend (λ c s h. fresh_fails c s h.0) _ _ _
                λ origins normal.
                  after_require lib backend (λ c s h. fresh_fails c s h.0) _ _ _
                    λ approved.
                      after_require lib backend (λ c s h. fresh_fails c s h.0) _ _ _
                        λ bounded.
                          after_update {P' = MayOpen url origins}
                            (started lib backend message origins) _
                            (λ s h. record {
                              fresh = record {
                                quiet = h.0.quiet;
                                going = h.0.going;
                                unopened = h.0.unopened;
                                unobserved = h.0.unobserved;
                                waiting = h.0.waiting;
                              };
                              same = refl;
                              scope =
                                  subst (λ q. in_scope lib q origins url ≡ true) (sym h.1)
                                    (scope_of_clean lib backend p origins url message.url origin
                                      clean same (member_of_contains origins origin approved));
                            })
                            (followed_by _ _
                              (record { at = λ s h. open_session-ready url origins s h })
                              (write_state-ready lib backend (λ s. state s.phase (some s.bounds))))

  -- A sound server without a session is over.
  pub over : (s : Server) → IsSound lib backend s → is_some s.session ≡ false → IsOver lib backend s
  over s h e = record { sound = h; released = h.live ∙ e }

  IsSound-shut :
      (s : Server)
      → IsSound lib backend s
      → is_some s.session ≡ false
      → IsSound lib backend (shut lib backend s)
  IsSound-shut s h e = record {
    live = h.live;
    orderly = h.orderly;
    within = h.within;
    counted = h.counted;
    dead = λ _. e;
  }

  write-IsOver :
      (m : ServerMessage) (s : Server)
      → IsSound lib backend s
      → is_some s.session ≡ false
      → let w = write lib backend m in Ends (Sound lib backend) (IsOver lib backend) (w s).0 (w s).1
  unfolding write
  write-IsOver m s h e = ground (arith, h.live, h.orderly, h.within, h.counted, h.dead)

  fails_closed :
      (A : Type 0) (Q : Assertion) (code : Code) (s : Server)
      → IsSound lib backend s
      → is_some s.session ≡ false
      → let m = fail_after_close lib backend {A = A} code in
        Ends (Sound lib backend) Q (m s).0 (m s).1
  unfolding fail_after_close
  fails_closed A Q code s h e = fail_after_close-sound lib backend A code s h e

  pub IsSound-closed :
      (s : Server)
      → IsSound lib backend s
      → is_some s.session ≡ false
      → IsSound lib backend (record s { closed = true })
  IsSound-closed s h e = record {
    live = h.live;
    orderly = h.orderly;
    within = h.within;
    counted = h.counted;
    dead = λ _. e;
  }

  -- Sound, and without a session.
  abbrev Gone : Assertion
  Gone s = IsSound lib backend s × (is_some s.session ≡ false)

  write-gone :
      (m : ServerMessage)
      → Triple (Sound lib backend) Gone (write lib backend m) (IsOver lib backend)
  write-gone m = record { at = λ s h. write-IsOver m s h.0 h.1 }

  complete-IsOver :
      (r : RegistrationReview) (summary : NetworkSummary) (s : Server)
      → IsSound lib backend s
      → is_some s.session ≡ false
      → let m = complete lib backend r summary in
        Ends (Sound lib backend) (IsOver lib backend) (m s).0 (m s).1
  unfolding complete
  complete-IsOver r summary s h e = elim (Bool-cases (network_ok lib backend summary s)) [
    | inr f ↦ rw (f, complete) (fails_closed Completion (IsOver lib backend) network_policy s h e)
    | inl f ↦
        rw (f, complete)
          ((followed_by _ _ (write-gone (state Types.closed none))
              (of_state _ (λ s'. of_pure (completion_of s' r summary)))).at
            (shut lib backend s) (IsSound-shut s h e, e))
  ]

  pub finish-IsOver :
      (s : Server)
      → IsSound lib backend s
      → let m = finish lib backend in Ends (Sound lib backend) (IsOver lib backend) (m s).0 (m s).1
  unfolding finish
  finish-IsOver s h =
      let (summary, s') = close_session lib backend s in
      let sound : IsSound lib backend s' = close_session-sound lib backend s h in
      let gone : is_some s'.session ≡ false = close_session-released lib backend s in
      elim (Option-cases s.reviewed_profile) [
        | inl e ↦
            rw (e, finish) (fails lib backend Completion (IsOver lib backend) invalid_state s h)
        | inr (r, e) ↦ elim (Option-cases summary) [
          | inl f ↦
              rw (e, f, finish)
                (fails_closed Completion (IsOver lib backend) teardown_failure s' sound gone)
          | inr (sum, f) ↦ rw (e, f, finish) (complete-IsOver r sum s' sound gone)
        ]
      ]

  pub close-IsOver :
      (s : Server)
      → IsSound lib backend s
      → let m = close_without_result lib backend in
        Ends (Sound lib backend) (IsOver lib backend) (m s).0 (m s).1
  unfolding close_without_result
  close-IsOver s h =
      let (summary, s') = close_session lib backend s in
      let gone : is_some s'.session ≡ false = close_session-released lib backend s in
      let sound = IsSound-shut s' (close_session-sound lib backend s h) gone in
      elim (Option-cases summary) [
        | inl f ↦
            rw (f, close_without_result)
              (fails_closed (Unit {0}) (IsOver lib backend) teardown_failure (shut lib backend s')
                sound gone)
        | inr (sum, f) ↦
            elim (Bool-cases (network_ok lib backend sum s' || is_empty s.profile_id)) [
              | inl e ↦
                  rw (f, e, close_without_result)
                    (write-IsOver (state Types.closed none) (shut lib backend s') sound gone)
              | inr e ↦
                  rw (f, e, close_without_result)
                    (fails_closed (Unit {0}) (IsOver lib backend) network_policy
                      (shut lib backend s') sound gone)
            ]
      ]
