-- ===== src/Registration/Lifecycle/Steps.antt =====
-- About the use of the browser in navigate of registrationauthorsession/session.go.
use browsertools.Prelude.{
  ◌≡◌, refl, sym, true, none, some, List, Bytes, bytes_eq, bytes_eq_sound, bytes_eq_refl, arith,
  member, subst,
}
use browsertools.Library.{Library}
use browsertools.Registration.Types.{Protocol, Code}
use browsertools.Registration.Profile.{ServerMessage, ClientMessage, state}
use browsertools.Registration.Origins.{clean_url_for_protocol}
use browsertools.Registration.Server.{Server, call_navigate, Backend}
use browsertools.Registration.Actions.{write, fail}
use browsertools.Registration.Handlers.{navigate, forget, allows, with_server}
use browsertools.Registration.Rules.{
  Triple, followed_by, after_update, after_read, of_state, after_require, after_some, after_check,
}
use browsertools.Registration.Lifecycle.{IsSound, in_scope}
use browsertools.Registration.Lifecycle.Primitives.{
  Sound, Ready, fail-sound, write-ready, IsDue, browser_call-ready,
}

module _ (lib : Library) (backend : Backend) where
  -- A failure from a live session, and from one of which more is known.
  pub ready_fails :
      (code : Code) (s : Server)
      → Ready lib backend s
      → IsSound lib backend (fail lib backend {A = Unit {0}} code s).1
  ready_fails code s h = fail-sound lib backend (Unit {0}) code s h.sound

  pub known_fails :
      (K : Server → Type 0) (code : Code) (s : Server)
      → Ready lib backend s × K s
      → IsSound lib backend (fail lib backend {A = Unit {0}} code s).1
  known_fails K code s h = ready_fails code s h.0

  pub scope_of_clean :
      (p : Protocol) (origins : List Bytes) (url given origin : Bytes)
      → clean_url_for_protocol lib p given ≡ some (url, origin)
      → bytes_eq url given ≡ true
      → member origin origins ≡ true
      → in_scope lib p origins url ≡ true
  unfolding in_scope
  scope_of_clean p origins url given origin e same m =
      ground (arith, bytes_eq_sound url given, bytes_eq_refl url)

  -- After the checks of `navigate` its call is due.
  navigate-IsDue :
      (message : ClientMessage) (url : Bytes) (s : Server)
      → Ready lib backend s
      → allows message.method ≡ true
      → in_scope lib s.protocol s.origins url ≡ true
      → IsDue lib backend (call_navigate message.method url) (forget s)
  navigate-IsDue message url s h method_ok scope = record {
    ready = ground (arith, h.sound.live, h.sound.orderly, h.sound.within, h.sound.counted);
    in_order = ground (arith, h.sound.live, h.sound.orderly);
    stays_live = refl;
    within = h.sound.within;
    counted = h.sound.counted;
  }

  pub write_state-ready :
      (f : Server → ServerMessage)
      → Triple
          (Sound lib backend)
          (Ready lib backend)
          (with_server (λ s. write lib backend (f s)))
          (Ready lib backend)
  write_state-ready f = of_state _ (λ s. write-ready lib backend (f s))

  pub navigate-ready :
      (message : ClientMessage)
      → Triple
          (Sound lib backend)
          (Ready lib backend)
          (navigate lib backend message)
          (Ready lib backend)
  unfolding navigate
  navigate-ready message =
      after_require lib backend ready_fails (allows message.method) _ _ λ method_ok.
        after_read _ _ λ p. after_some lib backend (known_fails _) _ _ _ λ (url, origin) clean.
          after_require lib backend (known_fails _) _ _ _ λ same.
            after_check lib backend (known_fails _) (λ s. member origin s.origins) _ _
              (after_update forget _
                (λ s h. navigate-IsDue message url s h.0.0 method_ok (
                  subst (λ q. in_scope lib q s.origins url ≡ true) (sym h.0.1)
                    (scope_of_clean p s.origins url message.url origin clean same h.1)))
                (followed_by _ _ (browser_call-ready lib backend _ _)
                  (write_state-ready (λ s. state s.phase none))))
