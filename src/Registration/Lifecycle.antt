-- ===== src/Registration/Lifecycle.antt =====
-- What an orderly session is: a reading of the events of Serve, and the state that goes with it.
pub mod Primitives
pub mod Steps
pub mod Observing
pub mod Extras
pub mod Ending
pub mod Messages
pub mod Whole
use browsertools.Prelude.{
  ℕ, zero, suc, ◌≤◌, ◌≡◌, ℤ, pos_part, Bool, true, false, ◌&&◌, Option, none, some, List, [], ◌∷◌,
  Bytes, bytes_eq, is_some, member,
}
use browsertools.Library.{Library}
use browsertools.Registration.Types.{Protocol, is_v4, is_typed, Method, Phase, awaiting_start}
use browsertools.Registration.Origins.{clean_url_for_protocol}
use browsertools.Registration.Control.{validate_preview}
use browsertools.Registration.Verification.{validate_verification_authority}
use browsertools.Registration.Server.{
  Server, Event, call_open, call_observe, call_navigate, call_preview, call_approve, call_close,
  wrote, Backend,
}
use browsertools.Registration.Handlers.{allows}

-- How often the session called Observe.
abbrev pub observes : List Event → ℕ
observes [] = 0
observes (call_observe ∷ t) = suc (observes t)
observes (_ ∷ t) = observes t

-- Nothing but messages was written so far: no call to the browser.
abbrev pub is_quiet : List Event → Bool
is_quiet [] = true
is_quiet (wrote m ∷ t) = is_quiet t
is_quiet (_ ∷ t) = false

abbrev pub is_started : Phase → Bool
is_started awaiting_start = false
is_started _ = true

abbrev clean_member : List Bytes → Bytes → Option (Bytes × Bytes) → Bool
clean_member origins url none = false
clean_member origins url (some (canonical, origin)) =
    bytes_eq canonical url && member origin origins

-- The URL is its own canonical form under the protocol, and its origin is approved.
unfoldable pub in_scope : Library → Protocol → List Bytes → Bytes → Bool
in_scope lib protocol origins url =
    clean_member origins url (clean_url_for_protocol lib protocol url)

module _ (lib : Library) (backend : Backend) where
  -- Whether a session is live after the events: Open returned one, and it was not closed since.
  abbrev pub is_live : List Event → Bool
  is_live [] = false
  is_live (call_open r ∷ t) = is_some (backend.opened_session (call_open r ∷ t))
  is_live (call_close n ∷ t) = false
  is_live (_ ∷ t) = is_live t

  -- Every call finds what it needs: the browser is opened once, as the first call, on an approved
  -- URL; all other calls are on a live session; navigation is by GET or HEAD to an approved URL;
  -- previews and approvals passed their validation; a session is closed only while it is live.
  abbrev pub IsOrderly : Protocol → List Bytes → List Event → Type 0
  IsOrderly p origins [] = Unit
  IsOrderly p origins (call_open r ∷ t) =
      (is_quiet t ≡ true)
      × (in_scope lib p origins r.url ≡ true)
      × (r.approved_origins ≡ origins)
      × IsOrderly p origins t
  IsOrderly p origins (call_observe ∷ t) = (is_live t ≡ true) × IsOrderly p origins t
  IsOrderly p origins (call_navigate m url ∷ t) =
      (is_live t ≡ true)
      × (allows m ≡ true)
      × (in_scope lib p origins url ≡ true)
      × IsOrderly p origins t
  IsOrderly p origins (call_preview c r ∷ t) =
      (is_live t ≡ true)
      × (is_typed p ≡ true)
      × (validate_preview lib c r ≡ true)
      × IsOrderly p origins t
  IsOrderly p origins (call_approve v ∷ t) =
      (is_live t ≡ true)
      × (is_v4 p ≡ true)
      × (validate_verification_authority lib (some v) origins ≡ true)
      × IsOrderly p origins t
  IsOrderly p origins (call_close n ∷ t) = (is_live t ≡ true) × IsOrderly p origins t
  IsOrderly p origins (wrote m ∷ t) = IsOrderly p origins t

  -- What holds of the server at any time, after errors too.
  pub record IsSound (s : Server) : Type 0 where
    pub live : is_live s.trace ≡ is_some s.session
    pub orderly : IsOrderly s.protocol s.origins s.trace
    pub within : observes s.trace ≤ pos_part s.bounds.max_observations
    pub counted : observes s.trace ≤ s.observations
    pub dead : s.closed ≡ true → is_some s.session ≡ false

  -- The browser is open and the session can go on.
  pub record IsReady (s : Server) : Type 0 where
    pub sound : IsSound s
    pub going : s.closed ≡ false
    pub opened : is_some s.session ≡ true
    pub started : is_started s.phase ≡ true

  -- Nothing was started yet.
  pub record IsFresh (s : Server) : Type 0 where
    pub quiet : is_quiet s.trace ≡ true
    pub going : s.closed ≡ false
    pub unopened : s.session ≡ none
    pub unobserved : s.observations ≡ 0
    pub waiting : is_started s.phase ≡ false

  -- The session is over: no session is live.
  pub record IsOver (s : Server) : Type 0 where
    pub sound : IsSound s
    pub released : is_live s.trace ≡ false
