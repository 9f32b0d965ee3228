-- ===== src/Registration/Handlers.antt =====
-- The handlers of the session: start, observe and navigate (registrationauthorsession/session.go),
-- approveVerification (verification.go) and preview (inputs.go).
use browsertools.Prelude.{
  ℕ, ◌+◌, ◌*◌, ◌/◌, pos, pos_part, Bool, true, false, ◌||◌, ◌&&◌, not, none, some, List, [], ◌∷◌,
  ◌++◌, Bytes, bytes_eq, leb, ltb, ltb_ℤ, eq_ℤ, is_some, all, length, member, ◌==◌, if◌then◌else◌,
}
use browsertools.Search.{contains}
use browsertools.Library.{Library}
use browsertools.Registration.Types
use browsertools.Registration.Types.{
  Method, get, head, is_typed, is_v4, Candidate, CandidateRecord, Observation, PreviewRequest,
  HumanVerification, browser_failure, canceled, clock_unavailable, invalid_bounds,
  invalid_candidate, invalid_navigation, invalid_observation, invalid_origin, invalid_review,
  invalid_start, invalid_state, observation_limit,
}
use browsertools.Registration.Profile.{ClientMessage, state, observation}
use browsertools.Registration.Bounds.{validate_bounds, normalized_bounds}
use browsertools.Registration.Origins.{clean_url_for_protocol, normalize_origins}
use browsertools.Registration.Control.{validate_preview}
use browsertools.Registration.Verification.{matches_verification, validate_verification_authority}
use browsertools.Registration.Reduce.{reduce_observation, candidate_records}
use browsertools.Registration.Server.{
  Server, call_open, call_observe, call_navigate, call_preview, call_approve, BrowserRequest,
  Backend, Abilities, Action, ok, pure, ◌>>=◌, ◌>>◌, lookup,
}
use browsertools.Registration.Actions.{
  write, fail, require, require_some, fail_browser, with_active, browser_call, was_called,
  is_success, CallStatus, max_protocol_line_bytes,
}

is_lower : ℕ → Bool
is_lower c = leb b'a' c && leb c b'z'

is_identifier_byte : ℕ → Bool
unfolding is_lower
is_identifier_byte c = is_lower c || leb b'0' c && leb c b'9' || c == b'_' || c == b'-'

-- identifierPattern: `^[a-z][a-z0-9_-]{0,63}$`
unfoldable pub is_identifier : Bytes → Bool
unfolding is_lower is_identifier_byte
is_identifier [] = false
is_identifier (c ∷ rest) = is_lower c && all is_identifier_byte rest && leb (length rest) 63

-- Apply a change to the server.
abbrev pub update : (Server → Server) → Action (Unit {0})
update f s = (ok tt, f s)

-- Run an action that depends on the server.
abbrev pub with_server : {A : Type 0} → (Server → Action A) → Action A
with_server f s = f s s

abbrev pub allows : Method → Bool
allows get = true
allows head = true
allows (Types.other_method _) = false

-- clear(s.candidates); s.reviewedProfile = nil
abbrev pub forget : Server → Server
forget s = record s { candidates = []; reviewed_profile = none }

-- Truncate(time.Second), in nanoseconds
abbrev pub whole_second : ℕ → ℕ
whole_second t = t / 1000000000 * 1000000000

module _ (lib : Library) (backend : Backend) where
  abbrev pub request_of : Bytes → List Bytes → Server → BrowserRequest
  request_of url origins s = record {
    protocol = s.protocol;
    url = url;
    approved_origins = origins;
    navigation_timeout_ms = s.bounds.navigation_timeout_ms;
    total_timeout_ms = s.bounds.total_timeout_ms;
    max_requests = s.bounds.max_requests;
    max_response_bytes = s.bounds.max_response_bytes;
    max_candidates = s.bounds.max_candidates;
  }

  abbrev pub started : ClientMessage → List Bytes → Server → Server
  started message origins s = record s {
    bounds = normalized_bounds message.bounds;
    profile_id = message.profile_id;
    origins = origins;
    active_remaining = pos_part (normalized_bounds message.bounds).total_timeout_ms * 1000000;
  }

  -- The call of Open. A session that was returned is kept, also beside an error.
  unfoldable pub open_browser : BrowserRequest → Server → CallStatus × Server
  open_browser request s =
      let (status, s') = with_active lib backend (call_open request) backend.opened_well s in
      (
        status,
        record s' { session = if was_called status then backend.opened_session s'.trace else none },
      )

  -- Open the browser and enter the observing phase.
  unfoldable pub open_session : BrowserRequest → Action (Unit {0})
  open_session request s =
      let (status, s') = open_browser request s in
      if is_success status && is_some s'.session
      then (ok tt, record s' { phase = Types.observing })
      else fail_browser lib backend s'

  unfoldable pub start : ClientMessage → Action (Unit {0})
  start message = do
    require lib backend (is_identifier message.profile_id) invalid_start
    protocol ← with_server (λ s. pure s.protocol)
    (url, origin) ←
        require_some lib backend (clean_url_for_protocol lib protocol message.url) invalid_start
    require lib backend (bytes_eq url message.url) invalid_start
    origins ← require_some lib backend (normalize_origins lib message.origins) invalid_origin
    require lib backend (contains origins origin) invalid_origin
    require lib backend (validate_bounds message.bounds) invalid_bounds
    update (started message origins)
    with_server (λ s. open_session (request_of url origins s))
    with_server (λ s. write lib backend (state s.phase (some s.bounds)))

  -- Keep the observation in the history of a typed session; the history has to fit on a line.
  unfoldable pub remember : Observation → Action (Unit {0})
  remember o s =
      if is_typed s.protocol
      then (let s' = record s { history = s.history ++ o ∷ [] } in
          if ltb max_protocol_line_bytes (lib.history_length s'.history)
          then fail lib backend invalid_observation s'
          else (ok tt, s'))
      else (ok tt, s)

  -- The time of an observation, checked against that of the one before.
  abbrev pub clock_ok : ℕ → Server → Bool
  clock_ok t s = not (t == 0) && (s.observed_at == 0 || leb s.observed_at t)

  abbrev pub observed_at : ℕ → Observation → Server → Server
  observed_at t o s = record s {
    candidates = candidate_records o.generation o.candidates;
    reviewed_profile = none;
    observed_at = t;
  }

  unfoldable pub reduce_raw : Action Observation
  reduce_raw s = elim (backend.observed s.trace) [
    | none ↦ fail_browser lib backend s
    | some raw ↦
        let (o, s') = reduce_observation lib raw s in
        require_some lib backend o invalid_observation s'
  ]

  unfoldable pub observe : Action (Unit {0})
  observe = do
    update (λ s. record s { observations = s.observations + 1 })
    with_server (λ s.
        require lib backend (not (ltb_ℤ s.bounds.max_observations (pos s.observations)))
          observation_limit)
    browser_call lib backend call_observe (λ t. is_some (backend.observed t))
    o ← reduce_raw
    t ← with_server (λ s. pure (whole_second (backend.clock s.trace)))
    with_server (λ s. require lib backend (clock_ok t s) clock_unavailable)
    update (observed_at t o)
    remember o
    write lib backend (observation o)

  unfoldable pub navigate : ClientMessage → Action (Unit {0})
  navigate message = do
    require lib backend (allows message.method) invalid_navigation
    protocol ← with_server (λ s. pure s.protocol)
    (url, origin) ←
        require_some lib backend (clean_url_for_protocol lib protocol message.url)
          invalid_navigation
    require lib backend (bytes_eq url message.url) invalid_navigation
    with_server (λ s. require lib backend (member origin s.origins) invalid_origin)
    update forget
    browser_call lib backend (call_navigate message.method url) backend.navigated
    with_server (λ s. write lib backend (state s.phase none))

  abbrev pub can : (Abilities → Bool) → Server → Bool
  can ability s = elim s.session [ none ↦ false | some a ↦ ability a ]

  -- The choice is reviewed, its control is on the current page, and the backend can preview.
  abbrev pub preview_ok : PreviewRequest → CandidateRecord → Server → Bool
  preview_ok request r s =
      can (λ a. a.previews) s
      && eq_ℤ (pos r.generation) request.generation
      && validate_preview lib r.protocol request

  unfoldable pub preview : ClientMessage → Action (Unit {0})
  preview message = do
    with_server (λ s. require lib backend (is_typed s.protocol) invalid_state)
    request ← require_some lib backend message.preview invalid_state
    r ←
        with_server (λ s.
          require_some lib backend (lookup request.candidate_id s.candidates) invalid_candidate)
    with_server (λ s. require lib backend (preview_ok request r s) invalid_candidate)
    browser_call lib backend (call_preview r.protocol request) backend.previewed
    update forget
    observe
    update (λ s. record s {
      previews = s.previews ++ record { request = request; next_generation = s.generation } ∷ [];
    })

  abbrev pub approval_ok : HumanVerification → Server → Bool
  approval_ok v s =
      is_v4 s.protocol
      && not (is_some s.verification_authority)
      && validate_verification_authority lib (some v) s.origins

  abbrev pub widget_ok : HumanVerification → CandidateRecord → Server → Bool
  widget_ok v r s =
      eq_ℤ r.protocol.matches (pos 1)
      && matches_verification r.protocol.verification v
      && can (λ a. a.verifies) s

  unfoldable pub approve_verification : ClientMessage → Action (Unit {0})
  approve_verification message = do
    v ← require_some lib backend message.verification invalid_review
    with_server (λ s. require lib backend (approval_ok v s) invalid_review)
    r ←
        with_server
          (λ s. require_some lib backend (lookup message.candidate_id s.candidates) invalid_review)
    with_server (λ s. require lib backend (widget_ok v r s) invalid_review)
    browser_call lib backend (call_approve v) backend.approved
    update (λ s. record s { verification_authority = some v; reviewed_profile = none })
    with_server (λ s. write lib backend (state s.phase none))
