-- ===== src/AuthorSession/Start.antt =====
-- validateStart and startSession of authorsession/session.go.
use browsertools.Prelude.{
  ℕ, ◌*◌, pos_part, Bool, true, ◌&&◌, not, Option, none, some, List, [], ◌∷◌, Bytes, bytes,
  is_empty, is_some, leb, length, member, ◌==◌, if◌then◌else◌,
}
use browsertools.Text.{sort_strings}
use browsertools.Disclosure.{validate_path}
use browsertools.Registration.Reduce.{is_portable_role}
use browsertools.Machine.{pure, ◌>>=◌, ◌>>◌, update, with_state}
use browsertools.AuthorSession.Types.{
  authentication, GoalPredicate, ClientMessage, state, invalid_state, invalid_start, invalid_origin,
  clock_unavailable,
}
use browsertools.AuthorSession.Origins.{
  exact_origin, origin_for_url, clean_absolute_url, add_key, validate_bounds, normalized_bounds,
}
use browsertools.AuthorSession.Server.{
  AuthorLibrary, BrowserRequest, call_open, Backend, Server, Action,
}
use browsertools.AuthorSession.Actions.{write, require, require_some, browser_call, success}

module _ (a : AuthorLibrary) where
  unfoldable pub predicate_ok : GoalPredicate → Bool
  predicate_ok p =
      is_some (exact_origin a.base a.urls p.origin)
      && validate_path a.base p.path
      && is_portable_role p.role
      && leb (length p.label) 256

  unfoldable pub texts_ok : ClientMessage → Bool
  texts_ok m =
      not (is_empty (a.base.trim_space m.title))
      && leb (length m.title) 256
      && not (is_empty (a.base.trim_space m.goal))
      && leb (length m.goal) 1024

  -- validateStart: the typed predicate; `none` is an error.
  unfoldable pub validate_start : ClientMessage → Option GoalPredicate
  unfolding predicate_ok texts_ok
  validate_start m = elim m.goal_predicate [
    | none ↦ none
    | some p ↦
        if texts_ok m
          && not (is_empty m.origins)
          && leb (length m.origins) 32
          && is_some (clean_absolute_url a.base a.urls m.url)
          && not (is_empty m.dashboard_url)
          && is_some (clean_absolute_url a.base a.urls m.dashboard_url)
          && predicate_ok p
          && validate_bounds m.bounds
        then some p
        else none
  ]

  -- The loop over the origins of the message.
  unfoldable pub canonical_origins : List Bytes → List Bytes → Option (List Bytes)
  canonical_origins found [] = some found
  canonical_origins found (origin ∷ rest) = elim (exact_origin a.base a.urls origin) [
    | none ↦ none
    | some canonical ↦ canonical_origins (add_key canonical found) rest
  ]

  -- The time in nanoseconds.
  abbrev pub total_time : Server → ℕ
  total_time s = pos_part s.bounds.total_timeout_ms * 1000000

  abbrev pub open_request : Bytes → Server → BrowserRequest
  open_request url s = record {
    url = url;
    approved_origins = sort_strings s.origins;
    navigation_timeout_ms = s.bounds.navigation_timeout_ms;
    total_timeout_ms = s.bounds.total_timeout_ms;
    max_requests = s.bounds.max_requests;
    max_response_bytes = s.bounds.max_response_bytes;
    max_candidates = s.bounds.max_candidates;
  }

  -- The server with the session that Open returned.
  abbrev pub with_session : ClientMessage → GoalPredicate → Bytes → Server → Server
  with_session m p goal_origin s = record s {
    session = true;
    started = true;
    phase = authentication;
    start = record {
      title = m.title;
      goal = m.goal;
      url = m.url;
      dashboard_url = m.dashboard_url;
      goal_predicate = record p { origin = goal_origin };
    };
  }

  module _ (backend : Backend) where
    -- The origins of the message, and the canonical origin of the goal.
    unfoldable pub approve_origins : ClientMessage → GoalPredicate → Action Bytes
    approve_origins m p = do
      origins ←
          with_state
            (λ s. require_some backend (canonical_origins s.origins m.origins) invalid_origin)
      update (λ s. record s { origins = origins })
      goal_origin ← require_some backend (exact_origin a.base a.urls p.origin) invalid_start
      initial ← require_some backend (origin_for_url a.base a.urls m.url) invalid_start
      require backend (member initial origins) invalid_origin
      require backend (member goal_origin origins) invalid_origin
      dashboard ← require_some backend (origin_for_url a.base a.urls m.dashboard_url) invalid_start
      require backend (member dashboard origins) invalid_origin
      pure goal_origin

    -- startSession
    unfoldable pub start_session : ClientMessage → Action (Unit {0})
    unfolding validate_start approve_origins
    start_session m = do
      with_state (λ s. require backend (not s.started) invalid_state)
      p ← require_some backend (validate_start m) invalid_start
      update (λ s. record s {
        bounds = normalized_bounds m.bounds;
        observed_at = backend.clock s.trace;
      })
      with_state (λ s. require backend (not (s.observed_at == 0)) clock_unavailable)
      goal_origin ← approve_origins m p
      update (λ s. record s { active_remaining = total_time s })
      with_state (λ s.
          browser_call backend (call_open (open_request m.url s)) (λ t. success (backend.opened t)))
      update (with_session m p goal_origin)
      with_state (λ s. write backend (state s.phase (bytes "main") (some s.bounds)))
