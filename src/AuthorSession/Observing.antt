-- ===== src/AuthorSession/Observing.antt =====
-- The handler `observe` of authorsession/session.go.
use browsertools.Prelude.{
  ◌+◌, pos, Bool, true, false, ◌||◌, ◌&&◌, Option, none, some, List, [], Bytes, bytes, is_some,
  leb_ℤ, if◌then◌else◌,
}
use browsertools.Registration.Server.{lookup}
use browsertools.Machine.{done, pure, ◌>>=◌, ◌>>◌, update, with_state}
use browsertools.AuthorSession.Types.{
  Phase, authentication, exploration, Contexts, RawObservation, Observation, CandidateRecord,
  observation, human_checkpoint, unknown_context, observation_limit, invalid_observation,
  invalid_context, normalized_context,
}
use browsertools.AuthorSession.Origins.{dashboard_matches}
use browsertools.AuthorSession.Goal.{match_goal, authentication_success_proof}
use browsertools.AuthorSession.Contexts.{
  is_main, add_contexts, Resolution, resolved, refused, exhausted,
}
use browsertools.AuthorSession.Reduce.{reduce_observation}
use browsertools.AuthorSession.Server.{AuthorLibrary, call_observe, Backend, Server, Action}
use browsertools.AuthorSession.Actions.{write, require, require_some, browser_call}

abbrev pub is_authentication : Phase → Bool
is_authentication authentication = true
is_authentication _ = false

abbrev pub is_exploration : Phase → Bool
is_exploration exploration = true
is_exploration _ = false

abbrev pub contexts_of : Resolution → Option Contexts
contexts_of (resolved contexts) = some contexts
contexts_of refused = none
contexts_of exhausted = none

module _ (a : AuthorLibrary) (backend : Backend) where
  unfoldable pub reduce_raw :
      Bytes → RawObservation → Action (Observation × List (Bytes × CandidateRecord))
  reduce_raw id raw s =
      let (r, s') = reduce_observation a raw id s in require_some backend r invalid_observation s'

  -- The contexts that the backend reports are added, and the candidates replace all earlier ones.
  unfoldable pub adopt :
      RawObservation → Observation × List (Bytes × CandidateRecord) → Action Observation
  adopt raw (o, records) = do
    contexts ← with_state (λ s.
        require_some backend (contexts_of (add_contexts a s.origins s.contexts raw.contexts))
          invalid_context)
    update (λ s. record s { contexts = contexts; candidates = records })
    pure (record o { contexts = contexts })

  abbrev pub at_dashboard : Observation → Server → Bool
  at_dashboard o s =
      is_authentication s.phase
      && dashboard_matches a.base a.urls s.start.dashboard_url o.origin o.path

  -- At the dashboard the authentication phase ends, with a proof.
  unfoldable pub authenticate : Observation → Action (Unit {0})
  authenticate o s =
      (if at_dashboard o s
          then (do
            p ←
                require_some backend (authentication_success_proof o s.start.goal_predicate)
                  invalid_observation
            update (λ s'. record s' { auth_proof = some p; phase = exploration }))
          else done)
        s

  unfoldable pub offer_completion : Action (Unit {0})
  offer_completion s =
      (if is_exploration s.phase && is_some s.goal_proof
          then write backend (
              human_checkpoint (record {
                kind = bytes "completion";
                candidate_id = [];
                input_kind = [];
                challenge_kinds = [];
              }))
          else done)
        s

  -- observe
  unfoldable pub observe : Bytes → Action (Unit {0})
  unfolding reduce_raw adopt authenticate offer_completion
  observe context = do
    with_state (λ s.
        require backend
          (is_main (normalized_context context)
            || is_some (lookup (normalized_context context) s.contexts))
          unknown_context)
    update (λ s. record s { observations = s.observations + 1 })
    with_state (λ s.
        require backend (leb_ℤ (pos s.observations) s.bounds.max_observations) observation_limit)
    raw ← browser_call backend (call_observe (normalized_context context)) backend.observed
    reduced ← reduce_raw (normalized_context context) raw
    o ← adopt raw reduced
    authenticate o
    update (λ s. record s { goal_proof = match_goal s.start.goal_predicate o })
    write backend (observation o)
    offer_completion
