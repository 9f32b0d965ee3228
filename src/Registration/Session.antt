-- ===== src/Registration/Session.antt =====
-- The session's remaining handlers (review, finish, closeWithoutResult), the dispatch on a message
-- and the loop of Serve: registrationauthorsession/session.go, with decodeClientMessage of
-- protocol.go.
use browsertools.Prelude.{
  ℕ, pos, Bool, true, ◌||◌, ◌&&◌, not, Option, none, some, List, [], ◌∷◌, Bytes, bytes, bytes_eq,
  is_empty, length, ltb_ℤ, member, ◌==◌, if◌then◌else◌,
}
use browsertools.Text.{are_sorted, equal_strings}
use browsertools.Library.{Library}
use browsertools.Registration.Types
use browsertools.Registration.Types.{
  Protocol, protocol_eq, is_v1, is_v4, is_typed, is_supported, MessageType, Phase, Bounds,
  CandidateRecord, ReviewedCandidate, NetworkSummary, Observation, PreviewRecord, HumanVerification,
  canceled, invalid_candidate, invalid_cleanup, invalid_flow, invalid_profile, invalid_review,
  invalid_state, invalid_submit, malformed_message, network_policy, origin_mismatch, protocol_limit,
  protocol_mismatch, teardown_failure, unexpected_eof, unknown_message,
}
use browsertools.Registration.Profile.{Profile, Flow, ClientMessage, state}
use browsertools.Registration.Verification.{
  verification_equal, validate_network_summary_for_protocol,
}
use browsertools.Registration.Server.{
  Server, Backend, RegistrationReview, Action, pure, ◌>>=◌, ◌>>◌, lookup,
}
use browsertools.Registration.Actions.{
  write, close_session, fail, fail_after_close, require, require_some,
}
use browsertools.Registration.Handlers.{is_identifier, update, with_server}
use browsertools.Registration.Review.{
  profile_fits, history_candidates, profile_origins, validate_retained_navigation,
  validate_reviewed_submit, review_candidates,
}
use browsertools.Registration.Binding.{validate_typed_evidence}

abbrev pub cleanups : List Bytes
cleanups = bytes "delete_separately" ∷ bytes "retain_dedicated_test_identity" ∷ []

pub record Completion : Type 0 where
  pub review : RegistrationReview
  pub protocol : Protocol
  pub profile_id : Bytes
  pub origins : List Bytes
  pub observed_at : ℕ
  pub bounds : Bounds
  pub observations : ℕ
  pub diagnostics : List Bytes
  pub network : NetworkSummary
  pub verification_authority : Option HumanVerification
  pub history : List Observation
  pub previews : List PreviewRecord

-- The fields of the completion that the server holds.
abbrev pub completion_of : Server → RegistrationReview → NetworkSummary → Completion
completion_of s review summary = record {
  review = review;
  protocol = s.protocol;
  profile_id = s.profile_id;
  origins = s.origins;
  observed_at = s.observed_at;
  bounds = s.bounds;
  observations = s.observations;
  diagnostics = s.diagnostics;
  network = summary;
  verification_authority = s.verification_authority;
  history = s.history;
  previews = s.previews;
}

abbrev flow_verification : Option Flow → Option HumanVerification
flow_verification none = none
flow_verification (some f) = f.human_verification

module _ (lib : Library) (backend : Backend) where
  -- The checks on the profile alone, and against the session's protocol, authority and origins.
  abbrev pub profile_kind_ok : Profile → Server → Bool
  profile_kind_ok p s =
      bytes_eq p.observation_kind (bytes "accessibility_snapshot")
      && profile_fits s.protocol p.profile

  abbrev authority_ok : Profile → Bytes → Server → Bool
  authority_ok p flow s =
      not (is_v4 s.protocol)
      || verification_equal lib s.verification_authority (flow_verification (lookup flow p.flows))

  abbrev time_ok : Profile → ℕ → Bool
  time_ok p now = not (now == 0) && lib.valid_at p now

  abbrev ids_ok : List Bytes → Server → Bool
  ids_ok ids s =
      not (is_empty ids) && not (ltb_ℤ s.bounds.max_candidates (pos (length ids))) && are_sorted ids

  abbrev pub available : Server → List (Bytes × CandidateRecord)
  available s = if is_typed s.protocol then history_candidates s.history else s.candidates

  abbrev evidence_ok : ClientMessage → Profile → Server → Bool
  evidence_ok m p s =
      not (is_typed s.protocol)
      || validate_typed_evidence lib s.protocol p m.flow s.history s.previews m.step_candidates
          m.candidate_ids

  abbrev pub with_review :
      ClientMessage → Profile → Bytes → List ReviewedCandidate → Server → Server
  with_review m p encoded reviewed s = record s {
    reviewed_profile = some (record {
      profile = p;
      profile_bytes = encoded;
      candidates = reviewed;
      flow = m.flow;
      cleanup = m.cleanup_disposition;
      step_candidates = m.step_candidates;
    });
    phase = Types.reviewed;
  }

  -- The choice of candidates, and the review that is kept.
  unfoldable pub review_choice : ClientMessage → Profile → Bytes → Flow → Action (Unit {0})
  review_choice m p encoded flow = do
    require lib backend (member m.cleanup_disposition cleanups) invalid_cleanup
    with_server (λ s. require lib backend (ids_ok m.candidate_ids s) invalid_candidate)
    with_server (λ s. require lib backend (evidence_ok m p s) invalid_candidate)
    reviewed ← with_server (λ s.
        require_some lib backend (review_candidates lib (available s) [] m.candidate_ids)
          invalid_candidate)
    require lib backend (validate_reviewed_submit lib flow reviewed) invalid_submit
    update (with_review m p encoded reviewed)
    with_server (λ s. write lib backend (state s.phase none))

  unfoldable pub review : ClientMessage → Action (Unit {0})
  review m = do
    with_server (λ s.
        require lib backend
          (not (s.observations == 0 || is_empty s.candidates || is_empty m.profile)) invalid_review)
    p ← require_some lib backend (lib.parse_profile m.profile) invalid_profile
    with_server (λ s. require lib backend (profile_kind_ok p s) invalid_profile)
    with_server (λ s. require lib backend (authority_ok p m.flow s) invalid_review)
    with_server (λ s. require lib backend (time_ok p (backend.clock s.trace)) invalid_profile)
    encoded ← require_some lib backend (lib.marshal_profile p) invalid_profile
    with_server
        (λ s. require lib backend (equal_strings (profile_origins lib p) s.origins) origin_mismatch)
    with_server (λ s.
        require lib backend (is_v1 s.protocol || validate_retained_navigation lib p)
          invalid_profile)
    require lib backend (is_identifier m.flow) invalid_flow
    flow ← require_some lib backend (lookup m.flow p.flows) invalid_flow
    review_choice m p encoded flow

  abbrev pub shut : Server → Server
  shut s = record s { closed = true; phase = Types.closed }

  abbrev pub network_ok : NetworkSummary → Server → Bool
  network_ok summary s =
      validate_network_summary_for_protocol summary s.bounds.max_requests s.protocol
        s.verification_authority

  -- After a clean close: the summary is checked, the end is written, and the result is built.
  unfoldable pub complete : RegistrationReview → NetworkSummary → Action Completion
  complete r summary s =
      if network_ok summary s
      then (do
        write lib backend (state Types.closed none)
        with_server (λ s'. pure (completion_of s' r summary)))
          (shut s)
      else fail_after_close lib backend network_policy s

  unfoldable pub finish : Action Completion
  finish s = elim s.reviewed_profile [
    | none ↦ fail lib backend invalid_state s
    | some r ↦
        let (summary, s') = close_session lib backend s in
        elim summary [
          | none ↦ fail_after_close lib backend teardown_failure s'
          | some sum ↦ complete r sum s'
        ]
  ]

  unfoldable pub close_without_result : Action (Unit {0})
  close_without_result s =
      let (summary, s') = close_session lib backend s in
      elim summary [
        | none ↦ fail_after_close lib backend teardown_failure (shut s')
        | some sum ↦
            if network_ok sum s' || is_empty s.profile_id
            then write lib backend (state Types.closed none) (shut s')
            else fail_after_close lib backend network_policy (shut s')
      ]
