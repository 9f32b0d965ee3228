-- ===== src/Registration/Completion/Choice.antt =====
-- About the kept review in start and review of registrationauthorsession/session.go.
use browsertools.Prelude.{
  ◌≡◌, refl, inl, inr, true, ◌&&◌, none, some, List, [], ◌∷◌, Bytes, is_some, some_injective, arith,
  Bool-cases, Option-cases, member, subst, ◌∙◌, ap,
}
use browsertools.Library.{Library}
use browsertools.Registration.Types.{CandidateRecord, ReviewedCandidate}
use browsertools.Registration.Profile.{Profile, Flow, ClientMessage, state}
use browsertools.Registration.Server.{RegistrationReview, Server, Backend, lookup, BrowserRequest}
use browsertools.Registration.Actions.{is_success, with_active}
use browsertools.Registration.Handlers.{start, open_browser, open_session}
use browsertools.Registration.Review.{review_candidates, profile_fits, validate_reviewed_submit}
use browsertools.Registration.Session.{
  review, review_choice, with_review, available, profile_kind_ok, cleanups,
}
use browsertools.Registration.Rules.{
  Triple, weaken, followed_by, after_update, after_read, after_require, after_some, after_check,
  after_find, past_check,
}
use browsertools.Registration.Completion.{ReviewIsOk, all_unique, submit_bound}
use browsertools.Registration.Completion.Reviews.{
  Anything, Kept, kept_of_same, browser_failed_anyhow, state-Kept,
}

module _ (lib : Library) (backend : Backend) where
  open_browser-same :
      (r : BrowserRequest) (s : Server)
      → let s' = (open_browser lib backend r s).1 in
        (s'.reviewed_profile ≡ s.reviewed_profile) × (s'.protocol ≡ s.protocol)
  unfolding open_browser with_active
  open_browser-same r s = ground arith

  open_session-Kept :
      (r : BrowserRequest)
      → Triple Anything (Kept lib backend) (open_session lib backend r) (Kept lib backend)
  unfolding open_session
  open_session-Kept r = record {
    at = λ s h.
        let (status, s') = open_browser lib backend r s in
        let (same, protocol) = open_browser-same r s in
        elim (Bool-cases (is_success status && is_some s'.session)) [
          | inl e ↦ rw e (kept_of_same lib backend s _ same protocol h)
          | inr e ↦ rw e (browser_failed_anyhow lib backend (Unit {0}) (Kept lib backend) s')
        ];
  }

  pub start-Kept :
      (m : ClientMessage)
      → Triple Anything (Kept lib backend) (start lib backend m) (Kept lib backend)
  unfolding start
  start-Kept m =
      after_require lib backend (λ c s h. tt) _ _ _
        λ named. after_read _ _ λ p.
          after_some lib backend (λ c s h. tt) _ _ _
            λ (url, origin) clean.
              after_require lib backend (λ c s h. tt) _ _ _
                λ same.
                  after_some lib backend (λ c s h. tt) _ _ _
                    λ origins normal.
                      after_require lib backend (λ c s h. tt) _ _ _
                        λ approved.
                          after_require lib backend (λ c s h. tt) _ _ _
                            λ bounded.
                              after_update {P' = Kept lib backend} _ _
                                (λ s h. kept_of_same lib backend s _ refl refl h.0)
                                (followed_by _ _
                                  (record { at = λ s h. (open_session-Kept _).at s h })
                                  (state-Kept lib backend (λ s. state s.phase (some s.bounds))))

  -- The candidates that a review takes matched one element each.
  review_candidates_unique :
      (available : List (Bytes × CandidateRecord)) (seen ids : List Bytes)
      (cs : List ReviewedCandidate)
      → review_candidates lib available seen ids ≡ some cs
      → all_unique cs ≡ true
  unfolding review_candidates
  review_candidates_unique available seen [] cs h = ground arith
  review_candidates_unique available seen (id ∷ rest) cs h =
      elim (Option-cases (lookup id available)) [
        | inl e ↦ cc
        | inr (r, e) ↦ elim (Option-cases (review_candidates lib available (id ∷ seen) rest)) [
          | inl f ↦ ground arith
          | inr (l, f) ↦
              let ih = review_candidates_unique available (id ∷ seen) rest l f in ground arith
        ]
      ]

  -- The profile fits the protocol of the session.
  record Fits (p : Profile) (s : Server) : Type 0 where
    fits : profile_fits s.protocol p.profile ≡ true

  choice-Kept :
      (m : ClientMessage) (p : Profile) (encoded : Bytes) (flow : Flow)
      (reviewed : List ReviewedCandidate) (s : Server) (offered : List (Bytes × CandidateRecord))
      → (Fits p s) × (review_candidates lib offered [] m.candidate_ids ≡ some reviewed)
      → member m.cleanup_disposition cleanups ≡ true
      → validate_reviewed_submit lib flow reviewed ≡ true
      → lib.marshal_profile p ≡ some encoded
      → lookup m.flow p.flows ≡ some flow
      → Kept lib backend (with_review lib backend m p encoded reviewed s)
  choice-Kept m p encoded flow reviewed s offered h cleanup bound given found =
      let kept : RegistrationReview = record {
        profile = p;
        profile_bytes = encoded;
        candidates = reviewed;
        flow = m.flow;
        cleanup = m.cleanup_disposition;
        step_candidates = m.step_candidates;
      } in
      let good : ReviewIsOk lib s.protocol kept = record {
        fits = h.0.fits;
        encoded = given;
        bound = ap (submit_bound lib kept) found ∙ bound;
        unique = review_candidates_unique offered [] m.candidate_ids reviewed h.1;
        cleanup = cleanup;
      } in
      record {
        at = λ r e. subst (ReviewIsOk lib s.protocol) (some_injective {a = kept} {b = r} e) good;
      }

  review_choice-Kept :
      (m : ClientMessage) (p : Profile) (encoded : Bytes) (flow : Flow)
      → lib.marshal_profile p ≡ some encoded
      → lookup m.flow p.flows ≡ some flow
      → Triple Anything (Fits p) (review_choice lib backend m p encoded flow) (Kept lib backend)
  unfolding review_choice
  review_choice-Kept m p encoded flow given found =
      after_require lib backend (λ c s h. tt) _ _ _
        λ cleanup.
          past_check lib backend (λ c s h. tt) _ _ _
            (past_check lib backend (λ c s h. tt) _ _ _
              (after_find lib backend (λ c s h. tt) _ _ _
                λ reviewed.
                  after_require lib backend (λ c s h. tt) _ _ _
                    λ bound.
                      after_update {P' = Kept lib backend}
                        (with_review lib backend m p encoded reviewed) _
                        (λ s h.
                          choice-Kept m p encoded flow reviewed s (available lib backend s) h
                            cleanup bound given found)
                        (state-Kept lib backend (λ s. state s.phase none))))

  pub review-Kept :
      (m : ClientMessage)
      → Triple Anything (Kept lib backend) (review lib backend m) (Kept lib backend)
  unfolding review
  review-Kept m =
      past_check lib backend (λ c s h. tt) _ _ _
        (after_some lib backend (λ c s h. tt) _ _ _
          λ p parsed.
            after_check lib backend (λ c s h. tt) (profile_kind_ok lib backend p) _ _
              (weaken {P' = Fits p} _ (λ s h. record { fits = ground (arith, h.1) })
                (past_check lib backend (λ c s h. tt) _ _ _
                  (past_check lib backend (λ c s h. tt) _ _ _
                    (after_some lib backend (λ c s h. tt) _ _ _
                      λ encoded given.
                        past_check lib backend (λ c s h. tt) _ _ _
                          (past_check lib backend (λ c s h. tt) _ _ _
                            (after_require lib backend (λ c s h. tt) _ _ _
                              λ named.
                                after_some lib backend (λ c s h. tt) _ _ _
                                  λ flow found.
                                    review_choice-Kept m p encoded flow given found)))))))
