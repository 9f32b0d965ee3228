-- ===== src/Registration/Review.antt =====
-- The review of a profile: review and validateReviewedSubmit of
-- registrationauthorsession/session.go, with Origins and ValidateRetainedNavigationV2 of
-- registrationprofile/profile.go.
use browsertools.Prelude.{
  ℕ, suc, ◌+◌, pos, Bool, true, false, ◌||◌, ◌&&◌, not, Option, none, some, List, [], ◌∷◌, ◌++◌,
  Bytes, bytes_eq, is_empty, all, eq_ℤ, member, ◌==◌, if◌then◌else◌,
}
use browsertools.Text.{sort_strings}
use browsertools.Library.{Library}
use browsertools.Label.{is_placeholder, safe_candidate_label}
use browsertools.RegistrationUrl
use browsertools.Registration.Types
use browsertools.Registration.Types.{
  Protocol, v3, v4, is_v1, is_v4, is_typed, Candidate, CandidateRecord, Observation,
  ReviewedCandidate, HumanVerification, invalid_candidate, invalid_cleanup, invalid_flow,
  invalid_profile, invalid_review, invalid_submit, origin_mismatch,
}
use browsertools.Registration.Profile.{
  Profile, ProfileName, profile_v10, profile_v11, profile_v12, Flow, Step, Locator,
}
use browsertools.Registration.Control.{promotable_candidate}
use browsertools.Registration.Reduce.{add_records}
use browsertools.Registration.Server.{lookup}

-- The profile version that a protocol reviews.
abbrev pub profile_fits : Protocol → ProfileName → Bool
profile_fits Types.v4 profile_v12 = true
profile_fits Types.v4 _ = false
profile_fits Types.v3 profile_v11 = true
profile_fits Types.v3 _ = false
profile_fits _ profile_v10 = true
profile_fits _ _ = false

add_observations :
    List (Bytes × CandidateRecord) → List Observation → List (Bytes × CandidateRecord)
add_observations records [] = records
add_observations records (o ∷ rest) =
    add_observations (add_records o.generation records o.candidates) rest

-- historyCandidates: of one id the last candidate.
unfoldable pub history_candidates : List Observation → List (Bytes × CandidateRecord)
unfolding add_observations add_records
history_candidates history = add_observations [] history

-- The candidates bound to a locator: the same role and label, one match.
unfoldable pub count_bound : Locator → List ReviewedCandidate → ℕ
count_bound l [] = 0
count_bound l (c ∷ rest) =
    let later = count_bound l rest in
    if bytes_eq c.role l.role && bytes_eq c.label l.name && eq_ℤ c.matches (pos 1)
    then suc later
    else later

-- A value of each element of a list without repeats.
distinct : List Bytes → List Bytes
distinct [] = []
distinct (x ∷ xs) = let rest = distinct xs in if member x rest then rest else x ∷ rest

module _ (lib : Library) where
  unfoldable pub portable_locator : Locator → Bool
  portable_locator l =
      not (is_empty l.role)
      && is_empty l.text
      && is_empty l.value
      && not (is_empty l.name)
      && safe_candidate_label lib l.name
      && not (is_placeholder l.name)

  -- The loop over the steps: the number of submits, and of the candidates bound to them.
  unfoldable pub count_submits : List ReviewedCandidate → List Step → Option (ℕ × ℕ)
  unfolding portable_locator count_bound
  count_submits reviewed [] = some (0, 0)
  count_submits reviewed (step ∷ rest) = elim (count_submits reviewed rest) [
    | none ↦ none
    | some counts ↦ elim step.submit [
      | none ↦ some counts
      | some l ↦
          if portable_locator l
          then some (suc counts.0, count_bound l reviewed + counts.1)
          else none
    ]
  ]

  -- `validateReviewedSubmit(profile, flow, reviewed) == nil`
  unfoldable pub validate_reviewed_submit : Flow → List ReviewedCandidate → Bool
  unfolding count_submits
  validate_reviewed_submit flow reviewed = elim (count_submits reviewed flow.sequence) [
    | none ↦ false
    | some counts ↦ counts.0 == 1 && counts.1 == 1
  ]

  canonical_origins : List Bytes → List Bytes
  canonical_origins [] = []
  canonical_origins (o ∷ rest) = elim (lib.parse_origin o) [
    | none ↦ canonical_origins rest
    | some c ↦ c ∷ canonical_origins rest
  ]

  -- registrationprofile.Origins
  unfoldable pub profile_origins : Profile → List Bytes
  unfolding distinct canonical_origins
  profile_origins p =
      sort_strings (distinct (canonical_origins (p.application_origins ++ p.registration_origins)))

  step_in_scope : List Bytes → Step → Bool
  step_in_scope origins step =
      if is_empty step.navigate
      then true
      else elim (RegistrationUrl.parse lib step.navigate true lib.parse_origin) [
        | none ↦ false
        | some facts ↦ member facts.origin origins
      ]

  -- `registrationprofile.ValidateRetainedNavigationV2(p) == nil`
  unfoldable pub validate_retained_navigation : Profile → Bool
  unfolding step_in_scope
  validate_retained_navigation p =
      not (is_empty (profile_origins p))
      && all (λ f. all (step_in_scope (profile_origins p)) f.1.sequence) p.flows

  -- The loop over the chosen ids; `none` is an error.
  unfoldable pub review_candidates :
      List (Bytes × CandidateRecord) → List Bytes → List Bytes → Option (List ReviewedCandidate)
  review_candidates available seen [] = some []
  review_candidates available seen (id ∷ rest) =
      let later = review_candidates available (id ∷ seen) rest in
      elim (lookup id available) [
        | none ↦ none
        | some r ↦
            if member id seen
              || not (eq_ℤ r.protocol.matches (pos 1))
              || not (promotable_candidate lib r.protocol)
            then none
            else elim later [
              | none ↦ none
              | some l ↦ some (
                  record {
                    id = id;
                    generation = r.generation;
                    role = r.protocol.role;
                    label = r.protocol.label;
                    matches = r.protocol.matches;
                  }
                  ∷ l)
            ]
      ]
