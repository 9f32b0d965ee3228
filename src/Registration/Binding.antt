-- ===== src/Registration/Binding.antt =====
-- The walk of ValidateTypedEvidence over the steps of a flow, and the function itself
-- (registrationauthorsession/inputs.go), with ValidateVerificationEvidence of verification.go.
use browsertools.Prelude.{
  Bool, false, ◌||◌, ◌&&◌, not, Option, none, some, List, [], ◌∷◌, Bytes, bytes_eq, is_some,
  is_empty, any, length, leb, eq_ℤ, pos, ◌==◌, if◌then◌else◌,
}
use browsertools.Text.{are_sorted}
use browsertools.Library.{Library}
use browsertools.Registration.Types.{
  Protocol, is_v4, is_typed, Observation, PreviewRecord, HumanVerification,
}
use browsertools.Registration.Profile.{Profile, Flow, Step, Locator}
use browsertools.Registration.Verification.{
  matches_verification, validate_verification_observation, validate_verification_authority,
}
use browsertools.Registration.Server.{lookup}
use browsertools.Registration.Actions.{max_protocol_line_bytes}
use browsertools.Registration.Review.{profile_fits, profile_origins}
use browsertools.Registration.Evidence.{
  Records, Walk, step_locator, same_text_locator, all_used, history_records, previews_ok, bound_ok,
  inputs_ok, after_click, visit, navigate_to,
}

abbrev new_walk : Walk
new_walk = record { origin = []; path = []; last_generation = 0; submitted = false; used = [] }

-- After the submit, a wait for the success locator needs no candidate.
awaits_success : Locator → Walk → Step → Bytes → Locator → Bool
unfolding same_text_locator
awaits_success success w step id l =
    w.submitted && is_some step.wait_for && is_empty id && same_text_locator l success

module _ (lib : Library) (profile : Profile) (success : Locator) (history : List Observation)
    (previews : List PreviewRecord) (records : Records) where
  unfoldable pub walk_step : Walk → Step → Bytes → Option Walk
  unfolding awaits_success step_locator bound_ok inputs_ok after_click
  walk_step w step id =
      if not (is_empty step.navigate)
      then navigate_to lib step.navigate id w
      else elim (step_locator step) [
        | none ↦ if is_empty id then some w else none
        | some l ↦ if awaits_success success w step id l then some w else elim (lookup id records) [
          | none ↦ none
          | some r ↦
              if bound_ok lib history w l r && inputs_ok lib profile step r
              then after_click lib history previews id step (visit lib id r step w)
              else none
        ]
      ]

  -- The loop over the steps, each with its candidate's id.
  unfoldable pub walk_steps : Walk → List Step → List Bytes → Option Walk
  unfolding walk_step
  walk_steps w [] ids = some w
  walk_steps w (step ∷ rest) [] = none
  walk_steps w (step ∷ rest) (id ∷ ids) = elim (walk_step w step id) [
    | none ↦ none
    | some w' ↦ walk_steps w' rest ids
  ]

module _ (lib : Library) where
  -- A submit step's candidate shows the widget of the descriptor.
  widget_bound : HumanVerification → List Bytes → List Observation → Bytes → Bool
  widget_bound v origins history id =
      any
        (λ o.
          any
            (λ c.
              bytes_eq c.id id
              && eq_ℤ c.matches (pos 1)
              && matches_verification c.verification v
              && elim c.verification [
                | none ↦ false
                | some w ↦ validate_verification_observation lib w origins
              ])
            o.candidates)
        history

  submits_bound : HumanVerification → List Bytes → List Observation → List Step → List Bytes → Bool
  unfolding widget_bound
  submits_bound v origins history [] ids = false
  submits_bound v origins history (step ∷ rest) [] = false
  submits_bound v origins history (step ∷ rest) (id ∷ ids) =
      is_some step.submit && widget_bound v origins history id
      || submits_bound v origins history rest ids

  -- `ValidateVerificationEvidence(profile, flow, history, steps) == nil`, for a flow that is there
  unfoldable pub validate_verification_evidence :
      Profile → Flow → List Observation → List Bytes → Bool
  unfolding submits_bound
  validate_verification_evidence profile flow history steps =
      length steps == length flow.sequence
      && validate_verification_authority lib flow.human_verification (profile_origins lib profile)
      && elim flow.human_verification [
        | none ↦ false
        | some v ↦ submits_bound v (profile_origins lib profile) history flow.sequence steps
      ]

  -- The previews and the steps, given the records of the history.
  evidence_bound :
      Profile
      → Flow
      → List Observation
      → List PreviewRecord
      → List Bytes
      → List Bytes
      → Records
      → Bool
  unfolding walk_steps previews_ok all_used
  evidence_bound profile flow history previews steps selected records =
      previews_ok lib records (length history) 0 previews
      && elim (walk_steps lib profile flow.success history previews records new_walk flow.sequence
          steps) [
            | none ↦ false
            | some w ↦ length w.used == length selected && all_used w.used selected
          ]

  -- `ValidateTypedEvidence(...) == nil`
  unfoldable pub validate_typed_evidence :
      Protocol
      → Profile
      → Bytes
      → List Observation
      → List PreviewRecord
      → List Bytes
      → List Bytes
      → Bool
  unfolding evidence_bound validate_verification_evidence history_records
  validate_typed_evidence protocol profile flow_name history previews steps selected =
      is_typed protocol
      && profile_fits protocol profile.profile
      && not (is_empty history)
      && leb (length history) 256
      && elim (lookup flow_name profile.flows) [
        | none ↦ false
        | some flow ↦
            (not (is_v4 protocol) || validate_verification_evidence profile flow history steps)
            && length steps == length flow.sequence
            && not (is_empty selected)
            && leb (length selected) 512
            && are_sorted selected
            && leb (lib.history_length history) max_protocol_line_bytes
            && elim (history_records lib protocol (profile_origins lib profile) 0 [] history) [
              | none ↦ false
              | some records ↦ evidence_bound profile flow history previews steps selected records
            ]
      ]
