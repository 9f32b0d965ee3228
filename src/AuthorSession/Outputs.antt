-- ===== src/AuthorSession/Outputs.antt =====
-- reviewOutputs of authorsession/session.go: the outputs that a person reviewed, checked against a
-- new observation.
use browsertools.Prelude.{
  ℕ, ℤ, pos, ◌+ℤ◌, leb_ℤ, ltb_ℤ, eq_ℤ, Bool, true, false, ◌||◌, ◌&&◌, not, Option, none, some, List,
  [], ◌∷◌, Bytes, bytes, bytes_eq, bytes_lt, is_empty, length, member, if◌then◌else◌,
}
use browsertools.Label.{reduce_accessibility_label}
use browsertools.Disclosure.{validate_path}
use browsertools.Registration.Server.{lookup}
use browsertools.AuthorSession.Types.{
  GoalProof, OutputRequest, OutputSelection, RawCandidate, RawObservation, CandidateRecord,
  normalized_context,
}
use browsertools.AuthorSession.Origins.{exact_origin}
use browsertools.AuthorSession.Vocabulary.{
  is_identifier, output_types, output_locator_modes, output_control_roles, promotable_label,
}
use browsertools.AuthorSession.Execution.{record_of}
use browsertools.AuthorSession.Server.{AuthorLibrary, call_observe, Backend, Server}
use browsertools.AuthorSession.Actions.{with_active}

-- min(s.bounds.MaxOutputs, maxSelectedOutputs)
abbrev pub output_limit : Server → ℤ
output_limit s = if ltb_ℤ (pos 16) s.bounds.max_outputs then pos 16 else s.bounds.max_outputs

-- The sum of the matches with the role.
unfoldable pub role_matches : Bytes → List RawCandidate → ℤ
role_matches role [] = pos 0
role_matches role (c ∷ rest) =
    let later = role_matches role rest in if bytes_eq c.role role then c.matches +ℤ later else later

-- The order by key.
unfoldable pub insert_selection : OutputSelection → List OutputSelection → List OutputSelection
insert_selection x [] = x ∷ []
insert_selection x (y ∷ rest) =
    let later = insert_selection x rest in if bytes_lt y.key x.key then y ∷ later else x ∷ y ∷ rest

-- sort.Slice(selections, ...); the keys are distinct.
unfoldable pub sort_selections : List OutputSelection → List OutputSelection
unfolding insert_selection
sort_selections [] = []
sort_selections (x ∷ rest) = insert_selection x (sort_selections rest)

module _ (a : AuthorLibrary) where
  unfoldable pub request_ok : List Bytes → List Bytes → OutputRequest → Bool
  request_ok seen_keys seen_candidates r =
      is_identifier r.key
      && not (bytes_eq r.key (bytes "goal_present"))
      && not (a.base.sensitive_key (a.base.to_lower r.key))
      && not (member r.key seen_keys)
      && not (member r.candidate_id seen_candidates)
      && member r.type output_types
      && member r.locator_mode output_locator_modes

  unfoldable pub record_ok : Bytes → Option CandidateRecord → Bool
  record_ok context none = false
  record_ok context (some r) =
      bytes_eq r.context context
      && eq_ℤ r.protocol.matches (pos 1)
      && is_empty r.raw.input_kind
      && not (member r.protocol.role output_control_roles)
      && promotable_label a.base r.label

  -- The loop over the requests before the new observation.
  unfoldable pub requests_ok : Bytes → Server → List Bytes → List Bytes → List OutputRequest → Bool
  unfolding request_ok record_ok
  requests_ok context s seen_keys seen_candidates [] = true
  requests_ok context s seen_keys seen_candidates (r ∷ rest) =
      request_ok seen_keys seen_candidates r
      && record_ok context (lookup r.candidate_id s.candidates)
      && requests_ok context s (r.key ∷ seen_keys) (r.candidate_id ∷ seen_candidates) rest

  -- The new observation is of the same page.
  unfoldable pub same_page : GoalProof → Bytes → Server → RawObservation → Bool
  same_page proof context s raw = elim (exact_origin a.base a.urls raw.origin) [
    | none ↦ false
    | some origin ↦
        bytes_eq origin proof.origin
        && validate_path a.base raw.path
        && bytes_eq raw.path proof.path
        && bytes_eq (normalized_context raw.context) context
        && leb_ℤ (pos (length raw.candidates)) s.bounds.max_candidates
  ]

  -- The new candidate has the role and the reduced label of the record, and takes no input.
  unfoldable pub is_same : CandidateRecord → RawCandidate → Bool
  is_same r c =
      bytes_eq c.role r.protocol.role
      && is_empty c.input_kind
      && bytes_eq (reduce_accessibility_label a.base c.label).value r.label

  unfoldable pub exact_matches : CandidateRecord → List RawCandidate → ℤ
  unfolding is_same
  exact_matches r [] = pos 0
  exact_matches r (c ∷ rest) =
      let later = exact_matches r rest in if is_same r c then c.matches +ℤ later else later

  -- Each of the matches is in bounds.
  unfoldable pub matches_in : ℤ → List RawCandidate → Bool
  matches_in max [] = true
  matches_in max (c ∷ rest) = leb_ℤ (pos 1) c.matches && leb_ℤ c.matches max && matches_in max rest

  unfoldable pub selection_for :
      OutputRequest → CandidateRecord → ℕ → Bytes → ℤ → ℤ → OutputSelection
  selection_for request r observations context exact role = record {
    candidate_id = request.candidate_id;
    key = request.key;
    type = request.type;
    locator_mode = request.locator_mode;
    observation = observations;
    context = context;
    role = r.protocol.role;
    name = if bytes_eq request.locator_mode (bytes "exact_name") then r.label else [];
    matches = exact;
    role_matches = role;
  }

  -- One selection; `none` where the new candidates do not match as reviewed.
  unfoldable pub select :
      Bytes → Server → List RawCandidate → OutputRequest → Option OutputSelection
  unfolding exact_matches role_matches matches_in selection_for
  select context s candidates request =
      let r = record_of (lookup request.candidate_id s.candidates) in
      let exact = exact_matches r candidates in
      let role = role_matches r.protocol.role candidates in
      if matches_in s.bounds.max_candidates candidates
        && leb_ℤ role s.bounds.max_candidates
        && eq_ℤ exact (pos 1)
        && (not (bytes_eq request.locator_mode (bytes "unique_role")) || eq_ℤ role (pos 1))
      then some (selection_for request r s.observations context exact role)
      else none

  unfoldable pub select_all :
      Bytes → Server → List RawCandidate → List OutputRequest → Option (List OutputSelection)
  unfolding select
  select_all context s candidates [] = some []
  select_all context s candidates (request ∷ rest) = elim (select context s candidates request) [
    | none ↦ none
    | some selection ↦ elim (select_all context s candidates rest) [
      | none ↦ none
      | some later ↦ some (selection ∷ later)
    ]
  ]

  abbrev sorted : Option (List OutputSelection) → Option (List OutputSelection)
  sorted none = none
  sorted (some selections) = some (sort_selections selections)

  -- The part after the new observation.
  unfoldable pub select_on :
      GoalProof
      → Bytes
      → List OutputRequest
      → Server
      → Option RawObservation
      → Option (List OutputSelection)
  unfolding same_page select_all sort_selections
  select_on proof context requests s none = none
  select_on proof context requests s (some raw) =
      if same_page proof context s raw
      then sorted (select_all context s raw.candidates requests)
      else none

  module _ (backend : Backend) where
    -- reviewOutputs: the selections in the order of their keys; `none` is an error.
    unfoldable pub review_outputs :
        GoalProof → List OutputRequest → Server → Option (List OutputSelection) × Server
    unfolding requests_ok select_on
    review_outputs proof [] s = if leb_ℤ (pos 0) (output_limit s) then (some [], s) else (none, s)
    review_outputs proof (request ∷ rest) s =
        let requests = request ∷ rest in
        let context = normalized_context proof.context in
        if leb_ℤ (pos (length requests)) (output_limit s) && requests_ok context s [] [] requests
        then (let (raw, s') = with_active backend (call_observe context) backend.observed s in
            (select_on proof context requests s' raw, s'))
        else (none, s)
