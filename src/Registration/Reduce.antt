-- ===== src/Registration/Reduce.antt =====
-- reduceObservation of registrationauthorsession/session.go: what of a raw observation may cross
-- the protocol boundary.
pub mod Diagnostics
pub mod Candidates
pub mod Portable
use browsertools.Prelude.{
  ℕ, suc, ◌+◌, ℤ, pos, Bool, true, false, ◌||◌, ◌&&◌, not, Option, none, some, List, [], ◌∷◌, ◌++◌,
  Bytes, bytes, bytes_eq, bytes_lt, any, length, leb, ltb, ltb_ℤ, leb_ℤ, eq_ℤ, member,
  if◌then◌else◌,
}
use browsertools.Text.{sort_strings}
use browsertools.Library.{Library}
use browsertools.Disclosure.{validate_path}
use browsertools.Label.{safe_candidate_label, reduce_accessibility_label}
use browsertools.Registration.Types.{
  Protocol, is_typed, is_v4, ControlMetadata, RawCandidate, RawObservation, Candidate,
  CandidateRecord, Observation, VerificationObservation,
}
use browsertools.Registration.Origins.{exact_origin}
use browsertools.Registration.Control.{promotable_candidate, validate_control_metadata}
use browsertools.Registration.Verification.{validate_verification_observation}
use browsertools.Registration.Server.{Server, put}

abbrev pub portable_roles : List Bytes
portable_roles =
    bytes "button"
    ∷ bytes "link"
    ∷ bytes "textbox"
    ∷ bytes "checkbox"
    ∷ bytes "radio"
    ∷ bytes "dialog"
    ∷ bytes "status"
    ∷ bytes "alert"
    ∷ bytes "heading"
    ∷ bytes "img"
    ∷ bytes "list"
    ∷ bytes "listitem"
    ∷ bytes "combobox"
    ∷ bytes "option"
    ∷ bytes "menu"
    ∷ bytes "menuitem"
    ∷ bytes "tab"
    ∷ bytes "tabpanel"
    ∷ bytes "table"
    ∷ bytes "row"
    ∷ bytes "cell"
    ∷ bytes "region"
    ∷ bytes "navigation"
    ∷ bytes "article"
    ∷ bytes "form"
    ∷ bytes "search"
    ∷ bytes "switch"
    ∷ bytes "group"
    ∷ []

unfoldable pub is_portable_role : Bytes → Bool
is_portable_role role = member role portable_roles

abbrev pub allowed_diagnostics : List Bytes
allowed_diagnostics =
    bytes "accessibility_snapshot_partial"
    ∷ bytes "cross_origin_frame_omitted"
    ∷ bytes "unsupported_accessible_control"
    ∷ bytes "synthetic_fixture"
    ∷ []

-- ValidDiagnostic
unfoldable pub valid_diagnostic : Bytes → Bool
valid_diagnostic code = member code allowed_diagnostics

abbrev pub max_unique_diagnostics : ℕ
max_unique_diagnostics = 256

-- The order of the candidates: by role, then by raw label.
candidate_before : RawCandidate → RawCandidate → Bool
candidate_before a b =
    if bytes_eq a.role b.role then bytes_lt a.label b.label else bytes_lt a.role b.role

unfoldable pub insert_candidate : RawCandidate → List RawCandidate → List RawCandidate
unfolding candidate_before
insert_candidate c [] = c ∷ []
insert_candidate c (d ∷ rest) =
    let later = insert_candidate c rest in if candidate_before d c then d ∷ later else c ∷ d ∷ rest

-- sort.Slice(raw.Candidates, ...); of two with the same role and label the second is refused.
unfoldable pub sort_candidates : List RawCandidate → List RawCandidate
unfolding insert_candidate candidate_before
sort_candidates [] = []
sort_candidates (c ∷ rest) = insert_candidate c (sort_candidates rest)

-- `reducedLocators` by role and label.
unfoldable pub same_locator : Candidate → Candidate → Bool
same_locator a b = bytes_eq a.role b.role && bytes_eq a.label b.label

module _ (lib : Library) where
  unfoldable pub candidate_id : ℕ → Bytes → Bytes → ℕ → Bytes
  candidate_id generation role label index =
      bytes "candidate-" ++ lib.candidate_digest generation role label index

  -- The checks on the raw candidate itself.
  unfoldable pub raw_ok : ℤ → RawCandidate → Bool
  raw_ok max_candidates c =
      leb (length c.label) 4096
      && lib.valid_utf8 c.label
      && is_portable_role c.role
      && leb_ℤ (pos 1) c.matches
      && leb_ℤ c.matches max_candidates

  -- Control metadata is kept under the typed protocols, for a candidate that can be promoted.
  unfoldable pub keep_control : Protocol → Candidate → Option ControlMetadata → Option Candidate
  keep_control protocol c none = some c
  keep_control protocol c (some control) =
      if is_typed protocol && promotable_candidate lib c
      then (if validate_control_metadata lib control
          then some (record c { control = some control })
          else none)
      else some c

  unfoldable pub keep_verification :
      Protocol → List Bytes → Candidate → Option VerificationObservation → Option Candidate
  keep_verification protocol origins c none = some c
  keep_verification protocol origins c (some v) =
      if is_v4 protocol
      then (if validate_verification_observation lib v origins
          then some (record c { verification = some v })
          else none)
      else some c

  unfoldable pub plain_candidate : ℕ → ℕ → RawCandidate → Candidate
  unfolding candidate_id
  plain_candidate generation index raw =
      let label = (reduce_accessibility_label lib raw.label).value in
      record {
        verification = none;
        id = candidate_id generation raw.role label index;
        role = raw.role;
        label = label;
        matches = raw.matches;
        control = none;
      }

  -- One candidate; `none` is an error. `done` holds the earlier ones.
  unfoldable pub reduce_candidate :
      Server → ℕ → List Candidate → ℕ → RawCandidate → Option Candidate
  unfolding raw_ok plain_candidate keep_control keep_verification
  reduce_candidate s generation earlier index raw =
      let c = plain_candidate generation index raw in
      if not (raw_ok s.bounds.max_candidates raw)
        || not (safe_candidate_label lib c.label)
        || any (same_locator c) earlier
      then none
      else elim (keep_control s.protocol c raw.control) [
        | none ↦ none
        | some c' ↦ keep_verification s.protocol s.origins c' raw.verification
      ]

  -- The loop over the sorted candidates, the newest first in `earlier`.
  unfoldable pub reduce_candidates :
      Server → ℕ → List Candidate → ℕ → List RawCandidate → Option (List Candidate)
  reduce_candidates s generation earlier index [] = some []
  reduce_candidates s generation earlier index (raw ∷ rest) =
      elim (reduce_candidate s generation earlier index raw) [
        | none ↦ none
        | some c ↦ elim (reduce_candidates s generation (c ∷ earlier) (suc index) rest) [
          | none ↦ none
          | some later ↦ some (c ∷ later)
        ]
      ]

-- The loop over the diagnostics: the codes of this observation, and those of the session.
unfoldable pub merge_diagnostics :
    List Bytes → List Bytes → List Bytes → Option (List Bytes) × List Bytes
merge_diagnostics current all_codes [] = (some current, all_codes)
merge_diagnostics current all_codes (code ∷ rest) =
    let again = merge_diagnostics current all_codes rest in
    let known = merge_diagnostics (current ++ code ∷ []) all_codes rest in
    let added = merge_diagnostics (current ++ code ∷ []) (all_codes ++ code ∷ []) rest in
    if not (valid_diagnostic code)
    then (none, all_codes)
    else if member code current
    then again
    else if member code all_codes
    then known
    else if leb max_unique_diagnostics (length all_codes)
    then (none, all_codes)
    else added

-- records[id] = candidateRecord{...} for each candidate
unfoldable pub add_records :
    ℕ → List (Bytes × CandidateRecord) → List Candidate → List (Bytes × CandidateRecord)
add_records generation records [] = records
add_records generation records (c ∷ rest) =
    add_records generation (put c.id (record { protocol = c; generation = generation }) records)
      rest

unfoldable pub candidate_records : ℕ → List Candidate → List (Bytes × CandidateRecord)
unfolding add_records
candidate_records generation cs = add_records generation [] cs

module _ (lib : Library) where
  -- The observation that is sent, of the reduced candidates and the codes of this observation.
  abbrev pub reduced : ℕ → Bytes → Bytes → List Candidate → List Bytes → Observation
  reduced generation origin path cs codes = record {
    generation = generation;
    origin = origin;
    path = path;
    candidates = cs;
    diagnostics = sort_strings codes;
  }

  -- What the outcome of the merge makes of the observation and of the session.
  abbrev pub with_codes :
      RawObservation
      → Bytes
      → List Candidate
      → Server
      → Option (List Bytes) × List Bytes
      → Option Observation × Server
  with_codes raw origin cs s (none, all_codes) = (none, record s { diagnostics = all_codes })
  with_codes raw origin cs s (some current, all_codes) = (
    some (reduced s.generation origin raw.path cs current),
    record s { diagnostics = sort_strings all_codes },
  )

  -- The part after the candidates: the codes of this session change even where it fails.
  unfoldable pub reduce_codes :
      RawObservation → Bytes → List Candidate → Server → Option Observation × Server
  reduce_codes raw origin cs s =
      with_codes raw origin cs s (merge_diagnostics [] s.diagnostics raw.diagnostics)

  -- The part after the checks on the whole: the generation is counted even where it fails.
  unfoldable pub reduce_checked : RawObservation → Bytes → Server → Option Observation × Server
  reduce_checked raw origin s =
      let s' = record s { generation = s.generation + 1 } in
      elim (reduce_candidates lib s' s'.generation [] 0 (sort_candidates raw.candidates)) [
        | none ↦ (none, s')
        | some cs ↦ reduce_codes raw origin cs s'
      ]

  -- The records of the source are `candidate_records` of the observation's generation and candidates.
  unfoldable pub reduce_observation : RawObservation → Server → Option Observation × Server
  reduce_observation raw s = elim (exact_origin lib raw.origin) [
    | none ↦ (none, s)
    | some origin ↦
        if not (member origin s.origins)
          || not (validate_path lib raw.path)
          || ltb_ℤ s.bounds.max_candidates (pos (length raw.candidates))
          || ltb max_unique_diagnostics (length raw.diagnostics)
        then (none, s)
        else reduce_checked raw origin s
  ]
