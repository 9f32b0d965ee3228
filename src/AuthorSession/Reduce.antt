-- ===== src/AuthorSession/Reduce.antt =====
-- reduceObservation of authorsession/session.go: what of a raw observation may cross the protocol
-- boundary, and the records by which the client may refer to its candidates.
pub mod Effects
pub mod Shown
use browsertools.Prelude.{
  ℕ, suc, ℤ, pos, Bool, true, false, ◌||◌, ◌&&◌, not, Option, none, some, List, [], ◌∷◌, ◌++◌,
  Bytes, bytes, bytes_eq, bytes_lt, is_empty, is_some, leb, ltb_ℤ, leb_ℤ, length, member,
  if◌then◌else◌,
}
use browsertools.Text.{sort_strings}
use browsertools.Label.{reduce_accessibility_label}
use browsertools.Disclosure.{validate_path}
use browsertools.Registration.Server.{put}
use browsertools.Registration.Reduce.{is_portable_role}
use browsertools.AuthorSession.Types.{
  RawCandidate, RawObservation, Candidate, CandidateRecord, Observation,
}
use browsertools.AuthorSession.Origins.{exact_origin}
use browsertools.AuthorSession.Vocabulary.{is_diagnostic, input_kinds, validate_challenge_kinds}
use browsertools.AuthorSession.Server.{AuthorLibrary, Server}

abbrev pub max_unique_diagnostics : ℕ
max_unique_diagnostics = 256

-- The order of the candidates: by role, by raw label, by backend id.
abbrev candidate_before : RawCandidate → RawCandidate → Bool
candidate_before a b =
    if not (bytes_eq a.role b.role)
    then bytes_lt a.role b.role
    else if not (bytes_eq a.label b.label)
    then bytes_lt a.label b.label
    else bytes_lt a.backend_id b.backend_id

unfoldable pub insert_candidate : RawCandidate → List RawCandidate → List RawCandidate
insert_candidate c [] = c ∷ []
insert_candidate c (d ∷ rest) =
    let later = insert_candidate c rest in if candidate_before d c then d ∷ later else c ∷ d ∷ rest

-- sort.Slice(raw.Candidates, ...), which orders those that compare equal as it pleases; here they
-- keep their order.
unfoldable pub sort_candidates : List RawCandidate → List RawCandidate
unfolding insert_candidate
sort_candidates [] = []
sort_candidates (c ∷ rest) = insert_candidate c (sort_candidates rest)

-- The loop over the diagnostics: whether it ended well, and the codes of the session.
unfoldable pub merge_diagnostics : List Bytes → List Bytes → Bool × List Bytes
merge_diagnostics known [] = (true, known)
merge_diagnostics known (code ∷ rest) =
    let again = merge_diagnostics known rest in
    let added = merge_diagnostics (known ++ code ∷ []) rest in
    if not (is_diagnostic code)
    then (false, known)
    else if member code known
    then again
    else if leb max_unique_diagnostics (length known)
    then (false, known)
    else added

module _ (a : AuthorLibrary) where
  -- The checks on the raw candidate.
  unfoldable pub raw_ok : ℤ → RawCandidate → Bool
  raw_ok max_candidates c =
      not (is_empty c.backend_id)
      && is_portable_role c.role
      && leb_ℤ (pos 1) c.matches
      && leb_ℤ c.matches max_candidates
      && member c.input_kind input_kinds
      && is_some (validate_challenge_kinds c.input_kind c.challenge_kinds)

  unfoldable pub reduced_candidate : ℕ → Bytes → ℕ → RawCandidate → Candidate
  reduced_candidate generation context index raw =
      let label = (reduce_accessibility_label a.base raw.label).value in
      record {
        id = bytes "candidate-" ++ a.candidate_digest generation context raw.role label index;
        role = raw.role;
        label = label;
        matches = raw.matches;
      }

  record_for : Bytes → RawCandidate → Candidate → CandidateRecord
  record_for context raw c = record { protocol = c; raw = raw; context = context; label = c.label }

  -- The loop over the sorted candidates: the reduced ones, and their records by id.
  unfoldable pub reduce_candidates :
      ℤ
      → ℕ
      → Bytes
      → ℕ
      → List (Bytes × CandidateRecord)
      → List RawCandidate
      → Option (List Candidate × List (Bytes × CandidateRecord))
  unfolding raw_ok reduced_candidate record_for
  reduce_candidates max_candidates generation context index records [] = some ([], records)
  reduce_candidates max_candidates generation context index records (raw ∷ rest) =
      let c = reduced_candidate generation context index raw in
      elim (raw_ok max_candidates raw) [
        | false ↦ none
        | true ↦
            elim (reduce_candidates max_candidates generation context (suc index)
              (put c.id (record_for context raw c) records) rest) [
                | none ↦ none
                | some (later, all_records) ↦ some (c ∷ later, all_records)
              ]
      ]

  -- The context of the observation, the requested one where the backend names none.
  abbrev pub context_of : RawObservation → Bytes → Bytes
  context_of raw requested = if is_empty raw.context then requested else raw.context

  -- The part after the checks on the whole; `Contexts` is filled by the caller.
  unfoldable pub reduce_checked :
      RawObservation
      → Bytes
      → Bytes
      → Server
      → Option (Observation × List (Bytes × CandidateRecord)) × Server
  unfolding reduce_candidates merge_diagnostics
  reduce_checked raw origin context s =
      elim (reduce_candidates s.bounds.max_candidates s.observations context 0 []
        (sort_candidates raw.candidates)) [
          | none ↦ (none, s)
          | some (cs, records) ↦
              let (well, codes) = merge_diagnostics s.diagnostics raw.diagnostics in
              (
                if well
                    then some (
                      record {
                        origin = origin;
                        path = raw.path;
                        context = context;
                        contexts = [];
                        candidates = cs;
                        diagnostics = sort_strings raw.diagnostics;
                      },
                      records,
                    )
                    else none,
                record s { diagnostics = codes },
              )
        ]

  unfoldable pub reduce_observation :
      RawObservation
      → Bytes
      → Server
      → Option (Observation × List (Bytes × CandidateRecord)) × Server
  unfolding reduce_checked
  reduce_observation raw requested s = elim (exact_origin a.base a.urls raw.origin) [
    | none ↦ (none, s)
    | some origin ↦
        if member origin s.origins
          && validate_path a.base raw.path
          && bytes_eq (context_of raw requested) requested
          && not (ltb_ℤ s.bounds.max_candidates (pos (length raw.candidates)))
        then reduce_checked raw origin requested s
        else (none, s)
  ]
