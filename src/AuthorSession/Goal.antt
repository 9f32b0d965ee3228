-- ===== src/AuthorSession/Goal.antt =====
-- matchGoal and authenticationSuccessProof of authorsession/session.go.
pub mod Proofs
pub mod Success
use browsertools.Prelude.{
  ℕ, ℤ, pos, ◌+ℤ◌, eq_ℤ, Bool, ◌||◌, ◌&&◌, not, Option, none, some, List, [], ◌∷◌, Bytes, bytes,
  bytes_eq, is_empty, ltb, if◌then◌else◌,
}
use browsertools.Label.{is_placeholder}
use browsertools.AuthorSession.Types.{
  Candidate, Observation, GoalPredicate, GoalProof, normalized_context,
}

abbrev pub fits : GoalPredicate → Candidate → Bool
fits p c = bytes_eq c.role p.role && (is_empty p.label || bytes_eq c.label p.label)

unfoldable pub fitting : GoalPredicate → List Candidate → List Candidate
fitting p [] = []
fitting p (c ∷ rest) = let later = fitting p rest in if fits p c then c ∷ later else later

abbrev pub proof_of : Observation → Candidate → GoalProof
proof_of o c = record {
  origin = o.origin;
  path = o.path;
  context = o.context;
  role = c.role;
  label = c.label;
  matches = pos 1;
}

abbrev pub same_place : GoalPredicate → Observation → Bool
same_place p o =
    bytes_eq p.origin o.origin
    && bytes_eq p.path o.path
    && bytes_eq (normalized_context p.context) o.context

-- The proof of the only fitting candidate.
unfoldable pub only_match : Observation → List Candidate → Option GoalProof
only_match o [] = none
only_match o (c ∷ []) = if eq_ℤ c.matches (pos 1) then some (proof_of o c) else none
only_match o (c ∷ d ∷ rest) = none

unfoldable pub match_goal : GoalPredicate → Observation → Option GoalProof
unfolding fitting only_match
match_goal p o = if same_place p o then only_match o (fitting p o.candidates) else none

-- `priority`, with the other roles after it.
unfoldable pub priority : Bytes → ℕ
priority role =
    if bytes_eq role (bytes "heading")
    then 0
    else if bytes_eq role (bytes "region")
    then 1
    else if bytes_eq role (bytes "status")
    then 2
    else if bytes_eq role (bytes "table")
    then 3
    else 4

unfoldable pub insert_by_priority : Candidate → List Candidate → List Candidate
insert_by_priority c [] = c ∷ []
insert_by_priority c (d ∷ rest) =
    let later = insert_by_priority c rest in
    if ltb (priority d.role) (priority c.role) then d ∷ later else c ∷ d ∷ rest

-- sort.SliceStable(candidates, ...)
unfoldable pub sort_by_priority : List Candidate → List Candidate
unfolding insert_by_priority
sort_by_priority [] = []
sort_by_priority (c ∷ rest) = insert_by_priority c (sort_by_priority rest)

-- The sum of the matches of the candidates with the role and label of `c`.
unfoldable pub matches_like : Candidate → List Candidate → ℤ
matches_like c [] = pos 0
matches_like c (d ∷ rest) =
    let later = matches_like c rest in
    if bytes_eq d.role c.role && bytes_eq d.label c.label then d.matches +ℤ later else later

-- The loop over the sorted candidates.
unfoldable pub first_success : Observation → List Candidate → Option GoalProof
first_success o [] = none
first_success o (c ∷ rest) =
    let later = first_success o rest in
    if not (eq_ℤ c.matches (pos 1)) || is_placeholder c.label
    then later
    else if eq_ℤ (matches_like c o.candidates) (pos 1)
    then some (proof_of o c)
    else none

unfoldable pub authentication_success_proof : Observation → GoalPredicate → Option GoalProof
unfolding first_success
authentication_success_proof o goal = elim (match_goal goal o) [
  | some p ↦ some p
  | none ↦ first_success o (sort_by_priority o.candidates)
]
