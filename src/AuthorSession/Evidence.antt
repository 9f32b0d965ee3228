-- ===== src/AuthorSession/Evidence.antt =====
-- What the artifacts that an author session stores are built from, and the state that goes with it.
pub mod Primitives
pub mod Observing
pub mod Executing
pub mod Selecting
pub mod Completing
pub mod Finishing
pub mod Whole
use browsertools.Prelude.{
  ◌≡◌, ℤ, pos, leb_ℤ, eq_ℤ, Bool, true, false, ◌&&◌, ◌||◌, not, Option, none, some, List, [], ◌∷◌,
  Bytes, bytes, bytes_eq, is_empty, any, all, member,
}
use browsertools.AuthorSession.Types.{
  Observation, observation, MessageType, Phase, GoalPredicate, GoalProof, TraceStep,
  OutputSelection, BuildRequest, normalized_context,
}
use browsertools.AuthorSession.Vocabulary.{output_types, output_locator_modes}
use browsertools.AuthorSession.Server.{
  AuthorLibrary, Server, Event, stored, heard, call_execute, wrote, Failure,
}

-- No more POST requests were observed than the budget allowed.
abbrev pub step_ok : TraceStep → Bool
step_ok x = leb_ℤ (pos 0) x.post_observed && leb_ℤ x.post_observed x.post_budget

-- The proof is of the place and the role that the predicate names, and of its label if it has one.
abbrev pub proves : GoalPredicate → GoalProof → Bool
proves p g =
    bytes_eq p.origin g.origin
    && bytes_eq p.path g.path
    && bytes_eq (normalized_context p.context) g.context
    && bytes_eq g.role p.role
    && (is_empty p.label || bytes_eq g.label p.label)

-- The proof is of the page that was observed, and of a candidate there that matches once.
abbrev pub is_of : GoalProof → Observation → Bool
is_of g o =
    bytes_eq g.origin o.origin
    && bytes_eq g.path o.path
    && bytes_eq g.context o.context
    && any (λ c. bytes_eq c.role g.role && bytes_eq c.label g.label && eq_ℤ c.matches (pos 1))
        o.candidates

-- The goal is proved by what was observed.
abbrev pub proved_by : GoalPredicate → GoalProof → Option Observation → Bool
proved_by p g none = false
proved_by p g (some o) = proves p g && is_of g o

abbrev pub goal_ok : GoalPredicate → Option GoalProof → Option Observation → Bool
goal_ok p none o = true
goal_ok p (some g) o = proved_by p g o

-- The output is of one element, of a known type, and located in one of the two ways.
abbrev pub selection_ok : OutputSelection → Bool
selection_ok x =
    eq_ℤ x.matches (pos 1)
    && member x.type output_types
    && member x.locator_mode output_locator_modes
    && (not (bytes_eq x.locator_mode (bytes "unique_role")) || eq_ℤ x.role_matches (pos 1))

-- Each step is within its budget, the goal is proved by what was observed, and each output is of one
-- element.
abbrev pub is_supported : Option Observation → BuildRequest → Bool
is_supported o r =
    all step_ok r.trace
    && proved_by r.goal_predicate r.goal_proof o
    && all selection_ok r.output_selections

-- The observation that the client was shown last, if no action was executed since.
abbrev pub last_seen : List Event → Option Observation
last_seen [] = none
last_seen (wrote (observation o) ∷ t) = some o
last_seen (call_execute act ∷ t) = none
last_seen (_ ∷ t) = last_seen t

abbrev pub is_completion : MessageType → Bool
is_completion MessageType.human_complete = true
is_completion _ = false

-- A person confirmed the completion, and no action was executed since.
abbrev pub is_confirmed : List Event → Bool
is_confirmed [] = false
is_confirmed (heard m ∷ t) = is_completion m.type && m.confirmed || is_confirmed t
is_confirmed (call_execute act ∷ t) = false
is_confirmed (_ ∷ t) = is_confirmed t

abbrev pub is_awaiting : Phase → Bool
is_awaiting Phase.awaiting_start = true
is_awaiting _ = false

module _ (a : AuthorLibrary) where
  -- The contents were built from such evidence.
  abbrev pub Backing : Option Observation → Bytes → Type 0
  Backing o contents = (r : BuildRequest) × (a.build r ≡ some contents) × (is_supported o r ≡ true)

  -- All that was stored was built from such evidence, and a person had confirmed it.
  abbrev pub Backed : List Event → Type 0
  Backed [] = Unit
  Backed (stored path contents ∷ t) =
      Backing (last_seen t) contents × (is_confirmed t ≡ true) × Backed t
  Backed (_ ∷ t) = Backed t

  pub record IsEvidence (t : List Event) (steps : List TraceStep) (p : GoalPredicate)
      (g : Option GoalProof) (outputs : List OutputSelection) (confirmed : Bool) : Type 0 where
    pub backed : Backed t
    pub within : all step_ok steps ≡ true
    pub goal : goal_ok p g (last_seen t) ≡ true
    pub selected : all selection_ok outputs ≡ true
    pub human : confirmed ≡ true → is_confirmed t ≡ true

  abbrev pub Live : Server → Type 0
  Live s =
      IsEvidence s.trace s.steps s.start.goal_predicate s.goal_proof s.output_selections
        s.human_confirmed
      × (s.started ≡ true)

  -- The state between two messages: nothing is proved before the session is started.
  abbrev pub Kept : Server → Type 0
  Kept s =
      IsEvidence s.trace s.steps s.start.goal_predicate s.goal_proof s.output_selections
        s.human_confirmed
      × (s.started ≡ false → s.goal_proof ≡ none)
      × (is_awaiting s.phase ≡ false → s.started ≡ true)

  abbrev pub Lost : Failure → Server → Type 0
  Lost e s = Backed s.trace
