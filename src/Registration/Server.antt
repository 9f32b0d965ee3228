-- ===== src/Registration/Server.antt =====
-- The state of the session server (`server` of registrationauthorsession/session.go), the events
-- that a session makes visible, and the backend that answers its calls.
use browsertools.Prelude.{
  ℕ, ℤ, Bool, false, Option, none, some, List, [], ◌∷◌, Bytes, bytes_eq, if◌then◌else◌,
}
use browsertools.Registration.Types.{
  Protocol, Phase, awaiting_start, Method, Code, Bounds, PreviewRequest, PreviewRecord,
  HumanVerification, RawObservation, Candidate, CandidateRecord, Observation, NetworkSummary,
  ReviewedCandidate,
}
use browsertools.Registration.Profile.{Profile, ServerMessage}
use browsertools.Registration.Bounds.{zero_bounds}

pub record BrowserRequest : Type 0 where
  pub protocol : Protocol
  pub url : Bytes
  pub approved_origins : List Bytes
  pub navigation_timeout_ms : ℤ
  pub total_timeout_ms : ℤ
  pub max_requests : ℤ
  pub max_response_bytes : ℤ
  pub max_candidates : ℤ

-- What a session does to its environment, in order; a list of events has the newest one first.
pub data Event : Type 0 where
  call_open : BrowserRequest → Event
  call_observe : Event
  call_navigate : Method → Bytes → Event
  call_preview : Candidate → PreviewRequest → Event
  call_approve : HumanVerification → Event
  call_close : ℤ → Event
  wrote : ServerMessage → Event

-- Which further interfaces a live session implements.
pub record Abilities : Type 0 where
  pub previews : Bool
  pub verifies : Bool

-- The browser, the context, the clock and the output: each answer may depend on all that happened
-- before, the call that it answers included.
pub record Backend : Type 0 where
  -- the session that Open returned, nil or not, and whether its error was nil
  pub opened_session : List Event → Option Abilities
  pub opened_well : List Event → Bool
  -- Observe; `none` is an error
  pub observed : List Event → Option RawObservation
  -- whether Navigate, Preview and ApproveVerification returned no error
  pub navigated : List Event → Bool
  pub previewed : List Event → Bool
  pub approved : List Event → Bool
  -- Close; `none` is an error
  pub closed_with : List Event → Option NetworkSummary
  -- the nanoseconds that the last call took
  pub elapsed : List Event → ℕ
  -- whether the context is done
  pub canceled : List Event → Bool
  -- the clock, in nanoseconds since the zero time
  pub clock : List Event → ℕ
  -- whether the last message was written whole
  pub written : List Event → Bool

pub record RegistrationReview : Type 0 where
  pub profile : Profile
  pub profile_bytes : Bytes
  pub candidates : List ReviewedCandidate
  pub flow : Bytes
  pub cleanup : Bytes
  pub step_candidates : List Bytes

-- `originSet` is the set of `origins` and `diagnosticSet` that of `diagnostics`: one list each.
pub record Server : Type 0 where
  pub protocol : Protocol
  pub phase : Phase
  pub closed : Bool
  pub session : Option Abilities
  pub profile_id : Bytes
  pub bounds : Bounds
  pub origins : List Bytes
  pub candidates : List (Bytes × CandidateRecord)
  pub generation : ℕ
  pub observations : ℕ
  pub diagnostics : List Bytes
  pub observed_at : ℕ
  pub reviewed_profile : Option RegistrationReview
  pub active_remaining : ℕ
  pub history : List Observation
  pub previews : List PreviewRecord
  pub verification_authority : Option HumanVerification
  pub trace : List Event

-- The server that Serve makes.
unfoldable pub new_server : Protocol → Server
new_server protocol = record {
  protocol = protocol;
  phase = awaiting_start;
  closed = false;
  session = none;
  profile_id = [];
  bounds = zero_bounds;
  origins = [];
  candidates = [];
  generation = 0;
  observations = 0;
  diagnostics = [];
  observed_at = 0;
  reviewed_profile = none;
  active_remaining = 0;
  history = [];
  previews = [];
  verification_authority = none;
  trace = [];
}

-- A failure of a handler; the session's code names the diagnostic.
pub data Failure : Type 0 where
  session_failed : Code → Failure
  output_failed : Failure
  already_closed : Failure
  unsupported_protocol : Failure

pub data Result {ℓ} (A : Type ℓ) : Type ℓ where
  ok : A → Result A
  err : Failure → Result A

-- A handler's body: it changes the server and returns a value or an error.
abbrev pub Action : Type 0 → Type 0
Action A = Server → Result A × Server

abbrev pub done : Action (Unit {0})
done s = (ok tt, s)

abbrev pub pure : {A : Type 0} → A → Action A
pure a s = (ok a, s)

abbrev pub raise : {A : Type 0} → Failure → Action A
raise e s = (err e, s)

-- Run the rest on a value, and pass an error on.
abbrev pub continue_with : {A B : Type 0} → (A → Action B) → Result A × Server → Result B × Server
continue_with f (ok a, s) = f a s
continue_with f (err e, s) = (err e, s)

infixl 5 ◌>>=◌ ◌>>◌
unfoldable pub ◌>>=◌ : {A B : Type 0} → Action A → (A → Action B) → Action B
◌>>=◌ m f s = continue_with f (m s)

unfoldable pub ◌>>◌ : {A B : Type 0} → Action A → Action B → Action B
m >> k = m >>= λ _. k

-- The value of a key in a map, and its update.
unfoldable pub lookup : {V : Type 0} → Bytes → List (Bytes × V) → Option V
lookup k [] = none
lookup k ((j, v) ∷ rest) = if bytes_eq j k then some v else lookup k rest

unfoldable pub put : {V : Type 0} → Bytes → V → List (Bytes × V) → List (Bytes × V)
put k v [] = (k, v) ∷ []
put k v ((j, w) ∷ rest) =
    let later = put k v rest in if bytes_eq j k then (k, v) ∷ rest else (j, w) ∷ later
