-- ===== src/AuthorSession/Server.antt =====
-- The state of the session server (`server` of authorsession/session.go), the events that a session
-- makes visible, the backend that answers its calls, and what the session takes from other code.
use browsertools.Prelude.{
  ℕ, ℤ, pos, Bool, false, Option, none, List, [], ◌∷◌, ◌++◌, ◌+◌, ◌/◌, ◌%◌, Bytes, bytes,
}
use browsertools.Library.{Library}
use browsertools.AuthorUrl.{UrlLibrary}
use browsertools.Machine
use browsertools.AuthorSession.Types.{
  Phase, awaiting_start, Code, Bounds, Contexts, GoalProof, GoalPredicate, TraceStep,
  OutputSelection, RawObservation, BrowserAction, Execution, CandidateRecord, ClientMessage,
  ServerMessage, StartFields, PendingApproval, PendingHumanInput, BuildRequest,
}

pub record AuthorLibrary : Type 0 where
  pub base : Library
  pub urls : UrlLibrary
  -- the digest in candidateID, of generation, context, role, label and index
  pub candidate_digest : ℕ → Bytes → Bytes → Bytes → ℕ → Bytes
  -- hex.EncodeToString of SHA-256
  pub sha256_hex : Bytes → Bytes
  -- filepath.Join of the private root and a name
  pub in_private_root : Bytes → Bytes
  -- authorresult.Build and MarshalDeterministic; `none` is an error of either
  pub build : BuildRequest → Option Bytes

pub record BrowserRequest : Type 0 where
  pub url : Bytes
  pub approved_origins : List Bytes
  pub navigation_timeout_ms : ℤ
  pub total_timeout_ms : ℤ
  pub max_requests : ℤ
  pub max_response_bytes : ℤ
  pub max_candidates : ℤ

-- What a session does to its environment, and the messages that it takes up; a list of events has
-- the newest one first.
pub data Event : Type 0 where
  heard : ClientMessage → Event
  call_open : BrowserRequest → Event
  call_observe : Bytes → Event
  call_focus : BrowserAction → Event
  call_execute : BrowserAction → Event
  call_add_origin : Bytes → Event
  call_close : Event
  stored : Bytes → Bytes → Event
  wrote : ServerMessage → Event

-- The browser, the context, the clock, the disk and the output: each answer may depend on all that
-- happened before, the call that it answers included.
pub record Backend : Type 0 where
  -- whether Open returned a session and no error, where one that returns neither counts as an error
  -- here, while the code goes on without a session; Focus, AddOrigin, Close: no error
  pub opened : List Event → Bool
  pub focused : List Event → Bool
  pub origin_added : List Event → Bool
  pub closed_well : List Event → Bool
  -- Observe and Execute; `none` is an error
  pub observed : List Event → Option RawObservation
  pub executed : List Event → Option Execution
  -- the nanoseconds that the last call took
  pub elapsed : List Event → ℕ
  -- whether the context is done
  pub canceled : List Event → Bool
  -- the clock, in nanoseconds since the zero time
  pub clock : List Event → ℕ
  -- whether the last message was written, and the artifact was stored
  pub written : List Event → Bool
  pub kept : List Event → Bool
  -- whether the private root may be used
  pub private_root_ok : Bool

-- `diagnosticSet` is the set of `diagnostics`; `session` is whether there is a live one.
pub record Server : Type 0 where
  pub session : Bool
  pub started : Bool
  pub closed : Bool
  pub phase : Phase
  pub start : StartFields
  pub bounds : Bounds
  pub origins : List Bytes
  pub contexts : Contexts
  pub candidates : List (Bytes × CandidateRecord)
  pub steps : List TraceStep
  pub diagnostics : List Bytes
  pub observations : ℕ
  pub approval_counter : ℕ
  pub pending : Option PendingApproval
  pub pending_input : Option PendingHumanInput
  pub goal_proof : Option GoalProof
  pub auth_proof : Option GoalProof
  pub human_confirmed : Bool
  pub output_selections : List OutputSelection
  pub observed_at : ℕ
  pub active_remaining : ℕ
  pub trace : List Event

abbrev zero_bounds : Bounds
zero_bounds = record {
  navigation_timeout_ms = pos 0;
  total_timeout_ms = pos 0;
  max_requests = pos 0;
  max_response_bytes = pos 0;
  max_observations = pos 0;
  max_candidates = pos 0;
  max_outputs = pos 0;
}

abbrev zero_predicate : GoalPredicate
zero_predicate = record { origin = []; path = []; context = []; role = []; label = [] }

abbrev zero_start : StartFields
zero_start = record {
  title = [];
  goal = [];
  url = [];
  dashboard_url = [];
  goal_predicate = zero_predicate;
}

-- The server that Serve makes.
unfoldable pub new_server : Server
new_server = record {
  session = false;
  started = false;
  closed = false;
  phase = awaiting_start;
  start = zero_start;
  bounds = zero_bounds;
  origins = [];
  contexts = [];
  candidates = [];
  steps = [];
  diagnostics = [];
  observations = 0;
  approval_counter = 0;
  pending = none;
  pending_input = none;
  goal_proof = none;
  auth_proof = none;
  human_confirmed = false;
  output_selections = [];
  observed_at = 0;
  active_remaining = 0;
  trace = [];
}

-- A failure of a handler; the session's code names the diagnostic.
pub data Failure : Type 0 where
  session_failed : Code → Failure
  output_failed : Failure
  teardown_failed : Failure
  already_closed : Failure
  unusable_root : Failure

abbrev pub Action : Type 0 → Type 0
Action A = Machine.Action Failure Server A

digit : ℕ → ℕ
digit n = 48 + n % 10

-- fmt.Sprintf("approval-%04d", n) for n up to 9999
unfoldable pub approval_id : ℕ → Bytes
unfolding digit
approval_id n =
    bytes "approval-" ++ (digit (n / 1000) ∷ digit (n / 100) ∷ digit (n / 10) ∷ digit n ∷ [])
