-- ===== src/AuthorSession/Types.antt =====
-- The wire and state types of authorsession/session.go, and those of authorresult/result.go that
-- the session fills.
use browsertools.Prelude.{ℕ, ℤ, Bool, Option, List, [], Bytes, bytes}

abbrev pub protocol_name : Bytes
protocol_name = bytes "browsertools.author-session.v2"

-- The message types that the code names, and any other string.
pub data MessageType : Type 0 where
  start observe focus_human_input human_input_complete execute approve deny : MessageType
  human_complete finish close unknown : MessageType
  other_type : Bytes → MessageType

-- The phases; `closed` is only reported, after a close without a result.
pub data Phase : Type 0 where
  awaiting_start authentication human_input exploration completed closed : Phase

-- The action names: those that the code names, and any other string.
pub data ActionKind : Type 0 where
  navigate_get navigate click focus_human_input : ActionKind
  other_action : Bytes → ActionKind

pub data ApprovalKind : Type 0 where
  origin origin_action action : ApprovalKind

-- The diagnostic codes that the session reports.
pub data Code : Type 0 where
  ambiguous_target approval_denied approval_limit approval_mismatch approval_pending : Code
  artifact_write browser_failure canceled challenge_kind_invalid clock_unavailable : Code
  completion_denied human_input_mismatch invalid_action invalid_candidate invalid_context : Code
  invalid_observation invalid_origin invalid_start invalid_state malformed_message : Code
  observation_limit output_selection_invalid post_budget protocol_limit protocol_mismatch : Code
  result_invalid teardown_failure unexpected_eof unknown_context unknown_message : Code

-- authorresult.Bounds
pub record Bounds : Type 0 where
  pub navigation_timeout_ms : ℤ
  pub total_timeout_ms : ℤ
  pub max_requests : ℤ
  pub max_response_bytes : ℤ
  pub max_observations : ℤ
  pub max_candidates : ℤ
  pub max_outputs : ℤ

-- authorresult.Context
pub record Context : Type 0 where
  pub kind : Bytes
  pub parent : Bytes
  pub origin : Bytes
  pub path : Bytes
  pub name : Bytes

abbrev pub Contexts : Type 0
Contexts = List (Bytes × Context)

pub record GoalPredicate : Type 0 where
  pub origin : Bytes
  pub path : Bytes
  pub context : Bytes
  pub role : Bytes
  pub label : Bytes

pub record GoalProof : Type 0 where
  pub origin : Bytes
  pub path : Bytes
  pub context : Bytes
  pub role : Bytes
  pub label : Bytes
  pub matches : ℤ

-- authorresult.TraceStep
pub record TraceStep : Type 0 where
  pub kind : ActionKind
  pub phase : Phase
  pub candidate_id : Bytes
  pub context : Bytes
  pub role : Bytes
  pub label : Bytes
  pub input_kind : Bytes
  pub challenge_kind : Bytes
  pub url : Bytes
  pub post_budget : ℤ
  pub post_observed : ℤ
  pub opens_context : Bytes

pub record OutputSelection : Type 0 where
  pub candidate_id : Bytes
  pub key : Bytes
  pub type : Bytes
  pub locator_mode : Bytes
  pub observation : ℕ
  pub context : Bytes
  pub role : Bytes
  pub name : Bytes
  pub matches : ℤ
  pub role_matches : ℤ

pub record OutputRequest : Type 0 where
  pub candidate_id : Bytes
  pub key : Bytes
  pub type : Bytes
  pub locator_mode : Bytes

pub record RawCandidate : Type 0 where
  pub backend_id : Bytes
  pub role : Bytes
  pub label : Bytes
  pub input_kind : Bytes
  pub challenge_kinds : List Bytes
  pub target_origin : Bytes
  pub matches : ℤ

pub record RawObservation : Type 0 where
  pub origin : Bytes
  pub path : Bytes
  pub context : Bytes
  pub candidates : List RawCandidate
  pub contexts : Contexts
  pub diagnostics : List Bytes

pub record BrowserAction : Type 0 where
  pub kind : ActionKind
  pub backend_id : Bytes
  pub url : Bytes
  pub context : Bytes
  pub post_budget : ℤ
  pub role : Bytes
  pub label : Bytes
  pub input_kind : Bytes
  pub target_origin : Bytes
  pub matches : ℤ

-- Execution: the POST requests, and the id and facts of the context that was opened.
pub record Execution : Type 0 where
  pub post_observed : ℤ
  pub opened_id : Bytes
  pub opened : Option Context

pub record Candidate : Type 0 where
  pub id : Bytes
  pub role : Bytes
  pub label : Bytes
  pub matches : ℤ

pub record CandidateRecord : Type 0 where
  pub protocol : Candidate
  pub raw : RawCandidate
  pub context : Bytes
  pub label : Bytes

pub record Observation : Type 0 where
  pub origin : Bytes
  pub path : Bytes
  pub context : Bytes
  pub contexts : Contexts
  pub candidates : List Candidate
  pub diagnostics : List Bytes

pub record ClientMessage : Type 0 where
  pub protocol : Bytes
  pub type : MessageType
  pub title : Bytes
  pub url : Bytes
  pub dashboard_url : Bytes
  pub goal : Bytes
  pub origins : List Bytes
  pub goal_predicate : Option GoalPredicate
  pub bounds : Option Bounds
  pub context : Bytes
  pub candidate_id : Bytes
  pub action : ActionKind
  pub post_budget : ℤ
  pub approval_id : Bytes
  pub challenge_kind : Bytes
  pub outputs : Option (List OutputRequest)
  pub confirmed : Bool

pub record Approval : Type 0 where
  pub id : Bytes
  pub kind : ApprovalKind
  pub origin : Bytes
  pub action : ActionKind
  pub candidate_id : Bytes
  pub post_budget : ℤ

pub record Checkpoint : Type 0 where
  pub kind : Bytes
  pub candidate_id : Bytes
  pub input_kind : Bytes
  pub challenge_kinds : List Bytes

-- ServerMessage, by its type: the fields that each message carries.
pub data ServerMessage : Type 0 where
  hello : List Bytes → ServerMessage
  state : Phase → Bytes → Option Bounds → ServerMessage
  observation : Observation → ServerMessage
  approval_required : Approval → ServerMessage
  human_checkpoint : Checkpoint → ServerMessage
  diagnostic : Code → ServerMessage
  result : Bytes → Bytes → ServerMessage

-- The start message after it was validated, by the fields that later code reads.
pub record StartFields : Type 0 where
  pub title : Bytes
  pub goal : Bytes
  pub url : Bytes
  pub dashboard_url : Bytes
  pub goal_predicate : GoalPredicate

pub record PendingApproval : Type 0 where
  pub id : Bytes
  pub kind : ApprovalKind
  pub message : ClientMessage
  pub origin : Bytes

pub record PendingHumanInput : Type 0 where
  pub candidate_id : Bytes
  pub record_of : CandidateRecord
  pub phase : Phase
  pub kinds : List Bytes

-- authorresult.BuildRequest
pub record BuildRequest : Type 0 where
  pub observed_at : ℕ
  pub title : Bytes
  pub goal : Bytes
  pub initial_url : Bytes
  pub dashboard_url : Bytes
  pub origins : List Bytes
  pub contexts : Contexts
  pub bounds : Bounds
  pub trace : List TraceStep
  pub goal_predicate : GoalPredicate
  pub goal_proof : GoalProof
  pub output_selections : List OutputSelection
  pub authentication_proof : GoalProof
  pub human_confirmed : Bool
  pub diagnostics : List Bytes

-- normalizedContext: the main context where none is named.
unfoldable pub normalized_context : Bytes → Bytes
normalized_context [] = bytes "main"
normalized_context value = value
