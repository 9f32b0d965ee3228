-- ===== src/Registration/Types.antt =====
-- The wire and state types of registrationauthorsession (protocol.go, inputs.go, verification.go)
-- and the fields that the code reads of the UWS registration profile.
use browsertools.Prelude.{ℕ, ℤ, Bool, true, false, Option, List, Bytes, bytes_eq}

-- The four protocol names, and any other string.
pub data Protocol : Type 0 where
  v1 v2 v3 v4 : Protocol
  other_protocol : Bytes → Protocol

unfoldable pub protocol_eq : Protocol → Protocol → Bool
protocol_eq v1 v1 = true
protocol_eq v2 v2 = true
protocol_eq v3 v3 = true
protocol_eq v4 v4 = true
protocol_eq (other_protocol a) (other_protocol b) = bytes_eq a b
protocol_eq _ _ = false

abbrev pub is_v4 : Protocol → Bool
is_v4 v4 = true
is_v4 _ = false

-- protocol == ProtocolV3 || protocol == ProtocolV4
abbrev pub is_typed : Protocol → Bool
is_typed v3 = true
is_typed v4 = true
is_typed _ = false

abbrev pub is_v1 : Protocol → Bool
is_v1 v1 = true
is_v1 _ = false

abbrev pub is_supported : Protocol → Bool
is_supported (other_protocol _) = false
is_supported _ = true

-- The message types that the code names, and any other string.
pub data MessageType : Type 0 where
  start observe navigate review finish close unknown preview approve_verification : MessageType
  other_type : Bytes → MessageType

pub data Phase : Type 0 where
  awaiting_start observing reviewed closed : Phase

pub data Method : Type 0 where
  get head : Method
  other_method : Bytes → Method

-- The terminal diagnostic codes that the session reports.
pub data Code : Type 0 where
  browser_failure canceled clock_unavailable invalid_bounds invalid_candidate invalid_cleanup : Code
  invalid_flow invalid_navigation invalid_observation invalid_origin invalid_profile : Code
  invalid_review invalid_start invalid_state invalid_submit malformed_message : Code
  network_policy observation_limit origin_mismatch protocol_limit protocol_mismatch : Code
  teardown_failure unexpected_eof unknown_message : Code

pub record Bounds : Type 0 where
  pub navigation_timeout_ms : ℤ
  pub total_timeout_ms : ℤ
  pub max_requests : ℤ
  pub max_response_bytes : ℤ
  pub max_observations : ℤ
  pub max_candidates : ℤ

-- A finite float64 is a whole number of units of 2 ^ -1074, so it is given by that number.
pub data Float64 : Type 0 where
  nan inf : Float64
  finite : ℤ → Float64

pub record PublicOption : Type 0 where
  pub value : Bytes
  pub label : Bytes

pub record ControlMetadata : Type 0 where
  pub kind : Bytes
  pub required : Option Bool
  pub min_length : Option ℤ
  pub max_length : Option ℤ
  pub minimum : Option Float64
  pub maximum : Option Float64
  pub options : List PublicOption

pub record PreviewRequest : Type 0 where
  pub candidate_id : Bytes
  pub generation : ℤ
  pub action : Bytes
  pub purpose : Bytes
  pub option : Option Bytes
  pub checked : Option Bool

pub record PreviewRecord : Type 0 where
  pub request : PreviewRequest
  pub next_generation : ℕ

pub record VerificationObservation : Type 0 where
  pub provider : Bytes
  pub activation : Bytes
  pub submission_url : Bytes
  pub widget_binding : Bytes
  pub coverage : Bytes

-- browserregistration.HumanVerification, by the fields that the session reads.
pub record HumanVerification : Type 0 where
  pub provider : Bytes
  pub activation : Bytes
  pub submission_url : Bytes
  pub widget_binding : Bytes
  pub policy : Bytes
  pub max_requests : ℤ
  pub max_response_bytes : ℤ
  pub timeout_ms : ℤ

pub record RawCandidate : Type 0 where
  pub verification : Option VerificationObservation
  pub role : Bytes
  pub label : Bytes
  pub matches : ℤ
  pub control : Option ControlMetadata

pub record RawObservation : Type 0 where
  pub origin : Bytes
  pub path : Bytes
  pub candidates : List RawCandidate
  pub diagnostics : List Bytes

pub record Candidate : Type 0 where
  pub verification : Option VerificationObservation
  pub id : Bytes
  pub role : Bytes
  pub label : Bytes
  pub matches : ℤ
  pub control : Option ControlMetadata

pub record CandidateRecord : Type 0 where
  pub protocol : Candidate
  pub generation : ℕ

pub record Observation : Type 0 where
  pub generation : ℕ
  pub origin : Bytes
  pub path : Bytes
  pub candidates : List Candidate
  pub diagnostics : List Bytes

pub record NetworkSummary : Type 0 where
  pub provider_requests : ℤ
  pub provider_post_requests : ℤ
  pub provider_response_bytes : ℤ
  pub requests : ℤ
  pub get_requests : ℤ
  pub head_requests : ℤ

pub record ReviewedCandidate : Type 0 where
  pub id : Bytes
  pub generation : ℕ
  pub role : Bytes
  pub label : Bytes
  pub matches : ℤ
