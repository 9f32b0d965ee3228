-- ===== src/Registration/Profile.antt =====
-- The fields that the code reads of the UWS registration profile (browserregistration.Profile, a
-- type of a third-party module), and of the messages that carry one.
use browsertools.Prelude.{Option, List, Bytes}
use browsertools.Registration.Types.{
  Protocol, MessageType, Method, Bounds, PreviewRequest, HumanVerification, Phase, Observation,
  Code,
}

pub record Locator : Type 0 where
  pub role : Bytes
  pub name : Bytes
  pub text : Bytes
  pub value : Bytes

-- A step with a locator and the input slot that it reads.
pub record SlotStep : Type 0 where
  pub locator : Locator
  pub slot : Bytes
  pub control : Bytes

-- One macro of a flow: a pointer of the source is an option here.
pub record Step : Type 0 where
  pub navigate : Bytes
  pub type_credential : Option SlotStep
  pub fill_input : Option SlotStep
  pub click : Option Locator
  pub submit : Option Locator
  pub wait_for : Option Locator
  pub human_checkpoint : Option (Option Locator)

pub record Flow : Type 0 where
  pub sequence : List Step
  pub success : Locator
  pub human_verification : Option HumanVerification

-- The name of the schema version, `browserregistration.ProfileName` and its successors.
pub data ProfileName : Type 0 where
  profile_v10 profile_v11 profile_v12 : ProfileName
  other_profile : Bytes → ProfileName

pub record Profile : Type 0 where
  pub profile : ProfileName
  pub observation_kind : Bytes
  pub application_origins : List Bytes
  pub registration_origins : List Bytes
  pub flows : List (Bytes × Flow)
  pub credential_slots : List (Bytes × Bytes)
  pub input_slots : List (Bytes × List Bytes)

pub record ClientMessage : Type 0 where
  pub protocol : Protocol
  pub type : MessageType
  pub profile_id : Bytes
  pub url : Bytes
  pub origins : List Bytes
  pub bounds : Option Bounds
  pub method : Method
  pub profile : Bytes
  pub candidate_ids : List Bytes
  pub flow : Bytes
  pub cleanup_disposition : Bytes
  pub preview : Option PreviewRequest
  pub step_candidates : List Bytes
  pub candidate_id : Bytes
  pub verification : Option HumanVerification

-- The output union; each constructor has the fields that the code sets.
pub data ServerMessage : Type 0 where
  hello : List Bytes → ServerMessage
  state : Phase → Option Bounds → ServerMessage
  observation : Observation → ServerMessage
  diagnostic : Code → ServerMessage
