-- ===== src/Registration/Serve.antt =====
-- The dispatch on a message and the loop of Serve (registrationauthorsession/session.go), with
-- decodeClientMessage and ValidTerminalDiagnostic of protocol.go.
use browsertools.Prelude.{
  Bool, true, false, ◌||◌, ◌&&◌, Option, none, some, List, [], ◌∷◌, ◌++◌, Bytes, bytes, all, member,
  is_some, if◌then◌else◌,
}
use browsertools.Library.{Library}
use browsertools.Registration.Types
use browsertools.Registration.Types.{
  Protocol, protocol_eq, v4, is_v4, is_typed, is_supported, MessageType, Phase, awaiting_start,
  observing, Code, canceled, invalid_state, malformed_message, protocol_limit, protocol_mismatch,
  unexpected_eof, unknown_message,
}
use browsertools.Registration.Profile.{ClientMessage, hello}
use browsertools.Registration.Server.{
  Server, new_server, Backend, Failure, unsupported_protocol, already_closed, Result, ok, err,
  Action, pure, raise, ◌>>=◌, ◌>>◌,
}
use browsertools.Registration.Actions.{write, close_session, fail, require}
use browsertools.Registration.Handlers.{start, observe, navigate, preview, approve_verification}
use browsertools.Registration.Session.{Completion, review, finish, close_without_result}

-- clientFields: the fields of each message, for the types that every protocol knows.
unfoldable pub client_fields : MessageType → Option (List Bytes)
client_fields MessageType.start = some (
    bytes "protocol"
    ∷ bytes "type"
    ∷ bytes "profileId"
    ∷ bytes "url"
    ∷ bytes "origins"
    ∷ bytes "bounds"
    ∷ [])
client_fields MessageType.navigate =
    some (bytes "protocol" ∷ bytes "type" ∷ bytes "method" ∷ bytes "url" ∷ [])
client_fields MessageType.review = some (
    bytes "protocol"
    ∷ bytes "type"
    ∷ bytes "profile"
    ∷ bytes "candidateIds"
    ∷ bytes "flow"
    ∷ bytes "cleanupDisposition"
    ∷ [])
client_fields MessageType.observe = some (bytes "protocol" ∷ bytes "type" ∷ [])
client_fields MessageType.finish = some (bytes "protocol" ∷ bytes "type" ∷ [])
client_fields MessageType.close = some (bytes "protocol" ∷ bytes "type" ∷ [])
client_fields MessageType.unknown = some (bytes "protocol" ∷ bytes "type" ∷ [])
client_fields _ = none

-- clientFields[type], with those of "unknown" for the other types.
abbrev legacy_fields : MessageType → List Bytes
legacy_fields t = elim (client_fields t) [
  | none ↦ bytes "protocol" ∷ bytes "type" ∷ []
  | some l ↦ l
]

-- The fields that a message of a protocol may have.
unfoldable pub allowed_fields : Protocol → MessageType → List Bytes
unfolding client_fields
allowed_fields p MessageType.preview =
    if is_typed p
    then bytes "protocol" ∷ bytes "type" ∷ bytes "preview" ∷ []
    else legacy_fields MessageType.preview
allowed_fields p MessageType.review =
    if is_typed p
    then legacy_fields MessageType.review ++ bytes "stepCandidates" ∷ []
    else legacy_fields MessageType.review
allowed_fields p MessageType.approve_verification =
    if is_v4 p
    then bytes "protocol" ∷ bytes "type" ∷ bytes "candidateId" ∷ bytes "verification" ∷ []
    else legacy_fields MessageType.approve_verification
allowed_fields p t = legacy_fields t

-- A line as the JSON decoder reads it: whether it is one strict value with a readable header, the
-- header, the names of its fields, and the typed message if it decodes.
pub record Line : Type 0 where
  pub well_formed : Bool
  pub protocol : Protocol
  pub type : MessageType
  pub field_names : List Bytes
  pub message : Option ClientMessage

unfoldable pub decode_client_message : Line → Option ClientMessage
unfolding allowed_fields
decode_client_message line =
    if line.well_formed
      && all (λ f. member f (allowed_fields line.protocol line.type)) line.field_names
    then line.message
    else none

-- phaseMessages
unfoldable pub phase_messages : Phase → MessageType → Bool
phase_messages awaiting_start MessageType.start = true
phase_messages awaiting_start MessageType.close = true
phase_messages observing MessageType.observe = true
phase_messages observing MessageType.navigate = true
phase_messages observing MessageType.review = true
phase_messages observing MessageType.close = true
phase_messages Types.reviewed MessageType.finish = true
phase_messages Types.reviewed MessageType.close = true
phase_messages _ _ = false

-- The message is one of the two that only newer protocols have, and the protocol has it.
unfoldable pub is_extension : Protocol → MessageType → Bool
is_extension p MessageType.preview = is_typed p
is_extension p MessageType.approve_verification = is_v4 p
is_extension p _ = false

-- The type is known to the protocol.
unfoldable pub is_known : Protocol → MessageType → Bool
unfolding is_extension client_fields
is_known p MessageType.unknown = false
is_known p t = is_some (client_fields t) || is_extension p t

abbrev pub is_observing : Phase → Bool
is_observing observing = true
is_observing _ = false

-- The message may be sent in the phase.
unfoldable pub is_admitted : Protocol → Phase → MessageType → Bool
unfolding phase_messages is_extension
is_admitted p phase t = phase_messages phase t || is_extension p t && is_observing phase

-- What the loop does after a message: read on, or return, with a result or without.
pub data Next : Type 0 where
  read_on : Next
  stop : Option Completion → Next

-- The capabilities that the greeting lists.
unfoldable pub capabilities : Protocol → List Bytes
capabilities v4 =
    bytes "application_get_head_only"
    ∷ bytes "reviewed_verification_traffic"
    ∷ bytes "no_submit"
    ∷ bytes "reduced_observation"
    ∷ bytes "registration_review"
    ∷ bytes "public_control_definitions"
    ∷ bytes "reviewed_public_preview"
    ∷ bytes "registration_1_2"
    ∷ []
capabilities p =
    bytes "get_head_only"
    ∷ bytes "no_submit"
    ∷ bytes "reduced_observation"
    ∷ bytes "registration_review"
    ∷ (if is_typed p
        then bytes "public_control_definitions"
          ∷ bytes "reviewed_public_preview"
          ∷ bytes "registration_1_1"
          ∷ []
        else [])

-- How the input ends: at its end, or by an error of the scanner.
pub data Ending : Type 0 where
  end_of_input scan_error : Ending

-- What Serve returns: a completion, nothing, or an error.
pub data Served : Type 0 where
  completed : Completion → Served
  stopped : Served
  failed : Failure → Served

abbrev pub served_stop : Option Completion → Served
served_stop none = stopped
served_stop (some c) = completed c

abbrev pub served_error : {A : Type 0} → Result A → Served
served_error (ok _) = stopped
served_error (err e) = failed e

module _ (lib : Library) (backend : Backend) where
  abbrev pub then_read_on : Action (Unit {0}) → Action Next
  then_read_on m = m >>= λ _. pure read_on

  -- The `switch` of handle.
  unfoldable pub dispatch : MessageType → ClientMessage → Action Next
  dispatch MessageType.approve_verification m = then_read_on (approve_verification lib backend m)
  dispatch MessageType.start m = then_read_on (start lib backend m)
  dispatch MessageType.observe m = then_read_on (observe lib backend)
  dispatch MessageType.navigate m = then_read_on (navigate lib backend m)
  dispatch MessageType.preview m = then_read_on (preview lib backend m)
  dispatch MessageType.review m = then_read_on (review lib backend m)
  dispatch MessageType.finish m = finish lib backend >>= λ c. pure (stop (some c))
  dispatch MessageType.close m = close_without_result lib backend >>= λ _. pure (stop none)
  dispatch _ m = fail lib backend unknown_message

  -- A message to an open session.
  unfoldable pub handle_open : ClientMessage → Action Next
  handle_open m s =
      (do
        require lib backend (protocol_eq m.protocol s.protocol) protocol_mismatch
        require lib backend (is_known s.protocol m.type) unknown_message
        require lib backend (is_admitted s.protocol s.phase m.type) invalid_state
        dispatch m.type m)
        s

  unfoldable pub handle : ClientMessage → Action Next
  handle m s = if s.closed then raise already_closed s else handle_open m s

  -- The return after an error of a handler: a session that is still open is closed.
  unfoldable pub give_up : Failure → Server → Served × Server
  give_up e s =
      if s.closed
      then (failed e, s)
      else (failed e, record (close_session lib backend s).1 { closed = true })

  abbrev pub fail_with : Code → Server → Served × Server
  fail_with code s = let (r, s') = fail lib backend {A = Unit {0}} code s in (served_error r, s')

  -- What the loop does with the outcome of a message; `f` reads on.
  unfoldable pub after_message : (Server → Served × Server) → Result Next → Server → Served × Server
  after_message f (ok read_on) s = f s
  after_message f (ok (stop c)) s = (served_stop c, s)
  after_message f (err e) s = give_up e s

  -- After the last line.
  unfoldable pub end_of_lines : Ending → Server → Served × Server
  end_of_lines ending s = if backend.canceled s.trace then fail_with canceled s else elim ending [
    | scan_error ↦ fail_with protocol_limit s
    | end_of_input ↦ if s.closed then (stopped, s) else fail_with unexpected_eof s
  ]

  unfoldable pub serve_lines : List Line → Ending → Server → Served × Server
  serve_lines [] ending s = end_of_lines ending s
  serve_lines (line ∷ rest) ending s = elim (decode_client_message line) [
    | none ↦ fail_with malformed_message s
    | some m ↦ after_message (serve_lines rest ending) (handle m s).0 (handle m s).1
  ]

  -- After the greeting.
  unfoldable pub after_hello : List Line → Ending → Result (Unit {0}) → Server → Served × Server
  after_hello lines ending (ok _) s = serve_lines lines ending s
  after_hello lines ending (err e) s = (failed e, s)

  -- Serve, for an input, output and browser that are there.
  unfoldable pub serve : Protocol → List Line → Ending → Served × Server
  serve protocol lines ending =
      if is_supported protocol
      then (let (r, s) = write lib backend (hello (capabilities protocol)) (new_server protocol) in
          after_hello lines ending r s)
      else (failed unsupported_protocol, new_server protocol)
