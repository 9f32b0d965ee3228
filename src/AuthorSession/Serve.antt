-- ===== src/AuthorSession/Serve.antt =====
-- Serve, handle and decodeClientMessage of authorsession/session.go.
use browsertools.Prelude.{
  Bool, true, false, ◌||◌, ◌&&◌, not, Option, none, some, List, [], ◌∷◌, Bytes, bytes, bytes_eq,
  all, member, is_some, if◌then◌else◌,
}
use browsertools.Machine.{Result, ok, err, pure, ◌>>=◌, ◌>>◌, update, with_state}
use browsertools.AuthorSession.Types.{
  protocol_name, MessageType, Phase, Code, ClientMessage, hello, canceled, invalid_state,
  malformed_message, protocol_limit, protocol_mismatch, unexpected_eof, unknown_message,
  approval_pending,
}
use browsertools.AuthorSession.Start.{start_session}
use browsertools.AuthorSession.Observing.{observe}
use browsertools.AuthorSession.HumanInput.{focus, complete_human_input}
use browsertools.AuthorSession.Execution.{request_execute, approve, deny}
use browsertools.AuthorSession.Finish.{complete, finish, close_without_result}
use browsertools.AuthorSession.Server.{
  AuthorLibrary, Backend, Server, new_server, heard, Failure, already_closed, unusable_root, Action,
}
use browsertools.AuthorSession.Actions.{write, fail, require}

-- clientFields, for the types that it lists.
unfoldable pub client_fields : MessageType → Option (List Bytes)
client_fields MessageType.start = some (
    bytes "protocol"
    ∷ bytes "type"
    ∷ bytes "title"
    ∷ bytes "url"
    ∷ bytes "dashboardUrl"
    ∷ bytes "goal"
    ∷ bytes "origins"
    ∷ bytes "goalPredicate"
    ∷ bytes "bounds"
    ∷ [])
client_fields MessageType.observe = some (bytes "protocol" ∷ bytes "type" ∷ bytes "context" ∷ [])
client_fields MessageType.focus_human_input =
    some (bytes "protocol" ∷ bytes "type" ∷ bytes "candidateId" ∷ [])
client_fields MessageType.human_input_complete =
    some (bytes "protocol" ∷ bytes "type" ∷ bytes "candidateId" ∷ bytes "challengeKind" ∷ [])
client_fields MessageType.execute = some (
    bytes "protocol"
    ∷ bytes "type"
    ∷ bytes "action"
    ∷ bytes "candidateId"
    ∷ bytes "url"
    ∷ bytes "context"
    ∷ bytes "postBudget"
    ∷ [])
client_fields MessageType.approve = some (bytes "protocol" ∷ bytes "type" ∷ bytes "approvalId" ∷ [])
client_fields MessageType.deny = some (bytes "protocol" ∷ bytes "type" ∷ bytes "approvalId" ∷ [])
client_fields MessageType.human_complete =
    some (bytes "protocol" ∷ bytes "type" ∷ bytes "confirmed" ∷ bytes "outputs" ∷ [])
client_fields MessageType.finish = some (bytes "protocol" ∷ bytes "type" ∷ [])
client_fields MessageType.close = some (bytes "protocol" ∷ bytes "type" ∷ [])
client_fields MessageType.unknown = some (bytes "protocol" ∷ bytes "type" ∷ [])
client_fields (MessageType.other_type _) = none

-- The fields that a message may have, those of "unknown" for a type that is not listed.
unfoldable pub allowed_fields : MessageType → List Bytes
unfolding client_fields
allowed_fields t = elim (client_fields t) [
  | none ↦ bytes "protocol" ∷ bytes "type" ∷ []
  | some names ↦ names
]

-- A line as the JSON decoder reads it: whether it is an object with a readable type, the type, the
-- names of its fields, and the typed message if it decodes.
pub record Line : Type 0 where
  pub well_formed : Bool
  pub type : MessageType
  pub field_names : List Bytes
  pub message : Option ClientMessage

unfoldable pub decode_client_message : Line → Option ClientMessage
unfolding allowed_fields
decode_client_message line =
    if line.well_formed && all (λ f. member f (allowed_fields line.type)) line.field_names
    then line.message
    else none

-- phaseMessages
unfoldable pub phase_messages : Phase → MessageType → Bool
phase_messages Phase.awaiting_start MessageType.start = true
phase_messages Phase.awaiting_start MessageType.close = true
phase_messages Phase.authentication MessageType.observe = true
phase_messages Phase.authentication MessageType.focus_human_input = true
phase_messages Phase.authentication MessageType.execute = true
phase_messages Phase.authentication MessageType.approve = true
phase_messages Phase.authentication MessageType.deny = true
phase_messages Phase.authentication MessageType.close = true
phase_messages Phase.human_input MessageType.human_input_complete = true
phase_messages Phase.human_input MessageType.close = true
phase_messages Phase.exploration MessageType.observe = true
phase_messages Phase.exploration MessageType.execute = true
phase_messages Phase.exploration MessageType.approve = true
phase_messages Phase.exploration MessageType.deny = true
phase_messages Phase.exploration MessageType.human_complete = true
phase_messages Phase.exploration MessageType.close = true
phase_messages Phase.completed MessageType.finish = true
phase_messages Phase.completed MessageType.close = true
phase_messages _ _ = false

-- The messages that are taken while an approval is pending.
abbrev pub answers_approval : MessageType → Bool
answers_approval MessageType.approve = true
answers_approval MessageType.deny = true
answers_approval MessageType.close = true
answers_approval _ = false

abbrev pub is_known : MessageType → Bool
is_known MessageType.unknown = false
is_known (MessageType.other_type _) = false
is_known _ = true

abbrev pub capabilities : List Bytes
capabilities =
    bytes "chromium"
    ∷ bytes "human_credentials"
    ∷ bytes "reviewed_mfa_kind"
    ∷ bytes "reviewed_outputs"
    ∷ bytes "reduced_observation"
    ∷ bytes "popup"
    ∷ bytes "frame"
    ∷ bytes "typed_goal"
    ∷ []

-- What the loop does after a message: read on, or return.
pub data Next : Type 0 where
  read_on stop : Next

-- How the input ends: at its end, or by an error of the scanner.
pub data Ending : Type 0 where
  end_of_input scan_error : Ending

-- What Serve returns: nil or an error.
pub data Served : Type 0 where
  stopped : Served
  failed : Failure → Served

module _ (a : AuthorLibrary) (backend : Backend) where
  abbrev pub and_then : Next → Action (Unit {0}) → Action Next
  and_then next m = m >>= λ _. pure next

  -- The `switch` of handle.
  unfoldable pub dispatch : MessageType → ClientMessage → Action Next
  dispatch MessageType.start m = and_then read_on (start_session a backend m)
  dispatch MessageType.observe m = and_then read_on (observe a backend m.context)
  dispatch MessageType.focus_human_input m = and_then read_on (focus backend m.candidate_id)
  dispatch MessageType.human_input_complete m =
      and_then read_on (complete_human_input backend m.candidate_id m.challenge_kind)
  dispatch MessageType.execute m = and_then read_on (request_execute a backend m)
  dispatch MessageType.approve m = and_then read_on (approve a backend m.approval_id)
  dispatch MessageType.deny m = and_then read_on (deny a backend m.approval_id)
  dispatch MessageType.human_complete m =
      and_then read_on (complete a backend m.confirmed m.outputs)
  dispatch MessageType.finish m = and_then stop (finish a backend)
  dispatch MessageType.close m = and_then stop (close_without_result a backend)
  dispatch _ m = fail backend unknown_message

  -- A message to an open session.
  unfoldable pub handle_open : ClientMessage → Action Next
  unfolding dispatch
  handle_open m = do
    update (λ s. record s { trace = heard m ∷ s.trace })
    require backend (bytes_eq m.protocol protocol_name) protocol_mismatch
    with_state
        (λ s. require backend (not (is_some s.pending) || answers_approval m.type) approval_pending)
    require backend (is_known m.type) unknown_message
    with_state (λ s. require backend (phase_messages s.phase m.type) invalid_state)
    dispatch m.type m

  unfoldable pub handle : ClientMessage → Action Next
  unfolding handle_open
  handle m s = if s.closed then (err already_closed, s) else handle_open m s

  unfoldable pub fail_with : Code → Server → Served × Server
  fail_with code s =
      let (r, s') = fail backend {A = Unit {0}} code s in
      (elim r [ ok _ ↦ stopped | err e ↦ failed e ], s')

  -- What the loop does with the outcome of a message; `f` reads on.
  unfoldable pub after_message :
      (Server → Served × Server) → Result Failure Next → Server → Served × Server
  after_message f (ok read_on) s = f s
  after_message f (ok stop) s = (stopped, s)
  after_message f (err e) s = (failed e, s)

  -- After the last line; `cancel` fails with the code for a context that is done.
  unfoldable pub end_of_lines : Ending → Server → Served × Server
  unfolding fail_with
  end_of_lines ending s = if backend.canceled s.trace then fail_with canceled s else elim ending [
    | scan_error ↦ fail_with protocol_limit s
    | end_of_input ↦ if s.closed then (stopped, s) else fail_with unexpected_eof s
  ]

  unfoldable pub serve_lines : List Line → Ending → Server → Served × Server
  unfolding handle after_message end_of_lines
  serve_lines [] ending s = end_of_lines ending s
  serve_lines (line ∷ rest) ending s = elim (decode_client_message line) [
    | none ↦ fail_with malformed_message s
    | some m ↦ after_message (serve_lines rest ending) (handle m s).0 (handle m s).1
  ]

  -- After the greeting.
  unfoldable pub after_hello :
      List Line → Ending → Result Failure (Unit {0}) → Server → Served × Server
  unfolding serve_lines
  after_hello lines ending (ok _) s = serve_lines lines ending s
  after_hello lines ending (err e) s = (failed e, s)

  -- Serve, for an input, output and browser that are there.
  unfoldable pub serve : List Line → Ending → Served × Server
  unfolding after_hello
  serve lines ending =
      if backend.private_root_ok
      then (let (r, s) = write backend (hello capabilities) new_server in
          after_hello lines ending r s)
      else (failed unusable_root, new_server)
