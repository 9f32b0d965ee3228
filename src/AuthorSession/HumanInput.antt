-- ===== src/AuthorSession/HumanInput.antt =====
-- The handlers `focus` and `completeHumanInput` of authorsession/session.go.
use browsertools.Prelude.{
  pos, eq_ℤ, Bool, ◌||◌, ◌&&◌, not, Option, none, some, List, [], ◌∷◌, ◌++◌, Bytes, bytes, bytes_eq,
  is_empty, member, if◌then◌else◌,
}
use browsertools.Registration.Server.{lookup}
use browsertools.Machine.{done, ◌>>=◌, ◌>>◌, update, with_state}
use browsertools.AuthorSession.Types.{
  Phase, human_input, ActionKind, TraceStep, BrowserAction, CandidateRecord, Checkpoint,
  PendingHumanInput, state, human_checkpoint, invalid_candidate, human_input_mismatch,
  challenge_kind_invalid, normalized_context,
}
use browsertools.AuthorSession.Types
use browsertools.AuthorSession.Vocabulary.{normalized_challenge_kinds}
use browsertools.AuthorSession.Server.{call_focus, Backend, Server, Action}
use browsertools.AuthorSession.Actions.{write, require, require_some, browser_call, success}

-- browserActionForRecord
unfoldable pub browser_action_for_record : ActionKind → CandidateRecord → BrowserAction
browser_action_for_record kind r = record {
  kind = kind;
  backend_id = r.raw.backend_id;
  url = [];
  context = normalized_context r.context;
  post_budget = pos 0;
  role = r.raw.role;
  label = r.raw.label;
  input_kind = r.raw.input_kind;
  target_origin = r.raw.target_origin;
  matches = r.raw.matches;
}

-- The record of a candidate that can receive human input.
abbrev pub focusable : Option CandidateRecord → Option CandidateRecord
focusable none = none
focusable (some r) =
    if not (is_empty r.raw.input_kind) && eq_ℤ r.protocol.matches (pos 1) then some r else none

is_credential : CandidateRecord → Bool
is_credential r =
    bytes_eq r.raw.input_kind (bytes "identifier") || bytes_eq r.raw.input_kind (bytes "password")

-- `challengeKinds` of a focus: none for a credential.
unfoldable pub kinds_for : CandidateRecord → List Bytes
unfolding is_credential
kinds_for r =
    if is_credential r
    then []
    else normalized_challenge_kinds r.raw.input_kind r.raw.challenge_kinds

unfoldable pub checkpoint_for : Bytes → CandidateRecord → Checkpoint
unfolding is_credential kinds_for
checkpoint_for id r = record {
  kind = if is_credential r then bytes "credential" else bytes "mfa";
  candidate_id = id;
  input_kind = r.raw.input_kind;
  challenge_kinds = kinds_for r;
}

abbrev pub await_input : Bytes → CandidateRecord → Server → Server
await_input id r s = record s {
  pending_input =
      some (record { candidate_id = id; record_of = r; phase = s.phase; kinds = kinds_for r });
  phase = human_input;
}

-- The pending input that a completion names.
abbrev pub named_input : Bytes → Option PendingHumanInput → Option PendingHumanInput
named_input id none = none
named_input id (some p) = if not (is_empty id) && bytes_eq id p.candidate_id then some p else none

-- The challenge kind is one of those that were reviewed; a credential has none.
unfoldable pub kind_accepted : List Bytes → Bytes → Bool
kind_accepted [] kind = is_empty kind
kind_accepted (k ∷ kinds) kind = member kind (k ∷ kinds)

unfoldable pub input_step : PendingHumanInput → Bytes → Bytes → TraceStep
input_step p id challenge_kind = record {
  kind = Types.focus_human_input;
  phase = p.phase;
  candidate_id = id;
  context = p.record_of.context;
  role = p.record_of.protocol.role;
  label = p.record_of.label;
  input_kind = p.record_of.raw.input_kind;
  challenge_kind = challenge_kind;
  url = [];
  post_budget = pos 0;
  post_observed = pos 0;
  opens_context = [];
}

module _ (backend : Backend) where
  -- An MFA target is not focused.
  unfoldable pub focus_target : CandidateRecord → Action (Unit {0})
  focus_target r =
      if bytes_eq r.raw.input_kind (bytes "mfa")
      then done
      else browser_call backend
          (call_focus (browser_action_for_record ActionKind.focus_human_input r))
          (λ t. success (backend.focused t))

  -- focus
  unfoldable pub focus : Bytes → Action (Unit {0})
  unfolding focus_target checkpoint_for
  focus id = do
    r ←
        with_state
          (λ s. require_some backend (focusable (lookup id s.candidates)) invalid_candidate)
    focus_target r
    update (await_input id r)
    write backend (human_checkpoint (checkpoint_for id r))

  -- completeHumanInput
  unfoldable pub complete_human_input : Bytes → Bytes → Action (Unit {0})
  unfolding kind_accepted input_step
  complete_human_input id challenge_kind = do
    p ← with_state (λ s. require_some backend (named_input id s.pending_input) human_input_mismatch)
    require backend (kind_accepted p.kinds challenge_kind) challenge_kind_invalid
    update (λ s. record s {
      steps = s.steps ++ input_step p id challenge_kind ∷ [];
      pending_input = none;
      phase = p.phase;
    })
    write backend (state p.phase (normalized_context p.record_of.context) none)
