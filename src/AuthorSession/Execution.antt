-- ===== src/AuthorSession/Execution.antt =====
-- The handlers `requestExecute`, `requireApproval`, `approve`, `deny` and `execute` of
-- authorsession/session.go.
use browsertools.Prelude.{
  ℕ, ◌+◌, ℤ, pos, leb_ℤ, eq_ℤ, Bool, true, false, ◌||◌, ◌&&◌, not, Option, none, some, [], ◌∷◌,
  ◌++◌, Bytes, bytes, bytes_eq, is_empty, is_some, ltb, member, if◌then◌else◌,
}
use browsertools.Registration.Server.{lookup}
use browsertools.Machine.{◌>>=◌, ◌>>◌, update, with_state}
use browsertools.AuthorSession.Types.{
  Phase, ActionKind, ApprovalKind, Context, Contexts, TraceStep, RawCandidate, BrowserAction,
  Execution, CandidateRecord, ClientMessage, PendingApproval, state, approval_required,
  ambiguous_target, approval_denied, approval_limit, approval_mismatch, browser_failure,
  invalid_action, invalid_context, post_budget, unknown_context, normalized_context,
}
use browsertools.AuthorSession.Types
use browsertools.AuthorSession.Origins.{exact_origin, origin_for_url, clean_protocol_url, add_key}
use browsertools.AuthorSession.Contexts.{is_main, add_context}
use browsertools.AuthorSession.HumanInput.{browser_action_for_record}
use browsertools.AuthorSession.Server.{
  AuthorLibrary, call_execute, call_add_origin, Backend, Server, Action, approval_id,
}
use browsertools.AuthorSession.Actions.{write, fail, require, require_some, browser_call, success}

abbrev pub max_approval_id : ℕ
max_approval_id = 9999

abbrev pub zero_record : CandidateRecord
zero_record = record {
  protocol = record { id = []; role = []; label = []; matches = pos 0 };
  raw = record {
    backend_id = [];
    role = [];
    label = [];
    input_kind = [];
    challenge_kinds = [];
    target_origin = [];
    matches = pos 0;
  };
  context = [];
  label = [];
}

-- s.candidates[id], the zero record for an unknown id.
abbrev pub record_of : Option CandidateRecord → CandidateRecord
record_of none = zero_record
record_of (some r) = r

abbrev pub is_click : ActionKind → Bool
is_click ActionKind.click = true
is_click _ = false

trim_get : Bytes → Bytes
trim_get [] = []
trim_get (c ∷ s) =
    let later = trim_get s in if bytes_eq (c ∷ s) (bytes "_get") then [] else c ∷ later

-- strings.TrimSuffix(action, "_get")
unfoldable pub step_kind : ActionKind → ActionKind
unfolding trim_get
step_kind ActionKind.navigate_get = ActionKind.navigate
step_kind (ActionKind.other_action name) = ActionKind.other_action (trim_get name)
step_kind kind = kind

-- The action that is sent to the browser.
unfoldable pub action_for : ClientMessage → CandidateRecord → BrowserAction
action_for m r =
    if is_click m.action
    then record (browser_action_for_record m.action r) { post_budget = m.post_budget }
    else record {
      kind = m.action;
      backend_id = [];
      url = m.url;
      context = m.context;
      post_budget = m.post_budget;
      role = [];
      label = [];
      input_kind = [];
      target_origin = [];
      matches = pos 0;
    }

-- POSTObserved is between zero and the budget.
abbrev pub within_budget : Execution → ℤ → Bool
within_budget e budget = leb_ℤ (pos 0) e.post_observed && leb_ℤ e.post_observed budget

abbrev opened_id_of : Execution → Bytes
opened_id_of e = if is_some e.opened then e.opened_id else []

unfoldable pub step_for :
    AuthorLibrary → ClientMessage → CandidateRecord → Phase → Execution → TraceStep
step_for a m r phase e = record {
  kind = step_kind m.action;
  phase = phase;
  candidate_id = m.candidate_id;
  context = (action_for m r).context;
  role = if is_click m.action then r.protocol.role else [];
  label = if is_click m.action then r.label else [];
  input_kind = [];
  challenge_kind = [];
  url = clean_protocol_url a.base a.urls m.url;
  post_budget = m.post_budget;
  post_observed = e.post_observed;
  opens_context = opened_id_of e;
}

-- The context that the state message names.
abbrev state_context : ClientMessage → CandidateRecord → Execution → Bytes
state_context m r e =
    normalized_context (if is_some e.opened then e.opened_id else (action_for m r).context)

abbrev pub approval_of : PendingApproval → Types.Approval
approval_of p = record {
  id = p.id;
  kind = p.kind;
  origin = p.origin;
  action = p.message.action;
  candidate_id = p.message.candidate_id;
  post_budget = p.message.post_budget;
}

-- The pending approval that a response names.
abbrev pub named_approval : Bytes → Option PendingApproval → Option PendingApproval
named_approval id none = none
named_approval id (some p) = if not (is_empty id) && bytes_eq id p.id then some p else none

-- The record of a candidate that can be clicked.
abbrev pub clickable : Option CandidateRecord → Option CandidateRecord
clickable none = none
clickable (some r) = if eq_ℤ r.protocol.matches (pos 1) then some r else none

module _ (a : AuthorLibrary) (backend : Backend) where
  -- The contexts after an execution that opened one.
  abbrev pub contexts_after : Execution → Server → Option Contexts
  contexts_after e s = elim e.opened [
    | none ↦ some s.contexts
    | some c ↦ add_context a s.origins s.contexts e.opened_id c
  ]

  -- execute, for the record of the candidate that the message names
  unfoldable pub execute_on : CandidateRecord → ClientMessage → Action (Unit {0})
  unfolding action_for step_for
  execute_on r m = do
    update (λ s. record s { goal_proof = none; human_confirmed = false })
    e ← browser_call backend (call_execute (action_for m r)) backend.executed
    require backend (within_budget e m.post_budget) post_budget
    contexts ← with_state (λ s. require_some backend (contexts_after e s) invalid_context)
    update (λ s. record s { contexts = contexts; steps = s.steps ++ step_for a m r s.phase e ∷ [] })
    with_state (λ s. write backend (state s.phase (state_context m r e) none))

  -- execute
  unfoldable pub execute : ClientMessage → Action (Unit {0})
  unfolding execute_on
  execute m s = execute_on (record_of (lookup m.candidate_id s.candidates)) m s

  abbrev pub next_approval : ApprovalKind → ClientMessage → Bytes → Server → PendingApproval
  next_approval kind m origin s = record {
    id = approval_id (s.approval_counter + 1);
    kind = kind;
    message = m;
    origin = origin;
  }

  abbrev pub await_approval : ApprovalKind → ClientMessage → Bytes → Server → Server
  await_approval kind m origin s = record s {
    approval_counter = s.approval_counter + 1;
    pending = some (next_approval kind m origin s);
  }

  -- Ask for the approval `p`, which is pending then.
  abbrev pub ask : ApprovalKind → ClientMessage → Bytes → PendingApproval → Action (Unit {0})
  ask kind m origin p =
      update (await_approval kind m origin) >> write backend (approval_required (approval_of p))

  -- requireApproval
  unfoldable pub require_approval : ApprovalKind → ClientMessage → Bytes → Action (Unit {0})
  require_approval kind m origin = do
    with_state (λ s. require backend (ltb s.approval_counter max_approval_id) approval_limit)
    with_state (λ s. ask kind m origin (next_approval kind m origin s))

  abbrev in_main : ClientMessage → ClientMessage
  in_main m = record m { context = normalized_context m.context }

  abbrev context_known : ClientMessage → Server → Bool
  context_known m s = is_main m.context || is_some (lookup m.context s.contexts)

  -- The case "navigate_get", for a message whose context is named.
  unfoldable pub request_navigation : ClientMessage → Action (Unit {0})
  unfolding execute require_approval
  request_navigation m = do
    require backend (is_empty m.candidate_id && not (is_empty m.url) && eq_ℤ m.post_budget (pos 0))
        invalid_action
    with_state (λ s. require backend (context_known m s) unknown_context)
    origin ← require_some backend (origin_for_url a.base a.urls m.url) invalid_action
    with_state (λ s.
        if member origin s.origins
        then execute m
        else require_approval ApprovalKind.origin m origin)

  abbrev same_context : ClientMessage → CandidateRecord → Bool
  same_context m r =
      is_empty m.context || bytes_eq (normalized_context m.context) (normalized_context r.context)

  -- A click may lead to an origin that is not approved yet.
  unfoldable pub request_target : ClientMessage → CandidateRecord → Action (Unit {0})
  request_target m r =
      if is_empty r.raw.target_origin then require_approval ApprovalKind.action m [] else (do
        origin ←
            require_some backend (exact_origin a.base a.urls r.raw.target_origin) invalid_action
        with_state (λ s.
            if member origin s.origins
            then require_approval ApprovalKind.action m []
            else require_approval ApprovalKind.origin_action m origin))

  -- The case "click".
  unfoldable pub request_click : ClientMessage → Action (Unit {0})
  unfolding request_target
  request_click m = do
    require backend (is_empty m.url) invalid_action
    r ← with_state (λ s.
        require_some backend (clickable (lookup m.candidate_id s.candidates)) ambiguous_target)
    require backend (leb_ℤ (pos 0) m.post_budget && leb_ℤ m.post_budget (pos 32)) invalid_action
    require backend (same_context m r) invalid_action
    request_target m r

  -- requestExecute, by the action of the message
  unfoldable pub request_kind : ActionKind → ClientMessage → Action (Unit {0})
  unfolding request_navigation request_click
  request_kind ActionKind.navigate_get m = request_navigation (in_main m)
  request_kind ActionKind.click m = request_click m
  request_kind _ m = fail backend invalid_action

  -- requestExecute
  unfoldable pub request_execute : ClientMessage → Action (Unit {0})
  unfolding request_kind
  request_execute m = request_kind m.action m

  -- AddOrigin; it is not charged to the active time.
  unfoldable pub grant : Bytes → Action (Unit {0})
  grant origin = do
    update (λ s. record s { trace = call_add_origin origin ∷ s.trace })
    with_state (λ s. require_some backend (success (backend.origin_added s.trace)) browser_failure)
    update (λ s. record s { origins = add_key origin s.origins })

  -- What an approval of the kind sets off.
  unfoldable pub approved : ApprovalKind → PendingApproval → Action (Unit {0})
  unfolding grant request_execute execute
  approved ApprovalKind.origin p = do grant p.origin; execute p.message
  approved ApprovalKind.origin_action p = do grant p.origin; request_execute p.message
  approved ApprovalKind.action p = execute p.message

  -- approve
  unfoldable pub approve : Bytes → Action (Unit {0})
  unfolding approved
  approve id = do
    p ← with_state (λ s. require_some backend (named_approval id s.pending) approval_mismatch)
    update (λ s. record s { pending = none })
    approved p.kind p

  -- deny
  unfoldable pub deny : Bytes → Action (Unit {0})
  deny id = do
    _ ← with_state (λ s. require_some backend (named_approval id s.pending) approval_mismatch)
    update (λ s. record s { pending = none })
    fail backend approval_denied
