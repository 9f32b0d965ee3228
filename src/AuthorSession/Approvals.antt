-- ===== src/AuthorSession/Approvals.antt =====
-- What a session with a human in charge is: a reading of the events of Serve, and the state that
-- goes with it.
pub mod Primitives
pub mod Steps
pub mod Opening
pub mod Approving
pub mod Requests
pub mod Answering
pub mod Closing
pub mod Whole
use browsertools.Prelude.{
  ◌≡◌, ℤ, ◌*◌, leb, pos_part, is_some, any, eq_ℤ, Bool, true, false, ◌&&◌, not, Option, none, some,
  List, [], ◌∷◌, Bytes, bytes_eq, member, if◌then◌else◌,
}
use browsertools.AuthorSession.Types
use browsertools.AuthorSession.Types.{
  MessageType, ApprovalKind, Approval, BrowserAction, ClientMessage, PendingApproval, Phase,
  Candidate, CandidateRecord, diagnostic, teardown_failure,
}
use browsertools.Registration.Server.{lookup}
use browsertools.AuthorSession.Reduce.Shown.{is_shown_as, shows}
use browsertools.AuthorSession.Origins.{origin_for_url, add_key}
use browsertools.AuthorSession.Serve.{Served, stopped, failed}
use browsertools.AuthorSession.Execution.{is_click, approval_of}
use browsertools.AuthorSession.Server.{
  AuthorLibrary, Backend, Server, Event, heard, call_open, call_close, call_execute,
  call_add_origin, wrote, Failure, output_failed, session_failed, teardown_failed, already_closed,
  unusable_root,
}

abbrev pub is_approve : MessageType → Bool
is_approve MessageType.approve = true
is_approve _ = false

-- The approval that the client has just given: its answer names the request right before it.
abbrev pub given : List Event → Option Approval
given (heard m ∷ wrote (Types.approval_required p) ∷ t) =
    if is_approve m.type && bytes_eq m.approval_id p.id then some p else none
given _ = none

-- The origins that were approved: at the start, and later one by one.
abbrev pub granted : List Event → List Bytes
granted [] = []
granted (call_open r ∷ t) = r.approved_origins
granted (call_add_origin o ∷ t) = add_key o (granted t)
granted (_ ∷ t) = granted t

-- The candidates that the client was shown last.
abbrev pub shown : List Event → List Candidate
shown [] = []
shown (wrote (Types.observation o) ∷ t) = o.candidates
shown (_ ∷ t) = shown t

abbrev pub asks_action : ApprovalKind → Bool
asks_action ApprovalKind.action = true
asks_action _ = false

-- The approval is for this origin.
abbrev pub allows_origin : Option Approval → Bytes → Bool
allows_origin none o = false
allows_origin (some p) o = not (asks_action p.kind) && bytes_eq p.origin o

abbrev pub on_origin : Option Bytes → List Bytes → Bool
on_origin none origins = false
on_origin (some o) origins = member o origins

abbrev pub latest : List Event → Option Event
latest [] = none
latest (e ∷ _) = some e

-- The last message is a result, or that the session is closed.
abbrev pub is_parting : List Event → Bool
is_parting (wrote (Types.result _ _) ∷ _) = true
is_parting (wrote (Types.state Phase.closed _ _) ∷ _) = true
is_parting _ = false

module _ (a : AuthorLibrary) where
  -- The approval is for a click with this budget of POST requests, on the candidate that was shown
  -- for this element.
  abbrev pub allows_click : Option Approval → List Candidate → BrowserAction → Bool
  allows_click none cs act = false
  allows_click (some p) cs act =
      asks_action p.kind
      && is_click p.action
      && eq_ℤ p.post_budget act.post_budget
      && any (is_shown_as a p.candidate_id act.role act.label act.matches) cs

  abbrev pub allows_execute : List Event → BrowserAction → Bool
  allows_execute t act =
      if is_click act.kind
      then allows_click (given t) (shown t) act
      else on_origin (origin_for_url a.base a.urls act.url) (granted t)

  -- Every click that was executed, and every origin that was added, is the direct effect of an
  -- approval that asked for it, and the click is on the candidate that the approval names; every other action navigates to an approved origin.
  abbrev pub is_authorized : List Event → Bool
  is_authorized [] = true
  is_authorized (call_execute act ∷ t) = allows_execute t act && is_authorized t
  is_authorized (call_add_origin o ∷ t) = allows_origin (given t) o && is_authorized t
  is_authorized (_ ∷ t) = is_authorized t

  -- A request that waits for approval is a click, or a navigation to the origin that it asks for.
  abbrev pub is_fit : ApprovalKind → PendingApproval → Bool
  is_fit ApprovalKind.origin p =
      not (is_click p.message.action)
      && on_origin (origin_for_url a.base a.urls p.message.url) (p.origin ∷ [])
  is_fit _ p = is_click p.message.action

-- A browser is open that was handed to the session: Open succeeded within the active time, which is
-- all of the total time then, and it was not closed since.
abbrev pub holds_browser : Backend → List Event → Bool
holds_browser backend [] = false
holds_browser backend (call_open r ∷ t) =
    backend.opened (call_open r ∷ t)
    && not (leb (pos_part r.total_timeout_ms * 1000000) (backend.elapsed (call_open r ∷ t)))
holds_browser backend (call_close ∷ t) = false
holds_browser backend (_ ∷ t) = holds_browser backend t

module _ (a : AuthorLibrary) (backend : Backend) where
  -- The trace is authorized, and the server has the session of the browser that is open; there is
  -- none before the start.
  abbrev pub Account : List Event → Bool → Bool → Type 0
  Account t session started =
      (is_authorized a t ≡ true)
      × (session ≡ holds_browser backend t)
      × (started ≡ false → session ≡ false)

  abbrev pub AccountOf : Server → Type 0
  AccountOf s = Account s.trace s.session s.started

  -- Each record is of a candidate that the client was shown under its id.
  abbrev pub Known : List Event → List (Bytes × CandidateRecord) → Type 0
  Known t candidates =
      (id : Bytes) (r : CandidateRecord)
      → lookup id candidates ≡ some r
      → shows a (shown t) id r ≡ true

  -- The account is in order, the origins of the server were granted and its candidates shown.
  pub record IsSound (t : List Event) (origins : List Bytes) (closed session started : Bool)
      (candidates : List (Bytes × CandidateRecord)) : Type 0 where
    pub account : Account t session started
    pub covers : (o : Bytes) → member o origins ≡ true → member o (granted t) ≡ true
    pub going : closed ≡ false
    pub known : Known t candidates

  -- The candidate of a click is known.
  abbrev pub IsAimed : List (Bytes × CandidateRecord) → ClientMessage → Type 0
  IsAimed candidates m =
      is_click m.action ≡ true → is_some (lookup m.candidate_id candidates) ≡ true

  -- The approval `p` was just asked for, right before the events `before`.
  pub record IsAsked (before : List Event → List Event) (t : List Event)
      (candidates : List (Bytes × CandidateRecord)) (p : PendingApproval) : Type 0 where
    pub earlier : List Event
    pub asked : t ≡ before (wrote (Types.approval_required (approval_of p)) ∷ earlier)
    pub fit : is_fit a p.kind p ≡ true
    pub aimed : IsAimed candidates p.message

  abbrev pub Sound : Server → Type 0
  Sound s = IsSound s.trace s.origins s.closed s.session s.started s.candidates

  -- Nothing waits for approval.
  abbrev pub Clear : Server → Type 0
  Clear s = Sound s × (s.pending ≡ none)

  -- The same, with candidates that the client was not shown yet.
  abbrev pub Loose : Server → Type 0
  Loose s = IsSound s.trace s.origins s.closed s.session s.started [] × (s.pending ≡ none)

  -- The state between two messages: what waits for approval was the last thing written.
  abbrev pub Resting : Server → Type 0
  Resting s =
      Sound s
      × ((p : PendingApproval) → s.pending ≡ some p → IsAsked (λ t. t) s.trace s.candidates p)

  -- The same with the message `m` just heard.
  abbrev pub Heard : ClientMessage → Server → Type 0
  Heard m s =
      Sound s
      × ((p : PendingApproval)
          → s.pending ≡ some p
          → IsAsked (λ t. heard m ∷ t) s.trace s.candidates p)

  -- The approval `p` was just given.
  abbrev pub Given : PendingApproval → Server → Type 0
  Given p s =
      Sound s
      × (s.pending ≡ none)
      × (given s.trace ≡ some (approval_of p))
      × (is_fit a p.kind p ≡ true)
      × IsAimed s.candidates p.message

  -- The session is over: the browser is released and the server is closed.
  pub record IsReleased (t : List Event) (closed : Bool) : Type 0 where
    pub authorized : is_authorized a t ≡ true
    pub released : holds_browser backend t ≡ false
    pub over : closed ≡ true

  abbrev pub Released : Server → Type 0
  Released s = IsReleased s.trace s.closed

  -- After a failure, an output that failed apart, the session is over, and was told why; a message
  -- to a closed session and a root that is unusable do not occur after the start.
  abbrev pub Lost : Failure → Server → Type 0
  Lost output_failed s = (is_authorized a s.trace ≡ true) × (backend.written s.trace ≡ false)
  Lost (session_failed c) s = Released s × (latest s.trace ≡ some (wrote (diagnostic c)))
  Lost teardown_failed s =
      Released s × (latest s.trace ≡ some (wrote (diagnostic teardown_failure)))
  Lost already_closed s = false ≡ true
  Lost unusable_root s = false ≡ true

  -- The session is over as the client wanted it.
  abbrev pub Left : Server → Type 0
  Left s = Released s × (is_parting s.trace ≡ true)

abbrev pub is_output_failure : Served → Bool
is_output_failure (failed output_failed) = true
is_output_failure _ = false

-- The last message tells how Serve ended; but for a refused output and an unusable root, the server
-- takes no message any more.
abbrev pub IsTold : Backend → Served → Server → Type 0
IsTold backend stopped s = (is_parting s.trace ≡ true) × (s.closed ≡ true)
IsTold backend (failed (session_failed c)) s =
    (latest s.trace ≡ some (wrote (diagnostic c))) × (s.closed ≡ true)
IsTold backend (failed teardown_failed) s =
    (latest s.trace ≡ some (wrote (diagnostic teardown_failure))) × (s.closed ≡ true)
IsTold backend (failed already_closed) s = false ≡ true
IsTold backend (failed unusable_root) s = s.trace ≡ []
IsTold backend (failed output_failed) s = backend.written s.trace ≡ false

-- What Serve leaves behind.
abbrev pub Ended : AuthorLibrary → Backend → Served × Server → Type 0
Ended a backend (r, s) =
    (is_authorized a s.trace ≡ true)
    × (is_output_failure r ≡ false → holds_browser backend s.trace ≡ false)
    × IsTold backend r s
