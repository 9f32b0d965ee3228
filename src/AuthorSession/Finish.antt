-- ===== src/AuthorSession/Finish.antt =====
-- The handlers `complete`, `finish` and `closeWithoutResult` of authorsession/session.go.
use browsertools.Prelude.{
  ℕ, zero, suc, Bool, true, false, ◌&&◌, Option, none, some, List, [], ◌∷◌, ◌++◌, Bytes, bytes,
  if◌then◌else◌,
}
use browsertools.Text.{sort_strings}
use browsertools.Machine
use browsertools.Machine.{done, pure, err, ◌>>=◌, ◌>>◌, update, with_state}
use browsertools.AuthorSession.Types
use browsertools.AuthorSession.Types.{
  Phase, completed, closed, GoalProof, OutputRequest, OutputSelection, BuildRequest, state,
  diagnostic, result, artifact_write, completion_denied, invalid_state, output_selection_invalid,
  result_invalid, teardown_failure,
}
use browsertools.AuthorSession.Vocabulary.{default_title}
use browsertools.AuthorSession.Observing.{is_exploration}
use browsertools.AuthorSession.Outputs.{review_outputs}
use browsertools.AuthorSession.Server.{
  AuthorLibrary, stored, Backend, Server, Failure, Action, teardown_failed,
}
use browsertools.AuthorSession.Actions.{write, require_some, close_session, fail_after_close}

abbrev pub is_completed : Phase → Bool
is_completed completed = true
is_completed _ = false

-- s[:n] of a text that is long enough
abbrev pub first_bytes : ℕ → Bytes → Bytes
first_bytes zero s = []
first_bytes (suc n) [] = []
first_bytes (suc n) (c ∷ s) = c ∷ first_bytes n s

-- The goal proof and the requests of a completion that may be reviewed.
abbrev pub completable :
    Bool → Option (List OutputRequest) → Server → Option (GoalProof × List OutputRequest)
completable confirmed none s = none
completable confirmed (some requests) s = elim s.goal_proof [
  | none ↦ none
  | some proof ↦ if is_exploration s.phase && confirmed then some (proof, requests) else none
]

-- The two proofs of a session that is completed and confirmed.
abbrev pub finishable : Server → Option (GoalProof × GoalProof)
finishable s = elim s.goal_proof [
  | none ↦ none
  | some goal ↦ elim s.auth_proof [
    | none ↦ none
    | some auth ↦ if is_completed s.phase && s.human_confirmed then some (goal, auth) else none
  ]
]

module _ (a : AuthorLibrary) where
  unfoldable pub build_request : GoalProof → GoalProof → Server → BuildRequest
  build_request goal auth s = record {
    observed_at = s.observed_at;
    title = default_title a.base s.start.title;
    goal = s.start.goal;
    initial_url = s.start.url;
    dashboard_url = s.start.dashboard_url;
    origins = sort_strings s.origins;
    contexts = s.contexts;
    bounds = s.bounds;
    trace = s.steps;
    goal_predicate = s.start.goal_predicate;
    goal_proof = goal;
    output_selections = s.output_selections;
    authentication_proof = auth;
    human_confirmed = true;
    diagnostics = s.diagnostics;
  }

  -- dataDigest
  unfoldable pub data_digest : Bytes → Bytes
  data_digest contents = bytes "sha256:" ++ a.sha256_hex contents

  unfoldable pub artifact_path : Bytes → Bytes
  artifact_path contents = a.in_private_root (
      bytes "authenticated-authoring-" ++ (first_bytes 16 (a.sha256_hex contents) ++ bytes ".json"))

  module _ (backend : Backend) where
    unfoldable pub review : GoalProof → List OutputRequest → Action (List OutputSelection)
    review proof requests s =
        let (r, s') = review_outputs a backend proof requests s in
        require_some backend r output_selection_invalid s'

    -- complete
    unfoldable pub complete : Bool → Option (List OutputRequest) → Action (Unit {0})
    unfolding review
    complete confirmed outputs = do
      (proof, requests) ←
          with_state (λ s. require_some backend (completable confirmed outputs s) completion_denied)
      selections ← review proof requests
      update (λ s. record s {
        output_selections = selections;
        human_confirmed = true;
        phase = completed;
      })
      write backend (state completed proof.context none)

    -- The value, or a failure of a session that is closed already.
    unfoldable pub closed_some : {A : Type 0} → Option A → Types.Code → Action A
    closed_some o code = Machine.value_or o (fail_after_close backend code)

    -- Close the session; an error of Close fails it.
    unfoldable pub tear_down : Action (Unit {0})
    tear_down s =
        let (well, s') = close_session backend s in
        Machine.guard well (fail_after_close backend teardown_failure) s'

    -- writePrivateExclusive
    unfoldable pub store : Bytes → Action (Unit {0})
    store contents = do
      update (λ s. record s { trace = stored (artifact_path contents) contents ∷ s.trace })
      with_state
          (λ s. Machine.guard (backend.kept s.trace) (fail_after_close backend artifact_write))

    -- finish
    unfoldable pub finish : Action (Unit {0})
    unfolding closed_some tear_down store build_request
    finish = do
      (goal, auth) ← with_state (λ s. require_some backend (finishable s) invalid_state)
      tear_down
      contents ← with_state (λ s. closed_some (a.build (build_request goal auth s)) result_invalid)
      store contents
      update (λ s. record s { closed = true })
      write backend (result (artifact_path contents) (data_digest contents))

  module _ (backend : Backend) where
    -- The error of Close, and its diagnostic, which is tried.
    abbrev report_teardown : Server → Machine.Result Failure (Unit {0}) × Server
    report_teardown s = (err teardown_failed, (write backend (diagnostic teardown_failure) s).1)

    -- closeWithoutResult
    unfoldable pub close_without_result : Action (Unit {0})
    close_without_result s =
        let (well, s') = close_session backend s in
        let s'' = record s' { closed = true } in
        if well then write backend (state closed (bytes "main") none) s'' else report_teardown s''
