-- ===== src/AuthorSession/Evidence/Executing.antt =====
-- About the evidence in execute, approve, deny and human_complete of authorsession/session.go.
use browsertools.Prelude.{
  ◌≡◌, refl, false, none, [], ◌∷◌, Bytes, all-append, member, inl, inr, Bool-cases, arith, is_empty,
}
use browsertools.Registration.Server.{lookup}
use browsertools.Machine.Triples.{
  Triple, after, followed_by, after_update, weaken, of_update, of_state, of_Fails,
}
use browsertools.AuthorSession.Types.{
  ActionKind, ApprovalKind, CandidateRecord, ClientMessage, BrowserAction, PendingApproval,
  normalized_context,
}
use browsertools.AuthorSession.Execution.{
  execute, execute_on, action_for, step_for, record_of, require_approval, request_navigation,
  request_target, request_click, request_kind, request_execute, grant, approved, approve, deny,
}
use browsertools.AuthorSession.Server.{AuthorLibrary, Backend, Server, call_execute}
use browsertools.AuthorSession.Actions.{browser_call}
use browsertools.AuthorSession.Rules.{
  after_require, after_some, past_find, past_check, past_answer, of_call,
}
use browsertools.AuthorSession.Evidence.{Live, Lost, step_ok}
use browsertools.AuthorSession.Evidence.Primitives.{fails, fails-Live, write-Live}

module _ (a : AuthorLibrary) (backend : Backend) where
  -- No completion is confirmed, and no goal is proved.
  abbrev Unconfirmed : Server → Type 0
  Unconfirmed s = Live a s × (s.human_confirmed ≡ false) × (s.goal_proof ≡ none)

  call_execute-Live :
      (act : BrowserAction)
      → Triple
          (Lost a)
          Unconfirmed
          (browser_call backend (call_execute act) backend.executed)
          (λ _. Live a)
  call_execute-Live act =
      of_call backend (fails a backend Unconfirmed (λ s p. p.0.0.backed)) (fails-Live a backend) _ _
        (λ s n p. (
          record {
            backed = p.0.0.backed;
            within = p.0.0.within;
            goal = rw p.2 refl;
            selected = p.0.0.selected;
            human = λ e. cc (p.1, e);
          },
          p.0.1,
        ))

  execute_on-Live :
      (r : CandidateRecord) (m : ClientMessage)
      → Triple (Lost a) (Live a) (execute_on a backend r m) (λ _. Live a)
  unfolding execute_on step_for
  execute_on-Live r m =
      after_update {P' = Unconfirmed} _ _
        (λ s h. (
          (
            record {
              backed = h.0.backed;
              within = h.0.within;
              goal = refl;
              selected = h.0.selected;
              human = λ e. cc;
            },
            h.1,
          ),
          refl,
          refl,
        ))
        (after _ _ (call_execute-Live (action_for m r)) λ e.
          after_require backend (fails-Live a backend) _ _ _ λ w.
            past_find backend (fails-Live a backend) _ _ _ λ contexts.
              after_update {P' = Live a} _ _
                (λ s h. (
                  record {
                    backed = h.0.backed;
                    within =
                        all-append step_ok s.steps (step_for a m r s.phase e ∷ []) h.0.within
                          (ground (arith, w));
                    goal = h.0.goal;
                    selected = h.0.selected;
                    human = h.0.human;
                  },
                  h.1,
                ))
                (of_state _ λ s. weaken _ (λ t q. q.0) (write-Live a backend _ (λ t. refl))))

  execute-Live : (m : ClientMessage) → Triple (Lost a) (Live a) (execute a backend m) (λ _. Live a)
  unfolding execute
  execute-Live m = record {
    at = λ s p. (execute_on-Live (record_of (lookup m.candidate_id s.candidates)) m).at s p;
  }

  require_approval-Live :
      (kind : ApprovalKind) (m : ClientMessage) (origin : Bytes)
      → Triple (Lost a) (Live a) (require_approval a backend kind m origin) (λ _. Live a)
  unfolding require_approval
  require_approval-Live kind m origin = past_check backend (fails-Live a backend) _ _ _ (
      of_state _
        λ s. after_update {P' = Live a} _ _ (λ t h. h.0) (write-Live a backend _ (λ t. refl)))

  request_navigation-Live :
      (m : ClientMessage) → Triple (Lost a) (Live a) (request_navigation a backend m) (λ _. Live a)
  unfolding request_navigation
  request_navigation-Live m = after_require backend (fails-Live a backend) _ _ _ λ f.
      past_check backend (fails-Live a backend) _ _ _ (
        after_some backend (fails-Live a backend) _ _ _ λ origin e. record {
          at = λ s p. elim (Bool-cases (member origin s.origins)) [
            | inl h ↦ rw h ((execute-Live m).at s p)
            | inr h ↦ rw h ((require_approval-Live ApprovalKind.origin m origin).at s p)
          ];
        })

  request_target-Live :
      (m : ClientMessage) (r : CandidateRecord)
      → Triple (Lost a) (Live a) (request_target a backend m r) (λ _. Live a)
  unfolding request_target
  request_target-Live m r = elim (Bool-cases (is_empty r.raw.target_origin)) [
    | inl e ↦ rw e (require_approval-Live ApprovalKind.action m [])
    | inr e ↦ rw e (
        after_some backend (fails-Live a backend) _ _ _ λ origin f. record {
          at = λ s p. elim (Bool-cases (member origin s.origins)) [
            | inl h ↦ rw h ((require_approval-Live ApprovalKind.action m []).at s p)
            | inr h ↦ rw h ((require_approval-Live ApprovalKind.origin_action m origin).at s p)
          ];
        })
  ]

  request_click-Live :
      (m : ClientMessage) → Triple (Lost a) (Live a) (request_click a backend m) (λ _. Live a)
  unfolding request_click
  request_click-Live m = after_require backend (fails-Live a backend) _ _ _ λ e1.
      past_find backend (fails-Live a backend) _ _ _ λ r.
        after_require backend (fails-Live a backend) _ _ _
          λ e2. after_require backend (fails-Live a backend) _ _ _ λ e3. request_target-Live m r

  request_kind-Live :
      (kind : ActionKind) (m : ClientMessage)
      → Triple (Lost a) (Live a) (request_kind a backend kind m) (λ _. Live a)
  unfolding request_kind
  request_kind-Live ActionKind.navigate_get m =
      request_navigation-Live (record m { context = normalized_context m.context })
  request_kind-Live ActionKind.click m = request_click-Live m
  request_kind-Live _ m = of_Fails _ (fails-Live a backend _ _)

  pub request_execute-Live :
      (m : ClientMessage) → Triple (Lost a) (Live a) (request_execute a backend m) (λ _. Live a)
  unfolding request_execute
  request_execute-Live m = request_kind-Live m.action m

  grant-Live : (origin : Bytes) → Triple (Lost a) (Live a) (grant a backend origin) (λ _. Live a)
  unfolding grant
  grant-Live origin =
      after_update {P' = Live a} _ _
        (λ s h. (
          record {
            backed = h.0.backed;
            within = h.0.within;
            goal = h.0.goal;
            selected = h.0.selected;
            human = h.0.human;
          },
          h.1,
        ))
        (past_answer backend (fails-Live a backend) _ _ _ (of_update _ (λ s h. h)))

  approved-Live :
      (kind : ApprovalKind) (p : PendingApproval)
      → Triple (Lost a) (Live a) (approved a backend kind p) (λ _. Live a)
  unfolding approved
  approved-Live ApprovalKind.origin p =
      followed_by _ _ (grant-Live p.origin) λ _. execute-Live p.message
  approved-Live ApprovalKind.origin_action p =
      followed_by _ _ (grant-Live p.origin) λ _. request_execute-Live p.message
  approved-Live ApprovalKind.action p = execute-Live p.message

  pub approve-Live : (id : Bytes) → Triple (Lost a) (Live a) (approve a backend id) (λ _. Live a)
  unfolding approve
  approve-Live id =
      past_find backend (fails-Live a backend) _ _ _
        λ p. after_update {P' = Live a} _ _ (λ s h. h) (approved-Live p.kind p)

  pub deny-Live : (id : Bytes) → Triple (Lost a) (Live a) (deny a backend id) (λ _. Live a)
  unfolding deny
  deny-Live id =
      past_find backend (fails-Live a backend) _ _ _
        λ p. after_update {P' = Live a} _ _ (λ s h. h) (of_Fails _ (fails-Live a backend _ _))
