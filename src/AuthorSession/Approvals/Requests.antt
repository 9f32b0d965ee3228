-- ===== src/AuthorSession/Approvals/Requests.antt =====
-- About the authority of requestExecute of authorsession/session.go.
use browsertools.Prelude.{
  ◌≡◌, refl, ap, true, false, Option, none, some, List, [], ◌∷◌, Bytes, bytes_eq_refl, member, inl,
  inr, Bool-cases, is_empty, is_some, arith,
}
use browsertools.Machine.Triples.{Triple, of_Fails, weaken}
use browsertools.AuthorSession.Types.{
  ActionKind, ApprovalKind, ClientMessage, CandidateRecord, PendingApproval,
}
use browsertools.AuthorSession.Origins.{origin_for_url}
use browsertools.AuthorSession.Execution.{
  is_click, action_for, next_approval, require_approval, clickable, approval_of, request_navigation,
  request_target, request_click, request_kind, request_execute,
}
use browsertools.Registration.Server.{lookup}
use browsertools.AuthorSession.Reduce.Shown.{shows}
use browsertools.AuthorSession.HumanInput.{browser_action_for_record}
use browsertools.AuthorSession.Server.{AuthorLibrary, Backend, Server}
use browsertools.AuthorSession.Rules.{after_require, after_some, after_find, past_check, FailsInto}
use browsertools.AuthorSession.Approvals.{
  Sound, shown, Clear, Resting, Lost, allows_execute, is_fit, granted, given, on_origin,
}
use browsertools.AuthorSession.Approvals.Primitives.{fails, fails-Clear}
use browsertools.AuthorSession.Approvals.Approving.{execute-Resting, require_approval-Resting}

on_origin_of :
    (o : Option Bytes) (origin : Bytes) (origins : List Bytes)
    → o ≡ some origin
    → member origin origins ≡ true
    → on_origin o origins ≡ true
on_origin_of o origin origins e h = rw e h

clickable_there :
    (o : Option CandidateRecord) (r : CandidateRecord) → clickable o ≡ some r → is_some o ≡ true
clickable_there none r h = cc
clickable_there (some x) r h = refl

module _ (a : AuthorLibrary) (backend : Backend) where
  -- A navigation to an origin among the granted ones is allowed.
  pub may_navigate :
      (m : ClientMessage) (r : CandidateRecord) (s : Server)
      → is_click m.action ≡ false
      → on_origin (origin_for_url a.base a.urls m.url) (granted s.trace) ≡ true
      → allows_execute a s.trace (action_for m r) ≡ true
  unfolding action_for
  may_navigate m r s e h = rw (action_for, e) (rw (action_for, e) h)

  -- A click is allowed by the approval of its own message.
  pub may_click :
      (p : PendingApproval) (r : CandidateRecord) (s : Server)
      → p.kind ≡ ApprovalKind.action
      → is_click p.message.action ≡ true
      → given s.trace ≡ some (approval_of p)
      → Sound a backend s
      → lookup p.message.candidate_id s.candidates ≡ some r
      → allows_execute a s.trace (action_for p.message r) ≡ true
  unfolding action_for browser_action_for_record
  may_click p r s k e h sound f =
      let there : shows a (shown s.trace) p.message.candidate_id r ≡ true =
        sound.known p.message.candidate_id r f in
      ground (arith, there)

  request_navigation-Resting :
      (m : ClientMessage)
      → is_click m.action ≡ false
      → Triple
          (Lost a backend)
          (Clear a backend)
          (request_navigation a backend m)
          (λ _. Resting a backend)
  unfolding request_navigation
  request_navigation-Resting m c = after_require backend (fails-Clear a backend) _ _ _ λ f.
      past_check backend (fails-Clear a backend) _ _ _ (
        after_some backend (fails-Clear a backend) _ _ _ λ origin e. record {
          at = λ s p. elim (Bool-cases (member origin s.origins)) [
            | inl h ↦ rw h (
                (execute-Resting a backend m).at s (
                  p,
                  may_navigate m _ s c
                      (on_origin_of _ origin (granted s.trace) e (p.0.covers origin h)),
                ))
            | inr h ↦ rw h (
                (require_approval-Resting a backend ApprovalKind.origin m origin (λ t. ground (
                  arith,
                  c,
                  on_origin_of _ origin (origin ∷ []) e (ground (arith, bytes_eq_refl origin)),
                ))).at
                  s (p, λ x. cc (c, x)))
          ];
        })

  -- The candidate of the message is known.
  abbrev Aimed : ClientMessage → Server → Type 0
  Aimed m s = Clear a backend s × (is_some (lookup m.candidate_id s.candidates) ≡ true)

  fails-Aimed : (m : ClientMessage) → FailsInto backend (Lost a backend) (Aimed m)
  fails-Aimed m = fails a backend (Aimed m) (λ s h. h.0.0.account)

  ask-Resting :
      (kind : ApprovalKind) (m : ClientMessage) (origin : Bytes)
      → ((s : Server) → is_fit a kind (next_approval a backend kind m origin s) ≡ true)
      → Triple
          (Lost a backend)
          (Aimed m)
          (require_approval a backend kind m origin)
          (λ _. Resting a backend)
  ask-Resting kind m origin fit =
      weaken _ (λ s h. (h.0, λ e. h.1)) (require_approval-Resting a backend kind m origin fit)

  request_target-Resting :
      (m : ClientMessage) (r : CandidateRecord)
      → is_click m.action ≡ true
      → Triple (Lost a backend) (Aimed m) (request_target a backend m r) (λ _. Resting a backend)
  unfolding request_target
  request_target-Resting m r c = elim (Bool-cases (is_empty r.raw.target_origin)) [
    | inl e ↦ rw e (ask-Resting ApprovalKind.action m [] (λ s. c))
    | inr e ↦ rw e (
        after_some backend (fails-Aimed m) _ _ _ λ origin f. record {
          at = λ s p. elim (Bool-cases (member origin s.origins)) [
            | inl h ↦ rw h ((ask-Resting ApprovalKind.action m [] (λ s. c)).at s p)
            | inr h ↦ rw h ((ask-Resting ApprovalKind.origin_action m origin (λ s. c)).at s p)
          ];
        })
  ]

  request_click-Resting :
      (m : ClientMessage)
      → is_click m.action ≡ true
      → Triple
          (Lost a backend)
          (Clear a backend)
          (request_click a backend m)
          (λ _. Resting a backend)
  unfolding request_click
  request_click-Resting m c = after_require backend (fails-Clear a backend) _ _ _ λ e1.
      after_find backend (fails-Clear a backend) _ _ _ λ r.
        weaken {P' = Aimed m} _
          (λ s h. (h.0, clickable_there (lookup m.candidate_id s.candidates) r h.1))
          (after_require backend (fails-Aimed m) _ _ _
            λ e2. after_require backend (fails-Aimed m) _ _ _ λ e3. request_target-Resting m r c)

  request_kind-Resting :
      (kind : ActionKind) (m : ClientMessage)
      → m.action ≡ kind
      → Triple
          (Lost a backend)
          (Clear a backend)
          (request_kind a backend kind m)
          (λ _. Resting a backend)
  unfolding request_kind
  request_kind-Resting ActionKind.navigate_get m e = request_navigation-Resting _ (ap is_click e)
  request_kind-Resting ActionKind.click m e = request_click-Resting m (ap is_click e)
  request_kind-Resting _ m e = of_Fails _ (fails-Clear a backend _ _)

  pub request_execute-Resting :
      (m : ClientMessage)
      → Triple
          (Lost a backend)
          (Clear a backend)
          (request_execute a backend m)
          (λ _. Resting a backend)
  unfolding request_execute
  request_execute-Resting m = request_kind-Resting m.action m refl
