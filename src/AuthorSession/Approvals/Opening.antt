-- ===== src/AuthorSession/Approvals/Opening.antt =====
-- About the authority of start and human_complete of authorsession/session.go.
use browsertools.Prelude.{
  ◌≡◌, refl, sym, ap, ◌∙◌, ◌*◌, leb, pos_part, some, ◌∷◌, arith, Bool, true, false, Option, none,
  List, [], Bytes, pos, length, leb_ℤ, ◌&&◌, inl, inr, Bool-cases, member, subst,
}
use browsertools.Text.Sorting.{member-sort_strings}
use browsertools.Machine.Triples.{
  Triple, Ends-given, after, followed_by, after_update, of_pure, of_state, weaken,
}
use browsertools.AuthorSession.Types.{
  ClientMessage, GoalPredicate, GoalProof, OutputRequest, output_selection_invalid,
  normalized_context,
}
use browsertools.AuthorSession.Outputs.{review_outputs, requests_ok, output_limit}
use browsertools.AuthorSession.Start.{start_session, approve_origins, open_request, total_time}
use browsertools.AuthorSession.Finish.{complete, review}
use browsertools.AuthorSession.Server.{
  AuthorLibrary, BrowserRequest, Event, Backend, Server, call_observe, call_open,
}
use browsertools.AuthorSession.Actions.{require_some, browser_call, success}
use browsertools.AuthorSession.Rules.{
  after_require, after_some, past_find, past_check, with_active_keeps, FailsInto, after_check,
  of_reply,
}
use browsertools.AuthorSession.Approvals.{
  Clear, Resting, Lost, is_authorized, AccountOf, Known, holds_browser, granted,
}
use browsertools.AuthorSession.Approvals.Primitives.{fails, fails-Clear, write-Resting, Sound-plain}

module _ (a : AuthorLibrary) (backend : Backend) where
  review_outputs-Clear :
      (proof : GoalProof) (requests : List OutputRequest) (s : Server)
      → Clear a backend s
      → Clear a backend (review_outputs a backend proof requests s).1
  unfolding review_outputs
  review_outputs-Clear proof [] s h = elim (Bool-cases (leb_ℤ (pos 0) (output_limit s))) [
    | inl e ↦ rw (review_outputs, e) h
    | inr e ↦ rw (review_outputs, e) h
  ]
  review_outputs-Clear proof (request ∷ rest) s h =
      let context = normalized_context proof.context in
      let requests = request ∷ rest in
      elim (Bool-cases (
        leb_ℤ (pos (length requests)) (output_limit s) && requests_ok a context s [] [] requests)) [
          | inl e ↦
              rw (review_outputs, e)
                (with_active_keeps backend (Clear a backend) (call_observe context) backend.observed
                  s h
                  (λ n. (
                    Sound-plain a backend _ s.trace s.origins s.closed s.session s.started
                        s.candidates (λ t. (refl, refl, refl, refl)) h.0,
                    h.1,
                  )))
          | inr e ↦ rw (review_outputs, e) h
        ]

  review-Clear :
      (proof : GoalProof) (requests : List OutputRequest)
      → Triple
          (Lost a backend)
          (Clear a backend)
          (review a backend proof requests)
          (λ _. Clear a backend)
  unfolding review require_some
  review-Clear proof requests = record {
    at = λ s p.
        let (r, s') = review_outputs a backend proof requests s in
        Ends-given r _ s' (fails-Clear a backend _ output_selection_invalid)
          (review_outputs-Clear proof requests s p);
  }

  pub complete-Resting :
      (confirmed : Bool) (outputs : Option (List OutputRequest))
      → Triple
          (Lost a backend)
          (Clear a backend)
          (complete a backend confirmed outputs)
          (λ _. Resting a backend)
  unfolding complete
  complete-Resting confirmed outputs =
      past_find backend (fails-Clear a backend) _ _ _ λ (proof, requests).
        after _ _ (review-Clear proof requests)
          λ selections. after_update _ _ (λ s h. h) (write-Resting a backend _ (λ t. refl))

  -- Nothing is open, and the origins of the server are not granted yet.
  abbrev Unopened : Server → Type 0
  Unopened s =
      AccountOf a backend s
      × (s.closed ≡ false)
      × (s.pending ≡ none)
      × (s.session ≡ false)
      × Known a backend s.trace s.candidates

  fails-Unopened : FailsInto backend (Lost a backend) Unopened
  fails-Unopened = fails a backend Unopened (λ s p. p.0)

  -- Nothing waits, and nothing is open.
  abbrev Fresh : Server → Type 0
  Fresh s = Clear a backend s × (s.session ≡ false)

  fails-Fresh : FailsInto backend (Lost a backend) Fresh
  fails-Fresh = fails a backend Fresh (λ s p. p.0.0.account)

  approve_origins-Unopened :
      (m : ClientMessage) (p : GoalPredicate)
      → Triple (Lost a backend) Fresh (approve_origins a backend m p) (λ _. Unopened)
  unfolding approve_origins
  approve_origins-Unopened m p = past_find backend fails-Fresh _ _ _ λ origins.
      after_update {P' = Unopened} _ _
        (λ s h. (h.0.0.account, h.0.0.going, h.0.1, h.1, h.0.0.known))
        (after_some backend fails-Unopened _ _ _ λ g eg.
          after_some backend fails-Unopened _ _ _ λ i ei.
            after_require backend fails-Unopened _ _ _ λ e1.
              after_require backend fails-Unopened _ _ _ λ e2.
                after_some backend fails-Unopened _ _ _
                  λ d ed. after_require backend fails-Unopened _ _ _ λ e3. of_pure _ (λ s h. h))

  -- The active time is all of the total time.
  abbrev Timed : Server → Type 0
  Timed s = Unopened s × (s.active_remaining ≡ total_time a s)

  -- The browser is open, with the origins of the server.
  abbrev Opened : Server → Type 0
  Opened s =
      (is_authorized a s.trace ≡ true)
      × (holds_browser backend s.trace ≡ true)
      × ((o : Bytes) → member o s.origins ≡ true → member o (granted s.trace) ≡ true)
      × (s.closed ≡ false)
      × (s.pending ≡ none)
      × Known a backend s.trace s.candidates

  module _ (r : BrowserRequest) (t : List Event) where
    -- Whether the total time of the request was over when Open returned.
    abbrev is_late : Bool
    is_late = leb (pos_part r.total_timeout_ms * 1000000) (backend.elapsed (call_open r ∷ t))

    late_open : is_late ≡ true → holds_browser backend (call_open r ∷ t) ≡ false
    late_open h = ground (arith, h)

    refused_open :
        success (backend.opened (call_open r ∷ t)) ≡ none
        → holds_browser backend (call_open r ∷ t) ≡ false
    refused_open h = elim (Bool-cases (backend.opened (call_open r ∷ t))) [
      | inl e ↦ cc (rw e at h)
      | inr e ↦ ground (arith, e)
    ]

    held_open :
        (x : Unit {0})
        → is_late ≡ false
        → success (backend.opened (call_open r ∷ t)) ≡ some x
        → holds_browser backend (call_open r ∷ t) ≡ true
    held_open x l h = elim (Bool-cases (backend.opened (call_open r ∷ t))) [
      | inl e ↦ ground (arith, e, l)
      | inr e ↦ cc (rw e at h)
    ]

  timed :
      (url : Bytes) (s t : Server) (b : Bool)
      → t.active_remaining ≡ total_time a s
      → leb t.active_remaining (backend.elapsed (call_open (open_request a url s) ∷ t.trace)) ≡ b
      → is_late (open_request a url s) t.trace ≡ b
  timed url s t b e l =
      subst (λ n. leb n (backend.elapsed (call_open (open_request a url s) ∷ t.trace)) ≡ b) e l

  -- Open hands over the browser, or none is held.
  call_open-Opened :
      (url : Bytes) (s : Server)
      → Triple
          (Lost a backend)
          (λ t. Timed t × (t ≡ s))
          (browser_call backend
            (call_open (open_request a url s))
            (λ t. success (backend.opened t)))
          (λ _. Opened)
  call_open-Opened url s =
      let r = open_request a url s in
      of_reply backend (fails a backend (λ t. Timed t × (t ≡ s)) (λ t q. q.0.0.0))
        (fails a backend (AccountOf a backend) (λ t q. q)) _ _
        (λ t q l. (
          q.0.0.0.0,
          q.0.0.3
              ∙ sym (late_open r t.trace (timed url s t true (q.0.1 ∙ ap (total_time a) q.1) l)),
          q.0.0.0.2,
        ))
        (λ t n q e. (q.0.0.0.0, q.0.0.3 ∙ sym (refused_open r t.trace e), q.0.0.0.2))
        (λ t n x q l e. (
          q.0.0.0.0,
          held_open r t.trace x (timed url s t false (q.0.1 ∙ ap (total_time a) q.1) l) e,
          λ o h. member-sort_strings o s.origins ∙ subst (λ y. member o y.origins ≡ true) q.1 h,
          q.0.0.1,
          q.0.0.2,
          q.0.0.4,
        ))

  pub start_session-Resting :
      (m : ClientMessage)
      → Triple
          (Lost a backend)
          (Clear a backend)
          (start_session a backend m)
          (λ _. Resting a backend)
  unfolding start_session
  start_session-Resting m = after_check backend (fails-Clear a backend) _ _ _ (
      weaken {P' = Fresh} _ (λ s h. (h.0, h.0.0.account.2 (ground (arith, h.1))))
        (after_some backend fails-Fresh _ _ _ λ p e.
          after_update {P' = Fresh} _ _ (λ s h. h)
            (past_check backend fails-Fresh _ _ _ (
              after _ _ (approve_origins-Unopened m p) λ goal.
                after_update {P' = Timed} _ _ (λ s h. (h, refl))
                  (followed_by {Q = λ _. Opened} _ _ (of_state _ λ s. call_open-Opened m.url s) λ _.
                    after_update {P' = Clear a backend} _ _
                      (λ s h. (
                        record {
                          account = (h.0, sym h.1, λ e. cc);
                          covers = h.2;
                          going = h.3;
                          known = h.5;
                        },
                        h.4,
                      ))
                      (of_state _
                        λ s. weaken _ (λ t q. q.0) (write-Resting a backend _ (λ t. refl))))))))
