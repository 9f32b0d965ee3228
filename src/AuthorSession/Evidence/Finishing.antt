-- ===== src/AuthorSession/Evidence/Finishing.antt =====
-- About the evidence in finish and close of authorsession/session.go.
use browsertools.Prelude.{
  ◌≡◌, refl, ◌∙◌, ◌&&◌, subst, true, Option, none, some, Bytes, bytes, arith, inl, inr, Bool-cases,
  Option-cases, some_injective, ap,
}
use browsertools.Machine.{value_or}
use browsertools.Machine.Triples.{
  Triple, Fails, Ends, Ends-checked, after, followed_by, after_update, weaken, of_Fails,
}
use browsertools.AuthorSession.Types.{
  Code, ServerMessage, GoalProof, OutputRequest, OutputSelection, RawObservation,
  output_selection_invalid, normalized_context, teardown_failure, artifact_write, result_invalid,
  state, diagnostic,
}
use browsertools.AuthorSession.Types
use browsertools.AuthorSession.Finish.{
  finish, finishable, is_completed, tear_down, store, closed_some, build_request,
  close_without_result,
}
use browsertools.AuthorSession.Server.{AuthorLibrary, Backend, Server}
use browsertools.AuthorSession.Actions.{close_session, fail_after_close, write}
use browsertools.AuthorSession.Rules.{after_find, of_write}
use browsertools.AuthorSession.Evidence.{
  IsEvidence, Backing, Backed, Live, Lost, is_supported, goal_ok, last_seen, is_confirmed,
}
use browsertools.AuthorSession.Evidence.Primitives.{fails-Live}
use browsertools.AuthorSession.Evidence.Selecting.{all_cons}

module _ (a : AuthorLibrary) (backend : Backend) where
  Fails-Backed :
      (A : Type 0) (code : Code)
      → Fails (Lost a) (λ s. Backed a s.trace) (fail_after_close backend {A = A} code)
  unfolding fail_after_close write
  Fails-Backed A code = record { at = λ s p. p }

  -- The goal is proved, and the session is about to be stored.
  abbrev Proved : GoalProof → Server → Type 0
  Proved goal s =
      IsEvidence a s.trace s.steps s.start.goal_predicate s.goal_proof s.output_selections
        s.human_confirmed
      × (s.goal_proof ≡ some goal)
      × (s.human_confirmed ≡ true)

  close_session-Proved :
      (goal : GoalProof) (s : Server) → Proved goal s → Proved goal (close_session backend s).1
  unfolding close_session
  close_session-Proved goal s h = elim (Bool-cases s.session) [
    | inl e ↦
        rw (close_session, e)
          (
            record {
              backed = h.0.backed;
              within = h.0.within;
              goal = h.0.goal;
              selected = h.0.selected;
              human = h.0.human;
            },
            h.1,
            h.2,
          )
    | inr e ↦ rw (close_session, e) h
  ]

  Fails-Proved :
      (goal : GoalProof) (A : Type 0) (code : Code)
      → Fails (Lost a) (Proved goal) (fail_after_close backend {A = A} code)
  Fails-Proved goal A code = weaken _ (λ s h. h.0.backed) (Fails-Backed A code)

  tear_down-Proved :
      (goal : GoalProof) → Triple (Lost a) (Proved goal) (tear_down a backend) (λ _. Proved goal)
  unfolding tear_down
  tear_down-Proved goal = record {
    at = λ s p.
        let (well, s') = close_session backend s in
        Ends-checked well _ s' (Fails-Proved goal _ teardown_failure)
          (close_session-Proved goal s p);
  }

  goal_of_finishable :
      (s : Server) (goal auth : GoalProof)
      → finishable s ≡ some (goal, auth)
      → (s.goal_proof ≡ some goal) × (s.human_confirmed ≡ true)
  goal_of_finishable s goal auth h = elim (Option-cases s.goal_proof) [
    | inl e ↦ cc (rw e at h)
    | inr (g, e) ↦ elim (Option-cases s.auth_proof) [
      | inl f ↦ cc (rw (e, f) at h)
      | inr (x, f) ↦ elim (Bool-cases (is_completed s.phase && s.human_confirmed)) [
        | inl k ↦ (e ∙ ap (λ q. some q.0) (some_injective (rw (e, f, k) at h)), ground (arith, k))
        | inr k ↦ cc (rw (e, f, k) at h)
      ]
    ]
  ]

  write-Backed :
      (m : ServerMessage)
      → Triple (Lost a) (λ s. Backed a s.trace) (write backend m) (λ _ s. Backed a s.trace)
  write-Backed m = of_write backend m (λ s h. h) (λ s h e. h)

  close_session-Backed :
      (s : Server) → Backed a s.trace → Backed a (close_session backend s).1.trace
  unfolding close_session
  close_session-Backed s h = elim (Bool-cases s.session) [
    | inl e ↦ rw (close_session, e) h
    | inr e ↦ rw (close_session, e) h
  ]

  -- What finish builds from the server has its support.
  build_request-is_supported :
      (goal auth : GoalProof) (s : Server)
      → Proved goal s
      → is_supported (last_seen s.trace) (build_request a goal auth s) ≡ true
  unfolding build_request
  build_request-is_supported goal auth s h =
      let shown =
        subst (λ g. goal_ok s.start.goal_predicate g (last_seen s.trace) ≡ true) h.1 h.0.goal in
      all_cons _ _ (all_cons _ _ h.0.within shown) h.0.selected

  -- The contents may be stored.
  abbrev Built : Bytes → Server → Type 0
  Built contents s =
      Backing a (last_seen s.trace) contents × (is_confirmed s.trace ≡ true) × Backed a s.trace

  built :
      (goal auth : GoalProof) (s : Server) (o : Option Bytes)
      → Proved goal s
      → a.build (build_request a goal auth s) ≡ o
      → let m = value_or o (fail_after_close backend result_invalid) in
        Ends (Lost a) Built (m s).0 (m s).1
  unfolding value_or
  built goal auth s none h e = (of_Fails _ (Fails-Proved goal _ result_invalid)).at s h
  built goal auth s (some contents) h e = (
    (build_request a goal auth s, e, build_request-is_supported goal auth s h),
    h.0.human h.2,
    h.0.backed,
  )

  store-Backed :
      (contents : Bytes)
      → Triple (Lost a) (Built contents) (store a backend contents) (λ _ s. Backed a s.trace)
  unfolding store
  store-Backed contents =
      after_update {P' = λ s. Backed a s.trace} _ _ (λ s h. h)
        (record {
          at = λ s p. Ends-checked (backend.kept s.trace) _ s (Fails-Backed _ artifact_write) p;
        })

  pub finish-Backed : Triple (Lost a) (λ s. Live a s) (finish a backend) (λ _ s. Backed a s.trace)
  unfolding finish closed_some
  finish-Backed = after_find backend (fails-Live a backend) _ _ _ λ (goal, auth).
      weaken {P' = Proved goal} _
        (λ s h. let (proved, human) = goal_of_finishable s goal auth h.1 in (h.0.0, proved, human))
        (followed_by _ _ (tear_down-Proved goal) λ _.
          after {Q = Built} _ _
            (record {
              at = λ s p. built goal auth s (a.build (build_request a goal auth s)) p refl;
            })
            λ contents. followed_by _ _ (store-Backed contents) λ _.
              after_update {P' = λ s. Backed a s.trace} _ _ (λ s h. h)
                (of_write backend _ (λ s h. h) (λ s h e. h)))

  pub close_without_result-Backed :
      Triple
        (Lost a)
        (λ s. Backed a s.trace)
        (close_without_result a backend)
        (λ _ s. Backed a s.trace)
  unfolding close_without_result write
  close_without_result-Backed = record {
    at = λ s p.
        let (well, s') = close_session backend s in
        let q = close_session-Backed s p in
        elim (Bool-cases well) [
          | inl e ↦
              rw (close_without_result, e)
                ((write-Backed (state Types.closed (bytes "main") none)).at
                  (record s' { closed = true }) q)
          | inr e ↦ rw (close_without_result, e) q
        ];
  }
