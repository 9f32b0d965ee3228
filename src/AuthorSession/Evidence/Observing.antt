-- ===== src/AuthorSession/Evidence/Observing.antt =====
-- About the evidence in start, observe, focus and human_input_complete of authorsession/session.go.
use browsertools.Prelude.{
  ℕ, zero, suc, ap, ◌∙◌, Bool, some, any, get_elem?, some_injective, eq_ℤ, pos, ◌≡◌, refl, sym,
  subst, ◌&&◌, is_some, true, none, List, [], ◌∷◌, Bytes, bytes, bytes_eq, bytes_eq_refl, is_empty,
  ◌||◌, inl, inr, Bool-cases, Option-cases, arith, all-append,
}
use browsertools.Machine.Triples.{
  Triple, Ends-given, after, followed_by, after_update, weaken, of_pure, of_update, of_state,
}
use browsertools.AuthorSession.Types.{
  CandidateRecord, RawObservation, Observation, observation, Candidate, GoalPredicate, GoalProof,
  normalized_context, invalid_observation, ClientMessage,
}
use browsertools.AuthorSession.Goal.{match_goal}
use browsertools.AuthorSession.Goal.Success.{IsGoal, IsAt, IsAlone, match_goal-IsSole}
use browsertools.AuthorSession.Reduce.{reduce_observation}
use browsertools.AuthorSession.Reduce.Effects.{reduce_observation-diagnostics}
use browsertools.AuthorSession.Start.{start_session, approve_origins}
use browsertools.AuthorSession.HumanInput.{
  focus, focus_target, complete_human_input, await_input, input_step,
}
use browsertools.AuthorSession.Observing.{
  observe, reduce_raw, adopt, authenticate, offer_completion, at_dashboard, is_exploration,
}
use browsertools.AuthorSession.Server.{AuthorLibrary, Backend, Server}
use browsertools.AuthorSession.Actions.{require_some, write}
use browsertools.AuthorSession.Rules.{
  after_require, after_some, after_check, past_find, past_check, of_call, FailsInto, of_write,
}
use browsertools.AuthorSession.Evidence.{
  IsEvidence, Live, Kept, Lost, goal_ok, proves, is_of, step_ok,
}
use browsertools.AuthorSession.Evidence.Selecting.{all_cons}
use browsertools.AuthorSession.Evidence.Primitives.{fails, fails-Live, write-Live, call-Live}

proves-IsGoal : (p : GoalPredicate) (g : GoalProof) → IsGoal p g → proves p g ≡ true
proves-IsGoal p g h =
    let label : is_empty p.label || bytes_eq g.label p.label ≡ true = elim h.label [
      | inl e ↦ rw e refl
      | inr e ↦ rw e (ground (arith, bytes_eq_refl p.label))
    ] in
    rw (h.origin, h.path, h.context, h.role)
      (ground (
        arith,
        label,
        bytes_eq_refl p.origin,
        bytes_eq_refl p.path,
        bytes_eq_refl (normalized_context p.context),
        bytes_eq_refl p.role,
      ))

-- What is in the list passes the test somewhere.
any_there :
    (p : Candidate → Bool) (cs : List Candidate) (j : ℕ) (c : Candidate)
    → get_elem? cs j ≡ some c
    → p c ≡ true
    → any p cs ≡ true
any_there p [] j c h e = cc
any_there p (x ∷ cs) zero c h e =
    let here : p x ≡ true = ap p (some_injective h) ∙ e in ground (arith, here)
any_there p (x ∷ cs) (suc j) c h e = let later = any_there p cs j c h e in ground (arith, later)

is_of-IsAlone :
    (p : GoalPredicate) (o : Observation) (g : GoalProof)
    → IsAt o g
    → IsAlone p g o.candidates
    → is_of g o ≡ true
is_of-IsAlone p o g here alone =
    let c = alone.candidate in
    let found =
      any_there (λ x. bytes_eq x.role g.role && bytes_eq x.label g.label && eq_ℤ x.matches (pos 1))
        o.candidates alone.index c alone.there
        (rw (alone.role, alone.label, alone.once)
          (ground (arith, bytes_eq_refl c.role, bytes_eq_refl c.label))) in
    rw (here.origin, here.path, here.context)
      (ground (arith, found, bytes_eq_refl o.origin, bytes_eq_refl o.path, bytes_eq_refl o.context))

-- What matchGoal finds proves the predicate by the observation.
goal_ok-match_goal :
    (p : GoalPredicate) (o : Observation) → goal_ok p (match_goal p o) (some o) ≡ true
goal_ok-match_goal p o = elim (Option-cases (match_goal p o)) [
  | inl e ↦ rw e refl
  | inr (g, e) ↦
      let (sole, here, place, alone) = match_goal-IsSole p o g e in
      rw e (all_cons _ _ (proves-IsGoal p g place) (is_of-IsAlone p o g here alone))
]

module _ (a : AuthorLibrary) (backend : Backend) where
  focus_target-Live :
      (r : CandidateRecord) → Triple (Lost a) (Live a) (focus_target backend r) (λ _. Live a)
  unfolding focus_target
  focus_target-Live r = elim (Bool-cases (bytes_eq r.raw.input_kind (bytes "mfa"))) [
    | inl e ↦ rw e (of_pure tt (λ s p. p))
    | inr e ↦ rw e (call-Live a backend _ _ (λ t. (λ h. h, refl, refl)))
  ]

  pub focus-Live : (id : Bytes) → Triple (Lost a) (Live a) (focus backend id) (λ _. Live a)
  unfolding focus
  focus-Live id = past_find backend (fails-Live a backend) _ _ _ λ r.
      followed_by _ _ (focus_target-Live r)
        λ _. after_update (await_input id r) _ (λ s h. h) (write-Live a backend _ (λ t. refl))

  pub complete_human_input-Live :
      (id kind : Bytes)
      → Triple (Lost a) (Live a) (complete_human_input backend id kind) (λ _. Live a)
  unfolding complete_human_input input_step
  complete_human_input-Live id kind = past_find backend (fails-Live a backend) _ _ _ λ p.
      after_require backend (fails-Live a backend) _ _ _ λ k.
        after_update {P' = Live a} _ _
          (λ s h. (
            record {
              backed = h.0.backed;
              within = all-append step_ok s.steps (input_step p id kind ∷ []) h.0.within refl;
              goal = h.0.goal;
              selected = h.0.selected;
              human = h.0.human;
            },
            h.1,
          ))
          (write-Live a backend _ (λ t. refl))

  reduce_raw-Live :
      (id : Bytes) (raw : RawObservation)
      → Triple (Lost a) (Live a) (reduce_raw a backend id raw) (λ _. Live a)
  unfolding reduce_raw require_some
  reduce_raw-Live id raw = record {
    at = λ s p.
        let (r, s') = reduce_observation a raw id s in
        Ends-given r _ s' (fails-Live a backend _ invalid_observation)
          (subst (Live a) (sym (reduce_observation-diagnostics a raw id s)) p);
  }

  adopt-Live :
      (raw : RawObservation) (o : Observation × List (Bytes × CandidateRecord))
      → Triple (Lost a) (Live a) (adopt a backend raw o) (λ _. Live a)
  unfolding adopt
  adopt-Live raw (o, records) =
      past_find backend (fails-Live a backend) _ _ _
        λ contexts. after_update _ _ (λ s h. h) (of_pure _ (λ s h. h))

  authenticate-Live :
      (o : Observation) → Triple (Lost a) (Live a) (authenticate a backend o) (λ _. Live a)
  unfolding authenticate
  authenticate-Live o = record {
    at = λ s p. elim (Bool-cases (at_dashboard a backend o s)) [
      | inl e ↦
          rw (authenticate, e)
            ((after_some backend (fails-Live a backend) _ _ _ λ p q. of_update _ (λ s h. h)).at s p)
      | inr e ↦ rw (authenticate, e) p
    ];
  }

  offer_completion-Live : Triple (Lost a) (Live a) (offer_completion a backend) (λ _. Live a)
  unfolding offer_completion
  offer_completion-Live = record {
    at = λ s p. elim (Bool-cases (is_exploration s.phase && is_some s.goal_proof)) [
      | inl e ↦ rw (offer_completion, e) ((write-Live a backend _ (λ t. refl)).at s p)
      | inr e ↦ rw (offer_completion, e) p
    ];
  }

  -- The goal was matched with an observation that is not shown yet.
  abbrev Matched : Observation → Server → Type 0
  Matched o s =
      IsEvidence a s.trace s.steps s.start.goal_predicate none s.output_selections s.human_confirmed
      × (s.started ≡ true)
      × (s.goal_proof ≡ match_goal s.start.goal_predicate o)

  write-Matched :
      (o : Observation) → Triple (Lost a) (Matched o) (write backend (observation o)) (λ _. Live a)
  write-Matched o =
      of_write backend (observation o)
        (λ s h. (
          record {
            backed = h.0.backed;
            within = h.0.within;
            goal =
                subst (λ g. goal_ok s.start.goal_predicate g (some o) ≡ true) (sym h.2)
                  (goal_ok-match_goal s.start.goal_predicate o);
            selected = h.0.selected;
            human = h.0.human;
          },
          h.1,
        ))
        (λ s h e. h.0.backed)

  pub observe-Live :
      (context : Bytes) → Triple (Lost a) (Live a) (observe a backend context) (λ _. Live a)
  unfolding observe
  observe-Live context = past_check backend (fails-Live a backend) _ _ _ (
      after_update _ _ (λ s h. h)
        (past_check backend (fails-Live a backend) _ _ _ (
          after _ _ (call-Live a backend _ _ (λ t. (λ h. h, refl, refl))) λ raw.
            after _ _ (reduce_raw-Live _ raw) λ reduced. after _ _ (adopt-Live raw reduced) λ o.
              followed_by _ _ (authenticate-Live o) λ _.
                after_update {P' = Matched o} _ _
                  (λ s h. (
                    record {
                      backed = h.0.backed;
                      within = h.0.within;
                      goal = refl;
                      selected = h.0.selected;
                      human = h.0.human;
                    },
                    h.1,
                    refl,
                  ))
                  (followed_by _ _ (write-Matched o) λ _. offer_completion-Live))))

  -- Nothing is proved yet.
  abbrev Unproved : Server → Type 0
  Unproved s =
      IsEvidence a s.trace s.steps s.start.goal_predicate s.goal_proof s.output_selections
        s.human_confirmed
      × (s.goal_proof ≡ none)

  fails-Unproved : FailsInto backend (Lost a) Unproved
  fails-Unproved = fails a backend Unproved (λ s p. p.0.backed)

  approve_origins-Unproved :
      (m : ClientMessage) (p : GoalPredicate)
      → Triple (Lost a) Unproved (approve_origins a backend m p) (λ _. Unproved)
  unfolding approve_origins
  approve_origins-Unproved m p = past_find backend fails-Unproved _ _ _ λ origins.
      after_update {P' = Unproved} _ _ (λ s h. h)
        (after_some backend fails-Unproved _ _ _ λ g eg.
          after_some backend fails-Unproved _ _ _ λ i ei.
            after_require backend fails-Unproved _ _ _ λ e1.
              after_require backend fails-Unproved _ _ _ λ e2.
                after_some backend fails-Unproved _ _ _
                  λ d ed. after_require backend fails-Unproved _ _ _ λ e3. of_pure _ (λ s h. h))

  pub start_session-Live :
      (m : ClientMessage) → Triple (Lost a) (Kept a) (start_session a backend m) (λ _. Live a)
  unfolding start_session
  start_session-Live m = after_check backend (fails a backend (Kept a) (λ s h. h.0.backed)) _ _ _ (
      weaken {P' = Unproved} _ (λ s h. (h.0.0, h.0.1 (ground (arith, h.1))))
        (after_some backend fails-Unproved _ _ _ λ p e.
          after_update {P' = Unproved} _ _ (λ s h. h)
            (past_check backend fails-Unproved _ _ _ (
              after _ _ (approve_origins-Unproved m p) λ goal.
                after_update {P' = Unproved} _ _ (λ s h. h)
                  (followed_by {Q = λ _. Unproved} _ _
                    (of_state _ λ s.
                      weaken {P' = Unproved} _ (λ t q. q.0)
                        (of_call backend fails-Unproved fails-Unproved _ _ (λ t n q. (
                          record {
                            backed = q.0.backed;
                            within = q.0.within;
                            goal = q.0.goal;
                            selected = q.0.selected;
                            human = q.0.human;
                          },
                          q.1,
                        ))))
                    λ _.
                      after_update {P' = Live a} _ _
                        (λ s h. (
                          record {
                            backed = h.0.backed;
                            within = h.0.within;
                            goal = rw h.1 refl;
                            selected = h.0.selected;
                            human = h.0.human;
                          },
                          refl,
                        ))
                        (of_state _
                          λ s. weaken _ (λ t q. q.0) (write-Live a backend _ (λ t. refl))))))))
