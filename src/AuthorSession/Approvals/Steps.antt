-- ===== src/AuthorSession/Approvals/Steps.antt =====
-- About the authority of the handlers of authorsession/session.go that need no approval.
use browsertools.Prelude.{
  ◌≡◌, refl, Option, none, some, ◌&&◌, is_some, List, Bytes, inl, inr, Bool-cases, bytes_eq, bytes,
  subst, sym,
}
use browsertools.Machine.Triples.{
  Triple, Ends, of_Fails, after, followed_by, after_update, of_pure, of_update,
}
use browsertools.AuthorSession.Types.{
  CandidateRecord, RawObservation, Observation, invalid_observation, observation,
}
use browsertools.AuthorSession.Reduce.{reduce_observation}
use browsertools.Machine.{value_or}
use browsertools.Registration.Server.{lookup}
use browsertools.AuthorSession.Reduce.Shown.{AllShown, reduce_observation-AllShown}
use browsertools.AuthorSession.Reduce.Effects.{reduce_observation-diagnostics}
use browsertools.AuthorSession.HumanInput.{focus, focus_target, complete_human_input, await_input}
use browsertools.AuthorSession.Observing.{
  observe, reduce_raw, adopt, authenticate, offer_completion, at_dashboard, is_exploration,
}
use browsertools.AuthorSession.Server.{AuthorLibrary, Backend, Server}
use browsertools.AuthorSession.Actions.{require_some, fail, write}
use browsertools.AuthorSession.Rules.{
  after_require, after_some, past_find, past_check, of_write, FailsInto,
}
use browsertools.AuthorSession.Approvals.{Clear, Loose, Resting, Lost}
use browsertools.AuthorSession.Approvals.Primitives.{
  fails, fails-Clear, write-Resting, call-Clear, Clear-Resting,
}

module _ (a : AuthorLibrary) (backend : Backend) where
  focus_target-Clear :
      (r : CandidateRecord)
      → Triple (Lost a backend) (Clear a backend) (focus_target backend r) (λ _. Clear a backend)
  unfolding focus_target
  focus_target-Clear r = elim (Bool-cases (bytes_eq r.raw.input_kind (bytes "mfa"))) [
    | inl e ↦ rw e (of_pure tt (λ s p. p))
    | inr e ↦ rw e (call-Clear a backend _ _ (λ t. (refl, refl, refl, refl)))
  ]

  pub focus-Resting :
      (id : Bytes)
      → Triple (Lost a backend) (Clear a backend) (focus backend id) (λ _. Resting a backend)
  unfolding focus
  focus-Resting id = past_find backend (fails-Clear a backend) _ _ _ λ r.
      followed_by _ _ (focus_target-Clear r)
        λ _. after_update (await_input id r) _ (λ s h. h) (write-Resting a backend _ (λ t. refl))

  pub complete_human_input-Resting :
      (id kind : Bytes)
      → Triple
          (Lost a backend)
          (Clear a backend)
          (complete_human_input backend id kind)
          (λ _. Resting a backend)
  unfolding complete_human_input
  complete_human_input-Resting id kind = past_find backend (fails-Clear a backend) _ _ _ λ p.
      after_require backend (fails-Clear a backend) _ _ _
        λ _. after_update _ _ (λ s h. h) (write-Resting a backend _ (λ t. refl))

  -- What a reduction returns has all its records shown.
  reduced-AllShown :
      (r : Option (Observation × List (Bytes × CandidateRecord))) (s : Server)
      → Clear a backend s
      → ((x : Observation × List (Bytes × CandidateRecord)) → r ≡ some x → AllShown a x)
      → let m = value_or r (fail backend invalid_observation) in
        Ends (Lost a backend) (λ x t. Clear a backend t × AllShown a x) (m s).0 (m s).1
  unfolding value_or
  reduced-AllShown none s h k =
      (of_Fails (fail backend invalid_observation) (fails-Clear a backend _ invalid_observation)).at
        s h
  reduced-AllShown (some x) s h k = (h, k x refl)

  reduce_raw-AllShown :
      (id : Bytes) (raw : RawObservation)
      → Triple
          (Lost a backend)
          (Clear a backend)
          (reduce_raw a backend id raw)
          (λ x s. Clear a backend s × AllShown a x)
  unfolding reduce_raw require_some
  reduce_raw-AllShown id raw = record {
    at = λ s p.
        let (r, s') = reduce_observation a raw id s in
        reduced-AllShown r s'
          (subst (Clear a backend) (sym (reduce_observation-diagnostics a raw id s)) p)
          (reduce_observation-AllShown a raw id s);
  }

  -- The observation shows all candidates that are kept, once it is written.
  abbrev Observed : Observation → Server → Type 0
  Observed o s = Loose a backend s × AllShown a (o, s.candidates)

  fails-Observed : (o : Observation) → FailsInto backend (Lost a backend) (Observed o)
  fails-Observed o = fails a backend (Observed o) (λ s h. h.0.0.account)

  adopt-Observed :
      (raw : RawObservation) (x : Observation × List (Bytes × CandidateRecord))
      → Triple
          (Lost a backend)
          (λ s. Clear a backend s × AllShown a x)
          (adopt a backend raw x)
          Observed
  unfolding adopt lookup
  adopt-Observed raw (o, records) =
      past_find backend
        (fails a backend (λ s. Clear a backend s × AllShown a (o, records)) (λ s h. h.0.0.account))
        _ _ _
        λ contexts.
          after_update {P' = Observed (record o { contexts = contexts })} _ _
            (λ s h. (
              (
                record {
                  account = h.0.0.account;
                  covers = h.0.0.covers;
                  going = h.0.0.going;
                  known = λ id r f. cc;
                },
                h.0.1,
              ),
              h.1,
            ))
            (of_pure _ (λ s h. h))

  authenticate-Observed :
      (o : Observation)
      → Triple (Lost a backend) (Observed o) (authenticate a backend o) (λ _. Observed o)
  unfolding authenticate
  authenticate-Observed o = record {
    at = λ s p. elim (Bool-cases (at_dashboard a backend o s)) [
      | inl e ↦
          rw (authenticate, e)
            ((after_some backend (fails-Observed o) _ _ _ λ p q. of_update _ (λ s h. h)).at s p)
      | inr e ↦ rw (authenticate, e) p
    ];
  }

  write-Shown :
      (o : Observation)
      → Triple (Lost a backend) (Observed o) (write backend (observation o)) (λ _. Clear a backend)
  write-Shown o =
      of_write backend (observation o)
        (λ s h. (
          record {
            account = h.0.0.account;
            covers = h.0.0.covers;
            going = h.0.0.going;
            known = h.1;
          },
          h.0.1,
        ))
        (λ s h e. (h.0.0.account.0, e))

  offer_completion-Resting :
      Triple
        (Lost a backend)
        (Clear a backend)
        (offer_completion a backend)
        (λ _. Resting a backend)
  unfolding offer_completion
  offer_completion-Resting = record {
    at = λ s p. elim (Bool-cases (is_exploration s.phase && is_some s.goal_proof)) [
      | inl e ↦ rw (offer_completion, e) ((write-Resting a backend _ (λ t. refl)).at s p)
      | inr e ↦ rw (offer_completion, e) (Clear-Resting a backend s p)
    ];
  }

  pub observe-Resting :
      (context : Bytes)
      → Triple
          (Lost a backend)
          (Clear a backend)
          (observe a backend context)
          (λ _. Resting a backend)
  unfolding observe
  observe-Resting context = past_check backend (fails-Clear a backend) _ _ _ (
      after_update _ _ (λ s h. h)
        (past_check backend (fails-Clear a backend) _ _ _ (
          after _ _ (call-Clear a backend _ _ (λ t. (refl, refl, refl, refl))) λ raw.
            after _ _ (reduce_raw-AllShown _ raw) λ reduced.
              after _ _ (adopt-Observed raw reduced) λ o.
                followed_by _ _ (authenticate-Observed o) λ _.
                  after_update {P' = Observed o} _ _ (λ s h. h)
                    (followed_by _ _ (write-Shown o) λ _. offer_completion-Resting))))
