-- ===== src/Registration/Lifecycle/Observing.antt =====
-- About the use of the browser in observe of registrationauthorsession/session.go.
use browsertools.Prelude.{
  suc, ◌+◌, ◌≤◌, ◌≡◌, refl, inl, inr, pos, true, not, List, [], ◌∷◌, Bytes, arith, ◌++◌,
  Option-cases, Bool-cases, ltb_ℤ, ltb,
}
use browsertools.Library.{Library}
use browsertools.Registration.Types.{
  is_typed, RawObservation, Observation, Candidate, invalid_observation,
}
use browsertools.Registration.Origins.{exact_origin}
use browsertools.Registration.Reduce.{
  sort_candidates, reduce_candidates, reduce_observation, reduce_checked, reduce_codes,
}
use browsertools.Registration.Server.{Server, call_observe, Backend}
use browsertools.Registration.Actions.{max_protocol_line_bytes, require_some}
use browsertools.Registration.Handlers.{observe, reduce_raw, remember, clock_ok, observed_at}
use browsertools.Registration.Rules.{
  Assertion, Triple, Ends, weaken, after, followed_by, after_update, after_read, after_check,
}
use browsertools.Registration.Lifecycle.{observes}
use browsertools.Registration.Lifecycle.Primitives.{
  Sound, Ready, fails, fails_browser, write-ready, IsDue, browser_call-ready, ready_of_same,
  SameSession,
}
use browsertools.Registration.Lifecycle.Steps.{ready_fails, known_fails}

module _ (lib : Library) (backend : Backend) where
  reduce_codes-same :
      (raw : RawObservation) (origin : Bytes) (cs : List Candidate) (s : Server)
      → SameSession s (reduce_codes lib raw origin cs s).1
  unfolding reduce_codes
  reduce_codes-same raw origin cs s = ground arith

  reduce_checked-same :
      (raw : RawObservation) (origin : Bytes) (s : Server)
      → SameSession s (reduce_checked lib raw origin s).1
  unfolding reduce_checked
  reduce_checked-same raw origin s =
      let s' = record s { generation = s.generation + 1 } in
      elim (Option-cases
        (reduce_candidates lib s' s'.generation [] 0 (sort_candidates raw.candidates))) [
          | inl e ↦ rw (e, reduce_checked) (ground arith)
          | inr (cs, e) ↦
              rw (e, reduce_checked) (ground (arith, reduce_codes-same raw origin cs s'))
        ]

  pub reduce_observation-same :
      (raw : RawObservation) (s : Server) → SameSession s (reduce_observation lib raw s).1
  unfolding reduce_observation
  reduce_observation-same raw s = elim (Option-cases (exact_origin lib raw.origin)) [
    | inl e ↦ rw (e, reduce_observation) (ground arith)
    | inr (origin, e) ↦
        rw (e, reduce_observation) (ground (arith, reduce_checked-same raw origin s))
  ]

  reduce_observation-ready :
      (raw : RawObservation) (s : Server)
      → Ready lib backend s
      → Ready lib backend (reduce_observation lib raw s).1
  reduce_observation-ready raw s h = ready_of_same lib backend s _ (reduce_observation-same raw s) h

  reduced-ready :
      (raw : RawObservation) (s : Server)
      → Ready lib backend s
      → let (o, s') = reduce_observation lib raw s in
        let m = require_some lib backend o invalid_observation in
        Ends (Sound lib backend) (Ready lib backend) (m s').0 (m s').1
  unfolding require_some
  reduced-ready raw s h =
      let (o, s') = reduce_observation lib raw s in
      let r : Ready lib backend s' = reduce_observation-ready raw s h in
      elim (Option-cases o) [
        | inl e ↦
            rw e (fails lib backend Observation (Ready lib backend) invalid_observation s' r.sound)
        | inr (x, e) ↦ rw e r
      ]

  reduce_raw-ready :
      Triple (Sound lib backend) (Ready lib backend) (reduce_raw lib backend) (Ready lib backend)
  unfolding reduce_raw require_some
  reduce_raw-ready = record {
    at = λ s h. elim (Option-cases (backend.observed s.trace)) [
      | inl e ↦
          rw (e, reduce_raw) (fails_browser lib backend Observation (Ready lib backend) s h.sound)
      | inr (raw, e) ↦ rw (e, reduce_raw) (reduced-ready raw s h)
    ];
  }

  remember-ready :
      (o : Observation)
      → Triple (Sound lib backend) (Ready lib backend) (remember lib backend o) (Ready lib backend)
  unfolding remember
  remember-ready o = record {
    at = λ s h.
        let s' = record s { history = s.history ++ o ∷ [] } in
        let r : Ready lib backend s' = ready_of_same lib backend s s' (ground arith) h in
        elim (Bool-cases (is_typed s.protocol)) [
          | inr e ↦ rw e h
          | inl e ↦
              elim (Bool-cases (ltb max_protocol_line_bytes (lib.history_length s'.history))) [
                | inl f ↦
                    rw (e, f)
                      (fails lib backend (Unit {0}) (Ready lib backend) invalid_observation s'
                        r.sound)
                | inr f ↦ rw (e, f) r
              ]
        ];
  }

  -- The counter was raised for the observation that comes.
  abbrev Counted : Assertion
  Counted s = Ready lib backend s × (suc (observes s.trace) ≤ s.observations)

  counted :
      (s : Server)
      → Ready lib backend s
      → Ready lib backend (record s { observations = s.observations + 1 })
  counted s h = record {
    sound = record {
      live = h.sound.live;
      orderly = h.sound.orderly;
      within = h.sound.within;
      counted = ground (arith, h.sound.counted);
      dead = h.sound.dead;
    };
    going = h.going;
    opened = h.opened;
    started = h.started;
  }

  observe-IsDue :
      (s : Server)
      → Counted s
      → not (ltb_ℤ s.bounds.max_observations (pos s.observations)) ≡ true
      → IsDue lib backend call_observe s
  observe-IsDue s h room = record {
    ready = h.0;
    in_order = ground (arith, h.0.sound.live, h.0.sound.orderly, h.0.opened);
    stays_live = refl;
    within = ground (arith, h.1);
    counted = h.1;
  }

  pub observe-ready :
      Triple (Sound lib backend) (Ready lib backend) (observe lib backend) (Ready lib backend)
  unfolding observe
  observe-ready =
      after_update _ _ (λ s h. (counted s h, ground (arith, h.sound.counted)))
        (after_check lib backend (λ c s h. ready_fails lib backend c s h.0) _ _ _
          (weaken _ (λ s h. observe-IsDue s h.0 h.1)
            (followed_by _ _ (browser_call-ready lib backend _ _) (
              after _ _ reduce_raw-ready λ o. after_read _ _ λ t.
                after_check lib backend (known_fails lib backend _) (clock_ok lib backend t) _ _ (
                  after_update (observed_at lib backend t o) _
                    (λ s h. ready_of_same lib backend s _ (ground arith) h.0.0)
                    (followed_by _ _ (remember-ready o) (write-ready lib backend _)))))))
