-- ===== src/Registration/Sent/Handlers.antt =====
-- About the observations that the handlers of registrationauthorsession/session.go write.
use browsertools.Prelude.{
  ◌≡◌, refl, ◌∙◌, ap, inl, inr, true, ◌&&◌, none, some, [], ◌∷◌, ◌++◌, Bytes, is_some, Bool-cases,
  Option-cases, ltb,
}
use browsertools.Library.{Library}
use browsertools.Registration.Types.{
  Code, is_typed, canceled, browser_failure, Observation, RawObservation, invalid_observation,
}
use browsertools.Registration.Profile.{Profile, Flow, ClientMessage, state}
use browsertools.Registration.Server.{
  Server, Backend, Result, ok, err, Action, ◌>>=◌, continue_with, BrowserRequest, call_open,
}
use browsertools.Registration.Reduce.{reduce_observation}
use browsertools.Registration.Reduce.Portable.{reduce_observation-IsDisclosable}
use browsertools.Registration.Actions.{
  fail, fail_after_close, fail_browser, is_success, require_some, max_protocol_line_bytes,
}
use browsertools.Registration.Handlers.{
  start, open_browser, open_session, observe, reduce_raw, remember, preview, approve_verification,
}
use browsertools.Registration.Session.{review, review_choice}
use browsertools.Registration.Rules.{
  Triple, Ends, weaken, followed_by, after_update, after_read, of_state, of_update, after_require,
  after_some, after_find, past_check,
}
use browsertools.Registration.Sent.{is_public, all_public, IsWritten, IsClean}
use browsertools.Registration.Sent.Steps.{
  Written, Clean, IsClean-IsWritten, clean_of, fails_written, fails_clean, browser_fails_written,
  write-Clean, with_active-sent, with_active-same, call-Clean, state-Clean, IsDisclosable-public,
}
use browsertools.Registration.Lifecycle.Observing.{reduce_observation-same}

module _ (lib : Library) (backend : Backend) where
  -- After the reduction: the observation is public.
  abbrev Reduced : Result Observation → Server → Type 0
  Reduced (ok o) s = IsClean lib s × (is_public lib o ≡ true)
  Reduced (err e) s = IsWritten lib s

  fail-Reduced :
      (code : Code) (s : Server)
      → IsWritten lib s
      → let m = fail lib backend {A = Observation} code in Reduced (m s).0 (m s).1
  unfolding fail fail_after_close
  fail-Reduced code s h = fails_written lib backend Observation (λ s. Unit {0}) code s h

  fail_browser-Reduced :
      (s : Server)
      → IsWritten lib s
      → let m = fail_browser lib backend {A = Observation} in Reduced (m s).0 (m s).1
  unfolding fail_browser
  fail_browser-Reduced s h = elim (Bool-cases (backend.canceled s.trace)) [
    | inl e ↦ rw e (fail-Reduced canceled s h)
    | inr e ↦ rw e (fail-Reduced browser_failure s h)
  ]

  reduce_observation-Reduced :
      (raw : RawObservation) (s : Server)
      → IsClean lib s
      → let (o, s') = reduce_observation lib raw s in
        let m = require_some lib backend o invalid_observation in Reduced (m s').0 (m s').1
  unfolding require_some
  reduce_observation-Reduced raw s h =
      let (o, s') = reduce_observation lib raw s in
      let same = (reduce_observation-same lib backend raw s).trace in
      let sent = ap (all_public lib) same ∙ h.sent in
      elim (Option-cases o) [
        | inl e ↦ rw e (fail-Reduced invalid_observation s' (record { sent = sent }))
        | inr (x, e) ↦
            let pair : reduce_observation lib raw s ≡ (some x, s') = ap (λ y. (y, s')) e in
            let (fine, codes) = reduce_observation-IsDisclosable lib raw s s' x h.codes pair in
            rw e
              (record { sent = sent; codes = codes }, IsDisclosable-public lib backend s raw x fine)
      ]

  reduce_raw-Reduced :
      (s : Server) → IsClean lib s → let m = reduce_raw lib backend in Reduced (m s).0 (m s).1
  unfolding reduce_raw
  reduce_raw-Reduced s h = elim (Option-cases (backend.observed s.trace)) [
    | inl e ↦ rw (e, reduce_raw) (fail_browser-Reduced s (IsClean-IsWritten lib backend s h))
    | inr (raw, e) ↦ rw (e, reduce_raw) (reduce_observation-Reduced raw s h)
  ]

  -- To go on with a public observation.
  with_reduced :
      (r : Result Observation) (s : Server) (f : Observation → Action (Unit {0}))
      → Reduced r s
      → ((o : Observation)
          → is_public lib o ≡ true
          → Triple (Written lib backend) (Clean lib backend) (f o) (Clean lib backend))
      → let e = continue_with f (r, s) in Ends (Written lib backend) (Clean lib backend) e.0 e.1
  with_reduced (ok o) s f h k = (k o h.1).at s h.0
  with_reduced (err e) s f h k = h

  after_reduce :
      (f : Observation → Action (Unit {0}))
      → ((o : Observation)
          → is_public lib o ≡ true
          → Triple (Written lib backend) (Clean lib backend) (f o) (Clean lib backend))
      → Triple
          (Written lib backend)
          (Clean lib backend)
          (reduce_raw lib backend >>= f)
          (Clean lib backend)
  unfolding ◌>>=◌
  after_reduce f k = record {
    at = λ s h.
        let (r, s') = reduce_raw lib backend s in
        unfold ◌>>=◌ in with_reduced r s' f (reduce_raw-Reduced s h) k;
  }

  remember-Clean :
      (o : Observation)
      → Triple
          (Written lib backend)
          (Clean lib backend)
          (remember lib backend o)
          (Clean lib backend)
  unfolding remember
  remember-Clean o = record {
    at = λ s h.
        let s' = record s { history = s.history ++ o ∷ [] } in
        let clean = clean_of lib backend s s' refl h.sent h in
        elim (Bool-cases (is_typed s.protocol)) [
          | inr e ↦ rw e h
          | inl e ↦
              elim (Bool-cases (ltb max_protocol_line_bytes (lib.history_length s'.history))) [
                | inl f ↦
                    rw (e, f)
                      (fails_written lib backend (Unit {0}) (Clean lib backend) invalid_observation
                        s' (IsClean-IsWritten lib backend s' clean))
                | inr f ↦ rw (e, f) clean
              ]
        ];
  }

  pub observe-Clean :
      Triple (Written lib backend) (Clean lib backend) (observe lib backend) (Clean lib backend)
  unfolding observe
  observe-Clean =
      after_update _ _ (λ s h. clean_of lib backend s _ refl h.sent h)
        (past_check lib backend (fails_clean lib backend) _ _ _ (
          followed_by _ _ (call-Clean lib backend _ _ refl) (
            after_reduce _ λ o public. after_read _ _ λ t.
              past_check lib backend (λ c s h. fails_clean lib backend c s h.0) _ _ _
                (after_update {P' = Clean lib backend} _ _
                  (λ s h. clean_of lib backend s _ refl h.0.sent h.0)
                  (followed_by _ _ (remember-Clean o) (write-Clean lib backend _ public))))))

  pub preview-Clean :
      (m : ClientMessage)
      → Triple (Written lib backend) (Clean lib backend) (preview lib backend m) (Clean lib backend)
  unfolding preview
  preview-Clean m = past_check lib backend (fails_clean lib backend) _ _ _ (
      after_some lib backend (fails_clean lib backend) _ _ _ λ request _.
        after_find lib backend (fails_clean lib backend) _ _ _ λ r.
          past_check lib backend (λ c s h. fails_clean lib backend c s h.0) _ _ _
            (weaken _ (λ s h. h.0)
              (followed_by _ _ (call-Clean lib backend _ _ refl) (
                after_update {P' = Clean lib backend} _ _
                  (λ s h. clean_of lib backend s _ refl h.sent h)
                  (followed_by _ _ observe-Clean
                    (of_update _ (λ s h. clean_of lib backend s _ refl h.sent h)))))))

  pub approve_verification-Clean :
      (m : ClientMessage)
      → Triple
          (Written lib backend)
          (Clean lib backend)
          (approve_verification lib backend m)
          (Clean lib backend)
  unfolding approve_verification
  approve_verification-Clean m = after_some lib backend (fails_clean lib backend) _ _ _ λ v _.
      past_check lib backend (fails_clean lib backend) _ _ _ (
        after_find lib backend (fails_clean lib backend) _ _ _ λ r.
          past_check lib backend (λ c s h. fails_clean lib backend c s h.0) _ _ _
            (weaken _ (λ s h. h.0)
              (followed_by _ _ (call-Clean lib backend _ _ refl) (
                after_update {P' = Clean lib backend} _ _
                  (λ s h. clean_of lib backend s _ refl h.sent h)
                  (state-Clean lib backend (λ s. state s.phase none) (λ s. refl))))))

  open_session-Clean :
      (r : BrowserRequest)
      → Triple
          (Written lib backend)
          (Clean lib backend)
          (open_session lib backend r)
          (Clean lib backend)
  unfolding open_session open_browser
  open_session-Clean r = record {
    at = λ s h.
        let call = call_open r in
        let (status, s') = open_browser lib backend r s in
        let clean : IsClean lib s' =
          clean_of lib backend s s' (with_active-same lib backend call backend.opened_well s)
            (with_active-sent lib backend call backend.opened_well s refl h.sent) h in
        elim (Bool-cases (is_success status && is_some s'.session)) [
          | inl e ↦ rw e (clean_of lib backend s' _ refl clean.sent clean)
          | inr e ↦ rw e (
              browser_fails_written lib backend (Unit {0}) (Clean lib backend) s'
                (IsClean-IsWritten lib backend s' clean))
        ];
  }

  pub start-Clean :
      (m : ClientMessage)
      → Triple (Written lib backend) (Clean lib backend) (start lib backend m) (Clean lib backend)
  unfolding start
  start-Clean m = after_require lib backend (fails_clean lib backend) _ _ _ λ _. after_read _ _ λ p.
      after_some lib backend (λ c s h. fails_clean lib backend c s h.0) _ _ _
        λ (url, origin) _.
          after_require lib backend (λ c s h. fails_clean lib backend c s h.0) _ _ _
            λ _.
              after_some lib backend (λ c s h. fails_clean lib backend c s h.0) _ _ _
                λ origins _.
                  after_require lib backend (λ c s h. fails_clean lib backend c s h.0) _ _ _
                    λ _.
                      after_require lib backend (λ c s h. fails_clean lib backend c s h.0) _ _ _
                        λ _.
                          after_update {P' = Clean lib backend} _ _
                            (λ s h. clean_of lib backend s _ refl h.0.sent h.0)
                            (followed_by _ _ (of_state _ (λ s. open_session-Clean _)) (
                              state-Clean lib backend (λ s. state s.phase (some s.bounds))
                                (λ s. refl)))

  review_choice-Clean :
      (m : ClientMessage) (p : Profile) (encoded : Bytes) (flow : Flow)
      → Triple
          (Written lib backend)
          (Clean lib backend)
          (review_choice lib backend m p encoded flow)
          (Clean lib backend)
  unfolding review_choice
  review_choice-Clean m p encoded flow =
      after_require lib backend (fails_clean lib backend) _ _ _ λ _.
        past_check lib backend (fails_clean lib backend) _ _ _ (
          past_check lib backend (fails_clean lib backend) _ _ _ (
            after_find lib backend (fails_clean lib backend) _ _ _ λ reviewed.
              after_require lib backend (λ c s h. fails_clean lib backend c s h.0) _ _ _
                λ _.
                  after_update {P' = Clean lib backend} _ _
                    (λ s h. clean_of lib backend s _ refl h.0.sent h.0)
                    (state-Clean lib backend (λ s. state s.phase none) (λ s. refl))))

  pub review-Clean :
      (m : ClientMessage)
      → Triple (Written lib backend) (Clean lib backend) (review lib backend m) (Clean lib backend)
  unfolding review
  review-Clean m = past_check lib backend (fails_clean lib backend) _ _ _ (
      after_some lib backend (fails_clean lib backend) _ _ _ λ p _.
        past_check lib backend (fails_clean lib backend) _ _ _ (
          past_check lib backend (fails_clean lib backend) _ _ _ (
            past_check lib backend (fails_clean lib backend) _ _ _ (
              after_some lib backend (fails_clean lib backend) _ _ _ λ encoded _.
                past_check lib backend (fails_clean lib backend) _ _ _ (
                  past_check lib backend (fails_clean lib backend) _ _ _ (
                    after_require lib backend (fails_clean lib backend) _ _ _ λ _.
                      after_some lib backend (fails_clean lib backend) _ _ _
                        λ flow _. review_choice-Clean m p encoded flow))))))
