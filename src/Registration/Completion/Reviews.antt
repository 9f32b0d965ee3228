-- ===== src/Registration/Completion/Reviews.antt =====
-- About the kept review in the handlers of registrationauthorsession/session.go.
use browsertools.Prelude.{
  ◌≡◌, refl, sym, ◌∙◌, inl, inr, Bool, none, List, [], ◌∷◌, ◌++◌, arith, subst, Bool-cases, ltb,
}
use browsertools.Library.{Library}
use browsertools.Registration.Types.{
  Code, is_typed, canceled, browser_failure, Observation, invalid_observation,
}
use browsertools.Registration.Profile.{ClientMessage, ServerMessage, state}
use browsertools.Registration.Server.{Server, Event, Backend, Result, ok, err, Action}
use browsertools.Registration.Actions.{
  write, fail, fail_after_close, fail_browser, with_active, browser_call, is_success,
  max_protocol_line_bytes,
}
use browsertools.Registration.Handlers.{
  observe, remember, navigate, preview, approve_verification, forget, with_server,
}
use browsertools.Registration.Rules.{
  Assertion, Triple, Ends, weaken, after, followed_by, after_update, after_read, of_state,
  of_update, after_require, after_some, after_find, past_check,
}
use browsertools.Registration.Completion.{KeepsReview, ReviewIsOk}

-- An error ends the session without a completion, so nothing is asked of it.
abbrev pub Anything : Assertion
Anything s = Unit {0}

module _ (lib : Library) (backend : Backend) where
  abbrev pub Kept : Assertion
  Kept = KeepsReview lib

  pub kept_of_same :
      (s s' : Server)
      → s'.reviewed_profile ≡ s.reviewed_profile
      → s'.protocol ≡ s.protocol
      → Kept s
      → Kept s'
  kept_of_same s s' e p h = record {
    at = λ r f. subst (λ q. ReviewIsOk lib q r) (sym p) (h.at r (sym e ∙ f));
  }

  pub kept_of_none : (s : Server) → s.reviewed_profile ≡ none → Kept s
  kept_of_none s e = record { at = λ r f. cc }

  -- A failure asks for nothing.
  pub failed_anyhow :
      (A : Type 0) (Q : Assertion) (code : Code) (s : Server)
      → let m = fail lib backend {A = A} code in Ends Anything Q (m s).0 (m s).1
  unfolding fail fail_after_close
  failed_anyhow A Q code s = tt

  pub browser_failed_anyhow :
      (A : Type 0) (Q : Assertion) (s : Server)
      → let m = fail_browser lib backend {A = A} in Ends Anything Q (m s).0 (m s).1
  unfolding fail_browser
  browser_failed_anyhow A Q s = elim (Bool-cases (backend.canceled s.trace)) [
    | inl e ↦ rw e (failed_anyhow A Q canceled s)
    | inr e ↦ rw e (failed_anyhow A Q browser_failure s)
  ]

  ends_anyhow : {A : Type 0} (r : Result A) (s : Server) → Ends Anything Anything r s
  ends_anyhow (ok a) s = tt
  ends_anyhow (err e) s = tt

  pub anyhow : {A : Type 0} (m : Action A) → Triple Anything Anything m Anything
  anyhow m = record { at = λ s h. ends_anyhow (m s).0 (m s).1 }

  pub ends_Kept : {A : Type 0} (r : Result A) (s : Server) → Kept s → Ends Anything Kept r s
  ends_Kept (ok a) s h = h
  ends_Kept (err e) s h = tt

  pub write-same :
      (m : ServerMessage) (s : Server)
      → let s' = (write lib backend m s).1 in
        (s'.reviewed_profile ≡ s.reviewed_profile) × (s'.protocol ≡ s.protocol)
  unfolding write
  write-same m s = ground arith

  pub write-Kept : (m : ServerMessage) → Triple Anything Kept (write lib backend m) Kept
  write-Kept m = record {
    at = λ s h.
        let (same, protocol) = write-same m s in
        ends_Kept (write lib backend m s).0 (write lib backend m s).1
          (kept_of_same s _ same protocol h);
  }

  pub with_active-same :
      (call : Event) (reply : List Event → Bool) (s : Server)
      → let s' = (with_active lib backend call reply s).1 in
        (s'.reviewed_profile ≡ s.reviewed_profile) × (s'.protocol ≡ s.protocol)
  unfolding with_active
  with_active-same call reply s = ground arith

  call-Kept :
      (call : Event) (reply : List Event → Bool)
      → Triple Anything Kept (browser_call lib backend call reply) Kept
  unfolding browser_call
  call-Kept call reply = record {
    at = λ s h.
        let (status, s') = with_active lib backend call reply s in
        let (same, protocol) = with_active-same call reply s in
        elim (Bool-cases (is_success status)) [
          | inl e ↦ rw e (kept_of_same s s' same protocol h)
          | inr e ↦ rw e (browser_failed_anyhow (Unit {0}) Kept s')
        ];
  }

  pub state-Kept :
      (f : Server → ServerMessage)
      → Triple Anything Kept (with_server (λ s. write lib backend (f s))) Kept
  state-Kept f = of_state _ (λ s. write-Kept (f s))

  pub navigate-Kept : (m : ClientMessage) → Triple Anything Kept (navigate lib backend m) Kept
  unfolding navigate
  navigate-Kept m =
      after_require lib backend (λ c s h. tt) _ _ _
        λ method_ok. after_read _ _ λ p.
          after_some lib backend (λ c s h. tt) _ _ _
            λ (url, origin) clean.
              after_require lib backend (λ c s h. tt) _ _ _
                λ same.
                  past_check lib backend (λ c s h. tt) _ _ _
                    (after_update forget _ (λ s h. kept_of_none (forget s) refl)
                      (followed_by _ _ (call-Kept _ _) (state-Kept (λ s. state s.phase none))))

  remember-Kept : (o : Observation) → Triple Anything Kept (remember lib backend o) Kept
  unfolding remember
  remember-Kept o = record {
    at = λ s h.
        let s' = record s { history = s.history ++ o ∷ [] } in
        elim (Bool-cases (is_typed s.protocol)) [
          | inr e ↦ rw e h
          | inl e ↦
              elim (Bool-cases (ltb max_protocol_line_bytes (lib.history_length s'.history))) [
                | inl f ↦ rw (e, f) (failed_anyhow (Unit {0}) Kept invalid_observation s')
                | inr f ↦ rw (e, f) (kept_of_same s s' refl refl h)
              ]
        ];
  }

  pub observe-Kept : Triple Anything Anything (observe lib backend) Kept
  unfolding observe
  observe-Kept =
      after_update _ _ (λ s h. tt)
        (past_check lib backend (λ c s h. tt) _ _ _
          (followed_by _ _ (anyhow _) (
            after _ _ (anyhow _) λ o. after_read _ _ λ t.
              past_check lib backend (λ c s h. tt) _ _ _
                (after_update {P' = Kept} _ _ (λ s h. kept_of_none _ refl)
                  (followed_by _ _ (remember-Kept o) (write-Kept _))))))

  pub preview-Kept : (m : ClientMessage) → Triple Anything Kept (preview lib backend m) Kept
  unfolding preview
  preview-Kept m =
      past_check lib backend (λ c s h. tt) _ _ _
        (after_some lib backend (λ c s h. tt) _ _ _
          λ request given.
            after_find lib backend (λ c s h. tt) _ _ _
              λ r.
                past_check lib backend (λ c s h. tt) _ _ _
                  (weaken _ (λ s h. tt)
                    (followed_by _ _ (anyhow _) (
                      after_update _ _ (λ s h. tt)
                        (followed_by _ _ observe-Kept
                          (of_update _ (λ s h. kept_of_same s _ refl refl h)))))))

  pub approve_verification-Kept :
      (m : ClientMessage) → Triple Anything Kept (approve_verification lib backend m) Kept
  unfolding approve_verification
  approve_verification-Kept m =
      after_some lib backend (λ c s h. tt) _ _ _
        λ v given.
          past_check lib backend (λ c s h. tt) _ _ _
            (after_find lib backend (λ c s h. tt) _ _ _
              λ r.
                past_check lib backend (λ c s h. tt) _ _ _
                  (weaken _ (λ s h. tt)
                    (followed_by _ _ (anyhow _) (
                      after_update {P' = Kept} _ _ (λ s h. kept_of_none _ refl)
                        (state-Kept (λ s. state s.phase none))))))
