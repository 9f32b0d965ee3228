-- ===== src/Registration/Sent/Steps.antt =====
-- About the observations that the shared actions and navigate write.
use browsertools.Prelude.{
  ◌≡◌, refl, sym, subst, inl, inr, Bool, true, none, List, [], ◌∷◌, arith, Bool-cases, all, All,
}
use browsertools.Library.{Library}
use browsertools.Registration.Types.{
  Code, canceled, browser_failure, Candidate, Observation, RawObservation,
}
use browsertools.Registration.Profile.{ClientMessage, ServerMessage, state}
use browsertools.Registration.Server.{Server, Event, Backend, Result, ok, err}
use browsertools.Registration.Reduce.Candidates.{IsPortable}
use browsertools.Registration.Reduce.Portable.{IsDisclosable}
use browsertools.Registration.Reduce.Diagnostics.{AreCodes}
use browsertools.Registration.Actions.{
  write, close_session, fail, fail_after_close, fail_browser, with_active, browser_call, is_success,
}
use browsertools.Registration.Handlers.{navigate, forget, with_server}
use browsertools.Registration.Rules.{
  Assertion, Triple, Ends, followed_by, after_update, after_read, of_state, after_require,
  after_some, past_check,
}
use browsertools.Registration.Sent.{
  public_candidate, is_public, public_message, public_event, all_public, IsWritten, IsClean,
}

module _ (lib : Library) (backend : Backend) where
  abbrev pub Written : Assertion
  Written = IsWritten lib

  abbrev pub Clean : Assertion
  Clean = IsClean lib

  pub IsClean-IsWritten : (s : Server) → Clean s → Written s
  IsClean-IsWritten s h = record { sent = h.sent }

  pub clean_of :
      (s s' : Server)
      → s'.diagnostics ≡ s.diagnostics
      → all_public lib s'.trace ≡ true
      → Clean s
      → Clean s'
  clean_of s s' d t h = record { sent = t; codes = subst AreCodes (sym d) h.codes }

  fail-sent :
      (A : Type 0) (code : Code) (s : Server)
      → Written s
      → all_public lib (fail lib backend {A = A} code s).1.trace ≡ true
  unfolding fail fail_after_close write close_session
  fail-sent A code s h = ground (arith, h.sent)

  pub fail_after_close-sent :
      (A : Type 0) (Q : Assertion) (code : Code) (s : Server)
      → Written s
      → let m = fail_after_close lib backend {A = A} code in Ends Written Q (m s).0 (m s).1
  unfolding fail_after_close write
  fail_after_close-sent A Q code s h = record { sent = ground (arith, h.sent) }

  pub fails_written :
      (A : Type 0) (Q : Assertion) (code : Code) (s : Server)
      → Written s
      → let m = fail lib backend {A = A} code in Ends Written Q (m s).0 (m s).1
  unfolding fail fail_after_close
  fails_written A Q code s h = record { sent = fail-sent A code s h }

  pub fails_clean :
      (code : Code) (s : Server) → Clean s → Written (fail lib backend {A = Unit {0}} code s).1
  fails_clean code s h = record { sent = fail-sent (Unit {0}) code s (IsClean-IsWritten s h) }

  pub browser_fails_written :
      (A : Type 0) (Q : Assertion) (s : Server)
      → Written s
      → let m = fail_browser lib backend {A = A} in Ends Written Q (m s).0 (m s).1
  unfolding fail_browser
  browser_fails_written A Q s h = elim (Bool-cases (backend.canceled s.trace)) [
    | inl e ↦ rw e (fails_written A Q canceled s h)
    | inr e ↦ rw e (fails_written A Q browser_failure s h)
  ]

  pub ends_Clean : {A : Type 0} (r : Result A) (s : Server) → Clean s → Ends Written Clean r s
  ends_Clean (ok a) s h = h
  ends_Clean (err e) s h = IsClean-IsWritten s h

  write-sent :
      (m : ServerMessage) (s : Server)
      → public_message lib m ≡ true
      → all_public lib s.trace ≡ true
      → all_public lib (write lib backend m s).1.trace ≡ true
  unfolding write
  write-sent m s p h = ground arith

  write-same :
      (m : ServerMessage) (s : Server) → (write lib backend m s).1.diagnostics ≡ s.diagnostics
  unfolding write
  write-same m s = ground arith

  pub write-Clean :
      (m : ServerMessage)
      → public_message lib m ≡ true
      → Triple Written Clean (write lib backend m) Clean
  write-Clean m p = record {
    at = λ s h.
        let (r, s') = write lib backend m s in
        ends_Clean r s' (clean_of s s' (write-same m s) (write-sent m s p h.sent) h);
  }

  pub with_active-sent :
      (call : Event) (reply : List Event → Bool) (s : Server)
      → public_event lib call ≡ true
      → all_public lib s.trace ≡ true
      → all_public lib (with_active lib backend call reply s).1.trace ≡ true
  unfolding with_active
  with_active-sent call reply s p h = ground arith

  pub with_active-same :
      (call : Event) (reply : List Event → Bool) (s : Server)
      → (with_active lib backend call reply s).1.diagnostics ≡ s.diagnostics
  unfolding with_active
  with_active-same call reply s = ground arith

  pub call-Clean :
      (call : Event) (reply : List Event → Bool)
      → public_event lib call ≡ true
      → Triple Written Clean (browser_call lib backend call reply) Clean
  unfolding browser_call
  call-Clean call reply p = record {
    at = λ s h.
        let (status, s') = with_active lib backend call reply s in
        let clean =
          clean_of s s' (with_active-same call reply s) (with_active-sent call reply s p h.sent)
            h in
        elim (Bool-cases (is_success status)) [
          | inl e ↦ rw e clean
          | inr e ↦ rw e (browser_fails_written (Unit {0}) Clean s' (IsClean-IsWritten s' clean))
        ];
  }

  pub state-Clean :
      (f : Server → ServerMessage)
      → ((s : Server) → public_message lib (f s) ≡ true)
      → Triple Written Clean (with_server (λ s. write lib backend (f s))) Clean
  state-Clean f p = of_state _ (λ s. write-Clean (f s) (p s))

  pub navigate-Clean : (m : ClientMessage) → Triple Written Clean (navigate lib backend m) Clean
  unfolding navigate
  navigate-Clean m = after_require lib backend fails_clean _ _ _ λ _. after_read _ _ λ p.
      after_some lib backend (λ c s h. fails_clean c s h.0) _ _ _
        λ (url, origin) _.
          after_require lib backend (λ c s h. fails_clean c s h.0) _ _ _
            λ _.
              past_check lib backend (λ c s h. fails_clean c s h.0) _ _ _
                (after_update {P' = Clean} forget _ (λ s h. clean_of s (forget s) refl h.0.sent h.0)
                  (followed_by _ _ (call-Clean _ _ refl)
                    (state-Clean (λ s. state s.phase none) (λ s. refl))))

  all_public_candidates :
      (s : Server) (cs : List Candidate)
      → All (IsPortable lib s) cs
      → all (public_candidate lib) cs ≡ true
  all_public_candidates s [] h = refl
  all_public_candidates s (c ∷ cs) h =
      ground (arith, all_public_candidates s cs h.1, h.0.role, h.0.label, h.0.matched)

  pub IsDisclosable-public :
      (s : Server) (raw : RawObservation) (o : Observation)
      → IsDisclosable lib s raw o
      → is_public lib o ≡ true
  IsDisclosable-public s raw o h = ground (
    arith,
    all_public_candidates s o.candidates h.candidates,
    h.path,
    h.distinct,
    h.codes,
    h.sorted,
  )
