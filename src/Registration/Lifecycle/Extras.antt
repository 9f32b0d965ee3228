-- ===== src/Registration/Lifecycle/Extras.antt =====
-- About the use of the browser in preview, approveVerification and review.
use browsertools.Prelude.{◌≡◌, refl, true, none, Bytes, arith}
use browsertools.Library.{Library}
use browsertools.Registration.Types.{is_typed, PreviewRequest, CandidateRecord, HumanVerification}
use browsertools.Registration.Profile.{Profile, Flow, ClientMessage, state}
use browsertools.Registration.Server.{Server, call_preview, call_approve, Backend}
use browsertools.Registration.Handlers.{
  preview, approve_verification, forget, preview_ok, approval_ok,
}
use browsertools.Registration.Session.{review, review_choice}
use browsertools.Registration.Rules.{
  Triple, weaken, followed_by, after_update, of_update, after_require, after_some, after_check,
  after_find, past_check,
}
use browsertools.Registration.Lifecycle.Primitives.{
  Sound, Ready, IsDue, browser_call-ready, ready_of_same,
}
use browsertools.Registration.Lifecycle.Steps.{ready_fails, known_fails, write_state-ready}
use browsertools.Registration.Lifecycle.Observing.{observe-ready}

module _ (lib : Library) (backend : Backend) where
  preview-IsDue :
      (request : PreviewRequest) (r : CandidateRecord) (s : Server)
      → Ready lib backend s
      → is_typed s.protocol ≡ true
      → preview_ok lib backend request r s ≡ true
      → IsDue lib backend (call_preview r.protocol request) s
  preview-IsDue request r s h typed good = record {
    ready = h;
    in_order = ground (arith, h.sound.live, h.sound.orderly, h.opened);
    stays_live = refl;
    within = h.sound.within;
    counted = h.sound.counted;
  }

  pub preview-ready :
      (message : ClientMessage)
      → Triple
          (Sound lib backend)
          (Ready lib backend)
          (preview lib backend message)
          (Ready lib backend)
  unfolding preview
  preview-ready message = after_check lib backend (ready_fails lib backend) _ _ _ (
      after_some lib backend (known_fails lib backend _) _ _ _ λ request given.
        after_find lib backend (known_fails lib backend _) _ _ _ λ r.
          after_check lib backend (λ c s h. ready_fails lib backend c s h.0.0) _ _ _
            (weaken _ (λ s h. preview-IsDue request r s h.0.0.0 h.0.0.1 h.1)
              (followed_by _ _ (browser_call-ready lib backend _ _) (
                after_update forget _ (λ s h. ready_of_same lib backend s _ (ground arith) h)
                  (followed_by _ _ (observe-ready lib backend)
                    (of_update _ (λ s h. ready_of_same lib backend s _ (ground arith) h)))))))

  approve-IsDue :
      (v : HumanVerification) (s : Server)
      → Ready lib backend s
      → approval_ok lib backend v s ≡ true
      → IsDue lib backend (call_approve v) s
  approve-IsDue v s h good = record {
    ready = h;
    in_order = ground (arith, h.sound.live, h.sound.orderly, h.opened);
    stays_live = refl;
    within = h.sound.within;
    counted = h.sound.counted;
  }

  pub approve_verification-ready :
      (message : ClientMessage)
      → Triple
          (Sound lib backend)
          (Ready lib backend)
          (approve_verification lib backend message)
          (Ready lib backend)
  unfolding approve_verification
  approve_verification-ready message =
      after_some lib backend (ready_fails lib backend) _ _ _ λ v given.
        after_check lib backend (ready_fails lib backend) _ _ _ (
          after_find lib backend (known_fails lib backend _) _ _ _ λ r.
            after_check lib backend (λ c s h. ready_fails lib backend c s h.0.0) _ _ _
              (weaken _ (λ s h. approve-IsDue v s h.0.0.0 h.0.0.1)
                (followed_by _ _ (browser_call-ready lib backend _ _) (
                  after_update _ _ (λ s h. ready_of_same lib backend s _ (ground arith) h)
                    (write_state-ready lib backend (λ s. state s.phase none))))))

  review_choice-ready :
      (message : ClientMessage) (p : Profile) (encoded : Bytes) (flow : Flow)
      → Triple
          (Sound lib backend)
          (Ready lib backend)
          (review_choice lib backend message p encoded flow)
          (Ready lib backend)
  unfolding review_choice
  review_choice-ready message p encoded flow =
      after_require lib backend (ready_fails lib backend) _ _ _ λ cleanup.
        past_check lib backend (ready_fails lib backend) _ _ _ (
          past_check lib backend (ready_fails lib backend) _ _ _ (
            after_find lib backend (ready_fails lib backend) _ _ _ λ reviewed.
              weaken _ (λ s h. h.0)
                (after_require lib backend (ready_fails lib backend) _ _ _ λ bound.
                  after_update _ _ (λ s h. ready_of_same lib backend s _ (ground arith) h)
                    (write_state-ready lib backend (λ s. state s.phase none)))))

  pub review-ready :
      (message : ClientMessage)
      → Triple
          (Sound lib backend)
          (Ready lib backend)
          (review lib backend message)
          (Ready lib backend)
  unfolding review
  review-ready message = past_check lib backend (ready_fails lib backend) _ _ _ (
      after_some lib backend (ready_fails lib backend) _ _ _ λ p parsed.
        past_check lib backend (ready_fails lib backend) _ _ _ (
          past_check lib backend (ready_fails lib backend) _ _ _ (
            past_check lib backend (ready_fails lib backend) _ _ _ (
              after_some lib backend (ready_fails lib backend) _ _ _ λ encoded given.
                past_check lib backend (ready_fails lib backend) _ _ _ (
                  past_check lib backend (ready_fails lib backend) _ _ _ (
                    after_require lib backend (ready_fails lib backend) _ _ _ λ named.
                      after_some lib backend (ready_fails lib backend) _ _ _
                        λ flow found. review_choice-ready message p encoded flow))))))
