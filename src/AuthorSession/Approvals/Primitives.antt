-- ===== src/AuthorSession/Approvals/Primitives.antt =====
-- About the authority of the actions that the handlers of authorsession/session.go share.
use browsertools.Prelude.{◌≡◌, refl, ◌∙◌, sym, subst, member, true, Bool, Bytes, Option, List, ◌∷◌}
use browsertools.Machine.Triples.{Triple}
use browsertools.AuthorSession.Types.{ServerMessage, CandidateRecord}
use browsertools.AuthorSession.Server.{AuthorLibrary, Backend, Server, Event, wrote}
use browsertools.AuthorSession.Reduce.Shown.{shows}
use browsertools.AuthorSession.Actions.{write, browser_call}
use browsertools.AuthorSession.Rules.{Assertion, FailsInto, of_write, Fails-fail, of_call, push}
use browsertools.AuthorSession.Approvals.{
  IsSound, Clear, Resting, Lost, is_authorized, granted, holds_browser, shown, AccountOf,
}

module _ (a : AuthorLibrary) (backend : Backend) where
  -- Any state with an authorized trace fails into a session that is over.
  pub fails :
      (P : Assertion)
      → ((s : Server) → P s → AccountOf a backend s)
      → FailsInto backend (Lost a backend) P
  fails P ok A code =
      Fails-fail backend code
        (λ s p h. (record { authorized = (ok s p).0; released = refl; over = refl }, refl))
        (λ s p h.
          (record { authorized = (ok s p).0; released = sym (ok s p).1 ∙ h; over = refl }, refl))

  pub fails-Clear : FailsInto backend (Lost a backend) (Clear a backend)
  fails-Clear = fails (Clear a backend) (λ s p. p.0.account)

  pub Clear-Resting : (s : Server) → Clear a backend s → Resting a backend s
  Clear-Resting s (h, e) = (h, λ p f. cc (e, f))

  -- An event without authority: any but an action, a new origin and the opening.
  abbrev pub IsPlain : Event → Type 0
  IsPlain e =
      (t : List Event)
      → (is_authorized a (e ∷ t) ≡ is_authorized a t)
        × (granted (e ∷ t) ≡ granted t)
        × (holds_browser backend (e ∷ t) ≡ holds_browser backend t)
        × (shown (e ∷ t) ≡ shown t)

  pub Sound-plain :
      (e : Event) (t : List Event) (origins : List Bytes) (closed session started : Bool)
      (candidates : List (Bytes × CandidateRecord))
      → IsPlain e
      → IsSound a backend t origins closed session started candidates
      → IsSound a backend (e ∷ t) origins closed session started candidates
  Sound-plain e t origins closed session started candidates p h = record {
    account = ((p t).0 ∙ h.account.0, h.account.1 ∙ sym (p t).2, h.account.2);
    covers = λ o k. subst (λ l. member o l ≡ true) (sym (p t).1) (h.covers o k);
    going = h.going;
    known = λ id r f. subst (λ l. shows a l id r ≡ true) (sym (p t).3) (h.known id r f);
  }

  -- The message is no observation.
  abbrev IsAside : ServerMessage → Type 0
  IsAside m = (t : List Event) → shown (wrote m ∷ t) ≡ shown t

  pub write-Resting :
      (m : ServerMessage)
      → IsAside m
      → Triple (Lost a backend) (Clear a backend) (write backend m) (λ _. Resting a backend)
  write-Resting m aside =
      of_write backend m
        (λ s p. Clear-Resting (push (wrote m) s) (
          Sound-plain (wrote m) s.trace s.origins s.closed s.session s.started s.candidates
              (λ t. (refl, refl, refl, aside t)) p.0,
          p.1,
        ))
        (λ s p e. (p.0.account.0, e))

  -- A call without authority.
  pub call-Clear :
      {A : Type 0} (call : Event) (reply : List Event → Option A)
      → IsPlain call
      → Triple
          (Lost a backend)
          (Clear a backend)
          (browser_call backend call reply)
          (λ _. Clear a backend)
  call-Clear call reply plain = of_call backend fails-Clear fails-Clear call reply (λ s n p.
      (Sound-plain call s.trace s.origins s.closed s.session s.started s.candidates plain p.0, p.1))
