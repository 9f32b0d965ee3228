-- ===== src/AuthorSession/Evidence/Primitives.antt =====
-- About the evidence that the shared actions of authorsession/session.go keep.
use browsertools.Prelude.{◌≡◌, ◌∙◌, sym, subst, true, Option, List, ◌∷◌}
use browsertools.Machine.Triples.{Triple}
use browsertools.AuthorSession.Types.{ServerMessage}
use browsertools.AuthorSession.Server.{AuthorLibrary, Backend, Server, Event, wrote}
use browsertools.AuthorSession.Actions.{write, browser_call}
use browsertools.AuthorSession.Rules.{Assertion, FailsInto, of_write, Fails-fail, of_call}
use browsertools.AuthorSession.Evidence.{Backed, Live, Kept, Lost, is_confirmed, last_seen, goal_ok}

module _ (a : AuthorLibrary) (backend : Backend) where
  pub fails :
      (P : Assertion) → ((s : Server) → P s → Backed a s.trace) → FailsInto backend (Lost a) P
  fails P ok A code = Fails-fail backend code (λ s p h. ok s p) (λ s p h. ok s p)

  pub fails-Live : FailsInto backend (Lost a) (Live a)
  fails-Live = fails (Live a) (λ s p. p.0.backed)

  pub Live-Kept : (s : Server) → Live a s → Kept a s
  Live-Kept s (h, e) = (h, λ f. cc (e, f), λ f. e)

  -- The message is no observation.
  abbrev IsAside : ServerMessage → Type 0
  IsAside m = (t : List Event) → last_seen (wrote m ∷ t) ≡ last_seen t

  pub write-Live :
      (m : ServerMessage) → IsAside m → Triple (Lost a) (Live a) (write backend m) (λ _. Live a)
  write-Live m aside =
      of_write backend m
        (λ s p. (
          record {
            backed = p.0.backed;
            within = p.0.within;
            goal =
                subst (λ o. goal_ok s.start.goal_predicate s.goal_proof o ≡ true)
                  (sym (aside s.trace)) p.0.goal;
            selected = p.0.selected;
            human = p.0.human;
          },
          p.1,
        ))
        (λ s p e. p.0.backed)

  -- A call, which stores nothing.
  pub call-Live :
      {A : Type 0} (call : Event) (reply : List Event → Option A)
      → ((t : List Event)
          → (Backed a t → Backed a (call ∷ t))
            × (is_confirmed (call ∷ t) ≡ is_confirmed t)
            × (last_seen (call ∷ t) ≡ last_seen t))
      → Triple (Lost a) (Live a) (browser_call backend call reply) (λ _. Live a)
  call-Live call reply plain = of_call backend fails-Live fails-Live call reply (λ s n p. (
    record {
      backed = (plain s.trace).0 p.0.backed;
      within = p.0.within;
      goal =
          subst (λ o. goal_ok s.start.goal_predicate s.goal_proof o ≡ true) (sym (plain s.trace).2)
            p.0.goal;
      selected = p.0.selected;
      human = λ e. (plain s.trace).1 ∙ p.0.human e;
    },
    p.1,
  ))
