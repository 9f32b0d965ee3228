-- ===== src/AuthorSession/Approvals/Closing.antt =====
-- About the end of a session: finish and close of authorsession/session.go.
use browsertools.Prelude.{◌≡◌, refl, sym, ◌∙◌, true, false, List, ◌∷◌, Bytes, inl, inr, Bool-cases}
use browsertools.Machine.Triples.{
  Triple, Fails, Ends-given, Ends-checked, after, followed_by, after_update, weaken,
}
use browsertools.AuthorSession.Types.{
  ServerMessage, Code, teardown_failure, artifact_write, result_invalid,
}
use browsertools.AuthorSession.Finish.{
  finish, tear_down, store, closed_some, build_request, close_without_result,
}
use browsertools.AuthorSession.Server.{AuthorLibrary, Backend, Server, Event, wrote}
use browsertools.AuthorSession.Actions.{fail_after_close, close_session, write}
use browsertools.AuthorSession.Rules.{past_find, of_write}
use browsertools.AuthorSession.Approvals.{
  Clear, Released, Left, Lost, is_authorized, is_parting, AccountOf, holds_browser,
}
use browsertools.AuthorSession.Approvals.Primitives.{fails-Clear}

module _ (a : AuthorLibrary) (backend : Backend) where
  -- The browser is released, and the server may still be open.
  abbrev Freed : Server → Type 0
  Freed s = (is_authorized a s.trace ≡ true) × (holds_browser backend s.trace ≡ false)

  Fails-Freed :
      (A : Type 0) (code : Code)
      → Fails (Lost a backend) Freed (fail_after_close backend {A = A} code)
  unfolding fail_after_close write
  Fails-Freed A code = record {
    at = λ s p. (record { authorized = p.0; released = p.1; over = refl }, refl);
  }

  close_session-Freed : (s : Server) → AccountOf a backend s → Freed (close_session backend s).1
  unfolding close_session
  close_session-Freed s h = elim (Bool-cases s.session) [
    | inl e ↦ rw (close_session, e) (h.0, refl)
    | inr e ↦ rw (close_session, e) (h.0, sym h.1 ∙ e)
  ]

  tear_down-Freed : Triple (Lost a backend) (AccountOf a backend) (tear_down a backend) (λ _. Freed)
  unfolding tear_down
  tear_down-Freed = record {
    at = λ s p.
        let (well, s') = close_session backend s in
        Ends-checked well _ s' (Fails-Freed _ teardown_failure) (close_session-Freed s p);
  }

  store-Freed :
      (contents : Bytes) → Triple (Lost a backend) Freed (store a backend contents) (λ _. Freed)
  unfolding store
  store-Freed contents =
      after_update {P' = Freed} _ _ (λ s h. h)
        (record {
          at = λ s p. Ends-checked (backend.kept s.trace) _ s (Fails-Freed _ artifact_write) p;
        })

  write-Left :
      (m : ServerMessage)
      → ((t : List Event) → is_parting (wrote m ∷ t) ≡ true)
      → Triple (Lost a backend) (Released a backend) (write backend m) (λ _. Left a backend)
  write-Left m parts =
      of_write backend m
        (λ s h. (
          record { authorized = h.authorized; released = h.released; over = h.over },
          parts s.trace,
        ))
        (λ s h e. (h.authorized, e))

  pub finish-Left :
      Triple (Lost a backend) (Clear a backend) (finish a backend) (λ _. Left a backend)
  unfolding finish closed_some
  finish-Left = past_find backend (fails-Clear a backend) _ _ _ λ (goal, auth).
      followed_by _ _ (weaken _ (λ s h. h.0.account) tear_down-Freed) λ _.
        after {Q = λ _. Freed} _ _
          (record {
            at = λ s p.
                Ends-given (a.build (build_request a goal auth s)) _ s
                  (Fails-Freed _ result_invalid) p;
          })
          λ contents. followed_by _ _ (store-Freed contents) λ _.
            after_update {P' = Released a backend} _ _
              (λ s h. record { authorized = h.0; released = h.1; over = refl })
              (write-Left _ (λ t. refl))

  pub close_without_result-Left :
      Triple
        (Lost a backend)
        (AccountOf a backend)
        (close_without_result a backend)
        (λ _. Left a backend)
  unfolding close_without_result write
  close_without_result-Left = record {
    at = λ s p.
        let (well, s') = close_session backend s in
        let freed = close_session-Freed s p in
        elim (Bool-cases well) [
          | inl e ↦
              rw (close_without_result, e)
                ((write-Left _ (λ t. refl)).at (record s' { closed = true })
                  (record { authorized = freed.0; released = freed.1; over = refl }))
          | inr e ↦
              rw (close_without_result, e)
                (record { authorized = freed.0; released = freed.1; over = refl }, refl)
        ];
  }
