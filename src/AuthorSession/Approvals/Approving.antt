-- ===== src/AuthorSession/Approvals/Approving.antt =====
-- About the authority of execute, approve and deny of authorsession/session.go.
use browsertools.Prelude.{
  ◌≡◌, refl, sym, ap, subst, ◌∙◌, true, some, ◌∷◌, Bytes, some_injective, arith,
}
use browsertools.Registration.Server.{lookup}
use browsertools.Machine.Triples.{Triple, after, after_update, of_state, weaken}
use browsertools.AuthorSession.Types
use browsertools.AuthorSession.Types.{
  ActionKind, ApprovalKind, ClientMessage, CandidateRecord, PendingApproval,
}
use browsertools.AuthorSession.Execution.{
  execute, execute_on, action_for, record_of, next_approval, require_approval, approval_of,
}
use browsertools.AuthorSession.Server.{AuthorLibrary, Backend, Server, wrote}
use browsertools.AuthorSession.Rules.{
  FailsInto, after_require, past_find, past_check, of_call, of_write,
}
use browsertools.AuthorSession.Approvals.{
  Sound, IsAsked, IsAimed, Clear, Resting, Lost, allows_execute, is_fit,
}
use browsertools.AuthorSession.Approvals.Primitives.{fails, fails-Clear, write-Resting}

module _ (a : AuthorLibrary) (backend : Backend) where
  -- The browser may execute the action of the message now.
  abbrev May : CandidateRecord → ClientMessage → Server → Type 0
  May r m s = Clear a backend s × (allows_execute a s.trace (action_for m r) ≡ true)

  fails-May :
      (r : CandidateRecord) (m : ClientMessage) → FailsInto backend (Lost a backend) (May r m)
  fails-May r m = fails a backend (May r m) (λ s p. p.0.0.account)

  execute_on-Resting :
      (r : CandidateRecord) (m : ClientMessage)
      → Triple (Lost a backend) (May r m) (execute_on a backend r m) (λ _. Resting a backend)
  unfolding execute_on
  execute_on-Resting r m =
      after_update {P' = May r m} _ _ (λ s h. h)
        (after {Q = λ _. Clear a backend} _ _
          (of_call backend (fails-May r m) (fails-Clear a backend) _ _ (λ s n h. (
            record {
              account = (ground (arith, h.1, h.0.0.account.0), h.0.0.account.1, h.0.0.account.2);
              covers = h.0.0.covers;
              going = h.0.0.going;
              known = h.0.0.known;
            },
            h.0.1,
          )))
          λ e. after_require backend (fails-Clear a backend) _ _ _ λ w.
            past_find backend (fails-Clear a backend) _ _ _ λ contexts.
              after_update _ _ (λ s h. h)
                (of_state _ λ s. weaken _ (λ t q. q.0) (write-Resting a backend _ (λ t. refl))))

  pub execute-Resting :
      (m : ClientMessage)
      → Triple
          (Lost a backend)
          (λ s.
            Clear a backend s
            × (allows_execute a s.trace
                  (action_for m (record_of (lookup m.candidate_id s.candidates)))
                ≡ true))
          (execute a backend m)
          (λ _. Resting a backend)
  unfolding execute
  execute-Resting m = record {
    at = λ s p.
        let r = record_of (lookup m.candidate_id s.candidates) in (execute_on-Resting r m).at s p;
  }

  -- Nothing waits for approval, and the candidate of a click is known.
  abbrev pub Asking : ClientMessage → Server → Type 0
  Asking m s = Clear a backend s × IsAimed a backend s.candidates m

  -- A request that is fit may wait for approval.
  pub require_approval-Resting :
      (kind : ApprovalKind) (m : ClientMessage) (origin : Bytes)
      → ((s : Server) → is_fit a kind (next_approval a backend kind m origin s) ≡ true)
      → Triple
          (Lost a backend)
          (Asking m)
          (require_approval a backend kind m origin)
          (λ _. Resting a backend)
  unfolding require_approval
  require_approval-Resting kind m origin fit =
      past_check backend (fails a backend (Asking m) (λ s h. h.0.0.account)) _ _ _ (
        of_state _ λ s.
          let p = next_approval a backend kind m origin s in
          after_update
            {P' = λ t. Sound a backend t × (t.pending ≡ some p) × IsAimed a backend t.candidates m}
            _ _
            (λ t h. (h.0.0.0, ap (λ u. some (next_approval a backend kind m origin u)) h.1, h.0.1))
            (of_write backend _
              (λ t h. (
                record {
                  account = h.0.account;
                  covers = h.0.covers;
                  going = h.0.going;
                  known = h.0.known;
                },
                λ q e.
                    subst
                      (λ x.
                        IsAsked a backend (λ l. l)
                          (wrote (Types.approval_required (approval_of p)) ∷ t.trace) t.candidates
                          x)
                      (some_injective (sym h.1 ∙ e))
                      (record { earlier = t.trace; asked = refl; fit = fit s; aimed = h.2 }),
              ))
              (λ t h e. (h.0.account.0, e))))
