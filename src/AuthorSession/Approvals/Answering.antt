-- ===== src/AuthorSession/Approvals/Answering.antt =====
-- About the authority of approve and deny of authorsession/session.go.
use browsertools.Prelude.{
  ◌≡◌, refl, sym, ap, subst, ◌∙◌, ◌&&◌, ◌||◌, not, true, false, Option, none, some, List, [], ◌∷◌,
  Bytes, bytes_eq, bytes_eq_refl, bytes_eq_sound, member, inl, inr, Bool-cases, Option-cases,
  some_injective, is_empty, is_some, arith, if_true, if_false,
}
use browsertools.Machine.Triples.{Triple, followed_by, after_update, of_update, of_Fails, weaken}
use browsertools.AuthorSession.Types.{ApprovalKind, ClientMessage, CandidateRecord, PendingApproval}
use browsertools.AuthorSession.Origins.{add_key}
use browsertools.AuthorSession.Execution.{record_of, grant, approved, approve, deny, named_approval}
use browsertools.Registration.Server.{lookup}
use browsertools.AuthorSession.Server.{AuthorLibrary, Backend, Server}
use browsertools.AuthorSession.Rules.{after_find, past_find, past_answer}
use browsertools.AuthorSession.Approvals.{
  Sound, Known, AccountOf, Clear, Resting, Lost, Given, Heard, is_fit, granted, given, on_origin,
  asks_action, is_approve,
}
use browsertools.AuthorSession.Approvals.Primitives.{fails}
use browsertools.AuthorSession.Approvals.Approving.{execute-Resting}
use browsertools.AuthorSession.Approvals.Requests.{may_navigate, may_click, request_execute-Resting}

-- The only origin on the list is on every list that has it.
on_origin_only :
    (o : Option Bytes) (origin : Bytes) (origins : List Bytes)
    → on_origin o (origin ∷ []) ≡ true
    → member origin origins ≡ true
    → on_origin o origins ≡ true
on_origin_only none origin origins h k = cc
on_origin_only (some x) origin origins h k =
    subst (λ y. member y origins ≡ true) (sym (bytes_eq_sound x origin (ground (arith, h)))) k

named_sound :
    (id : Bytes) (x p : PendingApproval)
    → named_approval id (some x) ≡ some p
    → (x ≡ p) × (bytes_eq id p.id ≡ true)
named_sound id x p h = elim (Bool-cases (not (is_empty id) && bytes_eq id x.id)) [
  | inl e ↦
      let same = some_injective (sym (if_true _ (some x) none e) ∙ h) in
      (same, subst (λ y. bytes_eq id y.id ≡ true) same (ground (arith, e)))
  | inr e ↦ cc (if_false _ (some x) none e, h)
]

record_there : (o : Option CandidateRecord) → is_some o ≡ true → o ≡ some (record_of o)
record_there none h = cc
record_there (some r) h = refl

-- What a set has after a key was added to it.
member-add_key :
    (o key : Bytes) (keys : List Bytes)
    → member o (add_key key keys) ≡ (bytes_eq o key || member o keys)
unfolding add_key
member-add_key o key keys = elim (Bool-cases (member key keys)) [
  | inr e ↦ rw (add_key, e) refl
  | inl e ↦ elim (Bool-cases (bytes_eq o key)) [
    | inr f ↦ rw (add_key, e, f) refl
    | inl f ↦ rw (add_key, e, f, bytes_eq_sound o key f) e
  ]
]

module _ (a : AuthorLibrary) (backend : Backend) where
  -- What an approval of an origin makes of the server, before its set of origins is changed.
  abbrev Adding : Bytes → Server → Type 0
  Adding origin s =
      AccountOf a backend s
      × ((o : Bytes)
          → member o (add_key origin s.origins) ≡ true
          → member o (granted s.trace) ≡ true)
      × (member origin (granted s.trace) ≡ true)
      × (s.closed ≡ false)
      × (s.pending ≡ none)
      × Known a backend s.trace s.candidates

  -- An origin that is added was asked for.
  grant-Clear :
      (p : PendingApproval)
      → asks_action p.kind ≡ false
      → Triple
          (Lost a backend)
          (Given a backend p)
          (grant a backend p.origin)
          (λ _ s. Clear a backend s × (member p.origin (granted s.trace) ≡ true))
  unfolding grant
  grant-Clear p k =
      after_update {P' = Adding p.origin} _ _
        (λ s h. (
          (
            ground (arith, h.2, h.0.account.0, bytes_eq_refl p.origin),
            h.0.account.1,
            h.0.account.2,
          ),
          λ o m.
              member-add_key o p.origin (granted s.trace)
              ∙ ground (arith, member-add_key o p.origin s.origins, h.0.covers o, m),
          member-add_key p.origin p.origin (granted s.trace)
              ∙ ground (arith, bytes_eq_refl p.origin),
          h.0.going,
          h.1,
          h.0.known,
        ))
        (past_answer backend (fails a backend (Adding p.origin) (λ s h. h.0)) _ _ _ (
          of_update _ (λ s h.
            ((record { account = h.0; covers = h.1; going = h.3; known = h.5 }, h.4), h.2))))

  approved-Resting :
      (p : PendingApproval) (kind : ApprovalKind)
      → p.kind ≡ kind
      → Triple
          (Lost a backend)
          (Given a backend p)
          (approved a backend kind p)
          (λ _. Resting a backend)
  unfolding approved
  approved-Resting p ApprovalKind.origin e = record {
    at = λ s h.
        let fit = subst (λ k. is_fit a k p ≡ true) e h.3 in
        (followed_by _ _ (grant-Clear p (ap asks_action e)) (λ _.
            weaken _
              (λ t q. (
                q.0,
                may_navigate a backend p.message _ t (ground (arith, fit))
                    (on_origin_only _ p.origin (granted t.trace) (ground (arith, fit)) q.1),
              ))
              (execute-Resting a backend p.message))).at
          s h;
  }
  approved-Resting p ApprovalKind.origin_action e =
      followed_by _ _ (grant-Clear p (ap asks_action e))
        λ _. weaken _ (λ t q. q.0) (request_execute-Resting a backend p.message)
  approved-Resting p ApprovalKind.action e =
      weaken _
        (λ s h.
          let click = subst (λ k. is_fit a k p ≡ true) e h.3 in
          (
            (h.0, h.1),
            may_click a backend p _ s e click h.2 h.0
                (record_there (lookup p.message.candidate_id s.candidates) (h.4 click)),
          ))
        (execute-Resting a backend p.message)

  -- The pending approval that an answer names is the given one.
  Given-named :
      (m : ClientMessage) (p : PendingApproval) (s : Server)
      → is_approve m.type ≡ true
      → Heard a backend m s
      → named_approval m.approval_id s.pending ≡ some p
      → Given a backend p (record s { pending = none })
  Given-named m p s y h e = elim (Option-cases s.pending) [
    | inl n ↦ cc (ap (named_approval m.approval_id) n, e)
    | inr (x, f) ↦
        let (same, names) =
          named_sound m.approval_id x p (sym (ap (named_approval m.approval_id) f) ∙ e) in
        let asked = h.1 p (f ∙ ap some same) in
        (
          h.0,
          refl,
          ap given asked.asked
              ∙ if_true (is_approve m.type && bytes_eq m.approval_id p.id) _ _
                  (ground (arith, y, names)),
          asked.fit,
          asked.aimed,
        )
  ]

  pub approve-Resting :
      (m : ClientMessage)
      → is_approve m.type ≡ true
      → Triple
          (Lost a backend)
          (Heard a backend m)
          (approve a backend m.approval_id)
          (λ _. Resting a backend)
  unfolding approve
  approve-Resting m y =
      after_find backend (fails a backend (Heard a backend m) (λ s h. h.0.account)) _ _ _ λ p.
        after_update {P' = Given a backend p} _ _ (λ s h. Given-named m p s y h.0 h.1)
          (approved-Resting p p.kind refl)

  pub deny-Resting :
      (m : ClientMessage)
      → Triple
          (Lost a backend)
          (Heard a backend m)
          (deny a backend m.approval_id)
          (λ _. Resting a backend)
  unfolding deny
  deny-Resting m =
      past_find backend (fails a backend (Heard a backend m) (λ s h. h.0.account)) _ _ _ λ p.
        after_update {P' = λ s. Sound a backend s} _ _ (λ s h. h.0)
          (of_Fails _ (fails a backend (λ s. Sound a backend s) (λ s h. h.account) _ _))
