-- ===== src/AuthorSession/Evidence/Completing.antt =====
-- About the evidence in human_complete of authorsession/session.go.
use browsertools.Prelude.{
  ◌≡◌, refl, ◌∙◌, ◌&&◌, Bool, true, Option, none, some, List, [], ◌∷◌, Bytes, pos, length, leb_ℤ,
  all, arith, inl, inr, Bool-cases, Option-cases,
}
use browsertools.Machine.{value_or}
use browsertools.Machine.Triples.{Triple, Ends, after, after_update, weaken, of_Fails}
use browsertools.AuthorSession.Types.{
  GoalProof, OutputRequest, OutputSelection, RawObservation, output_selection_invalid,
  normalized_context,
}
use browsertools.AuthorSession.Outputs.{
  review_outputs, requests_ok, output_limit, select_on, select_all, same_page,
}
use browsertools.AuthorSession.Finish.{complete, completable, review}
use browsertools.AuthorSession.Observing.{is_exploration}
use browsertools.AuthorSession.Server.{AuthorLibrary, Backend, Server, call_observe}
use browsertools.AuthorSession.Actions.{fail, require_some, with_active}
use browsertools.AuthorSession.Rules.{after_find, with_active_keeps, FailsInto}
use browsertools.AuthorSession.Evidence.{Live, Lost, selection_ok, is_confirmed}
use browsertools.AuthorSession.Evidence.Primitives.{fails, write-Live}
use browsertools.AuthorSession.Evidence.Selecting.{
  is_known_request, and_true, known_of_requests, select_all-ok, all-sort_selections,
}

-- The selections, where there are any, are of one element each.
abbrev AllOk : Option (List OutputSelection) → Type 0
AllOk none = Unit
AllOk (some xs) = all selection_ok xs ≡ true

module _ (a : AuthorLibrary) (backend : Backend) where
  select_on-AllOk :
      (proof : GoalProof) (context : Bytes) (requests : List OutputRequest) (s : Server)
      (raw : Option RawObservation)
      → all is_known_request requests ≡ true
      → AllOk (select_on a proof context requests s raw)
  unfolding select_on
  select_on-AllOk proof context requests s none k = tt
  select_on-AllOk proof context requests s (some raw) k =
      elim (Bool-cases (same_page a proof context s raw)) [
        | inr e ↦ rw (select_on, e) tt
        | inl e ↦ elim (Option-cases (select_all a context s raw.candidates requests)) [
          | inl f ↦ rw (select_on, e, f) tt
          | inr (xs, f) ↦
              rw (select_on, e, f)
                (all-sort_selections selection_ok xs
                  ∙ select_all-ok a context s raw.candidates requests xs k f)
        ]
      ]

  -- A person has confirmed the completion.
  abbrev Confirmed : Server → Type 0
  Confirmed s = Live a s × (is_confirmed s.trace ≡ true)

  fails-Confirmed : FailsInto backend (Lost a) Confirmed
  fails-Confirmed = fails a backend Confirmed (λ s h. h.0.0.backed)

  review_outputs-Confirmed :
      (proof : GoalProof) (requests : List OutputRequest) (s : Server)
      → Confirmed s
      → Confirmed (review_outputs a backend proof requests s).1
        × AllOk (review_outputs a backend proof requests s).0
  unfolding review_outputs
  review_outputs-Confirmed proof [] s h = elim (Bool-cases (leb_ℤ (pos 0) (output_limit s))) [
    | inl e ↦ rw (review_outputs, e) (h, refl)
    | inr e ↦ rw (review_outputs, e) (h, tt)
  ]
  review_outputs-Confirmed proof (request ∷ rest) s h =
      let context = normalized_context proof.context in
      let requests = request ∷ rest in
      let few = leb_ℤ (pos (length requests)) (output_limit s) in
      elim (Bool-cases (few && requests_ok a context s [] [] requests)) [
        | inl e ↦
            let (raw, s') = with_active backend (call_observe context) backend.observed s in
            rw (review_outputs, e)
              (
                with_active_keeps backend (Confirmed) (call_observe context) backend.observed s h
                    (λ n. (
                      (
                        record {
                          backed = h.0.0.backed;
                          within = h.0.0.within;
                          goal = h.0.0.goal;
                          selected = h.0.0.selected;
                          human = h.0.0.human;
                        },
                        h.0.1,
                      ),
                      h.1,
                    )),
                select_on-AllOk proof context requests s' raw
                    (known_of_requests a context s [] [] requests (and_true few _ e).1),
              )
        | inr e ↦ rw (review_outputs, e) (h, tt)
      ]

  given :
      (r : Option (List OutputSelection)) (s : Server)
      → Confirmed s
      → AllOk r
      → let m = value_or r (fail backend output_selection_invalid) in
        Ends (Lost a) (λ xs s. Confirmed s × (all selection_ok xs ≡ true)) (m s).0 (m s).1
  unfolding value_or
  given none s h k =
      (of_Fails (fail backend output_selection_invalid)
          (fails-Confirmed _ output_selection_invalid)).at
        s h
  given (some xs) s h k = (h, k)

  review-ok :
      (proof : GoalProof) (requests : List OutputRequest)
      → Triple
          (Lost a)
          (Confirmed)
          (review a backend proof requests)
          (λ xs s. Confirmed s × (all selection_ok xs ≡ true))
  unfolding review require_some value_or
  review-ok proof requests = record {
    at = λ s p.
        let (r, s') = review_outputs a backend proof requests s in
        let (live, ok) = review_outputs-Confirmed proof requests s p in given r s' live ok;
  }

  completable-confirmed :
      (confirmed : Bool) (outputs : Option (List OutputRequest)) (s : Server)
      (x : GoalProof × List OutputRequest)
      → completable confirmed outputs s ≡ some x
      → confirmed ≡ true
  completable-confirmed confirmed none s x h = cc
  completable-confirmed confirmed (some requests) s x h = elim (Option-cases s.goal_proof) [
    | inl e ↦ cc (rw e at h)
    | inr (g, e) ↦ elim (Bool-cases (is_exploration s.phase && confirmed)) [
      | inl k ↦ ground (arith, k)
      | inr k ↦ cc (rw (e, k) at h)
    ]
  ]

  -- A completion is taken up only where a person confirmed it.
  pub complete-Live :
      (confirmed : Bool) (outputs : Option (List OutputRequest))
      → Triple
          (Lost a)
          (λ s. Live a s × (confirmed ≡ true → is_confirmed s.trace ≡ true))
          (complete a backend confirmed outputs)
          (λ _. Live a)
  unfolding complete
  complete-Live confirmed outputs =
      after_find backend
        (fails a backend (λ s. Live a s × (confirmed ≡ true → is_confirmed s.trace ≡ true))
          (λ s h. h.0.0.backed))
        _ _ _
        λ (proof, requests).
          weaken {P' = Confirmed} _
            (λ s h. (h.0.0, h.0.1 (completable-confirmed confirmed outputs s _ h.1)))
            (after _ _ (review-ok proof requests) λ xs.
              after_update {P' = Live a} _ _
                (λ s h. (
                  record {
                    backed = h.0.0.0.backed;
                    within = h.0.0.0.within;
                    goal = h.0.0.0.goal;
                    selected = h.1;
                    human = λ e. h.0.1;
                  },
                  h.0.0.1,
                ))
                (write-Live a backend _ (λ t. refl)))
