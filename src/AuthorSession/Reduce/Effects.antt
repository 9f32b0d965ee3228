-- ===== src/AuthorSession/Reduce/Effects.antt =====
-- About the effect of reduceObservation of authorsession/session.go on the server.
use browsertools.Prelude.{
  ◌≡◌, refl, pos, ◌&&◌, not, [], Bytes, bytes_eq, length, ltb_ℤ, member, inl, inr, Bool-cases,
  Option-cases,
}
use browsertools.Disclosure.{validate_path}
use browsertools.AuthorSession.Types.{RawObservation}
use browsertools.AuthorSession.Origins.{exact_origin}
use browsertools.AuthorSession.Reduce.{
  reduce_candidates, sort_candidates, reduce_checked, reduce_observation, context_of,
}
use browsertools.AuthorSession.Server.{AuthorLibrary, Server}

module _ (a : AuthorLibrary) (raw : RawObservation) (id : Bytes) (s : Server) where
  reduce_checked-diagnostics :
      (origin : Bytes)
      → let s' = (reduce_checked a raw origin id s).1 in
        s' ≡ record s { diagnostics = s'.diagnostics }
  unfolding reduce_checked
  reduce_checked-diagnostics origin =
      elim (Option-cases (
        reduce_candidates a s.bounds.max_candidates s.observations id 0 []
          (sort_candidates raw.candidates))) [
            | inl e ↦ rw (reduce_checked, e) refl
            | inr (x, e) ↦ rw (reduce_checked, e) refl
          ]

  -- Reducing an observation changes nothing but the diagnostics.
  pub reduce_observation-diagnostics :
      let s' = (reduce_observation a raw id s).1 in s' ≡ record s { diagnostics = s'.diagnostics }
  unfolding reduce_observation
  reduce_observation-diagnostics = elim (Option-cases (exact_origin a.base a.urls raw.origin)) [
    | inl e ↦ rw (reduce_observation, e) refl
    | inr (origin, e) ↦
        elim (Bool-cases (
          member origin s.origins
          && validate_path a.base raw.path
          && bytes_eq (context_of a raw id) id
          && not (ltb_ℤ s.bounds.max_candidates (pos (length raw.candidates))))) [
            | inl t ↦ rw (reduce_observation, e, t) (reduce_checked-diagnostics origin)
            | inr t ↦ rw (reduce_observation, e, t) refl
          ]
  ]
