-- ===== src/AuthorSession/Reduce/Shown.antt =====
-- About the records that reduceObservation of authorsession/session.go keeps for the candidates that
-- it shows.
use browsertools.Prelude.{
  ◌≡◌, refl, sym, ap, subst, ◌∙◌, ℕ, suc, ℤ, pos, eq_ℤ, Bool, true, false, ◌||◌, ◌&&◌, not, ◌⊎◌,
  some, List, [], ◌∷◌, Bytes, bytes_eq, bytes_eq_refl, bytes_eq_sound, any, member, inl, inr,
  Bool-cases, Option-cases, some_injective, arith, length, ltb_ℤ,
}
use browsertools.Label.{reduce_accessibility_label}
use browsertools.Disclosure.{validate_path}
use browsertools.Registration.Server.{lookup, put}
use browsertools.AuthorSession.Types.{
  Candidate, CandidateRecord, RawCandidate, RawObservation, Observation,
}
use browsertools.AuthorSession.Origins.{exact_origin}
use browsertools.AuthorSession.Contexts.Maps.{lookup-put_same, lookup-put_other}
use browsertools.AuthorSession.Reduce.{
  raw_ok, reduced_candidate, reduce_candidates, sort_candidates, merge_diagnostics, reduce_checked,
  reduce_observation, context_of,
}
use browsertools.AuthorSession.Server.{AuthorLibrary, Server}

eq_ℤ-refl : (z : ℤ) → eq_ℤ z z ≡ true
eq_ℤ-refl z = ground arith

any_later : (x y : Bool) → y ≡ true → x || y ≡ true
any_later true y h = refl
any_later false y h = h

any_here : (x y : Bool) → x ≡ true → x || y ≡ true
any_here x y h = rw h refl

nothing_known : {B : Type 0} (id : Bytes) (r : CandidateRecord) → lookup id [] ≡ some r → B
unfolding lookup
nothing_known id r h = cc

module _ (a : AuthorLibrary) where
  -- The candidate was shown under the id, for an element with the role, label and matches.
  abbrev pub is_shown_as : Bytes → Bytes → Bytes → ℤ → Candidate → Bool
  is_shown_as id role label matches c =
      bytes_eq c.id id
      && bytes_eq c.role role
      && bytes_eq c.label (reduce_accessibility_label a.base label).value
      && eq_ℤ c.matches matches

  -- The element of the record is shown under the id.
  abbrev pub shows : List Candidate → Bytes → CandidateRecord → Bool
  shows cs id r = any (is_shown_as id r.raw.role r.raw.label r.raw.matches) cs

  reduced_candidate-shown :
      (generation : ℕ) (context : Bytes) (index : ℕ) (raw : RawCandidate) (id : Bytes)
      → bytes_eq (reduced_candidate a generation context index raw).id id ≡ true
      → is_shown_as id raw.role raw.label raw.matches
          (reduced_candidate a generation context index raw)
        ≡ true
  unfolding reduced_candidate
  reduced_candidate-shown generation context index raw id h = ground (
    arith,
    h,
    bytes_eq_refl raw.role,
    bytes_eq_refl (reduce_accessibility_label a.base raw.label).value,
    eq_ℤ-refl raw.matches,
  )

  reduce_candidates-shows :
      (max : ℤ) (generation : ℕ) (context : Bytes) (index : ℕ)
      (records : List (Bytes × CandidateRecord)) (raws : List RawCandidate) (cs : List Candidate)
      (all_records : List (Bytes × CandidateRecord))
      → reduce_candidates a max generation context index records raws ≡ some (cs, all_records)
      → (id : Bytes) (r : CandidateRecord) → lookup id all_records ≡ some r
      → (shows cs id r ≡ true) ⊎ (lookup id records ≡ some r)
  unfolding reduce_candidates
  reduce_candidates-shows max generation context index records [] cs all_records h id r f =
      inr (ap (lookup id) (ap (λ x. x.1) (some_injective h)) ∙ f)
  reduce_candidates-shows max generation context index records (raw ∷ rest) cs all_records h id r
        f =
      let c = reduced_candidate a generation context index raw in
      let kept : CandidateRecord = record {
        protocol = c;
        raw = raw;
        context = context;
        label = c.label;
      } in
      let records' = put c.id kept records in
      elim (Bool-cases (raw_ok a max raw)) [
        | inr e ↦ cc (rw (reduce_candidates, e) at h)
        | inl e ↦
            elim (Option-cases
              (reduce_candidates a max generation context (suc index) records' rest)) [
                | inl g ↦ cc (rw (reduce_candidates, e, g) at h)
                | inr ((later, found), g) ↦
                    let same = some_injective (rw (reduce_candidates, e, g) at h) in
                    let here : c ∷ later ≡ cs = ap (λ x. x.0) same in
                    let there : found ≡ all_records = ap (λ x. x.1) same in
                    elim (reduce_candidates-shows max generation context (suc index) records' rest
                      later found g id r (ap (lookup id) there ∙ f)) [
                        | inl y ↦ inl (
                            subst (λ l. shows l id r ≡ true) here
                              (any_later (is_shown_as id r.raw.role r.raw.label r.raw.matches c)
                                (shows later id r) y))
                        | inr n ↦ elim (Bool-cases (bytes_eq c.id id)) [
                          | inr o ↦ inr (sym (lookup-put_other id c.id kept records o) ∙ n)
                          | inl o ↦
                              let own = some_injective (
                                sym (lookup-put_same c.id kept records)
                                ∙ (ap (λ k. lookup k records') (bytes_eq_sound c.id id o) ∙ n)) in
                              inl (
                                subst (λ l. shows l id r ≡ true) here
                                  (subst (λ x. shows (c ∷ later) id x ≡ true) own
                                    (any_here _ (shows later id kept)
                                      (reduced_candidate-shown generation context index raw id o))))
                        ]
                      ]
              ]
      ]

  -- What is kept was shown.
  abbrev pub AllShown : Observation × List (Bytes × CandidateRecord) → Type 0
  AllShown (o, records) =
      (id : Bytes) (r : CandidateRecord)
      → lookup id records ≡ some r
      → shows o.candidates id r ≡ true

  reduce_checked-AllShown :
      (raw : RawObservation) (origin context : Bytes) (s : Server)
      (x : Observation × List (Bytes × CandidateRecord))
      → (reduce_checked a raw origin context s).0 ≡ some x
      → AllShown x
  unfolding reduce_checked
  reduce_checked-AllShown raw origin context s (o, records) h =
      let sorted = sort_candidates raw.candidates in
      elim (Option-cases
        (reduce_candidates a s.bounds.max_candidates s.observations context 0 [] sorted)) [
          | inl e ↦ cc (rw (reduce_checked, e) at h)
          | inr ((cs, found), e) ↦
              elim (Bool-cases (merge_diagnostics s.diagnostics raw.diagnostics).0) [
                | inr w ↦ cc (rw (reduce_checked, e, w) at h)
                | inl w ↦
                    let same = some_injective (rw (reduce_checked, e, w) at h) in
                    λ id r f.
                      elim (reduce_candidates-shows s.bounds.max_candidates s.observations context 0
                        [] sorted cs found e id r (ap (λ y. lookup id y.1) same ∙ f)) [
                          | inl y ↦
                              subst (λ l. shows l id r ≡ true) (ap (λ y. y.0.candidates) same) y
                          | inr n ↦ nothing_known id r n
                        ]
              ]
        ]

  -- Every record that an observation leaves is of a candidate that it shows, under its id.
  pub reduce_observation-AllShown :
      (raw : RawObservation) (id : Bytes) (s : Server)
      (x : Observation × List (Bytes × CandidateRecord))
      → (reduce_observation a raw id s).0 ≡ some x
      → AllShown x
  unfolding reduce_observation
  reduce_observation-AllShown raw id s x h =
      elim (Option-cases (exact_origin a.base a.urls raw.origin)) [
        | inl e ↦ cc (rw (reduce_observation, e) at h)
        | inr (origin, e) ↦
            elim (Bool-cases (
              member origin s.origins
              && validate_path a.base raw.path
              && bytes_eq (context_of a raw id) id
              && not (ltb_ℤ s.bounds.max_candidates (pos (length raw.candidates))))) [
                | inl t ↦
                    reduce_checked-AllShown raw origin id s x (rw (reduce_observation, e, t) at h)
                | inr t ↦ cc (rw (reduce_observation, e, t) at h)
              ]
      ]
