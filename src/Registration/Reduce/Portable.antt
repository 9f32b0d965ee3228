-- ===== src/Registration/Reduce/Portable.antt =====
-- About reduceObservation of registrationauthorsession/session.go as a whole.
use browsertools.Prelude.{
  ◌+◌, suc, pos, ◌≡◌, refl, ◌∙◌, ap, subst, inl, inr, Bool, true, false, ◌||◌, not, Option, none,
  some, List, [], ◌∷◌, Bytes, arith, Bool-cases, Option-cases, length, ltb, all, member,
  some_injective, All, ltb_ℤ,
}
use browsertools.Text.{are_sorted}
use browsertools.Text.Sorting.{sort_strings-sorted}
use browsertools.Registration.Reduce.Diagnostics.{
  AreCodes, merge_diagnostics-Merged, Merged, sort_strings-AreCodes,
}
use browsertools.Library.{Library}
use browsertools.Disclosure.{validate_path}
use browsertools.Registration.Types.{RawCandidate, RawObservation, Candidate, Observation}
use browsertools.Registration.Origins.{exact_origin}
use browsertools.Registration.Server.{Server}
use browsertools.Registration.Reduce.Candidates.{
  distinct_locators, IsPortable, reduce_candidates-portable,
}
use browsertools.Registration.Reduce.{
  valid_diagnostic, reduce_candidates, insert_candidate, sort_candidates, merge_diagnostics,
  reduced, with_codes, reduce_codes, reduce_checked, reduce_observation, max_unique_diagnostics,
}

length-insert :
    (c : RawCandidate) (cs : List RawCandidate) → length (insert_candidate c cs) ≡ suc (length cs)
unfolding insert_candidate
length-insert c [] = refl
length-insert c (d ∷ rest) = ground (arith, length-insert c rest)

module _ (lib : Library) where
  -- What an accepted observation may disclose, by the server that it was reduced for.
  pub record IsDisclosable (s : Server) (raw : RawObservation) (o : Observation) : Type 0 where
    pub origin : member o.origin s.origins ≡ true
    pub path : validate_path lib o.path ≡ true
    pub candidates : All (IsPortable lib s) o.candidates
    pub distinct : distinct_locators o.candidates ≡ true
    pub whole : length o.candidates ≡ length raw.candidates
    pub few : ltb_ℤ s.bounds.max_candidates (pos (length o.candidates)) ≡ false
    pub codes : all valid_diagnostic o.diagnostics ≡ true
    pub sorted : are_sorted o.diagnostics ≡ true
    pub counted : o.generation ≡ s.generation + 1

  length-sort : (raws : List RawCandidate) → length (sort_candidates raws) ≡ length raws
  unfolding sort_candidates
  length-sort [] = refl
  length-sort (raw ∷ rest) = length-insert raw (sort_candidates rest) ∙ ap suc (length-sort rest)

  IsPortable-later :
      (s : Server) (cs : List Candidate)
      → All (IsPortable lib (record s { generation = s.generation + 1 })) cs
      → All (IsPortable lib s) cs
  IsPortable-later s [] h = tt
  IsPortable-later s (c ∷ cs) h = (
    record {
      role = h.0.role;
      label = h.0.label;
      matched = h.0.matched;
      bounded = h.0.bounded;
      control = h.0.control;
      verification = h.0.verification;
    },
    IsPortable-later s cs h.1,
  )

  no_codes : AreCodes []
  no_codes = record { valid = refl; unique = refl }

  -- What is known of the kept candidates and of the whole before the diagnostics.
  record IsChecked (s : Server) (raw : RawObservation) (origin : Bytes) (cs : List Candidate)
      : Type 0 where
    approved : member origin s.origins ≡ true
    path : validate_path lib raw.path ≡ true
    candidates : All (IsPortable lib s) cs
    distinct : distinct_locators cs ≡ true
    whole : length cs ≡ length raw.candidates
    few : ltb_ℤ s.bounds.max_candidates (pos (length raw.candidates)) ≡ false

  abbrev next : Server → Server
  next s = record s { generation = s.generation + 1 }

  codes-IsDisclosable :
      (raw : RawObservation) (origin : Bytes) (cs : List Candidate) (s s' : Server)
      (o : Observation) (merged : Option (List Bytes) × List Bytes)
      → IsChecked s raw origin cs
      → Merged [] s.diagnostics raw.diagnostics merged
      → with_codes lib raw origin cs (next s) merged ≡ (some o, s')
      → IsDisclosable s raw o × AreCodes s'.diagnostics
  codes-IsDisclosable raw origin cs s s' o (none, session) h m e = absurd (ground arith)
  codes-IsDisclosable raw origin cs s s' o (some current, session) h m e =
      let sent = reduced lib (s.generation + 1) origin raw.path cs current in
      let same : sent ≡ o = some_injective (ap (λ x. x.0) e) in
      (
        subst (IsDisclosable s raw) same (record {
          origin = h.approved;
          path = h.path;
          candidates = h.candidates;
          distinct = h.distinct;
          whole = h.whole;
          few = ap (λ n. ltb_ℤ s.bounds.max_candidates (pos n)) h.whole ∙ h.few;
          codes = (sort_strings-AreCodes current m.1).valid;
          sorted = sort_strings-sorted current;
          counted = refl;
        }),
        subst AreCodes (ap (λ x. x.1.diagnostics) e) (sort_strings-AreCodes session m.2),
      )

  checked-IsDisclosable :
      (raw : RawObservation) (origin : Bytes) (s s' : Server) (o : Observation)
      → member origin s.origins ≡ true
      → validate_path lib raw.path ≡ true
      → ltb_ℤ s.bounds.max_candidates (pos (length raw.candidates)) ≡ false
      → AreCodes s.diagnostics
      → reduce_checked lib raw origin s ≡ (some o, s')
      → IsDisclosable s raw o × AreCodes s'.diagnostics
  unfolding reduce_checked reduce_codes
  checked-IsDisclosable raw origin s s' o m p few h e =
      let sorted = sort_candidates raw.candidates in
      elim (Option-cases (reduce_candidates lib (next s) (s.generation + 1) [] 0 sorted)) [
        | inl f ↦ absurd (ground arith)
        | inr (cs, f) ↦
            let (portable, distinct, _, long) =
              reduce_candidates-portable lib (next s) (s.generation + 1) [] 0 sorted cs f in
            codes-IsDisclosable raw origin cs s s' o
              (merge_diagnostics [] s.diagnostics raw.diagnostics)
              (record {
                approved = m;
                path = p;
                candidates = IsPortable-later s cs portable;
                distinct = distinct;
                whole = long ∙ length-sort raw.candidates;
                few = few;
              })
              (merge_diagnostics-Merged [] s.diagnostics raw.diagnostics no_codes h (λ c k. cc))
              (ground arith)
      ]

  accepts :
      (a b c d : Bool) → (not a || not b || c || d) ≡ false → (a ≡ true) × (b ≡ true) × (c ≡ false)
  accepts a b c d h = ground arith

  -- Where a raw observation is accepted, its origin is an approved one and its path may be disclosed;
  -- every candidate has a portable role, a safe label, from one match to the limit of candidates,
  -- control metadata only under a typed protocol and valid, a verification only under protocol v4 and
  -- valid for the approved origins; no two have the same role and label; none was dropped; the
  -- diagnostics are known codes in order; and the generation is the next one. The session's codes must
  -- be known ones, each listed once, as they are at the start and after each observation.
  pub reduce_observation-IsDisclosable :
      (raw : RawObservation) (s s' : Server) (o : Observation)
      → AreCodes s.diagnostics
      → reduce_observation lib raw s ≡ (some o, s')
      → IsDisclosable s raw o × AreCodes s'.diagnostics
  unfolding reduce_observation
  reduce_observation-IsDisclosable raw s s' o h e =
      elim (Option-cases (exact_origin lib raw.origin)) [
        | inl f ↦ absurd (ground arith)
        | inr (origin, f) ↦
            let refused =
              not (member origin s.origins)
              || not (validate_path lib raw.path)
              || ltb_ℤ s.bounds.max_candidates (pos (length raw.candidates))
              || ltb max_unique_diagnostics (length raw.diagnostics) in
            elim (Bool-cases refused) [
              | inl r ↦ absurd (ground arith)
              | inr r ↦
                  let (m, p, few) =
                    accepts (member origin s.origins) (validate_path lib raw.path)
                      (ltb_ℤ s.bounds.max_candidates (pos (length raw.candidates)))
                      (ltb max_unique_diagnostics (length raw.diagnostics)) r in
                  checked-IsDisclosable raw origin s s' o m p few h (ground arith)
            ]
      ]
