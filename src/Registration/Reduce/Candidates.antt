-- ===== src/Registration/Reduce/Candidates.antt =====
-- About the candidates in reduceObservation of registrationauthorsession/session.go.
use browsertools.Prelude.{
  ℕ, suc, pos, ◌≡◌, refl, sym, ◌∙◌, ap, subst, inl, inr, Bool, true, false, ◌||◌, ◌&&◌, not, Option,
  none, some, List, [], ◌∷◌, Bytes, bytes_eq_sym, arith, Bool-cases, Option-cases, length, all, any,
  some_injective, All, leb_ℤ,
}
use browsertools.Library.{Library}
use browsertools.Label.{safe_candidate_label}
use browsertools.Registration.Types.{
  Protocol, is_typed, is_v4, ControlMetadata, RawCandidate, Candidate, VerificationObservation,
}
use browsertools.Registration.Control.{promotable_candidate, validate_control_metadata}
use browsertools.Registration.Verification.{validate_verification_observation}
use browsertools.Registration.Server.{Server}
use browsertools.Registration.Reduce.{
  is_portable_role, same_locator, raw_ok, keep_control, keep_verification, plain_candidate,
  reduce_candidate, reduce_candidates,
}

-- No two candidates of the list have the same role and label.
abbrev pub distinct_locators : List Candidate → Bool
distinct_locators [] = true
distinct_locators (c ∷ rest) = not (any (same_locator c) rest) && distinct_locators rest

module _ (lib : Library) where
  -- Control metadata is there only under a typed protocol, on a candidate that can be promoted, valid.
  abbrev pub control_ok : Protocol → Candidate → Option ControlMetadata → Bool
  control_ok p c none = true
  control_ok p c (some k) =
      is_typed p && promotable_candidate lib c && validate_control_metadata lib k

  -- A verification is there only under protocol v4, valid for the approved origins.
  abbrev pub verification_ok : Protocol → List Bytes → Option VerificationObservation → Bool
  verification_ok p origins none = true
  verification_ok p origins (some v) = is_v4 p && validate_verification_observation lib v origins

  -- A candidate that may be sent in the session.
  pub record IsPortable (s : Server) (c : Candidate) : Type 0 where
    pub role : is_portable_role c.role ≡ true
    pub label : safe_candidate_label lib c.label ≡ true
    pub matched : leb_ℤ (pos 1) c.matches ≡ true
    pub bounded : leb_ℤ c.matches s.bounds.max_candidates ≡ true
    pub control : control_ok s.protocol c c.control ≡ true
    pub verification : verification_ok s.protocol s.origins c.verification ≡ true

  -- The part of a candidate that the steps after `plain_candidate` do not change.
  pub record IsPlain (s : Server) (c : Candidate) : Type 0 where
    pub role : is_portable_role c.role ≡ true
    pub label : safe_candidate_label lib c.label ≡ true
    pub matched : leb_ℤ (pos 1) c.matches ≡ true
    pub bounded : leb_ℤ c.matches s.bounds.max_candidates ≡ true
    pub no_verification : c.verification ≡ none
    pub control : control_ok s.protocol c c.control ≡ true

  IsPlain-same :
      (s : Server) (c d : Candidate)
      → IsPlain s c
      → some c ≡ some d
      → IsPlain s d × (d.role ≡ c.role) × (d.label ≡ c.label)
  IsPlain-same s c d h e =
      let same : c ≡ d = some_injective e in
      (subst (IsPlain s) same h, ap (λ x. x.role) (sym same), ap (λ x. x.label) (sym same))

  IsPortable-same :
      (s : Server) (c d : Candidate)
      → IsPlain s c
      → some c ≡ some d
      → IsPortable s d × (d.role ≡ c.role) × (d.label ≡ c.label)
  IsPortable-same s c d h e =
      let same : c ≡ d = some_injective e in
      (
        subst (IsPortable s) same (record {
          role = h.role;
          label = h.label;
          matched = h.matched;
          bounded = h.bounded;
          control = h.control;
          verification = ap (verification_ok s.protocol s.origins) h.no_verification;
        }),
        ap (λ x. x.role) (sym same),
        ap (λ x. x.label) (sym same),
      )

  kept_control :
      (p : Protocol) (c : Candidate) (k : ControlMetadata)
      → (is_typed p && promotable_candidate lib c) ≡ true
      → validate_control_metadata lib k ≡ true
      → control_ok p (record c { control = some k }) (some k) ≡ true
  unfolding promotable_candidate
  kept_control p c k t v = ground arith

  same_control :
      (p : Protocol) (c : Candidate) (v : Option VerificationObservation)
      (o : Option ControlMetadata)
      → control_ok p c o ≡ true
      → control_ok p (record c { verification = v }) o ≡ true
  unfolding promotable_candidate
  same_control p c v none h = refl
  same_control p c v (some k) h = h

  keep_control-IsPlain :
      (s : Server) (c d : Candidate) (o : Option ControlMetadata)
      → IsPlain s c
      → keep_control lib s.protocol c o ≡ some d
      → IsPlain s d × (d.role ≡ c.role) × (d.label ≡ c.label)
  unfolding keep_control
  keep_control-IsPlain s c d none h e = IsPlain-same s c d h e
  keep_control-IsPlain s c d (some k) h e =
      elim (Bool-cases (is_typed s.protocol && promotable_candidate lib c)) [
        | inr t ↦ IsPlain-same s c d h (ground arith)
        | inl t ↦ elim (Bool-cases (validate_control_metadata lib k)) [
          | inr v ↦ absurd (ground arith)
          | inl v ↦
              let kept : Candidate = record c { control = some k } in
              let same : kept ≡ d = some_injective (ground arith) in
              (
                subst (IsPlain s) same (record {
                  role = h.role;
                  label = h.label;
                  matched = h.matched;
                  bounded = h.bounded;
                  no_verification = h.no_verification;
                  control = kept_control s.protocol c k t v;
                }),
                ap (λ x. x.role) (sym same),
                ap (λ x. x.label) (sym same),
              )
        ]
      ]

  keep_verification-IsPortable :
      (s : Server) (c d : Candidate) (o : Option VerificationObservation)
      → IsPlain s c
      → keep_verification lib s.protocol s.origins c o ≡ some d
      → IsPortable s d × (d.role ≡ c.role) × (d.label ≡ c.label)
  unfolding keep_verification
  keep_verification-IsPortable s c d none h e = IsPortable-same s c d h e
  keep_verification-IsPortable s c d (some k) h e = elim (Bool-cases (is_v4 s.protocol)) [
    | inr t ↦ IsPortable-same s c d h (ground arith)
    | inl t ↦ elim (Bool-cases (validate_verification_observation lib k s.origins)) [
      | inr v ↦ absurd (ground arith)
      | inl v ↦
          let kept : Candidate = record c { verification = some k } in
          let same : kept ≡ d = some_injective (ground arith) in
          (
            subst (IsPortable s) same (record {
              role = h.role;
              label = h.label;
              matched = h.matched;
              bounded = h.bounded;
              control = same_control s.protocol c (some k) c.control h.control;
              verification = ground arith;
            }),
            ap (λ x. x.role) (sym same),
            ap (λ x. x.label) (sym same),
          )
    ]
  ]

  -- A candidate that is kept, against the earlier ones.
  abbrev Kept : Server → List Candidate → Candidate → Type 0
  Kept s earlier c = IsPortable s c × (any (same_locator c) earlier ≡ false)

  same_locator-of :
      (c d : Candidate) (earlier : List Candidate)
      → d.role ≡ c.role
      → d.label ≡ c.label
      → any (same_locator d) earlier ≡ any (same_locator c) earlier
  unfolding same_locator
  same_locator-of c d [] r l = refl
  same_locator-of c d (x ∷ xs) r l = cc (same_locator-of c d xs r l, r, l)

  plain_candidate-IsPlain :
      (s : Server) (generation index : ℕ) (raw : RawCandidate)
      → raw_ok lib s.bounds.max_candidates raw ≡ true
      → safe_candidate_label lib (plain_candidate lib generation index raw).label ≡ true
      → IsPlain s (plain_candidate lib generation index raw)
  unfolding plain_candidate raw_ok
  plain_candidate-IsPlain s generation index raw h l = record {
    role = ground arith;
    label = l;
    matched = ground arith;
    bounded = ground arith;
    no_verification = refl;
    control = refl;
  }

  passes : (a b c : Bool) → (not a || not b || c) ≡ false → (a ≡ true) × (b ≡ true) × (c ≡ false)
  passes a b c h = ground arith

  pub reduce_candidate-Kept :
      (s : Server) (generation : ℕ) (earlier : List Candidate) (index : ℕ) (raw : RawCandidate)
      (d : Candidate)
      → reduce_candidate lib s generation earlier index raw ≡ some d
      → Kept s earlier d
  unfolding reduce_candidate
  reduce_candidate-Kept s generation earlier index raw d e =
      let c = plain_candidate lib generation index raw in
      let refused =
        not (raw_ok lib s.bounds.max_candidates raw)
        || not (safe_candidate_label lib c.label)
        || any (same_locator c) earlier in
      elim (Bool-cases refused) [
        | inl r ↦ absurd (ground arith)
        | inr r ↦
            let (fine, safe, new) =
              passes (raw_ok lib s.bounds.max_candidates raw) (safe_candidate_label lib c.label)
                (any (same_locator c) earlier) r in
            elim (Option-cases (keep_control lib s.protocol c raw.control)) [
              | inl k ↦ absurd (ground arith)
              | inr (c', k) ↦
                  let (plain, role, label) =
                    keep_control-IsPlain s c c' raw.control
                      (plain_candidate-IsPlain s generation index raw fine safe) k in
                  let (portable, role', label') =
                    keep_verification-IsPortable s c' d raw.verification plain (ground arith) in
                  (portable, same_locator-of c d earlier (role' ∙ role) (label' ∙ label) ∙ new)
            ]
      ]

  -- All kept candidates are portable; none has the role and label of another, or of an earlier one.
  abbrev pub apart : List Candidate → Candidate → Bool
  apart earlier c = not (any (same_locator c) earlier)

  same_locator-sym : (c d : Candidate) → same_locator c d ≡ same_locator d c
  unfolding same_locator
  same_locator-sym c d = ground (arith, bytes_eq_sym c.role d.role, bytes_eq_sym c.label d.label)

  new_apart :
      (c : Candidate) (earlier cs : List Candidate)
      → all (apart (c ∷ earlier)) cs ≡ true
      → any (same_locator c) cs ≡ false
  new_apart c earlier [] h = refl
  new_apart c earlier (d ∷ ds) h = ground (arith, new_apart c earlier ds, same_locator-sym c d)

  apart_weaker :
      (c : Candidate) (earlier cs : List Candidate)
      → all (apart (c ∷ earlier)) cs ≡ true
      → all (apart earlier) cs ≡ true
  apart_weaker c earlier [] h = refl
  apart_weaker c earlier (d ∷ ds) h = ground (arith, apart_weaker c earlier ds)

  abbrev pub AreKept : Server → List Candidate → List RawCandidate → List Candidate → Type 0
  AreKept s earlier raws cs =
      All (IsPortable s) cs
      × (distinct_locators cs ≡ true)
      × (all (apart earlier) cs ≡ true)
      × (length cs ≡ length raws)

  pub reduce_candidates-portable :
      (s : Server) (generation : ℕ) (earlier : List Candidate) (index : ℕ)
      (raws : List RawCandidate) (cs : List Candidate)
      → reduce_candidates lib s generation earlier index raws ≡ some cs
      → AreKept s earlier raws cs
  unfolding reduce_candidates
  reduce_candidates-portable s generation earlier index [] cs e =
      let same : [] ≡ cs = some_injective e in
      subst (AreKept s earlier []) same (tt, refl, refl, refl)
  reduce_candidates-portable s generation earlier index (raw ∷ rest) cs e =
      elim (Option-cases (reduce_candidate lib s generation earlier index raw)) [
        | inl f ↦ absurd (ground arith)
        | inr (c, f) ↦
            elim (Option-cases
              (reduce_candidates lib s generation (c ∷ earlier) (suc index) rest)) [
                | inl g ↦ absurd (ground arith)
                | inr (later, g) ↦
                    let (portable, new) =
                      reduce_candidate-Kept s generation earlier index raw c f in
                    let (rests, distinct, away, long) =
                      reduce_candidates-portable s generation (c ∷ earlier) (suc index) rest later
                        g in
                    let same : c ∷ later ≡ cs = some_injective (ground arith) in
                    subst (AreKept s earlier (raw ∷ rest)) same (
                      (portable, rests),
                      ground (arith, new_apart c earlier later away),
                      ground (arith, new, apart_weaker c earlier later away),
                      ap suc long,
                    )
              ]
      ]
