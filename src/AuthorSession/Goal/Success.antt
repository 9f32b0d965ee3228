-- ===== src/AuthorSession/Goal/Success.antt =====
-- About the proofs that matchGoal and authenticationSuccessProof of authorsession/session.go give.
use browsertools.Prelude.{
  ℕ, zero, suc, ◌≡◌, refl, sym, ap, ◌∙◌, subst, ◌||◌, not, ◌⊎◌, some, List, [], ◌∷◌, bytes_eq,
  bytes_eq_refl, bytes_eq_sound, Bool, true, false, Bytes, is_empty, arith, inl, inr, Bool-cases,
  Option-cases, some_injective, get_elem?, pos, eq_ℤ, eq_ℤ-sound, all, ltb,
}
use browsertools.Label.{is_placeholder}
use browsertools.AuthorSession.Types.{
  Candidate, Observation, GoalPredicate, GoalProof, normalized_context,
}
use browsertools.AuthorSession.Goal.{
  fits, fitting, proof_of, same_place, only_match, match_goal, priority, insert_by_priority,
  sort_by_priority, matches_like, first_success, authentication_success_proof,
}
use browsertools.AuthorSession.Goal.Proofs.{
  is_positive, is_like, IsSole, OnlyFits, only_of_fitting, alike, matches_like_unique,
}

-- The proof is of the place that was observed.
pub record IsAt (o : Observation) (g : GoalProof) : Type 0 where
  pub origin : g.origin ≡ o.origin
  pub path : g.path ≡ o.path
  pub context : g.context ≡ o.context

-- The proof is of the origin, path and context that the predicate names, and has its role, and its
-- label where it gives one.
pub record IsGoal (p : GoalPredicate) (g : GoalProof) : Type 0 where
  pub origin : g.origin ≡ p.origin
  pub path : g.path ≡ p.path
  pub context : g.context ≡ normalized_context p.context
  pub role : g.role ≡ p.role
  pub label : (p.label ≡ []) ⊎ (g.label ≡ p.label)

-- The candidate has the role that the predicate names, and its label where it gives one.
abbrev pub IsNamed : GoalPredicate → Candidate → Type 0
IsNamed p c = (c.role ≡ p.role) × ((p.label ≡ []) ⊎ (c.label ≡ p.label))

-- Only one candidate is of the role and the label that the predicate names.
pub record IsAlone (p : GoalPredicate) (g : GoalProof) (cs : List Candidate) : Type 0 where
  pub index : ℕ
  pub candidate : Candidate
  pub there : get_elem? cs index ≡ some candidate
  pub named : IsNamed p candidate
  pub once : candidate.matches ≡ pos 1
  pub role : g.role ≡ candidate.role
  pub label : g.label ≡ candidate.label
  pub only : (j : ℕ) (d : Candidate) → get_elem? cs j ≡ some d → IsNamed p d → j ≡ index

is_empty_sound : (s : Bytes) → is_empty s ≡ true → s ≡ []
is_empty_sound [] h = refl
is_empty_sound (c ∷ s) h = cc

or_cases : (x y : Bool) → x || y ≡ true → (x ≡ true) ⊎ (y ≡ true)
or_cases true y h = inl refl
or_cases false y h = inr h

IsNamed-fits : (p : GoalPredicate) (c : Candidate) → fits p c ≡ true → IsNamed p c
IsNamed-fits p c h = (
  bytes_eq_sound c.role p.role (ground (arith, h)),
  elim (or_cases (is_empty p.label) (bytes_eq c.label p.label) (ground (arith, h))) [
    | inl e ↦ inl (is_empty_sound p.label e)
    | inr e ↦ inr (bytes_eq_sound c.label p.label e)
  ],
)

fits-IsNamed : (p : GoalPredicate) (c : Candidate) → IsNamed p c → fits p c ≡ true
fits-IsNamed p c (e, inl f) = rw (e, f) (ground (arith, bytes_eq_refl p.role))
fits-IsNamed p c (e, inr f) =
    rw (e, f) (ground (arith, bytes_eq_refl p.role, bytes_eq_refl p.label))

proof_of-IsAlone :
    (p : GoalPredicate) (o : Observation) (c : Candidate)
    → OnlyFits p o.candidates c
    → eq_ℤ c.matches (pos 1) ≡ true
    → IsAlone p (proof_of o c) o.candidates
proof_of-IsAlone p o c h e = record {
  index = h.index;
  candidate = c;
  there = h.there;
  named = IsNamed-fits p c h.does;
  once = eq_ℤ-sound c.matches (pos 1) e;
  role = refl;
  label = refl;
  only = λ j d g n. h.only j d g (fits-IsNamed p d n);
}

proof_of-IsGoal :
    (p : GoalPredicate) (o : Observation) (c : Candidate)
    → same_place p o ≡ true
    → fits p c ≡ true
    → IsGoal p (proof_of o c)
proof_of-IsGoal p o c h f =
    let named = IsNamed-fits p c f in
    record {
      origin = sym (bytes_eq_sound p.origin o.origin (ground (arith, h)));
      path = sym (bytes_eq_sound p.path o.path (ground (arith, h)));
      context = sym (bytes_eq_sound (normalized_context p.context) o.context (ground (arith, h)));
      role = named.0;
      label = named.1;
    }

-- A candidate like one that fits does fit.
fits_like :
    (p : GoalPredicate) (o : Observation) (c d : Candidate)
    → fits p c ≡ true
    → is_like (proof_of o c) d ≡ true
    → fits p d ≡ true
fits_like p o c d f h =
    ground (arith, f, bytes_eq_sound d.role c.role, bytes_eq_sound d.label c.label)

proof_of-IsSole :
    (p : GoalPredicate) (o : Observation) (c : Candidate)
    → OnlyFits p o.candidates c
    → eq_ℤ c.matches (pos 1) ≡ true
    → IsSole (proof_of o c) o.candidates
proof_of-IsSole p o c h e = record {
  index = h.index;
  candidate = c;
  there = h.there;
  same = ground (arith, bytes_eq_refl c.role, bytes_eq_refl c.label);
  once = eq_ℤ-sound c.matches (pos 1) e;
  only = λ j d g l. h.only j d g (fits_like p o c d h.does l);
}

only_match_sound :
    (o : Observation) (l : List Candidate) (g : GoalProof)
    → only_match o l ≡ some g
    → (c : Candidate) × (l ≡ c ∷ []) × (eq_ℤ c.matches (pos 1) ≡ true) × (proof_of o c ≡ g)
unfolding only_match
only_match_sound o [] g h = cc
only_match_sound o (c ∷ []) g h = elim (Bool-cases (eq_ℤ c.matches (pos 1))) [
  | inl e ↦ (c, refl, e, some_injective (rw (only_match, e) at h))
  | inr e ↦ cc (rw (only_match, e) at h)
]
only_match_sound o (c ∷ d ∷ rest) g h = cc

-- A goal proof is of a place and an element that the predicate names: its origin, path and context
-- are those of the predicate and of the observation, its role is that of the predicate, and so is
-- its label where the predicate gives one; and exactly one candidate has that role, and that label
-- where it is given, and it has one match and the role and the label of the proof.
pub match_goal-IsSole :
    (p : GoalPredicate) (o : Observation) (g : GoalProof)
    → match_goal p o ≡ some g
    → IsSole g o.candidates × IsAt o g × IsGoal p g × IsAlone p g o.candidates
unfolding match_goal
match_goal-IsSole p o g h = elim (Bool-cases (same_place p o)) [
  | inr e ↦ cc (rw (match_goal, e) at h)
  | inl e ↦
      let (c, one, once, same) =
        only_match_sound o (fitting p o.candidates) g (rw (match_goal, e) at h) in
      let only = only_of_fitting p o.candidates c one in
      (
        subst (λ x. IsSole x o.candidates) same (proof_of-IsSole p o c only once),
        subst (IsAt o) same (record { origin = refl; path = refl; context = refl }),
        subst (IsGoal p) same (proof_of-IsGoal p o c e only.does),
        subst (λ x. IsAlone p x o.candidates) same (proof_of-IsAlone p o c only once),
      )
]

-- Where an element of a list stands.
abbrev Among : List Candidate → Candidate → Type 0
Among cs c = (j : ℕ) × (get_elem? cs j ≡ some c)

insert-Among :
    (c x : Candidate) (l : List Candidate) (i : ℕ)
    → get_elem? (insert_by_priority c l) i ≡ some x
    → (x ≡ c) ⊎ Among l x
unfolding insert_by_priority
insert-Among c x [] zero h = inl (sym (some_injective h))
insert-Among c x [] (suc i) h = cc
insert-Among c x (d ∷ rest) zero h = elim (Bool-cases (ltb (priority d.role) (priority c.role))) [
  | inl e ↦ inr (0, rw (insert_by_priority, e) at h)
  | inr e ↦ inl (sym (some_injective (rw (insert_by_priority, e) at h)))
]
insert-Among c x (d ∷ rest) (suc i) h =
    elim (Bool-cases (ltb (priority d.role) (priority c.role))) [
      | inl e ↦ elim (insert-Among c x rest i (rw (insert_by_priority, e) at h)) [
        | inl y ↦ inl y
        | inr (j, y) ↦ inr (suc j, y)
      ]
      | inr e ↦ inr (i, rw (insert_by_priority, e) at h)
    ]

sort-Among : (cs : List Candidate) (x : Candidate) → Among (sort_by_priority cs) x → Among cs x
unfolding sort_by_priority
sort-Among [] x (i, h) = (i, h)
sort-Among (c ∷ rest) x (i, h) = elim (insert-Among c x (sort_by_priority rest) i h) [
  | inl e ↦ (0, ap some (sym e))
  | inr m ↦ let (j, y) = sort-Among rest x m in (suc j, y)
]

-- What the loop over the candidates finds.
first_success_sound :
    (o : Observation) (l : List Candidate) (g : GoalProof)
    → ((x : Candidate) → Among l x → Among o.candidates x)
    → first_success o l ≡ some g
    → (c : Candidate) × Among o.candidates c
      × (eq_ℤ c.matches (pos 1) ≡ true)
      × (eq_ℤ (matches_like c o.candidates) (pos 1) ≡ true)
      × (proof_of o c ≡ g)
unfolding first_success
first_success_sound o [] g w h = cc
first_success_sound o (c ∷ rest) g w h =
    elim (Bool-cases (not (eq_ℤ c.matches (pos 1)) || is_placeholder c.label)) [
      | inl e ↦
          first_success_sound o rest g (λ x (i, y). w x (suc i, y)) (rw (first_success, e) at h)
      | inr e ↦ elim (Bool-cases (eq_ℤ (matches_like c o.candidates) (pos 1))) [
        | inl f ↦
            (c, w c (0, refl), ground (arith, e), f, some_injective (rw (first_success, e, f) at h))
        | inr f ↦ cc (rw (first_success, e, f) at h)
      ]
    ]

like-IsSole :
    (o : Observation) (c : Candidate)
    → all is_positive o.candidates ≡ true
    → Among o.candidates c
    → eq_ℤ c.matches (pos 1) ≡ true
    → eq_ℤ (matches_like c o.candidates) (pos 1) ≡ true
    → IsSole (proof_of o c) o.candidates
like-IsSole o c p (i, there) once sum =
    let own : alike c c ≡ true = ground (arith, bytes_eq_refl c.role, bytes_eq_refl c.label) in
    record {
      index = i;
      candidate = c;
      there = there;
      same = own;
      once = eq_ℤ-sound c.matches (pos 1) once;
      only = λ j d g l. matches_like_unique c o.candidates j i d c p sum g l there own;
    }

-- Where each candidate of an observation has at least one match, a proof that the login succeeded
-- is of the observed place and stands for one element: a candidate with one match, and no other
-- candidate has its role and label.
pub authentication_success_proof-IsSole :
    (o : Observation) (goal : GoalPredicate) (g : GoalProof)
    → all is_positive o.candidates ≡ true
    → authentication_success_proof o goal ≡ some g
    → IsSole g o.candidates × IsAt o g
unfolding authentication_success_proof
authentication_success_proof-IsSole o goal g p h = elim (Option-cases (match_goal goal o)) [
  | inr (x, e) ↦
      let sole = match_goal-IsSole goal o g (e ∙ (rw (authentication_success_proof, e) at h)) in
      (sole.0, sole.1)
  | inl e ↦
      let (c, among, once, sum, same) =
        first_success_sound o (sort_by_priority o.candidates) g (λ x. sort-Among o.candidates x)
          (rw (authentication_success_proof, e) at h) in
      (
        subst (λ x. IsSole x o.candidates) same (like-IsSole o c p among once sum),
        subst (IsAt o) same (record { origin = refl; path = refl; context = refl }),
      )
]
