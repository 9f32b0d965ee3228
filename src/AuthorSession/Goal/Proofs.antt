-- ===== src/AuthorSession/Goal/Proofs.antt =====
-- About matchGoal and authenticationSuccessProof of authorsession/session.go.
use browsertools.Prelude.{
  ℕ, zero, suc, ◌≡◌, refl, sym, ap, subst, ◌&&◌, Bool, true, false, some, List, [], ◌∷◌, bytes_eq,
  arith, inl, inr, Bool-cases, some_injective, get_elem?, pos, leb_ℤ, eq_ℤ, all,
}
use browsertools.AuthorSession.Types.{Candidate, GoalPredicate, GoalProof}
use browsertools.AuthorSession.Goal.{fits, fitting, matches_like}

abbrev pub is_positive : Candidate → Bool
is_positive c = leb_ℤ (pos 1) c.matches

-- The candidate has the role and label of the proof.
abbrev pub is_like : GoalProof → Candidate → Bool
is_like g c = bytes_eq c.role g.role && bytes_eq c.label g.label

-- The proof stands for one element of the page: the candidate at `index` matches it once, and no
-- other candidate has its role and label.
pub record IsSole (g : GoalProof) (cs : List Candidate) : Type 0 where
  pub index : ℕ
  pub candidate : Candidate
  pub there : get_elem? cs index ≡ some candidate
  pub same : is_like g candidate ≡ true
  pub once : candidate.matches ≡ pos 1
  pub only : (j : ℕ) (d : Candidate) → get_elem? cs j ≡ some d → is_like g d ≡ true → j ≡ index

-- The only fitting candidate, with its place.
pub record OnlyFits (p : GoalPredicate) (cs : List Candidate) (c : Candidate) : Type 0 where
  pub index : ℕ
  pub there : get_elem? cs index ≡ some c
  pub does : fits p c ≡ true
  pub only : (j : ℕ) (d : Candidate) → get_elem? cs j ≡ some d → fits p d ≡ true → j ≡ index

fitting_nonempty :
    (p : GoalPredicate) (cs : List Candidate) (j : ℕ) (d : Candidate)
    → get_elem? cs j ≡ some d
    → fits p d ≡ true
    → fitting p cs ≡ []
    → false ≡ true
unfolding fitting
fitting_nonempty p [] j d h f e = cc
fitting_nonempty p (c ∷ cs) zero d h f e =
    cc (rw (fitting, subst (λ x. fits p x ≡ true) (sym (some_injective h)) f) at e)
fitting_nonempty p (c ∷ cs) (suc j) d h f e = elim (Bool-cases (fits p c)) [
  | inl y ↦ cc (rw (fitting, y) at e)
  | inr n ↦ fitting_nonempty p cs j d h f (rw (fitting, n) at e)
]

cons_injective : {x y : Candidate} {xs ys : List Candidate} → x ∷ xs ≡ y ∷ ys → (x ≡ y) × (xs ≡ ys)
cons_injective h = (cc, cc)

-- After the first there is no other where nothing fits among the rest.
first_only :
    (p : GoalPredicate) (cs : List Candidate) (x : Candidate) (j : ℕ) (d : Candidate)
    → get_elem? (x ∷ cs) j ≡ some d
    → fits p d ≡ true
    → fitting p cs ≡ []
    → j ≡ 0
first_only p cs x zero d h f e = refl
first_only p cs x (suc j) d h f e = cc (fitting_nonempty p cs j d h f e)

later_only :
    (p : GoalPredicate) (cs : List Candidate) (x c : Candidate) (rest : OnlyFits p cs c)
    → fits p x ≡ false
    → (j : ℕ) (d : Candidate) → get_elem? (x ∷ cs) j ≡ some d
    → fits p d ≡ true
    → j ≡ suc rest.index
later_only p cs x c rest n zero d h f =
    cc (subst (λ z. fits p z ≡ true) (sym (some_injective h)) f, n)
later_only p cs x c rest n (suc j) d h f = ap suc (rest.only j d h f)

pub only_of_fitting :
    (p : GoalPredicate) (cs : List Candidate) (c : Candidate)
    → fitting p cs ≡ c ∷ []
    → OnlyFits p cs c
unfolding fitting
only_of_fitting p [] c e = cc
only_of_fitting p (x ∷ cs) c e = elim (Bool-cases (fits p x)) [
  | inl y ↦
      let (head, tail) = cons_injective (rw (fitting, y) at e) in
      record {
        index = 0;
        there = ap some head;
        does = subst (λ z. fits p z ≡ true) head y;
        only = λ j d h f. first_only p cs x j d h f tail;
      }
  | inr n ↦
      let rest = only_of_fitting p cs c (rw (fitting, n) at e) in
      record {
        index = suc rest.index;
        there = rest.there;
        does = rest.does;
        only = λ j d h f. later_only p cs x c rest n j d h f;
      }
]

matches_like_nonneg :
    (c : Candidate) (cs : List Candidate)
    → all is_positive cs ≡ true
    → leb_ℤ (pos 0) (matches_like c cs) ≡ true
unfolding matches_like
matches_like_nonneg c [] h = refl
matches_like_nonneg c (d ∷ rest) h = ground (arith, matches_like_nonneg c rest)

matches_like_there :
    (c : Candidate) (cs : List Candidate) (j : ℕ) (d : Candidate)
    → all is_positive cs ≡ true
    → get_elem? cs j ≡ some d
    → bytes_eq d.role c.role && bytes_eq d.label c.label ≡ true
    → leb_ℤ (pos 1) (matches_like c cs) ≡ true
unfolding matches_like
matches_like_there c [] j d h g e = cc
matches_like_there c (x ∷ rest) zero d h g e = ground (
  arith,
  subst (λ y. bytes_eq y.role c.role && bytes_eq y.label c.label ≡ true) (sym (some_injective g)) e,
  matches_like_nonneg c rest,
)
matches_like_there c (x ∷ rest) (suc j) d h g e =
    ground (arith, matches_like_there c rest j d, matches_like_nonneg c rest)

abbrev pub alike : Candidate → Candidate → Bool
alike c d = bytes_eq d.role c.role && bytes_eq d.label c.label

-- Where the matches sum up to one, one candidate at most counts.
pub matches_like_unique :
    (c : Candidate) (cs : List Candidate) (i j : ℕ) (d e : Candidate)
    → all is_positive cs ≡ true
    → eq_ℤ (matches_like c cs) (pos 1) ≡ true
    → get_elem? cs i ≡ some d
    → alike c d ≡ true
    → get_elem? cs j ≡ some e
    → alike c e ≡ true
    → i ≡ j
unfolding matches_like
matches_like_unique c [] i j d e h s p a q b = cc
matches_like_unique c (x ∷ rest) zero zero d e h s p a q b = refl
matches_like_unique c (x ∷ rest) zero (suc j) d e h s p a q b = absurd (
    ground (
      arith,
      subst (λ y. alike c y ≡ true) (sym (some_injective p)) a,
      matches_like_there c rest j e,
    ))
matches_like_unique c (x ∷ rest) (suc i) zero d e h s p a q b = absurd (
    ground (
      arith,
      subst (λ y. alike c y ≡ true) (sym (some_injective q)) b,
      matches_like_there c rest i d,
    ))
matches_like_unique c (x ∷ rest) (suc i) (suc j) d e h s p a q b = elim (Bool-cases (alike c x)) [
  | inl y ↦ absurd (ground (arith, matches_like_there c rest i d))
  | inr n ↦
      ap suc (matches_like_unique c rest i j d e (ground arith) (rw (matches_like, n) at s) p a q b)
]
