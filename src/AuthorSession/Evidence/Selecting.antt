-- ===== src/AuthorSession/Evidence/Selecting.antt =====
-- About the outputs that reviewOutputs of authorsession/session.go selects.
use browsertools.Prelude.{
  ◌≡◌, refl, sym, ◌&&◌, ◌||◌, not, Bool, true, false, some, List, [], ◌∷◌, Bytes, bytes, bytes_eq,
  pos, eq_ℤ, leb_ℤ, all, member, inl, inr, Bool-cases, Option-cases, arith, some_injective, subst,
}
use browsertools.Registration.Server.{lookup}
use browsertools.AuthorSession.Types.{OutputRequest, OutputSelection, RawCandidate}
use browsertools.AuthorSession.Vocabulary.{is_identifier, output_types, output_locator_modes}
use browsertools.AuthorSession.Execution.{record_of}
use browsertools.AuthorSession.Outputs.{
  request_ok, record_ok, requests_ok, select, select_all, sort_selections, insert_selection,
  selection_for, exact_matches, role_matches, matches_in,
}
use browsertools.AuthorSession.Server.{AuthorLibrary, Server}
use browsertools.AuthorSession.Evidence.{selection_ok}

-- The request is of a known type and locator mode.
abbrev pub is_known_request : OutputRequest → Bool
is_known_request r = member r.type output_types && member r.locator_mode output_locator_modes

pub and_true : (x y : Bool) → x && y ≡ true → (x ≡ true) × (y ≡ true)
and_true true y h = (refl, h)
and_true false y h = cc

pub all_cons : (x y : Bool) → x ≡ true → y ≡ true → x && y ≡ true
all_cons x y h k = rw h k

last_two : (a b c d e f g : Bool) → a && b && c && d && e && f && g ≡ true → f && g ≡ true
last_two a b c d e f g h =
    let (early, last) = and_true (a && b && c && d && e && f) g h in
    all_cons f g (and_true (a && b && c && d && e) f early).1 last

all-insert_selection :
    (p : OutputSelection → Bool) (x : OutputSelection) (l : List OutputSelection)
    → all p (insert_selection x l) ≡ (p x && all p l)
unfolding insert_selection
all-insert_selection p x [] = refl
all-insert_selection p x (y ∷ rest) = ground (arith, all-insert_selection p x rest)

pub all-sort_selections :
    (p : OutputSelection → Bool) (l : List OutputSelection) → all p (sort_selections l) ≡ all p l
unfolding sort_selections
all-sort_selections p [] = refl
all-sort_selections p (x ∷ rest) =
    ground (arith, all-insert_selection p x (sort_selections rest), all-sort_selections p rest)

module _ (a : AuthorLibrary) where
  request_known :
      (keys ids : List Bytes) (r : OutputRequest)
      → request_ok a keys ids r ≡ true
      → is_known_request r ≡ true
  unfolding request_ok
  request_known keys ids r h =
      last_two (is_identifier r.key) (not (bytes_eq r.key (bytes "goal_present")))
        (not (a.base.sensitive_key (a.base.to_lower r.key))) (not (member r.key keys))
        (not (member r.candidate_id ids)) (member r.type output_types)
        (member r.locator_mode output_locator_modes) h

  pub known_of_requests :
      (context : Bytes) (s : Server) (keys ids : List Bytes) (requests : List OutputRequest)
      → requests_ok a context s keys ids requests ≡ true
      → all is_known_request requests ≡ true
  unfolding requests_ok
  known_of_requests context s keys ids [] h = refl
  known_of_requests context s keys ids (r ∷ rest) h =
      let there = record_ok a context (lookup r.candidate_id s.candidates) in
      let later = requests_ok a context s (r.key ∷ keys) (r.candidate_id ∷ ids) rest in
      let (first, others) = and_true (request_ok a keys ids r && there) later h in
      all_cons (is_known_request r) (all is_known_request rest)
        (request_known keys ids r (and_true (request_ok a keys ids r) there first).0)
        (known_of_requests context s (r.key ∷ keys) (r.candidate_id ∷ ids) rest others)

  module _ (context : Bytes) (s : Server) (candidates : List RawCandidate) where
    select-ok :
        (request : OutputRequest) (x : OutputSelection)
        → is_known_request request ≡ true
        → select a context s candidates request ≡ some x
        → selection_ok x ≡ true
    unfolding select selection_for
    select-ok request x k h =
        let r = record_of (lookup request.candidate_id s.candidates) in
        let exact = exact_matches a r candidates in
        let role = role_matches r.protocol.role candidates in
        let unique =
          not (bytes_eq request.locator_mode (bytes "unique_role")) || eq_ℤ role (pos 1) in
        let inside = matches_in a s.bounds.max_candidates candidates in
        let few = leb_ℤ role s.bounds.max_candidates in
        let one = eq_ℤ exact (pos 1) in
        elim (Bool-cases (inside && few && one && unique)) [
          | inr e ↦ cc (rw (select, e) at h)
          | inl e ↦
              let (e1, alone) = and_true (inside && few && one) unique e in
              let (_, once) = and_true (inside && few) one e1 in
              let (t, m) =
                and_true (member request.type output_types)
                  (member request.locator_mode output_locator_modes) k in
              subst (λ y. selection_ok y ≡ true) (some_injective (rw (select, e) at h))
                (all_cons _ unique (all_cons _ _ (all_cons one _ once t) m) alone)
        ]

    pub select_all-ok :
        (requests : List OutputRequest) (xs : List OutputSelection)
        → all is_known_request requests ≡ true
        → select_all a context s candidates requests ≡ some xs
        → all selection_ok xs ≡ true
    unfolding select_all
    select_all-ok [] xs k h = rw (sym (some_injective h)) refl
    select_all-ok (request ∷ rest) xs k h =
        elim (Option-cases (select a context s candidates request)) [
          | inl e ↦ cc (rw (select_all, e) at h)
          | inr (x, e) ↦ elim (Option-cases (select_all a context s candidates rest)) [
            | inl f ↦ cc (rw (select_all, e, f) at h)
            | inr (later, f) ↦
                subst (λ l. all selection_ok l ≡ true) (some_injective (rw (select_all, e, f) at h))
                  (all_cons (selection_ok x) (all selection_ok later)
                    (select-ok request x (and_true (is_known_request request) _ k).0 e)
                    (select_all-ok rest later (and_true (is_known_request request) _ k).1 f))
          ]
        ]
