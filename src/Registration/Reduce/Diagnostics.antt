-- ===== src/Registration/Reduce/Diagnostics.antt =====
-- About the diagnostics in reduceObservation of registrationauthorsession/session.go.
use browsertools.Prelude.{
  ◌≤◌, ◌≡◌, refl, sym, inl, inr, Bool, true, false, ◌||◌, ◌&&◌, not, Option, none, some, List, [],
  ◌∷◌, ◌++◌, Bytes, bytes_eq, bytes_eq_sound, bytes_eq_refl, bytes_eq_sym, arith, Bool-cases,
  length, leb, all, member, if◌then◌else◌, ◌∙◌, all-append, suc,
}
use browsertools.Text.{insert_sorted, sort_strings}
use browsertools.Text.Sorting.{all-sort_strings, member-insert_sorted, member-sort_strings}
use browsertools.Registration.Reduce.{
  valid_diagnostic, allowed_diagnostics, max_unique_diagnostics, merge_diagnostics,
}

-- No code stands twice in the list.
abbrev pub no_duplicates : List Bytes → Bool
no_duplicates [] = true
no_duplicates (x ∷ xs) = not (member x xs) && no_duplicates xs

member-append :
    (s : Bytes) (xs ys : List Bytes) → member s (xs ++ ys) ≡ (member s xs || member s ys)
member-append s [] ys = refl
member-append s (x ∷ xs) ys = ground (arith, member-append s xs ys)

no_duplicates-append_one :
    (xs : List Bytes) (x : Bytes)
    → no_duplicates xs ≡ true
    → member x xs ≡ false
    → no_duplicates (xs ++ x ∷ []) ≡ true
no_duplicates-append_one [] x h k = refl
no_duplicates-append_one (y ∷ ys) x h k = ground (
  arith,
  no_duplicates-append_one ys x,
  member-append y ys (x ∷ []),
  bytes_eq_sound y x,
  bytes_eq_refl y,
)

remove : Bytes → List Bytes → List Bytes
remove x [] = []
remove x (y ∷ ys) = let rest = remove x ys in if bytes_eq x y then ys else y ∷ rest

length-remove :
    (x : Bytes) (ys : List Bytes) → member x ys ≡ true → length ys ≡ suc (length (remove x ys))
unfolding remove
length-remove x [] h = cc
length-remove x (y ∷ ys) h = ground (arith, length-remove x ys)

member-remove :
    (x z : Bytes) (ys : List Bytes)
    → bytes_eq z x ≡ false
    → member z ys ≡ true
    → member z (remove x ys) ≡ true
unfolding remove
member-remove x z [] n h = cc
member-remove x z (y ∷ ys) n h =
    ground (arith, member-remove x z ys, bytes_eq_sound x y, bytes_eq_refl x)

all_in_remove :
    (x : Bytes) (xs ys : List Bytes)
    → member x xs ≡ false
    → all (λ z. member z ys) xs ≡ true
    → all (λ z. member z (remove x ys)) xs ≡ true
all_in_remove x [] ys n h = refl
all_in_remove x (z ∷ xs) ys n h =
    ground (arith, all_in_remove x xs ys, member-remove x z ys, bytes_eq_sound z x, bytes_eq_refl x)

-- A list without duplicates is no longer than a list that has its members.
pub length-subset :
    (xs ys : List Bytes)
    → no_duplicates xs ≡ true
    → all (λ z. member z ys) xs ≡ true
    → length xs ≤ length ys
length-subset [] ys h k = omega arith
length-subset (x ∷ xs) ys h k =
    let shorter =
      length-subset xs (remove x ys) (ground arith)
        (all_in_remove x xs ys (ground arith) (ground arith)) in
    omega (arith, length-remove x ys (ground arith), shorter)

-- The codes of the session: valid, each once.
pub record AreCodes (codes : List Bytes) : Type 0 where
  pub valid : all valid_diagnostic codes ≡ true
  pub unique : no_duplicates codes ≡ true

no_duplicates-insert :
    (x : Bytes) (ys : List Bytes)
    → no_duplicates (insert_sorted x ys) ≡ (not (member x ys) && no_duplicates ys)
unfolding insert_sorted
no_duplicates-insert x [] = refl
no_duplicates-insert x (y ∷ rest) =
    ground (arith, no_duplicates-insert x rest, member-insert_sorted y x rest, bytes_eq_sym x y)

no_duplicates-sort : (xs : List Bytes) → no_duplicates (sort_strings xs) ≡ no_duplicates xs
unfolding sort_strings
no_duplicates-sort [] = refl
no_duplicates-sort (x ∷ xs) = ground (
  arith,
  no_duplicates-insert x (sort_strings xs),
  no_duplicates-sort xs,
  member-sort_strings x xs,
)

pub sort_strings-AreCodes : (codes : List Bytes) → AreCodes codes → AreCodes (sort_strings codes)
sort_strings-AreCodes codes h = record {
  valid = all-sort_strings valid_diagnostic codes ∙ h.valid;
  unique = no_duplicates-sort codes ∙ h.unique;
}

append_code :
    (codes : List Bytes) (code : Bytes)
    → AreCodes codes
    → valid_diagnostic code ≡ true
    → member code codes ≡ false
    → AreCodes (codes ++ code ∷ [])
append_code codes code h v n = record {
  valid = all-append valid_diagnostic codes (code ∷ []) h.valid (ground arith);
  unique = no_duplicates-append_one codes code h.unique n;
}

-- There are four codes, so the limit is not reached.
few_codes :
    (codes : List Bytes) → AreCodes codes → leb max_unique_diagnostics (length codes) ≡ false
unfolding valid_diagnostic
few_codes codes h =
    let few = length-subset codes allowed_diagnostics h.unique h.valid in ground (arith, few)

or_false : (b : Bool) → b || false ≡ b
or_false true = refl
or_false false = refl

-- The list has what the two others have.
abbrev pub IsUnion : List Bytes → List Bytes → List Bytes → Type 0
IsUnion codes old new = (c : Bytes) → member c codes ≡ (member c old || member c new)

-- What the merge of new codes into those of the observation and of the session returns.
abbrev pub Merged : List Bytes → List Bytes → List Bytes → Option (List Bytes) × List Bytes → Type 0
Merged current session raw (none, session') = (all valid_diagnostic raw ≡ false) × AreCodes session'
Merged current session raw (some current', session') =
    (all valid_diagnostic raw ≡ true)
    × AreCodes current'
    × AreCodes session'
    × IsUnion current' current raw
    × IsUnion session' session raw

-- A code that is there already, or is put there now, goes over from the new codes to the old.
abbrev Takes : Bytes → List Bytes → List Bytes → Type 0
Takes code old old' = (c : Bytes) → member c old' ≡ (member c old || bytes_eq c code)

Takes-append : (code : Bytes) (old : List Bytes) → Takes code old (old ++ code ∷ [])
Takes-append code old c = ground (arith, member-append c old (code ∷ []))

Takes-there : (code : Bytes) (old : List Bytes) → member code old ≡ true → Takes code old old
Takes-there code old h c = elim (Bool-cases (bytes_eq c code)) [
  | inl e ↦ rw (bytes_eq_sound c code e, h) refl
  | inr e ↦ rw e (sym (or_false (member c old)))
]

-- The codes of an observation are among those of the session.
abbrev pub AreIn : List Bytes → List Bytes → Type 0
AreIn current session = (c : Bytes) → member c current ≡ true → member c session ≡ true

AreIn-take :
    (code : Bytes) (current session session' : List Bytes)
    → AreIn current session
    → Takes code session session'
    → AreIn (current ++ code ∷ []) session'
AreIn-take code current session session' i t c h =
    ground (arith, t c, i c, member-append c current (code ∷ []), h)

IsUnion-of :
    (codes old old' : List Bytes) (code : Bytes) (raw : List Bytes)
    → Takes code old old'
    → IsUnion codes old' raw
    → IsUnion codes old (code ∷ raw)
IsUnion-of codes old old' code raw t u c = ground (arith, t c, u c)

skip_valid :
    (code : Bytes) (raw current session current0 session0 : List Bytes) (o : Option (List Bytes))
    (session' : List Bytes)
    → valid_diagnostic code ≡ true
    → Takes code current current0
    → Takes code session session0
    → Merged current0 session0 raw (o, session')
    → Merged current session (code ∷ raw) (o, session')
skip_valid code raw current session current0 session0 none session' v t u h =
    (ground (arith, h.0), h.1)
skip_valid code raw current session current0 session0 (some current') session' v t u h = (
  ground (arith, h.0),
  h.1,
  h.2,
  IsUnion-of current' current current0 code raw t h.3,
  IsUnion-of session' session session0 code raw u h.4,
)

-- The diagnostics of an observation are refused exactly where one of them is not one of the four
-- known codes: the limit of 256 different codes is never reached. Where they are accepted, and the
-- codes of the observation so far are among those of the session, the two lists become those that they were and the new ones, and no
-- others, each of them a known one and listed once.
pub merge_diagnostics-Merged :
    (current session raw : List Bytes)
    → AreCodes current
    → AreCodes session
    → AreIn current session
    → Merged current session raw (merge_diagnostics current session raw)
unfolding merge_diagnostics
merge_diagnostics-Merged current session [] h k i =
    (refl, h, k, λ c. sym (or_false (member c current)), λ c. sym (or_false (member c session)))
merge_diagnostics-Merged current session (code ∷ rest) h k i =
    elim (Bool-cases (valid_diagnostic code)) [
      | inr v ↦ rw (v, merge_diagnostics) (ground (arith, v), k)
      | inl v ↦ elim (Bool-cases (member code current)) [
        | inl m ↦
            rw (v, m, merge_diagnostics)
              (skip_valid code rest _ _ _ _ _ _ v (Takes-there code current m)
                (Takes-there code session (i code m))
                (merge_diagnostics-Merged current session rest h k i))
        | inr m ↦ elim (Bool-cases (member code session)) [
          | inl n ↦
              rw (v, m, n, merge_diagnostics)
                (skip_valid code rest _ _ _ _ _ _ v (Takes-append code current)
                  (Takes-there code session n)
                  (merge_diagnostics-Merged (current ++ code ∷ []) session rest
                    (append_code current code h v m) k
                    (AreIn-take code current session session i (Takes-there code session n))))
          | inr n ↦
              rw (v, m, n, few_codes session k, merge_diagnostics)
                (skip_valid code rest _ _ _ _ _ _ v (Takes-append code current)
                  (Takes-append code session)
                  (merge_diagnostics-Merged (current ++ code ∷ []) (session ++ code ∷ []) rest
                    (append_code current code h v m) (append_code session code k v n)
                    (AreIn-take code current session (session ++ code ∷ []) i
                      (Takes-append code session))))
        ]
      ]
    ]
