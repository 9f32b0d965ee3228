-- ===== src/Text.antt =====
-- String routines of Go's standard library that the source calls, over byte strings.
pub mod Sorting
use browsertools.Prelude.{
  ℕ, Bool, true, false, ◌&&◌, ◌||◌, not, List, [], ◌∷◌, ◌++◌, Bytes, bytes_eq, bytes_lt, any,
  member, ◌==◌, if◌then◌else◌,
}

-- strings.HasPrefix(s, prefix)
unfoldable pub has_prefix : Bytes → Bytes → Bool
has_prefix s [] = true
has_prefix [] (c ∷ p) = false
has_prefix (d ∷ s) (c ∷ p) = d == c && has_prefix s p

-- strings.TrimPrefix(s, prefix) where the prefix is there.
unfoldable pub without_prefix : Bytes → Bytes → Bytes
without_prefix s [] = s
without_prefix [] (c ∷ p) = []
without_prefix (d ∷ s) (c ∷ p) = without_prefix s p

-- strings.Contains(s, part)
unfoldable pub contains_text : Bytes → Bytes → Bool
unfolding has_prefix
contains_text [] part = has_prefix [] part
contains_text (c ∷ s) part = has_prefix (c ∷ s) part || contains_text s part

-- strings.ContainsAny(s, chars) for ASCII chars
unfoldable pub contains_any : Bytes → Bytes → Bool
contains_any s chars = any (λ c. any (λ d. c == d) chars) s

-- Put a byte in front of the first part of a split text.
cons_first : ℕ → List Bytes → List Bytes
cons_first c [] = (c ∷ []) ∷ []
cons_first c (part ∷ parts) = (c ∷ part) ∷ parts

-- strings.Split(s, separator) for a separator of one byte
unfoldable pub split : ℕ → Bytes → List Bytes
unfolding cons_first
split separator [] = [] ∷ []
split separator (c ∷ s) =
    let rest = split separator s in if c == separator then [] ∷ rest else cons_first c rest

-- sort.StringsAreSorted(values)
unfoldable pub are_sorted : List Bytes → Bool
are_sorted [] = true
are_sorted (x ∷ []) = true
are_sorted (x ∷ y ∷ rest) = not (bytes_lt y x) && are_sorted (y ∷ rest)

unfoldable pub insert_sorted : Bytes → List Bytes → List Bytes
insert_sorted x [] = x ∷ []
insert_sorted x (y ∷ rest) =
    let later = insert_sorted x rest in if bytes_lt y x then y ∷ later else x ∷ y ∷ rest

-- sort.Strings(values): the sorted rearrangement.
unfoldable pub sort_strings : List Bytes → List Bytes
unfolding insert_sorted
sort_strings [] = []
sort_strings (x ∷ xs) = insert_sorted x (sort_strings xs)

-- equalStrings of registrationauthorsession/session.go
unfoldable pub equal_strings : List Bytes → List Bytes → Bool
equal_strings [] [] = true
equal_strings [] (y ∷ ys) = false
equal_strings (x ∷ xs) [] = false
equal_strings (x ∷ xs) (y ∷ ys) = bytes_eq x y && equal_strings xs ys
