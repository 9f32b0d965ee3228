-- ===== src/Search.antt =====
-- sort.SearchStrings of Go, and `contains` of registrationauthorsession/session.go on top of it.
pub mod Membership
use browsertools.Prelude.{
  ℕ, zero, suc, ◌+◌, ◌/◌, Bool, true, false, ◌&&◌, List, [], ◌∷◌, Bytes, bytes_eq, bytes_lt, length,
  ltb, if◌then◌else◌,
}

-- values[i], for an index in range.
abbrev pub at : List Bytes → ℕ → Bytes
at [] i = []
at (x ∷ xs) zero = x
at (x ∷ xs) (suc i) = at xs i

module _ (values : List Bytes) (target : Bytes) where
  -- The loop of sort.Search between `i` and `j`; `j - i` rounds are enough.
  unfoldable pub search_loop : ℕ → ℕ → ℕ → ℕ
  search_loop zero i j = i
  search_loop (suc fuel) i j =
      let upper = search_loop fuel ((i + j) / 2 + 1) j in
      let lower = search_loop fuel i ((i + j) / 2) in
      if ltb i j then (if bytes_lt (at values ((i + j) / 2)) target then upper else lower) else i

  -- sort.SearchStrings(values, target)
  unfoldable pub search_strings : ℕ
  unfolding search_loop
  search_strings = search_loop (length values) 0 (length values)

  unfoldable pub contains : Bool
  unfolding search_strings
  contains = ltb search_strings (length values) && bytes_eq (at values search_strings) target
