-- ===== src/Text/Sorting.antt =====
-- About sort.Strings and equalStrings.
use browsertools.Prelude.{
  ◌≡◌, refl, Bool, true, false, ◌||◌, ◌&&◌, List, [], ◌∷◌, Bytes, bytes_eq, bytes_lt,
  bytes_lt_irrefl, bytes_lt_trans, bytes_eq_sound, all, member, arith, Bool-cases, inl, inr,
}
use browsertools.Text.{are_sorted, insert_sorted, sort_strings, equal_strings}

asym : (x y : Bytes) → bytes_lt x y ≡ true → bytes_lt y x ≡ false
asym x y h = elim (Bool-cases (bytes_lt y x)) [
  | inr e ↦ e
  | inl e ↦ cc (bytes_lt_trans x y x h e, bytes_lt_irrefl x)
]

insert-sorted :
    (x : Bytes) (ys : List Bytes) → are_sorted ys ≡ true → are_sorted (insert_sorted x ys) ≡ true
unfolding insert_sorted are_sorted
insert-sorted x [] h = refl
insert-sorted x (y ∷ []) h = ground (arith, asym y x)
insert-sorted x (y ∷ z ∷ rest) h = ground (arith, asym y x, insert-sorted x (z ∷ rest))

-- sort.Strings returns a sorted list.
pub sort_strings-sorted : (xs : List Bytes) → are_sorted (sort_strings xs) ≡ true
unfolding sort_strings are_sorted
sort_strings-sorted [] = refl
sort_strings-sorted (x ∷ xs) = insert-sorted x (sort_strings xs) (sort_strings-sorted xs)

member-insert :
    (s x : Bytes) (ys : List Bytes) → member s (insert_sorted x ys) ≡ (bytes_eq s x || member s ys)
unfolding insert_sorted
member-insert s x [] = refl
member-insert s x (y ∷ rest) = ground (arith, member-insert s x rest)

-- ... with the same members.
pub member-sort_strings : (s : Bytes) (xs : List Bytes) → member s (sort_strings xs) ≡ member s xs
unfolding sort_strings
member-sort_strings s [] = refl
member-sort_strings s (x ∷ xs) =
    ground (arith, member-insert s x (sort_strings xs), member-sort_strings s xs)

pub equal_strings_sound : (xs ys : List Bytes) → equal_strings xs ys ≡ true → xs ≡ ys
unfolding equal_strings
equal_strings_sound [] [] h = refl
equal_strings_sound [] (y ∷ ys) h = cc
equal_strings_sound (x ∷ xs) [] h = cc
equal_strings_sound (x ∷ xs) (y ∷ ys) h =
    ground (arith, bytes_eq_sound x y, equal_strings_sound xs ys)

all-insert :
    (p : Bytes → Bool) (x : Bytes) (ys : List Bytes)
    → all p (insert_sorted x ys) ≡ (p x && all p ys)
unfolding insert_sorted
all-insert p x [] = refl
all-insert p x (y ∷ rest) = ground (arith, all-insert p x rest)

-- What holds of all strings holds of them when they are sorted.
pub all-sort_strings : (p : Bytes → Bool) (xs : List Bytes) → all p (sort_strings xs) ≡ all p xs
unfolding sort_strings
all-sort_strings p [] = refl
all-sort_strings p (x ∷ xs) =
    ground (arith, all-insert p x (sort_strings xs), all-sort_strings p xs)

pub member-insert_sorted :
    (s x : Bytes) (ys : List Bytes) → member s (insert_sorted x ys) ≡ (bytes_eq s x || member s ys)
member-insert_sorted = member-insert
