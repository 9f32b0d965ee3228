-- ===== src/Search/Membership.antt =====
-- About `contains` of registrationauthorsession/session.go and the binary search below it.
use native.Mathlib.Nat.{le_trans}
use browsertools.Prelude.{
  ℕ, zero, suc, ◌+◌, ◌-◌, ◌/◌, ◌≤◌, ◌<◌, ◌≡◌, inl, inr, refl, sym, true, false, List, [], ◌∷◌,
  Bytes, bytes_eq, bytes_lt, bytes_eq_refl, bytes_eq_sound, bytes_lt_irrefl, bytes_lt_trans,
  bytes_lt_total, length, member, arith, Bool-cases, ltb, ltb→lt, subst,
}
use browsertools.Text.{are_sorted}
use browsertools.Search.{at, search_loop, search_strings, contains}

ge_of_stop : (i j : ℕ) → ltb i j ≡ false → j ≤ i
ge_of_stop i j h = ground arith

-- "Not after" is transitive.
not_lt_trans : (a b c : Bytes) → bytes_lt b a ≡ false → bytes_lt c b ≡ false → bytes_lt c a ≡ false
not_lt_trans a b c h k = elim (Bool-cases (bytes_lt c a)) [
  | inr e ↦ e
  | inl e ↦ elim (Bool-cases (bytes_lt a b)) [
    | inl f ↦ cc (bytes_lt_trans c a b e f)
    | inr f ↦ cc (bytes_eq_sound a b (bytes_lt_total a b f h))
  ]
]

sorted_tail : (x : Bytes) (xs : List Bytes) → are_sorted (x ∷ xs) ≡ true → are_sorted xs ≡ true
unfolding are_sorted
sorted_tail x [] h = refl
sorted_tail x (y ∷ xs) h = ground arith

head_least :
    (x : Bytes) (xs : List Bytes) (j : ℕ)
    → are_sorted (x ∷ xs) ≡ true
    → j < length xs
    → bytes_lt (at xs j) x ≡ false
unfolding are_sorted
head_least x [] j h b = absurd (omega arith)
head_least x (y ∷ xs) zero h b = ground arith
head_least x (y ∷ xs) (suc j) h b =
    not_lt_trans x y (at xs j) (ground arith) (head_least y xs j (ground arith) (omega arith))

sorted_at :
    (xs : List Bytes) (i j : ℕ)
    → are_sorted xs ≡ true
    → i ≤ j
    → j < length xs
    → bytes_lt (at xs j) (at xs i) ≡ false
sorted_at [] i j h p q = absurd (omega arith)
sorted_at (x ∷ xs) zero zero h p q = bytes_lt_irrefl x
sorted_at (x ∷ xs) zero (suc j) h p q = head_least x xs j h (omega arith)
sorted_at (x ∷ xs) (suc i) zero h p q = absurd (omega arith)
sorted_at (x ∷ xs) (suc i) (suc j) h p q =
    sorted_at xs i j (sorted_tail x xs h) (omega arith) (omega arith)

lt_of_before :
    (xs : List Bytes) (x : Bytes) (i j : ℕ)
    → are_sorted xs ≡ true
    → i ≤ j
    → j < length xs
    → bytes_lt (at xs j) x ≡ true
    → bytes_lt (at xs i) x ≡ true
lt_of_before xs x i j s p q h = elim (Bool-cases (bytes_lt (at xs i) x)) [
  | inl e ↦ e
  | inr e ↦ cc (not_lt_trans x (at xs i) (at xs j) e (sorted_at xs i j s p q))
]

-- `r` splits the list at the target: what is before it is smaller, the rest is not.
pub record Splits (values : List Bytes) (target : Bytes) (r : ℕ) : Type 0 where
  pub inside : r ≤ length values
  pub below : (k : ℕ) → k < r → bytes_lt (at values k) target ≡ true
  pub above : (k : ℕ) → r ≤ k → k < length values → bytes_lt (at values k) target ≡ false

module _ (values : List Bytes) (target : Bytes) (sorted : are_sorted values ≡ true) where
  below_middle :
      (m : ℕ)
      → m < length values
      → bytes_lt (at values m) target ≡ true
      → (k : ℕ) → k < m + 1
      → bytes_lt (at values k) target ≡ true
  below_middle m q h k p = lt_of_before values target k m sorted (omega arith) q h

  above_middle :
      (m : ℕ)
      → bytes_lt (at values m) target ≡ false
      → (k : ℕ) → m ≤ k
      → k < length values
      → bytes_lt (at values k) target ≡ false
  above_middle m h k p q = elim (Bool-cases (bytes_lt (at values k) target)) [
    | inr e ↦ e
    | inl e ↦ cc (lt_of_before values target m k sorted p q e)
  ]

  loop-Splits :
      (fuel i j : ℕ)
      → i ≤ j
      → j ≤ length values
      → j - i ≤ fuel
      → ((k : ℕ) → k < i → bytes_lt (at values k) target ≡ true)
      → ((k : ℕ) → j ≤ k → k < length values → bytes_lt (at values k) target ≡ false)
      → Splits values target (search_loop values target fuel i j)
  unfolding search_loop
  loop-Splits zero i j p q f b a = record {
    inside = omega arith;
    below = b;
    above = λ k r. a k (omega arith);
  }
  loop-Splits (suc fuel) i j p q f b a = elim (Bool-cases (ltb i j)) [
    | inr stop ↦ rw stop (record {
      inside = omega arith;
      below = b;
      above = λ k r. a k (le_trans (ge_of_stop i j stop) r);
    })
    | inl more ↦ elim (Bool-cases (bytes_lt (at values ((i + j) / 2)) target)) [
      | inl up ↦
          rw (more, up)
            (loop-Splits fuel ((i + j) / 2 + 1) j (omega (arith, ltb→lt i j more)) q
              (omega (arith, ltb→lt i j more))
              (below_middle ((i + j) / 2) (omega (arith, ltb→lt i j more)) up) a)
      | inr down ↦
          rw (more, down)
            (loop-Splits fuel i ((i + j) / 2) (omega arith) (omega (arith, ltb→lt i j more))
              (omega (arith, ltb→lt i j more)) b (above_middle ((i + j) / 2) down))
    ]
  ]

  -- On a sorted list `sort.SearchStrings` returns the index that splits it at the target.
  pub search_strings-Splits : Splits values target (search_strings values target)
  unfolding search_strings
  search_strings-Splits =
      loop-Splits (length values) 0 (length values) (omega arith) (omega arith) (omega arith)
        (λ k p. absurd (omega arith)) (λ k p q. absurd (omega arith))

member_at : (values : List Bytes) (k : ℕ) → k < length values → member (at values k) values ≡ true
member_at [] k h = absurd (omega arith)
member_at (x ∷ xs) zero h = ground (arith, bytes_eq_refl x)
member_at (x ∷ xs) (suc k) h = ground (arith, member_at xs k)

index_of_member :
    (values : List Bytes) (x : Bytes)
    → member x values ≡ true
    → (k : ℕ) × (k < length values) × (at values k ≡ x)
index_of_member [] x h = cc
index_of_member (y ∷ ys) x h = elim (Bool-cases (bytes_eq x y)) [
  | inl e ↦ (0, omega arith, sym (bytes_eq_sound x y e))
  | inr e ↦ let (k, q, f) = index_of_member ys x (ground arith) in (suc k, omega arith, f)
]

-- The value at the index that splits the list is the target if the target is in the list.
at_split :
    (values : List Bytes) (target : Bytes) (r k : ℕ)
    → are_sorted values ≡ true
    → Splits values target r
    → k < length values
    → at values k ≡ target
    → (r < length values) × (bytes_eq (at values r) target ≡ true)
at_split values target r k sorted s q e = elim (Bool-cases (ltb k r)) [
  | inl before ↦ cc (s.below k (ltb→lt k r before), bytes_lt_irrefl target)
  | inr after ↦
      let le = ge_of_stop k r after in
      (
        omega arith,
        bytes_lt_total (at values r) target (s.above r (omega arith) (omega arith))
            (subst (λ x. bytes_lt x (at values r) ≡ false) e (sorted_at values r k sorted le q)),
      )
]

contains_of_member :
    (values : List Bytes) (target : Bytes)
    → are_sorted values ≡ true
    → member target values ≡ true
    → contains values target ≡ true
unfolding contains
contains_of_member values target sorted h =
    let (k, q, e) = index_of_member values target h in
    ground (
      arith,
      at_split values target (search_strings values target) k sorted
          (search_strings-Splits values target sorted) q e,
    )

pub member_of_contains :
    (values : List Bytes) (target : Bytes)
    → contains values target ≡ true
    → member target values ≡ true
unfolding contains
member_of_contains values target h = ground (
  arith,
  bytes_eq_sound (at values (search_strings values target)) target,
  member_at values (search_strings values target),
)

-- On a list in ascending order the binary search of `contains` answers as a scan of the list does.
pub contains-eq-member :
    (values : List Bytes) (target : Bytes)
    → are_sorted values ≡ true
    → contains values target ≡ member target values
contains-eq-member values target sorted =
    ground (arith, contains_of_member values target sorted, member_of_contains values target)
