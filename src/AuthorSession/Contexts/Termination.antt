-- ===== src/AuthorSession/Contexts/Termination.antt =====
-- About the rounds of addContexts of authorsession/session.go.
use browsertools.Prelude.{
  ℕ, zero, suc, ◌≤◌, ◌<◌, ◌≡◌, refl, Bool, true, false, Option, none, some, List, [], ◌∷◌, Bytes,
  length, arith, inl, inr, Bool-cases, Option-cases, is_some,
}
use browsertools.Text.{sort_strings}
use browsertools.Registration.Server.{lookup}
use browsertools.AuthorSession.Types.{Contexts}
use browsertools.AuthorSession.Contexts.{
  remove, keys, must_wait, add_context, pass, after_pass, resolve, add_contexts, Resolution,
  exhausted,
}
use browsertools.AuthorSession.Server.{AuthorLibrary}

abbrev pub is_exhausted : Resolution → Bool
is_exhausted exhausted = true
is_exhausted _ = false

remove_le : (id : Bytes) (l : Contexts) → length (remove id l) ≤ length l
unfolding remove
remove_le id [] = omega arith
remove_le id ((k, v) ∷ rest) = ground (arith, remove_le id rest)

-- Removing a key that is there leaves less.
remove_lt :
    (id : Bytes) (l : Contexts) → is_some (lookup id l) ≡ true → length (remove id l) < length l
unfolding remove lookup
remove_lt id [] h = cc
remove_lt id ((k, v) ∷ rest) h = ground (arith, remove_lt id rest, remove_le id rest)

module _ (a : AuthorLibrary) (origins : List Bytes) where
  -- What a pass does to the number of contexts that remain.
  Shrinks : ℕ → Bool → Option (Contexts × Contexts × Bool) → Type 0
  Shrinks n progress none = Unit
  Shrinks n progress (some (contexts, remaining, p)) =
      (length remaining ≤ n) × (progress ≡ false → p ≡ true → length remaining < n)

  widen :
      (m n : ℕ) (progress : Bool) (o : Option (Contexts × Contexts × Bool))
      → m < n
      → Shrinks m true o
      → Shrinks n progress o
  unfolding Shrinks
  widen m n progress none lt h = tt
  widen m n progress (some (contexts, remaining, p)) lt h =
      (omega (arith, h.0), λ e f. omega (arith, h.0))

  pass-Shrinks :
      (ids : List Bytes) (contexts remaining : Contexts) (progress : Bool)
      → Shrinks (length remaining) progress (pass a origins contexts remaining progress ids)
  unfolding pass Shrinks
  pass-Shrinks [] contexts remaining progress = (omega arith, λ e f. cc)
  pass-Shrinks (id ∷ ids) contexts remaining progress = elim (Option-cases (lookup id remaining)) [
    | inl e ↦ rw (pass, e) (pass-Shrinks ids contexts remaining progress)
    | inr (c, e) ↦ elim (Bool-cases (must_wait contexts remaining c)) [
      | inl w ↦ rw (pass, e, w) (pass-Shrinks ids contexts remaining progress)
      | inr w ↦ elim (Option-cases (add_context a origins contexts id c)) [
        | inl n ↦ rw (pass, e, w, n) tt
        | inr (contexts', n) ↦
            rw (pass, e, w, n)
              (widen (length (remove id remaining)) (length remaining) progress _
                (remove_lt id remaining (rw e refl))
                (pass-Shrinks ids contexts' (remove id remaining) true))
      ]
    ]
  ]

  after_pass-ends :
      (n : ℕ) (f : Contexts → Contexts → Resolution) (o : Option (Contexts × Contexts × Bool))
      → ((c r : Contexts) → length r < n → is_exhausted (f c r) ≡ false)
      → Shrinks n false o
      → is_exhausted (after_pass a origins f o) ≡ false
  unfolding after_pass Shrinks
  after_pass-ends n f none k h = refl
  after_pass-ends n f (some (c, r, false)) k h = refl
  after_pass-ends n f (some (c, r, true)) k h = k c r (h.1 refl refl)

  resolve-ends :
      (fuel : ℕ) (contexts remaining : Contexts)
      → length remaining ≤ fuel
      → is_exhausted (resolve a origins fuel contexts remaining) ≡ false
  unfolding resolve
  resolve-ends fuel contexts [] h = refl
  resolve-ends zero contexts (entry ∷ rest) h = absurd (omega arith)
  resolve-ends (suc fuel) contexts (entry ∷ rest) h =
      after_pass-ends (length (entry ∷ rest)) (resolve a origins fuel) _
        (λ c r lt. resolve-ends fuel c r (omega arith))
        (pass-Shrinks (sort_strings (keys (entry ∷ rest))) contexts (entry ∷ rest) false)

  -- Whatever contexts the backend reports, addContexts ends: each round that goes on has added one
  -- of them, so as many rounds as there are contexts are enough.
  pub add_contexts-ends :
      (contexts given : Contexts) → is_exhausted (add_contexts a origins contexts given) ≡ false
  unfolding add_contexts
  add_contexts-ends contexts given = resolve-ends (length given) contexts given (omega arith)
