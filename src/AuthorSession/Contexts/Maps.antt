-- ===== src/AuthorSession/Contexts/Maps.antt =====
-- About the maps from names of the sessions: looking up after an update.
use browsertools.Prelude.{
  suc, ◌≤◌, ◌≡◌, refl, ap, true, false, some, List, [], ◌∷◌, Bytes, bytes_eq, bytes_eq_refl,
  bytes_eq_sound, length, arith, inl, inr, Bool-cases, is_some,
}
use browsertools.Registration.Server.{lookup, put}

module _ {V : Type 0} where
  pub lookup-put_same : (k : Bytes) (v : V) (l : List (Bytes × V)) → lookup k (put k v l) ≡ some v
  unfolding lookup put
  lookup-put_same k v [] = ground (arith, bytes_eq_refl k)
  lookup-put_same k v ((j, w) ∷ rest) = elim (Bool-cases (bytes_eq j k)) [
    | inl e ↦ rw (put, e) (ground (arith, bytes_eq_refl k))
    | inr e ↦ rw (put, e) (rw (lookup, e) (lookup-put_same k v rest))
  ]

  pub lookup-put_other :
      (i k : Bytes) (v : V) (l : List (Bytes × V))
      → bytes_eq k i ≡ false
      → lookup i (put k v l) ≡ lookup i l
  unfolding lookup put
  lookup-put_other i k v [] h = rw h refl
  lookup-put_other i k v ((j, w) ∷ rest) h = elim (Bool-cases (bytes_eq j k)) [
    | inl e ↦ rw (put, e) (cc (ap (λ x. bytes_eq x i) (bytes_eq_sound j k e), h))
    | inr e ↦ rw (put, e) (ground (arith, lookup-put_other i k v rest h))
  ]

  pub length-put_known :
      (k : Bytes) (v : V) (l : List (Bytes × V))
      → is_some (lookup k l) ≡ true
      → length (put k v l) ≡ length l
  unfolding lookup put
  length-put_known k v [] h = cc
  length-put_known k v ((j, w) ∷ rest) h = ground (arith, length-put_known k v rest)

  pub length-put_le :
      (k : Bytes) (v : V) (l : List (Bytes × V)) → length (put k v l) ≤ suc (length l)
  unfolding put
  length-put_le k v [] = omega arith
  length-put_le k v ((j, w) ∷ rest) = ground (arith, length-put_le k v rest)
