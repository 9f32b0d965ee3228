-- ===== src/Registration/Origins/Scope.antt =====
-- About exactOrigin and cleanURLForProtocol of registrationauthorsession/protocol.go.
use browsertools.Prelude.{
  ◌≡◌, refl, sym, ◌∙◌, ap, subst, inl, inr, Bool, true, ◌&&◌, not, some, [], ◌∷◌, ◌++◌, Bytes,
  bytes, bytes_eq_sound, arith, Bool-cases, Option-cases, some_injective,
}
use browsertools.Text.{has_prefix}
use browsertools.Library.{Library, Url}
use browsertools.Disclosure.{validate_path}
use browsertools.Disclosure.Segments.{validate_path-safe}
use browsertools.RegistrationUrl.{Facts, path_of, parse}
use browsertools.RegistrationUrl.Exact.{parse-IsExact}
use browsertools.Registration.Types.{Protocol, is_v1, is_supported}
use browsertools.Registration.Origins.{
  exact_parts, exact_origin, clean_parts, clean_url_for_protocol,
}

module _ (lib : Library) where
  -- The URL is its origin, a path that begins with a slash, and a query or nothing.
  pub record IsOn (url origin : Bytes) : Type 0 where
    pub exact : exact_origin lib origin ≡ some origin
    pub path : Bytes
    pub query : Bytes
    pub whole : url ≡ origin ++ (path ++ query)
    pub safe : validate_path lib path ≡ true
    pub slash : has_prefix path (bytes "/") ≡ true

  exact_parts_same : (raw o : Bytes) (u : Url) → exact_parts lib raw u ≡ some o → o ≡ raw
  unfolding exact_parts
  exact_parts_same raw o u h = ground (arith, bytes_eq_sound raw o)

  exact_origin_same : (raw o : Bytes) → exact_origin lib raw ≡ some o → o ≡ raw
  unfolding exact_origin
  exact_origin_same raw o h = elim (Option-cases (lib.parse_url raw)) [
    | inl e ↦ absurd (ground arith)
    | inr (u, e) ↦ exact_parts_same raw o u (ground arith)
  ]

  exact_of_given : (given o : Bytes) → exact_origin lib given ≡ some o → exact_origin lib o ≡ some o
  exact_of_given given o h =
      subst (λ x. exact_origin lib x ≡ some o) (sym (exact_origin_same given o h)) h

  parts-IsOn :
      (url origin path query given : Bytes)
      → exact_origin lib given ≡ some origin
      → validate_path lib path ≡ true
      → url ≡ origin ++ (path ++ query)
      → IsOn url origin
  parts-IsOn url origin path query given e v w = record {
    exact = exact_of_given given origin e;
    path = path;
    query = query;
    whole = w;
    safe = v;
    slash = (validate_path-safe lib path v).1;
  }

  append_nil : (xs : Bytes) → xs ++ [] ≡ xs
  append_nil [] = refl
  append_nil (x ∷ xs) = ap (λ ys. x ∷ ys) (append_nil xs)

  clean_parts-IsOn :
      (u : Url) (url origin : Bytes) → clean_parts lib u ≡ some (url, origin) → IsOn url origin
  unfolding clean_parts
  clean_parts-IsOn u url origin h =
      let given = u.scheme ++ (bytes "://" ++ u.host) in
      elim (Option-cases (exact_origin lib given)) [
        | inl e ↦ absurd (ground arith)
        | inr (o, e) ↦ elim (Bool-cases (validate_path lib (path_of u))) [
          | inr v ↦ absurd (ground arith)
          | inl v ↦
              let pair : ◌≡◌ {A = Bytes × Bytes} (o ++ path_of u, o) (url, origin) =
                some_injective (ground arith) in
              subst (λ x. IsOn x.0 x.1) pair
                (parts-IsOn (o ++ path_of u) o (path_of u) [] given e v
                  (ap (λ p. o ++ p) (sym (append_nil (path_of u)))))
        ]
      ]

  parsed-IsOn :
      (raw : Bytes) (allow : Bool) (f : Facts)
      → parse lib raw allow (exact_origin lib) ≡ some f
      → IsOn f.url f.origin
  parsed-IsOn raw allow f h =
      let e = parse-IsExact lib raw allow (exact_origin lib) f h in
      parts-IsOn f.url f.origin f.path e.parts.0 e.origin.0 e.origin.1 e.path (e.url ∙ e.parts.1)

  -- Whatever the protocol, a URL that cleanURLForProtocol returns, as those that the browser opens and
  -- navigates to, is the origin returned with it, which is exact, then a path that may be disclosed
  -- and begins with a slash, then a query or nothing: it cannot lead to a host of which the origin is
  -- only a prefix.
  pub clean_url_for_protocol-IsOn :
      (p : Protocol) (raw url origin : Bytes)
      → clean_url_for_protocol lib p raw ≡ some (url, origin)
      → IsOn url origin
  unfolding clean_url_for_protocol
  clean_url_for_protocol-IsOn p raw url origin h =
      elim (Bool-cases (is_supported p && not (is_v1 p))) [
        | inl q ↦ elim (Option-cases (parse lib raw true (exact_origin lib))) [
          | inl e ↦ absurd (ground arith)
          | inr (f, e) ↦
              let pair : ◌≡◌ {A = Bytes × Bytes} (f.url, f.origin) (url, origin) =
                some_injective (ground arith) in
              subst (λ x. IsOn x.0 x.1) pair (parsed-IsOn raw true f e)
        ]
        | inr q ↦ elim (Option-cases (lib.parse_url raw)) [
          | inl e ↦ absurd (ground arith)
          | inr (u, e) ↦ clean_parts-IsOn u url origin (ground arith)
        ]
      ]
