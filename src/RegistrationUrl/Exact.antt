-- ===== src/RegistrationUrl/Exact.antt =====
-- About Parse of internal/registrationurl/url.go.
use browsertools.Prelude.{
  ◌≡◌, refl, sym, ◌⊎◌, inl, inr, Bool, true, false, Option, some, [], ◌∷◌, ◌++◌, Bytes, bytes,
  bytes_eq, bytes_eq_sound, arith, Bool-cases, Option-cases, length, ◌≤◌, subst, some_injective,
}
use browsertools.Library.{Library, Url}
use browsertools.Disclosure.{validate_path}
use browsertools.RegistrationUrl.{
  Facts, max_url_bytes, query_part, canonical_query, exact_facts, parse_parts, parse, path_of,
}

module _ (lib : Library) where
  -- The query that was kept: none, or one that is allowed and canonical.
  abbrev pub IsKept : Bool → Bytes → Type 0
  IsKept allow_query query =
      (query ≡ [])
      ⊎ ((q : Bytes) × (query ≡ bytes "?" ++ q)
          × (allow_query ≡ true)
          × (canonical_query lib q ≡ some q))

  pub record IsExact (raw : Bytes) (allow_query : Bool) (canonical_origin : Bytes → Option Bytes)
      (f : Facts) : Type 0 where
    pub url : f.url ≡ raw
    pub origin : (given : Bytes) × (canonical_origin given ≡ some f.origin)
    pub path : validate_path lib f.path ≡ true
    pub parts : (query : Bytes) × (raw ≡ f.origin ++ (f.path ++ query)) × IsKept allow_query query
    pub short : length raw ≤ max_url_bytes

  canonical_query-same : (raw q : Bytes) → canonical_query lib raw ≡ some q → q ≡ raw
  unfolding canonical_query
  canonical_query-same raw q h = ground arith

  query_part-IsKept :
      (allow : Bool) (raw q : Bytes) → query_part lib allow raw ≡ some q → IsKept allow q
  unfolding query_part
  query_part-IsKept allow [] q h = inl (ground arith)
  query_part-IsKept false (c ∷ raw) q h = cc
  query_part-IsKept true (c ∷ raw) q h = elim (Option-cases (canonical_query lib (c ∷ raw))) [
    | inl e ↦ cc
    | inr (k, e) ↦ inr (k, ground arith, refl, (ground (arith, canonical_query-same (c ∷ raw) k e)))
  ]

  facts-IsExact :
      (raw : Bytes) (allow : Bool) (canonical_origin : Bytes → Option Bytes)
      (given origin path query : Bytes) (f : Facts)
      → length raw ≤ max_url_bytes
      → canonical_origin given ≡ some origin
      → validate_path lib path ≡ true
      → IsKept allow query
      → exact_facts lib raw origin path query ≡ some f
      → IsExact raw allow canonical_origin f
  unfolding exact_facts
  facts-IsExact raw allow canonical_origin given origin path query f short e v k h =
      let canonical = origin ++ (path ++ query) in
      elim (Bool-cases (bytes_eq raw canonical)) [
        | inr d ↦ absurd (ground arith)
        | inl d ↦
            let same : raw ≡ canonical = bytes_eq_sound raw canonical d in
            let facts : Facts = record { url = canonical; origin = origin; path = path } in
            subst (IsExact raw allow canonical_origin)
              (some_injective {a = facts} {b = f} (ground arith))
              (record {
                url = sym same;
                origin = (given, e);
                path = v;
                parts = (query, same, k);
                short = short;
              })
      ]

  parse_parts-IsExact :
      (raw : Bytes) (allow : Bool) (canonical_origin : Bytes → Option Bytes) (u : Url) (f : Facts)
      → length raw ≤ max_url_bytes
      → parse_parts lib raw allow canonical_origin u ≡ some f
      → IsExact raw allow canonical_origin f
  unfolding parse_parts
  parse_parts-IsExact raw allow canonical_origin u f short h =
      let given = u.scheme ++ (bytes "://" ++ u.host) in
      elim (Option-cases (canonical_origin given)) [
        | inl e ↦ absurd (ground arith)
        | inr (origin, e) ↦ elim (Option-cases (query_part lib allow u.raw_query)) [
          | inl q ↦ absurd (ground arith)
          | inr (query, q) ↦
              facts-IsExact raw allow canonical_origin given origin (path_of u) query f short e
                (ground arith) (query_part-IsKept allow u.raw_query query q) (ground arith)
        ]
      ]

  -- Where `Parse` accepts a URL, the URL it returns is the one it was given, byte for byte, of at most
  -- 4096 bytes; it is the canonical origin, a path that may be disclosed, and either no query or, where
  -- queries are allowed, a question mark and a query that is canonical, bounded and safe.
  pub parse-IsExact :
      (raw : Bytes) (allow_query : Bool) (canonical_origin : Bytes → Option Bytes) (f : Facts)
      → parse lib raw allow_query canonical_origin ≡ some f
      → IsExact raw allow_query canonical_origin f
  unfolding parse
  parse-IsExact raw allow canonical_origin f h = elim (Option-cases (lib.parse_url raw)) [
    | inl e ↦ absurd (ground arith)
    | inr (u, e) ↦ parse_parts-IsExact raw allow canonical_origin u f (ground arith) (ground arith)
  ]
