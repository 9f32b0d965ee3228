-- ===== src/AuthorUrl/Normal.antt =====
-- About Normalize of authorurl/url.go.
use browsertools.Prelude.{
  ◌≤◌, ◌≡◌, sym, ap, ◌∙◌, subst, refl, ◌⊎◌, List, [], ◌∷◌, true, false, ◌||◌, ◌&&◌, some, ◌++◌, any,
  member, bytes_eq, bytes_eq_sound, arith, if◌then◌else◌, Bytes, bytes, is_empty, length, ltb, inl,
  inr, Bool-cases, Option-cases, some_injective,
}
use browsertools.Text.{contains_text}
use browsertools.Library.{Library, Url}
use browsertools.Disclosure.{validate_path}
use browsertools.RegistrationUrl
use browsertools.RegistrationUrl.{max_url_bytes, Facts}
use browsertools.RegistrationUrl.Exact.{IsKept, parse-IsExact}
use browsertools.AuthorUrl.{
  UrlLibrary, parse_origin, is_loopback_address, navigable, rebase, normalize_on, normalize,
}

module _ (lib : Library) (urls : UrlLibrary) where
  -- The host is that of this machine.
  abbrev pub IsLocal : Url → Type 0
  IsLocal u =
      (urls.equal_fold u.hostname (bytes "localhost") ≡ true)
      ⊎ ((ip : _) × (lib.parse_ip u.hostname ≡ some ip) × (ip.is_loopback ≡ true))

  -- A URL to which an operator may navigate, of the text `raw`.
  pub record IsAdmitted (raw : Bytes) (u : Url) : Type 0 where
    pub host : is_empty u.host ≡ false
    pub no_user : u.has_user ≡ false
    pub no_opaque : is_empty u.opaque ≡ true
    pub no_fragment : contains_text raw (bytes "#") ≡ false
    pub no_empty_query : u.force_query ≡ false
    pub public_keys :
        (key : Bytes)
        → member key (urls.query_keys u.raw_query) ≡ true
        → urls.equal_fold key (bytes "private") ≡ false
    pub scheme : (u.scheme ≡ bytes "https") ⊎ ((u.scheme ≡ bytes "http") × IsLocal u)

  -- The path of a URL, the root where it has none.
  abbrev pub path_or_root : Bytes → Bytes
  path_or_root [] = bytes "/"
  path_or_root (c ∷ path) = c ∷ path

  -- The URL is the given one with the scheme and the host of its canonical origin, and it is an
  -- origin, a path and a query that may be reviewed.
  pub record IsNavigation (raw url origin : Bytes) : Type 0 where
    pub parsed : Url
    pub parses : lib.parse_url (lib.trim_space raw) ≡ some parsed
    pub admitted : IsAdmitted (lib.trim_space raw) parsed
    pub site : Bytes
    pub on_site : parse_origin lib urls (parsed.scheme ++ (bytes "://" ++ parsed.host)) ≡ some site
    pub canonical : Url
    pub reads : lib.parse_url site ≡ some canonical
    pub same :
        url
        ≡ urls.url_string (record parsed {
          scheme = canonical.scheme;
          host = canonical.host;
          path = path_or_root parsed.path;
        })
    pub own : (given : Bytes) × (parse_origin lib urls given ≡ some origin)
    pub path : Bytes
    pub safe : validate_path lib path ≡ true
    pub query : Bytes
    pub kept : IsKept lib true query
    pub whole : url ≡ origin ++ (path ++ query)
    pub short : length url ≤ max_url_bytes

  rebased_path : (path : Bytes) → (if is_empty path then bytes "/" else path) ≡ path_or_root path
  rebased_path [] = refl
  rebased_path (c ∷ path) = refl

  no_private :
      (keys : List Bytes)
      → any (λ key. urls.equal_fold key (bytes "private")) keys ≡ false
      → (key : Bytes) → member key keys ≡ true
      → urls.equal_fold key (bytes "private") ≡ false
  no_private [] h key m = cc
  no_private (x ∷ keys) h key m = elim (Bool-cases (bytes_eq key x)) [
    | inl e ↦ rw (bytes_eq_sound key x e) (ground (arith, h))
    | inr e ↦ no_private keys (ground (arith, h)) key (ground (arith, m, e))
  ]

  loopback_sound :
      (host : Bytes)
      → is_loopback_address lib urls host ≡ true
      → (ip : _) × (lib.parse_ip host ≡ some ip) × (ip.is_loopback ≡ true)
  unfolding is_loopback_address
  loopback_sound host h = elim (Option-cases (lib.parse_ip host)) [
    | inl e ↦ cc (rw (is_loopback_address, e) at h)
    | inr (ip, e) ↦ (ip, e, rw (is_loopback_address, e) at h)
  ]

  scheme_sound :
      (u : Url)
      → bytes_eq u.scheme (bytes "https")
          || bytes_eq u.scheme (bytes "http")
            && (urls.equal_fold u.hostname (bytes "localhost")
                || is_loopback_address lib urls u.hostname)
        ≡ true
      → (u.scheme ≡ bytes "https") ⊎ ((u.scheme ≡ bytes "http") × IsLocal u)
  scheme_sound u h = elim (Bool-cases (bytes_eq u.scheme (bytes "https"))) [
    | inl e ↦ inl (bytes_eq_sound u.scheme (bytes "https") e)
    | inr e ↦ inr (
      bytes_eq_sound u.scheme (bytes "http") (ground (arith, h, e)),
      elim (Bool-cases (urls.equal_fold u.hostname (bytes "localhost"))) [
        | inl f ↦ inl f
        | inr f ↦ inr (loopback_sound u.hostname (ground (arith, h, e, f)))
      ],
    )
  ]

  navigable-IsAdmitted :
      (raw : Bytes) (u : Url) → navigable lib urls raw u ≡ true → IsAdmitted raw u
  unfolding navigable
  navigable-IsAdmitted raw u h = record {
    host = ground (arith, h);
    no_user = ground (arith, h);
    no_opaque = ground (arith, h);
    no_fragment = ground (arith, h);
    no_empty_query = ground (arith, h);
    public_keys = no_private (urls.query_keys u.raw_query) (ground (arith, h));
    scheme = scheme_sound u (ground (arith, h));
  }

  facts_of :
      (u canonical : Url) (url origin : Bytes)
      → normalize_on lib urls u canonical ≡ some (url, origin)
      → (raw : Bytes) × (f : Facts) × (RegistrationUrl.parse lib raw true (parse_origin lib urls)
          ≡ some f)
        × (f.url ≡ url)
        × (f.origin ≡ origin)
        × (raw ≡ urls.url_string (rebase lib urls u canonical))
  unfolding normalize_on
  facts_of u canonical url origin h =
      let rebased = rebase lib urls u canonical in
      let raw = urls.url_string rebased in
      elim (Bool-cases (validate_path lib (urls.escaped_root rebased))) [
        | inr e ↦ cc (rw (normalize_on, e) at h)
        | inl e ↦ elim (Option-cases (RegistrationUrl.parse lib raw true (parse_origin lib urls))) [
          | inl n ↦ cc (rw (normalize_on, e, n) at h)
          | inr (f, n) ↦
              let same = some_injective (rw (normalize_on, e, n) at h) in
              (raw, f, n, ap (λ p. p.0) same, ap (λ p. p.1) same, refl)
        ]
      ]

  IsNavigation-of :
      (raw url origin site : Bytes) (u canonical : Url)
      → lib.parse_url (lib.trim_space raw) ≡ some u
      → navigable lib urls (lib.trim_space raw) u ≡ true
      → parse_origin lib urls (u.scheme ++ (bytes "://" ++ u.host)) ≡ some site
      → lib.parse_url site ≡ some canonical
      → normalize_on lib urls u canonical ≡ some (url, origin)
      → IsNavigation raw url origin
  IsNavigation-of raw url origin site u canonical p n o c h =
      let (text, f, e, same_url, same_origin, built) = facts_of u canonical url origin h in
      let exact = parse-IsExact lib text true (parse_origin lib urls) f e in
      let (query, whole, kept) = exact.parts in
      record {
        parsed = u;
        parses = p;
        admitted = navigable-IsAdmitted (lib.trim_space raw) u n;
        site = site;
        on_site = o;
        canonical = canonical;
        reads = c;
        same =
            subst
              (λ p.
                url
                ≡ urls.url_string
                    (record u { scheme = canonical.scheme; host = canonical.host; path = p }))
              (rebased_path u.path) (sym same_url ∙ (exact.url ∙ built));
        own = (exact.origin.0, exact.origin.1 ∙ ap some same_origin);
        path = f.path;
        safe = exact.path;
        query = query;
        kept = kept;
        whole = sym same_url ∙ (exact.url ∙ (whole ∙ ap (λ x. x ++ (f.path ++ query)) same_origin));
        short = subst (λ x. length x ≤ max_url_bytes) (sym exact.url ∙ same_url) exact.short;
      }

  -- A URL that Normalize returns is that which it was given, cut at the ends and parsed, with the
  -- scheme and the host of its canonical origin in place of its own, and a slash where it had no
  -- path. It is the origin that is returned, a path that may be disclosed, and a query that is
  -- canonical, bounded and safe or none, of at most 4096 bytes. And what it was given has a host and
  -- no user, opaque part, fragment, empty query or key "private", and uses HTTPS, or HTTP to the
  -- loopback.
  pub normalize-IsNavigation :
      (raw url origin : Bytes)
      → normalize lib urls raw ≡ some (url, origin)
      → IsNavigation raw url origin
  unfolding normalize
  normalize-IsNavigation raw url origin h =
      let value = lib.trim_space raw in
      elim (Bool-cases (is_empty value || ltb max_url_bytes (length value))) [
        | inl e ↦ cc (rw (normalize, e) at h)
        | inr e ↦ elim (Option-cases (lib.parse_url value)) [
          | inl n ↦ cc (rw (normalize, e, n) at h)
          | inr (u, n) ↦ elim (Bool-cases (navigable lib urls value u)) [
            | inr k ↦ cc (rw (normalize, e, n, k) at h)
            | inl k ↦
                elim (Option-cases (parse_origin lib urls (u.scheme ++ (bytes "://" ++ u.host)))) [
                  | inl o ↦ cc (rw (normalize, e, n, k, o) at h)
                  | inr (given, o) ↦ elim (Option-cases (lib.parse_url given)) [
                    | inl c ↦ cc (rw (normalize, e, n, k, o, c) at h)
                    | inr (canonical, c) ↦
                        IsNavigation-of raw url origin given u canonical n k o c
                          (rw (normalize, e, n, k, o, c) at h)
                  ]
                ]
          ]
        ]
      ]
