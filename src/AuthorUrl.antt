-- ===== src/AuthorUrl.antt =====
-- authorurl/url.go: the URLs that an operator may review for authenticated navigation, and
-- ParseOrigin of profile/profile.go.
pub mod Normal
use browsertools.Prelude.{
  Bool, true, false, ◌||◌, ◌&&◌, not, Option, none, some, List, [], ◌++◌, Bytes, bytes, bytes_eq,
  any, length, ltb, is_empty, if◌then◌else◌,
}
use browsertools.Text.{contains_text}
use browsertools.Library.{Library, Url}
use browsertools.Disclosure.{validate_path}
use browsertools.RegistrationUrl
use browsertools.RegistrationUrl.{max_url_bytes, Facts}

-- What authenticated authoring takes from net/url and strings beyond `Library`.
pub record UrlLibrary : Type 0 where
  -- strings.EqualFold, and whether strconv.ParseUint(s, 10, 16) returns no error
  pub equal_fold : Bytes → Bytes → Bool
  pub is_port_number : Bytes → Bool
  -- the keys of the map that (*url.URL).Query() returns for a raw query
  pub query_keys : Bytes → List Bytes
  -- (*url.URL).EscapedPath() and String() after Scheme, Host and Path were set
  pub escaped_root : Url → Bytes
  pub url_string : Url → Bytes

module _ (lib : Library) (urls : UrlLibrary) where
  default_port : Bytes → Bytes → Bool
  default_port scheme port =
      bytes_eq scheme (bytes "http") && bytes_eq port (bytes "80")
      || bytes_eq scheme (bytes "https") && bytes_eq port (bytes "443")

  -- The host as profile.ParseOrigin spells it; `none` where the port is no number.
  origin_host : Bytes → Bytes → Option Bytes
  origin_host hostname port =
      if is_empty port
      then some (
          if contains_text hostname (bytes ":")
          then bytes "[" ++ (hostname ++ bytes "]")
          else hostname)
      else if urls.is_port_number port
      then some (lib.join_host_port hostname port)
      else none

  origin_parts : Url → Option Bytes
  unfolding default_port origin_host
  origin_parts u =
      if not (bytes_eq u.scheme (bytes "http") || bytes_eq u.scheme (bytes "https"))
        || is_empty u.host
        || u.has_user
        || not (is_empty u.path || bytes_eq u.path (bytes "/"))
        || not (is_empty u.raw_query)
        || not (is_empty u.fragment)
        || is_empty (lib.to_lower u.hostname)
      then none
      else elim (origin_host (lib.to_lower u.hostname)
          (if default_port u.scheme u.port then [] else u.port)) [
            | none ↦ none
            | some host ↦ some (lib.to_lower u.scheme ++ (bytes "://" ++ host))
          ]

  -- profile.ParseOrigin
  unfoldable pub parse_origin : Bytes → Option Bytes
  unfolding origin_parts
  parse_origin raw = elim (lib.parse_url raw) [ none ↦ none | some u ↦ origin_parts u ]

  -- net.ParseIP(hostname).IsLoopback(), which is false on a nil address
  unfoldable pub is_loopback_address : Bytes → Bool
  is_loopback_address hostname = elim (lib.parse_ip hostname) [
    | none ↦ false
    | some ip ↦ ip.is_loopback
  ]

  -- The tests on the parsed URL before its origin.
  unfoldable pub navigable : Bytes → Url → Bool
  unfolding is_loopback_address
  navigable raw u =
      not (is_empty u.host || u.has_user)
      && is_empty u.opaque
      && not (contains_text raw (bytes "#") || u.force_query)
      && not (any (λ key. urls.equal_fold key (bytes "private")) (urls.query_keys u.raw_query))
      && (bytes_eq u.scheme (bytes "https")
          || bytes_eq u.scheme (bytes "http")
            && (urls.equal_fold u.hostname (bytes "localhost") || is_loopback_address u.hostname))

  -- The parsed URL with the scheme and host of its canonical origin, and a path.
  abbrev pub rebase : Url → Url → Url
  rebase u canonical = record u {
    scheme = canonical.scheme;
    host = canonical.host;
    path = if is_empty u.path then bytes "/" else u.path;
  }

  -- From the canonical origin on.
  unfoldable pub normalize_on : Url → Url → Option (Bytes × Bytes)
  normalize_on u canonical =
      let rebased = rebase u canonical in
      if validate_path lib (urls.escaped_root rebased)
      then elim (RegistrationUrl.parse lib (urls.url_string rebased) true parse_origin) [
        | none ↦ none
        | some facts ↦ some (facts.url, facts.origin)
      ]
      else none

  -- Normalize: the canonical URL and its origin; `none` is an error.
  unfoldable pub normalize : Bytes → Option (Bytes × Bytes)
  unfolding navigable normalize_on parse_origin
  normalize raw =
      let value = lib.trim_space raw in
      if is_empty value || ltb max_url_bytes (length value)
      then none
      else elim (lib.parse_url value) [
        | none ↦ none
        | some u ↦
            if navigable value u
            then elim (parse_origin (u.scheme ++ (bytes "://" ++ u.host))) [
              | none ↦ none
              | some origin ↦ elim (lib.parse_url origin) [
                | none ↦ none
                | some canonical ↦ normalize_on u canonical
              ]
            ]
            else none
      ]
