-- ===== src/Registration/Origins.antt =====
-- Origins and navigation URLs of the session: exactOrigin, cleanURLForProtocol,
-- ValidateNavigationURL and normalizeOrigins of protocol.go.
pub mod Scope
use browsertools.Prelude.{
  Bool, true, false, ◌||◌, ◌&&◌, not, Option, none, some, List, [], ◌∷◌, ◌++◌, Bytes, bytes,
  bytes_eq, length, all, ltb, leb, is_empty, ◌==◌, if◌then◌else◌,
}
use browsertools.Text.{contains_text, are_sorted}
use browsertools.Library.{Library, Url}
use browsertools.Disclosure.{validate_path}
use browsertools.RegistrationUrl
use browsertools.RegistrationUrl.{Facts, path_of}
use browsertools.Registration.Types.{Protocol, is_v1, is_supported}

unfoldable pub ascii_only : Bytes → Bool
ascii_only value = all (λ c. leb c 127) value

-- No two neighbours are the same.
unfoldable pub no_repeats : List Bytes → Bool
no_repeats [] = true
no_repeats (x ∷ []) = true
no_repeats (x ∷ y ∷ rest) = not (bytes_eq y x) && no_repeats (y ∷ rest)

bracketed : Bytes → Bytes
bracketed hostname =
    if contains_text hostname (bytes ":") then bytes "[" ++ (hostname ++ bytes "]") else hostname

module _ (lib : Library) where
  -- The host in canonical spelling; `none` where it is refused.
  canonical_hostname : Bytes → Option Bytes
  unfolding ascii_only
  canonical_hostname hostname = elim (lib.parse_ip hostname) [
    | some ip ↦ some ip.text
    | none ↦
        if contains_text hostname (bytes ":") || not (ascii_only hostname)
        then none
        else some hostname
  ]

  -- HTTP is for the loopback only.
  loopback_ok : Bytes → Bytes → Bool
  loopback_ok scheme hostname =
      if bytes_eq scheme (bytes "http") && not (bytes_eq hostname (bytes "localhost"))
      then elim (lib.parse_ip hostname) [ none ↦ false | some ip ↦ ip.is_loopback ]
      else true

  port_ok : Bytes → Bytes → Bool
  port_ok scheme port = if is_empty port then true else elim (lib.canonical_number port) [
    | none ↦ false
    | some n ↦
        leb 1 n
        && leb n 65535
        && not (
            bytes_eq scheme (bytes "https") && n == 443
            || bytes_eq scheme (bytes "http") && n == 80)
  ]

  canonical_host : Bytes → Bytes → Bytes
  unfolding bracketed
  canonical_host hostname port =
      if is_empty port then bracketed hostname else lib.join_host_port hostname port

  unfoldable pub exact_parts : Bytes → Url → Option Bytes
  unfolding canonical_hostname loopback_ok port_ok canonical_host
  exact_parts raw u =
      let scheme = lib.to_lower u.scheme in
      let hostname = lib.to_lower u.hostname in
      if is_empty u.host
        || u.has_user
        || not (is_empty u.raw_query)
        || not (is_empty u.fragment)
        || not (is_empty u.path || bytes_eq u.path (bytes "/"))
      then none
      else if not (bytes_eq scheme (bytes "https") || bytes_eq scheme (bytes "http"))
          || is_empty hostname
      then none
      else elim (canonical_hostname hostname) [
        | none ↦ none
        | some name ↦
            let canonical = scheme ++ (bytes "://" ++ canonical_host name u.port) in
            if not (loopback_ok scheme hostname && port_ok scheme u.port)
              || not (bytes_eq raw canonical)
            then none
            else some canonical
      ]

  unfoldable pub exact_origin : Bytes → Option Bytes
  unfolding exact_parts
  exact_origin raw =
      if not (bytes_eq raw (lib.trim_space raw)) || ltb 1024 (lib.rune_count raw)
      then none
      else elim (lib.parse_url raw) [ none ↦ none | some u ↦ exact_parts raw u ]

  -- The branch of protocol v1: the canonical URL and its origin.
  unfoldable pub clean_parts : Url → Option (Bytes × Bytes)
  clean_parts u =
      if not u.is_abs
        || is_empty u.host
        || u.has_user
        || not (is_empty u.raw_query)
        || not (is_empty u.fragment)
      then none
      else elim (exact_origin (u.scheme ++ (bytes "://" ++ u.host))) [
        | none ↦ none
        | some origin ↦
            if validate_path lib (path_of u) then some (origin ++ path_of u, origin) else none
      ]

  -- cleanURLForProtocol: the canonical URL and its origin.
  unfoldable pub clean_url_for_protocol : Protocol → Bytes → Option (Bytes × Bytes)
  unfolding clean_parts
  clean_url_for_protocol protocol raw =
      if is_supported protocol && not (is_v1 protocol)
      then elim (RegistrationUrl.parse lib raw true exact_origin) [
        | none ↦ none
        | some facts ↦ some (facts.url, facts.origin)
      ]
      else if not (bytes_eq raw (lib.trim_space raw)) || ltb 4096 (length raw)
      then none
      else elim (lib.parse_url raw) [ none ↦ none | some u ↦ clean_parts u ]

  unfoldable pub validate_navigation_url : Protocol → Bytes → Option Facts
  validate_navigation_url protocol raw =
      if is_supported protocol
      then RegistrationUrl.parse lib raw (not (is_v1 protocol)) exact_origin
      else none

  exact_origins : List Bytes → Option (List Bytes)
  exact_origins [] = some []
  exact_origins (value ∷ rest) =
      let later = exact_origins rest in
      elim (exact_origin value) [
        | none ↦ none
        | some canonical ↦ elim later [ none ↦ none | some l ↦ some (canonical ∷ l) ]
      ]

  unfoldable pub normalize_origins : List Bytes → Option (List Bytes)
  unfolding exact_origins no_repeats
  normalize_origins values =
      if is_empty values || ltb 32 (length values) || not (are_sorted values)
      then none
      else elim (exact_origins values) [
        | none ↦ none
        | some result ↦ if no_repeats result then some result else none
      ]
