-- ===== src/AuthorSession/Origins.antt =====
-- exactOrigin, originForURL, cleanAbsoluteURL, cleanProtocolURL, dashboardMatches, sortedKeys and
-- validateBounds of authorsession/session.go.
use browsertools.Prelude.{
  pos, Bool, true, false, ◌||◌, ◌&&◌, not, Option, none, some, List, [], ◌∷◌, ◌++◌, Bytes, bytes,
  bytes_eq, is_empty, leb_ℤ, ltb_ℤ, member, if◌then◌else◌,
}
use browsertools.Text.{contains_text}
use browsertools.Library.{Library, Url}
use browsertools.RegistrationUrl.{path_of}
use browsertools.AuthorUrl.{UrlLibrary, normalize, is_loopback_address}
use browsertools.AuthorSession.Types.{Bounds}

module _ (lib : Library) (urls : UrlLibrary) where
  -- Whether the scheme may be used with the host.
  scheme_ok : Url → Bool
  scheme_ok u =
      bytes_eq u.scheme (bytes "https")
      || bytes_eq u.scheme (bytes "http")
        && (bytes_eq u.hostname (bytes "localhost") || is_loopback_address lib urls u.hostname)

  has_default_port : Url → Bool
  has_default_port u =
      bytes_eq u.scheme (bytes "https") && bytes_eq u.port (bytes "443")
      || bytes_eq u.scheme (bytes "http") && bytes_eq u.port (bytes "80")

  host_text : Bytes → Bytes → Bytes
  host_text host port =
      if not (is_empty port)
      then lib.join_host_port host port
      else if contains_text host (bytes ":")
      then bytes "[" ++ (host ++ bytes "]")
      else host

  exact_parts : Url → Option Bytes
  unfolding scheme_ok has_default_port host_text
  exact_parts u =
      if is_empty u.host
        || u.has_user
        || not (is_empty u.raw_query)
        || not (is_empty u.fragment)
        || not (is_empty u.path || bytes_eq u.path (bytes "/"))
        || not (scheme_ok u)
      then none
      else some (
          lib.to_lower u.scheme
          ++ (bytes "://"
              ++ host_text (lib.to_lower u.hostname) (if has_default_port u then [] else u.port)))

  unfoldable pub exact_origin : Bytes → Option Bytes
  unfolding exact_parts
  exact_origin raw = elim (lib.parse_url (lib.trim_space raw)) [
    | none ↦ none
    | some u ↦ exact_parts u
  ]

  unfoldable pub clean_absolute_url : Bytes → Option Url
  clean_absolute_url raw = elim (normalize lib urls raw) [
    | none ↦ none
    | some (value, _) ↦ lib.parse_url value
  ]

  unfoldable pub origin_for_url : Bytes → Option Bytes
  unfolding clean_absolute_url
  origin_for_url raw = elim (clean_absolute_url raw) [
    | none ↦ none
    | some u ↦ exact_origin (u.scheme ++ (bytes "://" ++ u.host))
  ]

  unfoldable pub clean_protocol_url : Bytes → Bytes
  clean_protocol_url raw = elim (normalize lib urls raw) [ none ↦ [] | some (value, _) ↦ value ]

  unfoldable pub dashboard_matches : Bytes → Bytes → Bytes → Bool
  unfolding clean_absolute_url
  dashboard_matches raw_url origin path = elim (clean_absolute_url raw_url) [
    | none ↦ false
    | some u ↦ elim (exact_origin (u.scheme ++ (bytes "://" ++ u.host))) [
      | none ↦ false
      | some want ↦ bytes_eq want origin && bytes_eq (path_of u) path
    ]
  ]

-- values[key] = struct{}{} for a set without order.
unfoldable pub add_key : Bytes → List Bytes → List Bytes
add_key key values = if member key values then values else key ∷ values

unfoldable pub within_limits : Bounds → Bool
within_limits b =
    ltb_ℤ (pos 0) b.navigation_timeout_ms
    && leb_ℤ b.navigation_timeout_ms (pos 60000)
    && leb_ℤ b.navigation_timeout_ms b.total_timeout_ms
    && leb_ℤ b.total_timeout_ms (pos 1800000)
    && ltb_ℤ (pos 0) b.max_requests
    && leb_ℤ b.max_requests (pos 4096)
    && ltb_ℤ (pos 0) b.max_response_bytes
    && leb_ℤ b.max_response_bytes (pos 134217728)
    && ltb_ℤ (pos 0) b.max_observations
    && leb_ℤ b.max_observations (pos 256)
    && ltb_ℤ (pos 0) b.max_candidates
    && leb_ℤ b.max_candidates (pos 512)
    && ltb_ℤ (pos 0) b.max_outputs
    && leb_ℤ b.max_outputs (pos 32)

-- `validateBounds(value) == nil`
unfoldable pub validate_bounds : Option Bounds → Bool
unfolding within_limits
validate_bounds none = true
validate_bounds (some b) = within_limits b

unfoldable pub normalized_bounds : Option Bounds → Bounds
normalized_bounds (some b) = b
normalized_bounds none = record {
  navigation_timeout_ms = pos 20000;
  total_timeout_ms = pos 600000;
  max_requests = pos 512;
  max_response_bytes = pos 33554432;
  max_observations = pos 64;
  max_candidates = pos 128;
  max_outputs = pos 16;
}
