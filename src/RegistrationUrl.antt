-- ===== src/RegistrationUrl.antt =====
-- internal/registrationurl/url.go: the exact URLs that registration authoring may retain.
pub mod Exact
use browsertools.Prelude.{
  ℕ, Bool, true, false, ◌||◌, ◌&&◌, not, Option, none, some, List, [], ◌∷◌, ◌++◌, Bytes, bytes,
  bytes_eq, length, any, all, ltb, leb, is_empty, is_some, member, ◌==◌, if◌then◌else◌,
}
use browsertools.Text.{contains_text, contains_any, split}
use browsertools.Library.{Library, Url}
use browsertools.Disclosure.{validate_path}

abbrev pub max_url_bytes : ℕ
max_url_bytes = 4096

abbrev pub max_query_bytes : ℕ
max_query_bytes = 1024

abbrev pub max_query_items : ℕ
max_query_items = 16

pub record Facts : Type 0 where
  pub url : Bytes
  pub origin : Bytes
  pub path : Bytes

unfoldable pub contains_template : Bytes → Bool
contains_template value =
    contains_text value (bytes "{{")
    || contains_text value (bytes "}}")
    || contains_text value (bytes "${")
    || contains_any value (13 ∷ 10 ∷ [])

is_letter : ℕ → Bool
is_letter c = leb b'A' c && leb c b'Z' || leb b'a' c && leb c b'z'

is_key_byte : ℕ → Bool
unfolding is_letter
is_key_byte c =
    is_letter c || leb b'0' c && leb c b'9' || c == b'.' || c == b'_' || c == b'~' || c == b'-'

-- portableQueryKey: `^[A-Za-z][A-Za-z0-9._~-]{0,63}$`
unfoldable pub portable_query_key : Bytes → Bool
unfolding is_letter is_key_byte
portable_query_key [] = false
portable_query_key (c ∷ rest) = is_letter c && all is_key_byte rest && leb (length rest) 63

abbrev sensitive_words : List Bytes
sensitive_words =
    bytes "auth"
    ∷ bytes "code"
    ∷ bytes "key"
    ∷ bytes "oauth_state"
    ∷ bytes "session"
    ∷ bytes "session_id"
    ∷ bytes "sig"
    ∷ bytes "signature"
    ∷ bytes "state"
    ∷ []

abbrev secret_words : List Bytes
secret_words =
    bytes "secret"
    ∷ bytes "password"
    ∷ bytes "passwd"
    ∷ bytes "token"
    ∷ bytes "credential"
    ∷ bytes "private_key"
    ∷ []

-- The URL is absolute, with a host, and without user, fragment or an empty query.
unfoldable pub is_plain_url : Url → Bool
is_plain_url u =
    u.is_abs
    && is_empty u.opaque
    && not (is_empty u.host)
    && not u.has_user
    && is_empty u.fragment
    && not u.force_query

-- The escaped path, `/` if it is empty.
abbrev pub path_of : Url → Bytes
path_of u = if is_empty u.escaped_path then bytes "/" else u.escaped_path

part_ok : Bytes → Bool
part_ok part = not (is_empty part) && contains_text part (bytes "=")

module _ (lib : Library) where
  -- sensitiveKey
  unfoldable pub is_sensitive_key : Bytes → Bool
  is_sensitive_key value =
      let normalized = lib.to_lower (lib.trim_space value) in
      member normalized sensitive_words || lib.sensitive_key normalized

  unfoldable pub unsafe_value : Bytes → Bool
  unsafe_value value =
      not (bytes_eq (lib.redact value) value)
      || lib.matches_email value
      || lib.matches_phone value
      || member (lib.to_lower (lib.trim_space value)) secret_words
      || lib.has_control value

  -- One key with its only value.
  unfoldable pub query_item_ok : Bytes → List Bytes → Bool
  unfolding unsafe_value is_sensitive_key
  query_item_ok key [] = false
  query_item_ok key (value ∷ _ ∷ _) = false
  query_item_ok key (value ∷ []) =
      not (is_empty key)
      && leb (length key) 64
      && lib.valid_utf8 key
      && portable_query_key key
      && not (is_sensitive_key key || contains_template key)
      && leb (length value) 256
      && lib.valid_utf8 value
      && not (contains_template value || unsafe_value value)

  items_ok : List (Bytes × List Bytes) → Bool
  unfolding query_item_ok
  items_ok [] = true
  items_ok ((key, items) ∷ rest) = query_item_ok key items && items_ok rest

  -- Whether the parsed query of `raw` is bounded, literal, safe and canonically encoded.
  unfoldable pub query_ok : Bytes → List (Bytes × List Bytes) → Bool
  unfolding items_ok part_ok
  query_ok raw values =
      length values == length (split b'&' raw)
      && all part_ok (split b'&' raw)
      && items_ok values
      && bytes_eq (lib.encode_query values) raw

  unfoldable pub canonical_query : Bytes → Option Bytes
  unfolding query_ok
  canonical_query raw =
      if is_empty raw
        || ltb max_query_bytes (length raw)
        || not (lib.valid_utf8 raw)
        || contains_any raw (bytes "{}")
      then none
      else if ltb max_query_items (length (split b'&' raw))
      then none
      else elim (lib.parse_query raw) [
        | none ↦ none
        | some values ↦ if query_ok raw values then some raw else none
      ]

  -- The query with its question mark; `none` where it is refused.
  unfoldable pub query_part : Bool → Bytes → Option Bytes
  unfolding canonical_query
  query_part allow_query raw_query =
      if is_empty raw_query
      then some []
      else if not allow_query
      then none
      else elim (canonical_query raw_query) [ none ↦ none | some q ↦ some (bytes "?" ++ q) ]

  -- The last step: the canonical URL is the given one.
  exact_facts : Bytes → Bytes → Bytes → Bytes → Option Facts
  exact_facts raw origin path query =
      let canonical = origin ++ (path ++ query) in
      if bytes_eq raw canonical
      then some (record { url = canonical; origin = origin; path = path })
      else none

  parse_parts : Bytes → Bool → (Bytes → Option Bytes) → Url → Option Facts
  unfolding exact_facts is_plain_url query_part validate_path contains_template
  parse_parts raw allow_query canonical_origin u =
      if not (is_plain_url u)
      then none
      else elim (canonical_origin (u.scheme ++ (bytes "://" ++ u.host))) [
        | none ↦ none
        | some origin ↦
            if not (validate_path lib (path_of u)) || contains_template u.path
            then none
            else elim (query_part allow_query u.raw_query) [
              | none ↦ none
              | some query ↦ exact_facts raw origin (path_of u) query
            ]
      ]

  -- Parse(raw, allowQuery, canonicalOrigin); `none` is an error.
  unfoldable pub parse : Bytes → Bool → (Bytes → Option Bytes) → Option Facts
  unfolding parse_parts
  parse raw allow_query canonical_origin =
      if not (bytes_eq raw (lib.trim_space raw))
        || is_empty raw
        || ltb max_url_bytes (length raw)
        || not (lib.valid_utf8 raw)
      then none
      else elim (lib.parse_url raw) [
        | none ↦ none
        | some u ↦ parse_parts raw allow_query canonical_origin u
      ]
