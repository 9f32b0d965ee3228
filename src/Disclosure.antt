-- ===== src/Disclosure.antt =====
-- disclosurepath/path.go: URL paths that may cross the session boundary.
pub mod Segments
use browsertools.Prelude.{
  ℕ, ◌+◌, ◌*◌, ◌-◌, Bool, true, false, ◌||◌, ◌&&◌, not, Option, none, some, List, [], ◌∷◌, Bytes,
  bytes, bytes_eq, length, ltb, leb, is_empty, ◌==◌, if◌then◌else◌,
}
use browsertools.Text.{has_prefix, contains_any, split}
use browsertools.Library.{Library}
use browsertools.Label.{mentions_phrase}

-- The value of a hexadecimal digit.
hex_digit : ℕ → Option ℕ
hex_digit c =
    if leb b'0' c && leb c b'9'
    then some (c - 48)
    else if leb b'A' c && leb c b'F'
    then some (c - 55)
    else if leb b'a' c && leb c b'f'
    then some (c - 87)
    else none

-- url.PathUnescape: `%XX` is a byte, and `%` before anything else is an error.
unfoldable pub path_unescape : Bytes → Option Bytes
unfolding hex_digit
path_unescape [] = some []
path_unescape (c ∷ []) = if c == b'%' then none else some (c ∷ [])
path_unescape (c ∷ d ∷ []) = if c == b'%' || d == b'%' then none else some (c ∷ d ∷ [])
path_unescape (c ∷ d ∷ e ∷ s) =
    let plain = path_unescape (d ∷ e ∷ s) in
    let escaped = path_unescape s in
    if c == b'%'
    then elim (hex_digit d) [
      | none ↦ none
      | some hi ↦ elim (hex_digit e) [
        | none ↦ none
        | some lo ↦ elim escaped [ none ↦ none | some t ↦ some ((16 * hi + lo) ∷ t) ]
      ]
    ]
    else elim plain [ none ↦ none | some t ↦ some (c ∷ t) ]

abbrev pub max_escaped_bytes : ℕ
max_escaped_bytes = 2048

abbrev pub max_segment_bytes : ℕ
max_segment_bytes = 256

module _ (lib : Library) where
  unfoldable pub unsafe_segment : Bytes → Bool
  unsafe_segment value =
      mentions_phrase lib value
      || lib.matches_email value
      || lib.matches_phone value
      || lib.matches_assignment value
      || not (bytes_eq (lib.redact value) value)

  -- The tests on one decoded segment.
  unfoldable pub decoded_ok : Bytes → Bool
  unfolding unsafe_segment
  decoded_ok decoded =
      lib.valid_utf8 decoded
      && leb (length decoded) max_segment_bytes
      && not (
          bytes_eq decoded (bytes ".")
          || bytes_eq decoded (bytes "..")
          || contains_any decoded (bytes "/\\"))
      && not (lib.has_control decoded)
      && not (unsafe_segment decoded)

  unfoldable pub segment_ok : Bytes → Bool
  unfolding decoded_ok path_unescape
  segment_ok escaped = elim (path_unescape escaped) [ none ↦ false | some d ↦ decoded_ok d ]

  -- An empty segment may stand last only.
  unfoldable pub segments_ok : List Bytes → Bool
  unfolding segment_ok
  segments_ok [] = true
  segments_ok (part ∷ rest) =
      let later = segments_ok rest in
      if is_empty part then is_empty rest else segment_ok part && later

  -- parts[1:]
  tail_ok : List Bytes → Bool
  tail_ok [] = true
  tail_ok (first ∷ parts) = segments_ok parts

  -- `Validate(path) == nil`
  unfoldable pub validate_path : Bytes → Bool
  unfolding tail_ok segments_ok
  validate_path path =
      leb (length path) max_escaped_bytes
      && (lib.valid_utf8 path
          && has_prefix path (bytes "/")
          && not (contains_any path (bytes "?#\\")))
      && tail_ok (split b'/' path)
