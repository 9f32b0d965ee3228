-- ===== src/Disclosure/Segments.antt =====
-- About Validate of disclosurepath/path.go.
use browsertools.Prelude.{
  ◌≡◌, refl, ◌≤◌, ◌⊎◌, inl, inr, true, false, some, List, [], ◌∷◌, Bytes, bytes, bytes_eq, arith,
  Option-cases, length,
}
use browsertools.Text.{split, has_prefix, contains_any}
use browsertools.Library.{Library}
use browsertools.Disclosure.{
  path_unescape, decoded_ok, segment_ok, segments_ok, tail_ok, validate_path, unsafe_segment,
  max_segment_bytes, max_escaped_bytes,
}

module _ (lib : Library) where
  -- A segment decodes to a short text that names no other directory and nothing sensitive.
  pub record IsSafeSegment (segment : Bytes) : Type 0 where
    pub decoded : Bytes
    pub decodes : path_unescape segment ≡ some decoded
    pub short : length decoded ≤ max_segment_bytes
    pub not_dot : bytes_eq decoded (bytes ".") ≡ false
    pub not_dot_dot : bytes_eq decoded (bytes "..") ≡ false
    pub no_slash : contains_any decoded (bytes "/\\") ≡ false
    pub no_control : lib.has_control decoded ≡ false
    pub not_sensitive : unsafe_segment lib decoded ≡ false

  -- All segments are safe, but for an empty one that may stand last.
  abbrev pub AreSafe : List Bytes → Type 0
  AreSafe [] = Unit {0}
  AreSafe (segment ∷ []) = (segment ≡ []) ⊎ IsSafeSegment segment
  AreSafe (segment ∷ next ∷ rest) = IsSafeSegment segment × AreSafe (next ∷ rest)

  abbrev pub TailIsSafe : List Bytes → Type 0
  TailIsSafe [] = Unit {0}
  TailIsSafe (first ∷ segments) = AreSafe segments

  safe_of_decoded :
      (segment decoded : Bytes)
      → path_unescape segment ≡ some decoded
      → decoded_ok lib decoded ≡ true
      → IsSafeSegment segment
  unfolding decoded_ok
  safe_of_decoded segment decoded e h = record {
    decoded = decoded;
    decodes = e;
    short = ground arith;
    not_dot = ground arith;
    not_dot_dot = ground arith;
    no_slash = ground arith;
    no_control = ground arith;
    not_sensitive = ground arith;
  }

  segment_ok-safe : (segment : Bytes) → segment_ok lib segment ≡ true → IsSafeSegment segment
  unfolding segment_ok
  segment_ok-safe segment h = elim (Option-cases (path_unescape segment)) [
    | inl e ↦ absurd (ground arith)
    | inr (d, e) ↦ safe_of_decoded segment d e (ground arith)
  ]

  segments_ok-safe : (segments : List Bytes) → segments_ok lib segments ≡ true → AreSafe segments
  unfolding segments_ok
  segments_ok-safe [] h = tt
  segments_ok-safe ([] ∷ []) h = inl refl
  segments_ok-safe ((c ∷ s) ∷ []) h = inr (segment_ok-safe (c ∷ s) (ground arith))
  segments_ok-safe ([] ∷ next ∷ rest) h = cc
  segments_ok-safe ((c ∷ s) ∷ next ∷ rest) h =
      (segment_ok-safe (c ∷ s) (ground arith), segments_ok-safe (next ∷ rest) (ground arith))

  tail_ok-safe : (segments : List Bytes) → tail_ok lib segments ≡ true → TailIsSafe segments
  unfolding tail_ok
  tail_ok-safe [] h = tt
  tail_ok-safe (first ∷ segments) h = segments_ok-safe segments h

  -- An accepted path has at most 2048 bytes, begins with a slash, and has no query, no fragment and no
  -- backslash; and each of its segments, but for an empty last one, is correctly percent-encoded and
  -- decodes to at most 256 bytes that are neither `.` nor `..`, have no slash, backslash or control
  -- character, and neither redaction nor a pattern finds anything sensitive in them.
  pub validate_path-safe :
      (path : Bytes)
      → validate_path lib path ≡ true
      → (length path ≤ max_escaped_bytes)
        × (has_prefix path (bytes "/") ≡ true)
        × (contains_any path (bytes "?#\\") ≡ false)
        × TailIsSafe (split b'/' path)
  unfolding validate_path
  validate_path-safe path h =
      (ground arith, ground arith, ground arith, tail_ok-safe (split b'/' path) (ground arith))
