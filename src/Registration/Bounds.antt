-- ===== src/Registration/Bounds.antt =====
-- validateBounds and normalizedBounds of registrationauthorsession/protocol.go.
pub mod Range
use browsertools.Prelude.{
  ℕ, ◌*◌, ℤ, pos, Bool, true, false, ◌||◌, ◌&&◌, not, Option, none, some, ltb_ℤ, leb_ℤ,
  if◌then◌else◌,
}
use browsertools.Registration.Types.{Bounds}

abbrev pub default_bounds : Bounds
default_bounds = record {
  navigation_timeout_ms = pos 20000;
  total_timeout_ms = pos 300000;
  max_requests = pos 256;
  max_response_bytes = pos 33554432;
  max_observations = pos 64;
  max_candidates = pos 128;
}

-- `validateBounds(value) == nil`
unfoldable pub validate_bounds : Option Bounds → Bool
validate_bounds none = true
validate_bounds (some b) = not (
    leb_ℤ b.navigation_timeout_ms (pos 0)
    || ltb_ℤ (pos 60000) b.navigation_timeout_ms
    || ltb_ℤ b.total_timeout_ms b.navigation_timeout_ms
    || ltb_ℤ (pos 1800000) b.total_timeout_ms
    || leb_ℤ b.max_requests (pos 0)
    || ltb_ℤ (pos 4096) b.max_requests
    || leb_ℤ b.max_response_bytes (pos 0)
    || ltb_ℤ (pos 134217728) b.max_response_bytes
    || leb_ℤ b.max_observations (pos 0)
    || ltb_ℤ (pos 256) b.max_observations
    || leb_ℤ b.max_candidates (pos 0)
    || ltb_ℤ (pos 512) b.max_candidates)

unfoldable pub normalized_bounds : Option Bounds → Bounds
normalized_bounds none = default_bounds
normalized_bounds (some b) = b

-- The zero value that a new server has.
abbrev pub zero_bounds : Bounds
zero_bounds = record {
  navigation_timeout_ms = pos 0;
  total_timeout_ms = pos 0;
  max_requests = pos 0;
  max_response_bytes = pos 0;
  max_observations = pos 0;
  max_candidates = pos 0;
}
