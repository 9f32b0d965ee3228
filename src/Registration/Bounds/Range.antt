-- ===== src/Registration/Bounds/Range.antt =====
-- About validateBounds and normalizedBounds of registrationauthorsession/protocol.go.
use browsertools.Prelude.{
  ℕ, ◌≤◌, ℤ, pos, negsuc, pos_part, ◌≡◌, refl, ◌↔◌, true, false, Option, none, some, ltb_ℤ, leb_ℤ,
  arith,
}
use browsertools.Registration.Types.{Bounds}
use browsertools.Registration.Bounds.{validate_bounds, normalized_bounds, default_bounds}

-- A natural number from 1 to `limit`.
pub record IsFrom1To (limit : ℕ) (z : ℤ) : Type 0 where
  pub natural : z ≡ pos (pos_part z)
  pub positive : 1 ≤ pos_part z
  pub limited : pos_part z ≤ limit

-- The hard limits of the protocol.
pub record IsWithinLimits (b : Bounds) : Type 0 where
  pub navigation : IsFrom1To 60000 b.navigation_timeout_ms
  pub total : IsFrom1To 1800000 b.total_timeout_ms
  pub navigation_in_total : pos_part b.navigation_timeout_ms ≤ pos_part b.total_timeout_ms
  pub requests : IsFrom1To 4096 b.max_requests
  pub response_bytes : IsFrom1To 134217728 b.max_response_bytes
  pub observations : IsFrom1To 256 b.max_observations
  pub candidates : IsFrom1To 512 b.max_candidates

from_1_to :
    (limit : ℕ) (z : ℤ) → leb_ℤ z (pos 0) ≡ false → ltb_ℤ (pos limit) z ≡ false → IsFrom1To limit z
from_1_to limit (pos n) h k = record {
  natural = refl;
  positive = ground arith;
  limited = ground arith;
}
from_1_to limit (negsuc n) h k = absurd (ground arith)

positive_of : (limit : ℕ) (z : ℤ) → IsFrom1To limit z → leb_ℤ z (pos 0) ≡ false
positive_of limit (pos n) h = ground (arith, h.positive)
positive_of limit (negsuc n) h = ground (arith, h.positive)

limited_of : (limit : ℕ) (z : ℤ) → IsFrom1To limit z → ltb_ℤ (pos limit) z ≡ false
limited_of limit (pos n) h = ground (arith, h.limited)
limited_of limit (negsuc n) h = ground arith

-- The total timeout is at least the navigation timeout, which is positive.
total_from :
    (b t : ℤ)
    → leb_ℤ b (pos 0) ≡ false
    → ltb_ℤ t b ≡ false
    → ltb_ℤ (pos 1800000) t ≡ false
    → IsFrom1To 1800000 t × (pos_part b ≤ pos_part t)
total_from (pos n) (pos m) h k l =
    (record { natural = refl; positive = ground arith; limited = ground arith }, ground arith)
total_from (pos n) (negsuc m) h k l = absurd (ground arith)
total_from (negsuc n) t h k l = absurd (ground arith)

total_not_below :
    (b t : ℤ)
    → IsFrom1To 60000 b
    → IsFrom1To 1800000 t
    → pos_part b ≤ pos_part t
    → ltb_ℤ t b ≡ false
total_not_below (pos n) (pos m) h k l = ground arith
total_not_below (pos n) (negsuc m) h k l = ground (arith, k.positive)
total_not_below (negsuc n) t h k l = ground (arith, h.positive)

within_of_accepted : (b : Bounds) → validate_bounds (some b) ≡ true → IsWithinLimits b
unfolding validate_bounds
within_of_accepted b h =
    let total =
      total_from b.navigation_timeout_ms b.total_timeout_ms (ground arith) (ground arith)
        (ground arith) in
    record {
      navigation = from_1_to 60000 b.navigation_timeout_ms (ground arith) (ground arith);
      total = total.0;
      navigation_in_total = total.1;
      requests = from_1_to 4096 b.max_requests (ground arith) (ground arith);
      response_bytes = from_1_to 134217728 b.max_response_bytes (ground arith) (ground arith);
      observations = from_1_to 256 b.max_observations (ground arith) (ground arith);
      candidates = from_1_to 512 b.max_candidates (ground arith) (ground arith);
    }

accepted_of_within : (b : Bounds) → IsWithinLimits b → validate_bounds (some b) ≡ true
unfolding validate_bounds
accepted_of_within b w = ground (
  arith,
  positive_of 60000 _ w.navigation,
  limited_of 60000 _ w.navigation,
  total_not_below _ _ w.navigation w.total w.navigation_in_total,
  limited_of 1800000 _ w.total,
  positive_of 4096 _ w.requests,
  limited_of 4096 _ w.requests,
  positive_of 134217728 _ w.response_bytes,
  limited_of 134217728 _ w.response_bytes,
  positive_of 256 _ w.observations,
  limited_of 256 _ w.observations,
  positive_of 512 _ w.candidates,
  limited_of 512 _ w.candidates,
)

default_within : IsWithinLimits default_bounds
unfolding validate_bounds
default_within = within_of_accepted default_bounds refl

-- The bounds of a client, given or left out, are accepted exactly where the bounds that the session
-- then uses are within the hard limits.
pub validate_bounds_iff :
    (b : Option Bounds) → (validate_bounds b ≡ true) ↔ IsWithinLimits (normalized_bounds b)
unfolding normalized_bounds
validate_bounds_iff none = (λ _. default_within, λ _. (unfold validate_bounds in refl))
validate_bounds_iff (some b) = (within_of_accepted b, accepted_of_within b)
