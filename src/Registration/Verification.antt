-- ===== src/Registration/Verification.antt =====
-- Human verification and network accounting: registrationauthorsession/verification.go, and
-- validateNetworkSummary of protocol.go.
pub mod Accounting
use browsertools.Prelude.{
  ℕ, ℤ, pos, ◌+ℤ◌, Bool, true, false, ◌||◌, ◌&&◌, not, Option, none, some, List, [], ◌∷◌, ◌++◌,
  Bytes, bytes, bytes_eq, member, ltb_ℤ, leb_ℤ, eq_ℤ, if◌then◌else◌,
}
use browsertools.Search.{contains}
use browsertools.Library.{Library}
use browsertools.RegistrationUrl.{Facts}
use browsertools.Registration.Types.{
  Protocol, v4, is_v4, VerificationObservation, HumanVerification, NetworkSummary,
}
use browsertools.Registration.Origins.{validate_navigation_url}

abbrev providers : List Bytes
providers = bytes "turnstile" ∷ bytes "recaptcha_v2" ∷ bytes "hcaptcha" ∷ []

abbrev activations : List Bytes
activations = bytes "before_approval" ∷ bytes "approved_submit" ∷ []

abbrev standard_coverage : Bytes
standard_coverage = bytes "standard_single_widget"

-- The observation that a verification descriptor claims.
abbrev pub claimed : HumanVerification → VerificationObservation
claimed v = record {
  provider = v.provider;
  activation = v.activation;
  submission_url = v.submission_url;
  widget_binding = v.widget_binding;
  coverage = standard_coverage;
}

-- matchesVerification
unfoldable pub matches_verification : Option VerificationObservation → HumanVerification → Bool
matches_verification none v = false
matches_verification (some o) v =
    bytes_eq o.provider v.provider
    && bytes_eq o.activation v.activation
    && bytes_eq o.submission_url v.submission_url
    && bytes_eq o.widget_binding v.widget_binding
    && bytes_eq o.coverage standard_coverage

module _ (lib : Library) where
  -- `ValidateVerificationObservation(&o, origins) == nil`
  unfoldable pub validate_verification_observation : VerificationObservation → List Bytes → Bool
  validate_verification_observation o origins =
      member o.provider providers
      && member o.activation activations
      && bytes_eq o.widget_binding (bytes "single_in_submit_form")
      && bytes_eq o.coverage standard_coverage
      && elim (validate_navigation_url lib v4 o.submission_url) [
        | none ↦ false
        | some facts ↦ contains origins facts.origin
      ]

  -- `ValidateVerificationAuthority(v, origins) == nil`
  unfoldable pub validate_verification_authority : Option HumanVerification → List Bytes → Bool
  unfolding validate_verification_observation
  validate_verification_authority none origins = false
  validate_verification_authority (some v) origins =
      validate_verification_observation (claimed v) origins
      && bytes_eq v.policy (v.provider ++ bytes ".v1")
      && leb_ℤ (pos 1) v.max_requests
      && leb_ℤ v.max_requests (pos 256)
      && leb_ℤ (pos 1) v.max_response_bytes
      && leb_ℤ v.max_response_bytes (pos 33554432)
      && leb_ℤ (pos 1) v.timeout_ms
      && leb_ℤ v.timeout_ms (pos 120000)

  -- verificationEqual
  unfoldable pub verification_equal : Option HumanVerification → Option HumanVerification → Bool
  verification_equal none b = false
  verification_equal (some a) none = false
  verification_equal (some a) (some b) = lib.same_verification a b

-- `validateNetworkSummary(summary, maximum) == nil`. The fields are 64-bit integers: a sum of two
-- that are not negative, beyond 64 bits, equals no 64-bit integer here, and none there as it wraps.
unfoldable pub validate_network_summary : NetworkSummary → ℤ → Bool
validate_network_summary s maximum =
    leb_ℤ (pos 0) s.requests
    && leb_ℤ (pos 0) s.get_requests
    && leb_ℤ (pos 0) s.head_requests
    && eq_ℤ s.requests (s.get_requests +ℤ s.head_requests)
    && leb_ℤ s.requests maximum

-- The provider's traffic stays within what was approved; without an approval there is none.
unfoldable pub provider_traffic_ok : NetworkSummary → Option HumanVerification → Bool
provider_traffic_ok s none =
    eq_ℤ s.provider_requests (pos 0) && eq_ℤ s.provider_response_bytes (pos 0)
provider_traffic_ok s (some v) =
    leb_ℤ s.provider_requests v.max_requests && leb_ℤ s.provider_response_bytes v.max_response_bytes

unfoldable pub no_authority : Option HumanVerification → Bool
no_authority none = true
no_authority (some v) = false

-- `ValidateNetworkSummaryForProtocol(summary, maximum, protocol, authority) == nil`
unfoldable pub validate_network_summary_for_protocol :
    NetworkSummary → ℤ → Protocol → Option HumanVerification → Bool
unfolding validate_network_summary provider_traffic_ok no_authority
validate_network_summary_for_protocol s maximum protocol authority =
    if is_v4 protocol
    then leb_ℤ (pos 0) s.provider_requests
      && leb_ℤ (pos 0) s.provider_post_requests
      && leb_ℤ s.provider_post_requests s.provider_requests
      && leb_ℤ (pos 0) s.provider_response_bytes
      && provider_traffic_ok s authority
      && validate_network_summary s maximum
    else eq_ℤ s.provider_requests (pos 0)
      && eq_ℤ s.provider_post_requests (pos 0)
      && eq_ℤ s.provider_response_bytes (pos 0)
      && no_authority authority
      && validate_network_summary s maximum
