-- ===== src/Registration/Verification/Accounting.antt =====
-- About ValidateNetworkSummaryForProtocol of registrationauthorsession/verification.go.
use browsertools.Prelude.{
  ◌+◌, ℤ, pos, negsuc, pos_part, ◌+ℤ◌, ◌≡◌, Bool, true, ◌&&◌, Option, none, some, leb_ℤ, eq_ℤ, ◌≤ℤ◌,
  arith, Bool-cases, inl, inr,
}
use browsertools.Registration.Types.{Protocol, is_v4, NetworkSummary, HumanVerification}
use browsertools.Registration.Verification.{
  validate_network_summary, validate_network_summary_for_protocol, provider_traffic_ok,
  no_authority,
}

-- Every request of the application was a GET or a HEAD, and there were at most `maximum`.
pub record IsAccounted (s : NetworkSummary) (maximum : ℤ) : Type 0 where
  pub requests : s.requests ≡ pos (pos_part s.get_requests + pos_part s.head_requests)
  pub limited : s.requests ≤ℤ maximum

-- The provider had no traffic.
pub record HasNoProvider (s : NetworkSummary) : Type 0 where
  pub requests : s.provider_requests ≡ pos 0
  pub posts : s.provider_post_requests ≡ pos 0
  pub response_bytes : s.provider_response_bytes ≡ pos 0

-- The provider's traffic is within the approved verification.
pub record IsApproved (s : NetworkSummary) (v : HumanVerification) : Type 0 where
  pub requests : s.provider_requests ≤ℤ v.max_requests
  pub posts : s.provider_post_requests ≤ℤ s.provider_requests
  pub response_bytes : s.provider_response_bytes ≤ℤ v.max_response_bytes

-- An approval is for protocol v4 only.
abbrev pub ProviderOk : NetworkSummary → Protocol → Option HumanVerification → Type 0
ProviderOk s p none = HasNoProvider s
ProviderOk s p (some v) = (is_v4 p ≡ true) × IsApproved s v

sum_of :
    (r g h : ℤ)
    → leb_ℤ (pos 0) g ≡ true
    → leb_ℤ (pos 0) h ≡ true
    → eq_ℤ r (g +ℤ h) ≡ true
    → r ≡ pos (pos_part g + pos_part h)
sum_of r (pos g) (pos h) p q e = ground arith
sum_of r (pos g) (negsuc h) p q e = absurd (ground arith)
sum_of r (negsuc g) h p q e = absurd (ground arith)

zero_of : (z : ℤ) → eq_ℤ z (pos 0) ≡ true → z ≡ pos 0
zero_of z h = ground arith

no_posts :
    (posts requests : ℤ)
    → leb_ℤ (pos 0) posts ≡ true
    → leb_ℤ posts requests ≡ true
    → requests ≡ pos 0
    → posts ≡ pos 0
no_posts posts requests p q e = ground arith

le_of_leb : (a b : ℤ) → leb_ℤ a b ≡ true → a ≤ℤ b
le_of_leb a b h = ground arith

accounted :
    (s : NetworkSummary) (maximum : ℤ)
    → validate_network_summary s maximum ≡ true
    → IsAccounted s maximum
unfolding validate_network_summary
accounted s maximum h = record {
  requests =
      sum_of s.requests s.get_requests s.head_requests (ground arith) (ground arith) (ground arith);
  limited = le_of_leb s.requests maximum (ground arith);
}

provider_ok :
    (s : NetworkSummary) (p : Protocol) (authority : Option HumanVerification)
    → is_v4 p ≡ true
    → leb_ℤ (pos 0) s.provider_post_requests ≡ true
    → leb_ℤ s.provider_post_requests s.provider_requests ≡ true
    → provider_traffic_ok s authority ≡ true
    → ProviderOk s p authority
unfolding provider_traffic_ok
provider_ok s p none v4 n l h =
    let none_sent : s.provider_requests ≡ pos 0 = zero_of s.provider_requests (ground arith) in
    record {
      requests = none_sent;
      posts = no_posts s.provider_post_requests s.provider_requests n l none_sent;
      response_bytes = zero_of s.provider_response_bytes (ground arith);
    }
provider_ok s p (some v) v4 n l h = (
  v4,
  record {
    requests = le_of_leb s.provider_requests v.max_requests (ground arith);
    posts = le_of_leb s.provider_post_requests s.provider_requests l;
    response_bytes = le_of_leb s.provider_response_bytes v.max_response_bytes (ground arith);
  },
)

-- Before protocol v4 there is neither an approval nor traffic of a provider.
abbrev no_provider_test : NetworkSummary → Option HumanVerification → Bool
no_provider_test s authority =
    eq_ℤ s.provider_requests (pos 0)
    && eq_ℤ s.provider_post_requests (pos 0)
    && eq_ℤ s.provider_response_bytes (pos 0)
    && no_authority authority

no_provider :
    (s : NetworkSummary) (p : Protocol) (authority : Option HumanVerification)
    → no_provider_test s authority ≡ true
    → ProviderOk s p authority
unfolding no_authority
no_provider s p none h = record {
  requests = zero_of s.provider_requests (ground arith);
  posts = zero_of s.provider_post_requests (ground arith);
  response_bytes = zero_of s.provider_response_bytes (ground arith);
}
no_provider s p (some v) h = absurd (ground arith)

-- A network summary that passes the validation counts only GET and HEAD requests of the
-- application, at most the session's limit of them; and the verification provider had no traffic at
-- all where nothing was approved, and traffic within the approved limits where something was, which
-- is under protocol v4 only.
pub validate_network_summary_for_protocol_sound :
    (s : NetworkSummary) (maximum : ℤ) (p : Protocol) (authority : Option HumanVerification)
    → validate_network_summary_for_protocol s maximum p authority ≡ true
    → IsAccounted s maximum × ProviderOk s p authority
unfolding validate_network_summary_for_protocol
validate_network_summary_for_protocol_sound s maximum p authority h = elim (Bool-cases (is_v4 p)) [
  | inl v4 ↦ (
    accounted s maximum (ground arith),
    provider_ok s p authority v4 (ground arith) (ground arith) (ground arith),
  )
  | inr old ↦ (accounted s maximum (ground arith), no_provider s p authority (ground arith))
]
