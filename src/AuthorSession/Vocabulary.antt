-- ===== src/AuthorSession/Vocabulary.antt =====
-- The closed vocabularies of authorsession/session.go: identifiers, diagnostics, challenge kinds,
-- output types and roles.
use browsertools.Prelude.{
  ℕ, Bool, true, false, ◌||◌, ◌&&◌, not, Option, none, some, List, [], ◌∷◌, Bytes, bytes, bytes_eq,
  all, is_empty, length, leb, member, ◌==◌, if◌then◌else◌,
}
use browsertools.Text.{sort_strings}
use browsertools.Library.{Library}
use browsertools.Label.{reduce_accessibility_label, redacted_label, untrusted_label}

is_lower : ℕ → Bool
is_lower c = leb b'a' c && leb c b'z'

is_letter : ℕ → Bool
unfolding is_lower
is_letter c = leb b'A' c && leb c b'Z' || is_lower c

is_digit : ℕ → Bool
is_digit c = leb b'0' c && leb c b'9'

is_identifier_byte : ℕ → Bool
unfolding is_letter is_digit
is_identifier_byte c = is_letter c || is_digit c || c == b'_' || c == b'-'

-- identifierPattern: `^[A-Za-z][A-Za-z0-9_-]{0,63}$`
unfoldable pub is_identifier : Bytes → Bool
unfolding is_letter is_identifier_byte
is_identifier [] = false
is_identifier (c ∷ rest) = is_letter c && all is_identifier_byte rest && leb (length rest) 63

is_diagnostic_byte : ℕ → Bool
unfolding is_lower is_digit
is_diagnostic_byte c = is_lower c || is_digit c || c == b'_'

-- diagnosticPattern: `^[a-z][a-z0-9_]{0,63}$`
unfoldable pub is_diagnostic : Bytes → Bool
unfolding is_lower is_diagnostic_byte
is_diagnostic [] = false
is_diagnostic (c ∷ rest) = is_lower c && all is_diagnostic_byte rest && leb (length rest) 63

abbrev pub output_types : List Bytes
output_types =
    bytes "string" ∷ bytes "integer" ∷ bytes "number" ∷ bytes "boolean" ∷ bytes "presence" ∷ []

abbrev pub output_locator_modes : List Bytes
output_locator_modes = bytes "exact_name" ∷ bytes "unique_role" ∷ []

abbrev pub otp_challenge_kinds : List Bytes
otp_challenge_kinds = bytes "totp" ∷ bytes "sms_otp" ∷ bytes "email_otp" ∷ bytes "voice_otp" ∷ []

abbrev pub non_input_challenge_kinds : List Bytes
non_input_challenge_kinds =
    bytes "push" ∷ bytes "push_number_match" ∷ bytes "passkey" ∷ bytes "security_key" ∷ []

abbrev pub output_control_roles : List Bytes
output_control_roles =
    bytes "button"
    ∷ bytes "textbox"
    ∷ bytes "checkbox"
    ∷ bytes "radio"
    ∷ bytes "combobox"
    ∷ bytes "option"
    ∷ bytes "menuitem"
    ∷ bytes "tab"
    ∷ bytes "switch"
    ∷ []

-- The input kinds that a backend may report.
abbrev pub input_kinds : List Bytes
input_kinds = [] ∷ bytes "identifier" ∷ bytes "password" ∷ bytes "otp" ∷ bytes "mfa" ∷ []

-- Each of the sorted kinds is allowed, and no two neighbours are the same.
unfoldable pub kinds_ok : List Bytes → List Bytes → Bool
kinds_ok allowed [] = true
kinds_ok allowed (x ∷ []) = member x allowed
kinds_ok allowed (x ∷ y ∷ rest) =
    member x allowed && not (bytes_eq x y) && kinds_ok allowed (y ∷ rest)

-- validateChallengeKinds: the sorted kinds; `none` is an error.
unfoldable pub validate_challenge_kinds : Bytes → List Bytes → Option (List Bytes)
unfolding kinds_ok
validate_challenge_kinds input_kind [] = some []
validate_challenge_kinds input_kind values =
    let sorted = sort_strings values in
    if bytes_eq input_kind (bytes "mfa")
    then (if kinds_ok non_input_challenge_kinds sorted then some sorted else none)
    else if bytes_eq input_kind (bytes "otp")
    then (if kinds_ok otp_challenge_kinds sorted then some sorted else none)
    else none

default_kinds : Bytes → List Bytes
default_kinds input_kind =
    if bytes_eq input_kind (bytes "otp") then otp_challenge_kinds else non_input_challenge_kinds

unfoldable pub normalized_challenge_kinds : Bytes → List Bytes → List Bytes
unfolding default_kinds
normalized_challenge_kinds input_kind values = elim (validate_challenge_kinds input_kind values) [
  | none ↦ default_kinds input_kind
  | some [] ↦ default_kinds input_kind
  | some (x ∷ rest) ↦ x ∷ rest
]

module _ (lib : Library) where
  unfoldable pub promotable_label : Bytes → Bool
  promotable_label value =
      not (is_empty value)
      && not (bytes_eq value redacted_label || bytes_eq value untrusted_label)
      && leb (length value) 256
      && bytes_eq (reduce_accessibility_label lib value).value value

  unfoldable pub default_title : Bytes → Bytes
  default_title value =
      if is_empty (lib.trim_space value)
      then bytes "Authenticated browser"
      else lib.trim_space value
