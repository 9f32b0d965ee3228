-- ===== src/Registration/Control.antt =====
-- Public form controls and previews: ValidateControlMetadata, ValidatePreview and
-- humanControlLabel of registrationauthorsession/inputs.go.
pub mod Previews
use browsertools.Prelude.{
  ℕ, ◌*◌, ◌^◌, ℤ, pos, pos_part, neg_part, Bool, true, false, ◌||◌, ◌&&◌, not, Option, none, some,
  List, [], ◌∷◌, Bytes, bytes, bytes_eq, any, length, leb, ltb, is_empty, is_some, ltb_ℤ, leb_ℤ,
  eq_ℤ, member, if◌then◌else◌, ◌+◌,
}
use browsertools.Text.{contains_text}
use browsertools.Library.{Library}
use browsertools.Label.{is_placeholder, safe_candidate_label}
use browsertools.Registration.Types.{
  Float64, nan, inf, finite, PublicOption, ControlMetadata, PreviewRequest, Candidate,
}

-- 9007199254740991 = 2 ^ 53 - 1, in units of 2 ^ -1074.
unfoldable pub max_safe_number : ℕ
max_safe_number = 9007199254740991 * 2 ^ 1074

-- math.IsNaN, math.IsInf or math.Abs(x) > 9007199254740991 does not hold.
unfoldable pub number_ok : Option Float64 → Bool
number_ok none = true
number_ok (some nan) = false
number_ok (some inf) = false
number_ok (some (finite z)) = leb (pos_part z + neg_part z) max_safe_number

-- *minimum > *maximum
number_order : Option Float64 → Option Float64 → Bool
number_order (some (finite a)) (some (finite b)) = leb_ℤ a b
number_order _ _ = true

length_ok : Option ℤ → Bool
length_ok none = true
length_ok (some n) = leb_ℤ (pos 0) n && leb_ℤ n (pos 4096)

length_order : Option ℤ → Option ℤ → Bool
length_order (some a) (some b) = leb_ℤ a b
length_order none b = true
length_order (some a) none = true

abbrev pub control_kinds : List Bytes
control_kinds =
    bytes "text"
    ∷ bytes "email"
    ∷ bytes "password"
    ∷ bytes "number"
    ∷ bytes "checkbox"
    ∷ bytes "switch"
    ∷ bytes "select"
    ∷ bytes "button"
    ∷ bytes "link"
    ∷ bytes "unsupported"
    ∷ []

abbrev text_kinds : List Bytes
text_kinds = bytes "text" ∷ bytes "email" ∷ bytes "password" ∷ []

abbrev human_words : List Bytes
human_words =
    bytes "consent"
    ∷ bytes "agree"
    ∷ bytes "terms"
    ∷ bytes "captcha"
    ∷ bytes "verify"
    ∷ bytes "verification"
    ∷ bytes "accept"
    ∷ bytes "one-time code"
    ∷ bytes "otp"
    ∷ bytes "security code"
    ∷ []

abbrev forbidden_preview_words : List Bytes
forbidden_preview_words =
    bytes "submit"
    ∷ bytes "register"
    ∷ bytes "sign up"
    ∷ bytes "create account"
    ∷ bytes "password"
    ∷ bytes "email"
    ∷ []

module _ (lib : Library) where
  unfoldable pub public_text : Bytes → Bool
  public_text value =
      not (is_empty value)
      && leb (length value) 256
      && safe_candidate_label lib value
      && not (is_placeholder value)

  -- Options are public and their values are distinct; `seen` holds the earlier values.
  unfoldable pub options_ok : List Bytes → List PublicOption → Bool
  unfolding public_text
  options_ok seen [] = true
  options_ok seen (o ∷ rest) =
      let later = options_ok (o.value ∷ seen) rest in
      public_text o.value && public_text o.label && not (member o.value seen) && later

  -- `ValidateControlMetadata(&value) == nil`
  unfoldable pub validate_control_metadata : ControlMetadata → Bool
  unfolding options_ok number_ok number_order length_ok length_order
  validate_control_metadata c =
      member c.kind control_kinds
      && (leb (length c.options) 32 && (bytes_eq c.kind (bytes "select") || is_empty c.options))
      && options_ok [] c.options
      && (length_ok c.min_length
          && length_ok c.max_length
          && length_order c.min_length c.max_length)
      && (number_ok c.minimum && number_ok c.maximum && number_order c.minimum c.maximum)
      && (bytes_eq c.kind (bytes "number") || not (is_some c.minimum || is_some c.maximum))
      && (member c.kind text_kinds || not (is_some c.min_length || is_some c.max_length))

  -- The same for a pointer; nil is refused.
  abbrev pub validate_control : Option ControlMetadata → Bool
  validate_control none = false
  validate_control (some c) = validate_control_metadata c

  unfoldable pub human_control_label : Bytes → Bool
  human_control_label label = any (contains_text (lib.to_lower label)) human_words

  unfoldable pub promotable_candidate : Candidate → Bool
  promotable_candidate c =
      not (is_empty c.label) && not (is_placeholder c.label) && safe_candidate_label lib c.label

  -- The action fits the control's kind and the arguments that it carries.
  unfoldable pub action_ok : ControlMetadata → PreviewRequest → Bool
  action_ok c r =
      if bytes_eq r.action (bytes "select")
      then bytes_eq c.kind (bytes "select") && not (is_some r.checked) && elim r.option [
        | none ↦ false
        | some chosen ↦ any (λ o. bytes_eq o.value chosen) c.options
      ]
      else if bytes_eq r.action (bytes "check")
      then (bytes_eq c.kind (bytes "checkbox") || bytes_eq c.kind (bytes "switch"))
        && is_some r.checked
        && not (is_some r.option)
      else if bytes_eq r.action (bytes "click")
      then (bytes_eq c.kind (bytes "button") || bytes_eq c.kind (bytes "link"))
        && not (is_some r.option)
        && not (is_some r.checked)
      else false

  control_fits : Option ControlMetadata → PreviewRequest → Bool
  unfolding validate_control_metadata action_ok
  control_fits none r = false
  control_fits (some c) r = validate_control_metadata c && action_ok c r

  -- `ValidatePreview(candidate, request) == nil`
  unfoldable pub validate_preview : Candidate → PreviewRequest → Bool
  unfolding promotable_candidate control_fits human_control_label
  validate_preview c r =
      bytes_eq r.purpose (bytes "public_form_preview")
      && bytes_eq r.candidate_id c.id
      && ltb_ℤ (pos 0) r.generation
      && eq_ℤ c.matches (pos 1)
      && promotable_candidate c
      && not (
          human_control_label (lib.to_lower c.label)
          || any (contains_text (lib.to_lower c.label)) forbidden_preview_words)
      && control_fits c.control r
