-- ===== src/Label.antt =====
-- authorsession/label.go: the reduction of accessibility labels.
pub mod Reduction
use browsertools.Prelude.{
  ℕ, Bool, true, false, ◌||◌, ◌&&◌, not, List, [], ◌∷◌, Bytes, bytes, bytes_eq, any, length, ltb,
  leb, is_empty, if◌then◌else◌,
}
use browsertools.Text.{contains_text}
use browsertools.Library.{Library}

pub data LabelReductionReason : Type 0 where
  unchanged normalized too_long sensitive prompt_injection : LabelReductionReason

pub record LabelReduction : Type 0 where
  pub value : Bytes
  pub reason : LabelReductionReason

abbrev pub redacted_label : Bytes
redacted_label = bytes "[redacted]"

abbrev pub untrusted_label : Bytes
untrusted_label = bytes "[untrusted-label]"

unfoldable pub prompt_injection_phrases : List Bytes
prompt_injection_phrases =
    bytes "ignore previous"
    ∷ bytes "ignore prior"
    ∷ bytes "ignore all instructions"
    ∷ bytes "system prompt"
    ∷ bytes "developer message"
    ∷ bytes "tool call"
    ∷ bytes "reveal secrets"
    ∷ bytes "reveal credentials"
    ∷ []

-- The labels that stand for a reduced one.
unfoldable pub is_placeholder : Bytes → Bool
is_placeholder label = bytes_eq label redacted_label || bytes_eq label untrusted_label

module _ (lib : Library) where
  unfoldable pub reason_for_canonicalization : Bytes → Bytes → LabelReductionReason
  reason_for_canonicalization raw canonical =
      if bytes_eq raw canonical then unchanged else normalized

  unfoldable pub mentions_phrase : Bytes → Bool
  mentions_phrase canonical = any (contains_text (lib.to_lower canonical)) prompt_injection_phrases

  unfoldable pub is_sensitive : Bytes → Bool
  is_sensitive canonical =
      lib.matches_email canonical
      || lib.matches_phone canonical
      || lib.matches_secret canonical
      || not (bytes_eq (lib.redact canonical) canonical)

  unfoldable pub reduce_accessibility_label : Bytes → LabelReduction
  unfolding reason_for_canonicalization
  reduce_accessibility_label raw =
      let canonical = lib.collapse_spaces raw in
      if is_placeholder canonical
      then record { value = canonical; reason = reason_for_canonicalization raw canonical }
      else if ltb 256 (length canonical)
      then record { value = redacted_label; reason = too_long }
      else if mentions_phrase canonical
      then record { value = untrusted_label; reason = prompt_injection }
      else if is_sensitive canonical
      then record { value = redacted_label; reason = sensitive }
      else record { value = canonical; reason = reason_for_canonicalization raw canonical }

  -- safeCandidateLabel of registrationauthorsession/protocol.go
  unfoldable pub safe_candidate_label : Bytes → Bool
  unfolding reduce_accessibility_label
  safe_candidate_label value =
      is_empty value
      || is_placeholder value
      || leb (length value) 256 && bytes_eq (reduce_accessibility_label value).value value
