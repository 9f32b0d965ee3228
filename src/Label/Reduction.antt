-- ===== src/Label/Reduction.antt =====
-- About ReduceAccessibilityLabel and safeCandidateLabel.
use browsertools.Prelude.{
  ◌≤◌, ◌≡◌, ap, ◌∙◌, ◌⊎◌, inl, inr, refl, sym, true, false, Bytes, bytes_eq, bytes_eq_refl, length,
  arith,
}
use browsertools.Library.{Library}
use browsertools.Label.{
  redacted_label, untrusted_label, is_placeholder, mentions_phrase, is_sensitive,
  reduce_accessibility_label, safe_candidate_label,
}

-- The facts of a label that is shown as it is.
pub record IsPlain (lib : Library) (raw label : Bytes) : Type 0 where
  pub canonical : label ≡ lib.collapse_spaces raw
  pub bounded : length label ≤ 256
  pub no_phrase : mentions_phrase lib label ≡ false
  pub not_sensitive : is_sensitive lib label ≡ false

placeholder_redacted : is_placeholder redacted_label ≡ true
unfolding is_placeholder bytes_eq
placeholder_redacted = refl

placeholder_untrusted : is_placeholder untrusted_label ≡ true
unfolding is_placeholder bytes_eq
placeholder_untrusted = refl

-- Every reduced label is one of the two placeholders, or is the canonical raw label, of at most 256
-- bytes, in which no prompt-injection phrase and no sensitive text was found.
pub reduce-IsPlain_or_placeholder :
    (lib : Library) (raw : Bytes)
    → let label = (reduce_accessibility_label lib raw).value in
      (is_placeholder label ≡ true) ⊎ IsPlain lib raw label
unfolding reduce_accessibility_label
reduce-IsPlain_or_placeholder lib raw = ground (arith, placeholder_redacted, placeholder_untrusted)

safe_of_placeholder :
    (lib : Library) (label : Bytes)
    → is_placeholder label ≡ true
    → safe_candidate_label lib label ≡ true
unfolding safe_candidate_label
safe_of_placeholder lib label h = ground arith

-- A label that passed every test reduces to itself.
reduce_plain :
    (lib : Library) (raw label : Bytes)
    → lib.collapse_spaces label ≡ label
    → IsPlain lib raw label
    → (reduce_accessibility_label lib label).value ≡ label
unfolding reduce_accessibility_label
reduce_plain lib raw label folded p = ground arith

safe_of_plain :
    (lib : Library) (raw label : Bytes)
    → lib.collapse_spaces label ≡ label
    → IsPlain lib raw label
    → safe_candidate_label lib label ≡ true
unfolding safe_candidate_label
safe_of_plain lib raw label folded p =
    ground (arith, reduce_plain lib raw label, bytes_eq_refl label)

-- Where folding the white space of a folded text changes nothing, the check `safeCandidateLabel`
-- accepts every reduced label.
pub safe-reduce :
    (lib : Library) (raw : Bytes)
    → lib.collapse_spaces (lib.collapse_spaces raw) ≡ lib.collapse_spaces raw
    → safe_candidate_label lib (reduce_accessibility_label lib raw).value ≡ true
safe-reduce lib raw h = elim (reduce-IsPlain_or_placeholder lib raw) [
  | inl p ↦ safe_of_placeholder lib _ p
  | inr p ↦ safe_of_plain lib raw _ (ap lib.collapse_spaces p.canonical ∙ h ∙ sym p.canonical) p
]
