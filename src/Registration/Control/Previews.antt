-- ===== src/Registration/Control/Previews.antt =====
-- About ValidatePreview of registrationauthorsession/inputs.go.
use browsertools.Prelude.{
  ◌≡◌, refl, Bool, true, false, ◌||◌, ◌&&◌, not, Option, none, some, Bytes, bytes, bytes_eq,
  bytes_eq_sound, arith, any, Bool-cases, Option-cases, ◌⊎◌, inl, inr, pos, eq_ℤ-sound, is_some,
}
use browsertools.Text.{contains_text}
use browsertools.Library.{Library}
use browsertools.Registration.Types.{ControlMetadata, PreviewRequest, Candidate}
use browsertools.Registration.Control.{
  validate_control_metadata, human_control_label, promotable_candidate, action_ok, control_fits,
  validate_preview, forbidden_preview_words,
}

-- The action that a request asks for, on a control of one of the kinds that it is for.
pub data Act (c : ControlMetadata) (r : PreviewRequest) : Type 0 where
  selects :
      (value : Bytes)
      → r.action ≡ bytes "select"
      → c.kind ≡ bytes "select"
      → r.option ≡ some value
      → any (λ o. bytes_eq o.value value) c.options ≡ true
      → r.checked ≡ none
      → Act c r
  checks :
      (on : Bool)
      → r.action ≡ bytes "check"
      → (c.kind ≡ bytes "checkbox") ⊎ (c.kind ≡ bytes "switch")
      → r.checked ≡ some on
      → r.option ≡ none
      → Act c r
  clicks :
      r.action ≡ bytes "click"
      → (c.kind ≡ bytes "button") ⊎ (c.kind ≡ bytes "link")
      → r.checked ≡ none
      → r.option ≡ none
      → Act c r

none_of : {A : Type 0} (o : Option A) → is_some o ≡ false → o ≡ none
none_of none h = refl
none_of (some a) h = cc

some_of : {A : Type 0} (o : Option A) → is_some o ≡ true → (a : A) × (o ≡ some a)
some_of none h = cc
some_of (some a) h = (a, refl)

one_of : (kind a b : Bytes) → (bytes_eq kind a || bytes_eq kind b) ≡ true → (kind ≡ a) ⊎ (kind ≡ b)
one_of kind a b h = elim (Bool-cases (bytes_eq kind a)) [
  | inl e ↦ inl (bytes_eq_sound kind a e)
  | inr e ↦ inr (bytes_eq_sound kind b (ground arith))
]

both_of : (a b : Bool) → (a && b) ≡ true → (a ≡ true) × (b ≡ true)
both_of a b h = ground arith

each_of :
    (a b c d e f g h : Bool)
    → (a && b && c && d && e && not (f || g) && h) ≡ true
    → (a ≡ true)
      × (b ≡ true)
      × (c ≡ true)
      × (d ≡ true)
      × (e ≡ true)
      × (f ≡ false)
      × (g ≡ false)
      × (h ≡ true)
each_of a b c d e f g h k = ground arith

module _ (lib : Library) where
  pub record IsPreview (c : Candidate) (r : PreviewRequest) : Type 0 where
    pub purpose : r.purpose ≡ bytes "public_form_preview"
    pub same : r.candidate_id ≡ c.id
    pub one : c.matches ≡ pos 1
    pub promotable : promotable_candidate lib c ≡ true
    pub not_human : human_control_label lib (lib.to_lower c.label) ≡ false
    pub not_forbidden : any (contains_text (lib.to_lower c.label)) forbidden_preview_words ≡ false
    pub control : ControlMetadata
    pub found : c.control ≡ some control
    pub valid : validate_control_metadata lib control ≡ true
    pub acts : Act control r

  acts_of : (c : ControlMetadata) (r : PreviewRequest) → action_ok lib c r ≡ true → Act c r
  unfolding action_ok
  acts_of c r h = elim (Bool-cases (bytes_eq r.action (bytes "select"))) [
    | inl e ↦ elim (Option-cases r.option) [
      | inl n ↦ absurd (ground arith)
      | inr (v, f) ↦
          selects v (bytes_eq_sound _ _ e) (bytes_eq_sound _ _ (ground arith)) f (ground arith)
            (none_of r.checked (ground arith))
    ]
    | inr e ↦ elim (Bool-cases (bytes_eq r.action (bytes "check"))) [
      | inl f ↦
          let (on, g) = some_of r.checked (ground arith) in
          checks on (bytes_eq_sound _ _ f) (one_of c.kind _ _ (ground arith)) g
            (none_of r.option (ground arith))
      | inr f ↦
          clicks (bytes_eq_sound _ _ (ground arith)) (one_of c.kind _ _ (ground arith))
            (none_of r.checked (ground arith)) (none_of r.option (ground arith))
    ]
  ]

  fits_of :
      (o : Option ControlMetadata) (r : PreviewRequest)
      → control_fits lib o r ≡ true
      → (k : ControlMetadata) × (o ≡ some k)
        × (validate_control_metadata lib k ≡ true)
        × (action_ok lib k r ≡ true)
  unfolding control_fits
  fits_of none r h = cc
  fits_of (some k) r h = let (v, a) = both_of _ _ h in (k, refl, v, a)

  -- A preview that is accepted asks for one of three actions on the one element of a promotable
  -- candidate: to select an option that the control offers, to check a checkbox or a switch, or to
  -- click a button or a link; it carries the argument of that action and no other; the control's
  -- metadata is valid; and no word in the candidate's label is one of consent, verification,
  -- registration or submission.
  pub validate_preview-IsPreview :
      (c : Candidate) (r : PreviewRequest) → validate_preview lib c r ≡ true → IsPreview c r
  unfolding validate_preview
  validate_preview-IsPreview c r h =
      let (purpose, same, _, one, promotable, human, forbidden, fits) = each_of _ _ _ _ _ _ _ _ h in
      let (k, e, v, a) = fits_of c.control r fits in
      record {
        purpose = bytes_eq_sound _ _ purpose;
        same = bytes_eq_sound _ _ same;
        one = eq_ℤ-sound _ _ one;
        promotable = promotable;
        not_human = human;
        not_forbidden = forbidden;
        control = k;
        found = e;
        valid = v;
        acts = acts_of k r a;
      }
