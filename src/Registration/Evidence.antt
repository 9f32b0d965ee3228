-- ===== src/Registration/Evidence.antt =====
-- The binding of a recipe to what was observed: ValidateTypedEvidence of
-- registrationauthorsession/inputs.go and ValidateVerificationEvidence of verification.go.
use browsertools.Prelude.{
  ℕ, suc, ◌+◌, ◌-◌, pos, Bool, true, false, ◌||◌, ◌&&◌, not, Option, none, some, List, [], ◌∷◌,
  ◌++◌, Bytes, bytes, bytes_eq, is_some, is_empty, all, any, length, ltb, leb, leb_ℤ, eq_ℤ, member,
  get_elem?, ◌==◌, if◌then◌else◌,
}
use browsertools.Search.{contains}
use browsertools.Library.{Library}
use browsertools.Label.{safe_candidate_label}
use browsertools.RegistrationUrl.{path_of}
use browsertools.Registration.Types.{
  Protocol, v3, is_v4, ControlMetadata, Candidate, CandidateRecord, Observation, PreviewRecord,
}
use browsertools.Registration.Profile.{Profile, Step, Locator}
use browsertools.Registration.Origins.{exact_origin, validate_navigation_url}
use browsertools.Registration.Control.{
  validate_control_metadata, validate_preview, promotable_candidate, human_control_label,
}
use browsertools.Registration.Verification.{validate_verification_observation}
use browsertools.Registration.Reduce.{candidate_id, is_portable_role}
use browsertools.Registration.Server.{lookup}

abbrev pub Records : Type 0
Records = List (Bytes × CandidateRecord)

-- What the walk over the steps carries: the page, the last generation, and the ids used so far.
pub record Walk : Type 0 where
  pub origin : Bytes
  pub path : Bytes
  pub last_generation : ℕ
  pub submitted : Bool
  pub used : List Bytes

-- The `switch` that picks a step's locator.
unfoldable pub step_locator : Step → Option Locator
step_locator step = elim step.type_credential [
  | some t ↦ some t.locator
  | none ↦ elim step.fill_input [
    | some f ↦ some f.locator
    | none ↦ elim step.click [
      | some l ↦ some l
      | none ↦ elim step.submit [
        | some l ↦ some l
        | none ↦ elim step.wait_for [
          | some l ↦ some l
          | none ↦ elim step.human_checkpoint [ none ↦ none | some l ↦ l ]
        ]
      ]
    ]
  ]
]

unfoldable pub same_text_locator : Locator → Locator → Bool
same_text_locator a b =
    bytes_eq a.role b.role
    && bytes_eq a.name b.name
    && bytes_eq a.text b.text
    && bytes_eq a.value b.value

is_kind : ControlMetadata → List Bytes → Bool
is_kind c kinds = member c.kind kinds

-- The control of a credential step suits the kind of its slot.
unfoldable pub credential_ok : Option ControlMetadata → Bytes → Bool
unfolding is_kind
credential_ok none kind = false
credential_ok (some c) kind = not (
    bytes_eq kind (bytes "password") && not (is_kind c (bytes "password" ∷ []))
    || bytes_eq kind (bytes "identifier") && not (is_kind c (bytes "text" ∷ bytes "email" ∷ [])))

-- The control of a fill step suits its action, and offers every choice of the slot.
unfoldable pub fill_ok : Option ControlMetadata → Bytes → List Bytes → Bool
unfolding is_kind
fill_ok none action choices = false
fill_ok (some c) action choices =
    if bytes_eq action (bytes "fill")
    then is_kind c (bytes "text" ∷ bytes "email" ∷ bytes "number" ∷ [])
    else if bytes_eq action (bytes "check")
    then is_kind c (bytes "checkbox" ∷ bytes "switch" ∷ [])
    else if bytes_eq action (bytes "select")
    then is_kind c (bytes "select" ∷ [])
      && all (λ choice. any (λ o. bytes_eq choice o.value) c.options) choices
    else false

or_empty : {A : Type 0} → Option (List A) → List A
or_empty none = []
or_empty (some l) = l

-- The page that the first previewed click on a candidate led to.
unfoldable pub clicked_page : List Observation → List PreviewRecord → Bytes → Option Observation
clicked_page history [] id = none
clicked_page history (p ∷ rest) id =
    let later = clicked_page history rest id in
    if bytes_eq p.request.candidate_id id && bytes_eq p.request.action (bytes "click")
    then get_elem? history (p.next_generation - 1)
    else later

-- delete(used, id)
without : Bytes → List Bytes → List Bytes
without id [] = []
without id (x ∷ xs) = let rest = without id xs in if bytes_eq x id then rest else x ∷ rest

-- Every chosen id was used, and is taken out as it is found.
unfoldable pub all_used : List Bytes → List Bytes → Bool
unfolding without
all_used used [] = true
all_used used (id ∷ rest) = member id used && all_used (without id used) rest

module _ (lib : Library) where
  unfoldable pub candidate_ok : Protocol → List Bytes → ℕ → ℕ → Candidate → Bool
  candidate_ok protocol origins generation index c =
      elim c.verification [
        | none ↦ true
        | some v ↦ is_v4 protocol && validate_verification_observation lib v origins
      ]
      && bytes_eq c.id (candidate_id lib generation c.role c.label index)
      && is_portable_role c.role
      && safe_candidate_label lib c.label
      && (leb_ℤ (pos 1) c.matches && leb_ℤ c.matches (pos 512))
      && elim c.control [ none ↦ true | some control ↦ validate_control_metadata lib control ]

  -- The loop over the candidates of one observation: the records, or `none` for an error.
  unfoldable pub add_checked :
      Protocol → List Bytes → ℕ → ℕ → Records → List Candidate → Option Records
  unfolding candidate_ok
  add_checked protocol origins generation index records [] = some records
  add_checked protocol origins generation index records (c ∷ rest) =
      let entry : Bytes × CandidateRecord =
        (c.id, record { protocol = c; generation = generation }) in
      let later =
        add_checked protocol origins generation (suc index) (records ++ entry ∷ []) rest in
      if candidate_ok protocol origins generation index c && not (is_some (lookup c.id records))
      then later
      else none

  unfoldable pub observation_ok : List Bytes → ℕ → Observation → Bool
  observation_ok origins index o =
      o.generation == suc index
      && leb (length o.candidates) 512
      && is_some (exact_origin lib o.origin)
      && contains origins o.origin
      && is_some (validate_navigation_url lib v3 (o.origin ++ o.path))

  unfoldable pub history_records :
      Protocol → List Bytes → ℕ → Records → List Observation → Option Records
  unfolding observation_ok add_checked
  history_records protocol origins index records [] = some records
  history_records protocol origins index records (o ∷ rest) =
      if observation_ok origins index o
      then elim (add_checked protocol origins o.generation 0 records o.candidates) [
        | none ↦ none
        | some records' ↦ history_records protocol origins (suc index) records' rest
      ]
      else none

  -- Each preview is of a recorded candidate and leads to the next page; they stand in order.
  unfoldable pub previews_ok : Records → ℕ → ℕ → List PreviewRecord → Bool
  previews_ok records pages last [] = true
  previews_ok records pages last (p ∷ rest) =
      let later = previews_ok records pages p.next_generation rest in
      elim (lookup p.request.candidate_id records) [
        | none ↦ false
        | some r ↦
            eq_ℤ (pos r.generation) p.request.generation
            && p.next_generation == r.generation + 1
            && leb p.next_generation pages
            && ltb last p.next_generation
            && validate_preview lib r.protocol p.request
            && later
      ]

  -- The recorded candidate is the step's target, on the page where the walk stands.
  unfoldable pub bound_ok : List Observation → Walk → Locator → CandidateRecord → Bool
  bound_ok history w l r =
      leb w.last_generation r.generation
      && eq_ℤ r.protocol.matches (pos 1)
      && promotable_candidate lib r.protocol
      && bytes_eq l.role r.protocol.role
      && bytes_eq l.name r.protocol.label
      && is_empty l.text
      && is_empty l.value
      && elim (get_elem? history (r.generation - 1)) [
        | none ↦ false
        | some o ↦ bytes_eq o.origin w.origin && bytes_eq o.path w.path
      ]

  unfoldable pub inputs_ok : Profile → Step → CandidateRecord → Bool
  unfolding credential_ok fill_ok or_empty
  inputs_ok p step r =
      elim step.type_credential [
        | none ↦ true
        | some t ↦ credential_ok r.protocol.control (or_empty (lookup t.slot p.credential_slots))
      ]
      && elim step.fill_input [
        | none ↦ true
        | some f ↦
            not (human_control_label lib r.protocol.label)
            && fill_ok r.protocol.control f.control (or_empty (lookup f.slot p.input_slots))
      ]

  -- After a click the walk stands on the page that its preview led to.
  unfoldable pub after_click :
      List Observation → List PreviewRecord → Bytes → Step → Walk → Option Walk
  unfolding clicked_page
  after_click history previews id step w = elim step.click [
    | none ↦ some w
    | some l ↦ elim (clicked_page history previews id) [
      | none ↦ none
      | some o ↦ some (record w { origin = o.origin; path = o.path })
    ]
  ]

  abbrev pub visit : Bytes → CandidateRecord → Step → Walk → Walk
  visit id r step w = record w {
    last_generation = r.generation;
    submitted = w.submitted || is_some step.submit;
    used = if member id w.used then w.used else w.used ++ id ∷ [];
  }

  abbrev pub navigate_to : Bytes → Bytes → Walk → Option Walk
  navigate_to url id w = elim (lib.parse_url url) [
    | none ↦ none
    | some u ↦
        if is_empty id
        then some (record w { origin = u.scheme ++ (bytes "://" ++ u.host); path = path_of u })
        else none
  ]
