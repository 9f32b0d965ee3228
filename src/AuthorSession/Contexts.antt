-- ===== src/AuthorSession/Contexts.antt =====
-- addContext and addContexts of authorsession/session.go: the forest of popups and frames.
pub mod Termination
pub mod Maps
pub mod Forest
use browsertools.Prelude.{
  ℕ, zero, suc, Bool, true, false, ◌||◌, ◌&&◌, not, Option, none, some, List, [], ◌∷◌, Bytes, bytes,
  bytes_eq, is_empty, is_some, length, ltb, member, if◌then◌else◌,
}
use browsertools.Text.{sort_strings}
use browsertools.Label.{reduce_accessibility_label, LabelReduction, LabelReductionReason, unchanged}
use browsertools.Disclosure.{validate_path}
use browsertools.Registration.Server.{lookup, put}
use browsertools.AuthorSession.Types.{Context, Contexts}
use browsertools.AuthorSession.Origins.{exact_origin}
use browsertools.AuthorSession.Vocabulary.{is_identifier}
use browsertools.AuthorSession.Server.{AuthorLibrary}

abbrev pub max_contexts : ℕ
max_contexts = 64

abbrev pub is_main : Bytes → Bool
is_main id = bytes_eq id (bytes "main")

abbrev pub context_eq : Context → Context → Bool
context_eq a b =
    bytes_eq a.kind b.kind
    && bytes_eq a.parent b.parent
    && bytes_eq a.origin b.origin
    && bytes_eq a.path b.path
    && bytes_eq a.name b.name

abbrev pub is_kind : Bytes → Context → Bool
is_kind kind c = bytes_eq c.kind kind

abbrev is_unchanged : LabelReductionReason → Bool
is_unchanged unchanged = true
is_unchanged _ = false

-- The depth loop from `parent` on, with the steps that are left before the depth is four.
unfoldable pub climb : Bytes → Contexts → ℕ → Bytes → Bool
climb id contexts zero parent = is_main parent
climb id contexts (suc left) parent =
    if is_main parent then true else elim (lookup parent contexts) [
      | none ↦ false
      | some ancestor ↦ if bytes_eq parent id then false else climb id contexts left ancestor.parent
    ]

-- The parent is the main context or a known one.
unfoldable pub parent_known : Contexts → Context → Bool
parent_known contexts c = is_main c.parent || is_some (lookup c.parent contexts)

-- An id keeps its context, and a new one has room.
unfoldable pub may_hold : Contexts → Bytes → Context → Bool
may_hold contexts id c = elim (lookup id contexts) [
  | none ↦ ltb (length contexts) max_contexts
  | some existing ↦ context_eq existing c
]

unfoldable pub remove : {V : Type 0} → Bytes → List (Bytes × V) → List (Bytes × V)
remove k [] = []
remove k ((j, v) ∷ rest) =
    let later = remove k rest in if bytes_eq j k then later else (j, v) ∷ later

unfoldable pub keys : {V : Type 0} → List (Bytes × V) → List Bytes
keys [] = []
keys ((k, v) ∷ rest) = k ∷ keys rest

-- The context waits for its parent, which is still to be added.
unfoldable pub must_wait : Contexts → Contexts → Context → Bool
must_wait contexts remaining c =
    not (is_main c.parent)
    && not (is_some (lookup c.parent contexts))
    && is_some (lookup c.parent remaining)

-- How the addition of several contexts ends.
pub data Resolution : Type 0 where
  resolved : Contexts → Resolution
  refused : Resolution
  exhausted : Resolution

module _ (a : AuthorLibrary) (origins : List Bytes) where
  unfoldable pub identity_ok : Bytes → Context → Bool
  identity_ok id c =
      is_identifier id
      && not (is_main id)
      && (is_kind (bytes "popup") c || is_kind (bytes "frame") c)

  -- The metadata that the kind allows, and a name that is its own reduction.
  unfoldable pub metadata_ok : Context → Bool
  metadata_ok c =
      let reduced = reduce_accessibility_label a.base c.name in
      not (is_kind (bytes "popup") c && not (is_empty c.path && is_empty c.name))
      && not (is_kind (bytes "frame") c && is_empty c.path && is_empty c.name)
      && not (
          is_kind (bytes "frame") c
          && not (is_empty c.name)
          && not (is_unchanged reduced.reason && bytes_eq reduced.value c.name))
      && (is_empty c.path || validate_path a.base c.path)

  -- The checks on a context whose origin is canonical.
  unfoldable pub context_ok : Contexts → Bytes → Context → Bool
  unfolding metadata_ok parent_known may_hold climb
  context_ok contexts id c =
      member c.origin origins
      && parent_known contexts c
      && metadata_ok c
      && may_hold contexts id c
      && climb id contexts 3 c.parent

  -- addContext: the contexts after it; `none` is an error.
  unfoldable pub add_context : Contexts → Bytes → Context → Option Contexts
  unfolding context_ok identity_ok
  add_context contexts id context =
      if identity_ok id context
      then elim (exact_origin a.base a.urls context.origin) [
        | none ↦ none
        | some canonical ↦
            let c = record context { origin = canonical } in
            if context_ok contexts id c then some (put id c contexts) else none
      ]
      else none

  -- One pass over the sorted ids: the contexts, those that remain, and whether one was added.
  unfoldable pub pass :
      Contexts → Contexts → Bool → List Bytes → Option (Contexts × Contexts × Bool)
  pass contexts remaining progress [] = some (contexts, remaining, progress)
  pass contexts remaining progress (id ∷ ids) = elim (lookup id remaining) [
    | none ↦ pass contexts remaining progress ids
    | some c ↦ elim (must_wait contexts remaining c) [
      | true ↦ pass contexts remaining progress ids
      | false ↦ elim (add_context contexts id c) [
        | none ↦ none
        | some contexts' ↦ pass contexts' (remove id remaining) true ids
      ]
    ]
  ]

  -- What a pass leads to; `f` is the next round.
  unfoldable pub after_pass :
      (Contexts → Contexts → Resolution) → Option (Contexts × Contexts × Bool) → Resolution
  after_pass f none = refused
  after_pass f (some (contexts, remaining, false)) = refused
  after_pass f (some (contexts, remaining, true)) = f contexts remaining

  -- The rounds, at most `fuel` of them.
  unfoldable pub resolve : ℕ → Contexts → Contexts → Resolution
  unfolding pass after_pass keys
  resolve fuel contexts [] = resolved contexts
  resolve zero contexts (entry ∷ rest) = exhausted
  resolve (suc fuel) contexts (entry ∷ rest) =
      let remaining = entry ∷ rest in
      after_pass (resolve fuel) (pass contexts remaining false (sort_strings (keys remaining)))

  -- addContexts. Each round that goes on adds a context, so one round for each is enough. After an
  -- error the session fails, and the contexts that were added before it are not read again.
  unfoldable pub add_contexts : Contexts → Contexts → Resolution
  unfolding resolve
  add_contexts contexts given = resolve (length given) contexts given
