-- ===== src/AuthorSession/Contexts/Forest.antt =====
-- About the forest of contexts that addContext of authorsession/session.go keeps.
use browsertools.Prelude.{
  ℕ, zero, suc, ◌≤◌, ◌≡◌, refl, sym, ◌∙◌, subst, ◌&&◌, Bool, true, false, Option, none, some, List,
  [], ◌∷◌, Bytes, bytes_eq, bytes_eq_sound, length, arith, inl, inr, Bool-cases, Option-cases,
  member, some_injective,
}
use browsertools.Text.{sort_strings}
use browsertools.Registration.Server.{lookup, put}
use browsertools.AuthorSession.Types.{Context, Contexts}
use browsertools.AuthorSession.Origins.{exact_origin}
use browsertools.AuthorSession.Contexts.{
  is_main, climb, may_hold, metadata_ok, identity_ok, context_ok, add_context, add_contexts,
  Resolution, resolved, resolve, after_pass, pass, keys, remove, must_wait,
}
use browsertools.AuthorSession.Contexts.Maps.{
  lookup-put_same, lookup-put_other, length-put_known, length-put_le,
}
use browsertools.AuthorSession.Server.{AuthorLibrary}

-- The context that is put has the parent of the one that it replaces.
KeepsParent : Bytes → Context → Contexts → Type 0
KeepsParent k v l = (w : Context) → lookup k l ≡ some w → w.parent ≡ v.parent

ancestor-put :
    (k : Bytes) (v : Context) (l : Contexts) (parent : Bytes) (w : Context)
    → KeepsParent k v l
    → lookup parent l ≡ some w
    → (w' : Context) × (lookup parent (put k v l) ≡ some w') × (w'.parent ≡ w.parent)
unfolding KeepsParent
ancestor-put k v l parent w keep f = elim (Bool-cases (bytes_eq k parent)) [
  | inl same ↦
      let e = bytes_eq_sound k parent same in
      (
        v,
        subst (λ x. lookup x (put k v l) ≡ some v) e (lookup-put_same k v l),
        sym (keep w (subst (λ x. lookup x l ≡ some w) (sym e) f)),
      )
  | inr other ↦ (w, lookup-put_other parent k v l other ∙ f, refl)
]

-- A path up to the main context stays one.
climb-put :
    (j k : Bytes) (v : Context) (l : Contexts) (left : ℕ) (parent : Bytes)
    → KeepsParent k v l
    → climb j l left parent ≡ true
    → climb j (put k v l) left parent ≡ true
unfolding climb
climb-put j k v l zero parent keep h = h
climb-put j k v l (suc left) parent keep h = elim (Bool-cases (is_main parent)) [
  | inl e ↦ rw (climb, e) refl
  | inr e ↦ elim (Option-cases (lookup parent l)) [
    | inl n ↦ cc (rw (climb, e, n) at h)
    | inr (w, f) ↦ elim (Bool-cases (bytes_eq parent j)) [
      | inl own ↦ cc (rw (climb, e, f, own) at h)
      | inr own ↦
          let (w', g, up) = ancestor-put k v l parent w keep f in
          rw (climb, e, g, own, up)
            (climb-put j k v l left w.parent keep (rw (climb, e, f, own) at h))
    ]
  ]
]

module _ (a : AuthorLibrary) (origins : List Bytes) where
  -- What is known of a context that was added.
  abbrev pub entry_ok : Contexts → Bytes → Context → Bool
  entry_ok contexts id c =
      identity_ok a origins id c
      && member c.origin origins
      && metadata_ok a origins c
      && climb id contexts 3 c.parent

  -- Every context has an identifier, a kind and metadata as its kind allows, is on an approved
  -- origin, and is at most four steps from the main context; there are at most 64.
  pub record IsForest (contexts : Contexts) : Type 0 where
    pub entries :
        (id : Bytes) (c : Context) → lookup id contexts ≡ some c → entry_ok contexts id c ≡ true
    pub few : length contexts ≤ 64

  may_hold-keeps :
      (contexts : Contexts) (id : Bytes) (c : Context)
      → may_hold contexts id c ≡ true
      → KeepsParent id c contexts
  unfolding may_hold KeepsParent
  may_hold-keeps contexts id c h w f =
      bytes_eq_sound w.parent c.parent (ground (arith, rw (may_hold, f) at h))

  may_hold-few :
      (contexts : Contexts) (id : Bytes) (c : Context)
      → may_hold contexts id c ≡ true
      → length contexts ≤ 64
      → length (put id c contexts) ≤ 64
  unfolding may_hold
  may_hold-few contexts id c h few = elim (Option-cases (lookup id contexts)) [
    | inl n ↦ ground (arith, rw (may_hold, n) at h, length-put_le id c contexts)
    | inr (w, f) ↦ rw (length-put_known id c contexts (rw f refl)) few
  ]

  put-entry :
      (contexts : Contexts) (id : Bytes) (c : Context) (j : Bytes) (d : Context)
      → entry_ok contexts j d ≡ true
      → KeepsParent id c contexts
      → entry_ok (put id c contexts) j d ≡ true
  put-entry contexts id c j d h keep = ground (arith, h, climb-put j id c contexts 3 d.parent keep)

  -- A context that was checked joins the forest.
  pub put-IsForest :
      (contexts : Contexts) (id : Bytes) (c : Context)
      → identity_ok a origins id c ≡ true
      → context_ok a origins contexts id c ≡ true
      → IsForest contexts
      → IsForest (put id c contexts)
  unfolding context_ok
  put-IsForest contexts id c i h forest =
      let keep = may_hold-keeps contexts id c (ground (arith, h)) in
      record {
        entries = λ j d f. elim (Bool-cases (bytes_eq id j)) [
          | inl same ↦
              let e = bytes_eq_sound id j same in
              let cd = some_injective (
                sym (lookup-put_same id c contexts)
                ∙ subst (λ x. lookup x (put id c contexts) ≡ some d) (sym e) f) in
              subst (λ x. entry_ok (put id c contexts) x d ≡ true) e
                (subst (λ y. entry_ok (put id c contexts) id y ≡ true) cd
                  (put-entry contexts id c id c (ground (arith, h, i)) keep))
          | inr other ↦
              put-entry contexts id c j d
                (forest.entries j d (sym (lookup-put_other j id c contexts other) ∙ f)) keep
        ];
        few = may_hold-few contexts id c (ground (arith, h)) forest.few;
      }

  add_context-IsForest :
      (contexts contexts' : Contexts) (id : Bytes) (context : Context)
      → add_context a origins contexts id context ≡ some contexts'
      → IsForest contexts
      → IsForest contexts'
  unfolding add_context
  add_context-IsForest contexts contexts' id context h forest =
      elim (Bool-cases (identity_ok a origins id context)) [
        | inr i ↦ cc (rw (add_context, i) at h)
        | inl i ↦ elim (Option-cases (exact_origin a.base a.urls context.origin)) [
          | inl n ↦ cc (rw (add_context, i, n) at h)
          | inr (canonical, f) ↦
              let c = record context { origin = canonical } in
              elim (Bool-cases (context_ok a origins contexts id c)) [
                | inr k ↦ cc (rw (add_context, i, f, k) at h)
                | inl k ↦
                    subst IsForest (some_injective (rw (add_context, i, f, k) at h))
                      (put-IsForest contexts id c i k forest)
              ]
        ]
      ]

  -- What a pass makes of a forest.
  PassOk : Option (Contexts × Contexts × Bool) → Type 0
  PassOk none = Unit
  PassOk (some (contexts, remaining, p)) = IsForest contexts

  pass-IsForest :
      (ids : List Bytes) (contexts remaining : Contexts) (progress : Bool)
      → IsForest contexts
      → PassOk (pass a origins contexts remaining progress ids)
  unfolding pass PassOk
  pass-IsForest [] contexts remaining progress h = h
  pass-IsForest (id ∷ ids) contexts remaining progress h =
      elim (Option-cases (lookup id remaining)) [
        | inl e ↦ rw (pass, e) (pass-IsForest ids contexts remaining progress h)
        | inr (c, e) ↦ elim (Bool-cases (must_wait contexts remaining c)) [
          | inl w ↦ rw (pass, e, w) (pass-IsForest ids contexts remaining progress h)
          | inr w ↦ elim (Option-cases (add_context a origins contexts id c)) [
            | inl n ↦ rw (pass, e, w, n) tt
            | inr (contexts', n) ↦
                rw (pass, e, w, n)
                  (pass-IsForest ids contexts' (remove id remaining) true
                    (add_context-IsForest contexts contexts' id c n h))
          ]
        ]
      ]

  ResolutionOk : Resolution → Type 0
  ResolutionOk (resolved contexts) = IsForest contexts
  ResolutionOk _ = Unit

  after_pass-IsForest :
      (f : Contexts → Contexts → Resolution) (o : Option (Contexts × Contexts × Bool))
      → ((c r : Contexts) → IsForest c → ResolutionOk (f c r))
      → PassOk o
      → ResolutionOk (after_pass a origins f o)
  unfolding after_pass PassOk ResolutionOk
  after_pass-IsForest f none k h = tt
  after_pass-IsForest f (some (c, r, false)) k h = tt
  after_pass-IsForest f (some (c, r, true)) k h = k c r h

  resolve-IsForest :
      (fuel : ℕ) (contexts remaining : Contexts)
      → IsForest contexts
      → ResolutionOk (resolve a origins fuel contexts remaining)
  unfolding resolve ResolutionOk
  resolve-IsForest fuel contexts [] h = h
  resolve-IsForest zero contexts (entry ∷ rest) h = tt
  resolve-IsForest (suc fuel) contexts (entry ∷ rest) h =
      after_pass-IsForest (resolve a origins fuel) _ (λ c r. resolve-IsForest fuel c r)
        (pass-IsForest (sort_strings (keys (entry ∷ rest))) contexts (entry ∷ rest) false h)

  -- Where the contexts of a session are a forest, those that addContexts makes of them are one,
  -- whatever contexts the backend reports: every context has an identifier, a kind and the metadata
  -- of its kind, is on an approved origin, and leads up to the main context in at most three steps
  -- over other contexts; there are at most 64.
  pub add_contexts-IsForest :
      (contexts given contexts' : Contexts)
      → IsForest contexts
      → add_contexts a origins contexts given ≡ resolved contexts'
      → IsForest contexts'
  unfolding add_contexts ResolutionOk
  add_contexts-IsForest contexts given contexts' h e =
      subst ResolutionOk e (resolve-IsForest (length given) contexts given h)
