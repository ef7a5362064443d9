-- ===== src/Display/Flatten/Frames.antt =====
-- Flattening succeeds: no assertion fails, and Cairo is not given NULL.
use mathlib.Core.Option.{none-ne-some}
use guacenc.Base.{
  ℕ, zero, suc, ◌+◌, ◌≡◌, refl, sym, ap, ◌∙◌, ◌⊎◌, inl, inr, Bool, true, ◌&&◌, ◌||◌, Option, none,
  some, List, [], ◌∷◌, arith, ◌==◌, Bool-cases, Option-cases,
}
use mathlib.Core.List.{Permᴰ}
use mathlib.Core.Option.{some_inj}
use mathlib.Core.Path.{subst, ap₂}
use mathlib.Core.Bool.{true≢false}
use guacenc.Buffer.{no_pixels, draw, Cairo, Buffer, copy}
use guacenc.Buffer.Sizes.{is_some, draw-IsConsistent, has_pixels, copy_lem}
use guacenc.Display.Depth.{get_layer-found}
use guacenc.Display.{
  Cursor, new_layer, max_layers, ltb_ℤ, slot, no_parent, pos, ℤ, get_layer, Layer, Display, store,
}
use guacenc.Display.Consistency.{new_layer-Ok, LayerOk, IsValid, store_layer-IsValid}
use guacenc.Display.Flatten.{
  render_cursor, if_not_null, cursor_on, draw_cursor, render_layers, render_on, eqb_ℤ, render_layer,
  reset_frames, pointers_from,
}
use guacenc.Display.Flatten.Order.{All}

module _ {A : Type 0} where
  pub All-Perm : (P : A → Type 0) {xs ys : List A} → Permᴰ xs ys → All P xs → All P ys
  All-Perm P Permᴰ.nil h = h
  All-Perm P (Permᴰ.cons e p) h = (subst P e h.0, All-Perm P p h.1)
  All-Perm P (Permᴰ.swap e f) h = (subst P f h.1.0, (subst P e h.0, h.1.1))
  All-Perm P (Permᴰ.trans p q) h = All-Perm P q (All-Perm P p h)

  abbrev pub IsIn : A → List A → Type 0
  IsIn a [] = ⊥
  IsIn a (x ∷ xs) = (x ≡ a) ⊎ IsIn a xs

  pub IsIn-Perm : (a : A) {xs ys : List A} → Permᴰ xs ys → IsIn a xs → IsIn a ys
  IsIn-Perm a Permᴰ.nil h = h
  IsIn-Perm a (Permᴰ.cons e p) (inl h) = inl (sym e ∙ h)
  IsIn-Perm a (Permᴰ.cons e p) (inr h) = inr (IsIn-Perm a p h)
  IsIn-Perm a (Permᴰ.swap e f) (inl h) = inr (inl (sym e ∙ h))
  IsIn-Perm a (Permᴰ.swap e f) (inr (inl h)) = inl (sym f ∙ h)
  IsIn-Perm a (Permᴰ.swap e f) (inr (inr h)) = inr (inr h)
  IsIn-Perm a (Permᴰ.trans p q) h = IsIn-Perm a q (IsIn-Perm a p h)

module _ (cairo : Cairo) where
  -- A layer at an index, and a pointer that is NULL or a layer.
  abbrev pub IsLayer : Display cairo → ℕ → Type 0
  IsLayer d i = (layer : Layer cairo) × (d.layers i ≡ some layer)

  abbrev pub IsPointer : Display cairo → Option ℕ → Type 0
  IsPointer d none = Unit {0}
  IsPointer d (some i) = IsLayer d i

  pub pointers-IsPointer :
      (d : Display cairo) (n i : ℕ) → All (IsPointer d) (pointers_from cairo n i d)
  unfolding pointers_from
  pointers-IsPointer d zero i = tt
  pointers-IsPointer d (suc n) i = elim (Option-cases (d.layers i)) [
    | inl e ↦ rw (pointers_from, e) (tt, pointers-IsPointer d n (i + 1))
    | inr (layer, e) ↦ rw (pointers_from, e) ((layer, e), pointers-IsPointer d n (i + 1))
  ]

  -- The default layer has pixels; and its frame has a context.
  abbrev pub RootReady : Display cairo → Type 0
  RootReady d =
      (layer : Layer cairo) × (d.layers 0 ≡ some layer)
      × (has_pixels cairo layer.buffer.width layer.buffer.height ≡ true)

  abbrev pub RootFramed : Display cairo → Type 0
  RootFramed d = (layer : Layer cairo) × (d.layers 0 ≡ some layer) × (layer.frame.context ≡ true)

  -- What the loops keep.
  pub record Stage (d d' : Display cairo) : Type 0 where
    pub valid : IsValid cairo d'
    pub kept : (i : ℕ) → IsLayer d i → IsLayer d' i
    pub cursor : d'.cursor ≡ d.cursor
    pub last_sync : d'.last_sync ≡ d.last_sync

  pub Stage-trans : (d d' d'' : Display cairo) → Stage d d' → Stage d' d'' → Stage d d''
  Stage-trans d d' d'' s t = record {
    valid = t.valid;
    kept = λ i l. t.kept i (s.kept i l);
    cursor = t.cursor ∙ s.cursor;
    last_sync = t.last_sync ∙ s.last_sync;
  }

  pub pointers-kept :
      (d d' : Display cairo) (order : List (Option ℕ))
      → ((i : ℕ) → IsLayer d i → IsLayer d' i)
      → All (IsPointer d) order
      → All (IsPointer d') order
  pointers-kept d d' [] f h = tt
  pointers-kept d d' (none ∷ order) f h = (tt, pointers-kept d d' order f h.1)
  pointers-kept d d' (some i ∷ order) f h = (f i h.0, pointers-kept d d' order f h.1)

  -- An entry that is replaced is there, and so are the others.
  store-IsLayer :
      (d : Display cairo) (i : ℕ) (layer : Layer cairo) (j : ℕ)
      → IsLayer d j
      → IsLayer (record d { layers = store d.layers i (some layer) }) j
  unfolding store
  store-IsLayer d i layer j l = elim (Bool-cases (i == j)) [
    | inl hit ↦ (layer, rw (store, hit) refl)
    | inr miss ↦ (l.0, rw (store, miss) l.1)
  ]

  pub store-Stage :
      (d : Display cairo) (i : ℕ) (layer : Layer cairo)
      → IsValid cairo d
      → LayerOk cairo layer
      → Stage d (record d { layers = store d.layers i (some layer) })
  store-Stage d i layer v ok = record {
    valid = store_layer-IsValid cairo d i layer v ok;
    kept = store-IsLayer d i layer;
    cursor = refl;
    last_sync = refl;
  }

  -- The default layer when a layer is replaced: by one with the same buffer, or with a context.
  store-RootReady :
      (d : Display cairo) (i : ℕ) (layer new : Layer cairo)
      → d.layers i ≡ some layer
      → new.buffer ≡ layer.buffer
      → RootReady d
      → RootReady (record d { layers = store d.layers i (some new) })
  unfolding store
  store-RootReady d i layer new e same (root, there, pixels) = elim (Bool-cases (i == 0)) [
    | inl hit ↦
        let zero_is : i ≡ 0 = ground (arith, hit) in
        let same_layer : layer ≡ root = some_inj.0 (sym e ∙ ap d.layers zero_is ∙ there) in
        let same_buffer : new.buffer ≡ root.buffer = same ∙ ap (λ l. l.buffer) same_layer in
        (
          new,
          rw (store, hit) refl,
          ap (λ b. has_pixels cairo b.width b.height) same_buffer ∙ pixels,
        )
    | inr miss ↦ (root, rw (store, miss) there, pixels)
  ]

  store-RootFramed :
      (d : Display cairo) (i : ℕ) (new : Layer cairo)
      → (i ≡ 0 → new.frame.context ≡ true)
      → (i ≡ 0) ⊎ RootFramed d
      → RootFramed (record d { layers = store d.layers i (some new) })
  unfolding store
  store-RootFramed d i new framed h = elim (Bool-cases (i == 0)) [
    | inl hit ↦ (new, rw (store, hit) refl, framed (ground (arith, hit)))
    | inr miss ↦ elim h [
      | inl z ↦ absurd (ground (arith, z, miss))
      | inr (root, there, context) ↦ (root, rw (store, miss) there, context)
    ]
  ]

  -- One frame is reset.
  reset_frame :
      (d : Display cairo) (i : ℕ) (layer : Layer cairo)
      → IsValid cairo d
      → d.layers i ≡ some layer
      → (frame : Buffer cairo) × (copy cairo layer.frame layer.buffer ≡ some frame)
        × LayerOk cairo (record layer { frame = frame })
        × (frame.context ≡ has_pixels cairo layer.buffer.width layer.buffer.height)
  reset_frame d i layer v e =
      let ok = v.layers_ok i layer e in
      let (frame, copied, fine, w, h, _) = copy_lem cairo layer.frame layer.buffer ok.1 ok.0 in
      (frame, copied, (ok.0, fine), fine.context_iff ∙ ap₂ (has_pixels cairo) w h)

  root_context :
      (d : Display cairo) (i : ℕ) (layer : Layer cairo) (frame : Buffer cairo)
      → d.layers i ≡ some layer
      → frame.context ≡ has_pixels cairo layer.buffer.width layer.buffer.height
      → RootReady d
      → i ≡ 0
      → frame.context ≡ true
  root_context d i layer frame e context (root, there, pixels) z =
      let same : layer ≡ root = some_inj.0 (sym e ∙ ap d.layers z ∙ there) in
      context ∙ ap (λ l. has_pixels cairo l.buffer.width l.buffer.height) same ∙ pixels

  pub reset_frames-Stage :
      (order : List (Option ℕ)) (d : Display cairo)
      → IsValid cairo d
      → All (IsPointer d) order
      → (d' : Display cairo) × (reset_frames cairo order d ≡ some d')
        × Stage d d'
        × (RootReady d → RootFramed d ⊎ IsIn (some 0) order → RootFramed d')
  unfolding reset_frames
  reset_frames-Stage [] d v all = (
    d,
    refl,
    record { valid = v; kept = λ i l. l; cursor = refl; last_sync = refl },
    λ ready h. elim h [ inl framed ↦ framed | inr m ↦ absurd m ],
  )
  reset_frames-Stage (none ∷ order) d v all =
      let (d', run, stage, root) = reset_frames-Stage order d v all.1 in
      (
        d',
        run,
        stage,
        λ ready h. root ready (elim h [
          | inl framed ↦ inl framed
          | inr m ↦ elim m [ inl e ↦ absurd (none-ne-some 0 e) | inr m' ↦ inr m' ]
        ]),
      )
  reset_frames-Stage (some i ∷ order) d v all =
      let (layer, e) = all.0 in
      let (frame, copied, ok, context) = reset_frame d i layer v e in
      let new : Layer cairo = record layer { frame = frame } in
      let d₁ : Display cairo = record d { layers = store d.layers i (some new) } in
      let first = store-Stage d i new v ok in
      let (d', run, stage, root) =
        reset_frames-Stage order d₁ first.valid (pointers-kept d d₁ order first.kept all.1) in
      let framed : RootReady d → (i ≡ 0) ⊎ RootFramed d → RootFramed d₁ =
        λ ready. store-RootFramed d i new (root_context d i layer frame e context ready) in
      (
        d',
        rw (reset_frames, e, copied) run,
        Stage-trans d d₁ d' first stage,
        λ ready h. root (store-RootReady d i layer new e refl ready) (elim h [
          | inl there ↦ inl (framed ready (inr there))
          | inr m ↦ elim m [ inl z ↦ inl (framed ready (inl (some_inj.0 z))) | inr m' ↦ inr m' ]
        ]),
      )

  -- What looking a layer up keeps, when it is found.
  abbrev pub Looks : Display cairo → Option (ℕ × Layer cairo × Display cairo) → Type 0
  Looks d none = Unit {0}
  Looks d (some (j, parent, d')) =
      Stage d d'
      × LayerOk cairo parent
      × (RootFramed d → RootFramed d')
      × (d'.layers j ≡ some parent)

  store_self :
      (d : Display cairo) (i : ℕ) (layer : Layer cairo)
      → store d.layers i (some layer) i ≡ some layer
  unfolding store
  store_self d i layer = let same : (i == i) ≡ true = ground arith in rw (store, same) refl

  pub get_layer-Looks :
      (d : Display cairo) (index : ℤ) → IsValid cairo d → Looks d (get_layer cairo d index)
  unfolding get_layer
  get_layer-Looks d index v = elim (Option-cases (slot index max_layers)) [
    | inl e ↦ rw (get_layer, e) tt
    | inr (i, e) ↦ elim (Option-cases (d.layers i)) [
      | inr (layer, there) ↦
          rw (get_layer, e, there)
            (
              record { valid = v; kept = λ k l. l; cursor = refl; last_sync = refl },
              v.layers_ok i layer there,
              λ r. r,
              there,
            )
      | inl fresh ↦
          let new = new_layer cairo i in
          rw (get_layer, e, fresh)
            (
              store-Stage d i new v (new_layer-Ok cairo i),
              new_layer-Ok cairo i,
              λ framed.
                  store-RootFramed d i new
                    (λ z. absurd (none-ne-some framed.0 (sym fresh ∙ ap d.layers z ∙ framed.1)))
                    (inr framed),
              store_self d i new,
            )
    ]
  ]

  rendered-Ok :
      (layer : Layer cairo) (surface : cairo.Canvas) (parent : Layer cairo)
      → LayerOk cairo parent
      → LayerOk cairo (render_on cairo layer surface parent)
  unfolding render_on
  rendered-Ok layer surface parent ok = (ok.0, draw-IsConsistent cairo _ parent.frame ok.1)

  rendered_context :
      (layer : Layer cairo) (surface : cairo.Canvas) (parent : Layer cairo)
      → (render_on cairo layer surface parent).frame.context ≡ parent.frame.context
  unfolding render_on draw
  rendered_context layer surface parent = refl

  render_layer-Stage :
      (layer : Layer cairo) (d : Display cairo)
      → IsValid cairo d
      → Stage d (render_layer cairo layer d)
        × (RootFramed d → RootFramed (render_layer cairo layer d))
  unfolding render_layer
  render_layer-Stage layer d v =
      let same : Stage d d = record {
        valid = v;
        kept = λ i l. l;
        cursor = refl;
        last_sync = refl;
      } in
      elim (Bool-cases (eqb_ℤ layer.opacity (pos 0))) [
        | inl e ↦ rw (render_layer, e) (same, λ r. r)
        | inr e ↦ elim (Bool-cases (eqb_ℤ layer.parent_index no_parent)) [
          | inl p ↦ rw (render_layer, e, p) (same, λ r. r)
          | inr p ↦ elim (Option-cases (get_layer cairo d layer.parent_index)) [
            | inl g ↦ rw (render_layer, e, p, g) (same, λ r. r)
            | inr ((j, parent, d'), g) ↦
                let (stage, ok, root, there) =
                  subst (Looks d) g (get_layer-Looks d layer.parent_index v) in
                elim (Option-cases layer.frame.surface) [
                  | inl missing ↦ rw (render_layer, e, p, g, missing) (stage, root)
                  | inr (surface, shown) ↦ elim (Bool-cases parent.frame.context) [
                    | inl c ↦
                        let new = render_on cairo layer surface parent in
                        let second =
                          store-Stage d' j new stage.valid (rendered-Ok layer surface parent ok) in
                        rw (render_layer, e, p, g, shown, c)
                          (
                            Stage-trans d d' _ stage second,
                            λ r.
                                store-RootFramed d' j new
                                  (λ z. rendered_context layer surface parent ∙ c) (inr (root r)),
                          )
                    | inr c ↦ rw (render_layer, e, p, g, shown, c) (stage, root)
                  ]
                ]
          ]
        ]
      ]

  pub render_layers-Stage :
      (order : List (Option ℕ)) (d : Display cairo)
      → IsValid cairo d
      → All (IsPointer d) order
      → (d' : Display cairo) × (render_layers cairo order d ≡ some d')
        × Stage d d'
        × (RootFramed d → RootFramed d')
  unfolding render_layers
  render_layers-Stage [] d v all =
      (d, refl, record { valid = v; kept = λ i l. l; cursor = refl; last_sync = refl }, λ r. r)
  render_layers-Stage (none ∷ order) d v all = render_layers-Stage order d v all.1
  render_layers-Stage (some i ∷ order) d v all =
      let (layer, e) = all.0 in
      let d₁ = render_layer cairo layer d in
      let (first, framed) = render_layer-Stage layer d v in
      let (d', run, stage, root) =
        render_layers-Stage order d₁ first.valid (pointers-kept d d₁ order first.kept all.1) in
      (d', rw (render_layers, e) run, Stage-trans d d₁ d' first stage, λ r. root (framed r))

  positive_pixels :
      (width height : ℤ)
      → (ltb_ℤ (pos 0) width && ltb_ℤ (pos 0) height) ≡ true
      → has_pixels cairo width height ≡ true
  unfolding no_pixels
  positive_pixels width height h = ground (arith, h)

  none_shown : (surface : Option cairo.Canvas) → surface ≡ none → is_some surface ≡ true → ⊥
  none_shown none e h = absurd (true≢false (sym h))
  none_shown (some a) e h = none-ne-some a (sym e)

  -- Where the cursor is drawn, it has pixels or not; the default layer has a context.
  abbrev pub hidden : Display cairo → Bool
  hidden d = ltb_ℤ d.cursor.x (pos 0) || ltb_ℤ d.cursor.y (pos 0)

  pub drawn-Ok :
      (cursor : Cursor cairo) (surface : cairo.Canvas) (layer : Layer cairo)
      → LayerOk cairo layer
      → LayerOk cairo (cursor_on cairo cursor surface layer)
  unfolding cursor_on
  drawn-Ok cursor surface layer ok = (ok.0, draw-IsConsistent cairo _ layer.frame ok.1)

  -- The cursor is drawn on a layer that has a context, if it has pixels.
  draw_cursor-Ok :
      (d : Display cairo) (layer : Layer cairo)
      → IsValid cairo d
      → LayerOk cairo layer
      → layer.frame.context ≡ true
      → (new : Layer cairo) × (draw_cursor cairo d.cursor layer ≡ some new) × LayerOk cairo new
  unfolding draw_cursor
  draw_cursor-Ok d layer v ok c =
      let b = d.cursor.buffer in
      elim (Bool-cases (ltb_ℤ (pos 0) b.width && ltb_ℤ (pos 0) b.height)) [
        | inr e ↦ (layer, rw (draw_cursor, e) refl, ok)
        | inl e ↦
            let pixels : has_pixels cairo b.width b.height ≡ true =
              positive_pixels b.width b.height e in
            elim (Option-cases b.surface) [
              | inl missing ↦
                  absurd (none_shown b.surface missing (v.cursor_ok.surface_iff ∙ pixels))
              | inr (surface, shown) ↦ (
                cursor_on cairo d.cursor surface layer,
                rw (draw_cursor, e, shown)
                    (ap (λ context. if_not_null context (cursor_on cairo d.cursor surface layer))
                      c),
                drawn-Ok d.cursor surface layer ok,
              )
            ]
      ]

  pub render_cursor-Ok :
      (d : Display cairo)
      → IsValid cairo d
      → (hidden d ≡ true) ⊎ RootFramed d
      → (d' : Display cairo) × (render_cursor cairo d ≡ some d')
        × IsValid cairo d'
        × (d'.last_sync ≡ d.last_sync)
  unfolding render_cursor
  render_cursor-Ok d v h = elim (Bool-cases (hidden d)) [
    | inl e ↦ (d, rw (render_cursor, e) refl, v, refl)
    | inr e ↦ elim h [
      | inl e' ↦ absurd (true≢false (sym e' ∙ e))
      | inr (root, there, context) ↦
          let found = get_layer-found cairo d 0 root (omega arith) there in
          let (new, drawn, ok) = draw_cursor-Ok d root v (v.layers_ok 0 root there) context in
          (
            record d { layers = store d.layers 0 (some new) },
            rw (render_cursor, e, found, drawn) refl,
            store_layer-IsValid cairo d 0 new v ok,
            refl,
          )
    ]
  ]
