-- ===== src/Display/Flatten/Reached.antt =====
-- Flattening any display, where it returns: what src/guacenc/display-flatten.c leaves is well-formed.
use guacenc.Base.{
  ℕ, zero, suc, ◌+◌, ◌≡◌, refl, inl, inr, Bool, true, false, ◌&&◌, Option, none, some, List,
  Bool-cases, Option-cases,
}
use mathlib.Core.Option
use mathlib.Core.List.{Permᴰ}
use mathlib.Core.Path.{subst}
use guacenc.Base.Int.{ℤ, pos, ltb_ℤ, eqb_ℤ}
use guacenc.Buffer.{Cairo}
use guacenc.Display.{Layer, Cursor, Display, no_parent, max_layers, get_layer}
use guacenc.Display.Consistency.{IsValid, LayerOk}
use guacenc.Display.Depth.{get_depth}
use guacenc.Display.Flatten.{
  Qsort, compare_layers, layer_comparator, pointers_from, cursor_on, if_not_null, draw_cursor,
  render_cursor, flatten,
}
use guacenc.Display.Flatten.Frames.{
  Stage, Stage-trans, store-Stage, Looks, get_layer-Looks, IsPointer, pointers-IsPointer,
  pointers-kept, All-Perm, reset_frames-Stage, render_layers-Stage, hidden, drawn-Ok,
}

-- `qsort` only moves the entries around and calls the comparator: what the calls keep of the state is kept.
pub record Permutes (library : Qsort) : Type 1 where
  pub permutes :
      {A State : Type 0} (comparator : A → A → State → Option (ℤ × State)) (P : State → Type 0)
      (entries : List A) (s : State) (r : List A × State)
      → P s
      → ((a b : A) (t : State) (answer : ℤ × State)
          → P t
          → comparator a b t ≡ some answer
          → P answer.1)
      → library.qsort comparator entries s ≡ some r
      → Permᴰ entries r.0 × P r.1

-- What holds of a result, if there is one.
abbrev pub Then {ℓ} : {A : Type ℓ} → (A → Type 0) → Option A → Type 0
Then P none = Unit {0}
Then P (some a) = P a

pub Then-some {ℓ} :
    {A : Type ℓ} (P : A → Type 0) (o : Option A) (a : A) → o ≡ some a → Then P o → P a
Then-some P o a e h = subst (Then P) e h

module _ (cairo : Cairo) where
  itself : (d : Display cairo) → IsValid cairo d → Stage cairo d d
  itself d v = record { valid = v; kept = λ i l. l; cursor = refl; last_sync = refl }

  -- A count added to a depth.
  deeper :
      (d : Display cairo) (o : Option (ℕ × Display cairo))
      → Then (λ (r : ℕ × Display cairo). Stage cairo d r.1) o
      → Then (λ (r : ℕ × Display cairo). Stage cairo d r.1) (Option.map (λ p. (p.0 + 1, p.1)) o)
  deeper d none h = tt
  deeper d (some r) h = h

  later :
      (d d' : Display cairo) (o : Option (ℕ × Display cairo))
      → Stage cairo d d'
      → Then (λ (r : ℕ × Display cairo). Stage cairo d' r.1) o
      → Then (λ (r : ℕ × Display cairo). Stage cairo d r.1) o
  later d d' none s h = tt
  later d d' (some r) s h = Stage-trans cairo d d' r.1 s h

  get_depth-Stage :
      (fuel : ℕ) (d : Display cairo) (layer : Option (Layer cairo))
      → IsValid cairo d
      → Then (λ (r : ℕ × Display cairo). Stage cairo d r.1) (get_depth cairo fuel d layer)
  unfolding get_depth
  get_depth-Stage zero d layer v = tt
  get_depth-Stage (suc fuel) d none v = itself d v
  get_depth-Stage (suc fuel) d (some layer) v =
      elim (Bool-cases (eqb_ℤ layer.parent_index no_parent)) [
        | inl root ↦ rw (get_depth, root) (itself d v)
        | inr child ↦ elim (Option-cases (get_layer cairo d layer.parent_index)) [
          | inl e ↦ rw (get_depth, child, e) (deeper d _ (get_depth-Stage fuel d none v))
          | inr ((j, parent, d'), e) ↦
              let stage =
                (Then-Looks d _ (j, parent, d') e (get_layer-Looks cairo d layer.parent_index v)) in
              rw (get_depth, child, e)
                (deeper d (get_depth cairo fuel d' (some parent)) (
                  later d d' (get_depth cairo fuel d' (some parent)) stage
                    (get_depth-Stage fuel d' (some parent) stage.valid)))
        ]
      ]
    where
      Then-Looks :
          (d : Display cairo) (o : Option (ℕ × Layer cairo × Display cairo))
          (r : ℕ × Layer cairo × Display cairo)
          → o ≡ some r
          → Looks cairo d o
          → Stage cairo d r.2
      Then-Looks d o r e h = (subst (Looks cairo d) e h).0

  comparator-Stage :
      (fuel : ℕ) (a b : Option ℕ) (d : Display cairo)
      → IsValid cairo d
      → Then (λ (r : ℤ × Display cairo). Stage cairo d r.1) (layer_comparator cairo fuel a b d)
  unfolding layer_comparator
  comparator-Stage fuel none none d v = itself d v
  comparator-Stage fuel none (some b) d v = itself d v
  comparator-Stage fuel (some a) none d v = itself d v
  comparator-Stage fuel (some a) (some b) d v = elim (Option-cases (d.layers a)) [
    | inl e ↦ rw (layer_comparator, e) tt
    | inr (la, e) ↦ elim (Option-cases (d.layers b)) [
      | inl e' ↦ rw (layer_comparator, e, e') tt
      | inr (lb, e') ↦ elim (Option-cases (get_depth cairo fuel d (some la))) [
        | inl f ↦ rw (layer_comparator, e, e', f) tt
        | inr ((n, d₁), f) ↦
            let first =
              Then-some (λ (r : ℕ × Display cairo). Stage cairo d r.1) _ (n, d₁) f
                (get_depth-Stage fuel d (some la) v) in
            elim (Option-cases (get_depth cairo fuel d₁ (some lb))) [
              | inl g ↦ rw (layer_comparator, e, e', f, g) tt
              | inr ((m, d₂), g) ↦
                  let second =
                    Then-some (λ (r : ℕ × Display cairo). Stage cairo d₁ r.1) _ (m, d₂) g
                      (get_depth-Stage fuel d₁ (some lb) first.valid) in
                  elim (Option-cases
                    (compare_layers n m la.parent_index lb.parent_index la.z lb.z)) [
                      | inl h ↦ rw (layer_comparator, e, e', f, g, h) tt
                      | inr (value, h) ↦
                          rw (layer_comparator, e, e', f, g, h)
                            (Stage-trans cairo d d₁ d₂ first second)
                    ]
            ]
      ]
    ]
  ]

  -- Whatever the context and the surface, what is drawn of the cursor is consistent.
  draw_cursor-Then :
      (cursor : Cursor cairo) (layer : Layer cairo)
      → LayerOk cairo layer
      → Then (LayerOk cairo) (draw_cursor cairo cursor layer)
  unfolding draw_cursor
  draw_cursor-Then cursor layer ok =
      let b = cursor.buffer in
      elim (Bool-cases (ltb_ℤ (pos 0) b.width && ltb_ℤ (pos 0) b.height)) [
        | inr e ↦ rw (draw_cursor, e) ok
        | inl e ↦ elim (Option-cases b.surface) [
          | inl f ↦ rw (draw_cursor, e, f) tt
          | inr (surface, f) ↦
              rw (draw_cursor, e, f)
                (with_context layer.frame.context (cursor_on cairo cursor surface layer)
                  (drawn-Ok cairo cursor surface layer ok))
        ]
      ]
    where
      with_context :
          (context : Bool) (new : Layer cairo)
          → LayerOk cairo new
          → Then (LayerOk cairo) (if_not_null context new)
      with_context true new h = h
      with_context false new h = tt

  render_cursor-Stage :
      (d : Display cairo) → IsValid cairo d → Then (λ d'. Stage cairo d d') (render_cursor cairo d)
  unfolding render_cursor
  render_cursor-Stage d v = elim (Bool-cases (hidden cairo d)) [
    | inl e ↦ rw (render_cursor, e) (itself d v)
    | inr e ↦ elim (Option-cases (get_layer cairo d (pos 0))) [
      | inl f ↦ rw (render_cursor, e, f) tt
      | inr ((i, layer, d'), f) ↦
          let (stage, ok, _, _) = subst (Looks cairo d) f (get_layer-Looks cairo d (pos 0) v) in
          elim (Option-cases (draw_cursor cairo d'.cursor layer)) [
            | inl g ↦ rw (render_cursor, e, f, g) tt
            | inr (new, g) ↦
                let drawn =
                  Then-some (LayerOk cairo) _ new g (draw_cursor-Then d'.cursor layer ok) in
                rw (render_cursor, e, f, g)
                  (Stage-trans cairo d d' _ stage (store-Stage cairo d' i new stage.valid drawn))
          ]
    ]
  ]

module _ (cairo : Cairo) (library : Qsort) where
  pub flatten-Stage :
      (fuel : ℕ) (d : Display cairo)
      → Permutes library
      → IsValid cairo d
      → Then (λ d'. Stage cairo d d') (flatten cairo library fuel d)
  unfolding flatten
  flatten-Stage fuel d moves v =
      let pointers = pointers_from cairo max_layers 0 d in
      elim (Option-cases (library.qsort (layer_comparator cairo fuel) pointers d)) [
        | inl e ↦ rw (flatten, e) tt
        | inr ((order, d₁), e) ↦
            let (perm, first) =
              moves.permutes (layer_comparator cairo fuel) (Stage cairo d) pointers d (order, d₁)
                (itself cairo d v)
                (λ a b t answer s f. Stage-trans cairo d t answer.1 s (
                  Then-some (λ (r : ℤ × Display cairo). Stage cairo t r.1) _ answer f
                    (comparator-Stage cairo fuel a b t s.valid)))
                e in
            let all =
              pointers-kept cairo d d₁ order first.kept
                (All-Perm (IsPointer cairo d) perm (pointers-IsPointer cairo d max_layers 0)) in
            let (d₂, reset, second, _) = reset_frames-Stage cairo order d₁ first.valid all in
            let (d₃, rendered, third, _) =
              render_layers-Stage cairo order d₂ second.valid
                (pointers-kept cairo d₁ d₂ order second.kept all) in
            let before =
              Stage-trans cairo d d₁ d₃ first (Stage-trans cairo d₁ d₂ d₃ second third) in
            rw (flatten, e, reset, rendered)
              (rest d₃ before (render_cursor cairo d₃) (render_cursor-Stage cairo d₃ third.valid))
      ]
    where
      rest :
          (d₃ : Display cairo)
          → Stage cairo d d₃
          → (o : Option (Display cairo)) → Then (λ d'. Stage cairo d₃ d') o
          → Then (λ d'. Stage cairo d d') o
      rest d₃ before none h = tt
      rest d₃ before (some d') h = Stage-trans cairo d d₃ d' before h
