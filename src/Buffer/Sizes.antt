-- ===== src/Buffer/Sizes.antt =====
-- The size of a buffer and its image: src/guacenc/buffer.c.
use guacenc.Base.{
  ◌&&◌, ◌↔◌, ◌≡◌, refl, sym, ap, ◌∙◌, inl, inr, Bool, true, false, not, Option, none, some, List,
  [], ◌∷◌, arith, Bool-cases, Option-cases,
}
use mathlib.Core.Option
use guacenc.Base.Int.{ℤ, pos, ◌+ℤ◌, ◌*ℤ◌, ◌<ℤ◌, ◌≤ℤ◌, eqb_ℤ→eq}
use guacenc.Buffer.{
  over, paint, set_source_surface, source, set_operator, reset_clip, Cairo, Buffer, Call, alloc,
  calls, draw, free_image, reallocate, same_size, no_pixels, resize, at_least, fit, copy,
}

abbrev pub is_some {ℓ} : {A : Type ℓ} → Option A → Bool
is_some none = false
is_some (some a) = true

is_some-map {ℓ κ} :
    {A : Type ℓ} {B : Type κ} (f : A → B) (o : Option A) → is_some (Option.map f o) ≡ is_some o
is_some-map f none = refl
is_some-map f (some a) = refl

is_some-drawn {ℓ} :
    {A : Type ℓ} (f : A → A) (b : Bool) (o : Option A)
    → is_some (elim b as (λ x. Option A) [ false ↦ o | true ↦ Option.map f o ]) ≡ is_some o
is_some-drawn f true o = is_some-map f o
is_some-drawn f false o = refl

same_size-eq : (a b w h : ℤ) → same_size a b w h ≡ true → (a ≡ w) × (b ≡ h)
unfolding same_size
same_size-eq a b w h e = (eqb_ℤ→eq a w (ground arith), eqb_ℤ→eq b h (ground arith))

module _ (cairo : Cairo) where
  open cairo use {Canvas}

  -- Whether neither side is 0.
  abbrev pub has_pixels : ℤ → ℤ → Bool
  has_pixels width height = not (no_pixels width height)

  -- The surface and the context exist exactly when neither side is 0, and the image when moreover its
  -- bytes could be allocated.
  pub record IsConsistent (b : Buffer cairo) : Type 0 where
    pub image_iff : b.image ≡ (has_pixels b.width b.height && cairo.calloc (b.stride *ℤ b.height))
    pub surface_iff : is_some b.surface ≡ has_pixels b.width b.height
    pub context_iff : b.context ≡ has_pixels b.width b.height

  pub alloc-IsConsistent : IsConsistent (alloc cairo)
  unfolding no_pixels
  alloc-IsConsistent = record { image_iff = refl; surface_iff = refl; context_iff = refl }

  pub draw-IsConsistent :
      (cs : List (Call Canvas)) (b : Buffer cairo) → IsConsistent b → IsConsistent (draw cairo cs b)
  unfolding draw
  draw-IsConsistent cs b ok = record {
    image_iff = ok.image_iff;
    surface_iff = is_some-drawn (calls cairo cs) b.context b.surface ∙ ok.surface_iff;
    context_iff = ok.context_iff;
  }

  pub draw-size :
      (cs : List (Call Canvas)) (b : Buffer cairo)
      → ((draw cairo cs b).width ≡ b.width)
        × ((draw cairo cs b).height ≡ b.height)
        × ((draw cairo cs b).autosize ≡ b.autosize)
  unfolding draw
  draw-size cs b = (refl, refl, refl)

  pub resize-IsConsistent :
      (b : Buffer cairo) (width height : ℤ)
      → IsConsistent b
      → IsConsistent (resize cairo b width height)
  unfolding resize free_image reallocate
  resize-IsConsistent b width height ok =
      elim (Bool-cases (same_size b.width b.height width height)) [
        | inl same ↦ rw same ok
        | inr other ↦ elim (Bool-cases (no_pixels width height)) [
          | inl empty ↦
              let e : has_pixels width height ≡ false = rw empty in
              let none_left = ap (λ x. x && cairo.calloc (pos 0 *ℤ height)) (sym e) in
              rw (other, empty)
                record { image_iff = none_left; surface_iff = sym e; context_iff = sym e }
          | inr full ↦
              let e : has_pixels width height ≡ true = rw full in
              let allocated =
                ap (λ x. x && cairo.calloc (cairo.stride_for_width width *ℤ height)) (sym e) in
              rw (other, full)
                record { image_iff = allocated; surface_iff = sym e; context_iff = sym e }
        ]
      ]

  pub resize-size :
      (b : Buffer cairo) (width height : ℤ)
      → ((resize cairo b width height).width ≡ width)
        × ((resize cairo b width height).height ≡ height)
        × ((resize cairo b width height).autosize ≡ b.autosize)
  unfolding resize free_image reallocate
  resize-size b width height = elim (Bool-cases (same_size b.width b.height width height)) [
    | inl same ↦
        let (w, h) = same_size-eq b.width b.height width height same in rw same (w, h, refl)
    | inr other ↦ elim (Bool-cases (no_pixels width height)) [
      | inl empty ↦ rw (other, empty) (refl, refl, refl)
      | inr full ↦ rw (other, full) (refl, refl, refl)
    ]
  ]

  pub fit-IsConsistent :
      (b : Buffer cairo) (x y : ℤ) → IsConsistent b → IsConsistent (fit cairo b x y)
  unfolding fit
  fit-IsConsistent b x y ok =
      let w = at_least cairo b.width x in
      let h = at_least cairo b.height y in
      elim (Bool-cases (same_size b.width b.height w h)) [
        | inl same ↦ rw (fit, same) ok
        | inr other ↦ rw (fit, other) (resize-IsConsistent b w h ok)
      ]

  pub fit_lem :
      (b : Buffer cairo) (x y : ℤ)
      → ((fit cairo b x y).width ≡ at_least cairo b.width x)
        × ((fit cairo b x y).height ≡ at_least cairo b.height y)
        × ((fit cairo b x y).autosize ≡ b.autosize)
  unfolding fit
  fit_lem b x y =
      let w = at_least cairo b.width x in
      let h = at_least cairo b.height y in
      elim (Bool-cases (same_size b.width b.height w h)) [
        | inl same ↦
            let (ew, eh) = same_size-eq b.width b.height w h same in rw (fit, same) (ew, eh, refl)
        | inr other ↦ rw (fit, other) (resize-size b w h)
      ]

  at_least_lem : (size x : ℤ) → (x <ℤ at_least cairo size x) × (size ≤ℤ at_least cairo size x)
  unfolding at_least ◌+ℤ◌
  at_least_lem size x = ground arith

  at_least-least : (size x n : ℤ) → (at_least cairo size x ≤ℤ n) ↔ ((x <ℤ n) × (size ≤ℤ n))
  unfolding at_least ◌+ℤ◌
  at_least-least size x n = ground arith

  -- Fitting a point makes each side of the buffer just large enough: the new side is beyond the point and
  -- not below the old one, any length is at least the new side exactly when it is beyond the point and
  -- not below the old side; `autosize` is kept.
  pub fit-size :
      (b : Buffer cairo) (x y n : ℤ)
      → (x <ℤ (fit cairo b x y).width)
        × (y <ℤ (fit cairo b x y).height)
        × (b.width ≤ℤ (fit cairo b x y).width)
        × (b.height ≤ℤ (fit cairo b x y).height)
        × (((fit cairo b x y).width ≤ℤ n) ↔ ((x <ℤ n) × (b.width ≤ℤ n)))
        × (((fit cairo b x y).height ≤ℤ n) ↔ ((y <ℤ n) × (b.height ≤ℤ n)))
        × ((fit cairo b x y).autosize ≡ b.autosize)
  fit-size b x y n =
      let (w, h, a) = fit_lem b x y in
      let (xw, ww) = at_least_lem b.width x in
      let (yh, hh) = at_least_lem b.height y in
      rw (w, h) (xw, yh, ww, hh, at_least-least b.width x n, at_least-least b.height y n, a)

  -- Between buffers that have a surface and a context exactly when no side is 0, and an image when its
  -- bytes could be allocated too, copying never fails its assertion; the destination stays such a buffer, gets the
  -- size of the source, and keeps `autosize`.
  pub copy_lem :
      (dst src : Buffer cairo)
      → IsConsistent dst
      → IsConsistent src
      → (b : Buffer cairo) × (copy cairo dst src ≡ some b)
        × IsConsistent b
        × (b.width ≡ src.width)
        × (b.height ≡ src.height)
        × (b.autosize ≡ dst.autosize)
  unfolding copy
  copy_lem dst src d s =
      let dst' = resize cairo dst src.width src.height in
      let (w, h, a) = resize-size dst src.width src.height in
      let ok = resize-IsConsistent dst src.width src.height d in
      elim (Option-cases src.surface) [
        | inl missing ↦ (dst', rw (copy, missing), ok, w, h, a)
        | inr (shown, found) ↦
            let full : has_pixels src.width src.height ≡ true =
              sym s.surface_iff ∙ ap is_some found in
            let on : dst'.context ≡ true = ok.context_iff ∙ rw (w, h) full in
            let cs =
              reset_clip
              ∷ set_operator source
              ∷ set_source_surface shown (pos 0) (pos 0)
              ∷ paint
              ∷ set_operator over
              ∷ [] in
            let (dw, dh, da) = draw-size cs dst' in
            (
              draw cairo cs dst',
              rw (copy, found) (simp on),
              draw-IsConsistent cs dst' ok,
              dw ∙ w,
              dh ∙ h,
              da ∙ a,
            )
      ]
