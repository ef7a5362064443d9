-- ===== src/Display/Preservation.antt =====
-- Every handler keeps the display well-formed.
use guacenc.Base.Int.{pos, ◌+ℤ◌, leb_ℤ}
use guacenc.Buffer.{Cairo}
use guacenc.Buffer.Sizes.{draw-IsConsistent, resize-IsConsistent}
use guacenc.Display.{
  slot, Display, get_layer, get_related_buffer, get_image_stream, create_image_stream, max_streams,
  buffer_at,
}
use guacenc.Display.Consistency.{
  IsValid, store_layer-IsValid, get_layer-Gives, get_related_buffer-GivesPlace, update_at-IsValid,
}
use guacenc.Display.Handlers.{Tools, handle_blob, handle_img, handle_end}
use guacenc.Display.Commands.{
  handle_size, handle_rect, handle_cfill, handle_copy, handle_cursor, handle_move, handle_shade,
  handle_dispose, handle_transfer,
}
use guacenc.Display.Keeping.{
  resize-Keeps, draw-Keeps, fit_autosize-Keeps, cursor-IsValid, stream-IsValid, receive-Ok,
  free_layer-IsValid, free_buffer-IsValid, copy_rectangle-IsValid, end_image_stream-IsValid,
  get_image_stream-Ok,
}
use guacenc.Base.{ℕ, ◌∙◌, inl, inr, List, [], ◌∷◌, arith, Bool-cases, Option-cases}

module _ (cairo : Cairo) (tools : Tools cairo) where
  open cairo use {Canvas}
  open tools use {atoi}

  pub handle_size-IsValid :
      (d : Display cairo) (argv : List (List ℕ))
      → IsValid cairo d
      → IsValid cairo (handle_size cairo tools d argv).1
  unfolding handle_size
  handle_size-IsValid d [] v = v
  handle_size-IsValid d (a0 ∷ []) v = v
  handle_size-IsValid d (a0 ∷ a1 ∷ []) v = v
  handle_size-IsValid d (a0 ∷ a1 ∷ a2 ∷ more) v =
      elim (Option-cases (get_related_buffer cairo d (atoi a0))) [
        | inl e ↦ rw (handle_size, e) v
        | inr ((place, d'), e) ↦
            let v' = rw e at (get_related_buffer-GivesPlace cairo d (atoi a0) v) in
            rw (handle_size, e)
              (update_at-IsValid cairo _ d' place (resize-Keeps cairo tools (atoi a1) (atoi a2)) v')
      ]

  pub handle_rect-IsValid :
      (d : Display cairo) (argv : List (List ℕ))
      → IsValid cairo d
      → IsValid cairo (handle_rect cairo tools d argv).1
  unfolding handle_rect
  handle_rect-IsValid d [] v = v
  handle_rect-IsValid d (a0 ∷ []) v = v
  handle_rect-IsValid d (a0 ∷ a1 ∷ []) v = v
  handle_rect-IsValid d (a0 ∷ a1 ∷ a2 ∷ []) v = v
  handle_rect-IsValid d (a0 ∷ a1 ∷ a2 ∷ a3 ∷ []) v = v
  handle_rect-IsValid d (a0 ∷ a1 ∷ a2 ∷ a3 ∷ a4 ∷ more) v =
      elim (Option-cases (get_related_buffer cairo d (atoi a0))) [
        | inl e ↦ rw (handle_rect, e) v
        | inr ((place, d'), e) ↦
            let v' = rw e at (get_related_buffer-GivesPlace cairo d (atoi a0) v) in
            rw (handle_rect, e)
              (update_at-IsValid cairo _ d' place
                (λ b ok.
                  let (ok', same) =
                    fit_autosize-Keeps cairo tools (atoi a1 +ℤ atoi a3) (atoi a2 +ℤ atoi a4) b ok in
                  let (ok'', same') = draw-Keeps cairo tools _ _ ok' in (ok'', same' ∙ same))
                v')
      ]

  pub handle_cfill-IsValid :
      (d : Display cairo) (argv : List (List ℕ))
      → IsValid cairo d
      → IsValid cairo (handle_cfill cairo tools d argv).1
  unfolding handle_cfill
  handle_cfill-IsValid d [] v = v
  handle_cfill-IsValid d (a0 ∷ []) v = v
  handle_cfill-IsValid d (a0 ∷ a1 ∷ []) v = v
  handle_cfill-IsValid d (a0 ∷ a1 ∷ a2 ∷ []) v = v
  handle_cfill-IsValid d (a0 ∷ a1 ∷ a2 ∷ a3 ∷ []) v = v
  handle_cfill-IsValid d (a0 ∷ a1 ∷ a2 ∷ a3 ∷ a4 ∷ []) v = v
  handle_cfill-IsValid d (a0 ∷ a1 ∷ a2 ∷ a3 ∷ a4 ∷ a5 ∷ more) v =
      elim (Option-cases (get_related_buffer cairo d (atoi a1))) [
        | inl e ↦ rw (handle_cfill, e) v
        | inr ((place, d'), e) ↦
            let v' = rw e at (get_related_buffer-GivesPlace cairo d (atoi a1) v) in
            rw (handle_cfill, e) (update_at-IsValid cairo _ d' place (draw-Keeps cairo tools _) v')
      ]

  pub handle_cursor-IsValid :
      (d : Display cairo) (argv : List (List ℕ))
      → IsValid cairo d
      → IsValid cairo (handle_cursor cairo tools d argv).1
  unfolding handle_cursor
  handle_cursor-IsValid d [] v = v
  handle_cursor-IsValid d (a0 ∷ []) v = v
  handle_cursor-IsValid d (a0 ∷ a1 ∷ []) v = v
  handle_cursor-IsValid d (a0 ∷ a1 ∷ a2 ∷ []) v = v
  handle_cursor-IsValid d (a0 ∷ a1 ∷ a2 ∷ a3 ∷ []) v = v
  handle_cursor-IsValid d (a0 ∷ a1 ∷ a2 ∷ a3 ∷ a4 ∷ []) v = v
  handle_cursor-IsValid d (a0 ∷ a1 ∷ a2 ∷ a3 ∷ a4 ∷ a5 ∷ []) v = v
  handle_cursor-IsValid d (a0 ∷ a1 ∷ a2 ∷ a3 ∷ a4 ∷ a5 ∷ a6 ∷ more) v =
      elim (Option-cases (get_related_buffer cairo d (atoi a2))) [
        | inl e ↦ rw (handle_cursor, e) v
        | inr ((src, d'), e) ↦
            let v' = rw e at (get_related_buffer-GivesPlace cairo d (atoi a2) v) in
            let sized =
              resize-IsConsistent cairo d'.cursor.buffer (atoi a5) (atoi a6) v'.cursor_ok in
            elim (Option-cases (buffer_at cairo d' src).surface) [
              | inl s ↦ rw (handle_cursor, e, s) (cursor-IsValid cairo tools d' _ v' sized)
              | inr (shown, s) ↦
                  rw (handle_cursor, e, s)
                    (cursor-IsValid cairo tools d' _ v' (draw-IsConsistent cairo _ _ sized))
            ]
      ]

  pub handle_copy-IsValid :
      (d : Display cairo) (argv : List (List ℕ))
      → IsValid cairo d
      → IsValid cairo (handle_copy cairo tools d argv).1
  unfolding handle_copy
  handle_copy-IsValid d [] v = v
  handle_copy-IsValid d (a0 ∷ []) v = v
  handle_copy-IsValid d (a0 ∷ a1 ∷ []) v = v
  handle_copy-IsValid d (a0 ∷ a1 ∷ a2 ∷ []) v = v
  handle_copy-IsValid d (a0 ∷ a1 ∷ a2 ∷ a3 ∷ []) v = v
  handle_copy-IsValid d (a0 ∷ a1 ∷ a2 ∷ a3 ∷ a4 ∷ []) v = v
  handle_copy-IsValid d (a0 ∷ a1 ∷ a2 ∷ a3 ∷ a4 ∷ a5 ∷ []) v = v
  handle_copy-IsValid d (a0 ∷ a1 ∷ a2 ∷ a3 ∷ a4 ∷ a5 ∷ a6 ∷ []) v = v
  handle_copy-IsValid d (a0 ∷ a1 ∷ a2 ∷ a3 ∷ a4 ∷ a5 ∷ a6 ∷ a7 ∷ []) v = v
  handle_copy-IsValid d (a0 ∷ a1 ∷ a2 ∷ a3 ∷ a4 ∷ a5 ∷ a6 ∷ a7 ∷ a8 ∷ more) v =
      elim (Option-cases (get_related_buffer cairo d (atoi a0))) [
        | inl e ↦ rw (handle_copy, e) v
        | inr ((src, d'), e) ↦
            let v' = rw e at (get_related_buffer-GivesPlace cairo d (atoi a0) v) in
            elim (Option-cases (get_related_buffer cairo d' (atoi a6))) [
              | inl e' ↦ rw (handle_copy, e, e') v'
              | inr ((dst, d''), e') ↦
                  let v'' = rw e' at (get_related_buffer-GivesPlace cairo d' (atoi a6) v') in
                  let keeps =
                    fit_autosize-Keeps cairo tools (atoi a7 +ℤ atoi a3) (atoi a8 +ℤ atoi a4) in
                  rw (handle_copy, e, e')
                    (copy_rectangle-IsValid cairo tools _ src dst _ _ _ _ _ _ _
                      (update_at-IsValid cairo _ d'' dst keeps v''))
            ]
      ]

  pub handle_move-IsValid :
      (d : Display cairo) (argv : List (List ℕ))
      → IsValid cairo d
      → IsValid cairo (handle_move cairo tools d argv).1
  unfolding handle_move
  handle_move-IsValid d [] v = v
  handle_move-IsValid d (a0 ∷ []) v = v
  handle_move-IsValid d (a0 ∷ a1 ∷ []) v = v
  handle_move-IsValid d (a0 ∷ a1 ∷ a2 ∷ []) v = v
  handle_move-IsValid d (a0 ∷ a1 ∷ a2 ∷ a3 ∷ []) v = v
  handle_move-IsValid d (a0 ∷ a1 ∷ a2 ∷ a3 ∷ a4 ∷ more) v =
      elim (Option-cases (get_layer cairo d (atoi a0))) [
        | inl e ↦ rw (handle_move, e) v
        | inr ((i, layer, d'), e) ↦
            let (ok, v') = rw e at (get_layer-Gives cairo d (atoi a0) v) in
            elim (Option-cases (get_layer cairo d' (atoi a1))) [
              | inl e' ↦ rw (handle_move, e, e') v'
              | inr ((j, parent, d''), e') ↦
                  let (ok', v'') = rw e' at (get_layer-Gives cairo d' (atoi a1) v') in
                  rw (handle_move, e, e') (store_layer-IsValid cairo d'' i _ v'' ok)
            ]
      ]

  pub handle_shade-IsValid :
      (d : Display cairo) (argv : List (List ℕ))
      → IsValid cairo d
      → IsValid cairo (handle_shade cairo tools d argv).1
  unfolding handle_shade
  handle_shade-IsValid d [] v = v
  handle_shade-IsValid d (a0 ∷ []) v = v
  handle_shade-IsValid d (a0 ∷ a1 ∷ more) v = elim (Option-cases (get_layer cairo d (atoi a0))) [
    | inl e ↦ rw (handle_shade, e) v
    | inr ((i, layer, d'), e) ↦
        let (ok, v') = rw e at (get_layer-Gives cairo d (atoi a0) v) in
        rw (handle_shade, e) (store_layer-IsValid cairo d' i _ v' ok)
  ]

  pub handle_dispose-IsValid :
      (d : Display cairo) (argv : List (List ℕ))
      → IsValid cairo d
      → IsValid cairo (handle_dispose cairo tools d argv).1
  unfolding handle_dispose
  handle_dispose-IsValid d [] v = v
  handle_dispose-IsValid d (a0 ∷ more) v = elim (Bool-cases (leb_ℤ (pos 0) (atoi a0))) [
    | inl layer ↦ rw (handle_dispose, layer) (free_layer-IsValid cairo tools d (atoi a0) v)
    | inr buffer ↦ rw (handle_dispose, buffer) (free_buffer-IsValid cairo tools d (atoi a0) v)
  ]

  pub handle_transfer-IsValid :
      (d : Display cairo) (argv : List (List ℕ))
      → IsValid cairo d
      → IsValid cairo (handle_transfer cairo tools d argv).1
  unfolding handle_transfer
  handle_transfer-IsValid d [] v = v
  handle_transfer-IsValid d (a0 ∷ []) v = v
  handle_transfer-IsValid d (a0 ∷ a1 ∷ []) v = v
  handle_transfer-IsValid d (a0 ∷ a1 ∷ a2 ∷ []) v = v
  handle_transfer-IsValid d (a0 ∷ a1 ∷ a2 ∷ a3 ∷ []) v = v
  handle_transfer-IsValid d (a0 ∷ a1 ∷ a2 ∷ a3 ∷ a4 ∷ []) v = v
  handle_transfer-IsValid d (a0 ∷ a1 ∷ a2 ∷ a3 ∷ a4 ∷ a5 ∷ []) v = v
  handle_transfer-IsValid d (a0 ∷ a1 ∷ a2 ∷ a3 ∷ a4 ∷ a5 ∷ a6 ∷ []) v = v
  handle_transfer-IsValid d (a0 ∷ a1 ∷ a2 ∷ a3 ∷ a4 ∷ a5 ∷ a6 ∷ a7 ∷ []) v = v
  handle_transfer-IsValid d (a0 ∷ a1 ∷ a2 ∷ a3 ∷ a4 ∷ a5 ∷ a6 ∷ a7 ∷ a8 ∷ more) v = v

  pub handle_blob-IsValid :
      (d : Display cairo) (argv : List (List ℕ))
      → IsValid cairo d
      → IsValid cairo (handle_blob cairo tools d argv).1
  unfolding handle_blob
  handle_blob-IsValid d [] v = v
  handle_blob-IsValid d (a0 ∷ []) v = v
  handle_blob-IsValid d (a0 ∷ a1 ∷ more) v =
      elim (Option-cases (get_image_stream cairo d (atoi a0))) [
        | inl e ↦ rw (handle_blob, e) v
        | inr ((i, stream), e) ↦
            rw (handle_blob, e)
              (stream-IsValid cairo tools d i _ v (
                receive-Ok cairo tools stream _
                  (get_image_stream-Ok cairo tools d (atoi a0) i stream v e)))
      ]

  pub handle_img-IsValid :
      (d : Display cairo) (argv : List (List ℕ))
      → IsValid cairo d
      → IsValid cairo (handle_img cairo tools d argv).1
  unfolding handle_img create_image_stream
  handle_img-IsValid d [] v = v
  handle_img-IsValid d (a0 ∷ []) v = v
  handle_img-IsValid d (a0 ∷ a1 ∷ []) v = v
  handle_img-IsValid d (a0 ∷ a1 ∷ a2 ∷ []) v = v
  handle_img-IsValid d (a0 ∷ a1 ∷ a2 ∷ a3 ∷ []) v = v
  handle_img-IsValid d (a0 ∷ a1 ∷ a2 ∷ a3 ∷ a4 ∷ []) v = v
  handle_img-IsValid d (a0 ∷ a1 ∷ a2 ∷ a3 ∷ a4 ∷ a5 ∷ more) v =
      elim (Option-cases (slot (atoi a0) max_streams)) [
        | inl e ↦ rw (handle_img, create_image_stream, e) v
        | inr (i, e) ↦
            rw (handle_img, create_image_stream, e)
              (stream-IsValid cairo tools d i _ v (ground arith))
      ]

  pub handle_end-IsValid :
      (d : Display cairo) (argv : List (List ℕ))
      → IsValid cairo d
      → IsValid cairo (handle_end cairo tools d argv).1
  unfolding handle_end
  handle_end-IsValid d [] v = v
  handle_end-IsValid d (a0 ∷ more) v = elim (Option-cases (get_image_stream cairo d (atoi a0))) [
    | inl e ↦ rw (handle_end, e) v
    | inr ((i, stream), e) ↦ elim (Option-cases (get_related_buffer cairo d stream.index)) [
      | inl e' ↦ rw (handle_end, e, e') v
      | inr ((place, d'), e') ↦
          let v' = rw e' at (get_related_buffer-GivesPlace cairo d stream.index v) in
          rw (handle_end, e, e') (end_image_stream-IsValid cairo tools d' stream place v')
    ]
  ]
