-- ===== src/Display/Commands.antt =====
-- More handlers of src/guacenc/instruction-*.c: those that change layers, buffers and the cursor.
use guacenc.Base.Int.{ℤ, pos, ◌+ℤ◌, ◌-ℤ◌, leb_ℤ, neg}
use guacenc.Buffer.{
  Operator, source, Cairo, Buffer, Call, set_operator, set_source_surface, set_source_rgba,
  rectangle, fill, paint, draw, calls, resize,
}
use guacenc.Display.{
  store, Display, Place, of_layer, of_buffer, get_layer, free_layer, free_buffer,
  get_related_buffer, buffer_at, update_at,
}
use guacenc.Display.Handlers.{Tools, cairo_operator, fit_autosize}
use guacenc.Base.{ℕ, Bool, false, none, some, List, [], ◌∷◌, ◌==◌, if◌then◌else◌}

-- `src == dst`
unfoldable pub same_place : Place → Place → Bool
same_place (of_layer i) (of_layer j) = i == j
same_place (of_buffer i) (of_buffer j) = i == j
same_place a b = false

module _ (cairo : Cairo) (tools : Tools cairo) where
  open cairo use {Canvas, blank}
  open tools use {atoi}

  -- `guacenc_handle_size`
  unfoldable pub handle_size : Display cairo → List (List ℕ) → ℕ × Display cairo
  handle_size display (index ∷ width ∷ height ∷ more) =
      elim (get_related_buffer cairo display (atoi index)) [
        | none ↦ (1, display)
        | some (place, display') ↦
            (0, update_at cairo (λ b. resize cairo b (atoi width) (atoi height)) display' place)
      ]
  handle_size display argv = (1, display)

  -- `guacenc_handle_rect`
  unfoldable pub handle_rect : Display cairo → List (List ℕ) → ℕ × Display cairo
  handle_rect display (index ∷ x ∷ y ∷ width ∷ height ∷ more) =
      elim (get_related_buffer cairo display (atoi index)) [
        | none ↦ (1, display)
        | some (place, display') ↦
            let path = rectangle (atoi x) (atoi y) (atoi width) (atoi height) ∷ [] in
            let right = atoi x +ℤ atoi width in
            let bottom = atoi y +ℤ atoi height in
            (
              0,
              update_at cairo (λ b. draw cairo path (fit_autosize cairo tools right bottom b))
                  display' place,
            )
      ]
  handle_rect display argv = (1, display)

  -- `guacenc_handle_cfill`
  unfoldable pub handle_cfill : Display cairo → List (List ℕ) → ℕ × Display cairo
  handle_cfill display (mask ∷ index ∷ r ∷ g ∷ b ∷ a ∷ more) =
      elim (get_related_buffer cairo display (atoi index)) [
        | none ↦ (1, display)
        | some (place, display') ↦
            let filled =
              set_operator (cairo_operator (atoi mask))
              ∷ set_source_rgba (atoi r) (atoi g) (atoi b) (atoi a)
              ∷ fill
              ∷ [] in
            (0, update_at cairo (draw cairo filled) display' place)
      ]
  handle_cfill display argv = (1, display)

  -- What `guacenc_handle_copy` does once both buffers are known and the destination fits: within one
  -- buffer, it goes through a temporary surface.
  unfoldable pub copy_rectangle :
      Display cairo → Place → Place → ℤ → ℤ → ℤ → ℤ → Operator → ℤ → ℤ → Display cairo
  copy_rectangle display src dst sx sy width height operator dx dy =
      elim (buffer_at cairo display src).surface [
        | none ↦ display
        | some shown ↦
            let temporary =
              calls cairo
                (set_operator source ∷ set_source_surface shown (neg sx) (neg sy) ∷ paint ∷ [])
                (blank width height) in
            let drawn : List (Call Canvas) =
              set_operator operator
              ∷ (if same_place src dst
                  then set_source_surface temporary dx dy
                  else set_source_surface shown (dx -ℤ sx) (dy -ℤ sy))
              ∷ rectangle dx dy width height
              ∷ fill
              ∷ [] in
            update_at cairo (draw cairo drawn) display dst
      ]

  -- `guacenc_handle_copy`
  unfoldable pub handle_copy : Display cairo → List (List ℕ) → ℕ × Display cairo
  handle_copy display (sindex ∷ sx ∷ sy ∷ width ∷ height ∷ mask ∷ dindex ∷ dx ∷ dy ∷ more) =
      elim (get_related_buffer cairo display (atoi sindex)) [
        | none ↦ (1, display)
        | some (src, display') ↦ elim (get_related_buffer cairo display' (atoi dindex)) [
          | none ↦ (1, display')
          | some (dst, display'') ↦
              let right = atoi dx +ℤ atoi width in
              let bottom = atoi dy +ℤ atoi height in
              let fitted = update_at cairo (fit_autosize cairo tools right bottom) display'' dst in
              (
                0,
                copy_rectangle fitted src dst (atoi sx) (atoi sy) (atoi width) (atoi height)
                    (cairo_operator (atoi mask)) (atoi dx) (atoi dy),
              )
        ]
      ]
  handle_copy display argv = (1, display)

  -- `guacenc_handle_cursor`
  unfoldable pub handle_cursor : Display cairo → List (List ℕ) → ℕ × Display cairo
  handle_cursor display (hotspot_x ∷ hotspot_y ∷ sindex ∷ sx ∷ sy ∷ width ∷ height ∷ more) =
      elim (get_related_buffer cairo display (atoi sindex)) [
        | none ↦ (1, display)
        | some (src, display') ↦
            let cursor = display'.cursor in
            let sized : Buffer cairo = resize cairo cursor.buffer (atoi width) (atoi height) in
            let image : Buffer cairo = elim (buffer_at cairo display' src).surface [
              | none ↦ sized
              | some shown ↦
                  draw cairo
                    (set_operator source
                      ∷ set_source_surface shown (atoi sx) (atoi sy)
                      ∷ paint
                      ∷ [])
                    sized
            ] in
            (
              0,
              record display' {
                cursor = record cursor {
                  hotspot_x = atoi hotspot_x;
                  hotspot_y = atoi hotspot_y;
                  buffer = image;
                };
              },
            )
      ]
  handle_cursor display argv = (1, display)

  -- `guacenc_handle_move`
  unfoldable pub handle_move : Display cairo → List (List ℕ) → ℕ × Display cairo
  handle_move display (layer_index ∷ parent_index ∷ x ∷ y ∷ z ∷ more) =
      elim (get_layer cairo display (atoi layer_index)) [
        | none ↦ (1, display)
        | some (i, layer, display') ↦ elim (get_layer cairo display' (atoi parent_index)) [
          | none ↦ (1, display')
          | some (j, parent, display'') ↦
              let moved = record layer {
                parent_index = atoi parent_index;
                x = atoi x;
                y = atoi y;
                z = atoi z;
              } in
              (0, record display'' { layers = store display''.layers i (some moved) })
        ]
      ]
  handle_move display argv = (1, display)

  -- `guacenc_handle_shade`
  unfoldable pub handle_shade : Display cairo → List (List ℕ) → ℕ × Display cairo
  handle_shade display (index ∷ opacity ∷ more) = elim (get_layer cairo display (atoi index)) [
    | none ↦ (1, display)
    | some (i, layer, display') ↦
        let shaded = record layer { opacity = atoi opacity } in
        (0, record display' { layers = store display'.layers i (some shaded) })
  ]
  handle_shade display argv = (1, display)

  -- `guacenc_handle_dispose`
  unfoldable pub handle_dispose : Display cairo → List (List ℕ) → ℕ × Display cairo
  handle_dispose display (index ∷ more) =
      if leb_ℤ (pos 0) (atoi index)
      then free_layer cairo display (atoi index)
      else free_buffer cairo display (atoi index)
  handle_dispose display argv = (1, display)

  -- `guacenc_handle_transfer`, which draws nothing.
  unfoldable pub handle_transfer : Display cairo → List (List ℕ) → ℕ × Display cairo
  handle_transfer display (a ∷ b ∷ c ∷ d ∷ e ∷ f ∷ g ∷ h ∷ i ∷ more) = (0, display)
  handle_transfer display argv = (1, display)
