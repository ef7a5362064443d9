-- ===== src/Display/Handlers.antt =====
-- The handlers of the instructions that draw: src/guacenc/instruction-*.c, with `guacenc_image_stream_end`
-- and `guacenc_get_decoder` of src/guacenc/image-stream.c and `guacenc_display_cairo_operator` of
-- src/guacenc/display.c. A handler returns 0 or 1, and the display. `atoi` and the decoders of images,
-- which wrap libpng, libjpeg and libwebp, are parameters.
use guacenc.Base.Int.{ℤ, pos, negsuc, ◌+ℤ◌}
use guacenc.Base64.{decode_base64}
use guacenc.Buffer.{
  Operator, source, over, within, out, atop, dest_over, dest_in, dest_out, dest_atop, xor, add,
  Cairo, Buffer, set_operator, set_source_surface, rectangle, fill, draw, fit,
}
use guacenc.Display.{
  Format, png, jpeg, webp, ImageStream, receive, store, Display, Place, get_related_buffer,
  update_at, create_image_stream, get_image_stream,
}
use guacenc.Base.{
  ℕ, Bool, true, false, ◌&&◌, Option, none, some, List, [], ◌∷◌, ◌==◌, if◌then◌else◌, get_or,
}

-- `guacenc_display_cairo_operator`: the operators by channel mask, from 0 to 15.
abbrev operators : List Operator
operators =
    over ∷ dest_in ∷ dest_out ∷ over ∷ within ∷ over ∷ atop ∷ over ∷ out ∷ dest_atop ∷ xor
    ∷ dest_over ∷ source ∷ over ∷ over ∷ add ∷ []

unfoldable pub cairo_operator : ℤ → Operator
cairo_operator (pos mask) = get_or operators mask over
cairo_operator (negsuc n) = over

abbrev same_string : List ℕ → List ℕ → Bool
same_string [] [] = true
same_string [] (b ∷ t) = false
same_string (a ∷ s) [] = false
same_string (a ∷ s) (b ∷ t) = (a == b) && same_string s t

abbrev image_slash : List ℕ → List ℕ
image_slash rest = b'i' ∷ b'm' ∷ b'a' ∷ b'g' ∷ b'e' ∷ b'/' ∷ rest

-- The tools around the handlers: whether webp is built in, the decoder of each format, which gives a
-- surface with its width and height, and `atoi`.
pub record Tools (cairo : Cairo) : Type 0 where
  pub enable_webp : Bool
  pub decode : Format → List ℕ → Option (cairo.Canvas × ℤ × ℤ)
  pub atoi : List ℕ → ℤ

module _ (cairo : Cairo) (tools : Tools cairo) where
  open cairo use {Canvas, blank}
  open tools use {atoi, decode}

  -- `guacenc_get_decoder`
  unfoldable pub get_decoder : List ℕ → Option Format
  get_decoder mimetype =
      if same_string (image_slash (b'p' ∷ b'n' ∷ b'g' ∷ [])) mimetype
      then some png
      else if same_string (image_slash (b'j' ∷ b'p' ∷ b'e' ∷ b'g' ∷ [])) mimetype
      then some jpeg
      else if tools.enable_webp
          && same_string (image_slash (b'w' ∷ b'e' ∷ b'b' ∷ b'p' ∷ [])) mimetype
      then some webp
      else none

  -- `if (buffer->autosize) guacenc_buffer_fit(buffer, x, y);`
  unfoldable pub fit_autosize : ℤ → ℤ → Buffer cairo → Buffer cairo
  fit_autosize x y buffer = elim buffer.autosize [ true ↦ fit cairo buffer x y | false ↦ buffer ]

  -- `guacenc_image_stream_end` at the buffer of a place.
  unfoldable pub end_image_stream : Display cairo → ImageStream → Place → ℕ × Display cairo
  end_image_stream display stream place = elim stream.decoder [
    | none ↦ (0, display)
    | some format ↦ elim (decode format stream.buffer) [
      | none ↦ (1, display)
      | some (surface, width, height) ↦
          let x = stream.x in
          let y = stream.y in
          let drawn =
            set_operator (cairo_operator stream.mask)
            ∷ set_source_surface surface x y
            ∷ rectangle x y width height
            ∷ fill
            ∷ [] in
          (
            0,
            update_at cairo (λ b. draw cairo drawn (fit_autosize (x +ℤ width) (y +ℤ height) b))
                display place,
          )
    ]
  ]

  -- `guacenc_handle_blob`
  unfoldable pub handle_blob : Display cairo → List (List ℕ) → ℕ × Display cairo
  handle_blob display (index ∷ data_base64 ∷ more) =
      elim (get_image_stream cairo display (atoi index)) [
        | none ↦ (1, display)
        | some (i, stream) ↦
            let stream' = receive stream (decode_base64 data_base64) in
            (0, record display { image_streams = store display.image_streams i (some stream') })
      ]
  handle_blob display argv = (1, display)

  -- `guacenc_handle_img`
  unfoldable pub handle_img : Display cairo → List (List ℕ) → ℕ × Display cairo
  handle_img display (stream_index ∷ mask ∷ layer_index ∷ mimetype ∷ x ∷ y ∷ more) =
      create_image_stream cairo display (atoi stream_index) (atoi mask) (atoi layer_index)
        (get_decoder mimetype) (atoi x) (atoi y)
  handle_img display argv = (1, display)

  -- `guacenc_handle_end`
  unfoldable pub handle_end : Display cairo → List (List ℕ) → ℕ × Display cairo
  handle_end display (index ∷ more) = elim (get_image_stream cairo display (atoi index)) [
    | none ↦ (1, display)
    | some (i, stream) ↦ elim (get_related_buffer cairo display stream.index) [
      | none ↦ (1, display)
      | some (place, display') ↦ end_image_stream display' stream place
    ]
  ]
  handle_end display argv = (1, display)
