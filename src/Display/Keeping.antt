-- ===== src/Display/Keeping.antt =====
-- What handlers do to buffers, layers, streams and the cursor keeps the display well-formed.
use guacenc.Base.Int.{ℤ, ◌+ℤ◌}
use mathlib.Core.Path.{subst}
use mathlib.Core.Option.{none-ne-some, some_inj}
use guacenc.Buffer.{Operator, Cairo, Call, draw, resize, fit}
use guacenc.Buffer.Sizes.{
  IsConsistent, draw-IsConsistent, draw-size, resize-IsConsistent, resize-size, fit-IsConsistent,
  fit_lem,
}
use guacenc.Display.{
  store, Cursor, slot, Display, ImageStream, Place, receive, get_image_stream, free_layer,
  free_buffer, internal_index, max_streams, max_layers, max_buffers, buffer_at,
}
use guacenc.Display.Consistency.{
  IsValid, Keeps, LayerOk, BufferOk, StreamOk, store-some, store-none, update_at-IsValid,
}
use guacenc.Display.Handlers.{Tools, end_image_stream, fit_autosize}
use guacenc.Display.Commands.{copy_rectangle}
use guacenc.Base.{
  ℕ, ◌≡◌, refl, ap, ◌∙◌, inl, inr, Bool, true, false, some, List, arith, Option-cases,
  length-append,
}

module _ (cairo : Cairo) (tools : Tools cairo) where
  open cairo use {Canvas}
  open tools use {atoi}

  pub resize-Keeps : (width height : ℤ) → Keeps cairo (λ b. resize cairo b width height)
  resize-Keeps width height b ok =
      let (w, h, a) = resize-size cairo b width height in
      (resize-IsConsistent cairo b width height ok, a)

  pub draw-Keeps : (cs : List (Call Canvas)) → Keeps cairo (draw cairo cs)
  draw-Keeps cs b ok = let (w, h, a) = draw-size cairo cs b in (draw-IsConsistent cairo cs b ok, a)

  pub chosen-Keeps :
      (c : Bool) (x y : ℤ) → Keeps cairo (λ b. elim c [ true ↦ fit cairo b x y | false ↦ b ])
  chosen-Keeps true x y b ok =
      let (w, h, a) = fit_lem cairo b x y in (fit-IsConsistent cairo b x y ok, a)
  chosen-Keeps false x y b ok = (ok, refl)

  pub fit_autosize-Keeps : (x y : ℤ) → Keeps cairo (fit_autosize cairo tools x y)
  unfolding fit_autosize
  fit_autosize-Keeps x y b ok = chosen-Keeps b.autosize x y b ok

  pub fitted-Keeps :
      (x y : ℤ) (cs : List (Call Canvas))
      → Keeps cairo (λ b. draw cairo cs (fit_autosize cairo tools x y b))
  fitted-Keeps x y cs b ok =
      let (ok', same) = fit_autosize-Keeps x y b ok in
      let (ok'', same') = draw-Keeps cs _ ok' in (ok'', same' ∙ same)

  pub cursor-IsValid :
      (d : Display cairo) (c : Cursor cairo)
      → IsValid cairo d
      → IsConsistent cairo c.buffer
      → IsValid cairo (record d { cursor = c })
  cursor-IsValid d c v ok = record {
    layers_ok = v.layers_ok;
    buffers_ok = v.buffers_ok;
    streams_ok = v.streams_ok;
    cursor_ok = ok;
  }

  pub stream-IsValid :
      (d : Display cairo) (i : ℕ) (stream : ImageStream)
      → IsValid cairo d
      → StreamOk cairo stream
      → IsValid cairo (record d { image_streams = store d.image_streams i (some stream) })
  stream-IsValid d i stream v ok = record {
    layers_ok = v.layers_ok;
    buffers_ok = v.buffers_ok;
    streams_ok = store-some {P = StreamOk cairo} d.image_streams i stream v.streams_ok ok;
    cursor_ok = v.cursor_ok;
  }

  pub receive-Ok :
      (stream : ImageStream) (bytes : List ℕ)
      → StreamOk cairo stream
      → StreamOk cairo (receive stream bytes)
  unfolding receive
  receive-Ok stream bytes ok = ground (arith, ok, length-append stream.buffer bytes)

  pub free_layer-IsValid :
      (d : Display cairo) (index : ℤ) → IsValid cairo d → IsValid cairo (free_layer cairo d index).1
  unfolding free_layer
  free_layer-IsValid d index v = elim (Option-cases (slot index max_layers)) [
    | inl e ↦ rw (free_layer, e) v
    | inr (i, e) ↦
        rw (free_layer, e)
          record {
            layers_ok = store-none {P = LayerOk cairo} d.layers i v.layers_ok;
            buffers_ok = v.buffers_ok;
            streams_ok = v.streams_ok;
            cursor_ok = v.cursor_ok;
          }
  ]

  pub free_buffer-IsValid :
      (d : Display cairo) (index : ℤ)
      → IsValid cairo d
      → IsValid cairo (free_buffer cairo d index).1
  unfolding free_buffer
  free_buffer-IsValid d index v = elim (Option-cases (slot (internal_index index) max_buffers)) [
    | inl e ↦ rw (free_buffer, e) v
    | inr (i, e) ↦
        rw (free_buffer, e)
          record {
            layers_ok = v.layers_ok;
            buffers_ok = store-none {P = BufferOk cairo} d.buffers i v.buffers_ok;
            streams_ok = v.streams_ok;
            cursor_ok = v.cursor_ok;
          }
  ]

  pub copy_rectangle-IsValid :
      (d : Display cairo) (src dst : Place) (sx sy width height : ℤ) (operator : Operator)
      (dx dy : ℤ)
      → IsValid cairo d
      → IsValid cairo (copy_rectangle cairo tools d src dst sx sy width height operator dx dy)
  unfolding copy_rectangle
  copy_rectangle-IsValid d src dst sx sy width height operator dx dy v =
      elim (Option-cases (buffer_at cairo d src).surface) [
        | inl e ↦ rw (copy_rectangle, e) v
        | inr (shown, e) ↦ rw (copy_rectangle, e) (update_at-IsValid cairo _ d dst (draw-Keeps _) v)
      ]

  pub end_image_stream-IsValid :
      (d : Display cairo) (stream : ImageStream) (place : Place)
      → IsValid cairo d
      → IsValid cairo (end_image_stream cairo tools d stream place).1
  unfolding end_image_stream
  end_image_stream-IsValid d stream place v = elim (Option-cases stream.decoder) [
    | inl e ↦ rw (end_image_stream, e) v
    | inr (format, e) ↦ elim (Option-cases (tools.decode format stream.buffer)) [
      | inl bad ↦ rw (end_image_stream, e, bad) v
      | inr ((surface, width, height), good) ↦
          rw (end_image_stream, e, good)
            (update_at-IsValid cairo _ d place
              (fitted-Keeps (stream.x +ℤ width) (stream.y +ℤ height) _) v)
    ]
  ]

  pub get_image_stream-Ok :
      (d : Display cairo) (index : ℤ) (i : ℕ) (stream : ImageStream)
      → IsValid cairo d
      → get_image_stream cairo d index ≡ some (i, stream)
      → StreamOk cairo stream
  unfolding get_image_stream
  get_image_stream-Ok d index i stream v e = elim (Option-cases (slot index max_streams)) [
    | inl missing ↦ absurd (none-ne-some _ (rw (get_image_stream, missing) at e))
    | inr (j, found) ↦ elim (Option-cases (d.image_streams j)) [
      | inl free ↦ absurd (none-ne-some _ (rw (get_image_stream, found, free) at e))
      | inr (other, there) ↦
          let same : some (j, other) ≡ some (i, stream) =
            rw (get_image_stream, found, there) at e in
          subst (StreamOk cairo) (ap (λ p. p.1) (some_inj.0 same)) (v.streams_ok j other there)
    ]
  ]
