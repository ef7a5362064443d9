-- ===== src/Display/Reachable.antt =====
-- What the drawing instructions of a recording keep of the display, and the display at its start.
use guacenc.Buffer.{Cairo}
use guacenc.Buffer.Sizes.{alloc-IsConsistent}
use guacenc.Display.{Display}
use guacenc.Display.Consistency.{IsValid}
use guacenc.Display.Handlers.{Tools}
use guacenc.Display.Dispatch.{
  Opcode, blob, img, end, cursor, copy, transfer, size, rect, cfill, move, shade, dispose, unknown,
  handle_instruction, display_alloc,
}
use guacenc.Display.Preservation.{
  handle_blob-IsValid, handle_img-IsValid, handle_end-IsValid, handle_cursor-IsValid,
  handle_copy-IsValid, handle_transfer-IsValid, handle_size-IsValid, handle_rect-IsValid,
  handle_cfill-IsValid, handle_move-IsValid, handle_shade-IsValid, handle_dispose-IsValid,
}
use mathlib.Core.Option.{none-ne-some}
use guacenc.Base.{ℕ, List}

module _ (cairo : Cairo) (tools : Tools cairo) where
  -- Whatever its arguments, and whether it succeeds or fails, an instruction keeps the display well-formed:
  -- each buffer, layer frame and cursor image has its surface and context exactly when no side is 0, buffers size themselves, and no image stream holds more bytes than its room.
  pub handle_instruction-IsValid :
      (d : Display cairo) (opcode : Opcode) (argv : List (List ℕ))
      → IsValid cairo d
      → IsValid cairo (handle_instruction cairo tools d opcode argv).1
  unfolding handle_instruction
  handle_instruction-IsValid d blob argv v = handle_blob-IsValid cairo tools d argv v
  handle_instruction-IsValid d img argv v = handle_img-IsValid cairo tools d argv v
  handle_instruction-IsValid d end argv v = handle_end-IsValid cairo tools d argv v
  handle_instruction-IsValid d cursor argv v = handle_cursor-IsValid cairo tools d argv v
  handle_instruction-IsValid d copy argv v = handle_copy-IsValid cairo tools d argv v
  handle_instruction-IsValid d transfer argv v = handle_transfer-IsValid cairo tools d argv v
  handle_instruction-IsValid d size argv v = handle_size-IsValid cairo tools d argv v
  handle_instruction-IsValid d rect argv v = handle_rect-IsValid cairo tools d argv v
  handle_instruction-IsValid d cfill argv v = handle_cfill-IsValid cairo tools d argv v
  handle_instruction-IsValid d move argv v = handle_move-IsValid cairo tools d argv v
  handle_instruction-IsValid d shade argv v = handle_shade-IsValid cairo tools d argv v
  handle_instruction-IsValid d dispose argv v = handle_dispose-IsValid cairo tools d argv v
  handle_instruction-IsValid d unknown argv v = v

  pub display_alloc-IsValid : IsValid cairo (display_alloc cairo)
  unfolding display_alloc
  display_alloc-IsValid = record {
    layers_ok = λ i a e. absurd (none-ne-some a e);
    buffers_ok = λ i a e. absurd (none-ne-some a e);
    streams_ok = λ i a e. absurd (none-ne-some a e);
    cursor_ok = alloc-IsConsistent cairo;
  }
