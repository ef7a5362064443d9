-- ===== src/Display/Dispatch.antt =====
-- The table of handlers, src/guacenc/instructions.c, without `mouse` and `sync`, which go on to the video.
use guacenc.Base.Int.{pos, negsuc}
use guacenc.Buffer.{Cairo, alloc}
use guacenc.Display.{Display}
use guacenc.Display.Handlers.{Tools, handle_blob, handle_img, handle_end}
use guacenc.Display.Commands.{
  handle_size, handle_rect, handle_cfill, handle_copy, handle_cursor, handle_move, handle_shade,
  handle_dispose, handle_transfer,
}
use guacenc.Base.{ℕ, none, List}

-- The opcodes of `guacenc_instruction_handler_map`, and one for those that it does not list.
pub data Opcode : Type 0 where
  blob : Opcode
  img : Opcode
  end : Opcode
  cursor : Opcode
  copy : Opcode
  transfer : Opcode
  size : Opcode
  rect : Opcode
  cfill : Opcode
  move : Opcode
  shade : Opcode
  dispose : Opcode
  unknown : Opcode

module _ (cairo : Cairo) (tools : Tools cairo) where
  -- `guacenc_handle_instruction`
  unfoldable pub handle_instruction : Display cairo → Opcode → List (List ℕ) → ℕ × Display cairo
  handle_instruction display blob argv = handle_blob cairo tools display argv
  handle_instruction display img argv = handle_img cairo tools display argv
  handle_instruction display end argv = handle_end cairo tools display argv
  handle_instruction display cursor argv = handle_cursor cairo tools display argv
  handle_instruction display copy argv = handle_copy cairo tools display argv
  handle_instruction display transfer argv = handle_transfer cairo tools display argv
  handle_instruction display size argv = handle_size cairo tools display argv
  handle_instruction display rect argv = handle_rect cairo tools display argv
  handle_instruction display cfill argv = handle_cfill cairo tools display argv
  handle_instruction display move argv = handle_move cairo tools display argv
  handle_instruction display shade argv = handle_shade cairo tools display argv
  handle_instruction display dispose argv = handle_dispose cairo tools display argv
  handle_instruction display unknown argv = (0, display)

module _ (cairo : Cairo) where
  -- The display of `guacenc_display_alloc`, with the cursor of `guacenc_cursor_alloc`: nothing is
  -- allocated in it. The hotspot is uninitialised memory until the first cursor; 0 stands for it.
  unfoldable pub display_alloc : Display cairo
  display_alloc = record {
    cursor = record {
      x = negsuc 0;
      y = negsuc 0;
      hotspot_x = pos 0;
      hotspot_y = pos 0;
      buffer = alloc cairo;
    };
    buffers = λ i. none;
    layers = λ i. none;
    image_streams = λ i. none;
    last_sync = pos 0;
  }
