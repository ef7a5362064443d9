-- ===== src/Display/Sync.antt =====
-- Syncs, which flatten the display and advance the video: src/guacenc/display-sync.c,
-- instruction-sync.c and instruction-mouse.c; and the whole table of src/guacenc/instructions.c.
-- What `guacenc_video_prepare_frame` makes of the next frame, through libswscale, is a parameter.
pub mod Timestamps
pub mod Runs
use guacenc.Base.{
  ◌>>=◌, ℕ, zero, suc, ◌+◌, ◌-◌, ◌*◌, ◌/◌, ◌%◌, ◌^◌, ◌≤◌, ◌<◌, min, ◌≡◌, refl, sym, ap, ◌∙◌, ◌≢◌,
  ◌↔◌, ◌⊎◌, inl, inr, Bool, true, false, not, ◌&&◌, ◌||◌, Option, none, some, List, [], ◌∷◌, ◌++◌,
  map, append-nil, append_assoc, arith, ltb, leb, ◌==◌, if◌then◌else◌, Bool-cases, Option-cases,
  tests, ltb→lt, lt→ltb, leb→le, ==_iff, length, get_elem?, set, get_or, take, drop, replicate,
  length-append, length-set, length-take, length-drop, length-replicate, length-map,
  get_elem?-set_self, get_elem?-set_ne, take-append-drop, take_left, drop_left, set_middle,
  get_elem?-none,
}
use guacenc.Base.Int.{ℤ, pos, ltb_ℤ}
use guacenc.Arguments.{parse_timestamp}
use guacenc.Buffer.{Cairo, Buffer}
use guacenc.Video.{Encoder, Video, advance_timeline}
use guacenc.Display.{Layer, Display, get_layer}
use guacenc.Display.Handlers.{Tools}
use guacenc.Display.Flatten.{Qsort, flatten}
use guacenc.Display.Dispatch.{Opcode, handle_instruction}

-- Everything around the display: Cairo, the decoders and atoi, libavcodec, libswscale and qsort.
pub record Libraries : Type 1 where
  pub cairo : Cairo
  pub tools : Tools cairo
  pub encoder : Encoder
  pub prepare_frame : encoder.Frame → Buffer cairo → encoder.Frame
  pub library : Qsort

-- The display with its video, `display->output`.
pub record Session (libraries : Libraries) : Type 0 where
  pub display : Display libraries.cairo
  pub output : Video libraries.encoder

-- The instructions of a recording: those that `handle_instruction` handles, and the two that go on to the
-- video.
pub data Instruction : Type 0 where
  mouse sync : List (List ℕ) → Instruction
  other : Opcode → List (List ℕ) → Instruction

module _ (libraries : Libraries) (fuel : ℕ) where
  abbrev pub State : Type 0
  State = Session libraries

  -- What `guacenc_display_sync` does with the default layer of the flattened display.
  unfoldable pub advance :
      Display libraries.cairo → Layer libraries.cairo → Video libraries.encoder → ℕ × State
  unfolding advance_timeline
  advance display def_layer video =
      let (failed, output) = advance_timeline libraries.encoder video display.last_sync in
      elim failed [
        | true ↦ (1, record { display = display; output = output })
        | false ↦
            let next_frame = libraries.prepare_frame output.next_frame def_layer.frame in
            (0, record { display = display; output = record output { next_frame = next_frame } })
      ]

  -- `guacenc_display_sync`, none where flattening gives none.
  unfoldable pub display_sync : State → ℤ → Option (ℕ × State)
  unfolding advance flatten
  display_sync s timestamp = elim (ltb_ℤ timestamp s.display.last_sync) [
    | true ↦ some (1, s)
    | false ↦ do
      display ←
          flatten libraries.cairo libraries.library fuel
            (record s.display { last_sync = timestamp })
      (i, def_layer, display') ← get_layer libraries.cairo display (pos 0)
      some (advance display' def_layer s.output)
  ]

  -- `guacenc_handle_sync`, none also where the timestamp overflows.
  unfoldable pub handle_sync : State → List (List ℕ) → Option (ℕ × State)
  unfolding display_sync parse_timestamp
  handle_sync s [] = some (1, s)
  handle_sync s (timestamp ∷ more) = do sent ← parse_timestamp timestamp; display_sync s sent

  -- The cursor moved to a place.
  unfoldable pub move_cursor : State → ℤ → ℤ → State
  move_cursor s x y = record s {
    display = record s.display { cursor = record s.display.cursor { x = x; y = y } };
  }

  -- `guacenc_handle_mouse`, none also where the timestamp overflows.
  unfoldable pub handle_mouse : State → List (List ℕ) → Option (ℕ × State)
  unfolding move_cursor display_sync parse_timestamp
  handle_mouse s [] = some (1, s)
  handle_mouse s (x ∷ []) = some (1, s)
  handle_mouse s (x ∷ y ∷ []) =
      some (0, move_cursor s (libraries.tools.atoi x) (libraries.tools.atoi y))
  handle_mouse s (x ∷ y ∷ mask ∷ []) =
      some (0, move_cursor s (libraries.tools.atoi x) (libraries.tools.atoi y))
  handle_mouse s (x ∷ y ∷ mask ∷ timestamp ∷ more) = do
    sent ← parse_timestamp timestamp
    display_sync (move_cursor s (libraries.tools.atoi x) (libraries.tools.atoi y)) sent

  -- `guacenc_handle_instruction`
  unfoldable pub handle : State → Instruction → Option (ℕ × State)
  unfolding handle_mouse handle_sync handle_instruction
  handle s (mouse argv) = handle_mouse s argv
  handle s (sync argv) = handle_sync s argv
  handle s (other opcode argv) =
      let (code, display) =
        handle_instruction libraries.cairo libraries.tools s.display opcode argv in
      some (code, record s { display = display })

  -- The loop of `guacenc_read_instructions`: what a handler returns is only logged.
  unfoldable pub run : State → List Instruction → Option State
  unfolding handle
  run s [] = some s
  run s (instruction ∷ rest) = do (code, s') ← handle s instruction; run s' rest
