-- ===== src/Examples/Flattening.antt =====
-- Two layers and a cursor, flattened and synced with a Cairo that keeps the number of calls.
use guacenc.Base.{
  [], ◌∷◌, ◌-◌, ℕ, zero, suc, ◌+◌, ◌<◌, ◌≡◌, refl, sym, ap, inl, inr, true, false, Option, none,
  some, List, arith,
}
use mathlib.Core.Option.{none-ne-some, some_inj}
use mathlib.Core.List.{Permᴰ}
use guacenc.Base.Int.{ℤ, ◌-ℤ◌, ltb_ℤ, pos, negsuc, ◌*ℤ◌}
use guacenc.Buffer.{Cairo, Buffer, no_pixels}
use mathlib.Core.Bool.{true≢false}
use guacenc.Buffer.Sizes.{is_some}
use guacenc.Display.{Display, Layer, layer_alloc, max_layers}
use guacenc.Display.Consistency.{IsValid}
use guacenc.Display.Depth.{IsAcyclic}
use guacenc.Display.Flatten.{layer_comparator, difference, pointers_from, flatten}
use guacenc.Display.Flatten.Order.{AllPairs, ZsFit, IsParent, render_order-children_first}
use guacenc.Display.Dispatch.{display_alloc, size, rect, move}
use guacenc.Display.Sync.Runs.{run-IsValid}
use guacenc.Display.Sync.{Instruction, mouse, sync, other, run, Libraries, Session, display_sync}
use guacenc.Examples.Sorting.{library-Permutes, library, library-Sorts}

abbrev counting : Cairo
counting = record {
  Canvas = ℕ;
  stride_for_width = λ w. w *ℤ pos 4;
  calloc = λ n. ltb_ℤ (pos 0) n;
  create = λ image w h stride. 0;
  blank = λ w h. 0;
  call = λ c n. n + 1;
}

abbrev painted : Buffer counting
painted = record {
  autosize = false;
  width = pos 8;
  height = pos 6;
  stride = pos 32;
  image = true;
  surface = some 0;
  context = true;
}

abbrev screen : Layer counting
screen = record (layer_alloc counting) { parent_index = negsuc 0; buffer = painted }

abbrev window : Layer counting
window = record (layer_alloc counting) { buffer = painted }

layers : ℕ → Option (Layer counting)
layers zero = some screen
layers (suc zero) = some window
layers (suc (suc i)) = none

abbrev shown : Display counting
shown = record (display_alloc counting) {
  layers = layers;
  cursor = record (display_alloc counting).cursor { x = pos 1; y = pos 1; buffer = painted };
}

abbrev rank : ℕ → ℕ
rank zero = 0
rank (suc i) = 1

rank-lt : (i : ℕ) → rank i < 2
rank-lt zero = omega arith
rank-lt (suc i) = omega arith

shown-IsAcyclic : IsAcyclic counting rank shown
unfolding layers
shown-IsAcyclic zero layer e = inl (ap (λ l. l.parent_index) (sym (some_inj.0 e)))
shown-IsAcyclic (suc zero) layer e =
    inr (0, screen, ap (λ l. l.parent_index) (sym (some_inj.0 e)), omega arith, refl, omega arith)
shown-IsAcyclic (suc (suc i)) layer e = absurd (none-ne-some layer e)

layers-z : (i : ℕ) (layer : Layer counting) → layers i ≡ some layer → layer.z ≡ pos 0
unfolding layers
layers-z zero layer e = ap (λ l. l.z) (sym (some_inj.0 e))
layers-z (suc zero) layer e = ap (λ l. l.z) (sym (some_inj.0 e))
layers-z (suc (suc i)) layer e = absurd (none-ne-some layer e)

shown-ZsFit : ZsFit counting shown
unfolding difference ◌-ℤ◌
shown-ZsFit i j a b e e' = rw (layers-z i a e, layers-z j b e') refl

render_order-children_first_example :
    (order : List (Option ℕ)) × (library.qsort
        (layer_comparator counting 2)
        (pointers_from counting max_layers 0 shown)
        shown
      ≡ some (order, shown))
    × Permᴰ (pointers_from counting max_layers 0 shown) order
    × AllPairs (λ a b. ¬ IsParent counting 2 shown a b) order
render_order-children_first_example =
    render_order-children_first counting library 2 rank shown library-Sorts shown-IsAcyclic rank-lt
      shown-ZsFit

abbrev digit : List ℕ → ℤ
digit [] = pos 0
digit (c ∷ cs) = pos (c - b'0')

abbrev libraries : Libraries
libraries = record {
  cairo = counting;
  tools = record { enable_webp = true; decode = λ f bytes. none; atoi = digit };
  encoder = record { State = ℕ; Frame = ℕ; encode = λ s f. (pos 0, s + 1) };
  prepare_frame = λ frame buffer. 1;
  library = library;
}

abbrev session : Session libraries
session = record {
  display = shown;
  output = record { output = 0; next_frame = 7; last_timestamp = pos 0; next_pts = 0 };
}

-- "size 0 8 6", "rect 0 1 1 2 2", "move 1 0 0 0 0", "mouse 3 4" and "sync 9".
abbrev recording : List Instruction
recording =
    other size ((b'0' ∷ []) ∷ (b'8' ∷ []) ∷ (b'6' ∷ []) ∷ [])
    ∷ other rect ((b'0' ∷ []) ∷ (b'1' ∷ []) ∷ (b'1' ∷ []) ∷ (b'2' ∷ []) ∷ (b'2' ∷ []) ∷ [])
    ∷ other move ((b'1' ∷ []) ∷ (b'0' ∷ []) ∷ (b'0' ∷ []) ∷ (b'0' ∷ []) ∷ (b'0' ∷ []) ∷ [])
    ∷ mouse ((b'3' ∷ []) ∷ (b'4' ∷ []) ∷ [])
    ∷ sync ((b'9' ∷ []) ∷ [])
    ∷ []

abbrev fresh : Session libraries
fresh = record { display = display_alloc counting; output = session.output }

abbrev or_fresh : Option (Session libraries) → Session libraries
or_fresh none = fresh
or_fresh (some s) = s

abbrev reached : Session libraries
reached = or_fresh (run libraries 3 fresh recording)

some-or_fresh : (o : Option (Session libraries)) → is_some o ≡ true → o ≡ some (or_fresh o)
some-or_fresh none h = absurd (true≢false (sym h))
some-or_fresh (some s) h = refl

recording_returns : is_some (run libraries 3 fresh recording) ≡ true
unfolding run guacenc.Arguments.timestamp_loop guacenc.Arguments.in_int64 guacenc.Arguments.checked
    guacenc.Arguments.parse_timestamp ◌*ℤ◌ guacenc.Base.Int.◌+ℤ◌ ◌-ℤ◌
    guacenc.Display.Commands.handle_move guacenc.Display.slot guacenc.Display.Commands.handle_rect
    guacenc.Display.get_related_buffer guacenc.Display.Commands.handle_size display_alloc
    guacenc.Display.update_at guacenc.Display.store guacenc.Examples.Sorting.insertion_sort
    guacenc.Display.new_layer guacenc.Buffer.copy guacenc.Buffer.draw guacenc.Buffer.at_least
    guacenc.Buffer.calls guacenc.Buffer.fit guacenc.Buffer.free_image no_pixels
    guacenc.Buffer.reallocate guacenc.Buffer.resize guacenc.Buffer.same_size
    guacenc.Display.Depth.get_depth guacenc.Display.Dispatch.handle_instruction
    guacenc.Display.Flatten.compare_layers guacenc.Display.Flatten.cursor_on difference
    guacenc.Display.Flatten.draw_cursor flatten layer_comparator pointers_from
    guacenc.Display.Flatten.render_cursor guacenc.Display.Flatten.render_layer
    guacenc.Display.Flatten.render_layers guacenc.Display.Flatten.render_on
    guacenc.Display.Flatten.reset_frames guacenc.Display.Handlers.fit_autosize
    guacenc.Display.Sync.advance display_sync guacenc.Display.Sync.handle
    guacenc.Display.Sync.handle_mouse guacenc.Display.Sync.handle_sync
    guacenc.Display.Sync.move_cursor guacenc.Display.buffer_at guacenc.Display.get_layer
    guacenc.Examples.Sorting.insert
recording_returns = refl

run-IsValid_example : IsValid counting reached.display
run-IsValid_example =
    run-IsValid libraries 3 session.output recording reached library-Permutes
      (some-or_fresh (run libraries 3 fresh recording) recording_returns)
