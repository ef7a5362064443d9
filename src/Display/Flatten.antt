-- ===== src/Display/Flatten.antt =====
-- Flattening the layers onto the default layer: src/guacenc/display-flatten.c. `none` stands for an
-- assertion that fails, a difference of two `int`s that overflows, a NULL context or surface that is passed to Cairo, and a depth of layers that needs
-- more nested calls than the fuel. `qsort` is a parameter. A pointer to a layer is its index; NULL is
-- `none`.
pub mod Order
pub mod Frames
pub mod Success
pub mod Reached
use guacenc.Base.Tests.{◌>>=◌}
use guacenc.Base.{
  ℕ, zero, suc, ◌+◌, ◌-◌, ◌*◌, ◌/◌, ◌%◌, ◌^◌, ◌≤◌, ◌<◌, min, ◌≡◌, refl, sym, ap, ◌∙◌, ◌≢◌, ◌↔◌, ◌⊎◌,
  inl, inr, Bool, true, false, not, ◌&&◌, ◌||◌, Option, none, some, List, [], ◌∷◌, ◌++◌, map,
  append-nil, append_assoc, arith, ltb, leb, ◌==◌, if◌then◌else◌, Bool-cases, Option-cases, tests,
  ltb→lt, lt→ltb, leb→le, ==_iff, length, get_elem?, set, get_or, take, drop, replicate,
  length-append, length-set, length-take, length-drop, length-replicate, length-map,
  get_elem?-set_self, get_elem?-set_ne, take-append-drop, take_left, drop_left, set_middle,
  get_elem?-none,
}
use guacenc.Base.Int.{ℤ, pos, negsuc, ◌-ℤ◌, ltb_ℤ, leb_ℤ, eqb_ℤ}
use guacenc.Buffer.{
  Cairo, Buffer, reset_clip, rectangle, clip, set_source_surface, paint_with_alpha, fill, draw,
  copy,
}
use guacenc.Display.{Layer, Cursor, Display, store, no_parent, max_layers, get_layer}
use guacenc.Display.Depth.{get_depth}

-- `qsort` with a comparator that reads and changes a state: it calls the comparator on entries of the
-- array, and gives the array with its entries moved.
pub record Qsort : Type 1 where
  pub qsort :
      {A State : Type 0}
      → (A → A → State → Option (ℤ × State))
      → List A
      → State
      → Option (List A × State)

-- `b - a` on two `int`s, none where it overflows.
unfoldable pub difference : ℤ → ℤ → Option ℤ
difference b a =
    let d = b -ℤ a in
    if leb_ℤ (negsuc 2147483647) d && leb_ℤ d (pos 2147483647) then some d else none

-- The comparison of two layers that are not NULL, by depth, parent and Z. A depth counts nested calls.
unfoldable pub compare_layers : (a_depth b_depth : ℕ) (a_parent b_parent a_z b_z : ℤ) → Option ℤ
unfolding difference
compare_layers a_depth b_depth a_parent b_parent a_z b_z =
    if not (b_depth == a_depth)
    then some (pos b_depth -ℤ pos a_depth)
    else if not (eqb_ℤ b_parent a_parent)
    then difference b_parent a_parent
    else difference b_z a_z

-- What needs a pointer that must not be NULL.
abbrev pub if_not_null : {A : Type 0} → Bool → A → Option A
if_not_null true a = some a
if_not_null false a = none

module _ (cairo : Cairo) where
  -- `guacenc_display_layer_comparator`. The depth of a layer allocates the parents that are missing.
  unfoldable pub layer_comparator :
      ℕ → Option ℕ → Option ℕ → Display cairo → Option (ℤ × Display cairo)
  unfolding compare_layers get_depth
  layer_comparator fuel none none display = some (pos 0, display)
  layer_comparator fuel none (some b) display = some (pos 1, display)
  layer_comparator fuel (some a) none display = some (negsuc 0, display)
  layer_comparator fuel (some a) (some b) display = do
    layer_a ← display.layers a
    layer_b ← display.layers b
    (a_depth, display₁) ← get_depth cairo fuel display (some layer_a)
    (b_depth, display₂) ← get_depth cairo fuel display₁ (some layer_b)
    value ←
        compare_layers a_depth b_depth layer_a.parent_index layer_b.parent_index layer_a.z layer_b.z
    some (value, display₂)

  -- `display->layers` from an index on, as pointers.
  unfoldable pub pointers_from : ℕ → ℕ → Display cairo → List (Option ℕ)
  pointers_from zero i display = []
  pointers_from (suc n) i display =
      (elim (display.layers i) [ some layer ↦ some i | none ↦ none ])
      ∷ pointers_from n (i + 1) display

  -- The loop that resets the frame of each layer.
  unfoldable pub reset_frames : List (Option ℕ) → Display cairo → Option (Display cairo)
  reset_frames [] display = some display
  reset_frames (none ∷ order) display = reset_frames order display
  reset_frames (some i ∷ order) display = do
    layer ← display.layers i
    frame ← copy cairo layer.frame layer.buffer
    reset_frames order
        (record display { layers = store display.layers i (some (record layer { frame = frame })) })

  -- The drawing of a layer on the frame of its parent.
  unfoldable pub render_on : Layer cairo → cairo.Canvas → Layer cairo → Layer cairo
  render_on layer surface parent = record parent {
    frame =
        draw cairo
          (reset_clip
            ∷ rectangle layer.x layer.y layer.frame.width layer.frame.height
            ∷ clip
            ∷ set_source_surface surface layer.x layer.y
            ∷ paint_with_alpha layer.opacity
            ∷ [])
          parent.frame;
  }

  -- One round of the loop that renders: `continue` leaves the display, or allocates the parent.
  unfoldable pub render_layer : Layer cairo → Display cairo → Display cairo
  unfolding get_layer render_on
  render_layer layer display = elim (eqb_ℤ layer.opacity (pos 0)) [
    | true ↦ display
    | false ↦ elim (eqb_ℤ layer.parent_index no_parent) [
      | true ↦ display
      | false ↦ elim (get_layer cairo display layer.parent_index) [
        | none ↦ display
        | some (j, parent, display') ↦ elim layer.frame.surface [
          | none ↦ display'
          | some surface ↦ elim parent.frame.context [
            | false ↦ display'
            | true ↦ record display' {
              layers = store display'.layers j (some (render_on layer surface parent));
            }
          ]
        ]
      ]
    ]
  ]

  unfoldable pub render_layers : List (Option ℕ) → Display cairo → Option (Display cairo)
  unfolding render_layer
  render_layers [] display = some display
  render_layers (none ∷ order) display = render_layers order display
  render_layers (some i ∷ order) display = do
    layer ← display.layers i
    render_layers order (render_layer layer display)

  -- The image of the cursor on the frame of a layer.
  unfoldable pub cursor_on : Cursor cairo → cairo.Canvas → Layer cairo → Layer cairo
  cursor_on cursor surface layer =
      let x = cursor.x -ℤ cursor.hotspot_x in
      let y = cursor.y -ℤ cursor.hotspot_y in
      record layer {
        frame =
            draw cairo
              (set_source_surface surface x y
                ∷ rectangle x y cursor.buffer.width cursor.buffer.height
                ∷ fill
                ∷ [])
              layer.frame;
      }

  -- What is drawn of the cursor: the surface and the context must not be NULL.
  unfoldable pub draw_cursor : Cursor cairo → Layer cairo → Option (Layer cairo)
  unfolding cursor_on
  draw_cursor cursor layer =
      elim (ltb_ℤ (pos 0) cursor.buffer.width && ltb_ℤ (pos 0) cursor.buffer.height) [
        | false ↦ some layer
        | true ↦ elim cursor.buffer.surface [
          | none ↦ none
          | some surface ↦ if_not_null layer.frame.context (cursor_on cursor surface layer)
        ]
      ]

  -- `guacenc_display_render_cursor`, which returns 0.
  unfoldable pub render_cursor : Display cairo → Option (Display cairo)
  unfolding draw_cursor get_layer
  render_cursor display = elim (ltb_ℤ display.cursor.x (pos 0) || ltb_ℤ display.cursor.y (pos 0)) [
    | true ↦ some display
    | false ↦ do
      (i, def_layer, display') ← get_layer cairo display (pos 0)
      layer ← draw_cursor display'.cursor def_layer
      some (record display' { layers = store display'.layers i (some layer) })
  ]

module _ (cairo : Cairo) (library : Qsort) where
  -- `guacenc_display_flatten`, which returns 0.
  unfoldable pub flatten : ℕ → Display cairo → Option (Display cairo)
  unfolding layer_comparator pointers_from reset_frames render_layers render_cursor
  flatten fuel display = do
    (render_order, display₁) ←
        library.qsort (layer_comparator cairo fuel) (pointers_from cairo max_layers 0 display)
          display
    display₂ ← reset_frames cairo render_order display₁
    display₃ ← render_layers cairo render_order display₂
    render_cursor cairo display₃
