-- ===== src/Buffer.antt =====
-- Image buffers: src/guacenc/buffer.c. The drawing library Cairo is a parameter: its surfaces with their
-- graphics contexts, and one step for each of its calls. The surfaces and the contexts that Cairo gives are
-- never NULL; the memory of an image may be.
pub mod Sizes
use guacenc.Base.Int.{ℤ, pos, ◌+ℤ◌, ◌*ℤ◌, eqb_ℤ, ltb_ℤ}
use mathlib.Core.Option
use guacenc.Base.{
  Bool, true, false, not, ◌&&◌, ◌||◌, Option, none, some, List, [], ◌∷◌, map, if◌then◌else◌,
}

-- `cairo_operator_t`, as far as it is used.
pub data Operator : Type 0 where
  source : Operator
  over : Operator
  within : Operator
  out : Operator
  atop : Operator
  dest_over : Operator
  dest_in : Operator
  dest_out : Operator
  dest_atop : Operator
  xor : Operator
  add : Operator

-- The calls that draw: a source surface is given by what it shows at the time of the call, and a colour
-- by its components, over 255.
pub data Call (Canvas : Type 0) : Type 0 where
  set_operator : Operator → Call Canvas
  set_source_surface : Canvas → ℤ → ℤ → Call Canvas
  set_source_rgba : ℤ → ℤ → ℤ → ℤ → Call Canvas
  rectangle : ℤ → ℤ → ℤ → ℤ → Call Canvas
  fill : Call Canvas
  paint : Call Canvas
  paint_with_alpha : ℤ → Call Canvas
  clip : Call Canvas
  reset_clip : Call Canvas

-- A surface with its context: `create` is for zeroed data or NULL, of a width, a height and a stride; `blank` is
-- for `cairo_image_surface_create`. `calloc` says whether there is memory for a number of bytes, which is
-- negative where the C `int` that is passed is.
pub record Cairo : Type 1 where
  pub Canvas : Type 0
  pub stride_for_width : ℤ → ℤ
  pub calloc : ℤ → Bool
  pub create : Bool → ℤ → ℤ → ℤ → Canvas
  pub blank : ℤ → ℤ → Canvas
  pub call : Call Canvas → Canvas → Canvas

unfoldable pub same_size : ℤ → ℤ → ℤ → ℤ → Bool
same_size old_width old_height width height = eqb_ℤ old_width width && eqb_ℤ old_height height

unfoldable pub no_pixels : ℤ → ℤ → Bool
no_pixels width height = eqb_ℤ width (pos 0) || eqb_ℤ height (pos 0)

module _ (cairo : Cairo) where
  open cairo use {Canvas, stride_for_width, calloc, create, call}

  -- `guacenc_buffer`: whether the image is allocated; the surface, if it is not NULL, with what the
  -- context of it has done; whether that context is not NULL.
  pub record Buffer : Type 0 where
    pub autosize : Bool
    pub width : ℤ
    pub height : ℤ
    pub stride : ℤ
    pub image : Bool
    pub surface : Option Canvas
    pub context : Bool

  -- `guacenc_buffer_alloc`
  abbrev pub alloc : Buffer
  alloc = record {
    autosize = false;
    width = pos 0;
    height = pos 0;
    stride = pos 0;
    image = false;
    surface = none;
    context = false;
  }

  -- A sequence of calls.
  unfoldable pub calls : List (Call Canvas) → Canvas → Canvas
  calls [] canvas = canvas
  calls (c ∷ cs) canvas = calls cs (call c canvas)

  -- `if (buffer->cairo != NULL) { … }`
  unfoldable pub draw : List (Call Canvas) → Buffer → Buffer
  draw cs buffer = record buffer {
    surface = elim buffer.context [
      | false ↦ buffer.surface
      | true ↦ Option.map (calls cs) buffer.surface
    ];
  }

  -- `guacenc_buffer_free_image`
  unfoldable pub free_image : Buffer → Buffer
  free_image buffer = record buffer { image = false; surface = none; context = false }

  -- The new image, with the old surface painted on it. `stride * height` stays in the range of an `int`.
  unfoldable pub reallocate : Buffer → ℤ → ℤ → Buffer
  reallocate buffer width height =
      let stride = stride_for_width width in
      let image = calloc (stride *ℤ height) in
      let canvas = create image width height stride in
      let copied : Canvas = elim buffer.surface [
        | none ↦ canvas
        | some old ↦
            calls
              (set_operator source
                ∷ set_source_surface old (pos 0) (pos 0)
                ∷ set_operator over
                ∷ paint
                ∷ [])
              canvas
      ] in
      record buffer {
        width = width;
        height = height;
        stride = stride;
        image = image;
        surface = some copied;
        context = true;
      }

  -- `guacenc_buffer_resize`, which returns 0.
  unfoldable pub resize : Buffer → ℤ → ℤ → Buffer
  resize buffer width height =
      if same_size buffer.width buffer.height width height
      then buffer
      else if no_pixels width height
      then record (free_image buffer) { width = width; height = height; stride = pos 0 }
      else reallocate buffer width height

  -- `if (new_width < x+1) new_width = x+1;`
  unfoldable pub at_least : ℤ → ℤ → ℤ
  at_least size x = if ltb_ℤ size (x +ℤ pos 1) then x +ℤ pos 1 else size

  -- `guacenc_buffer_fit`, which returns 0.
  unfoldable pub fit : Buffer → ℤ → ℤ → Buffer
  fit buffer x y =
      let new_width = at_least buffer.width x in
      let new_height = at_least buffer.height y in
      if not (same_size buffer.width buffer.height new_width new_height)
      then resize buffer new_width new_height
      else buffer

  -- `guacenc_buffer_copy`: none when the assertion fails.
  unfoldable pub copy : Buffer → Buffer → Option Buffer
  copy dst src =
      let dst' = resize dst src.width src.height in
      elim src.surface [
        | none ↦ some dst'
        | some shown ↦ elim dst'.context [
          | false ↦ none
          | true ↦ some (
              draw
                (reset_clip
                  ∷ set_operator source
                  ∷ set_source_surface shown (pos 0) (pos 0)
                  ∷ paint
                  ∷ set_operator over
                  ∷ [])
                dst')
        ]
      ]
