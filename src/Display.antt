-- ===== src/Display.antt =====
-- The display of the encoder: src/guacenc/display.h, layer.c, cursor.c, image-stream.c, display-layers.c,
-- display-buffers.c and display-image-streams.c.
-- Allocations succeed. An array of pointers is a function on its indices, none for NULL.
pub mod Depth
pub mod Handlers
pub mod Commands
pub mod Consistency
pub mod Dispatch
pub mod Keeping
pub mod Preservation
pub mod Reachable
pub mod Flatten
pub mod Sync
use guacenc.Base.Int.{ℤ, pos, negsuc, leb_ℤ, ltb_ℤ}
use guacenc.Buffer.{Cairo, Buffer, alloc}
use guacenc.Base.{
  ℕ, ◌+◌, ◌-◌, ◌*◌, true, false, Option, none, some, List, [], ◌++◌, ltb, ◌==◌, if◌then◌else◌,
  length,
}

-- GUACENC_DISPLAY_MAX_LAYERS, GUACENC_DISPLAY_MAX_BUFFERS, GUACENC_DISPLAY_MAX_STREAMS and
-- GUACENC_IMAGE_STREAM_INITIAL_LENGTH
abbrev pub max_layers : ℕ
max_layers = 64

abbrev pub max_buffers : ℕ
max_buffers = 4096

abbrev pub max_streams : ℕ
max_streams = 64

abbrev pub initial_length : ℕ
initial_length = 4096

-- GUACENC_LAYER_NO_PARENT
abbrev pub no_parent : ℤ
no_parent = negsuc 0

-- The array with an entry replaced.
unfoldable pub store {ℓ} : {A : Type ℓ} → (ℕ → A) → ℕ → A → ℕ → A
store table i a j = if i == j then a else table j

-- The formats of `guacenc_decoder_map`.
pub data Format : Type 0 where
  png : Format
  jpeg : Format
  webp : Format

-- `guacenc_image_stream`: the bytes of the buffer that are used, and its size.
pub record ImageStream : Type 0 where
  pub index : ℤ
  pub mask : ℤ
  pub x : ℤ
  pub y : ℤ
  pub buffer : List ℕ
  pub max_length : ℕ
  pub decoder : Option Format

-- `guacenc_image_stream_receive`, which returns 0. The lengths stay below the limit of a C `int`.
unfoldable pub receive : ImageStream → List ℕ → ImageStream
receive stream bytes =
    let grown =
      if ltb (stream.max_length - length stream.buffer) (length bytes)
      then stream.max_length * 2 + length bytes
      else stream.max_length in
    record stream { buffer = stream.buffer ++ bytes; max_length = grown }

-- An index below a bound: `!(index < 0 || index >= bound)`.
unfoldable pub slot : ℤ → ℕ → Option ℕ
slot (negsuc n) bound = none
slot (pos n) bound = if ltb n bound then some n else none

-- `-index - 1`
unfoldable pub internal_index : ℤ → ℤ
internal_index (pos n) = negsuc n
internal_index (negsuc n) = pos n

-- Where a buffer stands: it is read and written there, so two handles of one buffer are one place.
pub data Place : Type 0 where
  of_layer : ℕ → Place
  of_buffer : ℕ → Place

module _ (cairo : Cairo) where
  -- `guacenc_layer`
  pub record Layer : Type 0 where
    pub buffer : Buffer cairo
    pub parent_index : ℤ
    pub x : ℤ
    pub y : ℤ
    pub z : ℤ
    pub opacity : ℤ
    pub frame : Buffer cairo

  -- `guacenc_cursor`
  pub record Cursor : Type 0 where
    pub x : ℤ
    pub y : ℤ
    pub hotspot_x : ℤ
    pub hotspot_y : ℤ
    pub buffer : Buffer cairo

  -- `guacenc_display`, but for its video.
  pub record Display : Type 0 where
    pub cursor : Cursor
    pub buffers : ℕ → Option (Buffer cairo)
    pub layers : ℕ → Option Layer
    pub image_streams : ℕ → Option ImageStream
    pub last_sync : ℤ

  -- `guacenc_layer_alloc`
  abbrev pub layer_alloc : Layer
  layer_alloc = record {
    buffer = alloc cairo;
    parent_index = pos 0;
    x = pos 0;
    y = pos 0;
    z = pos 0;
    opacity = pos 0xFF;
    frame = alloc cairo;
  }

  -- The layer that `guacenc_display_get_layer` allocates at an index.
  unfoldable pub new_layer : ℕ → Layer
  new_layer index =
      if index == 0 then record layer_alloc { parent_index = no_parent } else layer_alloc

  -- `guacenc_display_get_layer`: the slot, the layer and the display, none when it returns NULL.
  unfoldable pub get_layer : Display → ℤ → Option (ℕ × Layer × Display)
  get_layer display index = elim (slot index max_layers) [
    | none ↦ none
    | some i ↦ elim (display.layers i) [
      | some layer ↦ some (i, layer, display)
      | none ↦
          some (
            i,
            new_layer i,
            record display { layers = store display.layers i (some (new_layer i)) },
          )
    ]
  ]

  -- `guacenc_display_free_layer`
  unfoldable pub free_layer : Display → ℤ → ℕ × Display
  free_layer display index = elim (slot index max_layers) [
    | none ↦ (1, display)
    | some i ↦ (0, record display { layers = store display.layers i none })
  ]

  -- The buffer that `guacenc_display_get_buffer` allocates.
  abbrev pub new_buffer : Buffer cairo
  new_buffer = record (alloc cairo) { autosize = true }

  -- `guacenc_display_get_buffer`
  unfoldable pub get_buffer : Display → ℤ → Option (ℕ × Buffer cairo × Display)
  get_buffer display index = elim (slot (internal_index index) max_buffers) [
    | none ↦ none
    | some i ↦ elim (display.buffers i) [
      | some buffer ↦ some (i, buffer, display)
      | none ↦
          some
            (i, new_buffer, record display { buffers = store display.buffers i (some new_buffer) })
    ]
  ]

  -- `guacenc_display_free_buffer`
  unfoldable pub free_buffer : Display → ℤ → ℕ × Display
  free_buffer display index = elim (slot (internal_index index) max_buffers) [
    | none ↦ (1, display)
    | some i ↦ (0, record display { buffers = store display.buffers i none })
  ]

  -- `guacenc_display_get_related_buffer`
  unfoldable pub get_related_buffer : Display → ℤ → Option (Place × Display)
  get_related_buffer display index = elim (leb_ℤ (pos 0) index) [
    | true ↦ elim (get_layer display index) [
      | none ↦ none
      | some (i, layer, display') ↦ some (of_layer i, display')
    ]
    | false ↦ elim (get_buffer display index) [
      | none ↦ none
      | some (i, buffer, display') ↦ some (of_buffer i, display')
    ]
  ]

  -- The buffer at a place, and a change of it.
  unfoldable pub buffer_at : Display → Place → Buffer cairo
  buffer_at display (of_layer i) = elim (display.layers i) [
    | none ↦ alloc cairo
    | some layer ↦ layer.buffer
  ]
  buffer_at display (of_buffer i) = elim (display.buffers i) [
    | none ↦ alloc cairo
    | some buffer ↦ buffer
  ]

  unfoldable pub update_at : (Buffer cairo → Buffer cairo) → Display → Place → Display
  update_at f display (of_layer i) = elim (display.layers i) [
    | none ↦ display
    | some layer ↦ record display {
      layers = store display.layers i (some (record layer { buffer = f layer.buffer }));
    }
  ]
  update_at f display (of_buffer i) = elim (display.buffers i) [
    | none ↦ display
    | some buffer ↦ record display { buffers = store display.buffers i (some (f buffer)) }
  ]

  -- `guacenc_display_create_image_stream`, whose stream is allocated with `guacenc_image_stream_alloc`.
  unfoldable pub create_image_stream : Display → ℤ → ℤ → ℤ → Option Format → ℤ → ℤ → ℕ × Display
  create_image_stream display index mask layer_index decoder x y = elim (slot index max_streams) [
    | none ↦ (1, display)
    | some i ↦
        let stream : ImageStream = record {
          index = layer_index;
          mask = mask;
          x = x;
          y = y;
          buffer = [];
          max_length = initial_length;
          decoder = decoder;
        } in
        (0, record display { image_streams = store display.image_streams i (some stream) })
  ]

  -- `guacenc_display_get_image_stream`
  unfoldable pub get_image_stream : Display → ℤ → Option (ℕ × ImageStream)
  get_image_stream display index = elim (slot index max_streams) [
    | none ↦ none
    | some i ↦ elim (display.image_streams i) [ none ↦ none | some stream ↦ some (i, stream) ]
  ]

  -- `guacenc_display_free_image_stream`
  unfoldable pub free_image_stream : Display → ℤ → ℕ × Display
  free_image_stream display index = elim (slot index max_streams) [
    | none ↦ (1, display)
    | some i ↦ (0, record display { image_streams = store display.image_streams i none })
  ]
