-- ===== src/Display/Consistency.antt =====
-- The well-formedness of a display, and the operations of src/guacenc/display-*.c that keep it.
use guacenc.Base.Int.{ℤ, pos, leb_ℤ}
use guacenc.Buffer.{Cairo, Buffer}
use guacenc.Buffer.Sizes.{IsConsistent, alloc-IsConsistent}
use guacenc.Display.{
  new_buffer, store, slot, Layer, Display, ImageStream, Place, of_layer, of_buffer, new_layer,
  get_layer, get_buffer, get_related_buffer, update_at, max_layers, max_buffers, internal_index,
}
use mathlib.Core.Option.{none-ne-some, some_inj}
use mathlib.Core.Path.{subst}
use guacenc.Base.{
  ℕ, zero, ◌≤◌, ◌≡◌, refl, ◌∙◌, inl, inr, true, Option, none, some, ◌==◌, Bool-cases, Option-cases,
  length,
}

module _ {ℓ} {A : Type ℓ} where
  -- Every entry of an array of pointers that is not NULL.
  abbrev pub AllOf {κ} : (A → Type κ) → (ℕ → Option A) → Type (ℓ ⊔ κ)
  AllOf P table = (i : ℕ) (a : A) → table i ≡ some a → P a

  pub store-some {κ} :
      {P : A → Type κ} (table : ℕ → Option A) (i : ℕ) (a : A)
      → AllOf P table
      → P a
      → AllOf P (store table i (some a))
  unfolding store
  store-some {P = P} table i a all p j b e = elim (Bool-cases (i == j)) [
    | inl hit ↦ subst P (some_inj.0 (rw hit at e)) p
    | inr miss ↦ all j b (rw miss at e)
  ]

  pub store-none {κ} :
      {P : A → Type κ} (table : ℕ → Option A) (i : ℕ) → AllOf P table → AllOf P (store table i none)
  unfolding store
  store-none table i all j b e = elim (Bool-cases (i == j)) [
    | inl hit ↦ absurd (none-ne-some b (rw hit at e))
    | inr miss ↦ all j b (rw miss at e)
  ]

module _ (cairo : Cairo) where
  abbrev pub LayerOk : Layer cairo → Type 0
  LayerOk layer = IsConsistent cairo layer.buffer × IsConsistent cairo layer.frame

  -- Buffers that are no layers size themselves.
  abbrev pub BufferOk : Buffer cairo → Type 0
  BufferOk buffer = IsConsistent cairo buffer × (buffer.autosize ≡ true)

  abbrev pub StreamOk : ImageStream → Type 0
  StreamOk stream = length stream.buffer ≤ stream.max_length

  -- What holds of a display between two instructions: every buffer has a surface and a context exactly when
  -- no side is 0, and an image when its bytes could be allocated too; buffers size themselves, and no stream has more bytes than room.
  pub record IsValid (d : Display cairo) : Type 0 where
    pub layers_ok : AllOf LayerOk d.layers
    pub buffers_ok : AllOf BufferOk d.buffers
    pub streams_ok : AllOf StreamOk d.image_streams
    pub cursor_ok : IsConsistent cairo d.cursor.buffer

  pub new_layer-Ok : (i : ℕ) → LayerOk (new_layer cairo i)
  unfolding new_layer
  new_layer-Ok i = elim (Bool-cases (i == 0)) [
    | inl e ↦ rw e (alloc-IsConsistent cairo, alloc-IsConsistent cairo)
    | inr e ↦ rw e (alloc-IsConsistent cairo, alloc-IsConsistent cairo)
  ]

  pub store_layer-IsValid :
      (d : Display cairo) (i : ℕ) (layer : Layer cairo)
      → IsValid d
      → LayerOk layer
      → IsValid (record d { layers = store d.layers i (some layer) })
  store_layer-IsValid d i layer v ok = record {
    layers_ok = store-some {P = LayerOk} d.layers i layer v.layers_ok ok;
    buffers_ok = v.buffers_ok;
    streams_ok = v.streams_ok;
    cursor_ok = v.cursor_ok;
  }

  pub store_buffer-IsValid :
      (d : Display cairo) (i : ℕ) (buffer : Buffer cairo)
      → IsValid d
      → BufferOk buffer
      → IsValid (record d { buffers = store d.buffers i (some buffer) })
  store_buffer-IsValid d i buffer v ok = record {
    layers_ok = v.layers_ok;
    buffers_ok = store-some {P = BufferOk} d.buffers i buffer v.buffers_ok ok;
    streams_ok = v.streams_ok;
    cursor_ok = v.cursor_ok;
  }

  -- What a lookup that may allocate gives: a display that is valid, and what it found.
  abbrev pub Gives {κ} : {B : Type κ} → (B → Type 0) → Option (ℕ × B × Display cairo) → Type 0
  Gives P none = zero ≡ zero
  Gives P (some (i, b, d)) = P b × IsValid d

  pub get_layer-Gives :
      (d : Display cairo) (index : ℤ) → IsValid d → Gives LayerOk (get_layer cairo d index)
  unfolding get_layer
  get_layer-Gives d index v = elim (Option-cases (slot index max_layers)) [
    | inl e ↦ rw (get_layer, e) refl
    | inr (i, e) ↦ elim (Option-cases (d.layers i)) [
      | inl fresh ↦
          rw (get_layer, e, fresh)
            (new_layer-Ok i, store_layer-IsValid d i (new_layer cairo i) v (new_layer-Ok i))
      | inr (layer, found) ↦ rw (get_layer, e, found) (v.layers_ok i layer found, v)
    ]
  ]

  new_buffer-Ok : BufferOk (new_buffer cairo)
  new_buffer-Ok =
      let ok = alloc-IsConsistent cairo in
      (
        record {
          image_iff = ok.image_iff;
          surface_iff = ok.surface_iff;
          context_iff = ok.context_iff;
        },
        refl,
      )

  pub get_buffer-Gives :
      (d : Display cairo) (index : ℤ) → IsValid d → Gives BufferOk (get_buffer cairo d index)
  unfolding get_buffer
  get_buffer-Gives d index v = elim (Option-cases (slot (internal_index index) max_buffers)) [
    | inl e ↦ rw (get_buffer, e) refl
    | inr (i, e) ↦ elim (Option-cases (d.buffers i)) [
      | inl fresh ↦
          rw (get_buffer, e, fresh)
            (new_buffer-Ok, store_buffer-IsValid d i (new_buffer cairo) v new_buffer-Ok)
      | inr (buffer, found) ↦ rw (get_buffer, e, found) (v.buffers_ok i buffer found, v)
    ]
  ]

  -- The same for a place.
  abbrev pub GivesPlace : Option (Place × Display cairo) → Type 0
  GivesPlace none = zero ≡ zero
  GivesPlace (some (place, d)) = IsValid d

  pub get_related_buffer-GivesPlace :
      (d : Display cairo) (index : ℤ) → IsValid d → GivesPlace (get_related_buffer cairo d index)
  unfolding get_related_buffer
  get_related_buffer-GivesPlace d index v = elim (Bool-cases (leb_ℤ (pos 0) index)) [
    | inl positive ↦ elim (Option-cases (get_layer cairo d index)) [
      | inl e ↦ rw (get_related_buffer, positive, e) refl
      | inr ((i, layer, d'), e) ↦
          rw (get_related_buffer, positive, e) (rw e at (get_layer-Gives d index v)).1
    ]
    | inr negative ↦ elim (Option-cases (get_buffer cairo d index)) [
      | inl e ↦ rw (get_related_buffer, negative, e) refl
      | inr ((i, buffer, d'), e) ↦
          rw (get_related_buffer, negative, e) (rw e at (get_buffer-Gives d index v)).1
    ]
  ]

  -- A change of a buffer that keeps its image in step with its size, and `autosize`.
  abbrev pub Keeps : (Buffer cairo → Buffer cairo) → Type 0
  Keeps f =
      (b : Buffer cairo)
      → IsConsistent cairo b
      → IsConsistent cairo (f b) × ((f b).autosize ≡ b.autosize)

  pub update_at-IsValid :
      (f : Buffer cairo → Buffer cairo) (d : Display cairo) (place : Place)
      → Keeps f
      → IsValid d
      → IsValid (update_at cairo f d place)
  unfolding update_at
  update_at-IsValid f d (of_layer i) keeps v = elim (Option-cases (d.layers i)) [
    | inl e ↦ rw (update_at, e) v
    | inr (layer, e) ↦
        let (buffer_ok, frame_ok) = v.layers_ok i layer e in
        rw (update_at, e)
          (store_layer-IsValid d i (record layer { buffer = f layer.buffer }) v
            ((keeps layer.buffer buffer_ok).0, frame_ok))
  ]
  update_at-IsValid f d (of_buffer i) keeps v = elim (Option-cases (d.buffers i)) [
    | inl e ↦ rw (update_at, e) v
    | inr (buffer, e) ↦
        let (ok, autosize) = v.buffers_ok i buffer e in
        let (ok', same) = keeps buffer ok in
        rw (update_at, e) (store_buffer-IsValid d i (f buffer) v (ok', same ∙ autosize))
  ]
