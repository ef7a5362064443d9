-- ===== src/Video/Letterbox.antt =====
-- The margins around an image that is scaled to the size of the video: `guacenc_video_prepare_frame` of
-- src/guacenc/video.c, for sizes that have a pixel and whose products stay in the range of a C `int`.
use native.Mathlib.Nat.{
  div-mul-le_self, lt-div-mul-add, div-lt_iff_lt-mul, div-le_of_le-mul, le-div_iff_mul-le, add-mul,
  mul_comm, mul-le-mul_right,
}
use guacenc.Base.{
  ℕ, ◌+◌, ◌-◌, ◌*◌, ◌/◌, ◌≤◌, ◌<◌, ◌≡◌, refl, ap, ◌∙◌, ◌⊎◌, inl, inr, true, Option, none, some,
  arith, leb, if◌then◌else◌, Bool-cases, leb→le,
}

-- `lsize` and `psize` for a buffer of a width and a height and a frame of a width and a height, none when
-- the assertion fails.
unfoldable pub margins : ℕ → ℕ → ℕ → ℕ → Option (ℕ × ℕ)
margins width height dst_width dst_height =
    let scaled_width = width * dst_height / height in
    let scaled_height = height * dst_width / width in
    if leb scaled_width dst_width
    then some (0, (dst_width - scaled_width) * height / dst_height / 2)
    else if leb scaled_height dst_height
    then some ((dst_height - scaled_height) * width / dst_width / 2, 0)
    else none

-- Twice the margin still fits.
padding_fits :
    (a b dst_a dst_b : ℕ)
    → 0 < b
    → a * dst_b / b ≤ dst_a
    → (a + 2 * ((dst_a - a * dst_b / b) * b / dst_b / 2)) * dst_b / b ≤ dst_a
padding_fits a b dst_a dst_b positive fits =
    let s = a * dst_b / b in
    let q = (dst_a - s) * b / dst_b in
    let small : q * dst_b ≤ (dst_a - s) * b = div-mul-le_self ((dst_a - s) * b) dst_b in
    let near : a * dst_b < s * b + b = lt-div-mul-add positive in
    let half : 2 * (q / 2) ≤ q = omega arith in
    let grown : 2 * (q / 2) * dst_b ≤ q * dst_b = mul-le-mul_right dst_b half in
    let split : (a + 2 * (q / 2)) * dst_b ≡ a * dst_b + 2 * (q / 2) * dst_b =
      add-mul a (2 * (q / 2)) dst_b in
    let parts : dst_a ≡ s + (dst_a - s) = omega arith in
    let whole : dst_a * b ≡ s * b + (dst_a - s) * b =
      ap (λ x. x * b) parts ∙ add-mul s (dst_a - s) b in
    let more : (dst_a + 1) * b ≡ dst_a * b + 1 * b = add-mul dst_a 1 b in
    let below : (a + 2 * (q / 2)) * dst_b < (dst_a + 1) * b = omega arith in
    let scaled : (a + 2 * (q / 2)) * dst_b / b < dst_a + 1 = (div-lt_iff_lt-mul positive).1 below in
    omega arith

assertion : (a b dst_a dst_b : ℕ) → 0 < b → dst_a < a * dst_b / b → b * dst_a / a ≤ dst_b
assertion a b dst_a dst_b positive wide =
    let wider : (dst_a + 1) * b ≤ a * dst_b = (le-div_iff_mul-le positive).0 (omega arith) in
    let more : (dst_a + 1) * b ≡ dst_a * b + 1 * b = add-mul dst_a 1 b in
    let turned : b * dst_a ≡ dst_a * b = mul_comm b dst_a in div-le_of_le-mul a (omega arith)

-- For a buffer with pixels, the assertion holds, and only two opposite sides get margins. With them, the
-- side that is scaled along still fits the frame: its width at the height of the frame, or its height at
-- the width of the frame.
pub margins-fit :
    (width height dst_width dst_height : ℕ)
    → 0 < width
    → 0 < height
    → (lsize : ℕ) × (psize : ℕ) × (margins width height dst_width dst_height ≡ some (lsize, psize))
      × (((lsize ≡ 0) × ((width + 2 * psize) * dst_height / height ≤ dst_width))
          ⊎ ((psize ≡ 0) × ((height + 2 * lsize) * dst_width / width ≤ dst_height)))
unfolding margins
margins-fit w h dw dh w_some h_some = elim (Bool-cases (leb (w * dh / h) dw)) [
  | inl fits ↦ (
    0,
    (dw - w * dh / h) * h / dh / 2,
    rw fits,
    inl (refl, padding_fits w h dw dh h_some (leb→le _ _ fits)),
  )
  | inr wide ↦
      let low = assertion w h dw dh h_some (ground (arith, wide)) in
      let holds : leb (h * dw / w) dh ≡ true = ground (arith, low) in
      (
        (dh - h * dw / w) * w / dw / 2,
        0,
        rw (wide, holds),
        inr (refl, padding_fits h w dh dw w_some low),
      )
]
