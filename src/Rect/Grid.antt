-- ===== src/Rect/Grid.antt =====
-- The grid of src/common/rect.c: `guac_common_rect_expand_to_grid`.
use guacenc.Base.{ℕ, zero, suc, ◌%◌, ◌<◌, ◌≡◌, refl, sym, ◌↔◌, false, arith, ◌==◌}
use native.Mathlib.Nat.{mod-lt}
use mathlib.Core.Path.{subst}
use guacenc.Base.Tests.{branches}
use guacenc.Base.Int.{ℤ, pos, negsuc, ◌+ℤ◌, ◌-ℤ◌, ◌≤ℤ◌, ltb_ℤ, neg, div_trunc, int_laws}
use guacenc.Rect.{Rect, right, bottom, spanning, fit_axis, rem_trunc, grid_axis, expand_to_grid}
use guacenc.Rect.Pixels.{
  IsInside, right-spanning, bottom-spanning, bounds, upper_bounds, le_of_lt, le_of_not, le_of_lt,
  le_of_not,
}

-- A part of an axis around the given one, and inside the largest.
abbrev Fits : ℤ → ℤ → ℤ → ℤ → ℤ × ℤ → Type 0
Fits s e max_low max_high (low, high) =
    ((low ≤ℤ s) × (e ≤ℤ high)) × ((max_low ≤ℤ low) × (high ≤ℤ max_high))

fit_axis-Fits :
    (s e low high max_low max_high : ℤ)
    → low ≤ℤ s
    → e ≤ℤ high
    → max_low ≤ℤ s
    → e ≤ℤ max_high
    → Fits s e max_low max_high (fit_axis low high max_low max_high)
unfolding fit_axis
fit_axis-Fits s e low high max_low max_high h k m n =
    let P = Fits s e max_low max_high in
    let over = high -ℤ max_high in
    let missing = max_low -ℤ low in
    branches P (ltb_ℤ max_high high)
      (λ a.
        let q = le_of_lt max_high high a in
        let c = upper_bounds max_low (low -ℤ over) s in
        ((c.1 m (omega int_laws), omega int_laws), (c.0.0, omega int_laws)))
      (λ a.
        branches P (ltb_ℤ low max_low)
          (λ b.
            let q = le_of_lt low max_low b in
            let c = bounds max_high (high +ℤ missing) e in
            ((omega int_laws, c.1 n (omega int_laws)), (omega int_laws, c.0.0)))
          (λ b. ((h, k), (le_of_not low max_low b, le_of_not max_high high a))))

neg_parts : (n : ℕ) → neg (pos n) ≤ℤ pos 0
neg_parts zero = omega arith
neg_parts (suc n) = omega arith

-- What is added to an axis is not negative.
missing_pos :
    (size : ℤ) (cell_size : ℕ)
    → 0 < cell_size
    → pos 0 ≤ℤ (pos cell_size -ℤ rem_trunc size cell_size)
unfolding rem_trunc
missing_pos (pos a) c h = let k = mod-lt a h in omega int_laws
missing_pos (negsuc a) c h = let k = neg_parts (suc a % c) in omega int_laws

half_bounds : (d : ℤ) → pos 0 ≤ℤ d → (pos 0 ≤ℤ div_trunc d 2) × (div_trunc d 2 ≤ℤ d)
half_bounds (pos d) h = (omega arith, omega arith)
half_bounds (negsuc d) h = (omega (arith, h), omega (arith, h))

grid_axis-Fits :
    (cell_size : ℕ) (start size max_start max_size : ℤ)
    → 0 < cell_size
    → max_start ≤ℤ start
    → start +ℤ size ≤ℤ max_start +ℤ max_size
    → Fits start
        (start +ℤ size)
        max_start
        (max_start +ℤ max_size)
        (grid_axis cell_size start size max_start max_size)
unfolding grid_axis
grid_axis-Fits cell_size start size max_start max_size h m n =
    let d = pos cell_size -ℤ rem_trunc size cell_size in
    let k = missing_pos size cell_size h in
    let b = half_bounds d k in
    let low = start -ℤ div_trunc d 2 in
    let high = low +ℤ size +ℤ d in
    fit_axis-Fits start (start +ℤ size) low high max_start (max_start +ℤ max_size) (omega int_laws)
      (omega int_laws) m n

-- What a grown rectangle and its answer promise.
abbrev pub IsGrown : ℤ → Rect → Rect → ℤ × Rect → Type 0
IsGrown cell_size rect max_rect o =
    (IsInside rect o.1 × IsInside o.1 max_rect) × ((o.0 ≡ negsuc 0) ↔ (cell_size ≤ℤ pos 0))

spanning-IsInside :
    (rect max_rect : Rect) (l t r b : ℤ)
    → Fits rect.x (right rect) max_rect.x (right max_rect) (l, r)
    → Fits rect.y (bottom rect) max_rect.y (bottom max_rect) (t, b)
    → IsInside rect (spanning l t r b) × IsInside (spanning l t r b) max_rect
unfolding spanning
spanning-IsInside rect max_rect l t r b h k =
    subst
      (λ R.
        (((l ≤ℤ rect.x) × (right rect ≤ℤ R))
          × ((t ≤ℤ rect.y) × (bottom rect ≤ℤ bottom (spanning l t r b))))
        × (((max_rect.x ≤ℤ l) × (R ≤ℤ right max_rect))
            × ((max_rect.y ≤ℤ t) × (bottom (spanning l t r b) ≤ℤ bottom max_rect))))
      (sym (right-spanning l t r b))
      (subst
        (λ B.
          (((l ≤ℤ rect.x) × (right rect ≤ℤ r)) × ((t ≤ℤ rect.y) × (bottom rect ≤ℤ B)))
          × (((max_rect.x ≤ℤ l) × (r ≤ℤ right max_rect))
              × ((max_rect.y ≤ℤ t) × (B ≤ℤ bottom max_rect))))
        (sym (bottom-spanning l t r b)) ((h.0, k.0), (h.1, k.1)))

within_itself :
    (rect max_rect : Rect) → IsInside rect max_rect → IsInside rect rect × IsInside rect max_rect
within_itself rect max_rect h = (((omega arith, omega arith), (omega arith, omega arith)), h)

positive_answer : (n : ℕ) → (n == 0) ≡ false → (pos 0 ≡ negsuc 0) ↔ (pos n ≤ℤ pos 0)
positive_answer n h = grind (arith, h)

grown_axes :
    (n : ℕ) (rect max_rect : Rect)
    → 0 < n
    → IsInside rect max_rect
    → let i = grid_axis n rect.x rect.width max_rect.x max_rect.width in
      let j = grid_axis n rect.y rect.height max_rect.y max_rect.height in
      IsInside rect (spanning i.0 j.0 i.1 j.1) × IsInside (spanning i.0 j.0 i.1 j.1) max_rect
unfolding right bottom
grown_axes n rect max_rect q h =
    let i = grid_axis n rect.x rect.width max_rect.x max_rect.width in
    let j = grid_axis n rect.y rect.height max_rect.y max_rect.height in
    spanning-IsInside rect max_rect i.0 j.0 i.1 j.1
      (grid_axis-Fits n rect.x rect.width max_rect.x max_rect.width q h.0.0 h.0.1)
      (grid_axis-Fits n rect.y rect.height max_rect.y max_rect.height q h.1.0 h.1.1)

-- For a rectangle inside the largest one, the expanded rectangle is around it and still inside the
-- largest, for any cell size; the answer is -1 exactly for a cell size that is not positive.
pub expand_to_grid-IsGrown :
    (cell_size : ℤ) (rect max_rect : Rect)
    → IsInside rect max_rect
    → IsGrown cell_size rect max_rect (expand_to_grid cell_size rect max_rect)
unfolding expand_to_grid
expand_to_grid-IsGrown (negsuc n) rect max_rect h =
    (within_itself rect max_rect h, ((λ e. omega arith), (λ e. refl)))
expand_to_grid-IsGrown (pos n) rect max_rect h =
    let P = IsGrown (pos n) rect max_rect in
    branches P (n == 0)
      (λ a. (within_itself rect max_rect h, ((λ e. ground (arith, a)), (λ e. refl))))
      (λ a.
        branches P (n == 1) (λ b. (within_itself rect max_rect h, positive_answer n a))
          (λ b.
            let q : 0 < n = ground (arith, a) in
            (grown_axes n rect max_rect q h, positive_answer n a)))
