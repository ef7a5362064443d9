-- ===== src/Rect.antt =====
-- Rectangles: src/common/rect.c. Coordinates and sums of them stay in the range of an `int`.
pub mod Pixels
pub mod Splitting
pub mod Grid
use guacenc.Base.{
  ℕ, zero, suc, ◌+◌, ◌-◌, ◌*◌, ◌/◌, ◌%◌, ◌^◌, ◌≤◌, ◌<◌, min, ◌≡◌, refl, sym, ap, ◌∙◌, ◌≢◌, ◌↔◌, ◌⊎◌,
  inl, inr, Bool, true, false, not, ◌&&◌, ◌||◌, Option, none, some, List, [], ◌∷◌, ◌++◌, map,
  append-nil, append_assoc, arith, ltb, leb, ◌==◌, if◌then◌else◌, Bool-cases, Option-cases, tests,
  ltb→lt, lt→ltb, leb→le, ==_iff, length, get_elem?, set, get_or, take, drop, replicate,
  length-append, length-set, length-take, length-drop, length-replicate, length-map,
  get_elem?-set_self, get_elem?-set_ne, take-append-drop, take_left, drop_left, set_middle,
  get_elem?-none,
}
use guacenc.Base.Int.{ℤ, pos, negsuc, ◌+ℤ◌, ◌-ℤ◌, neg, ltb_ℤ, leb_ℤ, eqb_ℤ, div_trunc}

-- `guac_common_rect`
pub record Rect : Type 0 where
  pub x : ℤ
  pub y : ℤ
  pub width : ℤ
  pub height : ℤ

-- `guac_common_rect_init`
abbrev pub init : ℤ → ℤ → ℤ → ℤ → Rect
init x y width height = record { x = x; y = y; width = width; height = height }

-- `x + width` and `y + height`
unfoldable pub right : Rect → ℤ
right rect = rect.x +ℤ rect.width

unfoldable pub bottom : Rect → ℤ
bottom rect = rect.y +ℤ rect.height

-- `guac_common_rect_init(rect, left, top, right - left, bottom - top)`
unfoldable pub spanning : ℤ → ℤ → ℤ → ℤ → Rect
spanning left top right bottom = init left top (right -ℤ left) (bottom -ℤ top)

-- `if (a < b) b = a;` and `if (a > b) b = a;`
unfoldable pub lower : ℤ → ℤ → ℤ
lower a b = if ltb_ℤ a b then a else b

unfoldable pub raise : ℤ → ℤ → ℤ
raise a b = if ltb_ℤ b a then a else b

-- `guac_common_rect_extend`
unfoldable pub extend : Rect → Rect → Rect
unfolding right bottom spanning lower raise
extend rect least =
    spanning (lower least.x rect.x) (lower least.y rect.y) (raise (right least) (right rect))
      (raise (bottom least) (bottom rect))

-- `guac_common_rect_constrain`
unfoldable pub constrain : Rect → Rect → Rect
unfolding right bottom spanning lower raise
constrain rect max_rect =
    spanning (raise max_rect.x rect.x) (raise max_rect.y rect.y)
      (lower (right max_rect) (right rect)) (lower (bottom max_rect) (bottom rect))

-- `a % cell_size` in C, for a positive `cell_size`.
unfoldable pub rem_trunc : ℤ → ℕ → ℤ
rem_trunc (pos a) cell_size = pos (a % cell_size)
rem_trunc (negsuc a) cell_size = neg (pos (suc a % cell_size))

-- The shift and the clamp of one axis in `guac_common_rect_expand_to_grid`: from the edges `low` and
-- `high`, inside those of the largest rectangle.
unfoldable pub fit_axis : ℤ → ℤ → ℤ → ℤ → ℤ × ℤ
unfolding raise lower
fit_axis low high max_low max_high =
    if ltb_ℤ max_high high
    then (raise max_low (low -ℤ (high -ℤ max_high)), high -ℤ (high -ℤ max_high))
    else if ltb_ℤ low max_low
    then (low +ℤ (max_low -ℤ low), lower max_high (high +ℤ (max_low -ℤ low)))
    else (low, high)

-- One axis of the adjusted rectangle.
unfoldable pub grid_axis : ℕ → ℤ → ℤ → ℤ → ℤ → ℤ × ℤ
unfolding rem_trunc fit_axis
grid_axis cell_size start size max_start max_size =
    let d = pos cell_size -ℤ rem_trunc size cell_size in
    let low = start -ℤ div_trunc d 2 in
    let high = low +ℤ size +ℤ d in fit_axis low high max_start (max_start +ℤ max_size)

-- `guac_common_rect_expand_to_grid`: what it returns, and the rectangle.
unfoldable pub expand_to_grid : ℤ → Rect → Rect → ℤ × Rect
unfolding grid_axis spanning
expand_to_grid (negsuc n) rect max_rect = (negsuc 0, rect)
expand_to_grid (pos cell_size) rect max_rect =
    if cell_size == 0
    then (negsuc 0, rect)
    else if cell_size == 1
    then (pos 0, rect)
    else (let (left, right) = grid_axis cell_size rect.x rect.width max_rect.x max_rect.width in
        let (top, bottom) = grid_axis cell_size rect.y rect.height max_rect.y max_rect.height in
        (pos 0, spanning left top right bottom))

-- `guac_common_rect_intersects`
unfoldable pub intersects : Rect → Rect → ℕ
unfolding right bottom
intersects rect other =
    if ltb_ℤ (right other) rect.x
      || ltb_ℤ (right rect) other.x
      || ltb_ℤ (bottom other) rect.y
      || ltb_ℤ (bottom rect) other.y
    then 0
    else if leb_ℤ other.x rect.x
        && leb_ℤ (right rect) (right other)
        && leb_ℤ other.y rect.y
        && leb_ℤ (bottom rect) (bottom other)
    then 2
    else 1

-- `guac_common_rect_clip_and_split`: the rectangle and the one that is split off, none where it
-- returns 0 and changes nothing.
unfoldable pub clip_and_split : Rect → Rect → Option (Rect × Rect)
unfolding intersects right bottom spanning
clip_and_split rect hole =
    if intersects rect hole == 0
    then none
    else if ltb_ℤ rect.y hole.y
    then some (
      spanning rect.x hole.y (right rect) (bottom rect),
      spanning rect.x rect.y (right rect) hole.y,
    )
    else if ltb_ℤ rect.x hole.x
    then some (
      spanning hole.x rect.y (right rect) (bottom rect),
      spanning rect.x rect.y hole.x (bottom rect),
    )
    else if ltb_ℤ (bottom hole) (bottom rect)
    then some (
      spanning rect.x rect.y (right rect) (bottom hole),
      spanning rect.x (bottom hole) (right rect) (bottom rect),
    )
    else if ltb_ℤ (right hole) (right rect)
    then some (
      spanning rect.x rect.y (right hole) (bottom rect),
      spanning (right hole) rect.y (right rect) (bottom rect),
    )
    else none
