-- ===== src/Examples/Rectangles.antt =====
-- Rectangles of a few pixels.
use guacenc.Base.{◌≡◌, refl, ◌↔◌, some, arith}
use guacenc.Rect.{
  Rect, init, extend, constrain, intersects, clip_and_split, expand_to_grid, spanning, right,
  bottom, lower, raise, grid_axis, fit_axis, rem_trunc,
}
use guacenc.Base.Int.{pos, ◌+ℤ◌, ◌-ℤ◌}
use guacenc.Rect.Pixels.{Contains, IsInside, extend_lem, constrain_lem}
use guacenc.Rect.Splitting.{IsCut, clip_and_split-IsCut}
use guacenc.Rect.Grid.{IsGrown, expand_to_grid-IsGrown}

abbrev screen : Rect
screen = init (pos 0) (pos 0) (pos 100) (pos 80)

abbrev window : Rect
window = init (pos 10) (pos 5) (pos 20) (pos 30)

abbrev hole : Rect
hole = init (pos 15) (pos 10) (pos 5) (pos 5)

-- Above the hole, five rows are split off.
cut_window :
    clip_and_split window hole
    ≡ some (init (pos 10) (pos 10) (pos 20) (pos 25), init (pos 10) (pos 5) (pos 20) (pos 5))
unfolding clip_and_split intersects right bottom spanning ◌+ℤ◌ ◌-ℤ◌
cut_window = refl

-- Twenty is a multiple of four, and the width still grows by four.
grown_window :
    expand_to_grid (pos 4) window screen ≡ (pos 0, init (pos 8) (pos 4) (pos 24) (pos 32))
unfolding expand_to_grid grid_axis fit_axis rem_trunc right bottom spanning raise lower ◌+ℤ◌ ◌-ℤ◌
grown_window = refl

-- Rectangles that only touch count as a partial intersection.
touching : intersects window (init (pos 30) (pos 5) (pos 3) (pos 3)) ≡ 1
unfolding intersects right bottom ◌+ℤ◌
touching = refl

extend_lem_example :
    IsInside (extend window hole) screen ↔ (IsInside window screen × IsInside hole screen)
extend_lem_example = extend_lem window hole screen

constrain_lem_example :
    Contains (constrain screen window) (pos 12) (pos 6)
    ↔ (Contains screen (pos 12) (pos 6) × Contains window (pos 12) (pos 6))
constrain_lem_example = constrain_lem screen window (pos 12) (pos 6)

clip_and_split-IsCut_example : IsCut window hole (clip_and_split window hole)
clip_and_split-IsCut_example = clip_and_split-IsCut window hole

window-IsInside : IsInside window screen
unfolding right bottom ◌+ℤ◌
window-IsInside = ((omega arith, omega arith), (omega arith, omega arith))

expand_to_grid-IsGrown_example :
    IsGrown (pos 4) window screen (expand_to_grid (pos 4) window screen)
expand_to_grid-IsGrown_example = expand_to_grid-IsGrown (pos 4) window screen window-IsInside
