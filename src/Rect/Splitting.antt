-- ===== src/Rect/Splitting.antt =====
-- The cut of src/common/rect.c: `guac_common_rect_clip_and_split` and the test for an intersection.
use guacenc.Base.{
  ◌≡◌, refl, sym, ◌∙◌, ◌↔◌, ◌⊎◌, inl, inr, Bool, true, false, ◌||◌, Option, none, some, arith, ◌==◌,
  if◌then◌else◌,
}
use mathlib.Core.Path.{subst}
use guacenc.Base.Tests.{branches}
use guacenc.Base.Int.{ℤ, ◌≤ℤ◌, ltb_ℤ}
use guacenc.Rect.{Rect, right, bottom, spanning, intersects, clip_and_split}
use guacenc.Rect.Pixels.{Within, Contains, Contains-spanning, IsInside, le_of_lt, le_of_not}

-- The first set of pixels is split into the other two, the second of which avoids the hole.
abbrev Divides : Type 0 → Type 0 → Type 0 → Type 0 → Type 0
Divides T R S H = (T ↔ (R ⊎ S)) × (¬ (R × S) × ¬ (S × H))

-- What a cut promises of every pixel.
abbrev pub IsCut : Rect → Rect → Option (Rect × Rect) → Type 0
IsCut rect hole none =
    ((px py : ℤ) → ¬ (Contains rect px py × Contains hole px py)) ⊎ IsInside rect hole
IsCut rect hole (some (rest, split)) =
    (px py : ℤ)
    → Divides (Contains rect px py) (Contains rest px py) (Contains split px py)
        (Contains hole px py)

top_cut :
    (l t r b m hl hr hb px py : ℤ)
    → t ≤ℤ m
    → m ≤ℤ b
    → Divides
        (Within l t r b px py)
        (Within l m r b px py)
        (Within l t r m px py)
        (Within hl m hr hb px py)
top_cut l t r b m hl hr hb px py h k = ground (arith, h, k)

left_cut :
    (l t r b m ht hr hb px py : ℤ)
    → l ≤ℤ m
    → m ≤ℤ r
    → Divides
        (Within l t r b px py)
        (Within m t r b px py)
        (Within l t m b px py)
        (Within m ht hr hb px py)
left_cut l t r b m ht hr hb px py h k = ground (arith, h, k)

bottom_cut :
    (l t r b m hl ht hr px py : ℤ)
    → t ≤ℤ m
    → m ≤ℤ b
    → Divides
        (Within l t r b px py)
        (Within l t r m px py)
        (Within l m r b px py)
        (Within hl ht hr m px py)
bottom_cut l t r b m hl ht hr px py h k = ground (arith, h, k)

right_cut :
    (l t r b m hl ht hb px py : ℤ)
    → l ≤ℤ m
    → m ≤ℤ r
    → Divides
        (Within l t r b px py)
        (Within l t m b px py)
        (Within m t r b px py)
        (Within hl ht m hb px py)
right_cut l t r b m hl ht hb px py h k = ground (arith, h, k)

-- The two rectangles by their edges.
of_edges :
    (T H : Type 0) (l t r b l' t' r' b' px py : ℤ)
    → Divides T (Within l t r b px py) (Within l' t' r' b' px py) H
    → Divides T (Contains (spanning l t r b) px py) (Contains (spanning l' t' r' b') px py) H
of_edges T H l t r b l' t' r' b' px py h =
    subst (λ R. Divides T R (Contains (spanning l' t' r' b') px py) H)
      (sym (Contains-spanning l t r b px py))
      (subst (λ S. Divides T (Within l t r b px py) S H) (sym (Contains-spanning l' t' r' b' px py))
        h)

abbrev Meets : Rect → Rect → Type 0
Meets rect hole =
    ((hole.x ≤ℤ right rect) × (rect.x ≤ℤ right hole))
    × ((hole.y ≤ℤ bottom rect) × (rect.y ≤ℤ bottom hole))

-- The test of `guac_common_rect_intersects` for no intersection, on edges.
abbrev beyond : (l t r b hl ht hr hb : ℤ) → Bool
beyond l t r b hl ht hr hb = ltb_ℤ hr l || ltb_ℤ r hl || ltb_ℤ hb t || ltb_ℤ b ht

beyond-apart :
    (l t r b hl ht hr hb px py : ℤ)
    → beyond l t r b hl ht hr hb ≡ true
    → ¬ (Within l t r b px py × Within hl ht hr hb px py)
beyond-apart l t r b hl ht hr hb px py h k = ground (arith, h, k)

beyond-Meets :
    (l t r b hl ht hr hb : ℤ)
    → beyond l t r b hl ht hr hb ≡ false
    → ((hl ≤ℤ r) × (l ≤ℤ hr)) × ((ht ≤ℤ b) × (t ≤ℤ hb))
beyond-Meets l t r b hl ht hr hb h = ground (arith, h)

zero_test : (b c : Bool) → ((if b then 0 else if c then 2 else 1) == 0) ≡ b
zero_test true c = refl
zero_test false true = refl
zero_test false false = refl

intersects_zero :
    (rect hole : Rect)
    → (intersects rect hole == 0)
      ≡ beyond rect.x rect.y (right rect) (bottom rect) hole.x hole.y (right hole) (bottom hole)
unfolding intersects
intersects_zero rect hole = zero_test _ _

apart :
    (rect hole : Rect)
    → (intersects rect hole == 0) ≡ true
    → (px py : ℤ) → ¬ (Contains rect px py × Contains hole px py)
apart rect hole h px py =
    beyond-apart rect.x rect.y (right rect) (bottom rect) hole.x hole.y (right hole) (bottom hole)
      px py (sym (intersects_zero rect hole) ∙ h)

meeting : (rect hole : Rect) → (intersects rect hole == 0) ≡ false → Meets rect hole
meeting rect hole h =
    beyond-Meets rect.x rect.y (right rect) (bottom rect) hole.x hole.y (right hole) (bottom hole)
      (sym (intersects_zero rect hole) ∙ h)

-- A cut divides the rectangle into two with no pixel in common, of which the one split off has no pixel of the hole;
-- where nothing is cut, the rectangle has no pixel of the hole or is inside it.
pub clip_and_split-IsCut : (rect hole : Rect) → IsCut rect hole (clip_and_split rect hole)
unfolding clip_and_split
clip_and_split-IsCut rect hole =
    let P = IsCut rect hole in
    let T = Contains rect in
    let H = Contains hole in
    let l = rect.x in
    let t = rect.y in
    let r = right rect in
    let b = bottom rect in
    let hl = hole.x in
    let ht = hole.y in
    let hr = right hole in
    let hb = bottom hole in
    branches P (intersects rect hole == 0) (λ e. inl (apart rect hole e))
      (λ e.
        let m = meeting rect hole e in
        branches P (ltb_ℤ t ht)
          (λ a px py.
            of_edges (T px py) (H px py) l ht r b l t r ht px py
              (top_cut l t r b ht hl hr hb px py (le_of_lt t ht a) m.1.0))
          (λ a.
            branches P (ltb_ℤ l hl)
              (λ c px py.
                of_edges (T px py) (H px py) hl t r b l t hl b px py
                  (left_cut l t r b hl ht hr hb px py (le_of_lt l hl c) m.0.0))
              (λ c.
                branches P (ltb_ℤ hb b)
                  (λ d px py.
                    of_edges (T px py) (H px py) l t r hb l hb r b px py
                      (bottom_cut l t r b hb hl ht hr px py m.1.1 (le_of_lt hb b d)))
                  (λ d.
                    branches P (ltb_ℤ hr r)
                      (λ f px py.
                        of_edges (T px py) (H px py) l t hr b hr t r b px py
                          (right_cut l t r b hr hl ht hb px py m.0.1 (le_of_lt hr r f)))
                      (λ f. inr (
                        (le_of_not l hl c, le_of_not hr r f),
                        (le_of_not t ht a, le_of_not hb b d),
                      ))))))
