-- ===== src/Rect/Pixels.antt =====
-- Rectangles of src/common/rect.c as sets of pixels.
use guacenc.Base.{◌≡◌, sym, ◌↔◌, ◌⊎◌, true, false, arith}
use mathlib.Core.Path.{subst}
use guacenc.Base.Int.{ltb_ℤ, ℤ, ◌+ℤ◌, ◌-ℤ◌, ◌≤ℤ◌, ◌<ℤ◌, eq_of_parts, int_laws}
use guacenc.Rect.{Rect, right, bottom, spanning, lower, raise, extend, constrain}

-- What the tests say.
pub le_of_lt : (a b : ℤ) → ltb_ℤ a b ≡ true → a ≤ℤ b
le_of_lt a b h = ground (arith, h)

pub le_of_not : (a b : ℤ) → ltb_ℤ a b ≡ false → b ≤ℤ a
le_of_not a b h = ground (arith, h)

-- The pixels between four edges; the right and the bottom one are outside.
abbrev pub Within : ℤ → ℤ → ℤ → ℤ → ℤ → ℤ → Type 0
Within left top right bottom px py = ((left ≤ℤ px) × (px <ℤ right)) × ((top ≤ℤ py) × (py <ℤ bottom))

-- A pixel of a rectangle.
abbrev pub Contains : Rect → ℤ → ℤ → Type 0
Contains rect = Within rect.x rect.y (right rect) (bottom rect)

pub span_end : (low high : ℤ) → low +ℤ (high -ℤ low) ≡ high
span_end low high = eq_of_parts (low +ℤ (high -ℤ low)) high (omega int_laws)

-- The edges of a rectangle that is given by them.
pub right-spanning : (l t r b : ℤ) → right (spanning l t r b) ≡ r
unfolding right spanning
right-spanning l t r b = span_end l r

pub bottom-spanning : (l t r b : ℤ) → bottom (spanning l t r b) ≡ b
unfolding bottom spanning
bottom-spanning l t r b = span_end t b

pub Contains-spanning :
    (l t r b px py : ℤ) → Contains (spanning l t r b) px py ≡ Within l t r b px py
unfolding spanning
Contains-spanning l t r b px py =
    λ i. Within l t (right-spanning l t r b i) (bottom-spanning l t r b i) px py

-- The edges of the constrained and of the extended rectangle, one pixel at a time.
constrained :
    (l t r b l' t' r' b' px py : ℤ)
    → Within (raise l' l) (raise t' t) (lower r' r) (lower b' b) px py
      ↔ (Within l t r b px py × Within l' t' r' b' px py)
unfolding raise lower
constrained l t r b l' t' r' b' px py = ground arith

extended :
    (l t r b l' t' r' b' px py : ℤ)
    → Within l t r b px py ⊎ Within l' t' r' b' px py
    → Within (lower l' l) (lower t' t) (raise r' r) (raise b' b) px py
unfolding raise lower
extended l t r b l' t' r' b' px py h = ground (arith, h)

-- A pixel is in the constrained rectangle exactly when it is in both, also where they have no pixel in
-- common.
pub constrain_lem :
    (rect max_rect : Rect) (px py : ℤ)
    → Contains (constrain rect max_rect) px py ↔ (Contains rect px py × Contains max_rect px py)
unfolding constrain
constrain_lem rect max_rect px py =
    let m = max_rect in
    let e =
      Contains-spanning (raise m.x rect.x) (raise m.y rect.y) (lower (right m) (right rect))
        (lower (bottom m) (bottom rect)) px py in
    subst (λ T. T ↔ (Contains rect px py × Contains max_rect px py)) (sym e)
      (constrained rect.x rect.y (right rect) (bottom rect) m.x m.y (right m) (bottom m) px py)

-- One rectangle inside another, by its edges.
abbrev pub IsInside : Rect → Rect → Type 0
IsInside r s = ((s.x ≤ℤ r.x) × (right r ≤ℤ right s)) × ((s.y ≤ℤ r.y) × (bottom r ≤ℤ bottom s))

pub bounds :
    (a b c : ℤ) → ((lower a b ≤ℤ a) × (lower a b ≤ℤ b)) × ((c ≤ℤ a) → (c ≤ℤ b) → c ≤ℤ lower a b)
unfolding lower
bounds a b c = (ground arith, λ h k. ground (arith, h, k))

pub upper_bounds :
    (a b c : ℤ) → ((a ≤ℤ raise a b) × (b ≤ℤ raise a b)) × ((a ≤ℤ c) → (b ≤ℤ c) → raise a b ≤ℤ c)
unfolding raise
upper_bounds a b c = (ground arith, λ h k. ground (arith, h, k))

down : (a : ℤ) {e f : ℤ} → e ≡ f → f ≤ℤ a → e ≤ℤ a
down a p h = subst (λ z. z ≤ℤ a) (sym p) h

-- The same with the right and the bottom edge of the extended rectangle given.
extended_edges :
    (rect least around : Rect) (R B : ℤ)
    → R ≡ raise (right least) (right rect)
    → B ≡ raise (bottom least) (bottom rect)
    → (((around.x ≤ℤ lower least.x rect.x) × (R ≤ℤ right around))
        × ((around.y ≤ℤ lower least.y rect.y) × (B ≤ℤ bottom around)))
      ↔ (IsInside rect around × IsInside least around)
extended_edges rect least around R B r b =
    let x = bounds least.x rect.x around.x in
    let y = bounds least.y rect.y around.y in
    let c = upper_bounds (right least) (right rect) (right around) in
    let d = upper_bounds (bottom least) (bottom rect) (bottom around) in
    (
      (λ ((h0, h1), (h2, h3)).
          let k1 = down _ (sym r) h1 in
          let k3 = down _ (sym b) h3 in
          (
            ((omega int_laws, omega int_laws), (omega int_laws, omega int_laws)),
            ((omega int_laws, omega int_laws), (omega int_laws, omega int_laws)),
          )),
      λ (((h0, h1), (h2, h3)), ((k0, k1), (k2, k3))).
          ((x.1 k0 h0, down _ r (c.1 k1 h1)), (y.1 k2 h2, down _ b (d.1 k3 h3))),
    )

-- The extended rectangle is the smallest one around both: it is inside another rectangle exactly when
-- both are.
pub extend_lem :
    (rect least around : Rect)
    → IsInside (extend rect least) around ↔ (IsInside rect around × IsInside least around)
unfolding extend
extend_lem rect least around =
    extended_edges rect least around (right (extend rect least)) (bottom (extend rect least))
      (right-spanning (lower least.x rect.x) (lower least.y rect.y)
        (raise (right least) (right rect)) (raise (bottom least) (bottom rect)))
      (bottom-spanning (lower least.x rect.x) (lower least.y rect.y)
        (raise (right least) (right rect)) (raise (bottom least) (bottom rect)))
