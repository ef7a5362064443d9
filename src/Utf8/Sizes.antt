-- ===== src/Utf8/Sizes.antt =====
-- Sizes of characters, and the number of characters in a string.
use guacenc.Base.{ℕ, ◌+◌, ◌≤◌, ◌≡◌, refl, ◌≢◌, List, [], ◌∷◌, ◌++◌, arith, length}
use guacenc.Utf8.{charsize, strlen, strlen_loop}

pub charsize_bounds : (c : ℕ) → (1 ≤ charsize c) × (charsize c ≤ 4)
unfolding charsize
charsize_bounds c = ground arith

-- One character: an initial byte, and as many more as its size asks for, none of them 0.
pub record IsChar (c : ℕ) (tail : List ℕ) : Type 0 where
  pub size : length tail + 1 ≡ charsize c
  pub initial : c ≢ 0

abbrev pub NoNul : List ℕ → Type 0
NoNul [] = Unit {0}
NoNul (b ∷ bs) = (b ≢ 0) × NoNul bs

-- The bytes of a text given by its characters.
abbrev pub bytes : List (ℕ × List ℕ) → List ℕ
bytes [] = []
bytes ((c, tail) ∷ cs) = c ∷ (tail ++ bytes cs)

abbrev pub IsText : List (ℕ × List ℕ) → Type 0
IsText [] = Unit {0}
IsText ((c, tail) ∷ cs) = IsChar c tail × NoNul tail × IsText cs

skip_tail :
    (tail rest : List ℕ) (n : ℕ)
    → NoNul tail
    → strlen_loop (tail ++ rest) (length tail) n ≡ strlen_loop rest 0 n
unfolding strlen_loop
skip_tail [] rest n h = refl
skip_tail (b ∷ bs) rest n h = ground (arith, skip_tail bs rest n h.1)

strlen_loop-bytes :
    (cs : List (ℕ × List ℕ)) (n : ℕ) → IsText cs → strlen_loop (bytes cs) 0 n ≡ n + length cs
unfolding strlen_loop
strlen_loop-bytes [] n h = omega arith
strlen_loop-bytes ((c, tail) ∷ cs) n h =
    ground (arith, skip_tail tail (bytes cs) (n + 1) h.1, strlen_loop-bytes cs (n + 1) h.2)

-- A text of well-formed characters without NUL has as many characters as `guac_utf8_strlen` counts.
pub strlen-bytes : (cs : List (ℕ × List ℕ)) → IsText cs → strlen (bytes cs) ≡ length cs
unfolding strlen
strlen-bytes cs h = omega (arith, strlen_loop-bytes cs 0 h)

-- The bytes that end an element are characters of their own.
pub charsize-comma : charsize b',' ≡ 1
unfolding charsize
charsize-comma = refl

pub charsize-semicolon : charsize b';' ≡ 1
unfolding charsize
charsize-semicolon = refl
