-- ===== src/Parser/Scans.antt =====
-- How far the two loops of `guac_parser_append` go.
use guacenc.Base.{
  ℕ, zero, suc, ◌+◌, ◌-◌, ◌*◌, ◌%◌, ◌^◌, ◌≤◌, ◌<◌, List, [], ◌∷◌, arith, length, length-drop, drop,
}
use guacenc.Utf8.{charsize}
use guacenc.Utf8.Sizes.{charsize_bounds}
use guacenc.Parser.{
  LengthScan, more, period, bad, scan_length, ContentScan, pause, terminator, scan_content,
}

-- A scan that began behind `before` bytes and had `n` bytes at hand.
abbrev pub LengthWithin : ℕ → ℕ → LengthScan → Type 0
LengthWithin before n (more _) = Unit
LengthWithin before n (period _ used) = (before < used) × (used ≤ before + n)
LengthWithin before n bad = Unit

abbrev pub ContentWithin : ℕ → ℕ → ContentScan → Type 0
ContentWithin before n (pause _ used) = (before ≤ used) × (used ≤ before + n)
ContentWithin before n (terminator _ at used) = (before ≤ at) × (at < used) × (used ≤ before + n)

LengthWithin-step :
    (before n : ℕ) (r : LengthScan) → LengthWithin (before + 1) n r → LengthWithin before (suc n) r
LengthWithin-step before n (more _) h = tt
LengthWithin-step before n (period _ used) h = omega arith
LengthWithin-step before n bad h = tt

pub scan_length-Within :
    (cs : List ℕ) (v before : ℕ) → LengthWithin before (length cs) (scan_length cs v before)
unfolding scan_length
scan_length-Within [] v before = tt
scan_length-Within (c ∷ cs) v before = ground (
  arith,
  LengthWithin-step before (length cs) _
      (scan_length-Within cs ((v * 10 + c - b'0') % 2 ^ 32) (before + 1)),
)

ContentWithin-step :
    (before n k m : ℕ) (r : ContentScan)
    → m + k ≤ n
    → ContentWithin (before + k) m r
    → ContentWithin before n r
ContentWithin-step before n k m (pause _ used) e h = omega arith
ContentWithin-step before n k m (terminator _ at used) e h = omega arith

pub scan_content-Within :
    (rounds : ℕ) (cs : List ℕ) (v before : ℕ)
    → ContentWithin before (length cs) (scan_content rounds cs v before)
unfolding scan_content
scan_content-Within zero cs v before = omega arith
scan_content-Within (suc rounds) [] v before = omega arith
scan_content-Within (suc rounds) (c ∷ cs) v before = ground (
  arith,
  charsize_bounds c,
  length-drop (charsize c - 1) cs,
  ContentWithin-step before (suc (length cs)) (charsize c) (length (drop (charsize c - 1) cs)) _,
  scan_content-Within rounds (drop (charsize c - 1) cs) ((v + 2 ^ 32 - 1) % 2 ^ 32)
      (before + charsize c),
)
