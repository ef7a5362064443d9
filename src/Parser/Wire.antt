-- ===== src/Parser/Wire.antt =====
-- The protocol's instructions as bytes: elements behind their lengths in characters, with a comma
-- between elements and a semicolon behind the last; and what the two scans do on them.
use guacenc.Base.{
  ℕ, zero, suc, ◌+◌, ◌-◌, ◌*◌, ◌%◌, ◌^◌, ◌≤◌, ◌<◌, ◌≡◌, ap, ◌∙◌, true, List, [], ◌∷◌, ◌++◌,
  append_assoc, arith, length, drop, length-append, drop_left,
}
use guacenc.Utf8.{charsize}
use guacenc.Utf8.Sizes.{bytes}
use guacenc.Parser.{period, scan_length, terminator, scan_content, is_digit, max_length}

-- An element: the digits of its length, and its characters, each an initial byte and the rest of it.
pub record Element : Type 0 where
  pub digits : List ℕ
  pub chars : List (ℕ × List ℕ)

abbrev pub AllDigits : List ℕ → Type 0
AllDigits [] = Unit {0}
AllDigits (c ∷ cs) = (is_digit c ≡ true) × AllDigits cs

abbrev pub digits_value : List ℕ → ℕ → ℕ
digits_value [] v = v
digits_value (c ∷ cs) v = digits_value cs (v * 10 + (c - b'0'))

-- Each character has the number of bytes that its initial byte announces.
abbrev pub AllChars : List (ℕ × List ℕ) → Type 0
AllChars [] = Unit {0}
AllChars ((c, tail) ∷ cs) = (length tail + 1 ≡ charsize c) × AllChars cs

pub record IsElement (e : Element) : Type 0 where
  pub digits : AllDigits e.digits
  pub counts : digits_value e.digits 0 ≡ length e.chars
  pub chars : AllChars e.chars
  pub short : length e.chars ≤ max_length

digits_value-le : (cs : List ℕ) (v : ℕ) → v ≤ digits_value cs v
digits_value-le [] v = omega arith
digits_value-le (c ∷ cs) v = omega (arith, digits_value-le cs (v * 10 + (c - b'0')))

scan_length-digit :
    (c : ℕ) (cs : List ℕ) (v used : ℕ)
    → is_digit c ≡ true
    → scan_length (c ∷ cs) v used ≡ scan_length cs ((v * 10 + c - b'0') % 2 ^ 32) (used + 1)
unfolding scan_length
scan_length-digit c cs v used d = ground (arith, d)

pub scan_length-digits :
    (cs rest : List ℕ) (v used : ℕ)
    → AllDigits cs
    → digits_value cs v ≤ max_length
    → scan_length (cs ++ (b'.' ∷ rest)) v used ≡ period (digits_value cs v) (used + (length cs + 1))
unfolding scan_length
scan_length-digits [] rest v used d m = ground arith
scan_length-digits (c ∷ cs) rest v used d m =
    let exact : (v * 10 + c - b'0') % 2 ^ 32 ≡ v * 10 + (c - b'0') =
      ground (arith, d.0, digits_value-le cs (v * 10 + (c - b'0'))) in
    scan_length-digit c (cs ++ (b'.' ∷ rest)) v used d.0
    ∙ ap (λ n. scan_length (cs ++ (b'.' ∷ rest)) n (used + 1)) exact
    ∙ scan_length-digits cs rest (v * 10 + (c - b'0')) (used + 1) d.1 m
    ∙ ap (period (digits_value cs (v * 10 + (c - b'0')))) (omega arith)

scan_content-char :
    (rounds c : ℕ) (cs : List ℕ) (v used : ℕ)
    → v < max_length
    → charsize c ≤ length cs + 1
    → scan_content (suc rounds) (c ∷ cs) (suc v) used
      ≡ scan_content rounds (drop (charsize c - 1) cs) v (used + charsize c)
unfolding scan_content
scan_content-char rounds c cs v used m h =
    let exact : (suc v + 2 ^ 32 - 1) % 2 ^ 32 ≡ v = omega arith in ground (arith, exact)

pub scan_content-chars :
    (rounds : ℕ) (cs : List (ℕ × List ℕ)) (t : ℕ) (rest : List ℕ) (used : ℕ)
    → AllChars cs
    → length cs ≤ max_length
    → charsize t ≡ 1
    → length cs < rounds
    → scan_content rounds (bytes cs ++ (t ∷ rest)) (length cs) used
      ≡ terminator t (used + length (bytes cs)) (used + length (bytes cs) + 1)
unfolding scan_content
scan_content-chars zero cs t rest used a m one h = absurd (omega arith)
scan_content-chars (suc rounds) [] t rest used a m one h = ground (arith, one)
scan_content-chars (suc rounds) ((c, tail) ∷ cs) t rest used a m one h =
    let behind = bytes cs ++ (t ∷ rest) in
    let size : charsize c - 1 ≡ length tail = omega (arith, a.0) in
    let dropped : drop (charsize c - 1) (tail ++ behind) ≡ behind =
      rw size (drop_left tail behind) in
    let next : used + charsize c ≡ used + suc (length tail) = omega (arith, a.0) in
    let all : length (tail ++ bytes cs) ≡ length tail + length (bytes cs) =
      length-append tail (bytes cs) in
    ap (λ l. scan_content (suc rounds) (c ∷ l) (suc (length cs)) used)
      (append_assoc tail (bytes cs) (t ∷ rest))
    ∙ scan_content-char rounds c (tail ++ behind) (length cs) used m
        (omega (arith, a.0, length-append tail behind))
    ∙ ap (λ l. scan_content rounds l (length cs) (used + charsize c)) dropped
    ∙ scan_content-chars rounds cs t rest (used + charsize c) a.1 (omega arith) one (omega arith)
    ∙ rw next (ground (arith, all))
