-- ===== src/Examples/Formatting.antt =====
-- Decimal formats of numbers, for the runs of the senders.
use guacenc.Base.{
  ℕ, zero, suc, ◌+◌, ◌-◌, ◌*◌, ◌/◌, ◌%◌, ◌≤◌, ◌<◌, ◌≡◌, ap, ◌∙◌, inl, inr, List, [], ◌∷◌, arith,
  ltb, if◌then◌else◌, Bool-cases, length,
}
use guacenc.Base.Int.{ℤ, pos, negsuc}
use guacenc.Parser.Wire.{AllDigits, digits_value}
use guacenc.Protocol.{Formats}
use guacenc.Protocol.Elements.{AllAscii, IsFormats}

-- The digits of a number with at most so many of them, before `out`.
abbrev emit : ℕ → ℕ → List ℕ → List ℕ
emit zero n out = out
emit (suc places) n out =
    let rest = emit places (n / 10) ((b'0' + n % 10) ∷ out) in
    if ltb n 10 then (b'0' + n) ∷ out else rest

abbrev below : ℕ → ℕ
below zero = 1
below (suc places) = 10 * below places

abbrev format : ℤ → List ℕ
format (pos n) = emit 20 n []
format (negsuc n) = b'-' ∷ emit 20 (suc n) []

emit-digits : (places n : ℕ) (out : List ℕ) → AllDigits out → AllDigits (emit places n out)
emit-digits zero n out h = h
emit-digits (suc places) n out h =
    let rest = emit-digits places (n / 10) ((b'0' + n % 10) ∷ out) (ground arith, h) in
    elim (Bool-cases (ltb n 10)) [ inl e ↦ rw e (ground (arith, e), h) | inr e ↦ rw e rest ]

length-emit : (places n : ℕ) (out : List ℕ) → length (emit places n out) ≤ places + length out
length-emit zero n out = omega arith
length-emit (suc places) n out = ground (arith, length-emit places (n / 10) ((b'0' + n % 10) ∷ out))

digits_value-emit :
    (places n : ℕ) (out : List ℕ)
    → n < below places
    → digits_value (emit places n out) 0 ≡ digits_value out n
digits_value-emit zero n out h = ap (digits_value out) (omega arith)
digits_value-emit (suc places) n out h =
    let rest = digits_value-emit places (n / 10) ((b'0' + n % 10) ∷ out) (omega (arith, h)) in
    let one : 0 + (48 + n - 48) ≡ n = omega arith in
    let joined : n / 10 * 10 + (48 + n % 10 - 48) ≡ n = omega arith in
    elim (Bool-cases (ltb n 10)) [
      | inl e ↦ rw e (ap (digits_value out) one)
      | inr e ↦ rw e (rest ∙ ap (digits_value out) joined)
    ]

digits-ascii : (ds : List ℕ) → AllDigits ds → AllAscii ds
digits-ascii [] h = tt
digits-ascii (d ∷ ds) h = let t = h.0 in (ground (arith, t), ground (arith, t), digits-ascii ds h.1)

abbrev pub decimals : Formats
decimals = record { Double = ℤ; format_int = format; format_double = format }

format-ascii : (i : ℤ) → AllAscii (format i)
format-ascii (pos n) = digits-ascii _ (emit-digits 20 n [] tt)
format-ascii (negsuc n) = (omega arith, omega arith, digits-ascii _ (emit-digits 20 (suc n) [] tt))

length-format : (i : ℤ) → length (format i) < 128
length-format (pos n) = omega (arith, length-emit 20 n [])
length-format (negsuc n) = omega (arith, length-emit 20 (suc n) [])

pub decimals-IsFormats : IsFormats decimals
decimals-IsFormats = record {
  int-ascii = format-ascii;
  int-length = length-format;
  int-digits = λ n. emit-digits 20 n [] tt;
  int-value = λ n h. digits_value-emit 20 n [] (omega (arith, h));
  double-ascii = format-ascii;
  double-length = length-format;
}
