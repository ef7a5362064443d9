-- ===== src/Examples/Parsed.antt =====
-- Arguments with a `strtol` for strings of digits.
use guacenc.Base.{ℕ, ◌≡◌, refl, false, some, List, [], ◌∷◌, ◌++◌, arith}
use guacenc.Base.Int.{pos, neg}
use guacenc.Arguments.{
  Strtol, spelled, AllDigits, ReadsDigits, parse_timestamp, parse_timestamp-digits,
  parse_dimensions, parse_dimensions-digits,
}

abbrev reader : Strtol
reader ds = (pos (spelled 0 ds), [], false)

reader-ReadsDigits : ReadsDigits reader
reader-ReadsDigits ds digits some_digits small = refl

abbrev width : List ℕ
width = b'6' ∷ b'4' ∷ b'0' ∷ []

abbrev height : List ℕ
height = b'4' ∷ b'8' ∷ b'0' ∷ []

width-AllDigits : AllDigits width
width-AllDigits =
    (omega arith, omega arith, (omega arith, omega arith, (omega arith, omega arith, refl)))

height-AllDigits : AllDigits height
height-AllDigits =
    (omega arith, omega arith, (omega arith, omega arith, (omega arith, omega arith, refl)))

parse_timestamp-digits_example :
    (parse_timestamp width ≡ some (pos 640))
    × (parse_timestamp (b'-' ∷ width) ≡ some (neg (pos 640)))
parse_timestamp-digits_example = parse_timestamp-digits width width-AllDigits (omega arith)

parse_dimensions-digits_example :
    parse_dimensions reader (width ++ (b'x' ∷ height)) ≡ some (pos 640, pos 480)
parse_dimensions-digits_example =
    parse_dimensions-digits reader width height reader-ReadsDigits width-AllDigits height-AllDigits
      (ground arith) (ground arith) (omega arith) (omega arith)
