-- ===== src/Arguments.antt =====
-- The arguments of the encoder's command line and of its instructions: src/guacenc/parse.c. The standard
-- library's `strtol` is a parameter.
use guacenc.Base.Int.{ℤ, pos, negsuc, ◌+ℤ◌, ◌-ℤ◌, ◌*ℤ◌, neg, leb_ℤ, ltb_ℤ}
use guacenc.Base.Tests.{◌>>=◌}
use guacenc.Base.{
  suc, ◌&&◌, ◌<◌, ◌^◌, ℕ, zero, ◌+◌, ◌-◌, ◌*◌, ◌≤◌, ◌≡◌, refl, ◌≢◌, inl, inr, Bool, true, false,
  not, ◌||◌, Option, none, some, List, [], ◌∷◌, ◌++◌, arith, ◌==◌, if◌then◌else◌, Bool-cases,
}

-- `strtol` in base 10: the value, the rest of the string, and whether `errno` is set.
abbrev pub Strtol : Type 0
Strtol = List ℕ → ℤ × List ℕ × Bool

-- INT_MAX
abbrev pub int_max : ℕ
int_max = 2147483647

abbrev is_empty : List ℕ → Bool
is_empty [] = true
is_empty (c ∷ cs) = false

-- `strchr(arg, 'x')`: what stands before the first 'x', and behind it.
unfoldable pub split_at_x : List ℕ → Option (List ℕ × List ℕ)
split_at_x [] = none
split_at_x (c ∷ cs) =
    let rest = split_at_x cs in
    if c == b'x'
    then some ([], cs)
    else elim rest [ none ↦ none | some (before, behind) ↦ some (c ∷ before, behind) ]

-- The range of an `int64_t`. Arithmetic that leaves it is undefined.
unfoldable pub in_int64 : ℤ → Bool
in_int64 n = leb_ℤ (negsuc 9223372036854775807) n && leb_ℤ n (pos 9223372036854775807)

unfoldable pub checked : ℤ → Option ℤ
checked n = if in_int64 n then some n else none

-- The loop of `guacenc_parse_timestamp`, none where a product or a sum leaves the `int64_t`.
unfoldable pub timestamp_loop : List ℕ → Bool → ℤ → Option ℤ
unfolding checked
timestamp_loop [] negative num = if negative then checked (neg num) else some num
timestamp_loop (c ∷ str) negative num = elim (c == b'-') [
  | true ↦ timestamp_loop str (not negative) num
  | false ↦ do
    tens ← checked (num *ℤ pos 10)
    next ← checked (tens +ℤ (pos c -ℤ pos b'0'))
    timestamp_loop str negative next
]

-- `guacenc_parse_timestamp`
unfoldable pub parse_timestamp : List ℕ → Option ℤ
parse_timestamp str = timestamp_loop str false (pos 0)

module _ (strtol : Strtol) where
  -- `guacenc_parse_int`: none when it fails.
  unfoldable pub parse_int : List ℕ → Option ℤ
  parse_int arg =
      let (value, rest, errno) = strtol arg in
      if errno || leb_ℤ value (pos 0) || ltb_ℤ (pos int_max) value || not (is_empty rest)
      then none
      else some value

  -- `guacenc_parse_dimensions`: none when it fails.
  unfoldable pub parse_dimensions : List ℕ → Option (ℤ × ℤ)
  parse_dimensions arg = elim (split_at_x arg) [
    | none ↦ none
    | some (before, behind) ↦ elim (parse_int before) [
      | none ↦ none
      | some w ↦ elim (parse_int behind) [ none ↦ none | some h ↦ some (w, h) ]
    ]
  ]

-- Decimal digits, and the number that they spell behind `n`.
abbrev pub AllDigits : List ℕ → Type 0
AllDigits [] = zero ≡ zero
AllDigits (c ∷ cs) = (b'0' ≤ c) × (c ≤ b'9') × AllDigits cs

abbrev pub spelled : ℕ → List ℕ → ℕ
spelled n [] = n
spelled n (c ∷ cs) = spelled (n * 10 + (c - b'0')) cs

-- `strtol` on a string of digits, as far as it is relied on.
abbrev pub ReadsDigits : Strtol → Type 0
ReadsDigits strtol =
    (ds : List ℕ)
    → AllDigits ds
    → ds ≢ []
    → spelled 0 ds ≤ int_max
    → strtol ds ≡ (pos (spelled 0 ds), [], false)

abbrev sign_of : Bool → ℕ → ℤ
sign_of negative n = if negative then neg (pos n) else pos n

next_digit : (n c : ℕ) → b'0' ≤ c → pos (n * 10) +ℤ (pos c -ℤ pos b'0') ≡ pos (n * 10 + (c - b'0'))
unfolding ◌+ℤ◌ ◌-ℤ◌
next_digit n c h = ground arith

times_ten : (n : ℕ) → pos n *ℤ pos 10 ≡ pos (n * 10)
unfolding ◌*ℤ◌
times_ten n = ground arith

spelled-le : (n : ℕ) (ds : List ℕ) → n ≤ spelled n ds
spelled-le n [] = omega arith
spelled-le n (c ∷ cs) = let ih = spelled-le (n * 10 + (c - b'0')) cs in omega arith

checked-pos : (n : ℕ) → n < 2 ^ 63 → checked (pos n) ≡ some (pos n)
unfolding checked in_int64
checked-pos n h = ground (arith, h)

checked-sign :
    (n : ℕ) (negative : Bool)
    → n < 2 ^ 63
    → (if negative then checked (neg (pos n)) else some (pos n)) ≡ some (sign_of negative n)
unfolding checked in_int64
checked-sign zero true h = refl
checked-sign (suc n) true h = ground (arith, h)
checked-sign n false h = refl

timestamp_loop-digits :
    (ds : List ℕ) (negative : Bool) (n : ℕ)
    → AllDigits ds
    → spelled n ds < 2 ^ 63
    → timestamp_loop ds negative (pos n) ≡ some (sign_of negative (spelled n ds))
unfolding timestamp_loop
timestamp_loop-digits [] negative n digits small = checked-sign n negative small
timestamp_loop-digits (c ∷ cs) negative n (low, high, more) small =
    let plain : (c == b'-') ≡ false = ground (arith, low) in
    let next = n * 10 + (c - b'0') in
    let le = spelled-le next cs in
    let tens = checked-pos (n * 10) (omega (arith, le, small)) in
    let sum = checked-pos next (omega (arith, le, small)) in
    rw (timestamp_loop, plain, times_ten n, tens, next_digit n c low, sum)
      (timestamp_loop-digits cs negative next more small)

-- A string of digits that spells a number below 2 ^ 63 is read as that number, and behind a minus sign
-- as its negative, with no overflow on the way.
pub parse_timestamp-digits :
    (ds : List ℕ)
    → AllDigits ds
    → spelled 0 ds < 2 ^ 63
    → (parse_timestamp ds ≡ some (pos (spelled 0 ds)))
      × (parse_timestamp (b'-' ∷ ds) ≡ some (neg (pos (spelled 0 ds))))
unfolding parse_timestamp timestamp_loop
parse_timestamp-digits ds digits small =
    (timestamp_loop-digits ds false 0 digits small, timestamp_loop-digits ds true 0 digits small)

split_at_x-digits :
    (ds rest : List ℕ) → AllDigits ds → split_at_x (ds ++ (b'x' ∷ rest)) ≡ some (ds, rest)
unfolding split_at_x
split_at_x-digits [] rest digits = refl
split_at_x-digits (c ∷ cs) rest (low, high, more) =
    let plain : (c == b'x') ≡ false = ground (arith, high) in
    rw (plain, split_at_x-digits cs rest more)

parse_int-digits :
    (strtol : Strtol) (ds : List ℕ)
    → ReadsDigits strtol
    → AllDigits ds
    → ds ≢ []
    → spelled 0 ds ≤ int_max
    → parse_int strtol ds ≡ (if spelled 0 ds == 0 then none else some (pos (spelled 0 ds)))
unfolding parse_int
parse_int-digits strtol ds reads digits some_digits small =
    rw (reads ds digits some_digits small) (ground (arith, small))

-- With a `strtol` that reads digits: two numbers up to INT_MAX, written in decimal around an 'x', are the
-- dimensions that are parsed if neither is 0, and are refused if one is.
pub parse_dimensions-digits :
    (strtol : Strtol) (ws hs : List ℕ)
    → ReadsDigits strtol
    → AllDigits ws
    → AllDigits hs
    → ws ≢ []
    → hs ≢ []
    → spelled 0 ws ≤ int_max
    → spelled 0 hs ≤ int_max
    → parse_dimensions strtol (ws ++ (b'x' ∷ hs)) ≡ (
        if (spelled 0 ws == 0) || (spelled 0 hs == 0)
        then none
        else some (pos (spelled 0 ws), pos (spelled 0 hs)))
unfolding parse_dimensions
parse_dimensions-digits strtol ws hs reads w_digits h_digits w_some h_some w_small h_small =
    let w = spelled 0 ws in
    let h = spelled 0 hs in
    let cut = split_at_x-digits ws hs w_digits in
    let pw = parse_int-digits strtol ws reads w_digits w_some w_small in
    let ph = parse_int-digits strtol hs reads h_digits h_some h_small in
    elim (Bool-cases (w == 0)) [
      | inl zero_width ↦ rw (parse_dimensions, cut, pw, zero_width)
      | inr wide ↦ elim (Bool-cases (h == 0)) [
        | inl zero_height ↦ rw (parse_dimensions, cut, pw, wide, ph, zero_height)
        | inr high ↦ rw (parse_dimensions, cut, pw, wide, ph, high)
      ]
    ]
